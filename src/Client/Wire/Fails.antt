-- ===== src/Client/Wire/Fails.antt =====
-- The failures that an effect can end in.
use rustymail.Base.{Bool, true, false, if◌then◌else◌}
use rustymail.Base.Try.{Try, good, bad}
use rustymail.Client.{Failure}
use rustymail.Client.Wire.{Wire, Act, continue_with, ◌>>=◌, ◌>>◌, ensure, from_try, give, fail}

module _ (Q : Failure → Type 0) where
  abbrev pub FailsIn {ℓ} : {T : Type ℓ} → Try Failure T → Type 0
  FailsIn (good t) = Unit
  FailsIn (bad e) = Q e

  -- Every failure of the effect is one of these.
  abbrev pub Fails {ℓ} : {T : Type ℓ} → Act T → Type 0
  Fails act = (w : Wire) → FailsIn (act w).1

  continued-Fails {ℓ κ} :
      {T : Type ℓ} {U : Type κ} (r : Wire × Try Failure T) (next : T → Act U)
      → FailsIn r.1
      → ((t : T) → Fails (next t))
      → FailsIn (continue_with next r).1
  continued-Fails (w, bad e) next h k = h
  continued-Fails (w, good t) next h k = k t w

  pub chain-Fails {ℓ κ} :
      {T : Type ℓ} {U : Type κ} (act : Act T) (next : T → Act U)
      → Fails act
      → ((t : T) → Fails (next t))
      → Fails (act >>= next)
  unfolding ◌>>=◌
  chain-Fails act next a k w = continued-Fails (act w) next (a w) k

  pub then-Fails {ℓ} :
      {T : Type ℓ} (act : Act (Unit {0})) (next : Act T)
      → Fails act
      → Fails next
      → Fails (act >> next)
  unfolding ◌>>◌
  then-Fails act next a k w = continued-Fails (act w) (λ _. next) (a w) (λ _. k)

  pub ensure-Fails : (b : Bool) (e : Failure) → Q e → Fails (ensure b e)
  unfolding ensure give fail
  ensure-Fails true e q w = tt
  ensure-Fails false e q w = q

  pub give-Fails {ℓ} : {T : Type ℓ} (t : T) → Fails (give t)
  unfolding give
  give-Fails t w = tt

  pub fail-Fails {ℓ} : (T : Type ℓ) (e : Failure) → Q e → Fails (fail {T = T} e)
  unfolding fail
  fail-Fails T e q w = q

  pub from_try-Fails {ℓ} : {T : Type ℓ} (r : Try Failure T) → FailsIn r → Fails (from_try r)
  unfolding from_try
  from_try-Fails r h w = h

  pub if_Fails {ℓ} :
      {T : Type ℓ} (b : Bool) (left right : Act T)
      → Fails left
      → Fails right
      → Fails (if b then left else right)
  if_Fails true left right l r = l
  if_Fails false left right l r = r

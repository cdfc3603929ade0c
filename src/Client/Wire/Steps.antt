-- ===== src/Client/Wire/Steps.antt =====
-- Chains of effects on a wire: a chain that succeeds, and what no effect of a chain changes.
use rustymail.Base.{◌≡◌, refl, ap, Bool, true, false, ◌∷◌, arith, if◌then◌else◌}
use rustymail.Base.Try.{Try, good, bad, good-injective}
use rustymail.Client.{Failure}
use rustymail.Client.Wire.{
  Wire, Event, Act, continue_with, ◌>>=◌, ◌>>◌, ensure, write, from_try, give, fail,
}

module _ {ℓ κ} {T : Type ℓ} {U : Type κ} where
  continued-good :
      (r : Wire × Try Failure T) (next : T → Act U) {w' : Wire} {u : U}
      → continue_with next r ≡ (w', good u)
      → (w1 : Wire) × (t : T) × (r ≡ (w1, good t)) × (next t w1 ≡ (w', good u))
  continued-good (w1, bad e) next h = ground arith
  continued-good (w1, good t) next h = (w1, t, refl, h)

  -- A chain that succeeds has a first effect that succeeds.
  pub chain-good :
      (act : Act T) (next : T → Act U) (w : Wire) {w' : Wire} {u : U}
      → (act >>= next) w ≡ (w', good u)
      → (w1 : Wire) × (t : T) × (act w ≡ (w1, good t)) × (next t w1 ≡ (w', good u))
  unfolding ◌>>=◌
  chain-good act next w h = continued-good (act w) next h

pub then-good {ℓ} :
    {T : Type ℓ} (act : Act (Unit {0})) (next : Act T) (w : Wire) {w' : Wire} {t : T}
    → (act >> next) w ≡ (w', good t)
    → (w1 : Wire) × (act w ≡ (w1, good tt)) × (next w1 ≡ (w', good t))
unfolding ◌>>◌
then-good act next w h =
    let (w1, u, first, rest) = continued-good (act w) (λ _. next) h in (w1, first, rest)

pub ensure-good :
    (b : Bool) (e : Failure) (w : Wire) {w' : Wire}
    → ensure b e w ≡ (w', good tt)
    → (b ≡ true) × (w ≡ w')
unfolding ensure give fail
ensure-good true e w h = ground arith
ensure-good false e w h = ground arith

pub write-good :
    (e : Event) (w : Wire) {w' : Wire} → write e w ≡ (w', good tt) → (e ∷ w.log) ≡ w'.log
unfolding write
write-good e w h = ap (λ (r : Wire × Try Failure (Unit {0})). r.0.log) h

pub from_try-good {ℓ} :
    {T : Type ℓ} (r : Try Failure T) (w : Wire) {w' : Wire} {t : T}
    → from_try r w ≡ (w', good t)
    → (r ≡ good t) × (w ≡ w')
unfolding from_try
from_try-good {T} r w h =
    (ap (λ (p : Wire × Try Failure T). p.1) h, ap (λ (p : Wire × Try Failure T). p.0) h)

pub give-good {ℓ} :
    {T : Type ℓ} (t : T) (w : Wire) {w' : Wire} {u : T}
    → give t w ≡ (w', good u)
    → (t ≡ u) × (w ≡ w')
unfolding give
give-good t w h = (good-injective (ap (λ p. p.1) h), ap (λ p. p.0) h)

pub fail-good {ℓ κ} :
    {T : Type ℓ} {A : Type κ} (e : Failure) (w : Wire) {w' : Wire} {t : T}
    → fail e w ≡ (w', good t)
    → A
unfolding fail
fail-good e w h = ground arith

-- A property of the wire that an effect keeps, whether it succeeds or fails.
module _ {π} (P : Wire → Type π) where
  abbrev pub Keeps {ℓ} : {T : Type ℓ} → Act T → Type (π)
  Keeps act = (w : Wire) → P w → P (act w).0

  continued-Keeps {ℓ κ} :
      {T : Type ℓ} {U : Type κ} (r : Wire × Try Failure T) (next : T → Act U)
      → P r.0
      → ((t : T) → Keeps (next t))
      → P (continue_with next r).0
  continued-Keeps (w, bad e) next h k = h
  continued-Keeps (w, good t) next h k = k t w h

  pub chain-Keeps {ℓ κ} :
      {T : Type ℓ} {U : Type κ} (act : Act T) (next : T → Act U)
      → Keeps act
      → ((t : T) → Keeps (next t))
      → Keeps (act >>= next)
  unfolding ◌>>=◌
  chain-Keeps act next a k w h = continued-Keeps (act w) next (a w h) k

  pub then-Keeps {ℓ} :
      {T : Type ℓ} (act : Act (Unit {0})) (next : Act T)
      → Keeps act
      → Keeps next
      → Keeps (act >> next)
  unfolding ◌>>◌
  then-Keeps act next a k w h = continued-Keeps (act w) (λ _. next) (a w h) (λ _. k)

  pub ensure-Keeps : (b : Bool) (e : Failure) → Keeps (ensure b e)
  unfolding ensure give fail
  ensure-Keeps true e w h = h
  ensure-Keeps false e w h = h

  pub give-Keeps {ℓ} : {T : Type ℓ} (t : T) → Keeps (give t)
  unfolding give
  give-Keeps t w h = h

  pub fail-Keeps {ℓ} : (T : Type ℓ) (e : Failure) → Keeps (fail {T = T} e)
  unfolding fail
  fail-Keeps T e w h = h

  pub from_try-Keeps {ℓ} : {T : Type ℓ} (r : Try Failure T) → Keeps (from_try r)
  unfolding from_try
  from_try-Keeps r w h = h

  pub if_Keeps {ℓ} :
      {T : Type ℓ} (b : Bool) (left right : Act T)
      → Keeps left
      → Keeps right
      → Keeps (if b then left else right)
  if_Keeps true left right l r = l
  if_Keeps false left right l r = r

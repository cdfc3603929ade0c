-- ===== src/Command/Outcome.antt =====
-- `Result<_, ParseError>` of crates/protocol/src/lib.rs.
use rustymail.Base.{◌≡◌, refl}

pub data ParseError : Type 0 where
  syntax unsupported_parameter : ParseError

pub data Result {ℓ} (A : Type ℓ) : Type ℓ where
  ok : A → Result A
  err : ParseError → Result A

-- `?`
module _ {ℓ κ} {T : Type ℓ} {U : Type κ} where
  infixl 5 ◌>>=◌
  abbrev pub ◌>>=◌ : Result T → (T → Result U) → Result U
  err e >>= next = err e
  ok t >>= next = next t

  -- A chain that succeeds has a first step that succeeds.
  pub bind-eq-ok :
      (first : Result T) (next : T → Result U) {u : U}
      → (first >>= next) ≡ ok u
      → (t : T) × (first ≡ ok t) × (next t ≡ ok u)
  bind-eq-ok (err e) next h = cc
  bind-eq-ok (ok t) next h = (t, refl, h)

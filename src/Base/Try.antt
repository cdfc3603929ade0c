-- ===== src/Base/Try.antt =====
-- `Result<T, E>` for an error type of any component, and its `?`.
use mathlib.Core.Path.{◌≡◌, refl}
use native.Mathlib.Omega.{arith}

pub data Try {ε ℓ} (E : Type ε) (T : Type ℓ) : Type (ε ⊔ ℓ) where
  good : T → Try E T
  bad : E → Try E T

module _ {ε ℓ κ} {E : Type ε} {T : Type ℓ} {U : Type κ} where
  infixl 5 ◌>>=◌
  abbrev pub ◌>>=◌ : Try E T → (T → Try E U) → Try E U
  bad e >>= next = bad e
  good t >>= next = next t

  pub bind-eq-good :
      (r : Try E T) (next : T → Try E U) {u : U}
      → (r >>= next) ≡ good u
      → (t : T) × (r ≡ good t) × (next t ≡ good u)
  bind-eq-good (bad e) next h = cc
  bind-eq-good (good t) next h = (t, refl, h)

module _ {ε ℓ} {E : Type ε} {T : Type ℓ} where
  infixl 5 ◌>>◌
  abbrev pub ◌>>◌ : Try E (Unit {0}) → Try E T → Try E T
  bad e >> next = bad e
  good _ >> next = next

  pub then-eq-good :
      (r : Try E (Unit {0})) (next : Try E T) {t : T}
      → (r >> next) ≡ good t
      → (r ≡ good tt) × (next ≡ good t)
  then-eq-good (bad e) next h = cc
  then-eq-good (good tt) next h = (refl, h)

pub good-injective {ε ℓ} :
    {E : Type ε} {T : Type ℓ} {s t : T} → ◌≡◌ {A = Try E T} (good s) (good t) → s ≡ t
good-injective h = ground arith

-- ===== src/Queue/Claim/Yields.antt =====
-- A property of what a chain yields when it has no error.
use rustymail.Base.{◌≡◌, refl, Bool, true, false, if◌then◌else◌}
use rustymail.Queue.Rows.{Result, ok, err, ◌>>=◌}

abbrev pub Yields {ℓ κ} : {A : Type ℓ} → (A → Type κ) → Result A → Type κ
Yields P (err e) = Unit
Yields P (ok a) = P a

pub Yields-bind {ℓ κ μ} :
    {A : Type ℓ} {B : Type κ} (P : B → Type μ) (r : Result A) (f : A → Result B)
    → ((a : A) → r ≡ ok a → Yields P (f a))
    → Yields P (r >>= f)
Yields-bind P (err e) f k = tt
Yields-bind P (ok a) f k = k a refl

pub if_Yields {ℓ κ} :
    {A : Type ℓ} (P : A → Type κ) (b : Bool) (x y : Result A)
    → Yields P x
    → Yields P y
    → Yields P (if b then x else y)
if_Yields P true x y h k = h
if_Yields P false x y h k = k

pub Yields-then {ℓ κ μ ν} :
    {A : Type ℓ} {B : Type κ} (P : A → Type μ) (Q : B → Type ν) (r : Result A) (f : A → Result B)
    → Yields P r
    → ((a : A) → P a → Yields Q (f a))
    → Yields Q (r >>= f)
Yields-then P Q (err e) f h k = tt
Yields-then P Q (ok a) f h k = k a h

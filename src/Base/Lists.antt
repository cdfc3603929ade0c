-- ===== src/Base/Lists.antt =====
-- Lists measured by native numbers, Boolean and type-valued quantifiers over a list.
use Prim.Native.Nat.{ℕ, zero, suc, ◌+◌}
use mathlib.Core.Path.{◌≡◌, refl, ap}
use mathlib.Core.Bool.{Bool, true, false, ◌&&◌, ◌||◌}
use mathlib.Core.List.{List, [], ◌∷◌, ◌++◌, map}
use native.Mathlib.Omega.{arith}

module _ {ℓ} {A : Type ℓ} where
  abbrev pub length : List A → ℕ
  length [] = 0
  length (x ∷ xs) = suc (length xs)

  abbrev pub drop : ℕ → List A → List A
  drop zero xs = xs
  drop (suc n) [] = []
  drop (suc n) (x ∷ xs) = drop n xs

  pub length-append : (xs ys : List A) → length (xs ++ ys) ≡ length xs + length ys
  length-append [] ys = omega arith
  length-append (x ∷ xs) ys = omega (arith, length-append xs ys)

  pub drop-append : (xs ys : List A) → drop (length xs) (xs ++ ys) ≡ ys
  drop-append [] ys = refl
  drop-append (x ∷ xs) ys = drop-append xs ys

  -- `iter().all(..)` and `iter().any(..)`
  abbrev pub all : (A → Bool) → List A → Bool
  all p [] = true
  all p (x ∷ xs) = p x && all p xs

  abbrev pub any : (A → Bool) → List A → Bool
  any p [] = false
  any p (x ∷ xs) = p x || any p xs

  pub all-append :
      (p : A → Bool) (xs ys : List A) → all p xs ≡ true → all p ys ≡ true → all p (xs ++ ys) ≡ true
  all-append p [] ys hx hy = hy
  all-append p (x ∷ xs) ys hx hy = ground (arith, all-append p xs ys)

  pub all-append_left : (p : A → Bool) (xs ys : List A) → all p (xs ++ ys) ≡ true → all p xs ≡ true
  all-append_left p [] ys h = refl
  all-append_left p (x ∷ xs) ys h = ground (arith, all-append_left p xs ys)

  pub all-append_right : (p : A → Bool) (xs ys : List A) → all p (xs ++ ys) ≡ true → all p ys ≡ true
  all-append_right p [] ys h = h
  all-append_right p (x ∷ xs) ys h = all-append_right p xs ys (ground arith)

  -- A test that implies another one.
  pub all_mono :
      (p q : A → Bool) (xs : List A)
      → ((x : A) → p x ≡ true → q x ≡ true)
      → all p xs ≡ true
      → all q xs ≡ true
  all_mono p q [] imp h = refl
  all_mono p q (x ∷ xs) imp h = ground (arith, imp x, all_mono p q xs imp)

module _ {ℓ κ} {A : Type ℓ} where
  abbrev pub All : (A → Type κ) → List A → Type κ
  All P [] = Unit
  All P (x ∷ xs) = P x × All P xs

  pub All-append :
      (P : A → Type κ) (front back : List A) → All P front → All P back → All P (front ++ back)
  All-append P [] back f b = b
  All-append P (x ∷ front) back (p, f) b = (p, All-append P front back f b)

pub length-map {ℓ κ} :
    {A : Type ℓ} {B : Type κ} (f : A → B) (xs : List A) → length (map f xs) ≡ length xs
length-map f [] = refl
length-map f (x ∷ xs) = ap suc (length-map f xs)

-- ===== src/Bytes/Split.antt =====
-- Laws of `split_once` and `rsplit_once`: what they return, and what they find.
use rustymail.Base.{ℕ, ◌≡◌, refl, false, [], ◌∷◌, ◌++◌, Option, none, some, arith}
use rustymail.Bytes.{Bytes, contains, split_once, rsplit_once}

-- The text is the two parts around `c`, and the second part has no `c`.
abbrev pub SplitLast : ℕ → Bytes → Option (Bytes × Bytes) → Type 0
SplitLast c s none = contains c s ≡ false
SplitLast c s (some (a, b)) = (s ≡ a ++ (c ∷ b)) × (contains c b ≡ false)

pub rsplit_once-SplitLast : (c : ℕ) (s : Bytes) → SplitLast c s (rsplit_once c s)
unfolding rsplit_once
rsplit_once-SplitLast c [] = refl
rsplit_once-SplitLast c (x ∷ xs) = ground (arith, rsplit_once-SplitLast c xs)

pub rsplit_once-append :
    (c : ℕ) (a b : Bytes) → contains c b ≡ false → rsplit_once c (a ++ (c ∷ b)) ≡ some (a, b)
unfolding rsplit_once
rsplit_once-append c [] b h = ground (arith, rsplit_once-none c b h)
  where
    rsplit_once-none : (c : ℕ) (b : Bytes) → contains c b ≡ false → rsplit_once c b ≡ none
    rsplit_once-none c [] h = refl
    rsplit_once-none c (x ∷ xs) h = ground (arith, rsplit_once-none c xs)
rsplit_once-append c (x ∷ a) b h = ground (arith, rsplit_once-append c a b h)

-- The text is the two parts around `c`, and the first part has no `c`.
abbrev pub SplitFirst : ℕ → Bytes → Option (Bytes × Bytes) → Type 0
SplitFirst c s none = contains c s ≡ false
SplitFirst c s (some (a, b)) = (s ≡ a ++ (c ∷ b)) × (contains c a ≡ false)

pub split_once-SplitFirst : (c : ℕ) (s : Bytes) → SplitFirst c s (split_once c s)
unfolding split_once
split_once-SplitFirst c [] = refl
split_once-SplitFirst c (x ∷ xs) = ground (arith, split_once-SplitFirst c xs)

pub split_once-append :
    (c : ℕ) (a b : Bytes) → contains c a ≡ false → split_once c (a ++ (c ∷ b)) ≡ some (a, b)
unfolding split_once
split_once-append c [] b h = ground arith
split_once-append c (x ∷ a) b h = ground (arith, split_once-append c a b)

-- ===== src/Address/Case.antt =====
-- How the tests of `parse` and `valid_domain` see letter case.
use rustymail.Base.{
  ℕ, ◌≡◌, refl, ap, true, false, List, [], ◌∷◌, ◌++◌, arith, ◌==◌, length-map, all, map,
}
use rustymail.Bytes.{
  Bytes, is_alphanumeric, to_lower, lowercase, is_empty, starts_with, ends_with, contains,
  contains_twice, split,
}
use rustymail.Address.{
  first_is, last_is, label_byte, valid_label, valid_domain, valid_local, local_byte,
}

pub is_alphanumeric-to_lower : (c : ℕ) → is_alphanumeric (to_lower c) ≡ is_alphanumeric c
unfolding is_alphanumeric to_lower
is_alphanumeric-to_lower c = ground arith

to_lower-eq_symbol : (c d : ℕ) → is_alphanumeric d ≡ false → (to_lower c == d) ≡ (c == d)
unfolding is_alphanumeric to_lower
to_lower-eq_symbol c d h = ground arith

pub split-ne-nil : (c : ℕ) (s : Bytes) → is_empty (split c s) ≡ false
unfolding split
split-ne-nil c [] = refl
split-ne-nil c (x ∷ xs) = ground (arith, split-ne-nil c xs)

split-lowercase :
    (c : ℕ) (s : Bytes)
    → is_alphanumeric c ≡ false
    → split c (lowercase s) ≡ map lowercase (split c s)
unfolding split
split-lowercase c [] h = refl
split-lowercase c (x ∷ xs) h =
    ground (arith, split-lowercase c xs h, to_lower-eq_symbol x c h, split-ne-nil c xs)

first_is-lowercase :
    (s : Bytes) → first_is is_alphanumeric (lowercase s) ≡ first_is is_alphanumeric s
unfolding first_is
first_is-lowercase [] = refl
first_is-lowercase (x ∷ xs) = is_alphanumeric-to_lower x

last_is-lowercase : (s : Bytes) → last_is is_alphanumeric (lowercase s) ≡ last_is is_alphanumeric s
unfolding last_is
last_is-lowercase [] = refl
last_is-lowercase (x ∷ []) = is_alphanumeric-to_lower x
last_is-lowercase (x ∷ y ∷ ys) = last_is-lowercase (y ∷ ys)

dash_symbol : is_alphanumeric b'-' ≡ false
unfolding is_alphanumeric
dash_symbol = refl

pub dot_symbol : is_alphanumeric b'.' ≡ false
unfolding is_alphanumeric
dot_symbol = refl

label_byte-to_lower : (x : ℕ) → label_byte (to_lower x) ≡ label_byte x
label_byte-to_lower x = cc (is_alphanumeric-to_lower x, to_lower-eq_symbol x b'-' dash_symbol)

all-label_byte-lowercase : (s : Bytes) → all label_byte (lowercase s) ≡ all label_byte s
all-label_byte-lowercase [] = refl
all-label_byte-lowercase (x ∷ xs) = cc (label_byte-to_lower x, all-label_byte-lowercase xs)

is_empty-lowercase : (s : Bytes) → is_empty (lowercase s) ≡ is_empty s
is_empty-lowercase [] = refl
is_empty-lowercase (x ∷ xs) = refl

valid_label-lowercase : (s : Bytes) → valid_label (lowercase s) ≡ valid_label s
unfolding valid_label
valid_label-lowercase s = cc (
  is_empty-lowercase s,
  length-map to_lower s,
  first_is-lowercase s,
  last_is-lowercase s,
  all-label_byte-lowercase s,
)

all-valid_label-lowercase :
    (ls : List Bytes) → all valid_label (map lowercase ls) ≡ all valid_label ls
all-valid_label-lowercase [] = refl
all-valid_label-lowercase (l ∷ ls) = cc (valid_label-lowercase l, all-valid_label-lowercase ls)

-- The tests on a domain do not see letter case.
pub valid_domain-lowercase : (s : Bytes) → valid_domain (lowercase s) ≡ valid_domain s
unfolding valid_domain
valid_domain-lowercase s = cc (
  is_empty-lowercase s,
  length-map to_lower s,
  split-lowercase b'.' s dot_symbol,
  all-valid_label-lowercase (split b'.' s),
)

pub at_symbol : is_alphanumeric b'@' ≡ false
unfolding is_alphanumeric
at_symbol = refl

pub contains-lowercase :
    (c : ℕ) (s : Bytes) → is_alphanumeric c ≡ false → contains c (lowercase s) ≡ contains c s
contains-lowercase c [] h = refl
contains-lowercase c (x ∷ xs) h = cc (to_lower-eq_symbol x c h, contains-lowercase c xs h)

lowercase-append : (a b : Bytes) → lowercase (a ++ b) ≡ lowercase a ++ lowercase b
lowercase-append [] b = refl
lowercase-append (x ∷ a) b = ap (◌∷◌ (to_lower x)) (lowercase-append a b)

pub lowercase-at : (l h : Bytes) → lowercase (l ++ (b'@' ∷ h)) ≡ lowercase l ++ (b'@' ∷ lowercase h)
unfolding to_lower
lowercase-at l h = lowercase-append l (b'@' ∷ h)

ends_with-lowercase :
    (c : ℕ) (s : Bytes) → is_alphanumeric c ≡ false → ends_with c (lowercase s) ≡ ends_with c s
unfolding ends_with
ends_with-lowercase c [] h = refl
ends_with-lowercase c (x ∷ []) h = to_lower-eq_symbol x c h
ends_with-lowercase c (x ∷ y ∷ ys) h = ends_with-lowercase c (y ∷ ys) h

starts_with-lowercase :
    (c : ℕ) (s : Bytes) → is_alphanumeric c ≡ false → starts_with c (lowercase s) ≡ starts_with c s
starts_with-lowercase c [] h = refl
starts_with-lowercase c (x ∷ xs) h = to_lower-eq_symbol x c h

contains_twice-lowercase :
    (c : ℕ) (s : Bytes)
    → is_alphanumeric c ≡ false
    → contains_twice c (lowercase s) ≡ contains_twice c s
contains_twice-lowercase c [] h = refl
contains_twice-lowercase c (x ∷ xs) h =
    cc (to_lower-eq_symbol x c h, starts_with-lowercase c xs h, contains_twice-lowercase c xs h)

-- a byte that may stand in a local part still may in lower case
local_byte-to_lower : (x : ℕ) → local_byte x ≡ true → local_byte (to_lower x) ≡ true
unfolding to_lower is_alphanumeric
local_byte-to_lower x h = ground arith

all-local_byte-lowercase :
    (s : Bytes) → all local_byte s ≡ true → all local_byte (lowercase s) ≡ true
all-local_byte-lowercase [] h = refl
all-local_byte-lowercase (x ∷ xs) h =
    ground (arith, local_byte-to_lower x, all-local_byte-lowercase xs)

pub valid_local-lowercase : (s : Bytes) → valid_local s ≡ true → valid_local (lowercase s) ≡ true
unfolding valid_local
valid_local-lowercase s h = ground (
  arith,
  is_empty-lowercase s,
  length-map to_lower s,
  starts_with-lowercase b'.' s dot_symbol,
  ends_with-lowercase b'.' s dot_symbol,
  contains_twice-lowercase b'.' s dot_symbol,
  all-local_byte-lowercase s,
)

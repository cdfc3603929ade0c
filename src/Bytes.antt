-- ===== src/Bytes.antt =====
-- Byte strings as lists of numbers, with the operations of Rust's `u8`, `[u8]` and `str` that the
-- program uses. Every text that the program accepts is ASCII, so a `&str` is its bytes here.
pub mod Split
pub mod Case
use Prim.Native.Char.{code}
use Prim.Native.String.{String}
use rustymail.Base.{
  ℕ, ◌+◌, ◌-◌, ◌≡◌, refl, ◌↔◌, Bool, true, false, not, ◌&&◌, ◌||◌, List, [], ◌∷◌, map, Option, none,
  some, arith, leb, ltb, within, ◌==◌, if◌then◌else◌, all,
}

abbrev pub Bytes : Type 0
Bytes = List ℕ

-- The bytes of an ASCII literal.
abbrev pub codes : String → Bytes
codes String.[] = []
codes (String.◌∷◌ c s) = code c ∷ codes s

-- `u8::is_ascii_digit`, `is_ascii_uppercase`, `is_ascii_lowercase`, `is_ascii_alphanumeric`
abbrev pub is_digit : ℕ → Bool
is_digit = within b'0' b'9'

abbrev pub is_upper : ℕ → Bool
is_upper = within b'A' b'Z'

abbrev pub is_lower : ℕ → Bool
is_lower = within b'a' b'z'

unfoldable pub is_alphanumeric : ℕ → Bool
is_alphanumeric c = is_digit c || is_upper c || is_lower c

-- `u8::is_ascii_control`
abbrev pub is_control : ℕ → Bool
is_control c = ltb c 32 || c == 127

-- `u8::is_ascii`
abbrev pub is_ascii : ℕ → Bool
is_ascii c = ltb c 128

-- `u8::to_ascii_lowercase`, `u8::to_ascii_uppercase`
unfoldable pub to_lower : ℕ → ℕ
to_lower c = if is_upper c then c + 32 else c

unfoldable pub to_upper : ℕ → ℕ
to_upper c = if is_lower c then c - 32 else c

abbrev pub lowercase : Bytes → Bytes
lowercase = map to_lower

-- `==` of slices
unfoldable pub equal : Bytes → Bytes → Bool
equal [] [] = true
equal (x ∷ xs) (y ∷ ys) = x == y && equal xs ys
equal _ _ = false

pub equal_iff : (s t : Bytes) → (equal s t ≡ true) ↔ (s ≡ t)
unfolding equal
equal_iff [] [] = ground arith
equal_iff [] (y ∷ ys) = ground arith
equal_iff (x ∷ xs) [] = ground arith
equal_iff (x ∷ xs) (y ∷ ys) = ground (arith, equal_iff xs ys)

-- `eq_ignore_ascii_case`
abbrev pub eq_ignore_case : Bytes → Bytes → Bool
eq_ignore_case a b = equal (lowercase a) (lowercase b)

abbrev pub is_empty {ℓ} : {A : Type ℓ} → List A → Bool
is_empty [] = true
is_empty (x ∷ xs) = false

-- `starts_with`, `first() == Some(..)`
abbrev pub starts_with : ℕ → Bytes → Bool
starts_with c [] = false
starts_with c (x ∷ xs) = x == c

-- `ends_with`, `last() == Some(..)`
unfoldable pub ends_with : ℕ → Bytes → Bool
ends_with c [] = false
ends_with c (x ∷ []) = x == c
ends_with c (x ∷ y ∷ ys) = ends_with c (y ∷ ys)

-- `contains`
abbrev pub contains : ℕ → Bytes → Bool
contains c [] = false
contains c (x ∷ xs) = x == c || contains c xs

-- `contains("..")` for a text of one byte twice
abbrev pub contains_twice : ℕ → Bytes → Bool
contains_twice c [] = false
contains_twice c (x ∷ xs) = (x == c && starts_with c xs) || contains_twice c xs

-- `split_once`: at the first occurrence
unfoldable pub split_once : ℕ → Bytes → Option (Bytes × Bytes)
split_once c [] = none
split_once c (x ∷ xs) =
    if x == c
    then some ([], xs)
    else elim (split_once c xs) [ none ↦ none | some (a, b) ↦ some (x ∷ a, b) ]

-- `rsplit_once`: at the last occurrence
unfoldable pub rsplit_once : ℕ → Bytes → Option (Bytes × Bytes)
rsplit_once c [] = none
rsplit_once c (x ∷ xs) = elim (rsplit_once c xs) [
  | some (a, b) ↦ some (x ∷ a, b)
  | none ↦ if x == c then some ([], xs) else none
]

-- puts a byte before the first piece
abbrev pub cons_first : ℕ → List Bytes → List Bytes
cons_first x [] = (x ∷ []) ∷ []
cons_first x (p ∷ ps) = (x ∷ p) ∷ ps

-- `split(c)`: the pieces between the occurrences, at least one
unfoldable pub split : ℕ → Bytes → List Bytes
split c [] = [] ∷ []
split c (x ∷ xs) = let rest = split c xs in if x == c then [] ∷ rest else cons_first x rest

-- `trim_start_matches(c)`, `trim_end_matches(c)` and `trim_matches(c)`
unfoldable pub trim_start : ℕ → Bytes → Bytes
trim_start c [] = []
trim_start c (x ∷ xs) = let rest = trim_start c xs in if x == c then rest else x ∷ xs

unfoldable pub trim_end : ℕ → Bytes → Bytes
trim_end c [] = []
trim_end c (x ∷ xs) = let rest = trim_end c xs in if is_empty rest && x == c then [] else x ∷ rest

abbrev pub trim : ℕ → Bytes → Bytes
trim c s = trim_end c (trim_start c s)

-- ===== src/Address.antt =====
-- crates/core/src/lib.rs: `valid_domain` and `Address`. An `AddressError` carries nothing, so a
-- failed parse is `none`.
pub mod Case
pub mod Canonical
pub mod Safe
pub mod Labels
mod Tests
use rustymail.Base.{
  ℕ, ◌+◌, Bool, true, false, not, ◌&&◌, ◌||◌, List, [], ◌∷◌, ◌++◌, Option, none, some, leb, ltb,
  ◌==◌, if◌then◌else◌, length, all,
}
use rustymail.Bytes.{
  Bytes, codes, is_alphanumeric, lowercase, is_empty, starts_with, ends_with, contains,
  contains_twice, rsplit_once, split,
}

-- `label.as_bytes()[0]` and `label.as_bytes()[label.len() - 1]`, behind the test that there is one
first_is : (ℕ → Bool) → Bytes → Bool
first_is p [] = false
first_is p (x ∷ xs) = p x

last_is : (ℕ → Bool) → Bytes → Bool
last_is p [] = false
last_is p (x ∷ []) = p x
last_is p (x ∷ y ∷ ys) = last_is p (y ∷ ys)

-- `c.is_ascii_alphanumeric() || c == b'-'`
abbrev label_byte : ℕ → Bool
label_byte c = is_alphanumeric c || c == b'-'

valid_label : Bytes → Bool
unfolding first_is last_is
valid_label label =
    not (is_empty label)
    && leb (length label) 63
    && first_is is_alphanumeric label
    && last_is is_alphanumeric label
    && all label_byte label

unfoldable pub valid_domain : Bytes → Bool
unfolding valid_label split
valid_domain domain =
    leb (length domain) 253 && not (is_empty domain) && all valid_label (split b'.' domain)

pub record Address : Type 0 where
  pub text : Bytes

abbrev local_symbols : Bytes
local_symbols = codes "!#$%&'*+-/=?^_`{|}~."

abbrev local_byte : ℕ → Bool
local_byte c = is_alphanumeric c || contains c local_symbols

-- the tests of `parse` on the local part, each the negation of one that refuses
pub valid_local : Bytes → Bool
unfolding ends_with
valid_local local =
    not (is_empty local)
    && leb (length local) 64
    && not (starts_with b'.' local)
    && not (ends_with b'.' local)
    && not (contains_twice b'.' local)
    && all local_byte local

-- `parse`, behind its `rsplit_once`
parse_parts : Bytes → Option (Bytes × Bytes) → Option Address
parse_parts input none = none
parse_parts input (some (local, domain)) =
    if ltb 254 (length input) || not (valid_local local) || not (valid_domain domain)
    then none
    else some (record { text = local ++ (b'@' ∷ lowercase domain) })

unfoldable pub parse : Bytes → Option Address
unfolding parse_parts valid_local rsplit_once
parse input = parse_parts input (rsplit_once b'@' input)

unfoldable pub domain : Address → Bytes
unfolding rsplit_once
domain a = elim (rsplit_once b'@' a.text) [ none ↦ [] | some (_, d) ↦ d ]

-- for the case-insensitive local namespace only
unfoldable pub local_key : Address → Bytes
local_key a = lowercase a.text

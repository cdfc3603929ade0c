-- ===== src/Address/Safe.antt =====
-- What bytes an accepted address may hold.
use rustymail.Base.{
  ℕ, ◌≤◌, ◌≡◌, refl, true, not, ◌&&◌, ◌||◌, [], ◌∷◌, some, arith, ◌==◌, within, length, all,
  all-append, all_mono, ap, Bool, ◌∙◌,
}
use rustymail.Bytes.{Bytes, is_alphanumeric, split}
use rustymail.Address.Case.{split-ne-nil}
use rustymail.Address.Canonical.{IsCanonical, parse-Parsed, Parsed-IsCanonical}
use rustymail.Address.{
  Address, label_byte, local_byte, valid_label, valid_domain, valid_local, parse,
}

-- No control byte, no space, nothing above 126, and none of the two brackets of an SMTP path.
abbrev pub is_path_byte : ℕ → Bool
is_path_byte c = within 33 126 c && not (c == b'<') && not (c == b'>')

-- Every byte of a domain is in a label or is the dot between two.
abbrev host_byte : ℕ → Bool
host_byte c = label_byte c || c == b'.'

valid_label-label_byte : (l : Bytes) → valid_label l ≡ true → all label_byte l ≡ true
unfolding valid_label
valid_label-label_byte l h = ground arith

all-host_byte : (s : Bytes) → all (all label_byte) (split b'.' s) ≡ true → all host_byte s ≡ true
unfolding split
all-host_byte [] h = refl
all-host_byte (x ∷ xs) h = ground (arith, split-ne-nil b'.' xs, all-host_byte xs)

valid_domain-host_byte : (d : Bytes) → valid_domain d ≡ true → all host_byte d ≡ true
unfolding valid_domain
valid_domain-host_byte d h =
    all-host_byte d
      (all_mono valid_label (all label_byte) (split b'.' d) valid_label-label_byte (ground arith))

valid_local-local_byte : (l : Bytes) → valid_local l ≡ true → all local_byte l ≡ true
unfolding valid_local
valid_local-local_byte l h = ground arith

local_byte-is_path_byte : (c : ℕ) → local_byte c ≡ true → is_path_byte c ≡ true
unfolding is_alphanumeric
local_byte-is_path_byte c h = ground arith

host_byte-is_path_byte : (c : ℕ) → host_byte c ≡ true → is_path_byte c ≡ true
unfolding is_alphanumeric
host_byte-is_path_byte c h = ground arith

pub IsCanonical-is_path_byte : {a : Address} → IsCanonical a → all is_path_byte a.text ≡ true
IsCanonical-is_path_byte {a} c =
    ap (all is_path_byte) c.text_is
    ∙ all-append is_path_byte c.local (b'@' ∷ c.host)
        (all_mono local_byte is_path_byte c.local local_byte-is_path_byte
          (valid_local-local_byte c.local c.local_ok))
        (all_mono host_byte is_path_byte c.host host_byte-is_path_byte
          (valid_domain-host_byte c.host c.host_ok))

-- The text of an accepted address has at most 254 bytes, all of them printable ASCII, with no
-- space and neither bracket of an SMTP path.
pub parse-is_path_byte :
    (input : Bytes) (a : Address)
    → parse input ≡ some a
    → (all is_path_byte a.text ≡ true) × (length a.text ≤ 254)
parse-is_path_byte input a h =
    let c = Parsed-IsCanonical (parse-Parsed input h) in (IsCanonical-is_path_byte c, c.short)

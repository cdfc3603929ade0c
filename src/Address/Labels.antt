-- ===== src/Address/Labels.antt =====
-- The bytes of a valid domain.
use rustymail.Base.{
  ℕ, ◌≡◌, refl, true, false, [], ◌∷◌, ◌++◌, none, some, length, ltb, if◌then◌else◌, arith, all,
  all_mono, ◌==◌,
}
use rustymail.Bytes.{Bytes, is_alphanumeric, contains, split, lowercase, codes, ends_with}
use rustymail.Bytes.Split.{rsplit_once-append}
use rustymail.Address.{label_byte, valid_label, valid_domain, valid_local, parse, parse_parts}
use rustymail.Address.Case.{split-ne-nil}

label_byte-not_at : (x : ℕ) → label_byte x ≡ true → (x == b'@') ≡ false
unfolding is_alphanumeric
label_byte-not_at x h = ground arith

labels-no_at : (s : Bytes) → all (all label_byte) (split b'.' s) ≡ true → contains b'@' s ≡ false
unfolding split
labels-no_at [] h = refl
labels-no_at (x ∷ xs) h = ground (arith, labels-no_at xs, label_byte-not_at x, split-ne-nil b'.' xs)

valid_label-label_byte : (s : Bytes) → valid_label s ≡ true → all label_byte s ≡ true
unfolding valid_label
valid_label-label_byte s h = ground arith

pub valid_domain-no_at : (s : Bytes) → valid_domain s ≡ true → contains b'@' s ≡ false
unfolding valid_domain
valid_domain-no_at s h =
    labels-no_at s
      (all_mono valid_label (all label_byte) (split b'.' s) valid_label-label_byte (ground arith))

-- The address of a valid local part and a valid domain, when it is short enough.
pub parse-at :
    (local host : Bytes)
    → valid_local local ≡ true
    → valid_domain host ≡ true
    → parse (local ++ (b'@' ∷ host)) ≡ (
        if ltb 254 (length (local ++ (b'@' ∷ host)))
        then none
        else some (record { text = local ++ (b'@' ∷ lowercase host) }))
unfolding parse parse_parts
parse-at local host l h =
    rw (rsplit_once-append b'@' local host (valid_domain-no_at host h), l, h) (ground arith)

pub postmaster_local : valid_local (codes "postmaster") ≡ true
unfolding valid_local is_alphanumeric ends_with
postmaster_local = refl

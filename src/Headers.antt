-- ===== src/Headers.antt =====
-- crates/protocol/src/headers.rs: `HeaderFilter`, which decides line by line what a message keeps of
-- its header. A `HeaderError` carries nothing, so a refused line is `none`.
pub mod Filter
mod Tests
use rustymail.Base.{
  ℕ, Bool, true, false, not, ◌&&◌, ◌||◌, List, [], ◌∷◌, Option, none, some, within, ◌==◌,
  if◌then◌else◌, all, any,
}
use rustymail.Bytes.{Bytes, codes, is_ascii, is_control, eq_ignore_case, is_empty, split_once}

pub record HeaderFilter : Type 0 where
  pub field_seen : Bool
  pub removing : Bool
  pub remove_bcc : Bool

-- `HeaderFilter::default()`
abbrev pub default_filter : HeaderFilter
default_filter = record { field_seen = false; removing = false; remove_bcc = false }

abbrev pub submission : HeaderFilter
submission = record default_filter { remove_bcc = true }

-- `strip_suffix(b"\r\n")`
unfoldable pub strip_crlf : Bytes → Option Bytes
strip_crlf [] = none
strip_crlf (x ∷ []) = none
strip_crlf (x ∷ y ∷ []) = if x == b'\r' && y == b'\n' then some [] else none
strip_crlf (x ∷ y ∷ z ∷ zs) = put x (strip_crlf (y ∷ z ∷ zs))
  where
    put : ℕ → Option Bytes → Option Bytes
    put x none = none
    put x (some s) = some (x ∷ s)

-- `b.is_ascii_control() && *b != b'\t'`
abbrev pub bad_control : ℕ → Bool
bad_control b = is_control b && not (b == b'\t')

-- `content.first().is_some_and(..)`
abbrev pub is_continuation : Bytes → Bool
is_continuation [] = false
is_continuation (x ∷ xs) = x == b' ' || x == b'\t'

-- the fields that are removed
abbrev pub is_removed : Bool → Bytes → Bool
is_removed remove_bcc name =
    eq_ignore_case name (codes "Return-Path")
    || (remove_bcc
        && (eq_ignore_case name (codes "Bcc") || eq_ignore_case name (codes "Resent-Bcc")))

-- the start of a field, by its name
unfoldable pub start_field : HeaderFilter → Option (Bytes × Bytes) → Option (HeaderFilter × Bool)
start_field f none = none
start_field f (some (name, _)) =
    if is_empty name || not (all (within 33 126) name)
    then none
    else let removing = is_removed f.remove_bcc name in
      some (record f { field_seen = true; removing = removing }, not removing)

-- a line without its CRLF
unfoldable pub retain_content : HeaderFilter → Option Bytes → Option (HeaderFilter × Bool)
unfolding start_field split_once
retain_content f none = none
retain_content f (some content) =
    let field = start_field f (split_once b':' content) in
    if not (all is_ascii content) || any bad_control content
    then none
    else if is_continuation content
    then if f.field_seen then some (f, not f.removing) else none
    else field

unfoldable pub retain : HeaderFilter → Bytes → Option (HeaderFilter × Bool)
unfolding retain_content strip_crlf
retain f line = retain_content f (strip_crlf line)

-- ===== src/Headers/Filter.antt =====
-- The filter over the lines of a header.
use rustymail.Base.{
  ◌≡◌, refl, subst, inl, inr, Bool, true, false, not, ◌||◌, List, [], ◌∷◌, Option, none, some,
  arith, if◌then◌else◌, Bool-cases, all, any, within,
}
use rustymail.Bytes.{Bytes, is_ascii, is_empty, split_once}
use rustymail.Headers.{
  HeaderFilter, strip_crlf, bad_control, is_continuation, is_removed, start_field, retain_content,
  retain,
}

-- The lines that are kept of a header, or `none` when a line is refused.
put_line : Bytes → Bool → Option (List Bytes) → Option (List Bytes)
put_line line kept none = none
put_line line kept (some ls) = some (if kept then line ∷ ls else ls)

keep :
    Option (HeaderFilter × Bool)
    → Bytes
    → (HeaderFilter → Option (List Bytes))
    → Option (List Bytes)
unfolding put_line
keep none line rest = none
keep (some (f, kept)) line rest = put_line line kept (rest f)

unfoldable pub filter_lines : HeaderFilter → List Bytes → Option (List Bytes)
unfolding keep retain
filter_lines f [] = some []
filter_lines f (line ∷ lines) = keep (retain f line) line (λ g. filter_lines g lines)

-- A filter that has seen only what the other one has kept.
abbrev Follows : HeaderFilter → HeaderFilter → Type 0
Follows f g =
    (g.remove_bcc ≡ f.remove_bcc)
    × (f.removing ≡ false → (g.field_seen ≡ f.field_seen) × (g.removing ≡ false))

-- What the follower makes of a line that is kept.
abbrev Followed :
    HeaderFilter → Option (HeaderFilter × Bool) → Option (HeaderFilter × Bool) → Type 0
Followed g none r = Unit
Followed g (some (f', true)) r = (g' : HeaderFilter) × (r ≡ some (g', true)) × Follows f' g'
Followed g (some (f', false)) r = Follows f' g

start_field-Followed :
    (f g : HeaderFilter) (o : Option (Bytes × Bytes))
    → Follows f g
    → Followed g (start_field f o) (start_field g o)
unfolding start_field
start_field-Followed f g none h = tt
start_field-Followed f g (some (name, v)) h =
    elim (Bool-cases (is_empty name || not (all (within 33 126) name))) [
      | inl e ↦ rw e tt
      | inr e ↦
          simp (e, h.0)
            (elim (Bool-cases (is_removed f.remove_bcc name)) [
              | inl gone ↦ rw gone (h.0, λ k. ground (arith, k))
              | inr stays ↦ rw stays (_, refl, (refl, λ k. (refl, refl)))
            ])
    ]

abbrev state : Bool → Bool → Bool → HeaderFilter
state seen removing bcc = record { field_seen = seen; removing = removing; remove_bcc = bcc }

abbrev continue : HeaderFilter → Option (HeaderFilter × Bool)
continue f = if f.field_seen then some (f, not f.removing) else none

continued :
    (seen removing bcc seen' removing' bcc' : Bool)
    → Follows (state seen removing bcc) (state seen' removing' bcc')
    → Followed
        (state seen' removing' bcc')
        (continue (state seen removing bcc))
        (continue (state seen' removing' bcc'))
continued false removing bcc seen' removing' bcc' h = tt
continued true true bcc seen' removing' bcc' h = h
continued true false bcc true false bcc' h = (state true false bcc', refl, h)
continued true false bcc true true bcc' h = absurd (ground (arith, (h.1 refl).1))
continued true false bcc false removing' bcc' h = absurd (ground (arith, (h.1 refl).0))

retain_content-Followed :
    (f g : HeaderFilter) (o : Option Bytes)
    → Follows f g
    → Followed g (retain_content f o) (retain_content g o)
unfolding retain_content
retain_content-Followed f g none h = tt
retain_content-Followed f g (some c) h =
    elim (Bool-cases (not (all is_ascii c) || any bad_control c)) [
      | inl e ↦ rw e tt
      | inr e ↦ rw e (elim (Bool-cases (is_continuation c)) [
        | inr field ↦ rw field (start_field-Followed f g (split_once b':' c) h)
        | inl more ↦
            rw more (
              continued f.field_seen f.removing f.remove_bcc g.field_seen g.removing g.remove_bcc h)
      ])
    ]

kept_rest :
    (l : Bytes) (r : Option (List Bytes)) (kept : List Bytes)
    → put_line l true r ≡ some kept
    → (rest : List Bytes) × (r ≡ some rest) × (l ∷ rest ≡ kept)
unfolding put_line
kept_rest l none kept h = ground arith
kept_rest l (some ls) kept h = (ls, refl, ground arith)

removed_rest :
    (l : Bytes) (r : Option (List Bytes)) (kept : List Bytes)
    → put_line l false r ≡ some kept
    → r ≡ some kept
unfolding put_line
removed_rest l none kept h = ground arith
removed_rest l (some ls) kept h = ground arith

-- The filter of the lines `ls` behind one that has been read.
abbrev Again : List Bytes → Type 0
Again ls =
    (f g : HeaderFilter) (kept : List Bytes)
    → Follows f g
    → filter_lines f ls ≡ some kept
    → filter_lines g kept ≡ some kept

Again-cons :
    (l : Bytes) (ls : List Bytes) (g : HeaderFilter) (r : Option (HeaderFilter × Bool))
    (kept : List Bytes)
    → Again ls
    → Followed g r (retain g l)
    → keep r l (λ x. filter_lines x ls) ≡ some kept
    → filter_lines g kept ≡ some kept
unfolding keep filter_lines
Again-cons l ls g none kept ih fo h = ground arith
Again-cons l ls g (some (f', false)) kept ih fo h =
    ih f' g kept fo (removed_rest l (filter_lines f' ls) kept h)
Again-cons l ls g (some (f', true)) kept ih (g', same, fo) h =
    let (rest, filtered, whole) = kept_rest l (filter_lines f' ls) kept h in
    subst (λ (k : List Bytes). filter_lines g k ≡ some k) whole
      (rw (same, ih f' g' rest fo filtered) (unfold put_line in refl))

filter_lines-Again : (lines : List Bytes) → Again lines
unfolding filter_lines retain
filter_lines-Again [] f g kept h e =
    let nothing : [] ≡ kept = ground arith in
    subst (λ (k : List Bytes). filter_lines g k ≡ some k) nothing refl
filter_lines-Again (l ∷ ls) f g kept h e =
    Again-cons l ls g (retain f l) kept (filter_lines-Again ls)
      (retain_content-Followed f g (strip_crlf l) h) e

-- By a filter that is not in the middle of a removed field: of a header that is accepted, the
-- lines that are kept form a header that is accepted and kept whole.
pub filter_lines_idem :
    (f : HeaderFilter) (lines kept : List Bytes)
    → f.removing ≡ false
    → filter_lines f lines ≡ some kept
    → filter_lines f kept ≡ some kept
filter_lines_idem f lines kept fresh h =
    filter_lines-Again lines f f kept (refl, λ _. (refl, fresh)) h

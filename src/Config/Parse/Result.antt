-- ===== src/Config/Parse/Result.antt =====
-- What `Config::load` and `Config::parse` return.
use rustymail.Base.{
  ℕ, ◌+◌, ◌≤◌, ◌<◌, ◌≡◌, refl, sym, ◌∙◌, ap, subst, ◌↔◌, List, [], ◌∷◌, ◌++◌, append-nil, Option,
  none, some, arith, length, length-append, leb, ◌==◌, if◌then◌else◌,
}
use rustymail.Base.Try.{Try, good, bad, ◌>>◌, then-eq-good, bind-eq-good}
use rustymail.Bytes.{Bytes, split, cons_first}
use rustymail.Queue.Policy.{least}
use rustymail.Config.{Config}
use rustymail.Config.Check.{ConfigError, parse, invalid, require, validate}
use rustymail.Config.Parse.{breaks, start_of, parse_error, parse_text, max_text}

split-length : (c : ℕ) (s : Bytes) → 1 ≤ length (split c s)
unfolding split
split-length c [] = ground arith
split-length c (x ∷ s) = first_piece (split c s) (split-length c s)
  where
    first_piece :
        (r : List Bytes) → 1 ≤ length r → 1 ≤ length (if x == c then [] ∷ r else cons_first x r)
    first_piece [] h = ground arith
    first_piece (p ∷ ps) h = ground arith

-- The line in which the text goes on behind a part of it, from one.
abbrev pub line_of : Bytes → ℕ
line_of before = length (split b'\n' before)

breaks-line_of :
    (before after : Bytes) → breaks (length before) (before ++ after) + 1 ≡ line_of before
unfolding breaks split
breaks-line_of [] after = ground arith
breaks-line_of (c ∷ before) after =
    next_piece (split b'\n' before) (split-length b'\n' before) (breaks-line_of before after)
  where
    next_piece :
        (r : List Bytes)
        → 1 ≤ length r
        → breaks (length before) (before ++ after) + 1 ≡ length r
        → breaks (length (c ∷ before)) (c ∷ (before ++ after)) + 1
          ≡ length (if c == b'\n' then [] ∷ r else cons_first c r)
    next_piece [] h e = ground arith
    next_piece (p ∷ ps) h e = ground arith

parse_error-eq-good :
    (text : Bytes) (r : Try (Option ℕ) Config) {c : Config}
    → parse_error text r ≡ good c
    → r ≡ good c
parse_error-eq-good text (good d) h = ground arith
parse_error-eq-good text (bad span) h = cc

abbrev Parser : Type 0
Parser = Bytes → Try (Option ℕ) Config

returned :
    (from_str : Parser) (text : Bytes) (c : Config)
    → parse_text from_str text ≡ good c
    → (from_str text ≡ good c) × (validate c ≡ good tt) × (length text ≤ max_text)
unfolding parse_text require
returned from_str text c h =
    let (small, h1) =
      then-eq-good (require (leb (length text) max_text) "configuration exceeds 1 MiB") _ h in
    let (parsed, h2, h3) =
      bind-eq-good (parse_error text (from_str text)) (λ d. validate d >> good d) h1 in
    let (valid, same) = then-eq-good (validate parsed) (good parsed) h3 in
    let same_config : parsed ≡ c = ground arith in
    (
      parse_error-eq-good text (from_str text) h2 ∙ ap good same_config,
      subst (λ (d : Config). validate d ≡ good tt) same_config valid,
      ground arith,
    )

checked :
    (from_str : Parser) (text : Bytes) (c : Config)
    → length text ≤ max_text
    → from_str text ≡ good c
    → parse_text from_str text ≡ (validate c >> good c)
unfolding parse_text require
checked from_str text c small h = rw h (ground arith)

failed_at :
    (from_str : Parser) (text : Bytes) (span : Option ℕ) (line : ℕ)
    → length text ≤ max_text
    → from_str text ≡ bad span
    → breaks (start_of span text) text + 1 ≡ line
    → parse_text from_str text ≡ bad (parse line)
unfolding parse_text require
failed_at from_str text span line small h e = rw h (ground arith)

failed_in :
    (from_str : Parser) (before after : Bytes)
    → length (before ++ after) ≤ max_text
    → from_str (before ++ after) ≡ bad (some (length before))
    → parse_text from_str (before ++ after) ≡ bad (parse (line_of before))
failed_in from_str before after small h =
    let at : least (length before) (length (before ++ after)) ≡ length before =
      ground (arith, length-append before after) in
    failed_at from_str (before ++ after) (some (length before)) (line_of before) small h
      (rw at (breaks-line_of before after))

failed_behind :
    (from_str : Parser) (text : Bytes) (start : ℕ)
    → length text ≤ max_text
    → length text ≤ start
    → from_str text ≡ bad (some start)
    → parse_text from_str text ≡ bad (parse (line_of text))
failed_behind from_str text start small far h =
    let at : least start (length text) ≡ length text = ground arith in
    failed_at from_str text (some start) (line_of text) small h (
      rw at (
        subst (λ (t : Bytes). breaks (length text) t + 1 ≡ line_of text) (append-nil text)
          (breaks-line_of text [])))

-- `Config::parse` returns a configuration exactly when the text has at most 1 MiB, the TOML parser has
-- made that configuration of it, and it passes `validate`; where `validate` fails, the error is that of
-- `validate`. Where the parser fails, the error names the line, counted from one, in which the span of
-- the parser's error starts: the last line where that is behind the text, the first where there is no
-- span. A longer text is refused whatever the parser would make of it.
pub parse_text-outcome :
    (from_str : Bytes → Try (Option ℕ) Config) (text : Bytes)
    → ((c : Config)
        → (parse_text from_str text ≡ good c)
          ↔ ((from_str text ≡ good c) × (validate c ≡ good tt) × (length text ≤ max_text)))
      × ((c : Config) (e : ConfigError)
          → length text ≤ max_text
          → from_str text ≡ good c
          → validate c ≡ bad e
          → parse_text from_str text ≡ bad e)
      × ((before after : Bytes)
          → length text ≤ max_text
          → text ≡ before ++ after
          → from_str text ≡ bad (some (length before))
          → parse_text from_str text ≡ bad (parse (line_of before)))
      × ((start : ℕ)
          → length text ≤ max_text
          → length text ≤ start
          → from_str text ≡ bad (some start)
          → parse_text from_str text ≡ bad (parse (line_of text)))
      × (length text ≤ max_text
          → from_str text ≡ bad none
          → parse_text from_str text ≡ bad (parse 1))
      × (max_text < length text
          → parse_text from_str text ≡ bad (invalid "configuration exceeds 1 MiB"))
unfolding parse_text require
parse_text-outcome from_str text = (
  λ c. (returned from_str text c, λ h. checked from_str text c h.2 h.0 ∙ rw (h.1) refl),
  λ c e small h v. checked from_str text c small h ∙ rw v refl,
  λ before after small split_at h.
      subst
        (λ (t : Bytes).
          length t ≤ max_text
          → from_str t ≡ bad (some (length before))
          → parse_text from_str t ≡ bad (parse (line_of before)))
        (sym split_at) (failed_in from_str before after) small h,
  λ start small far h. failed_behind from_str text start small far h,
  λ small h. failed_at from_str text none 1 small h (unfold breaks in refl),
  λ large. ground arith,
)

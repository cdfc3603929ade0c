-- ===== src/Command/WellFormed.antt =====
-- What an accepted command line is known to hold.
use rustymail.Base.{
  ℕ, ◌≤◌, ◌≡◌, subst, false, not, ◌||◌, List, [], ◌∷◌, map, Option, none, some, arith, all, any,
  Bool-cases, inl, inr,
}
use rustymail.Bytes.{
  Bytes, codes, is_ascii, is_control, is_empty, contains, trim, to_upper, split_once,
}
use rustymail.Address
use rustymail.Address.{Address}
use rustymail.Address.Canonical.{IsCanonical, parse-Parsed, Parsed-IsCanonical}
use rustymail.Command.Outcome.{Result, ok, err, bind-eq-ok}
use rustymail.Command.{
  Command, Verb, verb_of, mail_verb, rcpt_verb, ehlo, helo, mail, rcpt, Body, u64_max, parse_path,
  or_syntax, parse_keyed, parse_pair, parse_parameter, parse_parameters, parse_sender, parse_mail,
  parse_rcpt, dispatch, split_verb, parse_command, words, decimal,
}

abbrev pub Each {ℓ κ} : {A : Type ℓ} → (A → Type κ) → Option A → Type κ
Each P none = Unit
Each P (some a) = P a

-- A greeting is one nonempty word, a size fits 64 bits, and every address is canonical.
abbrev pub WellFormed : Command → Type 0
WellFormed (ehlo name) = (is_empty name ≡ false) × (contains b' ' name ≡ false)
WellFormed (helo name) = (is_empty name ≡ false) × (contains b' ' name ≡ false)
WellFormed (mail sender size body) = Each IsCanonical sender × Each (λ n. n ≤ u64_max) size
WellFormed (rcpt a) = IsCanonical a
WellFormed _ = Unit

or_syntax-IsCanonical :
    (path : Bytes) {a : Address} → or_syntax (Address.parse path) ≡ ok a → IsCanonical a
unfolding or_syntax
or_syntax-IsCanonical path h = Parsed-IsCanonical (parse-Parsed path (ground arith))

parse_sender-IsCanonical :
    (path : Bytes) {s : Option Address} → parse_sender path ≡ ok s → Each IsCanonical s
parse_sender-IsCanonical path {s = none} h = tt
parse_sender-IsCanonical path {s = some a} h =
    or_syntax-IsCanonical path (unfold parse_sender or_syntax in ground arith)

decimal-le : (value : Bytes) → decimal value ≤ u64_max
unfolding decimal
decimal-le value = ground arith

parse_keyed-le :
    (found : Option ℕ × Option Body) (key value : Bytes) {more : Option ℕ × Option Body}
    → Each (λ n. n ≤ u64_max) found.0
    → parse_keyed found key value ≡ ok more
    → Each (λ n. n ≤ u64_max) more.0
unfolding parse_keyed
parse_keyed-le (size, body) key value {more = (none, b)} f h = tt
parse_keyed-le (size, body) key value {more = (some n, b)} f h = ground (arith, decimal-le value)

parse_pair-le :
    (found : Option ℕ × Option Body) (pair : Option (Bytes × Bytes)) {more : Option ℕ × Option Body}
    → Each (λ n. n ≤ u64_max) found.0
    → parse_pair found pair ≡ ok more
    → Each (λ n. n ≤ u64_max) more.0
unfolding parse_pair
parse_pair-le found none f h = cc
parse_pair-le found (some (key, value)) f h = parse_keyed-le found key value f h

parse_parameters-le :
    (params : List Bytes) (found : Option ℕ × Option Body) {more : Option ℕ × Option Body}
    → Each (λ n. n ≤ u64_max) found.0
    → parse_parameters found params ≡ ok more
    → Each (λ n. n ≤ u64_max) more.0
unfolding parse_parameters
parse_parameters-le [] (none, b) {more = (none, b')} f h = tt
parse_parameters-le [] (some n, b) {more = (none, b')} f h = tt
parse_parameters-le [] (none, b) {more = (some m, b')} f h = cc
parse_parameters-le [] (some n, b) {more = (some m, b')} f h = ground arith
parse_parameters-le (p ∷ ps) found f h =
    let (next, first, rest) = bind-eq-ok (parse_parameter found p) _ h in
    parse_parameters-le ps next (parse_pair-le found (split_once b'=' p) f first) rest

-- The command in a result, if there is one, is well formed.
abbrev AllWellFormed : Result Command → Type 0
AllWellFormed (ok c) = WellFormed c
AllWellFormed (err e) = Unit

parse_mail-WellFormed : (args : Bytes) (c : Command) → parse_mail args ≡ ok c → WellFormed c
unfolding parse_mail
parse_mail-WellFormed args c h =
    let (found, _, h1) = bind-eq-ok (parse_path args (codes "FROM:")) _ h in
    let (sender, sent, h2) = bind-eq-ok (parse_sender found.0) _ h1 in
    let (parameters, given, h3) = bind-eq-ok (parse_parameters (none, none) (words found.1)) _ h2 in
    subst (λ (r : Result Command). AllWellFormed r) h3
      (
        parse_sender-IsCanonical found.0 sent,
        parse_parameters-le (words found.1) (none, none) tt given,
      )

parse_rcpt-WellFormed : (args : Bytes) (c : Command) → parse_rcpt args ≡ ok c → WellFormed c
unfolding parse_rcpt
parse_rcpt-WellFormed args c h =
    let (found, _, h1) = bind-eq-ok (parse_path args (codes "TO:")) _ h in
    elim (Bool-cases (not (is_empty found.1))) [
      | inl more ↦ cc (rw more at h1)
      | inr alone ↦
          let (a, parsed, h2) = bind-eq-ok (or_syntax (Address.parse found.0)) _ (rw alone at h1) in
          subst (λ (r : Result Command). AllWellFormed r) h2 (or_syntax-IsCanonical found.0 parsed)
    ]

dispatch-WellFormed :
    (verb : Verb) (args : Bytes) (c : Command) → dispatch verb args ≡ ok c → WellFormed c
unfolding dispatch
dispatch-WellFormed mail_verb args c h = parse_mail-WellFormed args c h
dispatch-WellFormed rcpt_verb args c h = parse_rcpt-WellFormed args c h
dispatch-WellFormed _ args (mail s z b) h = ground arith
dispatch-WellFormed _ args (rcpt a) h = ground arith
dispatch-WellFormed _ args (ehlo n) h = ground arith
dispatch-WellFormed _ args (helo n) h = ground arith
dispatch-WellFormed _ args _ h = tt

-- Whatever line is accepted: a greeting is one nonempty word, a sender or recipient is a canonical
-- address, and a declared size fits 64 bits.
pub parse_command-WellFormed :
    (line : Bytes) (c : Command) → parse_command line ≡ ok c → WellFormed c
unfolding parse_command
parse_command-WellFormed line c h =
    elim (Bool-cases (not (all is_ascii line) || any is_control line)) [
      | inl bad ↦ cc (rw bad at h)
      | inr good ↦
          dispatch-WellFormed (verb_of (map to_upper (split_verb line).0))
            (trim b' ' (split_verb line).1) c (rw good at h)
    ]

-- ===== src/Command.antt =====
-- crates/protocol/src/lib.rs: `Body`, `Command`, `ParseError`, `parse_command` and `parse_path`.
pub mod Outcome
pub mod WellFormed
pub mod Rcpt
mod Tests
use Outcome.{Result, ok, err, ParseError, syntax, unsupported_parameter, ◌>>=◌}
use rustymail.Base.{
  ℕ, ◌+◌, ◌-◌, ◌*◌, ◌^◌, Bool, true, false, not, ◌&&◌, ◌||◌, List, [], ◌∷◌, ◌++◌, map, Option, none,
  some, ltb, leb, ◌==◌, if◌then◌else◌, length, all, any, is_some,
}
use rustymail.Bytes.{
  Bytes, codes, is_ascii, is_control, is_digit, to_upper, to_lower, equal, eq_ignore_case, is_empty,
  starts_with, contains, split_once, split, trim, trim_start, trim_end,
}
use rustymail.Address
use rustymail.Address.{Address}

pub data Body : Type 0 where
  seven_bit eight_bit_mime : Body

pub data Command : Type 0 where
  ehlo helo : Bytes → Command
  mail : Option Address → Option ℕ → Option Body → Command
  rcpt : Address → Command
  data_command reset noop help verify start_tls quit unsupported : Command

abbrev pub u64_max : ℕ
u64_max = 2 ^ 64 - 1

-- `get(..prefix.len())` compared with no regard to case, and what stands behind the prefix
unfoldable pub strip_ignore_case : Bytes → Bytes → Option Bytes
unfolding to_lower
strip_ignore_case [] s = some s
strip_ignore_case (p ∷ ps) [] = none
strip_ignore_case (p ∷ ps) (x ∷ xs) =
    if to_lower x == to_lower p then strip_ignore_case ps xs else none

-- `strip_prefix(c)`
abbrev strip_byte : ℕ → Bytes → Option Bytes
strip_byte c [] = none
strip_byte c (x ∷ xs) = if x == c then some xs else none

or_syntax {ℓ} : {A : Type ℓ} → Option A → Result A
or_syntax none = err syntax
or_syntax (some a) = ok a

unfoldable pub parse_path : Bytes → Bytes → Result (Bytes × Bytes)
unfolding or_syntax strip_ignore_case split_once
parse_path args prefix = do
  behind ← or_syntax (strip_ignore_case prefix args)
  rest ← or_syntax (strip_byte b'<' behind)
  parts ← or_syntax (split_once b'>' rest)
  (if not (is_empty parts.1) && not (starts_with b' ' parts.1)
      then err syntax
      else ok (parts.0, trim b' ' parts.1))

-- `split_ascii_whitespace`: the line has no control byte, so a space is its only white space
abbrev non_empty : List Bytes → List Bytes
non_empty [] = []
non_empty (w ∷ ws) = if is_empty w then non_empty ws else w ∷ non_empty ws

abbrev words : Bytes → List Bytes
words s = non_empty (split b' ' s)

-- `value.parse().unwrap_or(u64::MAX)` on digits
decimal_from : ℕ → Bytes → ℕ
decimal_from n [] = n
decimal_from n (c ∷ cs) = decimal_from (10 * n + (c - b'0')) cs

decimal : Bytes → ℕ
unfolding decimal_from
decimal value = let n = decimal_from 0 value in if leb n u64_max then n else u64_max

-- the branch for the key `SIZE`
parse_size : Option ℕ → Bytes → Result ℕ
unfolding decimal
parse_size size value =
    if is_some size || is_empty value || ltb 20 (length value) || not (all is_digit value)
    then err syntax
    else ok (decimal value)

-- the branch for the key `BODY`
parse_body : Option Body → Bytes → Result Body
parse_body body value =
    if is_some body
    then err syntax
    else if eq_ignore_case value (codes "7BIT")
    then ok seven_bit
    else if eq_ignore_case value (codes "8BITMIME")
    then ok eight_bit_mime
    else err unsupported_parameter

-- one round of the loop over the parameters of MAIL, on `size` and `body`
parse_keyed : Option ℕ × Option Body → Bytes → Bytes → Result (Option ℕ × Option Body)
unfolding parse_size parse_body
parse_keyed (size, body) key value =
    if eq_ignore_case key (codes "SIZE")
    then (do n ← parse_size size value; ok (some n, body))
    else if eq_ignore_case key (codes "BODY")
    then (do b ← parse_body body value; ok (size, some b))
    else err unsupported_parameter

parse_pair : Option ℕ × Option Body → Option (Bytes × Bytes) → Result (Option ℕ × Option Body)
unfolding parse_keyed
parse_pair found none = err unsupported_parameter
parse_pair found (some (key, value)) = parse_keyed found key value

parse_parameter : Option ℕ × Option Body → Bytes → Result (Option ℕ × Option Body)
unfolding parse_pair split_once
parse_parameter found param = parse_pair found (split_once b'=' param)

unfoldable pub parse_parameters :
    Option ℕ × Option Body → List Bytes → Result (Option ℕ × Option Body)
unfolding parse_parameter
parse_parameters found [] = ok found
parse_parameters found (param ∷ params) = do
  more ← parse_parameter found param
  parse_parameters more params

-- the sender of MAIL: the empty path is the null reverse path
parse_sender : Bytes → Result (Option Address)
unfolding or_syntax
parse_sender path =
    if is_empty path then ok none else do a ← or_syntax (Address.parse path); ok (some a)

unfoldable pub parse_mail : Bytes → Result Command
unfolding parse_path parse_sender parse_parameters split
parse_mail args = do
  found ← parse_path args (codes "FROM:")
  sender ← parse_sender found.0
  parameters ← parse_parameters (none, none) (words found.1)
  ok (mail sender parameters.0 parameters.1)

unfoldable pub parse_rcpt : Bytes → Result Command
unfolding parse_path or_syntax
parse_rcpt args = do
  found ← parse_path args (codes "TO:")
  (if not (is_empty found.1)
      then err unsupported_parameter
      else do a ← or_syntax (Address.parse found.0); ok (rcpt a))

-- the arms of the `match` on the verb
pub data Verb : Type 0 where
  ehlo_verb helo_verb mail_verb rcpt_verb data_verb rset_verb noop_verb help_verb : Verb
  vrfy_verb quit_verb starttls_verb other_verb : Verb

unfoldable pub verb_of : Bytes → Verb
unfolding equal
verb_of verb =
    let is = λ (name : Bytes). equal verb name in
    if is (codes "EHLO")
    then ehlo_verb
    else if is (codes "HELO")
    then helo_verb
    else if is (codes "MAIL")
    then mail_verb
    else if is (codes "RCPT")
    then rcpt_verb
    else if is (codes "DATA")
    then data_verb
    else if is (codes "RSET")
    then rset_verb
    else if is (codes "NOOP")
    then noop_verb
    else if is (codes "HELP")
    then help_verb
    else if is (codes "VRFY")
    then vrfy_verb
    else if is (codes "QUIT")
    then quit_verb
    else if is (codes "STARTTLS")
    then starttls_verb
    else other_verb

-- a verb that takes no argument
abbrev bare : Bytes → Command → Result Command
bare args c = if is_empty args then ok c else err syntax

abbrev hello : Bytes → Command → Result Command
hello args c = if is_empty args || contains b' ' args then err syntax else ok c

unfoldable pub dispatch : Verb → Bytes → Result Command
dispatch ehlo_verb args = hello args (ehlo args)
dispatch helo_verb args = hello args (helo args)
dispatch mail_verb args = parse_mail args
dispatch rcpt_verb args = parse_rcpt args
dispatch data_verb args = bare args data_command
dispatch rset_verb args = bare args reset
dispatch noop_verb args = ok noop
dispatch help_verb args = ok help
dispatch vrfy_verb args = if is_empty args then err syntax else ok verify
dispatch quit_verb args = bare args quit
dispatch starttls_verb args = bare args start_tls
dispatch other_verb args = ok unsupported

-- the verb and the arguments of a line
unfoldable pub split_verb : Bytes → Bytes × Bytes
unfolding split_once
split_verb text = elim (split_once b' ' text) [ none ↦ (text, []) | some p ↦ p ]

unfoldable pub parse_command : Bytes → Result Command
unfolding split_verb verb_of dispatch to_upper
parse_command line =
    if not (all is_ascii line) || any is_control line
    then err syntax
    else let parts = split_verb line in
      dispatch (verb_of (map to_upper parts.0)) (trim b' ' parts.1)

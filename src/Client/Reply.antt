-- ===== src/Client/Reply.antt =====
-- crates/client/src/smtp.rs: `response`, which reads the reply to a command.
pub mod Bounds
pub mod Failures
use rustymail.Base.{
  ℕ, zero, suc, ◌+◌, ◌-◌, ◌*◌, Bool, true, false, not, ◌&&◌, ◌||◌, List, [], ◌∷◌, map, Option, none,
  some, ltb, leb, within, ◌==◌, length, drop, all, any, is_some, if◌then◌else◌,
}
use rustymail.Base.Try.{Try, good, bad}
use rustymail.Bytes.{
  Bytes, codes, is_digit, is_control, is_ascii, is_empty, to_upper, equal, eq_ignore_case,
}
use rustymail.Command.{u64_max}
use rustymail.Client.{Failure, connection, Capabilities, default_capabilities, Response}
use rustymail.Client.Wire.{Wire, Act, ◌>>=◌, ◌>>◌, give, fail, ensure, from_try, line}

-- the byte of `line[i]`, behind the test of the length
abbrev pub byte_at : ℕ → Bytes → ℕ → ℕ
byte_at i [] d = d
byte_at zero (x ∷ xs) d = x
byte_at (suc i) (x ∷ xs) d = byte_at i xs d

-- `line[..3].iter().all(u8::is_ascii_digit)`
abbrev pub three_digits : Bytes → Bool
three_digits (a ∷ b ∷ c ∷ rest) = is_digit a && is_digit b && is_digit c
three_digits _ = false

abbrev pub number_of : Bytes → ℕ
number_of l = (byte_at 0 l 0 - b'0') * 100 + (byte_at 1 l 0 - b'0') * 10 + (byte_at 2 l 0 - b'0')

-- `split_ascii_whitespace`
abbrev pub is_whitespace : ℕ → Bool
is_whitespace c = c == b' ' || within 9 10 c || within 12 13 c

abbrev pub put_byte : ℕ → Bool → List Bytes → List Bytes
put_byte c true (w ∷ ws) = (c ∷ w) ∷ ws
put_byte c _ ws = (c ∷ []) ∷ ws

abbrev pub starts_word : Bytes → Bool
starts_word [] = false
starts_word (c ∷ _) = not (is_whitespace c)

unfoldable pub words : Bytes → List Bytes
words [] = []
words (c ∷ s) =
    let rest = words s in if is_whitespace c then rest else put_byte c (starts_word s) rest

-- `parse::<u64>()`
abbrev pub digits_from : ℕ → Bytes → ℕ
digits_from n [] = n
digits_from n (c ∷ s) = digits_from (10 * n + (c - b'0')) s

abbrev pub without_plus : Bytes → Bytes
without_plus [] = []
without_plus (c ∷ s) = if c == b'+' then s else c ∷ s

unfoldable pub parse_u64 : Bytes → Option ℕ
parse_u64 s =
    let digits = without_plus s in
    if is_empty digits || not (all is_digit digits) || ltb u64_max (digits_from 0 digits)
    then none
    else some (digits_from 0 digits)

-- the limit of SIZE: none, or a number
abbrev pub size_limit : Capabilities → List Bytes → Try Failure Capabilities
size_limit c [] = good (record c { size = some none })
size_limit c (w ∷ _) = elim (parse_u64 w) [
  | none ↦ bad connection
  | some n ↦ good (record c { size = some (some n) })
]

-- the capability of a line of the reply to EHLO
unfoldable pub note_capability : List Bytes → Capabilities → Try Failure Capabilities
unfolding equal to_upper parse_u64
note_capability [] c = good c
note_capability (name ∷ rest) c =
    let key = map to_upper name in
    if equal key (codes "PIPELINING")
    then good (record c { pipelining = true })
    else if equal key (codes "STARTTLS")
    then good (record c { starttls = true })
    else if equal key (codes "8BITMIME")
    then good (record c { eight_bit = true })
    else if equal key (codes "AUTH")
    then good (record c { plain = any (λ s. eq_ignore_case s (codes "PLAIN")) rest })
    else if equal key (codes "SIZE")
    then size_limit c rest
    else good c

abbrev pub present : Option Bytes → Act Bytes
present none = fail connection
present (some l) = give l

abbrev pub max_reply : ℕ
max_reply = 16384

-- `code.is_some_and(|old| old != number)`
abbrev pub differs : Option ℕ → ℕ → Bool
differs none number = false
differs (some old) number = not (old == number)

abbrev pub bad_byte : ℕ → Bool
bad_byte b = is_control b && not (b == b'\t')

unfoldable pub valid_line : ℕ → Bytes → Bool
valid_line total l =
    leb total max_reply
    && leb 3 (length l)
    && three_digits l
    && all is_ascii l
    && not (any bad_byte l)

abbrev pub valid_number : Option ℕ → ℕ → Bool
valid_number code number = within 200 599 number && not (differs code number)

abbrev pub valid_separator : ℕ → Bool
valid_separator separator = separator == b' ' || separator == b'-'

abbrev pub noted_in : Bool → Bytes → Capabilities → Try Failure Capabilities
noted_in noting l c = if noting then note_capability (words (drop 4 l)) c else good c

abbrev pub reply : ℕ → Capabilities → Response
reply number c = record { code = number; capabilities = c }

-- the rounds of `response`, of which `index` have gone by
unfoldable pub response_from : ℕ → ℕ → Bool → Option ℕ → ℕ → Capabilities → Act Response
unfolding line note_capability valid_line words
response_from zero index capture code total c = fail connection
response_from (suc rounds) index capture code total c = do
  read ← line 512
  l ← present read
  ensure (valid_line (total + length l + 2) l) connection
  let number = number_of l
  ensure (valid_number code number) connection
  let separator = byte_at 3 l b' '
  ensure (valid_separator separator) connection
  noted ← from_try (noted_in (capture && ltb 0 index && number == 250) l c)
  (if separator == b' '
      then give (reply number noted)
      else response_from rounds (index + 1) capture (some number) (total + length l + 2) noted)

unfoldable pub response : Bool → Act Response
unfolding response_from
response capture = response_from 64 0 capture none 0 default_capabilities

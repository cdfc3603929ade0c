-- ===== src/Server/Receive.antt =====
-- crates/server/src/lib.rs: `receive_message` and `SubmissionHeaders`. What each call of `fill_line` gives
-- is a list; the stage takes as many bytes as it has room for.
pub mod Bounds
mod Tests
use rustymail.Base.{
  ℕ, ◌+◌, ◌-◌, Bool, true, false, not, ◌&&◌, ◌||◌, List, [], ◌∷◌, ◌++◌, Option, none, some, ltb,
  leb, within, ◌==◌, length, all, any, is_some, if◌then◌else◌,
}
use rustymail.Base.Try.{Try, good, bad, ◌>>=◌, ◌>>◌}
use rustymail.Bytes.{
  Bytes, codes, is_ascii, is_alphanumeric, is_empty, equal, eq_ignore_case, contains, split_once,
  rsplit_once,
}
use rustymail.Address.{Address, parse}
use rustymail.Framing.{Result, ok, err, FrameError, crlf, decode_data_frame}
use rustymail.Headers.{HeaderFilter, default_filter, submission, retain}
use rustymail.Command.{Body, seven_bit, eight_bit_mime}
use rustymail.Config.{Config}
use rustymail.Client.Payload.{is_seven_bit}
use rustymail.Client.Reply.{is_whitespace}

-- `ServerError`, as far as the reception tells its cases apart
pub data ReceiveError : Type 0 where
  size_limit permission_denied invalid_headers invalid_data incomplete idle_timeout : ReceiveError

pub record SubmissionHeaders : Type 0 where
  pub author : Option Address
  pub identity_field : Bool

abbrev pub no_headers : SubmissionHeaders
no_headers = record { author = none; identity_field = false }

abbrev pub refused {ℓ} : {T : Type ℓ} → Try ReceiveError T
refused = bad permission_denied

-- `trim`
abbrev pub trim_left : Bytes → Bytes
trim_left [] = []
trim_left (c ∷ s) = if is_whitespace c then trim_left s else c ∷ s

abbrev pub trim_right : Bytes → Bytes
trim_right [] = []
trim_right (c ∷ s) =
    let rest = trim_right s in if is_empty rest && is_whitespace c then [] else c ∷ rest

-- `strip_suffix('>')`
abbrev pub without_bracket : Bytes → Option Bytes
without_bracket [] = none
without_bracket (c ∷ []) = if c == b'>' then some [] else none
without_bracket (c ∷ d ∷ s) = elim (without_bracket (d ∷ s)) [ none ↦ none | some t ↦ some (c ∷ t) ]

abbrev pub or_refused {ℓ} : {T : Type ℓ} → Option T → Try ReceiveError T
or_refused none = bad permission_denied
or_refused (some t) = good t

-- the mailbox of the value of From, which may stand behind a display name
abbrev pub mailbox_of : Bytes → Option (Bytes × Bytes) → Try ReceiveError Bytes
mailbox_of value none = good value
mailbox_of value (some (display, mailbox)) =
    if any (λ c. contains c display) (codes "<>,;:()") || not (all is_ascii display)
    then bad permission_denied
    else or_refused (without_bracket mailbox)

-- `get(..7)`, compared with `Resent-`
abbrev pub take : ℕ → Bytes → Bytes
take n [] = []
take n (c ∷ s) = if n == 0 then [] else c ∷ take (n - 1) s

abbrev pub bad_name_byte : ℕ → Bool
bad_name_byte c = not (is_alphanumeric c) && not (c == b'-')

-- the field From, where the name is one
unfoldable pub identity : SubmissionHeaders → Bytes → Try ReceiveError SubmissionHeaders
unfolding rsplit_once
identity h value = if is_some h.author then bad permission_denied else do
  let trimmed = trim_right (trim_left value)
  mailbox ← mailbox_of trimmed (rsplit_once b'<' trimmed)
  author ← or_refused (parse mailbox)
  good (record { author = some author; identity_field = true })

unfoldable pub field :
    SubmissionHeaders → Option (Bytes × Bytes) → Try ReceiveError SubmissionHeaders
unfolding identity
field h none = bad permission_denied
field h (some (name, value)) =
    if is_empty name || any bad_name_byte name
    then bad permission_denied
    else if eq_ignore_case name (codes "Sender") || eq_ignore_case (take 7 name) (codes "Resent-")
    then bad permission_denied
    else if eq_ignore_case name (codes "From")
    then identity h value
    else good (record h { identity_field = false })

abbrev pub folded : Bytes → Bool
folded [] = false
folded (c ∷ _) = is_whitespace c

-- `SubmissionHeaders::line`
unfoldable pub header_line : SubmissionHeaders → Bytes → Try ReceiveError SubmissionHeaders
unfolding field split_once
header_line h line =
    if folded line
    then (if h.identity_field then bad permission_denied else good h)
    else field h (split_once b':' line)

-- the variables of `receive_message`
pub record Receiving : Type 0 where
  pub in_headers : Bool
  pub headers : ℕ
  pub input_bytes : ℕ
  pub filter : HeaderFilter
  pub identities : SubmissionHeaders
  pub staged : Bytes

-- the configuration and the arguments
pub record Reception : Type 0 where
  pub message_bytes : ℕ
  pub header_bytes : ℕ
  pub from_submission : Bool
  pub body : Body
  pub room : ℕ

-- what the loop of `smtp_session` passes of its configuration
abbrev pub reception : Config → Bool → Body → ℕ → Reception
reception c from_submission body room = record {
  message_bytes = c.limits.message_bytes;
  header_bytes = c.limits.header_bytes;
  from_submission = from_submission;
  body = body;
  room = room;
}

-- `stage.append`
abbrev pub append : Reception → Receiving → Bytes → Try ReceiveError Receiving
append p r octets =
    if ltb p.room (length r.staged + length octets)
    then bad size_limit
    else good (record r { staged = r.staged ++ octets })

abbrev pub identified : Reception → SubmissionHeaders → Bytes → Try ReceiveError SubmissionHeaders
identified p h octets = if p.from_submission then header_line h octets else good h

-- a line of the header that is no separator
abbrev pub filtered :
    Reception → Receiving → Bytes → Option (HeaderFilter × Bool) → Try ReceiveError Receiving
filtered p r octets none = bad invalid_headers
filtered p r octets (some (f, keeps)) = identified p r.identities octets >>= (λ h.
    let next = record r { filter = f; identities = h } in
    if keeps then append p next octets else good next)

-- one round behind the decoding of its frame
unfoldable pub data_line : Reception → Receiving → Bytes → Try ReceiveError Receiving
unfolding equal retain header_line
data_line p r octets =
    if is_seven_bit p.body && not (all is_ascii octets)
    then bad invalid_data
    else if ltb p.message_bytes (r.input_bytes + length octets)
    then bad size_limit
    else let counted = record r { input_bytes = r.input_bytes + length octets } in
      if not r.in_headers
      then append p counted octets
      else if ltb p.header_bytes (r.headers + length octets)
      then bad size_limit
      else let within_header = record counted { headers = r.headers + length octets } in
        if equal octets crlf
        then append p (record within_header { in_headers = false }) octets
        else filtered p within_header octets (retain r.filter octets)

abbrev pub author_of : Reception → SubmissionHeaders → Try ReceiveError (Option Address)
author_of p h = if p.from_submission then (do a ← or_refused h.author; good (some a)) else good none

-- the end of the data
unfoldable pub complete : Reception → Receiving → Try ReceiveError (Bytes × Option Address)
complete p r = do
  author ← author_of p r.identities
  ended ← (if r.in_headers then append p r crlf else good r)
  good (ended.staged, author)

pub data Arrival : Type 0 where
  framed : Bytes → Arrival
  eof bad_framing idle : Arrival

abbrev pub on_frame :
    Reception
    → Receiving
    → (Receiving → Try ReceiveError (Bytes × Option Address))
    → Result (Option Bytes)
    → Try ReceiveError (Bytes × Option Address)
on_frame p r rest (err e) = bad invalid_data
on_frame p r rest (ok none) = complete p r
on_frame p r rest (ok (some octets)) = data_line p r octets >>= rest

unfoldable pub receive_from :
    Reception → Receiving → List Arrival → Try ReceiveError (Bytes × Option Address)
unfolding complete data_line decode_data_frame
receive_from p r [] = bad incomplete
receive_from p r (eof ∷ _) = bad incomplete
receive_from p r (bad_framing ∷ _) = bad invalid_data
receive_from p r (idle ∷ _) = bad idle_timeout
receive_from p r (framed f ∷ arrivals) =
    on_frame p r (λ next. receive_from p next arrivals) (decode_data_frame f)

abbrev pub started : Reception → Receiving
started p = record {
  in_headers = true;
  headers = 0;
  input_bytes = 0;
  filter = if p.from_submission then submission else default_filter;
  identities = no_headers;
  staged = [];
}

unfoldable pub receive_message :
    Reception → Bytes → List Arrival → Try ReceiveError (Bytes × Option Address)
unfolding receive_from
receive_message p prefix arrivals = do r ← append p (started p) prefix; receive_from p r arrivals

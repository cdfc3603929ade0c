-- ===== src/Session.antt =====
-- crates/protocol/src/lib.rs: `Envelope`, `Reply`, `Action` and `Session`, the SMTP transitions that
-- do no input or output. A method that mutates `self` returns the new session with its result.
pub mod Limits
pub mod Routing
pub mod Trace
pub mod Oracle
mod Tests
use Prim.Native.String.{String}
use rustymail.Base.{
  ℕ, ◌+◌, Bool, true, false, not, ◌&&◌, ◌||◌, List, [], ◌∷◌, ◌++◌, Option, none, some, ltb, leb,
  ◌==◌, if◌then◌else◌, length, any, is_some,
}
use rustymail.Bytes.{Bytes, equal, eq_ignore_case, is_empty}
use rustymail.Address.{Address}
use rustymail.Command.{
  Body, seven_bit, Command, ehlo, helo, mail, rcpt, data_command, reset, noop, help, verify,
  start_tls, quit, unsupported,
}

pub record Envelope : Type 0 where
  pub sender : Option Address
  pub recipients : List Address
  pub body : Body

pub record Reply : Type 0 where
  pub code : ℕ
  pub text : String

pub data Action : Type 0 where
  reply : Reply → Action
  hello : Bool → Action
  check_recipient : Address → Action
  begin_data : Envelope → Action
  quit_action start_tls_action : Action

pub record Session : Type 0 where
  pub greeting : Option Bytes
  pub extended : Bool
  pub transaction : Option Envelope
  pub max_message_bytes : ℕ
  pub max_recipients : ℕ

unfoldable pub new : ℕ → ℕ → Session
new max_message_bytes max_recipients = record {
  greeting = none;
  extended = false;
  transaction = none;
  max_message_bytes = max_message_bytes;
  max_recipients = max_recipients;
}

unfoldable pub authentication_allowed : Session → Bool
authentication_allowed s = s.extended && not (is_some s.transaction)

abbrev pub answer : ℕ → String → Action
answer code text = reply (record { code = code; text = text })

abbrev or_default : Option Body → Body
or_default none = seven_bit
or_default (some body) = body

-- `size.is_some_and(|n| n > max)`
abbrev pub exceeds : Option ℕ → ℕ → Bool
exceeds none max = false
exceeds (some n) max = ltb max n

-- the arm for MAIL, behind `self.transaction = None`
apply_mail : Session → Option Address → Option ℕ → Option Body → Session × Action
apply_mail s sender size body =
    if not (is_some s.greeting)
    then (s, answer 503 "5.5.1 Send HELO or EHLO first")
    else if not s.extended && (is_some size || is_some body)
    then (s, answer 555 "5.5.4 Parameters require EHLO")
    else if exceeds size s.max_message_bytes
    then (s, answer 552 "5.3.4 Message too large")
    else (
      record s {
        transaction = some (record { sender = sender; recipients = []; body = or_default body });
      },
      answer 250 "2.1.0 Sender accepted",
    )

-- the arm for RCPT
apply_rcpt : Session → Option Envelope → Address → Session × Action
apply_rcpt s none address = (s, answer 503 "5.5.1 Send MAIL first")
apply_rcpt s (some _) address = (s, check_recipient address)

-- the arm for DATA, by the transaction; `take` leaves `None`
apply_data : Session → Option Envelope → Session × Action
apply_data s none = (s, answer 503 "5.5.1 Need accepted recipient")
apply_data s (some envelope) =
    if is_empty envelope.recipients
    then (s, answer 503 "5.5.1 Need accepted recipient")
    else (record s { transaction = none }, begin_data envelope)

abbrev greet : Session → Bytes → Bool → Session × Action
greet s name extended =
    (record s { greeting = some name; extended = extended; transaction = none }, hello extended)

unfoldable pub apply : Session → Command → Session × Action
unfolding apply_mail apply_rcpt apply_data
apply s (ehlo name) = greet s name true
apply s (helo name) = greet s name false
apply s reset = (record s { transaction = none }, answer 250 "2.0.0 Reset")
apply s noop = (s, answer 250 "2.0.0 OK")
apply s help = (s, answer 214 "2.0.0 EHLO HELO MAIL RCPT DATA RSET NOOP QUIT VRFY HELP STARTTLS")
apply s verify = (s, answer 252 "2.5.2 Cannot verify user")
apply s quit = (s, quit_action)
apply s start_tls = (s, if s.extended then start_tls_action else answer 503 "5.5.1 Send EHLO first")
apply s unsupported = (s, answer 502 "5.5.1 Command not supported")
apply s (mail sender size body) = apply_mail (record s { transaction = none }) sender size body
apply s (rcpt address) = apply_rcpt s s.transaction address
apply s data_command = apply_data s s.transaction

-- whether `old` counts as the same recipient
unfoldable pub same_recipient : Bool → Address → Address → Bool
unfolding equal
same_recipient local address old =
    if local then eq_ignore_case old.text address.text else equal old.text address.text

abbrev pub refuse : ℕ → String → Reply
refuse code text = record { code = code; text = text }

-- behind the test for a transaction
route : Session → Envelope → Address → Bool → Bool → Session × Reply
route s tx address exists local =
    if not exists
    then (s, refuse 550 "5.1.1 Recipient unavailable; relay denied")
    else if any (same_recipient local address) tx.recipients
    then (s, refuse 250 "2.1.5 Recipient accepted")
    else if leb s.max_recipients (length tx.recipients)
    then (s, refuse 452 "4.5.3 Too many recipients")
    else (
      record s { transaction = some (record tx { recipients = tx.recipients ++ (address ∷ []) }) },
      refuse 250 "2.1.5 Recipient accepted",
    )

route_in : Session → Option Envelope → Address → Bool → Bool → Session × Reply
unfolding route
route_in s none address exists local = (s, refuse 503 "5.5.1 Send MAIL first")
route_in s (some tx) address exists local = route s tx address exists local

unfoldable pub routed_recipient_result : Session → Address → Bool → Bool → Session × Reply
unfolding route_in
routed_recipient_result s = route_in s s.transaction

unfoldable pub recipient_result : Session → Address → Bool → Session × Reply
unfolding routed_recipient_result
recipient_result s address exists = routed_recipient_result s address exists true

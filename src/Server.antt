-- ===== src/Server.antt =====
-- crates/server/src/lib.rs: the loop of `smtp_session`, one round for each command line. What the parts
-- around it answer is a record: the dialog of AUTH, the store, the TLS handshake and the permits. A
-- round returns the connection, what it writes, and how the loop goes on.
pub mod Guard
pub mod Rounds
pub mod Receive
mod Tests
use Prim.Native.String.{String}
use rustymail.Base.{
  ℕ, ◌+◌, Bool, true, false, not, ◌&&◌, ◌||◌, List, [], ◌∷◌, Option, none, some, ltb, leb, length,
  any, is_some, if◌then◌else◌,
}
use rustymail.Bytes.{Bytes, codes, split, eq_ignore_case}
use rustymail.Address.{Address, domain}
use rustymail.Command.{
  Command, ehlo, helo, mail, rcpt, data_command, reset, noop, help, verify, start_tls, quit,
  unsupported, parse_command,
}
use rustymail.Command.Outcome.{Result, ok, err, ParseError, syntax, unsupported_parameter}
use rustymail.Session.{
  Session, Envelope, Reply, Action, reply, hello, check_recipient, begin_data, quit_action,
  start_tls_action, new, apply, authentication_allowed, routed_recipient_result, refuse,
}

pub data Role : Type 0 where
  receiver implicit_submission start_tls_submission : Role

abbrev pub is_submission : Role → Bool
is_submission receiver = false
is_submission _ = true

-- crates/store/src/identity.rs: `Principal`
pub record Principal : Type 0 where
  pub account_id : ℕ
  pub credential_id : ℕ
  pub auth_epoch : ℕ
  pub scope : Bytes

pub data AuthOutcome : Type 0 where
  ignored auth_failed : AuthOutcome
  authenticated : Principal → AuthOutcome

-- the configuration, and whether the listener has authentication and TLS
pub record Settings : Type 0 where
  pub role : Role
  pub auth : Bool
  pub tls : Bool
  pub message_bytes : ℕ
  pub recipients_per_message : ℕ
  pub local_domains : List Bytes
  pub relays : Bool

-- `auth.filter(|_| role.submission())`
abbrev pub has_auth : Settings → Bool
has_auth s = s.auth && is_submission s.role

-- What a round meets from outside; `none` is an error.
pub record Inputs : Type 0 where
  pub dialog : Option AuthOutcome
  pub may_send : Principal → Address → Option Bool
  pub handshake_permit : Bool
  pub handshake : Bool
  pub recipient_exists : Address → Option Bool
  pub ingest_permit : Bool
  pub stage : Bool

pub record Connection : Type 0 where
  pub state : Session
  pub encrypted : Bool
  pub principal : Option Principal
  pub auth_attempts : ℕ

-- the line of the reply to EHLO that depends on the connection
pub data Offer : Type 0 where
  offers_starttls offers_auth offers_nothing : Offer

-- `begins`: 354, and the envelope whose message is received next
pub data Output : Type 0 where
  says : Reply → Output
  greets : Bool → Offer → Output
  begins : Envelope → Output

pub data Next : Type 0 where
  goes_on closes fails : Next

abbrev pub Round : Type 0
Round = Connection × List Output × Next

unfoldable pub connected : Settings → Connection
connected s = record {
  state = new s.message_bytes s.recipients_per_message;
  encrypted = elim s.role [ implicit_submission ↦ true | _ ↦ false ];
  principal = none;
  auth_attempts = 0;
}

abbrev pub answers : Connection → ℕ → String → Round
answers c code text = (c, says (refuse code text) ∷ [], goes_on)

abbrev first_piece : List Bytes → Bytes
first_piece [] = []
first_piece (w ∷ _) = w

abbrev pub verb_in : Bytes → Bytes
verb_in line = first_piece (split b' ' line)

abbrev pub is_verb : String → Bytes → Bool
is_verb name line = eq_ignore_case (verb_in line) (codes name)

unfoldable pub limit_of : Role → Bytes → ℕ
limit_of role line =
    if is_verb "AUTH" line && is_submission role
    then 1024
    else if is_verb "MAIL" line
    then 538
    else 512

-- behind the match on the outcome of the dialog
abbrev counted : Connection → Round
counted c = (c, [], if leb 5 c.auth_attempts && not (is_some c.principal) then closes else goes_on)

unfoldable pub after_dialog : Connection → Option AuthOutcome → Round
after_dialog c none = (c, [], fails)
after_dialog c (some ignored) = counted c
after_dialog c (some auth_failed) = counted (record c { auth_attempts = c.auth_attempts + 1 })
after_dialog c (some (authenticated p)) = counted (record c { principal = some p })

unfoldable pub auth_round : Settings → Inputs → Connection → Round
unfolding after_dialog
auth_round s i c =
    if not (is_submission s.role)
    then answers c 502 "5.5.1 AUTH not available on receiver"
    else if not c.encrypted || not (has_auth s)
    then answers c 538 "5.7.11 Encryption required"
    else if is_some c.principal || not (authentication_allowed c.state)
    then answers c 503 "5.5.1 AUTH not allowed in this state"
    else after_dialog c i.dialog

abbrev pub with_state : Connection → Session → Connection
with_state c state = record c { state = state }

-- `state.apply(Command::Reset)`
abbrev pub reset_state : Connection → Connection
reset_state c = with_state c (apply c.state reset).0

abbrev pub refused_line : Connection → ParseError → Round
refused_line c syntax = answers c 501 "5.5.2 Invalid syntax or unsupported mailbox form"
refused_line c unsupported_parameter = answers c 555 "5.5.4 Unsupported parameter"

-- the commands that a submission listener takes in plaintext
abbrev pub plain_command : Command → Bool
plain_command (mail _ _ _) = false
plain_command (rcpt _) = false
plain_command data_command = false
plain_command unsupported = false
plain_command _ = true

abbrev pub is_mail : Command → Bool
is_mail (mail _ _ _) = true
is_mail _ = false

abbrev pub needs_principal : Command → Bool
needs_principal (mail _ _ _) = true
needs_principal (rcpt _) = true
needs_principal data_command = true
needs_principal _ = false

-- the identity check of MAIL
abbrev pub sender_allowed : Inputs → Option Principal → Command → Option Bool
sender_allowed i (some p) (mail (some a) _ _) = i.may_send p a
sender_allowed i _ (mail _ _ _) = some false
sender_allowed i _ _ = some true

abbrev pub is_local : Settings → Address → Bool
is_local s a = any (λ d. eq_ignore_case d (domain a)) s.local_domains

abbrev pub offer : Settings → Connection → Offer
offer s c =
    if not c.encrypted && s.tls
    then offers_starttls
    else if c.encrypted && has_auth s && not (is_some c.principal)
    then offers_auth
    else offers_nothing

-- the arm for STARTTLS in plaintext
unfoldable pub upgrade_round : Settings → Inputs → Connection → Round
upgrade_round s i c =
    if not s.tls
    then answers c 502 "5.5.1 STARTTLS not available"
    else if not i.handshake_permit
    then answers c 454 "4.7.0 TLS capacity exhausted"
    else if not i.handshake
    then (c, says (refuse 220 "2.0.0 Ready to start TLS") ∷ [], fails)
    else (
      record c {
        state = new s.message_bytes s.recipients_per_message;
        encrypted = true;
        principal = none;
      },
      says (refuse 220 "2.0.0 Ready to start TLS") ∷ [],
      goes_on,
    )

unfoldable pub tls_round : Settings → Inputs → Connection → Round
unfolding upgrade_round
tls_round s i c =
    if c.encrypted then answers c 503 "5.5.1 TLS already active" else upgrade_round s i c

-- whether a recipient is accepted, behind the lookup of a local one
abbrev pub exists : Settings → Inputs → Connection → Address → Option Bool
exists s i c a =
    if is_local s a
    then i.recipient_exists a
    else some (s.relays && is_some c.principal && is_submission s.role && c.encrypted)

unfoldable pub recipient_round : Settings → Connection → Address → Option Bool → Round
recipient_round s c a none = answers c 451 "4.3.0 Recipient lookup unavailable"
recipient_round s c a (some found) =
    let routed = routed_recipient_result c.state a found (is_local s a) in
    (with_state c routed.0, says routed.1 ∷ [], goes_on)

unfoldable pub data_round : Inputs → Connection → Envelope → Round
data_round i c envelope =
    if not i.ingest_permit
    then answers c 452 "4.3.1 Ingest capacity exhausted"
    else if not i.stage
    then answers c 452 "4.3.1 Storage unavailable"
    else (c, begins envelope ∷ [], goes_on)

-- the match on the action of the session
unfoldable pub act : Settings → Inputs → Connection → Action → Round
unfolding tls_round recipient_round data_round
act s i c (reply r) = (c, says r ∷ [], goes_on)
act s i c (hello extended) = (c, greets extended (offer s c) ∷ [], goes_on)
act s i c start_tls_action = tls_round s i c
act s i c quit_action = (c, says (refuse 221 "2.0.0 Bye") ∷ [], closes)
act s i c (check_recipient a) = recipient_round s c a (exists s i c a)
act s i c (begin_data envelope) = data_round i c envelope

unfoldable pub apply_round : Settings → Inputs → Connection → Command → Round
unfolding act
apply_round s i c command =
    let applied = apply c.state command in act s i (with_state c applied.0) applied.1

abbrev pub if_allowed : Option Bool → Connection → Round → Round
if_allowed none c next = (c, [], fails)
if_allowed (some false) c next = answers c 553 "5.7.1 Sender identity not permitted"
if_allowed (some true) c next = next

-- the tests of a listener with authentication
unfoldable pub authorized_round : Settings → Inputs → Connection → Command → Round
unfolding apply_round
authorized_round s i c command =
    let c1 = if is_mail command then reset_state c else c in
    if not (is_some c.principal) && needs_principal command
    then answers c1 530 "5.7.0 Authentication required"
    else if_allowed (sender_allowed i c.principal command) c1 (apply_round s i c1 command)

unfoldable pub command_round : Settings → Inputs → Connection → Bytes → Result Command → Round
unfolding authorized_round apply_round
command_round s i c line (err e) = refused_line (if is_verb "MAIL" line then reset_state c else c) e
command_round s i c line (ok command) =
    if is_submission s.role && not c.encrypted && not (plain_command command)
    then answers c 530 "5.7.0 Must issue STARTTLS first"
    else if has_auth s
    then authorized_round s i c command
    else apply_round s i c command

unfoldable pub round : Settings → Inputs → Connection → Bytes → Round
unfolding limit_of auth_round command_round
round s i c line =
    if ltb (limit_of s.role line) (length line + 2)
    then (c, says (refuse 500 "5.5.2 Command too long") ∷ [], closes)
    else if is_verb "AUTH" line
    then auth_round s i c
    else command_round s i c line (parse_command line)

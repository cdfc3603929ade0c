-- ===== src/Server/Guard.antt =====
-- What a round of the session loop lets through.
pub mod Arms
pub mod Lines
use rustymail.Base.{
  ℕ, ◌+◌, ◌≡◌, refl, sym, ap, subst, ◌∙◌, Bool, true, false, not, ◌&&◌, ◌||◌, List, [], ◌∷◌, ◌++◌,
  Option, none, some, if◌then◌else◌, arith, Bool-cases, inl, inr, is_some, All, all, all-append,
  leb, ltb, length,
}
use rustymail.Bytes.{Bytes}
use rustymail.Address.{Address}
use rustymail.Command.{
  Command, ehlo, helo, mail, rcpt, data_command, reset, noop, help, verify, start_tls, quit,
  unsupported, parse_command,
}
use rustymail.Command.Outcome.{Result, ok, err, ParseError, syntax, unsupported_parameter}
use rustymail.Session.{
  Session, Envelope, Reply, Action, reply, hello, check_recipient, begin_data, quit_action,
  start_tls_action, new, apply, refuse, authentication_allowed, routed_recipient_result,
}
use rustymail.Session.Routing.{Keeps, AllPass, routed-Keeps}
use rustymail.Server.{
  Settings, Inputs, Connection, Principal, Output, says, greets, begins, Round, Next, has_auth,
  is_submission, is_local, AuthOutcome, ignored, auth_failed, authenticated, after_dialog,
  auth_round, with_state, reset_state, refused_line, is_mail, needs_principal, plain_command,
  sender_allowed, if_allowed, limit_of, is_verb, closes, tls_round, upgrade_round, answers, exists,
  recipient_round, data_round, act, apply_round, authorized_round, command_round, round, connected,
}

-- A recipient that a connection with or without a principal may name.
abbrev pub may_name : Settings → Bool → Address → Bool
may_name s known a = is_local s a || known

-- There is a principal who may send as the sender that there is; `v` says as whom a principal may send.
abbrev pub MaySend : (Principal → Address → Bool) → Option Principal → Option Address → Type 0
MaySend v none sender = ⊥
MaySend v (some p) none = ⊥
MaySend v (some p) (some a) = v p a ≡ true

-- The envelope of a listener with authentication has a principal who may send as its sender, and without
-- a principal all recipients are local.
abbrev pub Permits : (Principal → Address → Bool) → Settings → Option Principal → Envelope → Type 0
Permits v s p tx =
    (has_auth s ≡ true → MaySend v p tx.sender)
    × (all (may_name s (is_some p)) tx.recipients ≡ true)

abbrev pub Guards :
    (Principal → Address → Bool) → Settings → Option Principal → Option Envelope → Type 0
Guards v s p none = Unit
Guards v s p (some tx) = Permits v s p tx

pub record IsGuarded (v : Principal → Address → Bool) (s : Settings) (c : Connection) : Type 0 where
  pub secure : is_some c.principal ≡ true → (c.encrypted ≡ true) × (has_auth s ≡ true)
  pub guards : Guards v s c.principal c.state.transaction

-- The envelopes that a round begins to receive.
abbrev pub Begins : (Principal → Address → Bool) → Settings → Connection → Output → Type 0
Begins v s c (begins envelope) = Permits v s c.principal envelope
Begins v s c _ = Unit

abbrev pub Passes : (Principal → Address → Bool) → Settings → Round → Type 0
Passes v s (c, outputs, next) = IsGuarded v s c × All (Begins v s c) outputs

abbrev pub Starts : (Principal → Address → Bool) → Settings → Option Principal → Action → Type 0
Starts v s p (begin_data envelope) = Permits v s p envelope
Starts v s p _ = Unit

-- a MAIL that the tests of `authorized_round` have passed
abbrev pub IsVetted : (Principal → Address → Bool) → Settings → Option Principal → Command → Type 0
IsVetted v s p (mail sender _ _) = has_auth s ≡ true → MaySend v p sender
IsVetted v s p _ = Unit

pub apply-Guards :
    (v : Principal → Address → Bool) (s : Settings) (p : Option Principal) (state : Session)
    (command : Command)
    → Guards v s p state.transaction
    → IsVetted v s p command
    → Guards v s p (apply state command).0.transaction × Starts v s p (apply state command).1
unfolding apply
apply-Guards v s p state (mail sender size body) g k = ground arith
apply-Guards v s p state (rcpt a) g k = ground arith
apply-Guards v s p state data_command g k = ground arith
apply-Guards v s p state start_tls g k = ground arith
apply-Guards v s p state (ehlo n) g k = (tt, tt)
apply-Guards v s p state (helo n) g k = (tt, tt)
apply-Guards v s p state reset g k = (tt, tt)
apply-Guards v s p state _ g k = (g, tt)

-- the session of a connection replaced by one that is guarded too
pub restated :
    (v : Principal → Address → Bool) (s : Settings) (c : Connection) (state : Session)
    → IsGuarded v s c
    → Guards v s c.principal state.transaction
    → IsGuarded v s (with_state c state)
restated v s c state g h = record { secure = g.secure; guards = h }

pub if_Passes :
    (v : Principal → Address → Bool) (s : Settings) (b : Bool) (x y : Round)
    → (b ≡ true → Passes v s x)
    → (b ≡ false → Passes v s y)
    → Passes v s (if b then x else y)
if_Passes v s true x y h k = h refl
if_Passes v s false x y h k = k refl

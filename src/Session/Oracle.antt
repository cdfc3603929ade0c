-- ===== src/Session/Oracle.antt =====
-- An independent model of when a session hands an envelope over: four flags, after the three of the
-- repository's own test over generated sequences, and one for extensions.
use rustymail.Base.{
  ℕ, ◌<◌, ◌≡◌, refl, ap, ◌∙◌, Bool, true, false, not, ◌&&◌, ◌||◌, List, [], ◌∷◌, ◌++◌, Option, none,
  some, is_some, arith, if◌then◌else◌,
}
use rustymail.Bytes.{is_empty}
use rustymail.Address.{Address}
use rustymail.Command.{Command, ehlo, helo, mail, rcpt, data_command, reset, start_tls, Body}
use rustymail.Session.{
  Session, Envelope, apply, routed_recipient_result, route, route_in, new, exceeds,
}
use rustymail.Session.Trace.{Event, command, lookup, envelope_of, step}

pub record Flags : Type 0 where
  pub greeted : Bool
  pub extended : Bool
  pub mail_open : Bool
  pub recipient : Bool

-- the flags of a session
abbrev pub has_recipient : Option Envelope → Bool
has_recipient none = false
has_recipient (some tx) = not (is_empty tx.recipients)

abbrev pub flags : Session → Flags
flags s = record {
  greeted = is_some s.greeting;
  extended = s.extended;
  mail_open = is_some s.transaction;
  recipient = has_recipient s.transaction;
}

-- no open transaction
abbrev closed : Flags → Flags
closed f = record f { mail_open = false; recipient = false }

-- A sender is accepted after a greeting, with parameters only after EHLO, within the size limit.
abbrev accepts : ℕ → Flags → Option ℕ → Option Body → Bool
accepts max f size body =
    f.greeted && (f.extended || not (is_some size || is_some body)) && not (exceeds size max)

-- The flags after an event, and whether it hands an envelope over.
abbrev pub expected : ℕ → Flags → Event → Flags × Bool
expected max f (command (ehlo _)) =
    (record { greeted = true; extended = true; mail_open = false; recipient = false }, false)
expected max f (command (helo _)) =
    (record { greeted = true; extended = false; mail_open = false; recipient = false }, false)
expected max f (command (mail sender size body)) =
    (record f { mail_open = accepts max f size body; recipient = false }, false)
expected max f (command data_command) =
    if f.mail_open && f.recipient then (closed f, true) else (f, false)
expected max f (command reset) = (closed f, false)
expected max f (command _) = (f, false)
expected max f (lookup _ exists _) =
    (record f { recipient = f.recipient || (f.mail_open && exists) }, false)

apply-expected :
    (s : Session) (c : Command)
    → (flags (apply s c).0, is_some (envelope_of (apply s c).1))
      ≡ expected s.max_message_bytes (flags s) (command c)
unfolding apply
apply-expected s (mail sender size body) = ground arith
apply-expected s (rcpt a) = ground arith
apply-expected s data_command = ground arith
apply-expected s (ehlo n) = refl
apply-expected s start_tls = ground arith
apply-expected s _ = refl

is_empty-concat : (xs : List Address) (a : Address) → is_empty (xs ++ (a ∷ [])) ≡ false
is_empty-concat [] a = refl
is_empty-concat (x ∷ xs) a = refl

route-flags :
    (s : Session) (tx : Envelope) (a : Address) (exists local : Bool)
    → s.transaction ≡ some tx
    → 0 < s.max_recipients
    → flags (route s tx a exists local).0
      ≡ record (flags s) { recipient = has_recipient s.transaction || exists }
unfolding route
route-flags s tx a exists local e room = ground (arith, is_empty-concat tx.recipients a)

route_in-flags :
    (s : Session) (t : Option Envelope) (a : Address) (exists local : Bool)
    → s.transaction ≡ t
    → 0 < s.max_recipients
    → flags (route_in s t a exists local).0 ≡ record (flags s) {
      recipient = has_recipient s.transaction || (is_some s.transaction && exists);
    }
unfolding route_in
route_in-flags s none a exists local e room = ground arith
route_in-flags s (some tx) a exists local e room =
    ground (arith, route-flags s tx a exists local e room)

step-expected :
    (s : Session) (e : Event)
    → 0 < s.max_recipients
    → (flags (step s e).0, is_some (step s e).1) ≡ expected s.max_message_bytes (flags s) e
unfolding step
step-expected s (command c) room = apply-expected s c
step-expected s (lookup a exists local) room =
    unfold routed_recipient_result in
    ap (λ (f : Flags). (f, false)) (route_in-flags s s.transaction a exists local refl room)

step-limits :
    (s : Session) (e : Event)
    → ((step s e).0.max_message_bytes ≡ s.max_message_bytes)
      × ((step s e).0.max_recipients ≡ s.max_recipients)
unfolding step apply routed_recipient_result route_in route
step-limits s (command (mail sender size body)) = ground arith
step-limits s (command _) = ground arith
step-limits s (lookup a exists local) = ground arith

-- For each event in turn, whether a session hands an envelope over.
unfoldable pub handovers : Session → List Event → List Bool
unfolding step
handovers s [] = []
handovers s (e ∷ es) = is_some (step s e).1 ∷ handovers (step s e).0 es

unfoldable pub expected_handovers : ℕ → Flags → List Event → List Bool
expected_handovers max f [] = []
expected_handovers max f (e ∷ es) =
    let (next, handed) = expected max f e in handed ∷ expected_handovers max next es

handovers-expected_from :
    (es : List Event) (s : Session)
    → 0 < s.max_recipients
    → handovers s es ≡ expected_handovers s.max_message_bytes (flags s) es
unfolding handovers expected_handovers
handovers-expected_from [] s room = refl
handovers-expected_from (e ∷ es) s room =
    let s' = (step s e).0 in
    let (same_bytes, same_recipients) = step-limits s e in
    ap (◌∷◌ (is_some (step s e).1)) (
      handovers-expected_from es s' (rw same_recipients room)
      ∙ ap (λ (m : ℕ). expected_handovers m (flags s') es) same_bytes)
    ∙ ap (λ (p : Flags × Bool). p.1 ∷ expected_handovers s.max_message_bytes p.0 es)
        (step-expected s e room)

-- A new session with room for a recipient hands an envelope over at exactly those events of any
-- sequence at which the model of four flags does.
pub handovers-expected :
    (bytes recipients : ℕ) (es : List Event)
    → 0 < recipients
    → handovers (new bytes recipients) es
      ≡ expected_handovers bytes
          (record { greeted = false; extended = false; mail_open = false; recipient = false })
          es
unfolding new
handovers-expected bytes recipients es room = handovers-expected_from es (new bytes recipients) room

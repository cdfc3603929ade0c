-- ===== src/Session/Trace.antt =====
-- Sequences of commands and recipient lookups, as the server drives a session.
use rustymail.Base.{ℕ, Bool, List, [], ◌∷◌, Option, none, some}
use rustymail.Address.{Address}
use rustymail.Command.{Command}
use rustymail.Session.{Session, Envelope, Action, begin_data, apply, routed_recipient_result, new}
use rustymail.Session.Limits.{IsValid, new-IsValid, apply-IsValid, routed_recipient_result-IsValid}

-- A parsed command, or the result of a lookup: whether the recipient exists and whether it is local.
pub data Event : Type 0 where
  command : Command → Event
  lookup : Address → Bool → Bool → Event

-- the envelope that an action hands over
abbrev pub envelope_of : Action → Option Envelope
envelope_of (begin_data envelope) = some envelope
envelope_of _ = none

unfoldable pub step : Session → Event → Session × Option Envelope
step s (command c) = let (s', action) = apply s c in (s', envelope_of action)
step s (lookup a exists local) = ((routed_recipient_result s a exists local).0, none)

unfoldable pub run : Session → List Event → Session
unfolding step
run s [] = s
run s (e ∷ es) = run (step s e).0 es

step-IsValid : (s : Session) (e : Event) → IsValid s → IsValid (step s e).0
unfolding step
step-IsValid s (command c) v = apply-IsValid s c v
step-IsValid s (lookup a exists local) v = routed_recipient_result-IsValid s a exists local v

run-IsValid_from : (es : List Event) (s : Session) → IsValid s → IsValid (run s es)
unfolding run
run-IsValid_from [] s v = v
run-IsValid_from (e ∷ es) s v = run-IsValid_from es (step s e).0 (step-IsValid s e v)

-- Whatever commands and lookups a new session goes through, an envelope is open only after a
-- greeting, extensions are on only after one, and the envelope's recipients are within the limit and
-- pairwise different.
pub run-IsValid : (bytes recipients : ℕ) (es : List Event) → IsValid (run (new bytes recipients) es)
run-IsValid bytes recipients es =
    run-IsValid_from es (new bytes recipients) (new-IsValid bytes recipients)

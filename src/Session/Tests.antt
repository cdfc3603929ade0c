-- ===== src/Session/Tests.antt =====
-- Runs of a session, and the theorems on it at a concrete sequence of events.
use rustymail.Base.{◌≡◌, refl, true, false, none, List, [], ◌∷◌, arith}
use rustymail.Bytes.{codes}
use rustymail.Address.{Address}
use rustymail.Command.{ehlo, mail, data_command}
use rustymail.Session.{new, apply, routed_recipient_result}
use rustymail.Session.Limits.{IsValid}
use rustymail.Session.Trace.{Event, command, lookup, run, run-IsValid}
use rustymail.Session.Oracle.{handovers, expected_handovers, handovers-expected}

abbrev bob : Address
bob = record { text = codes "bob@example.com" }

-- a recipient that is refused, one that is accepted, the data twice
abbrev exchange : List Event
exchange =
    command (ehlo (codes "client"))
    ∷ command (mail none none none)
    ∷ lookup bob false true
    ∷ command data_command
    ∷ lookup bob true true
    ∷ command data_command
    ∷ command data_command
    ∷ []

exchange-handovers :
    handovers (new 1000 2) exchange ≡ false ∷ false ∷ false ∷ false ∷ false ∷ true ∷ false ∷ []
unfolding handovers new apply routed_recipient_result
exchange-handovers = refl

run-IsValid_example : IsValid (run (new 1000 2) exchange)
run-IsValid_example = run-IsValid 1000 2 exchange

handovers-expected_example :
    handovers (new 1000 2) exchange
    ≡ expected_handovers 1000
        (record { greeted = false; extended = false; mail_open = false; recipient = false })
        exchange
handovers-expected_example = handovers-expected 1000 2 exchange (omega arith)

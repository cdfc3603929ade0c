-- ===== src/Server/Guard/Arms.antt =====
-- The arms of the session loop: the dialog of AUTH and the actions of the session.
use rustymail.Base.{
  ◌≡◌, ap, Bool, true, false, not, ◌||◌, Option, none, some, arith, Bool-cases, inl, inr, is_some,
}
use rustymail.Address.{Address}
use rustymail.Command.{Command}
use rustymail.Session.{
  Session, Envelope, Action, reply, hello, check_recipient, begin_data, quit_action,
  start_tls_action, new, apply, authentication_allowed,
}
use rustymail.Session.Routing.{Keeps, AllPass, routed-Keeps}
use rustymail.Server.{
  Settings, Inputs, Connection, Principal, has_auth, is_submission, is_local, AuthOutcome, ignored,
  auth_failed, authenticated, after_dialog, auth_round, with_state, tls_round, upgrade_round,
  answers, exists, recipient_round, data_round, act, apply_round,
}
use rustymail.Server.Guard.{
  Permits, Guards, IsGuarded, Passes, may_name, Starts, IsVetted, apply-Guards, restated, if_Passes,
}

after_dialog-Passes :
    (v : Principal → Address → Bool) (s : Settings) (c : Connection) (o : Option AuthOutcome)
    → c.encrypted ≡ true
    → has_auth s ≡ true
    → is_some c.principal ≡ false
    → is_some c.state.transaction ≡ false
    → IsGuarded v s c
    → Passes v s (after_dialog c o)
unfolding after_dialog
after_dialog-Passes v s c none e a p t g = (g, tt)
after_dialog-Passes v s c (some ignored) e a p t g = (g, tt)
after_dialog-Passes v s c (some auth_failed) e a p t g =
    (record { secure = g.secure; guards = g.guards }, tt)
after_dialog-Passes v s c (some (authenticated q)) e a p t g =
    (record { secure = λ _. (e, a); guards = no_transaction c.state.transaction t }, tt)
  where
    no_transaction : (tx : Option Envelope) → is_some tx ≡ false → Guards v s (some q) tx
    no_transaction none h = tt
    no_transaction (some tx) h = ground arith

idle : (t : Session) → authentication_allowed t ≡ true → is_some t.transaction ≡ false
unfolding authentication_allowed
idle t h = ground arith

pub auth_round-Passes :
    (v : Principal → Address → Bool) (s : Settings) (i : Inputs) (c : Connection)
    → IsGuarded v s c
    → Passes v s (auth_round s i c)
unfolding auth_round
auth_round-Passes v s i c g = elim (Bool-cases (not (is_submission s.role))) [
  | inl e ↦ rw e (g, (tt, tt))
  | inr e ↦ rw e (elim (Bool-cases (not c.encrypted || not (has_auth s))) [
    | inl f ↦ rw f (g, (tt, tt))
    | inr f ↦
        rw f (elim (Bool-cases (is_some c.principal || not (authentication_allowed c.state))) [
          | inl h ↦ rw h (g, (tt, tt))
          | inr h ↦ rw h (
              after_dialog-Passes v s c i.dialog (ground arith) (ground arith) (ground arith)
                (idle c.state (ground arith)) g)
        ])
  ])
]

upgraded :
    (v : Principal → Address → Bool) (s : Settings) (c : Connection)
    → IsGuarded v s (record c {
      state = new s.message_bytes s.recipients_per_message;
      encrypted = true;
      principal = none;
    })
unfolding new
upgraded v s c = record { secure = λ h. ground arith; guards = tt }

upgrade_round-Passes :
    (v : Principal → Address → Bool) (s : Settings) (i : Inputs) (c : Connection)
    → IsGuarded v s c
    → Passes v s (upgrade_round s i c)
unfolding upgrade_round
upgrade_round-Passes v s i c g = elim (Bool-cases (not s.tls)) [
  | inl f ↦ rw f (g, (tt, tt))
  | inr f ↦ rw f (elim (Bool-cases (not i.handshake_permit)) [
    | inl h ↦ rw h (g, (tt, tt))
    | inr h ↦ rw h (elim (Bool-cases (not i.handshake)) [
      | inl k ↦ rw k (g, (tt, tt))
      | inr k ↦ rw k (upgraded v s c, (tt, tt))
    ])
  ])
]

tls_round-Passes :
    (v : Principal → Address → Bool) (s : Settings) (i : Inputs) (c : Connection)
    → IsGuarded v s c
    → Passes v s (tls_round s i c)
unfolding tls_round
tls_round-Passes v s i c g =
    if_Passes v s c.encrypted (answers c 503 "5.5.1 TLS already active") (upgrade_round s i c)
      (λ _. (g, (tt, tt))) (λ _. upgrade_round-Passes v s i c g)

Keeps-Guards :
    (v : Principal → Address → Bool) (s : Settings) (p : Option Principal)
    (after before : Option Envelope)
    → Keeps (may_name s (is_some p)) after before
    → Guards v s p before
    → Guards v s p after
Keeps-Guards v s p none before k g = tt
Keeps-Guards v s p (some tx) none k g = absurd k
Keeps-Guards v s p (some tx) (some old) (same, named) g = (rw same g.0, named)

Guards-AllPass :
    (v : Principal → Address → Bool) (s : Settings) (p : Option Principal) (tx : Option Envelope)
    → Guards v s p tx
    → AllPass (may_name s (is_some p)) tx
Guards-AllPass v s p none g = tt
Guards-AllPass v s p (some tx) g = g.1

answered :
    (v : Principal → Address → Bool) (s : Settings) (c : Connection) (a : Address) (o : Option Bool)
    → (o ≡ some true → may_name s (is_some c.principal) a ≡ true)
    → IsGuarded v s c
    → Passes v s (recipient_round s c a o)
unfolding recipient_round
answered v s c a none e g = (g, (tt, tt))
answered v s c a (some found) e g =
    let known = is_some c.principal in
    let routed =
      routed-Keeps (may_name s known) c.state a found (is_local s a) (λ f. e (ap some f))
        (Guards-AllPass v s c.principal c.state.transaction g.guards) in
    (
      restated v s c _ g (Keeps-Guards v s c.principal _ c.state.transaction routed g.guards),
      (tt, tt),
    )

named :
    (s : Settings) (i : Inputs) (c : Connection) (a : Address)
    → exists s i c a ≡ some true
    → may_name s (is_some c.principal) a ≡ true
named s i c a h = ground arith

data_round-Passes :
    (v : Principal → Address → Bool) (s : Settings) (i : Inputs) (c : Connection)
    (envelope : Envelope)
    → Permits v s c.principal envelope
    → IsGuarded v s c
    → Passes v s (data_round i c envelope)
unfolding data_round
data_round-Passes v s i c envelope p g = elim (Bool-cases (not i.ingest_permit)) [
  | inl e ↦ rw e (g, (tt, tt))
  | inr e ↦
      rw e
        (elim (Bool-cases (not i.stage)) [ inl f ↦ rw f (g, (tt, tt)) | inr f ↦ rw f (g, (p, tt)) ])
]

act-Passes :
    (v : Principal → Address → Bool) (s : Settings) (i : Inputs) (c : Connection) (a : Action)
    → Starts v s c.principal a
    → IsGuarded v s c
    → Passes v s (act s i c a)
unfolding act
act-Passes v s i c (reply r) h g = (g, (tt, tt))
act-Passes v s i c (hello extended) h g = (g, (tt, tt))
act-Passes v s i c (check_recipient a) h g = answered v s c a (exists s i c a) (named s i c a) g
act-Passes v s i c (begin_data envelope) h g = data_round-Passes v s i c envelope h g
act-Passes v s i c quit_action h g = (g, (tt, tt))
act-Passes v s i c start_tls_action h g = tls_round-Passes v s i c g

pub apply_round-Passes :
    (v : Principal → Address → Bool) (s : Settings) (i : Inputs) (c : Connection)
    (command : Command)
    → IsVetted v s c.principal command
    → IsGuarded v s c
    → Passes v s (apply_round s i c command)
unfolding apply_round
apply_round-Passes v s i c command k g =
    let (kept, starts) = apply-Guards v s c.principal c.state command g.guards k in
    act-Passes v s i (with_state c (apply c.state command).0) (apply c.state command).1 starts
      (restated v s c (apply c.state command).0 g kept)

-- ===== src/Server/Guard/Lines.antt =====
-- A round of the session loop, from a line to its arm.
use rustymail.Base.{
  ◌+◌, ◌≡◌, refl, subst, Bool, true, false, not, ◌&&◌, [], ◌∷◌, Option, none, some, if◌then◌else◌,
  arith, is_some, ltb, length,
}
use rustymail.Bytes.{Bytes}
use rustymail.Address.{Address}
use rustymail.Command.{Command, mail, reset, parse_command}
use rustymail.Command.Outcome.{Result, ok, err, syntax, unsupported_parameter}
use rustymail.Session.{apply, refuse}
use rustymail.Server.{
  Settings, Inputs, Connection, Principal, says, Round, has_auth, is_submission, auth_round,
  reset_state, is_mail, needs_principal, plain_command, sender_allowed, if_allowed, limit_of,
  is_verb, closes, answers, apply_round, authorized_round, command_round, round,
}
use rustymail.Server.Guard.{IsGuarded, Passes, IsVetted, apply-Guards, restated, if_Passes}
use rustymail.Server.Guard.Arms.{apply_round-Passes, auth_round-Passes}

reset_state-IsGuarded :
    (v : Principal → Address → Bool) (s : Settings) (c : Connection)
    → IsGuarded v s c
    → IsGuarded v s (reset_state c)
reset_state-IsGuarded v s c g =
    restated v s c (apply c.state reset).0 g
      (apply-Guards v s c.principal c.state reset g.guards tt).0

vetted :
    (v : Principal → Address → Bool) (s : Settings) (i : Inputs) (p : Option Principal)
    (command : Command)
    → ((p : Principal) (a : Address) → i.may_send p a ≡ some true → v p a ≡ true)
    → sender_allowed i p command ≡ some true
    → IsVetted v s p command
vetted v s i none (mail sender size body) m h = ground arith
vetted v s i (some p) (mail none size body) m h = ground arith
vetted v s i (some p) (mail (some a) size body) m h = λ _. m p a h
vetted v s i p _ m h = tt

allowed-Passes :
    (v : Principal → Address → Bool) (s : Settings) (c : Connection) (o : Option Bool)
    (next : Round)
    → IsGuarded v s c
    → (o ≡ some true → Passes v s next)
    → Passes v s (if_allowed o c next)
allowed-Passes v s c none next g k = (g, tt)
allowed-Passes v s c (some false) next g k = (g, (tt, tt))
allowed-Passes v s c (some true) next g k = k refl

cleared :
    (v : Principal → Address → Bool) (s : Settings) (b : Bool) (c : Connection)
    → IsGuarded v s c
    → let c1 = if b then reset_state c else c in IsGuarded v s c1 × (c.principal ≡ c1.principal)
cleared v s true c g = (reset_state-IsGuarded v s c g, refl)
cleared v s false c g = (g, refl)

authorized_round-Passes :
    (v : Principal → Address → Bool) (s : Settings) (i : Inputs) (c : Connection)
    (command : Command)
    → ((p : Principal) (a : Address) → i.may_send p a ≡ some true → v p a ≡ true)
    → IsGuarded v s c
    → Passes v s (authorized_round s i c command)
unfolding authorized_round
authorized_round-Passes v s i c command m g =
    let c1 = if is_mail command then reset_state c else c in
    let (g1, same) = cleared v s (is_mail command) c g in
    let allowed = sender_allowed i c.principal command in
    if_Passes v s (not (is_some c.principal) && needs_principal command)
      (answers c1 530 "5.7.0 Authentication required")
      (if_allowed allowed c1 (apply_round s i c1 command)) (λ _. (g1, (tt, tt)))
      (λ _. allowed-Passes v s c1 allowed (apply_round s i c1 command) g1 (λ e.
        apply_round-Passes v s i c1 command
          (subst (λ (p : Option Principal). IsVetted v s p command) same
            (vetted v s i c.principal command m e))
          g1))

unauthorized :
    (v : Principal → Address → Bool) (s : Settings) (p : Option Principal) (command : Command)
    → has_auth s ≡ false
    → IsVetted v s p command
unauthorized v s p (mail sender size body) e = λ h. ground arith
unauthorized v s p _ e = tt

command_round-Passes :
    (v : Principal → Address → Bool) (s : Settings) (i : Inputs) (c : Connection) (line : Bytes)
    (r : Result Command)
    → ((p : Principal) (a : Address) → i.may_send p a ≡ some true → v p a ≡ true)
    → IsGuarded v s c
    → Passes v s (command_round s i c line r)
unfolding command_round
command_round-Passes v s i c line (err syntax) m g =
    ((cleared v s (is_verb "MAIL" line) c g).0, (tt, tt))
command_round-Passes v s i c line (err unsupported_parameter) m g =
    ((cleared v s (is_verb "MAIL" line) c g).0, (tt, tt))
command_round-Passes v s i c line (ok command) m g =
    if_Passes v s (is_submission s.role && not c.encrypted && not (plain_command command))
      (answers c 530 "5.7.0 Must issue STARTTLS first")
      (if has_auth s then authorized_round s i c command else apply_round s i c command)
      (λ _. (g, (tt, tt)))
      (λ _.
        if_Passes v s (has_auth s) (authorized_round s i c command) (apply_round s i c command)
          (λ _. authorized_round-Passes v s i c command m g)
          (λ e. apply_round-Passes v s i c command (unauthorized v s c.principal command e) g))

-- One round of the loop, on any line and whatever the parts around it answer, keeps this: a principal
-- stands only on an encrypted connection of a listener with authentication; there an envelope has a
-- principal who may send as its sender; and without a principal all its recipients are local. The
-- envelope whose message the round begins to receive has these properties as well. The principal may
-- send as an address in the sense of any test that holds wherever the check of the round says so.
pub round-Passes :
    (v : Principal → Address → Bool) (s : Settings) (i : Inputs) (c : Connection) (line : Bytes)
    → ((p : Principal) (a : Address) → i.may_send p a ≡ some true → v p a ≡ true)
    → IsGuarded v s c
    → Passes v s (round s i c line)
unfolding round
round-Passes v s i c line m g =
    let long = ltb (limit_of s.role line) (length line + 2) in
    let other = command_round s i c line (parse_command line) in
    if_Passes v s long (c, says (refuse 500 "5.5.2 Command too long") ∷ [], closes)
      (if is_verb "AUTH" line then auth_round s i c else other) (λ _. (g, (tt, tt)))
      (λ _.
        if_Passes v s (is_verb "AUTH" line) (auth_round s i c) other
          (λ _. auth_round-Passes v s i c g)
          (λ _. command_round-Passes v s i c line (parse_command line) m g))

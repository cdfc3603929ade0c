-- ===== src/Server/Tests.antt =====
-- A submission listener that a client asks for TLS, authenticates to and hands a message, and a receiver
-- that is asked to relay.
use rustymail.Base.{◌≡◌, refl, Bool, true, arith, List, [], ◌∷◌, some, All}
use rustymail.Bytes.{
  Bytes, codes, equal, to_lower, to_upper, is_alphanumeric, split, split_once, rsplit_once,
  trim_start, trim_end, ends_with,
}
use rustymail.Address.{Address, valid_domain, domain}
use rustymail.Session.{
  Envelope, refuse, new, apply, authentication_allowed, routed_recipient_result, same_recipient,
}
use rustymail.Command.{
  seven_bit, parse_command, split_verb, verb_of, dispatch, parse_mail, parse_rcpt, parse_path,
  parse_parameters, strip_ignore_case,
}
use rustymail.Address
use rustymail.Server.{
  Settings, Inputs, Principal, Connection, says, greets, begins, round, connected, authenticated,
  start_tls_submission, receiver, limit_of, auth_round, after_dialog, command_round,
  authorized_round, apply_round, act, tls_round, upgrade_round, recipient_round, offers_starttls,
  offers_auth,
}
use rustymail.Server.Guard.{IsGuarded, Passes}
use rustymail.Server.Guard.Lines.{round-Passes}
use rustymail.Server.Rounds.{outputs_of, IsLawful, outputs-IsLawful}

abbrev principal : Principal
principal = record { account_id = 1; credential_id = 1; auth_epoch = 1; scope = codes "mail" }

abbrev submitting : Settings
submitting = record {
  role = start_tls_submission;
  auth = true;
  tls = true;
  message_bytes = 1024;
  recipients_per_message = 2;
  local_domains = codes "example.com" ∷ [];
  relays = true;
}

abbrev receiving : Settings
receiving = record submitting { role = receiver }

abbrev willing : Inputs
willing = record {
  dialog = some (authenticated principal);
  may_send = λ p a. some true;
  handshake_permit = true;
  handshake = true;
  recipient_exists = λ a. some true;
  ingest_permit = true;
  stage = true;
}

abbrev dialogue : List (Inputs × Bytes)
dialogue =
    (willing, codes "EHLO me")
    ∷ (willing, codes "MAIL FROM:<a@example.com>")
    ∷ (willing, codes "STARTTLS")
    ∷ (willing, codes "EHLO me")
    ∷ (willing, codes "AUTH PLAIN x")
    ∷ (willing, codes "MAIL FROM:<a@example.com>")
    ∷ (willing, codes "RCPT TO:<b@else.org>")
    ∷ []

abbrev relay_attempt : List (Inputs × Bytes)
relay_attempt =
    (willing, codes "EHLO me")
    ∷ (willing, codes "MAIL FROM:<a@example.com>")
    ∷ (willing, codes "RCPT TO:<b@else.org>")
    ∷ []

runs : outputs_of submitting (connected submitting) dialogue ≡ (
    greets true offers_starttls
    ∷ says (refuse 530 "5.7.0 Must issue STARTTLS first")
    ∷ says (refuse 220 "2.0.0 Ready to start TLS")
    ∷ greets true offers_auth
    ∷ says (refuse 250 "2.1.0 Sender accepted")
    ∷ says (refuse 250 "2.1.5 Recipient accepted")
    ∷ [])
unfolding outputs_of connected new round limit_of auth_round after_dialog command_round
    authorized_round apply_round act tls_round upgrade_round recipient_round apply
    authentication_allowed routed_recipient_result same_recipient parse_command split_verb verb_of
    dispatch parse_mail parse_rcpt parse_path parse_parameters strip_ignore_case Address.parse
    valid_domain domain equal to_lower to_upper is_alphanumeric split split_once rsplit_once
    trim_start trim_end ends_with
runs = refl

refuses : outputs_of receiving (connected receiving) relay_attempt ≡ (
    greets true offers_starttls
    ∷ says (refuse 250 "2.1.0 Sender accepted")
    ∷ says (refuse 550 "5.1.1 Recipient unavailable; relay denied")
    ∷ [])
unfolding outputs_of connected new round limit_of auth_round after_dialog command_round
    authorized_round apply_round act tls_round upgrade_round recipient_round apply
    authentication_allowed routed_recipient_result same_recipient parse_command split_verb verb_of
    dispatch parse_mail parse_rcpt parse_path parse_parameters strip_ignore_case Address.parse
    valid_domain domain equal to_lower to_upper is_alphanumeric split split_once rsplit_once
    trim_start trim_end ends_with
refuses = refl

-- a message for a local recipient begins
abbrev local_message : List (Inputs × Bytes)
local_message =
    (willing, codes "EHLO me")
    ∷ (willing, codes "MAIL FROM:<a@else.org>")
    ∷ (willing, codes "RCPT TO:<b@example.com>")
    ∷ (willing, codes "DATA")
    ∷ []

abbrev alice : Address
alice = record { text = codes "a@example.com" }

abbrev received_envelope : Envelope
received_envelope = record {
  sender = some (record { text = codes "a@else.org" });
  recipients = record { text = codes "b@example.com" } ∷ [];
  body = seven_bit;
}

begins_message : outputs_of receiving (connected receiving) local_message ≡ (
    greets true offers_starttls
    ∷ says (refuse 250 "2.1.0 Sender accepted")
    ∷ says (refuse 250 "2.1.5 Recipient accepted")
    ∷ begins received_envelope
    ∷ [])
unfolding outputs_of connected new round limit_of auth_round after_dialog command_round
    authorized_round apply_round act tls_round upgrade_round recipient_round apply
    authentication_allowed routed_recipient_result same_recipient parse_command split_verb verb_of
    dispatch parse_mail parse_rcpt parse_path parse_parameters strip_ignore_case Address.parse
    valid_domain domain equal to_lower to_upper is_alphanumeric split split_once rsplit_once
    trim_start trim_end ends_with
begins_message = refl

outputs-IsLawful_example :
    All (IsLawful receiving) (outputs_of receiving (connected receiving) local_message)
outputs-IsLawful_example = outputs-IsLawful receiving local_message

-- the principal may send as one address only
abbrev own : Principal → Address → Bool
own p a = equal a.text alice.text

abbrev checked : Inputs
checked = record willing { may_send = λ p a. some (own p a) }

abbrev signed_in : Connection
signed_in = record (connected submitting) {
  encrypted = true;
  principal = some principal;
  state = record (connected submitting).state {
    greeting = some (codes "me");
    transaction = some (record {
      sender = some alice;
      recipients = record { text = codes "b@else.org" } ∷ [];
      body = seven_bit;
    });
  };
}

signed_in-IsGuarded : IsGuarded own submitting signed_in
unfolding equal domain to_lower
signed_in-IsGuarded = record { secure = λ h. (refl, refl); guards = (λ h. refl, refl) }

round-Passes_example : Passes own submitting (round submitting checked signed_in (codes "DATA"))
round-Passes_example =
    round-Passes own submitting checked signed_in (codes "DATA") (λ p a h. ground (arith, h))
      signed_in-IsGuarded

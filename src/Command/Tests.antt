-- ===== src/Command/Tests.antt =====
-- Runs of the command parser, and the theorems on it at concrete lines.
use rustymail.Base.{◌≡◌, refl, some}
use rustymail.Bytes.{codes, trim_start, trim_end, is_alphanumeric, to_lower}
use rustymail.Address
use rustymail.Address.{Address, valid_domain}
use rustymail.Address.Canonical.{IsCanonical, Parsed-IsCanonical, parse-Parsed}
use rustymail.Command.{mail, rcpt, seven_bit, parse_mail, parse_command}
use rustymail.Command.Outcome.{ok, err, syntax, unsupported_parameter}
use rustymail.Command.WellFormed.{WellFormed, parse_command-WellFormed}
use rustymail.Command.Rcpt.{rcpt_line, parse_command-rcpt_line}

abbrev alice : Address
alice = record { text = codes "Alice@example.com" }

parse_mail_example :
    parse_command (codes "mail FROM:<Alice@EXAMPLE.com> SIZE=99999999999999999999 BODY=7BIT")
    ≡ ok (mail (some alice) (some 18446744073709551615) (some seven_bit))
unfolding parse_command Address.parse parse_mail trim_end trim_start is_alphanumeric valid_domain
    to_lower
parse_mail_example = refl

parse_errors :
    (parse_command (codes "RSET now") ≡ err syntax)
    × (parse_command (codes "MAIL FROM:<> X=1") ≡ err unsupported_parameter)
unfolding parse_command trim_end trim_start parse_mail
parse_errors = (refl, refl)

parse_command-WellFormed_example :
    WellFormed (mail (some alice) (some 18446744073709551615) (some seven_bit))
parse_command-WellFormed_example =
    parse_command-WellFormed
      (codes "mail FROM:<Alice@EXAMPLE.com> SIZE=99999999999999999999 BODY=7BIT")
      (mail (some alice) (some 18446744073709551615) (some seven_bit)) parse_mail_example

alice-IsCanonical : IsCanonical alice
unfolding is_alphanumeric valid_domain to_lower
alice-IsCanonical = Parsed-IsCanonical (parse-Parsed (codes "Alice@EXAMPLE.com") parsed)
  where
    parsed : Address.parse (codes "Alice@EXAMPLE.com") ≡ some alice
    parsed = unfold Address.parse in refl

parse_command-rcpt_line_example : parse_command (rcpt_line alice) ≡ ok (rcpt alice)
parse_command-rcpt_line_example = parse_command-rcpt_line alice alice-IsCanonical

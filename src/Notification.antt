-- ===== src/Notification.antt =====
-- crates/store/src/notification.rs: the policy of the failure reports.
use rustymail.Base.{ℕ, List, [], ◌∷◌, ◌++◌, not, ◌||◌, ltb, within, length, any, if◌then◌else◌}
use rustymail.Bytes.{Bytes, codes, is_empty}
use rustymail.Address.{Address, valid_domain, parse}
use rustymail.Queue.Rows.{Result, err, ok_or, invalid_input}

pub record NotificationPolicy : Type 0 where
  pub hostname : Bytes
  pub local_domains : List Bytes
  pub max_age_seconds : ℕ

-- `self.local_domains[0]`, behind the test that there is one
abbrev pub first_domain : List Bytes → Bytes
first_domain [] = []
first_domain (d ∷ _) = d

abbrev pub postmaster_of : Bytes → Bytes
postmaster_of domain = codes "postmaster@" ++ domain

unfoldable pub validate_policy : NotificationPolicy → Result Address
validate_policy p =
    if not (valid_domain p.hostname)
      || is_empty p.local_domains
      || ltb 100 (length p.local_domains)
      || any (λ d. not (valid_domain d)) p.local_domains
      || not (within 1 604800 p.max_age_seconds)
    then err invalid_input
    else ok_or (parse (postmaster_of (first_domain p.local_domains))) invalid_input

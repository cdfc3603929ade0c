-- ===== src/Relay/Policies.antt =====
-- What a checked configuration means for the policies that the relay makes of it.
use rustymail.Base.{
  ℕ, ◌≤◌, ◌<◌, ◌≡◌, refl, ◌∙◌, true, false, not, List, [], ◌∷◌, map, arith, length, any, all, All,
  within, length-append,
}
use rustymail.Base.Try.{good}
use rustymail.Bytes.{Bytes, codes, lowercase, is_empty}
use rustymail.Address.{valid_domain, parse}
use rustymail.Address.Case.{valid_domain-lowercase}
use rustymail.Address.Labels.{parse-at, postmaster_local}
use rustymail.Queue.Rows.{ok, err, ok_or, invalid_input}
use rustymail.Queue.Policy
use rustymail.Config.{Config}
use rustymail.Config.Check.{validate}
use rustymail.Config.Accepted.{Accepts, validate-Accepts}
use rustymail.Config.Accepted.Bounds.{Within}
use rustymail.Notification.{validate_policy, first_domain, postmaster_of}
use rustymail.Relay.{queue_policy, notification_policy}

schedule_fits :
    (xs : List ℕ) → All (Within 1800 86400) xs → any (λ n. not (within 1 86400 n)) xs ≡ false
schedule_fits [] h = refl
schedule_fits (x ∷ xs) (h, rest) = ground (arith, schedule_fits xs rest)

queue_policy_lem : (c : Config) → Accepts c → Policy.validate (queue_policy c) ≡ ok tt
unfolding Policy.validate
queue_policy_lem c a =
    let d = a.delivery in
    let fits = schedule_fits c.delivery.retry_seconds d.schedule in
    let (low, high) = d.concurrency in
    let (one, most) = d.per_domain in
    let (some_entry, few) = d.entries in let small = d.jitter in ground arith

domains_valid :
    (ds : List Bytes)
    → all valid_domain (map lowercase ds) ≡ true
    → any (λ d. not (valid_domain d)) ds ≡ false
domains_valid [] h = refl
domains_valid (d ∷ ds) h = ground (arith, valid_domain-lowercase d, domains_valid ds)

first_valid :
    (ds : List Bytes)
    → all valid_domain (map lowercase ds) ≡ true
    → 1 ≤ length ds
    → valid_domain (first_domain ds) ≡ true
first_valid [] h some_domain = ground arith
first_valid (d ∷ ds) h some_domain = ground (arith, valid_domain-lowercase d)

author_of :
    (c : Config)
    → Accepts c
    → validate_policy (notification_policy c)
      ≡ ok_or (parse (postmaster_of (first_domain c.local_domains))) invalid_input
unfolding validate_policy
author_of c a =
    let host = a.hostname in
    let (occupied, few) = a.domains in
    let valid = domains_valid c.local_domains a.valid_domains in
    let (low, high) = a.delivery.age in ground (arith, nonempty c.local_domains)
  where
    nonempty : (ds : List Bytes) → 1 ≤ length ds → is_empty ds ≡ false
    nonempty [] h = ground arith
    nonempty (d ∷ ds) h = refl

-- The relay's queue policy made of a checked configuration passes the check that each claim makes of
-- it. The author of failure reports is postmaster at the first local domain, and is accepted exactly
-- when that domain has at most 243 of the 253 bytes that the configuration allows; a longer one is
-- refused as invalid input.
pub queue_policy-validate :
    (c : Config)
    → validate c ≡ good tt
    → let first = first_domain c.local_domains in
      (Policy.validate (queue_policy c) ≡ ok tt)
      × (length first ≤ 243
          → validate_policy (notification_policy c)
            ≡ ok (record { text = postmaster_of (lowercase first) }))
      × (243 < length first → validate_policy (notification_policy c) ≡ err invalid_input)
queue_policy-validate c h =
    let a = (validate-Accepts c).0 h in
    let first = first_domain c.local_domains in
    let author = author_of c a in
    let parsed =
      parse-at (codes "postmaster") first postmaster_local
        (first_valid c.local_domains a.valid_domains a.domains.0) in
    let size = length-append (codes "postmaster@") first in
    (
      queue_policy_lem c a,
      λ short. author ∙ rw parsed (ground arith),
      λ long. author ∙ rw parsed (ground arith),
    )

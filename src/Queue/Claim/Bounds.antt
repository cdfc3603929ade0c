-- ===== src/Queue/Claim/Bounds.antt =====
-- How many deliveries one claim leases, in all and for one domain.
use rustymail.Base.{
  ℕ, ◌+◌, ◌*◌, ◌≤◌, ◌<◌, ◌≡◌, refl, ◌⊎◌, inl, inr, ◌||◌, List, [], ◌∷◌, ◌++◌, some, arith,
  if◌then◌else◌, ◌==◌, Bool-cases, leb, length, length-append,
}
use rustymail.Bytes.{Bytes, equal, equal_iff}
use rustymail.Address
use rustymail.Address.{Address, domain}
use rustymail.Queue.Rows.{Delivery, QueueLease, ok, ok_or, integrity, i64_max}
use rustymail.Queue.Table.{later, set_delivery}
use rustymail.Queue.Sweep.{is_active}
use rustymail.Queue.Claim.{
  Domains, Call, Progress, key_of, join, parse_sender, insert_lease, lease_row, lease_one,
  claim_due, claim_one, claim_rows, count_domain,
}
use rustymail.Queue.Claim.Yields.{Yields, Yields-bind, Yields-then, if_Yields}

-- the leases of a domain
unfoldable pub leases_in : Bytes → List QueueLease → ℕ
leases_in name [] = 0
leases_in name (l ∷ ls) =
    let rest = leases_in name ls in if equal l.domain name then rest + 1 else rest

leases_in-concat :
    (name : Bytes) (ls : List QueueLease) (l : QueueLease)
    → leases_in name (ls ++ (l ∷ []))
      ≡ (if equal l.domain name then leases_in name ls + 1 else leases_in name ls)
unfolding leases_in
leases_in-concat name [] l = refl
leases_in-concat name (x ∷ xs) l = ground (arith, leases_in-concat name xs l)

-- Of a domain, the count is that of the leases made and of the attempts under way; where a lease is
-- made the count is within the policy.
abbrev pub IsCapped : ℕ → Domains → Progress → Bytes → Type 0
IsCapped cap busy p name =
    (count_domain name p.domains ≡ leases_in name p.leases + count_domain name busy)
    × ((leases_in name p.leases ≡ 0) ⊎ (count_domain name p.domains ≤ cap))

-- How one round changes the leases: not at all, or by one for a domain that is below its cap.
data Round (cap : ℕ) (leases : List QueueLease) (domains : Domains) (q : Progress) : Type 0 where
  same : q.leases ≡ leases → q.domains ≡ domains → Round cap leases domains q
  one_more :
      (l : QueueLease)
      → q.leases ≡ leases ++ (l ∷ [])
      → q.domains ≡ l.domain ∷ domains
      → count_domain l.domain domains < cap
      → Round cap leases domains q

Round-lease_one :
    (c : Call) (d : Delivery) (recipient : Address) (p : Progress)
    → count_domain (domain recipient) p.domains < c.policy.per_domain
    → Yields (Round c.policy.per_domain p.leases p.domains) (lease_one c d recipient p)
unfolding lease_one
Round-lease_one c d recipient p room =
    let goal = Round c.policy.per_domain p.leases p.domains in
    Yields-bind goal (join d.message_id p.db) _ (λ j _.
      Yields-bind goal (parse_sender j.message.reverse_path) _ (λ sender _.
        Yields-bind goal (later c.time (c.policy.lease_seconds * 1000)) _ (λ until _.
          Yields-bind goal
            (insert_lease d.id
              (set_delivery d.id (lease_row (c.fresh (length p.leases)) until) p.db))
            _ (λ db _. one_more _ refl refl room))))

Round-claim_one :
    (c : Call) (d : Delivery) (p : Progress)
    → Yields (Round c.policy.per_domain p.leases p.domains) (claim_one c d p)
unfolding claim_one claim_due
Round-claim_one c d p =
    let goal = Round c.policy.per_domain p.leases p.domains in
    let q = record p { last = some (key_of d) } in
    if_Yields goal (is_active d.id c.active || leb d.expires_at_ms c.time) (ok q) _ (same refl refl)
      (if_Yields goal (d.attempts == i64_max || d.generation == i64_max) _ (claim_due c d q)
        (same refl refl)
        (Yields-bind goal (ok_or (Address.parse d.recipient) integrity) _ (λ recipient _.
          elim (Bool-cases (leb c.policy.per_domain (count_domain (domain recipient) p.domains))) [
            | inl e ↦ rw e (same refl refl)
            | inr e ↦ rw e (Round-lease_one c d recipient q (ground arith))
          ])))

Round-IsCapped :
    (cap : ℕ) (busy : Domains) (p q : Progress) (name : Bytes)
    → Round cap p.leases p.domains q
    → IsCapped cap busy p name
    → IsCapped cap busy q name
unfolding count_domain
Round-IsCapped cap busy p q name (same e k) h = rw (e, k) h
Round-IsCapped cap busy p q name (one_more l e k room) h =
    rw (e, k, leases_in-concat name p.leases l)
      (elim (Bool-cases (equal l.domain name)) [
        | inl here ↦
            let named : l.domain ≡ name = (equal_iff l.domain name).0 here in
            rw here (ground (arith, h.0), inr (ground (arith, rw named at room)))
        | inr elsewhere ↦ rw elsewhere h
      ])

Round-length :
    (cap : ℕ) (p q : Progress)
    → Round cap p.leases p.domains q
    → length q.leases ≤ length p.leases + 1
Round-length cap p q (same e k) = rw e (omega arith)
Round-length cap p q (one_more l e k room) = rw e (omega (arith, length-append p.leases (l ∷ [])))

pub claim_rows-bounded :
    (c : Call) (n : ℕ) (busy : Domains) (name : Bytes) (ds : List Delivery) (p : Progress)
    → length p.leases < n
    → IsCapped c.policy.per_domain busy p name
    → Yields
        (λ q. (length q.leases ≤ n) × IsCapped c.policy.per_domain busy q name)
        (claim_rows c n ds p)
unfolding claim_rows
claim_rows-bounded c n busy name [] p few h = (omega (arith, few), h)
claim_rows-bounded c n busy name (d ∷ ds) p few h =
    let cap = c.policy.per_domain in
    let goal : Progress → Type 0 = λ q. (length q.leases ≤ n) × IsCapped cap busy q name in
    Yields-then (Round cap p.leases p.domains) goal (claim_one c d p) _ (Round-claim_one c d p)
      (λ q r.
        let grown = Round-length cap p q r in
        let capped = Round-IsCapped cap busy p q name r h in
        elim (Bool-cases (length q.leases == n)) [
          | inl e ↦ rw e (omega (arith, few, grown), capped)
          | inr e ↦ rw e (claim_rows-bounded c n busy name ds q (ground (arith, few, grown)) capped)
        ])

-- ===== src/Queue/Claim/Capacity.antt =====
-- The limits of the policy on what `queue_claim` returns.
use rustymail.Base.{
  ℕ, ◌+◌, ◌-◌, ◌≤◌, ◌≡◌, refl, ◌⊎◌, inl, inr, Bool, true, false, not, List, arith, if◌then◌else◌,
  ◌==◌, Bool-cases, length, within,
}
use rustymail.Bytes.{Bytes}
use rustymail.Queue.Rows.{
  Delivery, Store, Env, QueueLease, Result, StoreError, ok, err, invalid_input,
}
use rustymail.Queue.Table.{transact}
use rustymail.Queue.Clock.{now}
use rustymail.Queue.Policy.{QueuePolicy, batch, validate}
use rustymail.Queue.Lease.{at_time, with_now}
use rustymail.Queue.Sweep.{queue_expire, queue_recover}
use rustymail.Queue.Claim.{
  Progress, count_domain, settle_claim, commit_claim, available_leases, candidates, call_of,
  start_of, owned, claim_at, then_run, queue_claim,
}
use rustymail.Queue.Claim.Yields.{Yields}
use rustymail.Queue.Claim.Bounds.{leases_in, claim_rows-bounded, IsCapped}

-- Leases within the limit of the call, and for a domain within the policy and what is under way.
abbrev pub IsWithin : Store → QueuePolicy → ℕ → Bytes → List QueueLease → Type 0
IsWithin s policy n name ls =
    (length ls ≤ n)
    × (length ls ≤ policy.concurrency - length s.queue.active)
    × ((leases_in name ls ≡ 0)
        ⊎ (leases_in name ls + count_domain name (owned s.queue.active) ≤ policy.per_domain))

settle_claim-Yields :
    (P : List QueueLease → Type 0) (cs : List Delivery) (p : Progress)
    (r : Store × Result (Unit {0}))
    → P p.leases
    → Yields P (settle_claim cs p r).1
unfolding settle_claim
settle_claim-Yields P cs p (s, err e) h = tt
settle_claim-Yields P cs p (s, ok u) h = h

commit_claim-Yields :
    (P : List QueueLease → Type 0) (s : Store) (env : Env) (cs : List Delivery)
    (r : Result Progress)
    → Yields (λ p. P p.leases) r
    → Yields P (commit_claim s env cs r).1
unfolding commit_claim
commit_claim-Yields P s env cs (err e) h = tt
commit_claim-Yields P s env cs (ok p) h =
    settle_claim-Yields P cs p (transact s env.commit (ok (p.db, tt))) h

Yields-mono :
    (P Q : Progress → Type 0) (r : Result Progress)
    → ((p : Progress) → P p → Q p)
    → Yields P r
    → Yields Q r
Yields-mono P Q (err e) f h = tt
Yields-mono P Q (ok p) f h = f p h

-- Behind recovery and expiry `queue_claim` leases at most as many deliveries as the caller
-- allows and as the attempts under way leave of the policy's concurrency; and where it leases one for
-- a domain, those of the domain and its attempts under way are within the policy's limit on it.
pub claim_at-IsWithin :
    (random : Bytes → ℕ → ℕ) (fresh : ℕ → Bytes) (s : Store) (env : Env) (policy : QueuePolicy)
    (n time : ℕ) (name : Bytes)
    → Yields (IsWithin s policy n name) (claim_at random fresh s env policy n time).1
unfolding claim_at
claim_at-IsWithin random fresh s env policy n time name =
    let most = available_leases s policy n in
    let goal = IsWithin s policy n name in
    let busy = owned s.queue.active in
    elim (Bool-cases (most == 0)) [
      | inl e ↦ rw e (unfold leases_in in (omega arith, omega arith, inl refl))
      | inr e ↦ rw e (
          commit_claim-Yields goal s env (candidates s.queue.ready_cursor time s.db) _ (
            Yields-mono (λ p. (length p.leases ≤ most) × IsCapped policy.per_domain busy p name)
              (λ p. goal p.leases) _
              (λ p h. (ground (arith, h.0), ground (arith, h.0), within_cap p h.1.1 h.1.0))
              (claim_rows-bounded (call_of random fresh s policy time) most busy name
                (candidates s.queue.ready_cursor time s.db) (start_of s) (ground arith)
                (unfold leases_in in (omega arith, inl refl)))))
    ]
  where
    within_cap :
        (p : Progress)
        → (leases_in name p.leases ≡ 0) ⊎ (count_domain name p.domains ≤ policy.per_domain)
        → count_domain name p.domains
          ≡ leases_in name p.leases + count_domain name (owned s.queue.active)
        → (leases_in name p.leases ≡ 0)
          ⊎ (leases_in name p.leases + count_domain name (owned s.queue.active) ≤ policy.per_domain)
    within_cap p (inl z) e = inl z
    within_cap p (inr k) e = inr (omega (arith, k, e))

then_run-Yields {ℓ κ μ} :
    {A : Type ℓ} {B : Type κ} (P : B → Type μ) (r : Store × Result A)
    (run : Store → Store × Result B)
    → ((s : Store) → Yields P (run s).1)
    → Yields P (then_run r run).1
then_run-Yields P (s, err e) run k = tt
then_run-Yields P (s, ok a) run k = k s

at_time-Yields {ℓ κ} :
    {A : Type ℓ} (P : A → Type κ) (s : Store) (time : Result ℕ) (run : Store → ℕ → Store × Result A)
    → ((s' : Store) (t : ℕ) → Yields P (run s' t).1)
    → Yields P (at_time s time run).1
unfolding at_time
at_time-Yields P s (err e) run k = tt
at_time-Yields P s (ok t) run k = k s t

with_now-Yields {ℓ κ} :
    {A : Type ℓ} (P : A → Type κ) (s : Store) (env : Env) (run : Store → ℕ → Store × Result A)
    → ((s' : Store) (t : ℕ) → Yields P (run s' t).1)
    → Yields P (with_now s env run).1
unfolding with_now
with_now-Yields P s env run k =
    at_time-Yields P (record s { queue = (now s.queue env.wall env.monotonic).0 })
      (now s.queue env.wall env.monotonic).1 run k

refused_or {ℓ κ} :
    {A : Type ℓ} (P : A → Type κ) (b : Bool) (s : Store) (e : StoreError) (r : Store × Result A)
    → Yields P r.1
    → Yields P (if b then (s, err e) else r).1
refused_or P true s e r h = tt
refused_or P false s e r h = h

-- A claim that succeeds leases at most as many deliveries as the caller allows, at most as many as
-- the policy runs at once, and of each domain at most as many as the policy allows for one.
pub queue_claim-within :
    (random : Bytes → ℕ → ℕ) (fresh : ℕ → Bytes) (s : Store) (env recover_env expire_env : Env)
    (policy : QueuePolicy) (n : ℕ) (name : Bytes)
    → Yields
        (λ ls.
          (length ls ≤ n)
          × (length ls ≤ policy.concurrency)
          × (leases_in name ls ≤ policy.per_domain))
        (queue_claim random fresh s env recover_env expire_env policy n).1
unfolding queue_claim
queue_claim-within random fresh s env recover_env expire_env policy n name =
    let goal : List QueueLease → Type 0 = λ ls.
      (length ls ≤ n)
      × (length ls ≤ policy.concurrency)
      × (leases_in name ls ≤ policy.per_domain) in
    then_run-Yields goal (s, validate policy) _
      (λ s0. refused_or goal (not (within 1 batch n)) s0 invalid_input _ (
        with_now-Yields goal s0 env _ (λ s1 t.
          then_run-Yields goal (queue_recover s1 recover_env batch) _ (λ s2.
            then_run-Yields goal (queue_expire s2 expire_env batch) _ (λ s3.
              weaken (claim_at random fresh s3 env policy n t).1 s3
                (claim_at-IsWithin random fresh s3 env policy n t name))))))
  where
    weaken :
        (r : Result (List QueueLease)) (s3 : Store)
        → Yields (IsWithin s3 policy n name) r
        → Yields
            (λ ls.
              (length ls ≤ n)
              × (length ls ≤ policy.concurrency)
              × (leases_in name ls ≤ policy.per_domain))
            r
    weaken (err e) s3 h = tt
    weaken (ok ls) s3 (few, room, inl z) = (few, omega (arith, room), omega (arith, z))
    weaken (ok ls) s3 (few, room, inr cap) = (few, omega (arith, room), omega (arith, cap))

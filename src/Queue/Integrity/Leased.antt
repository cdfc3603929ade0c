-- ===== src/Queue/Integrity/Leased.antt =====
-- `queue_claim` keeps the tables free of mismatches.
use rustymail.Base.{
  ℕ, ◌*◌, ◌≡◌, refl, inl, inr, Bool, true, false, not, ◌||◌, List, [], ◌∷◌, some, arith,
  if◌then◌else◌, ◌==◌, Bool-cases, leb, length, within, any,
}
use rustymail.Bytes.{Bytes}
use rustymail.Address
use rustymail.Address.{Address, domain}
use rustymail.Queue.Rows.{
  Delivery, Store, Env, Result, ok, err, ok_or, invalid_input, integrity, i64_max,
}
use rustymail.Queue.Table.{has_id, later, transact, set_delivery}
use rustymail.Queue.Policy.{QueuePolicy, batch, validate}
use rustymail.Queue.Lease.{with_now}
use rustymail.Queue.Sweep.{is_active, queue_expire, queue_recover}
use rustymail.Queue.Claim.{
  Call, Progress, is_candidate, candidates, key_of, join, parse_sender, insert_lease, lease_row,
  exhaust_row, lease_one, claim_due, claim_one, claim_rows, count_domain, settle_claim,
  commit_claim, available_leases, claim_at, call_of, start_of, then_run, queue_claim,
}
use rustymail.Queue.Integrity.{IsSound, Keyed}
use rustymail.Queue.Integrity.Keyed.{query-Keyed}
use rustymail.Queue.Claim.Yields.{Yields, Yields-bind, Yields-then, if_Yields}
use rustymail.Queue.Integrity.Kept.{SameKeys, update-IsSound, Kept-transact}
use rustymail.Queue.Integrity.Owner.{with_now-IsSound}
use rustymail.Queue.Integrity.Batch.{query-Covers, queue_expire-IsSound}
use rustymail.Queue.Integrity.Recovery.{queue_recover-IsSound}
use rustymail.Queue.Integrity.Leasing.{
  IsWaiting, lease_row_sound, exhaust_row_sound, Left, Left-other, insert_lease-IsSound,
}

-- The progress of a loop that has the candidates `ds` left.
abbrev IsGood : List Delivery → Progress → Type 0
IsGood ds p = IsSound p.db × Left p.db ds

lease_row-keys : (token : Bytes) (t : ℕ) (d : Delivery) → SameKeys (lease_row token t) d
unfolding lease_row
lease_row-keys token t d = (refl, refl)

exhaust_row-keys : (d : Delivery) → SameKeys exhaust_row d
unfolding exhaust_row
exhaust_row-keys d = (refl, refl)

lease_one-IsGood :
    (c : Call) (d : Delivery) (recipient : Address) (p : Progress) (ds : List Delivery)
    → ((i : ℕ) → length (c.fresh i) ≡ 32)
    → any (has_id d.id) ds ≡ false
    → IsGood (d ∷ ds) p
    → Yields (IsGood ds) (lease_one c d recipient p)
unfolding lease_one
lease_one-IsGood c d recipient p ds size new g =
    Yields-bind (IsGood ds) (join d.message_id p.db) _ (λ j _.
      Yields-bind (IsGood ds) (parse_sender j.message.reverse_path) _ (λ sender _.
        Yields-bind (IsGood ds) (later c.time (c.policy.lease_seconds * 1000)) _ (λ until _.
          let token = c.fresh (length p.leases) in
          let row = lease_row token until in
          Yields-bind (IsGood ds) (insert_lease d.id (set_delivery d.id row p.db)) _ (λ db e.
            let (sound, changed) =
              insert_lease-IsSound d.id row p.db db (λ x. lease_row-keys token until x)
                (λ x b. lease_row_sound token until b x (size (length p.leases))) g.1.0 g.0 e in
            (
              sound,
              Left-other d.id row p.db db ds (λ x. (lease_row-keys token until x).0) changed new
                  g.1.1,
            )))))

claim_due-IsGood :
    (c : Call) (d : Delivery) (p : Progress) (ds : List Delivery)
    → ((i : ℕ) → length (c.fresh i) ≡ 32)
    → any (has_id d.id) ds ≡ false
    → IsGood (d ∷ ds) p
    → Yields (IsGood ds) (claim_due c d p)
unfolding claim_due
claim_due-IsGood c d p ds size new g =
    Yields-bind (IsGood ds) (ok_or (Address.parse d.recipient) integrity) _ (λ recipient _.
      if_Yields (IsGood ds) (leb c.policy.per_domain (count_domain (domain recipient) p.domains))
        (ok p) (lease_one c d recipient p) (g.0, g.1.1)
        (lease_one-IsGood c d recipient p ds size new g))

claim_one-IsGood :
    (c : Call) (d : Delivery) (p : Progress) (ds : List Delivery)
    → ((i : ℕ) → length (c.fresh i) ≡ 32)
    → any (has_id d.id) ds ≡ false
    → IsGood (d ∷ ds) p
    → Yields (IsGood ds) (claim_one c d p)
unfolding claim_one
claim_one-IsGood c d p ds size new g =
    let q = record p { last = some (key_of d) } in
    let exhausted = set_delivery d.id exhaust_row p.db in
    if_Yields (IsGood ds) (is_active d.id c.active || leb d.expires_at_ms c.time) (ok q) _
      (g.0, g.1.1)
      (if_Yields (IsGood ds) (d.attempts == i64_max || d.generation == i64_max)
        (ok (record q { db = exhausted })) (claim_due c d q)
        (
          update-IsSound (λ x. has_id d.id x ≡ true → IsWaiting x) (has_id d.id) exhaust_row p.db
              exhaust_row-keys (λ x b e w m. exhaust_row_sound b x (w e) m) g.1.0 g.0,
          Left-other d.id exhaust_row p.db exhausted ds (λ x. (exhaust_row-keys x).0) refl new
              g.1.1,
        )
        (claim_due-IsGood c d q ds size new g))

claim_rows-IsSound :
    (c : Call) (n : ℕ) (ds : List Delivery) (p : Progress)
    → ((i : ℕ) → length (c.fresh i) ≡ 32)
    → Keyed ds
    → IsGood ds p
    → Yields (λ q. IsSound q.db) (claim_rows c n ds p)
unfolding claim_rows
claim_rows-IsSound c n [] p size k g = g.0
claim_rows-IsSound c n (d ∷ ds) p size k g =
    Yields-then (IsGood ds) (λ q. IsSound q.db) (claim_one c d p) _
      (claim_one-IsGood c d p ds size k.0 g)
      (λ q h.
        if_Yields (λ x. IsSound x.db) (length q.leases == n) (ok q) (claim_rows c n ds q) h.0
          (claim_rows-IsSound c n ds q size k.1 h))

settle_claim-db :
    (cs : List Delivery) (p : Progress) (r : Store × Result (Unit {0}))
    → IsSound r.0.db
    → IsSound (settle_claim cs p r).0.db
unfolding settle_claim
settle_claim-db cs p (s, err e) h = h
settle_claim-db cs p (s, ok done) h = h

commit_claim-IsSound :
    (s : Store) (env : Env) (cs : List Delivery) (r : Result Progress)
    → IsSound s.db
    → Yields (λ q. IsSound q.db) r
    → IsSound (commit_claim s env cs r).0.db
unfolding commit_claim
commit_claim-IsSound s env cs (err e) h k = h
commit_claim-IsSound s env cs (ok p) h k =
    settle_claim-db cs p (transact s env.commit (ok (p.db, tt)))
      (Kept-transact IsSound s env.commit (ok (p.db, tt)) h k)

claim_at-IsSound :
    (random : Bytes → ℕ → ℕ) (fresh : ℕ → Bytes) (s : Store) (env : Env) (policy : QueuePolicy)
    (n time : ℕ)
    → ((i : ℕ) → length (fresh i) ≡ 32)
    → IsSound s.db
    → IsSound (claim_at random fresh s env policy n time).0.db
unfolding claim_at IsSound
claim_at-IsSound random fresh s env policy n time size h =
    elim (Bool-cases (available_leases s policy n == 0)) [
      | inl e ↦ rw e h
      | inr e ↦ rw e (
          commit_claim-IsSound s env (candidates s.queue.ready_cursor time s.db) _ h (
            claim_rows-IsSound (call_of random fresh s policy time) (available_leases s policy n)
              (candidates s.queue.ready_cursor time s.db) (start_of s) size
              (query-Keyed batch _ (is_candidate s.queue.ready_cursor time) s.db.deliveries h.0)
              (
                h,
                query-Covers IsWaiting batch _ (is_candidate s.queue.ready_cursor time) s.db h
                    (λ d e' _. ground arith),
              )))
    ]

then_run-IsSound {ℓ κ} :
    {A : Type ℓ} {B : Type κ} (r : Store × Result A) (run : Store → Store × Result B)
    → IsSound r.0.db
    → ((s : Store) → IsSound s.db → IsSound (run s).0.db)
    → IsSound (then_run r run).0.db
then_run-IsSound (s, err e) run h k = h
then_run-IsSound (s, ok a) run h k = k s h

if_IsSound {ℓ} :
    {A : Type ℓ} (b : Bool) (x y : Store × Result A)
    → IsSound x.0.db
    → IsSound y.0.db
    → IsSound (if b then x else y).0.db
if_IsSound true x y h k = h
if_IsSound false x y h k = k

pub queue_claim-IsSound :
    (random : Bytes → ℕ → ℕ) (fresh : ℕ → Bytes) (s : Store) (env recover_env expire_env : Env)
    (policy : QueuePolicy) (n : ℕ)
    → ((i : ℕ) → length (fresh i) ≡ 32)
    → IsSound s.db
    → IsSound (queue_claim random fresh s env recover_env expire_env policy n).0.db
unfolding queue_claim
queue_claim-IsSound random fresh s env recover_env expire_env policy n size h =
    let claim = λ (t : ℕ) (s3 : Store). claim_at random fresh s3 env policy n t in
    let expired = λ (t : ℕ) (s2 : Store). then_run (queue_expire s2 expire_env batch) (claim t) in
    let recovered =
      λ (s1 : Store) (t : ℕ). then_run (queue_recover s1 recover_env batch) (expired t) in
    then_run-IsSound (s, validate policy) _ h
      (λ s0 h0.
        if_IsSound (not (within 1 batch n)) (s0, err invalid_input) (with_now s0 env recovered) h0
          (with_now-IsSound s0 env recovered h0 (λ s1 t h1.
            then_run-IsSound (queue_recover s1 recover_env batch) (expired t)
              (queue_recover-IsSound s1 recover_env batch h1)
              (λ s2 h2.
                then_run-IsSound (queue_expire s2 expire_env batch) (claim t)
                  (queue_expire-IsSound s2 expire_env batch h2)
                  (λ s3 h3. claim_at-IsSound random fresh s3 env policy n t size h3)))))

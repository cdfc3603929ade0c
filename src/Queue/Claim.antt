-- ===== src/Queue/Claim.antt =====
-- crates/store/src/queue.rs: `queue_claim`, which leases deliveries that are due to the workers.
pub mod Yields
pub mod Bounds
pub mod Capacity
use rustymail.Base.{
  ℕ, ◌+◌, ◌-◌, ◌*◌, Bool, true, false, not, ◌&&◌, ◌||◌, List, [], ◌∷◌, ◌++◌, Option, none, some,
  ltb, leb, within, ◌==◌, if◌then◌else◌, length, map, is_some,
}
use rustymail.Bytes.{Bytes, equal, is_empty}
use rustymail.Address
use rustymail.Address.{Address, domain}
use rustymail.Queue.Rows.{
  Delivery, LeaseRow, Phase, ready, Db, Store, Active, Message, Blob, QueueMessage, Source,
  submission, QueueLease, Env, State, leased, hold, Reason, counter, Result, ok, err, ok_or, ◌>>=◌,
  StoreError, database, integrity, invalid_input, i64_max,
}
use rustymail.Queue.Table.{
  earlier, select, find, order_by, limit, has_id, is_relay, is_waiting, find_lease, set_delivery,
  transact, later,
}
use rustymail.Queue.Policy.{QueuePolicy, batch, validate, least, delay_ms}
use rustymail.Queue.Lease.{with_now}
use rustymail.Queue.Sweep.{is_active, queue_recover, queue_expire}

-- `domains`, one entry for each attempt under way or leased in this call
abbrev pub Domains : Type 0
Domains = List Bytes

-- `domains.get(domain).copied().unwrap_or(0)`
unfoldable pub count_domain : Bytes → Domains → ℕ
count_domain name [] = 0
count_domain name (x ∷ xs) =
    let rest = count_domain name xs in if equal x name then rest + 1 else rest

abbrev pub owned : List Active → Domains
owned active = map (λ (a : Active). a.domain) (select (λ (a : Active). ltb 0 a.strong_count) active)

-- behind the cursor; without one, every row
abbrev behind : Option (ℕ × Bytes) → ℕ × Bytes → Bool
behind none key = true
behind (some cursor) key = earlier cursor key

abbrev pub key_of : Delivery → ℕ × Bytes
key_of d = (d.next_attempt_at_ms, d.id)

-- WHERE of the candidates
abbrev pub is_candidate : Option (ℕ × Bytes) → ℕ → Delivery → Bool
is_candidate cursor time d =
    is_relay d.route
    && is_waiting d.state
    && leb d.next_attempt_at_ms time
    && behind cursor (key_of d)

abbrev pub candidates : Option (ℕ × Bytes) → ℕ → Db → List Delivery
candidates cursor time db = limit batch (
    order_by (λ (a b : Delivery). earlier (key_of a) (key_of b))
      (select (is_candidate cursor time) db.deliveries))

-- the row of message, queue_message and blob joined for a delivery
pub record Joined : Type 0 where
  pub message : Message
  pub queue_message : QueueMessage
  pub blob : Blob

abbrev pub join : Bytes → Db → Result Joined
join id db = do
  m ← ok_or (find (λ (m : Message). equal m.id id) db.messages) database
  q ← ok_or (find (λ (q : QueueMessage). equal q.message_id m.id) db.queue_messages) database
  b ← ok_or (find (λ (b : Blob). equal b.id m.blob_id) db.blobs) database
  ok (record { message = m; queue_message = q; blob = b })

abbrev pub parse_sender : Bytes → Result (Option Address)
parse_sender s =
    if is_empty s then ok none else ok_or (Address.parse s) integrity >>= λ a. ok (some a)

abbrev is_submission : Source → Bool
is_submission submission = true
is_submission _ = false

-- INSERT INTO queue_lease, which its primary key may refuse
unfoldable pub insert_lease : Bytes → Db → Result Db
insert_lease id db =
    if is_some (find_lease id db.leases)
    then err database
    else ok (record db { leases = record { delivery_id = id; phase = ready } ∷ db.leases })

-- the UPDATE that leases a delivery
unfoldable pub lease_row : Bytes → ℕ → Delivery → Delivery
lease_row token until d = record d {
  state = leased;
  attempts = d.attempts + 1;
  generation = d.generation + 1;
  lease_token = some token;
  lease_until_ms = some until;
}

-- the UPDATE that holds a delivery whose counters are exhausted
unfoldable pub exhaust_row : Delivery → Delivery
exhaust_row d = record d {
  state = hold;
  lifecycle_reason = some counter;
  diagnostic = some "attempt counter exhausted";
}

-- What the loop over the candidates changes.
pub record Progress : Type 0 where
  pub db : Db
  pub domains : Domains
  pub leases : List QueueLease
  pub last : Option (ℕ × Bytes)

-- The parameters of one call: the hash of `delay_ms`, the tokens that `Uuid::new_v4` makes, by the
-- count of leases; the lock of the store; the candidates a worker still owns; the time.
pub record Call : Type 0 where
  pub random : Bytes → ℕ → ℕ
  pub fresh : ℕ → Bytes
  pub policy : QueuePolicy
  pub lock : ℕ
  pub active : List Active
  pub time : ℕ

-- the part of the loop behind the test on the domain
unfoldable pub lease_one : Call → Delivery → Address → Progress → Result Progress
unfolding find later lease_row insert_lease delay_ms domain
lease_one c d recipient p = do
  j ← join d.message_id p.db
  sender ← parse_sender j.message.reverse_path
  until ← later c.time (c.policy.lease_seconds * 1000)
  let token = c.fresh (length p.leases)
  db ← insert_lease d.id (set_delivery d.id (lease_row token until) p.db)
  let lease : QueueLease = record {
    id = d.id;
    token = token;
    generation = d.generation + 1;
    lock = c.lock;
    domain = domain recipient;
    retry_ms = delay_ms c.random c.policy d.id (d.attempts + 1);
    message_id = d.message_id;
    recipient = recipient;
    sender = sender;
    body = j.queue_message.body_mode;
    blob_id = j.message.blob_id;
    stored_size = j.blob.size_bytes;
    submission = is_submission j.message.source;
  }
  ok (record p {
    db = db;
    domains = domain recipient ∷ p.domains;
    leases = p.leases ++ (lease ∷ []);
  })

-- the test on the domain
unfoldable pub claim_due : Call → Delivery → Progress → Result Progress
unfolding lease_one count_domain
claim_due c d p = do
  recipient ← ok_or (Address.parse d.recipient) integrity
  (if leb c.policy.per_domain (count_domain (domain recipient) p.domains)
      then ok p
      else lease_one c d recipient p)

-- one round of the loop
unfoldable pub claim_one : Call → Delivery → Progress → Result Progress
unfolding claim_due exhaust_row
claim_one c d before =
    let p = record before { last = some (key_of d) } in
    let due = claim_due c d p in
    if is_active d.id c.active || leb d.expires_at_ms c.time
    then ok p
    else if d.attempts == i64_max || d.generation == i64_max
    then ok (record p { db = set_delivery d.id exhaust_row p.db })
    else due

-- The loop, which stops when `available` leases are made. A row that makes none leaves their count
-- below that, so the test may follow every row.
unfoldable pub claim_rows : Call → ℕ → List Delivery → Progress → Result Progress
unfolding claim_one
claim_rows c available [] p = ok p
claim_rows c available (d ∷ ds) p = claim_one c d p >>= λ q.
    let rest = claim_rows c available ds q in if length q.leases == available then ok q else rest

-- `active.insert`: the key is unique
unfoldable pub insert_active : List QueueLease → List Active → List Active
unfolding select
insert_active [] active = active
insert_active (l ∷ ls) active = insert_active ls (
    record { key = l.id; token = l.token; domain = l.domain; strong_count = 1 }
    ∷ select (λ (a : Active). not (equal a.key l.id)) active)

abbrev same_key : Option (ℕ × Bytes) → Option (ℕ × Bytes) → Bool
same_key none none = true
same_key (some (t, id)) (some (t', id')) = t == t' && equal id id'
same_key _ _ = false

abbrev last_key : List Delivery → Option (ℕ × Bytes)
last_key [] = none
last_key (d ∷ []) = some (key_of d)
last_key (_ ∷ d ∷ ds) = last_key (d ∷ ds)

-- the cursor of the next call
abbrev next_cursor : List Delivery → Option (ℕ × Bytes) → Option (ℕ × Bytes)
next_cursor cs last = if ltb (length cs) batch && same_key last (last_key cs) then none else last

-- behind the COMMIT: the cursor and the guards
unfoldable pub settle_claim :
    List Delivery → Progress → Store × Result (Unit {0}) → Store × Result (List QueueLease)
unfolding insert_active
settle_claim cs p (s, err e) = (s, err e)
settle_claim cs p (s, ok done) = (
  record s {
    queue = record s.queue {
      ready_cursor = next_cursor cs p.last;
      active = insert_active p.leases s.queue.active;
    };
  },
  ok p.leases,
)

unfoldable pub commit_claim :
    Store → Env → List Delivery → Result Progress → Store × Result (List QueueLease)
unfolding settle_claim transact
commit_claim s env cs (err e) = (s, err e)
commit_claim s env cs (ok p) = settle_claim cs p (transact s env.commit (ok (p.db, tt)))

abbrev pub available_leases : Store → QueuePolicy → ℕ → ℕ
available_leases s policy n = least (policy.concurrency - length s.queue.active) n

abbrev pub call_of : (Bytes → ℕ → ℕ) → (ℕ → Bytes) → Store → QueuePolicy → ℕ → Call
call_of random fresh s policy time = record {
  random = random;
  fresh = fresh;
  policy = policy;
  lock = s.lock;
  active = s.queue.active;
  time = time;
}

abbrev pub start_of : Store → Progress
start_of s = record { db = s.db; domains = owned s.queue.active; leases = []; last = none }

-- behind recovery and expiry
unfoldable pub claim_at :
    (Bytes → ℕ → ℕ)
    → (ℕ → Bytes)
    → Store
    → Env
    → QueuePolicy
    → ℕ
    → ℕ
    → Store × Result (List QueueLease)
unfolding claim_rows commit_claim select order_by limit
claim_at random fresh s env policy n time =
    let available = available_leases s policy n in
    let cs = candidates s.queue.ready_cursor time s.db in
    if available == 0
    then (s, ok [])
    else commit_claim s env cs
        (claim_rows (call_of random fresh s policy time) available cs (start_of s))

-- a call whose error is returned at once
abbrev pub then_run {ℓ κ} :
    {A : Type ℓ} {B : Type κ} → Store × Result A → (Store → Store × Result B) → Store × Result B
then_run (s, err e) run = (s, err e)
then_run (s, ok a) run = run s

-- The three calls that read clocks and commit each have an `Env` of their own.
unfoldable pub queue_claim :
    (Bytes → ℕ → ℕ)
    → (ℕ → Bytes)
    → Store
    → Env
    → Env
    → Env
    → QueuePolicy
    → ℕ
    → Store × Result (List QueueLease)
unfolding claim_at validate with_now queue_recover queue_expire
queue_claim random fresh s env recover_env expire_env policy n =
    then_run (s, validate policy)
      (λ s0.
        if not (within 1 batch n)
        then (s0, err invalid_input)
        else with_now s0 env (λ s1 time. then_run (queue_recover s1 recover_env batch) (λ s2.
          then_run (queue_expire s2 expire_env batch)
            (λ s3. claim_at random fresh s3 env policy n time))))

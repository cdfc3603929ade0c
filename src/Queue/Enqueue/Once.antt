-- ===== src/Queue/Enqueue/Once.antt =====
-- An operation is accepted once: crates/store/src/queue.rs, `enqueue`.
use rustymail.Base.{
  ℕ, ◌*◌, ◌≡◌, refl, subst, sym, ap, ◌∙◌, inl, inr, Bool, true, not, ◌||◌, List, Option, none, some,
  Bool-cases, ltb, within, length,
}
use rustymail.Bytes.{Bytes, equal, equal_iff, is_empty}
use rustymail.Queue.Rows.{
  Db, Store, Env, Message, Blob, QueueMessage, Commit, done, refused, unacknowledged, QueueBody,
  Result, ok, err,
}
use rustymail.Queue.Table.{find, valid_id, later}
use rustymail.Queue.Clock.{now_ms}
use rustymail.Queue.Claim.Yields.{Yields, Yields-bind, Yields-then}
use rustymail.Queue.Enqueue.{
  QueuePlan, PreparedMessage, AcceptedMessage, to_set, texts, new_blob, new_message, with_message,
  insert_deliveries, insert_relay, accept_new, finish_enqueue, same_operation, enqueue_found,
  pair_up, with_blob, previous, enqueue_at, enqueue,
}

-- The store holds the operation under the id.
abbrev Holds : Bytes → Bytes → Db → Type 0
Holds key id db = (m : Message) × (b : Blob) × (previous key db ≡ some (m, b)) × (m.id ≡ id)

-- What an operation does to a store that holds it: nothing, and an answer has the id.
abbrev pub IsReplay : Store → Bytes → Store × Result AcceptedMessage → Type 0
IsReplay s id r = (r.0 ≡ s) × Yields (λ a. a.message_id ≡ id) r.1

insert_relay-keeps :
    (fresh : ℕ → Bytes) (id : Bytes) (rs : List Bytes) (q : QueueBody) (age time : ℕ) (db : Db)
    → Yields
        (λ db'. (db'.messages ≡ db.messages) × (db'.blobs ≡ db.blobs))
        (insert_relay fresh id rs q age time db)
unfolding insert_relay
insert_relay-keeps fresh id rs q age time db =
    let goal : Db → Type 0 = λ db'. (db'.messages ≡ db.messages) × (db'.blobs ≡ db.blobs) in
    Yields-bind goal (later time (age * 1000)) _ (λ expires _.
      Yields-bind goal (insert_deliveries fresh 0 id rs time expires db.deliveries) _
        (λ ds _. (refl, refl)))

equal_refl : (b : Bytes) → equal b b ≡ true
equal_refl b = (equal_iff b b).1 refl

stored_previous :
    (id : Bytes) (p : PreparedMessage) (plan : QueuePlan) (time : ℕ) (db q : Db)
    → q.messages ≡ (with_message id p plan time db).messages
    → q.blobs ≡ (with_message id p plan time db).blobs
    → previous plan.operation_id q ≡ some (new_message id p plan time, new_blob p time)
unfolding find
stored_previous id p plan time db q hm hb =
    let m = new_message id p plan time in
    let b = new_blob p time in
    let found_m : find (λ (m : Message). equal m.ingest_key plan.operation_id) q.messages ≡ some m =
      rw (hm, equal_refl plan.operation_id) refl in
    let found_b : find (λ (b : Blob). equal b.id p.id) q.blobs ≡ some b =
      rw (hb, equal_refl p.id) refl in
    let joined : with_blob q (some m) ≡ some (m, b) = ap (pair_up m) found_b in
    ap (with_blob q) found_m ∙ joined

accept_new-Holds :
    (fresh : ℕ → Bytes) (id : Bytes) (p : PreparedMessage) (plan : QueuePlan) (time : ℕ) (db : Db)
    → Yields (λ r. Holds plan.operation_id r.1.message_id r.0) (accept_new fresh id p plan time db)
unfolding accept_new find
accept_new-Holds fresh id p plan time db =
    let stored = with_message id p plan time db in
    Yields-then (λ q. (q.messages ≡ stored.messages) × (q.blobs ≡ stored.blobs))
      (λ r. Holds plan.operation_id r.1.message_id r.0)
      (insert_relay fresh id (to_set (texts plan.recipients)) plan.body plan.max_age_seconds time
        stored)
      _
      (insert_relay-keeps fresh id (to_set (texts plan.recipients)) plan.body plan.max_age_seconds
        time stored)
      (λ q h. (
        new_message id p plan time,
        new_blob p time,
        stored_previous id p plan time db q h.0 h.1,
        refl,
      ))

finish_enqueue-Holds :
    (key : Bytes) (s : Store) (c : Commit) (r : Result (Db × AcceptedMessage))
    → Yields (λ x. Holds key x.1.message_id x.0) r
    → Yields (λ a. Holds key a.message_id (finish_enqueue s c r).0.db) (finish_enqueue s c r).1
finish_enqueue-Holds key s c (err e) h = tt
finish_enqueue-Holds key s done (ok (db, a)) h = h
finish_enqueue-Holds key s refused (ok (db, a)) h = tt
finish_enqueue-Holds key s unacknowledged (ok (db, a)) h = tt

enqueue_found-IsReplay :
    (fresh : ℕ → Bytes) (id : Bytes) (s : Store) (env : Env) (p : PreparedMessage)
    (plan : QueuePlan) (time : ℕ) (m : Message) (b : Blob)
    → IsReplay s m.id (enqueue_found fresh id s env p plan time (some (m, b)))
unfolding enqueue_found
enqueue_found-IsReplay fresh id s env p plan time m b =
    let q = find (λ (q : QueueMessage). equal q.message_id m.id) s.db.queue_messages in
    elim (Bool-cases (same_operation p plan m b q s.db)) [
      | inl e ↦ rw e (refl, refl)
      | inr e ↦ rw e (refl, tt)
    ]

enqueue_found-Holds :
    (fresh : ℕ → Bytes) (id : Bytes) (s : Store) (env : Env) (p : PreparedMessage)
    (plan : QueuePlan) (time : ℕ) (o : Option (Message × Blob))
    → previous plan.operation_id s.db ≡ o
    → let r = enqueue_found fresh id s env p plan time o in
      Yields (λ a. Holds plan.operation_id a.message_id r.0.db) r.1
unfolding enqueue_found
enqueue_found-Holds fresh id s env p plan time none e =
    finish_enqueue-Holds plan.operation_id s env.commit (accept_new fresh id p plan time s.db)
      (accept_new-Holds fresh id p plan time s.db)
enqueue_found-Holds fresh id s env p plan time (some (m, b)) e =
    let q = find (λ (q : QueueMessage). equal q.message_id m.id) s.db.queue_messages in
    elim (Bool-cases (same_operation p plan m b q s.db)) [
      | inl same ↦ rw same (m, b, e, refl)
      | inr other ↦ rw other tt
    ]

enqueue_at-Holds :
    (fresh : ℕ → Bytes) (id : Bytes) (s : Store) (env : Env) (p : PreparedMessage)
    (plan : QueuePlan) (time : Result ℕ)
    → let r = enqueue_at fresh id s env p plan time in
      Yields (λ a. Holds plan.operation_id a.message_id r.0.db) r.1
unfolding enqueue_at
enqueue_at-Holds fresh id s env p plan (err e) = tt
enqueue_at-Holds fresh id s env p plan (ok time) =
    enqueue_found-Holds fresh id s env p plan time (previous plan.operation_id s.db) refl

enqueue_at-IsReplay :
    (fresh : ℕ → Bytes) (id : Bytes) (s : Store) (env : Env) (p : PreparedMessage)
    (plan : QueuePlan) (time : Result ℕ) (old : Bytes)
    → Holds plan.operation_id old s.db
    → IsReplay s old (enqueue_at fresh id s env p plan time)
unfolding enqueue_at
enqueue_at-IsReplay fresh id s env p plan (err e) old h = (refl, tt)
enqueue_at-IsReplay fresh id s env p plan (ok time) old (m, b, found, named) =
    rw (found, ← named) (enqueue_found-IsReplay fresh id s env p plan time m b)

-- the tests of `enqueue` on its arguments
abbrev refused_plan : Bytes → PreparedMessage → QueuePlan → Bool
refused_plan root p plan =
    not (equal p.root root)
    || not (valid_id plan.operation_id)
    || is_empty plan.recipients
    || ltb 100 (length plan.recipients)
    || not (within 1 604800 plan.max_age_seconds)

-- When `enqueue` accepts an operation under an id, a later call in that state with the same operation
-- id, whatever message and plan it has and whatever it meets, changes nothing: it fails, or it
-- answers with the same id.
pub enqueue-once :
    (fresh fresh' : ℕ → Bytes) (id id' root : Bytes) (s : Store) (env env' : Env)
    (p p' : PreparedMessage) (plan plan' : QueuePlan)
    → plan'.operation_id ≡ plan.operation_id
    → let r = enqueue fresh id root s env p plan in
      Yields (λ a. IsReplay r.0 a.message_id (enqueue fresh' id' root r.0 env' p' plan')) r.1
unfolding enqueue
enqueue-once fresh fresh' id id' root s env env' p p' plan plan' same =
    elim (Bool-cases (refused_plan root p plan)) [
      | inl e ↦ rw e tt
      | inr e ↦ rw e (
          later_call (enqueue_at fresh id s env p plan (now_ms env.wall))
            (enqueue_at-Holds fresh id s env p plan (now_ms env.wall)))
    ]
  where
    replayed :
        (s' : Store) (old : Bytes)
        → Holds plan.operation_id old s'.db
        → IsReplay s' old (enqueue fresh' id' root s' env' p' plan')
    replayed s' old h = elim (Bool-cases (refused_plan root p' plan')) [
      | inl e ↦ rw e (refl, tt)
      | inr e ↦ rw e (
          enqueue_at-IsReplay fresh' id' s' env' p' plan' (now_ms env'.wall) old
            (subst (λ (key : Bytes). Holds key old s'.db) (sym same) h))
    ]

    later_call :
        (r : Store × Result AcceptedMessage)
        → Yields (λ a. Holds plan.operation_id a.message_id r.0.db) r.1
        → Yields (λ a. IsReplay r.0 a.message_id (enqueue fresh' id' root r.0 env' p' plan')) r.1
    later_call (s', err e) h = tt
    later_call (s', ok a) h = replayed s' a.message_id h

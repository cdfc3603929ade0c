-- ===== src/Queue/Admin.antt =====
-- crates/store/src/queue.rs: what the administrator may do to a delivery: hold it, retry it, close it
-- as unknown.
pub mod Consent
use rustymail.Base.{
  ℕ, suc, ◌*◌, Bool, true, false, not, ◌&&◌, ◌||◌, List, [], ◌∷◌, ◌++◌, none, some, ltb, leb,
  within, is_some, ◌==◌, if◌then◌else◌, length, all,
}
use rustymail.Bytes.{Bytes, equal, is_empty, codes}
use rustymail.Queue.Rows.{
  Delivery, Db, Store, Env, State, pending, deferred, uncertain, hold, manual, QueueMessage,
  AdminAction, hold_action, retry_action, close_unknown_action, Result, ok, err, ok_or, ◌>>=◌,
  invalid_input, invalid_id, not_found,
}
use rustymail.Queue.Table.{valid_id, find, has_id, is_relay, update, transact, later}
use rustymail.Queue.Clock.{now_ms}
use rustymail.Queue.Lease.{with_now, is_uncertain}

-- WHERE id=?1 AND route='relay'
abbrev pub relay_id : Bytes → Delivery → Bool
relay_id id d = has_id id d && is_relay d.route

-- `admin_event`
abbrev pub admin_event : Bytes → AdminAction → State → State → Bytes → Bool → Bool → ℕ → Db → Db
admin_event id action before after note duplicate extend time db = record db {
  admin_events =
      db.admin_events
      ++ (record {
        delivery_id = id;
        action = action;
        before_state = before;
        after_state = after;
        note = note;
        allow_duplicate = duplicate;
        extend_expired = extend;
        created_at_ms = time;
      }
          ∷ []);
}

-- an UPDATE with a WHERE of its own, and the count of the rows it changed
unfoldable pub count_where : (Delivery → Bool) → List Delivery → ℕ
count_where p [] = 0
count_where p (d ∷ ds) = if p d then suc (count_where p ds) else count_where p ds

abbrev pub set_where : (Delivery → Bool) → (Delivery → Delivery) → Db → Db
set_where p f db = record db { deliveries = update p f db.deliveries }

-- state IN ('pending','deferred','uncertain','hold')
abbrev pub may_hold : State → Bool
may_hold pending = true
may_hold deferred = true
may_hold uncertain = true
may_hold hold = true
may_hold _ = false

abbrev pub holdable : Bytes → Delivery → Bool
holdable id d = relay_id id d && not (is_some d.closed_at_ms) && may_hold d.state

unfoldable pub hold_row : Delivery → Delivery
hold_row d = record d {
  state = hold;
  lifecycle_reason = some manual;
  possibly_delivered = d.possibly_delivered || is_uncertain d.state;
  diagnostic = some "held by administrator";
}

unfoldable pub hold_body : Bytes → ℕ → Db → Result (Db × Unit {0})
unfolding find count_where hold_row update
hold_body id time db = do
  old ← ok_or (find (relay_id id) db.deliveries) not_found
  (if not (count_where (holdable id) db.deliveries == 1)
      then err invalid_input
      else ok (
        admin_event id hold_action old.state hold (codes "operator requested hold") false false time
            (set_where (holdable id) hold_row db),
        tt,
      ))

-- an operation that reads the wall clock alone
unfoldable pub by_wall :
    Store → Env → Result ℕ → (ℕ → Db → Result (Db × Unit {0})) → Store × Result (Unit {0})
unfolding transact
by_wall s env (err e) run = (s, err e)
by_wall s env (ok time) run = transact s env.commit (run time s.db)

unfoldable pub queue_hold : Store → Env → Bytes → Store × Result (Unit {0})
unfolding hold_body valid_id by_wall
queue_hold s env id =
    if not (valid_id id)
    then (s, err invalid_id)
    else by_wall s env (now_ms env.wall) (hold_body id)

abbrev pub may_retry : State → Bool
may_retry deferred = true
may_retry uncertain = true
may_retry hold = true
may_retry _ = false

-- the states from which no proof excludes that the peer has accepted the message
abbrev pub needs_consent : State → Bool
needs_consent uncertain = true
needs_consent hold = true
needs_consent _ = false

unfoldable pub retry_row : ℕ → ℕ → Delivery → Delivery
retry_row time expires d = record d {
  state = pending;
  next_attempt_at_ms = time;
  expires_at_ms = expires;
  lifecycle_reason = none;
  diagnostic = some "explicit administrator retry";
}

-- the tests of `queue_retry` on the row
unfoldable pub may_retry_row : Delivery → Bool → Bool → ℕ → Bool
may_retry_row d allow_duplicate extend_expired time =
    may_retry d.state
    && not (is_some d.closed_at_ms)
    && not (needs_consent d.state && not allow_duplicate)
    && not (leb d.expires_at_ms time && not extend_expired)

unfoldable pub new_expiry : Delivery → QueueMessage → ℕ → Result ℕ
unfolding later
new_expiry d m time =
    if leb d.expires_at_ms time then later time (m.max_age_seconds * 1000) else ok d.expires_at_ms

unfoldable pub retry_body : Bytes → Bool → Bool → ℕ → Db → Result (Db × Unit {0})
unfolding find may_retry_row new_expiry retry_row update
retry_body id allow_duplicate extend_expired time db = do
  d ← ok_or (find (relay_id id) db.deliveries) not_found
  m ←
      ok_or (find (λ (m : QueueMessage). equal m.message_id d.message_id) db.queue_messages)
        not_found
  (if not (may_retry_row d allow_duplicate extend_expired time) then err invalid_input else do
    expires ← new_expiry d m time
    ok (
      admin_event id retry_action d.state pending (codes "operator requested retry") allow_duplicate
          extend_expired time (set_where (has_id id) (retry_row time expires) db),
      tt,
    ))

unfoldable pub queue_retry : Store → Env → Bytes → Bool → Bool → Store × Result (Unit {0})
unfolding retry_body valid_id transact with_now
queue_retry s env id allow_duplicate extend_expired =
    if not (valid_id id)
    then (s, err invalid_id)
    else with_now s env (λ s' time.
      transact s' env.commit (retry_body id allow_duplicate extend_expired time s'.db))

abbrev pub may_close : State → Bool
may_close uncertain = true
may_close hold = true
may_close _ = false

abbrev pub closable : Bytes → Delivery → Bool
closable id d =
    relay_id id d && may_close d.state && d.possibly_delivered && not (is_some d.closed_at_ms)

unfoldable pub close_row : ℕ → Delivery → Delivery
close_row time d = record d {
  state = uncertain;
  closed_at_ms = some time;
  diagnostic = some "unknown outcome closed by administrator";
}

unfoldable pub close_body : Bytes → Bytes → ℕ → Db → Result (Db × Unit {0})
unfolding find count_where close_row update
close_body id note time db = do
  old ← ok_or (find (relay_id id) db.deliveries) not_found
  (if not (count_where (closable id) db.deliveries == 1)
      then err invalid_input
      else ok (
        admin_event id close_unknown_action old.state uncertain note false false time
            (set_where (closable id) (close_row time) db),
        tt,
      ))

unfoldable pub queue_close_unknown : Store → Env → Bytes → Bytes → Store × Result (Unit {0})
unfolding close_body valid_id by_wall
queue_close_unknown s env id note =
    if not (valid_id id) || is_empty note || ltb 512 (length note) || not (all (within 32 126) note)
    then (s, err invalid_input)
    else by_wall s env (now_ms env.wall) (close_body id note)

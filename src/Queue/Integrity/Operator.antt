-- ===== src/Queue/Integrity/Operator.antt =====
-- The administrator keeps the tables free of mismatches.
use rustymail.Base.{ℕ, ◌≡◌, refl, Bool, true, false, not, arith, if◌then◌else◌, ◌==◌}
use rustymail.Bytes.{Bytes, equal}
use rustymail.Queue.Rows.{
  Db, Store, Env, Result, ok, err, ok_or, not_found, invalid_input, QueueMessage,
}
use rustymail.Queue.Table.{find, has_id, transact, valid_id}
use rustymail.Queue.Clock.{now_ms}
use rustymail.Queue.Admin.{
  relay_id, count_where, holdable, hold_row, hold_body, by_wall, queue_hold, may_retry_row,
  retry_row, new_expiry, retry_body, queue_retry, closable, close_row, close_body,
  queue_close_unknown,
}
use rustymail.Queue.Integrity.{IsSound}
use rustymail.Queue.Integrity.Select.{find-only}
use rustymail.Queue.Integrity.Row.{hold_row_sound, retry_row_sound, close_row_sound}
use rustymail.Queue.Integrity.Kept.{
  Kept, Kept-bind, Kept-guard, Kept-transact, ok_or-eq, update-IsSound,
}
use rustymail.Queue.Integrity.Owner.{with_now-IsSound, All-const}

by_wall-IsSound :
    (s : Store) (env : Env) (time : Result ℕ) (run : ℕ → Db → Result (Db × Unit {0}))
    → IsSound s.db
    → ((t : ℕ) → Kept IsSound (run t s.db))
    → IsSound (by_wall s env time run).0.db
unfolding by_wall
by_wall-IsSound s env (err e) run h k = h
by_wall-IsSound s env (ok t) run h k = Kept-transact IsSound s env.commit (run t s.db) h (k t)

hold_body-IsSound :
    (id : Bytes) (time : ℕ) (db : Db) → IsSound db → Kept IsSound (hold_body id time db)
unfolding hold_body IsSound
hold_body-IsSound id time db h =
    Kept-bind IsSound (ok_or (find (relay_id id) db.deliveries) not_found) _ (λ old _.
      Kept-guard IsSound (not (count_where (holdable id) db.deliveries == 1)) invalid_input _ (λ _.
        update-IsSound (λ x. Unit {0}) (holdable id) hold_row db (λ x. (refl, refl))
          (λ x b e _ m. hold_row_sound b x (ground arith) (ground arith) m)
          (All-const db.deliveries) h))

if_valid :
    (s : Store) (b : Bool) (x y : Store × Result (Unit {0}))
    → IsSound x.0.db
    → IsSound y.0.db
    → IsSound (if b then x else y).0.db
if_valid s true x y h k = h
if_valid s false x y h k = k

pub queue_hold-IsSound :
    (s : Store) (env : Env) (id : Bytes) → IsSound s.db → IsSound (queue_hold s env id).0.db
unfolding queue_hold
queue_hold-IsSound s env id h =
    if_valid s (not (valid_id id)) _ _ h (
      by_wall-IsSound s env (now_ms env.wall) (hold_body id) h (λ t. hold_body-IsSound id t s.db h))

close_body-IsSound :
    (id note : Bytes) (time : ℕ) (db : Db) → IsSound db → Kept IsSound (close_body id note time db)
unfolding close_body IsSound
close_body-IsSound id note time db h =
    Kept-bind IsSound (ok_or (find (relay_id id) db.deliveries) not_found) _ (λ old _.
      Kept-guard IsSound (not (count_where (closable id) db.deliveries == 1)) invalid_input _ (λ _.
        update-IsSound (λ x. Unit {0}) (closable id) (close_row time) db (λ x. (refl, refl))
          (λ x b e _ m. close_row_sound b time x (ground arith) (ground arith) m)
          (All-const db.deliveries) h))

pub queue_close_unknown-IsSound :
    (s : Store) (env : Env) (id note : Bytes)
    → IsSound s.db
    → IsSound (queue_close_unknown s env id note).0.db
unfolding queue_close_unknown
queue_close_unknown-IsSound s env id note h = if_valid s _ _ _ h (
    by_wall-IsSound s env (now_ms env.wall) (close_body id note) h
      (λ t. close_body-IsSound id note t s.db h))

retry_body-IsSound :
    (id : Bytes) (x y : Bool) (time : ℕ) (db : Db)
    → IsSound db
    → Kept IsSound (retry_body id x y time db)
unfolding retry_body IsSound
retry_body-IsSound id x y time db h =
    Kept-bind IsSound (ok_or (find (relay_id id) db.deliveries) not_found) _ (λ d f.
      Kept-bind IsSound
        (ok_or (find (λ (m : QueueMessage). equal m.message_id d.message_id) db.queue_messages)
          not_found)
        _
        (λ m _. Kept-guard IsSound (not (may_retry_row d x y time)) invalid_input _ (λ allowed.
          Kept-bind IsSound (new_expiry d m time) _ (λ expires _.
            update-IsSound (λ z. has_id id z ≡ true → z ≡ d) (has_id id) (retry_row time expires) db
              (λ z. (refl, refl))
              (λ z b e only k.
                retry_row_sound b time expires z x y time (simp (only e) (ground arith)) k)
              (find-only id (relay_id id) db.deliveries d (λ z e. ground arith) h.0
                (ok_or-eq (find (relay_id id) db.deliveries) not_found d f))
              h))))

pub queue_retry-IsSound :
    (s : Store) (env : Env) (id : Bytes) (x y : Bool)
    → IsSound s.db
    → IsSound (queue_retry s env id x y).0.db
unfolding queue_retry
queue_retry-IsSound s env id x y h = if_valid s (not (valid_id id)) _ _ h (
    with_now-IsSound s env (λ s' t. transact s' env.commit (retry_body id x y t s'.db)) h
      (λ s' t h'.
        Kept-transact IsSound s' env.commit (retry_body id x y t s'.db) h'
          (retry_body-IsSound id x y t s'.db h')))

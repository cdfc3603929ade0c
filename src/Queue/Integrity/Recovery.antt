-- ===== src/Queue/Integrity/Recovery.antt =====
-- The recovery of the leases whose owner is gone keeps the tables free of mismatches.
use rustymail.Base.{
  ℕ, ◌+◌, ◌≡◌, refl, inl, inr, Bool, true, false, List, [], ◌∷◌, arith, if◌then◌else◌, is_some, All,
  ◌==◌, Bool-cases, within,
}
use rustymail.Bytes.{Bytes}
use rustymail.Queue.Rows.{Delivery, Db, Store, Env, Active, Commit, Result, ok, err}
use rustymail.Queue.Table.{
  select, limit, order_by, update, has_id, less, later, set_delivery, delete_lease,
}
use rustymail.Queue.Clock.{now_ms}
use rustymail.Queue.Policy.{batch}
use rustymail.Queue.Sweep.{
  is_active, is_recoverable, unknown_outcome, recovery_rows, recover_row, recover_all, move_cursor,
  finish_recovery, recover_at, recover_with, retain_owned, queue_recover,
}
use rustymail.Queue.Integrity.{joins, IsSound}
use rustymail.Queue.Integrity.Select.{All-map}
use rustymail.Queue.Integrity.Row.{leased-not_closed, recover_row_sound}
use rustymail.Queue.Integrity.Kept.{Kept, Kept-bind, Kept-transact, release-IsSound}
use rustymail.Queue.Integrity.Batch.{Covers, Covers-update, query-Covers}

abbrev NotClosed : Delivery → Type 0
NotClosed d = is_some d.closed_at_ms ≡ false

-- The ids of the scanned rows stand for rows that are not closed.
abbrev Recoverable : List Delivery → Bytes × Bool → Type 0
Recoverable xs (id, u) = Covers NotClosed xs id

abbrev scanned : Db → Delivery → Bytes × Bool
scanned db d = (d.id, unknown_outcome db d)

recovery_rows-Recoverable :
    (cursor : Bytes) (n : ℕ) (db : Db)
    → IsSound db
    → All (Recoverable db.deliveries) (recovery_rows cursor n db)
recovery_rows-Recoverable cursor n db h =
    All-map (Recoverable db.deliveries) (scanned db)
      (limit n (
        order_by (λ (a b : Delivery). less a.id b.id)
          (select (is_recoverable cursor db) db.deliveries)))
      (query-Covers NotClosed n _ (is_recoverable cursor db) db h
        (λ d e m. leased-not_closed (joins db d) d m (ground arith)))

if_Kept :
    (b : Bool) (x y : Result (Db × ℕ))
    → Kept IsSound x
    → Kept IsSound y
    → Kept IsSound (if b then x else y)
if_Kept true x y h k = h
if_Kept false x y h k = k

recover_row-id : (u : Bool) (t : ℕ) (d : Delivery) → (recover_row u t d).id ≡ d.id
unfolding recover_row
recover_row-id u t d = refl

recover_row-NotClosed :
    (u : Bool) (t : ℕ) (d : Delivery) → NotClosed d → NotClosed (recover_row u t d)
unfolding recover_row
recover_row-NotClosed u t d h = h

Recoverable-update :
    (id : Bytes) (u : Bool) (next : ℕ) (xs : List Delivery) (rows : List (Bytes × Bool))
    → All (Recoverable xs) rows
    → All (Recoverable (update (has_id id) (recover_row u next) xs)) rows
Recoverable-update id u next xs [] c = tt
Recoverable-update id u next xs ((i, v) ∷ rows) c = (
  (Covers-update NotClosed (has_id id) (recover_row u next) xs (λ d. recover_row-id u next d)
      (recover_row-NotClosed u next) (i ∷ []) (c.0, tt)).0,
  Recoverable-update id u next xs rows c.1,
)

recover_all-IsSound :
    (active : List Active) (t : ℕ) (rows : List (Bytes × Bool)) (n : ℕ) (db : Db)
    → IsSound db
    → All (Recoverable db.deliveries) rows
    → Kept IsSound (recover_all active t rows n db)
unfolding recover_all
recover_all-IsSound active t [] n db h c = h
recover_all-IsSound active t ((id, u) ∷ rows) n db h c =
    if_Kept (is_active id active) _ _ (recover_all-IsSound active t rows n db h c.1) (
      Kept-bind IsSound (later t 1800000) _ (λ next _.
        recover_all-IsSound active t rows (n + 1)
          (delete_lease id (set_delivery id (recover_row u next) db))
          (release-IsSound NotClosed id (recover_row u next) db (λ d. (refl, refl))
            (λ d j k m. recover_row_sound j u next d k m) c.0 h)
          (Recoverable-update id u next db.deliveries rows c.1)))

finish_recovery-IsSound :
    (s : Store) (c : Commit) (r : Result (Db × ℕ))
    → IsSound s.db
    → Kept IsSound r
    → IsSound (finish_recovery s c r).0.db
unfolding finish_recovery
finish_recovery-IsSound s c (err e) h k = h
finish_recovery-IsSound s c (ok (db, n)) h k = elim (Bool-cases (n == 0)) [
  | inl e ↦ rw e h
  | inr e ↦ rw e (Kept-transact IsSound s c (ok (db, n)) h k)
]

move_cursor-IsSound :
    (rows : List (Bytes × Bool)) (n : ℕ) (r : Store × Result ℕ)
    → IsSound r.0.db
    → IsSound (move_cursor rows n r).0.db
move_cursor-IsSound rows n (s, err e) h = h
move_cursor-IsSound rows n (s, ok m) h = h

recover_at-IsSound :
    (s : Store) (c : Commit) (n t : ℕ) → IsSound s.db → IsSound (recover_at s c n t).0.db
unfolding recover_at
recover_at-IsSound s c n t h =
    let rows = recovery_rows s.queue.recovery_cursor n s.db in
    move_cursor-IsSound rows n (finish_recovery s c (recover_all s.queue.active t rows 0 s.db)) (
      finish_recovery-IsSound s c (recover_all s.queue.active t rows 0 s.db) h (
        recover_all-IsSound s.queue.active t rows 0 s.db h
          (recovery_rows-Recoverable s.queue.recovery_cursor n s.db h)))

recover_with-IsSound :
    (s : Store) (env : Env) (n : ℕ) (time : Result ℕ)
    → IsSound s.db
    → IsSound (recover_with s env n time).0.db
unfolding recover_with
recover_with-IsSound s env n (err e) h = h
recover_with-IsSound s env n (ok t) h = recover_at-IsSound s env.commit n t h

pub queue_recover-IsSound :
    (s : Store) (env : Env) (n : ℕ) → IsSound s.db → IsSound (queue_recover s env n).0.db
unfolding queue_recover
queue_recover-IsSound s env n h = elim (Bool-cases (within 1 batch n)) [
  | inl e ↦ rw e (recover_with-IsSound (retain_owned s) env n (now_ms env.wall) h)
  | inr e ↦ rw e h
]

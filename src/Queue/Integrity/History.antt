-- ===== src/Queue/Integrity/History.antt =====
-- The operations of crates/store/src/queue.rs on deliveries that are queued, in any order.
use rustymail.Base.{ℕ, ◌≡◌, Bool, List, [], ◌∷◌, length}
use rustymail.Bytes.{Bytes}
use rustymail.Queue.Rows.{Store, Env, QueueLease, QueueResult}
use rustymail.Queue.Lease.{queue_renew, queue_mark_body, queue_finish, clone_guard, drop_guard}
use rustymail.Queue.Sweep.{queue_expire, queue_recover}
use rustymail.Queue.Admin.{queue_hold, queue_retry, queue_close_unknown}
use rustymail.Queue.Policy.{QueuePolicy}
use rustymail.Queue.Claim.{queue_claim}
use rustymail.Queue.Integrity.{IsSound}
use rustymail.Queue.Integrity.Leased.{queue_claim-IsSound}
use rustymail.Queue.Integrity.Owner.{
  queue_renew-IsSound, queue_mark_body-IsSound, queue_finish-IsSound,
}
use rustymail.Queue.Integrity.Batch.{queue_expire-IsSound}
use rustymail.Queue.Integrity.Recovery.{queue_recover-IsSound}
use rustymail.Queue.Integrity.Operator.{
  queue_hold-IsSound, queue_retry-IsSound, queue_close_unknown-IsSound,
}

-- One call of the store, with its arguments, or a step of the owners of a lease: a reader of the body that
-- takes a clone of its guard, a lease or a reader that is dropped without a result. A claim has the outside of its recovery and of its
-- expiry, and a number that tells its tokens from those of other claims.
pub data Call : Type 0 where
  claim : ℕ → Env → Env → QueuePolicy → ℕ → Call
  renew : QueueLease → ℕ → Call
  mark_body : QueueLease → Call
  finish : QueueLease → QueueResult → Call
  expire : ℕ → Call
  recover : ℕ → Call
  hold : Bytes → Call
  retry : Bytes → Bool → Bool → Call
  close_unknown : Bytes → Bytes → Call
  clone_owner drop_owner : QueueLease → Call

module _ (random : Bytes → ℕ → ℕ) (fresh : ℕ → ℕ → Bytes) where
  unfoldable pub execute : Store → Env → Call → Store
  unfolding queue_claim queue_renew queue_mark_body queue_finish queue_expire queue_recover
      queue_hold queue_retry queue_close_unknown clone_guard drop_guard
  execute s env (claim k recover_env expire_env policy n) =
      (queue_claim random (fresh k) s env recover_env expire_env policy n).0
  execute s env (renew l seconds) = (queue_renew s env l seconds).0
  execute s env (mark_body l) = (queue_mark_body s env l).0
  execute s env (finish l o) = (queue_finish s env l o).0
  execute s env (expire n) = (queue_expire s env n).0
  execute s env (recover n) = (queue_recover s env n).0
  execute s env (hold id) = (queue_hold s env id).0
  execute s env (retry id x y) = (queue_retry s env id x y).0
  execute s env (close_unknown id note) = (queue_close_unknown s env id note).0
  execute s env (clone_owner l) = clone_guard l s
  execute s env (drop_owner l) = drop_guard l s

  unfoldable pub execute_all : Store → List (Env × Call) → Store
  unfolding execute
  execute_all s [] = s
  execute_all s ((env, call) ∷ calls) = execute_all (execute s env call) calls

  execute-IsSound :
      ((k i : ℕ) → length (fresh k i) ≡ 32)
      → (s : Store) (env : Env) (call : Call) → IsSound s.db
      → IsSound (execute s env call).db
  unfolding execute
  execute-IsSound size s env (claim k recover_env expire_env policy n) h =
      queue_claim-IsSound random (fresh k) s env recover_env expire_env policy n (size k) h
  execute-IsSound size s env (renew l seconds) h = queue_renew-IsSound s env l seconds h
  execute-IsSound size s env (mark_body l) h = queue_mark_body-IsSound s env l h
  execute-IsSound size s env (finish l o) h = queue_finish-IsSound s env l o h
  execute-IsSound size s env (expire n) h = queue_expire-IsSound s env n h
  execute-IsSound size s env (recover n) h = queue_recover-IsSound s env n h
  execute-IsSound size s env (hold id) h = queue_hold-IsSound s env id h
  execute-IsSound size s env (retry id x y) h = queue_retry-IsSound s env id x y h
  execute-IsSound size s env (close_unknown id note) h = queue_close_unknown-IsSound s env id note h
  execute-IsSound size s env (clone_owner l) h = unfold clone_guard in h
  execute-IsSound size s env (drop_owner l) h = unfold drop_guard in h

-- In tables where the ids are distinct and no delivery has a mismatch that the store counts for one (a
-- relay delivery with no queue message; a state against the lease row, the lease token or the length of
-- the token; a lease of a delivery that is no relay; a notification state against the report; a closing
-- against state and possible delivery; a failure against possible delivery), any sequence of claims,
-- renewals, body marks, results, expiries, recoveries, holds, retries and closings, with clones and drops
-- of lease guards between them, whatever the clocks read and however each commit ends, leaves tables of
-- that kind, when every token made for a claim has 32 characters.
pub execute_all-IsSound :
    (random : Bytes → ℕ → ℕ) (fresh : ℕ → ℕ → Bytes)
    → ((k i : ℕ) → length (fresh k i) ≡ 32)
    → (s : Store) (calls : List (Env × Call)) → IsSound s.db
    → IsSound (execute_all random fresh s calls).db
unfolding execute_all
execute_all-IsSound random fresh size s [] h = h
execute_all-IsSound random fresh size s ((env, call) ∷ calls) h =
    execute_all-IsSound random fresh size (execute random fresh s env call) calls
      (execute-IsSound random fresh size s env call h)

-- ===== src/Queue/Integrity/Row.antt =====
-- The row updates of crates/store/src/queue.rs keep a delivery free of mismatches.
use rustymail.Base.{ℕ, ◌≡◌, refl, Bool, true, false, Option, arith, is_some}
use rustymail.Queue.Rows.{Delivery, Reason, QueueResult, Phase, ok, State}
use rustymail.Queue.Table.{is_leased}
use rustymail.Queue.Lease.{Verdict, classify, settle_unknown, finish_row}
use rustymail.Queue.Sweep.{expire_row, recover_row}
use rustymail.Queue.Admin.{hold_row, retry_row, close_row, may_hold, may_retry_row, may_close}
use rustymail.Queue.Integrity.{Joins, mismatch, unleased}

-- A verdict never leaves a delivery leased.
pub classify-not_leased :
    (o : QueueResult) (phase : Phase) (v : Verdict)
    → classify o phase ≡ ok v
    → is_leased v.state ≡ false
unfolding classify
classify-not_leased (QueueResult.delivered c) Phase.ready v h = ground arith
classify-not_leased (QueueResult.delivered c) Phase.body v h = ground arith
classify-not_leased (QueueResult.temporary c) phase v h = ground arith
classify-not_leased (QueueResult.permanent c) phase v h = ground arith
classify-not_leased QueueResult.connection_lost Phase.ready v h = ground arith
classify-not_leased QueueResult.connection_lost Phase.body v h = ground arith
classify-not_leased QueueResult.hold phase v h = ground arith
classify-not_leased QueueResult.deferred Phase.ready v h = ground arith
classify-not_leased QueueResult.deferred Phase.body v h = ground arith

settle_unknown-not_leased :
    (b : Bool) (v : Verdict)
    → is_leased v.state ≡ false
    → is_leased (settle_unknown b v).state ≡ false
unfolding settle_unknown
settle_unknown-not_leased b v h = ground arith

-- Closed rows are not leased.
pub leased-not_closed :
    (b : Joins) (d : Delivery)
    → mismatch b d ≡ false
    → is_leased d.state ≡ true
    → is_some d.closed_at_ms ≡ false
unfolding mismatch
leased-not_closed b d h l = elim d.state [ State.leased ↦ ground arith | _ ↦ ground arith ]

finish_state :
    (j : Joins) (st : State) (v : Verdict) (r : Option Reason) (t n : ℕ) (d : Delivery)
    → v.state ≡ st
    → is_leased st ≡ false
    → is_some d.closed_at_ms ≡ false
    → mismatch j d ≡ false
    → mismatch (unleased j) (finish_row v r t n d) ≡ false
unfolding mismatch finish_row
finish_state j State.pending v r t n d e l c m = rw e (ground arith)
finish_state j State.leased v r t n d e l c m = ground arith
finish_state j State.deferred v r t n d e l c m = rw e (ground arith)
finish_state j State.uncertain v r t n d e l c m = rw e (ground arith)
finish_state j State.delivered v r t n d e l c m = rw e (ground arith)
finish_state j State.failed v r t n d e l c m = rw e (ground arith)
finish_state j State.hold v r t n d e l c m = rw e (ground arith)

pub finish_row_sound :
    (j : Joins) (o : QueueResult) (phase : Phase) (v : Verdict) (b : Bool) (r : Option Reason)
    (t n : ℕ) (d : Delivery)
    → classify o phase ≡ ok v
    → is_some d.closed_at_ms ≡ false
    → mismatch j d ≡ false
    → mismatch (unleased j) (finish_row (settle_unknown b v) r t n d) ≡ false
finish_row_sound j o phase v b r t n d h c m =
    let w = settle_unknown b v in
    finish_state j w.state w r t n d refl
      (settle_unknown-not_leased b v (classify-not_leased o phase v h)) c m

pub expire_row_sound :
    (b : Joins) (t : ℕ) (d : Delivery)
    → is_leased d.state ≡ false
    → mismatch b d ≡ false
    → mismatch b (expire_row t d) ≡ false
unfolding mismatch expire_row
expire_row_sound b t d l h = ground arith

pub recover_row_sound :
    (j : Joins) (u : Bool) (t : ℕ) (d : Delivery)
    → is_some d.closed_at_ms ≡ false
    → mismatch j d ≡ false
    → mismatch (unleased j) (recover_row u t d) ≡ false
unfolding mismatch recover_row
recover_row_sound j u t d c m = ground arith

pub hold_row_sound :
    (b : Joins) (d : Delivery)
    → is_some d.closed_at_ms ≡ false
    → may_hold d.state ≡ true
    → mismatch b d ≡ false
    → mismatch b (hold_row d) ≡ false
unfolding mismatch hold_row
hold_row_sound b d c m h = ground arith

pub retry_row_sound :
    (b : Joins) (t e : ℕ) (d : Delivery) (x y : Bool) (now : ℕ)
    → may_retry_row d x y now ≡ true
    → mismatch b d ≡ false
    → mismatch b (retry_row t e d) ≡ false
unfolding mismatch retry_row may_retry_row
retry_row_sound b t e d x y now m h = ground arith

pub close_row_sound :
    (b : Joins) (t : ℕ) (d : Delivery)
    → may_close d.state ≡ true
    → d.possibly_delivered ≡ true
    → mismatch b d ≡ false
    → mismatch b (close_row t d) ≡ false
unfolding mismatch close_row
close_row_sound b t d m p h = ground arith

pub renew_row_sound :
    (b : Joins) (until : Option ℕ) (d : Delivery)
    → mismatch b d ≡ false
    → mismatch b (record d { lease_until_ms = until }) ≡ false
unfolding mismatch
renew_row_sound b until d h = h

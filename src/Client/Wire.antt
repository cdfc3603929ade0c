-- ===== src/Client/Wire.antt =====
-- crates/client/src/smtp.rs: the socket under an attempt. A peer is the chunks that arrive from it, and
-- those behind the TLS handshake; a write fails when the writes that the connection lasts for are used
-- up. The lines that an attempt has received and what it has tried to write stand in `log`, the latest
-- first.
pub mod Steps
pub mod Fails
use rustymail.Base.{
  ℕ, zero, suc, Bool, true, false, List, [], ◌∷◌, Option, none, some, ◌==◌, drop, if◌then◌else◌,
}
use rustymail.Base.Try.{Try, good}
use rustymail.Bytes.{Bytes, is_empty}
use rustymail.Framing.{
  Result, ok, err, LineDecoder, Reader, new, feed_buffered, take_line, buffered_bytes,
}
use rustymail.Client.{Failure, connection, setup}

-- The writes of `try_attempt`, the lines that it has received, and its other effects: the success of
-- `before_body` and of `upgrade`.
pub data Event : Type 0 where
  command body received : Bytes → Event
  final_dot marked upgraded : Event

pub record Wire : Type 0 where
  -- what has arrived and has not been read
  pub buffer : Bytes
  pub incoming : Reader
  -- the chunks behind the handshake, or `none` when it fails
  pub secured : Option Reader
  pub writes_left : ℕ
  pub log : List Event

abbrev pub Act {ℓ} : Type ℓ → Type ℓ
Act T = Wire → Wire × Try Failure T

module _ {ℓ κ} {T : Type ℓ} {U : Type κ} where
  -- `?` behind an effect
  abbrev pub continue_with : (T → Act U) → Wire × Try Failure T → Wire × Try Failure U
  continue_with next (w, Try.bad e) = (w, Try.bad e)
  continue_with next (w, good t) = next t w

  infixl 5 ◌>>=◌
  unfoldable pub ◌>>=◌ : Act T → (T → Act U) → Act U
  (act >>= next) w = continue_with next (act w)

module _ {ℓ} {T : Type ℓ} where
  infixl 5 ◌>>◌
  unfoldable pub ◌>>◌ : Act (Unit {0}) → Act T → Act T
  (act >> next) w = continue_with (λ _. next) (act w)

  unfoldable pub give : T → Act T
  give t w = (w, good t)

  unfoldable pub fail : Failure → Act T
  fail e w = (w, Try.bad e)

unfoldable pub from_try {ℓ} : {T : Type ℓ} → Try Failure T → Act T
from_try t w = (w, t)

unfoldable pub ensure : Bool → Failure → Act (Unit {0})
ensure condition e = if condition then give tt else fail e

abbrev pub lasts : ℕ → Try Failure (Unit {0})
lasts zero = Try.bad connection
lasts (suc n) = good tt

abbrev pub one_less : ℕ → ℕ
one_less zero = zero
one_less (suc n) = n

-- `write`, and the write of `command`
unfoldable pub write : Event → Act (Unit {0})
write e w =
    (record w { log = e ∷ w.log; writes_left = one_less w.writes_left }, lasts w.writes_left)

-- an effect that is no write
unfoldable pub note : Event → Act (Unit {0})
note e w = (record w { log = e ∷ w.log }, good tt)

-- the chunks that `fill_buf` makes available
abbrev pub chunks_of : Wire → Reader
chunks_of w = if is_empty w.buffer then w.incoming else w.buffer ∷ w.incoming

-- A line, what is left of the chunk that it ends in, and the chunks behind it; or the clean end.
abbrev pub Found : Type 0
Found = Try Failure (Option (Bytes × Bytes × Reader))

abbrev at_end : LineDecoder → Found
at_end d = if buffered_bytes d == 0 then good none else Try.bad connection

abbrev taken : LineDecoder × Option Bytes → Bytes → Reader → Found
taken (d, none) left chunks = good none
taken (d, some l) left chunks = good (some (l, left, chunks))

-- the round of the loop behind its feed; `rest` is the rounds that follow
abbrev line_round : LineDecoder × Result (ℕ × Bool) → Bytes → Reader → Found → Found
line_round (d, err e) chunk chunks rest = Try.bad connection
line_round (d, ok (used, true)) chunk chunks rest = taken (take_line d) (drop used chunk) chunks
line_round (d, ok (used, false)) chunk chunks rest = rest

-- the loop of `line` in crates/client/src/lib.rs
unfoldable pub line_loop : LineDecoder → Reader → Found
unfolding feed_buffered take_line buffered_bytes
line_loop d [] = at_end d
line_loop d (chunk ∷ chunks) =
    let rest = line_loop (feed_buffered d chunk).0 chunks in
    if is_empty chunk then at_end d else line_round (feed_buffered d chunk) chunk chunks rest

abbrev pub found_on : Wire → Found → Wire × Try Failure (Option Bytes)
found_on w (Try.bad e) = (w, Try.bad e)
found_on w (good none) = (record w { buffer = []; incoming = [] }, good none)
found_on w (good (some (l, left, chunks))) =
    (record w { buffer = left; incoming = chunks; log = received l ∷ w.log }, good (some l))

unfoldable pub line : ℕ → Act (Option Bytes)
unfolding line_loop
line limit w = found_on w (line_loop (new limit) (chunks_of w))

-- `upgrade`: what has been read ahead is dropped
abbrev pub handshake : Wire → Option Reader → Wire × Try Failure (Unit {0})
handshake w none = (w, Try.bad setup)
handshake w (some chunks) =
    (record w { buffer = []; incoming = chunks; secured = none; log = upgraded ∷ w.log }, good tt)

unfoldable pub upgrade : Bool → Act (Unit {0})
upgrade has_tls w = if has_tls then handshake w w.secured else (w, Try.bad setup)

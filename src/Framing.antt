-- ===== src/Framing.antt =====
-- crates/protocol/src/lib.rs: `LineDecoder`, `decode_data_line` and `decode_data_frame`; the read
-- loop `fill_line` of crates/server/src/lib.rs; the dot-stuffing of `send_body` in
-- crates/client/src/smtp.rs. The capacity that `feed_buffered` reserves is not observable.
pub mod Feed
pub mod Grammar
pub mod Lines
pub mod Chunks
pub mod Data
pub mod Drive
mod Tests
use rustymail.Base.{
  ℕ, ◌+◌, ◌-◌, Bool, true, false, not, ◌&&◌, ◌||◌, List, [], ◌∷◌, ◌++◌, Option, none, some, ltb,
  ◌==◌, if◌then◌else◌, length, drop,
}
use rustymail.Bytes.{Bytes, is_empty, starts_with, ends_with, equal}

pub data FrameError : Type 0 where
  too_long invalid_line_ending : FrameError

pub data Result {ℓ} (A : Type ℓ) : Type ℓ where
  ok : A → Result A
  err : FrameError → Result A

pub record LineDecoder : Type 0 where
  pub buffer : Bytes
  pub limit : ℕ
  pub complete : Bool

abbrev pub new : ℕ → LineDecoder
new limit = record { buffer = []; limit = limit; complete = false }

-- the test that refuses a byte behind `buffer`
abbrev pub invalid_after : Bytes → ℕ → Bool
invalid_after buffer byte =
    byte == 0
    || (byte == b'\n' && not (ends_with b'\r' buffer))
    || (ends_with b'\r' buffer && not (byte == b'\n'))

abbrev pub push : LineDecoder → ℕ → LineDecoder
push d byte = record d { buffer = d.buffer ++ (byte ∷ []) }

-- The loop of `feed_buffered`, at `index`. What was pushed before an error stays in the buffer.
unfoldable pub feed_from : LineDecoder → ℕ → Bytes → LineDecoder × Result (ℕ × Bool)
feed_from d index [] = (d, ok (index, false))
feed_from d index (byte ∷ bytes) =
    let rest = feed_from (push d byte) (index + 1) bytes in
    if length d.buffer == d.limit
    then (d, err too_long)
    else if invalid_after d.buffer byte
    then (d, err invalid_line_ending)
    else if byte == b'\n'
    then (record (push d byte) { complete = true }, ok (index + 1, true))
    else rest

unfoldable pub feed_buffered : LineDecoder → Bytes → LineDecoder × Result (ℕ × Bool)
feed_buffered d bytes = if d.complete then (d, ok (0, true)) else feed_from d 0 bytes

abbrev pub truncate : ℕ → Bytes → Bytes
truncate n [] = []
truncate n (x ∷ xs) = if n == 0 then [] else x ∷ truncate (n - 1) xs

unfoldable pub take_line : LineDecoder → LineDecoder × Option Bytes
take_line d = if not d.complete then (d, none) else (
  record d { buffer = []; complete = false },
  some (truncate (length d.buffer - 2) d.buffer),
)

-- `feed` behind its call of `feed_buffered`
abbrev pub finish_feed : LineDecoder × Result (ℕ × Bool) → LineDecoder × Result (ℕ × Option Bytes)
finish_feed (fed, ok (used, _)) = let (taken, found) = take_line fed in (taken, ok (used, found))
finish_feed (fed, err e) = (fed, err e)

unfoldable pub feed : LineDecoder → Bytes → LineDecoder × Result (ℕ × Option Bytes)
unfolding feed_buffered feed_from take_line
feed d bytes = finish_feed (feed_buffered d bytes)

unfoldable pub frame : LineDecoder → Option Bytes
frame d = if d.complete then some d.buffer else none

unfoldable pub clear : LineDecoder → LineDecoder
clear d = record d { buffer = []; complete = false }

unfoldable pub buffered_bytes : LineDecoder → ℕ
buffered_bytes d = length d.buffer

-- CR LF
abbrev pub crlf : Bytes
crlf = b'\r' ∷ b'\n' ∷ []

-- `ends_with(b"\r\n")`
unfoldable pub ends_with_crlf : Bytes → Bool
ends_with_crlf [] = false
ends_with_crlf (x ∷ []) = false
ends_with_crlf (x ∷ y ∷ []) = x == b'\r' && y == b'\n'
ends_with_crlf (x ∷ y ∷ z ∷ zs) = ends_with_crlf (y ∷ z ∷ zs)

-- `strip_prefix(b".").unwrap_or(..)`
abbrev pub strip_dot : Bytes → Bytes
strip_dot [] = []
strip_dot (x ∷ xs) = if x == b'.' then xs else x ∷ xs

unfoldable pub decode_data_line : Bytes → Result (Option Bytes)
unfolding equal
decode_data_line line =
    if equal line (b'.' ∷ [])
    then ok none
    else let data_line = strip_dot line in
      if ltb 1000 (length data_line + 2) then err too_long else ok (some (data_line ++ crlf))

unfoldable pub decode_data_frame : Bytes → Result (Option Bytes)
unfolding equal ends_with_crlf
decode_data_frame frame =
    if not (ends_with_crlf frame)
    then err invalid_line_ending
    else if equal frame (b'.' ∷ crlf)
    then ok none
    else let stripped = strip_dot frame in
      if ltb 1000 (length stripped) then err too_long else ok (some stripped)

-- the two pushes of `send_body` for one frame
unfoldable pub stuff : Bytes → Bytes
stuff frame = if starts_with b'.' frame then b'.' ∷ frame else frame

-- The bytes that successive `fill_buf` calls make available, one chunk each; an empty chunk, or no
-- further one, is the end of the stream.
abbrev pub Reader : Type 0
Reader = List Bytes

-- `Ok(true)` with what is left to read, `Ok(false)`, the two errors
pub data ReadResult (R : Type 0) : Type 0 where
  line : R → ReadResult R
  eof : ReadResult R
  partial : ReadResult R
  bad : FrameError → ReadResult R

-- `reader.consume(used)`
abbrev pub consume : ℕ → Bytes → Reader → Reader
consume used chunk chunks =
    let left = drop used chunk in if is_empty left then chunks else left ∷ chunks

abbrev pub at_eof : {R : Type 0} → LineDecoder → ReadResult R
at_eof d = if buffered_bytes d == 0 then eof else partial

-- the body of the loop in `fill_line`, behind its feed: `rest` is what the next round returns
abbrev pub read_on :
    LineDecoder × Result (ℕ × Bool)
    → Bytes
    → Reader
    → LineDecoder × ReadResult Reader
    → LineDecoder × ReadResult Reader
read_on (fed, err e) chunk chunks rest = (fed, bad e)
read_on (fed, ok (used, true)) chunk chunks rest = (fed, line (consume used chunk chunks))
read_on (fed, ok (used, false)) chunk chunks rest = rest

-- `fill_line`. A feed that is not complete has used its whole chunk (`feed_from-Fed`), so the loop
-- goes on with the next one.
unfoldable pub fill_line : LineDecoder → Reader → LineDecoder × ReadResult Reader
unfolding feed_buffered feed_from buffered_bytes
fill_line d [] = (d, at_eof d)
fill_line d (chunk ∷ chunks) =
    let rest = fill_line (feed_buffered d chunk).0 chunks in
    if is_empty chunk then (d, at_eof d) else read_on (feed_buffered d chunk) chunk chunks rest

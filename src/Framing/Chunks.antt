-- ===== src/Framing/Chunks.antt =====
-- How the stream is cut into chunks does not matter to the read loop.
use rustymail.Base.{
  ℕ, ◌+◌, ◌≡◌, refl, sym, ap, ◌∙◌, Bool, true, false, [], ◌∷◌, ◌++◌, arith, if◌then◌else◌, length,
  drop, drop-append, append_assoc, All,
}
use native.Mathlib.Nat.{zero-add, suc-add}
use rustymail.Bytes.{Bytes, is_empty}
use rustymail.Framing.{
  Result, ok, err, LineDecoder, new, feed_buffered, feed_from, Reader, ReadResult, line, eof,
  partial, bad, at_eof, read_on, fill_line,
}
use rustymail.Framing.Feed.{
  Fed, feed_from-Fed, feed_buffered-open, feed_buffered-append, then_feed, shift,
}

-- The bytes of a reader, in order.
abbrev pub joined : Reader → Bytes
joined [] = []
joined (c ∷ cs) = c ++ joined cs

-- A read result with the chunks behind the line joined.
abbrev pub flat : ReadResult Reader → ReadResult Bytes
flat (line left) = line (joined left)
flat eof = eof
flat partial = partial
flat (bad e) = bad e

abbrev pub flattened : LineDecoder × ReadResult Reader → LineDecoder × ReadResult Bytes
flattened r = (r.0, flat r.1)

-- What one feed of a whole stream amounts to.
abbrev pub at_once : LineDecoder × Result (ℕ × Bool) → Bytes → LineDecoder × ReadResult Bytes
at_once (d, ok (used, true)) bytes = (d, line (drop used bytes))
at_once (d, ok (used, false)) bytes = (d, at_eof d)
at_once (d, err e) bytes = (d, bad e)

joined-left :
    (left : Bytes) (cs : Reader)
    → joined (if is_empty left then cs else left ∷ cs) ≡ left ++ joined cs
joined-left [] cs = refl
joined-left (x ∷ xs) cs = refl

drop_add : (a b : Bytes) (n : ℕ) → drop (length a + n) (a ++ b) ≡ drop n b
drop_add [] b n = rw zero-add
drop_add (x ∷ a) b n = rw suc-add (drop_add a b n)

drop-taken :
    (c taken rest more : Bytes)
    → c ≡ taken ++ rest
    → drop (length taken) (c ++ more) ≡ drop (length taken) c ++ more
drop-taken c taken rest more e =
    rw (e, drop-append taken rest, append_assoc taken rest more) (drop-append taken (rest ++ more))

at_once-shift :
    (c more : Bytes) (used : ℕ) (r : LineDecoder × Result (ℕ × Bool))
    → used ≡ 0 + length c
    → at_once (r.0, shift used r.1) (c ++ more) ≡ at_once r more
at_once-shift c more used (d, ok (n, true)) e =
    ap (λ (b : Bytes). (d, line b))
      (ap (λ (k : ℕ). drop (k + n) (c ++ more)) (e ∙ zero-add (length c)) ∙ drop_add c more n)
at_once-shift c more used (d, ok (n, false)) e = refl
at_once-shift c more used (d, err x) e = refl

read_on-at_once :
    (d : LineDecoder) (c : Bytes) (cs : Reader) (r : LineDecoder × Result (ℕ × Bool))
    (rest : LineDecoder × ReadResult Reader)
    → Fed d 0 c r
    → (r.0.complete ≡ false → flattened rest ≡ at_once (feed_buffered r.0 (joined cs)) (joined cs))
    → flattened (read_on r c cs rest) ≡ at_once (then_feed r (joined cs)) (c ++ joined cs)
read_on-at_once d c cs (d', err e) rest f ih = refl
read_on-at_once d c cs (d', ok (used, true)) rest (taken, left, split, count, _, _, _) ih =
    ap (λ (b : Bytes). (d', line b))
      (joined-left (drop used c) cs
        ∙ rw (count ∙ zero-add (length taken)) (sym (drop-taken c taken left (joined cs) split)))
read_on-at_once d c cs (d', ok (used, false)) rest f ih =
    ih f.2 ∙ sym (at_once-shift c (joined cs) used (feed_buffered d' (joined cs)) f.0)

-- For a decoder with no complete line, reading a line from chunks, none of them empty, is feeding
-- the whole stream at once: the same decoder, the same bytes left behind the line, the same error.
pub fill_line-at_once :
    (chunks : Reader) (d : LineDecoder)
    → All (λ c. is_empty c ≡ false) chunks
    → d.complete ≡ false
    → flattened (fill_line d chunks) ≡ at_once (feed_buffered d (joined chunks)) (joined chunks)
unfolding fill_line
fill_line-at_once [] d full h = rw (feed_buffered-open d [] h) (unfold feed_from in ground arith)
fill_line-at_once (c ∷ cs) d (full, fulls) h =
    rw (full, feed_buffered-append d c (joined cs))
      (read_on-at_once d c cs (feed_buffered d c) (fill_line (feed_buffered d c).0 cs)
        (rw (feed_buffered-open d c h) (feed_from-Fed c d 0 h))
        (fill_line-at_once cs (feed_buffered d c).0 fulls))

-- Two ways to cut one stream into chunks, none of them empty, give a new decoder the same line,
-- error and rest of the stream.
pub fill_line-chunks :
    (limit : ℕ) (first second : Reader)
    → All (λ c. is_empty c ≡ false) first
    → All (λ c. is_empty c ≡ false) second
    → joined first ≡ joined second
    → flattened (fill_line (new limit) first) ≡ flattened (fill_line (new limit) second)
fill_line-chunks limit first second ha hb same =
    fill_line-at_once first (new limit) ha refl
    ∙ ap (λ (s : Bytes). at_once (feed_buffered (new limit) s) s) same
    ∙ sym (fill_line-at_once second (new limit) hb refl)

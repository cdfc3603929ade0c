-- ===== src/Framing/Tests.antt =====
-- The theorems on line framing at concrete input.
use rustymail.Base.{◌+◌, ◌≤◌, ◌≡◌, refl, true, some, [], ◌∷◌, ◌++◌, length, all, arith}
use rustymail.Bytes.{Bytes, codes, ends_with}
use rustymail.Framing.{
  Result, ok, err, too_long, new, LineDecoder, feed, feed_buffered, fill_line, crlf, Reader, stuff,
  decode_data_frame, ends_with_crlf,
}
use rustymail.Framing.Feed.{feed_buffered-append, then_feed}
use rustymail.Framing.Grammar.{IsFramed, new-IsFramed, feed_buffered-IsFramed, is_text}
use rustymail.Framing.Lines.{feed-line, feed_sound}
use rustymail.Framing.Chunks.{flattened, joined, at_once, fill_line-at_once, fill_line-chunks}
use rustymail.Framing.Data.{decode-stuff, decode_data_line-eq-frame}
use rustymail.Framing

abbrev noop_line : Bytes
noop_line = codes "NOOP\r\n"

abbrev pieces : Reader
pieces = codes "NO" ∷ codes "OP\r" ∷ codes "\nQUIT" ∷ []

abbrev other_pieces : Reader
other_pieces = codes "NOOP\r\nQ" ∷ codes "UIT" ∷ []

feed_buffered-append_example :
    feed_buffered (new 512) (codes "NOOP\r" ++ codes "\nQUIT\r\n")
    ≡ then_feed (feed_buffered (new 512) (codes "NOOP\r")) (codes "\nQUIT\r\n")
feed_buffered-append_example = feed_buffered-append (new 512) (codes "NOOP\r") (codes "\nQUIT\r\n")

fill_line-chunks_example :
    flattened (fill_line (new 512) pieces) ≡ flattened (fill_line (new 512) other_pieces)
fill_line-chunks_example =
    fill_line-chunks 512 pieces other_pieces (refl, (refl, (refl, tt))) (refl, (refl, tt)) refl

fill_line-at_once_example :
    flattened (fill_line (new 512) pieces)
    ≡ at_once (feed_buffered (new 512) (joined pieces)) (joined pieces)
fill_line-at_once_example = fill_line-at_once pieces (new 512) (refl, (refl, (refl, tt))) refl

feed_buffered-IsFramed_example : IsFramed (feed_buffered (new 3) noop_line).0
feed_buffered-IsFramed_example = feed_buffered-IsFramed (new 3) noop_line (new-IsFramed 3)

feed_noop : feed (new 6) (noop_line ++ codes "QUIT") ≡ (new 6, ok (6, some (codes "NOOP")))
unfolding feed ends_with
feed_noop = refl

feed-line_example :
    feed (new 6) (codes "NOOP" ++ (crlf ++ codes "QUIT")) ≡ (new 6, ok (6, some (codes "NOOP")))
feed-line_example = feed-line 6 (codes "NOOP") (codes "QUIT") refl (omega arith)

feed_sound_example :
    (rest : Bytes) × (noop_line ++ codes "QUIT" ≡ codes "NOOP" ++ (crlf ++ rest))
    × (6 ≡ length (codes "NOOP") + 2)
    × (all is_text (codes "NOOP") ≡ true)
    × (6 ≤ 6)
feed_sound_example = feed_sound 6 (noop_line ++ codes "QUIT") feed_noop

-- a line that does not fit is refused
feed_too_long : (feed (new 5) noop_line).1 ≡ err too_long
unfolding feed ends_with
feed_too_long = refl

decode-stuff_example : decode_data_frame (stuff (codes ".\r\n")) ≡ ok (some (codes ".\r\n"))
decode-stuff_example = decode-stuff (codes ".\r\n") dotted (omega arith)
  where
    dotted : ends_with_crlf (codes ".\r\n") ≡ true
    dotted = unfold ends_with_crlf in refl

decode_data_line-eq-frame_example :
    Framing.decode_data_line (codes ".hidden") ≡ decode_data_frame (codes ".hidden" ++ crlf)
decode_data_line-eq-frame_example = decode_data_line-eq-frame (codes ".hidden")

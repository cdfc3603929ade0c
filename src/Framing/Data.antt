-- ===== src/Framing/Data.antt =====
-- SMTP transparency: the leading dot that the sender adds and the receiver takes away.
use rustymail.Base.{◌≤◌, ◌≡◌, refl, true, false, [], ◌∷◌, ◌++◌, some, arith, length, length-append}
use rustymail.Bytes.{Bytes, equal}
use rustymail.Framing.{
  ok, crlf, ends_with_crlf, strip_dot, decode_data_line, decode_data_frame, stuff,
}

pub ends_with_crlf-append : (line : Bytes) → ends_with_crlf (line ++ crlf) ≡ true
unfolding ends_with_crlf
ends_with_crlf-append [] = refl
ends_with_crlf-append (x ∷ []) = refl
ends_with_crlf-append (x ∷ y ∷ []) = refl
ends_with_crlf-append (x ∷ y ∷ z ∷ zs) = ends_with_crlf-append (y ∷ z ∷ zs)

strip_dot-append : (line : Bytes) → strip_dot (line ++ crlf) ≡ strip_dot line ++ crlf
strip_dot-append [] = refl
strip_dot-append (x ∷ xs) = ground arith

not-equal-nil : (line : Bytes) → equal (line ++ crlf) [] ≡ false
unfolding equal
not-equal-nil [] = refl
not-equal-nil (x ∷ xs) = refl

equal-append : (line : Bytes) → equal (line ++ crlf) (b'.' ∷ crlf) ≡ equal line (b'.' ∷ [])
unfolding equal
equal-append [] = refl
equal-append (x ∷ []) = refl
equal-append (x ∷ y ∷ []) = ground arith
equal-append (x ∷ y ∷ z ∷ zs) = ground (arith, not-equal-nil zs)

-- The copying decoder of a DATA line agrees on every line with the borrowing one on the line and
-- its CRLF.
pub decode_data_line-eq-frame :
    (line : Bytes) → decode_data_line line ≡ decode_data_frame (line ++ crlf)
unfolding decode_data_line decode_data_frame
decode_data_line-eq-frame line =
    rw
      (
        ends_with_crlf-append line,
        strip_dot-append line,
        equal-append line,
        length-append (strip_dot line) crlf,
      )
      refl

-- A frame that ends with CRLF, has at most 1000 bytes and has been dot-stuffed by the client
-- decodes to itself, and is not taken for the end of the data.
pub decode-stuff :
    (frame : Bytes)
    → ends_with_crlf frame ≡ true
    → length frame ≤ 1000
    → decode_data_frame (stuff frame) ≡ ok (some frame)
unfolding decode_data_frame stuff
decode-stuff [] e h = cc
decode-stuff (x ∷ []) e h = cc
decode-stuff (x ∷ y ∷ ys) e h = ground arith

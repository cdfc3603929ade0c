-- ===== src/Command/Rcpt.antt =====
-- The RCPT line that crates/client/src/smtp.rs writes is read back by the server's parser.
use rustymail.Base.{
  ℕ, ◌≡◌, refl, Bool, true, false, not, ◌&&◌, [], ◌∷◌, ◌++◌, arith, ◌==◌, all, any, all_mono,
  all-append,
}
use rustymail.Bytes.{
  Bytes, codes, is_ascii, is_control, contains, trim, trim_start, trim_end, to_lower,
}
use rustymail.Bytes.Split.{split_once-append}
use rustymail.Address.{Address}
use rustymail.Address.Canonical.{IsCanonical, IsCanonical-parse}
use rustymail.Address.Safe.{is_path_byte, IsCanonical-is_path_byte}
use rustymail.Command.Outcome.{ok}
use rustymail.Command.{rcpt, parse_path, parse_rcpt, parse_command}

-- `format!("RCPT TO:<{}>\r\n", ..)` without its CRLF
unfoldable pub rcpt_line : Address → Bytes
rcpt_line a = codes "RCPT TO:<" ++ (a.text ++ (b'>' ∷ []))

abbrev printable : ℕ → Bool
printable c = is_ascii c && not (is_control c)

any-is_control : (s : Bytes) → all printable s ≡ true → any is_control s ≡ false
any-is_control [] h = refl
any-is_control (x ∷ xs) h = ground (arith, any-is_control xs)

all-is_ascii : (s : Bytes) → all printable s ≡ true → all is_ascii s ≡ true
all-is_ascii s h = all_mono printable is_ascii s (λ c p. ground arith) h

no_bracket : (s : Bytes) → all is_path_byte s ≡ true → contains b'>' s ≡ false
no_bracket [] h = refl
no_bracket (x ∷ xs) h = ground (arith, no_bracket xs)

trim_end-concat :
    (c : ℕ) (s : Bytes) (x : ℕ) → (x == c) ≡ false → trim_end c (s ++ (x ∷ [])) ≡ s ++ (x ∷ [])
unfolding trim_end
trim_end-concat c [] x h = ground arith
trim_end-concat c (y ∷ []) x h = ground (arith, trim_end-concat c [] x h)
trim_end-concat c (y ∷ z ∷ zs) x h = ground (arith, trim_end-concat c (z ∷ zs) x h)

parse_path-written :
    (a : Address)
    → IsCanonical a
    → parse_path (codes "TO:<" ++ (a.text ++ (b'>' ∷ []))) (codes "TO:") ≡ ok (a.text, [])
unfolding parse_path to_lower trim_start trim_end
parse_path-written a c =
    rw (split_once-append b'>' a.text [] (no_bracket a.text (IsCanonical-is_path_byte c))) refl

parse_rcpt-written :
    (a : Address)
    → IsCanonical a
    → parse_rcpt (codes "TO:<" ++ (a.text ++ (b'>' ∷ []))) ≡ ok (rcpt a)
unfolding parse_rcpt
parse_rcpt-written a c = rw (parse_path-written a c, IsCanonical-parse c) refl

trim-written :
    (a : Address)
    → trim b' ' (codes "TO:<" ++ (a.text ++ (b'>' ∷ []))) ≡ codes "TO:<" ++ (a.text ++ (b'>' ∷ []))
unfolding trim_start
trim-written a = trim_end-concat b' ' (codes "TO:<" ++ a.text) b'>' refl

all-printable : (a : Address) → IsCanonical a → all printable (a.text ++ (b'>' ∷ [])) ≡ true
all-printable a c =
    all-append printable a.text (b'>' ∷ [])
      (all_mono is_path_byte printable a.text (λ x p. ground arith) (IsCanonical-is_path_byte c))
      refl

-- For every canonical address, the server parses the RCPT line of the client to that recipient.
pub parse_command-rcpt_line :
    (a : Address) → IsCanonical a → parse_command (rcpt_line a) ≡ ok (rcpt a)
unfolding parse_command rcpt_line
parse_command-rcpt_line a c =
    let t : Bytes = a.text ++ (b'>' ∷ []) in
    rw (all-is_ascii t (all-printable a c), any-is_control t (all-printable a c))
      (rw (trim-written a) (parse_rcpt-written a c))

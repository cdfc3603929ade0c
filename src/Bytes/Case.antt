-- ===== src/Bytes/Case.antt =====
-- Laws of letter case.
use rustymail.Base.{ℕ, ◌≡◌, refl, [], ◌∷◌, arith}
use rustymail.Bytes.{Bytes, to_lower, lowercase}

pub to_lower_idem : (c : ℕ) → to_lower (to_lower c) ≡ to_lower c
unfolding to_lower
to_lower_idem c = ground arith

pub lowercase_idem : (s : Bytes) → lowercase (lowercase s) ≡ lowercase s
lowercase_idem [] = refl
lowercase_idem (c ∷ s) = cc (to_lower_idem c, lowercase_idem s)

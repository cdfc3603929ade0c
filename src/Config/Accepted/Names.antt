-- ===== src/Config/Accepted/Names.antt =====
-- The `HashSet` of the local domains has as many members as there are domains when no two are the same.
use rustymail.Base.{◌≤◌, ◌≡◌, refl, ap, false, List, [], ◌∷◌, arith, length, any}
use rustymail.Bytes.{Bytes, equal}
use rustymail.Config.Check.{hash_set}

abbrev pub AllDistinct : List Bytes → Type 0
AllDistinct [] = Unit
AllDistinct (x ∷ xs) = (any (equal x) xs ≡ false) × AllDistinct xs

pub length-hash_set : (xs : List Bytes) → length (hash_set xs) ≤ length xs
unfolding hash_set
length-hash_set [] = ground arith
length-hash_set (x ∷ xs) = ground (arith, length-hash_set xs)

pub hash_set_lem : (xs : List Bytes) → AllDistinct xs → hash_set xs ≡ xs
unfolding hash_set
hash_set_lem [] d = refl
hash_set_lem (x ∷ xs) (new, d) = rw new (ap (λ rest. x ∷ rest) (hash_set_lem xs d))

pub hash_set-AllDistinct : (xs : List Bytes) → length (hash_set xs) ≡ length xs → AllDistinct xs
unfolding hash_set
hash_set-AllDistinct [] e = tt
hash_set-AllDistinct (x ∷ xs) e =
    let most = length-hash_set xs in (ground arith, hash_set-AllDistinct xs (ground arith))

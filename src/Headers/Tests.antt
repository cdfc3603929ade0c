-- ===== src/Headers/Tests.antt =====
-- The header filter on the header of a submission.
use rustymail.Base.{◌≡◌, refl, some, List, [], ◌∷◌}
use rustymail.Bytes.{Bytes, codes, equal, to_lower}
use rustymail.Headers.{submission}
use rustymail.Headers.Filter.{filter_lines, filter_lines_idem}

abbrev header : List Bytes
header =
    codes "Bcc: a@b\r\n"
    ∷ codes "\tc@d\r\n"
    ∷ codes "Subject: x\r\n"
    ∷ codes " y\r\n"
    ∷ codes "Return-Path: <a@b>\r\n"
    ∷ []

abbrev without_bcc : List Bytes
without_bcc = codes "Subject: x\r\n" ∷ codes " y\r\n" ∷ []

filter_lines-header : filter_lines submission header ≡ some without_bcc
unfolding filter_lines equal to_lower
filter_lines-header = refl

filter_lines_idem_example : filter_lines submission without_bcc ≡ some without_bcc
filter_lines_idem_example = filter_lines_idem submission header without_bcc refl filter_lines-header

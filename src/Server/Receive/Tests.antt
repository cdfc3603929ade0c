-- ===== src/Server/Receive/Tests.antt =====
-- A submission of three lines.
use rustymail.Base.{◌+◌, ◌≤◌, ◌≡◌, refl, arith, true, List, [], ◌∷◌, some, length}
use rustymail.Base.Try.{good, bad}
use rustymail.Bytes.{
  Bytes, codes, equal, to_lower, is_alphanumeric, split, split_once, rsplit_once, ends_with,
}
use rustymail.Address.{parse, valid_domain}
use rustymail.Framing.{decode_data_frame, ends_with_crlf}
use rustymail.Headers.{retain, retain_content, strip_crlf, start_field}
use rustymail.Command.{seven_bit}
use rustymail.Config.Check.{local_delivery_overhead_bytes}
use rustymail.Config.Tests.{example, example_valid}
use rustymail.Server.Receive.{
  Reception, Arrival, framed, reception, receive_message, receive_from, data_line, header_line,
  field, identity, complete, permission_denied,
}
use rustymail.Server.Receive.Bounds.{receive_message-reserved}

abbrev trace : Bytes
trace = codes "Received: x\r\n"

abbrev lines : List Arrival
lines =
    framed (codes "From: A <a@example.com>\r\n")
    ∷ framed (codes "Bcc: b@example.com\r\n")
    ∷ framed (codes "\r\n")
    ∷ framed (codes "..x\r\n")
    ∷ framed (codes ".\r\n")
    ∷ []

abbrev submitted : Reception
submitted = reception example true seven_bit 10000

abbrev result : Bytes
result = codes "Received: x\r\nFrom: A <a@example.com>\r\n\r\n.x\r\n"

receives :
    receive_message submitted trace lines
    ≡ good (result, some (record { text = codes "a@example.com" }))
unfolding receive_message receive_from data_line header_line field identity complete
    decode_data_frame ends_with_crlf equal retain retain_content strip_crlf start_field split_once
    rsplit_once parse valid_domain is_alphanumeric to_lower split ends_with
receives = refl

two_authors :
    receive_message submitted trace
      (framed (codes "From: a@example.com\r\n") ∷ framed (codes "From: a@example.com\r\n") ∷ [])
    ≡ bad permission_denied
unfolding receive_message receive_from data_line header_line field identity complete
    decode_data_frame ends_with_crlf equal retain retain_content strip_crlf start_field split_once
    rsplit_once parse valid_domain is_alphanumeric to_lower split ends_with
two_authors = refl

receive_message-reserved_example :
    (length result ≤ example.limits.message_bytes + local_delivery_overhead_bytes)
    × (length result ≤ example.limits.temporary_reserved_bytes)
    × (true ≡ true)
receive_message-reserved_example =
    receive_message-reserved example true seven_bit 10000 trace lines example_valid (omega arith)
      receives

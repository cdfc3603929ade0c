-- ===== src/Server/Receive/Bounds.antt =====
-- How much of a message is staged, and whose it is.
use rustymail.Base.{
  ℕ, ◌+◌, ◌≤◌, ◌≡◌, refl, subst, Bool, true, false, not, ◌&&◌, List, [], ◌∷◌, Option, none, some,
  if◌then◌else◌, arith, Bool-cases, inl, inr, ltb, length, length-append, is_some, all,
}
use rustymail.Base.Try.{Try, good, bad, ◌>>=◌}
use rustymail.Bytes.{Bytes, is_ascii, equal}
use rustymail.Address.{Address}
use rustymail.Framing.{Result, ok, err, crlf, decode_data_frame}
use rustymail.Command.{Body}
use rustymail.Headers.{HeaderFilter, retain}
use rustymail.Config.{Config}
use rustymail.Config.Check.{validate, local_delivery_overhead_bytes}
use rustymail.Config.Accepted.{validate-Accepts}
use rustymail.Client.Payload.{is_seven_bit}
use rustymail.Server.Receive.{
  reception, ReceiveError, SubmissionHeaders, Receiving, Reception, append, identified, filtered,
  data_line, or_refused, complete, Arrival, framed, eof, bad_framing, idle, on_frame, receive_from,
  started, receive_message,
}

-- Behind `before` bytes of trace, no more has been staged than has been received, and that is within the
-- limits.
pub record IsBounded (p : Reception) (before : ℕ) (r : Receiving) : Type 0 where
  pub stages : length r.staged ≤ before + r.input_bytes
  pub receives : r.input_bytes ≤ p.message_bytes
  pub reads : r.headers ≤ p.header_bytes

abbrev Stays : Reception → ℕ → Try ReceiveError Receiving → Type 0
Stays p before (bad e) = Unit
Stays p before (good r) = IsBounded p before r

-- room for the octets among what has been received
append-Stays :
    (p : Reception) (before : ℕ) (r : Receiving) (octets : Bytes)
    → length r.staged + length octets ≤ before + r.input_bytes
    → r.input_bytes ≤ p.message_bytes
    → r.headers ≤ p.header_bytes
    → Stays p before (append p r octets)
append-Stays p before r octets s i h =
    elim (Bool-cases (ltb p.room (length r.staged + length octets))) [
      | inl e ↦ rw e tt
      | inr e ↦ rw e (record {
        stages = omega (arith, s, length-append r.staged octets);
        receives = i;
        reads = h;
      })
    ]

either_Stays :
    (p : Reception) (before : ℕ) (b : Bool) (x y : Try ReceiveError Receiving)
    → (b ≡ true → Stays p before x)
    → (b ≡ false → Stays p before y)
    → Stays p before (if b then x else y)
either_Stays p before true x y h k = h refl
either_Stays p before false x y h k = k refl

identified_then :
    (p : Reception) (before : ℕ) (t : Try ReceiveError SubmissionHeaders)
    (next : SubmissionHeaders → Try ReceiveError Receiving)
    → ((h : SubmissionHeaders) → Stays p before (next h))
    → Stays p before (t >>= next)
identified_then p before (bad e) next k = tt
identified_then p before (good h) next k = k h

filtered-Stays :
    (p : Reception) (before : ℕ) (r : Receiving) (octets : Bytes) (o : Option (HeaderFilter × Bool))
    → length r.staged + length octets ≤ before + r.input_bytes
    → r.input_bytes ≤ p.message_bytes
    → r.headers ≤ p.header_bytes
    → Stays p before (filtered p r octets o)
filtered-Stays p before r octets none s i h = tt
filtered-Stays p before r octets (some (f, true)) s i h =
    identified_then p before (identified p r.identities octets) _
      (λ g. append-Stays p before (record r { filter = f; identities = g }) octets s i h)
filtered-Stays p before r octets (some (f, false)) s i h =
    identified_then p before (identified p r.identities octets) _
      (λ g. record { stages = omega (arith, s); receives = i; reads = h })

data_line-Stays :
    (p : Reception) (before : ℕ) (r : Receiving) (octets : Bytes)
    → IsBounded p before r
    → Stays p before (data_line p r octets)
unfolding data_line
data_line-Stays p before r octets b =
    let counted = record r { input_bytes = r.input_bytes + length octets } in
    let within_header = record counted { headers = r.headers + length octets } in
    let room : length r.staged + length octets ≤ before + (r.input_bytes + length octets) =
      omega (arith, b.stages) in
    either_Stays p before (is_seven_bit p.body && not (all is_ascii octets)) _ _ (λ _. tt)
      (λ _.
        either_Stays p before (ltb p.message_bytes (r.input_bytes + length octets)) _ _ (λ _. tt)
          (λ small.
            let i : r.input_bytes + length octets ≤ p.message_bytes = ground arith in
            either_Stays p before (not r.in_headers) _ _
              (λ _. append-Stays p before counted octets room i b.reads)
              (λ _.
                either_Stays p before (ltb p.header_bytes (r.headers + length octets)) _ _ (λ _. tt)
                  (λ few.
                    let h : r.headers + length octets ≤ p.header_bytes = ground arith in
                    either_Stays p before (equal octets crlf) _ _
                      (λ _.
                        append-Stays p before (record within_header { in_headers = false }) octets
                          room i h)
                      (λ _.
                        filtered-Stays p before within_header octets (retain r.filter octets) room i
                          h)))))

-- What a message that has been received whole is.
abbrev pub IsReceived : Reception → ℕ → Try ReceiveError (Bytes × Option Address) → Type 0
IsReceived p before (bad e) = Unit
IsReceived p before (good (staged, author)) =
    (length staged ≤ before + p.message_bytes + 2) × (is_some author ≡ p.from_submission)

ended :
    (p : Reception) (before : ℕ) (r : Receiving) (author : Option Address)
    → is_some author ≡ p.from_submission
    → IsBounded p before r
    → IsReceived p before
        ((if r.in_headers then append p r crlf else good r) >>= (λ e. good (e.staged, author)))
ended p before r author a b = elim (Bool-cases r.in_headers) [
  | inl e ↦ rw e (elim (Bool-cases (ltb p.room (length r.staged + length crlf))) [
    | inl f ↦ rw f tt
    | inr f ↦ rw f (omega (arith, b.stages, b.receives, length-append r.staged crlf), a)
  ])
  | inr e ↦ rw e (omega (arith, b.stages, b.receives), a)
]

authored :
    (p : Reception) (before : ℕ) (r : Receiving) (o : Option Address) (submits : Bool)
    → submits ≡ p.from_submission
    → IsBounded p before r
    → IsReceived p before (
        (if submits then (do a ← or_refused o; good (some a)) else good none) >>= (λ author.
          (if r.in_headers then append p r crlf else good r) >>= (λ e. good (e.staged, author))))
authored p before r o false e b = ended p before r none e b
authored p before r none true e b = tt
authored p before r (some a) true e b = ended p before r (some a) e b

complete-IsReceived :
    (p : Reception) (before : ℕ) (r : Receiving)
    → IsBounded p before r
    → IsReceived p before (complete p r)
unfolding complete
complete-IsReceived p before r b = authored p before r r.identities.author p.from_submission refl b

continued :
    (p : Reception) (before : ℕ) (t : Try ReceiveError Receiving)
    (rest : Receiving → Try ReceiveError (Bytes × Option Address))
    → Stays p before t
    → ((r : Receiving) → IsBounded p before r → IsReceived p before (rest r))
    → IsReceived p before (t >>= rest)
continued p before (bad e) rest h k = tt
continued p before (good r) rest h k = k r h

on_frame-IsReceived :
    (p : Reception) (before : ℕ) (r : Receiving) (d : Result (Option Bytes))
    (rest : Receiving → Try ReceiveError (Bytes × Option Address))
    → IsBounded p before r
    → ((next : Receiving) → IsBounded p before next → IsReceived p before (rest next))
    → IsReceived p before (on_frame p r rest d)
on_frame-IsReceived p before r (err e) rest b k = tt
on_frame-IsReceived p before r (ok none) rest b k = complete-IsReceived p before r b
on_frame-IsReceived p before r (ok (some octets)) rest b k =
    continued p before (data_line p r octets) rest (data_line-Stays p before r octets b) k

receive_from-IsReceived :
    (p : Reception) (before : ℕ) (arrivals : List Arrival) (r : Receiving)
    → IsBounded p before r
    → IsReceived p before (receive_from p r arrivals)
unfolding receive_from
receive_from-IsReceived p before [] r b = tt
receive_from-IsReceived p before (eof ∷ _) r b = tt
receive_from-IsReceived p before (bad_framing ∷ _) r b = tt
receive_from-IsReceived p before (idle ∷ _) r b = tt
receive_from-IsReceived p before (framed f ∷ arrivals) r b =
    on_frame-IsReceived p before r (decode_data_frame f) (λ next. receive_from p next arrivals) b
      (receive_from-IsReceived p before arrivals)

-- A message that has been received whole has at most the bytes of its trace, the bytes that the limit
-- allows a message and the two of a separator; it has an author exactly when it is a submission.
pub receive_message-IsReceived :
    (p : Reception) (prefix : Bytes) (arrivals : List Arrival)
    → IsReceived p (length prefix) (receive_message p prefix arrivals)
unfolding receive_message
receive_message-IsReceived p prefix arrivals =
    continued p (length prefix) (append p (started p) prefix) (λ r. receive_from p r arrivals)
      (append-Stays p (length prefix) (started p) prefix (omega arith) (omega arith) (omega arith))
      (λ r. receive_from-IsReceived p (length prefix) arrivals r)

-- Under a checked configuration and behind a trace that leaves two bytes of its 2048, a message that has
-- been received whole is within the reservation of a message and the overhead of its delivery, which
-- the budget for temporary files covers; it has an author exactly when it is a submission.
pub receive_message-reserved :
    (c : Config) (from_submission : Bool) (body : Body) (room : ℕ) (prefix : Bytes)
    (arrivals : List Arrival) {staged : Bytes} {author : Option Address}
    → validate c ≡ good tt
    → length prefix + 2 ≤ local_delivery_overhead_bytes
    → receive_message (reception c from_submission body room) prefix arrivals
      ≡ good (staged, author)
    → (length staged ≤ c.limits.message_bytes + local_delivery_overhead_bytes)
      × (length staged ≤ c.limits.temporary_reserved_bytes)
      × (is_some author ≡ from_submission)
receive_message-reserved c from_submission body room prefix arrivals v fits h =
    let p = reception c from_submission body room in
    let limits = ((validate-Accepts c).0 v).limits in
    let (size, author_given) =
      subst (IsReceived p (length prefix)) h (receive_message-IsReceived p prefix arrivals) in
    (omega (arith, size, fits), omega (arith, size, fits, limits.temporary.0), author_given)

-- ===== src/Http1.antt =====
-- drift-core/src/http1.rs: how a response is cut out of the stream. The head is parsed by `httparse`.
--
-- `incoming` is all that the peer sends before it closes; the list says how many bytes arrive at each
-- `read`, which returns as many of them as its buffer has room for, and 0 once the list has ended.
pub mod Framing
pub mod Total
pub mod Closed
pub mod Chunked
pub mod Headers
pub mod Listed
pub mod Body
pub mod Request
pub mod Exchange
mod Examples
use unstable_drift.Prelude.{
  ℕ, suc, ◌+◌, ◌-◌, Bool, true, false, ◌&&◌, Option, none, some, List, [], ◌∷◌, ◌++◌, length, take,
  drop, min,
}
use unstable_drift.Prelude.{Result, ok, err, ◌>>=◌, ◌==◌, ltb, if◌then◌else◌}
use unstable_drift.Bytes.{Bytes}

-- The errors of the functions here.
pub data Http1Error : Type 0 where
  parse_headers : Http1Error
  response_too_large : Http1Error
  chunked : Http1Error
  parse : Http1Error
  unsupported_transfer_encoding : Http1Error
  bad_header : Http1Error

-- `tmp` of `read_until_headers_end`, of `read_exact_body` and of the loop to the end of the stream.
abbrev pub head_room : ℕ
head_room = 32768

abbrev pub body_room : ℕ
body_room = 65536

abbrev pub head_limit : ℕ
head_limit = 1048576

unfoldable pub one_further : Option ℕ → Option ℕ
one_further none = none
one_further (some p) = some (suc p)

unfoldable pub find_headers_end : Bytes → Option ℕ
find_headers_end (a ∷ b ∷ c ∷ d ∷ rest) =
    let further = find_headers_end (b ∷ c ∷ d ∷ rest) in
    if ((a == 13) && (b == 10)) && ((c == 13) && (d == 10)) then some 4 else one_further further
find_headers_end _ = none

-- What a step leaves: the bytes not yet read, and how the next ones arrive.
abbrev pub Rest : Type 0
Rest = Bytes × List ℕ

unfoldable pub found :
    Option ℕ
    → Bytes
    → Rest
    → Result Http1Error (ℕ × Bytes × Rest)
    → Result Http1Error (ℕ × Bytes × Rest)
found (some idx) buf rest otherwise = ok (idx, buf, rest)
found none buf rest otherwise = otherwise

-- The index of the end, the buffer, and what is left.
unfoldable pub read_until_headers_end :
    List ℕ → (buf incoming : Bytes) → Result Http1Error (ℕ × Bytes × Rest)
read_until_headers_end [] buf incoming =
    found (find_headers_end buf) buf (incoming, []) (err parse_headers)
read_until_headers_end (arriving ∷ later) buf incoming =
    let n = min arriving head_room in
    let got = take n incoming in
    let next = read_until_headers_end later (buf ++ got) (drop n incoming) in
    found (find_headers_end buf) buf (incoming, arriving ∷ later)
      (if length got == 0
        then err parse_headers
        else if ltb head_limit (length (buf ++ got))
        then err parse_headers
        else next)

-- The loop of `read_exact_body`.
unfoldable pub exact_loop : ℕ → List ℕ → (out incoming : Bytes) → Result Http1Error (Bytes × Rest)
exact_loop n [] out incoming =
    if ltb (length out) n then err parse_headers else ok (out, (incoming, []))
exact_loop n (arriving ∷ later) out incoming =
    let m = min arriving (min (n - length out) body_room) in
    let got = take m incoming in
    let next = exact_loop n later (out ++ got) (drop m incoming) in
    if ltb (length out) n
    then (if length got == 0 then err parse_headers else next)
    else ok (out, (incoming, arriving ∷ later))

unfoldable pub read_exact_body : (prefix : Bytes) → ℕ → Rest → Result Http1Error (Bytes × Rest)
read_exact_body prefix n (incoming, arrivals) =
    exact_loop n arrivals (take (min (length prefix) n) prefix) incoming

unfoldable pub over : Option ℕ → ℕ → Bool
over none n = false
over (some most) n = ltb most n

-- The loop of `read_body` for a body that the end of the stream delimits.
unfoldable pub to_the_end : Option ℕ → List ℕ → (out incoming : Bytes) → Result Http1Error Bytes
to_the_end most [] out incoming = ok out
to_the_end most (arriving ∷ later) out incoming =
    let n = min arriving body_room in
    let got = take n incoming in
    let next = to_the_end most later (out ++ got) (drop n incoming) in
    if length got == 0
    then ok out
    else if over most (length out + length got)
    then err response_too_large
    else next

-- `send_request` from the head on, for a response whose content length is `n`.
unfoldable pub sized_response : ℕ → Bytes → List ℕ → Result Http1Error (ℕ × Bytes)
sized_response n wire arrivals = do
  head ← read_until_headers_end arrivals [] wire
  body ← read_exact_body (drop head.0 head.1) n head.2
  ok (head.0, body.0)

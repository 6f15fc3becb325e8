-- ===== src/Http1/Exchange/Examples.antt =====
-- A map of headers as a list, and a request that is answered.
use unstable_drift.Prelude.{ℕ, ◌≡◌, refl, false, some, [], ◌∷◌, ◌++◌, drop, ok, arith}
use unstable_drift.Bytes.{Bytes}
use unstable_drift.Bytes.Text.{ascii}
use unstable_drift.Bytes.Search.{to_lowercase, same_text}
use unstable_drift.Http1.{find_headers_end}
use unstable_drift.Http1.Exchange.{Parsed, complete, Http1Response, http_11, send_request}
use unstable_drift.Http1.Exchange.Sound.{IsResponse, send_request_sound}
use unstable_drift.Http1.Listed.{listed, look_up}
use unstable_drift.Http1.Request.{crlf, Http1Request, encode_request}
use unstable_drift.Http1.Request.Framed.{literal-IsInline, encode_request_framed}

abbrev post : Http1Request listed
post = record {
  method = ascii "POST";
  path = ascii "/a";
  headers = (ascii "host", ascii "h") ∷ [];
  body = 13 ∷ 10 ∷ 13 ∷ 10 ∷ [];
}

encode_request_framed_example :
    (idx : ℕ) × (find_headers_end (encode_request listed post) ≡ some idx)
    × (drop idx (encode_request listed post) ≡ post.body)
unfolding unstable_drift.Http1.Request.Framed.holds_return
encode_request_framed_example =
    encode_request_framed listed post (literal-IsInline post.method refl)
      (literal-IsInline post.path refl)
      ((literal-IsInline (ascii "host") refl, literal-IsInline (ascii "h") refl), tt)

-- The length of a head, for one that has a single header.
abbrev parser : Bytes → Parsed
parser head = complete (record {
  version = some 1;
  code = some 200;
  headers = (ascii "Content-Length", ascii "2") ∷ [];
})

abbrev wire : Bytes
wire =
    ascii "HTTP/1.1 200 OK"
    ++ (crlf ++ (ascii "Content-Length: 2" ++ (crlf ++ (crlf ++ ascii "ok"))))

abbrev answer : Http1Response listed parser some
answer = record {
  head = record {
    version = http_11;
    status = 200;
    headers = (ascii "content-length", ascii "2") ∷ [];
  };
  body = ascii "ok";
  connection_keep_alive = false;
}

answered : (send_request listed parser some post (some 9) (wire, 30 ∷ 30 ∷ [])).1 ≡ ok answer
unfolding send_request unstable_drift.Http1.read_until_headers_end unstable_drift.Http1.found
    unstable_drift.Http1.one_further unstable_drift.Http1.exact_loop unstable_drift.Http1.over
    unstable_drift.Http1.read_exact_body unstable_drift.Http1.Exchange.parse_response_head
    unstable_drift.Http1.Exchange.head_of unstable_drift.Http1.Exchange.collect
    unstable_drift.Http1.Exchange.version_of unstable_drift.Http1.Exchange.keeps_alive
    unstable_drift.Http1.Exchange.text_at unstable_drift.Http1.Body.read_body
    unstable_drift.Http1.Body.choose_body unstable_drift.Http1.Body.counted_body
    unstable_drift.Http1.Body.text_of unstable_drift.Http1.Body.unwrap_or_empty
    unstable_drift.Bytes.Digits.parse_u64 unstable_drift.Bytes.Digits.u64_digits find_headers_end
    look_up same_text to_lowercase
answered = refl

send_request_sound_example : IsResponse listed parser some (some 9) wire answer
send_request_sound_example =
    send_request_sound listed parser some post (some 9) wire (30 ∷ 30 ∷ []) answer (omega arith)
      answered

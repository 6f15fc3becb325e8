-- ===== src/Http1/Body/Sound.antt =====
-- http1.rs, `read_body`: what a body that is received is of the stream.
use unstable_drift.Prelude.{
  ℕ, ◌≡◌, refl, ap, sym, ◌∙◌, append_assoc, true, false, Option, none, some, List, ◌++◌, length,
  take, ◌<◌,
}
use unstable_drift.Prelude.{
  ok_or-Yields, ok, if-cases, Yields, Yields-ok, Yields-self, Yields-bind, Yields-map,
  Yields-map_err,
}
use unstable_drift.Bytes.{Bytes}
use unstable_drift.Bytes.Text.{ascii}
use unstable_drift.Bytes.Search.{to_lowercase, contains}
use unstable_drift.Bytes.Digits.{parse_u64}
use unstable_drift.Http1.{over, Rest, read_exact_body, to_the_end}
use unstable_drift.Http1.Closed.{to_the_end-Yields}
use unstable_drift.Http1.Framing.{read_exact_body-Yields}
use unstable_drift.Http1.Chunked.{fails, read_chunked_body}
use unstable_drift.Http1.Chunked.Grammar.{Encodes, too_long}
use unstable_drift.Http1.Chunked.Sound.{read_chunked_body_sound}
use unstable_drift.Http1.Headers.{HeaderMap}
use unstable_drift.Http1.Body.{text_of, encoded_body, counted_body, choose_body, read_body}

-- What the message body is, by the headers Transfer-Encoding and Content-Length, of all that follows
-- the head.
pub data IsBody (H : HeaderMap) (most : Option ℕ) (te cl : Option Bytes) (wire body : Bytes)
    : Type 0 where
  in_chunks :
      (v : Bytes)
      → te ≡ some v
      → contains (ascii "chunked") (to_lowercase (text_of H v)) ≡ true
      → over most (length body) ≡ false
      → Encodes wire body
      → IsBody H most te cl wire body
  counted :
      (v : Bytes) (n : ℕ)
      → te ≡ none
      → cl ≡ some v
      → parse_u64 (text_of H v) ≡ some n
      → length body ≡ n
      → over most n ≡ false
      → body ≡ take n wire
      → IsBody H most te cl wire body
  up_to_end :
      (rest : Bytes) → te ≡ none → cl ≡ none → wire ≡ body ++ rest → IsBody H most te cl wire body

module _ (H : HeaderMap) where
  encoded-Yields :
      (te : Bytes) (cl : Option Bytes) (prefix incoming : Bytes) (most : Option ℕ)
      (arrivals : List ℕ)
      → length (prefix ++ incoming) < too_long
      → Yields
          (IsBody H most (some te) cl (prefix ++ incoming))
          (encoded_body H te prefix most (incoming, arrivals))
  unfolding encoded_body
  encoded-Yields te cl prefix incoming most arrivals h =
      if-cases (Yields (IsBody H most (some te) cl (prefix ++ incoming)))
        (contains (ascii "chunked") (to_lowercase (text_of H te)))
        (λ e.
          Yields-map (read_chunked_body most prefix (incoming, arrivals))
            (λ body r.
              let k = read_chunked_body_sound most prefix incoming arrivals body h r in
              in_chunks te refl e k.1 k.0)
            (Yields-self (read_chunked_body most prefix (incoming, arrivals))))
        (λ e. tt)

  counted-Yields :
      (cl prefix incoming : Bytes) (most : Option ℕ) (arrivals : List ℕ)
      → Yields
          (IsBody H most none (some cl) (prefix ++ incoming))
          (counted_body H cl prefix most (incoming, arrivals))
  unfolding counted_body
  counted-Yields cl prefix incoming most arrivals =
      let Q = IsBody H most none (some cl) (prefix ++ incoming) in
      Yields-bind (λ n. parse_u64 (text_of H cl) ≡ some n) Q _ _
        (ok_or-Yields (parse_u64 (text_of H cl)) _)
        (λ n p.
          let B : Bytes × Rest → Type 0 =
            λ r. (r.0 ≡ take n (prefix ++ incoming)) × (length r.0 ≡ n) in
          if-cases (Yields Q) (over most n) (λ e. tt)
            (λ e.
              Yields-bind B Q _ _
                (Yields-map_err B fails (read_exact_body prefix n (incoming, arrivals))
                  (read_exact_body-Yields prefix incoming n arrivals))
                (λ r b. counted cl n refl refl p b.1 e b.0)))

  choose-Yields :
      (te cl : Option Bytes) (prefix incoming : Bytes) (most : Option ℕ) (arrivals : List ℕ)
      → length (prefix ++ incoming) < too_long
      → Yields
          (IsBody H most te cl (prefix ++ incoming))
          (choose_body H te cl prefix most (incoming, arrivals))
  unfolding choose_body
  choose-Yields (some te) cl prefix incoming most arrivals h =
      encoded-Yields te cl prefix incoming most arrivals h
  choose-Yields none (some cl) prefix incoming most arrivals h =
      counted-Yields cl prefix incoming most arrivals
  choose-Yields none none prefix incoming most arrivals h =
      Yields-map_err (IsBody H most none none (prefix ++ incoming)) fails
        (to_the_end most arrivals prefix incoming)
        (Yields-map (to_the_end most arrivals prefix incoming)
          (λ body g.
            let (more, rest, b, i, o) = g in
            up_to_end rest refl refl (
              ap (◌++◌ prefix) i
              ∙ sym (append_assoc prefix more rest)
              ∙ ap (λ x. x ++ rest) (sym b)))
          (to_the_end-Yields most arrivals prefix incoming))

  -- A body that is received, however its bytes arrive, is what the headers of the response say of the
  -- bytes behind the head: under Transfer-Encoding the chunks put together, under Content-Length alone
  -- as many bytes as it says, and otherwise what there is up to some point. The first two are not over
  -- the limit. What was sent is shorter than a `Vec` can be; the map of headers is any.
  pub read_body_sound :
      (headers : H.Headers) (prefix incoming : Bytes) (most : Option ℕ) (arrivals : List ℕ)
      (body : Bytes)
      → length (prefix ++ incoming) < too_long
      → read_body H headers prefix most (incoming, arrivals) ≡ ok body
      → IsBody H most
          (H.get headers (ascii "transfer-encoding"))
          (H.get headers (ascii "content-length"))
          (prefix ++ incoming)
          body
  unfolding read_body
  read_body_sound headers prefix incoming most arrivals body h =
      let te = H.get headers (ascii "transfer-encoding") in
      let cl = H.get headers (ascii "content-length") in
      Yields-ok (IsBody H most te cl (prefix ++ incoming))
        (read_body H headers prefix most (incoming, arrivals))
        (choose-Yields te cl prefix incoming most arrivals h)

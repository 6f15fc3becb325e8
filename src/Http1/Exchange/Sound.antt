-- ===== src/Http1/Exchange/Sound.antt =====
-- http1.rs, `send_request`: what a response that is returned is of the bytes that the peer sent.
use unstable_drift.Prelude.{
  ℕ, ◌<◌, ◌≡◌, ap, sym, subst, ◌∙◌, Option, some, List, [], ◌++◌, length, take, drop, length-drop,
  arith,
}
use unstable_drift.Prelude.{ok, Yields, Yields-ok, Yields-self, Yields-bind, Yields-map_err}
use unstable_drift.Bytes.{Bytes}
use unstable_drift.Bytes.Text.{ascii}
use unstable_drift.Http1.{find_headers_end, read_until_headers_end}
use unstable_drift.Http1.Framing.{Headed, head-Yields, take_within, drop_within}
use unstable_drift.Http1.Body.{read_body}
use unstable_drift.Http1.Body.Sound.{IsBody, read_body_sound}
use unstable_drift.Http1.Chunked.{fails}
use unstable_drift.Http1.Chunked.Grammar.{too_long}
use unstable_drift.Http1.Headers.{HeaderMap}
use unstable_drift.Http1.Request.{Http1Request}
use unstable_drift.Http1.Exchange.{Parsed, Http1Response, parse_response_head, send_request}

module _ (H : HeaderMap) (httparse : Bytes → Parsed) (status_from : ℕ → Option ℕ) where
  -- A response in the bytes `wire`.
  pub record IsResponse (most : Option ℕ) (wire : Bytes)
      (resp : Http1Response H httparse status_from) : Type 0 where
    pub idx : ℕ
    pub head_ends : find_headers_end wire ≡ some idx
    pub head_parsed : parse_response_head H httparse status_from (take idx wire) ≡ ok resp.head
    pub body_follows :
        IsBody H most
          (H.get resp.head.headers (ascii "transfer-encoding"))
          (H.get resp.head.headers (ascii "content-length"))
          (drop idx wire)
          resp.body

  answer-Yields :
      (req : Http1Request H) (most : Option ℕ) (wire : Bytes) (arrivals : List ℕ)
      → length wire < too_long
      → Yields
          (IsResponse most wire)
          (send_request H httparse status_from req most (wire, arrivals)).1
  unfolding send_request
  answer-Yields req most wire arrivals h =
      let Q = IsResponse most wire in
      let parse_head = parse_response_head H httparse status_from in
      Yields-bind (Headed wire) Q _ _
        (Yields-map_err (Headed wire) fails (read_until_headers_end arrivals [] wire)
          (head-Yields arrivals [] wire))
        (λ found f.
          let front : take found.0 wire ≡ take found.0 found.1 =
            ap (take found.0) (sym f.2) ∙ take_within found.0 found.1 found.2.0 f.1 in
          let behind : drop found.0 found.1 ++ found.2.0 ≡ drop found.0 wire =
            sym (drop_within found.0 found.1 found.2.0 f.1) ∙ ap (drop found.0) f.2 in
          let l = length-drop found.0 wire in
          Yields-bind (λ head. parse_head (take found.0 found.1) ≡ ok head) Q _ _
            (Yields-map_err (λ head. parse_head (take found.0 found.1) ≡ ok head) fails
              (parse_head (take found.0 found.1)) (Yields-self (parse_head (take found.0 found.1))))
            (λ head p.
              Yields-bind
                (λ body. read_body H head.headers (drop found.0 found.1) most found.2 ≡ ok body) Q
                (read_body H head.headers (drop found.0 found.1) most found.2) _
                (Yields-self (read_body H head.headers (drop found.0 found.1) most found.2))
                (λ body r.
                  let b =
                    read_body_sound H head.headers (drop found.0 found.1) found.2.0 most found.2.1
                      body (omega (arith, l, ap length behind)) r in
                  record {
                    idx = found.0;
                    head_ends = f.0;
                    head_parsed = ap parse_head front ∙ p;
                    body_follows =
                        subst
                          (λ w.
                            IsBody H most (H.get head.headers (ascii "transfer-encoding"))
                              (H.get head.headers (ascii "content-length")) w body)
                          behind b;
                  })))

  -- A response that is returned, however its bytes arrive, is cut out of them as its headers say: the head up to the first empty line, as the
  -- parser reads it, and behind it the body, in chunks within the limit under Transfer-Encoding, of the
  -- length that Content-Length gives, within the limit, or up to some point if neither is there. What
  -- the peer sends is shorter than a `Vec` can be.
  pub send_request_sound :
      (req : Http1Request H) (most : Option ℕ) (wire : Bytes) (arrivals : List ℕ)
      (resp : Http1Response H httparse status_from)
      → length wire < too_long
      → (send_request H httparse status_from req most (wire, arrivals)).1 ≡ ok resp
      → IsResponse most wire resp
  unfolding send_request
  send_request_sound req most wire arrivals resp h e =
      Yields-ok (IsResponse most wire)
        (send_request H httparse status_from req most (wire, arrivals)).1
        (answer-Yields req most wire arrivals h) e

-- ===== src/Handle/Fetch/Sound.antt =====
-- handle.rs, `perform_http1`: what was asked and what a response that is returned is.
use unstable_drift.Prelude.{ℕ, ◌<◌, ◌≡◌, refl, ap, subst, Option, List, length}
use unstable_drift.Prelude.{
  Result, ok, err, ok_or, map_err, Yields, Yields-ok, Yields-self, Yields-bind, Yields-map,
  Yields-map_err, ok_or-Yields,
}
use unstable_drift.Bytes.{Bytes}
use unstable_drift.Bytes.Text.{ascii}
use unstable_drift.Http1.Chunked.{Stop}
use unstable_drift.Http1.Chunked.Grammar.{too_long}
use unstable_drift.Http1.Exchange.{Parsed, Http1Response, send_request, text_at}
use unstable_drift.Http1.Exchange.Sound.{IsResponse, send_request_sound}
use unstable_drift.Http1.Headers.{HeaderMap, HeaderMapLaws}
use unstable_drift.Http1.Request.{Http1Request, encode_request}
use unstable_drift.Handle.{ParsedUrl}
use unstable_drift.Handle.Compression.{decode_body}
use unstable_drift.Handle.Settings.{WispHandle, as_str}
use unstable_drift.Handle.Fetch.{
  FetchError, bad_method, http1, decompress, Response, build_headers, request_for, response_of,
  exchanged, perform_http1,
}
use unstable_drift.Handle.Fetch.Fields.{Fields, build_headers-Yields}
use unstable_drift.Handle.Fetch.Wanted.{
  IsNamed, as_str-IsNamed, IsPayload, body_bytes-IsPayload, Shows, out_headers-Shows, Decodes,
  decode_body-Decodes,
}

module _ (H : HeaderMap) (L : HeaderMapLaws H) (httparse : Bytes → Parsed)
    (status_from : ℕ → Option ℕ) (method_from gunzip unbrotli : Bytes → Option Bytes) where
  -- The request of a handle for a URL.
  pub record IsAsked (u : ParsedUrl) (h : WispHandle) (req : Http1Request H) : Type 0 where
    pub name : Bytes
    pub named : IsNamed h.method name
    pub method_read : method_from name ≡ Option.some req.method
    pub path_of_url : req.path ≡ u.path
    pub fields : Fields H L u h req.headers
    pub payload : IsPayload h.body req.body

  -- What is returned for a response.
  pub record IsShown (resp : Http1Response H httparse status_from) (r : Response) : Type 0 where
    pub same_status : r.status ≡ resp.head.status
    pub headers_shown : Shows H (H.entries resp.head.headers) r.headers
    pub decoded :
        Decodes gunzip unbrotli resp.body
          (text_at H httparse status_from resp.head.headers (ascii "content-encoding"))
          r.body

  -- A request of the handle `h` that was written, and an answer to it in the bytes `wire`.
  pub record IsAnswer (u : ParsedUrl) (h : WispHandle) (wire written : Bytes) (r : Response)
      : Type 0 where
    pub req : Http1Request H
    pub asked : IsAsked u h req
    pub request_written : written ≡ encode_request H req
    pub resp : Http1Response H httparse status_from
    pub received : IsResponse H httparse status_from h.general.max_response_size wire resp
    pub shown : IsShown resp r

  request_for-Yields :
      (u : ParsedUrl) (h : WispHandle) → Yields (IsAsked u h) (request_for H method_from u h)
  unfolding request_for
  request_for-Yields u h =
      let Q = IsAsked u h in
      Yields-bind (Fields H L u h) Q (build_headers H u h) _ (build_headers-Yields H L u h)
        (λ headers fields.
          let method = ok_or (method_from (as_str h.method)) bad_method in
          Yields-bind (λ m. method_from (as_str h.method) ≡ Option.some m) Q method _
            (ok_or-Yields (method_from (as_str h.method)) bad_method)
            (λ m e. record {
              name = as_str h.method;
              named = as_str-IsNamed h.method;
              method_read = e;
              path_of_url = refl;
              fields = fields;
              payload = body_bytes-IsPayload h.body;
            }))

  response_of-Yields :
      (P : Http1Response H httparse status_from → Type 0)
      (answer : Result Stop (Http1Response H httparse status_from))
      → Yields P answer
      → Yields
          (λ r. (resp : Http1Response H httparse status_from) × P resp × IsShown resp r)
          (response_of H httparse status_from method_from gunzip unbrotli answer)
  unfolding response_of
  response_of-Yields P answer p =
      let Q : Response → Type 0 =
        λ r. (resp : Http1Response H httparse status_from) × P resp × IsShown resp r in
      Yields-bind P Q (map_err http1 answer) _ (Yields-map_err P http1 answer p) (λ resp got.
        let coding = text_at H httparse status_from resp.head.headers (ascii "content-encoding") in
        let D = Decodes gunzip unbrotli resp.body coding in
        let decoded = decode_body gunzip unbrotli resp.body coding in
        Yields-bind D Q (map_err decompress decoded) _
          (Yields-map_err D decompress decoded
            (decode_body-Decodes gunzip unbrotli resp.body coding))
          (λ body d. (
            resp,
            got,
            record {
              same_status = refl;
              headers_shown = out_headers-Shows H (H.entries resp.head.headers);
              decoded = d;
            },
          )))

  perform_http1-Yields :
      (u : ParsedUrl) (h : WispHandle) (wire : Bytes) (arrivals : List ℕ)
      → length wire < too_long
      → let done =
          perform_http1 H httparse status_from method_from gunzip unbrotli u h (wire, arrivals) in
        Yields (IsAnswer u h wire done.0) done.1
  unfolding perform_http1 exchanged send_request
  perform_http1-Yields u h wire arrivals long =
      over (request_for H method_from u h) (request_for-Yields u h)
    where
      over :
          (q : Result FetchError (Http1Request H))
          → Yields (IsAsked u h) q
          → let done =
              exchanged H httparse status_from method_from gunzip unbrotli h (wire, arrivals) q in
            Yields (IsAnswer u h wire done.0) done.1
      over (err e) a = tt
      over (ok req) a =
          let most = h.general.max_response_size in
          let answer = (send_request H httparse status_from req most (wire, arrivals)).1 in
          let R = IsResponse H httparse status_from most wire in
          Yields-map (response_of H httparse status_from method_from gunzip unbrotli answer)
            (λ r (resp, received, shown). record {
              req = req;
              asked = a;
              request_written = refl;
              resp = resp;
              received = received;
              shown = shown;
            })
            (response_of-Yields R answer (
              Yields-map answer
                (λ resp e.
                  send_request_sound H httparse status_from req most wire arrivals resp long e)
                (Yields-self answer)))

  -- An answer that is returned, however its bytes arrive. What was written is a request for the path of
  -- the URL with the method and the body of the handle, and with the Host, the User-Agent and the
  -- Accept-Encoding of the URL, of the handle's headers and of its options. The bytes that the peer sent
  -- are a response, cut as its headers say, within the handle's limit where there is a length. The answer
  -- has its status, its headers, with an empty value for one that is no text, and its body: as it is
  -- without a Content-Encoding, with an empty one or for "identity", decompressed as gzip for "gzip" and
  -- "x-gzip", as brotli for "br". What the peer sends is shorter than a `Vec` can be, and the map of
  -- headers obeys the laws of the http crate.
  pub perform_http1_sound :
      (u : ParsedUrl) (h : WispHandle) (wire written : Bytes) (arrivals : List ℕ) (r : Response)
      → length wire < too_long
      → perform_http1 H httparse status_from method_from gunzip unbrotli u h (wire, arrivals)
        ≡ (written, ok r)
      → IsAnswer u h wire written r
  perform_http1_sound u h wire written arrivals r long e =
      let done =
        perform_http1 H httparse status_from method_from gunzip unbrotli u h (wire, arrivals) in
      subst (λ w. IsAnswer u h wire w r) (ap (λ p. p.0) e)
        (Yields-ok (IsAnswer u h wire done.0) done.1 (perform_http1-Yields u h wire arrivals long)
          (ap (λ p. p.1) e))

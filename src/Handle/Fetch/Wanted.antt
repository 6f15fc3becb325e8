-- ===== src/Handle/Fetch/Wanted.antt =====
-- handle.rs and compression.rs: what a request and its answer should be, as relations apart from the code: the
-- Host of a URL, the encodings offered, the name of a method, a body, and the codings of a response.
use unstable_drift.Prelude.{
  ◌≡◌, ◌≢◌, refl, sym, ◌∙◌, ap, true, Option, none, some, List, [], ◌∷◌, ◌++◌, arith,
}
use unstable_drift.Prelude.{
  ok_or, if◌then◌else◌, ◌==◌, ◌||◌, if-cases, Yields, Yields-map, ok_or-Yields, Bool-cases, inl,
  inr,
}
use unstable_drift.Bytes.{Bytes}
use unstable_drift.Bytes.Text.{ascii, decimal}
use unstable_drift.Bytes.Search.{trim, to_lowercase, same_text, same_text_lem}
use unstable_drift.Http1.Headers.{HeaderMap}
use unstable_drift.Http1.Body.{unwrap_or_empty}
use unstable_drift.Handle.{UrlScheme, http, https, ParsedUrl}
use unstable_drift.Handle.Compression.{decode_as, decode_body, accept_encoding_header}
use unstable_drift.Handle.Options.{Compression, off, gzip, brotli, automatic}
use unstable_drift.Handle.Settings.{
  Method, get, post, put, delete, patch, head, options, custom, as_str, Body, empty, bytes, text,
  Header,
}
use unstable_drift.Handle.Fetch.{is_default_port, host_value, body_bytes, out_headers}

-- The Host of a URL: without the port where it is 80 for http or 443 for https.
pub data IsHost (u : ParsedUrl) (v : Bytes) : Type 0 where
  http_alone : u.scheme ≡ http → u.port ≡ 80 → v ≡ u.host → IsHost u v
  https_alone : u.scheme ≡ https → u.port ≡ 443 → v ≡ u.host → IsHost u v
  http_port : u.scheme ≡ http → u.port ≢ 80 → v ≡ u.host ++ (b':' ∷ decimal u.port) → IsHost u v
  https_port : u.scheme ≡ https → u.port ≢ 443 → v ≡ u.host ++ (b':' ∷ decimal u.port) → IsHost u v

pub host_value-IsHost : (u : ParsedUrl) → IsHost u (host_value u)
unfolding host_value is_default_port
host_value-IsHost u = by_scheme u.scheme refl
  where
    by_scheme :
        (s : UrlScheme)
        → u.scheme ≡ s
        → IsHost u (if is_default_port s u.port then u.host else u.host ++ (b':' ∷ decimal u.port))
    by_scheme http e =
        if-cases (IsHost u) (u.port == 80) (λ q. http_alone e (ground arith) refl)
          (λ q. http_port e (λ r. ground arith) refl)
    by_scheme https e =
        if-cases (IsHost u) (u.port == 443) (λ q. https_alone e (ground arith) refl)
          (λ q. https_port e (λ r. ground arith) refl)

-- The value of Accept-Encoding.
pub data Offers : Compression → Option Bytes → Type 0 where
  nothing : Offers off none
  only_gzip : Offers gzip (some (ascii "gzip"))
  only_br : Offers brotli (some (ascii "br"))
  both : Offers automatic (some (ascii "br, gzip"))

pub accept_encoding_header-Offers : (c : Compression) → Offers c (accept_encoding_header c)
unfolding accept_encoding_header
accept_encoding_header-Offers off = nothing
accept_encoding_header-Offers gzip = only_gzip
accept_encoding_header-Offers brotli = only_br
accept_encoding_header-Offers automatic = both

-- The name of a method.
pub data IsNamed : Method → Bytes → Type 0 where
  named_get : IsNamed get (ascii "GET")
  named_post : IsNamed post (ascii "POST")
  named_put : IsNamed put (ascii "PUT")
  named_delete : IsNamed delete (ascii "DELETE")
  named_patch : IsNamed patch (ascii "PATCH")
  named_head : IsNamed head (ascii "HEAD")
  named_options : IsNamed options (ascii "OPTIONS")
  named_so : (s : Bytes) → IsNamed (custom s) s

pub as_str-IsNamed : (m : Method) → IsNamed m (as_str m)
unfolding as_str
as_str-IsNamed get = named_get
as_str-IsNamed post = named_post
as_str-IsNamed put = named_put
as_str-IsNamed delete = named_delete
as_str-IsNamed patch = named_patch
as_str-IsNamed head = named_head
as_str-IsNamed options = named_options
as_str-IsNamed (custom s) = named_so s

-- The bytes of a body.
pub data IsPayload : Body → Bytes → Type 0 where
  of_empty : IsPayload empty []
  of_bytes : (v : Bytes) → IsPayload (bytes v) v
  of_text : (s : Bytes) → IsPayload (text s) s

pub body_bytes-IsPayload : (b : Body) → IsPayload b (body_bytes b)
unfolding body_bytes
body_bytes-IsPayload empty = of_empty
body_bytes-IsPayload (bytes v) = of_bytes v
body_bytes-IsPayload (text s) = of_text s

-- The headers of an answer: the names as they came, the values as text, empty where they are none.
pub data Shows (H : HeaderMap) : List (Bytes × Bytes) → List Header → Type 0 where
  no_more : Shows H [] []
  readable :
      {name value s : Bytes} {rest : List (Bytes × Bytes)} {shown : List Header}
      → H.to_str value ≡ some s
      → Shows H rest shown
      → Shows H ((name, value) ∷ rest) (record { name = name; value = s } ∷ shown)
  unreadable :
      {name value : Bytes} {rest : List (Bytes × Bytes)} {shown : List Header}
      → H.to_str value ≡ none
      → Shows H rest shown
      → Shows H ((name, value) ∷ rest) (record { name = name; value = [] } ∷ shown)

pub out_headers-Shows : (H : HeaderMap) (l : List (Bytes × Bytes)) → Shows H l (out_headers H l)
unfolding out_headers unwrap_or_empty
out_headers-Shows H [] = no_more
out_headers-Shows H ((name, value) ∷ rest) =
    by_text (H.to_str value) refl (out_headers-Shows H rest)
  where
    by_text :
        (o : Option Bytes)
        → H.to_str value ≡ o
        → Shows H rest (out_headers H rest)
        → Shows H
            ((name, value) ∷ rest)
            (record { name = name; value = unwrap_or_empty o } ∷ out_headers H rest)
    by_text none e more = unreadable e more
    by_text (some s) e more = readable e more

-- A decoder that reads the body.
read-Yields :
    {P : Bytes → Type 0} {E : Type 0} (o : Option Bytes) (e : E)
    → ((out : Bytes) → o ≡ some out → P out)
    → Yields P (ok_or o e)
read-Yields o e f = Yields-map (ok_or o e) f (ok_or-Yields o e)

module _ (gunzip unbrotli : Bytes → Option Bytes) where
  -- A body without the coding that its Content-Encoding names, whatever the case of the name.
  pub data Decodes (body : Bytes) (o : Option Bytes) (out : Bytes) : Type 0 where
    not_coded : o ≡ none → out ≡ body → Decodes body o out
    blank : (v : Bytes) → o ≡ some v → to_lowercase (trim v) ≡ [] → out ≡ body → Decodes body o out
    identity :
        (v : Bytes)
        → o ≡ some v
        → to_lowercase (trim v) ≡ ascii "identity"
        → out ≡ body
        → Decodes body o out
    gzipped :
        (v : Bytes)
        → o ≡ some v
        → to_lowercase (trim v) ≡ ascii "gzip"
        → gunzip body ≡ some out
        → Decodes body o out
    x_gzipped :
        (v : Bytes)
        → o ≡ some v
        → to_lowercase (trim v) ≡ ascii "x-gzip"
        → gunzip body ≡ some out
        → Decodes body o out
    brotlied :
        (v : Bytes)
        → o ≡ some v
        → to_lowercase (trim v) ≡ ascii "br"
        → unbrotli body ≡ some out
        → Decodes body o out

  -- Either of two names.
  either_name :
      {P : Type 0} (coding a b : Bytes)
      → (same_text coding a || same_text coding b) ≡ true
      → (coding ≡ a → P)
      → (coding ≡ b → P)
      → P
  either_name coding a b h f g = elim (Bool-cases (same_text coding a)) [
    | inl e ↦ f (same_text_lem coding a e)
    | inr e ↦ g (same_text_lem coding b (sym (ap (λ x. x || same_text coding b) e) ∙ h))
  ]

  decode_as-Decodes :
      (v body : Bytes)
      → Yields (Decodes body (some v)) (decode_as gunzip unbrotli (to_lowercase (trim v)) body)
  unfolding decode_as
  decode_as-Decodes v body =
      let c = to_lowercase (trim v) in
      let Q = Decodes body (some v) in
      if-cases (Yields Q) (same_text c [] || same_text c (ascii "identity"))
        (λ h.
          either_name c [] (ascii "identity") h (λ e. blank v refl e refl)
            (λ e. identity v refl e refl))
        (λ h.
          if-cases (Yields Q) (same_text c (ascii "gzip") || same_text c (ascii "x-gzip"))
            (λ g. read-Yields (gunzip body) _ (λ out e.
              either_name c (ascii "gzip") (ascii "x-gzip") g (λ n. gzipped v refl n e)
                (λ n. x_gzipped v refl n e)))
            (λ g.
              if-cases (Yields Q) (same_text c (ascii "br"))
                (λ b.
                  read-Yields (unbrotli body) _
                    (λ out e. brotlied v refl (same_text_lem c (ascii "br") b) e))
                (λ b. tt)))

  pub decode_body-Decodes :
      (body : Bytes) (o : Option Bytes)
      → Yields (Decodes body o) (decode_body gunzip unbrotli body o)
  unfolding decode_body
  decode_body-Decodes body none = not_coded refl refl
  decode_body-Decodes body (some v) = decode_as-Decodes v body

-- ===== src/Handle/Fetch/Fields.antt =====
-- handle.rs, `perform_http1`: the header fields of a request.
use unstable_drift.Prelude.{
  ◌≡◌, arith, refl, ap, sym, subst, ◌∙◌, true, false, Option, none, some, List, [], ◌∷◌,
}
use unstable_drift.Prelude.{
  ok, if◌then◌else◌, if-cases, Bool-cases, Option-cases, inl, inr, Yields, Yields-ok, Yields-bind,
  Yields-map, ok_or-Yields,
}
use unstable_drift.Bytes.{Bytes}
use unstable_drift.Bytes.Text.{ascii}
use unstable_drift.Bytes.Search.{same_text, same_text_lem, same_text_self}
use unstable_drift.Http1.Headers.{HeaderMap, HeaderMapLaws, is_some}
use unstable_drift.Handle.{ParsedUrl}
use unstable_drift.Handle.Compression.{accept_encoding_header}
use unstable_drift.Handle.Options.{GeneralOptions}
use unstable_drift.Handle.Settings.{Header, WispHandle}
use unstable_drift.Handle.Fetch.Wanted.{
  IsHost, host_value-IsHost, Offers, accept_encoding_header-Offers,
}
use unstable_drift.Handle.Fetch.{
  host_value, append_all, with_agent, inserted, with_encodings, build_headers,
}

unfoldable pub or_else : Option Bytes → Option Bytes → Option Bytes
or_else none o = o
or_else (some v) o = some v

-- What one header gives for the name `k`.
unfoldable pub own_value : Option Bytes → Option Bytes → (k : Bytes) → Option Bytes
own_value (some n) (some v) k = if same_text n k then some v else none
own_value _ _ k = none

or_else-none : (o : Option Bytes) → or_else o none ≡ o
unfolding or_else
or_else-none none = refl
or_else-none (some v) = refl

or_else_assoc : (a b c : Option Bytes) → or_else (or_else a b) c ≡ or_else a (or_else b c)
unfolding or_else
or_else_assoc none b c = refl
or_else_assoc (some v) b c = refl

there : (o x : Option Bytes) → is_some o ≡ true → o ≡ or_else o x
unfolding is_some or_else
there none x e = ground arith
there (some v) x e = refl

absent : (o x : Option Bytes) → is_some o ≡ false → x ≡ or_else o x
unfolding is_some or_else
absent none x e = refl
absent (some v) x e = ground arith

module _ (H : HeaderMap) where
  -- The value of the first of the headers with the name `k`.
  unfoldable pub first_of : List Header → (k : Bytes) → Option Bytes
  first_of [] k = none
  first_of (h ∷ hs) k =
      or_else (own_value (H.name_from h.name) (H.value_from h.value) k) (first_of hs k)

  module _ (L : HeaderMapLaws H) where
    append_get :
        (m : H.Headers) (n v k : Bytes)
        → H.get (H.append m n v) k ≡ or_else (H.get m k) (if same_text n k then some v else none)
    unfolding or_else
    append_get m n v k = elim (Option-cases (H.get m k)) [
      | inr (w, e) ↦ rw (L.get_append_kept m n v k w e, e) refl
      | inl e ↦ elim (Bool-cases (same_text n k)) [
        | inr f ↦ rw (L.get_append_other m n v k f, e, f) refl
        | inl f ↦
            let s : n ≡ k = same_text_lem n k f in
            subst
              (λ j.
                H.get (H.append m n v) j
                ≡ or_else (H.get m j) (if same_text n j then some v else none))
              s
              (let e' : H.get m n ≡ none = ap (H.get m) s ∙ e in
                rw (L.get_append_first m n v e', e', same_text_self n) refl)
      ]
    ]

    append_all-Yields :
        (hs : List Header) (m : H.Headers)
        → Yields
            (λ m'. (k : Bytes) → H.get m' k ≡ or_else (H.get m k) (first_of hs k))
            (append_all H hs m)
    unfolding append_all first_of own_value
    append_all-Yields [] m = λ k. sym (or_else-none (H.get m k))
    append_all-Yields (h ∷ hs) m =
        let Q : H.Headers → Type 0 =
          λ m'. (k : Bytes) → H.get m' k ≡ or_else (H.get m k) (first_of (h ∷ hs) k) in
        Yields-bind (λ name. H.name_from h.name ≡ some name) Q _ _
          (ok_or-Yields (H.name_from h.name) _)
          (λ name e.
            Yields-bind (λ value. H.value_from h.value ≡ some value) Q _ _
              (ok_or-Yields (H.value_from h.value) _)
              (λ value f.
                let same : (k : Bytes)
                    → (if same_text name k then some value else none)
                      ≡ own_value (H.name_from h.name) (H.value_from h.value) k =
                  λ k. rw (e, f) refl in
                Yields-map (append_all H hs (H.append m name value))
                  (λ r g k.
                    g k
                    ∙ ap (λ o. or_else o (first_of hs k)) (append_get m name value k)
                    ∙ or_else_assoc (H.get m k) _ (first_of hs k)
                    ∙ ap (λ o. or_else (H.get m k) (or_else o (first_of hs k))) (same k))
                  (append_all-Yields hs (H.append m name value))))

    -- What is added if the caller gives none.
    abbrev AgentFields : GeneralOptions → (m m' : H.Headers) → Type 0
    AgentFields general m m' =
        (H.get m' (ascii "user-agent")
          ≡ or_else (H.get m (ascii "user-agent")) (H.value_from general.user_agent))
        × (H.get m' (ascii "host") ≡ H.get m (ascii "host"))
        × (H.get m' (ascii "accept-encoding") ≡ H.get m (ascii "accept-encoding"))

    with_agent-Yields :
        (general : GeneralOptions) (m : H.Headers)
        → Yields (AgentFields general m) (with_agent H general m)
    unfolding with_agent same_text
    with_agent-Yields general m =
        let ua = ascii "user-agent" in
        let Q = AgentFields general m in
        if-cases (Yields Q) (H.contains_key m ua)
          (λ c. (there (H.get m ua) _ (sym (L.contains_get m ua) ∙ c), refl, refl))
          (λ c.
            Yields-bind (λ value. H.value_from general.user_agent ≡ some value) Q _ _
              (ok_or-Yields (H.value_from general.user_agent) _)
              (λ value e. (
                L.get_insert m ua value
                    ∙ sym e
                    ∙ absent (H.get m ua) _ (sym (L.contains_get m ua) ∙ c),
                L.get_insert_other m ua value (ascii "host") refl,
                L.get_insert_other m ua value (ascii "accept-encoding") refl,
              )))

    -- The same for the encodings.
    abbrev EncodingFields : H.Headers → Option Bytes → H.Headers → Type 0
    EncodingFields m o m' =
        (H.get m' (ascii "accept-encoding") ≡ or_else (H.get m (ascii "accept-encoding")) o)
        × (H.get m' (ascii "host") ≡ H.get m (ascii "host"))
        × (H.get m' (ascii "user-agent") ≡ H.get m (ascii "user-agent"))

    inserted_get :
        (m : H.Headers) (o : Option Bytes)
        → is_some (H.get m (ascii "accept-encoding")) ≡ false
        → EncodingFields m o (inserted H m o)
    unfolding inserted same_text
    inserted_get m none e = (sym (or_else-none (H.get m (ascii "accept-encoding"))), refl, refl)
    inserted_get m (some v) e =
        let ae = ascii "accept-encoding" in
        (
          L.get_insert m ae v ∙ absent (H.get m ae) (some v) e,
          L.get_insert_other m ae v (ascii "host") refl,
          L.get_insert_other m ae v (ascii "user-agent") refl,
        )

    encodings_get :
        (general : GeneralOptions) (m : H.Headers)
        → EncodingFields m (accept_encoding_header general.compression) (with_encodings H general m)
    unfolding with_encodings
    encodings_get general m =
        let ae = ascii "accept-encoding" in
        let o = accept_encoding_header general.compression in
        if-cases (EncodingFields m o) (H.contains_key m ae)
          (λ c. (there (H.get m ae) o (sym (L.contains_get m ae) ∙ c), refl, refl))
          (λ c. inserted_get m o (sym (L.contains_get m ae) ∙ c))

    -- The fields that a request sends, as `get` sees them.
    pub Fields : ParsedUrl → WispHandle → H.Headers → Type 0
    Fields u h m =
        ((v : Bytes) × IsHost u v × (H.get m (ascii "host") ≡ H.value_from v))
        × (H.get m (ascii "user-agent")
            ≡ or_else (first_of h.headers (ascii "user-agent")) (H.value_from h.general.user_agent))
        × ((o : Option Bytes) × Offers h.general.compression o
            × (H.get m (ascii "accept-encoding")
                ≡ or_else (first_of h.headers (ascii "accept-encoding")) o))

    pub build_headers-Yields :
        (u : ParsedUrl) (h : WispHandle) → Yields (Fields u h) (build_headers H u h)
    unfolding build_headers Fields or_else same_text
    build_headers-Yields u h =
        let Q = Fields u h in
        let host = ascii "host" in
        let ua = ascii "user-agent" in
        let ae = ascii "accept-encoding" in
        Yields-bind (λ value. H.value_from (host_value u) ≡ some value) Q _ _
          (ok_or-Yields (H.value_from (host_value u)) _)
          (λ value e.
            let m = H.insert H.new host value in
            let none_at : (k : Bytes) → same_text host k ≡ false → H.get m k ≡ none =
              λ k f. L.get_insert_other H.new host value k f ∙ L.get_new k in
            let G : H.Headers → Type 0 =
              λ m'. (k : Bytes) → H.get m' k ≡ or_else (H.get m k) (first_of h.headers k) in
            Yields-bind G Q (append_all H h.headers m) _ (append_all-Yields h.headers m) (λ given g.
              let here : (k : Bytes)
                  → same_text host k ≡ false
                  → H.get given k ≡ first_of h.headers k =
                λ k f. g k ∙ ap (λ o. or_else o (first_of h.headers k)) (none_at k f) in
              Yields-bind (AgentFields h.general given) Q (with_agent H h.general given) _
                (with_agent-Yields h.general given)
                (λ named a.
                  let en = encodings_get h.general named in
                  (
                    (
                      host_value u,
                      host_value-IsHost u,
                      en.1
                          ∙ a.1
                          ∙ g host
                          ∙ ap (λ o. or_else o (first_of h.headers host))
                              (L.get_insert H.new host value)
                          ∙ sym e,
                    ),
                    en.2
                        ∙ a.0
                        ∙ ap (λ o. or_else o (H.value_from h.general.user_agent)) (here ua refl),
                    (
                      accept_encoding_header h.general.compression,
                      accept_encoding_header-Offers h.general.compression,
                      en.0
                          ∙ ap (λ o. or_else o (accept_encoding_header h.general.compression))
                              (a.2 ∙ here ae refl),
                    ),
                  ))))

    -- A request that is built, as `get` sees its headers: its Host is the host of the URL, with the port
    -- unless it is 80 for http or 443 for https, whatever headers the handle has; its User-Agent is the
    -- first that the handle's headers give, and else that of the options; its Accept-Encoding is the first
    -- that the handle's headers give, and else the one for the compression of the options. The map of
    -- headers obeys the laws of the http crate.
    pub build_headers_outcome :
        (u : ParsedUrl) (h : WispHandle) (m : H.Headers) → build_headers H u h ≡ ok m → Fields u h m
    build_headers_outcome u h m =
        Yields-ok (Fields u h) (build_headers H u h) (build_headers-Yields u h)

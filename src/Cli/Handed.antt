-- ===== src/Cli/Handed.antt =====
-- drift-cli/src/main.rs: what of the flags reaches the handle that performs the request.
use unstable_drift.Prelude.{
  ℕ, ◌≡◌, refl, ap, sym, subst, ◌∙◌, Bool, true, false, Option, none, some, List, [], ◌∷◌, ◌++◌,
  arith,
}
use unstable_drift.Prelude.{
  ok, err, ok_or, if◌then◌else◌, Yields, Yields-ok, Yields-bind, Yields-map, Yields-then,
}
use unstable_drift.Bytes.{Bytes}
use unstable_drift.Bytes.Text.{ascii}
use unstable_drift.Bytes.Search.{contains, trim}
use unstable_drift.Handle.Options.{
  TimeoutOptions, GeneralOptions, automatic, general_default, tls_default, http_default,
}
use unstable_drift.Handle.Settings.{WispHandle, missing_scheme}
use unstable_drift.Client.{
  Setter, unwrap_or, builder, apply_all, build, RequestBuilder, request, header, body_text,
  body_bytes, prepare,
}
use unstable_drift.Client.Prepared.{latest, as_agent, wanted, prepare_outcome}
use unstable_drift.Cli.{Args, bad_header}
use unstable_drift.Cli.Setters.{
  touched, timeouts_for, http_for, tls_for, general_for, agent_or, setters,
}
use unstable_drift.Cli.Proxies.{chain_for}
use unstable_drift.Cli.Run.{split_colon, method_for, add_flag_headers, contents, with_body, run}
use unstable_drift.Cli.Wanted.{
  IsMethod, method_for-IsMethod, IsTls, tls_for-IsTls, IsHttp, http_for-IsHttp, IsAgent,
  agent_or-IsAgent,
}
use unstable_drift.Cli.Leads.{Leads, chain_for-Leads}
use unstable_drift.Cli.Chosen.{
  called, general_of, tls_chosen, http_chosen, general_chosen, agent_chosen, mux_chosen,
  chain_chosen,
}

-- The client, the method and the URL stay what they were.
abbrev Kept : RequestBuilder → RequestBuilder → Type 0
Kept a b = (b.client ≡ a.client) × (b.method ≡ a.method) × (b.url ≡ a.url)

add_flag_headers-Yields :
    (hs : List Bytes) (req : RequestBuilder) → Yields (Kept req) (add_flag_headers hs req)
unfolding add_flag_headers header
add_flag_headers-Yields [] req = (refl, refl, refl)
add_flag_headers-Yields (h ∷ hs) req =
    Yields-then (Kept req) (ok_or (split_colon h) (bad_header h)) _
      (λ parts. add_flag_headers-Yields hs (header (trim parts.0) (trim parts.1) req))

with_body-Yields :
    (read_to_string read : Bytes → Option Bytes) (data_text data_binary json : Option Bytes)
    (req : RequestBuilder)
    → Yields (Kept req) (with_body read_to_string read data_text data_binary json req)
unfolding with_body body_text body_bytes header
with_body-Yields rs rd (some text) b j req =
    Yields-then (Kept req) (contents rs text) _ (λ body. (refl, refl, refl))
with_body-Yields rs rd none (some bytes) j req =
    Yields-then (Kept req) (contents rd bytes) _ (λ body. (refl, refl, refl))
with_body-Yields rs rd none none (some json) req = (refl, refl, refl)
with_body-Yields rs rd none none none req = (refl, refl, refl)

-- What the flags say of the handle `h`.
pub record IsChosen (version : Bytes) (args : Args) (wisp_mux : Option ℕ) (h : WispHandle)
    : Type 0 where
  pub url_given : h.url ≡ some args.url
  pub method_chosen : IsMethod args h.method
  pub tls_options : IsTls args h.tls
  pub http_options : IsHttp args h.http
  pub proxies_used : Leads args h.proxy_chain
  pub mux_used : h.mux ≡ wisp_mux
  pub agent : IsAgent version args h.general.user_agent
  pub verbosity : h.general.verbose ≡ args.verbose
  pub encodings : h.general.compression ≡ automatic

called_for : (version : Bytes) → Args → Option ℕ → TimeoutOptions → List Setter
called_for version args m t =
    called (chain_for args) m args.user_agent (touched args.max_time args.connect_timeout) t
      (http_for args) args.compressed args.verbose
      (general_for version false args.compressed args.user_agent)
      (general_for version true args.compressed args.user_agent) (tls_for args)

-- The request that `run` sends.
Sent : (version : Bytes) → Args → Option ℕ → RequestBuilder → Type 0
Sent version args m req =
    (t : TimeoutOptions) × (req.client
      ≡ build version (apply_all (called_for version args m t) builder))
    × (req.method ≡ method_for args)
    × (req.url ≡ args.url)

run-Sent :
    (rs rd : Bytes → Option Bytes) (version : Bytes) (args : Args) (m : Option ℕ)
    → Yields (Sent version args m) (run rs rd version args m)
unfolding run Sent setters called_for called request
run-Sent rs rd version args m =
    let Q = Sent version args m in
    Yields-bind (λ ss. (t : TimeoutOptions) × (ss ≡ called_for version args m t)) Q
      (setters version args m) _
      (Yields-then (λ ss. (t : TimeoutOptions) × (ss ≡ called_for version args m t))
        (timeouts_for args) _ (λ t. (t, refl)))
      (λ ss c.
        let start = request (build version (apply_all ss builder)) (method_for args) args.url in
        Yields-bind (Kept start) Q (add_flag_headers args.headers start) _
          (add_flag_headers-Yields args.headers start)
          (λ req k.
            Yields-map (with_body rs rd args.data_text args.data_binary args.json req)
              (λ r l. (
                c.0,
                l.0 ∙ k.0 ∙ ap (λ ss. build version (apply_all ss builder)) c.1,
                l.1 ∙ k.1,
                l.2 ∙ k.2,
              ))
              (with_body-Yields rs rd args.data_text args.data_binary args.json req)))

-- The general options that the handle gets.
abbrev general_got : (version : Bytes) → (compressed verbose : Bool) → Option Bytes → GeneralOptions
general_got version compressed verbose ua =
    let general =
      unwrap_or
        (general_of compressed verbose (general_for version false compressed ua)
          (general_for version true compressed ua))
        (general_default version) in
    record general { user_agent = unwrap_or ua general.user_agent }

general_lem :
    (version : Bytes) (compressed verbose : Bool) (ua : Option Bytes)
    → let general = general_got version compressed verbose ua in
      (general.user_agent ≡ agent_or ua (ascii "drift/" ++ version))
      × (general.verbose ≡ verbose)
      × (general.compression ≡ automatic)
unfolding general_for general_default agent_or
general_lem version true true none = (refl, refl, refl)
general_lem version true true (some ua) = (refl, refl, refl)
general_lem version true false none = (refl, refl, refl)
general_lem version true false (some ua) = (refl, refl, refl)
general_lem version false true none = (refl, refl, refl)
general_lem version false true (some ua) = (refl, refl, refl)
general_lem version false false none = (refl, refl, refl)
general_lem version false false (some ua) = (refl, refl, refl)

-- The handle for the setters that are called.
wanted-IsChosen :
    (version : Bytes) (args : Args) (m : Option ℕ) (t : TimeoutOptions) (req : RequestBuilder)
    → req.method ≡ method_for args
    → req.url ≡ args.url
    → IsChosen version args m
        (wanted version (called_for version args m t) req.method req.url req.headers req.body)
unfolding wanted called_for
wanted-IsChosen version args m t req method url =
    let lem = general_lem version args.compressed args.verbose args.user_agent in
    let same : (wanted version (called_for version args m t) req.method req.url req.headers
          req.body).general
        ≡ general_got version args.compressed args.verbose args.user_agent =
      ap
        (λ o.
          let general = unwrap_or o (general_default version) in
          record general {
            user_agent =
                unwrap_or (latest as_agent (called_for version args m t) none) general.user_agent;
          })
        (general_chosen _ _ _ _ _ _ _ _ _ _ _)
      ∙ ap
          (λ u. record (general_got version args.compressed args.verbose args.user_agent) {
            user_agent =
                unwrap_or u
                  (unwrap_or
                    (general_of args.compressed args.verbose
                      (general_for version false args.compressed args.user_agent)
                      (general_for version true args.compressed args.user_agent))
                    (general_default version)).user_agent;
          })
          (agent_chosen _ _ _ _ _ _ _ _ _ _ _) in
    record {
      url_given = ap some url;
      method_chosen = subst (IsMethod args) (sym method) (method_for-IsMethod args);
      tls_options =
          subst (IsTls args)
            (sym (ap (λ o. unwrap_or o tls_default) (tls_chosen _ _ _ _ _ _ _ _ _ _ _)))
            (tls_for-IsTls args);
      http_options =
          subst (IsHttp args)
            (sym (ap (λ o. unwrap_or o http_default) (http_chosen _ _ _ _ _ _ _ _ _ _ _)))
            (http_for-IsHttp args);
      proxies_used =
          subst (Leads args) (sym (chain_chosen _ _ _ _ _ _ _ _ _ _ _)) (chain_for-Leads args);
      mux_used = mux_chosen _ _ _ _ _ _ _ _ _ _ _;
      agent =
          subst (IsAgent version args) (sym (ap (λ g. g.user_agent) same ∙ lem.0))
            (agent_or-IsAgent version args);
      verbosity = ap (λ g. g.verbose) same ∙ lem.1;
      encodings = ap (λ g. g.compression) same ∙ lem.2;
    }

-- The handle that the request of the flags is performed with, if its URL has a scheme. Its URL is the one
-- given, its method the one given, or HEAD for `--head`, POST for data, else GET. TLS verifies peer and
-- host unless `--insecure`, has the files given, and is 1.2 only for `--tlsv1.2`, else 1.3 only for
-- `--tlsv1.3`, else either; HTTP is 1.1 for `--http1.1`, else 2 for `--http2`, else either, and
-- redirects are those of the flags. It has the mux of the wisp server. With `--wisp` it has no proxies;
-- else that of `--socks5`, as SOCKS5, that of `--socks5-hostname`, as SOCKS4a, and those of `--proxy`,
-- in order, an address or a URL that cannot be read being passed over. The user agent is the one given,
-- or the default, whichever of the flags that set the general options are there too; and encodings are
-- offered with or without `--compressed`.
pub run_outcome :
    (read_to_string read : Bytes → Option Bytes) (version : Bytes) (args : Args)
    (wisp_mux : Option ℕ) (req : RequestBuilder) (h : WispHandle)
    → run read_to_string read version args wisp_mux ≡ ok req
    → prepare version req ≡ ok h
    → IsChosen version args wisp_mux h
unfolding Sent
run_outcome rs rd version args m req h e p =
    let (t, client, method, url) =
      Yields-ok (Sent version args m) (run rs rd version args m) (run-Sent rs rd version args m)
        e in
    let ss = called_for version args m t in
    let w = wanted version ss req.method req.url req.headers req.body in
    let q : (if contains (ascii "://") req.url then ok w else err missing_scheme) ≡ ok h =
      sym (prepare_outcome version ss req.method req.url req.headers req.body)
      ∙ ap (λ c. prepare version (record req { client = c })) (sym client)
      ∙ p in
    subst (IsChosen version args m) (taken (contains (ascii "://") req.url) w h q)
      (wanted-IsChosen version args m t req method url)
  where
    taken : (b : Bool) (w h : WispHandle) → (if b then ok w else err missing_scheme) ≡ ok h → w ≡ h
    taken true w h q = ground arith
    taken false w h q = ground arith

-- ===== src/Cli/Leads.antt =====
-- drift-cli/src/flags.rs: what the flags ask for of the proxies, as a relation, and that main.rs gives it.
-- `split_once`, `rsplit_once` and the parsing of a u16 are the standard library's.
use unstable_drift.Prelude.{
  ◌≡◌, refl, ap, sym, ◌∙◌, true, Option, none, some, List, [], ◌∷◌, ◌++◌, arith,
}
use unstable_drift.Prelude.{◌||◌, if-cases, Bool-cases, Option-cases, inl, inr}
use unstable_drift.Bytes.{Bytes}
use unstable_drift.Bytes.Text.{ascii, parse_u16}
use unstable_drift.Bytes.Search.{same_text, same_text_lem}
use unstable_drift.Proxy.Chain.{Proxy, ProxyKind, socks4, socks4a, socks5, http_connect}
use unstable_drift.Handle.{split_scheme, rsplit_colon}
use unstable_drift.Cli.{Args}
use unstable_drift.Cli.Proxies.{
  hop, hop_at, kind_of, parse_proxy_url, pushed, proxies, shortcut, build_proxy_chain, chain_for,
}

-- A proxy at "host:port", the port being behind the last colon.
pub record IsHop (kind : ProxyKind) (address : Bytes) (p : Proxy) : Type 0 where
  pub port_text : Bytes
  pub cut : rsplit_colon address ≡ some (p.host, port_text)
  pub port_read : parse_u16 port_text ≡ some p.port
  pub same_kind : p.kind ≡ kind
  pub no_auth : p.auth ≡ none

pub data IsKind (scheme : Bytes) : ProxyKind → Type 0 where
  by_socks5 : scheme ≡ ascii "socks5" → IsKind scheme socks5
  by_socks4 : scheme ≡ ascii "socks4" → IsKind scheme socks4
  by_socks4a : scheme ≡ ascii "socks4a" → IsKind scheme socks4a
  by_socks5h : scheme ≡ ascii "socks5h" → IsKind scheme socks4a
  by_http : scheme ≡ ascii "http" → IsKind scheme http_connect

-- The proxy of a URL.
pub record IsProxy (raw : Bytes) (p : Proxy) : Type 0 where
  pub scheme : Bytes
  pub rest : Bytes
  pub cut : split_scheme raw ≡ some (scheme, rest)
  pub kind : ProxyKind
  pub of_scheme : IsKind scheme kind
  pub at : IsHop kind rest p

-- One proxy of this kind, or none if there is none.
pub data Taken (P : Proxy → Type 0) : List Proxy → Type 0 where
  one : (p : Proxy) → P p → Taken P (p ∷ [])
  passed_over : ((p : Proxy) → ¬ P p) → Taken P []

pub data OfFlag (kind : ProxyKind) : Option Bytes → List Proxy → Type 0 where
  not_given : OfFlag kind none []
  at_address :
      {address : Bytes} {ps : List Proxy}
      → Taken (IsHop kind address) ps
      → OfFlag kind (some address) ps

pub data OfUrls : List Bytes → List Proxy → Type 0 where
  no_more : OfUrls [] []
  further :
      {raw : Bytes} {raws : List Bytes} {ps qs : List Proxy}
      → Taken (IsProxy raw) ps
      → OfUrls raws qs
      → OfUrls (raw ∷ raws) (ps ++ qs)

-- The proxies: none with a wisp server; else the one of `--socks5`, that of `--socks5-hostname`, and those
-- of `--proxy` in order.
pub data Leads (args : Args) : List Proxy → Type 0 where
  through_wisp : (url : Bytes) → args.wisp ≡ some url → Leads args []
  directly :
      {a b c : List Proxy}
      → args.wisp ≡ none
      → OfFlag socks5 args.socks5 a
      → OfFlag socks4a args.socks5_hostname b
      → OfUrls args.proxy c
      → Leads args (a ++ (b ++ c))

nothing_there : {A B : Type 0} {a : A} → Option.none ≡ some a → B
nothing_there e = ground arith

same_pair :
    {a b c d : Bytes}
    → ◌≡◌ {A = Option (Bytes × Bytes)} (some (a, b)) (some (c, d))
    → (a ≡ c) × (b ≡ d)
same_pair {a} {b} {c} {d} e = (ap (λ o. (front o).0) e, ap (λ o. (front o).1) e)
  where
    front : Option (Bytes × Bytes) → Bytes × Bytes
    front none = (a, b)
    front (some p) = p

same_known : {k k' : ProxyKind} → some k ≡ some k' → k ≡ k'
same_known e = ground arith

hop_at-Taken :
    (kind : ProxyKind) (address : Bytes)
    → Taken (IsHop kind address) (pushed (hop_at kind (rsplit_colon address)))
unfolding hop_at pushed hop
hop_at-Taken kind address = elim (Option-cases (rsplit_colon address)) [
  | inl e ↦ rw e (passed_over (λ p h. nothing_there (sym e ∙ h.cut)))
  | inr ((host, port), e) ↦ elim (Option-cases (parse_u16 port)) [
    | inl f ↦
        rw (e, f)
          (passed_over (λ p h.
            let same = same_pair (sym e ∙ h.cut) in
            nothing_there (sym f ∙ ap parse_u16 same.1 ∙ h.port_read)))
    | inr (n, f) ↦
        rw (e, f)
          (one (record { kind = kind; host = host; port = n; auth = none })
            (record { port_text = port; cut = e; port_read = f; same_kind = refl; no_auth = refl }))
  ]
]

kind_of_complete : (scheme : Bytes) (k : ProxyKind) → IsKind scheme k → kind_of scheme ≡ some k
unfolding kind_of same_text
kind_of_complete scheme socks5 (by_socks5 e) = rw e refl
kind_of_complete scheme socks4 (by_socks4 e) = rw e refl
kind_of_complete scheme socks4a (by_socks4a e) = rw e refl
kind_of_complete scheme socks4a (by_socks5h e) = rw e refl
kind_of_complete scheme http_connect (by_http e) = rw e refl

-- Whatever kind is found.
abbrev Finds : Bytes → Option ProxyKind → Type 0
Finds scheme o = (k : ProxyKind) → o ≡ some k → IsKind scheme k

kind_of_sound : (scheme : Bytes) → Finds scheme (kind_of scheme)
unfolding kind_of
kind_of_sound scheme =
    let Q = Finds scheme in
    let s = same_text scheme in
    if-cases Q (s (ascii "socks5"))
      (λ h k e. told socks5 k (by_socks5 (same_text_lem scheme _ h)) e)
      (λ _.
        if-cases Q (s (ascii "socks4"))
          (λ h k e. told socks4 k (by_socks4 (same_text_lem scheme _ h)) e)
          (λ _.
            if-cases Q (s (ascii "socks4a") || s (ascii "socks5h"))
              (λ h k e. told socks4a k (by_name h) e)
              (λ _.
                if-cases Q (s (ascii "http"))
                  (λ h k e. told http_connect k (by_http (same_text_lem scheme _ h)) e)
                  (λ _ k e. ground arith))))
  where
    told : (k k' : ProxyKind) → IsKind scheme k → some k ≡ some k' → IsKind scheme k'
    told k k' i e = rw (sym (same_known e)) i

    by_name :
        (same_text scheme (ascii "socks4a") || same_text scheme (ascii "socks5h")) ≡ true
        → IsKind scheme socks4a
    by_name h = elim (Bool-cases (same_text scheme (ascii "socks4a"))) [
      | inl e ↦ by_socks4a (same_text_lem scheme _ e)
      | inr e ↦
          by_socks5h
            (same_text_lem scheme _ (sym (ap (λ x. x || same_text scheme (ascii "socks5h")) e) ∙ h))
    ]

parse_proxy_url-Taken : (raw : Bytes) → Taken (IsProxy raw) (pushed (parse_proxy_url raw))
unfolding parse_proxy_url pushed
parse_proxy_url-Taken raw = elim (Option-cases (split_scheme raw)) [
  | inl e ↦ rw e (passed_over (λ p h. nothing_there (sym e ∙ h.cut)))
  | inr ((scheme, rest), e) ↦ elim (Option-cases (kind_of scheme)) [
    | inl k ↦
        rw (e, k)
          (passed_over (λ p h.
            let same = same_pair (sym e ∙ h.cut) in
            nothing_there
              (sym k ∙ ap kind_of same.0 ∙ kind_of_complete h.scheme h.kind h.of_scheme)))
    | inr (kind, k) ↦
        rw (e, k)
          (with_hop scheme rest kind e k (pushed (hop_at kind (rsplit_colon rest)))
            (hop_at-Taken kind rest))
  ]
]
  where
    with_hop :
        (scheme rest : Bytes) (kind : ProxyKind)
        → split_scheme raw ≡ some (scheme, rest)
        → kind_of scheme ≡ some kind
        → (ps : List Proxy) → Taken (IsHop kind rest) ps
        → Taken (IsProxy raw) ps
    with_hop scheme rest kind e k _ (one p h) = one p (record {
      scheme = scheme;
      rest = rest;
      cut = e;
      kind = kind;
      of_scheme = kind_of_sound scheme kind k;
      at = h;
    })
    with_hop scheme rest kind e k _ (passed_over none_at) = passed_over (λ p h.
        let same = same_pair (sym e ∙ h.cut) in
        let q : kind ≡ h.kind =
          same_known (sym k ∙ ap kind_of same.0 ∙ kind_of_complete h.scheme h.kind h.of_scheme) in
        none_at p (rw (q, same.1) h.at))

proxies-OfUrls : (raws : List Bytes) → OfUrls raws (proxies raws)
unfolding proxies
proxies-OfUrls [] = no_more
proxies-OfUrls (raw ∷ raws) = further (parse_proxy_url-Taken raw) (proxies-OfUrls raws)

shortcut-OfFlag : (kind : ProxyKind) (o : Option Bytes) → OfFlag kind o (shortcut kind o)
unfolding shortcut
shortcut-OfFlag kind none = not_given
shortcut-OfFlag kind (some address) = at_address (hop_at-Taken kind address)

pub chain_for-Leads : (args : Args) → Leads args (chain_for args)
unfolding chain_for build_proxy_chain
chain_for-Leads args = by_wisp args.wisp refl
  where
    by_wisp : (o : Option Bytes) → args.wisp ≡ o → Leads args (chain_for (record args { wisp = o }))
    by_wisp none e =
        directly e (shortcut-OfFlag socks5 args.socks5)
          (shortcut-OfFlag socks4a args.socks5_hostname) (proxies-OfUrls args.proxy)
    by_wisp (some url) e = through_wisp url e

-- ===== src/Tls/Config.antt =====
-- tls.rs: what a configuration is when `build_client_config` gives one.
use unstable_drift.Prelude.{
  ◌≡◌, ◌≢◌, refl, ap, sym, ◌∙◌, Bool, true, false, ◌&&◌, Option, none, some, List, [], ◌∷◌, ◌++◌,
  append_assoc, append-nil, arith,
}
use unstable_drift.Prelude.{
  ok, err, ok_or, ◌>>=◌, if◌then◌else◌, if-both, if-cases, Yields, Yields-bind, Yields-map,
  Yields-ok,
}
use unstable_drift.Bytes.{Bytes}
use unstable_drift.Handle.Options.{TlsVersion, v1_2, v1_3, TlsOptions}
use unstable_drift.Tls.Pem.{split_pem_certs}
use unstable_drift.Tls.{
  TlsError, peer_unverified, ClientConfig, rank, at_most, allowed_versions, user_bytes, add_all,
  counted, store_of, build_root_store, configured, build_client_config,
}

-- Is a version among some?
pub has : TlsVersion → List TlsVersion → Bool
has v [] = false
has v1_2 (v1_2 ∷ vs) = true
has v1_2 (v1_3 ∷ vs) = has v1_2 vs
has v1_3 (v1_2 ∷ vs) = has v1_3 vs
has v1_3 (v1_3 ∷ vs) = true

has-allowed_versions :
    (min max v : TlsVersion) → has v (allowed_versions min max) ≡ (at_most min v && at_most v max)
unfolding has allowed_versions rank
has-allowed_versions v1_2 v1_2 v1_2 = refl
has-allowed_versions v1_2 v1_2 v1_3 = refl
has-allowed_versions v1_2 v1_3 v1_2 = refl
has-allowed_versions v1_2 v1_3 v1_3 = refl
has-allowed_versions v1_3 v1_2 v1_2 = refl
has-allowed_versions v1_3 v1_2 v1_3 = refl
has-allowed_versions v1_3 v1_3 v1_2 = refl
has-allowed_versions v1_3 v1_3 v1_3 = refl

module _ (read : Bytes → Option Bytes) (accepts : Bytes → Bool) (webpki_roots : List Bytes) where
  -- The bundle that the options name: the bytes themselves come before a path.
  pub data Bundled : (data_bytes path : Option Bytes) → Option Bytes → Type 0 where
    given : {bytes : Bytes} {path : Option Bytes} → Bundled (some bytes) path (some bytes)
    from_file :
        {path bytes : Bytes} → read path ≡ some bytes → Bundled none (some path) (some bytes)
    built_in : Bundled none none none

  -- Where the trust anchors come from.
  pub data IsTrusted : Option Bytes → List Bytes → Type 0 where
    by_bundle :
        {bytes : Bytes} {roots : List Bytes}
        → roots ≡ split_pem_certs bytes
        → roots ≢ []
        → IsTrusted (some bytes) roots
    by_default : {roots : List Bytes} → roots ≡ webpki_roots → IsTrusted none roots

  pub record IsConfig (opts : TlsOptions) (c : ClientConfig) : Type 0 where
    pub peer_verified : opts.verify_peer ≡ true
    pub bundle : Option Bytes
    pub bundle_named : Bundled opts.ca_bundle_data opts.ca_bundle_path bundle
    pub anchors : IsTrusted bundle c.roots
    pub in_range :
        (v : TlsVersion)
        → has v c.versions ≡ (at_most opts.min_version v && at_most v opts.max_version)
    pub some_version : c.versions ≢ []
    pub protocols : c.alpn_protocols ≡ opts.alpn

  user_bytes-Bundled :
      (d p : Option Bytes) → Yields (Bundled d p) (user_bytes read accepts webpki_roots d p)
  unfolding user_bytes
  user_bytes-Bundled (some bytes) path = given
  user_bytes-Bundled none (some path) = found (read path) refl
    where
      found :
          (r : Option Bytes)
          → read path ≡ r
          → Yields
              (Bundled none (some path))
              (do bytes ← ok_or r (TlsError.unreadable path); ok (some bytes))
      found none e = tt
      found (some bytes) e = from_file e
  user_bytes-Bundled none none = built_in

  add_all-Yields :
      (certs store : List Bytes)
      → Yields (λ roots. roots ≡ store ++ certs) (add_all read accepts webpki_roots store certs)
  unfolding add_all
  add_all-Yields [] store = sym (append-nil store)
  add_all-Yields (cert ∷ certs) store =
      if-both (Yields (λ roots. roots ≡ store ++ cert ∷ certs)) (accepts cert)
        (Yields-map (add_all read accepts webpki_roots (store ++ cert ∷ []) certs)
          (λ roots e. e ∙ append_assoc store (cert ∷ []) certs)
          (add_all-Yields certs (store ++ cert ∷ [])))
        tt

  counted-Yields :
      (certs : List Bytes)
      → Yields (λ roots. (roots ≡ certs) × (roots ≢ [])) (counted read accepts webpki_roots certs)
  unfolding counted
  counted-Yields [] = tt
  counted-Yields (cert ∷ certs) =
      Yields-map (add_all read accepts webpki_roots [] (cert ∷ certs))
        (λ roots e. (e, λ q. filled roots e q)) (add_all-Yields (cert ∷ certs) [])
    where
      filled : (roots : List Bytes) → roots ≡ cert ∷ certs → roots ≢ []
      filled [] e q = ground arith
      filled (r ∷ rs) e q = ground arith

  store_of-IsTrusted :
      (b : Option Bytes) → Yields (IsTrusted b) (store_of read accepts webpki_roots b)
  unfolding store_of
  store_of-IsTrusted none = by_default refl
  store_of-IsTrusted (some bytes) =
      Yields-map (counted read accepts webpki_roots (split_pem_certs bytes))
        (λ roots e. by_bundle e.0 e.1) (counted-Yields (split_pem_certs bytes))

  -- The trust anchors that the options ask for.
  Anchored : TlsOptions → List Bytes → Type 0
  Anchored opts roots =
      (b : Option Bytes) × Bundled opts.ca_bundle_data opts.ca_bundle_path b × IsTrusted b roots

  build_root_store-Anchored :
      (opts : TlsOptions) → Yields (Anchored opts) (build_root_store read accepts webpki_roots opts)
  unfolding build_root_store Anchored
  build_root_store-Anchored opts =
      Yields-bind (Bundled opts.ca_bundle_data opts.ca_bundle_path) (Anchored opts)
        (user_bytes read accepts webpki_roots opts.ca_bundle_data opts.ca_bundle_path)
        (store_of read accepts webpki_roots)
        (user_bytes-Bundled opts.ca_bundle_data opts.ca_bundle_path)
        (λ b n.
          Yields-map (store_of read accepts webpki_roots b) (λ roots t. (b, n, t))
            (store_of-IsTrusted b))

  configured-IsConfig :
      (opts : TlsOptions) (roots : List Bytes) (vs : List TlsVersion)
      → opts.verify_peer ≡ true
      → vs ≡ allowed_versions opts.min_version opts.max_version
      → Anchored opts roots
      → Yields (IsConfig opts) (configured read accepts webpki_roots roots opts.alpn vs)
  unfolding configured Anchored
  configured-IsConfig opts roots [] p e a = tt
  configured-IsConfig opts roots (v ∷ vs) p e (b, n, t) = record {
    peer_verified = p;
    bundle = b;
    bundle_named = n;
    anchors = t;
    in_range = λ x. ap (has x) e ∙ has-allowed_versions opts.min_version opts.max_version x;
    some_version = λ q. ground arith;
    protocols = refl;
  }

  -- A configuration that is built verifies the peer; its versions are those between the lowest and the
  -- highest of the options, and there is one; its trust anchors are the certificates of the bundle that
  -- the options name, at least one, or those of webpki_roots if they name none; and it offers the
  -- protocols of the options.
  pub build_client_config-IsConfig :
      (opts : TlsOptions) (c : ClientConfig)
      → build_client_config read accepts webpki_roots opts ≡ ok c
      → IsConfig opts c
  unfolding build_client_config
  build_client_config-IsConfig opts c e =
      let built = (do
        roots ← build_root_store read accepts webpki_roots opts
        configured read accepts webpki_roots roots opts.alpn
            (allowed_versions opts.min_version opts.max_version)) in
      Yields-ok (IsConfig opts) (if opts.verify_peer then built else err peer_unverified)
        (if-cases (Yields (IsConfig opts)) opts.verify_peer
          (λ p.
            Yields-bind (Anchored opts) (IsConfig opts)
              (build_root_store read accepts webpki_roots opts) _ (build_root_store-Anchored opts)
              (λ roots a. configured-IsConfig opts roots _ p refl a))
          (λ p. tt))
        e

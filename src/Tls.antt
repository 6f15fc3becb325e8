-- ===== src/Tls.antt =====
-- drift-core/src/tls.rs: from the options to the configuration of rustls. Reading a file, the trust
-- anchors of webpki_roots and what `RootCertStore::add` takes are arguments.
pub mod Base64
pub mod Pem
pub mod Config
mod Examples
use unstable_drift.Prelude.{ℕ, Bool, true, false, ◌&&◌, Option, none, some, List, [], ◌∷◌, ◌++◌}
use unstable_drift.Prelude.{Result, ok, err, ok_or, ◌>>=◌, leb, if◌then◌else◌}
use unstable_drift.Bytes.{Bytes}
use unstable_drift.Handle.Options.{TlsVersion, v1_2, v1_3, TlsOptions}
use unstable_drift.Tls.Pem.{split_pem_certs}

-- What `Error::Config` says.
pub data TlsError : Type 0 where
  peer_unverified : TlsError
  unreadable : Bytes → TlsError
  rejected : Bytes → TlsError
  no_certificate : TlsError
  no_version : TlsError

-- The parts of a `ClientConfig` that are set.
pub record ClientConfig : Type 0 where
  pub roots : List Bytes
  pub versions : List TlsVersion
  pub alpn_protocols : List Bytes

unfoldable pub rank : TlsVersion → ℕ
rank v1_2 = 12
rank v1_3 = 13

-- The order of the versions.
abbrev pub at_most : TlsVersion → TlsVersion → Bool
at_most a b = leb (rank a) (rank b)

unfoldable pub allowed_versions : (min max : TlsVersion) → List TlsVersion
allowed_versions min max =
    (if at_most min v1_2 && at_most v1_2 max then v1_2 ∷ [] else [])
    ++ (if at_most min v1_3 && at_most v1_3 max then v1_3 ∷ [] else [])

module _ (read : Bytes → Option Bytes) (accepts : Bytes → Bool) (webpki_roots : List Bytes) where
  unfoldable pub user_bytes :
      (ca_bundle_data ca_bundle_path : Option Bytes) → Result TlsError (Option Bytes)
  user_bytes (some bytes) path = ok (some bytes)
  user_bytes none (some path) = do bytes ← ok_or (read path) (unreadable path); ok (some bytes)
  user_bytes none none = ok none

  unfoldable pub add_all : (store certs : List Bytes) → Result TlsError (List Bytes)
  add_all store [] = ok store
  add_all store (cert ∷ certs) =
      let rest = add_all (store ++ cert ∷ []) certs in
      if accepts cert then rest else err (rejected cert)

  -- No certificate has been counted when there is none to add.
  unfoldable pub counted : List Bytes → Result TlsError (List Bytes)
  counted [] = err no_certificate
  counted (cert ∷ certs) = add_all [] (cert ∷ certs)

  unfoldable pub store_of : Option Bytes → Result TlsError (List Bytes)
  store_of none = ok webpki_roots
  store_of (some bytes) = counted (split_pem_certs bytes)

  unfoldable pub build_root_store : TlsOptions → Result TlsError (List Bytes)
  build_root_store opts = do
    bytes ← user_bytes opts.ca_bundle_data opts.ca_bundle_path
    store_of bytes

  unfoldable pub configured :
      List Bytes → (alpn : List Bytes) → List TlsVersion → Result TlsError ClientConfig
  configured roots alpn [] = err no_version
  configured roots alpn (v ∷ vs) =
      ok (record { roots = roots; versions = v ∷ vs; alpn_protocols = alpn })

  unfoldable pub build_client_config : TlsOptions → Result TlsError ClientConfig
  build_client_config opts =
      let built = (do
        roots ← build_root_store opts
        configured roots opts.alpn (allowed_versions opts.min_version opts.max_version)) in
      if opts.verify_peer then built else err peer_unverified

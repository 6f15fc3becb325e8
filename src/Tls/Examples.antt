-- ===== src/Tls/Examples.antt =====
-- A bundle of two certificates, one of them over two lines, and configurations.
use unstable_drift.Prelude.{
  ◌≡◌, refl, Bool, true, false, Option, none, List, [], ◌∷◌, map, All, arith,
}
use unstable_drift.Prelude.{ok, err}
use unstable_drift.Bytes.{Bytes}
use unstable_drift.Bytes.Text.{ascii}
use unstable_drift.Handle.Options.{tls_default, v1_2, v1_3}
use unstable_drift.Tls.{ClientConfig, peer_unverified, no_certificate, build_client_config}
use unstable_drift.Tls.Base64.{base64_decode, base64, base64_decode-base64}
use unstable_drift.Tls.Pem.{split_pem_certs}
use unstable_drift.Tls.Pem.Bundle.{Block, IsBlock, bundle, split_pem_certs-bundle}
use unstable_drift.Tls.Config.{IsConfig, build_client_config-IsConfig}

encoded : base64 (ascii "Man!") ≡ ascii "TWFuIQ=="
unfolding base64 unstable_drift.Tls.Base64.letter
encoded = refl

abbrev blocks : List Block
blocks = (ascii "TW" ∷ (ascii "Fu" ∷ []), ascii "Man") ∷ ((ascii "IQ==" ∷ []), ascii "!") ∷ []

blocks-IsBlock : All IsBlock blocks
unfolding IsBlock base64 unstable_drift.Tls.Base64.letter
blocks-IsBlock = ((refl, omega arith), ((refl, omega arith), tt))

split_pem_certs-bundle_example : split_pem_certs (bundle blocks) ≡ map (λ (b : Block). b.1) blocks
split_pem_certs-bundle_example = split_pem_certs-bundle blocks blocks-IsBlock

abbrev no_file : Bytes → Option Bytes
no_file path = none

abbrev anything : Bytes → Bool
anything cert = true

abbrev anchors : List Bytes
anchors = (1 ∷ []) ∷ []

abbrev config : ClientConfig
config = record { roots = anchors; versions = v1_2 ∷ (v1_3 ∷ []); alpn_protocols = [] }

built : build_client_config no_file anything anchors tls_default ≡ ok config
unfolding build_client_config tls_default unstable_drift.Tls.build_root_store
    unstable_drift.Tls.user_bytes unstable_drift.Tls.store_of unstable_drift.Tls.configured
    unstable_drift.Tls.allowed_versions unstable_drift.Tls.rank
built = refl

build_client_config-IsConfig_example : IsConfig no_file anything anchors tls_default config
build_client_config-IsConfig_example =
    build_client_config-IsConfig no_file anything anchors tls_default config built

-- Without verification there is no configuration.
insecure :
    build_client_config no_file anything anchors (record tls_default { verify_peer = false })
    ≡ err peer_unverified
unfolding build_client_config tls_default
insecure = refl

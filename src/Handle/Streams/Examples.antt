-- ===== src/Handle/Streams/Examples.antt =====
-- A handle that requests `https://a.b:8443/x/y` through a proxy, and twice over a connection that is kept.
use unstable_drift.Prelude.{ℕ, ◌+◌, ◌≡◌, refl, true, false, none, some, List, [], ◌∷◌, All, arith}
use unstable_drift.Prelude.{ok}
use unstable_drift.Bytes.{Bytes}
use unstable_drift.Bytes.Text.{ascii}
use unstable_drift.Proxy.Chain.{Proxy, socks5}
use unstable_drift.Pool
use unstable_drift.Handle.{ParsedUrl, https, parse_url}
use unstable_drift.Handle.Settings.{get}
use unstable_drift.Handle.Perform
use unstable_drift.Handle.Perform.{Reply}
use unstable_drift.Handle.Streams.{World, reuses, handshakes, perform}
use unstable_drift.Handle.Streams.Routed.{IsRouted, IsSecured, perform-IsRouted, perform-IsSecured}
use unstable_drift.Handle.Streams.Reused.{tls_over_tls}

abbrev place : ParsedUrl
place = record { scheme = https; host = ascii "a.b"; port = 8443; path = ascii "/x/y" }

abbrev address : Bytes
address = ascii "https://a.b:8443/x/y"

place_read : parse_url address ≡ ok place
unfolding parse_url unstable_drift.Handle.split_scheme unstable_drift.Handle.prepend
    unstable_drift.Handle.scheme_of unstable_drift.Handle.host_port
    unstable_drift.Handle.rsplit_colon unstable_drift.Handle.authority_of
    unstable_drift.Handle.or_here unstable_drift.Bytes.Text.parse_u16
    unstable_drift.Bytes.Text.u16_digits unstable_drift.Handle.checked unstable_drift.Handle.path_of
place_read = refl

abbrev kept : Reply
kept = record { status = 200; location = none; keep_alive = true }

-- The raw stream is 1 and the TLS stream 2, and the request takes a second from the time given.
abbrev world : ℕ → World
world now = record {
  opened = λ k. ok 7;
  connected = λ k. ok 1;
  tunnelled = λ k. ok tt;
  secured = λ k. ok 2;
  answered = λ k. ok kept;
  starts_at = λ k. now;
  ends_at = λ k. now + 1000000000;
}

abbrev proxy : Proxy
proxy = record { kind = socks5; host = ascii "p"; port = 1080; auth = none }

perform-IsRouted_example :
    All
      (IsRouted none (proxy ∷ []))
      (perform none (proxy ∷ []) (world 5) true 3 (some address) get (some Pool.new)).2
perform-IsRouted_example =
    perform-IsRouted none (proxy ∷ []) (world 5) true 3 (some address) get (some Pool.new)

perform-IsSecured_example :
    All (IsSecured (world 5)) (perform none [] (world 5) true 3 (some address) get none).2
perform-IsSecured_example = perform-IsSecured none [] (world 5) true 3 (some address) get none

tls_over_tls_example :
    let first = perform none [] (world 5) false 0 (some address) get (some Pool.new) in
    let second = perform none [] (world 2000000000) false 0 (some address) get first.1 in
    (rest : List _) × (second.2 ≡ reuses 2 (ascii "a.b") 8443 ∷ (handshakes 2 (ascii "a.b") ∷ rest))
tls_over_tls_example =
    tls_over_tls (world 5) (world 2000000000) address place get 1 2 kept place_read refl refl refl
      refl refl (omega arith)

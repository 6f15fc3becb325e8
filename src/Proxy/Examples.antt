-- ===== src/Proxy/Examples.antt =====
-- The negotiations with a server that grants them.
use unstable_drift.Prelude.{◌≡◌, ◌<◌, refl, some, [], ◌∷◌, ◌++◌, length, ok, arith}
use unstable_drift.Bytes.{Bytes}
use unstable_drift.Proxy.{ProxyAuth, user_password}
use unstable_drift.Proxy.Link.{Link, Exchange, at}
use unstable_drift.Proxy.Socks5.{
  greet, negotiate_socks5, IsBound, IsGrant, granted, domain, IsChoice, with_user_pass, credentials,
}
use unstable_drift.Proxy.Socks5.Sound.{negotiate_socks5_sound}
use unstable_drift.Proxy.Socks5.Complete.{negotiate_socks5_complete, short}
use unstable_drift.Proxy.Socks4.{Socks4Variant, v4, v4a, dst_ip, negotiate_socks4, serve, named}
use unstable_drift.Proxy.Socks4.Outcome.{IsRequest, negotiate_socks4_sound}

abbrev host : Bytes
host = b'a' ∷ b'.' ∷ b'b' ∷ []

abbrev ann : ProxyAuth
ann = user_password (b'a' ∷ b'n' ∷ []) (b'p' ∷ [])

-- A method with credentials, a grant bound to the name "x" at port 80, and two bytes of the tunnel.
abbrev link : Link
link = record {
  incoming = 5 ∷ 2 ∷ 1 ∷ 0 ∷ 5 ∷ 0 ∷ 0 ∷ 3 ∷ 1 ∷ b'x' ∷ 0 ∷ 80 ∷ 7 ∷ 8 ∷ [];
  outgoing = [];
  writable = 3;
}

abbrev tunnel : Link
tunnel = record {
  incoming = 7 ∷ 8 ∷ [];
  outgoing =
      (5 ∷ 2 ∷ 0 ∷ 2 ∷ [])
      ++ ((1 ∷ 2 ∷ b'a' ∷ b'n' ∷ 1 ∷ b'p' ∷ [])
          ++ (5 ∷ 1 ∷ 0 ∷ 3 ∷ 3 ∷ b'a' ∷ b'.' ∷ b'b' ∷ 1 ∷ 187 ∷ []));
  writable = 0;
}

negotiated : negotiate_socks5 host 443 (some ann) link ≡ ok tunnel
unfolding negotiate_socks5 unstable_drift.Proxy.Link.write_all
    unstable_drift.Proxy.Socks5.select_method unstable_drift.Proxy.Link.read_exact
    unstable_drift.Proxy.Link.prepend unstable_drift.Proxy.Socks5.do_user_pass
    unstable_drift.Proxy.Link.to_u8 unstable_drift.Proxy.Socks5.connect_reply
    unstable_drift.Proxy.Socks5.skip_bound greet
negotiated = refl

negotiate_socks5_sound_example :
    (length host < 256)
    × ((choice sent grant : Bytes) × IsChoice (some ann) choice sent
        × IsGrant grant
        × Exchange link tunnel
            (choice ++ grant)
            (greet (some ann) ++ (sent ++ unstable_drift.Proxy.Socks5.request host 443)))
negotiate_socks5_sound_example = negotiate_socks5_sound host 443 (some ann) link tunnel negotiated

negotiate_socks5_complete_example :
    (s' : Link) × (negotiate_socks5 host 443 (some ann) link ≡ ok s')
    × (s'.incoming ≡ 7 ∷ 8 ∷ [])
    × (s'.outgoing
        ≡ []
          ++ (greet (some ann)
              ++ (credentials ann ++ unstable_drift.Proxy.Socks5.request host 443)))
negotiate_socks5_complete_example =
    negotiate_socks5_complete host 443 (some ann) (5 ∷ 2 ∷ 1 ∷ 0 ∷ []) (credentials ann)
      (5 ∷ 0 ∷ 0 ∷ 3 ∷ 1 ∷ b'x' ∷ 0 ∷ 80 ∷ []) (7 ∷ 8 ∷ []) link (omega arith)
      (short (omega arith) (omega arith)) (with_user_pass ann refl) (granted 0 3 (domain 1 refl))
      refl (omega arith)

-- The same host by SOCKS4a, and an address by SOCKS4.
abbrev link_v4 : Link
link_v4 = record {
  incoming = 0 ∷ 90 ∷ 0 ∷ 80 ∷ 10 ∷ 0 ∷ 0 ∷ 1 ∷ 7 ∷ [];
  outgoing = [];
  writable = 1;
}

abbrev tunnel_v4 : Link
tunnel_v4 = record {
  incoming = 7 ∷ [];
  outgoing = 4 ∷ 1 ∷ 0 ∷ 80 ∷ 10 ∷ 2 ∷ 0 ∷ 255 ∷ b'a' ∷ 0 ∷ [];
  writable = 0;
}

abbrev literal : Bytes
literal = b'1' ∷ b'0' ∷ b'.' ∷ b'2' ∷ b'.' ∷ b'0' ∷ b'.' ∷ b'2' ∷ b'5' ∷ b'5' ∷ []

negotiated_v4 : negotiate_socks4 v4 literal 80 (b'a' ∷ []) link_v4 ≡ ok tunnel_v4
unfolding negotiate_socks4 dst_ip unstable_drift.Proxy.Socks4.parse_ipv4
    unstable_drift.Proxy.Socks4.dotted unstable_drift.Proxy.Socks4.octet
    unstable_drift.Proxy.Link.write_all unstable_drift.Proxy.Link.read_exact
    unstable_drift.Proxy.Link.prepend unstable_drift.Proxy.Socks4.reply_code
    unstable_drift.Proxy.Socks4.request unstable_drift.Proxy.Socks4.host_name
    unstable_drift.Proxy.Socks4.after_dot unstable_drift.Proxy.Socks4.octet_then
negotiated_v4 = refl

negotiate_socks4_sound_example :
    (written bound : Bytes) × IsRequest literal 80 (b'a' ∷ []) v4 written
    × (length bound ≡ 6)
    × Exchange link_v4 tunnel_v4 (0 ∷ 90 ∷ bound) written
negotiate_socks4_sound_example =
    negotiate_socks4_sound v4 literal 80 (b'a' ∷ []) link_v4 tunnel_v4 negotiated_v4

-- ===== src/Proxy/Tunnels.antt =====
-- HTTP CONNECT and a chain of two proxies with servers that grant them.
use unstable_drift.Prelude.{◌≤◌, ◌≡◌, refl, true, none, List, [], ◌∷◌, ◌++◌, length, ok}
use unstable_drift.Bytes.{Bytes}
use unstable_drift.Bytes.Text.{ascii}
use unstable_drift.Proxy.{ProxyAuth, user_password}
use unstable_drift.Proxy.Link.{Link, Exchange}
use unstable_drift.Proxy.HttpConnect.{has_end, reply_limit, check_status, negotiate_http_connect}
use unstable_drift.Proxy.HttpConnect
use unstable_drift.Proxy.HttpConnect.Words.{IsConnect, IsEnded, IsFirstLine, IsSuccess}
use unstable_drift.Proxy.HttpConnect.Outcome.{negotiate_http_connect_sound}
use unstable_drift.Proxy.Socks5
use unstable_drift.Proxy.Chain.{
  Proxy, socks5, http_connect, Hop, apply_chain, Tunnelled, apply_chain_sound,
}

plain : Bytes → Bytes
plain b = b

abbrev far : Bytes
far = ascii "b.c"

abbrev reply : Bytes
reply = ascii "HTTP/1.1 200 OK" ++ 13 ∷ 10 ∷ 13 ∷ 10 ∷ []

abbrev link : Link
link = record { incoming = (reply ++ 7 ∷ []) ++ 8 ∷ []; outgoing = []; writable = 3 }

abbrev after : Link
after = record {
  incoming = 7 ∷ 8 ∷ [];
  outgoing = HttpConnect.request plain far 443 none;
  writable = 2;
}

negotiated : negotiate_http_connect plain far 443 none (9 ∷ 10 ∷ []) link ≡ ok after
unfolding negotiate_http_connect unstable_drift.Proxy.Link.write_all HttpConnect.read_reply has_end
    check_status unstable_drift.Bytes.Utf8.from_utf8 unstable_drift.Bytes.Utf8.is_utf8
    HttpConnect.status_of unstable_drift.Bytes.Text.split_whitespace
    unstable_drift.Bytes.Text.words_from HttpConnect.first_line unstable_drift.Bytes.Text.white
    unstable_drift.Bytes.Text.word_then unstable_drift.Bytes.Text.parse_u16
    unstable_drift.Bytes.Text.u16_digits
negotiated = refl

negotiate_http_connect_sound_example :
    (written reply line : Bytes) × IsConnect plain far 443 none written
    × IsEnded reply
    × (length reply ≤ 16384)
    × IsFirstLine line reply
    × IsSuccess line
    × Exchange link after reply written
negotiate_http_connect_sound_example =
    negotiate_http_connect_sound plain far 443 none (9 ∷ 10 ∷ []) link after negotiated

has_end-reply : has_end reply ≡ true
unfolding has_end
has_end-reply = refl

check_status-reply : check_status (reply ++ 7 ∷ []) ≡ ok tt
unfolding check_status unstable_drift.Bytes.Utf8.from_utf8 unstable_drift.Bytes.Utf8.is_utf8
    HttpConnect.status_of unstable_drift.Bytes.Text.split_whitespace
    unstable_drift.Bytes.Text.words_from HttpConnect.first_line unstable_drift.Bytes.Text.white
    unstable_drift.Bytes.Text.word_then unstable_drift.Bytes.Text.parse_u16
    unstable_drift.Bytes.Text.u16_digits
check_status-reply = refl

-- A SOCKS5 proxy and behind it an HTTP proxy.
abbrev hops : List Hop
hops =
    (record { kind = socks5; host = ascii "p"; port = 1080; auth = none }, [])
    ∷ (record { kind = http_connect; host = ascii "q"; port = 3128; auth = none }, 19 ∷ [])
    ∷ []

abbrev start : Link
start = record {
  incoming = (5 ∷ 0 ∷ 5 ∷ 0 ∷ 0 ∷ 1 ∷ 0 ∷ 0 ∷ 0 ∷ 0 ∷ 0 ∷ 0 ∷ []) ++ (reply ++ 7 ∷ []);
  outgoing = [];
  writable = 3;
}

abbrev end : Link
end = record {
  incoming = 7 ∷ [];
  outgoing =
      (5 ∷ 1 ∷ 0 ∷ [])
      ++ (Socks5.request (ascii "q") 3128 ++ HttpConnect.request plain far 443 none);
  writable = 0;
}

chained : apply_chain plain hops (far, 443) start ≡ ok end
unfolding apply_chain unstable_drift.Proxy.Chain.negotiate Socks5.negotiate_socks5
    unstable_drift.Proxy.Link.write_all Socks5.select_method unstable_drift.Proxy.Link.read_exact
    unstable_drift.Proxy.Link.prepend unstable_drift.Proxy.Link.to_u8
    unstable_drift.Proxy.Chain.next_address Socks5.connect_reply Socks5.skip_bound
    negotiate_http_connect HttpConnect.read_reply has_end check_status
    unstable_drift.Bytes.Utf8.from_utf8 unstable_drift.Bytes.Utf8.is_utf8 HttpConnect.status_of
    unstable_drift.Bytes.Text.parse_u16 unstable_drift.Bytes.Text.split_whitespace
    unstable_drift.Bytes.Text.u16_digits unstable_drift.Bytes.Text.white
    unstable_drift.Bytes.Text.word_then unstable_drift.Bytes.Text.words_from HttpConnect.first_line
    Socks5.greet Socks5.request
chained = refl

apply_chain_sound_example : Tunnelled plain (far, 443) hops start end
apply_chain_sound_example = apply_chain_sound plain hops (far, 443) start end chained

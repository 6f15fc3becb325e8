-- ===== src/Proxy/HttpConnect/Outcome.antt =====
-- Negotiations of proxy/http_connect.rs that succeed: what they read and write.
use unstable_drift.Prelude.{
  ℕ, ◌≤◌, ◌<◌, ◌≡◌, refl, sym, subst, ◌∙◌, Bool, true, false, ◌||◌, ◌&&◌, Option, List, [], ◌∷◌,
  ◌++◌, length, take, drop, min, append-nil, append_assoc, take-append-drop, take-length,
  drop-length, arith,
}
use unstable_drift.Prelude.{
  Result, ok, ◌==◌, ltb, if-cases, Yields, Yields-bind, Yields-map, Yields-self, Yields-ok,
}
use unstable_drift.Bytes.{Bytes}
use unstable_drift.Proxy.{ProxyAuth, ProxyError}
use unstable_drift.Proxy.Link.{Link, Exchange, Exchange-append, Exchange-none}
use unstable_drift.Proxy.Steps.{writing, replied, Wrote, write_ok}
use unstable_drift.Proxy.HttpConnect.Words.{
  IsConnect, request-IsConnect, IsEnded, has_end-IsEnded, has_end_lem, IsFirstLine, IsSuccess,
  first_line-IsFirstLine, check_status-IsSuccess,
}
use unstable_drift.Proxy.HttpConnect.{
  has_end, reply_limit, first_line, request, read_reply, check_status, negotiate_http_connect,
}

-- `s'` is `s` after the reply `got.0` has been read behind `buf`, with its end in it.
abbrev Replies : Bytes → Link → Bytes × Link → Type 0
Replies buf s got =
    (taken : Bytes) × (got.0 ≡ buf ++ taken)
    × Exchange s got.1 taken []
    × (has_end got.0 ≡ true)
    × (length got.0 ≤ reply_limit)

takes :
    (n : ℕ) (s : Link)
    → Exchange s (record s { incoming = drop n s.incoming }) (take n s.incoming) []
takes n s = record {
  read = sym (take-append-drop n s.incoming);
  wrote = sym (append-nil s.outgoing);
}

here :
    (buf : Bytes) (s : Link)
    → length buf ≤ reply_limit
    → has_end buf ≡ true
    → Replies buf s (buf, s)
here buf s h e = ([], sym (append-nil buf), Exchange-none s, e, h)

ahead :
    (buf l : Bytes) (s s' : Link)
    → Exchange s s' l []
    → (got : Bytes × Link) → Replies (buf ++ l) s' got
    → Replies buf s got
ahead buf l s s' e got (taken, g, x, h, k) =
    (l ++ taken, g ∙ append_assoc buf l taken, Exchange-append e x, h, k)

read_reply-Yields :
    (chunks : List ℕ) (buf : Bytes) (s : Link)
    → length buf ≤ reply_limit
    → Yields (Replies buf s) (read_reply chunks buf s)
unfolding read_reply
read_reply-Yields [] buf s h =
    if-cases (Yields (Replies buf s)) (has_end buf) (here buf s h) (λ n. tt)
read_reply-Yields (arriving ∷ chunks) buf s h =
    let n = min arriving 256 in
    let got = take n s.incoming in
    let s' : Link = record s { incoming = drop n s.incoming } in
    let Y : Result ProxyError (Bytes × Link) → Type 0 = Yields (Replies buf s) in
    if-cases Y (has_end buf) (here buf s h) (λ a.
      if-cases Y (length got == 0) (λ b. tt)
        (λ b.
          if-cases Y (ltb 16384 (length (buf ++ got))) (λ c. tt)
            (λ c.
              Yields-map (read_reply chunks (buf ++ got) s') (ahead buf got s s' (takes n s))
                (read_reply-Yields chunks (buf ++ got) s' (ground arith)))))

-- What a negotiation that succeeds has written and read, as the code checks it.
pub negotiate_http_connect-Exchange :
    (base64 : Bytes → Bytes) (host : Bytes) (port : ℕ) (auth : Option ProxyAuth) (chunks : List ℕ)
    (s s' : Link)
    → negotiate_http_connect base64 host port auth chunks s ≡ ok s'
    → (reply : Bytes) × (has_end reply ≡ true)
      × (length reply ≤ reply_limit)
      × (check_status reply ≡ ok tt)
      × Exchange s s' reply (request base64 host port auth)
unfolding negotiate_http_connect
negotiate_http_connect-Exchange base64 host port auth chunks s s' =
    let r = request base64 host port auth in
    let Q : Link → Type 0 = λ s'.
      (reply : Bytes) × (has_end reply ≡ true)
      × (length reply ≤ 16384)
      × (check_status reply ≡ ok tt)
      × Exchange s s' reply r in
    Yields-ok Q (negotiate_http_connect base64 host port auth chunks s) (
      writing r s Q _ (λ s1 w.
        Yields-bind (Replies [] s1) Q (read_reply chunks [] s1) _
          (read_reply-Yields chunks [] s1 (omega arith))
          (λ got g.
            Yields-bind (λ u. check_status got.0 ≡ ok u) Q (check_status got.0) _
              (Yields-self (check_status got.0))
              (λ u c. (
                got.0,
                g.3,
                g.4,
                c,
                subst (λ b. Exchange s got.1 b r) (sym g.1) (replied s s1 got.1 r g.0 w g.2),
              )))))

-- An HTTP CONNECT negotiation that succeeds has written a CONNECT request for the host and the port, with
-- Basic credentials where there is a user, and has taken from the peer a
-- reply of at most 16384 bytes, with an empty line in it and with a number from 200 to 299 for the
-- second word of its first line; only what comes behind the bytes that it took is left for the tunnel.
pub negotiate_http_connect_sound :
    (base64 : Bytes → Bytes) (host : Bytes) (port : ℕ) (auth : Option ProxyAuth) (chunks : List ℕ)
    (s s' : Link)
    → negotiate_http_connect base64 host port auth chunks s ≡ ok s'
    → (written reply line : Bytes) × IsConnect base64 host port auth written
      × IsEnded reply
      × (length reply ≤ 16384)
      × IsFirstLine line reply
      × IsSuccess line
      × Exchange s s' reply written
negotiate_http_connect_sound base64 host port auth chunks s s' e =
    let (reply, h, l, c, x) = negotiate_http_connect-Exchange base64 host port auth chunks s s' e in
    (
      request base64 host port auth,
      reply,
      first_line reply,
      request-IsConnect base64 host port auth,
      has_end-IsEnded reply h,
      l,
      first_line-IsFirstLine reply h,
      check_status-IsSuccess reply c,
      x,
    )

has_end-append : (head tunnel : Bytes) → has_end head ≡ true → has_end (head ++ tunnel) ≡ true
unfolding has_end
has_end-append [] t h = ground arith
has_end-append (a ∷ []) t h = ground arith
has_end-append (a ∷ b ∷ []) t h = ground arith
has_end-append (a ∷ b ∷ c ∷ []) t h = ground arith
has_end-append (a ∷ b ∷ c ∷ d ∷ rest) t h =
    or_mono (((a == 13) && (b == 10)) && ((c == 13) && (d == 10)))
      (has_end-append (b ∷ c ∷ d ∷ rest) t) h
  where
    or_mono : (x : Bool) {y z : Bool} → (y ≡ true → z ≡ true) → (x || y) ≡ true → (x || z) ≡ true
    or_mono true f e = refl
    or_mono false f e = f e

read_reply_done :
    (chunks : List ℕ) (buf : Bytes) (s : Link)
    → has_end buf ≡ true
    → read_reply chunks buf s ≡ ok (buf, s)
unfolding read_reply
read_reply_done [] buf s h = rw h refl
read_reply_done (n ∷ chunks) buf s h = rw h refl

-- One read of `l`, which has the end of the reply in it.
one_read :
    (l rest : Bytes) (chunks : List ℕ) (s : Link)
    → has_end l ≡ true
    → length l ≤ 256
    → s.incoming ≡ l ++ rest
    → read_reply (length l ∷ chunks) [] s ≡ ok (l, record s { incoming = rest })
unfolding read_reply has_end
one_read l rest chunks s h short i =
    let n : min (length l) 256 ≡ length l = omega arith in
    let long = has_end_lem l h in
    let some : (length l == 0) ≡ false = ground arith in
    let few : ltb 16384 (length l) ≡ false = ground arith in
    rw (n, i, take-length l rest, drop-length l rest, some, few)
      (read_reply_done chunks l (record s { incoming = rest }) h)

-- A read that returns the end of a 2xx reply together with the first bytes of the tunnel, 256 bytes
-- at most in all: the negotiation succeeds, and those bytes of the tunnel are gone.
pub tunnel_lost :
    (base64 : Bytes → Bytes) (host : Bytes) (port : ℕ) (auth : Option ProxyAuth)
    (head tunnel rest : Bytes) (chunks : List ℕ) (s : Link)
    → has_end head ≡ true
    → length (head ++ tunnel) ≤ 256
    → check_status (head ++ tunnel) ≡ ok tt
    → s.incoming ≡ (head ++ tunnel) ++ rest
    → 0 < s.writable
    → (s' : Link) × (negotiate_http_connect base64 host port auth
          (length (head ++ tunnel) ∷ chunks)
          s
        ≡ ok s')
      × (s'.incoming ≡ rest)
unfolding negotiate_http_connect Wrote
tunnel_lost base64 host port auth head tunnel rest chunks s e short c i w =
    let (s1, d) = write_ok (request base64 host port auth) s w in
    let read =
      one_read (head ++ tunnel) rest chunks s1 (has_end-append head tunnel e) short (d.1 ∙ i) in
    (record s1 { incoming = rest }, rw (d.0, read, c) refl, refl)

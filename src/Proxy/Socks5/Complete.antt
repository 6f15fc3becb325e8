-- ===== src/Proxy/Socks5/Complete.antt =====
-- proxy/socks5.rs with a server that follows RFC 1928 and RFC 1929.
use unstable_drift.Prelude.{
  ℕ, suc, ◌+◌, ◌≡◌, ◌<◌, refl, sym, subst, ◌∙◌, Option, none, some, [], ◌∷◌, ◌++◌, length,
  append-nil, append_assoc, arith,
}
use unstable_drift.Prelude.{Result, ok}
use unstable_drift.Bytes.{Bytes}
use unstable_drift.Proxy.{
  ProxyAuth, user_password, ProxyError, username_too_long, password_too_long, host_too_long,
}
use unstable_drift.Proxy.Link.{Link, to_u8_fits}
use unstable_drift.Proxy.Socks5.{
  greet, credentials, do_user_pass, select_method, request, skip_bound, connect_reply,
  negotiate_socks5, IsBound, ipv4, ipv6, domain, IsGrant, granted, IsChoice, without_auth,
  with_user_pass,
}
use unstable_drift.Proxy.Steps.{read_ok, Wrote, write_ok}

skip_bound_ok :
    (atyp : ℕ) (bound rest : Bytes) (s : Link)
    → IsBound atyp bound
    → s.incoming ≡ bound ++ rest
    → skip_bound atyp s ≡ ok (record s { incoming = rest })
unfolding skip_bound
skip_bound_ok atyp bound rest s (ipv4 k) e = rw (read_ok 6 bound rest s k e) refl
skip_bound_ok atyp bound rest s (ipv6 k) e = rw (read_ok 18 bound rest s k e) refl
skip_bound_ok atyp (n ∷ skip) rest s (domain _ k) e =
    rw (read_ok 1 (n ∷ []) (skip ++ rest) s refl e)
      (rw (read_ok (n + 2) skip rest (record s { incoming = skip ++ rest }) k refl) refl)

connect_reply_ok :
    (grant rest : Bytes) (s : Link)
    → IsGrant grant
    → s.incoming ≡ grant ++ rest
    → connect_reply s ≡ ok (record s { incoming = rest })
unfolding connect_reply
connect_reply_ok _ rest s (granted r t {bound} b) e =
    rw (read_ok 4 (5 ∷ 0 ∷ r ∷ t ∷ []) (bound ++ rest) s refl e)
      (skip_bound_ok t bound rest (record s { incoming = bound ++ rest }) b refl)

-- The lengths that a `u8` holds.
pub data Fits : ProxyAuth → Type 0 where
  short :
      {user pass : Bytes} → length user < 256 → length pass < 256 → Fits (user_password user pass)

abbrev pub AuthFits : Option ProxyAuth → Type 0
AuthFits none = Unit
AuthFits (some a) = Fits a

-- A step that ends in `s'`, with `rest` to be read and `sent` written.
abbrev Ends : Result ProxyError Link → Link → Bytes → Bytes → Link → Type 0
Ends m s rest sent s' = (m ≡ ok s') × (s'.incoming ≡ rest) × (s'.outgoing ≡ s.outgoing ++ sent)

do_user_pass_ok :
    (a : ProxyAuth) (rest : Bytes) (s : Link)
    → Fits a
    → s.incoming ≡ 1 ∷ 0 ∷ rest
    → 1 < s.writable
    → (s' : Link) × Ends (do_user_pass a s) s rest (credentials a) s' × (0 < s'.writable)
unfolding do_user_pass credentials Wrote
do_user_pass_ok (user_password user pass) rest s (short u p) e h =
    let (s1, d) = write_ok (credentials (user_password user pass)) s (omega arith) in
    let left : 1 < suc s1.writable = subst (λ n. 1 < n) d.3 h in
    let ulen = to_u8_fits (length user) username_too_long u in
    let plen = to_u8_fits (length pass) password_too_long p in
    let answer = read_ok 2 (1 ∷ 0 ∷ []) rest s1 refl (d.1 ∙ e) in
    (record s1 { incoming = rest }, (rw (ulen, plen, d.0, answer) refl, refl, d.2), omega arith)

select_method_ok :
    (auth : Option ProxyAuth) (choice sent rest : Bytes) (s : Link)
    → IsChoice auth choice sent
    → AuthFits auth
    → s.incoming ≡ choice ++ rest
    → 1 < s.writable
    → (s' : Link) × Ends (select_method auth s) s rest sent s' × (0 < s'.writable)
unfolding select_method
select_method_ok auth _ _ rest s without_auth f e h =
    let answer = read_ok 2 (5 ∷ 0 ∷ []) rest s refl e in
    (record s { incoming = rest }, (rw answer refl, refl, sym (append-nil s.outgoing)), omega arith)
select_method_ok auth _ _ rest s (with_user_pass a k) f e h =
    let s1 : Link = record s { incoming = 1 ∷ 0 ∷ rest } in
    let answer = read_ok 2 (5 ∷ 2 ∷ []) (1 ∷ 0 ∷ rest) s refl e in
    let (s', d, p) = do_user_pass_ok a rest s1 (subst AuthFits k f) refl h in
    (s', (rw (answer, k) d.0, d.1, d.2), p)

-- Whatever a server says that RFC 1928 and RFC 1929 allow (the choice of a method that was offered,
-- credentials accepted, a grant with a bound address of any type, then the tunnel's own bytes), on a
-- link that takes three more writes, with a host name and any credentials of at most 255 bytes: the
-- negotiation succeeds, leaves exactly the tunnel's bytes to be read, and has written the greeting,
-- the credentials where they were chosen, and the request.
pub negotiate_socks5_complete :
    (host : Bytes) (port : ℕ) (auth : Option ProxyAuth) (choice sent grant tunnel : Bytes)
    (s : Link)
    → length host < 256
    → AuthFits auth
    → IsChoice auth choice sent
    → IsGrant grant
    → s.incoming ≡ choice ++ (grant ++ tunnel)
    → 2 < s.writable
    → (s' : Link) × (negotiate_socks5 host port auth s ≡ ok s')
      × (s'.incoming ≡ tunnel)
      × (s'.outgoing ≡ s.outgoing ++ (greet auth ++ (sent ++ request host port)))
unfolding negotiate_socks5 request Wrote
negotiate_socks5_complete host port auth choice sent grant tunnel s h f c g e w =
    let (s1, d1) = write_ok (greet auth) s (omega arith) in
    let left1 : 2 < suc s1.writable = subst (λ n. 2 < n) d1.3 w in
    let (s2, d2, left2) =
      select_method_ok auth choice sent (grant ++ tunnel) s1 c f (d1.1 ∙ e) (omega arith) in
    let (s3, d3) = write_ok (request host port) s2 left2 in
    let fits = to_u8_fits (length host) host_too_long h in
    let reply = connect_reply_ok grant tunnel s3 g (d3.1 ∙ d2.1) in
    (
      record s3 { incoming = tunnel },
      rw (d1.0, d2.0, fits, d3.0) reply,
      refl,
      simp (d3.2, d2.2, d1.2, append_assoc) refl,
    )

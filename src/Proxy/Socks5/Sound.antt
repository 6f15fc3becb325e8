-- ===== src/Proxy/Socks5/Sound.antt =====
-- What a successful negotiation of proxy/socks5.rs has read and written.
use unstable_drift.Prelude.{
  ℕ, ◌+◌, ◌≡◌, ◌<◌, refl, ap, sym, subst, ◌∙◌, true, Option, none, some, [], ◌∷◌, ◌++◌, length, not,
}
use unstable_drift.Prelude.{
  Result, ok, ok_or, ◌>>=◌, ◌==◌, ==_iff, Yields-map, if-cases, Yields, Yields-bind, Yields-ok,
}
use unstable_drift.Bytes.{Bytes}
use unstable_drift.Proxy.{
  ProxyAuth, user_password, ProxyError, username_too_long, password_too_long, host_too_long,
  protocol, no_credentials,
}
use unstable_drift.Proxy.Link.{Link, at, read_exact, Exchange, Exchange-append}
use unstable_drift.Proxy.Socks5.{
  greet, credentials, do_user_pass, select_method, request, skip_bound, connect_reply,
  negotiate_socks5, IsBound, ipv4, ipv6, domain, IsGrant, granted, IsChoice, without_auth,
  with_user_pass,
}
use unstable_drift.Proxy.Steps.{
  not-==, two, one, four, reading, writing, length_u8, replied, exchanged,
}

-- `s'` is `s` after a read of bytes in `P`.
abbrev Reads : (Bytes → Type 0) → Link → Link → Type 0
Reads P s s' = (reply : Bytes) × P reply × Exchange s s' reply []

skips :
    (n : ℕ) (s : Link) (P : Bytes → Type 0)
    → ((l : Bytes) → length l ≡ n → P l)
    → Yields (Reads P s) (read_exact n s >>= (λ got. ok got.1))
skips n s P h = reading n s (Reads P s) (λ got. ok got.1) (λ got e k. (got.0, h got.0 k, e))

skip_domain :
    (s : Link)
    → Yields
        (Reads (IsBound 3) s)
        (read_exact 1 s >>= (λ len. read_exact (at 0 len.0 + 2) len.1 >>= (λ got. ok got.1)))
skip_domain s =
    let f : Bytes × Link → Result ProxyError Link =
      λ len. read_exact (at 0 len.0 + 2) len.1 >>= (λ got. ok got.1) in
    reading 1 s (Reads (IsBound 3) s) f (λ len e k.
      reading (at 0 len.0 + 2) len.1 (Reads (IsBound 3) s) (λ got. ok got.1)
        (λ got e' k'. (
          len.0 ++ got.0,
          subst (λ l. IsBound 3 (l ++ got.0)) (sym (one len.0 k)) (domain (at 0 len.0) k'),
          Exchange-append e e',
        )))

at_type :
    (a b : ℕ) (m : Link → Result ProxyError Link)
    → ((s : Link) → Yields (Reads (IsBound b) s) (m s))
    → (s : Link) → (a == b) ≡ true
    → Yields (Reads (IsBound a) s) (m s)
at_type a b m h s e = subst (λ t. Yields (Reads (IsBound t) s) (m s)) (sym ((==_iff a b).0 e)) (h s)

skip_bound-Yields : (atyp : ℕ) (s : Link) → Yields (Reads (IsBound atyp) s) (skip_bound atyp s)
unfolding skip_bound
skip_bound-Yields atyp s =
    let Y : Result ProxyError Link → Type 0 = Yields (Reads (IsBound atyp) s) in
    if-cases Y (atyp == 1)
      (λ e.
        at_type atyp 1 (λ s. read_exact 6 s >>= (λ got. ok got.1))
          (λ s. skips 6 s (IsBound 1) (λ l. ipv4)) s e)
      (λ n.
        if-cases Y (atyp == 4)
          (λ e.
            at_type atyp 4 (λ s. read_exact 18 s >>= (λ got. ok got.1))
              (λ s. skips 18 s (IsBound 4) (λ l. ipv6)) s e)
          (λ n.
            if-cases Y (atyp == 3)
              (λ e.
                at_type atyp 3
                  (λ s.
                    read_exact 1 s
                    >>= (λ len. read_exact (at 0 len.0 + 2) len.1 >>= (λ got. ok got.1)))
                  skip_domain s e)
              (λ n. tt)))

-- The head of a reply that passes both tests.
head_lem : (l : Bytes) → length l ≡ 4 → at 0 l ≡ 5 → at 1 l ≡ 0 → l ≡ 5 ∷ 0 ∷ at 2 l ∷ at 3 l ∷ []
head_lem l k v z =
    four l k
    ∙ ap (λ a. a ∷ at 1 l ∷ at 2 l ∷ at 3 l ∷ []) v
    ∙ ap (λ b. 5 ∷ b ∷ at 2 l ∷ at 3 l ∷ []) z

grants :
    (s : Link) (got : Bytes × Link)
    → Exchange s got.1 got.0 []
    → got.0 ≡ 5 ∷ 0 ∷ at 2 got.0 ∷ at 3 got.0 ∷ []
    → (s' : Link) → Reads (IsBound (at 3 got.0)) got.1 s'
    → Reads IsGrant s s'
grants s got e h s' (bound, b, e') = (
  got.0 ++ bound,
  subst (λ l. IsGrant (l ++ bound)) (sym h) (granted (at 2 got.0) (at 3 got.0) b),
  Exchange-append e e',
)

connect_reply-Yields : (s : Link) → Yields (Reads IsGrant s) (connect_reply s)
unfolding connect_reply
connect_reply-Yields s = reading 4 s (Reads IsGrant s) _ (λ got e k.
    let Y : Result ProxyError Link → Type 0 = Yields (Reads IsGrant s) in
    if-cases Y (not (at 0 got.0 == 5)) (λ x. tt)
      (λ v.
        if-cases Y (not (at 1 got.0 == 0)) (λ x. tt)
          (λ z.
            Yields-map (skip_bound (at 3 got.0) got.1)
              (grants s got e
                (head_lem got.0 k (not-== (at 0 got.0) 5 v) (not-== (at 1 got.0) 0 z)))
              (skip_bound-Yields (at 3 got.0) got.1))))

-- `s'` is `s` after the answer to the method selection and the credentials it asks for.
abbrev pub Chooses : Option ProxyAuth → Link → Link → Type 0
Chooses auth s s' =
    (reply : Bytes) × (sent : Bytes) × IsChoice auth reply sent × Exchange s s' reply sent

accepted : (l : Bytes) → length l ≡ 2 → (a b : ℕ) → at 0 l ≡ a → at 1 l ≡ b → l ≡ a ∷ b ∷ []
accepted l k a b v w = two l k ∙ ap (λ x. x ∷ at 1 l ∷ []) v ∙ ap (λ x. a ∷ x ∷ []) w

do_user_pass-Yields :
    (a : ProxyAuth) (s : Link)
    → Yields (λ s'. Exchange s s' (1 ∷ 0 ∷ []) (credentials a)) (do_user_pass a s)
unfolding do_user_pass credentials
do_user_pass-Yields (user_password user pass) s =
    let Q : Link → Type 0 =
      λ s'. Exchange s s' (1 ∷ 0 ∷ []) (credentials (user_password user pass)) in
    let Y : Result ProxyError Link → Type 0 = Yields Q in
    length_u8 (length user) username_too_long Q _ (λ u.
      length_u8 (length pass) password_too_long Q _ (λ p.
        writing (credentials (user_password user pass)) s Q _ (λ s1 w. reading 2 s1 Q _ (λ got e k.
          if-cases Y (not (at 0 got.0 == 1)) (λ x. tt)
            (λ v.
              if-cases Y (not (at 1 got.0 == 0)) (λ x. tt)
                (λ z.
                  let same =
                    accepted got.0 k 1 0 (not-== (at 0 got.0) 1 v) (not-== (at 1 got.0) 0 z) in
                  subst (λ r. Exchange s got.1 r (credentials (user_password user pass))) same
                    (replied s s1 got.1 (credentials (user_password user pass)) got.0 w e)))))))

select_user_pass :
    (auth : Option ProxyAuth) (s s' : Link)
    → Exchange s s' (5 ∷ 2 ∷ []) []
    → Yields (Chooses auth s) (ok_or auth (protocol no_credentials) >>= (λ a. do_user_pass a s'))
select_user_pass none s s' e = tt
select_user_pass (some a) s s' e =
    Yields-map (do_user_pass a s')
      (λ s'' e'. (5 ∷ 2 ∷ 1 ∷ 0 ∷ [], credentials a, with_user_pass a refl, Exchange-append e e'))
      (do_user_pass-Yields a s')

select_method-Yields :
    (auth : Option ProxyAuth) (s : Link) → Yields (Chooses auth s) (select_method auth s)
unfolding select_method
select_method-Yields auth s =
    let Y : Result ProxyError Link → Type 0 = Yields (Chooses auth s) in
    reading 2 s (Chooses auth s) _ (λ got e k.
      if-cases Y (not (at 0 got.0 == 5)) (λ x. tt)
        (λ v.
          if-cases Y (at 1 got.0 == 0)
            (λ m. (
              5 ∷ 0 ∷ [],
              [],
              without_auth,
              exchanged e
                  (accepted got.0 k 5 0 (not-== (at 0 got.0) 5 v) ((==_iff (at 1 got.0) 0).0 m)),
            ))
            (λ n.
              if-cases Y (at 1 got.0 == 2)
                (λ m. select_user_pass auth s got.1 (
                  exchanged e
                    (accepted got.0 k 5 2 (not-== (at 0 got.0) 5 v) ((==_iff (at 1 got.0) 2).0 m))))
                (λ n. if-cases Y (at 1 got.0 == 255) (λ m. tt) (λ n. tt)))))

-- A negotiation that succeeds has read what RFC 1928 calls a choice of method and the grant of a
-- CONNECT, and not one byte of what follows, which belongs to the tunnel. It has written its
-- greeting, the credentials where the server chose them, and the CONNECT request for the host and
-- the port; the host name has at most 255 bytes.
pub negotiate_socks5_sound :
    (host : Bytes) (port : ℕ) (auth : Option ProxyAuth) (s s' : Link)
    → negotiate_socks5 host port auth s ≡ ok s'
    → (length host < 256)
      × ((choice sent grant : Bytes) × IsChoice auth choice sent
          × IsGrant grant
          × Exchange s s' (choice ++ grant) (greet auth ++ (sent ++ request host port)))
unfolding negotiate_socks5 request
negotiate_socks5_sound host port auth s s' =
    let Q : Link → Type 0 = λ s'.
      (length host < 256)
      × ((choice sent grant : Bytes) × IsChoice auth choice sent
          × IsGrant grant
          × Exchange s s' (choice ++ grant) (greet auth ++ (sent ++ request host port))) in
    Yields-ok Q (negotiate_socks5 host port auth s) (
      writing (greet auth) s Q _ (λ s1 w.
        Yields-bind (Chooses auth s1) Q (select_method auth s1) _ (select_method-Yields auth s1)
          (λ s2 c. length_u8 (length host) host_too_long Q _ (λ h.
            writing (request host port) s2 Q _ (λ s3 w'.
              Yields-map (connect_reply s3)
                (λ s4 g. (
                  h,
                  (
                    c.0,
                    c.1,
                    g.0,
                    c.2,
                    g.1,
                    Exchange-append w
                        (Exchange-append c.3 (replied s2 s3 s4 (request host port) g.0 w' g.2)),
                  ),
                ))
                (connect_reply-Yields s3))))))

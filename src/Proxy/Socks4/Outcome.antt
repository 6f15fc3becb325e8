-- ===== src/Proxy/Socks4/Outcome.antt =====
-- What proxy/socks4.rs asks for and what it takes for a grant.
use unstable_drift.Prelude.{
  ℕ, zero, suc, ◌+◌, ◌*◌, ◌/◌, ◌%◌, ◌≡◌, ◌<◌, refl, ap, sym, subst, ◌∙◌, not, Option, none, some,
  [], ◌∷◌, ◌++◌, length, drop, All, arith,
}
use unstable_drift.Prelude.{
  Result, ok, ok_or, ◌==◌, ==_iff, if-cases, Yields, Yields-bind, Yields-ok, Yields-self,
  Yields-map,
}
use unstable_drift.Bytes.{Bytes, IsU16}
use unstable_drift.Proxy.Link.{Link, at, Exchange}
use unstable_drift.Proxy.{ProxyError, protocol, not_ipv4_literal}
use unstable_drift.Proxy.Socks4.Literal.{IsLiteral, parse_ipv4-IsLiteral}
use unstable_drift.Proxy.Steps.{not-==, reading, writing, replied}
use unstable_drift.Proxy.Socks4.{
  Socks4Variant, v4, v4a, parse_ipv4, dst_ip, host_name, request, reply_code, negotiate_socks4,
  named, prepend, until_nul, named_by, addressed, serve,
}

-- The first two bytes of a reply and the others.
eight : (l : Bytes) → length l ≡ 8 → (l ≡ at 0 l ∷ at 1 l ∷ drop 2 l) × (length (drop 2 l) ≡ 6)
eight [] e = ground arith
eight (a ∷ []) e = ground arith
eight (a ∷ b ∷ l) e = (refl, omega arith)

-- The address that a request carries.
dst_ip-Yields :
    (variant : Socks4Variant) (host : Bytes)
    → Yields (λ ip. dst_ip variant host ≡ ok ip) (dst_ip variant host)
dst_ip-Yields variant host = Yields-self (dst_ip variant host)

reply_code-Yields :
    (code : ℕ) (s : Link) → Yields (λ s'. (code ≡ 90) × (s' ≡ s)) (reply_code code s)
unfolding reply_code
reply_code-Yields code s =
    let Y : Result ProxyError Link → Type 0 = Yields (λ s'. (code ≡ 90) × (s' ≡ s)) in
    if-cases Y (code == 90) (λ e. ((==_iff code 90).0 e, refl))
      (λ n.
        if-cases Y (code == 91) (λ e. tt)
          (λ n.
            if-cases Y (code == 92) (λ e. tt) (λ n. if-cases Y (code == 93) (λ e. tt) (λ n. tt))))

IsNulFree : Bytes → Type 0
IsNulFree = All (λ b. 0 < b)

until_nul-append :
    (word rest : Bytes) → IsNulFree word → until_nul (word ++ 0 ∷ rest) ≡ some (word, rest)
unfolding until_nul prepend IsNulFree
until_nul-append [] rest h = refl
until_nul-append (zero ∷ word) rest h = let p = h.0 in ground arith
until_nul-append (suc b ∷ word) rest h = ap (prepend (suc b)) (until_nul-append word rest h.1)

-- What a negotiation that succeeds has written and read, with the address as the code computes it.
pub negotiate_socks4-Exchange :
    (variant : Socks4Variant) (host : Bytes) (port : ℕ) (user : Bytes) (s s' : Link)
    → negotiate_socks4 variant host port user s ≡ ok s'
    → (ip bound : Bytes) × (dst_ip variant host ≡ ok ip)
      × (length bound ≡ 6)
      × Exchange s s' (0 ∷ 90 ∷ bound) (request variant ip host port user)
unfolding negotiate_socks4
negotiate_socks4-Exchange variant host port user s s' =
    let Q : Link → Type 0 = λ s'.
      (ip bound : Bytes) × (dst_ip variant host ≡ ok ip)
      × (length bound ≡ 6)
      × Exchange s s' (0 ∷ 90 ∷ bound) (request variant ip host port user) in
    let Y : Result ProxyError Link → Type 0 = Yields Q in
    Yields-ok Q (negotiate_socks4 variant host port user s) (
      Yields-bind (λ ip. dst_ip variant host ≡ ok ip) Q (dst_ip variant host) _
        (dst_ip-Yields variant host)
        (λ ip i. writing (request variant ip host port user) s Q _ (λ s1 w.
          reading 8 s1 Q _ (λ got e k.
            if-cases Y (not (at 0 got.0 == 0)) (λ x. tt)
              (λ v.
                Yields-map (reply_code (at 1 got.0) got.1)
                  (λ s2 c.
                    let (h, n) = eight got.0 k in
                    let reply : got.0 ≡ 0 ∷ 90 ∷ drop 2 got.0 =
                      h
                      ∙ ap (λ a. a ∷ at 1 got.0 ∷ drop 2 got.0) (not-== (at 0 got.0) 0 v)
                      ∙ ap (λ a. 0 ∷ a ∷ drop 2 got.0) c.0 in
                    (
                      ip,
                      drop 2 got.0,
                      i,
                      n,
                      subst
                          (λ t.
                            Exchange s t (0 ∷ 90 ∷ drop 2 got.0)
                              (request variant ip host port user))
                          (sym c.1)
                          (subst (λ r. Exchange s got.1 r (request variant ip host port user)) reply
                            (replied s s1 got.1 (request variant ip host port user) got.0 w e)),
                    ))
                  (reply_code-Yields (at 1 got.0) got.1))))))

-- The bytes of a request. The first variant carries the address that the host is a literal of, the
-- second the address 0.0.0.1 and the host behind the user.
pub data IsRequest (host : Bytes) (port : ℕ) (user : Bytes) : Socks4Variant → Bytes → Type 0 where
  to_address :
      (ip : Bytes)
      → IsLiteral ip host
      → IsRequest host port user v4
          (4 ∷ 1 ∷ (port / 256 % 256) ∷ (port % 256) ∷ (ip ++ (user ++ 0 ∷ [])))
  to_name :
      IsRequest host port user v4a
        (4 ∷ 1 ∷ (port / 256 % 256) ∷ (port % 256) ∷ 0 ∷ 0 ∷ 0 ∷ 1 ∷ (user ++ 0 ∷ (host ++ 0 ∷ [])))

ok_or-some : {E A : Type 0} (o : Option A) (e : E) (a : A) → ok_or o e ≡ ok a → o ≡ some a
ok_or-some none e a h = ground arith
ok_or-some (some b) e a h = ground arith

request-IsRequest :
    (variant : Socks4Variant) (host : Bytes) (port : ℕ) (user ip : Bytes)
    → dst_ip variant host ≡ ok ip
    → IsRequest host port user variant (request variant ip host port user)
unfolding dst_ip request host_name
request-IsRequest v4 host port user ip e =
    to_address ip
      (parse_ipv4-IsLiteral host ip (ok_or-some (parse_ipv4 host) (protocol not_ipv4_literal) ip e))
request-IsRequest v4a host port user ip e =
    subst (Yields (λ ip. IsRequest host port user v4a (request v4a ip host port user))) e to_name

-- A SOCKS4 negotiation that succeeds has written a request for the host and the port with the user: in
-- the first variant the host is an IPv4 literal, of four decimal octets, and the request carries its
-- address; in the second it carries 0.0.0.1 and the name. It has read exactly the eight bytes of a
-- grant, with version 0 and code 90; what follows is left for the tunnel.
pub negotiate_socks4_sound :
    (variant : Socks4Variant) (host : Bytes) (port : ℕ) (user : Bytes) (s s' : Link)
    → negotiate_socks4 variant host port user s ≡ ok s'
    → (written bound : Bytes) × IsRequest host port user variant written
      × (length bound ≡ 6)
      × Exchange s s' (0 ∷ 90 ∷ bound) written
negotiate_socks4_sound variant host port user s s' e =
    let (ip, bound, i, n, x) = negotiate_socks4-Exchange variant host port user s s' e in
    (request variant ip host port user, bound, request-IsRequest variant host port user ip i, n, x)

u16_be_lem : (n : ℕ) → IsU16 n → n / 256 % 256 * 256 + n % 256 ≡ n
u16_be_lem n h = omega arith

-- A server of SOCKS4a that splits a request at its first NULs reads the port, the user and the host
-- name that the client put in, where neither text has a NUL byte.
pub serve-request :
    (host user : Bytes) (port : ℕ)
    → IsU16 port
    → All (λ b. 0 < b) user
    → All (λ b. 0 < b) host
    → serve (request v4a (0 ∷ 0 ∷ 0 ∷ 1 ∷ []) host port user) ≡ some (named port user host)
unfolding serve request host_name addressed IsNulFree named_by
serve-request host user port p u h =
    rw (u16_be_lem port p, until_nul-append user (host ++ 0 ∷ []) u, until_nul-append host [] h)
      refl

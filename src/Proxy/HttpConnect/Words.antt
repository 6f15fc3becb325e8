-- ===== src/Proxy/HttpConnect/Words.antt =====
-- proxy/http_connect.rs: what a CONNECT request and a reply of success are, apart from the code.
use unstable_drift.Prelude.{
  ℕ, ◌≤◌, ◌<◌, ◌≡◌, refl, ap, sym, none, some, ◌∙◌, Bool, true, false, ◌||◌, ◌&&◌, Option, List, [],
  ◌∷◌, ◌++◌, length, arith,
}
use unstable_drift.Prelude.{
  ok, ◌==◌, ltb, leb, leb→le, ltb→lt, and_true, ok_or, map_err, ok_or-Yields, Yields-map_err,
  ==_iff, if-both, if-cases, Yields, Yields-bind, Yields-map, Yields-ok,
}
use unstable_drift.Bytes.{Bytes}
use unstable_drift.Bytes.Text.{ascii, decimal, split_whitespace, parse_u16}
use unstable_drift.Bytes.Utf8.{from_utf8, is_utf8}
use unstable_drift.Proxy.{ProxyAuth, user_password, protocol, non_utf8}
use unstable_drift.Proxy.HttpConnect.{
  has_end, first_line, authority, authorization, status_of, request, check_status,
}

-- The request: CONNECT, Host, Proxy-Connection and, for a user, Proxy-Authorization.
pub data IsConnect (base64 : Bytes → Bytes) (host : Bytes) (port : ℕ)
    : Option ProxyAuth → Bytes → Type 0 where
  open_to : IsConnect base64 host port none (
      (ascii "CONNECT " ++ ((host ++ b':' ∷ decimal port) ++ (ascii " HTTP/1.1" ++ 13 ∷ 10 ∷ [])))
      ++ ((ascii "Host: " ++ ((host ++ b':' ∷ decimal port) ++ 13 ∷ 10 ∷ []))
          ++ (ascii "Proxy-Connection: keep-alive" ++ 13 ∷ 10 ∷ 13 ∷ 10 ∷ [])))
  with_basic :
      (user pass : Bytes)
      → IsConnect base64 host port (some (user_password user pass)) (
          (ascii "CONNECT "
            ++ ((host ++ b':' ∷ decimal port) ++ (ascii " HTTP/1.1" ++ 13 ∷ 10 ∷ [])))
          ++ ((ascii "Host: " ++ ((host ++ b':' ∷ decimal port) ++ 13 ∷ 10 ∷ []))
              ++ ((ascii "Proxy-Connection: keep-alive" ++ 13 ∷ 10 ∷ [])
                  ++ ((ascii "Proxy-Authorization: Basic "
                        ++ (base64 (user ++ b':' ∷ pass) ++ 13 ∷ 10 ∷ []))
                      ++ 13 ∷ 10 ∷ []))))

pub request-IsConnect :
    (base64 : Bytes → Bytes) (host : Bytes) (port : ℕ) (auth : Option ProxyAuth)
    → IsConnect base64 host port auth (request base64 host port auth)
unfolding request authorization authority
request-IsConnect base64 host port none = open_to
request-IsConnect base64 host port (some (user_password user pass)) = with_basic user pass

-- With an empty line in it.
abbrev pub IsEnded : Bytes → Type 0
IsEnded reply = (head tail : Bytes) × (reply ≡ head ++ (13 ∷ 10 ∷ 13 ∷ 10 ∷ tail))

pub has_end-IsEnded : (reply : Bytes) → has_end reply ≡ true → IsEnded reply
unfolding has_end
has_end-IsEnded [] h = ground arith
has_end-IsEnded (a ∷ []) h = ground arith
has_end-IsEnded (a ∷ b ∷ []) h = ground arith
has_end-IsEnded (a ∷ b ∷ c ∷ []) h = ground arith
has_end-IsEnded (a ∷ b ∷ c ∷ d ∷ rest) h =
    found (((a == 13) && (b == 10)) && ((c == 13) && (d == 10))) refl h
      (has_end-IsEnded (b ∷ c ∷ d ∷ rest))
  where
    found :
        (here : Bool)
        → (((a == 13) && (b == 10)) && ((c == 13) && (d == 10))) ≡ here
        → (here || has_end (b ∷ c ∷ d ∷ rest)) ≡ true
        → (has_end (b ∷ c ∷ d ∷ rest) ≡ true → IsEnded (b ∷ c ∷ d ∷ rest))
        → IsEnded (a ∷ b ∷ c ∷ d ∷ rest)
    found true e h further =
        let (p, q) = and_true ((a == 13) && (b == 10)) ((c == 13) && (d == 10)) e in
        let (a13, b10) = and_true (a == 13) (b == 10) p in
        let (c13, d10) = and_true (c == 13) (d == 10) q in
        (
          [],
          rest,
          rw ((==_iff a 13).0 a13, (==_iff b 10).0 b10, (==_iff c 13).0 c13, (==_iff d 10).0 d10)
              refl,
        )
    found false e h further = let (head, tail, q) = further h in (a ∷ head, tail, ap (◌∷◌ a) q)

pub has_end_lem : (l : Bytes) → has_end l ≡ true → 3 < length l
unfolding has_end
has_end_lem [] h = ground arith
has_end_lem (a ∷ []) h = ground arith
has_end_lem (a ∷ b ∷ []) h = ground arith
has_end_lem (a ∷ b ∷ c ∷ []) h = ground arith
has_end_lem (a ∷ b ∷ c ∷ d ∷ l) h = omega arith

-- The line is what stands in front of the first "\r\n" of the reply.
pub data IsFirstLine : (line reply : Bytes) → Type 0 where
  ends : {a b : ℕ} {rest : Bytes} → a ≡ 13 → b ≡ 10 → IsFirstLine [] (a ∷ b ∷ rest)
  goes_on :
      {a b : ℕ} {line rest : Bytes}
      → ((a ≡ 13) × (b ≡ 10) → ⊥)
      → IsFirstLine line (b ∷ rest)
      → IsFirstLine (a ∷ line) (a ∷ b ∷ rest)

-- The second word of the line is a number from 200 to 299.
pub record IsSuccess (line : Bytes) : Type 0 where
  pub version : Bytes
  pub code : Bytes
  pub reason : List Bytes
  pub status : ℕ
  pub words : split_whitespace line ≡ version ∷ code ∷ reason
  pub number : parse_u16 code ≡ some status
  pub from_200 : 200 ≤ status
  pub below_300 : status < 300

further_end :
    (a b : ℕ) (rest : Bytes)
    → ((a == 13) && (b == 10)) ≡ false
    → has_end (a ∷ b ∷ rest) ≡ true
    → has_end (b ∷ rest) ≡ true
unfolding has_end
further_end a b [] n h = ground arith
further_end a b (c ∷ []) n h = ground arith
further_end a b (c ∷ d ∷ rest) n h = rw n at h

pub first_line-IsFirstLine :
    (reply : Bytes) → has_end reply ≡ true → IsFirstLine (first_line reply) reply
unfolding first_line
first_line-IsFirstLine [] h = absurd (let l = has_end_lem [] h in omega arith)
first_line-IsFirstLine (a ∷ []) h = absurd (let l = has_end_lem (a ∷ []) h in omega arith)
first_line-IsFirstLine (a ∷ b ∷ rest) h =
    if-cases (λ l. IsFirstLine l (a ∷ b ∷ rest)) ((a == 13) && (b == 10))
      (λ e.
        let (p, q) = and_true (a == 13) (b == 10) e in ends ((==_iff a 13).0 p) ((==_iff b 10).0 q))
      (λ n.
        goes_on (λ q. ground arith) (first_line-IsFirstLine (b ∷ rest) (further_end a b rest n h)))

status_of-Yields :
    (words : List Bytes)
    → Yields
        (λ n.
          (version code : Bytes) × (reason : List Bytes) × (words ≡ version ∷ code ∷ reason)
          × (parse_u16 code ≡ some n))
        (status_of words)
unfolding status_of
status_of-Yields [] = tt
status_of-Yields (version ∷ []) = tt
status_of-Yields (version ∷ code ∷ reason) =
    Yields-map (ok_or (parse_u16 code) _) (λ n e. (version, code, reason, refl, e))
      (ok_or-Yields (parse_u16 code) _)

from_utf8-Yields : (b : Bytes) → Yields (λ text. text ≡ b) (from_utf8 b)
unfolding from_utf8
from_utf8-Yields b = if-both (Yields (λ text. text ≡ b)) (is_utf8 b) refl tt

pub check_status-IsSuccess :
    (reply : Bytes) → check_status reply ≡ ok tt → IsSuccess (first_line reply)
unfolding check_status
check_status-IsSuccess reply =
    let Q : Unit {0} → Type 0 = λ u. IsSuccess (first_line reply) in
    let T : Bytes → Type 0 = λ text. text ≡ reply in
    Yields-ok Q (check_status reply) (
      Yields-bind T Q (map_err (λ e. protocol non_utf8) (from_utf8 reply)) _
        (Yields-map_err T (λ e. protocol non_utf8) (from_utf8 reply) (from_utf8-Yields reply))
        (λ text t.
          Yields-bind _ Q (status_of (split_whitespace (first_line text))) _
            (status_of-Yields (split_whitespace (first_line text)))
            (λ n (version, code, reason, words, number).
              if-cases (Yields Q) (leb 200 n && ltb n 300)
                (λ c.
                  let (low, high) = and_true (leb 200 n) (ltb n 300) c in
                  record {
                    version = version;
                    code = code;
                    reason = reason;
                    status = n;
                    words = ap (λ text. split_whitespace (first_line text)) (sym t) ∙ words;
                    number = number;
                    from_200 = leb→le 200 n low;
                    below_300 = ltb→lt n 300 high;
                  })
                (λ c. tt))))

-- ===== src/Handle/Origin.antt =====
-- handle.rs: redirects to an absolute path, and the origin of what they give.
use unstable_drift.Prelude.{
  ℕ, ◌≡◌, refl, ap, sym, ◌∙◌, ◌&&◌, Option, none, some, [], ◌∷◌, ◌++◌, arith,
}
use unstable_drift.Prelude.{
  Result, ok, err, ok_or, ◌>>=◌, ◌==◌, if◌then◌else◌, if-cases, Yields, Yields-bind, Yields-map,
  Yields-self, Yields-ok,
}
use unstable_drift.Bytes.{Bytes}
use unstable_drift.Bytes.Text.{ascii}
use unstable_drift.Bytes.Search.{starts_with}
use unstable_drift.Handle.{
  UrlFault, missing_scheme, UrlScheme, http, https, ParsedUrl, prepend, split_scheme, scheme_of,
  authority_of, path_of, rsplit_colon, host_port, checked, parse_url, front_of, resolve_url,
}

-- The text of a scheme with the separator behind it.
abbrev pub prefix_of : UrlScheme → Bytes
prefix_of http = ascii "http://"
prefix_of https = ascii "https://"

-- What stands in front of the third slash of a URL is its scheme and its authority.
front_zero : (rest : Bytes) → front_of 0 rest ≡ authority_of rest
unfolding front_of authority_of
front_zero [] = refl
front_zero (b ∷ bs) = ap (λ m. if b == b'/' then [] else b ∷ m) (front_zero bs)

front_two :
    (scheme : UrlScheme) (rest : Bytes)
    → front_of 2 (prefix_of scheme ++ rest) ≡ prefix_of scheme ++ authority_of rest
unfolding front_of
front_two http rest = ap (λ m. prefix_of http ++ m) (front_zero rest)
front_two https rest = ap (λ m. prefix_of https ++ m) (front_zero rest)

-- The authority has no slash, so a path put behind it is the path.
authority_again :
    (rest l : Bytes) → authority_of (authority_of rest ++ b'/' ∷ l) ≡ authority_of rest
unfolding authority_of
authority_again [] l = refl
authority_again (b ∷ bs) l = ground (arith, authority_again bs l)

path_again : (rest l : Bytes) → path_of (authority_of rest ++ b'/' ∷ l) ≡ b'/' ∷ l
unfolding authority_of path_of
path_again [] l = refl
path_again (b ∷ bs) l = ground (arith, path_again bs l)

abbrev name_of : UrlScheme → Bytes
name_of http = ascii "http"
name_of https = ascii "https"

scheme_of-Yields : (text : Bytes) → Yields (λ s. text ≡ name_of s) (scheme_of text)
unfolding scheme_of
scheme_of-Yields [] = tt
scheme_of-Yields (a ∷ []) = tt
scheme_of-Yields (a ∷ b ∷ []) = tt
scheme_of-Yields (a ∷ b ∷ c ∷ []) = tt
scheme_of-Yields (a ∷ b ∷ c ∷ d ∷ []) =
    if-cases (Yields (λ s. a ∷ b ∷ c ∷ d ∷ [] ≡ name_of s))
      (((a == b'h') && (b == b't')) && ((c == b't') && (d == b'p'))) (λ e. ground arith) (λ e. tt)
scheme_of-Yields (a ∷ b ∷ c ∷ d ∷ f ∷ []) =
    if-cases (Yields (λ s. a ∷ b ∷ c ∷ d ∷ f ∷ [] ≡ name_of s))
      ((((a == b'h') && (b == b't')) && ((c == b't') && (d == b'p'))) && (f == b's'))
      (λ e. ground arith) (λ e. tt)
scheme_of-Yields (a ∷ b ∷ c ∷ d ∷ f ∷ g ∷ l) = tt

IsSplit : Bytes → Option (Bytes × Bytes) → Type 0
IsSplit s none = Unit
IsSplit s (some (front, back)) = s ≡ front ++ (ascii "://" ++ back)

prepend-IsSplit :
    (b : ℕ) (s : Bytes) (o : Option (Bytes × Bytes)) → IsSplit s o → IsSplit (b ∷ s) (prepend b o)
unfolding IsSplit prepend
prepend-IsSplit b s none h = tt
prepend-IsSplit b s (some (front, back)) h = ap (◌∷◌ b) h

split_scheme-IsSplit : (s : Bytes) → IsSplit s (split_scheme s)
unfolding split_scheme IsSplit
split_scheme-IsSplit [] = tt
split_scheme-IsSplit (a ∷ []) = tt
split_scheme-IsSplit (a ∷ b ∷ []) = tt
split_scheme-IsSplit (a ∷ b ∷ c ∷ rest) =
    if-cases (IsSplit (a ∷ b ∷ c ∷ rest)) ((a == b':') && ((b == b'/') && (c == b'/')))
      (λ e. ground arith)
      (λ e.
        prepend-IsSplit a (b ∷ c ∷ rest) (split_scheme (b ∷ c ∷ rest))
          (split_scheme-IsSplit (b ∷ c ∷ rest)))

-- A URL that is parsed begins with its scheme.
scheme_prefix :
    (s front back : Bytes) (scheme : UrlScheme)
    → s ≡ front ++ (ascii "://" ++ back)
    → front ≡ name_of scheme
    → s ≡ prefix_of scheme ++ back
scheme_prefix s front back http e f = e ∙ ap (λ x. x ++ (ascii "://" ++ back)) f
scheme_prefix s front back https e f = e ∙ ap (λ x. x ++ (ascii "://" ++ back)) f

-- What `parse_url` makes of a text behind its scheme.
unfoldable pub behind : UrlScheme → Bytes → Bytes → Result UrlFault ParsedUrl
behind scheme authority path =
    host_port scheme authority (rsplit_colon authority) >>= checked scheme path

pub parse_prefix :
    (scheme : UrlScheme) (rest : Bytes)
    → parse_url (prefix_of scheme ++ rest) ≡ behind scheme (authority_of rest) (path_of rest)
unfolding parse_url split_scheme prepend scheme_of behind
parse_prefix http rest = refl
parse_prefix https rest = refl

-- Another path behind the same authority.
repath :
    (scheme : UrlScheme) (p q : Bytes) (m : Result UrlFault (Bytes × ℕ))
    → Yields (λ u. m >>= checked scheme q ≡ ok (record u { path = q })) (m >>= checked scheme p)
unfolding checked
repath scheme p q (err e) = tt
repath scheme p q (ok ([], port)) = tt
repath scheme p q (ok (h ∷ host, port)) = refl

resolve_prefix :
    (scheme : UrlScheme) (rest l : Bytes)
    → resolve_url (prefix_of scheme ++ rest) (b'/' ∷ l)
      ≡ prefix_of scheme ++ (authority_of rest ++ b'/' ∷ l)
unfolding resolve_url starts_with
resolve_prefix http rest l = ap (λ x. x ++ b'/' ∷ l) (front_two http rest)
resolve_prefix https rest l = ap (λ x. x ++ b'/' ∷ l) (front_two https rest)

same_origin :
    (scheme : UrlScheme) (rest l : Bytes) (u : ParsedUrl)
    → parse_url (prefix_of scheme ++ rest) ≡ ok u
    → parse_url (resolve_url (prefix_of scheme ++ rest) (b'/' ∷ l))
      ≡ ok (record u { path = b'/' ∷ l })
unfolding behind
same_origin scheme rest l u e =
    let a = authority_of rest in
    let again = authority_again rest l in
    ap parse_url (resolve_prefix scheme rest l)
    ∙ parse_prefix scheme (a ++ b'/' ∷ l)
    ∙ ap (λ x. behind scheme x (path_of (a ++ b'/' ∷ l))) again
    ∙ ap (behind scheme a) (path_again rest l)
    ∙ Yields-ok (λ u. behind scheme a (b'/' ∷ l) ≡ ok (record u { path = b'/' ∷ l }))
        (behind scheme a (path_of rest))
        (repath scheme (path_of rest) (b'/' ∷ l) (host_port scheme a (rsplit_colon a)))
        (sym (parse_prefix scheme rest) ∙ e)

from_parts :
    (base : Bytes) (o : Option (Bytes × Bytes))
    → IsSplit base o
    → Yields
        (λ u. (scheme : UrlScheme) × (rest : Bytes) × (base ≡ prefix_of scheme ++ rest))
        (ok_or o missing_scheme >>= (λ parts. scheme_of parts.0 >>= (λ scheme.
          host_port scheme (authority_of parts.1) (rsplit_colon (authority_of parts.1))
          >>= (λ hp. checked scheme (path_of parts.1) hp))))
unfolding IsSplit
from_parts base none h = tt
from_parts base (some (front, back)) h =
    let P : ParsedUrl → Type 0 =
      λ u. (scheme : UrlScheme) × (rest : Bytes) × (base ≡ prefix_of scheme ++ rest) in
    Yields-bind (λ s. front ≡ name_of s) P (scheme_of front) _ (scheme_of-Yields front)
      (λ scheme n.
        let m =
          host_port scheme (authority_of back) (rsplit_colon (authority_of back))
          >>= checked scheme (path_of back) in
        Yields-map m (λ u e. (scheme, back, scheme_prefix base front back scheme h n))
          (Yields-self m))

-- A redirect whose location begins with a slash, from any URL that is accepted: the URL that it gives
-- is accepted and has the same scheme, host and port, and the location is its path.
pub resolve_url_same_origin :
    (base l : Bytes) (u : ParsedUrl)
    → parse_url base ≡ ok u
    → parse_url (resolve_url base (b'/' ∷ l)) ≡ ok (record u { path = b'/' ∷ l })
unfolding parse_url
resolve_url_same_origin base l u e =
    let (scheme, rest, p) =
      Yields-ok (λ u. (scheme : UrlScheme) × (rest : Bytes) × (base ≡ prefix_of scheme ++ rest))
        (parse_url base) (from_parts base (split_scheme base) (split_scheme-IsSplit base)) e in
    ap (λ x. parse_url (resolve_url x (b'/' ∷ l))) p
    ∙ same_origin scheme rest l u (ap parse_url (sym p) ∙ e)

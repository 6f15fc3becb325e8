-- ===== src/Handle/Relative.antt =====
-- handle.rs: redirects to a relative location from a URL without a path.
use unstable_drift.Prelude.{
  ℕ, ◌≡◌, ◌≢◌, refl, ap, sym, subst, ◌∙◌, true, false, none, [], ◌∷◌, ◌++◌, append_assoc, All,
  All-append, arith,
}
use unstable_drift.Prelude.{ok, ◌==◌, ==_iff, and_true, Bool-cases, inl, inr}
use unstable_drift.Bytes.{Bytes}
use unstable_drift.Bytes.Text.{ascii}
use unstable_drift.Bytes.Search.{starts_with}
use unstable_drift.Handle.{
  UrlScheme, http, https, authority_of, path_of, or_here, rsplit_colon, default_port, host_port,
  checked, parse_url, last_or, last_slash, base_dir, resolve_url,
}
use unstable_drift.Handle.Origin.{prefix_of, behind, parse_prefix}

-- A byte that ends no host: neither a slash nor a colon.
abbrev pub IsPlain : ℕ → Type 0
IsPlain b = (b ≢ b'/') × (b ≢ b':')

last_slash-none : (l : Bytes) → All IsPlain l → last_slash l ≡ none
unfolding last_slash last_or
last_slash-none [] h = refl
last_slash-none (b ∷ bs) h = let n = h.0.0 in rw (last_slash-none bs h.1) (ground arith)

rsplit_colon-none : (l : Bytes) → All IsPlain l → rsplit_colon l ≡ none
unfolding rsplit_colon or_here
rsplit_colon-none [] h = refl
rsplit_colon-none (b ∷ bs) h = let n = h.0.1 in rw (rsplit_colon-none bs h.1) (ground arith)

authority_of-All : (l : Bytes) → All IsPlain l → authority_of l ≡ l
unfolding authority_of
authority_of-All [] h = refl
authority_of-All (b ∷ bs) h = let n = h.0.0 in let e = authority_of-All bs h.1 in ground arith

path_of_none : (l : Bytes) → All IsPlain l → path_of l ≡ b'/' ∷ []
unfolding path_of
path_of_none [] h = refl
path_of_none (b ∷ bs) h = let n = h.0.0 in let e = path_of_none bs h.1 in ground arith

-- A text that starts with another has its bytes.
starts_with-All : (p t : Bytes) → starts_with p t ≡ true → All IsPlain t → All IsPlain p
unfolding starts_with
starts_with-All [] t e h = tt
starts_with-All (a ∷ p) [] e h = ground arith
starts_with-All (a ∷ p) (b ∷ t) e h =
    let (same, more) = and_true (a == b) (starts_with p t) e in
    (subst IsPlain (sym ((==_iff a b).0 same)) h.0, starts_with-All p t more h.1)

no_start : (p t : Bytes) → ¬ All IsPlain p → All IsPlain t → starts_with p t ≡ false
no_start p t n h = elim (Bool-cases (starts_with p t)) [
  | inl e ↦ absurd (n (starts_with-All p t e h))
  | inr e ↦ e
]

base_of :
    (scheme : UrlScheme) (host : Bytes)
    → All IsPlain host
    → base_dir (prefix_of scheme ++ host) (last_slash (prefix_of scheme ++ host))
      ≡ prefix_of scheme ++ host
unfolding base_dir last_slash last_or
base_of http host h = rw (last_slash-none host h) refl
base_of https host h = rw (last_slash-none host h) refl

resolve_relative :
    (scheme : UrlScheme) (host location : Bytes)
    → All IsPlain host
    → All IsPlain location
    → resolve_url (prefix_of scheme ++ host) location ≡ prefix_of scheme ++ (host ++ location)
unfolding resolve_url
resolve_relative scheme host location h k =
    let a = no_start (ascii "http://") location (λ p. p.1.1.1.1.0.1 refl) k in
    let b = no_start (ascii "https://") location (λ p. p.1.1.1.1.1.0.1 refl) k in
    let c = no_start (ascii "/") location (λ p. p.0.0 refl) k in
    rw (a, b, c)
      (ap (λ x. x ++ location) (base_of scheme host h)
        ∙ append_assoc (prefix_of scheme) host location)

-- From `http://host` or `https://host`, a redirect to a relative location goes to a host whose name is
-- the old one with the location behind it, where neither has a slash or a colon.
pub relative_joins_host :
    (scheme : UrlScheme) (b : ℕ) (host location : Bytes)
    → All IsPlain (b ∷ host)
    → All IsPlain location
    → parse_url (resolve_url (prefix_of scheme ++ b ∷ host) location)
      ≡ ok (record {
        scheme = scheme;
        host = b ∷ (host ++ location);
        port = default_port scheme;
        path = b'/' ∷ [];
      })
unfolding behind host_port checked
relative_joins_host scheme b host location h k =
    let all = All-append IsPlain (b ∷ host) location h k in
    let whole = b ∷ (host ++ location) in
    ap parse_url (resolve_relative scheme (b ∷ host) location h k)
    ∙ parse_prefix scheme whole
    ∙ rw (authority_of-All whole all, rsplit_colon-none whole all, path_of_none whole all) refl

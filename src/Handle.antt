-- ===== src/Handle.antt =====
-- drift-core/src/handle.rs: the URLs of the request handle, and the redirects that it follows.
pub mod Origin
pub mod Relative
pub mod Options
pub mod Settings
pub mod Compression
pub mod Fetch
pub mod Perform
pub mod Streams
mod Examples
use unstable_drift.Prelude.{
  ℕ, zero, suc, ◌+◌, Bool, true, false, ◌&&◌, ◌||◌, Option, none, some, List, [], ◌∷◌, ◌++◌, take,
}
use unstable_drift.Prelude.{Result, ok, err, ok_or, ◌>>=◌, ◌==◌, ltb, if◌then◌else◌}
use unstable_drift.Bytes.{Bytes}
use unstable_drift.Bytes.Text.{ascii, parse_u16}
use unstable_drift.Bytes.Search.{starts_with}

-- What `Error::Config` of `parse_url` says.
pub data UrlFault : Type 0 where
  missing_scheme : UrlFault
  unsupported_scheme : UrlFault
  bad_port : UrlFault
  empty_host : UrlFault

pub data UrlScheme : Type 0 where
  http : UrlScheme
  https : UrlScheme

pub record ParsedUrl : Type 0 where
  pub scheme : UrlScheme
  pub host : Bytes
  pub port : ℕ
  pub path : Bytes

unfoldable pub prepend : ℕ → Option (Bytes × Bytes) → Option (Bytes × Bytes)
prepend b none = none
prepend b (some (front, back)) = some (b ∷ front, back)

-- `split_once("://")`
unfoldable pub split_scheme : Bytes → Option (Bytes × Bytes)
split_scheme (a ∷ b ∷ c ∷ rest) =
    let further = split_scheme (b ∷ c ∷ rest) in
    if (a == b':') && ((b == b'/') && (c == b'/')) then some ([], rest) else prepend a further
split_scheme _ = none

-- `match scheme_str`
unfoldable pub scheme_of : Bytes → Result UrlFault UrlScheme
scheme_of (a ∷ b ∷ c ∷ d ∷ []) =
    if ((a == b'h') && (b == b't')) && ((c == b't') && (d == b'p'))
    then ok http
    else err unsupported_scheme
scheme_of (a ∷ b ∷ c ∷ d ∷ e ∷ []) =
    if (((a == b'h') && (b == b't')) && ((c == b't') && (d == b'p'))) && (e == b's')
    then ok https
    else err unsupported_scheme
scheme_of _ = err unsupported_scheme

-- The authority in front of the first '/', and the path from there on, or "/".
unfoldable pub authority_of : Bytes → Bytes
authority_of [] = []
authority_of (b ∷ bs) = let more = authority_of bs in if b == b'/' then [] else b ∷ more

unfoldable pub path_of : Bytes → Bytes
path_of [] = b'/' ∷ []
path_of (b ∷ bs) = let more = path_of bs in if b == b'/' then b ∷ bs else more

-- `rsplit_once(':')`
unfoldable pub or_here : ℕ → Bytes → Option (Bytes × Bytes) → Option (Bytes × Bytes)
or_here b bs none = if b == b':' then some ([], bs) else none
or_here b bs (some (front, back)) = some (b ∷ front, back)

unfoldable pub rsplit_colon : Bytes → Option (Bytes × Bytes)
rsplit_colon [] = none
rsplit_colon (b ∷ bs) = or_here b bs (rsplit_colon bs)

unfoldable pub default_port : UrlScheme → ℕ
default_port http = 80
default_port https = 443

unfoldable pub host_port : UrlScheme → Bytes → Option (Bytes × Bytes) → Result UrlFault (Bytes × ℕ)
host_port scheme authority none = ok (authority, default_port scheme)
host_port scheme authority (some (h, p)) = do port ← ok_or (parse_u16 p) bad_port; ok (h, port)

unfoldable pub checked : UrlScheme → (path : Bytes) → Bytes × ℕ → Result UrlFault ParsedUrl
checked scheme path ([], port) = err empty_host
checked scheme path (h ∷ host, port) =
    ok (record { scheme = scheme; host = h ∷ host; port = port; path = path })

unfoldable pub parse_url : Bytes → Result UrlFault ParsedUrl
parse_url s = do
  parts ← ok_or (split_scheme s) missing_scheme
  scheme ← scheme_of parts.0
  hp ← host_port scheme (authority_of parts.1) (rsplit_colon (authority_of parts.1))
  checked scheme (path_of parts.1) hp

unfoldable pub is_redirect_status : ℕ → Bool
is_redirect_status status =
    ((status == 301) || (status == 302))
    || ((status == 303) || ((status == 307) || (status == 308)))

-- `split('/').take(n + 1)`, joined by "/": what stands in front of the slash number n, from 0 on.
unfoldable pub front_of : ℕ → Bytes → Bytes
front_of n [] = []
front_of zero (b ∷ bs) = let more = front_of zero bs in if b == b'/' then [] else b ∷ more
front_of (suc n) (b ∷ bs) =
    let next = front_of n bs in
    let more = front_of (suc n) bs in if b == b'/' then b ∷ next else b ∷ more

-- `rfind('/')`
unfoldable pub last_or : ℕ → Option ℕ → Option ℕ
last_or b none = if b == b'/' then some 0 else none
last_or b (some i) = some (suc i)

unfoldable pub last_slash : Bytes → Option ℕ
last_slash [] = none
last_slash (b ∷ bs) = last_or b (last_slash bs)

unfoldable pub base_dir : Bytes → Option ℕ → Bytes
base_dir base none = base
base_dir base (some i) = if ltb 8 i then take (suc i) base else base

unfoldable pub resolve_url : (base location : Bytes) → Bytes
resolve_url base location =
    if starts_with (ascii "http://") location || starts_with (ascii "https://") location
    then location
    else if starts_with (ascii "/") location
    then front_of 2 base ++ location
    else base_dir base (last_slash base) ++ location

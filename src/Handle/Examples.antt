-- ===== src/Handle/Examples.antt =====
-- A URL and a redirect from it.
use unstable_drift.Prelude.{Result, true, false, none, some, zero, suc, ℕ, ◌≡◌, ◌≢◌, refl, ok}
use unstable_drift.Bytes.Text.{ascii}
use unstable_drift.Handle.{ParsedUrl, https, parse_url, resolve_url}
use unstable_drift.Handle.Origin.{resolve_url_same_origin}
use unstable_drift.Handle.Settings.{get}
use unstable_drift.Handle.Perform.{Reply, HandleError, perform}
use unstable_drift.Handle.Perform.Bounded.{Within, perform_bounded}
use unstable_drift.Handle.Relative.{IsPlain}

abbrev here : ParsedUrl
here = record { scheme = https; host = ascii "a.b"; port = 8443; path = ascii "/x/y" }

parsed : parse_url (ascii "https://a.b:8443/x/y") ≡ ok here
unfolding parse_url unstable_drift.Handle.split_scheme unstable_drift.Handle.prepend
    unstable_drift.Handle.scheme_of unstable_drift.Handle.host_port
    unstable_drift.Handle.rsplit_colon unstable_drift.Handle.authority_of
    unstable_drift.Handle.or_here unstable_drift.Bytes.Text.parse_u16
    unstable_drift.Bytes.Text.u16_digits unstable_drift.Handle.checked unstable_drift.Handle.path_of
parsed = refl

resolved : resolve_url (ascii "https://a.b/x/y") (ascii "z") ≡ ascii "https://a.b/x/z"
unfolding resolve_url unstable_drift.Bytes.Search.starts_with unstable_drift.Handle.base_dir
    unstable_drift.Handle.last_slash unstable_drift.Handle.last_or
resolved = refl

resolve_url_same_origin_example :
    parse_url (resolve_url (ascii "https://a.b:8443/x/y") (ascii "/z"))
    ≡ ok (record here { path = ascii "/z" })
resolve_url_same_origin_example =
    resolve_url_same_origin (ascii "https://a.b:8443/x/y") (ascii "z") here parsed

-- The host "ab" and the location "z" make the host "abz".
plain : (b : ℕ) → b ≢ b'/' → b ≢ b':' → IsPlain b
plain b p q = (p, q)

-- A server that redirects the first request.
answers : ℕ → Result HandleError Reply
answers zero = ok (record { status = 302; location = some (ascii "/z"); keep_alive = true })
answers (suc k) = ok (record { status = 200; location = none; keep_alive = false })

perform_bounded_example :
    let (r, effects) = perform true answers true 3 (some (ascii "http://a.b/x")) get in
    Within 4 r effects
perform_bounded_example = perform_bounded true answers true 3 (ascii "http://a.b/x") get

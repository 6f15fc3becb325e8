-- ===== src/Handle/Settings/Lens.antt =====
-- handle.rs, `set_option`: what each key stands for, and which values it takes.
use unstable_drift.Prelude.{
  ℕ, ◌≡◌, refl, subst, ◌⊎◌, inl, inr, Bool, true, false, Option, none, some, arith,
}
use unstable_drift.Prelude.{ok, err, Option-cases}
use unstable_drift.Handle.Settings.{
  Opt, OptValue, tls_verify_peer, tls_verify_host, tls_min_version, tls_max_version,
  http_follow_redirects, http_max_redirects, tcp_nodelay, tcp_keepalive, timeout_total,
  timeout_connect, cookies_enabled, user_agent, verbose, max_response_size, bool, u32, u64,
  duration, string, tls_version, nothing, WispHandle, wrong_value, put_option, set_option,
}

-- The kinds of values.
pub data Kind : Type 0 where
  flag : Kind
  small : Kind
  large : Kind
  span : Kind
  words : Kind
  version : Kind
  absent : Kind

pub kind_of : OptValue → Kind
kind_of (bool b) = flag
kind_of (u32 n) = small
kind_of (u64 n) = large
kind_of (duration d) = span
kind_of (string s) = words
kind_of (tls_version v) = version
kind_of nothing = absent

-- The kind of an option, and whether it can be taken away.
pub kind_at : Opt → Kind × Bool
kind_at tls_min_version = (version, false)
kind_at tls_max_version = (version, false)
kind_at http_max_redirects = (small, false)
kind_at timeout_total = (span, true)
kind_at timeout_connect = (span, false)
kind_at user_agent = (words, false)
kind_at max_response_size = (large, true)
kind_at _ = (flag, false)

-- The value that an option has.
or_nothing : (ℕ → OptValue) → Option ℕ → OptValue
or_nothing f none = nothing
or_nothing f (some n) = f n

pub get_option : Opt → WispHandle → OptValue
unfolding or_nothing
get_option tls_verify_peer h = bool (h.tls.verify_peer)
get_option tls_verify_host h = bool (h.tls.verify_host)
get_option tls_min_version h = tls_version (h.tls.min_version)
get_option tls_max_version h = tls_version (h.tls.max_version)
get_option http_follow_redirects h = bool (h.http.follow_redirects)
get_option http_max_redirects h = u32 (h.http.max_redirects)
get_option tcp_nodelay h = bool (h.tcp.nodelay)
get_option tcp_keepalive h = bool (h.tcp.keepalive)
get_option timeout_total h = or_nothing duration (h.timeouts.total)
get_option timeout_connect h = duration (h.timeouts.connect)
get_option cookies_enabled h = bool (h.cookies.enabled)
get_option user_agent h = string (h.general.user_agent)
get_option verbose h = bool (h.general.verbose)
get_option max_response_size h = or_nothing u64 (h.general.max_response_size)

-- The option takes the value: it is of the option's kind, or takes the option away.
pub data Takes (key : Opt) (value : OptValue) : Type 0 where
  of_kind : (kind_at key).0 ≡ kind_of value → Takes key value
  away : (kind_at key).1 ≡ true → value ≡ nothing → Takes key value

-- A value that is put is read back, and putting the old one again undoes it.
Puts : Opt → OptValue → WispHandle → Option WispHandle → Type 0
Puts key value h none = ¬ Takes key value
Puts key value h (some h') =
    Takes key value × (get_option key h' ≡ value) × (put_option key (get_option key h) h' ≡ some h)

put_option-Puts :
    (key : Opt) (value : OptValue) (h : WispHandle) → Puts key value h (put_option key value h)
unfolding put_option Puts get_option or_nothing kind_at kind_of
put_option-Puts timeout_total (duration d) h = (of_kind refl, refl, ground arith)
put_option-Puts timeout_total nothing h = (away refl refl, refl, ground arith)
put_option-Puts max_response_size (u64 n) h = (of_kind refl, refl, ground arith)
put_option-Puts max_response_size nothing h = (away refl refl, refl, ground arith)
put_option-Puts key value h = ground (arith, of_kind)

-- Setting an option either works or does nothing. It works for the values of the option's kind, and for
-- none if the option can be taken away: then the option has that value, and setting its old value again
-- gives the old handle back, so nothing else has changed. Any other value is refused with the key and
-- the value, and the handle is as it was.
pub set_option_outcome :
    (key : Opt) (value : OptValue) (h : WispHandle)
    → (Takes key value
        × ((set_option key value h).1 ≡ ok tt)
        × (get_option key (set_option key value h).0 ≡ value)
        × (set_option key (get_option key h) (set_option key value h).0 ≡ (h, ok tt)))
      ⊎ (¬ Takes key value × (set_option key value h ≡ (h, err (wrong_value key value))))
unfolding set_option Puts
set_option_outcome key value h = elim (Option-cases (put_option key value h)) [
  | inl e ↦ inr (subst (Puts key value h) e (put_option-Puts key value h), rw e refl)
  | inr (h', e) ↦
      let p : Puts key value h (some h') =
        subst (Puts key value h) e (put_option-Puts key value h) in
      inl (p.0, rw e refl, rw e p.1, rw e (rw p.2 refl))
]

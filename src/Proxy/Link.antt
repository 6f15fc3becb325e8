-- ===== src/Proxy/Link.antt =====
-- The byte stream under a negotiation: `read_exact`, `write_all` and `flush` of tokio.
--
-- `incoming` is all that the peer sends before it closes, `outgoing` what has been written. The
-- stream takes `writable` more writes and then fails; a failed write leaves nothing in `outgoing`,
-- and the callers drop a stream whose negotiation failed.
use unstable_drift.Prelude.{
  ℕ, zero, suc, ◌≡◌, refl, ap, sym, ◌∙◌, Option, none, some, [], ◌∷◌, ◌++◌, ◌<◌, length, append-nil,
  append_assoc, Yields, if-cases, ltb→lt, lt→ltb,
}
use unstable_drift.Prelude.{Result, ok, err, if◌then◌else◌, ltb}
use unstable_drift.Bytes.{Bytes}
use unstable_drift.Proxy.{ProxyError, io, protocol, ProtocolFault, unexpected_eof, write_failed}

pub record Link : Type 0 where
  pub incoming : Bytes
  pub outgoing : Bytes
  pub writable : ℕ

unfoldable pub prepend : ℕ → Option (Bytes × Bytes) → Option (Bytes × Bytes)
prepend b none = none
prepend b (some (bytes, rest)) = some (b ∷ bytes, rest)

unfoldable pub split_exact : ℕ → Bytes → Option (Bytes × Bytes)
split_exact zero l = some ([], l)
split_exact (suc n) [] = none
split_exact (suc n) (b ∷ l) = prepend b (split_exact n l)

unfoldable pub received : Link → Option (Bytes × Bytes) → Result ProxyError (Bytes × Link)
received s none = err (io unexpected_eof)
received s (some (bytes, rest)) = ok (bytes, record s { incoming = rest })

unfoldable pub read_exact : ℕ → Link → Result ProxyError (Bytes × Link)
unfolding received split_exact
read_exact n s = received s (split_exact n s.incoming)

-- `write_all(..).await?; flush().await?`
unfoldable pub appended : Bytes → Link → ℕ → Result ProxyError Link
appended bytes s zero = err (io write_failed)
appended bytes s (suc n) = ok (record s { outgoing = s.outgoing ++ bytes; writable = n })

unfoldable pub write_all : Bytes → Link → Result ProxyError Link
unfolding appended
write_all bytes s = appended bytes s s.writable

-- `resp[i]`, of an array that has an `i`-th byte.
abbrev pub at : ℕ → Bytes → ℕ
at i [] = 0
at zero (b ∷ bs) = b
at (suc i) (b ∷ bs) = at i bs

-- `len.try_into()` to a `u8`
unfoldable pub to_u8 : ℕ → ProtocolFault → Result ProxyError ℕ
to_u8 n fault = if ltb n 256 then ok n else err (protocol fault)

-- `s'` is `s` after `reply` has been read, no byte more, and `request` written.
pub record Exchange (s s' : Link) (reply request : Bytes) : Type 0 where
  pub read : s.incoming ≡ reply ++ s'.incoming
  pub wrote : s'.outgoing ≡ s.outgoing ++ request

pub Exchange-append :
    {s s' s'' : Link} {r r' w w' : Bytes}
    → Exchange s s' r w
    → Exchange s' s'' r' w'
    → Exchange s s'' (r ++ r') (w ++ w')
Exchange-append {s} {s'} {s''} {r} {r'} {w} {w'} e e' = record {
  read = e.read ∙ ap (◌++◌ r) e'.read ∙ sym (append_assoc r r' s''.incoming);
  wrote = e'.wrote ∙ ap (λ l. l ++ w') e.wrote ∙ append_assoc s.outgoing w w';
}

pub Exchange-none : (s : Link) → Exchange s s [] []
Exchange-none s = record { read = refl; wrote = sym (append-nil s.outgoing) }

-- What has been read is a prefix, of the length asked for.
IsPrefix : ℕ → Bytes → Option (Bytes × Bytes) → Type 0
IsPrefix n l none = Unit
IsPrefix n l (some (bytes, rest)) = (l ≡ bytes ++ rest) × (length bytes ≡ n)

prepend-IsPrefix :
    (n b : ℕ) (l : Bytes) (o : Option (Bytes × Bytes))
    → IsPrefix n l o
    → IsPrefix (suc n) (b ∷ l) (prepend b o)
unfolding IsPrefix prepend
prepend-IsPrefix n b l none h = tt
prepend-IsPrefix n b l (some (bytes, rest)) h = (ap (◌∷◌ b) h.0, ap suc h.1)

split_exact-IsPrefix : (n : ℕ) (l : Bytes) → IsPrefix n l (split_exact n l)
unfolding IsPrefix split_exact
split_exact-IsPrefix zero l = (refl, refl)
split_exact-IsPrefix (suc n) [] = tt
split_exact-IsPrefix (suc n) (b ∷ l) =
    prepend-IsPrefix n b l (split_exact n l) (split_exact-IsPrefix n l)

received-Yields :
    (n : ℕ) (s : Link) (o : Option (Bytes × Bytes))
    → IsPrefix n s.incoming o
    → Yields (λ got. Exchange s got.1 got.0 [] × (length got.0 ≡ n)) (received s o)
unfolding IsPrefix received
received-Yields n s none h = tt
received-Yields n s (some (bytes, rest)) h =
    (record { read = h.0; wrote = sym (append-nil s.outgoing) }, h.1)

pub read_exact-Yields :
    (n : ℕ) (s : Link)
    → Yields (λ got. Exchange s got.1 got.0 [] × (length got.0 ≡ n)) (read_exact n s)
unfolding read_exact
read_exact-Yields n s =
    received-Yields n s (split_exact n s.incoming) (split_exact-IsPrefix n s.incoming)

appended-Yields :
    (bytes : Bytes) (s : Link) (n : ℕ) → Yields (λ s'. Exchange s s' [] bytes) (appended bytes s n)
unfolding appended
appended-Yields bytes s zero = tt
appended-Yields bytes s (suc n) = record { read = refl; wrote = refl }

pub write_all-Yields :
    (bytes : Bytes) (s : Link) → Yields (λ s'. Exchange s s' [] bytes) (write_all bytes s)
unfolding write_all
write_all-Yields bytes s = appended-Yields bytes s s.writable

pub to_u8-Yields :
    (n : ℕ) (fault : ProtocolFault) → Yields (λ m. (m ≡ n) × (n < 256)) (to_u8 n fault)
unfolding to_u8
to_u8-Yields n fault =
    if-cases (Yields (λ m. (m ≡ n) × (n < 256))) (ltb n 256) (λ e. (refl, ltb→lt n 256 e)) (λ e. tt)

-- Enough bytes are read, and no more.
pub split_exact-append : (l rest : Bytes) → split_exact (length l) (l ++ rest) ≡ some (l, rest)
unfolding split_exact prepend
split_exact-append [] rest = refl
split_exact-append (b ∷ l) rest = ap (prepend b) (split_exact-append l rest)

pub to_u8_fits : (n : ℕ) (fault : ProtocolFault) → n < 256 → to_u8 n fault ≡ ok n
unfolding to_u8
to_u8_fits n fault h = rw (lt→ltb n 256 h) refl

-- ===== src/Proxy/Steps.antt =====
-- A negotiation's reads and writes, one at a time: what each leaves on the link.
use unstable_drift.Prelude.{
  ℕ, ◌≡◌, ◌<◌, append-nil, refl, ap, sym, subst, ◌∙◌, false, [], ◌∷◌, ◌++◌, length, not, arith,
}
use unstable_drift.Prelude.{Result, ok, ◌>>=◌, ◌==◌, Yields, Yields-bind}
use unstable_drift.Bytes.{Bytes}
use unstable_drift.Proxy.{ProxyError, ProtocolFault}
use unstable_drift.Proxy.Link.{
  Link, at, read_exact, read_exact-Yields, write_all, write_all-Yields, to_u8, to_u8-Yields,
  Exchange, Exchange-append,
}
use unstable_drift.Prelude.{zero, suc, append-nil}
use unstable_drift.Proxy.Link.{received, split_exact, split_exact-append, appended}

pub not-== : (a b : ℕ) → not (a == b) ≡ false → a ≡ b
not-== a b h = ground arith

-- The bytes of a fixed-size read, one by one.
pub two : (l : Bytes) → length l ≡ 2 → l ≡ at 0 l ∷ at 1 l ∷ []
two [] e = ground arith
two (a ∷ []) e = ground arith
two (a ∷ b ∷ []) e = refl
two (a ∷ b ∷ c ∷ l) e = ground arith

pub one : (l : Bytes) → length l ≡ 1 → l ≡ at 0 l ∷ []
one [] e = ground arith
one (a ∷ []) e = refl
one (a ∷ b ∷ l) e = ground arith

pub four : (l : Bytes) → length l ≡ 4 → l ≡ at 0 l ∷ at 1 l ∷ at 2 l ∷ at 3 l ∷ []
four [] e = ground arith
four (a ∷ []) e = ground arith
four (a ∷ b ∷ []) e = ground arith
four (a ∷ b ∷ c ∷ []) e = ground arith
four (a ∷ b ∷ c ∷ d ∷ []) e = refl
four (a ∷ b ∷ c ∷ d ∷ x ∷ l) e = ground arith

pub reading :
    (n : ℕ) (s : Link) (Q : Link → Type 0) (f : Bytes × Link → Result ProxyError Link)
    → ((got : Bytes × Link) → Exchange s got.1 got.0 [] → length got.0 ≡ n → Yields Q (f got))
    → Yields Q (read_exact n s >>= f)
reading n s Q f h =
    Yields-bind (λ got. Exchange s got.1 got.0 [] × (length got.0 ≡ n)) Q (read_exact n s) f
      (read_exact-Yields n s) (λ got e. h got e.0 e.1)

pub writing :
    (bytes : Bytes) (s : Link) (Q : Link → Type 0) (f : Link → Result ProxyError Link)
    → ((s' : Link) → Exchange s s' [] bytes → Yields Q (f s'))
    → Yields Q (write_all bytes s >>= f)
writing bytes s Q f h =
    Yields-bind (λ s'. Exchange s s' [] bytes) Q (write_all bytes s) f (write_all-Yields bytes s) h

pub length_u8 :
    (n : ℕ) (fault : ProtocolFault) (Q : Link → Type 0) (f : ℕ → Result ProxyError Link)
    → (n < 256 → Yields Q (f n))
    → Yields Q (to_u8 n fault >>= f)
length_u8 n fault Q f h =
    Yields-bind (λ m. (m ≡ n) × (n < 256)) Q (to_u8 n fault) f (to_u8-Yields n fault)
      (λ m e. subst (λ k. Yields Q (f k)) (sym e.0) (h e.1))

pub replied :
    (s s' s'' : Link) (w r : Bytes) → Exchange s s' [] w → Exchange s' s'' r [] → Exchange s s'' r w
replied s s' s'' w r e e' = subst (Exchange s s'' r) (append-nil w) (Exchange-append e e')

pub exchanged : {s s' : Link} {l l' : Bytes} → Exchange s s' l [] → l ≡ l' → Exchange s s' l' []
exchanged {s} {s'} e h = subst (λ r. Exchange s s' r []) h e

pub read_ok :
    (n : ℕ) (l rest : Bytes) (s : Link)
    → length l ≡ n
    → s.incoming ≡ l ++ rest
    → read_exact n s ≡ ok (l, record s { incoming = rest })
unfolding read_exact received
read_ok n l rest s k e =
    ap (received s) (
      ap (split_exact n) e
      ∙ ap (λ m. split_exact m (l ++ rest)) (sym k)
      ∙ split_exact-append l rest)

-- A write that succeeds.
unfoldable pub Wrote : Bytes → Link → Link → Type 0
Wrote bytes s s' =
    (write_all bytes s ≡ ok s')
    × (s'.incoming ≡ s.incoming)
    × (s'.outgoing ≡ s.outgoing ++ bytes)
    × (s.writable ≡ suc s'.writable)

pub write_ok : (bytes : Bytes) (s : Link) → 0 < s.writable → (s' : Link) × Wrote bytes s s'
unfolding Wrote write_all appended
write_ok bytes s h = go s.writable refl
  where
    go : (n : ℕ) → s.writable ≡ n → (s' : Link) × Wrote bytes s s'
    go zero e = ground arith
    go (suc n) e = (
      record s { outgoing = s.outgoing ++ bytes; writable = n },
      (ap (appended bytes s) e, refl, refl, e),
    )

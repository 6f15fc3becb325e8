-- ===== src/Proxy/Socks4/Literal.antt =====
-- proxy/socks4.rs: the texts that `Ipv4Addr::from_str` takes, described apart from how it reads them.
use unstable_drift.Prelude.{
  ℕ, zero, suc, ◌+◌, ◌*◌, ◌-◌, ◌<◌, ◌≡◌, ◌≢◌, ◌⊎◌, inl, inr, refl, ap, subst, true, false, Option,
  none, some, [], ◌∷◌, ◌++◌, length, arith,
}
use unstable_drift.Prelude.{◌==◌, ==_iff, leb, if-both, if-cases}
use unstable_drift.Bytes.{Bytes}
use unstable_drift.Proxy.Socks4.{is_digit, octet, octet_then, after_dot, dotted, parse_ipv4}

-- One to three decimal digits without a leading zero, and their value, which is below 256.
pub data IsOctet (x : ℕ) : Bytes → Type 0 where
  one : {d : ℕ} → is_digit d ≡ true → x ≡ d - 48 → IsOctet x (d ∷ [])
  two :
      {d e : ℕ}
      → is_digit d ≡ true
      → is_digit e ≡ true
      → d - 48 ≢ 0
      → x ≡ (d - 48) * 10 + (e - 48)
      → IsOctet x (d ∷ e ∷ [])
  three :
      {d e f : ℕ}
      → is_digit d ≡ true
      → is_digit e ≡ true
      → is_digit f ≡ true
      → d - 48 ≢ 0
      → x ≡ ((d - 48) * 10 + (e - 48)) * 10 + (f - 48)
      → x < 256
      → IsOctet x (d ∷ e ∷ f ∷ [])

-- Octets, each with a dot in front of it.
pub data IsDotted : (ip text : Bytes) → Type 0 where
  no_more : IsDotted [] []
  more :
      {x : ℕ} {word ip rest text : Bytes}
      → IsOctet x word
      → IsDotted ip rest
      → text ≡ b'.' ∷ (word ++ rest)
      → IsDotted (x ∷ ip) text

-- The address in its four decimal octets with dots between.
pub IsLiteral : (ip host : Bytes) → Type 0
IsLiteral ip host = IsDotted ip (b'.' ∷ host) × (length ip ≡ 4)

-- What holds of a result, if there is one.
Found : {A : Type 0} → (A → Type 0) → Option A → Type 0
Found P none = Unit
Found P (some a) = P a

Found-map :
    {A : Type 0} {P Q : A → Type 0} (o : Option A) → ((a : A) → P a → Q a) → Found P o → Found Q o
unfolding Found
Found-map none f h = tt
Found-map (some a) f h = f a h

Stays : ℕ → Bytes → ℕ × Bytes → Type 0
Stays v bs (x, rest) = (x ≡ v) × (bs ≡ rest)

third : (v : ℕ) (bs : Bytes) → Found (Stays v bs) (octet 3 v bs)
unfolding Found Stays octet
third v [] = (refl, refl)
third v (b ∷ bs) = if-both (Found (Stays v (b ∷ bs))) (is_digit b) tt (refl, refl)

Second : ℕ → Bytes → ℕ × Bytes → Type 0
Second v bs (x, rest) =
    ((x ≡ v) × (bs ≡ rest))
    ⊎ ((f : ℕ) × (is_digit f ≡ true) × (bs ≡ f ∷ rest) × (x ≡ v * 10 + (f - 48)) × (x < 256))

below : (n x : ℕ) → leb 256 n ≡ false → x ≡ n → x < 256
below n x h e = ground arith

second : (v : ℕ) (bs : Bytes) → Found (Second v bs) (octet 2 v bs)
unfolding Found Stays Second octet
second v [] = inl (refl, refl)
second v (f ∷ bs) =
    let F = Found (Second v (f ∷ bs)) in
    if-cases F (is_digit f)
      (λ d.
        if-cases F (leb 256 (v * 10 + (f - 48))) (λ l. tt)
          (λ l.
            Found-map (octet 3 (v * 10 + (f - 48)) bs)
              (λ (x, rest) (e, r).
                inr (f, d, ap (λ t. f ∷ t) r, e, below (v * 10 + (f - 48)) x l e))
              (third (v * 10 + (f - 48)) bs)))
      (λ d. inl (refl, refl))

-- A word in front of the rest, and its value.
Word : Bytes → ℕ × Bytes → Type 0
Word bs (x, rest) = (w : Bytes) × (bs ≡ w ++ rest) × IsOctet x w

not_zero : (v : ℕ) → (v == 0) ≡ false → v ≢ 0
not_zero v h e = ground arith

first : (d : ℕ) (bs : Bytes) → is_digit d ≡ true → Found (Word (d ∷ bs)) (octet 1 (d - 48) bs)
unfolding Found Second Word octet
first d [] p = (d ∷ [], refl, one p refl)
first d (e ∷ bs) p =
    let v = d - 48 in
    let F = Found (Word (d ∷ e ∷ bs)) in
    if-cases F (is_digit e)
      (λ q.
        if-cases F (v == 0) (λ z. tt)
          (λ z.
            if-cases F (leb 256 (v * 10 + (e - 48))) (λ l. tt)
              (λ l.
                Found-map (octet 2 (v * 10 + (e - 48)) bs)
                  (λ (x, rest) s. elim s [
                    | inl (a, r) ↦ (d ∷ e ∷ [], ap (λ t. d ∷ e ∷ t) r, two p q (not_zero v z) a)
                    | inr (f, g, r, a, b) ↦
                        (d ∷ e ∷ f ∷ [], ap (λ t. d ∷ e ∷ t) r, three p q g (not_zero v z) a b)
                  ])
                  (second (v * 10 + (e - 48)) bs))))
      (λ q. (d ∷ [], refl, one p refl))

octet-Word : (bs : Bytes) → Found (Word bs) (octet 0 0 bs)
unfolding Found Word octet
octet-Word [] = tt
octet-Word (d ∷ bs) =
    let F = Found (Word (d ∷ bs)) in
    let same : 0 * 10 + (d - 48) ≡ d - 48 = omega arith in
    if-cases F (is_digit d)
      (λ p. if-both F (leb 256 (0 * 10 + (d - 48))) tt (rw same (first d bs p))) (λ p. tt)

octet_then-Found :
    (n x : ℕ) (word text rest : Bytes) (o : Option Bytes)
    → IsOctet x word
    → text ≡ word ++ rest
    → Found (λ ip. IsDotted ip rest × (length ip ≡ n)) o
    → Found (λ ip. IsDotted ip (b'.' ∷ text) × (length ip ≡ suc n)) (octet_then x o)
unfolding Found octet_then
octet_then-Found n x word text rest none i t h = tt
octet_then-Found n x word text rest (some ip) i t (d, l) =
    (more i d (ap (λ s. b'.' ∷ s) t), omega arith)

after_dot-Found :
    (n : ℕ) (further : Bytes → Option Bytes) (text : Bytes) (o : Option (ℕ × Bytes))
    → Found (Word text) o
    → ((rest : Bytes) → Found (λ ip. IsDotted ip rest × (length ip ≡ n)) (further rest))
    → Found (λ ip. IsDotted ip (b'.' ∷ text) × (length ip ≡ suc n)) (after_dot further o)
unfolding Found Word after_dot
after_dot-Found n further text none w h = tt
after_dot-Found n further text (some (x, rest)) (word, t, i) h =
    octet_then-Found n x word text rest (further rest) i t (h rest)

dotted-Found :
    (n : ℕ) (text : Bytes) → Found (λ ip. IsDotted ip text × (length ip ≡ n)) (dotted n text)
unfolding dotted Found
dotted-Found zero [] = (no_more, refl)
dotted-Found zero (b ∷ bs) = tt
dotted-Found (suc n) [] = tt
dotted-Found (suc n) (b ∷ bs) =
    let P : Bytes → Option Bytes → Type 0 =
      λ text. Found (λ ip. IsDotted ip text × (length ip ≡ suc n)) in
    if-cases (P (b ∷ bs)) (b == 46)
      (λ e.
        rw ((==_iff b 46).0 e)
          (after_dot-Found n (dotted n) bs (octet 0 0 bs) (octet-Word bs) (dotted-Found n)))
      (λ e. tt)

pub parse_ipv4-IsLiteral : (host ip : Bytes) → parse_ipv4 host ≡ some ip → IsLiteral ip host
unfolding parse_ipv4 IsLiteral Found
parse_ipv4-IsLiteral host ip e =
    subst (Found (λ ip. IsDotted ip (b'.' ∷ host) × (length ip ≡ 4))) e
      (dotted-Found 4 (b'.' ∷ host))

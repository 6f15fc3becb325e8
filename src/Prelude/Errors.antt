-- ===== src/Prelude/Errors.antt =====
-- Rust's `Result<A, E>`, with its `?` as the bind of a `do` block.
use mathlib.Core.Path.{◌≡◌, refl, subst}
use mathlib.Core.Logic.{◌⊎◌, inl, inr}
use mathlib.Core.Option.{Option, none, some}

pub data Result {ℓ κ} (E : Type ℓ) (A : Type κ) : Type (ℓ ⊔ κ) where
  ok : A → Result E A
  err : E → Result E A

infixl 5 ◌>>=◌ ◌>>◌
abbrev pub ◌>>=◌ {ℓ κ μ} :
    {E : Type ℓ} {A : Type κ} {B : Type μ} → Result E A → (A → Result E B) → Result E B
ok a >>= f = f a
err e >>= f = err e

abbrev pub ◌>>◌ {ℓ κ μ} :
    {E : Type ℓ} {A : Type κ} {B : Type μ} → Result E A → Result E B → Result E B
m >> k = m >>= λ _. k

-- `Option::ok_or`
abbrev pub ok_or {ℓ κ} : {E : Type ℓ} {A : Type κ} → Option A → E → Result E A
ok_or none e = err e
ok_or (some a) e = ok a

-- `Result::map_err`
abbrev pub map_err {ℓ κ μ} :
    {E : Type ℓ} {F : Type κ} {A : Type μ} → (E → F) → Result E A → Result F A
map_err f (ok a) = ok a
map_err f (err e) = err (f e)

pub Result-cases {ℓ κ} :
    {E : Type ℓ} {A : Type κ} (r : Result E A) → ((a : A) × (r ≡ ok a)) ⊎ ((e : E) × (r ≡ err e))
Result-cases (ok a) = inl (a, refl)
Result-cases (err e) = inr (e, refl)

-- What holds of the value, if there is one.
abbrev pub Yields {ℓ κ μ} : {E : Type ℓ} {A : Type κ} → (A → Type μ) → Result E A → Type μ
Yields P (ok a) = P a
Yields P (err e) = Unit

pub Yields-bind {ℓ κ μ ν ξ} :
    {E : Type ℓ} {A : Type κ} {B : Type μ} (P : A → Type ν) (Q : B → Type ξ) (m : Result E A)
    (f : A → Result E B)
    → Yields P m
    → ((a : A) → P a → Yields Q (f a))
    → Yields Q (m >>= f)
Yields-bind P Q (ok a) f h k = k a h
Yields-bind P Q (err e) f h k = tt

pub Yields-ok {ℓ κ μ} :
    {E : Type ℓ} {A : Type κ} (P : A → Type μ) (m : Result E A) {a : A}
    → Yields P m
    → m ≡ ok a
    → P a
Yields-ok P m h e = subst (Yields P) e h

pub Yields-map {ℓ κ μ ν} :
    {E : Type ℓ} {A : Type κ} {P : A → Type μ} {Q : A → Type ν} (m : Result E A)
    → ((a : A) → P a → Q a)
    → Yields P m
    → Yields Q m
Yields-map (ok a) f h = f a h
Yields-map (err e) f h = tt

pub Yields-self {ℓ κ} : {E : Type ℓ} {A : Type κ} (m : Result E A) → Yields (λ a. m ≡ ok a) m
Yields-self (ok a) = refl
Yields-self (err e) = tt

pub Yields-map_err {ℓ κ μ ν} :
    {E : Type ℓ} {F : Type κ} {A : Type μ} (P : A → Type ν) (f : E → F) (m : Result E A)
    → Yields P m
    → Yields P (map_err f m)
Yields-map_err P f (ok a) h = h
Yields-map_err P f (err e) h = tt

-- There is a value, and this holds of it.
abbrev pub Succeeds {ℓ κ μ} :
    {E : Type ℓ} {A : Type κ} → Result E A → (A → Type μ) → Type (ℓ ⊔ κ ⊔ μ)
Succeeds {A = A} m P = (a : A) × (m ≡ ok a) × P a

pub ok_or-Yields {ℓ κ} :
    {E : Type ℓ} {A : Type κ} (o : Option A) (e : E) → Yields (λ a. o ≡ some a) (ok_or o e)
ok_or-Yields none e = tt
ok_or-Yields (some a) e = refl

pub Yields-then {ℓ κ μ ν} :
    {E : Type ℓ} {A : Type κ} {B : Type μ} (Q : B → Type ν) (m : Result E A) (f : A → Result E B)
    → ((a : A) → Yields Q (f a))
    → Yields Q (m >>= f)
Yields-then Q (ok a) f k = k a
Yields-then Q (err e) f k = tt

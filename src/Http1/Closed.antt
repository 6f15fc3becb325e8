-- ===== src/Http1/Closed.antt =====
-- The bodies of http1.rs that the end of the stream delimits, and their limit.
use unstable_drift.Prelude.{
  ℕ, ◌+◌, ◌≡◌, ◌⊎◌, inl, inr, refl, ap, sym, ◌∙◌, false, Option, List, [], ◌∷◌, ◌++◌, length, take,
  drop, min, append-nil, append_assoc, take-append-drop, length-append,
}
use unstable_drift.Prelude.{Result, ok, ◌==◌, if-cases, Yields, Yields-map, Yields-ok}
use unstable_drift.Bytes.{Bytes}
use unstable_drift.Http1.{Http1Error, over, to_the_end}

-- `body` is `out` and a first part of `incoming`; it is within the limit, if anything was added.
abbrev pub Grows : Option ℕ → (out incoming body : Bytes) → Type 0
Grows most out incoming body =
    (more rest : Bytes) × (body ≡ out ++ more)
    × (incoming ≡ more ++ rest)
    × ((more ≡ []) ⊎ (over most (length body) ≡ false))

stays : (most : Option ℕ) (out incoming : Bytes) → Grows most out incoming out
stays most out incoming = ([], incoming, sym (append-nil out), refl, inl refl)

-- What a further read adds.
extends :
    (most : Option ℕ) (out incoming : Bytes) (n : ℕ)
    → over most (length out + length (take n incoming)) ≡ false
    → (body : Bytes) → Grows most (out ++ take n incoming) (drop n incoming) body
    → Grows most out incoming body
extends most out incoming n o body (more, rest, b, i, l) = (
  take n incoming ++ more,
  rest,
  b ∙ append_assoc out (take n incoming) more,
  sym (take-append-drop n incoming)
      ∙ ap (◌++◌ (take n incoming)) i
      ∙ sym (append_assoc (take n incoming) more rest),
  inr (elim l [
    | inl e ↦
        ap (λ x. over most (length x))
          (b ∙ ap (◌++◌ (out ++ take n incoming)) e ∙ append-nil (out ++ take n incoming))
        ∙ ap (over most) (length-append out (take n incoming))
        ∙ o
    | inr h ↦ h
  ]),
)

pub to_the_end-Yields :
    (most : Option ℕ) (arrivals : List ℕ) (out incoming : Bytes)
    → Yields (Grows most out incoming) (to_the_end most arrivals out incoming)
unfolding to_the_end
to_the_end-Yields most [] out incoming = stays most out incoming
to_the_end-Yields most (arriving ∷ later) out incoming =
    let n = min arriving 65536 in
    let got = take n incoming in
    let Y : Result Http1Error Bytes → Type 0 = Yields (Grows most out incoming) in
    if-cases Y (length got == 0) (λ e. stays most out incoming)
      (λ e.
        if-cases Y (over most (length out + length got)) (λ o. tt)
          (λ o.
            Yields-map (to_the_end most later (out ++ got) (drop n incoming))
              (extends most out incoming n o)
              (to_the_end-Yields most later (out ++ got) (drop n incoming))))

-- A body that the end of the stream delimits is what had come with the head and then the next bytes of
-- the stream, in order; it is within the limit, unless nothing came after the head. What came with the
-- head alone is not held against the limit.
pub to_the_end_sound :
    (most : Option ℕ) (arrivals : List ℕ) (prefix incoming body : Bytes)
    → to_the_end most arrivals prefix incoming ≡ ok body
    → (more rest : Bytes) × (body ≡ prefix ++ more)
      × (incoming ≡ more ++ rest)
      × ((more ≡ []) ⊎ (over most (length body) ≡ false))
to_the_end_sound most arrivals prefix incoming body =
    Yields-ok (Grows most prefix incoming) (to_the_end most arrivals prefix incoming)
      (to_the_end-Yields most arrivals prefix incoming)

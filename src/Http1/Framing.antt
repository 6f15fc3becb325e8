-- ===== src/Http1/Framing.antt =====
-- http1.rs: where the head and a body of known length are cut out of the stream.
use unstable_drift.Prelude.{
  ℕ, zero, suc, ◌-◌, ◌≤◌, ◌≡◌, refl, ap, sym, subst, ◌∙◌, Bool, true, false, ◌&&◌, Option, none,
  some, List, [], ◌∷◌, ◌++◌, length, take, drop, min, append_assoc, take-append-drop, length-append,
  length-take, take-length, take_all, arith,
}
use unstable_drift.Prelude.{
  Result, ok, ◌==◌, ltb, if◌then◌else◌, if-cases, Bool-cases, inl, inr, Yields, Yields-bind,
  Yields-map, Yields-ok,
}
use unstable_drift.Bytes.{Bytes}
use unstable_drift.Http1.{
  Http1Error, find_headers_end, one_further, Rest, found, read_until_headers_end, exact_loop,
  read_exact_body, sized_response,
}

-- More bytes behind do not move the end of the head, which lies in the buffer.
Agrees : ℕ → Option ℕ → Option ℕ → Type 0
Agrees n none o = Unit
Agrees n (some p) o = (o ≡ some p) × (p ≤ n)

further-Agrees :
    (n : ℕ) (o o' : Option ℕ) → Agrees n o o' → Agrees (suc n) (one_further o) (one_further o')
unfolding Agrees one_further
further-Agrees n none o' h = tt
further-Agrees n (some p) o' h = (ap one_further h.0, omega (arith, h.1))

choose-Agrees :
    (n : ℕ) (b : Bool) (o o' : Option ℕ)
    → 4 ≤ n
    → Agrees n o o'
    → Agrees n (if b then some 4 else o) (if b then some 4 else o')
unfolding Agrees
choose-Agrees n true o o' k h = (refl, k)
choose-Agrees n false o o' k h = h

find_headers_end-Agrees :
    (buf more : Bytes) → Agrees (length buf) (find_headers_end buf) (find_headers_end (buf ++ more))
unfolding Agrees find_headers_end
find_headers_end-Agrees [] more = tt
find_headers_end-Agrees (a ∷ []) more = tt
find_headers_end-Agrees (a ∷ b ∷ []) more = tt
find_headers_end-Agrees (a ∷ b ∷ c ∷ []) more = tt
find_headers_end-Agrees (a ∷ b ∷ c ∷ d ∷ rest) more =
    let l = b ∷ c ∷ d ∷ rest in
    choose-Agrees (length (a ∷ l)) (((a == 13) && (b == 10)) && ((c == 13) && (d == 10)))
      (one_further (find_headers_end l)) (one_further (find_headers_end (l ++ more))) (omega arith)
      (further-Agrees (length l) (find_headers_end l) (find_headers_end (l ++ more))
        (find_headers_end-Agrees (b ∷ c ∷ d ∷ rest) more))

-- What the search for the head leaves of the bytes `wire`.
abbrev pub Headed : Bytes → ℕ × Bytes × Rest → Type 0
Headed wire r = (find_headers_end wire ≡ some r.0) × (r.0 ≤ length r.1) × (r.1 ++ r.2.0 ≡ wire)

found-Yields :
    (o : Option ℕ) (buf : Bytes) (rest : Rest) (otherwise : Result Http1Error (ℕ × Bytes × Rest))
    → Agrees (length buf) o (find_headers_end (buf ++ rest.0))
    → Yields (Headed (buf ++ rest.0)) otherwise
    → Yields (Headed (buf ++ rest.0)) (found o buf rest otherwise)
unfolding Agrees found
found-Yields none buf rest otherwise h k = k
found-Yields (some p) buf rest otherwise h k = (h.0, h.1, refl)

pub moved :
    (n : ℕ) (buf incoming : Bytes) → (buf ++ take n incoming) ++ drop n incoming ≡ buf ++ incoming
moved n buf incoming =
    append_assoc buf (take n incoming) (drop n incoming)
    ∙ ap (◌++◌ buf) (take-append-drop n incoming)

pub head-Yields :
    (arrivals : List ℕ) (buf incoming : Bytes)
    → Yields (Headed (buf ++ incoming)) (read_until_headers_end arrivals buf incoming)
unfolding read_until_headers_end
head-Yields [] buf incoming =
    found-Yields (find_headers_end buf) buf (incoming, []) _ (find_headers_end-Agrees buf incoming)
      tt
head-Yields (arriving ∷ later) buf incoming =
    let n = min arriving 32768 in
    let got = take n incoming in
    let Y : Result Http1Error (ℕ × Bytes × Rest) → Type 0 = Yields (Headed (buf ++ incoming)) in
    found-Yields (find_headers_end buf) buf (incoming, arriving ∷ later) _
      (find_headers_end-Agrees buf incoming)
      (if-cases Y (length got == 0) (λ e. tt)
        (λ e.
          if-cases Y (ltb 1048576 (length (buf ++ got))) (λ e. tt)
            (λ e.
              subst
                (λ w.
                  Yields (Headed w) (read_until_headers_end later (buf ++ got) (drop n incoming)))
                (moved n buf incoming) (head-Yields later (buf ++ got) (drop n incoming)))))

-- What the loop over the body leaves.
abbrev Bodied : ℕ → Bytes → Bytes × Rest → Type 0
Bodied n whole r = (length r.0 ≡ n) × (r.0 ++ r.1.0 ≡ whole)

loop-Yields :
    (n : ℕ) (arrivals : List ℕ) (out incoming : Bytes)
    → length out ≤ n
    → Yields (Bodied n (out ++ incoming)) (exact_loop n arrivals out incoming)
unfolding exact_loop
loop-Yields n [] out incoming h =
    if-cases (Yields (Bodied n (out ++ incoming))) (ltb (length out) n) (λ e. tt)
      (λ e. (ground arith, refl))
loop-Yields n (arriving ∷ later) out incoming h =
    let m = min arriving (min (n - length out) 65536) in
    let got = take m incoming in
    let l = length-append out got in
    let t = length-take m incoming in
    let Y : Result Http1Error (Bytes × Rest) → Type 0 = Yields (Bodied n (out ++ incoming)) in
    if-cases Y (ltb (length out) n)
      (λ e.
        if-cases Y (length got == 0) (λ z. tt)
          (λ z.
            subst (λ w. Yields (Bodied n w) (exact_loop n later (out ++ got) (drop m incoming)))
              (moved m out incoming)
              (loop-Yields n later (out ++ got) (drop m incoming) (omega arith))))
      (λ e. (ground arith, refl))

pub take_within : (n : ℕ) (xs ys : Bytes) → n ≤ length xs → take n (xs ++ ys) ≡ take n xs
take_within zero xs ys h = refl
take_within (suc n) [] ys h = ground arith
take_within (suc n) (x ∷ xs) ys h = ap (◌∷◌ x) (take_within n xs ys (omega arith))

pub drop_within : (n : ℕ) (xs ys : Bytes) → n ≤ length xs → drop n (xs ++ ys) ≡ drop n xs ++ ys
drop_within zero xs ys h = refl
drop_within (suc n) [] ys h = ground arith
drop_within (suc n) (x ∷ xs) ys h = drop_within n xs ys (omega arith)

take-min : (n : ℕ) (xs : Bytes) → take (min (length xs) n) xs ≡ take n xs
take-min n xs = elim (Bool-cases (ltb n (length xs))) [
  | inl h ↦ let m : min (length xs) n ≡ n = ground arith in ap (λ k. take k xs) m
  | inr h ↦
      let m : min (length xs) n ≡ length xs = ground arith in
      let all : length xs ≤ n = ground arith in
      ap (λ k. take k xs) m ∙ take_all (length xs) xs (omega arith) ∙ sym (take_all n xs all)
]

take-take : (n : ℕ) (xs ys : Bytes) → take n (take n xs ++ ys) ≡ take n (xs ++ ys)
take-take zero xs ys = refl
take-take (suc n) [] ys = refl
take-take (suc n) (x ∷ xs) ys = ap (◌∷◌ x) (take-take n xs ys)

take_own : (n : ℕ) (xs ys : Bytes) → length xs ≡ n → take n (xs ++ ys) ≡ xs
take_own n xs ys h = ap (λ k. take k (xs ++ ys)) (sym h) ∙ take-length xs ys

-- The body is the first `n` bytes of what follows the head.
pub read_exact_body-Yields :
    (prefix incoming : Bytes) (n : ℕ) (arrivals : List ℕ)
    → Yields
        (λ r. (r.0 ≡ take n (prefix ++ incoming)) × (length r.0 ≡ n))
        (read_exact_body prefix n (incoming, arrivals))
unfolding read_exact_body
read_exact_body-Yields prefix incoming n arrivals =
    let out = take (min (length prefix) n) prefix in
    let l = length-take (min (length prefix) n) prefix in
    Yields-map (exact_loop n arrivals out incoming) (λ r b. (same r b, b.0))
      (loop-Yields n arrivals out incoming (omega arith))
  where
    same :
        (r : Bytes × Rest)
        → Bodied n (take (min (length prefix) n) prefix ++ incoming) r
        → r.0 ≡ take n (prefix ++ incoming)
    same r b =
        sym (take_own n r.0 r.1.0 b.0)
        ∙ ap (take n) b.1
        ∙ ap (λ o. take n (o ++ incoming)) (take-min n prefix)
        ∙ take-take n prefix incoming

-- A response of known length that is received, however its bytes arrive: its head ends at the first
-- empty line of what the peer sent, and its body is just the `n` bytes behind that.
pub sized_response_sound :
    (n : ℕ) (wire : Bytes) (arrivals : List ℕ) (idx : ℕ) (body : Bytes)
    → sized_response n wire arrivals ≡ ok (idx, body)
    → (find_headers_end wire ≡ some idx) × (body ≡ take n (drop idx wire)) × (length body ≡ n)
unfolding sized_response
sized_response_sound n wire arrivals idx body =
    let Q : ℕ × Bytes → Type 0 =
      λ r. (find_headers_end wire ≡ some r.0) × (r.1 ≡ take n (drop r.0 wire)) × (length r.1 ≡ n) in
    Yields-ok Q (sized_response n wire arrivals) (
      Yields-bind (Headed wire) Q (read_until_headers_end arrivals [] wire) _
        (head-Yields arrivals [] wire)
        (λ head h.
          let prefix = drop head.0 head.1 in
          let behind : prefix ++ head.2.0 ≡ drop head.0 wire =
            sym (drop_within head.0 head.1 head.2.0 h.1) ∙ ap (drop head.0) h.2 in
          Yields-bind (λ r. (r.0 ≡ take n (prefix ++ head.2.0)) × (length r.0 ≡ n)) Q
            (read_exact_body prefix n head.2) (λ r. ok (head.0, r.0))
            (read_exact_body-Yields prefix head.2.0 n head.2.1)
            (λ r b. (h.0, b.0 ∙ ap (take n) behind, b.1))))

-- ===== src/Http1/Total.antt =====
-- http1.rs: responses that the peer sends in full, with a content length.
use unstable_drift.Prelude.{
  ℕ, ◌+◌, ◌-◌, ◌≤◌, ◌<◌, ◌≡◌, refl, ap, sym, ◌∙◌, false, none, some, List, [], ◌∷◌, ◌++◌, length,
  take, drop, min, All, append-nil, length-append, length-take, length-drop, arith,
}
use unstable_drift.Prelude.{
  ok, Succeeds, ◌==◌, ltb, le→ltb, Bool-cases, Option-cases, inl, inr, Yields-ok,
}
use unstable_drift.Bytes.{Bytes}
use unstable_drift.Http1.{
  find_headers_end, found, read_until_headers_end, exact_loop, read_exact_body, sized_response,
  head_limit,
}
use unstable_drift.Http1.Framing.{sized_response_sound, Headed, head-Yields, moved}

-- Each read returns a byte at least, and there are as many reads as bytes.
abbrev pub Suffices : Bytes → List ℕ → Type 0
Suffices incoming arrivals = All (λ a. 0 < a) arrivals × (length incoming ≤ length arrivals)

pub later_Suffices :
    (a m : ℕ) (incoming : Bytes) (later : List ℕ)
    → 0 < m
    → Suffices incoming (a ∷ later)
    → Suffices (drop m incoming) later
later_Suffices a m incoming later k s =
    let l = length-drop m incoming in (s.0.1, omega (arith, s.1))

-- The loop over the body.
loop_total :
    (n : ℕ) (arrivals : List ℕ) (out incoming : Bytes)
    → Suffices incoming arrivals
    → n ≤ length out + length incoming
    → Succeeds (exact_loop n arrivals out incoming) (λ r. Unit {0})
unfolding exact_loop
loop_total n [] out incoming s h =
    ((out, (incoming, [])), rw (le→ltb (length out) n (omega (arith, s.1))) refl, tt)
loop_total n (arriving ∷ later) out incoming s h = elim (Bool-cases (ltb (length out) n)) [
  | inr e ↦ ((out, (incoming, arriving ∷ later)), rw e refl, tt)
  | inl e ↦
      let m = min arriving (min (n - length out) 65536) in
      let got = take m incoming in
      let t = length-take m incoming in
      let d = length-drop m incoming in
      let l = length-append out got in
      let p = s.0.0 in
      let less : length out < n = ground arith in
      let pos : 0 < m = omega arith in
      let some : (length got == 0) ≡ false = ground arith in
      let (r, q, u) =
        loop_total n later (out ++ got) (drop m incoming)
          (later_Suffices arriving m incoming later pos s) (omega arith) in
      (r, rw (e, some) q, tt)
]

nothing_new :
    (buf incoming : Bytes) (idx : ℕ)
    → find_headers_end buf ≡ none
    → find_headers_end (buf ++ incoming) ≡ some idx
    → 0 < length incoming
nothing_new buf [] idx e f =
    let g : none ≡ some idx = sym e ∙ ap find_headers_end (sym (append-nil buf)) ∙ f in ground arith
nothing_new buf (b ∷ bs) idx e f = omega arith

-- The search for the end of the head.
head_total :
    (arrivals : List ℕ) (buf incoming : Bytes) (idx : ℕ)
    → Suffices incoming arrivals
    → find_headers_end (buf ++ incoming) ≡ some idx
    → length (buf ++ incoming) ≤ head_limit
    → Succeeds (read_until_headers_end arrivals buf incoming) (λ r. Suffices r.2.0 r.2.1)
unfolding read_until_headers_end found
head_total [] buf [] idx s f h =
    let g : find_headers_end buf ≡ some idx = ap find_headers_end (sym (append-nil buf)) ∙ f in
    ((idx, buf, ([], [])), rw g refl, s)
head_total [] buf (b ∷ bs) idx s f h = absurd (omega (arith, s.1))
head_total (arriving ∷ later) buf incoming idx s f h = elim (Option-cases (find_headers_end buf)) [
  | inr (p, e) ↦ ((p, buf, (incoming, arriving ∷ later)), rw e refl, s)
  | inl e ↦
      let n = min arriving 32768 in
      let got = take n incoming in
      let new = nothing_new buf incoming idx e f in
      let t = length-take n incoming in
      let l = length-append buf got in
      let l' = length-append buf incoming in
      let p = s.0.0 in
      let pos : 0 < n = omega arith in
      let some : (length got == 0) ≡ false = ground arith in
      let small : ltb 1048576 (length (buf ++ got)) ≡ false =
        le→ltb 1048576 (length (buf ++ got)) (omega arith) in
      let same = moved n buf incoming in
      let (r, q, u) =
        head_total later (buf ++ got) (drop n incoming) idx
          (later_Suffices arriving n incoming later pos s) (ap find_headers_end same ∙ f)
          (rw same h) in
      (r, rw (e, some, small) q, u)
]

-- A peer that sends a head of at most 1 MiB in all with what follows it, and behind the head at least
-- as many bytes as the content length says, is understood, however its bytes arrive, as long as each
-- read returns one and reads go on until all have been read: the head ends at the first empty line,
-- and the body is what the content length counts off behind it.
pub sized_response_total :
    (n : ℕ) (wire : Bytes) (arrivals : List ℕ) (idx : ℕ)
    → find_headers_end wire ≡ some idx
    → idx + n ≤ length wire
    → length wire ≤ head_limit
    → All (λ a. 0 < a) arrivals
    → length wire ≤ length arrivals
    → sized_response n wire arrivals ≡ ok (idx, take n (drop idx wire))
unfolding sized_response read_exact_body
sized_response_total n wire arrivals idx f fits h positive enough =
    let (head, q, rest) = head_total arrivals [] wire idx (positive, enough) f h in
    let k : Headed wire head =
      Yields-ok (Headed wire) (read_until_headers_end arrivals [] wire)
        (head-Yields arrivals [] wire) q in
    let i : head.0 ≡ idx = some_lem (sym k.0 ∙ f) in
    let prefix = drop head.0 head.1 in
    let out = take (min (length prefix) n) prefix in
    let a = length-take (min (length prefix) n) prefix in
    let b = length-drop head.0 head.1 in
    let c = length-append head.1 head.2.0 in
    let d : length (head.1 ++ head.2.0) ≡ length wire = ap length k.2 in
    let (r, q', u) = loop_total n head.2.1 out head.2.0 rest (omega (arith, k.1)) in
    let e : sized_response n wire arrivals ≡ ok (head.0, r.0) = rw (q, q') refl in
    let body = sized_response_sound n wire arrivals head.0 r.0 e in
    e ∙ ap (λ x. ok (head.0, x)) body.1 ∙ ap (λ j. ok (j, take n (drop j wire))) i
  where
    some_lem : {x y : ℕ} → some x ≡ some y → x ≡ y
    some_lem e = ground arith

-- ===== src/Bytes/Search.antt =====
-- What Rust's std does with a text: `trim`, `split`, `contains`, `starts_with` and `to_lowercase`.
use unstable_drift.Prelude.{
  ℕ, zero, suc, ◌+◌, ◌-◌, ◌≡◌, refl, ap, ◌∙◌, Bool, true, false, ◌&&◌, ◌||◌, [], ◌∷◌,
}
use unstable_drift.Prelude.{arith, ◌==◌, ==_iff, ==-self, and_true, leb, ltb, if◌then◌else◌}
use unstable_drift.Bytes.{Bytes}
use unstable_drift.Bytes.Text.{white}

-- `trim_start`. `skip` is what is left of a white character.
unfoldable pub trim_start_from : (skip : ℕ) → Bytes → Bytes
trim_start_from skip [] = []
trim_start_from (suc skip) (b ∷ bs) = trim_start_from skip bs
trim_start_from zero (b ∷ bs) =
    let w = white (b ∷ bs) in
    let next = trim_start_from (w - 1) bs in if ltb 0 w then next else b ∷ bs

-- Are there only white characters?
unfoldable pub only_white : (skip : ℕ) → Bytes → Bool
only_white skip [] = true
only_white (suc skip) (b ∷ bs) = only_white skip bs
only_white zero (b ∷ bs) =
    let w = white (b ∷ bs) in let next = only_white (w - 1) bs in ltb 0 w && next

unfoldable pub trim_end : Bytes → Bytes
trim_end [] = []
trim_end (b ∷ bs) = let kept = trim_end bs in if only_white 0 (b ∷ bs) then [] else b ∷ kept

unfoldable pub trim : Bytes → Bytes
trim text = trim_end (trim_start_from 0 text)

-- `split(c).next()`: what stands before the first `c`, or the whole text.
unfoldable pub before_char : ℕ → Bytes → Bytes
before_char c [] = []
before_char c (b ∷ bs) = let more = before_char c bs in if b == c then [] else b ∷ more

-- `to_lowercase` of a text in ASCII.
unfoldable pub to_lowercase : Bytes → Bytes
to_lowercase [] = []
to_lowercase (b ∷ bs) =
    let rest = to_lowercase bs in if leb 65 b && leb b 90 then (b + 32) ∷ rest else b ∷ rest

unfoldable pub starts_with : Bytes → Bytes → Bool
starts_with [] text = true
starts_with (p ∷ ps) [] = false
starts_with (p ∷ ps) (b ∷ bs) = (p == b) && starts_with ps bs

-- `contains` of a text.
unfoldable pub contains : Bytes → Bytes → Bool
contains part [] = starts_with part []
contains part (b ∷ bs) = let further = contains part bs in starts_with part (b ∷ bs) || further

unfoldable pub same_text : Bytes → Bytes → Bool
same_text [] [] = true
same_text [] (b ∷ bs) = false
same_text (a ∷ l) [] = false
same_text (a ∷ l) (b ∷ bs) = (a == b) && same_text l bs

pub same_text_lem : (a b : Bytes) → same_text a b ≡ true → a ≡ b
unfolding same_text
same_text_lem [] [] h = refl
same_text_lem [] (b ∷ bs) h = ground arith
same_text_lem (a ∷ x) [] h = ground arith
same_text_lem (a ∷ x) (b ∷ y) h =
    let (e, t) = and_true (a == b) (same_text x y) h in
    ap (λ c. c ∷ x) ((==_iff a b).0 e) ∙ ap (◌∷◌ b) (same_text_lem x y t)

pub same_text_self : (a : Bytes) → same_text a a ≡ true
unfolding same_text
same_text_self [] = refl
same_text_self (b ∷ bs) = rw (==-self b, same_text_self bs) refl

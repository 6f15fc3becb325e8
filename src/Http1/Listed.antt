-- ===== src/Http1/Listed.antt =====
-- A map of headers as a list, which obeys the laws of the `http` crate.
use unstable_drift.Prelude.{
  ◌≡◌, refl, ap, sym, ◌∙◌, false, Option, none, some, List, [], ◌∷◌, ◌++◌, arith,
}
use unstable_drift.Prelude.{if◌then◌else◌, Bool-cases, inl, inr}
use unstable_drift.Bytes.{Bytes}
use unstable_drift.Bytes.Search.{to_lowercase, same_text, same_text_lem, same_text_self}
use unstable_drift.Http1.Headers.{HeaderMap, HeaderMapLaws, is_some}

abbrev pub Entries : Type 0
Entries = List (Bytes × Bytes)

unfoldable pub look_up : Entries → Bytes → Option Bytes
look_up [] name = none
look_up ((n, v) ∷ rest) name =
    let further = look_up rest name in if same_text n name then some v else further

unfoldable pub without : Entries → Bytes → Entries
without [] name = []
without ((n, v) ∷ rest) name =
    let kept = without rest name in if same_text n name then kept else (n, v) ∷ kept

abbrev pub listed : HeaderMap
listed = record {
  Headers = Entries;
  new = [];
  entries = λ es. es;
  get = look_up;
  contains_key = λ es name. is_some (look_up es name);
  append = λ es name v. es ++ ((name, v) ∷ []);
  insert = λ es name v. without es name ++ ((name, v) ∷ []);
  name_from = λ name. some (to_lowercase name);
  value_from = λ v. some v;
  to_str = λ v. some v;
}

look_up-append :
    (m : Entries) (n v k : Bytes)
    → look_up m k ≡ none
    → look_up (m ++ ((n, v) ∷ [])) k ≡ (if same_text n k then some v else none)
unfolding look_up
look_up-append [] n v k e = refl
look_up-append ((n', v') ∷ m) n v k e = elim (Bool-cases (same_text n' k)) [
  | inl f ↦ let g : some v' ≡ none = sym (rw f refl) ∙ e in ground arith
  | inr f ↦ rw f (look_up-append m n v k (sym (rw f refl) ∙ e))
]

look_up_kept :
    (m : Entries) (n v k w : Bytes) → look_up m k ≡ some w → look_up (m ++ ((n, v) ∷ [])) k ≡ some w
unfolding look_up
look_up_kept [] n v k w e = ground arith
look_up_kept ((n', v') ∷ m) n v k w e = elim (Bool-cases (same_text n' k)) [
  | inl f ↦ rw f (sym (rw f refl) ∙ e)
  | inr f ↦ rw f (look_up_kept m n v k w (sym (rw f refl) ∙ e))
]

look_up_other :
    (m : Entries) (n v k : Bytes)
    → same_text n k ≡ false
    → look_up (m ++ ((n, v) ∷ [])) k ≡ look_up m k
unfolding look_up
look_up_other [] n v k e = rw e refl
look_up_other ((n', v') ∷ m) n v k e =
    ap (λ o. if same_text n' k then some v' else o) (look_up_other m n v k e)

look_up-without_self : (m : Entries) (n : Bytes) → look_up (without m n) n ≡ none
unfolding look_up without
look_up-without_self [] n = refl
look_up-without_self ((n', v') ∷ m) n = elim (Bool-cases (same_text n' n)) [
  | inl f ↦ rw f (look_up-without_self m n)
  | inr f ↦ rw (f, f) (look_up-without_self m n)
]

look_up-without :
    (m : Entries) (n k : Bytes) → same_text n k ≡ false → look_up (without m n) k ≡ look_up m k
unfolding look_up without
look_up-without [] n k e = refl
look_up-without ((n', v') ∷ m) n k e = elim (Bool-cases (same_text n' n)) [
  | inl f ↦
      let g : same_text n' k ≡ false = ap (λ x. same_text x k) (same_text_lem n' n f) ∙ e in
      rw (f, g) (look_up-without m n k e)
  | inr f ↦ rw f (ap (λ o. if same_text n' k then some v' else o) (look_up-without m n k e))
]

pub listed_laws : HeaderMapLaws listed
unfolding look_up
listed_laws = record {
  get_new = λ k. refl;
  get_insert = λ m n v.
      look_up-append (without m n) n v n (look_up-without_self m n) ∙ rw (same_text_self n) refl;
  get_insert_other = λ m n v k e. look_up_other (without m n) n v k e ∙ look_up-without m n k e;
  get_append_first = λ m n v e. look_up-append m n v n e ∙ rw (same_text_self n) refl;
  get_append_kept = look_up_kept;
  get_append_other = look_up_other;
  contains_get = λ m k. refl;
}

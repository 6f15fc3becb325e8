-- ===== src/Wisp/Mux/Cases.antt =====
-- The outcomes of one round of `send_data`, each with the condition for it.
use unstable_drift.Prelude.{ℕ, ◌<◌, ◌≡◌, refl, none, some, arith, Option-cases, inl, inr, ◌⊎◌}
use unstable_drift.Assoc.{get, insert}
use unstable_drift.Wisp.Types.StreamType.{StreamType, tcp, udp}
use unstable_drift.Wisp.Mux.{StreamState, MuxInner}
use unstable_drift.Wisp.Mux.Traffic.{attempt, attempt_on, spend, refused, granted, blocked}

zero-cases : (n : ℕ) → (n ≡ 0) ⊎ (0 < n)
zero-cases n = ground arith

Type-cases : (t : StreamType) → (t ≡ udp) ⊎ (t ≡ tcp)
Type-cases tcp = inr refl
Type-cases udp = inl refl

pub attempt_cases :
    (id : ℕ) (m : MuxInner)
    → ((get id m.streams ≡ none) × (attempt id m ≡ (refused, m)))
      ⊎ ((st : StreamState) × (get id m.streams ≡ some st)
          × (st.stream_type ≡ udp)
          × (attempt id m ≡ (granted, m)))
      ⊎ ((st : StreamState) × (get id m.streams ≡ some st)
          × (st.stream_type ≡ tcp)
          × (st.credit ≡ 0)
          × (attempt id m ≡ (blocked st.credit_notify, m)))
      ⊎ ((st : StreamState) × (get id m.streams ≡ some st)
          × (st.stream_type ≡ tcp)
          × (0 < st.credit)
          × (attempt id m ≡ (granted, record m { streams = insert id (spend st) m.streams })))
unfolding attempt attempt_on
attempt_cases id m = elim (Option-cases (get id m.streams)) [
  | inl e ↦ inl (e, rw (e, attempt))
  | inr (st, e) ↦ inr (elim (Type-cases st.stream_type) [
    | inl u ↦ inl (st, e, u, rw (e, attempt) (rw (u, attempt_on)))
    | inr u ↦ inr (elim (zero-cases st.credit) [
      | inl z ↦ inl (st, e, u, z, rw (e, attempt) (rw (u, attempt_on) (ground arith)))
      | inr z ↦ inr (st, e, u, z, rw (e, attempt) (rw (u, attempt_on) (ground arith)))
    ])
  ])
]

-- ===== src/Wisp/Mux/Wakeup/Resume.antt =====
-- When a waiting `send_data` goes on, and when it does not.
use unstable_drift.Prelude.{
  ℕ, ◌≡◌, ◌<◌, ◌⊎◌, inl, inr, refl, true, false, List, [], ◌∷◌, some, ok, arith, ◌∙◌,
}
use unstable_drift.Prelude.{◌==◌, if◌then◌else◌, ltb, Bool-cases, lt→ltb, ==-self, ==_iff}
use unstable_drift.Bytes.{Bytes, IsU32}
use unstable_drift.Assoc.{get, insert, get-insert}
use unstable_drift.Wisp.Types.PacketType.{continue}
use unstable_drift.Wisp.Types.StreamType.{tcp}
use unstable_drift.Wisp.Frame.{encode_packet_to_vec, encode_continue}
use unstable_drift.Wisp.Frame.RoundTrip.{packet_round_trip, continue_round_trip}
use unstable_drift.Wisp.Mux.{StreamState, MuxInner, Call, transmit, deliver, notify_waiters}
use unstable_drift.Wisp.Mux.Traffic.{
  attempt, Attempt, refused, blocked, attempt_on, granted, dispatch_inbound, handle, on_continue,
  refill,
}
use unstable_drift.Wisp.Mux.History.{Event, receives, step}
use unstable_drift.Wisp.Mux.Wakeup.{
  Notify, Pc, checking, unlocked, awaiting, sending, failed, System, Step, check, create, resume,
  others, notify_by, after_check, Reach, next,
}

-- The frame by which the peer grants `n` on stream `id`.
abbrev pub grant_frame : ℕ → ℕ → Bytes
grant_frame id n = encode_packet_to_vec continue id (encode_continue n)

abbrev pub refilled : ℕ → ℕ → StreamState → MuxInner → MuxInner
refilled id n st m = record m { streams = insert id (refill n st) m.streams }

pub dispatch_grant :
    (id n : ℕ) (st : StreamState) (m : MuxInner)
    → 0 < id
    → IsU32 id
    → IsU32 n
    → get id m.streams ≡ some st
    → dispatch_inbound (grant_frame id n) m
      ≡ (ok tt, refilled id n st m, notify_waiters st.credit_notify ∷ [])
unfolding dispatch_inbound handle on_continue
dispatch_grant id n st m pos u w e =
    rw ((packet_round_trip continue id (encode_continue n) u).3, dispatch_inbound)
      (ground (arith, e, continue_round_trip n w))

pub attempt_credit :
    (id : ℕ) (st : StreamState) (m : MuxInner)
    → get id m.streams ≡ some st
    → st.stream_type ≡ tcp
    → (attempt id m).0 ≡ (if ltb 0 st.credit then granted else blocked st.credit_notify)
unfolding attempt attempt_on
attempt_credit id st m e t = rw (e, attempt) (rw (t, attempt_on) (ground arith))

attempt_blocked :
    (id : ℕ) (st : StreamState) (m : MuxInner)
    → get id m.streams ≡ some st
    → st.stream_type ≡ tcp
    → st.credit ≡ 0
    → attempt id m ≡ (blocked st.credit_notify, m)
unfolding attempt attempt_on
attempt_blocked id st m e t z = rw (e, attempt) (rw (t, attempt_on) (ground arith))

-- The refilled stream lets a DATA packet out.
refilled_grants :
    (id n : ℕ) (st : StreamState) (m : MuxInner)
    → 0 < n
    → st.stream_type ≡ tcp
    → (attempt id (refilled id n st m)).0 ≡ granted
unfolding refill
refilled_grants id n st m h t =
    attempt_credit id (refill n st) (refilled id n st m)
      (rw (get-insert id id (refill n st) m.streams, ==-self id)) t
    ∙ rw (lt→ltb 0 n h)

-- Stream `id` is an open TCP stream that the task with `Notify` number `ref` sends on.
pub record Sends (id ref : ℕ) (m : MuxInner) (st : StreamState) : Type 0 where
  pub here : get id m.streams ≡ some st
  pub typed : st.stream_type ≡ tcp
  pub notifies : st.credit_notify ≡ ref
  pub pos : 0 < id
  pub fits : IsU32 id

module _ (N : Notify) (id ref : ℕ) where
  open N use {State, Future, notified, notify_all, ready, wakes, stays, no_permit}

  -- A future that the task awaits is the latest one, or it is ready.
  abbrev Fresh : Pc N → State → Type 0
  Fresh (awaiting f) s = (f ≡ notified s) ⊎ (ready s f ≡ true)
  Fresh _ s = Unit {0}

  Fresh-notify_all : (pc : Pc N) (s : State) → Fresh pc s → Fresh pc (notify_all s)
  Fresh-notify_all (awaiting f) s (inl e) = inr (rw e (wakes s))
  Fresh-notify_all (awaiting f) s (inr r) = inr (stays s f r)
  Fresh-notify_all checking s h = tt
  Fresh-notify_all unlocked s h = tt
  Fresh-notify_all sending s h = tt
  Fresh-notify_all (failed e) s h = tt

  Fresh-notify_by :
      (pc : Pc N) (calls : List Call) (s : State) → Fresh pc s → Fresh pc (notify_by N ref calls s)
  unfolding notify_by
  Fresh-notify_by pc [] s h = h
  Fresh-notify_by pc (transmit frame ∷ calls) s h = Fresh-notify_by pc calls s h
  Fresh-notify_by pc (deliver tx b ∷ calls) s h = Fresh-notify_by pc calls s h
  Fresh-notify_by pc (notify_waiters k ∷ calls) s h = elim (Bool-cases (k == ref)) [
    | inl y ↦ rw y (Fresh-notify_by pc calls (notify_all s) (Fresh-notify_all pc s h))
    | inr n ↦ rw n (Fresh-notify_by pc calls s h)
  ]

  after_check-Fresh : (a : Attempt) (s : State) → Fresh (after_check N id a) s
  unfolding after_check
  after_check-Fresh granted s = tt
  after_check-Fresh refused s = tt
  after_check-Fresh (blocked n) s = tt

  Step-Fresh : {s t : System N} → Fresh s.pc s.notify → Step N id ref s t → Fresh t.pc t.notify
  Step-Fresh {s} h (check e) = after_check-Fresh (attempt id s.inner).0 s.notify
  Step-Fresh h (create e) = inl refl
  Step-Fresh h (resume f e r) = tt
  Step-Fresh {s} h (others e) = Fresh-notify_by s.pc (step e s.inner).1 s.notify h

  Reach-Fresh : {s t : System N} → s.pc ≡ checking → Reach N id ref s t → Fresh t.pc t.notify
  Reach-Fresh e Reach.here = rw e tt
  Reach-Fresh e (next r st) = Step-Fresh (Reach-Fresh e r) st

  -- Whatever the tasks have done before: if a `send_data` awaits its future while the peer grants
  -- credit on its open TCP stream, the future becomes ready and the next look finds the credit.
  pub waiter_wakes :
      {s t : System N} (f : Future) (st : StreamState) (n : ℕ)
      → s.pc ≡ checking
      → Reach N id ref s t
      → t.pc ≡ awaiting f
      → Sends id ref t.inner st
      → 0 < n
      → IsU32 n
      → let (inner, calls) = step (receives (grant_frame id n)) t.inner in
        (ready (notify_by N ref calls t.notify) f ≡ true) × ((attempt id inner).0 ≡ granted)
  unfolding step notify_by
  waiter_wakes {s} {t} f st n start r e o h w =
      rw (dispatch_grant id n st t.inner o.pos o.fits w o.here) (
        rw ((==_iff st.credit_notify ref).1 o.notifies) (woken (rw e at (Reach-Fresh start r))),
        refilled_grants id n st t.inner h o.typed,
      )
    where
      woken : Fresh (awaiting f) t.notify → ready (notify_all t.notify) f ≡ true
      woken (inl p) = rw p (wakes t.notify)
      woken (inr p) = stays t.notify f p

  -- The gap in `send_data`: on an open TCP stream without credit, a task finds no credit and leaves
  -- the lock; a grant of the peer, of any size but 0, arrives; then the task makes its future. By
  -- steps that the program can take, it now awaits a future that is not ready, although there is
  -- credit for its stream.
  pub lost_wakeup :
      (s : System N) (st : StreamState) (n : ℕ)
      → s.pc ≡ checking
      → Sends id ref s.inner st
      → st.credit ≡ 0
      → 0 < n
      → IsU32 n
      → (t : System N) × (f : Future) × Reach N id ref s t
        × (t.pc ≡ awaiting f)
        × (ready t.notify f ≡ false)
        × ((attempt id t.inner).0 ≡ granted)
  unfolding step after_check
  lost_wakeup s st n start o z h w = (
    stranded,
    notified gap.notify,
    next (next (next Reach.here (check start)) (others grant)) (create unlocks),
    refl,
    no_permit gap.notify,
    granting,
  )
    where
      looks : attempt id s.inner ≡ (blocked st.credit_notify, s.inner)
      looks = attempt_blocked id st s.inner o.here o.typed z

      looked : System N
      looked = record s {
        inner = (attempt id s.inner).1;
        pc = after_check N id (attempt id s.inner).0;
      }

      grant : Event
      grant = receives (grant_frame id n)

      gap : System N
      gap = record looked {
        inner = (step grant looked.inner).0;
        notify = notify_by N ref (step grant looked.inner).1 looked.notify;
      }

      stranded : System N
      stranded = record gap { pc = awaiting (notified gap.notify) }

      unlocks : after_check N id (attempt id s.inner).0 ≡ unlocked
      unlocks = rw looks refl

      granting : (attempt id (step grant (attempt id s.inner).1).0).0 ≡ granted
      granting = rw looks (
          rw (dispatch_grant id n st s.inner o.pos o.fits w o.here)
            (refilled_grants id n st s.inner h o.typed))

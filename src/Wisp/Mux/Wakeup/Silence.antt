-- ===== src/Wisp/Mux/Wakeup/Silence.antt =====
-- wisp/mux.rs: a `send_data` that waits on a stream which `close_stream` removes.
use unstable_drift.Prelude.{ℕ, ◌≡◌, inl, inr, refl, List, [], ◌∷◌, arith}
use unstable_drift.Prelude.{◌==◌, Bool-cases}
use unstable_drift.Assoc.{get}
use unstable_drift.Wisp.Mux.{MuxInner, Call, Answer, transmit, deliver, notify_waiters}
use unstable_drift.Wisp.Mux.Inv.{IsValid, step-IsValid}
use unstable_drift.Wisp.Mux.Traffic.{close_stream}
use unstable_drift.Wisp.Mux.History.{Event, closes, step, run}
use unstable_drift.Prelude.{some, false}
use unstable_drift.Wisp.Types.CloseReason.{CloseReason}
use unstable_drift.Wisp.Mux.{StreamState}
use unstable_drift.Assoc.{get-remove}
use unstable_drift.Wisp.Mux.Wakeup.{Notify, notify_by}
use unstable_drift.Wisp.Mux.Wakeup.Quiet.{Silent, AllNotifyOther, IsFree, run-Silent}

module _ (N : Notify) (ref : ℕ) where
  open N use {State, Future, ready}

  notify_by-Silent :
      (calls : List Call) (s : State) → Silent ref calls → notify_by N ref calls s ≡ s
  unfolding notify_by
  notify_by-Silent [] s h = refl
  notify_by-Silent (transmit frame ∷ calls) s h = notify_by-Silent calls s h
  notify_by-Silent (deliver tx b ∷ calls) s h = notify_by-Silent calls s h
  notify_by-Silent (notify_waiters n ∷ calls) s h = elim (Bool-cases (n == ref)) [
    | inl y ↦ absurd (ground (arith, h.0))
    | inr n ↦ rw n (notify_by-Silent calls s h.1)
  ]

  -- A `send_data` that awaits credit when its stream is closed by `close_stream` waits for ever, in a
  -- valid state where no other stream has its notifier and no later `open` gets it: its future does
  -- not become ready, whatever the peer and the other tasks do afterwards.
  pub close_strands_sender :
      (id : ℕ) (reason : CloseReason) (sent : Answer) (es : List Event) (m : MuxInner) (s : State)
      (f : Future)
      → IsValid m
      → ((k : ℕ) (st : StreamState) → get k m.streams ≡ some st → st.credit_notify ≡ ref → k ≡ id)
      → AllNotifyOther ref es
      → ready s f ≡ false
      → ready (notify_by N ref (run (closes id reason sent ∷ es) m).1 s) f ≡ false
  unfolding run step close_stream notify_by
  close_strands_sender id reason sent es m s f v only k asleep =
      let m' = (step (closes id reason sent) m).0 in
      rw
        (notify_by-Silent (run es m').1 s
          (run-Silent ref es m' (step-IsValid (closes id reason sent) m v) gone k))
        asleep
    where
      gone : IsFree ref (step (closes id reason sent) m).0
      gone j st e h = ground (arith, get-remove id j m.streams, only j st)

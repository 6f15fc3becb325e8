-- ===== src/Wisp/Mux/Wakeup.antt =====
-- The loop of `Mux::send_data` (wisp/mux.rs) as one task among others: it looks at the credit under
-- the lock, leaves the lock, makes the future `notify.notified()`, awaits it, and looks again. Other
-- tasks may use the mux between any two of these steps.
pub mod Resume
pub mod Quiet
pub mod Silence
use unstable_drift.Prelude.{ℕ, ◌≡◌, Bool, true, false, List, [], ◌∷◌, ok, err}
use unstable_drift.Prelude.{◌==◌, if◌then◌else◌, Result}
use unstable_drift.Wisp.Mux.{
  MuxError, unknown_stream, MuxInner, Call, transmit, deliver, notify_waiters,
}
use unstable_drift.Wisp.Mux.Traffic.{attempt, Attempt, granted, refused, blocked}
use unstable_drift.Wisp.Mux.History.{Event, step}

-- What the code relies on of `tokio::sync::Notify`, used by `notified` and `notify_waiters` alone:
-- `notify_waiters` wakes the futures made before it, for good, and stores no permit for later ones.
pub record Notify : Type 1 where
  pub State : Type 0
  pub Future : Type 0
  pub notified : State → Future
  pub notify_all : State → State
  pub ready : State → Future → Bool
  pub wakes : (s : State) → ready (notify_all s) (notified s) ≡ true
  pub stays : (s : State) (f : Future) → ready s f ≡ true → ready (notify_all s) f ≡ true
  pub no_permit : (s : State) → ready s (notified s) ≡ false

module _ (N : Notify) where
  open N use {State, Future, notified, notify_all, ready}

  -- Where the task stands in `send_data`.
  pub data Pc : Type 0 where
    checking : Pc  -- at the head of the loop
    unlocked : Pc  -- has taken `credit_notify` and left the lock
    awaiting : Future → Pc
    sending : Pc
    failed : MuxError → Pc

  -- `notify` is the `Notify` that the task took from its stream.
  pub record System : Type 0 where
    pub inner : MuxInner
    pub notify : State
    pub pc : Pc

  unfoldable pub after_check : ℕ → Attempt → Pc
  after_check id granted = sending
  after_check id refused = failed (unknown_stream id)
  after_check id (blocked n) = unlocked

  -- The calls of `notify_waiters` on the object with reference `ref`.
  unfoldable pub notify_by : ℕ → List Call → State → State
  notify_by ref [] s = s
  notify_by ref (notify_waiters n ∷ calls) s =
      notify_by ref calls (if n == ref then notify_all s else s)
  notify_by ref (transmit frame ∷ calls) s = notify_by ref calls s
  notify_by ref (deliver tx payload ∷ calls) s = notify_by ref calls s

  -- One step of the task for stream `id`, whose `Notify` is `ref`, or of any other task.
  pub data Step (id ref : ℕ) (s : System) : System → Type 0 where
    check :
        s.pc ≡ checking
        → Step id ref s (record s {
          inner = (attempt id s.inner).1;
          pc = after_check id (attempt id s.inner).0;
        })
    create : s.pc ≡ unlocked → Step id ref s (record s { pc = awaiting (notified s.notify) })
    resume :
        (f : Future)
        → s.pc ≡ awaiting f
        → ready s.notify f ≡ true
        → Step id ref s (record s { pc = checking })
    others :
        (e : Event)
        → Step id ref s (record s {
          inner = (step e s.inner).0;
          notify = notify_by ref (step e s.inner).1 s.notify;
        })

  pub data Reach (id ref : ℕ) (s : System) : System → Type 0 where
    here : Reach id ref s s
    next : {t u : System} → Reach id ref s t → Step id ref t u → Reach id ref s u

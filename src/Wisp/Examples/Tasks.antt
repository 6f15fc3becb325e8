-- ===== src/Wisp/Examples/Tasks.antt =====
-- A waiting `send_data` at concrete states.
use unstable_drift.Prelude.{ℕ, suc, ◌≡◌, refl, true, false, [], ◌∷◌, ok, arith, ltb}
use unstable_drift.Assoc.{get}
use unstable_drift.Wisp.Types.CloseReason.{voluntary}
use unstable_drift.Wisp.Mux.{StreamState, MuxInner}
use unstable_drift.Wisp.Mux.Traffic.{attempt, attempt_on, granted}
use unstable_drift.Wisp.Mux.History.{receives, step, run, closes}
use unstable_drift.Wisp.Mux.Wakeup.{
  Notify, System, checking, awaiting, Reach, check, create, here, next, notify_by, after_check,
}
use unstable_drift.Wisp.Mux.Wakeup.Resume.{grant_frame, Sends, waiter_wakes, lost_wakeup}
use unstable_drift.Wisp.Mux.Wakeup.Silence.{close_strands_sender}
use unstable_drift.Wisp.Examples.State.{first_stream, busy, history, busy-IsValid}

ltb-suc : (s : ℕ) → ltb s (suc s) ≡ true
ltb-suc s = ground arith

ltb-suc_of_ltb : (s f : ℕ) → ltb f s ≡ true → ltb f (suc s) ≡ true
ltb-suc_of_ltb s f r = ground arith

ltb_irrefl : (s : ℕ) → ltb s s ≡ false
ltb_irrefl s = ground arith

-- A counter of the calls of `notify_waiters`; a future is the count at its making.
abbrev counting : Notify
counting = record {
  State = ℕ;
  Future = ℕ;
  notified = λ s. s;
  notify_all = λ s. suc s;
  ready = λ s f. ltb f s;
  wakes = ltb-suc;
  stays = ltb-suc_of_ltb;
  no_permit = ltb_irrefl;
}

abbrev dry_stream : StreamState
dry_stream = record first_stream { credit = 0 }

abbrev dry : MuxInner
dry = record busy { streams = (1, dry_stream) ∷ [] }

abbrev starting : System counting
starting = record { inner = dry; notify = 0; pc = checking }

dry-Sends : Sends 1 20 dry dry_stream
unfolding get
dry-Sends = record {
  here = refl;
  typed = refl;
  notifies = refl;
  pos = omega arith;
  fits = omega arith;
}

abbrev waiting : System counting
waiting = record { inner = dry; notify = 0; pc = awaiting 0 }

waiting_reached : Reach counting 1 20 starting waiting
unfolding attempt attempt_on get after_check
waiting_reached = next (next here (check refl)) (create refl)

waiter_wakes_example :
    let (inner, calls) = step (receives (grant_frame 1 5)) dry in
    (ltb 0 (notify_by counting 20 calls 0) ≡ true) × ((attempt 1 inner).0 ≡ granted)
waiter_wakes_example =
    waiter_wakes counting 1 20 {s = starting} {t = waiting} 0 dry_stream 5 refl waiting_reached refl
      dry-Sends (omega arith) (omega arith)

lost_wakeup_example :
    (t : System counting) × (f : ℕ) × Reach counting 1 20 starting t
    × (t.pc ≡ awaiting f)
    × (ltb f t.notify ≡ false)
    × ((attempt 1 t.inner).0 ≡ granted)
lost_wakeup_example =
    lost_wakeup counting 1 20 starting dry_stream 5 refl dry-Sends refl (omega arith) (omega arith)

close_strands_sender_example :
    ltb 0 (notify_by counting 20 (run (closes 1 voluntary (ok tt) ∷ history) busy).1 0) ≡ false
unfolding get
close_strands_sender_example =
    close_strands_sender counting 20 1 voluntary (ok tt) history busy 0 0 busy-IsValid
      (λ k st e h. ground arith) (omega arith) refl

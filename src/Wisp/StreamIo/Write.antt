-- ===== src/Wisp/StreamIo/Write.antt =====
-- The write side of wisp/stream_io.rs: `poll_write`, `poll_flush`, `poll_shutdown` and their helpers.
pub mod Coalesce
use unstable_drift.Prelude.{ℕ, Bool, true, false, List, [], ◌∷◌, ◌++◌, length, leb, if◌then◌else◌}
use unstable_drift.Bytes.{Bytes}
use unstable_drift.Wisp.StreamIo.{
  write_flush_threshold, IoError, broken_pipe, drift_send, Poll, ready, failed, pending, SendPoll,
  sent, send_failed, send_pending, WispStreamIo,
}

-- The answer, the adapter after the call, and the bytes of the `send_data` calls begun.
abbrev pub Written : Type 0 → Type 0
Written A = Poll A × WispStreamIo × List Bytes

-- `start_send`: the whole buffer goes into a new send, which is polled once.
unfoldable pub start_send : SendPoll → WispStreamIo → Written (Unit {0})
start_send sent io = (ready tt, record io { write_buf = []; write_fut = false }, io.write_buf ∷ [])
start_send (send_failed e) io =
    (failed (drift_send e), record io { write_buf = []; write_fut = false }, io.write_buf ∷ [])
start_send send_pending io =
    (pending, record io { write_buf = []; write_fut = true }, io.write_buf ∷ [])

abbrev pub is_empty : Bytes → Bool
is_empty [] = true
is_empty (b ∷ bs) = false

-- `poll_flush_buf` with a send in flight. `flying` is what its poll answers, `fresh` what the first
-- poll of a send begun here does.
unfoldable pub drive : (flying fresh : SendPoll) → WispStreamIo → Written (Unit {0})
drive sent fresh io =
    let io' : WispStreamIo = record io { write_fut = false } in
    if is_empty io.write_buf then (ready tt, io', []) else start_send fresh io'
drive (send_failed e) fresh io = (failed (drift_send e), record io { write_fut = false }, [])
drive send_pending fresh io = (pending, io, [])

unfoldable pub poll_flush_buf : (flying fresh : SendPoll) → WispStreamIo → Written (Unit {0})
poll_flush_buf flying fresh io =
    if io.write_fut
    then drive flying fresh io
    else if is_empty io.write_buf
    then (ready tt, io, [])
    else start_send fresh io

-- `.map(|r| r.map(|()| n))`
unfoldable pub with_count : ℕ → Poll (Unit {0}) → Poll ℕ
with_count n (ready _) = ready n
with_count n (failed e) = failed e
with_count n pending = pending

-- `poll_write` once no send is in flight: buffer the bytes, and send at the threshold. `begun` are
-- the sends that this call has begun already.
unfoldable pub accept : SendPoll → Bytes → WispStreamIo → List Bytes → Written ℕ
accept fresh buf io begun =
    let io' : WispStreamIo = record io { write_buf = io.write_buf ++ buf } in
    if leb write_flush_threshold (length io'.write_buf)
    then (let (answer, io'', more) = start_send fresh io' in
        (with_count (length buf) answer, io'', begun ++ more))
    else (ready (length buf), io', begun)

unfoldable pub accept_after : SendPoll → Bytes → Written (Unit {0}) → Written ℕ
accept_after fresh buf (ready _, io, begun) = accept fresh buf io begun
accept_after fresh buf (failed e, io, begun) = (failed e, io, begun)
accept_after fresh buf (pending, io, begun) = (pending, io, begun)

-- `fresh` answers the first poll of a send begun by the flush, `fresh'` of one begun at the threshold.
unfoldable pub poll_write : (flying fresh fresh' : SendPoll) → Bytes → WispStreamIo → Written ℕ
poll_write flying fresh fresh' buf io =
    if io.closed
    then (failed broken_pipe, io, [])
    else if io.write_fut
    then accept_after fresh' buf (poll_flush_buf flying fresh io)
    else accept fresh' buf io []

unfoldable pub poll_flush : (flying fresh : SendPoll) → WispStreamIo → Written (Unit {0})
unfolding poll_flush_buf
poll_flush flying fresh io = poll_flush_buf flying fresh io

unfoldable pub poll_shutdown : WispStreamIo → Written (Unit {0})
poll_shutdown io = (ready tt, record io { closed = true }, [])

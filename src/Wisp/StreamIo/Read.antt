-- ===== src/Wisp/StreamIo/Read.antt =====
-- The read side of wisp/stream_io.rs: `poll_read`.
pub mod InOrder
use unstable_drift.Prelude.{
  ℕ, ◌≤◌, ◌≡◌, ◌⊎◌, Bool, true, false, List, [], ◌∷◌, ◌++◌, length, take, drop, min,
}
use unstable_drift.Prelude.{ltb, if◌then◌else◌}
use unstable_drift.Bytes.{Bytes}
use unstable_drift.Wisp.StreamIo.{RecvPoll, received, disconnected, recv_pending, WispStreamIo}
use unstable_drift.Wisp.StreamIo.Write.{is_empty}

-- `Poll<io::Result<()>>` with the bytes put into the caller's buffer; no read fails. `wake` is set
-- where the adapter wakes its own task.
pub data ReadPoll : Type 0 where
  filled : Bytes → ReadPoll
  unfilled : (wake : Bool) → ReadPoll

-- The answer, the adapter after the call, and the payloads taken from the channel.
abbrev pub ReadOutcome : Type 0
ReadOutcome = ReadPoll × WispStreamIo × List Bytes

-- A payload that has arrived, for a caller with room for `room` bytes.
unfoldable pub serve : ℕ → Bytes → WispStreamIo → ReadOutcome
serve room bytes io =
    let n = min (length bytes) room in
    let idle : WispStreamIo = record io { read_fut = false } in
    if is_empty bytes
    then (unfilled true, idle, bytes ∷ [])
    else if ltb n (length bytes)
    then (filled (take n bytes), record idle { read_leftover = drop n bytes }, bytes ∷ [])
    else (filled bytes, idle, bytes ∷ [])

unfoldable pub poll_recv : ℕ → RecvPoll → WispStreamIo → ReadOutcome
poll_recv room (received bytes) io = serve room bytes io
poll_recv room disconnected io = (filled [], record io { read_fut = false; closed = true }, [])
poll_recv room recv_pending io = (unfilled false, record io { read_fut = true }, [])

-- `answer` is what the receive answers where it is polled.
unfoldable pub poll_read : (room : ℕ) → (answer : RecvPoll) → WispStreamIo → ReadOutcome
poll_read room answer io =
    let n = min (length io.read_leftover) room in
    if is_empty io.read_leftover
    then (if io.closed then (filled [], io, []) else poll_recv room answer io)
    else (
      filled (take n io.read_leftover),
      record io { read_leftover = drop n io.read_leftover },
      [],
    )

abbrev pub put : ReadPoll → Bytes
put (filled bytes) = bytes
put (unfilled wake) = []

-- Any number of reads. What is put, the adapter after them, and the payloads taken.
unfoldable pub reads : List (ℕ × RecvPoll) → WispStreamIo → Bytes × WispStreamIo × List Bytes
reads [] io = ([], io, [])
reads ((room, answer) ∷ rs) io =
    let (r, io', taken) = poll_read room answer io in
    let (bytes, io'', more) = reads rs io' in (put r ++ bytes, io'', taken ++ more)

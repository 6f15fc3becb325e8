-- ===== src/Wisp/Examples/Adapters.antt =====
-- Reads and writes of an adapter.
use unstable_drift.Prelude.{
  ℕ, zero, suc, ap, ◌≤◌, ◌≡◌, refl, false, List, [], ◌∷◌, ◌++◌, length, concat, arith,
}
use unstable_drift.Bytes.{Bytes}
use unstable_drift.Wisp.StreamIo.{
  write_flush_threshold, WispStreamIo, ready, pending, sent, send_pending, RecvPoll, received,
  disconnected, recv_pending,
}
use unstable_drift.Wisp.StreamIo.Read.{reads}
use unstable_drift.Wisp.StreamIo.Read.InOrder.{reads_in_order}
use unstable_drift.Wisp.StreamIo.Write.{poll_write}
use unstable_drift.Wisp.StreamIo.Write.Coalesce.{
  Call, write, flush, prompt_write, any_flush, calls, written_in_order, duplicate_write,
}

abbrev adapter : WispStreamIo
adapter = record {
  stream_id = 1;
  inbound_rx = 10;
  read_leftover = 1 ∷ 2 ∷ 3 ∷ [];
  read_fut = false;
  write_fut = false;
  write_buf = [];
  closed = false;
}

abbrev some_reads : List (ℕ × RecvPoll)
some_reads =
    (2, recv_pending)
    ∷ (5, recv_pending)
    ∷ (5, recv_pending)
    ∷ (2, received (4 ∷ 5 ∷ 6 ∷ []))
    ∷ (1, recv_pending)
    ∷ (9, received [])
    ∷ (9, disconnected)
    ∷ []

some_reads_run : (reads some_reads adapter).0 ≡ 1 ∷ 2 ∷ 3 ∷ 4 ∷ 5 ∷ 6 ∷ []
unfolding reads unstable_drift.Wisp.StreamIo.Read.poll_read
    unstable_drift.Wisp.StreamIo.Read.poll_recv unstable_drift.Wisp.StreamIo.Read.serve
some_reads_run = refl

reads_in_order_example :
    let (bytes, io', taken) = reads some_reads adapter in
    bytes ++ io'.read_leftover ≡ adapter.read_leftover ++ concat taken
reads_in_order_example = reads_in_order some_reads adapter

abbrev some_calls : List Call
some_calls =
    write send_pending sent sent (1 ∷ 2 ∷ [])
    ∷ flush sent send_pending
    ∷ write send_pending sent sent (3 ∷ [])
    ∷ write sent sent sent (3 ∷ [])
    ∷ flush sent sent
    ∷ []

some_calls_run : (calls some_calls adapter).0 ≡ 1 ∷ 2 ∷ 3 ∷ []
unfolding calls unstable_drift.Wisp.StreamIo.Write.Coalesce.call poll_write
    unstable_drift.Wisp.StreamIo.Write.accept unstable_drift.Wisp.StreamIo.Write.poll_flush
    unstable_drift.Wisp.StreamIo.Write.start_send unstable_drift.Wisp.StreamIo.Write.accept_after
    unstable_drift.Wisp.StreamIo.Write.drive
some_calls_run = refl

written_in_order_example :
    let (bytes, io', begun) = calls some_calls adapter in
    concat begun ++ io'.write_buf ≡ adapter.write_buf ++ bytes
written_in_order_example =
    written_in_order some_calls adapter
      (prompt_write, (any_flush, (prompt_write, (prompt_write, (any_flush, tt)))))

-- A write as long as the threshold.
large : ℕ → Bytes
large zero = []
large (suc n) = 0 ∷ large n

length-large : (n : ℕ) → length (large n) ≡ n
unfolding large
length-large zero = refl
length-large (suc n) = ap suc (length-large n)

large_fits : write_flush_threshold ≤ length ([] ++ large 16384)
large_fits = let e = length-large 16384 in omega arith

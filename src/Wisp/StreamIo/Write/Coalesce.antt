-- ===== src/Wisp/StreamIo/Write/Coalesce.antt =====
-- Runs of the write side of wisp/stream_io.rs: bytes acknowledged, buffered and sent.
use unstable_drift.Prelude.{
  ℕ, ◌≤◌, ◌≡◌, refl, ap, sym, ◌∙◌, true, false, List, [], ◌∷◌, ◌++◌, length, concat, All, if-both,
  arith, append-nil, append_assoc, concat-append, leb,
}
use unstable_drift.Bytes.{Bytes}
use unstable_drift.Wisp.StreamIo.{
  write_flush_threshold, Poll, ready, failed, pending, SendPoll, sent, send_failed, send_pending,
  WispStreamIo,
}
use unstable_drift.Wisp.StreamIo.Write.{
  Written, start_send, is_empty, drive, poll_flush_buf, with_count, accept, accept_after,
  poll_write, poll_flush,
}

pub data Call : Type 0 where
  write : (flying fresh fresh' : SendPoll) (buf : Bytes) → Call
  flush : (flying fresh : SendPoll) → Call

-- The bytes that an answer acknowledges.
abbrev pub acknowledged : Bytes → Poll ℕ → Bytes
acknowledged buf (ready n) = buf
acknowledged buf (failed e) = []
acknowledged buf pending = []

-- The bytes acknowledged, the adapter, and the sends begun.
unfoldable pub call : Call → WispStreamIo → Bytes × WispStreamIo × List Bytes
call (write flying fresh fresh' buf) io =
    let (r, io', begun) = poll_write flying fresh fresh' buf io in (acknowledged buf r, io', begun)
call (flush flying fresh) io = let (r, io', begun) = poll_flush flying fresh io in ([], io', begun)

unfoldable pub calls : List Call → WispStreamIo → Bytes × WispStreamIo × List Bytes
calls [] io = ([], io, [])
calls (c ∷ cs) io =
    let (bytes, io', begun) = call c io in
    let (more, io'', begun') = calls cs io' in (bytes ++ more, io'', begun ++ begun')

-- Sends begun and bytes still buffered are the bytes buffered before and `taken`.
abbrev Conserves : {A : Type 0} → WispStreamIo → Bytes → Written A → Type 0
Conserves io taken o = concat o.2 ++ o.1.write_buf ≡ io.write_buf ++ taken

start_send-Conserves : (s : SendPoll) (io : WispStreamIo) → Conserves io [] (start_send s io)
unfolding start_send
start_send-Conserves sent io = append-nil (io.write_buf ++ [])
start_send-Conserves (send_failed e) io = append-nil (io.write_buf ++ [])
start_send-Conserves send_pending io = append-nil (io.write_buf ++ [])

drive-Conserves : (s t : SendPoll) (io : WispStreamIo) → Conserves io [] (drive s t io)
unfolding drive
drive-Conserves sent t io =
    if-both (Conserves io []) (is_empty io.write_buf) (sym (append-nil io.write_buf))
      (start_send-Conserves t (record io { write_fut = false }))
drive-Conserves (send_failed e) t io = sym (append-nil io.write_buf)
drive-Conserves send_pending t io = sym (append-nil io.write_buf)

poll_flush_buf-Conserves :
    (s t : SendPoll) (io : WispStreamIo) → Conserves io [] (poll_flush_buf s t io)
unfolding poll_flush_buf
poll_flush_buf-Conserves s t io = if-both (Conserves io []) io.write_fut (drive-Conserves s t io) (
    if-both (Conserves io []) (is_empty io.write_buf) (sym (append-nil io.write_buf))
      (start_send-Conserves t io))

-- A send begun at the threshold that succeeds in its first poll.
pub data IsPrompt : Call → Type 0 where
  prompt_write : {flying fresh : SendPoll} {buf : Bytes} → IsPrompt (write flying fresh sent buf)
  any_flush : {flying fresh : SendPoll} → IsPrompt (flush flying fresh)

-- What a write does with the bytes that it acknowledges, after the sends `begun`.
Writes : Bytes → WispStreamIo → List Bytes → Written ℕ → Type 0
Writes buf io begun o =
    concat o.2 ++ o.1.write_buf ≡ concat begun ++ (io.write_buf ++ acknowledged buf o.0)

accept-Writes :
    (buf : Bytes) (io : WispStreamIo) (begun : List Bytes)
    → Writes buf io begun (accept sent buf io begun)
unfolding Writes accept start_send with_count
accept-Writes buf io begun =
    let full = io.write_buf ++ buf in
    if-both (Writes buf io begun) (leb write_flush_threshold (length full))
      (append-nil (concat (begun ++ full ∷ []))
        ∙ concat-append begun (full ∷ [])
        ∙ ap (◌++◌ (concat begun)) (append-nil full))
      refl

accept_after-Writes :
    (buf : Bytes) (io : WispStreamIo) (w : Written (Unit {0}))
    → Conserves io [] w
    → Writes buf io [] (accept_after sent buf w)
unfolding Writes accept_after
accept_after-Writes buf io (ready u, io', begun) h =
    let taken = acknowledged buf (accept sent buf io' begun).0 in
    accept-Writes buf io' begun
    ∙ sym (append_assoc (concat begun) io'.write_buf taken)
    ∙ ap (λ l. l ++ taken) (h ∙ append-nil io.write_buf)
accept_after-Writes buf io (failed e, io', begun) h = h
accept_after-Writes buf io (pending, io', begun) h = h

poll_write-Writes :
    (s t : SendPoll) (buf : Bytes) (io : WispStreamIo)
    → Writes buf io [] (poll_write s t sent buf io)
unfolding poll_write Writes
poll_write-Writes s t buf io =
    if-both (Writes buf io []) io.closed (sym (append-nil io.write_buf)) (
      if-both (Writes buf io []) io.write_fut
        (accept_after-Writes buf io (poll_flush_buf s t io) (poll_flush_buf-Conserves s t io))
        (accept-Writes buf io []))

call-Conserves :
    (c : Call) (io : WispStreamIo)
    → IsPrompt c
    → let (bytes, io', begun) = call c io in concat begun ++ io'.write_buf ≡ io.write_buf ++ bytes
unfolding call Writes poll_flush
call-Conserves (write s t _ buf) io prompt_write = poll_write-Writes s t buf io
call-Conserves (flush s t) io any_flush = poll_flush_buf-Conserves s t io

-- However the writes and flushes interleave, so long as each send that a write begins at the threshold
-- succeeds in its first poll, and whatever all other sends answer: the bytes of the sends begun, in
-- order, followed by those still buffered, are the bytes buffered at the start followed by those of
-- every write that was acknowledged, in order.
pub written_in_order :
    (cs : List Call) (io : WispStreamIo)
    → All IsPrompt cs
    → let (bytes, io', begun) = calls cs io in concat begun ++ io'.write_buf ≡ io.write_buf ++ bytes
unfolding calls
written_in_order [] io h = sym (append-nil io.write_buf)
written_in_order (c ∷ cs) io (p, ps) =
    let o = call c io in
    let rest = calls cs o.1 in
    ap (λ l. l ++ rest.1.write_buf) (concat-append o.2 rest.2)
    ∙ append_assoc (concat o.2) (concat rest.2) rest.1.write_buf
    ∙ ap (◌++◌ (concat o.2)) (written_in_order cs o.1 ps)
    ∙ sym (append_assoc (concat o.2) o.1.write_buf rest.0)
    ∙ ap (λ l. l ++ rest.0) (call-Conserves c io p)
    ∙ append_assoc io.write_buf o.0 rest.0

-- The send that the first write begins, and the adapter that it leaves.
stalls :
    (s t : SendPoll) (buf : Bytes) (io : WispStreamIo)
    → io.closed ≡ false
    → io.write_fut ≡ false
    → write_flush_threshold ≤ length (io.write_buf ++ buf)
    → poll_write s t send_pending buf io
      ≡ (pending, record io { write_buf = []; write_fut = true }, (io.write_buf ++ buf) ∷ [])
unfolding poll_write accept start_send with_count
stalls s t buf io c f h =
    let full : leb write_flush_threshold (length (io.write_buf ++ buf)) ≡ true = ground arith in
    rw (c, f, full) refl

-- A write once a send that was in flight alone has ended.
resumes :
    (t : SendPoll) (buf : Bytes) (io : WispStreamIo)
    → io.closed ≡ false
    → let o = poll_write sent t sent buf (record io { write_buf = []; write_fut = true }) in
      (o.0 ≡ ready (length buf)) × (concat o.2 ++ o.1.write_buf ≡ buf)
unfolding poll_write poll_flush_buf drive accept_after accept start_send with_count
resumes t buf io c =
    let P : Written ℕ → Type 0 =
      λ o. (o.0 ≡ ready (length buf)) × (concat o.2 ++ o.1.write_buf ≡ buf) in
    rw c (
      if-both P (leb write_flush_threshold (length buf))
        (refl, append-nil (buf ++ []) ∙ append-nil buf) (refl, refl))

-- A write that meets the threshold while its send has to wait, on an open adapter with no send in
-- flight, is answered `pending` and yet has taken its bytes. The caller writes the same bytes again
-- once the send has ended, and they are taken a second time.
pub duplicate_write :
    (s t t' : SendPoll) (buf : Bytes) (io : WispStreamIo)
    → io.closed ≡ false
    → io.write_fut ≡ false
    → write_flush_threshold ≤ length (io.write_buf ++ buf)
    → let (r, io', begun) = poll_write s t send_pending buf io in
      let (r', io'', again) = poll_write sent t' sent buf io' in
      (r ≡ pending)
      × (r' ≡ ready (length buf))
      × (concat (begun ++ again) ++ io''.write_buf ≡ io.write_buf ++ (buf ++ buf))
duplicate_write s t t' buf io c f h =
    let o = poll_write sent t' sent buf (record io { write_buf = []; write_fut = true }) in
    let full = io.write_buf ++ buf in
    let again = resumes t' buf io c in
    rw (stalls s t buf io c f h) (
      refl,
      again.0,
      append_assoc full (concat o.2) o.1.write_buf
          ∙ ap (◌++◌ full) again.1
          ∙ append_assoc io.write_buf buf buf,
    )

-- ===== src/Wisp/StreamIo/Read/InOrder.antt =====
-- The bytes read by wisp/stream_io.rs against the payloads that it takes.
use unstable_drift.Prelude.{
  ℕ, ◌≡◌, inl, inr, refl, ap, sym, ◌∙◌, List, [], ◌∷◌, ◌++◌, length, min, concat, arith,
}
use unstable_drift.Prelude.{
  ltb, Bool-cases, append-nil, append_assoc, take-append-drop, concat-append,
}
use unstable_drift.Bytes.{Bytes}
use unstable_drift.Wisp.StreamIo.{RecvPoll, received, disconnected, recv_pending, WispStreamIo}
use unstable_drift.Wisp.StreamIo.Read.{ReadOutcome, serve, poll_recv, poll_read, put, reads}

-- What is put and what is left over are what was left over and what was taken.
abbrev Conserves : WispStreamIo → ReadOutcome → Type 0
Conserves io o = put o.0 ++ o.1.read_leftover ≡ io.read_leftover ++ concat o.2

serve-Conserves :
    (room : ℕ) (bytes : Bytes) (io : WispStreamIo)
    → io.read_leftover ≡ []
    → Conserves io (serve room bytes io)
unfolding serve
serve-Conserves room [] io e = rw e
serve-Conserves room (b ∷ bs) io e =
    let n = min (length (b ∷ bs)) room in
    elim (Bool-cases (ltb n (length (b ∷ bs)))) [
      | inl y ↦
          rw (y, serve)
            (take-append-drop n (b ∷ bs)
              ∙ sym (append-nil (b ∷ bs))
              ∙ ap (λ l. l ++ ((b ∷ bs) ++ [])) (sym e))
      | inr n ↦ rw (n, serve) (rw e refl)
    ]

poll_recv-Conserves :
    (room : ℕ) (answer : RecvPoll) (io : WispStreamIo)
    → io.read_leftover ≡ []
    → Conserves io (poll_recv room answer io)
unfolding poll_recv
poll_recv-Conserves room (received bytes) io e = serve-Conserves room bytes io e
poll_recv-Conserves room disconnected io e = sym (append-nil io.read_leftover)
poll_recv-Conserves room recv_pending io e = sym (append-nil io.read_leftover)

poll_read-Conserves :
    (room : ℕ) (answer : RecvPoll) (io : WispStreamIo) (l : Bytes)
    → io.read_leftover ≡ l
    → Conserves io (poll_read room answer io)
unfolding poll_read
poll_read-Conserves room answer io [] e = elim (Bool-cases io.closed) [
  | inl c ↦ ground (arith, append-nil io.read_leftover)
  | inr c ↦ ground (arith, poll_recv-Conserves room answer io e)
]
poll_read-Conserves room answer io (b ∷ bs) e = ground (
  arith,
  append-nil io.read_leftover,
  take-append-drop (min (length io.read_leftover) room) io.read_leftover,
)

-- Whatever the sizes of the caller's buffers and however the receives answer, the bytes put into
-- the buffers so far, followed by those left over, are the bytes left over at the start followed by
-- those of the payloads taken from the channel, in order: none is lost, repeated or made up.
pub reads_in_order :
    (rs : List (ℕ × RecvPoll)) (io : WispStreamIo)
    → let (bytes, io', taken) = reads rs io in
      bytes ++ io'.read_leftover ≡ io.read_leftover ++ concat taken
unfolding reads
reads_in_order [] io = sym (append-nil io.read_leftover)
reads_in_order ((room, answer) ∷ rs) io =
    let o = poll_read room answer io in
    let rest = reads rs o.1 in
    append_assoc (put o.0) rest.0 rest.1.read_leftover
    ∙ ap (◌++◌ (put o.0)) (reads_in_order rs o.1)
    ∙ sym (append_assoc (put o.0) o.1.read_leftover (concat rest.2))
    ∙ ap (λ l. l ++ concat rest.2) (poll_read-Conserves room answer io io.read_leftover refl)
    ∙ append_assoc io.read_leftover (concat o.2) (concat rest.2)
    ∙ ap (◌++◌ io.read_leftover) (sym (concat-append o.2 rest.2))

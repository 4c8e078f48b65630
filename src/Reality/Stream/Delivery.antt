-- ===== src/Reality/Stream/Delivery.antt =====
-- src/reality_upstream.rs (`poll_read`): the reader is given what the peer sent, in order, nothing
-- lost and nothing twice, however the bytes arrive.
use mini_vpn.Reality.Stream.Flush.{FlushEnds, poll_flush_pending_keeps}
use mini_vpn.Reality.Stream.Ending.{measure, poll_read_returns}
use mini_vpn.Reality.Stream.Turns.{
  received, Follows, expected, AfterPoll, TurnKeeps, read_turn_keeps,
}
use mini_vpn.Reality.Stream.Peer.{Sent}
use mini_vpn.Reality.Stream.{
  RealityStream, Poll, ready, pending, ReadAnswer, WriteAnswer, Turn, returns, again, read_turn,
  poll_flush_pending, poll_read, loop_end, Halves,
}
use mini_vpn.Reality.{Aead, Hashes}
use mini_vpn.Base.{ℕ, zero, suc, ◌<◌, ◌≡◌, refl, ◌∙◌, Option, some, List, [], ◌++◌, some_inj}
use mini_vpn.Base.Results.{ok, err}
use mini_vpn.Base.Keys.{nat_eq, bytes_eq, pair_eq}

module _ (aead : Aead) (hashes : Hashes) where
  -- What a call of `poll_read` leaves.
  abbrev pub PollKeeps : RealityStream → List Sent → List ℕ → Poll (List ℕ) × Halves → Type 0
  PollKeeps self todo beyond (p, (next, more, writes)) =
      AfterPoll aead hashes self todo p next (received more ++ beyond)

  PollKeeps-trans :
      (self next : RealityStream) (todo xs : List Sent) (beyond : List ℕ)
      (result : Poll (List ℕ) × Halves)
      → expected self todo ≡ [] ++ expected next xs
      → PollKeeps next xs beyond result
      → PollKeeps self todo beyond result
  PollKeeps-trans self next todo xs beyond (ready (ok bs), halves) e (rest, f, h) = (rest, f, e ∙ h)
  PollKeeps-trans self next todo xs beyond (ready (err q), halves) e h = h
  PollKeeps-trans self next todo xs beyond (pending, halves) e (rest, f, h) = (rest, f, e ∙ h)

  loop_end_keeps :
      (self flushed : RealityStream) (todo : List Sent) (beyond : List ℕ) (f : Poll (Unit {0}))
      (reads : List ReadAnswer) (writes writes' : List WriteAnswer)
      (turn : Turn × RealityStream × List ReadAnswer) (rest : Option (Poll (List ℕ) × Halves))
      (result : Poll (List ℕ) × Halves)
      → FlushEnds f
      → TurnKeeps aead hashes self todo beyond turn
      → ((xs : List Sent)
          → Follows aead hashes turn.1 (received turn.2 ++ beyond) xs
          → rest ≡ some result
          → PollKeeps turn.1 xs beyond result)
      → loop_end f turn.0 (flushed, reads, writes) (turn.1, turn.2, writes') rest ≡ some result
      → PollKeeps self todo beyond result
  loop_end_keeps self flushed todo beyond (ready (err e)) reads writes writes' turn rest result ends
        keeps more h =
      rw (← some_inj h) ends
  loop_end_keeps self flushed todo beyond (ready (ok done)) reads writes writes'
        (returns p, next, left) rest result ends keeps more h =
      rw (← some_inj h) keeps
  loop_end_keeps self flushed todo beyond (ready (ok done)) reads writes writes' (again, next, left)
        rest result ends (xs, f, e) more h =
      PollKeeps-trans self next todo xs beyond result e (more xs f h)
  loop_end_keeps self flushed todo beyond pending reads writes writes' (returns p, next, left) rest
        result ends keeps more h =
      rw (← some_inj h) keeps
  loop_end_keeps self flushed todo beyond pending reads writes writes' (again, next, left) rest
        result ends (xs, f, e) more h =
      PollKeeps-trans self next todo xs beyond result e (more xs f h)

  -- The stream with other bytes to write.
  abbrev rewritten : RealityStream → List ℕ → RealityStream
  rewritten self w = record self { write_pending = w }

  rewritten-Follows :
      (self next : RealityStream) (w later : List ℕ) (todo : List Sent)
      → next ≡ rewritten self w
      → Follows aead hashes self later todo
      → Follows aead hashes next later todo
  rewritten-Follows self next w later todo e f = rw e (record {
    on_wire = f.on_wire;
    fits = f.fits;
    recv_room = f.recv_room;
    send_room = f.send_room;
    canonical = f.canonical;
  })

  poll_read_keeps :
      (n : ℕ) (reads : List ReadAnswer) (writes : List WriteAnswer) (self : RealityStream)
      (remaining : ℕ) (todo : List Sent) (beyond : List ℕ) (result : Poll (List ℕ) × Halves)
      → Follows aead hashes self (received reads ++ beyond) todo
      → poll_read aead hashes n reads writes self remaining ≡ some result
      → PollKeeps self todo beyond result
  unfolding poll_read
  poll_read_keeps zero reads writes self remaining todo beyond result f h = absurd cc
  poll_read_keeps (suc n) reads writes self remaining todo beyond result f h =
      let flush = poll_flush_pending writes self in
      let ((w, e), ends) = poll_flush_pending_keeps writes self in
      let f' = rewritten-Follows self flush.1 w (received reads ++ beyond) todo e f in
      let turn = read_turn aead hashes reads flush.1 remaining in
      let keeps = read_turn_keeps aead hashes flush.1 todo reads beyond remaining f' in
      let same : expected self todo ≡ [] ++ expected flush.1 todo = rw e refl in
      PollKeeps-trans self flush.1 todo todo beyond result same (
        loop_end_keeps flush.1 flush.1 todo beyond flush.0 reads flush.2 flush.2 turn
          (poll_read aead hashes n turn.2 flush.2 turn.1 remaining) result ends keeps
          (λ xs g r. poll_read_keeps n turn.2 flush.2 turn.1 remaining xs beyond result g r) h)

  -- While the stream is in step with its peer, a call of `poll_read` returns, on fuel above what is
  -- read and to be read; it gives the next of the bytes that the peer sent and stays in step, with
  -- data, tickets and key updates cut into any pieces, and its only errors are the transport's own.
  pub poll_read_delivers :
      (n : ℕ) (reads : List ReadAnswer) (writes : List WriteAnswer) (self : RealityStream)
      (remaining : ℕ) (todo : List Sent) (beyond : List ℕ)
      → Follows aead hashes self (received reads ++ beyond) todo
      → measure self reads < n
      → (result : Poll (List ℕ) × Halves) × (poll_read aead hashes n reads writes self remaining
          ≡ some result)
        × PollKeeps self todo beyond result
  poll_read_delivers n reads writes self remaining todo beyond f h =
      let (result, e) = poll_read_returns aead hashes n reads writes self remaining h in
      (result, e, poll_read_keeps n reads writes self remaining todo beyond result f e)

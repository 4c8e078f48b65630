-- ===== src/Reality/Stream/CleanEnd.antt =====
-- src/reality_upstream.rs (`poll_read`): the end of the stream as against a stream that was cut.
use mini_vpn.Reality.Stream.{
  RealityStream, eof, Poll, ready, ReadAnswer, filled, WriteAnswer, Turn, returns, again,
  decode_one, read_turn, poll_flush_pending, Halves,
}
use mini_vpn.Reality.{Aead, Hashes}
use mini_vpn.Base.{ℕ, zero, suc, ◌≡◌, ◌⊎◌, none, some, List, [], ◌∷◌}
use mini_vpn.Base.Results.{ok}
use mini_vpn.Base.Keys.{nat_eq, bytes_eq, pair_eq}

abbrev told_end : Poll (List ℕ)
told_end = ready (ok [])

module _ (aead : Aead) (hashes : Hashes) where
  -- How a call of `poll_read` may end cleanly, the fuel as there: it finds no record, the transport
  -- ends, and no bytes are left over; or the next record of the peer is the alert that announces the
  -- end; or the turn goes on, and the rest of the call ends cleanly.
  abbrev pub IsCleanEnd :
      ℕ → List ReadAnswer → List WriteAnswer → RealityStream → ℕ → Halves → Type 0
  IsCleanEnd zero reads writes self remaining next = ⊥
  IsCleanEnd (suc n) reads writes self remaining next =
      let flush = poll_flush_pending writes self in
      let turn = read_turn aead hashes reads flush.1 remaining in
      ((decode_one aead hashes flush.1 ≡ ok (none, next.0))
        × (reads ≡ filled [] ∷ next.1)
        × (next.0.read_raw ≡ []))
      ⊎ ((decode_one aead hashes flush.1 ≡ ok (some eof, next.0)) × (reads ≡ next.1))
      ⊎ ((turn.0 ≡ again) × IsCleanEnd n turn.2 flush.2 turn.1 remaining next)

  -- A turn that tells the end.
  abbrev TurnClean :
      List ReadAnswer → RealityStream → Turn × RealityStream × List ReadAnswer → Type 0
  TurnClean reads self (t, next, more) =
      t ≡ returns told_end
      → ((decode_one aead hashes self ≡ ok (none, next))
          × (reads ≡ filled [] ∷ more)
          × (next.read_raw ≡ []))
        ⊎ ((decode_one aead hashes self ≡ ok (some eof, next)) × (reads ≡ more))

-- ===== src/Reality/Stream/Flush.antt =====
-- src/reality_upstream.rs (`poll_flush_pending`): what a flush may do to the stream.
use mini_vpn.Reality.Stream.{
  RealityStream, Poll, ready, pending, WriteAnswer, wrote, write_failed, write_pends, is_nil,
  poll_flush_pending,
}
use mini_vpn.Reality.{Refusal, io_failed, write_zero, truncated}
use mini_vpn.Base.{
  ℕ, zero, suc, ◌≡◌, refl, ◌⊎◌, inl, inr, Bool, true, false, List, [], ◌∷◌, if◌then◌else◌, drop,
}
use mini_vpn.Base.Results.{ok, err}
use mini_vpn.Base.Keys.{nat_eq, bytes_eq, pair_eq}

-- The errors of the transport, as against those of the records.
abbrev pub IsTransport : Refusal → Type 0
IsTransport e = (e ≡ io_failed) ⊎ ((e ≡ write_zero) ⊎ (e ≡ truncated))

-- A flush that fails fails with the transport.
abbrev pub FlushEnds : Poll (Unit {0}) → Type 0
FlushEnds (ready (ok done)) = Unit
FlushEnds (ready (err e)) = IsTransport e
FlushEnds pending = Unit

-- It changes only the bytes that wait to be written.
abbrev pub FlushKeeps : RealityStream → Poll (Unit {0}) × RealityStream × List WriteAnswer → Type 0
FlushKeeps self (p, next, more) =
    ((w : List ℕ) × (next ≡ record self { write_pending = w })) × FlushEnds p

if_keeps :
    (self : RealityStream) (b : Bool) (x y : Poll (Unit {0}) × RealityStream × List WriteAnswer)
    → FlushKeeps self x
    → FlushKeeps self y
    → FlushKeeps self (if b then x else y)
if_keeps self true x y hx hy = hx
if_keeps self false x y hx hy = hy

pub poll_flush_pending_keeps :
    (writes : List WriteAnswer) (self : RealityStream)
    → FlushKeeps self (poll_flush_pending writes self)
unfolding poll_flush_pending
poll_flush_pending_keeps [] self = ((self.write_pending, refl), ends (is_nil self.write_pending))
  where
    ends : (b : Bool) → FlushEnds (if b then ready (ok tt) else pending)
    ends true = tt
    ends false = tt
poll_flush_pending_keeps (write_failed ∷ more) self =
    if_keeps self (is_nil self.write_pending) _ _ ((self.write_pending, refl), tt)
      ((self.write_pending, refl), inl refl)
poll_flush_pending_keeps (write_pends ∷ more) self =
    if_keeps self (is_nil self.write_pending) _ _ ((self.write_pending, refl), tt)
      ((self.write_pending, refl), tt)
poll_flush_pending_keeps (wrote zero ∷ more) self =
    if_keeps self (is_nil self.write_pending) _ _ ((self.write_pending, refl), tt)
      ((self.write_pending, refl), inr (inl refl))
poll_flush_pending_keeps (wrote (suc k) ∷ more) self =
    if_keeps self (is_nil self.write_pending) _ _ ((self.write_pending, refl), tt)
      (poll_flush_pending_keeps more
        (record self { write_pending = drop (suc k) self.write_pending }))

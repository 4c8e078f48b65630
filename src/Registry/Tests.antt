-- ===== src/Registry/Tests.antt =====
-- src/client_tun.rs (`ListenerRegistry`) on concrete sets of sockets: handles are numbers given out
-- in order, and the sockets below a mark have accepted.
use mini_vpn.Registry.{World, ensure_spare_listeners}
use mini_vpn.Registry.Counted.{
  IsCounted, ensure_spare_listeners-IsCounted, ensure_spare_listeners_capped,
}
use mini_vpn.Base.{ℕ, ◌+◌, ◌≤◌, ◌≡◌, refl, Bool, false, [], ◌∷◌, arith, leb}
use mini_vpn.Base.Keys.{nat_eq, bytes_eq, pair_eq}

-- The next handle, and the mark.
abbrev add : ℕ → ℕ × ℕ → ℕ × (ℕ × ℕ)
add port (next, mark) = (next, (next + 1, mark))

abbrev is_listen : ℕ × ℕ → ℕ → Bool
is_listen (next, mark) h = leb mark h

-- Two slots for port 443, of which one has accepted.
abbrev busy : World (ℕ × ℕ)
busy = record {
  registry = record { ports = (443, 0 ∷ 1 ∷ []) ∷ []; pool_size = 2; max_total = 4; total = 2 };
  sockets = (2, 1);
  socket_ctxs = [];
}

busy-IsCounted : IsCounted busy.registry
busy-IsCounted = record { counted = refl; few = omega arith }

ensure_spare_listeners-IsCounted_example :
    IsCounted (ensure_spare_listeners add is_listen busy 443 3).1.registry
ensure_spare_listeners-IsCounted_example =
    ensure_spare_listeners-IsCounted add is_listen busy 443 3 busy-IsCounted

ensure_spare_listeners_capped_example :
    (ensure_spare_listeners add is_listen busy 443 9).1.registry.total ≤ 4
ensure_spare_listeners_capped_example =
    ensure_spare_listeners_capped add is_listen busy 443 9 (omega arith)

-- The cap stops the ninth slot, after two were made.
cap_stops : (ensure_spare_listeners add is_listen busy 443 9).0 ≡ false
unfolding ensure_spare_listeners
cap_stops = refl

-- ===== src/Registry/Counted.antt =====
-- src/client_tun.rs (`ListenerRegistry`): the counter of all slots, and the two caps.
use mathlib.Core.Option
use mini_vpn.Registry.{
  max_intercepted_ports, ListenerRegistry, World, add_slots, ensure_port, add_spare, add_spares,
  ensure_spare_listeners, total_handles, count_listening, handles_for_port,
}
use mini_vpn.Base.{
  ℕ, zero, suc, ◌+◌, ◌-◌, ◌≤◌, ◌<◌, ◌≡◌, refl, ap, inl, inr, Bool, true, false, Option, none, some,
  List, [], ◌∷◌, ◌++◌, arith, leb, ◌==◌, Bool-cases, Option-cases, is_some, some_inj, length,
  length-append,
}
use mini_vpn.Base.Keys.{nat_eq, bytes_eq, pair_eq}
use mini_vpn.Base.Map.{
  Map, get, insert, contains_key, update, =?_refl, get-update, length-insert-le, length-update,
}

-- How many handles the ports have together.
abbrev pub handle_count : Map ℕ (List ℕ) → ℕ
handle_count [] = 0
handle_count ((port, hs) ∷ ports) = length hs + handle_count ports

handle_count-insert :
    (port : ℕ) (hs : List ℕ) (ports : Map ℕ (List ℕ))
    → contains_key port ports ≡ false
    → handle_count (insert port hs ports) ≡ length hs + handle_count ports
unfolding insert contains_key get
handle_count-insert port hs [] h = refl
handle_count-insert port hs ((p, gs) ∷ ports) h = ground (arith, handle_count-insert port hs ports)

handle_count-replace :
    (port : ℕ) (gs hs : List ℕ) (ports : Map ℕ (List ℕ))
    → get port ports ≡ some gs
    → handle_count (insert port hs ports) + length gs ≡ handle_count ports + length hs
unfolding insert get
handle_count-replace port gs hs [] e = cc
handle_count-replace port gs hs ((p, fs) ∷ ports) e = elim (Bool-cases (p == port)) [
  | inl t ↦ let same : fs ≡ gs = some_inj (rw t at e) in rw t (rw same (omega arith))
  | inr f ↦ rw f (omega (arith, handle_count-replace port gs hs ports (rw f at e)))
]

handle_count-push :
    (port h : ℕ) (ports : Map ℕ (List ℕ))
    → is_some (get port ports) ≡ true
    → handle_count (update port (λ hs. hs ++ h ∷ []) ports) ≡ handle_count ports + 1
unfolding update
handle_count-push port h ports held = elim (Option-cases (get port ports)) [
  | inl e ↦ let x : false ≡ true = rw e at held in cc
  | inr (gs, e) ↦
      rw (e, update)
        (omega
          (arith, handle_count-replace port gs (gs ++ h ∷ []) ports e, length-append gs (h ∷ [])))
]

-- The counter is right, and no more than the allowed number of ports is registered.
pub record IsCounted (r : ListenerRegistry) : Type 0 where
  pub counted : r.total ≡ handle_count r.ports
  pub few : length r.ports ≤ max_intercepted_ports

module _ {K : Type 0} (add : ℕ → K → ℕ × K) (is_listen : K → ℕ → Bool) where
  length-add_slots :
      (n port : ℕ) (k : K) (ctxs : Map ℕ _) → length (add_slots add is_listen n port k ctxs).0 ≡ n
  unfolding add_slots
  length-add_slots zero port k ctxs = refl
  length-add_slots (suc n) port k ctxs = ap suc (length-add_slots n port _ _)

  -- A pool of slots for a port that is new is counted, and the port only taken below the cap.
  pub ensure_port-IsCounted :
      (w : World K) (port : ℕ)
      → IsCounted w.registry
      → IsCounted (ensure_port add is_listen w port).1.registry
  unfolding ensure_port
  ensure_port-IsCounted w port c = elim (Bool-cases (contains_key port w.registry.ports)) [
    | inl t ↦ rw (t, ensure_port) c
    | inr f ↦ elim (Bool-cases (leb max_intercepted_ports (length w.registry.ports))) [
      | inl t ↦ rw (f, t, ensure_port) c
      | inr g ↦
          let made =
            (add_slots add is_listen w.registry.pool_size port w.sockets w.socket_ctxs).0 in
          let size = length-add_slots w.registry.pool_size port w.sockets w.socket_ctxs in
          let sum = handle_count-insert port made w.registry.ports f in
          let room : length w.registry.ports < max_intercepted_ports = ground arith in
          rw (f, g, ensure_port)
            (record {
              counted = omega (arith, sum, size, c.counted);
              few = omega (arith, length-insert-le port made w.registry.ports, room);
            })
    ]
  ]

  add_spare-IsCounted :
      (port : ℕ) (w : World K)
      → is_some (get port w.registry.ports) ≡ true
      → IsCounted w.registry
      → IsCounted (add_spare add is_listen port w).registry
  unfolding add_spare
  add_spare-IsCounted port w held c =
      let h = (add port w.sockets).0 in
      record {
        counted = omega (arith, handle_count-push port h w.registry.ports held, c.counted);
        few = omega (arith, length-update port (λ hs. hs ++ h ∷ []) w.registry.ports, c.few);
      }

  add_spare-held :
      (port : ℕ) (w : World K)
      → is_some (get port w.registry.ports) ≡ true
      → is_some (get port (add_spare add is_listen port w).registry.ports) ≡ true
  unfolding add_spare
  add_spare-held port w held =
      rw
        (
          get-update port port (λ hs. hs ++ (add port w.sockets).0 ∷ []) w.registry.ports,
          =?_refl port,
        )
        (map_some (get port w.registry.ports) held)
    where
      map_some :
          (o : Option (List ℕ))
          → is_some o ≡ true
          → is_some (Option.map (λ hs. hs ++ (add port w.sockets).0 ∷ []) o) ≡ true
      map_some none e = e
      map_some (some hs) e = refl

  add_spares-IsCounted :
      (n port : ℕ) (w : World K)
      → is_some (get port w.registry.ports) ≡ true
      → IsCounted w.registry
      → IsCounted (add_spares add is_listen n port w).1.registry
  unfolding add_spares
  add_spares-IsCounted zero port w held c = c
  add_spares-IsCounted (suc n) port w held c =
      elim (Bool-cases (leb w.registry.max_total (total_handles w.registry))) [
        | inl t ↦ rw t c
        | inr f ↦ rw f (
            add_spares-IsCounted n port (add_spare add is_listen port w)
              (add_spare-held port w held) (add_spare-IsCounted port w held c))
      ]

  -- Making spare slots for a burst keeps the counter of all slots right, also when the cap stops it.
  pub ensure_spare_listeners-IsCounted :
      (w : World K) (port min_spare : ℕ)
      → IsCounted w.registry
      → IsCounted (ensure_spare_listeners add is_listen w port min_spare).1.registry
  unfolding ensure_spare_listeners contains_key
  ensure_spare_listeners-IsCounted w port min_spare c =
      elim (Bool-cases (is_some (get port w.registry.ports))) [
        | inr f ↦ rw f c
        | inl t ↦
            let spare = count_listening (is_listen w.sockets) (handles_for_port w.registry port) in
            elim (Bool-cases (leb min_spare spare)) [
              | inl enough ↦ rw (t, enough) c
              | inr few ↦ rw (t, few) (add_spares-IsCounted (min_spare - spare) port w t c)
            ]
      ]

  add_spares_capped :
      (n port : ℕ) (w : World K)
      → w.registry.total ≤ w.registry.max_total
      → (add_spares add is_listen n port w).1.registry.total ≤ w.registry.max_total
  unfolding add_spares add_spare total_handles
  add_spares_capped zero port w h = h
  add_spares_capped (suc n) port w h =
      elim (Bool-cases (leb w.registry.max_total w.registry.total)) [
        | inl t ↦ rw t h
        | inr f ↦ rw f (add_spares_capped n port (add_spare add is_listen port w) (ground arith))
      ]

  -- From at most the total cap, making spare slots never goes past it.
  pub ensure_spare_listeners_capped :
      (w : World K) (port min_spare : ℕ)
      → w.registry.total ≤ w.registry.max_total
      → (ensure_spare_listeners add is_listen w port min_spare).1.registry.total
        ≤ w.registry.max_total
  unfolding ensure_spare_listeners contains_key
  ensure_spare_listeners_capped w port min_spare h =
      elim (Bool-cases (is_some (get port w.registry.ports))) [
        | inr f ↦ rw f h
        | inl t ↦
            let spare = count_listening (is_listen w.sockets) (handles_for_port w.registry port) in
            elim (Bool-cases (leb min_spare spare)) [
              | inl enough ↦ rw (t, enough) h
              | inr few ↦ rw (t, few) (add_spares_capped (min_spare - spare) port w h)
            ]
      ]

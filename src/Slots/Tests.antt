-- ===== src/Slots/Tests.antt =====
-- src/client_tun.rs: the slots on concrete events.
use mini_vpn.FakeIp as FakeIp
use mini_vpn.FakeIp.{FakeIpPool, span, alloc, acquire}
use mini_vpn.FakeIp.Consistent.{IsConsistent}
use mini_vpn.FakeIp.Alloc.{alloc-IsConsistent}
use mini_vpn.FakeIp.Reclaim.{acquire-IsConsistent}
use mini_vpn.FakeIp.Counts.{refs}
use mini_vpn.Dns.{DnsQuery, qtype_a}
use mini_vpn.Registry.{relaying, handshake_pending, SocketCtx, new_ctx}
use mini_vpn.Slots.{
  cannot_send, accepts, permit, takes_handshake, opens, handle_local_payload, handle_handshake_done,
}
use mini_vpn.Slots.Moves.{IsSlot}
use mini_vpn.Slots.Bytes.{
  Down, turn, arrives, down_run, arrived, down_run-arrived, local_all, handshake_flush,
}
use mini_vpn.Slots.EventLoop.{
  EventLoop, Event, activity, handshake_done, global_rx, dns_query, reap_tick, sweep_tick, step,
  run,
}
use mini_vpn.Slots.EventLoop.References.{
  holders, HasRoomFor, IsBalanced, refs-acquire, run-IsBalanced, resolve-run,
}
use mini_vpn.Slots.EventLoop.Late.{rearmed_at, handshake_done_late}
use mini_vpn.DnsBlock.{is_dns_relay_port}
use mini_vpn.Target.{v4, TargetAddr, domain_port}
use mini_vpn.Base.{
  ℕ, ◌+◌, ◌≡◌, refl, ◌∙◌, inl, inr, true, false, Option, none, some, List, [], ◌∷◌, ◌++◌, arith,
  ◌==◌, Bool-cases, some_inj,
}
use mini_vpn.Base.Keys.{nat_eq, bytes_eq, pair_eq}
use mini_vpn.Base.Map.{get, contains_key}

-- A pool of the addresses 12 to 15.
abbrev four : FakeIpPool
four = record { range_start = 10; range_end = 15; next = 12; domain_to_ip = []; ip_to_mapping = [] }

four-IsConsistent : IsConsistent four
unfolding FakeIp.resolve get
four-IsConsistent = record {
  to_domain = λ d ip h. cc;
  to_ip = λ d ip h. cc;
  in_range = λ d ip h. cc;
  cursor = omega arith;
  bounded = omega arith;
  unique = tt;
}

abbrev name_a : List ℕ
name_a = 97 ∷ []

-- The name has the address 12, and nobody uses it.
abbrev idle : FakeIpPool
idle = (alloc four name_a 5).1

idle_refs : (ip : ℕ) → refs idle ip ≡ 0
unfolding alloc get
idle_refs ip = ground arith

idle_mapped : contains_key 12 idle.ip_to_mapping ≡ true
unfolding alloc contains_key
idle_mapped = refl

-- A slot whose relay is open, with the address 12, and one that listens.
abbrev open_ctx : SocketCtx
open_ctx = record (new_ctx 443) { state = relaying; uplink_tx = some []; fake_ip = some 12 }

open_ctx-IsSlot : IsSlot open_ctx
unfolding new_ctx
open_ctx-IsSlot = record {
  idle = λ q. absurd cc;
  down = λ q. refl;
  few = omega arith;
  up = λ q. refl;
  pending_shut = λ q. absurd cc;
  listening_shut = λ q. absurd cc;
}

new_ctx-IsSlot : IsSlot (new_ctx 443)
unfolding new_ctx
new_ctx-IsSlot = record {
  idle = λ q f. refl;
  down = λ q. refl;
  few = omega arith;
  up = λ q. refl;
  pending_shut = λ q. absurd cc;
  listening_shut = λ q. refl;
}

abbrev busy : EventLoop
busy = record {
  socket_ctxs = (3, open_ctx) ∷ (4, new_ctx 443) ∷ [];
  fake_pool = acquire idle 12 6;
  spawned = [];
}

busy_counted : (ip : ℕ) → refs (acquire idle 12 6) ip ≡ holders ip busy.socket_ctxs + 0
unfolding new_ctx
busy_counted ip =
    refs-acquire idle 12 ip 6 idle_mapped (rw (idle_refs 12) (omega arith))
    ∙ rw (idle_refs ip) (omega arith)

busy-IsBalanced : IsBalanced (λ ip. 0) busy
busy-IsBalanced = record {
  slots = slot;
  consistent = acquire-IsConsistent idle 12 6 (alloc-IsConsistent four name_a 5 four-IsConsistent);
  counted = busy_counted;
  room = λ ip. omega arith;
}
  where
    slot : (k : ℕ) (ctx : SocketCtx) → get k busy.socket_ctxs ≡ some ctx → IsSlot ctx
    slot k ctx h =
        unfold get in
        elim (Bool-cases (3 == k)) [
          | inl t ↦
              rw (← some_inj (let x : some open_ctx ≡ some ctx = rw t at h in x)) open_ctx-IsSlot
          | inr f ↦ elim (Bool-cases (4 == k)) [
            | inl t ↦
                rw (← some_inj (let x : some (new_ctx 443) ≡ some ctx = rw (f, t) at h in x))
                  new_ctx-IsSlot
            | inr g ↦ absurd (let x : none ≡ some ctx = rw (f, g) at h in cc)
          ]
        ]

abbrev query_b : DnsQuery
query_b = record { id = 1; qname = 98 ∷ []; qtype = qtype_a; rd = true; question = [] }

-- A query for another name, a payload of the relay, and the two ticks.
abbrev events : List (ℕ × Event)
events =
    (6, dns_query query_b)
    ∷ (7, global_rx 3 (accepts 1) true (1 ∷ 2 ∷ []))
    ∷ (900, sweep_tick 300)
    ∷ (901, reap_tick (λ h. (true, false)) (3 ∷ 4 ∷ []))
    ∷ []

busy_free : HasRoomFor (dns_query query_b) busy.fake_pool
unfolding acquire alloc span
busy_free = omega arith

run-IsBalanced_example : IsBalanced (λ ip. 0) (run events busy)
run-IsBalanced_example =
    run-IsBalanced (λ ip. 0) events busy (busy_free, (tt, (tt, (tt, tt)))) busy-IsBalanced

abbrev swept : List (ℕ × Event)
swept = (6, dns_query query_b) ∷ (9000, sweep_tick 300) ∷ []

-- The address 12 is still there after a sweep that comes much later.
resolve-run_example :
    (domain : List ℕ) × (FakeIp.resolve (run swept busy).fake_pool 12 ≡ some domain)
resolve-run_example =
    resolve-run (λ ip. 0) swept busy 3 12 open_ctx (busy_free, (tt, tt)) busy-IsBalanced
      (unfold step in unfold get in refl) (unfold new_ctx in refl)

abbrev pending_of : Option SocketCtx → List ℕ
pending_of none = []
pending_of (some ctx) = ctx.downlink_pending

-- The second byte waits.
one_waits : pending_of (get 3 (run events busy).socket_ctxs) ≡ 2 ∷ []
unfolding step get new_ctx
one_waits = refl

-- The slot is rearmed, takes another connection, and is given bytes that its former relay had sent.
abbrev reused : List (ℕ × Event)
reused =
    (7, reap_tick (λ h. (false, false)) (3 ∷ []))
    ∷ (
      8,
      activity 3 (record {
        send = cannot_send;
        reserve = permit;
        payload = some (9 ∷ []);
        endpoint = some (v4 16909060 80);
        opening = opens true;
      }),
    )
    ∷ (9, global_rx 3 cannot_send true (1 ∷ 2 ∷ []))
    ∷ []

old_bytes_delivered : pending_of (get 3 (run reused busy).socket_ctxs) ≡ 1 ∷ 2 ∷ []
unfolding step get new_ctx is_dns_relay_port FakeIp.is_fake alloc
old_bytes_delivered = refl

abbrev down : List Down
down = arrives (accepts 2) true (1 ∷ 2 ∷ 3 ∷ []) ∷ turn cannot_send ∷ turn (accepts 5) ∷ []

down_run-arrived_example :
    (down_run down open_ctx four 9).0 ++ (down_run down open_ctx four 9).1.downlink_pending
    ≡ open_ctx.downlink_pending ++ arrived down
down_run-arrived_example =
    down_run-arrived down open_ctx four 9 ((tt, λ q. absurd cc), (tt, (tt, tt))) refl

abbrev site : TargetAddr
site = domain_port name_a 443

handshake_flush_example :
    let opened =
      handle_local_payload takes_handshake 4 (1 ∷ []) (some site) (some 12) (new_ctx 443) idle 9 in
    let (waiting, later) =
      local_all takes_handshake 4 site
        (some 12)
        ((2 ∷ []) ∷ (3 ∷ []) ∷ [])
        opened.ctx
        opened.pool
        9 in
    (handle_handshake_done true true 4 opened.ctx.conn_epoch waiting later 9).ctx.uplink_tx
    ≡ some ((1 ∷ 2 ∷ 3 ∷ []) ∷ [])
handshake_flush_example =
    handshake_flush takes_handshake 4 site (some 12) (1 ∷ []) ((2 ∷ []) ∷ (3 ∷ []) ∷ [])
      (new_ctx 443) idle 9 (unfold new_ctx in refl) (unfold new_ctx in refl) (λ q. absurd cc)
      (omega arith)

-- A slot whose handshake, of its first epoch, is under way.
abbrev opening : EventLoop
opening = record {
  socket_ctxs = (4, record (new_ctx 443) { state = handshake_pending; conn_epoch = 1 }) ∷ [];
  fake_pool = four;
  spawned = [];
}

handshake_done_late_example :
    step (handshake_done 4 1 true true) 950 (run events (rearmed_at 4 6 opening))
    ≡ run events (rearmed_at 4 6 opening)
handshake_done_late_example =
    handshake_done_late 4 6 950 true true events opening
      (record (new_ctx 443) { state = handshake_pending; conn_epoch = 1 }) (unfold get in refl)
      (omega arith) (omega arith)

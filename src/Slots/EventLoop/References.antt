-- ===== src/Slots/EventLoop/References.antt =====
-- src/client_tun.rs and src/fake_ip.rs: the reference count of a fake address is the number of slots
-- that hold it, with those of the UDP associations.
use mathlib.Core.Option
use mini_vpn.FakeIp as FakeIp
use mini_vpn.FakeIp.Counts.{count_of, refs, refs-alloc}
use mini_vpn.FakeIp.Alloc.{alloc-IsConsistent}
use mini_vpn.Dns.{DnsQuery, qtype_a}
use mini_vpn.Uplink.{answer_query}
use mini_vpn.FakeIp.{span, alloc, FakeIpPool, Mapping, acquire, release, acquired, released}
use mini_vpn.FakeIp.Consistent.{IsConsistent}
use mini_vpn.FakeIp.Reclaim.{
  acquire-IsConsistent, release-IsConsistent, sweep-IsConsistent, stale_at, get-sweep,
}
use mini_vpn.Registry.{SocketCtx}
use mini_vpn.Slots.{
  Handled, process_listener_activity, handle_handshake_done, handle_remote_payload, is_dead,
}
use mini_vpn.Slots.Moves.{IsSlot, Moves, Fine, rearm_socket-Fine}
use mini_vpn.Slots.Handlers.{
  process_listener_activity-Fine, handle_handshake_done-Fine, handle_remote_payload-Fine,
}
use mini_vpn.Slots.EventLoop.{
  EventLoop, stored, on_slot, reap_slot, reap_dead_slots, Event, activity, handshake_done,
  global_rx, dns_query, reap_tick, sweep_tick, step, run,
}
use mini_vpn.Base.{
  ℕ, suc, ◌+◌, ◌-◌, ◌^◌, ◌≤◌, ◌<◌, ◌≡◌, refl, sym, ap, ◌∙◌, inl, inr, Bool, true, Option, none,
  some, List, [], ◌∷◌, arith, ◌==◌, ==_iff, if◌then◌else◌, Bool-cases, if_intro, Option-cases,
  is_some, some_inj, length,
}
use mini_vpn.Base.Keys.{◌=?◌, nat_eq, bytes_eq, pair_eq}
use mini_vpn.Base.Map.{Map, get, insert, contains_key, get-insert, get-update}

abbrev pub holds : ℕ → Option ℕ → ℕ
holds ip none = 0
holds ip (some j) = if j == ip then 1 else 0

-- The slots that hold an address.
abbrev pub holders : ℕ → Map ℕ SocketCtx → ℕ
holders ip [] = 0
holders ip ((k, ctx) ∷ m) = holds ip ctx.fake_ip + holders ip m

holds_le : (ip : ℕ) (o : Option ℕ) → holds ip o ≤ 1
holds_le ip none = omega arith
holds_le ip (some j) = ground arith

holders-le : (ip : ℕ) (m : Map ℕ SocketCtx) → holders ip m ≤ length m
holders-le ip [] = omega arith
holders-le ip ((k, ctx) ∷ m) = omega (arith, holds_le ip ctx.fake_ip, holders-le ip m)

holders-insert :
    (ip k : ℕ) (c next : SocketCtx) (m : Map ℕ SocketCtx)
    → get k m ≡ some c
    → holders ip (insert k next m) + holds ip c.fake_ip ≡ holders ip m + holds ip next.fake_ip
unfolding get insert
holders-insert ip k c next [] h = absurd cc
holders-insert ip k c next ((j, d) ∷ m) h = elim (Bool-cases (j =? k)) [
  | inl t ↦
      let same : d ≡ c = some_inj (let x : some d ≡ some c = rw t at h in x) in
      rw (t, same) (omega arith)
  | inr f ↦
      rw f (omega (arith, holders-insert ip k c next m (let x : get k m ≡ some c = rw f at h in x)))
]

length-insert_same :
    (k : ℕ) (c next : SocketCtx) (m : Map ℕ SocketCtx)
    → get k m ≡ some c
    → length (insert k next m) ≡ length m
unfolding get insert
length-insert_same k c next [] h = absurd cc
length-insert_same k c next ((j, d) ∷ m) h = elim (Bool-cases (j =? k)) [
  | inl t ↦ rw t refl
  | inr f ↦
      rw f (ap suc (length-insert_same k c next m (let x : get k m ≡ some c = rw f at h in x)))
]

count_of-acquired :
    (now : ℕ) (o : Option Mapping)
    → is_some o ≡ true
    → count_of o + 1 < 2 ^ 32
    → count_of (Option.map (acquired now) o) ≡ count_of o + 1
count_of-acquired now none held room = absurd cc
count_of-acquired now (some m) held room = omega arith

count_of-released :
    (now : ℕ) (o : Option Mapping) → count_of (Option.map (released now) o) ≡ count_of o - 1
count_of-released now none = omega arith
count_of-released now (some m) = refl

pub refs-acquire :
    (pool : FakeIpPool) (ip j now : ℕ)
    → contains_key ip pool.ip_to_mapping ≡ true
    → refs pool ip + 1 < 2 ^ 32
    → refs (acquire pool ip now) j ≡ refs pool j + holds j (some ip)
unfolding acquire contains_key
refs-acquire pool ip j now held room =
    let changed = get-update ip j (acquired now) pool.ip_to_mapping in
    elim (Bool-cases (ip == j)) [
      | inl t ↦
          let same : ip ≡ j = (==_iff ip j).0 t in
          rw t (
            ap count_of changed
            ∙ rw (t, ← same) (count_of-acquired now (get ip pool.ip_to_mapping) held room))
      | inr f ↦ rw f (ap count_of changed ∙ rw f (omega arith))
    ]

refs-release :
    (pool : FakeIpPool) (ip j now : ℕ)
    → refs (release pool ip now) j ≡ refs pool j - holds j (some ip)
unfolding release
refs-release pool ip j now =
    let changed = get-update ip j (released now) pool.ip_to_mapping in
    elim (Bool-cases (ip == j)) [
      | inl t ↦ rw t (ap count_of changed ∙ rw t (count_of-released now (get j pool.ip_to_mapping)))
      | inr f ↦ rw f (ap count_of changed ∙ rw f (omega arith))
    ]

-- Every slot is as it should be, and the count of every address is the number of its holders:
-- the slots that hold it, and `others` for the UDP associations.
pub record IsBalanced (others : ℕ → ℕ) (w : EventLoop) : Type 0 where
  pub slots : (k : ℕ) (ctx : SocketCtx) → get k w.socket_ctxs ≡ some ctx → IsSlot ctx
  pub consistent : IsConsistent w.fake_pool
  pub counted : (ip : ℕ) → refs w.fake_pool ip ≡ holders ip w.socket_ctxs + others ip
  pub room : (ip : ℕ) → length w.socket_ctxs + others ip + 1 < 2 ^ 32

Moves-counted :
    (ip now k : ℕ) (w : EventLoop) (others : ℕ → ℕ) (c next : SocketCtx) (more : FakeIpPool)
    → IsBalanced others w
    → get k w.socket_ctxs ≡ some c
    → Moves now c w.fake_pool next more
    → refs more ip ≡ holders ip (insert k next w.socket_ctxs) + others ip
Moves-counted ip now k w others c next more b h (inl (fake, pool)) =
    let changed = holders-insert ip k c next w.socket_ctxs h in
    let same : holds ip next.fake_ip ≡ holds ip c.fake_ip = ap (holds ip) fake in
    rw pool (omega (arith, b.counted ip, changed, same))
Moves-counted ip now k w others c next more b h (inr (inl (j, held, gone, pool))) =
    let changed = holders-insert ip k c next w.socket_ctxs h in
    let before : holds ip c.fake_ip ≡ holds ip (some j) = ap (holds ip) held in
    let after : holds ip next.fake_ip ≡ 0 = ap (holds ip) gone in
    rw (pool, refs-release w.fake_pool j ip now)
      (omega (arith, b.counted ip, changed, before, after))
Moves-counted ip now k w others c next more b h (inr (inr (j, free, held, mapped, pool))) =
    let changed = holders-insert ip k c next w.socket_ctxs h in
    let before : holds ip c.fake_ip ≡ 0 = ap (holds ip) free in
    let after : holds ip next.fake_ip ≡ holds ip (some j) = ap (holds ip) held in
    let small : refs w.fake_pool j + 1 < 2 ^ 32 =
      omega (arith, b.counted j, b.room j, holders-le j w.socket_ctxs) in
    rw (pool, refs-acquire w.fake_pool j ip now mapped small)
      (omega (arith, b.counted ip, changed, before, after))

Moves-IsConsistent :
    (now : ℕ) (c next : SocketCtx) (pool more : FakeIpPool)
    → IsConsistent pool
    → Moves now c pool next more
    → IsConsistent more
Moves-IsConsistent now c next pool more ok_ (inl (fake, same)) = rw same ok_
Moves-IsConsistent now c next pool more ok_ (inr (inl (j, held, gone, same))) =
    rw same (release-IsConsistent pool j now ok_)
Moves-IsConsistent now c next pool more ok_ (inr (inr (j, free, held, mapped, same))) =
    rw same (acquire-IsConsistent pool j now ok_)

stored-IsBalanced :
    (others : ℕ → ℕ) (k now : ℕ) (w : EventLoop) (c : SocketCtx) (h : Handled)
    → IsBalanced others w
    → get k w.socket_ctxs ≡ some c
    → Fine now c w.fake_pool h
    → IsBalanced others (stored k h w)
unfolding stored
stored-IsBalanced others k now w c h b e (slot, moves) = record {
  slots = λ j ctx q. kept j ctx (sym (get-insert k j h.ctx w.socket_ctxs) ∙ q);
  consistent = Moves-IsConsistent now c h.ctx w.fake_pool h.pool b.consistent moves;
  counted = λ ip. Moves-counted ip now k w others c h.ctx h.pool b e moves;
  room = λ ip. rw (length-insert_same k c h.ctx w.socket_ctxs e) (b.room ip);
}
  where
    kept :
        (j : ℕ) (ctx : SocketCtx)
        → (if k =? j then some h.ctx else get j w.socket_ctxs) ≡ some ctx
        → IsSlot ctx
    kept j ctx q = elim (Bool-cases (k =? j)) [
      | inl t ↦ rw (← some_inj (let x : some h.ctx ≡ some ctx = rw t at q in x)) slot
      | inr f ↦ b.slots j ctx (let x : get j w.socket_ctxs ≡ some ctx = rw f at q in x)
    ]

pub on_slot-IsBalanced :
    (others : ℕ → ℕ) (k now : ℕ) (f : SocketCtx → FakeIpPool → Handled) (w : EventLoop)
    → ((ctx : SocketCtx) → IsSlot ctx → Fine now ctx w.fake_pool (f ctx w.fake_pool))
    → IsBalanced others w
    → IsBalanced others (on_slot k f w)
unfolding on_slot
on_slot-IsBalanced others k now f w fine b = elim (Option-cases (get k w.socket_ctxs)) [
  | inl e ↦ rw (on_slot, e) b
  | inr (c, e) ↦
      rw (on_slot, e)
        (stored-IsBalanced others k now w c (f c w.fake_pool) b e (fine c (b.slots k c e)))
]

reap_slot-Fine :
    (socket : Bool × Bool) (ctx : SocketCtx) (pool : FakeIpPool) (now : ℕ)
    → IsSlot ctx
    → Fine now ctx pool (reap_slot socket ctx pool now)
unfolding reap_slot
reap_slot-Fine (active, close_wait) ctx pool now s =
    if_intro (Fine now ctx pool) (is_dead active close_wait ctx) (rearm_socket-Fine ctx pool now)
      (s, inl (refl, refl))

reap_dead_slots-IsBalanced :
    (others : ℕ → ℕ) (socket : ℕ → Bool × Bool) (handles : List ℕ) (w : EventLoop) (now : ℕ)
    → IsBalanced others w
    → IsBalanced others (reap_dead_slots socket handles w now)
unfolding reap_dead_slots
reap_dead_slots-IsBalanced others socket [] w now b = b
reap_dead_slots-IsBalanced others socket (h ∷ handles) w now b =
    reap_dead_slots-IsBalanced others socket handles _ now (
      on_slot-IsBalanced others h now (λ ctx pool. reap_slot (socket h) ctx pool now) w
        (λ ctx s. reap_slot-Fine (socket h) ctx w.fake_pool now s) b)

count_of_stale :
    (now ttl : ℕ) (o : Option Mapping)
    → count_of (if stale_at now ttl o then none else o) ≡ count_of o
count_of_stale now ttl none = refl
count_of_stale now ttl (some m) = ground arith

-- A query finds a free address: with none left, `alloc` takes one that may be in use.
abbrev pub HasRoomFor : Event → FakeIpPool → Type 0
HasRoomFor (dns_query q) pool = length pool.ip_to_mapping < span pool
HasRoomFor e pool = Unit {0}

abbrev pub HasRoom : List (ℕ × Event) → EventLoop → Type 0
HasRoom [] w = Unit {0}
HasRoom ((now, e) ∷ es) w = HasRoomFor e w.fake_pool × HasRoom es (step e now w)

answer_query-IsBalanced :
    (others : ℕ → ℕ) (q : DnsQuery) (now : ℕ) (w : EventLoop)
    → length w.fake_pool.ip_to_mapping < span w.fake_pool
    → IsBalanced others w
    → IsBalanced others (record w { fake_pool = (answer_query q w.fake_pool now).1 })
unfolding answer_query
answer_query-IsBalanced others q now w free b = elim (Bool-cases (q.qtype == qtype_a)) [
  | inl t ↦
      rw (answer_query, t)
        (record {
          slots = b.slots;
          consistent = alloc-IsConsistent w.fake_pool q.qname now b.consistent;
          counted = λ ip. refs-alloc w.fake_pool q.qname now ip b.consistent free ∙ b.counted ip;
          room = b.room;
        })
  | inr f ↦ rw (answer_query, f) b
]

-- Every event of the loop keeps the balance.
step-IsBalanced :
    (others : ℕ → ℕ) (e : Event) (now : ℕ) (w : EventLoop)
    → HasRoomFor e w.fake_pool
    → IsBalanced others w
    → IsBalanced others (step e now w)
unfolding step
step-IsBalanced others (activity k act) now w free b =
    on_slot-IsBalanced others k now (λ ctx pool. process_listener_activity act k ctx pool now) w
      (λ ctx s. process_listener_activity-Fine act k ctx w.fake_pool now s) b
step-IsBalanced others (handshake_done k epoch result takes) now w free b =
    on_slot-IsBalanced others k now
      (λ ctx pool. handle_handshake_done result takes k epoch ctx pool now) w
      (λ ctx s. handle_handshake_done-Fine result takes k epoch ctx w.fake_pool now s) b
step-IsBalanced others (global_rx k answer flushed payload) now w free b =
    on_slot-IsBalanced others k now
      (λ ctx pool. handle_remote_payload answer flushed payload ctx pool now) w
      (λ ctx s. handle_remote_payload-Fine answer flushed payload ctx w.fake_pool now s) b
step-IsBalanced others (dns_query q) now w free b = answer_query-IsBalanced others q now w free b
step-IsBalanced others (reap_tick socket handles) now w free b =
    reap_dead_slots-IsBalanced others socket handles w now b
step-IsBalanced others (sweep_tick ttl) now w free b = record {
  slots = b.slots;
  consistent = sweep-IsConsistent w.fake_pool now ttl b.consistent;
  counted = λ ip.
      ap count_of (get-sweep w.fake_pool now ttl ip b.consistent)
      ∙ count_of_stale now ttl (get ip w.fake_pool.ip_to_mapping)
      ∙ b.counted ip;
  room = b.room;
}

-- Whatever events of slots, relays, handshakes and DNS queries come, with the two ticks, in any order
-- and at any times, the slots stay as they should be and the count of each fake address stays the
-- number of the slots and UDP associations that hold it. This holds as long as each query finds a free
-- address in the pool, no UDP association takes or gives up an address, and slots and associations fit
-- 32 bits.
pub run-IsBalanced :
    (others : ℕ → ℕ) (es : List (ℕ × Event)) (w : EventLoop)
    → HasRoom es w
    → IsBalanced others w
    → IsBalanced others (run es w)
run-IsBalanced others [] w free b = b
run-IsBalanced others ((now, e) ∷ es) w (free, later) b =
    run-IsBalanced others es (step e now w) later (step-IsBalanced others e now w free b)

holders_held :
    (k ip : ℕ) (ctx : SocketCtx) (m : Map ℕ SocketCtx)
    → get k m ≡ some ctx
    → ctx.fake_ip ≡ some ip
    → 1 ≤ holders ip m
unfolding get
holders_held k ip ctx [] h q = absurd cc
holders_held k ip ctx ((j, d) ∷ m) h q = elim (Bool-cases (j =? k)) [
  | inl t ↦
      let same : d ≡ ctx = some_inj (let x : some d ≡ some ctx = rw t at h in x) in
      let one : holds ip (some ip) ≡ 1 = rw ((==_iff ip ip).1 refl) refl in
      rw (same, q) (omega (arith, one))
  | inr f ↦ omega (arith, holders_held k ip ctx m (let x : get k m ≡ some ctx = rw f at h in x) q)
]

-- Where the balance holds at the start, a slot that holds a fake address finds it in the pool after any
-- events, sweeps among them, as long as each DNS query finds a free address in the pool and no UDP
-- association takes or gives up an address.
pub resolve-run :
    (others : ℕ → ℕ) (es : List (ℕ × Event)) (w : EventLoop) (k ip : ℕ) (ctx : SocketCtx)
    → HasRoom es w
    → IsBalanced others w
    → get k (run es w).socket_ctxs ≡ some ctx
    → ctx.fake_ip ≡ some ip
    → (domain : List ℕ) × (FakeIp.resolve (run es w).fake_pool ip ≡ some domain)
unfolding FakeIp.resolve
resolve-run others es w k ip ctx free b h q =
    let after = run-IsBalanced others es w free b in
    let used : 1 ≤ refs (run es w).fake_pool ip =
      omega (arith, after.counted ip, holders_held k ip ctx (run es w).socket_ctxs h q) in
    elim (Option-cases (get ip (run es w).fake_pool.ip_to_mapping)) [
      | inl e ↦ absurd (omega (arith, used, ap count_of e))
      | inr (m, e) ↦ (m.domain, rw e refl)
    ]

-- ===== src/Tuic/Tests.antt =====
-- src/tuic.rs on concrete packets, fragments and flows.
use mini_vpn.Target.{TargetAddr, domain_port}
use mini_vpn.Flow.{FourTuple, tuple_beq_iff}
use mini_vpn.Tuic.Codec.{address_len, u16_at, PacketMeta, decode_packet_meta}
use mini_vpn.Tuic.Codec.RoundTrip.{omitted, packet_bytes, decode-packet_bytes, decode-within}
use mini_vpn.Tuic.Frag.{with_cap, accept}
use mini_vpn.Tuic.Frag.Bounds.{IsWellFormed, accept-IsWellFormed, with_cap-IsWellFormed}
use mini_vpn.Tuic.Frag.Reassembly.{member, fragment, feed, whole_packet, accept-feed}
use mini_vpn.Tuic.Assoc
use mini_vpn.Tuic.Assoc.{AssocTable, intern, find_id}
use mini_vpn.Tuic.Assoc.Consistent.{IsConsistent, tuple_at}
use mini_vpn.Tuic.Assoc.Intern.{Interned, intern-Interned, intern-intern}
use mini_vpn.Tuic.Assoc.Sweep.{sweep-IsConsistent}
use mini_vpn.Base.{
  ℕ, zero, suc, ◌+◌, ◌≤◌, ◌<◌, ◌≡◌, refl, ◌≢◌, true, none, some, List, [], ◌∷◌, arith, length, take,
  drop,
}
use mini_vpn.Base.Keys.{nat_eq, bytes_eq, pair_eq}
use mini_vpn.Base.Map.{get}

abbrev example_com : TargetAddr
example_com = domain_port (101 ∷ 46 ∷ 99 ∷ []) 443

decode-packet_bytes_example :
    decode_packet_meta (packet_bytes 7 300 2 1 omitted (1 ∷ 2 ∷ 3 ∷ []))
    ≡ some (record {
      assoc_id = 7;
      pkt_id = 300;
      frag_total = 2;
      frag_id = 1;
      payload = 1 ∷ 2 ∷ 3 ∷ [];
    })
decode-packet_bytes_example =
    decode-packet_bytes 7 300 2 1 omitted (1 ∷ 2 ∷ 3 ∷ []) (omega arith) (omega arith) (omega arith)

abbrev received : List ℕ
received = 5 ∷ 2 ∷ 0 ∷ 7 ∷ 0 ∷ 0 ∷ 1 ∷ 0 ∷ 0 ∷ 2 ∷ 0xff ∷ 8 ∷ 9 ∷ 10 ∷ []

abbrev received_meta : PacketMeta
received_meta = record {
  assoc_id = 7;
  pkt_id = 0;
  frag_total = 1;
  frag_id = 0;
  payload = 8 ∷ 9 ∷ [];
}

decode-within_example :
    (n : ℕ) × (address_len received 10 ≡ some n)
    × (u16_at received 8 ≡ some (length received_meta.payload))
    × (10 + n + length received_meta.payload ≤ length received)
    × (received_meta.payload ≡ take (length received_meta.payload) (drop (10 + n) received))
unfolding decode_packet_meta
decode-within_example = decode-within received received_meta refl

-- A packet whose length field goes past the end is not read.
short_packet_refused :
    decode_packet_meta (5 ∷ 2 ∷ 0 ∷ 7 ∷ 0 ∷ 0 ∷ 1 ∷ 0 ∷ 0 ∷ 9 ∷ 0xff ∷ 8 ∷ []) ≡ none
unfolding decode_packet_meta
short_packet_refused = refl

abbrev pieces : List (List ℕ)
pieces = (1 ∷ 2 ∷ []) ∷ (3 ∷ []) ∷ (4 ∷ 5 ∷ []) ∷ []

all_but_one : (j : ℕ) → j < 3 → j ≢ 1 → member j (2 ∷ 0 ∷ 2 ∷ []) ≡ true
all_but_one zero h ne = refl
all_but_one (suc zero) h ne = absurd (ne refl)
all_but_one (suc (suc zero)) h ne = refl
all_but_one (suc (suc (suc j))) h ne = absurd (omega arith)

accept-feed_example :
    (accept
      (feed 7 9 pieces (with_cap 4) ((2, 12) ∷ (0, 11) ∷ (2, 10) ∷ []))
      (fragment 7 9 pieces 1)
      13).0
    ≡ some (whole_packet pieces)
unfolding with_cap get
accept-feed_example =
    accept-feed 7 9 pieces (with_cap 4) 1 13 ((2, 12) ∷ (0, 11) ∷ (2, 10) ∷ []) (omega arith)
      (omega arith) refl
      (
        (omega arith, λ q. omega arith),
        ((omega arith, λ q. omega arith), ((omega arith, λ q. omega arith), tt)),
      )
      all_but_one

accept-IsWellFormed_example : IsWellFormed (accept (with_cap 1) (fragment 7 9 pieces 2) 5).1
accept-IsWellFormed_example =
    accept-IsWellFormed (with_cap 1) (fragment 7 9 pieces 2) 5 (with_cap-IsWellFormed 1)

abbrev flow : ℕ → FourTuple
flow port = record { src_ip = 10; src_port = port; dst_ip = 20; dst_port = 443 }

-- A table of one flow, full, with the last id in use.
abbrev full : AssocTable
full = record {
  tuple_to_id = (flow 5000, 65535) ∷ [];
  id_to_entry = (65535, record { tuple = flow 5000; last_activity = 3 }) ∷ [];
  id_to_fake_ip = (65535, 77) ∷ [];
  reclaimed_fake_ips = [];
  next_id = 65535;
  cap = 1;
}

-- The new flow drives out the old one, whose fake address is given up.
intern-full : intern full (flow 6000) ≡ (
  some 65535,
  record {
    tuple_to_id = (flow 6000, 65535) ∷ [];
    id_to_entry = (65535, record { tuple = flow 6000; last_activity = 0 }) ∷ [];
    id_to_fake_ip = [];
    reclaimed_fake_ips = 77 ∷ [];
    next_id = 1;
    cap = 1;
  },
)
unfolding intern
intern-full = refl

full-IsConsistent : IsConsistent full
unfolding tuple_at get
full-IsConsistent = record {
  to_entry = λ t id h. ground (arith, tuple_beq_iff (flow 5000) t);
  to_id = λ t id h. ground (arith, tuple_beq_iff (flow 5000) t);
  ids = λ t id h. ground arith;
  next = omega arith;
  capped = omega arith;
  room = omega arith;
  unique = (refl, tt);
}

intern-Interned_example : Interned full (flow 6000)
intern-Interned_example = intern-Interned full (flow 6000) full-IsConsistent

intern-intern_example : intern (intern full (flow 6000)).1 (flow 6000) ≡ intern full (flow 6000)
intern-intern_example = intern-intern full (flow 6000) full-IsConsistent

sweep-IsConsistent_example : IsConsistent (Assoc.sweep full 90 60).1
sweep-IsConsistent_example = sweep-IsConsistent full 90 60 full-IsConsistent

-- The idle flow goes, and its fake address is handed back.
sweep-full : (Assoc.sweep full 90 60).0 ≡ 77 ∷ []
unfolding Assoc.sweep
sweep-full = refl

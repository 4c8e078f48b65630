-- ===== src/Tuic/Frag/Reassembly.antt =====
-- src/tuic.rs: a packet that was cut into fragments comes out whole, in whatever order they come.
use mini_vpn.Tuic.Codec.{PacketMeta}
use mini_vpn.Tuic.Frag.{
  Key, FragPartial, FragReassembler, find_partial, fill, join, deliver, accept_fragment, accept,
}
use mini_vpn.Tuic.Frag.Bounds.{present, present-set, present-replicate}
use mini_vpn.Base.{
  ℕ, zero, suc, ◌+◌, ◌≤◌, ◌<◌, ◌≡◌, refl, sym, ap, ◌∙◌, ◌≢◌, inl, inr, Bool, true, false, Option,
  none, some, List, [], ◌∷◌, ◌++◌, arith, ◌==◌, ==_iff, if◌then◌else◌, Bool-cases, length,
  get_elem?, set, replicate, All, any,
}
use mini_vpn.Base.Keys.{nat_eq, bytes_eq, pair_eq}
use mini_vpn.Base.Map.{Map, get, insert, remove, get-insert, =?_refl}

abbrev pub member : ℕ → List ℕ → Bool
member i ids = any (λ j. j == i) ids

-- The slots of the packet `chunks` once the fragments `ids` have come; `k` numbers the first chunk.
unfoldable pub mask : List ℕ → ℕ → List (List ℕ) → List (Option (List ℕ))
mask ids k [] = []
mask ids k (c ∷ cs) = (if member k ids then some c else none) ∷ mask ids (k + 1) cs

pub chunk : List (List ℕ) → ℕ → List ℕ
chunk [] i = []
chunk (c ∷ cs) zero = c
chunk (c ∷ cs) (suc i) = chunk cs i

length-mask : (ids : List ℕ) (k : ℕ) (cs : List (List ℕ)) → length (mask ids k cs) ≡ length cs
unfolding mask
length-mask ids k [] = refl
length-mask ids k (c ∷ cs) = ap suc (length-mask ids (k + 1) cs)

-- The number of a fragment that lies before all these slots does not show in them.
mask-below :
    (i : ℕ) (ids : List ℕ) (k : ℕ) (cs : List (List ℕ))
    → i < k
    → mask (i ∷ ids) k cs ≡ mask ids k cs
unfolding mask
mask-below i ids k [] h = refl
mask-below i ids k (c ∷ cs) h = ground (arith, mask-below i ids (k + 1) cs (omega arith))

set-mask :
    (i : ℕ) (ids : List ℕ) (k : ℕ) (cs : List (List ℕ))
    → i < length cs
    → set (mask ids k cs) i (some (chunk cs i)) ≡ mask ((k + i) ∷ ids) k cs
unfolding mask chunk
set-mask i ids k [] h = absurd (omega arith)
set-mask zero ids k (c ∷ cs) h = ground (arith, mask-below (k + 0) ids (k + 1) cs)
set-mask (suc i) ids k (c ∷ cs) h =
    let same : k + 1 + i ≡ k + suc i = omega arith in
    ground (arith, same, set-mask i ids (k + 1) cs)

get_elem?-mask :
    (i : ℕ) (ids : List ℕ) (k : ℕ) (cs : List (List ℕ))
    → i < length cs
    → get_elem? (mask ids k cs) i ≡ some (if member (k + i) ids then some (chunk cs i) else none)
unfolding mask chunk
get_elem?-mask i ids k [] h = absurd (omega arith)
get_elem?-mask zero ids k (c ∷ cs) h = let same : k + 0 ≡ k = omega arith in rw same
get_elem?-mask (suc i) ids k (c ∷ cs) h =
    let same : k + suc i ≡ k + 1 + i = omega arith in
    rw same (get_elem?-mask i ids (k + 1) cs (omega arith))

mask-nil : (k : ℕ) (cs : List (List ℕ)) → mask [] k cs ≡ replicate (length cs) none
unfolding mask
mask-nil k [] = refl
mask-nil k (c ∷ cs) = ap (◌∷◌ none) (mask-nil (k + 1) cs)

-- A slot list with nothing missing joins to the packet.
present-mask-le : (ids : List ℕ) (k : ℕ) (cs : List (List ℕ)) → present (mask ids k cs) ≤ length cs
unfolding mask
present-mask-le ids k [] = omega arith
present-mask-le ids k (c ∷ cs) = ground (arith, present-mask-le ids (k + 1) cs)

pub whole_packet : List (List ℕ) → List ℕ
whole_packet [] = []
whole_packet (c ∷ cs) = c ++ whole_packet cs

join-mask :
    (ids : List ℕ) (k : ℕ) (cs : List (List ℕ))
    → present (mask ids k cs) ≡ length cs
    → join (mask ids k cs) ≡ whole_packet cs
unfolding mask join whole_packet
join-mask ids k [] h = refl
join-mask ids k (c ∷ cs) h =
    ground (arith, join-mask ids (k + 1) cs, present-mask-le ids (k + 1) cs)

-- Fragments that number every slot fill them all, and one that has not come leaves a gap.
present-mask_all :
    (ids : List ℕ) (k : ℕ) (cs : List (List ℕ))
    → ((j : ℕ) → j < length cs → member (k + j) ids ≡ true)
    → present (mask ids k cs) ≡ length cs
unfolding mask
present-mask_all ids k [] all = refl
present-mask_all ids k (c ∷ cs) all =
    let z : k + 0 ≡ k = omega arith in
    let rest =
      present-mask_all ids (k + 1) cs
        λ j h. let e : k + 1 + j ≡ k + suc j = omega arith in rw e (all (suc j) (omega arith)) in
    let first : member k ids ≡ true = rw z at (all 0 (omega arith)) in rw first (ap suc rest)

present-mask_gap :
    (ids : List ℕ) (k : ℕ) (cs : List (List ℕ)) (j : ℕ)
    → j < length cs
    → member (k + j) ids ≡ false
    → present (mask ids k cs) < length cs
unfolding mask
present-mask_gap ids k [] j h e = absurd (omega arith)
present-mask_gap ids k (c ∷ cs) zero h e =
    let z : k + 0 ≡ k = omega arith in
    let first : member k ids ≡ false = rw z at e in
    rw first (omega (arith, present-mask-le ids (k + 1) cs))
present-mask_gap ids k (c ∷ cs) (suc j) h e =
    let z : k + suc j ≡ k + 1 + j = omega arith in
    let rest = present-mask_gap ids (k + 1) cs j (omega arith) (rw z at e) in
    elim (Bool-cases (member k ids)) [
      | inl t ↦ rw t (omega (arith, rest))
      | inr f ↦ rw f (omega (arith, rest))
    ]

-- The fragments of one packet, under one key.
module _ (assoc pkt : ℕ) (cs : List (List ℕ)) where
  abbrev pub fragment : ℕ → PacketMeta
  fragment i = record {
    assoc_id = assoc;
    pkt_id = pkt;
    frag_total = length cs;
    frag_id = i;
    payload = chunk cs i;
  }

  -- The slots that the next fragment is written to.
  abbrev slots : FragReassembler → ℕ → FragPartial
  slots r now = (find_partial r.cap (assoc, pkt) (length cs) now r.partials).0

  abbrev Holds : FragPartial → List ℕ → Type 0
  Holds p ids = (p.frags ≡ mask ids 0 cs) × (p.received ≡ present (mask ids 0 cs))

  slots-none :
      (r : FragReassembler) (now : ℕ) → get (assoc, pkt) r.partials ≡ none → Holds (slots r now) []
  slots-none r now e =
      unfold find_partial in ground (arith, e, mask-nil 0 cs, present-replicate (length cs))

  written :
      (i : ℕ) (ids : List ℕ) (p : FragPartial)
      → i < length cs
      → p.frags ≡ mask ids 0 cs
      → set p.frags i (some (chunk cs i)) ≡ mask (i ∷ ids) 0 cs
  written i ids p lt frags =
      let z : 0 + i ≡ i = omega arith in rw frags (set-mask i ids 0 cs lt ∙ rw z)

  slot_before :
      (i : ℕ) (ids : List ℕ) (p : FragPartial)
      → i < length cs
      → p.frags ≡ mask ids 0 cs
      → get_elem? p.frags i ≡ some (if member i ids then some (chunk cs i) else none)
  slot_before i ids p lt frags =
      let z : 0 + i ≡ i = omega arith in rw frags (get_elem?-mask i ids 0 cs lt ∙ rw z)

  fill-Holds :
      (i : ℕ) (ids : List ℕ) (p : FragPartial)
      → i < length cs
      → Holds p ids
      → Holds (fill i (chunk cs i) p) (i ∷ ids)
  fill-Holds i ids p lt (frags, count) =
      let w = written i ids p lt frags in
      let b = slot_before i ids p lt frags in
      elim (Bool-cases (member i ids)) [
        | inl t ↦
            let g : get_elem? p.frags i ≡ some (some (chunk cs i)) = rw t at b in
            let same = present-set p.frags i (chunk cs i) g in
            unfold fill in
            rw (g, fill) (w, count ∙ ap present (sym frags) ∙ sym same ∙ ap present w)
        | inr f ↦
            let g : get_elem? p.frags i ≡ some none = rw f at b in
            let more = present-set p.frags i (chunk cs i) g in
            unfold fill in
            rw (g, fill)
              (w, ap (λ (n : ℕ). n + 1) (count ∙ ap present (sym frags)) ∙ sym more ∙ ap present w)
      ]

  -- The reassembler has the slots of the fragments `ids` ready, at any time.
  abbrev pub Ready : FragReassembler → List ℕ → Type 0
  Ready r ids = (now : ℕ) → Holds (slots r now) ids

  pub start-Ready : (r : FragReassembler) → get (assoc, pkt) r.partials ≡ none → Ready r []
  start-Ready r e now = slots-none r now e

  accept_open :
      (r : FragReassembler) (i now : ℕ)
      → 2 ≤ length cs
      → i < length cs
      → accept r (fragment i) now ≡ accept_fragment r (fragment i) now
  unfolding accept
  accept_open r i now two lt = ground arith

  abbrev filled : FragReassembler → ℕ → ℕ → FragPartial
  filled r i now = fill i (chunk cs i) (slots r now)

  deliver-missing :
      (p : FragPartial) (ps : Map Key FragPartial) (ids : List ℕ)
      → Holds p ids
      → present (mask ids 0 cs) < length cs
      → deliver (assoc, pkt) p ps ≡ (none, insert (assoc, pkt) p ps)
  unfolding deliver
  deliver-missing p ps ids (frags, count) missing =
      ground (arith, ap length frags ∙ length-mask ids 0 cs, count, missing)

  deliver_complete :
      (p : FragPartial) (ps : Map Key FragPartial) (ids : List ℕ)
      → Holds p ids
      → present (mask ids 0 cs) ≡ length cs
      → deliver (assoc, pkt) p ps ≡ (some (whole_packet cs), remove (assoc, pkt) ps)
  unfolding deliver
  deliver_complete p ps ids (frags, count) complete = ground (
    arith,
    ap length frags ∙ length-mask ids 0 cs,
    count,
    complete,
    ap join frags ∙ join-mask ids 0 cs complete,
  )

  kept-Holds :
      (cap now : ℕ) (p : FragPartial) (ps : Map Key FragPartial) (ids : List ℕ)
      → Holds p ids
      → Holds (find_partial cap (assoc, pkt) (length cs) now (insert (assoc, pkt) p ps)).0 ids
  kept-Holds c now p ps ids (frags, count) =
      let found : get (assoc, pkt) (insert (assoc, pkt) p ps) ≡ some p =
        get-insert (assoc, pkt) (assoc, pkt) p ps ∙ rw (=?_refl {K = Key} (assoc, pkt)) refl in
      let right : (length p.frags == length cs) ≡ true =
        (==_iff _ _).1 (ap length frags ∙ length-mask ids 0 cs) in
      unfold find_partial in rw (found, find_partial, right) (frags, count)

  -- A fragment that leaves others missing gives nothing, and is kept.
  pub accept-Ready :
      (r : FragReassembler) (ids : List ℕ) (i now : ℕ)
      → 2 ≤ length cs
      → i < length cs
      → Ready r ids
      → present (mask (i ∷ ids) 0 cs) < length cs
      → ((accept r (fragment i) now).0 ≡ none) × Ready (accept r (fragment i) now).1 (i ∷ ids)
  accept-Ready r ids i now two lt ready missing =
      let h = fill-Holds i ids (slots r now) lt (ready now) in
      let ps = (find_partial r.cap (assoc, pkt) (length cs) now r.partials).1 in
      rw (accept_open r i now two lt) (
        unfold accept_fragment in
        rw (deliver-missing (filled r i now) ps (i ∷ ids) h missing)
          (refl, λ later. kept-Holds r.cap later (filled r i now) ps (i ∷ ids) h))

  pub accept_last :
      (r : FragReassembler) (ids : List ℕ) (i now : ℕ)
      → 2 ≤ length cs
      → i < length cs
      → Ready r ids
      → present (mask (i ∷ ids) 0 cs) ≡ length cs
      → (accept r (fragment i) now).0 ≡ some (whole_packet cs)
  accept_last r ids i now two lt ready complete =
      let h = fill-Holds i ids (slots r now) lt (ready now) in
      let ps = (find_partial r.cap (assoc, pkt) (length cs) now r.partials).1 in
      rw (accept_open r i now two lt)
        (unfold accept_fragment in rw (deliver_complete (filled r i now) ps (i ∷ ids) h complete))

  -- The state after some arrivals, (fragment number, time), newest first.
  unfoldable pub feed : FragReassembler → List (ℕ × ℕ) → FragReassembler
  unfolding accept
  feed r [] = r
  feed r ((i, now) ∷ earlier) = (accept (feed r earlier) (fragment i) now).1

  abbrev pub numbers : List (ℕ × ℕ) → List ℕ
  numbers [] = []
  numbers ((i, now) ∷ earlier) = i ∷ numbers earlier

  -- Each arrival carries a fragment of the packet, and the fragment `gap` is not among them.
  abbrev pub Without : ℕ → List (ℕ × ℕ) → Type 0
  Without gap = All (λ a. (a.0 < length cs) × (a.0 ≢ gap))

  member-Without :
      (gap : ℕ) (earlier : List (ℕ × ℕ))
      → Without gap earlier
      → member gap (numbers earlier) ≡ false
  member-Without gap [] w = refl
  member-Without gap ((i, now) ∷ earlier) (w, ws) = ground (arith, w, member-Without gap earlier ws)

  feed-Ready :
      (r : FragReassembler) (gap : ℕ) (earlier : List (ℕ × ℕ))
      → 2 ≤ length cs
      → gap < length cs
      → get (assoc, pkt) r.partials ≡ none
      → Without gap earlier
      → Ready (feed r earlier) (numbers earlier)
  unfolding feed
  feed-Ready r gap [] two lt new w = start-Ready r new
  feed-Ready r gap ((i, now) ∷ earlier) two lt new (w, ws) =
      let z : 0 + gap ≡ gap = omega arith in
      (accept-Ready (feed r earlier) (numbers earlier) i now two w.0
        (feed-Ready r gap earlier two lt new ws)
        (present-mask_gap (i ∷ numbers earlier) 0 cs gap lt (
          ap (λ (n : ℕ). member n (i ∷ numbers earlier)) z
          ∙ member-Without gap ((i, now) ∷ earlier) (w, ws)))).1

  -- For a packet of two fragments or more, of which no fragment was held before, and where only
  -- fragments of this packet come, with no sweep in between: once all of them but one have come, in
  -- any order and any number of times, the last one gives the whole packet.
  pub accept-feed :
      (r : FragReassembler) (last now : ℕ) (earlier : List (ℕ × ℕ))
      → 2 ≤ length cs
      → last < length cs
      → get (assoc, pkt) r.partials ≡ none
      → Without last earlier
      → ((j : ℕ) → j < length cs → j ≢ last → member j (numbers earlier) ≡ true)
      → (accept (feed r earlier) (fragment last) now).0 ≡ some (whole_packet cs)
  accept-feed r last now earlier two lt new w all =
      accept_last (feed r earlier) (numbers earlier) last now two lt
        (feed-Ready r last earlier two lt new w)
        (present-mask_all (last ∷ numbers earlier) 0 cs λ j h.
          let z : 0 + j ≡ j = omega arith in
          ap (λ (n : ℕ). member n (last ∷ numbers earlier)) z ∙ ground (arith, all j h))

-- ===== src/Dns/Echo.antt =====
-- src/dns.rs (`parse_query`, `build_response`): a reply is read back as the query that it answers.
use mini_vpn.Dns.{
  DnsQuery, Answer, u16_at, slice, labels_at, join, question_at, body_at, parse_query,
  build_response, reply_flags, ancount, answer_record,
}
use mathlib.Core.Path.{subst}
use mini_vpn.Dns.Labels.{labels_at-lt, Agree, labels_at-Agree}
use mini_vpn.Base.{
  ℕ, ◌+◌, ◌-◌, ◌/◌, ◌%◌, ◌≤◌, ◌<◌, ◌≡◌, refl, sym, ap, ◌∙◌, inl, inr, Bool, true, false, not, ◌&&◌,
  none, some, List, ◌++◌, arith, ltb, leb, ◌==◌, leb→le, Bool-cases, Option-cases, ◌>>=◌, some_inj,
  bind_some, length, get_elem?, take, drop, length-append, length-take, length-drop,
  take-append-drop, drop-append, drop-append_le, drop-add, get_elem?-append, get_elem?-append_lt,
  take-append_le, and_right,
}
use mini_vpn.Base.Bytes.{IsU16, u16_be, from_be16, from_be16-u16_be}
use mini_vpn.Base.Keys.{nat_eq, bytes_eq, pair_eq}

-- What a query that was read has in its bytes.
record Parsed (bs : List ℕ) (q : DnsQuery) : Type 0 where
  labels : List (List ℕ)
  pos : ℕ
  run : labels_at (length bs) bs 12 ≡ some (labels, pos)
  name : q.qname ≡ join labels
  kind : u16_at bs pos ≡ some q.qtype
  section : slice bs 12 (pos + 4) ≡ some q.question

question_at-Parsed :
    (bs : List ℕ) (id flags : ℕ) (ls : List (List ℕ)) (p : ℕ) (q : DnsQuery)
    → labels_at (length bs) bs 12 ≡ some (ls, p)
    → question_at bs id flags (ls, p) ≡ some q
    → Parsed bs q
unfolding question_at
question_at-Parsed bs id flags ls p q run h = elim (Option-cases (u16_at bs p)) [
  | inl e ↦ absurd (let x : none ≡ some q = rw (e, question_at) at h in cc)
  | inr (t, e) ↦ elim (Option-cases (slice bs 12 (p + 4))) [
    | inl s ↦ absurd (let x : none ≡ some q = rw (e, s, question_at) at h in cc)
    | inr (w, s) ↦
        let same = some_inj (rw (e, s, question_at) at h) in
        record {
          labels = ls;
          pos = p;
          run = run;
          name = ap (λ (r : DnsQuery). r.qname) (sym same);
          kind = e ∙ ap (λ (r : DnsQuery). some r.qtype) same;
          section = s ∙ ap (λ (r : DnsQuery). some r.question) same;
        }
  ]
]

body_at-Parsed :
    (bs : List ℕ) (id flags qdcount : ℕ) (q : DnsQuery)
    → body_at bs id flags qdcount ≡ some q
    → Parsed bs q
unfolding body_at
body_at-Parsed bs id flags qdcount q h = elim (Bool-cases (qdcount == 1)) [
  | inl t ↦
      let ((ls, p), run, at) =
        bind_some (labels_at (length bs) bs 12) (question_at bs id flags) (rw (t, body_at) at h) in
      question_at-Parsed bs id flags ls p q run at
  | inr f ↦ absurd (let x : none ≡ some q = rw (f, body_at) at h in cc)
]

parse_query-Parsed :
    (bs : List ℕ) (q : DnsQuery) → parse_query bs ≡ some q → (12 ≤ length bs) × Parsed bs q
unfolding parse_query
parse_query-Parsed bs q h = elim (Bool-cases (ltb (length bs) 12)) [
  | inl t ↦ absurd (let x : none ≡ some q = rw (t, parse_query) at h in cc)
  | inr f ↦
      let (id, _, h1) =
        bind_some (u16_at bs 0) (λ id. u16_at bs 2 >>= λ flags. u16_at bs 4 >>= body_at bs id flags)
          (rw (f, parse_query) at h) in
      let (flags, _, h2) =
        bind_some (u16_at bs 2) (λ flags. u16_at bs 4 >>= body_at bs id flags) h1 in
      let (qdcount, _, h3) = bind_some (u16_at bs 4) (body_at bs id flags) h2 in
      (ground arith, body_at-Parsed bs id flags qdcount q h3)
]

-- The stretch `q` of a buffer, behind twelve bytes.
module _ (f q t : List ℕ) (twelve : length f ≡ 12) where
  framed_bytes :
      (i : ℕ) → 12 ≤ i → i < 12 + length q → get_elem? (f ++ (q ++ t)) i ≡ get_elem? q (i - 12)
  framed_bytes i low high =
      ap (get_elem? (f ++ (q ++ t))) (omega arith)
      ∙ get_elem?-append f (q ++ t) 12 (i - 12) twelve
      ∙ get_elem?-append_lt q t (i - 12) (omega arith)

  framed_drop : (a : ℕ) → 12 ≤ a → a ≤ 12 + length q → drop a (f ++ (q ++ t)) ≡ drop (a - 12) q ++ t
  framed_drop a low high =
      ap (λ n. drop n (f ++ (q ++ t))) (omega arith)
      ∙ drop-add 12 (a - 12) (f ++ (q ++ t))
      ∙ ap (drop (a - 12)) (drop-append 12 f (q ++ t) twelve)
      ∙ drop-append_le (a - 12) q t (omega arith)

  framed_slice :
      (a b : ℕ)
      → 12 ≤ a
      → a ≤ b
      → b ≤ 12 + length q
      → slice (f ++ (q ++ t)) a b ≡ some (take (b - a) (drop (a - 12) q))
  framed_slice a b low order high =
      let inside : (leb a b && leb b (length (f ++ (q ++ t)))) ≡ true =
        ground (arith, length-append f (q ++ t), length-append q t) in
      rw
        (
          inside,
          framed_drop a low (omega arith),
          take-append_le (b - a) (drop (a - 12) q) t (omega (arith, length-drop (a - 12) q)),
        )
        refl

framed-Agree :
    (f g q t u : List ℕ)
    → length f ≡ 12
    → length g ≡ 12
    → Agree (f ++ (q ++ t)) (g ++ (q ++ u)) (12 + length q)
framed-Agree f g q t u x y = record {
  bytes = λ i low high. framed_bytes f q t x i low high ∙ sym (framed_bytes g q u y i low high);
  slices = λ a b low order high.
      framed_slice f q t x a b low order high ∙ sym (framed_slice g q u y a b low order high);
}

abbrev head : DnsQuery → Answer → List ℕ
head q a =
    u16_be q.id
    ++ u16_be (reply_flags q.rd)
    ++ u16_be 1
    ++ u16_be (ancount a)
    ++ u16_be 0
    ++ u16_be 0

flags_rd :
    (b : Bool)
    → not (from_be16 (reply_flags b / 256 % 256) (reply_flags b % 256) / 256 % 2 == 0) ≡ b
flags_rd true = refl
flags_rd false = refl

-- A buffer cut around the question that was read from it.
record Cut (bs : List ℕ) (p : ℕ) (w : List ℕ) : Type 0 where
  inside : p ≤ length bs
  size : length w ≡ p - 12
  whole : bs ≡ take 12 bs ++ (w ++ drop (p - 12) (drop 12 bs))

cut : (bs : List ℕ) (p : ℕ) (w : List ℕ) → 12 ≤ p → slice bs 12 p ≡ some w → Cut bs p w
cut bs p w low h = elim (Bool-cases (leb 12 p && leb p (length bs))) [
  | inl t ↦
      let within : p ≤ length bs = leb→le p (length bs) (and_right (leb 12 p) _ t) in
      let same : take (p - 12) (drop 12 bs) ≡ w = some_inj (rw t at h) in
      record {
        inside = within;
        size =
            ap (λ v. length v) (sym same)
            ∙ length-take (p - 12) (drop 12 bs)
            ∙ omega (arith, length-drop 12 bs);
        whole =
            sym (take-append-drop 12 bs)
            ∙ ap (◌++◌ (take 12 bs)) (sym (take-append-drop (p - 12) (drop 12 bs)))
            ∙ ap (λ v. take 12 bs ++ (v ++ drop (p - 12) (drop 12 bs))) same;
      }
  | inr f ↦ absurd (let x : none ≡ some w = rw f at h in cc)
]

reply-Agree :
    (bs : List ℕ) (p : ℕ) (q : DnsQuery) (a : Answer)
    → 12 ≤ length bs
    → Cut bs p q.question
    → Agree (build_response q a) bs (12 + length q.question)
unfolding build_response
reply-Agree bs p q a long c =
    subst (λ d. Agree (build_response q a) d (12 + length q.question)) (sym c.whole)
      (framed-Agree (head q a) (take 12 bs) q.question (answer_record a)
        (drop (p - 12) (drop 12 bs)) refl (length-take 12 bs ∙ omega (arith, long)))

reply_body :
    (r : List ℕ) (ls : List (List ℕ)) (p : ℕ) (q : DnsQuery) (flags : ℕ)
    → not (flags / 256 % 2 == 0) ≡ q.rd
    → q.qname ≡ join ls
    → labels_at (length r) r 12 ≡ some (ls, p)
    → u16_at r p ≡ some q.qtype
    → slice r 12 (p + 4) ≡ some q.question
    → body_at r q.id flags 1 ≡ some q
unfolding body_at question_at
reply_body r ls p q flags rd name run kind section =
    rw (run, question_at) (rw (kind, section) (rw (rd, sym name) refl))

length-reply : (q : DnsQuery) (a : Answer) → 12 + length q.question ≤ length (build_response q a)
unfolding build_response
length-reply q a = omega (arith, length-append q.question (answer_record a))

parse_query-body_at :
    (r : List ℕ) (id flags : ℕ)
    → 12 ≤ length r
    → u16_at r 0 ≡ some id
    → u16_at r 2 ≡ some flags
    → u16_at r 4 ≡ some 1
    → parse_query r ≡ body_at r id flags 1
unfolding parse_query
parse_query-body_at r id flags long i f n =
    let enough : ltb (length r) 12 ≡ false = ground arith in rw (enough, i, f, n) refl

reply_head :
    (q : DnsQuery) (a : Answer)
    → IsU16 q.id
    → parse_query (build_response q a)
      ≡ body_at
          (build_response q a)
          q.id
          (from_be16 (reply_flags q.rd / 256 % 256) (reply_flags q.rd % 256))
          1
unfolding build_response
reply_head q a id16 =
    parse_query-body_at (build_response q a) q.id _ (omega (arith, length-reply q a))
      (ap some (from_be16-u16_be q.id id16)) refl refl

-- The reply to a query, with an address or without, is read back as that query: the same id, name,
-- type, recursion bit and question, whatever followed the question in the query.
pub parse_query-build_response :
    (bs : List ℕ) (q : DnsQuery) (a : Answer)
    → parse_query bs ≡ some q
    → IsU16 q.id
    → parse_query (build_response q a) ≡ some q
parse_query-build_response bs q a h id16 =
    let (long, s) = parse_query-Parsed bs q h in
    let forward = labels_at-lt (length bs) bs 12 s.labels s.pos s.run in
    let c = cut bs (s.pos + 4) q.question (omega arith) s.section in
    let r = build_response q a in
    let ag = reply-Agree bs (s.pos + 4) q a long c in
    let run =
      labels_at-Agree (length bs) (length r) r bs (12 + length q.question) 12 s.labels s.pos ag
        (omega arith) (omega (arith, c.size)) (omega (arith, c.size, length-reply q a)) s.run in
    let kind : u16_at r s.pos ≡ some q.qtype =
      rw
        (
          ag.bytes s.pos (omega arith) (omega (arith, c.size)),
          ag.bytes (s.pos + 1) (omega arith) (omega (arith, c.size)),
        )
        s.kind in
    let section =
      ag.slices 12 (s.pos + 4) (omega arith) (omega arith) (omega (arith, c.size)) ∙ s.section in
    reply_head q a id16 ∙ reply_body r s.labels s.pos q _ (flags_rd q.rd) s.name run kind section

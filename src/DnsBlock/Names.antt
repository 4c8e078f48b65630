-- ===== src/DnsBlock/Names.antt =====
-- src/dns_block.rs (`is_doh_domain`): which names are blocked.
use mathlib.Core.List.{append_assoc}
use mini_vpn.DnsBlock.{
  doh_domains, lower, trim_end_dots, strip_suffix, ends_with_dot, is_some_and, matches_doh,
  is_doh_domain,
}
use mini_vpn.Base.{
  ℕ, ◌-◌, ◌≡◌, refl, sym, ap, ◌∙◌, ◌↔◌, ◌⊎◌, inl, inr, true, false, ◌&&◌, none, some, List, [], ◌∷◌,
  ◌++◌, map, arith, leb, ==_iff, Bool-cases, Option-cases, some_inj, length, take, drop,
  length-append, take-append-drop, take-append, drop-append, any, any_iff, Some, and_right,
  or_right,
}
use mini_vpn.Base.Keys.{◌=?◌, nat_eq, bytes_eq, pair_eq}
use mini_vpn.Base.Map.{=?_refl, =?_eq}

strip_suffix_append : (p suffix : List ℕ) → strip_suffix (p ++ suffix) suffix ≡ some p
unfolding strip_suffix
strip_suffix_append p suffix =
    let front : length (p ++ suffix) - length suffix ≡ length p =
      omega (arith, length-append p suffix) in
    let long : leb (length suffix) (length (p ++ suffix)) ≡ true =
      ground (arith, length-append p suffix) in
    rw
      (
        front,
        long,
        drop-append (length p) p suffix refl,
        take-append (length p) p suffix refl,
        =?_refl suffix,
      )
      refl

strip_suffix_sound : (d suffix p : List ℕ) → strip_suffix d suffix ≡ some p → d ≡ p ++ suffix
unfolding strip_suffix
strip_suffix_sound d suffix p h =
    let n = length d - length suffix in
    elim (Bool-cases (leb (length suffix) (length d) && drop n d =? suffix)) [
      | inl t ↦
          let same : drop n d ≡ suffix = =?_eq (drop n d) suffix (and_right _ _ t) in
          let front : take n d ≡ p = some_inj (rw t at h) in
          sym (take-append-drop n d) ∙ rw (front, same) refl
      | inr f ↦ let e : none ≡ some p = rw f at h in cc
    ]

ends_with_dot_append : (q : List ℕ) → ends_with_dot (q ++ 46 ∷ []) ≡ true
unfolding ends_with_dot
ends_with_dot_append [] = refl
ends_with_dot_append (b ∷ []) = refl
ends_with_dot_append (b ∷ c ∷ q) = ends_with_dot_append (c ∷ q)

ends_with_dot_sound : (p : List ℕ) → ends_with_dot p ≡ true → (q : List ℕ) × (p ≡ q ++ 46 ∷ [])
unfolding ends_with_dot
ends_with_dot_sound [] h = absurd cc
ends_with_dot_sound (b ∷ []) h = ([], ap (λ (x : ℕ). x ∷ []) ((==_iff b 46).0 h))
ends_with_dot_sound (b ∷ c ∷ p) h =
    let (q, e) = ends_with_dot_sound (c ∷ p) h in (b ∷ q, ap (◌∷◌ b) e)

-- The name itself, or a name below it.
abbrev pub IsUnder : List ℕ → List ℕ → Type 0
IsUnder d doh = (d ≡ doh) ⊎ ((q : List ℕ) × (d ≡ q ++ 46 ∷ doh))

below_sound :
    (d doh : List ℕ) → is_some_and (strip_suffix d doh) ends_with_dot ≡ true → IsUnder d doh
below_sound d doh h = elim (Option-cases (strip_suffix d doh)) [
  | inl e ↦ absurd (let x : false ≡ true = rw e at h in cc)
  | inr (p, e) ↦
      let dot : ends_with_dot p ≡ true = rw e at h in
      let (q, s) = ends_with_dot_sound p dot in
      inr (q, strip_suffix_sound d doh p e ∙ ap (λ x. x ++ doh) s ∙ append_assoc q (46 ∷ []) doh)
]

matches_doh_iff : (d doh : List ℕ) → (matches_doh d doh ≡ true) ↔ IsUnder d doh
unfolding matches_doh
matches_doh_iff d doh = (sound, complete)
  where
    sound : matches_doh d doh ≡ true → IsUnder d doh
    sound h = elim (Bool-cases (d =? doh)) [
      | inl t ↦ inl (=?_eq d doh t)
      | inr f ↦ below_sound d doh (rw f at h)
    ]

    complete : IsUnder d doh → matches_doh d doh ≡ true
    complete (inl e) = rw (e, =?_refl doh) refl
    complete (inr (q, e)) =
        let f : strip_suffix d doh ≡ some (q ++ 46 ∷ []) =
          ap (λ x. strip_suffix x doh) (e ∙ sym (append_assoc q (46 ∷ []) doh))
          ∙ strip_suffix_append (q ++ 46 ∷ []) doh in
        or_right (d =? doh) _ (rw (f, ends_with_dot_append q) refl)

-- A name is blocked exactly when it is, without its closing dots and in lower case, one of the
-- listed names or a name below one, with a dot in front of the listed name.
pub is_doh_domain_iff :
    (domain : List ℕ)
    → (is_doh_domain domain ≡ true) ↔ Some (IsUnder (map lower (trim_end_dots domain))) doh_domains
unfolding is_doh_domain
is_doh_domain_iff domain =
    let d = map lower (trim_end_dots domain) in
    any_iff (matches_doh d) (IsUnder d) (matches_doh_iff d) doh_domains

trim_end_dots_append : (domain : List ℕ) → trim_end_dots (domain ++ 46 ∷ []) ≡ trim_end_dots domain
unfolding trim_end_dots
trim_end_dots_append [] = refl
trim_end_dots_append (b ∷ bs) = rw (trim_end_dots_append bs) refl

-- A closing dot changes nothing.
pub is_doh_domain_append :
    (domain : List ℕ) → is_doh_domain (domain ++ 46 ∷ []) ≡ is_doh_domain domain
unfolding is_doh_domain
is_doh_domain_append domain =
    ap (λ d. any (matches_doh (map lower d)) doh_domains) (trim_end_dots_append domain)

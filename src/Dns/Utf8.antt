-- ===== src/Dns/Utf8.antt =====
-- `std::str::from_utf8` as src/dns.rs calls it: whether bytes are well-formed UTF-8.
use mini_vpn.Base.{ℕ, Bool, true, ◌&&◌, ◌||◌, List, [], ◌∷◌, ltb, leb, ◌==◌, if◌then◌else◌}
use mini_vpn.Base.Keys.{nat_eq, bytes_eq, pair_eq}

-- The tables' ranges of a byte.
abbrev pub within : ℕ → ℕ → ℕ → Bool
within lo hi b = leb lo b && leb b hi

abbrev pub tail_byte : ℕ → Bool
tail_byte = within 0x80 0xbf

-- What the second byte may be after the first of three or four.
abbrev pub second_of_three : ℕ → ℕ → Bool
second_of_three a b =
    if a == 0xe0 then within 0xa0 0xbf b else if a == 0xed then within 0x80 0x9f b else tail_byte b

abbrev pub second_of_four : ℕ → ℕ → Bool
second_of_four a b =
    if a == 0xf0 then within 0x90 0xbf b else if a == 0xf4 then within 0x80 0x8f b else tail_byte b

-- How many bytes a first byte begins, 0 for one that begins none.
abbrev pub width : ℕ → ℕ
width a =
    if ltb a 0x80
    then 1
    else if within 0xc2 0xdf a
    then 2
    else if within 0xe0 0xef a
    then 3
    else if within 0xf0 0xf4 a
    then 4
    else 0

unfoldable pub is_utf8 : List ℕ → Bool
is_utf8 [] = true
is_utf8 (a ∷ []) = width a == 1
is_utf8 (a ∷ b ∷ []) =
    let one = is_utf8 (b ∷ []) in (width a == 1 && one) || (width a == 2 && tail_byte b)
is_utf8 (a ∷ b ∷ c ∷ []) =
    let one = is_utf8 (b ∷ c ∷ []) in
    let two = is_utf8 (c ∷ []) in
    (width a == 1 && one)
    || (width a == 2 && tail_byte b && two)
    || (width a == 3 && second_of_three a b && tail_byte c)
is_utf8 (a ∷ b ∷ c ∷ d ∷ bs) =
    let one = is_utf8 (b ∷ c ∷ d ∷ bs) in
    let two = is_utf8 (c ∷ d ∷ bs) in
    let three = is_utf8 (d ∷ bs) in
    let four = is_utf8 bs in
    (width a == 1 && one)
    || (width a == 2 && tail_byte b && two)
    || (width a == 3 && second_of_three a b && tail_byte c && three)
    || (width a == 4 && second_of_four a b && tail_byte c && tail_byte d && four)

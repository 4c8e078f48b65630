-- ===== src/Reality/KeySchedule/Label.antt =====
-- The label strings of src/reality/key_schedule.rs, as their bytes.
use mini_vpn.Base.{ℕ, List, [], ◌∷◌}

abbrev pub tls13 : List ℕ
tls13 = 116 ∷ 108 ∷ 115 ∷ 49 ∷ 51 ∷ 32 ∷ []

abbrev pub key : List ℕ
key = 107 ∷ 101 ∷ 121 ∷ []

abbrev pub iv : List ℕ
iv = 105 ∷ 118 ∷ []

abbrev pub derived : List ℕ
derived = 100 ∷ 101 ∷ 114 ∷ 105 ∷ 118 ∷ 101 ∷ 100 ∷ []

abbrev pub finished : List ℕ
finished = 102 ∷ 105 ∷ 110 ∷ 105 ∷ 115 ∷ 104 ∷ 101 ∷ 100 ∷ []

abbrev pub traffic : List ℕ
traffic = 32 ∷ 116 ∷ 114 ∷ 97 ∷ 102 ∷ 102 ∷ 105 ∷ 99 ∷ []

abbrev pub c_hs_traffic : List ℕ
c_hs_traffic = 99 ∷ 32 ∷ 104 ∷ 115 ∷ traffic

abbrev pub s_hs_traffic : List ℕ
s_hs_traffic = 115 ∷ 32 ∷ 104 ∷ 115 ∷ traffic

abbrev pub c_ap_traffic : List ℕ
c_ap_traffic = 99 ∷ 32 ∷ 97 ∷ 112 ∷ traffic

abbrev pub s_ap_traffic : List ℕ
s_ap_traffic = 115 ∷ 32 ∷ 97 ∷ 112 ∷ traffic

abbrev pub traffic_upd : List ℕ
traffic_upd = 116 ∷ 114 ∷ 97 ∷ 102 ∷ 102 ∷ 105 ∷ 99 ∷ 32 ∷ 117 ∷ 112 ∷ 100 ∷ []

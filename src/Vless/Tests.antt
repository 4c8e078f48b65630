-- ===== src/Vless/Tests.antt =====
-- src/reality/vless.rs on concrete requests and responses.
use mini_vpn.Target.{TargetAddr, domain_port}
use mini_vpn.Vless.{absorb_app, encode_vless_request, vless_cmd_tcp}
use mini_vpn.Vless.Request.{read_request, read_request-encode}
use mini_vpn.Vless.Response.{absorb_all, fresh, read_of, body, absorb_all-body}
use mini_vpn.Base.{ℕ, ◌≡◌, refl, some, List, [], ◌∷◌, ◌++◌, arith, replicate, concat}
use mini_vpn.Base.Keys.{nat_eq, bytes_eq, pair_eq}

abbrev uuid : List ℕ
uuid = replicate 16 7

abbrev host : TargetAddr
host = domain_port (97 ∷ 46 ∷ 98 ∷ []) 443

read_request-encode_example :
    read_request (encode_vless_request uuid vless_cmd_tcp host ++ 22 ∷ 3 ∷ [])
    ≡ some (uuid, vless_cmd_tcp, host, 22 ∷ 3 ∷ [])
read_request-encode_example =
    read_request-encode uuid vless_cmd_tcp host (22 ∷ 3 ∷ []) refl (omega arith, omega arith)

-- A header with one byte of addons, cut inside.
abbrev records : List (List ℕ)
records = (0 ∷ []) ∷ (1 ∷ []) ∷ (9 ∷ 22 ∷ []) ∷ (3 ∷ []) ∷ []

absorb_all-records : (absorb_all fresh records).plaintext_out ≡ 22 ∷ 3 ∷ []
unfolding absorb_app
absorb_all-records = refl

absorb_all-body_example :
    absorb_all fresh records ≡ read_of (concat records) (body (concat records))
absorb_all-body_example = absorb_all-body records

-- ===== src/Uplink/Targets.antt =====
-- src/client_tun.rs (`resolve_target`): fake addresses, DNS ports, and what goes out as an address.
use mini_vpn.Target.{SocketAddr, v4, v6, TargetAddr, ip_port, domain_port}
use mini_vpn.FakeIp
use mini_vpn.FakeIp.{FakeIpPool}
use mini_vpn.DnsBlock.{is_dns_relay_port, is_doh_domain, is_doh_ip}
use mini_vpn.Uplink.{
  target_from_endpoint, direct, block, resolve_fake, resolve_address, resolve_target,
  port_of_endpoint,
}
use mini_vpn.Base.{
  ℕ, ◌≡◌, refl, ◌⊎◌, inl, inr, true, false, ◌&&◌, Option, none, some, List, ◌==◌, Bool-cases,
}
use mini_vpn.Base.Keys.{nat_eq, bytes_eq, pair_eq}

-- Where an endpoint may go out to: a fake address only under the name that the pool has for it, and
-- any other address only as itself, with the endpoint's port.
abbrev pub Allowed : FakeIpPool → SocketAddr → TargetAddr → Option ℕ → Type 0
Allowed pool (v4 ip port) target fake =
    ((FakeIp.is_fake pool ip ≡ true)
      × (domain : List ℕ) × (FakeIp.resolve pool ip ≡ some domain)
      × (target ≡ domain_port domain port)
      × (fake ≡ some ip))
    ⊎ ((FakeIp.is_fake pool ip ≡ false) × (target ≡ ip_port (v4 ip port)) × (fake ≡ none))
Allowed pool (v6 ip port) target fake = (target ≡ ip_port (v6 ip port)) × (fake ≡ none)

direct_inj : (s t : TargetAddr) (f g : Option ℕ) → direct s f ≡ direct t g → (t ≡ s) × (g ≡ f)
direct_inj s t f g h = (cc, cc)

resolve_fake-Allowed :
    (pool : FakeIpPool) (ip port : ℕ) (target : TargetAddr) (fake : Option ℕ)
    → FakeIp.is_fake pool ip ≡ true
    → (o : Option (List ℕ)) → FakeIp.resolve pool ip ≡ o
    → resolve_fake ip port o ≡ direct target fake
    → Allowed pool (v4 ip port) target fake
unfolding resolve_fake
resolve_fake-Allowed pool ip port target fake is_in none e h = absurd cc
resolve_fake-Allowed pool ip port target fake is_in (some domain) e h =
    elim (Bool-cases (port == 443 && is_doh_domain domain)) [
      | inl t ↦ absurd (let x : block ≡ direct target fake = rw t at h in cc)
      | inr f ↦
          let (ts, fs) = direct_inj (domain_port domain port) target (some ip) fake (rw f at h) in
          inl (is_in, domain, e, ts, fs)
    ]

resolve_address-Allowed :
    (endpoint : SocketAddr) (pool : FakeIpPool) (target : TargetAddr) (fake : Option ℕ)
    → resolve_address endpoint pool ≡ direct target fake
    → Allowed pool endpoint target fake
unfolding resolve_address target_from_endpoint
resolve_address-Allowed (v6 ip port) pool target fake h =
    direct_inj (ip_port (v6 ip port)) target none fake h
resolve_address-Allowed (v4 ip port) pool target fake h =
    elim (Bool-cases (FakeIp.is_fake pool ip)) [
      | inl is_in ↦
          resolve_fake-Allowed pool ip port target fake is_in (FakeIp.resolve pool ip) refl
            (rw (is_in, resolve_address) at h)
      | inr is_out ↦ elim (Bool-cases (port == 443 && is_doh_ip ip)) [
        | inl t ↦
            absurd (let x : block ≡ direct target fake = rw (is_out, t, resolve_address) at h in cc)
        | inr f ↦
            let (ts, fs) =
              direct_inj (ip_port (v4 ip port)) target none fake
                (rw (is_out, f, resolve_address) at h) in
            inr (is_out, ts, fs)
      ]
    ]

-- Traffic that is let out goes to a port that is not a DNS port; behind a fake address it goes to the
-- name that the pool has for the address, never to the address, and else to the very address that the
-- packet named.
pub resolve_target-Allowed :
    (endpoint : SocketAddr) (pool : FakeIpPool) (target : TargetAddr) (fake : Option ℕ)
    → resolve_target endpoint pool ≡ direct target fake
    → (is_dns_relay_port (port_of_endpoint endpoint) ≡ false) × Allowed pool endpoint target fake
unfolding resolve_target
resolve_target-Allowed endpoint pool target fake h =
    elim (Bool-cases (is_dns_relay_port (port_of_endpoint endpoint))) [
      | inl t ↦ absurd (let x : block ≡ direct target fake = rw (t, resolve_target) at h in cc)
      | inr f ↦ (f, resolve_address-Allowed endpoint pool target fake (rw (f, resolve_target) at h))
    ]

-- A name that the pool knows under a fake address is where a flow to that address goes, for a port
-- that is not a DNS port, unless it is an encrypted DNS server's name at port 443.
pub resolve_target-known :
    (pool : FakeIpPool) (ip port : ℕ) (domain : List ℕ)
    → FakeIp.is_fake pool ip ≡ true
    → FakeIp.resolve pool ip ≡ some domain
    → is_dns_relay_port port ≡ false
    → (port == 443 && is_doh_domain domain) ≡ false
    → resolve_target (v4 ip port) pool ≡ direct (domain_port domain port) (some ip)
unfolding resolve_target resolve_address resolve_fake
resolve_target-known pool ip port domain is_in e free plain = rw (free, is_in, e, plain) refl

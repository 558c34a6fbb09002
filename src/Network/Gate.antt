-- ===== src/Network/Gate.antt =====
-- src/network.rs and src/api.rs: which callers from other devices pass the gate.
use package.text.Mathlib.Text.{◌==◌ as str_eq}
use stt_server.Prelude.{
  ◌≤◌, ◌≡◌, ◌≢◌, refl, subst, Bool, true, false, ◌&&◌, List, [], ◌∷◌, Option, none, some, String,
  Text, all, All, if◌then◌else◌, arith,
}
use stt_server.Errors.{ApiError}
use stt_server.Network.{
  NetworkMode, local, lan, tailscale, local_report, local_fallback, is_tailscale_cgnat_ip, IpAddr,
  v4, v6, is_loopback, v4_in_cgnat, mode_allows, peer_allowed_non_loopback, NetworkCategory, public,
  private, domain_authenticated, is_private_enough, parse_profile_categories, all_profiles_private,
  parse_tailscale_ip_output, Detection, detect_lan_private, profiles_private, lan_or_local,
  first_address, or_no_address, detect_tailscale_ipv4, refresh_network_state, network_state,
  network_gate,
}

-- From 100.64.0.0 to 100.127.255.255.
abbrev pub InCgnat : IpAddr → Type 0
InCgnat (v4 ip) = (ip.a ≡ 100) × (64 ≤ ip.b) × (ip.b ≤ 127)
InCgnat (v6 _) = ⊥

-- What must hold for another device to get through without `--host`.
abbrev pub Admitted : NetworkMode → List Detection → IpAddr → Type 0
Admitted local ds peer = ⊥
Admitted lan [] peer = ⊥
Admitted lan (d ∷ _) peer =
    (output : Text) × (d.profiles ≡ some output)
    × (parse_profile_categories output ≢ [])
    × All (λ c. c ≢ public) (parse_profile_categories output)
Admitted tailscale [] peer = ⊥
Admitted tailscale (d ∷ _) peer =
    (output : Text) × (d.tailscale_ips ≡ some output)
    × (parse_tailscale_ip_output output ≢ none)
    × InCgnat peer

cgnat_range : (peer : IpAddr) → v4_in_cgnat peer ≡ true → InCgnat peer
unfolding is_tailscale_cgnat_ip
cgnat_range (v4 ip) h = ground arith
cgnat_range (v6 n) h = absurd cc

private_ones :
    (cs : List NetworkCategory) → all is_private_enough cs ≡ true → All (λ c. c ≢ public) cs
private_ones [] h = tt
private_ones (public ∷ cs) h = absurd cc
private_ones (private ∷ cs) h = ((λ e. cc), private_ones cs h)
private_ones (domain_authenticated ∷ cs) h = ((λ e. cc), private_ones cs h)

all_profiles_private-All :
    (cs : List NetworkCategory)
    → all_profiles_private cs ≡ true
    → (cs ≢ []) × All (λ c. c ≢ public) cs
unfolding all_profiles_private
all_profiles_private-All [] h = absurd cc
all_profiles_private-All (c ∷ cs) h = ((λ e. cc), private_ones (c ∷ cs) h)

profiles_lem :
    (o : Option Text)
    → profiles_private o ≡ true
    → (output : Text) × (o ≡ some output)
      × (parse_profile_categories output ≢ [])
      × All (λ c. c ≢ public) (parse_profile_categories output)
profiles_lem none h = absurd cc
profiles_lem (some output) h =
    let both = all_profiles_private-All (parse_profile_categories output) h in
    (output, refl, both.0, both.1)

lan_lem :
    (b : Bool) (peer : IpAddr) → mode_allows lan (lan_or_local b).effective peer ≡ true → b ≡ true
unfolding local_fallback
lan_lem true peer h = refl
lan_lem false peer h = absurd cc

and_right : (a b : Bool) → (a && b) ≡ true → b ≡ true
and_right true b h = h
and_right false b h = absurd cc

tailscale_lem :
    (o : Option Text) (peer : IpAddr)
    → mode_allows tailscale (or_no_address (first_address o)).effective peer ≡ true
    → (output : Text) × (o ≡ some output) × (parse_tailscale_ip_output output ≢ none) × InCgnat peer
unfolding local_fallback
tailscale_lem none peer h = absurd cc
tailscale_lem (some output) peer h = (
  output,
  refl,
  (λ e.
      no_address (subst (λ a. mode_allows tailscale (or_no_address a).effective peer ≡ true) e h)),
  cgnat_range peer (
      and_right (str_eq (or_no_address (parse_tailscale_ip_output output)).effective "tailscale")
        (v4_in_cgnat peer) h),
)
  where
    no_address : mode_allows tailscale (or_no_address none).effective peer ≡ true → ⊥
    no_address k = cc

allowed_lem :
    (mode : NetworkMode) (ds : List Detection) (peer : IpAddr)
    → mode_allows mode (network_state mode ds).effective peer ≡ true
    → Admitted mode ds peer
unfolding network_state refresh_network_state detect_lan_private detect_tailscale_ipv4 local_report
allowed_lem local ds peer h = absurd cc
allowed_lem lan [] peer h = absurd cc
allowed_lem lan (d ∷ ds) peer h =
    profiles_lem d.profiles (lan_lem (profiles_private d.profiles) peer h)
allowed_lem tailscale [] peer h = absurd cc
allowed_lem tailscale (d ∷ ds) peer h = tailscale_lem d.tailscale_ips peer h

passes : (b : Bool) (e : ApiError) → (if b then none else some e) ≡ none → b ≡ true
passes true e h = refl
passes false e h = absurd cc

-- A request from another device, not for `/health` and on a server without `--host`, passes the
-- gate only in these cases: in the mode `lan`, when the last check printed at least one connection
-- profile that is known and none that is public; in the mode `tailscale`, when the last check
-- printed an address of Tailscale's range and the caller's own address is in that range.
pub network_gate-Admitted :
    (mode : NetworkMode) (ds : List Detection) (peer : IpAddr) (path : String)
    → str_eq path "/health" ≡ false
    → is_loopback peer ≡ false
    → network_gate mode false (network_state mode ds) peer path ≡ none
    → Admitted mode ds peer
unfolding network_gate peer_allowed_non_loopback network_state
network_gate-Admitted mode ds peer path hp hl h =
    allowed_lem mode ds peer
      (passes (mode_allows mode (network_state mode ds).effective peer) _ (rw (hp, hl) at h))

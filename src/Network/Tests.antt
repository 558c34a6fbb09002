-- ===== src/Network/Tests.antt =====
-- Concrete callers, and the gate's theorem at one.
use stt_server.Prelude.{◌≡◌, refl, false, [], ◌∷◌, none, some, codes}
use stt_server.Network.Addresses.{lines, parse_ipv4, show_ipv4}
use stt_server.Network.{
  lan, tailscale, IpAddr, v4, Detection, parse_profile_categories, parse_category,
  all_profiles_private, parse_tailscale_ip_output, detect_lan_private, detect_tailscale_ipv4,
  is_tailscale_cgnat_ip, tailscale_report, local_fallback, as_str, refresh_network_state,
  network_state, network_gate, peer_allowed_non_loopback,
}
use stt_server.Network.Gate.{Admitted, network_gate-Admitted}

abbrev printed : Detection
printed = record {
  profiles = some (codes "Private\nPublic\n");
  tailscale_ips = some (codes "fd7a::1\n100.101.102.103\n");
}

abbrev peer : IpAddr
peer = v4 (record { a = 100; b = 64; c = 0; d = 9 })

state_printed : network_state tailscale (printed ∷ []) ≡ record {
  mode = "tailscale";
  effective = "tailscale";
  reason = none;
  addresses = codes "100.101.102.103" ∷ [];
}
unfolding network_state refresh_network_state detect_tailscale_ipv4 parse_tailscale_ip_output lines
    parse_ipv4 is_tailscale_cgnat_ip tailscale_report as_str show_ipv4
state_printed = refl

-- One public profile is enough to stay local.
state_public : (network_state lan (printed ∷ [])).effective ≡ "local"
unfolding network_state refresh_network_state detect_lan_private parse_profile_categories
    parse_category all_profiles_private lines local_fallback
state_public = refl

passed :
    network_gate tailscale false (network_state tailscale (printed ∷ [])) peer "/v1/audio/vad"
    ≡ none
unfolding network_gate peer_allowed_non_loopback network_state refresh_network_state
    detect_tailscale_ipv4 parse_tailscale_ip_output lines parse_ipv4 is_tailscale_cgnat_ip
    tailscale_report as_str show_ipv4
passed = refl

network_gate-Admitted_example : Admitted tailscale (printed ∷ []) peer
network_gate-Admitted_example =
    network_gate-Admitted tailscale (printed ∷ []) peer "/v1/audio/vad" refl refl passed

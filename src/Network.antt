-- ===== src/Network.antt =====
-- src/network.rs, with the gate of src/api.rs: the network modes, what the detection commands
-- printed, the report made of it, and which callers pass. A command that fails, times out or cannot
-- be run is `none`.
pub mod Addresses
pub mod Gate
mod Tests
use package.text.Mathlib.Text.{◌==◌ as str_eq}
use stt_server.Prelude.{
  ℕ, ◌+◌, ◌*◌, ◌/◌, Bool, true, false, not, ◌&&◌, ◌||◌, List, [], ◌∷◌, ◌++◌, Option, none, some,
  String, Text, codes, text_eq, trim, all, find, ◌==◌, if◌then◌else◌,
}
use stt_server.Errors.{ApiError, api_error}
use stt_server.Network.Addresses.{Ipv4Addr, lines, parse_ipv4, show_ipv4}

pub data NetworkMode : Type 0 where
  local lan tailscale : NetworkMode

unfoldable pub parse_mode : String → Option NetworkMode
parse_mode value =
    if str_eq value "local"
    then some local
    else if str_eq value "lan"
    then some lan
    else if str_eq value "tailscale"
    then some tailscale
    else none

unfoldable pub as_str : NetworkMode → String
as_str local = "local"
as_str lan = "lan"
as_str tailscale = "tailscale"

unfoldable pub resolve_mode : Option NetworkMode → Option NetworkMode → NetworkMode
resolve_mode (some cli) stored = cli
resolve_mode none (some stored) = stored
resolve_mode none none = local

pub record NetworkReport : Type 0 where
  pub mode : String
  pub effective : String
  pub reason : Option String
  pub addresses : List Text

unfoldable pub custom_report : Bool → Text → NetworkReport
custom_report host_is_loopback host = record {
  mode = "custom";
  effective = "custom";
  reason = none;
  addresses = if host_is_loopback then [] else host ∷ [];
}

unfoldable pub local_report : NetworkMode → NetworkReport
local_report mode = record {
  mode = as_str mode;
  effective = "local";
  reason = none;
  addresses = [];
}

unfoldable pub local_fallback : NetworkMode → String → NetworkReport
local_fallback mode reason = record {
  mode = as_str mode;
  effective = "local";
  reason = some reason;
  addresses = [];
}

unfoldable pub lan_report : List Text → NetworkReport
lan_report addresses = record {
  mode = as_str lan;
  effective = "lan";
  reason = none;
  addresses = addresses;
}

unfoldable pub tailscale_report : Ipv4Addr → NetworkReport
tailscale_report address = record {
  mode = as_str tailscale;
  effective = "tailscale";
  reason = none;
  addresses = show_ipv4 address ∷ [];
}

-- `100.64.0.0/10`: the two high bits of the second octet are 01.
unfoldable pub is_tailscale_cgnat_ip : Ipv4Addr → Bool
is_tailscale_cgnat_ip ip = (ip.a == 100) && (ip.b / 64 * 64 == 64)

pub data IpAddr : Type 0 where
  v4 : Ipv4Addr → IpAddr
  v6 : ℕ → IpAddr

-- `IpAddr::is_loopback`.
abbrev pub is_loopback : IpAddr → Bool
is_loopback (v4 ip) = ip.a == 127
is_loopback (v6 ip) = ip == 1

abbrev pub v4_in_cgnat : IpAddr → Bool
v4_in_cgnat (v4 ip) = is_tailscale_cgnat_ip ip
v4_in_cgnat (v6 _) = false

abbrev pub mode_allows : NetworkMode → String → IpAddr → Bool
mode_allows local effective peer = false
mode_allows lan effective peer = str_eq effective "lan"
mode_allows tailscale effective peer = str_eq effective "tailscale" && v4_in_cgnat peer

unfoldable pub peer_allowed_non_loopback : NetworkMode → Bool → NetworkReport → IpAddr → Bool
peer_allowed_non_loopback mode custom report peer =
    if custom then true else mode_allows mode report.effective peer

pub data NetworkCategory : Type 0 where
  public private domain_authenticated : NetworkCategory

unfoldable pub parse_category : Text → Option NetworkCategory
parse_category token =
    if text_eq (trim token) (codes "Public")
    then some public
    else if text_eq (trim token) (codes "Private")
    then some private
    else if text_eq (trim token) (codes "DomainAuthenticated")
    then some domain_authenticated
    else none

abbrev pub is_private_enough : NetworkCategory → Bool
is_private_enough public = false
is_private_enough _ = true

-- `filter_map`.
abbrev pub filter_map {ℓ κ} : {A : Type ℓ} {B : Type κ} → (A → Option B) → List A → List B
filter_map f [] = []
filter_map f (x ∷ xs) = elim (f x) [ none ↦ filter_map f xs | some y ↦ y ∷ filter_map f xs ]

unfoldable pub parse_profile_categories : Text → List NetworkCategory
parse_profile_categories output = filter_map parse_category (lines output)

unfoldable pub all_profiles_private : List NetworkCategory → Bool
all_profiles_private [] = false
all_profiles_private (c ∷ cs) = all is_private_enough (c ∷ cs)

unfoldable pub parse_tailscale_ip_output : Text → Option Ipv4Addr
parse_tailscale_ip_output output =
    find is_tailscale_cgnat_ip (filter_map (λ line. parse_ipv4 (trim line)) (lines output))

-- What the two commands printed at one check.
pub record Detection : Type 0 where
  pub profiles : Option Text
  pub tailscale_ips : Option Text

abbrev pub profiles_private : Option Text → Bool
profiles_private none = false
profiles_private (some output) = all_profiles_private (parse_profile_categories output)

unfoldable pub detect_lan_private : Detection → Bool
detect_lan_private d = profiles_private d.profiles

abbrev pub first_address : Option Text → Option Ipv4Addr
first_address none = none
first_address (some output) = parse_tailscale_ip_output output

unfoldable pub detect_tailscale_ipv4 : Detection → Option Ipv4Addr
detect_tailscale_ipv4 d = first_address d.tailscale_ips

abbrev pub or_no_address : Option Ipv4Addr → NetworkReport
or_no_address (some ip) = tailscale_report ip
or_no_address none =
    local_fallback tailscale "tailscale is not running or has no address -- staying local-only"

abbrev pub lan_or_local : Bool → NetworkReport
lan_or_local true = lan_report []
lan_or_local false =
    local_fallback lan "no active network connection is Private or Domain -- staying local-only"

unfoldable pub refresh_network_state : NetworkMode → Detection → NetworkReport
refresh_network_state local d = local_report local
refresh_network_state lan d = lan_or_local (detect_lan_private d)
refresh_network_state tailscale d = or_no_address (detect_tailscale_ipv4 d)

-- `App::network_state` after some checks, the newest first.
unfoldable pub network_state : NetworkMode → List Detection → NetworkReport
network_state mode [] = local_report mode
network_state mode (d ∷ _) = refresh_network_state mode d

abbrev or_not_allowed : Option String → String
or_not_allowed none = "network mode does not currently allow this"
or_not_allowed (some reason) = reason

-- `none` lets the request pass.
unfoldable pub network_gate : NetworkMode → Bool → NetworkReport → IpAddr → String → Option ApiError
network_gate mode custom report peer path =
    if str_eq path "/health" || is_loopback peer
    then none
    else if peer_allowed_non_loopback mode custom report peer
    then none
    else some (
        api_error 403 "network_not_private" (
          codes "not reachable from another device right now ("
          ++ codes (or_not_allowed report.reason)
          ++ codes ")"))

-- ===== src/Peer/Config.antt =====
-- crates/machine-fabric-peer/src/connection.rs: the configuration of a peer and `PeerConfig::validate`.
-- A scope is a value of the parameter `Value`; `is_object` is serde_json's test of it.
use Prim.Native.Char.{Char, code}
use machine_fabric.Base.{
  ℕ, ◌*◌, String, Bool, true, ◌&&◌, ◌||◌, not, Option, none, some, List, [], ◌∷◌, any, length, ltb,
  leb, nat_eq, is_some, if◌then◌else◌, Result, ok, err, ◌>>◌, ◌==◌,
}
use machine_fabric.Peer.Grant
use machine_fabric.Peer.Grant.{byte_len}
use machine_fabric.Peer.Frame.{ChannelBinding}
use machine_fabric.Peer.Channel.{PeerProtocol, legacy_v1, scoped_v2, PeerLimits}

pub data ConfigError : Type 0 where
  invalid_name service_count duplicate_service lease_inactive scope_mismatch invalid_limits :
      ConfigError

-- The lease stands with its `id()`.
pub record PeerConfig (Value : Type 0) : Type 0 where
  pub protocol : PeerProtocol
  pub local_id : String
  pub expected_peer_id : String
  pub services : List String
  pub required_peer_services : List String
  pub binding : Option (ChannelBinding Value)
  pub lease : Option (String × Grant.State)
  pub limits : PeerLimits

-- `c.is_ascii_alphanumeric() || "._:-".contains(c)`.
unfoldable pub is_name_char : Char → Bool
is_name_char c =
    leb 48 (code c) && leb (code c) 58
    || leb 65 (code c) && leb (code c) 90
    || leb 97 (code c) && leb (code c) 122
    || nat_eq (code c) 45
    || nat_eq (code c) 46
    || nat_eq (code c) 95

unfoldable pub all_name_chars : String → Bool
unfolding is_name_char
all_name_chars String.[] = true
all_name_chars (String.◌∷◌ c s) = is_name_char c && all_name_chars s

unfoldable pub is_valid_name : String → Bool
unfolding all_name_chars byte_len
is_valid_name name = not (name == "" || ltb 256 (byte_len name) || not (all_name_chars name))

abbrev pub validate_name : String → Result ConfigError (Unit {0})
validate_name name = if is_valid_name name then ok tt else err invalid_name

abbrev pub has_service : List String → String → Bool
has_service services service = any (λ other. other == service) services

-- The loop over the services; `seen` is the set of those before.
unfoldable pub each_service : List String → List String → Result ConfigError (Unit {0})
unfolding is_valid_name
each_service seen [] = ok tt
each_service seen (service ∷ services) =
    let rest = each_service (service ∷ seen) services in
    validate_name service >> (if has_service seen service then err duplicate_service else rest)

unfoldable pub validate_services : List String → Result ConfigError (Unit {0})
unfolding each_service
validate_services services =
    if nat_eq (length services) 0 || ltb 64 (length services)
    then err service_count
    else each_service [] services

module _ {Value : Type 0} (is_object : Value → Bool) where
  abbrev pub validate_lease :
      PeerProtocol
      → Option (ChannelBinding Value)
      → Option (String × Grant.State)
      → ℕ
      → ℕ
      → Result ConfigError (Unit {0})
  validate_lease legacy_v1 none none instant now = ok tt
  validate_lease legacy_v1 none (some lease) instant now = err scope_mismatch
  validate_lease legacy_v1 (some binding) lease instant now = err scope_mismatch
  validate_lease scoped_v2 (some binding) (some (id, grant)) instant now =
      if binding.lease_id == id && is_object binding.scope
      then (if is_some (Grant.ended grant instant now).0 then err lease_inactive else ok tt)
      else err scope_mismatch
  validate_lease scoped_v2 none lease instant now = err scope_mismatch
  validate_lease scoped_v2 (some binding) none instant now = err scope_mismatch

  unfoldable pub valid_limits : PeerLimits → Bool
  valid_limits limits = not (
      ltb limits.max_frame_bytes 1024
      || ltb (256 * 1024 * 1024) limits.max_frame_bytes
      || nat_eq limits.max_outbound_requests 0
      || nat_eq limits.max_inbound_requests 0
      || nat_eq limits.max_queued_frames 0
      || nat_eq limits.handshake_timeout 0
      || nat_eq limits.request_timeout 0)

  unfoldable pub validate : PeerConfig Value → ℕ → ℕ → Result ConfigError (Unit {0})
  unfolding validate_services is_valid_name valid_limits
  validate config instant now =
      validate_name config.local_id
      >> validate_name config.expected_peer_id
      >> validate_services config.services
      >> validate_services config.required_peer_services
      >> validate_lease config.protocol config.binding config.lease instant now
      >> (if valid_limits config.limits then ok tt else err invalid_limits)

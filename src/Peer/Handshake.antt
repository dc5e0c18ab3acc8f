-- ===== src/Peer/Handshake.antt =====
-- crates/machine-fabric-peer/src/connection.rs: the handshake at the start of `read_loop`.
-- `same_value` is serde_json's equality of values.
use machine_fabric.Base.{
  String, Bool, true, false, ◌&&◌, ◌||◌, not, Option, none, some, any, length, ltb, is_some,
  if◌then◌else◌, Result, ok, err, ◌==◌,
}
use machine_fabric.Peer.Frame.{ChannelBinding, Greeting, Frame, hello, hello_ack}
use machine_fabric.Peer.Wire.{CloseReason, protocol_error}
use machine_fabric.Peer.Channel
use machine_fabric.Peer.Channel.{PeerProtocol, legacy_v1, scoped_v2}
use machine_fabric.Peer.Config.{PeerConfig, is_valid_name, has_service}

pub data Handshake : Type 0 where
  initiate accept : Handshake

-- `PeerProtocol::name`.
abbrev pub protocol_name : PeerProtocol → String
protocol_name legacy_v1 = "machine-fabric.peer/v1"
protocol_name scoped_v2 = "machine-fabric.peer/v2"

module _ {Value : Type 0} where
  abbrev pub greeting : PeerConfig Value → Bool → Greeting Value
  greeting config response_gzip = record {
    protocol = protocol_name config.protocol;
    node_id = config.local_id;
    roles = config.services;
    binding = config.binding;
    response_gzip = response_gzip;
  }

  -- The frame that a side sends before it reads one.
  abbrev pub opening : Handshake → PeerConfig Value → Option (Frame Value)
  opening initiate config = some (hello (greeting config true))
  opening accept config = none

  -- The frame that it sends once it has accepted a greeting.
  abbrev pub answering : Handshake → PeerConfig Value → Greeting Value → Option (Frame Value)
  answering initiate config g = none
  answering accept config g = some (hello_ack (greeting config g.response_gzip))

  abbrev pub greeting_of : Handshake → Frame Value → Option (Greeting Value)
  greeting_of initiate (hello_ack g) = some g
  greeting_of initiate _ = none
  greeting_of accept (hello g) = some g
  greeting_of accept _ = none

  abbrev pub established : Channel.State Value → Greeting Value → Channel.State Value
  established state g =
      if is_some state.closed
      then state
      else record state { ready = true; remote_services = g.roles; response_gzip = g.response_gzip }

  module _ (same_value : Value → Value → Bool) where
    abbrev pub same_binding : Option (ChannelBinding Value) → Option (ChannelBinding Value) → Bool
    same_binding none none = true
    same_binding none (some b) = false
    same_binding (some a) none = false
    same_binding (some a) (some b) = a.lease_id == b.lease_id && same_value a.scope b.scope

    unfoldable pub refuses : PeerConfig Value → Greeting Value → Bool
    unfolding is_valid_name
    refuses config g =
        not (g.protocol == protocol_name config.protocol)
        || not (g.node_id == config.expected_peer_id)
        || not (same_binding g.binding config.binding)
        || ltb 64 (length g.roles)
        || any (λ role. not (has_service g.roles role)) config.required_peer_services
        || any (λ role. not (is_valid_name role)) g.roles

    abbrev pub judged :
        PeerConfig Value → Option (Greeting Value) → Result CloseReason (Greeting Value)
    judged config none = err protocol_error
    judged config (some g) = if refuses config g then err protocol_error else ok g

    -- The frame that was read, and the greeting that is accepted of it.
    unfoldable pub greeted :
        Handshake → PeerConfig Value → Frame Value → Result CloseReason (Greeting Value)
    unfolding refuses
    greeted handshake config frame = judged config (greeting_of handshake frame)

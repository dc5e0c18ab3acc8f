-- ===== src/Peer/Meeting.antt =====
-- crates/machine-fabric-peer/src/connection.rs: the sends and reads of the handshake, and the handshake
-- of two sides, where no other thread of theirs acts before its end. serde_json is the parameters
-- `writes`, `parse` and `same_value`.
use machine_fabric.Base.{
  ℕ, Bool, false, Option, none, some, List, [], Result, ok, err, ◌>>=◌, if◌then◌else◌,
}
use machine_fabric.Protocol.{RpcError}
use machine_fabric.Peer.Compression.{Bytes}
use machine_fabric.Peer.Frame.{Greeting, Frame}
use machine_fabric.Peer.Wire.{CloseReason, disconnected, encode, read_frame}
use machine_fabric.Peer.Channel
use machine_fabric.Peer.Channel.{PeerLimits}
use machine_fabric.Peer.Config.{PeerConfig}
use machine_fabric.Peer.Handshake.{
  Handshake, initiate, accept, opening, answering, established, greeted,
}

-- One side: its configuration, its state, and its readings of the two clocks as it sends.
pub record Side (Value : Type 0) : Type 0 where
  pub config : PeerConfig Value
  pub state : Channel.State Value
  pub instant : ℕ
  pub now : ℕ

module _ {Value : Type 0} (null : Value) (writes : Frame Value → List Bytes)
    (parse : Bytes → Option (Frame Value)) (same_value : Value → Value → Bool) where
  -- `send` after `ensure_live`, where every error ends the loop: the bytes that are queued, and the
  -- state.
  abbrev pub sent_live :
      PeerLimits
      → Result (RpcError Value) (Unit {0}) × Channel.State Value
      → Option Bytes
      → Result CloseReason (Bytes × Channel.State Value)
  sent_live limits (err e, state) encoded = err disconnected
  sent_live limits (ok _, state) none = err disconnected
  sent_live limits (ok _, state) (some bytes) =
      if Channel.has_room null limits state
      then ok (bytes, Channel.push null state bytes)
      else err disconnected

  unfoldable pub sending :
      Side Value → Frame Value → Result CloseReason (Bytes × Channel.State Value)
  unfolding Channel.ensure_live
  sending side frame =
      sent_live side.config.limits (Channel.ensure_live null side.state side.instant side.now)
        (encode writes frame side.config.limits.max_frame_bytes)

  -- A frame is sent, where there is one.
  abbrev pub offering :
      Side Value → Option (Frame Value) → Result CloseReason (Bytes × Channel.State Value)
  offering side none = ok ([], side.state)
  offering side (some frame) = sending side frame

  unfoldable pub hearing :
      Handshake → PeerConfig Value → Bytes → Result CloseReason (Greeting Value)
  unfolding greeted
  hearing handshake config bytes =
      (read_frame parse false bytes config.limits.max_frame_bytes).0
      >>= greeted same_value handshake config

  unfoldable pub meet :
      Side Value → Side Value → Result CloseReason (Channel.State Value × Channel.State Value)
  unfolding sending hearing
  meet client server = offering client (opening initiate client.config) >>= λ asking.
      hearing accept server.config asking.0 >>= λ asked.
      offering server (answering accept server.config asked) >>= λ answering'.
      hearing initiate client.config answering'.0 >>= λ answer.
      ok (established asking.1 answer, established answering'.1 asked)

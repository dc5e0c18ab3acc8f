-- ===== src/Peer/Inbound.antt =====
-- crates/machine-fabric-peer/src/connection.rs: what the reading thread and the writing thread do with
-- one frame each, after the handshake.
use machine_fabric.Base.{
  ℕ, String, Bool, true, false, ◌&&◌, ◌||◌, not, Option, none, some, List, [], ◌∷◌, ◌++◌, map, any,
  length, ltb, leb, nat_eq, is_some, if◌then◌else◌, Result, ok, err, ◌==◌,
}
use machine_fabric.BTreeMap.{get, insert, remove}
use machine_fabric.Protocol.{Request, RpcError, Response}
use machine_fabric.Peer.Grant.{byte_len}
use machine_fabric.Peer.Frame.{Frame}
use machine_fabric.Peer.Compression.{Bytes, Codec}
use machine_fabric.Peer.Wire.{CloseReason, protocol_error, disconnected}
use machine_fabric.Peer.Channel

module _ {Value : Type 0} (null : Value) where
  abbrev pub deliver : Channel.State Value → String → Response Value → Channel.State Value
  deliver state id r = record state {
    pending = remove id state.pending;
    delivered = state.delivered ++ (id, r) ∷ [];
  }

  abbrev pub is_scoped : Channel.PeerProtocol → Bool
  is_scoped Channel.legacy_v1 = false
  is_scoped Channel.scoped_v2 = true

  -- The answer goes to the caller that waits for it, if its identity is right.
  unfoldable pub settle :
      Channel.PeerProtocol
      → Channel.State Value
      → String
      → Response Value
      → Option String
      → Result CloseReason (Unit {0}) × Channel.State Value
  settle protocol state id r none = (ok tt, state)
  settle protocol state id r (some request_id) =
      if not (r.request_id == request_id) && is_scoped protocol
      then (
        err protocol_error,
        deliver state id
            (Channel.fail null request_id "PEER_OUTCOME_UNKNOWN" "invalid response identity"),
      )
      else (ok tt, deliver state id r)

  -- `Frame::Response`.
  unfoldable pub on_response :
      Channel.PeerProtocol
      → Channel.State Value
      → String
      → Response Value
      → Result CloseReason (Unit {0}) × Channel.State Value
  unfolding settle
  on_response protocol state id r = settle protocol state id r (get id state.pending)

  abbrev pub cancelled : String → String × Bool → String × Bool
  cancelled id (key, flag) = (key, if key == id then true else flag)

  -- `Frame::Cancel`, which the first protocol does not have.
  unfoldable pub on_cancel :
      Channel.PeerProtocol
      → Channel.State Value
      → String
      → Result CloseReason (Unit {0}) × Channel.State Value
  on_cancel protocol state id =
      if is_scoped protocol
      then (ok tt, record state { inbound = map (cancelled id) state.inbound })
      else (err protocol_error, state)

  -- The end of a handler's thread, after it has sent its response.
  unfoldable pub finished : Channel.State Value → String → Channel.State Value
  finished state id = record state { inbound = remove id state.inbound }

  abbrev pub wrote :
      Result (RpcError Value) (Unit {0}) × Channel.State Value → Bool → Channel.State Value
  wrote (err e, state) success = state
  wrote (ok _, state) success = if success then state else Channel.close null state disconnected

  -- One round of the writing thread; `success` is whether the stream took the frame.
  unfoldable pub write_next : Channel.State Value → List Bytes → Bool → ℕ → ℕ → Channel.State Value
  write_next state [] success instant now = state
  write_next state (frame ∷ frames) success instant now =
      wrote (Channel.ensure_live null (record state { outgoing = frames }) instant now) success

  module _ (codec : Codec Value) (writes : Frame Value → List Bytes)
      (limits : Channel.PeerLimits) where
    -- `Frame::Request`: false when it is answered at once, true when a handler starts.
    unfoldable pub on_request :
        List String
        → Channel.State Value
        → String
        → String
        → Request Value
        → ℕ
        → ℕ
        → Result CloseReason Bool × Channel.State Value
    unfolding byte_len
    on_request services state id target r instant now =
        if nat_eq (byte_len id) 0 || ltb 256 (byte_len id)
        then (err protocol_error, state)
        else if not (any (λ s. s == target) services)
        then (
          ok false,
          Channel.send_response null codec writes limits state id
              (Channel.fail null r.request_id "PEER_SERVICE_UNAVAILABLE" "service is not exposed")
              instant now,
        )
        else if is_some (get id state.inbound)
        then (err protocol_error, state)
        else if leb limits.max_inbound_requests (length state.inbound)
        then (
          ok false,
          Channel.send_response null codec writes limits state id
              (Channel.fail null r.request_id "PEER_BUSY"
                "inbound limit; request was not dispatched")
              instant now,
        )
        else (ok true, record state { inbound = insert id false state.inbound })

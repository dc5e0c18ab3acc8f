-- ===== src/Peer/Channel.antt =====
-- crates/machine-fabric-peer/src/connection.rs: the state that the threads of a connection share, and
-- what each of them does to it while it holds the lock. `instant` and `now` are readings of the two
-- clocks; `null` is `Value::Null`.
use machine_fabric.Base.{
  ℕ, String, Bool, true, ◌||◌, not, Option, none, some, List, [], ◌∷◌, ◌++◌, map, any, length, ltb,
  leb, nat_eq, is_some, if◌then◌else◌, Result, ok, err, ◌==◌,
}
use machine_fabric.BTreeMap.{BTreeMap, insert, remove}
use machine_fabric.Protocol.{Request, RpcError, Response, failure, rpc_error}
use machine_fabric.Peer.Grant
use machine_fabric.Peer.Frame.{Frame, request, response, cancel}
use machine_fabric.Peer.Compression.{Bytes, Codec, encode_response_frame}
use machine_fabric.Peer.Wire.{CloseReason, lease_expired, lease_revoked, backpressure, encode}

pub data PeerProtocol : Type 0 where
  legacy_v1 scoped_v2 : PeerProtocol

-- The two timeouts are in milliseconds.
pub record PeerLimits : Type 0 where
  pub max_frame_bytes : ℕ
  pub max_outbound_requests : ℕ
  pub max_inbound_requests : ℕ
  pub max_queued_frames : ℕ
  pub handshake_timeout : ℕ
  pub request_timeout : ℕ

-- The shared state, with the grant, the queue of encoded frames and the answers given to callers, by
-- the id of their frame.
pub record State (Value : Type 0) : Type 0 where
  pub response_gzip : Bool
  pub ready : Bool
  pub remote_services : List String
  pub closed : Option CloseReason
  pub pending : BTreeMap String
  pub inbound : BTreeMap Bool
  pub io_threads : ℕ
  pub lease : Option Grant.State
  pub outgoing : List Bytes
  pub delivered : List (String × Response Value)
  pub shut_down : Bool

abbrev pub close_reason : Grant.Ended → CloseReason
close_reason Grant.revoked = lease_revoked
close_reason Grant.expired = lease_expired

module _ {Value : Type 0} (null : Value) where
  abbrev pub fail : String → String → String → Response Value
  fail id code message = failure id (rpc_error null code message)

  abbrev pub interrupted : String × String → String × Response Value
  interrupted (id, request_id) = (
    id,
    fail request_id "PEER_OUTCOME_UNKNOWN"
        "connection ended before response; query execution before any retry",
  )

  unfoldable pub close : State Value → CloseReason → State Value
  close state reason = if is_some state.closed then state else record state {
    closed = some reason;
    inbound = map (λ entry. (entry.0, true)) state.inbound;
    pending = [];
    delivered = state.delivered ++ map interrupted state.pending;
    shut_down = true;
  }

  abbrev pub ensure_open : State Value → Result (RpcError Value) (Unit {0}) × State Value
  ensure_open state =
      if is_some state.closed
      then (err (rpc_error null "PEER_CLOSED" "channel is closed; request was not sent"), state)
      else (ok tt, state)

  -- `ensure_live` after the grant has answered.
  abbrev pub ensure_granted :
      State Value → Option Grant.Ended → Result (RpcError Value) (Unit {0}) × State Value
  ensure_granted state none = ensure_open state
  ensure_granted state (some ended) = (
    err (rpc_error null "PEER_LEASE_ENDED" "channel lease is no longer active"),
    close state (close_reason ended),
  )

  abbrev pub ask_lease : State Value → Option Grant.State → ℕ → ℕ → Option Grant.Ended × State Value
  ask_lease state none instant now = (none, state)
  ask_lease state (some grant) instant now =
      let (ended, grant') = Grant.ended grant instant now in
      (ended, record state { lease = some grant' })

  unfoldable pub ensure_live :
      State Value → ℕ → ℕ → Result (RpcError Value) (Unit {0}) × State Value
  unfolding close
  ensure_live state instant now =
      let (ended, state') = ask_lease state state.lease instant now in ensure_granted state' ended

  -- `outgoing.try_send`, while the writer is there.
  abbrev pub has_room : PeerLimits → State Value → Bool
  has_room limits state = ltb (length state.outgoing) limits.max_queued_frames

  abbrev pub push : State Value → Bytes → State Value
  push state bytes = record state { outgoing = state.outgoing ++ bytes ∷ [] }

  abbrev pub send_live :
      PeerLimits → Result (RpcError Value) (Unit {0}) × State Value → Option Bytes → State Value
  send_live limits (err e, state) encoded = state
  send_live limits (ok _, state) none = state
  send_live limits (ok _, state) (some bytes) =
      if has_room limits state then push state bytes else close state backpressure

  module _ (codec : Codec Value) (writes : Frame Value → List Bytes) (limits : PeerLimits) where
    unfoldable pub send : State Value → Frame Value → ℕ → ℕ → State Value
    unfolding ensure_live
    send state frame instant now =
        send_live limits (ensure_live state instant now)
          (encode writes frame limits.max_frame_bytes)

    -- The response that is sent: the one given, or an error where its frame is too large.
    unfoldable pub fitting : String → Response Value → Response Value
    fitting id r =
        if is_some (encode writes (response id r) limits.max_frame_bytes)
        then r
        else fail r.request_id "PEER_FRAME_TOO_LARGE" "response exceeds frame limit"

    unfoldable pub send_response : State Value → String → Response Value → ℕ → ℕ → State Value
    unfolding fitting send
    send_response state id r instant now =
        send state (encode_response_frame codec id (fitting id r) state.response_gzip) instant now

    -- The part of `call_timeout` under the lock: a refusal, or none when the request is queued.
    unfoldable pub register :
        State Value → String → String → String → Bytes → Option (Response Value) × State Value
    register state id service request_id bytes =
        if is_some state.closed || not state.ready
        then (some (fail request_id "PEER_NOT_READY" "request was not sent"), state)
        else if not (any (λ s. s == service) state.remote_services)
        then (some (fail request_id "PEER_SERVICE_UNAVAILABLE" "request was not sent"), state)
        else if leb limits.max_outbound_requests (length state.pending)
        then (some (fail request_id "PEER_BUSY" "outbound limit; request was not sent"), state)
        else if has_room limits state
        then (none, push (record state { pending = insert id request_id state.pending }) bytes)
        else (
          some (fail request_id "PEER_BUSY" "outgoing queue full; request was not sent"),
          record state { pending = remove id (insert id request_id state.pending) },
        )

    abbrev pub call_encoded :
        State Value
        → String
        → String
        → String
        → Option Bytes
        → Option (Response Value) × State Value
    call_encoded state id service request_id none =
        (some (fail request_id "PEER_FRAME_TOO_LARGE" "request was not sent"), state)
    call_encoded state id service request_id (some bytes) =
        register state id service request_id bytes

    abbrev pub call_live :
        Result (RpcError Value) (Unit {0}) × State Value
        → String
        → String
        → Request Value
        → ℕ
        → Option (Response Value) × State Value
    call_live (err e, state) id service r timeout = (some (failure r.request_id e), state)
    call_live (ok _, state) id service r timeout =
        if nat_eq timeout 0
        then (some (fail r.request_id "PEER_INVALID_TIMEOUT" "request was not sent"), state)
        else call_encoded state id service r.request_id
            (encode writes (request id service r) limits.max_frame_bytes)

    -- `call_timeout` until it waits, for the frame id "peer_request_" and a new UUID.
    unfoldable pub begin_call :
        State Value
        → String
        → String
        → Request Value
        → ℕ
        → ℕ
        → ℕ
        → Option (Response Value) × State Value
    unfolding ensure_live register
    begin_call state id service r timeout instant now =
        call_live (ensure_live state instant now) id service r timeout

    -- `call_timeout` after its deadline without an answer.
    unfoldable pub expire_call :
        PeerProtocol → State Value → String → String → ℕ → ℕ → Response Value × State Value
    unfolding send
    expire_call protocol state id request_id instant now =
        let state' = record state { pending = remove id state.pending } in
        (
          fail request_id "PEER_OUTCOME_UNKNOWN"
              "response deadline elapsed; query execution before any retry",
          elim protocol [ legacy_v1 ↦ state' | scoped_v2 ↦ send state' (cancel id) instant now ],
        )

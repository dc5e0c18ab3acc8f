-- ===== src/Peer/Runs.antt =====
-- crates/machine-fabric-peer/src/connection.rs: the threads of a connection in any interleaving, one
-- call under the lock after the other.
use machine_fabric.Base.{
  if_elim, ℕ, String, ◌≡◌, refl, ap, ◌∙◌, Bool, true, false, ◌&&◌, not, Option, none, some, List,
  [], ◌∷◌, arith, length, is_some, nat_eq, Result, ok, err, ◌==◌,
}
use machine_fabric.BTreeMap.{get}
use machine_fabric.Protocol.{Request, RpcError, Response}
use machine_fabric.Peer.Frame.{Frame, request}
use machine_fabric.Peer.Compression.{Bytes, Codec}
use machine_fabric.Peer.Wire.{CloseReason, encode, protocol_error, disconnected}
use machine_fabric.Peer.Channel
use machine_fabric.Peer.Inbound.{deliver, is_scoped, on_response, settle, wrote, write_next}
use machine_fabric.Peer.Limits.{
  IsBounded, Keeps, Keeps-refl, Keeps-trans, forget-Keeps, close-Keeps, ensure_live-Keeps,
  send_response-Keeps, begin_call-Keeps, expire_call-Keeps,
}

-- A call that some thread makes, with what it reads and receives.
pub data Call (Value : Type 0) : Type 0 where
  closes : CloseReason → Call Value
  checks : (instant now : ℕ) → Call Value
  begins : (id service : String) → Request Value → (timeout instant now : ℕ) → Call Value
  expires : (id request_id : String) → (instant now : ℕ) → Call Value
  answers : (id : String) → Response Value → Call Value
  replies : (id : String) → Response Value → (instant now : ℕ) → Call Value
  drains : (success : Bool) → (instant now : ℕ) → Call Value

module _ {Value : Type 0} (null : Value) (codec : Codec Value) (writes : Frame Value → List Bytes)
    (limits : Channel.PeerLimits) (protocol : Channel.PeerProtocol) where
  -- The reading thread closes the connection with the reason of a frame that it refuses.
  abbrev pub after_read : Result CloseReason (Unit {0}) × Channel.State Value → Channel.State Value
  after_read (ok _, state) = state
  after_read (err reason, state) = Channel.close null state reason

  pub step : Channel.State Value → Call Value → Channel.State Value
  step s (closes reason) = Channel.close null s reason
  step s (checks instant now) = (Channel.ensure_live null s instant now).1
  step s (begins id service r timeout instant now) =
      (Channel.begin_call null codec writes limits s id service r timeout instant now).1
  step s (expires id request_id instant now) =
      (Channel.expire_call null codec writes limits protocol s id request_id instant now).1
  step s (answers id r) = after_read (on_response null protocol s id r)
  step s (replies id r instant now) =
      Channel.send_response null codec writes limits s id r instant now
  step s (drains success instant now) = write_next null s s.outgoing success instant now

  pub run : Channel.State Value → List (Call Value) → Channel.State Value
  run s [] = s
  run s (call ∷ calls) = run (step s call) calls

  deliver-Keeps :
      (s : Channel.State Value) (id : String) (r : Response Value)
      → Keeps limits s (deliver null s id r)
  deliver-Keeps s id r =
      let k = forget-Keeps null limits s id in
      record {
        bounds = λ b. record {
          waiting = (k.bounds b).waiting;
          queued = (k.bounds b).queued;
          answered = (k.bounds b).answered;
        };
        ends = λ h. refl;
      }

  refused-Keeps :
      (s : Channel.State Value) (id : String) (r : Response Value) (reason : CloseReason)
      → Keeps limits s (Channel.close null (deliver null s id r) reason)
  refused-Keeps s id r reason =
      Keeps-trans null limits s (deliver null s id r)
        (Channel.close null (deliver null s id r) reason) (deliver-Keeps s id r)
        (close-Keeps null limits (deliver null s id r) reason)

  abbrev Reads : Channel.State Value → Result CloseReason (Unit {0}) × Channel.State Value → Type 0
  Reads s r = Keeps limits s (after_read r)

  settle-Keeps :
      (s : Channel.State Value) (id : String) (r : Response Value) (held : Option String)
      → Keeps limits s (after_read (settle null protocol s id r held))
  unfolding settle
  settle-Keeps s id r none = Keeps-refl null limits s
  settle-Keeps s id r (some request_id) =
      if_elim (Reads s) (not (r.request_id == request_id) && is_scoped null protocol) _ _
        (λ h. refused-Keeps s id _ protocol_error) (λ h. deliver-Keeps s id r)

  wrote-Keeps :
      (s : Channel.State Value) (live : Result (RpcError Value) (Unit {0})) (success : Bool)
      → Keeps limits s (wrote null (live, s) success)
  wrote-Keeps s (err e) success = Keeps-refl null limits s
  wrote-Keeps s (ok _) true = Keeps-refl null limits s
  wrote-Keeps s (ok _) false = close-Keeps null limits s disconnected

  write_next-Keeps :
      (s : Channel.State Value) (frames : List Bytes) (success : Bool) (instant now : ℕ)
      → s.outgoing ≡ frames
      → Keeps limits s (write_next null s frames success instant now)
  unfolding write_next
  write_next-Keeps s [] success instant now e = Keeps-refl null limits s
  write_next-Keeps s (frame ∷ frames) success instant now e =
      let taken = record s { outgoing = frames } in
      let live = Channel.ensure_live null taken instant now in
      let first : Keeps limits s taken = record {
        bounds = λ b. record {
          waiting = b.waiting;
          queued = omega (arith, b.queued, ap (λ (x : List Bytes). length x) e);
          answered = b.answered;
        };
        ends = λ h. refl;
      } in
      Keeps-trans null limits s taken (wrote null live success) first (
        Keeps-trans null limits taken live.1 (wrote null live success)
          (ensure_live-Keeps null limits taken instant now) (wrote-Keeps live.1 live.0 success))

  step-Keeps : (s : Channel.State Value) (call : Call Value) → Keeps limits s (step s call)
  unfolding step on_response
  step-Keeps s (closes reason) = close-Keeps null limits s reason
  step-Keeps s (checks instant now) = ensure_live-Keeps null limits s instant now
  step-Keeps s (begins id service r timeout instant now) =
      begin_call-Keeps null limits codec writes s id service r timeout instant now
  step-Keeps s (expires id request_id instant now) =
      expire_call-Keeps null limits codec writes protocol s id request_id instant now
  step-Keeps s (answers id r) = settle-Keeps s id r (get id s.pending)
  step-Keeps s (replies id r instant now) =
      send_response-Keeps null limits codec writes s id r instant now
  step-Keeps s (drains success instant now) = write_next-Keeps s s.outgoing success instant now refl

  run-Keeps : (s : Channel.State Value) (calls : List (Call Value)) → Keeps limits s (run s calls)
  unfolding run
  run-Keeps s [] = Keeps-refl null limits s
  run-Keeps s (call ∷ calls) =
      Keeps-trans null limits s (step s call) (run (step s call) calls) (step-Keeps s call)
        (run-Keeps (step s call) calls)

  abbrev Answered : Option (Response Value) × Channel.State Value → Type 0
  Answered r = is_some r.0 ≡ true

  call_encoded-refuses :
      (s : Channel.State Value) (id service request_id : String) (encoded : Option Bytes)
      → is_some s.closed ≡ true
      → Answered (Channel.call_encoded null codec writes limits s id service request_id encoded)
  unfolding Channel.register
  call_encoded-refuses s id service request_id none h = refl
  call_encoded-refuses s id service request_id (some bytes) h = rw h refl

  call_live-refuses :
      (live : Result (RpcError Value) (Unit {0})) (s : Channel.State Value) (id service : String)
      (r : Request Value) (timeout : ℕ)
      → is_some s.closed ≡ true
      → is_some (Channel.call_live null codec writes limits (live, s) id service r timeout).0 ≡ true
  call_live-refuses (err e) s id service r timeout h = refl
  call_live-refuses (ok _) s id service r timeout h =
      if_elim Answered (nat_eq timeout 0) _ _ (λ e. refl)
        λ e.
          call_encoded-refuses s id service r.request_id
            (encode writes (request id service r) limits.max_frame_bytes) h

  refuses :
      (s : Channel.State Value) (id service : String) (r : Request Value) (timeout instant now : ℕ)
      → is_some s.closed ≡ true
      → is_some (Channel.begin_call null codec writes limits s id service r timeout instant now).0
        ≡ true
  unfolding Channel.begin_call
  refuses s id service r timeout instant now h =
      let live = Channel.ensure_live null s instant now in
      call_live-refuses live.0 live.1 id service r timeout
        (ap is_some ((ensure_live-Keeps null limits s instant now).ends h) ∙ h)

  -- However the calls of the threads are interleaved, a connection within its limits stays within
  -- them: no more requests wait and no more frames are queued than allowed, and no request waits once
  -- the connection is closed.
  pub run-IsBounded :
      (s : Channel.State Value) (calls : List (Call Value))
      → IsBounded limits s
      → IsBounded limits (run s calls)
  run-IsBounded s calls b = (run-Keeps s calls).bounds b

  -- A connection that is closed stays closed, for the first reason, and a `call` on it is refused.
  pub closed_forever :
      (s : Channel.State Value) (calls : List (Call Value)) (id service : String)
      (r : Request Value) (timeout instant now : ℕ)
      → is_some s.closed ≡ true
      → let t = run s calls in
        (t.closed ≡ s.closed)
        × (is_some
              (Channel.begin_call null codec writes limits t id service r timeout instant now).0
            ≡ true)
  closed_forever s calls id service r timeout instant now h =
      let same = (run-Keeps s calls).ends h in
      (same, refuses (run s calls) id service r timeout instant now (ap is_some same ∙ h))

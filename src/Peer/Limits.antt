-- ===== src/Peer/Limits.antt =====
-- crates/machine-fabric-peer/src/connection.rs: the limits of a connection hold, and its end is for
-- ever, whatever is called in whatever order.
use machine_fabric.Base.{
  if_elim, ℕ, ◌+◌, ◌≤◌, String, ◌≡◌, refl, ap, ◌∙◌, true, false, ◌||◌, not, Option, none, some,
  List, [], ◌∷◌, any, arith, eq_iff, length, length-append, leb, nat_eq, is_some, Result, ok, err,
  ◌==◌,
}
use machine_fabric.BTreeMap.{BTreeMap, insert, remove}
use machine_fabric.Protocol.{Request, RpcError, Response}
use machine_fabric.Peer.Grant
use machine_fabric.Peer.Frame.{Frame, request, cancel}
use machine_fabric.Peer.Compression.{Bytes, Codec}
use machine_fabric.Peer.Wire.{CloseReason, backpressure, encode}
use machine_fabric.Peer.Channel

length-insert-le {ℓ} :
    {V : Type ℓ} (k : String) (v : V) (m : BTreeMap V) → length (insert k v m) ≤ length m + 1
unfolding insert
length-insert-le k v [] = omega arith
length-insert-le k v ((j, w) ∷ m) = ground (arith, length-insert-le k v m)

length-remove-le {ℓ} : {V : Type ℓ} (k : String) (m : BTreeMap V) → length (remove k m) ≤ length m
unfolding remove
length-remove-le k [] = omega arith
length-remove-le k ((j, w) ∷ m) = ground (arith, length-remove-le k m)

remove-insert-le {ℓ} :
    {V : Type ℓ} (k : String) (v : V) (m : BTreeMap V) → length (remove k (insert k v m)) ≤ length m
unfolding insert remove
remove-insert-le k v [] = ground (arith, eq_iff k k)
remove-insert-le k v ((j, w) ∷ m) =
    ground (arith, eq_iff j k, eq_iff k k, remove-insert-le k v m, length-remove-le k m)

-- No more requests wait and no more frames are queued than the limits say, and nobody waits on a
-- closed connection.
pub record IsBounded {Value : Type 0} (limits : Channel.PeerLimits) (state : Channel.State Value)
    : Type 0 where
  pub waiting : length state.pending ≤ limits.max_outbound_requests
  pub queued : length state.outgoing ≤ limits.max_queued_frames
  pub answered : is_some state.closed ≡ true → length state.pending ≡ 0

-- The bounds are kept, and so is the reason of a close.
pub record Keeps {Value : Type 0} (limits : Channel.PeerLimits) (s t : Channel.State Value)
    : Type 0 where
  pub bounds : IsBounded limits s → IsBounded limits t
  pub ends : is_some s.closed ≡ true → t.closed ≡ s.closed

module _ {Value : Type 0} (null : Value) (limits : Channel.PeerLimits) where
  pub Keeps-refl : (s : Channel.State Value) → Keeps limits s s
  Keeps-refl s = record { bounds = λ b. b; ends = λ h. refl }

  pub Keeps-trans :
      (s t u : Channel.State Value) → Keeps limits s t → Keeps limits t u → Keeps limits s u
  Keeps-trans s t u k l = record {
    bounds = λ b. l.bounds (k.bounds b);
    ends = λ h. l.ends (ap is_some (k.ends h) ∙ h) ∙ k.ends h;
  }

  pub close-Keeps :
      (s : Channel.State Value) (reason : CloseReason)
      → Keeps limits s (Channel.close null s reason)
  unfolding Channel.close
  close-Keeps s reason = record {
    bounds = λ b. record {
      waiting = ground (arith, b.waiting);
      queued = ground (arith, b.queued);
      answered = λ h. ground (arith, b.answered);
    };
    ends = λ h. rw h refl;
  }

  ask_lease-Keeps :
      (s : Channel.State Value) (grant : Option Grant.State) (instant now : ℕ)
      → Keeps limits s (Channel.ask_lease null s grant instant now).1
  ask_lease-Keeps s none instant now = Keeps-refl s
  ask_lease-Keeps s (some grant) instant now = record {
    bounds = λ b. record { waiting = b.waiting; queued = b.queued; answered = b.answered };
    ends = λ h. refl;
  }

  ensure_granted-Keeps :
      (s : Channel.State Value) (ended : Option Grant.Ended)
      → Keeps limits s (Channel.ensure_granted null s ended).1
  ensure_granted-Keeps s none =
      if_elim (λ (r : Result (RpcError Value) (Unit {0}) × Channel.State Value). Keeps limits s r.1)
        (is_some s.closed) _ _ (λ h. Keeps-refl s) (λ h. Keeps-refl s)
  ensure_granted-Keeps s (some ended) = close-Keeps s (Channel.close_reason ended)

  pub ensure_live-Keeps :
      (s : Channel.State Value) (instant now : ℕ)
      → Keeps limits s (Channel.ensure_live null s instant now).1
  unfolding Channel.ensure_live
  ensure_live-Keeps s instant now =
      let asked = Channel.ask_lease null s s.lease instant now in
      Keeps-trans s asked.1 (Channel.ensure_granted null asked.1 asked.0).1
        (ask_lease-Keeps s s.lease instant now) (ensure_granted-Keeps asked.1 asked.0)

  push-Keeps :
      (s : Channel.State Value) (bytes : Bytes)
      → Channel.has_room null limits s ≡ true
      → Keeps limits s (Channel.push null s bytes)
  push-Keeps s bytes room = record {
    bounds = λ b. record {
      waiting = b.waiting;
      queued = ground (arith, room, length-append s.outgoing (bytes ∷ []));
      answered = b.answered;
    };
    ends = λ h. refl;
  }

  pub forget-Keeps :
      (s : Channel.State Value) (id : String)
      → Keeps limits s (record s { pending = remove id s.pending })
  forget-Keeps s id = record {
    bounds = λ b. record {
      waiting = omega (arith, b.waiting, length-remove-le id s.pending);
      queued = b.queued;
      answered = λ h. omega (arith, b.answered h, length-remove-le id s.pending);
    };
    ends = λ h. refl;
  }

  queue-Keeps :
      (s : Channel.State Value) (id request_id : String) (bytes : Bytes)
      → is_some s.closed ≡ false
      → leb limits.max_outbound_requests (length s.pending) ≡ false
      → Channel.has_room null limits s ≡ true
      → Keeps limits s
          (Channel.push null (record s { pending = insert id request_id s.pending }) bytes)
  queue-Keeps s id request_id bytes live free room = record {
    bounds = λ b. record {
      waiting = ground (arith, free, length-insert-le id request_id s.pending);
      queued = ground (arith, room, length-append s.outgoing (bytes ∷ []));
      answered = λ h. absurd (cc (live, h));
    };
    ends = λ h. refl;
  }

  unqueue-Keeps :
      (s : Channel.State Value) (id request_id : String)
      → is_some s.closed ≡ false
      → Keeps limits s (record s { pending = remove id (insert id request_id s.pending) })
  unqueue-Keeps s id request_id live = record {
    bounds = λ b. record {
      waiting = omega (arith, b.waiting, remove-insert-le id request_id s.pending);
      queued = b.queued;
      answered = λ h. absurd (cc (live, h));
    };
    ends = λ h. refl;
  }

  send_live-Keeps :
      (live : Result (RpcError Value) (Unit {0})) (s : Channel.State Value) (encoded : Option Bytes)
      → Keeps limits s (Channel.send_live null limits (live, s) encoded)
  send_live-Keeps (err e) s encoded = Keeps-refl s
  send_live-Keeps (ok _) s none = Keeps-refl s
  send_live-Keeps (ok _) s (some bytes) =
      if_elim (Keeps limits s) (Channel.has_room null limits s) _ _ (push-Keeps s bytes)
        (λ h. close-Keeps s backpressure)

  module _ (codec : Codec Value) (writes : Frame Value → List Bytes) where
    send-Keeps :
        (s : Channel.State Value) (frame : Frame Value) (instant now : ℕ)
        → Keeps limits s (Channel.send null codec writes limits s frame instant now)
    unfolding Channel.send
    send-Keeps s frame instant now =
        let live = Channel.ensure_live null s instant now in
        let encoded = encode writes frame limits.max_frame_bytes in
        Keeps-trans s live.1 (Channel.send_live null limits live encoded)
          (ensure_live-Keeps s instant now) (send_live-Keeps live.0 live.1 encoded)

    pub send_response-Keeps :
        (s : Channel.State Value) (id : String) (r : Response Value) (instant now : ℕ)
        → Keeps limits s (Channel.send_response null codec writes limits s id r instant now)
    unfolding Channel.send_response
    send_response-Keeps s id r instant now = send-Keeps s _ instant now

    abbrev Replies : Channel.State Value → Option (Response Value) × Channel.State Value → Type 0
    Replies s r = Keeps limits s r.1

    register-Keeps :
        (s : Channel.State Value) (id service request_id : String) (bytes : Bytes)
        → Keeps limits s (Channel.register null codec writes limits s id service request_id bytes).1
    unfolding Channel.register
    register-Keeps s id service request_id bytes =
        let queued =
          Channel.push null (record s { pending = insert id request_id s.pending }) bytes in
        let unqueued = record s { pending = remove id (insert id request_id s.pending) } in
        if_elim (Replies s) (is_some s.closed || not s.ready) _ _ (λ h. Keeps-refl s)
          λ ready.
            if_elim (Replies s) (not (any (λ x. x == service) s.remote_services)) _ _
              (λ h. Keeps-refl s)
              λ served.
                if_elim (Replies s) (leb limits.max_outbound_requests (length s.pending)) _ _
                  (λ h. Keeps-refl s)
                  λ free.
                    if_elim (Replies s) (Channel.has_room null limits s) (none, queued)
                      (
                        some (
                            Channel.fail null request_id "PEER_BUSY"
                              "outgoing queue full; request was not sent"),
                        unqueued,
                      )
                      (λ room. queue-Keeps s id request_id bytes (ground (arith, ready)) free room)
                      (λ full. unqueue-Keeps s id request_id (ground (arith, ready)))

    call_encoded-Keeps :
        (s : Channel.State Value) (id service request_id : String) (encoded : Option Bytes)
        → Keeps limits s
            (Channel.call_encoded null codec writes limits s id service request_id encoded).1
    call_encoded-Keeps s id service request_id none = Keeps-refl s
    call_encoded-Keeps s id service request_id (some bytes) =
        register-Keeps s id service request_id bytes

    call_live-Keeps :
        (live : Result (RpcError Value) (Unit {0})) (s : Channel.State Value) (id service : String)
        (r : Request Value) (timeout : ℕ)
        → Keeps limits s
            (Channel.call_live null codec writes limits (live, s) id service r timeout).1
    call_live-Keeps (err e) s id service r timeout = Keeps-refl s
    call_live-Keeps (ok _) s id service r timeout =
        if_elim (Replies s) (nat_eq timeout 0) _ _ (λ h. Keeps-refl s)
          λ h.
            call_encoded-Keeps s id service r.request_id
              (encode writes (request id service r) limits.max_frame_bytes)

    pub begin_call-Keeps :
        (s : Channel.State Value) (id service : String) (r : Request Value)
        (timeout instant now : ℕ)
        → Keeps limits s
            (Channel.begin_call null codec writes limits s id service r timeout instant now).1
    unfolding Channel.begin_call
    begin_call-Keeps s id service r timeout instant now =
        let live = Channel.ensure_live null s instant now in
        Keeps-trans s live.1
          (Channel.call_live null codec writes limits live id service r timeout).1
          (ensure_live-Keeps s instant now) (call_live-Keeps live.0 live.1 id service r timeout)

    pub expire_call-Keeps :
        (protocol : Channel.PeerProtocol) (s : Channel.State Value) (id request_id : String)
        (instant now : ℕ)
        → Keeps limits s
            (Channel.expire_call null codec writes limits protocol s id request_id instant now).1
    unfolding Channel.expire_call
    expire_call-Keeps Channel.legacy_v1 s id request_id instant now = forget-Keeps s id
    expire_call-Keeps Channel.scoped_v2 s id request_id instant now =
        let s' = record s { pending = remove id s.pending } in
        Keeps-trans s s' (Channel.send null codec writes limits s' (cancel id) instant now)
          (forget-Keeps s id) (send-Keeps s' (cancel id) instant now)

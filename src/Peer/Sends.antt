-- ===== src/Peer/Sends.antt =====
-- crates/machine-fabric-peer/src/connection.rs: when a frame of the handshake is sent, and when it is
-- read.
use machine_fabric.Base.{
  ℕ, zero, suc, ◌+◌, ◌≤◌, ◌<◌, ◌≡◌, refl, sym, ap, subst, ◌∙◌, ◌↔◌, Bool, false, Option, none, some,
  List, [], ◌∷◌, ◌++◌, length, ltb, Result, ok, err, arith, Bool-cases, Option-cases, inl, inr,
}
use machine_fabric.Protocol.{RpcError}
use machine_fabric.Peer.Grant
use machine_fabric.Peer.Compression.{Bytes, concat}
use machine_fabric.Peer.Frame.{Greeting, Frame}
use machine_fabric.Peer.Wire.{CloseReason, newline, encode, read_frame, read_until, protocol_error}
use machine_fabric.Peer.Lines.{IsLine, encode-eq, read_frame-encode}
use machine_fabric.Peer.Channel
use machine_fabric.Peer.Channel.{PeerLimits}
use machine_fabric.Peer.Config.{PeerConfig}
use machine_fabric.Peer.Handshake.{Handshake, greeted}
use machine_fabric.Peer.Meeting.{Side, sent_live, sending, hearing}

-- A side is not closed, and its lease, where it has one, has not ended by either clock.
pub record IsLive {Value : Type 0} (side : Side Value) : Type 0 where
  pub not_closed : side.state.closed ≡ none
  pub leased :
      (grant : Grant.State)
      → side.state.lease ≡ some grant
      → (grant.ended ≡ none) × (side.instant < grant.deadline) × (side.now < grant.expires_at_ms)

-- A side can send a frame: it has room in its queue, and the frame fits its limit.
pub record CanSend {Value : Type 0} (side : Side Value) (line : Bytes) : Type 0 where
  pub live : IsLive side
  pub room : length side.state.outgoing < side.config.limits.max_queued_frames
  pub fits : length line + 1 ≤ side.config.limits.max_frame_bytes

module _ {Value : Type 0} (null : Value) (writes : Frame Value → List Bytes)
    (parse : Bytes → Option (Frame Value)) (same_value : Value → Value → Bool) where
  abbrev live :
      Channel.State Value
      → Option Grant.State
      → ℕ
      → ℕ
      → Result (RpcError Value) (Unit {0}) × Channel.State Value
  live state lease instant now =
      let asked = Channel.ask_lease null state lease instant now in
      Channel.ensure_granted null asked.1 asked.0

  -- A state with the same queue that is not closed, as another.
  record Open (state state' : Channel.State Value) : Type 0 where
    was : state.closed ≡ none
    is : state'.closed ≡ none
    queue : state'.outgoing ≡ state.outgoing

  ensure_open-Open :
      (state : Channel.State Value)
      → (Channel.ensure_open null state).0 ≡ ok tt
      → state.closed ≡ none
  ensure_open-Open state h = elim (Option-cases state.closed) [
    | inl e ↦ e
    | inr (reason, e) ↦ absurd (cc (rw e at h))
  ]

  grant-live :
      (grant : Grant.State) (instant now : ℕ)
      → (Grant.ended grant instant now).0 ≡ none
      → (grant.ended ≡ none) × (instant < grant.deadline) × (now < grant.expires_at_ms)
  unfolding Grant.ended Grant.lapsed
  grant-live grant instant now h = elim (Option-cases grant.ended) [
    | inl e ↦ let h' = rw e at h in (e, ground (arith, h'), ground (arith, h'))
    | inr (ended, e) ↦ let h' = rw e at h in absurd (cc h')
  ]

  live-grant :
      (grant : Grant.State) (instant now : ℕ)
      → (grant.ended ≡ none) × (instant < grant.deadline) × (now < grant.expires_at_ms)
      → (Grant.ended grant instant now).0 ≡ none
  unfolding Grant.ended Grant.lapsed
  live-grant grant instant now (e, d, x) = rw e (ground (arith, d, x, e))

  granted-Open :
      (state s : Channel.State Value) (ended : Option Grant.Ended)
      → s.closed ≡ state.closed
      → s.outgoing ≡ state.outgoing
      → (Channel.ensure_granted null s ended).0 ≡ ok tt
      → (ended ≡ none) × Open state (Channel.ensure_granted null s ended).1
  granted-Open state s (some ended) c q h = absurd (cc h)
  granted-Open state s none c q h =
      let opened = ensure_open-Open s h in
      (refl, rw opened (record { was = sym c ∙ opened; is = refl; queue = q }))

  live-leased :
      (state : Channel.State Value) (lease : Option Grant.State) (instant now : ℕ)
      → (live state lease instant now).0 ≡ ok tt
      → Open state (live state lease instant now).1
        × ((grant : Grant.State)
            → lease ≡ some grant
            → (grant.ended ≡ none) × (instant < grant.deadline) × (now < grant.expires_at_ms))
  live-leased state none instant now h =
      ((granted-Open state state none refl refl h).1, λ grant e. absurd (cc e))
  live-leased state (some grant) instant now h =
      let (kept, opened) =
        granted-Open state (Channel.ask_lease null state (some grant) instant now).1
          (Grant.ended grant instant now).0 refl refl h in
      (
        opened,
        λ grant' e.
            subst
              (λ (g : Grant.State).
                (g.ended ≡ none) × (instant < g.deadline) × (now < g.expires_at_ms))
              (cc e) (grant-live grant instant now kept),
      )

  leased-live :
      (state : Channel.State Value) (lease : Option Grant.State) (instant now : ℕ)
      → state.closed ≡ none
      → ((grant : Grant.State)
          → lease ≡ some grant
          → (grant.ended ≡ none) × (instant < grant.deadline) × (now < grant.expires_at_ms))
      → (live state lease instant now).0 ≡ ok tt
  leased-live state none instant now closed h = rw closed refl
  leased-live state (some grant) instant now closed h =
      rw (live-grant grant instant now (h grant refl), closed) refl

  sent_live-parts :
      (limits : PeerLimits) (answer : Result (RpcError Value) (Unit {0}) × Channel.State Value)
      (encoded : Option Bytes) (bytes : Bytes) (state : Channel.State Value)
      → sent_live null writes parse same_value limits answer encoded ≡ ok (bytes, state)
      → (answer.0 ≡ ok tt)
        × (encoded ≡ some bytes)
        × (length answer.1.outgoing < limits.max_queued_frames)
        × (state.closed ≡ answer.1.closed)
  sent_live-parts limits (err e, s) encoded bytes state h = absurd (cc h)
  sent_live-parts limits (ok _, s) none bytes state h = absurd (cc h)
  sent_live-parts limits (ok _, s) (some line) bytes state h =
      elim (Bool-cases (Channel.has_room null limits s)) [
        | inl room ↦
            let same : ◌≡◌ {A = Result CloseReason (Bytes × Channel.State Value)}
                (ok (line, Channel.push null s line)) (ok (bytes, state)) =
              rw room at h in
            let first : line ≡ bytes = cc same in
            let second : Channel.push null s line ≡ state = cc same in
            (refl, ap some first, ground (arith, room), sym (ap (λ x. x.closed) second))
        | inr full ↦ absurd (cc (rw full at h))
      ]

  -- A frame that is sent.
  pub sending-CanSend :
      (side : Side Value) (frame : Frame Value) (bytes : Bytes) (state : Channel.State Value)
      → 1 ≤ side.config.limits.max_frame_bytes
      → sending null writes parse same_value side frame ≡ ok (bytes, state)
      → CanSend side (concat (writes frame))
        × (bytes ≡ concat (writes frame) ++ newline ∷ [])
        × (state.closed ≡ none)
  unfolding sending Channel.ensure_live
  sending-CanSend side frame bytes state least h =
      let (lived, encoded, room, closed) =
        sent_live-parts side.config.limits
          (Channel.ensure_live null side.state side.instant side.now)
          (encode writes frame side.config.limits.max_frame_bytes) bytes state h in
      let (opened, leased) = live-leased side.state side.state.lease side.instant side.now lived in
      let fitted =
        sym (encode-eq writes frame side.config.limits.max_frame_bytes least) ∙ encoded in
      (
        record {
          live = record { not_closed = opened.was; leased = leased };
          room = rw (sym opened.queue) room;
          fits = ground (arith, fitted);
        },
        ground (arith, fitted),
        closed ∙ opened.is,
      )

  sent_live-ok :
      (limits : PeerLimits) (answer : Result (RpcError Value) (Unit {0}) × Channel.State Value)
      (bytes : Bytes)
      → answer.0 ≡ ok tt
      → length answer.1.outgoing < limits.max_queued_frames
      → sent_live null writes parse same_value limits answer (some bytes)
        ≡ ok (bytes, Channel.push null answer.1 bytes)
  sent_live-ok limits (err e, s) bytes h room = absurd (cc h)
  sent_live-ok limits (ok _, s) bytes h room = ground (arith, room)

  pub CanSend-sending :
      (side : Side Value) (frame : Frame Value)
      → 1 ≤ side.config.limits.max_frame_bytes
      → CanSend side (concat (writes frame))
      → (state : Channel.State Value) × (sending null writes parse same_value side frame
          ≡ ok (concat (writes frame) ++ newline ∷ [], state))
        × (state.closed ≡ none)
  unfolding sending Channel.ensure_live
  CanSend-sending side frame least can =
      let lived =
        leased-live side.state side.state.lease side.instant side.now can.live.not_closed
          can.live.leased in
      let (opened, _) = live-leased side.state side.state.lease side.instant side.now lived in
      let answer = Channel.ensure_live null side.state side.instant side.now in
      let line = concat (writes frame) ++ newline ∷ [] in
      let encoded : encode writes frame side.config.limits.max_frame_bytes ≡ some line =
        encode-eq writes frame side.config.limits.max_frame_bytes least
        ∙ ground (arith, can.fits) in
      (
        Channel.push null answer.1 line,
        ap (λ e. sent_live null writes parse same_value side.config.limits answer e) encoded
            ∙ sent_live-ok side.config.limits answer line lived (rw opened.queue can.room),
        opened.is,
      )

  read_until-full :
      (line : Bytes) (limit : ℕ)
      → IsLine line
      → limit ≤ length line + 1
      → length (read_until limit (line ++ newline ∷ [])).bytes ≡ limit
  unfolding read_until
  read_until-full [] zero h b = refl
  read_until-full [] (suc zero) h b = refl
  read_until-full [] (suc (suc limit)) h b = absurd (omega (arith, b))
  read_until-full (x ∷ line) zero h b = refl
  read_until-full (x ∷ line) (suc limit) h b =
      rw h.0 (ap suc (read_until-full line limit h.1 (omega (arith, b))))

  -- A frame with more bytes than the limit is not read.
  read_frame-long :
      (line : Bytes) (maximum : ℕ)
      → IsLine line
      → maximum ≤ length line
      → (read_frame parse false (line ++ newline ∷ []) maximum).0 ≡ err protocol_error
  unfolding read_frame
  read_frame-long line maximum h b =
      let full = read_until-full line (suc maximum) h (omega (arith, b)) in ground (arith, full)

  -- What is heard of a frame that was sent.
  pub hearing_iff :
      (handshake : Handshake) (config : PeerConfig Value) (frame : Frame Value) (g : Greeting Value)
      → parse (concat (writes frame) ++ newline ∷ []) ≡ some frame
      → IsLine (concat (writes frame))
      → (hearing null writes parse same_value handshake config
            (concat (writes frame) ++ newline ∷ [])
          ≡ ok g)
        ↔ ((length (concat (writes frame)) < config.limits.max_frame_bytes)
            × (greeted same_value handshake config frame ≡ ok g))
  unfolding hearing
  hearing_iff handshake config frame g p l =
      let line = concat (writes frame) in
      let maximum = config.limits.max_frame_bytes in
      elim (Bool-cases (ltb (length line) maximum)) [
        | inl short ↦
            let read =
              (read_frame-encode writes parse frame maximum false [] p l
                (ground (arith, short))).1 in
            rw read ((λ h. (ground (arith, short), h)), λ h. h.1)
        | inr long ↦
            rw (read_frame-long line maximum l (ground (arith, long)))
              ((λ h. absurd (cc h)), λ h. absurd (ground (arith, long, h.0)))
      ]

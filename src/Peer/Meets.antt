-- ===== src/Peer/Meets.antt =====
-- crates/machine-fabric-peer/src/connection.rs: the handshake of two sides.
use machine_fabric.Base.{
  ℕ, subst, ◌<◌, ◌++◌, ◌≡◌, refl, sym, ap, ◌∙◌, ◌↔◌, Bool, true, Option, some, List, [], ◌∷◌,
  length, Result, ok, err, bind-ok, ok_unique,
}
use machine_fabric.Peer.Frame.{Greeting, Frame, hello, hello_ack}
use machine_fabric.Peer.Wire.{CloseReason, newline}
use machine_fabric.Peer.Channel
use machine_fabric.Peer.Channel.{PeerProtocol, legacy_v1, scoped_v2}
use machine_fabric.Peer.Config.{validate}
use machine_fabric.Peer.Compression.{Bytes, concat}
use machine_fabric.Peer.Lines.{IsLine}
use machine_fabric.Peer.Meeting.{Side, sending, hearing, meet}
use machine_fabric.Peer.Sends.{CanSend, sending-CanSend, CanSend-sending, hearing_iff}
use machine_fabric.Peer.Handshake.{initiate, accept, judged, greeting, established, greeted}
use machine_fabric.Peer.Greetings.{
  Suits, IsReady, established-IsReady, greeted-Suits, Suits-greeted, validate-frames,
}

-- A side can send its greeting, and the other reads it.
pub record Reaches {Value : Type 0} (sender receiver : Side Value) (line : Bytes) : Type 0 where
  pub sent : CanSend sender line
  pub read : length line < receiver.config.limits.max_frame_bytes

module _ {Value : Type 0} (null : Value) (writes : Frame Value → List Bytes)
    (parse : Bytes → Option (Frame Value)) (is_object : Value → Bool)
    (same_value : Value → Value → Bool)
    (same : (a b : Value) → (same_value a b ≡ true) ↔ (a ≡ b)) where
  -- The greetings of the two sides, as they are written.
  abbrev asks : Side Value → Bytes
  asks client = concat (writes (hello (greeting client.config true)))

  abbrev answers : Side Value → Bytes
  answers server = concat (writes (hello_ack (greeting server.config true)))

  -- Each side says what the other wants to hear, and reaches it.
  abbrev pub Agree : Side Value → Side Value → Type 0
  Agree client server =
      Suits client.config server.config
      × Suits server.config client.config
      × Reaches client server (asks client)
      × Reaches server client (answers server)

  -- What the result of a handshake says of the two sides.
  abbrev pub Outcome :
      Side Value
      → Side Value
      → Result CloseReason (Channel.State Value × Channel.State Value)
      → Type 0
  Outcome client server (ok (client', server')) =
      Agree client server × IsReady client' server.config × IsReady server' client.config
  Outcome client server (err reason) = ¬ Agree client server

  module _ (client server : Side Value) (instant now : ℕ)
      (valid_client : validate is_object client.config instant now ≡ ok tt)
      (valid_server : validate is_object server.config instant now ≡ ok tt)
      (parsed : parse (asks client ++ newline ∷ []) ≡ some (hello (greeting client.config true)))
      (parsed' : parse (answers server ++ newline ∷ [])
        ≡ some (hello_ack (greeting server.config true)))
      (line : IsLine (asks client)) (line' : IsLine (answers server)) where
    Agree-meet :
        Agree client server
        → (states : Channel.State Value × Channel.State Value) × (meet null writes parse same_value
              client server
            ≡ ok states)
    unfolding meet greeted
    Agree-meet (forth, back, there, home) =
        let (asking, sent, _) =
          CanSend-sending null writes parse same_value client (hello (greeting client.config true))
            (validate-frames is_object same_value same client.config instant now valid_client)
            there.sent in
        let (replying, sent', _) =
          CanSend-sending null writes parse same_value server
            (hello_ack (greeting server.config true))
            (validate-frames is_object same_value same server.config instant now valid_server)
            home.sent in
        let heard =
          (hearing_iff null writes parse same_value accept server.config
              (hello (greeting client.config true)) (greeting client.config true) parsed line).1
            (
              there.read,
              Suits-greeted is_object same_value same client.config server.config instant now
                  valid_client forth,
            ) in
        let heard' =
          (hearing_iff null writes parse same_value initiate client.config
              (hello_ack (greeting server.config true)) (greeting server.config true) parsed'
              line').1
            (
              home.read,
              Suits-greeted is_object same_value same server.config client.config instant now
                  valid_server back,
            ) in
        (
          (
            established asking (greeting server.config true),
            established replying (greeting client.config true),
          ),
          rw (sent, heard, sent', heard') refl,
        )

    meet-Agree :
        (client' server' : Channel.State Value)
        → meet null writes parse same_value client server ≡ ok (client', server')
        → Agree client server × IsReady client' server.config × IsReady server' client.config
    unfolding meet greeted
    meet-Agree client' server' h =
        let result : Channel.State Value × Channel.State Value = (client', server') in
        let ((bytes, asking), sent, h1) =
          bind-ok
            (sending null writes parse same_value client (hello (greeting client.config true))) _
            result h in
        let (can, wrote, closed) =
          sending-CanSend null writes parse same_value client (hello (greeting client.config true))
            bytes asking
            (validate-frames is_object same_value same client.config instant now valid_client)
            sent in
        let (asked, heard, h2) =
          bind-ok (hearing null writes parse same_value accept server.config bytes) _ result h1 in
        let (short, judged) =
          (hearing_iff null writes parse same_value accept server.config
              (hello (greeting client.config true)) asked parsed line).0
            (ap (hearing null writes parse same_value accept server.config) (sym wrote) ∙ heard) in
        let (forth, asked_eq) =
          greeted-Suits is_object same_value same accept server.config client.config asked judged in
        let ((bytes', replying), sent', h3) =
          bind-ok
            (sending null writes parse same_value server
              (hello_ack (greeting server.config asked.response_gzip)))
            _ result h2 in
        let (can', wrote', closed') =
          sending-CanSend null writes parse same_value server
            (hello_ack (greeting server.config true)) bytes' replying
            (validate-frames is_object same_value same server.config instant now valid_server)
            (ap
                (λ (g : Greeting Value).
                  sending null writes parse same_value server
                    (hello_ack (greeting server.config g.response_gzip)))
                (sym asked_eq)
              ∙ sent') in
        let (answer, heard', h4) =
          bind-ok (hearing null writes parse same_value initiate client.config bytes') _ result
            h3 in
        let (short', judged') =
          (hearing_iff null writes parse same_value initiate client.config
              (hello_ack (greeting server.config true)) answer parsed' line').0
            (ap (hearing null writes parse same_value initiate client.config) (sym wrote')
              ∙ heard') in
        let (back, answer_eq) =
          greeted-Suits is_object same_value same initiate client.config server.config answer
            judged' in
        let ends = ok_unique _ _ _ refl h4 in
        let first : established asking (greeting server.config true) ≡ client' =
          ap (established asking) (sym answer_eq) ∙ ap (λ x. x.0) ends in
        let second : established replying (greeting client.config true) ≡ server' =
          ap (established replying) (sym asked_eq) ∙ ap (λ x. x.1) ends in
        (
          (forth, back, record { sent = can; read = short }, record { sent = can'; read = short' }),
          subst (λ state. IsReady state server.config) first
              (established-IsReady asking server.config closed),
          subst (λ state. IsReady state client.config) second
              (established-IsReady replying client.config closed'),
        )

    meet-Outcome :
        (outcome : Result CloseReason (Channel.State Value × Channel.State Value))
        → meet null writes parse same_value client server ≡ outcome
        → Outcome client server outcome
    meet-Outcome (ok (client', server')) h = meet-Agree client' server' h
    meet-Outcome (err reason) h =
        λ agree. let (states, done) = Agree-meet agree in absurd (cc (done, h))

    -- Two sides whose configurations are valid come through the handshake exactly when each says what
    -- the other wants to hear (the same protocol, the identity that is expected, the same binding, and
    -- every service that is required) and each can send its greeting and the other read it: it is
    -- not closed, its lease has not ended, its queue has room, and the greeting fits both limits. Then
    -- neither is closed, each is ready and knows the services of the other, and both have agreed on
    -- compressed responses; otherwise the handshake ends with an error. serde_json is taken to read back
    -- the two greetings that it wrote, each on a line.
    pub meet-Suits : Outcome client server (meet null writes parse same_value client server)
    meet-Suits = meet-Outcome (meet null writes parse same_value client server) refl

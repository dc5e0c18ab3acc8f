-- ===== src/Tests/Channel.antt =====
-- A connection with room for one request and one frame.
use machine_fabric.Base.{ℕ, ◌≡◌, refl, true, false, none, some, List, [], ◌∷◌, arith, is_some}
use machine_fabric.Protocol.{Request}
use machine_fabric.Peer.Frame.{Frame}
use machine_fabric.Peer.Compression.{Bytes, Codec}
use machine_fabric.Peer.Wire.{requested, disconnected}
use machine_fabric.Peer.Channel
use machine_fabric.Peer.Limits.{IsBounded}
use machine_fabric.Peer.Runs.{
  Call, closes, begins, expires, drains, run, run-IsBounded, closed_forever,
}

abbrev limits : Channel.PeerLimits
limits = record {
  max_frame_bytes = 1024;
  max_outbound_requests = 1;
  max_inbound_requests = 1;
  max_queued_frames = 1;
  handshake_timeout = 15000;
  request_timeout = 60000;
}

abbrev codec : Codec ℕ
codec = record {
  writes = λ r. (123 ∷ 125 ∷ []) ∷ [];
  parse = λ bytes. none;
  gzip = λ bytes. none;
  gunzip = λ limit bytes. none;
  base64 = λ bytes. "";
  unbase64 = λ text. none;
}

abbrev writes : Frame ℕ → List Bytes
writes frame = (123 ∷ 125 ∷ []) ∷ []

abbrev ready : Channel.State ℕ
ready = record {
  response_gzip = false;
  ready = true;
  remote_services = "execution" ∷ [];
  closed = none;
  pending = [];
  inbound = [];
  io_threads = 2;
  lease = none;
  outgoing = [];
  delivered = [];
  shut_down = false;
}

abbrev status : Request ℕ
status = record {
  api_version = "machine-fabric.dev/v1";
  request_id = "req_1";
  correlation_id = none;
  parent_request_id = none;
  action = "status";
  params = 0;
}

-- The second call finds the connection busy; then the stream breaks.
abbrev calls : List (Call ℕ)
calls =
    begins "a" "execution" status 1000 1 1
    ∷ begins "b" "execution" status 1000 2 2
    ∷ drains false 3 3
    ∷ expires "a" "req_1" 4 4
    ∷ []

ready-IsBounded : IsBounded limits ready
ready-IsBounded = record { waiting = omega arith; queued = omega arith; answered = λ h. refl }

run-IsBounded_example : IsBounded limits (run 0 codec writes limits Channel.scoped_v2 ready calls)
run-IsBounded_example =
    run-IsBounded 0 codec writes limits Channel.scoped_v2 ready calls ready-IsBounded

abbrev closed : Channel.State ℕ
closed = record ready { closed = some disconnected }

closed_forever_example :
    let t = run 0 codec writes limits Channel.scoped_v2 closed (closes requested ∷ calls) in
    (t.closed ≡ some disconnected)
    × (is_some (Channel.begin_call 0 codec writes limits t "c" "execution" status 1000 9 9).0
        ≡ true)
closed_forever_example =
    closed_forever 0 codec writes limits Channel.scoped_v2 closed (closes requested ∷ calls) "c"
      "execution" status 1000 9 9 refl

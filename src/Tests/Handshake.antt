-- ===== src/Tests/Handshake.antt =====
-- The handshake of two nodes under one lease.
use machine_fabric.Base.{
  String, List, nat_eq, if◌then◌else◌, Option, ◌≡◌, refl, Bool, true, false, none, some, [], ◌∷◌,
  ok, err, ◌==◌, eq_iff,
}
use machine_fabric.Peer.Grant
use machine_fabric.Peer.Grant.{byte_len}
use machine_fabric.Peer.Wire.{protocol_error, encode, read_frame}
use machine_fabric.Peer.Channel
use machine_fabric.Peer.Config.{PeerConfig, validate, validate_services, duplicate_service}
use machine_fabric.Peer.Handshake.{greeting, established, refuses}
use machine_fabric.Peer.Compression.{Bytes}
use machine_fabric.Peer.Frame.{Frame, hello, hello_ack}
use machine_fabric.Peer.Meeting.{Side, meet}
use machine_fabric.Peer.Meets.{Outcome, meet-Suits}

abbrev grant : Grant.State
grant = record { deadline = 600; expires_at_ms = 900; ended = none }

abbrev client : PeerConfig String
client = record {
  protocol = Channel.scoped_v2;
  local_id = "laptop";
  expected_peer_id = "server";
  services = "ui" ∷ [];
  required_peer_services = "execution" ∷ [];
  binding = some (record { lease_id = "lease_1"; scope = "{}" });
  lease = some ("lease_1", grant);
  limits = record {
    max_frame_bytes = 1024;
    max_outbound_requests = 1;
    max_inbound_requests = 1;
    max_queued_frames = 1;
    handshake_timeout = 15000;
    request_timeout = 60000;
  };
}

abbrev server : PeerConfig String
server = record client {
  local_id = "server";
  expected_peer_id = "laptop";
  services = "files" ∷ "execution" ∷ [];
  required_peer_services = "ui" ∷ [];
}

abbrev is_object : String → Bool
is_object text = true

abbrev same_text : String → String → Bool
same_text s t = s == t

abbrev fresh : Channel.State String
fresh = record {
  response_gzip = false;
  ready = false;
  remote_services = [];
  closed = none;
  pending = [];
  inbound = [];
  io_threads = 2;
  lease = some grant;
  outgoing = [];
  delivered = [];
  shut_down = false;
}

valid_client : validate is_object client 100 200 ≡ ok tt
unfolding validate Grant.ended byte_len
valid_client = refl

valid_server : validate is_object server 100 200 ≡ ok tt
unfolding validate Grant.ended byte_len
valid_server = refl

twice_refused : validate_services ("ui" ∷ "ui" ∷ []) ≡ err duplicate_service
unfolding validate_services byte_len
twice_refused = refl

abbrev hello_frame : Frame String
hello_frame = hello (greeting client true)

abbrev ack_frame : Frame String
ack_frame = hello_ack (greeting server true)

-- The bytes of the two greetings, and of no other frame.
abbrev writes : Frame String → List Bytes
writes (hello g) = (123 ∷ 72 ∷ []) ∷ (125 ∷ []) ∷ []
writes (hello_ack g) = (123 ∷ 65 ∷ []) ∷ (125 ∷ []) ∷ []
writes _ = []

abbrev parse : Bytes → Option (Frame String)
parse (opening ∷ kind ∷ rest) =
    if nat_eq kind 72 then some hello_frame else if nat_eq kind 65 then some ack_frame else none
parse _ = none

abbrev laptop : Side String
laptop = record { config = client; state = fresh; instant = 110; now = 210 }

abbrev host : Side String
host = record { config = server; state = fresh; instant = 120; now = 220 }

-- A client that expects another server.
unsuited :
    meet "null" writes parse same_text
      (record laptop { config = record client { expected_peer_id = "desk" } })
      host
    ≡ err protocol_error
unfolding meet refuses byte_len Grant.ended encode read_frame
unsuited = refl

abbrev met_states : Channel.State String × Channel.State String
met_states = (
  established (record fresh { outgoing = (123 ∷ 72 ∷ 125 ∷ 10 ∷ []) ∷ [] }) (greeting server true),
  established (record fresh { outgoing = (123 ∷ 65 ∷ 125 ∷ 10 ∷ []) ∷ [] }) (greeting client true),
)

met : meet "null" writes parse same_text laptop host ≡ ok met_states
unfolding meet refuses byte_len Grant.ended encode read_frame
met = refl

meet-Suits_example :
    Outcome "null" writes parse is_object same_text eq_iff laptop host
      (meet "null" writes parse same_text laptop host)
meet-Suits_example =
    meet-Suits "null" writes parse is_object same_text eq_iff laptop host 100 200 valid_client
      valid_server refl refl (refl, (refl, (refl, tt))) (refl, (refl, (refl, tt)))

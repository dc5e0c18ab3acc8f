-- ===== src/Tests/Lines.antt =====
-- Frames on a stream with a concrete serializer, whose bytes are not JSON but end no line.
use machine_fabric.Base.{
  ℕ, ◌+◌, ◌≤◌, ◌≡◌, refl, true, false, Option, some, List, [], ◌∷◌, ◌++◌, arith, length, ok, err,
}
use machine_fabric.Peer.Frame.{Frame, cancel}
use machine_fabric.Peer.Compression.{Bytes, concat}
use machine_fabric.Peer.Wire.{encode, read_frame, newline, protocol_error, disconnected}
use machine_fabric.Peer.Lines.{read_frame-encode, read_frame-bounded}

abbrev writes : Frame ℕ → List Bytes
writes frame = (123 ∷ 34 ∷ []) ∷ (34 ∷ 125 ∷ []) ∷ []

abbrev parse : Bytes → Option (Frame ℕ)
parse bytes = some (cancel "peer_request_1")

-- A line that is too long, and one that never ends.
too_long : (read_frame parse false (1 ∷ 2 ∷ 3 ∷ 4 ∷ []) 2).0 ≡ err protocol_error
unfolding read_frame
too_long = refl

nothing_left : (read_frame parse false [] 2).0 ≡ err disconnected
unfolding read_frame
nothing_left = refl

read_frame-encode_example :
    (encode writes (cancel "peer_request_1") 5
      ≡ some (concat (writes (cancel "peer_request_1")) ++ newline ∷ []))
    × (read_frame parse true (concat (writes (cancel "peer_request_1")) ++ newline ∷ 7 ∷ 8 ∷ []) 5
        ≡ (ok (cancel "peer_request_1"), 7 ∷ 8 ∷ []))
read_frame-encode_example =
    read_frame-encode writes parse (cancel "peer_request_1") 5 true (7 ∷ 8 ∷ []) refl
      (refl, (refl, (refl, (refl, tt)))) (omega arith)

read_frame-bounded_example :
    (taken : Bytes) × (taken ++ (read_frame parse false (1 ∷ 2 ∷ 3 ∷ 4 ∷ []) 2).1
      ≡ 1 ∷ 2 ∷ 3 ∷ 4 ∷ [])
    × (length taken ≤ 2 + 1)
read_frame-bounded_example = read_frame-bounded parse false (1 ∷ 2 ∷ 3 ∷ 4 ∷ []) 2

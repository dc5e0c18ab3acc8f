-- ===== src/Peer/Wire.antt =====
-- crates/machine-fabric-peer/src/connection.rs: frames on a stream, one line of JSON each. serde_json
-- is the parameters `writes` and `parse`. A reader is the bytes that are still to come and whether an
-- I/O error (`broken`) or the end of the stream follows them.
use machine_fabric.Base.{
  ℕ, zero, suc, ◌-◌, Bool, true, false, ◌&&◌, ◌||◌, not, Option, none, some, List, [], ◌∷◌, ◌++◌,
  length, ltb, nat_eq, if◌then◌else◌, Result, ok, err,
}
use machine_fabric.Peer.Frame.{Frame}
use machine_fabric.Peer.Compression.{Bytes}

pub data CloseReason : Type 0 where
  requested lease_expired lease_revoked disconnected protocol_error : CloseReason
  handshake_timeout backpressure drain_incomplete : CloseReason

-- `BoundedBytes`: the bytes written so far, none after a write that does not fit.
unfoldable pub write_bounded : ℕ → Bytes → Bytes → Option Bytes
write_bounded maximum bytes new =
    if ltb (maximum - length bytes) (length new) then none else some (bytes ++ new)

unfoldable pub write_all : ℕ → Bytes → List Bytes → Option Bytes
unfolding write_bounded
write_all maximum bytes [] = some bytes
write_all maximum bytes (new ∷ rest) = elim (write_bounded maximum bytes new) [
  | none ↦ none
  | some bytes' ↦ write_all maximum bytes' rest
]

abbrev pub newline : ℕ
newline = 10

-- `writer.bytes.push(b'\n')`.
abbrev pub with_newline : Option Bytes → Option Bytes
with_newline none = none
with_newline (some bytes) = some (bytes ++ newline ∷ [])

-- `encode`, where a limit is at least 1.
unfoldable pub encode :
    {Value : Type 0} → (Frame Value → List Bytes) → Frame Value → ℕ → Option Bytes
unfolding write_all
encode writes frame maximum = with_newline (write_all (maximum - 1) [] (writes frame))

pub record Reading : Type 0 where
  pub bytes : Bytes
  pub starved : Bool
  pub rest : Bytes

abbrev pub also : ℕ → Reading → Reading
also byte reading = record reading { bytes = byte ∷ reading.bytes }

-- `take(limit).read_until(b'\n')`: the bytes read, and whether the reader ran dry before.
unfoldable pub read_until : ℕ → Bytes → Reading
read_until zero stream = record { bytes = []; starved = false; rest = stream }
read_until (suc limit) [] = record { bytes = []; starved = true; rest = [] }
read_until (suc limit) (byte ∷ stream) =
    let more = read_until limit stream in
    if nat_eq byte newline
    then record { bytes = byte ∷ []; starved = false; rest = stream }
    else also byte more

unfoldable pub ends_line : Bytes → Bool
ends_line [] = false
ends_line (byte ∷ []) = nat_eq byte newline
ends_line (byte ∷ next ∷ bytes) = ends_line (next ∷ bytes)

abbrev pub from_parse {ℓ} : {A : Type ℓ} → Option A → Result CloseReason A
from_parse none = err protocol_error
from_parse (some frame) = ok frame

unfoldable pub read_frame :
    {Value : Type 0}
    → (Bytes → Option (Frame Value))
    → Bool
    → Bytes
    → ℕ
    → Result CloseReason (Frame Value) × Bytes
unfolding read_until ends_line
read_frame parse broken stream maximum =
    let reading = read_until (suc maximum) stream in
    if reading.starved && broken
    then (err disconnected, reading.rest)
    else if nat_eq (length reading.bytes) 0
    then (err disconnected, reading.rest)
    else if ltb maximum (length reading.bytes) || not (ends_line reading.bytes)
    then (err protocol_error, reading.rest)
    else (from_parse (parse reading.bytes), reading.rest)

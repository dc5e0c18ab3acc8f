-- ===== src/Peer/Compression.antt =====
-- crates/machine-fabric-peer/src/compression.rs: responses compressed by gzip. The JSON, gzip and
-- base64 libraries are the parameter `Codec`, and a byte is a number.
use machine_fabric.Base.{
  ℕ, ◌+◌, ◌*◌, ◌/◌, String, Bool, ◌&&◌, ◌||◌, not, Option, none, some, List, [], ◌∷◌, ◌++◌, length,
  ltb, leb, nat_eq, if◌then◌else◌, Result, ok, err,
}
use machine_fabric.Protocol.{Response}
use machine_fabric.Peer.Frame.{Frame, response, response_gzip}
use machine_fabric.Peer.Grant.{byte_len}

abbrev pub Bytes : Type 0
Bytes = List ℕ

-- What the code calls of serde_json, flate2 and base64.
pub record Codec (Value : Type 0) : Type 0 where
  -- The writes that `serde_json::to_writer` makes.
  pub writes : Response Value → List Bytes
  pub parse : Bytes → Option (Response Value)
  -- `GzEncoder`, from the bytes written to those that `finish` gives.
  pub gzip : Bytes → Option Bytes
  -- `GzDecoder`, read to the end or to a number of bytes.
  pub gunzip : ℕ → Bytes → Option Bytes
  pub base64 : Bytes → String
  pub unbase64 : String → Option Bytes

pub data DecodeError : Type 0 where
  invalid_frame bad_base64 bad_gzip length_mismatch bad_json error_response : DecodeError

abbrev pub max_gzip_response : ℕ
max_gzip_response = 33554432

abbrev pub min_gzip_response : ℕ
min_gzip_response = 65536

abbrev pub usize_max : ℕ
usize_max = 18446744073709551615

-- `div_ceil(3)`.
abbrev pub thirds : ℕ → ℕ
thirds n = (n + 2) / 3

abbrev pub concat : List Bytes → Bytes
concat [] = []
concat (bytes ∷ rest) = bytes ++ concat rest

-- `ResponseSize::write`: the count after the write, none when it is over the budget.
unfoldable pub size_write : ℕ → Bytes → Option ℕ
size_write n bytes =
    let m = n + length bytes in if leb m usize_max && leb m max_gzip_response then some m else none

unfoldable pub size_writes : ℕ → List Bytes → Option ℕ
unfolding size_write
size_writes n [] = some n
size_writes n (bytes ∷ rest) = elim (size_write n bytes) [
  | none ↦ none
  | some m ↦ size_writes m rest
]

-- The checks on a compressed frame before anything is decoded.
unfoldable pub refused : Bool → ℕ → ℕ → String → Bool
unfolding byte_len
refused negotiated maximum expanded_bytes payload =
    not negotiated
    || ltb maximum expanded_bytes
    || not (leb min_gzip_response expanded_bytes && leb expanded_bytes max_gzip_response)
    || ltb (thirds max_gzip_response * 4) (byte_len payload)

module _ {Value : Type 0} (codec : Codec Value) where
  -- The frame for a response of `size` bytes, from what gzip made of it.
  unfoldable pub with_gzip : String → Response Value → ℕ → Option Bytes → Frame Value
  with_gzip id r size none = response id r
  with_gzip id r size (some bytes) =
      if ltb (thirds (length bytes) * 4 + 256) size
      then response_gzip id size (codec.base64 bytes)
      else response id r

  -- The frame for a response that may be compressed, from the count of its bytes.
  unfoldable pub with_size : String → Response Value → Option ℕ → Frame Value
  unfolding with_gzip
  with_size id r none = response id r
  with_size id r (some size) =
      if leb min_gzip_response size
      then with_gzip id r size (codec.gzip (concat (codec.writes r)))
      else response id r

  unfoldable pub encode_response_frame : String → Response Value → Bool → Frame Value
  unfolding size_writes with_size
  encode_response_frame id r negotiated =
      if negotiated && r.ok then with_size id r (size_writes 0 (codec.writes r)) else response id r

  abbrev pub from_bytes : String → Option (Response Value) → Result DecodeError (Frame Value)
  from_bytes id none = err bad_json
  from_bytes id (some r) = if not r.ok then err error_response else ok (response id r)

  abbrev pub from_gzip : String → ℕ → Option Bytes → Result DecodeError (Frame Value)
  from_gzip id expanded_bytes none = err bad_gzip
  from_gzip id expanded_bytes (some bytes) =
      if not (nat_eq (length bytes) expanded_bytes)
      then err length_mismatch
      else from_bytes id (codec.parse bytes)

  abbrev pub from_base64 : String → ℕ → Option Bytes → Result DecodeError (Frame Value)
  from_base64 id expanded_bytes none = err bad_base64
  from_base64 id expanded_bytes (some compressed) =
      from_gzip id expanded_bytes (codec.gunzip (expanded_bytes + 1) compressed)

  unfoldable pub decode_response_frame : Frame Value → Bool → ℕ → Result DecodeError (Frame Value)
  unfolding refused
  decode_response_frame (response_gzip id expanded_bytes payload) negotiated maximum =
      if refused negotiated maximum expanded_bytes payload
      then err invalid_frame
      else from_base64 id expanded_bytes (codec.unbase64 payload)
  decode_response_frame frame negotiated maximum = ok frame

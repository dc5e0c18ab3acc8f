-- ===== src/Peer/Gzip.antt =====
-- crates/machine-fabric-peer/src/compression.rs: a compressed response is what it was, and a
-- compressed frame is accepted within bounds only.
use machine_fabric.Base.{
  ℕ, zero, suc, ◌+◌, ◌*◌, ◌≤◌, ◌<◌, String, ◌≡◌, refl, ap, Bool, true, false, ◌⊎◌, inl, inr, Option,
  none, some, List, [], ◌∷◌, arith, length, length-append, take, leb, if◌then◌else◌, ok,
}
use machine_fabric.Protocol.{Response}
use machine_fabric.Peer.Frame.{Frame, response, response_gzip}
use machine_fabric.Peer.Grant.{byte_len}
use machine_fabric.Peer.Compression.{
  Bytes, Codec, max_gzip_response, min_gzip_response, thirds, concat, size_write, size_writes,
  with_gzip, with_size, encode_response_frame, refused, from_bytes, from_gzip, from_base64,
  decode_response_frame,
}

-- What the libraries promise of one response: its JSON is read back, what gzip makes of it is read
-- back to any limit, and base64 of that is read back too and has four characters for three bytes.
pub record IsReadBack {Value : Type 0} (codec : Codec Value) (r : Response Value) : Type 0 where
  pub json : codec.parse (concat (codec.writes r)) ≡ some r
  pub gzipped :
      (z : Bytes) (limit : ℕ)
      → codec.gzip (concat (codec.writes r)) ≡ some z
      → codec.gunzip limit z ≡ some (take limit (concat (codec.writes r)))
  pub texted :
      (z : Bytes)
      → codec.gzip (concat (codec.writes r)) ≡ some z
      → codec.unbase64 (codec.base64 z) ≡ some z
  pub sized :
      (z : Bytes)
      → codec.gzip (concat (codec.writes r)) ≡ some z
      → byte_len (codec.base64 z) ≡ thirds (length z) * 4

take-all {ℓ} : {A : Type ℓ} (xs : List A) (n : ℕ) → length xs ≤ n → take n xs ≡ xs
take-all [] zero h = refl
take-all [] (suc n) h = refl
take-all (x ∷ xs) zero h = absurd (omega (arith, h))
take-all (x ∷ xs) (suc n) h = ap (λ ys. x ∷ ys) (take-all xs n (omega (arith, h)))

-- The count of `ResponseSize` is the number of bytes written, and within the budget.
size_writes-some :
    (n : ℕ) (writes : List Bytes) (size : ℕ)
    → n ≤ max_gzip_response
    → size_writes n writes ≡ some size
    → (size ≡ n + length (concat writes)) × (size ≤ max_gzip_response)
unfolding size_writes size_write
size_writes-some n [] size b h = ground (arith, h)
size_writes-some n (bytes ∷ rest) size b h =
    ground
      (arith, h, length-append bytes (concat rest), size_writes-some (n + length bytes) rest size)

unrefused :
    (negotiated : Bool) (maximum size : ℕ) (payload : String)
    → negotiated ≡ true
    → size ≤ maximum
    → min_gzip_response ≤ size
    → size ≤ max_gzip_response
    → byte_len payload ≤ thirds max_gzip_response * 4
    → refused negotiated maximum size payload ≡ false
unfolding refused
unrefused negotiated maximum size payload a m l u p = ground arith

refused-bounds :
    (negotiated : Bool) (maximum size : ℕ) (payload : String)
    → refused negotiated maximum size payload ≡ false
    → (negotiated ≡ true)
      × (size ≤ maximum)
      × (min_gzip_response ≤ size)
      × (size ≤ max_gzip_response)
      × (byte_len payload ≤ 44739244)
unfolding refused
refused-bounds negotiated maximum size payload h = ground arith

module _ {Value : Type 0} (codec : Codec Value) where
  -- When a response is compressed: the other side agreed, it is a success within the bounds, and the
  -- frame is smaller.
  pub record Compressed (r : Response Value) (negotiated : Bool) (z : Bytes) : Type 0 where
    pub agreed : negotiated ≡ true
    pub succeeded : r.ok ≡ true
    pub zipped : codec.gzip (concat (codec.writes r)) ≡ some z
    pub least : min_gzip_response ≤ length (concat (codec.writes r))
    pub most : length (concat (codec.writes r)) ≤ max_gzip_response
    pub smaller : thirds (length z) * 4 + 256 < length (concat (codec.writes r))

  abbrev pub Encoded : String → Response Value → Bool → Frame Value → Type 0
  Encoded id r negotiated frame =
      (frame ≡ response id r)
      ⊎ ((z : Bytes) × (frame
            ≡ response_gzip id (length (concat (codec.writes r))) (codec.base64 z))
          × Compressed r negotiated z)

  when-Encoded :
      (id : String) (r : Response Value) (negotiated : Bool) (frame : Frame Value) (b : Bool)
      → (b ≡ true → Encoded id r negotiated frame)
      → Encoded id r negotiated (if b then frame else response id r)
  when-Encoded id r negotiated frame true h = h refl
  when-Encoded id r negotiated frame false h = inl refl

  with_gzip-Encoded :
      (id : String) (r : Response Value) (size : ℕ) (o : Option Bytes)
      → codec.gzip (concat (codec.writes r)) ≡ o
      → r.ok ≡ true
      → size ≡ length (concat (codec.writes r))
      → min_gzip_response ≤ size
      → size ≤ max_gzip_response
      → Encoded id r true (with_gzip codec id r size o)
  unfolding with_gzip
  with_gzip-Encoded id r size none g o e l m = inl refl
  with_gzip-Encoded id r size (some z) g o e l m = ground arith

  with_size-Encoded :
      (id : String) (r : Response Value) (o : Option ℕ)
      → size_writes 0 (codec.writes r) ≡ o
      → r.ok ≡ true
      → Encoded id r true (with_size codec id r o)
  unfolding with_size
  with_size-Encoded id r none s o = inl refl
  with_size-Encoded id r (some size) s o =
      let b = size_writes-some 0 (codec.writes r) size (omega arith) s in
      when-Encoded id r true (with_gzip codec id r size (codec.gzip (concat (codec.writes r))))
        (leb min_gzip_response size)
        (λ p.
          with_gzip-Encoded id r size (codec.gzip (concat (codec.writes r))) refl o
            (omega (arith, b.0)) (ground (arith, p)) b.1)

  -- Each response is sent as it is, or compressed under these conditions.
  pub encode-Encoded :
      (id : String) (r : Response Value) (negotiated : Bool)
      → Encoded id r negotiated (encode_response_frame codec id r negotiated)
  unfolding encode_response_frame
  encode-Encoded id r false = inl refl
  encode-Encoded id r true =
      when-Encoded id r true (with_size codec id r (size_writes 0 (codec.writes r))) r.ok
        (λ p. with_size-Encoded id r (size_writes 0 (codec.writes r)) refl p)

  pub decode-Compressed :
      (id : String) (r : Response Value) (negotiated : Bool) (maximum : ℕ) (z : Bytes)
      → IsReadBack codec r
      → length (concat (codec.writes r)) ≤ maximum
      → Compressed r negotiated z
      → decode_response_frame codec
          (response_gzip id (length (concat (codec.writes r))) (codec.base64 z))
          negotiated
          maximum
        ≡ ok (response id r)
  unfolding decode_response_frame
  decode-Compressed id r negotiated maximum z back m c =
      let size = length (concat (codec.writes r)) in
      let admitted : refused negotiated maximum size (codec.base64 z) ≡ false =
        unrefused negotiated maximum size (codec.base64 z) c.agreed m c.least c.most
          (omega (arith, back.sized z c.zipped, c.smaller, c.most)) in
      rw
        (
          admitted,
          back.texted z c.zipped,
          back.gzipped z (size + 1) c.zipped,
          take-all (concat (codec.writes r)) (size + 1) (omega arith),
        )
        (ground (arith, back.json, c.succeeded))

  -- The two sides of a channel that agree on compression: the receiver gets the response that was
  -- sent, compressed or not, if its frame limit is not below the size of the response.
  pub decode-encode :
      (id : String) (r : Response Value) (negotiated : Bool) (maximum : ℕ)
      → IsReadBack codec r
      → length (concat (codec.writes r)) ≤ maximum
      → decode_response_frame codec (encode_response_frame codec id r negotiated) negotiated maximum
        ≡ ok (response id r)
  unfolding decode_response_frame
  decode-encode id r negotiated maximum back m = elim (encode-Encoded id r negotiated) [
    | inl p ↦ rw p refl
    | inr (z, p, c) ↦ rw p (decode-Compressed id r negotiated maximum z back m c)
  ]

  -- What a compressed frame that is accepted holds.
  pub record Accepted (id : String) (expanded_bytes maximum : ℕ) (payload : String)
      (frame : Frame Value) : Type 0 where
    pub within : expanded_bytes ≤ maximum
    pub least : 65536 ≤ expanded_bytes
    pub most : expanded_bytes ≤ 33554432
    pub short : byte_len payload ≤ 44739244
    pub bytes : Bytes
    pub exact : length bytes ≡ expanded_bytes
    pub answer : Response Value
    pub parsed : codec.parse bytes ≡ some answer
    pub succeeded : answer.ok ≡ true
    pub same : frame ≡ response id answer

  from_bytes-ok :
      (id : String) (o : Option (Response Value)) (frame : Frame Value)
      → from_bytes codec id o ≡ ok frame
      → (r : Response Value) × (o ≡ some r) × (r.ok ≡ true) × (frame ≡ response id r)
  from_bytes-ok id none frame h = absurd (cc h)
  from_bytes-ok id (some r) frame h = ground arith

  from_gzip-ok :
      (id : String) (n : ℕ) (o : Option Bytes) (frame : Frame Value)
      → from_gzip codec id n o ≡ ok frame
      → (bytes : Bytes) × (length bytes ≡ n) × (from_bytes codec id (codec.parse bytes) ≡ ok frame)
  from_gzip-ok id n none frame h = absurd (cc h)
  from_gzip-ok id n (some bytes) frame h = (bytes, ground arith, ground arith)

  from_base64-ok :
      (id : String) (n : ℕ) (o : Option Bytes) (frame : Frame Value)
      → from_base64 codec id n o ≡ ok frame
      → (z : Bytes) × (from_gzip codec id n (codec.gunzip (n + 1) z) ≡ ok frame)
  from_base64-ok id n none frame h = absurd (cc h)
  from_base64-ok id n (some z) frame h = (z, h)

  admitted-ok :
      (id : String) (n : ℕ) (payload : String) (negotiated : Bool) (maximum : ℕ)
      (frame : Frame Value)
      → decode_response_frame codec (response_gzip id n payload) negotiated maximum ≡ ok frame
      → (refused negotiated maximum n payload ≡ false)
        × (from_base64 codec id n (codec.unbase64 payload) ≡ ok frame)
  unfolding decode_response_frame
  admitted-ok id n payload negotiated maximum frame h = ground arith

  -- A compressed frame that is accepted was negotiated and names a size within the limit of frames and
  -- the bounds of compression, 65536 to 33554432 bytes; its payload is at most the 44739244 bytes that
  -- base64 needs for the largest; it expanded to exactly that size, to the JSON of a success with the
  -- frame's id, which is the frame that comes out.
  pub decode_gzip-Accepted :
      (id : String) (expanded_bytes : ℕ) (payload : String) (negotiated : Bool) (maximum : ℕ)
      (frame : Frame Value)
      → decode_response_frame codec (response_gzip id expanded_bytes payload) negotiated maximum
        ≡ ok frame
      → (negotiated ≡ true) × Accepted id expanded_bytes maximum payload frame
  unfolding decode_response_frame
  decode_gzip-Accepted id n payload negotiated maximum frame h =
      let inner = admitted-ok id n payload negotiated maximum frame h in
      let (z, unzipped) = from_base64-ok id n (codec.unbase64 payload) frame inner.1 in
      let (bytes, exact, parsing) = from_gzip-ok id n (codec.gunzip (n + 1) z) frame unzipped in
      let (answer, parsed, succeeded, same) = from_bytes-ok id (codec.parse bytes) frame parsing in
      let bounds = refused-bounds negotiated maximum n payload inner.0 in
      (
        bounds.0,
        record {
          within = bounds.1;
          least = bounds.2;
          most = bounds.3;
          short = bounds.4;
          bytes = bytes;
          exact = exact;
          answer = answer;
          parsed = parsed;
          succeeded = succeeded;
          same = same;
        },
      )

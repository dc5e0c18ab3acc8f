-- ===== src/Tests/Gzip.antt =====
-- Compression with a concrete codec, for a response of 70000 bytes.
use machine_fabric.Base.{
  ℕ, zero, suc, ◌≡◌, refl, true, none, some, [], ◌∷◌, ◌++◌, arith, length, length-append, take, ok,
}
use machine_fabric.Protocol.{Response}
use machine_fabric.Peer.Frame.{response, response_gzip}
use machine_fabric.Peer.Grant.{byte_len}
use machine_fabric.Peer.Compression.{
  Bytes, Codec, concat, encode_response_frame, decode_response_frame,
}
use machine_fabric.Peer.Gzip.{
  IsReadBack, Accepted, decode-encode, decode-Compressed, decode_gzip-Accepted,
}

replicate : ℕ → ℕ → Bytes
replicate zero b = []
replicate (suc n) b = b ∷ replicate n b

length-replicate : (n b : ℕ) → length (replicate n b) ≡ n
unfolding replicate
length-replicate zero b = refl
length-replicate (suc n) b = omega (arith, length-replicate n b)

abbrev answer : Response ℕ
answer = record {
  ok = true;
  api_version = "machine-fabric.dev/v1";
  request_id = "req_1";
  result = some 7;
  error = none;
}

abbrev codec : Codec ℕ
codec = record {
  writes = λ r. replicate 70000 120 ∷ [];
  parse = λ bytes. some answer;
  gzip = λ bytes. some (1 ∷ 2 ∷ []);
  gunzip = λ limit z. some (take limit (replicate 70000 120 ++ []));
  base64 = λ z. "AQI=";
  unbase64 = λ text. some (1 ∷ 2 ∷ []);
}

size : length (concat (codec.writes answer)) ≡ 70000
size = omega (arith, length-append (replicate 70000 120) [], length-replicate 70000 120)

read_back : IsReadBack codec answer
unfolding byte_len
read_back = record {
  json = refl;
  gzipped = λ z limit h. refl;
  texted = λ z h. h;
  sized = λ z h. let same : z ≡ 1 ∷ 2 ∷ [] = cc in rw same refl;
}

decode-encode_example :
    decode_response_frame codec (encode_response_frame codec "id" answer true) true 8388608
    ≡ ok (response "id" answer)
decode-encode_example = decode-encode codec "id" answer true 8388608 read_back (omega (arith, size))

received :
    decode_response_frame codec
      (response_gzip "id" (length (concat (codec.writes answer))) "AQI=")
      true
      8388608
    ≡ ok (response "id" answer)
received =
    decode-Compressed codec "id" answer true 8388608 (1 ∷ 2 ∷ []) read_back (omega (arith, size))
      (record {
        agreed = refl;
        succeeded = refl;
        zipped = refl;
        least = omega (arith, size);
        most = omega (arith, size);
        smaller = omega (arith, size);
      })

decode_gzip-Accepted_example :
    (true ≡ true)
    × Accepted codec "id"
        (length (concat (codec.writes answer)))
        8388608
        "AQI="
        (response "id" answer)
decode_gzip-Accepted_example =
    decode_gzip-Accepted codec "id" (length (concat (codec.writes answer))) "AQI=" true 8388608
      (response "id" answer) received

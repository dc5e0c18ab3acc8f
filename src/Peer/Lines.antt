-- ===== src/Peer/Lines.antt =====
-- crates/machine-fabric-peer/src/connection.rs: what `encode` writes, `read_frame` reads back; both
-- keep the limit of a frame.
use machine_fabric.Base.{
  ℕ, zero, suc, ◌+◌, ◌-◌, ◌≤◌, ◌≡◌, refl, ap, Bool, true, false, Option, none, some, List, [], ◌∷◌,
  ◌++◌, arith, length, length-append, All, leb, nat_eq, if◌then◌else◌, ok, ◌<◌,
}
use machine_fabric.Peer.Frame.{Frame}
use machine_fabric.Peer.Compression.{Bytes, concat}
use machine_fabric.Peer.Wire.{
  newline, encode, read_frame, read_until, ends_line, write_all, write_bounded,
}

append-nil {ℓ} : {A : Type ℓ} (xs : List A) → xs ++ [] ≡ xs
append-nil [] = refl
append-nil (x ∷ xs) = ap (λ ys. x ∷ ys) (append-nil xs)

append_assoc {ℓ} : {A : Type ℓ} (xs ys zs : List A) → (xs ++ ys) ++ zs ≡ xs ++ (ys ++ zs)
append_assoc [] ys zs = refl
append_assoc (x ∷ xs) ys zs = ap (λ ws. x ∷ ws) (append_assoc xs ys zs)

-- All that is written fits, or nothing is returned.
write_all-eq :
    (maximum : ℕ) (bytes : Bytes) (writes : List Bytes)
    → length bytes ≤ maximum
    → write_all maximum bytes writes ≡ (
        if leb (length bytes + length (concat writes)) maximum
        then some (bytes ++ concat writes)
        else none)
unfolding write_all write_bounded
write_all-eq maximum bytes [] h = ground (arith, append-nil bytes, h)
write_all-eq maximum bytes (new ∷ rest) h = ground (
  arith,
  h,
  length-append bytes new,
  length-append new (concat rest),
  append_assoc bytes new (concat rest),
  write_all-eq maximum (bytes ++ new) rest,
)

-- `encode` gives the JSON of the frame and a newline exactly when both fit in the limit.
pub encode-eq :
    {Value : Type 0} (writes : Frame Value → List Bytes) (frame : Frame Value) (maximum : ℕ)
    → 1 ≤ maximum
    → encode writes frame maximum ≡ (
        if leb (length (concat (writes frame)) + 1) maximum
        then some (concat (writes frame) ++ newline ∷ [])
        else none)
unfolding encode
encode-eq writes frame maximum h =
    rw (write_all-eq (maximum - 1) [] (writes frame) (omega arith)) (ground (arith, h))

-- No byte of the JSON of a frame is a newline.
abbrev pub IsLine : Bytes → Type 0
IsLine = All (λ byte. nat_eq byte newline ≡ false)

read_until-line :
    (line stream : Bytes) (limit : ℕ)
    → IsLine line
    → length line < limit
    → read_until limit (line ++ newline ∷ stream)
      ≡ record { bytes = line ++ newline ∷ []; starved = false; rest = stream }
unfolding read_until
read_until-line [] stream zero h b = absurd (omega (arith, b))
read_until-line [] stream (suc limit) h b = refl
read_until-line (x ∷ line) stream zero h b = absurd (omega (arith, b))
read_until-line (x ∷ line) stream (suc limit) h b =
    rw (h.0, read_until-line line stream limit h.1 (omega (arith, b))) refl

ends_line-line : (line : Bytes) → ends_line (line ++ newline ∷ []) ≡ true
unfolding ends_line
ends_line-line [] = refl
ends_line-line (x ∷ []) = refl
ends_line-line (x ∷ y ∷ line) = ends_line-line (y ∷ line)

-- The bytes of a frame that fits the limit, put before any others on a stream, are read back as that
-- frame, and the others are left: no frame takes a byte of the next.
pub read_frame-encode :
    {Value : Type 0} (writes : Frame Value → List Bytes) (parse : Bytes → Option (Frame Value))
    (frame : Frame Value) (maximum : ℕ) (broken : Bool) (stream : Bytes)
    → parse (concat (writes frame) ++ newline ∷ []) ≡ some frame
    → IsLine (concat (writes frame))
    → length (concat (writes frame)) < maximum
    → (encode writes frame maximum ≡ some (concat (writes frame) ++ newline ∷ []))
      × (read_frame parse broken (concat (writes frame) ++ newline ∷ stream) maximum
          ≡ (ok frame, stream))
unfolding read_frame
read_frame-encode writes parse frame maximum broken stream p l b = (
  rw (encode-eq writes frame maximum (omega (arith, b))) (ground (arith, b)),
  rw
      (
        read_until-line (concat (writes frame)) stream (suc maximum) l (omega (arith, b)),
        ends_line-line (concat (writes frame)),
        p,
      )
      (ground (arith, b, length-append (concat (writes frame)) (newline ∷ []))),
)

read_until-split :
    (limit : ℕ) (stream : Bytes)
    → ((read_until limit stream).bytes ++ (read_until limit stream).rest ≡ stream)
      × (length (read_until limit stream).bytes ≤ limit)
unfolding read_until
read_until-split zero stream = (refl, omega arith)
read_until-split (suc limit) [] = (refl, omega arith)
read_until-split (suc limit) (x ∷ stream) =
    let more = read_until-split limit stream in ground (arith, more)

-- Whatever a stream holds, `read_frame` takes its bytes from the front, at most one more than the
-- limit, and leaves the others.
pub read_frame-bounded :
    {Value : Type 0} (parse : Bytes → Option (Frame Value)) (broken : Bool) (stream : Bytes)
    (maximum : ℕ)
    → (taken : Bytes) × (taken ++ (read_frame parse broken stream maximum).1 ≡ stream)
      × (length taken ≤ maximum + 1)
unfolding read_frame
read_frame-bounded parse broken stream maximum =
    let split = read_until-split (suc maximum) stream in
    ((read_until (suc maximum) stream).bytes, ground (arith, split), omega (arith, split.1))

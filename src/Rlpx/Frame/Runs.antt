-- ===== src/Rlpx/Frame/Runs.antt =====
-- Runs of the frames, over a cipher that flips the low bit and a hash that pads its front.
use raidan_sdk.Prelude.{
  ℕ, zero, suc, ◌+◌, ◌-◌, ◌%◌, Option, none, some, List, [], ◌∷◌, ◌++◌, Bytes, All, length, map,
  take, replicate, length-append, length-take, ◌==◌, if◌then◌else◌, min, ◌≡◌, refl, ap, arith,
}
use raidan_sdk.Rlpx.Frame.{
  Ciphers, FrameWriter, Sent, header_too_large, seal_frame, write_frame, write_message,
  frame_header, put_uint24, padded, padding, compute, header_mac, frame_mac, xor_bytes,
}
use raidan_sdk.Rlpx.Frame.Format.{Sound, Frame}
use raidan_sdk.Rlpx.Frame.RoundTrip.{zero_filled}
use raidan_sdk.Rlpx.Frame.Writing.{
  Takes, write_frames, wire_of, read_frames, read_frames-write_frames,
}

abbrev flip_byte : ℕ → ℕ
flip_byte b = if b % 2 == 0 then b + 1 else b - 1

abbrev flip : Bytes → Bytes
flip [] = []
flip (b ∷ bs) = flip_byte b ∷ flip bs

flip_twice : (bs : Bytes) → flip (flip bs) ≡ bs
flip_twice [] = refl
flip_twice (b ∷ bs) = rw (flip_twice bs, twice b) refl
  where
    twice : (b : ℕ) → flip_byte (flip_byte b) ≡ b
    twice b = ground arith

length-flip : (bs : Bytes) → length (flip bs) ≡ length bs
length-flip [] = refl
length-flip (b ∷ bs) = ap suc (length-flip bs)

abbrev toy_sum : Bytes → Bytes
toy_sum bs = take 32 (bs ++ replicate 32 7)

length-toy_sum : (bs : Bytes) → length (toy_sum bs) ≡ 32
length-toy_sum bs =
    omega (arith, length-take 32 (bs ++ replicate 32 7), length-append bs (replicate 32 7))

take_twice : (n : ℕ) (bs : Bytes) → take n (take n bs) ≡ take n bs
take_twice zero bs = refl
take_twice (suc n) [] = refl
take_twice (suc n) (b ∷ bs) = ap (λ (l : Bytes). b ∷ l) (take_twice n bs)

abbrev ciphers : Ciphers
ciphers = record { xor_key_stream = λ p bs. flip bs; encrypt = λ bs. take 16 bs; sum = toy_sum }

ciphers-Sound : Sound ciphers
ciphers-Sound = (
  λ p bs. length-flip bs,
  λ p bs. flip_twice bs,
  λ bs. length-toy_sum bs,
  λ bs h. omega (arith, length-take 16 bs),
  λ bs h. take_twice 16 bs,
)

-- A socket that takes up to 20 bytes of each write.
abbrev slow : Bytes → ℕ × Option ℕ
slow out = (min 20 (length out), none)

slow-Takes : Takes slow
slow-Takes b out = (min 20 (length (b ∷ out)), refl, omega arith, omega arith)

abbrev start : FrameWriter
start = record { position = 0; hash = 1 ∷ [] }

abbrev frames : List Frame
frames = (0xc2 ∷ 0x80 ∷ 0x80 ∷ [], 5 ∷ 6 ∷ []) ∷ ([], replicate 17 9) ∷ []

-- A header of 14 bytes is refused, and nothing is written.
refused_header :
    write_frame ciphers slow start (replicate 14 0) []
    ≡ (record { error = some (header_too_large 14); wire = [] }, start)
unfolding write_frame
refused_header = refl

-- A frame of one block is 64 bytes long.
one_block : length (seal_frame ciphers start [] (5 ∷ [])).0 ≡ 64
unfolding seal_frame frame_header put_uint24 padded padding compute header_mac frame_mac xor_bytes
one_block = refl

-- A code of one byte in front of a payload that stays as it is.
message : (write_message ciphers slow (λ code. code ∷ []) (λ p. p) start 1 (8 ∷ 9 ∷ [])).1 ≡ 2
unfolding write_message
message = refl

read_frames-write_frames_example :
    All (λ (s : Sent ℕ). s.error ≡ none) (write_frames ciphers slow start frames).0
    × (read_frames ciphers 2 start (wire_of (write_frames ciphers slow start frames).0 ++ (3 ∷ []))
        ≡ some (map zero_filled frames, ((write_frames ciphers slow start frames).1, 3 ∷ [])))
read_frames-write_frames_example =
    read_frames-write_frames ciphers slow start frames (3 ∷ []) ciphers-Sound slow-Takes
      ((omega arith, omega arith), ((omega arith, omega arith), tt))

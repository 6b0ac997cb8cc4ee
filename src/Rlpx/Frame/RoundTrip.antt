-- ===== src/Rlpx/Frame/RoundTrip.antt =====
-- A reader written from the frame format gives back what was sealed.
use raidan_sdk.Prelude.{
  ℕ, zero, suc, [], bit_xor, ◌+◌, ◌-◌, ◌≤◌, some, ◌∷◌, ◌++◌, Bytes, length, take, drop, replicate,
  length-append, length-take, length-replicate, take-append, take-append_eq, drop-append_eq,
  append_assoc, bytes_eq_refl, ◌≡◌, refl, sym, ap, ◌∙◌, arith,
}
use raidan_sdk.Rlpx.Frame.{
  Ciphers, FrameWriter, max_frame_size, put_uint24, frame_header, padding, padded, compute,
  header_mac, frame_mac, seal_frame, xor_bytes,
}
use raidan_sdk.Rlpx.Frame.Format.{
  Sound, Frame, frame_size, body_size, xor_block, front_digest, mixed, behind_header, behind_body,
  read_body, read_frame,
}

length-frame_header : (h p : Bytes) → length h ≤ 13 → length (frame_header h p) ≡ 16
unfolding frame_header put_uint24
length-frame_header h p small = omega (
  arith,
  length-append h (replicate (13 - length h) 0),
  length-replicate {A = ℕ} (13 - length h) 0,
)

frame_size-frame_header :
    (h p : Bytes) → length p ≤ max_frame_size → frame_size (frame_header h p) ≡ length p
unfolding frame_header put_uint24
frame_size-frame_header h p small = omega arith

drop-frame_header : (h p : Bytes) → drop 3 (frame_header h p) ≡ h ++ replicate (13 - length h) 0
unfolding frame_header put_uint24
drop-frame_header h p = refl

length-padded : (p : Bytes) → length (padded p) ≡ length p + padding (length p)
unfolding padded
length-padded p = omega (
  arith,
  length-append p (replicate (padding (length p)) 0),
  length-replicate {A = ℕ} (padding (length p)) 0,
)

take-padded : (p : Bytes) → take (length p) (padded p) ≡ p
unfolding padded
take-padded p = take-append p (replicate (padding (length p)) 0)

-- The XOR of two whole blocks.
xor_block-xor_bytes :
    (n : ℕ) (a b : Bytes) → length a ≡ n → length b ≡ n → xor_block n a b ≡ xor_bytes a b
unfolding xor_bytes
xor_block-xor_bytes zero [] b h k = refl
xor_block-xor_bytes zero (x ∷ a) b h k = absurd (omega arith)
xor_block-xor_bytes (suc n) [] b h k = absurd (omega arith)
xor_block-xor_bytes (suc n) (x ∷ a) [] h k = absurd (omega arith)
xor_block-xor_bytes (suc n) (x ∷ a) (y ∷ b) h k =
    ap (λ (l : Bytes). bit_xor x y ∷ l) (xor_block-xor_bytes n a b (omega arith) (omega arith))

body_size-padding : (n : ℕ) → n + padding n ≡ body_size n
unfolding padding
body_size-padding n = ground arith

module _ (c : Ciphers) (sound : Sound c) where
  -- The writer's MACs are those of the format.
  compute-mixed :
      (hash seed : Bytes)
      → length seed ≡ 16
      → compute c hash (c.sum hash) seed ≡ (front_digest c (mixed c hash seed), mixed c hash seed)
  unfolding compute
  compute-mixed hash seed h =
      let long : 16 ≤ length (c.sum hash) = omega (arith, sound.2 hash) in
      rw
        (
          sound.4 (c.sum hash) long,
          xor_block-xor_bytes 16 (c.encrypt (c.sum hash)) seed (sound.3 (c.sum hash) long) h,
        )
        refl

  length-front_digest : (hash : Bytes) → length (front_digest c hash) ≡ 16
  length-front_digest hash = omega (arith, length-take 16 (c.sum hash), sound.2 hash)

  header_mac-behind_header :
      (hash header : Bytes)
      → length header ≡ 16
      → header_mac c hash header
        ≡ (front_digest c (behind_header c hash header), behind_header c hash header)
  unfolding header_mac
  header_mac-behind_header hash header h = compute-mixed hash header h

  frame_mac-behind_body :
      (hash frame : Bytes)
      → frame_mac c hash frame
        ≡ (front_digest c (behind_body c hash frame), behind_body c hash frame)
  unfolding frame_mac
  frame_mac-behind_body hash frame =
      compute-mixed (hash ++ frame) (front_digest c (hash ++ frame))
        (length-front_digest (hash ++ frame))

  -- The body behind the header.
  read_body-framed :
      (r : FrameWriter) (header hash frame plain rest : Bytes)
      → length frame ≡ body_size (frame_size header)
      → c.xor_key_stream (r.position + 16) frame ≡ plain
      → read_body c r header hash (frame ++ (front_digest c (behind_body c hash frame) ++ rest))
        ≡ some (
          (drop 3 header, take (frame_size header) plain),
          (
            record { position = r.position + (16 + length frame); hash = behind_body c hash frame },
            rest,
          ),
        )
  read_body-framed r header hash frame plain rest size opened =
      let tag = front_digest c (behind_body c hash frame) in
      let sixteen = length-front_digest (behind_body c hash frame) in
      rw
        (
          ← size,
          take-append frame (tag ++ rest),
          drop-append_eq (length frame) frame (tag ++ rest) refl,
          take-append_eq 16 tag rest sixteen,
          bytes_eq_refl tag,
          drop-append_eq 16 tag rest sixteen,
          opened,
        )
        refl

-- A frame as it is read: zeros behind the header data.
abbrev pub zero_filled : Frame → Frame
zero_filled (h, p) = (h ++ replicate (13 - length h) 0, p)

module _ (c : Ciphers) (sound : Sound c) where
  -- The bytes of a sealed frame, whatever follows them, give the frame and the state of its writer.
  pub read_frame-seal_frame :
      (w : FrameWriter) (h p rest : Bytes)
      → length h ≤ 13
      → length p ≤ max_frame_size
      → read_frame c w ((seal_frame c w h p).0 ++ rest)
        ≡ some (zero_filled (h, p), ((seal_frame c w h p).1, rest))
  unfolding read_frame seal_frame
  read_frame-seal_frame w h p rest small_header small =
      let header = c.xor_key_stream w.position (frame_header h p) in
      let frame = c.xor_key_stream (w.position + 16) (padded p) in
      let sixteen : length header ≡ 16 =
        sound.0 w.position (frame_header h p) ∙ length-frame_header h p small_header in
      let absorbed : Bytes = behind_header c w.hash header in
      let tag : Bytes = front_digest c absorbed in
      let last : Bytes = front_digest c (behind_body c absorbed frame) in
      let size = frame_size-frame_header h p small in
      let long : length frame ≡ body_size (frame_size (frame_header h p)) =
        sound.0 (w.position + 16) (padded p)
        ∙ length-padded p
        ∙ body_size-padding (length p)
        ∙ ap body_size (sym size) in
      let behind : Bytes = frame ++ (last ++ rest) in
      rw
        (
          header_mac-behind_header c sound w.hash header sixteen,
          frame_mac-behind_body c sound absorbed frame,
          append_assoc header (tag ++ (frame ++ last)) rest,
          append_assoc tag (frame ++ last) rest,
          append_assoc frame last rest,
          take-append_eq 16 header (tag ++ behind) sixteen,
          drop-append_eq 16 header (tag ++ behind) sixteen,
          take-append_eq 16 tag behind (length-front_digest c sound absorbed),
          drop-append_eq 16 tag behind (length-front_digest c sound absorbed),
          bytes_eq_refl tag,
          sound.1 w.position (frame_header h p),
        )
        (read_body-framed c sound w (frame_header h p) absorbed frame (padded p) rest long
            (sound.1 (w.position + 16) (padded p))
          ∙ rw (drop-frame_header h p, size, take-padded p) refl)

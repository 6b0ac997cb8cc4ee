-- ===== src/Rlpx/Frame/Writing.antt =====
-- What the socket gets of the frames, and what the other side reads.
use raidan_sdk.Prelude.{
  ℕ, zero, suc, ◌≤◌, ◌<◌, false, Option, none, some, List, [], ◌∷◌, ◌++◌, Bytes, length, map, All,
  drop, length-drop, take-append-drop, append_assoc, ltb, ◌==◌, ◌≡◌, refl, arith,
}
use raidan_sdk.Rlpx.Frame.{
  Ciphers, FrameWriter, max_frame_size, Sent, seal_frame, write_rounds, write_all, write_frame,
}
use raidan_sdk.Rlpx.Frame.Format.{Sound, Frame, read_frame}
use raidan_sdk.Rlpx.Frame.RoundTrip.{zero_filled, read_frame-seal_frame}

-- A socket that takes a byte at least of each write, and no more than it is given.
abbrev pub Takes : {E : Type 0} → (Bytes → ℕ × Option E) → Type 0
Takes {E} write =
    (b : ℕ) (out : Bytes)
    → (n : ℕ) × (write (b ∷ out) ≡ (n, none)) × (0 < n) × (n ≤ length (b ∷ out))

module _ {E : Type 0} (write : Bytes → ℕ × Option E) (takes : Takes write) where
  write_rounds-whole :
      (k : ℕ) (out : Bytes)
      → length out ≤ k
      → write_rounds write k out ≡ record { error = none; wire = out }
  unfolding write_rounds
  write_rounds-whole k [] h = refl
  write_rounds-whole zero (b ∷ out) h = absurd (omega arith)
  write_rounds-whole (suc k) (b ∷ out) h =
      let (n, counted, positive, within) = takes b out in
      let moves : (n == 0) ≡ false = ground arith in
      let inside : ltb (length (b ∷ out)) n ≡ false = ground arith in
      let rest = write_rounds-whole k (drop n (b ∷ out)) (omega (arith, length-drop n (b ∷ out))) in
      rw (counted, moves, inside, rest, take-append-drop n (b ∷ out)) refl

  write_all-whole : (out : Bytes) → write_all write out ≡ record { error = none; wire = out }
  unfolding write_all
  write_all-whole out = write_rounds-whole (length out) out (omega arith)

-- A frame within the limits of the format.
abbrev pub Fits : Frame → Type 0
Fits (h, p) = (length h ≤ 13) × (length p ≤ max_frame_size)

-- Frames written one behind the other.
module _ {E : Type 0} (c : Ciphers) (write : Bytes → ℕ × Option E) where
  abbrev pub write_frames : FrameWriter → List Frame → List (Sent E) × FrameWriter
  write_frames w [] = ([], w)
  write_frames w ((h, p) ∷ fs) =
      let (sent, after) = write_frame c write w h p in
      let (more, last) = write_frames after fs in (sent ∷ more, last)

  write_frame-sealed :
      (w : FrameWriter) (h p : Bytes)
      → Takes write
      → Fits (h, p)
      → write_frame c write w h p
        ≡ (record { error = none; wire = (seal_frame c w h p).0 }, (seal_frame c w h p).1)
  unfolding write_frame
  write_frame-sealed w h p takes fits =
      let short : ltb 13 (length h) ≡ false = ground arith in
      let small : ltb max_frame_size (length p) ≡ false = ground arith in
      rw (short, small, write_all-whole write takes (seal_frame c w h p).0) refl

abbrev pub wire_of : {E : Type 0} → List (Sent E) → Bytes
wire_of [] = []
wire_of (s ∷ ss) = s.wire ++ wire_of ss

-- Frames read one behind the other.
module _ (c : Ciphers) where
  abbrev in_front :
      Frame
      → Option (List Frame × (FrameWriter × Bytes))
      → Option (List Frame × (FrameWriter × Bytes))
  in_front f none = none
  in_front f (some (fs, rest)) = some (f ∷ fs, rest)

  abbrev on_frame :
      (FrameWriter → Bytes → Option (List Frame × (FrameWriter × Bytes)))
      → Option (Frame × (FrameWriter × Bytes))
      → Option (List Frame × (FrameWriter × Bytes))
  on_frame more none = none
  on_frame more (some (f, (r, s))) = in_front f (more r s)

  abbrev pub read_frames : ℕ → FrameWriter → Bytes → Option (List Frame × (FrameWriter × Bytes))
  read_frames zero r s = some ([], (r, s))
  read_frames (suc n) r s = on_frame (read_frames n) (read_frame c r s)

-- Over ciphers that are sound and a socket that takes something of each write, the frames within the
-- limits that are written one behind the other are all written without an error, and a reader of the frame
-- format, with its own MAC and size of the body, reads them from the wire, exactly and in order, whatever
-- follows, and ends in the writer's state.
pub read_frames-write_frames :
    {E : Type 0} (c : Ciphers) (write : Bytes → ℕ × Option E) (w : FrameWriter) (fs : List Frame)
    (rest : Bytes)
    → Sound c
    → Takes write
    → All Fits fs
    → All (λ (s : Sent E). s.error ≡ none) (write_frames c write w fs).0
      × (read_frames c (length fs) w (wire_of (write_frames c write w fs).0 ++ rest)
          ≡ some (map zero_filled fs, ((write_frames c write w fs).1, rest)))
read_frames-write_frames c write w [] rest sound takes fits = (tt, refl)
read_frames-write_frames c write w ((h, p) ∷ fs) rest sound takes fits =
    let (out, after) = seal_frame c w h p in
    let (clean, again) = read_frames-write_frames c write after fs rest sound takes fits.1 in
    let more : Bytes = wire_of (write_frames c write after fs).0 in
    rw
      (
        write_frame-sealed c write w h p takes fits.0,
        append_assoc out more rest,
        read_frame-seal_frame c sound w h p (more ++ rest) fits.0.0 fits.0.1,
        again,
      )
      ((refl, clean), refl)

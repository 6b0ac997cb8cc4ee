-- ===== src/Rlpx/Frame/Format.antt =====
-- The frame format of RLPx, written apart from the writer: what its ciphers do, and a reader.
use raidan_sdk.Prelude.{
  ℕ, zero, suc, [], ◌/◌, bit_xor, ◌+◌, ◌*◌, ◌≤◌, Option, none, some, ◌∷◌, ◌++◌, Bytes, length, take,
  drop, if◌then◌else◌, bytes_eq, ◌≡◌,
}
use raidan_sdk.Rlpx.Frame.{Ciphers, FrameWriter}

-- What the ciphers do: the keystream keeps the length and takes itself off again, the hash is 32 bytes
-- long, and the block cipher makes a block of the first 16 bytes that it is given.
abbrev pub Sound : Ciphers → Type 0
Sound c =
    ((p : ℕ) (bs : Bytes) → length (c.xor_key_stream p bs) ≡ length bs)
    × ((p : ℕ) (bs : Bytes) → c.xor_key_stream p (c.xor_key_stream p bs) ≡ bs)
    × ((bs : Bytes) → length (c.sum bs) ≡ 32)
    × ((bs : Bytes) → 16 ≤ length bs → length (c.encrypt bs) ≡ 16)
    × ((bs : Bytes) → 16 ≤ length bs → c.encrypt (take 16 bs) ≡ c.encrypt bs)

-- A frame: its header data with the zeros behind it, and its plaintext.
abbrev pub Frame : Type 0
Frame = Bytes × Bytes

abbrev pub frame_size : Bytes → ℕ
frame_size (a ∷ b ∷ d ∷ header) = a * 65536 + (b * 256 + d)
frame_size _ = 0

-- The reader of the format takes nothing from the writer but the ciphers. `n` bytes of two blocks XORed.
abbrev pub xor_block : ℕ → Bytes → Bytes → Bytes
xor_block zero a b = []
xor_block (suc n) a b = bit_xor (first a) (first b) ∷ xor_block n (drop 1 a) (drop 1 b)
  where
    first : Bytes → ℕ
    first [] = 0
    first (x ∷ xs) = x

-- The size of a body: the plaintext in whole blocks of 16 bytes.
abbrev pub body_size : ℕ → ℕ
body_size n = 16 * ((n + 15) / 16)

-- The reader's MAC: what its hash absorbed. The format takes the first 16 bytes of its digest, enciphers
-- them, XORs them with a seed, and absorbs that block; the tag is the front of the digest behind it. The
-- seed of a header is its ciphertext; a body is absorbed first, and its seed is the digest's front.
module _ (c : Ciphers) where
  abbrev pub front_digest : Bytes → Bytes
  front_digest absorbed = take 16 (c.sum absorbed)

  abbrev pub mixed : Bytes → Bytes → Bytes
  mixed absorbed seed = absorbed ++ xor_block 16 (c.encrypt (front_digest absorbed)) seed

  abbrev pub behind_header : Bytes → Bytes → Bytes
  behind_header absorbed header = mixed absorbed header

  abbrev pub behind_body : Bytes → Bytes → Bytes
  behind_body absorbed body = mixed (absorbed ++ body) (front_digest (absorbed ++ body))

  -- The reader, at the position and with the hash of the writer: the header and its tag, then as many
  -- blocks as the length in the header needs, and their tag.
  abbrev pub read_body :
      FrameWriter → Bytes → Bytes → Bytes → Option (Frame × (FrameWriter × Bytes))
  read_body r header absorbed s =
      let n = body_size (frame_size header) in
      let behind = behind_body absorbed (take n s) in
      if bytes_eq (take 16 (drop n s)) (front_digest behind)
      then some (
        (drop 3 header, take (frame_size header) (c.xor_key_stream (r.position + 16) (take n s))),
        (record { position = r.position + (16 + n); hash = behind }, drop 16 (drop n s)),
      )
      else none

  unfoldable pub read_frame : FrameWriter → Bytes → Option (Frame × (FrameWriter × Bytes))
  read_frame r s =
      let behind = behind_header r.hash (take 16 s) in
      if bytes_eq (take 16 (drop 16 s)) (front_digest behind)
      then read_body r (c.xor_key_stream r.position (take 16 s)) behind (drop 16 (drop 16 s))
      else none

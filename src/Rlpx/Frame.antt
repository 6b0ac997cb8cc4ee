-- ===== src/Rlpx/Frame.antt =====
-- rlpx/conn.go: the frames of an RLPx connection. The ciphers, the hash, Snappy and the RLP of a code are
-- parameters: the keystream is read from its position on, and a hash is what it has absorbed.
pub mod Format
pub mod RoundTrip
pub mod Writing
mod Runs
use raidan_sdk.Prelude.{
  ℕ, zero, suc, ◌+◌, ◌-◌, ◌/◌, ◌%◌, ◌^◌, bit_xor, Bool, true, false, Option, none, some, [], ◌∷◌,
  ◌++◌, Bytes, length, take, drop, replicate, ltb, ◌==◌, if◌then◌else◌,
}
use raidan_sdk.Prelude.Result.{Result, ok, err}

pub record Ciphers : Type 0 where
  -- `cipher.Stream.XORKeyStream` behind so many bytes.
  pub xor_key_stream : ℕ → Bytes → Bytes
  -- `cipher.Block.Encrypt` of the MAC's key.
  pub encrypt : Bytes → Bytes
  -- `hash.Sum` behind what was written.
  pub sum : Bytes → Bytes

-- The position in the keystream, and what the MAC's hash has absorbed.
pub record FrameWriter : Type 0 where
  pub position : ℕ
  pub hash : Bytes

abbrev pub max_frame_size : ℕ
max_frame_size = 0xffffff

-- A block with a seed XORed into it.
unfoldable pub xor_bytes : Bytes → Bytes → Bytes
xor_bytes (a ∷ as') (b ∷ bs) = bit_xor a b ∷ xor_bytes as' bs
xor_bytes _ _ = []

unfoldable pub put_uint24 : ℕ → Bytes
put_uint24 value = (value / 2 ^ 16) % 256 ∷ (value / 2 ^ 8) % 256 ∷ value % 256 ∷ []

-- The 16 bytes of a header: the length, the header data, zeros.
unfoldable pub frame_header : Bytes → Bytes → Bytes
frame_header header_data plaintext =
    put_uint24 (length plaintext) ++ (header_data ++ replicate (13 - length header_data) 0)

-- The plaintext filled up to whole blocks.
unfoldable pub padding : ℕ → ℕ
padding n = if ltb 0 (n % 16) then 16 - n % 16 else 0

unfoldable pub padded : Bytes → Bytes
padded plaintext = plaintext ++ replicate (padding (length plaintext)) 0

module _ (c : Ciphers) where
  -- The MAC, and the hash behind it.
  unfoldable pub compute : Bytes → Bytes → Bytes → Bytes × Bytes
  compute hash sum seed =
      let after = hash ++ xor_bytes (c.encrypt sum) seed in (take 16 (c.sum after), after)

  unfoldable pub header_mac : Bytes → Bytes → Bytes × Bytes
  header_mac hash header = compute hash (c.sum hash) header

  unfoldable pub frame_mac : Bytes → Bytes → Bytes × Bytes
  frame_mac hash frame =
      let seed = c.sum (hash ++ frame) in compute (hash ++ frame) seed (take 16 seed)

  -- The bytes of a frame with an encrypted header and an encrypted body, and the hash behind them.
  abbrev pub framed : Bytes → Bytes → Bytes → Bytes × Bytes
  framed hash header frame =
      let (header_tag, hash1) = header_mac hash header in
      let (frame_tag, hash2) = frame_mac hash1 frame in
      (header ++ (header_tag ++ (frame ++ frame_tag)), hash2)

  -- The frame that `write` puts together, and the writer behind it.
  unfoldable pub seal_frame : FrameWriter → Bytes → Bytes → Bytes × FrameWriter
  seal_frame w header_data plaintext =
      let header = c.xor_key_stream w.position (frame_header header_data plaintext) in
      let frame = c.xor_key_stream (w.position + 16) (padded plaintext) in
      let (out, hash) = framed w.hash header frame in
      (out, record { position = w.position + (16 + length frame); hash = hash })

pub data FrameError (E : Type 0) : Type 0 where
  header_too_large payload_too_large : ℕ → FrameError E
  write_failed : E → FrameError E
  short_write slice_out_of_range out_of_rounds : FrameError E

-- How a write ends: its error, and what the socket took.
pub record Sent (E : Type 0) : Type 0 where
  pub error : Option (FrameError E)
  pub wire : Bytes

module _ {E : Type 0} (write : Bytes → ℕ × Option E) where
  abbrev pub after_write : Bytes → Sent E → Sent E
  after_write taken s = record s { wire = taken ++ s.wire }

  -- One round of the loop. A count beyond the buffer, which no writer gives, makes the slice panic.
  abbrev pub on_count : Bytes → (Bytes → Sent E) → ℕ × Option E → Sent E
  on_count out more (n, some e) = record { error = some (write_failed e); wire = take n out }
  on_count out more (n, none) =
      if n == 0
      then record { error = some short_write; wire = [] }
      else if ltb (length out) n
      then record { error = some slice_out_of_range; wire = out }
      else after_write (take n out) (more (drop n out))

  unfoldable pub write_rounds : ℕ → Bytes → Sent E
  write_rounds k [] = record { error = none; wire = [] }
  write_rounds zero (b ∷ out) = record { error = some out_of_rounds; wire = [] }
  write_rounds (suc k) (b ∷ out) = on_count (b ∷ out) (write_rounds k) (write (b ∷ out))

  -- `writeAll`, and the loop at the end of `write`. Each round but the last takes a byte at least.
  unfoldable pub write_all : Bytes → Sent E
  write_all out = write_rounds (length out) out

module _ {E : Type 0} (c : Ciphers) (write : Bytes → ℕ × Option E) where
  abbrev refused : FrameWriter → FrameError E → Sent E × FrameWriter
  refused w e = (record { error = some e; wire = [] }, w)

  -- `frameWriter.write`.
  unfoldable pub write_frame : FrameWriter → Bytes → Bytes → Sent E × FrameWriter
  write_frame w header_data plaintext =
      if ltb 13 (length header_data)
      then refused w (header_too_large (length header_data))
      else if ltb max_frame_size (length plaintext)
      then refused w (payload_too_large (length plaintext))
      else (
        write_all write (seal_frame c w header_data plaintext).0,
        (seal_frame c w header_data plaintext).1,
      )

  -- `Conn.Write`, with the code's RLP and the compression in use, and the size it returns.
  unfoldable pub write_message :
      (ℕ → Bytes) → (Bytes → Bytes) → FrameWriter → ℕ → Bytes → (Sent E × FrameWriter) × ℕ
  write_message append_uint64 compress w code payload =
      if ltb max_frame_size (length payload)
      then (refused w (payload_too_large (length payload)), 0)
      else (
        write_frame w (0xc2 ∷ 0x80 ∷ 0x80 ∷ []) (append_uint64 code ++ compress payload),
        length (compress payload) % 2 ^ 32,
      )

-- ===== src/Rlp.antt =====
-- wire.go: the RLP of a byte string and of a list of encoded items.
pub mod RoundTrip
mod Runs
use raidan_sdk.Prelude.{
  ℕ, ◌+◌, ◌%◌, Bool, ◌&&◌, List, [], ◌∷◌, ◌++◌, Bytes, length, ltb, leb, ◌==◌, if◌then◌else◌,
}
use raidan_sdk.Rpc.ForkId.{big_endian}

-- The loop of `minimalBigEndian`: leading zeros go, but for the last byte.
abbrev pub strip_zeros : Bytes → Bytes
strip_zeros [] = []
strip_zeros (b ∷ []) = b ∷ []
strip_zeros (b ∷ c ∷ bs) = if b == 0 then strip_zeros (c ∷ bs) else b ∷ c ∷ bs

unfoldable pub minimal_big_endian : ℕ → Bytes
minimal_big_endian value = strip_zeros (big_endian 8 value)

-- Whether the payload is one byte below 0x80.
abbrev pub is_single : Bytes → Bool
is_single (b ∷ []) = ltb b 0x80
is_single _ = Bool.false

unfoldable pub encode_rlp_bytes : Bytes → Bytes
encode_rlp_bytes payload =
    if is_single payload
    then payload
    else if leb (length payload) 55
    then (0x80 + length payload) % 256 ∷ payload
    else (0xb7 + length (minimal_big_endian (length payload))) % 256
      ∷ (minimal_big_endian (length payload) ++ payload)

unfoldable pub concat_items : List Bytes → Bytes
concat_items [] = []
concat_items (i ∷ is) = i ++ concat_items is

-- The sum of the lengths is the length of the items in a row.
unfoldable pub payload_size : List Bytes → ℕ
payload_size [] = 0
payload_size (i ∷ is) = length i + payload_size is

unfoldable pub encode_rlp_list : List Bytes → Bytes
encode_rlp_list items =
    if leb (payload_size items) 55
    then (0xc0 + payload_size items) % 256 ∷ concat_items items
    else (0xf7 + length (minimal_big_endian (payload_size items))) % 256
      ∷ (minimal_big_endian (payload_size items) ++ concat_items items)

-- ===== src/Rlp/Runs.antt =====
-- Runs of the RLP encoding.
use raidan_sdk.Prelude.{some, List, [], ◌∷◌, ◌++◌, Bytes, codes, replicate, ◌≡◌, refl, arith}
use raidan_sdk.Rpc.ForkId.{big_endian}
use raidan_sdk.Rlp.{
  minimal_big_endian, encode_rlp_bytes, encode_rlp_list, concat_items, payload_size,
}
use raidan_sdk.Rlp.RoundTrip.{
  decode_rlp_bytes, decode_rlp_list, decode_rlp_bytes-encode_rlp_bytes,
  decode_rlp_list-encode_rlp_list,
}

dog : encode_rlp_bytes (codes "dog") ≡ 0x83 ∷ codes "dog"
unfolding encode_rlp_bytes minimal_big_endian big_endian
dog = refl

thousand : minimal_big_endian 1000 ≡ 3 ∷ 232 ∷ []
unfolding minimal_big_endian big_endian
thousand = refl

abbrev sixty : Bytes
sixty = replicate 60 7

abbrev two_items : List Bytes
two_items = (0x83 ∷ codes "dog") ∷ (0x83 ∷ codes "cat") ∷ []

decode_rlp_bytes-encode_rlp_bytes_example :
    decode_rlp_bytes (encode_rlp_bytes sixty ++ (1 ∷ [])) ≡ some (sixty, 1 ∷ [])
decode_rlp_bytes-encode_rlp_bytes_example =
    decode_rlp_bytes-encode_rlp_bytes sixty (1 ∷ []) (omega arith)

decode_rlp_list-encode_rlp_list_example :
    decode_rlp_list (encode_rlp_list two_items ++ (1 ∷ [])) ≡ some (concat_items two_items, 1 ∷ [])
unfolding payload_size
decode_rlp_list-encode_rlp_list_example =
    decode_rlp_list-encode_rlp_list two_items (1 ∷ []) (omega arith)

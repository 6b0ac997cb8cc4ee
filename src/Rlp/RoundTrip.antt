-- ===== src/Rlp/RoundTrip.antt =====
-- A decoder of RLP, written from the format, reads what `EncodeRLPBytes` and `EncodeRLPList` write.
use raidan_sdk.Prelude.{
  ℕ, ◌+◌, ◌-◌, ◌*◌, ◌%◌, ◌^◌, ◌≤◌, ◌<◌, true, false, Option, none, some, List, [], ◌∷◌, ◌++◌, Bytes,
  length, take, drop, length-append, take-append_eq, drop-append_eq, append_assoc, ltb, leb, ◌==◌,
  if◌then◌else◌, Bool-cases, ◌≡◌, inl, inr, refl, sym, ◌∙◌, arith,
}
use raidan_sdk.Rpc.ForkId.{big_endian}
use raidan_sdk.Rlp.{
  strip_zeros, minimal_big_endian, is_single, encode_rlp_bytes, concat_items, payload_size,
  encode_rlp_list,
}

-- The number that big-endian bytes stand for.
abbrev pub from_big_endian : Bytes → ℕ
from_big_endian [] = 0
from_big_endian (b ∷ bs) = b * 256 ^ length bs + from_big_endian bs

-- The first `n` bytes and the rest.
abbrev pub cut : ℕ → Bytes → Option (Bytes × Bytes)
cut n bs = if ltb (length bs) n then none else some (take n bs, drop n bs)

-- A short header above `base` holds the length, a long one the length of the length.
abbrev pub decode_item : ℕ → Bytes → Option (Bytes × Bytes)
decode_item base [] = none
decode_item base (b ∷ bs) =
    if leb b (base + 55)
    then cut (b - base) bs
    else cut (from_big_endian (take (b - (base + 55)) bs)) (drop (b - (base + 55)) bs)

-- A byte string and what follows it; `none` for a list.
abbrev pub decode_rlp_bytes : Bytes → Option (Bytes × Bytes)
decode_rlp_bytes [] = none
decode_rlp_bytes (b ∷ bs) =
    if ltb b 0x80 then some (b ∷ [], bs) else if ltb b 0xc0 then decode_item 0x80 (b ∷ bs) else none

-- The payload of a list and what follows it; `none` for a byte string.
abbrev pub decode_rlp_list : Bytes → Option (Bytes × Bytes)
decode_rlp_list [] = none
decode_rlp_list (b ∷ bs) = if ltb b 0xc0 then none else decode_item 0xc0 (b ∷ bs)

strip_zeros-value : (bs : Bytes) → from_big_endian (strip_zeros bs) ≡ from_big_endian bs
strip_zeros-value [] = refl
strip_zeros-value (b ∷ []) = refl
strip_zeros-value (b ∷ c ∷ bs) = elim (Bool-cases (b == 0)) [
  | inl e ↦
      let b_zero : b ≡ 0 = ground arith in rw (e, b_zero) (strip_zeros-value (c ∷ bs) ∙ omega arith)
  | inr e ↦ rw e
]

length-strip_zeros : (bs : Bytes) → length (strip_zeros bs) ≤ length bs
length-strip_zeros [] = omega arith
length-strip_zeros (b ∷ []) = omega arith
length-strip_zeros (b ∷ c ∷ bs) = ground (arith, length-strip_zeros (c ∷ bs))

strip_zeros_nonempty : (b : ℕ) (bs : Bytes) → 0 < length (strip_zeros (b ∷ bs))
strip_zeros_nonempty b [] = omega arith
strip_zeros_nonempty b (c ∷ bs) = ground (arith, strip_zeros_nonempty c bs)

strip_zeros_pos : (bs : Bytes) → 0 < length bs → 0 < length (strip_zeros bs)
strip_zeros_pos [] h = h
strip_zeros_pos (b ∷ bs) h = strip_zeros_nonempty b bs

big_endian-value : (n : ℕ) → n < 2 ^ 64 → from_big_endian (big_endian 8 n) ≡ n
unfolding big_endian
big_endian-value n h = omega arith

minimal_big_endian-value : (n : ℕ) → n < 2 ^ 64 → from_big_endian (minimal_big_endian n) ≡ n
unfolding minimal_big_endian
minimal_big_endian-value n h = strip_zeros-value (big_endian 8 n) ∙ big_endian-value n h

length-minimal_big_endian :
    (n : ℕ) → (0 < length (minimal_big_endian n)) × (length (minimal_big_endian n) ≤ 8)
unfolding minimal_big_endian big_endian
length-minimal_big_endian n =
    (strip_zeros_pos (big_endian 8 n) (omega arith), length-strip_zeros (big_endian 8 n))

cut_exact : (n : ℕ) (p rest : Bytes) → n ≡ length p → cut n (p ++ rest) ≡ some (p, rest)
cut_exact n p rest e =
    let enough : ltb (length (p ++ rest)) n ≡ false = ground (arith, length-append p rest) in
    rw (enough, take-append_eq n p rest (sym e), drop-append_eq n p rest (sym e))

decode_short :
    (base b : ℕ) (p rest : Bytes)
    → length p ≤ 55
    → b ≡ base + length p
    → decode_item base (b ∷ (p ++ rest)) ≡ some (p, rest)
decode_short base b p rest h e =
    let short : leb b (base + 55) ≡ true = ground arith in
    rw short (cut_exact (b - base) p rest (omega arith))

decode_long :
    (base b n : ℕ) (p rest : Bytes)
    → n < 2 ^ 64
    → n ≡ length p
    → b ≡ base + 55 + length (minimal_big_endian n)
    → decode_item base (b ∷ ((minimal_big_endian n ++ p) ++ rest)) ≡ some (p, rest)
decode_long base b n p rest h len e =
    let size : Bytes = minimal_big_endian n in
    let (pos, few) = length-minimal_big_endian n in
    let long : leb b (base + 55) ≡ false = ground arith in
    let count : length size ≡ b - (base + 55) = omega arith in
    let k : ℕ = b - (base + 55) in
    let taken : take k (size ++ (p ++ rest)) ≡ size = take-append_eq k size (p ++ rest) count in
    let dropped : drop k (size ++ (p ++ rest)) ≡ p ++ rest =
      drop-append_eq k size (p ++ rest) count in
    rw (append_assoc size p rest, long, taken, dropped)
      (cut_exact (from_big_endian size) p rest (minimal_big_endian-value n h ∙ len))

single : (p rest : Bytes) → is_single p ≡ true → decode_rlp_bytes (p ++ rest) ≡ some (p, rest)
single [] rest h = absurd (ground arith)
single (b ∷ []) rest h = rw h
single (b ∷ c ∷ p) rest h = absurd (ground arith)

bytes_header :
    (b : ℕ) (bs : Bytes)
    → 0x80 ≤ b
    → b < 0xc0
    → decode_rlp_bytes (b ∷ bs) ≡ decode_item 0x80 (b ∷ bs)
bytes_header b bs low high = ground arith

list_header : (b : ℕ) (bs : Bytes) → 0xc0 ≤ b → decode_rlp_list (b ∷ bs) ≡ decode_item 0xc0 (b ∷ bs)
list_header b bs low = ground arith

-- A byte string of fewer than 2^64 bytes that was encoded is decoded again, whatever follows it.
pub decode_rlp_bytes-encode_rlp_bytes :
    (p rest : Bytes)
    → length p < 2 ^ 64
    → decode_rlp_bytes (encode_rlp_bytes p ++ rest) ≡ some (p, rest)
unfolding encode_rlp_bytes
decode_rlp_bytes-encode_rlp_bytes p rest h = elim (Bool-cases (is_single p)) [
  | inl one ↦ rw one (single p rest one)
  | inr more ↦ elim (Bool-cases (leb (length p) 55)) [
    | inl short ↦
        let few : length p ≤ 55 = ground arith in
        rw (more, short)
          (bytes_header ((0x80 + length p) % 256) (p ++ rest) (omega arith) (omega arith)
            ∙ decode_short 0x80 ((0x80 + length p) % 256) p rest few (omega arith))
    | inr long ↦
        let size : Bytes = minimal_big_endian (length p) in
        let (pos, few) = length-minimal_big_endian (length p) in
        let b : ℕ = (0xb7 + length size) % 256 in
        rw (more, long)
          (bytes_header b ((size ++ p) ++ rest) (omega arith) (omega arith)
            ∙ decode_long 0x80 b (length p) p rest h refl (omega arith))
  ]
]

payload_size-concat_items : (is : List Bytes) → payload_size is ≡ length (concat_items is)
unfolding payload_size concat_items
payload_size-concat_items [] = refl
payload_size-concat_items (i ∷ is) =
    omega (arith, length-append i (concat_items is), payload_size-concat_items is)

-- A list whose items take fewer than 2^64 bytes together is decoded to those items in a row, whatever
-- follows it.
pub decode_rlp_list-encode_rlp_list :
    (items : List Bytes) (rest : Bytes)
    → payload_size items < 2 ^ 64
    → decode_rlp_list (encode_rlp_list items ++ rest) ≡ some (concat_items items, rest)
unfolding encode_rlp_list
decode_rlp_list-encode_rlp_list items rest h =
    let n : ℕ = payload_size items in
    let p : Bytes = concat_items items in
    let len : n ≡ length p = payload_size-concat_items items in
    elim (Bool-cases (leb (payload_size items) 55)) [
      | inl short ↦
          let few : n ≤ 55 = ground arith in
          rw short (
            list_header ((0xc0 + n) % 256) (p ++ rest) (omega arith)
            ∙ decode_short 0xc0 ((0xc0 + n) % 256) p rest (omega (arith, len)) (omega (arith, len)))
      | inr long ↦
          let size : Bytes = minimal_big_endian n in
          let (pos, few) = length-minimal_big_endian n in
          let b : ℕ = (0xf7 + length size) % 256 in
          rw long (
            list_header b ((size ++ p) ++ rest) (omega arith)
            ∙ decode_long 0xc0 b n p rest h len (omega arith))
    ]

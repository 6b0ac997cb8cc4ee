-- ===== src/Reqresp/Ssz/Identifiers.antt =====
-- The identifiers of data columns, read back by the format of SSZ.
use raidan_sdk.Prelude.{
  ℕ, suc, ◌+◌, ◌-◌, ◌*◌, ◌/◌, ◌^◌, ◌<◌, ◌≤◌, false, none, List, [], ◌∷◌, ◌++◌, Bytes, All, length,
  take, drop, length-append, append_assoc, append-nil, ltb, ◌≡◌, refl, sym, ap, ◌∙◌, arith,
}
use raidan_sdk.Prelude.LittleEndian.{
  little_endian, little_endian_value, little_endian_value-little_endian, length-little_endian,
  split_fields,
}
use raidan_sdk.Prelude.Result.{ok}
use raidan_sdk.Reqresp.Ssz.{
  Identifier, identifier_size, write_numbers, write_offsets, write_identifier, write_identifiers,
  identifiers_body, max_identifiers, max_columns_per_identifier, column_sizes,
  ssz_data_columns_by_root_identifiers,
}
use raidan_sdk.Reqresp.Ssz.Offsets.{
  read_numbers, cut_at, read_items, read_numbers-write_numbers, length-write_numbers,
}

-- An identifier of columns: the root, the offset of the columns, and the columns from there to the end.
abbrev pub read_identifier : Bytes → Identifier
read_identifier bs =
    let offset = little_endian_value (take 4 (drop 32 bs)) in
    record {
      block_root = take 32 bs;
      elements = read_numbers 8 ((length bs - offset) / 8) (drop offset bs);
    }

abbrev pub read_each : List Bytes → List Identifier
read_each [] = []
read_each (b ∷ bs) = read_identifier b ∷ read_each bs

-- An identifier within the limits.
abbrev pub IsSound : Identifier → Type 0
IsSound i =
    (length i.block_root ≡ 32) × (length i.elements ≤ 128) × All (λ (n : ℕ). n < 256 ^ 8) i.elements

-- The offsets that the table holds.
abbrev starts : ℕ → List Identifier → List ℕ
starts offset [] = []
starts offset (i ∷ is) = offset ∷ starts (offset + identifier_size 8 i) is

length-starts : (offset : ℕ) (is : List Identifier) → length (starts offset is) ≡ length is
length-starts offset [] = refl
length-starts offset (i ∷ is) = ap suc (length-starts (offset + identifier_size 8 i) is)

write_offsets-starts :
    (offset : ℕ) (is : List Identifier)
    → write_offsets 8 offset is ≡ write_numbers 4 (starts offset is)
unfolding write_offsets write_numbers
write_offsets-starts offset [] = refl
write_offsets-starts offset (i ∷ is) =
    ap (λ (l : Bytes). little_endian 4 offset ++ l)
      (write_offsets-starts (offset + identifier_size 8 i) is)

-- Offsets of up to 1060 bytes each fit 32 bits.
starts-bounded :
    (offset : ℕ) (is : List Identifier)
    → All IsSound is
    → offset + 1060 * length is < 2 ^ 32
    → All (λ (n : ℕ). n < 256 ^ 4) (starts offset is)
starts-bounded offset [] h b = tt
starts-bounded offset (i ∷ is) ((r, c, e), hs) b =
    (omega arith, starts-bounded (offset + identifier_size 8 i) is hs (omega arith))

length-write_identifier :
    (i : Identifier) → IsSound i → length (write_identifier 8 i) ≡ identifier_size 8 i
length-write_identifier i (r, c, e) =
    rw
      (
        length-append i.block_root (little_endian 4 36 ++ write_numbers 8 i.elements),
        length-append (little_endian 4 36) (write_numbers 8 i.elements),
        length-little_endian 4 36,
        length-write_numbers 8 i.elements,
        r,
      )
      (omega arith)

head_length :
    (i : Identifier) → length i.block_root ≡ 32 → length (i.block_root ++ little_endian 4 36) ≡ 36
head_length i r =
    omega (arith, length-append i.block_root (little_endian 4 36), length-little_endian 4 36)

read_identifier-write_identifier :
    (i : Identifier) → IsSound i → read_identifier (write_identifier 8 i) ≡ i
read_identifier-write_identifier i (r, c, e) =
    let (t, d) =
      split_fields 32 i.block_root (little_endian 4 36 ++ write_numbers 8 i.elements) r in
    let (t', d') =
      split_fields 4 (little_endian 4 36) (write_numbers 8 i.elements)
        (length-little_endian 4 36) in
    let v : little_endian_value (little_endian 4 36) ≡ 36 =
      little_endian_value-little_endian 4 36 (omega arith) in
    let f : drop 36 (write_identifier 8 i) ≡ write_numbers 8 i.elements =
      ap (drop 36)
        (sym (append_assoc i.block_root (little_endian 4 36) (write_numbers 8 i.elements)))
      ∙ (split_fields 36 (i.block_root ++ little_endian 4 36) (write_numbers 8 i.elements)
          (head_length i r)).1 in
    let n : (length (write_identifier 8 i) - 36) / 8 ≡ length i.elements =
      omega (arith, length-write_identifier i (r, c, e)) in
    let k : read_numbers 8 (length i.elements) (write_numbers 8 i.elements) ≡ i.elements =
      ap (read_numbers 8 (length i.elements)) (sym (append-nil (write_numbers 8 i.elements)))
      ∙ read_numbers-write_numbers 8 i.elements [] e in
    rw (t, d, t', v, n, f, k) refl

-- The identifiers between their offsets.
read_each-cut_at :
    (offset : ℕ) (is : List Identifier)
    → All IsSound is
    → read_each (cut_at (starts offset is) (write_identifiers 8 is)) ≡ is
unfolding write_identifiers
read_each-cut_at offset [] h = refl
read_each-cut_at offset (i ∷ []) (h, hs) =
    rw (append-nil (write_identifier 8 i), read_identifier-write_identifier i h) refl
read_each-cut_at offset (i ∷ j ∷ is) (h, hs) =
    let (t, d) =
      split_fields (identifier_size 8 i) (write_identifier 8 i) (write_identifiers 8 (j ∷ is))
        (length-write_identifier i h) in
    let n : offset + identifier_size 8 i - offset ≡ identifier_size 8 i = omega arith in
    rw
      (
        n,
        t,
        d,
        read_identifier-write_identifier i h,
        read_each-cut_at (offset + identifier_size 8 i) (j ∷ is) hs,
      )
      refl

length-write_offsets :
    (offset : ℕ) (is : List Identifier) → length (write_offsets 8 offset is) ≡ 4 * length is
length-write_offsets offset is =
    ap length (write_offsets-starts offset is)
    ∙ length-write_numbers 4 (starts offset is)
    ∙ ap (λ (n : ℕ). 4 * n) (length-starts offset is)

-- The first offset of the table is its size.
table_size :
    (is : List Identifier)
    → 4 * length is < 2 ^ 32
    → little_endian_value (take 4 (identifiers_body 8 is)) ≡ 4 * length is
unfolding write_offsets write_identifiers
table_size [] b = refl
table_size (i ∷ is) b =
    let size = 4 * length (i ∷ is) in
    let (t, d) =
      split_fields 4 (little_endian 4 size)
        (write_offsets 8 (size + identifier_size 8 i) is ++ write_identifiers 8 (i ∷ is))
        (length-little_endian 4 size) in
    ap (λ (l : Bytes). little_endian_value (take 4 l))
      (append_assoc (little_endian 4 size) (write_offsets 8 (size + identifier_size 8 i) is)
        (write_identifiers 8 (i ∷ is)))
    ∙ ap little_endian_value t
    ∙ little_endian_value-little_endian 4 size (omega arith)

read_each-identifiers_body :
    (is : List Identifier)
    → length is ≤ 128
    → All IsSound is
    → read_each (read_items (identifiers_body 8 is)) ≡ is
read_each-identifiers_body is few h =
    let size = 4 * length is in
    let (t, d) =
      split_fields size (write_offsets 8 size is) (write_identifiers 8 is)
        (length-write_offsets size is) in
    let q : size / 4 ≡ length (starts size is) = omega (arith, length-starts size is) in
    let k : read_numbers 4 (length (starts size is)) (identifiers_body 8 is) ≡ starts size is =
      ap (λ (l : Bytes). read_numbers 4 (length (starts size is)) (l ++ write_identifiers 8 is))
        (write_offsets-starts size is)
      ∙ read_numbers-write_numbers 4 (starts size is) (write_identifiers 8 is)
          (starts-bounded size is h (omega arith)) in
    rw (table_size is (omega arith), q, k, d) (read_each-cut_at size is h)

column_sizes-none :
    (n total : ℕ) (is : List Identifier)
    → All IsSound is
    → total + 1060 * length is < 2 ^ 32
    → column_sizes n total is ≡ none
unfolding column_sizes
column_sizes-none n total [] h b = refl
column_sizes-none n total (i ∷ is) ((r, c, e), hs) b =
    let rest : column_sizes (n + 1) (total + identifier_size 8 i) is ≡ none =
      column_sizes-none (n + 1) (total + identifier_size 8 i) is hs (omega arith) in
    let few : ltb max_columns_per_identifier (length i.elements) ≡ false = ground arith in
    let fits : ltb (2 ^ 63 - 1 - identifier_size 8 i) total ≡ false = ground arith in
    rw (few, fits, rest) refl

-- Up to 128 identifiers, each with a root of 32 bytes and up to 128 columns below 2^64, are encoded without
-- an error, and a reader of the SSZ format, which goes by the offsets, reads the same identifiers from the
-- encoding.
pub read_each-ssz_data_columns_by_root_identifiers :
    (is : List Identifier)
    → length is ≤ 128
    → All IsSound is
    → (body : Bytes) × (ssz_data_columns_by_root_identifiers is ≡ ok body)
      × (read_each (read_items body) ≡ is)
unfolding ssz_data_columns_by_root_identifiers
read_each-ssz_data_columns_by_root_identifiers is few h =
    let within : ltb max_identifiers (length is) ≡ false = ground arith in
    (
      identifiers_body 8 is,
      rw (within, column_sizes-none 0 (4 * length is) is h (omega arith)) refl,
      read_each-identifiers_body is few h,
    )

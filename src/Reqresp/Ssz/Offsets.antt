-- ===== src/Reqresp/Ssz/Offsets.antt =====
-- Reading a list of SSZ items of different sizes: the table of the offsets, and the items between them.
use raidan_sdk.Prelude.{
  ℕ, zero, suc, ◌-◌, ◌*◌, ◌/◌, ◌^◌, ◌<◌, List, [], ◌∷◌, ◌++◌, Bytes, All, length, take, drop,
  length-append, append_assoc, ◌≡◌, refl, arith,
}
use raidan_sdk.Prelude.LittleEndian.{
  little_endian, little_endian_value, little_endian_value-little_endian, length-little_endian,
  split_fields,
}
use raidan_sdk.Reqresp.Ssz.{write_numbers}

-- `n` numbers of `w` bytes.
abbrev pub read_numbers : ℕ → ℕ → Bytes → List ℕ
read_numbers w zero bs = []
read_numbers w (suc n) bs = little_endian_value (take w bs) ∷ read_numbers w n (drop w bs)

-- The items between the offsets, from where the first begins; the last goes to the end.
abbrev pub cut_at : List ℕ → Bytes → List Bytes
cut_at [] bs = []
cut_at (o ∷ []) bs = bs ∷ []
cut_at (o ∷ p ∷ os) bs = take (p - o) bs ∷ cut_at (p ∷ os) (drop (p - o) bs)

-- The first offset is the size of the table; an empty list has none.
abbrev pub read_items : Bytes → List Bytes
read_items body =
    let table = little_endian_value (take 4 body) in
    cut_at (read_numbers 4 (table / 4) body) (drop table body)

-- The numbers are read back from what was written.
pub read_numbers-write_numbers :
    (w : ℕ) (ns : List ℕ) (rest : Bytes)
    → All (λ (n : ℕ). n < 256 ^ w) ns
    → read_numbers w (length ns) (write_numbers w ns ++ rest) ≡ ns
unfolding write_numbers
read_numbers-write_numbers w [] rest h = refl
read_numbers-write_numbers w (n ∷ ns) rest (h, hs) =
    let (t, d) =
      split_fields w (little_endian w n) (write_numbers w ns ++ rest) (length-little_endian w n) in
    rw
      (
        append_assoc (little_endian w n) (write_numbers w ns) rest,
        t,
        d,
        little_endian_value-little_endian w n h,
        read_numbers-write_numbers w ns rest hs,
      )
      refl

pub length-write_numbers : (w : ℕ) (ns : List ℕ) → length (write_numbers w ns) ≡ w * length ns
unfolding write_numbers
length-write_numbers w [] = omega arith
length-write_numbers w (n ∷ ns) =
    rw
      (
        length-append (little_endian w n) (write_numbers w ns),
        length-little_endian w n,
        length-write_numbers w ns,
      )
      (omega arith)

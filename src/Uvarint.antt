-- ===== src/Uvarint.antt =====
-- The unsigned varints of Go's encoding/binary, as mplex/mplex.go and reqresp/framing.go use them:
-- `AppendUvarint`/`PutUvarint` write, `Uvarint` reads a buffer.
pub mod RoundTrip
use raidan_sdk.Prelude.{
  ℕ, zero, suc, ◌+◌, ◌*◌, ◌/◌, ◌%◌, ◌^◌, ◌<◌, bit_and, bit_or, Bytes, List, [], ◌∷◌, ◌++◌, ◌&&◌,
  ltb, ◌==◌, if◌then◌else◌,
}

-- `Uvarint` returns a value and a count that is 0 on a short buffer and negative on an overflow.
pub data Uvarint : Type 0 where
  value : ℕ → ℕ → Uvarint
  short overflow : Uvarint

-- The bytes of `x`, at most `k + 1` of them. A uint64 has ten groups of seven bits at most.
unfoldable pub groups : ℕ → ℕ → Bytes
groups zero x = (x % 256) ∷ []
groups (suc k) x =
    let rest = groups k (x / 128) in
    if ltb x 128 then (x % 256) ∷ [] else bit_or (x % 256) 0x80 ∷ rest

unfoldable pub append_uvarint : Bytes → ℕ → Bytes
append_uvarint buf x = buf ++ groups 9 x

-- `b << s` in a uint64.
abbrev pub shl64 : ℕ → ℕ → ℕ
shl64 b s = b * 2 ^ s % 2 ^ 64

-- `i` bytes are read, `x` is what they gave, and the next byte counts from bit `s` on.
unfoldable pub scan : Bytes → ℕ → ℕ → ℕ → Uvarint
scan [] i x s = short
scan (b ∷ bs) i x s =
    let more = scan bs (i + 1) (bit_or x (shl64 (bit_and b 0x7f) s)) (s + 7) in
    if i == 10
    then overflow
    else if ltb b 0x80
    then (if i == 9 && ltb 1 b then overflow else value (bit_or x (shl64 b s)) (i + 1))
    else more

unfoldable pub uvarint : Bytes → Uvarint
uvarint buf = scan buf 0 0 0

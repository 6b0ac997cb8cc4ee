-- ===== src/Reqresp/Framing/Limits.antt =====
-- The ceilings of `ResponseReader`: per chunk, in total, and on the count of chunks.
use raidan_sdk.Prelude.{
  drop, ◌&&◌, ℕ, ◌+◌, ◌*◌, ◌/◌, ◌≤◌, ◌<◌, Bool, true, false, Option, some, none, [], ◌∷◌, ◌++◌,
  Bytes, length, take, ltb, ◌==◌, Bool-cases, refl, ◌-◌, ◌%◌, ◌^◌, ◌≡◌, ◌⊎◌, inl, inr, arith,
}
use raidan_sdk.Prelude.Result.{Result, ok, err}
use raidan_sdk.Reqresp.Framing.{
  StreamError, VarintError, ResponseChunk, ResponseReader, NextError, Snappy, max_payload_size,
  max_total_response_size, max_response_chunks, new_response_reader, accept_length, read_code,
  read_context, context_bytes_len, code_success, finish_payload, read_payload, limited_end,
  max_compressed_len, next,
}

-- What is documented of the codec: `io.ReadFull` gives as many bytes as were asked for, and what was
-- compressed decompresses, taking the bytes of the frames and no more. A writer that got no byte
-- flushes none. Framing adds a 10-byte stream
-- header and 8 bytes to each chunk of up to 65536 bytes, which is stored as it is where it does not
-- shrink.
pub record SnappyLaws (snappy : Snappy) : Type 0 where
  pub read_exact :
      (b : Bytes) (e : StreamError) (n : ℕ) (p : Bytes) (used : ℕ)
      → snappy.read b e n ≡ (ok p, used)
      → length p ≡ n
  pub read-compress :
      (p more : Bytes) (e : StreamError)
      → 0 < length p
      → snappy.read (snappy.compress p ++ more) e (length p) ≡ (ok p, length (snappy.compress p))
  pub compress-empty : snappy.compress [] ≡ []
  pub length-compress :
      (p : Bytes) → length (snappy.compress p) ≤ 10 + length p + 8 * ((length p + 65535) / 65536)

pub record IsBounded (r : ResponseReader) : Type 0 where
  pub total_bound : r.total ≤ r.max_total
  pub chunks_bound : r.chunks ≤ r.max_chunks
  pub payload_ceiling : r.max_payload ≤ max_payload_size
  pub total_ceiling : r.max_total ≤ max_total_response_size
  pub chunks_ceiling : r.max_chunks ≤ max_response_chunks

-- Every reader that `NewResponseReader` makes starts within the hard ceilings, with positive limits.
pub new_response_reader-IsBounded :
    (bytes : Bytes) (ends : StreamError) (has_context : Bool) (p t c : ℕ) (r : ResponseReader)
    → new_response_reader bytes ends has_context p t c ≡ ok r
    → IsBounded r × (0 < r.max_payload) × (0 < r.max_total) × (0 < r.max_chunks)
unfolding new_response_reader
new_response_reader-IsBounded bytes ends has_context p t c r h = ground arith

-- The reader has the limits that were asked for, and has counted nothing.
pub new_response_reader_limits :
    (bytes : Bytes) (ends : StreamError) (has_context : Bool) (p t c : ℕ) (r : ResponseReader)
    → new_response_reader bytes ends has_context p t c ≡ ok r
    → (r.max_chunks ≡ c) × (r.max_total ≡ t) × (r.chunks ≡ 0) × (r.total ≡ 0)
unfolding new_response_reader
new_response_reader_limits bytes ends has_context p t c r h = ground arith

-- The limits are the same.
abbrev pub SameLimits : ResponseReader → ResponseReader → Type 0
SameLimits r r' =
    (r'.max_chunks ≡ r.max_chunks) × (r'.max_total ≡ r.max_total) × (r'.max_payload ≡ r.max_payload)

-- What one call of `Next` may change: a chunk counts in full, and the ceilings hold after it.
abbrev pub Advances : ResponseReader → Result NextError ResponseChunk × ResponseReader → Type 0
Advances r (ok c, r') =
    IsBounded r'
    × SameLimits r r'
    × (r'.total ≡ r.total + length c.payload)
    × (r'.chunks ≡ r.chunks + 1)
    × (length c.payload ≤ r.max_payload)
Advances r (err e, r') = IsBounded r' × SameLimits r r'

-- `r'` is the reader after it counted a chunk of `n` bytes.
record Counted (r r' : ResponseReader) (n : ℕ) : Type 0 where
  bounded : IsBounded r'
  same : SameLimits r r'
  total_grows : r'.total ≡ r.total + n
  chunks_grow : r'.chunks ≡ r.chunks + 1
  fits : n ≤ r.max_payload

module _ (snappy : Snappy) (laws : SnappyLaws snappy) where
  finish_payload-Advances :
      (r r' : ResponseReader) (code n : ℕ) (ctx b : Bytes) (e : StreamError)
      (out : Result StreamError Bytes × ℕ)
      → Counted r r' n
      → snappy.read b e n ≡ out
      → Advances r (finish_payload snappy r' code ctx out)
  finish_payload-Advances r r' code n ctx b e (ok p, used) h q =
      ground (arith, h, laws.read_exact b e n p used q)
  finish_payload-Advances r r' code n ctx b e (err x, used) h q = ground (arith, h)

  read_payload-Advances :
      (r r' : ResponseReader) (code n : ℕ) (ctx : Bytes) (limit : Option ℕ)
      → Counted r r' n
      → Advances r (read_payload snappy r' code ctx n limit)
  read_payload-Advances r r' code n ctx none h = ground (arith, h)
  read_payload-Advances r r' code n ctx (some limit) h =
      finish_payload-Advances r r' code n ctx (take limit r'.bytes)
        (limited_end limit r'.bytes r'.ends) _ h refl

  accept_length-Advances :
      (r : ResponseReader) (code : ℕ) (ctx : Bytes) (v : Result VarintError ℕ) (rest : Bytes)
      → IsBounded r
      → r.chunks < r.max_chunks
      → Advances r (accept_length snappy r code ctx (v, rest))
  unfolding accept_length
  accept_length-Advances r code ctx (err e) rest b h = ground (arith, b)
  accept_length-Advances r code ctx (ok n) rest b h =
      split (Bool-cases (ltb r.max_payload n))
        (Bool-cases (ltb ((r.max_total + 2 ^ 64 - r.total) % 2 ^ 64) n)) (Bool-cases (n == 0))
        (Bool-cases (ltb (2 ^ 63 - 1) n))
    where
      r' : ResponseReader
      r' = record r {
        bytes = rest;
        total = (r.total + n) % 2 ^ 64;
        chunks = (r.chunks + 1) % 2 ^ 64;
      }

      counted :
          ltb r.max_payload n ≡ false
          → ltb ((r.max_total + 2 ^ 64 - r.total) % 2 ^ 64) n ≡ false
          → Counted r r' n
      counted p q = ground (arith, b)

      split :
          (ltb r.max_payload n ≡ true) ⊎ (ltb r.max_payload n ≡ false)
          → (ltb ((r.max_total + 2 ^ 64 - r.total) % 2 ^ 64) n ≡ true)
            ⊎ (ltb ((r.max_total + 2 ^ 64 - r.total) % 2 ^ 64) n ≡ false)
          → ((n == 0) ≡ true) ⊎ ((n == 0) ≡ false)
          → (ltb (2 ^ 63 - 1) n ≡ true) ⊎ (ltb (2 ^ 63 - 1) n ≡ false)
          → Advances r (accept_length snappy r code ctx (ok n, rest))
      split (inl p) _ _ _ = rw p (ground (arith, b))
      split (inr p) (inl q) _ _ = rw (p, q) (ground (arith, b))
      split (inr p) (inr q) (inl z) _ = rw (p, q, z) (ground (arith, b, counted p q))
      split (inr p) (inr q) (inr z) (inl m) =
          rw (p, q, z, m) ((counted p q).bounded, (counted p q).same)
      split (inr p) (inr q) (inr z) (inr m) =
          rw (p, q, z, m)
            (read_payload-Advances r r' code n ctx (max_compressed_len n) (counted p q))

  read_context-Advances :
      (r : ResponseReader) (code : ℕ) (with_context : Bool)
      → IsBounded r
      → r.chunks < r.max_chunks
      → Advances r (read_context snappy r code with_context)
  read_context-Advances r code false b h = accept_length-Advances r code [] _ _ b h
  read_context-Advances r code true b h =
      elim (Bool-cases (ltb (length r.bytes) context_bytes_len)) [
        | inl short ↦ rw short (ground (arith, b))
        | inr long ↦ rw long (
            accept_length-Advances (record r { bytes = drop context_bytes_len r.bytes }) code
              (take context_bytes_len r.bytes) _ _ (ground (arith, b)) h)
      ]

  read_code-Advances :
      (r : ResponseReader) (bytes : Bytes)
      → IsBounded r
      → r.chunks < r.max_chunks
      → Advances r (read_code snappy r bytes)
  read_code-Advances r [] b h = (b, omega arith)
  read_code-Advances r (code ∷ rest) b h =
      read_context-Advances (record r { bytes = rest }) code (code == code_success && r.has_context)
        (ground (arith, b)) h

  -- Over a codec that keeps its contract, from a reader within its ceilings every call of `Next`
  -- leaves the reader within them; a chunk that it returns is no longer than the limit per chunk, and
  -- is counted once, with its whole payload, in the totals.
  pub next-Advances : (r : ResponseReader) → IsBounded r → Advances r (next snappy r)
  unfolding next
  next-Advances r b = elim (Bool-cases (r.chunks == r.max_chunks)) [
    | inl full ↦ rw full (b, omega arith)
    | inr room ↦ rw room (read_code-Advances r r.bytes b (ground (arith, b)))
  ]

-- ===== src/Reqresp/Framing/RoundTrip.antt =====
-- The response chunks that `WriteResponseChunk` writes and `Next` reads.
use raidan_sdk.Prelude.{
  ℕ, ◌+◌, ◌-◌, ◌/◌, ◌%◌, ◌^◌, ◌≤◌, ◌<◌, true, false, ◌&&◌, some, [], ◌∷◌, ◌++◌, Bytes, length, take,
  drop, ltb, ◌==◌, if◌then◌else◌, append_assoc, length-append, take-append_eq, take-append_ge,
  drop-append, drop-append_eq, Bool-cases, ◌≡◌, inl, inr, refl, sym, ap, ◌∙◌, arith,
}
use raidan_sdk.Prelude.Result.{Result, ok}
use raidan_sdk.Reqresp.Framing.{
  StreamError, ResponseChunk, ResponseReader, NextError, Snappy, code_success, context_bytes_len,
  accept_length, read_context, read_code, read_length, next, raw_ssz_snappy, write_response_chunk,
  read_consensus_uvarint, max_compressed_len, read_payload, limited_end,
}
use raidan_sdk.Reqresp.Framing.Varint.{
  read_consensus_uvarint-append_uvarint, max_compressed_len_exact,
}
use raidan_sdk.Reqresp.Framing.Limits.{SnappyLaws, IsBounded}

-- A chunk that a reader with room takes: the context is there exactly where the reader expects it,
-- and the payload fits what is left of the ceilings.
pub record IsReadable (r : ResponseReader) (c : ResponseChunk) : Type 0 where
  pub context_expected :
      length c.context ≡ (if c.code == code_success && r.has_context then context_bytes_len else 0)
  pub payload_fits : length c.payload ≤ r.max_payload
  pub total_fits : r.total + length c.payload ≤ r.max_total
  pub chunk_fits : r.chunks < r.max_chunks

length-zero : (b : Bytes) → length b ≡ 0 → b ≡ []
length-zero [] h = refl
length-zero (x ∷ b) h = absurd (omega arith)

-- The reader behind the chunk.
pub after : ResponseReader → ResponseChunk → Bytes → ResponseReader
after r c rest = record r {
  bytes = rest;
  total = r.total + length c.payload;
  chunks = r.chunks + 1;
}

module _ (snappy : Snappy) (laws : SnappyLaws snappy) where
  -- What stands behind the context.
  abbrev body : ResponseChunk → Bytes → Bytes
  body c rest = raw_ssz_snappy snappy c.payload ++ rest

  pub read_prefix :
      (ends : StreamError) (p rest : Bytes)
      → length p < 2 ^ 64
      → read_consensus_uvarint ends (raw_ssz_snappy snappy p ++ rest)
        ≡ (ok (length p), snappy.compress p ++ rest)
  unfolding raw_ssz_snappy
  read_prefix ends p rest h =
      rw append_assoc
        (read_consensus_uvarint-append_uvarint ends (length p) (snappy.compress p ++ rest) h)

  -- The limit on compressed bytes does not cut off the frames of a payload within the ceiling.
  pub take-compress :
      (limit : ℕ) (p rest : Bytes)
      → limit ≡ 32 + length p + length p / 6
      → take limit (snappy.compress p ++ rest)
        ≡ snappy.compress p ++ take (limit - length (snappy.compress p)) rest
  take-compress limit p rest h =
      take-append_ge limit (snappy.compress p) rest (omega (arith, laws.length-compress p))

  finish :
      (r : ResponseReader) (code limit : ℕ) (ctx p rest : Bytes)
      → r.bytes ≡ snappy.compress p ++ rest
      → 0 < length p
      → limit ≡ 32 + length p + length p / 6
      → read_payload snappy r code ctx (length p) (some limit)
        ≡ (ok (record { code = code; context = ctx; payload = p }), record r { bytes = rest })
  finish r code limit ctx p rest shape pos h =
      let view : take limit r.bytes
          ≡ snappy.compress p ++ take (limit - length (snappy.compress p)) rest =
        rw shape (take-compress limit p rest h) in
      let more : Bytes = take (limit - length (snappy.compress p)) rest in
      rw (view, laws.read-compress p more (limited_end limit r.bytes r.ends) pos)
        (ap
          (λ (b : Bytes).
            let out : Result NextError ResponseChunk × ResponseReader =
              (ok (record { code = code; context = ctx; payload = p }), record r { bytes = b }) in
            out)
          (rw shape (drop-append (snappy.compress p) rest)))

  accept :
      (r : ResponseReader) (code : ℕ) (ctx p rest : Bytes)
      → IsBounded r
      → IsReadable r (record { code = code; context = ctx; payload = p })
      → accept_length snappy r code ctx (ok (length p), snappy.compress p ++ rest) ≡ (
        ok (record { code = code; context = ctx; payload = p }),
        after r (record { code = code; context = ctx; payload = p }) rest,
      )
  unfolding accept_length after
  accept r code ctx [] rest b h =
      let fits : ltb r.max_payload 0 ≡ false = ground (arith, h) in
      let total_fits : ltb ((r.max_total + 2 ^ 64 - r.total) % 2 ^ 64) 0 ≡ false =
        ground (arith, h) in
      rw (fits, total_fits, laws.compress-empty) (ground (arith, b, h))
  accept r code ctx (x ∷ p) rest b h =
      let n : ℕ = length (x ∷ p) in
      let fits : ltb r.max_payload n ≡ false = ground (arith, h) in
      let total_fits : ltb ((r.max_total + 2 ^ 64 - r.total) % 2 ^ 64) n ≡ false =
        ground (arith, b, h) in
      let nonzero : (n == 0) ≡ false = ground arith in
      let index_fits : ltb (2 ^ 63 - 1) n ≡ false = ground (arith, b, h) in
      let total_eq : (r.total + n) % 2 ^ 64 ≡ r.total + n = omega (arith, b, h) in
      let chunks_eq : (r.chunks + 1) % 2 ^ 64 ≡ r.chunks + 1 = omega (arith, b, h) in
      let limit_is : max_compressed_len n ≡ some (32 + n + n / 6) =
        max_compressed_len_exact n (omega (arith, b, h)) ∙ ground (arith, b, h) in
      rw (fits, total_fits, nonzero, index_fits, total_eq, chunks_eq, limit_is)
        (finish
          (record r {
            bytes = snappy.compress (x ∷ p) ++ rest;
            total = r.total + n;
            chunks = r.chunks + 1;
          })
          code (32 + n + n / 6) ctx (x ∷ p) rest refl (omega arith) refl)

  read_body :
      (r : ResponseReader) (code : ℕ) (ctx p rest : Bytes)
      → IsBounded r
      → IsReadable r (record { code = code; context = ctx; payload = p })
      → r.bytes ≡ raw_ssz_snappy snappy p ++ rest
      → read_length snappy r code ctx ≡ (
        ok (record { code = code; context = ctx; payload = p }),
        after r (record { code = code; context = ctx; payload = p }) rest,
      )
  read_body r code ctx p rest b h shape =
      ap (accept_length snappy r code ctx)
        (rw shape (read_prefix r.ends p rest (omega (arith, b, h))))
      ∙ accept r code ctx p rest b h

  written :
      (r : ResponseReader) (c : ResponseChunk) (wire : Bytes)
      → IsReadable r c
      → write_response_chunk snappy c ≡ some wire
      → wire ≡ c.code ∷ (c.context ++ raw_ssz_snappy snappy c.payload)
  unfolding write_response_chunk
  written r c wire h w = ground (arith, h, length-zero c.context)

  with_context :
      (r : ResponseReader) (c : ResponseChunk) (rest : Bytes)
      → IsBounded r
      → IsReadable r c
      → length c.context ≡ context_bytes_len
      → r.bytes ≡ c.context ++ (raw_ssz_snappy snappy c.payload ++ rest)
      → read_context snappy r c.code true ≡ (ok c, after r c rest)
  unfolding after
  with_context r c rest b h four shape =
      let behind : Bytes = raw_ssz_snappy snappy c.payload ++ rest in
      let long : ltb (length r.bytes) context_bytes_len ≡ false =
        rw shape (ground (arith, four, length-append c.context behind)) in
      let dropped : drop context_bytes_len r.bytes ≡ behind =
        rw shape (drop-append_eq context_bytes_len c.context behind four) in
      let taken : take context_bytes_len r.bytes ≡ c.context =
        rw shape (take-append_eq context_bytes_len c.context behind four) in
      rw (long, taken)
        (read_body (record r { bytes = drop context_bytes_len r.bytes }) c.code c.context c.payload
          rest (ground (arith, b)) (ground (arith, h)) dropped)

  -- `Next` gives back the chunk that `WriteResponseChunk` wrote, whatever follows it on the stream,
  -- and counts it, for a reader within its ceilings that expects the chunk's context and has room for
  -- it, over a codec that keeps its contract.
  pub next-write_response_chunk :
      (r : ResponseReader) (c : ResponseChunk) (wire rest : Bytes)
      → IsBounded r
      → IsReadable r c
      → write_response_chunk snappy c ≡ some wire
      → r.bytes ≡ wire ++ rest
      → next snappy r ≡ (ok c, after r c rest)
  unfolding next after
  next-write_response_chunk r c wire rest b h w shape =
      let room : (r.chunks == r.max_chunks) ≡ false = ground (arith, h) in
      let behind : Bytes = raw_ssz_snappy snappy c.payload ++ rest in
      let whole : r.bytes ≡ c.code ∷ (c.context ++ behind) =
        shape
        ∙ ap (λ (l : Bytes). l ++ rest) (written r c wire h w)
        ∙ ap (λ (l : Bytes). c.code ∷ l)
            (append_assoc c.context (raw_ssz_snappy snappy c.payload) rest) in
      let r' : ResponseReader = record r { bytes = c.context ++ behind } in
      rw room (
        ap (read_code snappy r) whole
        ∙ elim (Bool-cases (c.code == code_success && r.has_context)) [
          | inl expected ↦ rw expected (
              with_context r' c rest (ground (arith, b)) (ground (arith, h)) (ground (arith, h))
                refl)
          | inr not_expected ↦
              let none_there : c.context ≡ [] = length-zero c.context (ground (arith, h)) in
              rw not_expected (
                read_body r' c.code [] c.payload rest (ground (arith, b)) (ground (arith, h))
                  (ap (λ (l : Bytes). l ++ behind) none_there)
                ∙ ap
                    (λ (l : Bytes).
                      let out : Result NextError ResponseChunk × ResponseReader =
                        (ok (record c { context = l }), after r c rest) in
                      out)
                    (sym none_there))
        ])

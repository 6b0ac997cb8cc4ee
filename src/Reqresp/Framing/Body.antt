-- ===== src/Reqresp/Framing/Body.antt =====
-- reqresp/framing.go and reqresp/inbound.go: the write that outlasts short writes, and the read of one
-- request body.
use raidan_sdk.Prelude.{
  ℕ, zero, suc, ◌≤◌, Bool, true, false, ◌||◌, Option, none, some, [], ◌∷◌, ◌++◌, Bytes, length,
  take, drop, length-drop, take-append-drop, append_assoc, ltb, ◌==◌, if◌then◌else◌, Bool-cases,
  ◌≡◌, inl, inr, refl, ap, ◌∙◌, arith,
}
use raidan_sdk.Prelude.Result.{Result, ok, err}
use raidan_sdk.Reqresp.Framing.{
  ResponseChunk, ResponseReader, NextError, NewReaderError, new_response_reader, next, is_eof,
  StreamError, eof, unexpected_eof, VarintError, varint_read, varint_overflow, varint_too_long,
  Snappy, max_payload_size, max_compressed_len, read_consensus_uvarint, limited_end,
}

pub data WriteError (E : Type 0) : Type 0 where
  invalid_count : ℕ → WriteError E
  write_failed : E → WriteError E
  short_write out_of_rounds : WriteError E

-- How a write of all bytes ends: its error, and what the writer took.
pub record Written (E : Type 0) : Type 0 where
  pub error : Option (WriteError E)
  pub wire : Bytes

module _ {E : Type 0} (write : Bytes → ℕ × Option E) where
  abbrev after_write : Bytes → Written E → Written E
  after_write taken w = record w { wire = taken ++ w.wire }

  abbrev on_taken : Bytes → Written E → Bool → Option E → Written E
  on_taken taken rest stuck (some e) = record { error = some (write_failed e); wire = taken }
  on_taken taken rest true none = record { error = some short_write; wire = taken }
  on_taken taken rest false none = after_write taken rest

  -- One round behind the call of the writer; `more` is the next round. A count is a number here, so it
  -- is not negative; a count beyond the buffer is no number of bytes taken.
  abbrev on_count : Bytes → (Bytes → Written E) → ℕ × Option E → Written E
  on_count payload more (n, o) =
      if ltb (length payload) n
      then record { error = some (invalid_count n); wire = [] }
      else on_taken (take n payload) (more (drop n payload)) (n == 0) o

  unfoldable pub write_full_rounds : ℕ → Bytes → Written E
  write_full_rounds k [] = record { error = none; wire = [] }
  write_full_rounds zero (b ∷ p) = record { error = some out_of_rounds; wire = [] }
  write_full_rounds (suc k) (b ∷ p) = on_count (b ∷ p) (write_full_rounds k) (write (b ∷ p))

  -- Each round but the last takes a byte at least.
  unfoldable pub write_full : Bytes → Written E
  write_full payload = write_full_rounds (length payload) payload

-- Every byte was taken where there is no error, and the front of them where there is one; the rounds
-- do not run out.
abbrev pub Completes : {E : Type 0} → Bytes → Bytes → Option (WriteError E) → Type 0
Completes p wire none = wire ≡ p
Completes p wire (some out_of_rounds) = ⊥
Completes p wire (some e) = (rest : Bytes) × (wire ++ rest ≡ p)

after-Completes :
    {E : Type 0} (n : ℕ) (p wire : Bytes) (o : Option (WriteError E))
    → Completes (drop n p) wire o
    → Completes p (take n p ++ wire) o
after-Completes n p wire none h = rw h (take-append-drop n p)
after-Completes n p wire (some out_of_rounds) h = h
after-Completes n p wire (some (invalid_count m)) h = (
  h.0,
  append_assoc (take n p) wire h.0 ∙ ap (λ (l : Bytes). take n p ++ l) h.1 ∙ take-append-drop n p,
)
after-Completes n p wire (some (write_failed e)) h = (
  h.0,
  append_assoc (take n p) wire h.0 ∙ ap (λ (l : Bytes). take n p ++ l) h.1 ∙ take-append-drop n p,
)
after-Completes n p wire (some short_write) h = (
  h.0,
  append_assoc (take n p) wire h.0 ∙ ap (λ (l : Bytes). take n p ++ l) h.1 ∙ take-append-drop n p,
)

module _ {E : Type 0} (write : Bytes → ℕ × Option E) where
  write_full_rounds-Completes :
      (k : ℕ) (p : Bytes)
      → length p ≤ k
      → Completes p (write_full_rounds write k p).wire (write_full_rounds write k p).error
  unfolding write_full_rounds
  write_full_rounds-Completes k [] h = refl
  write_full_rounds-Completes zero (b ∷ p) h = absurd (omega arith)
  write_full_rounds-Completes (suc k) (b ∷ p) h =
      go (write (b ∷ p)).0 (write (b ∷ p)).1 (λ q small. write_full_rounds-Completes k q small)
    where
      go :
          (n : ℕ) (o : Option E)
          → ((q : Bytes)
              → length q ≤ k
              → Completes q (write_full_rounds write k q).wire (write_full_rounds write k q).error)
          → Completes
              (b ∷ p)
              (on_count write (b ∷ p) (write_full_rounds write k) (n, o)).wire
              (on_count write (b ∷ p) (write_full_rounds write k) (n, o)).error
      go n o more = elim (Bool-cases (ltb (length (b ∷ p)) n)) [
        | inl beyond ↦ rw beyond (b ∷ p, refl)
        | inr within ↦ elim (Bool-cases (n == 0)) [
          | inl stuck ↦
              rw (within, stuck) (stuck_case n o (write_full_rounds write k (drop n (b ∷ p))))
          | inr moves ↦
              rw (within, moves)
                (moving_case n o (more (drop n (b ∷ p)) (ground (arith, length-drop n (b ∷ p)))))
        ]
      ]
        where
          stuck_case :
              (n : ℕ) (o : Option E) (w : Written E)
              → Completes
                  (b ∷ p)
                  (on_taken write (take n (b ∷ p)) w true o).wire
                  (on_taken write (take n (b ∷ p)) w true o).error
          stuck_case n none w = (drop n (b ∷ p), take-append-drop n (b ∷ p))
          stuck_case n (some e) w = (drop n (b ∷ p), take-append-drop n (b ∷ p))

          moving_case :
              (n : ℕ) (o : Option E)
              → Completes
                  (drop n (b ∷ p))
                  (write_full_rounds write k (drop n (b ∷ p))).wire
                  (write_full_rounds write k (drop n (b ∷ p))).error
              → Completes
                  (b ∷ p)
                  (on_taken write
                    (take n (b ∷ p))
                    (write_full_rounds write k (drop n (b ∷ p)))
                    false
                    o).wire
                  (on_taken write
                    (take n (b ∷ p))
                    (write_full_rounds write k (drop n (b ∷ p)))
                    false
                    o).error
          moving_case n none h =
              after-Completes n (b ∷ p) (write_full_rounds write k (drop n (b ∷ p))).wire
                (write_full_rounds write k (drop n (b ∷ p))).error h
          moving_case n (some e) h = (drop n (b ∷ p), take-append-drop n (b ∷ p))

  -- A full write ends, whatever the writer does. Where it reports no error the writer took the whole
  -- payload, in order; where it reports one the writer took a front of it.
  pub write_full-Completes :
      (p : Bytes) → Completes p (write_full write p).wire (write_full write p).error
  unfolding write_full
  write_full-Completes p = write_full_rounds-Completes (length p) p (omega arith)

pub data BodyError : Type 0 where
  bad_max_request request_too_long no_compressed_limit_for_request : BodyError
  request_length : VarintError → BodyError
  request_payload : StreamError → BodyError

-- `binary.ReadUvarint` reads as `read_consensus_uvarint` does, and reports an end behind the first byte
-- as unexpected and an eleventh byte as an overflow.
abbrev read_uvarint_error : Bytes → VarintError → VarintError
read_uvarint_error (b ∷ bs) (varint_read eof) = varint_read unexpected_eof
read_uvarint_error b varint_too_long = varint_overflow
read_uvarint_error b e = e

module _ (snappy : Snappy) where
  abbrev pub body_of : Result StreamError Bytes × ℕ → Result BodyError Bytes
  body_of (ok p, used) = ok p
  body_of (err e, used) = err (request_payload e)

  abbrev pub read_body : StreamError → ℕ → Bytes → Option ℕ → Result BodyError Bytes
  read_body ends len rest none = err no_compressed_limit_for_request
  read_body ends len rest (some limit) =
      body_of (snappy.read (take limit rest) (limited_end limit rest ends) len)

  abbrev pub on_body_length :
      StreamError → Bytes → ℕ → Result VarintError ℕ × Bytes → Result BodyError Bytes
  on_body_length ends b max (err e, rest) = err (request_length (read_uvarint_error b e))
  on_body_length ends b max (ok len, rest) =
      if ltb max len
      then err request_too_long
      else if len == 0
      then ok []
      else read_body ends len rest (max_compressed_len len)

  -- `ReadSSZSnappy` of a stream that is not nil.
  unfoldable pub read_ssz_snappy : StreamError → ℕ → Bytes → Result BodyError Bytes
  read_ssz_snappy ends max b =
      if max == 0 || ltb max_payload_size max
      then err bad_max_request
      else on_body_length ends b max (read_consensus_uvarint ends b)

pub data SingleError : Type 0 where
  single_reader : NewReaderError → SingleError
  single_empty : SingleError
  single_next : NextError → SingleError

abbrev on_single : Result NextError ResponseChunk → Result SingleError ResponseChunk
on_single (ok c) = ok c
on_single (err e) = if is_eof e then err single_empty else err (single_next e)

module _ (snappy : Snappy) where
  abbrev single_of : Result NewReaderError ResponseReader → Result SingleError ResponseChunk
  single_of (err e) = err (single_reader e)
  single_of (ok r) = on_single (next snappy r).0

  unfoldable pub read_response_chunk :
      Bytes → StreamError → Bool → ℕ → Result SingleError ResponseChunk
  read_response_chunk bytes ends has_context max =
      single_of (new_response_reader bytes ends has_context max max 1)

  -- A frame behind a prefix that the caller chose.
  unfoldable pub raw_ssz_snappy_with_varint : Bytes → Bytes → Bytes
  raw_ssz_snappy_with_varint prefix payload = prefix ++ snappy.compress payload

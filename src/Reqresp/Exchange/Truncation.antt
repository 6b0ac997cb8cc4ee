-- ===== src/Reqresp/Exchange/Truncation.antt =====
-- A response stream that is cut behind a chunk's code.
use raidan_sdk.Prelude.{
  ℕ, suc, ◌<◌, Bool, true, false, ◌&&◌, List, [], ◌∷◌, Bytes, ◌==◌, ◌≡◌, refl, ap, ◌∙◌, arith,
}
use raidan_sdk.Prelude.Result.{err}
use raidan_sdk.Reqresp.Framing.{
  eof, ResponseChunk, ResponseReader, NextError, context_read, length_read, varint_read, Snappy,
  code_success, next, read_code, read_context, accept_length, read_consensus_uvarint, varint_rounds,
  is_eof,
}
use raidan_sdk.Reqresp.Exchange.{chunks_read, read_more, on_next}

module _ (snappy : Snappy) where
  context_cut :
      (r : ResponseReader) (code : ℕ) (b : Bool)
      → r.bytes ≡ []
      → r.ends ≡ eof
      → (e : NextError) × (r' : ResponseReader) × (read_context snappy r code b ≡ (err e, r'))
        × (is_eof e ≡ true)
  unfolding accept_length read_consensus_uvarint varint_rounds
  context_cut r code true cut end =
      (context_read eof, record r { bytes = [] }, rw (cut, end) refl, refl)
  context_cut r code false cut end =
      (length_read (varint_read eof), record r { bytes = [] }, rw (cut, end) refl, refl)

  -- A response that the peer cuts behind the code of a further chunk is taken for a whole one: the loop
  -- ends without an error and returns the chunks before it. The reader has room for the chunk.
  pub read_more_cut :
      (fuel : ℕ) (r : ResponseReader) (cs : List ResponseChunk) (code : ℕ)
      → r.chunks < r.max_chunks
      → r.bytes ≡ code ∷ []
      → r.ends ≡ eof
      → read_more snappy (suc fuel) r cs ≡ chunks_read cs
  unfolding read_more next
  read_more_cut fuel r cs code room cut end =
      let roomy : (r.chunks == r.max_chunks) ≡ false = ground arith in
      let (e, r', at_cut, is_end) =
        context_cut (record r { bytes = [] }) code (code == code_success && r.has_context) refl
          end in
      rw roomy (
        ap (λ (b : Bytes). on_next (read_more snappy fuel) cs (read_code snappy r b)) cut
        ∙ ap (on_next (read_more snappy fuel) cs) at_cut
        ∙ rw is_end refl)

-- ===== src/Reqresp/Exchange/Chunks.antt =====
-- What one exchange returns, within which bounds, and when it takes a cut stream for a whole one.
use raidan_sdk.Prelude.{
  ℕ, zero, suc, ◌+◌, ◌≤◌, ◌<◌, Bool, not, ◌||◌, Option, some, none, List, [], ◌∷◌, ◌++◌, Bytes,
  length, length-append, ◌==◌, if◌then◌else◌, Bool-cases, ◌≡◌, inl, inr, refl, sym, arith,
}
use raidan_sdk.Prelude.Result.{Result, ok, err}
use raidan_sdk.Reqresp.Framing.{
  ResponseChunk, ResponseReader, NextError, NewReaderError, Snappy, code_success, next, is_eof,
  max_payload_size, max_total_response_size, max_response_chunks, new_response_reader,
}
use raidan_sdk.Reqresp.Framing.Limits.{
  SnappyLaws, IsBounded, Advances, next-Advances, new_response_reader-IsBounded,
  new_response_reader_limits,
}
use raidan_sdk.Reqresp.Exchange.{
  Reading, chunks_read, chunk_failed, no_fuel, read_more, read_chunks, read_rest, on_next,
  RequestOptions, Peer, RequestError, out_of_fuel, or_default, request, receive, from_reading,
  on_open, on_close_write, on_deadline, on_before_send, on_write,
}

-- The payload bytes of some chunks.
abbrev pub payload_total : List ResponseChunk → ℕ
payload_total [] = 0
payload_total (c ∷ cs) = length c.payload + payload_total cs

payload_total-append :
    (cs ds : List ResponseChunk) → payload_total (cs ++ ds) ≡ payload_total cs + payload_total ds
payload_total-append [] ds = omega arith
payload_total-append (c ∷ cs) ds = omega (arith, payload_total-append cs ds)

-- The chunks read so far are the ones that the reader has counted.
record Tallies (r : ResponseReader) (cs : List ResponseChunk) : Type 0 where
  bounded : IsBounded r
  counted : length cs ≡ r.chunks
  totalled : payload_total cs ≡ r.total

-- A reading ends, with no more chunks than `m` and no more payload bytes than `t`.
abbrev Ends : ℕ → ℕ → Reading → Type 0
Ends m t (chunks_read cs) = (length cs ≤ m) × (payload_total cs ≤ t)
Ends m t (chunk_failed e) = Unit {0}
Ends m t no_fuel = ⊥

Ends-same : (m m' t t' : ℕ) (x : Reading) → m' ≡ m → t' ≡ t → Ends m t x → Ends m' t' x
Ends-same m m' t t' x p q h = rw (p, q) h

module _ (snappy : Snappy) (laws : SnappyLaws snappy) where
  read_more-Ends :
      (fuel : ℕ) (r : ResponseReader) (cs : List ResponseChunk)
      → Tallies r cs
      → r.max_chunks < fuel + r.chunks
      → Ends r.max_chunks r.max_total (read_more snappy fuel r cs)
  unfolding read_more
  read_more-Ends zero r cs t h = absurd (omega (arith, t))
  read_more-Ends (suc fuel) r cs t h =
      go (next snappy r).0 (next snappy r).1 (next-Advances snappy laws r t.bounded)
        (λ r' ds t' h'. read_more-Ends fuel r' ds t' h')
    where
      go :
          (out : Result NextError ResponseChunk) (r' : ResponseReader)
          → Advances r (out, r')
          → ((s : ResponseReader) (ds : List ResponseChunk)
              → Tallies s ds
              → s.max_chunks < fuel + s.chunks
              → Ends s.max_chunks s.max_total (read_more snappy fuel s ds))
          → Ends r.max_chunks r.max_total (on_next (read_more snappy fuel) cs (out, r'))
      go (err e) r' a more = ground (arith, t)
      go (ok c) r' a more =
          let ds : List ResponseChunk = cs ++ (c ∷ []) in
          let counted : length ds ≡ r'.chunks = omega (arith, t, a, length-append cs (c ∷ [])) in
          let totalled : payload_total ds ≡ r'.total =
            omega (arith, t, a, payload_total-append cs (c ∷ [])) in
          let tallies : Tallies r' ds = record {
            bounded = a.0;
            counted = counted;
            totalled = totalled;
          } in
          let later : Ends r'.max_chunks r'.max_total (read_more snappy fuel r' ds) =
            more r' ds tallies (omega (arith, a)) in
          elim (Bool-cases (c.code == code_success)) [
            | inl success ↦ rw success (Ends-same _ _ _ _ _ (sym a.1.0) (sym a.1.1) later)
            | inr failure ↦ rw failure (omega (arith, a, counted, totalled))
          ]

  abbrev OptionEnds : ResponseReader → Option Reading → Type 0
  OptionEnds r none = Unit {0}
  OptionEnds r (some x) = Ends r.max_chunks r.max_total x

  read_chunks-Ends :
      (all : Bool) (r : ResponseReader)
      → IsBounded r
      → r.chunks ≡ 0
      → r.total ≡ 0
      → OptionEnds r (read_chunks snappy all r)
  unfolding read_chunks
  read_chunks-Ends all r b zc zt =
      go (next snappy r).0 (next snappy r).1 (next-Advances snappy laws r b)
    where
      go :
          (out : Result NextError ResponseChunk) (r' : ResponseReader)
          → Advances r (out, r')
          → OptionEnds r (read_rest snappy all (out, r'))
      go (err e) r' a = elim (Bool-cases (is_eof e)) [ inl y ↦ rw y tt | inr n ↦ rw n tt ]
      go (ok c) r' a =
          let later : Ends r'.max_chunks r'.max_total
              (read_more snappy (r'.max_chunks + 1) r' (c ∷ [])) =
            read_more-Ends (r'.max_chunks + 1) r' (c ∷ [])
              (record {
                bounded = a.0;
                counted = omega (arith, a, zc);
                totalled = omega (arith, a, zt);
              })
              (omega (arith, a)) in
          elim (Bool-cases (not all || not (c.code == code_success))) [
            | inl stop ↦ rw stop (omega (arith, a, b, zc, zt))
            | inr on ↦ rw on (Ends-same _ _ _ _ _ (sym a.1.0) (sym a.1.1) later)
          ]

  module _ {E : Type 0} (options : RequestOptions) (peer : Peer E) (proto payload : Bytes) where
    -- A result of an exchange within the limits that were asked for, or their defaults.
    abbrev pub Within : Result (RequestError E) (List ResponseChunk) → Type 0
    Within (ok cs) =
        (length cs ≤ or_default options.max_chunks max_response_chunks)
        × (payload_total cs ≤ or_default options.max_total_payload max_total_response_size)
    Within (err out_of_fuel) = ⊥
    Within (err e) = Unit {0}

    receive-Within :
        (all : Bool) (r : Result NewReaderError ResponseReader)
        → new_response_reader peer.bytes peer.ends options.has_context
            (or_default options.max_payload max_payload_size)
            (or_default options.max_total_payload max_total_response_size)
            (or_default options.max_chunks max_response_chunks)
          ≡ r
        → Within (receive snappy options peer proto payload all r).result
    receive-Within all (err e) h = tt
    receive-Within all (ok r) h =
        let limits = new_response_reader_limits _ _ _ _ _ _ r h in
        go limits (read_chunks snappy all r) (
          read_chunks-Ends all r (new_response_reader-IsBounded _ _ _ _ _ _ r h).0 limits.2
            limits.3)
      where
        go :
            (r.max_chunks ≡ or_default options.max_chunks max_response_chunks)
              × (r.max_total ≡ or_default options.max_total_payload max_total_response_size)
              × (r.chunks ≡ 0)
              × (r.total ≡ 0)
            → (x : Option Reading) → OptionEnds r x
            → Within (from_reading snappy options peer proto payload x).result
        go l none e = tt
        go l (some (chunks_read cs)) e = omega (arith, l, e)
        go l (some (chunk_failed x)) e = tt
        go l (some no_fuel) e = e

    on_close_write-Within :
        (all : Bool) (e : Option E)
        → Within (on_close_write snappy options peer proto payload all e).result
    on_close_write-Within all (some e) = tt
    on_close_write-Within all none = elim (Bool-cases options.skip_response) [
      | inl skips ↦ rw skips (omega arith)
      | inr reads ↦ rw reads (receive-Within all _ refl)
    ]

    on_write-Within :
        (all : Bool) (e : Option E)
        → Within (on_write snappy options peer proto payload all e).result
    on_write-Within all (some e) = tt
    on_write-Within all none = on_close_write-Within all peer.close_write_error

    on_before_send-Within :
        (all : Bool) (e : Option E)
        → Within (on_before_send snappy options peer proto payload all e).result
    on_before_send-Within all (some e) = tt
    on_before_send-Within all none =
        on_write-Within all (if options.no_body then none else peer.write_error)

    on_deadline-Within :
        (all : Bool) (e : Option E)
        → Within (on_deadline snappy options peer proto payload all e).result
    on_deadline-Within all (some e) = tt
    on_deadline-Within all none = on_before_send-Within all peer.before_send_error

    on_open-Within :
        (all : Bool) (e : Option E)
        → Within (on_open snappy options peer proto payload all e).result
    on_open-Within all (some e) = tt
    on_open-Within all none = on_deadline-Within all peer.deadline_error

    -- Over a codec that keeps its contract, every exchange ends: the loop over the chunks does not run
    -- out of its rounds. One that succeeds returns no more chunks, and no more payload bytes in all,
    -- than the limits that were asked for, or their defaults where these are zero.
    pub request-Within :
        (all : Bool) → Within (request snappy options peer proto payload all).result
    unfolding request
    request-Within all = on_open-Within all peer.open_error

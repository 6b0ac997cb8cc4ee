-- ===== src/Mplex/RoundTrip.antt =====
-- The frames that `send` writes and `Drain` reads, and a frame header that `Drain` never gets past.
use raidan_sdk.Prelude.{
  ℕ, ◌+◌, ◌*◌, ◌/◌, ◌%◌, ◌^◌, ◌≤◌, ◌<◌, bit_and, bit_or, none, some, List, [], ◌∷◌, ◌++◌, Bytes,
  All, length, drop, append_assoc, length-append, drop-append, take-append, drop-append_le, ◌≡◌,
  refl, ap, ◌∙◌, arith,
}
use raidan_sdk.Prelude.Bits.{bit_or_below, mask_low3}
use raidan_sdk.Uvarint.{value, append_uvarint, uvarint}
use raidan_sdk.Uvarint.RoundTrip.{uvarint-append_uvarint}
use raidan_sdk.Mplex.{
  Frame, Conn, ReadEnd, max_frame, frame_bytes, parse, frames_of, drain, end_error,
}
use raidan_sdk.Mplex.Parse.{parse_of, uvarint-append, uvarint_count}
use raidan_sdk.Mplex.Drain.{arrived, frames_of_found, frames_of-none, drain-frames_of}

-- What `send` accepts: a stream ID up to 2^60, a flag of three bits, a payload up to `max_frame`.
pub record IsSendable (f : Frame) : Type 0 where
  pub stream_fits : f.stream ≤ 2 ^ 60
  pub flag_fits : f.flag < 8
  pub payload_fits : length f.payload ≤ max_frame

abbrev pub bytes_of : Frame → Bytes
bytes_of f = frame_bytes f.stream f.flag f.payload

header_word :
    (f : Frame) → IsSendable f → bit_or (f.stream * 8 % 2 ^ 64) f.flag ≡ f.stream * 8 + f.flag
header_word f s =
    let fits : f.stream * 8 % 2 ^ 64 ≡ f.stream * 2 ^ 3 = omega (arith, s) in
    rw fits (bit_or_below 3 f.stream f.flag s.flag_fits)

append_uvarint-groups : (b : Bytes) (x : ℕ) → append_uvarint b x ≡ b ++ append_uvarint [] x
unfolding append_uvarint
append_uvarint-groups b x = refl

-- A header, a length and a payload of that length.
parse_parts :
    (head size payload rest : Bytes) (h : ℕ)
    → uvarint (head ++ (size ++ (payload ++ rest))) ≡ value h (length head)
    → uvarint (size ++ (payload ++ rest)) ≡ value (length payload) (length size)
    → length payload ≤ max_frame
    → parse (head ++ (size ++ (payload ++ rest)))
      ≡ some (
        record { stream = h / 8; flag = bit_and h 7; payload = payload },
        length head + length size + length payload,
      )
parse_parts head size payload rest h first second small =
    rw (parse_of whole h (length head) (length payload) (length size) first behind small inside)
      (rw (cut, take-append payload rest) refl)
  where
    whole : Bytes
    whole = head ++ (size ++ (payload ++ rest))

    behind : uvarint (drop (length head) whole) ≡ value (length payload) (length size)
    behind = rw (drop-append head (size ++ (payload ++ rest))) second

    inside : length head + length size + length payload ≤ length whole
    inside = omega (
      arith,
      length-append head (size ++ (payload ++ rest)),
      length-append size (payload ++ rest),
      length-append payload rest,
    )

    cut : drop (length head + length size) whole ≡ payload ++ rest
    cut = rw (← append_assoc, ← length-append) (drop-append (head ++ size) (payload ++ rest))

-- A frame that `send` writes is parsed back, with its whole length, whatever follows it.
pub parse-frame_bytes :
    (f : Frame) (rest : Bytes)
    → IsSendable f
    → parse (bytes_of f ++ rest) ≡ some (f, length (bytes_of f))
parse-frame_bytes f rest s = rw (split rest) (parsed ∙ ap some same)
  where
    h : ℕ
    h = f.stream * 8 + f.flag

    head : Bytes
    head = append_uvarint [] h

    size : Bytes
    size = append_uvarint [] (length f.payload)

    shape : bytes_of f ≡ head ++ (size ++ f.payload)
    shape =
        unfold frame_bytes in
        rw (header_word f s) (
          ap (λ (b : Bytes). b ++ f.payload) (append_uvarint-groups head (length f.payload))
          ∙ append_assoc head size f.payload)

    split : (r : Bytes) → bytes_of f ++ r ≡ head ++ (size ++ (f.payload ++ r))
    split r =
        ap (λ (b : Bytes). b ++ r) shape
        ∙ append_assoc head (size ++ f.payload) r
        ∙ ap (λ (b : Bytes). head ++ b) (append_assoc size f.payload r)

    parsed :
        parse (head ++ (size ++ (f.payload ++ rest)))
        ≡ some (
          record { stream = h / 8; flag = bit_and h 7; payload = f.payload },
          length head + length size + length f.payload,
        )
    parsed =
        parse_parts head size f.payload rest h
          (uvarint-append_uvarint h (size ++ (f.payload ++ rest)) (omega (arith, s)))
          (uvarint-append_uvarint (length f.payload) (f.payload ++ rest) (omega (arith, s)))
          s.payload_fits

    same :
        ◌≡◌ {A = Frame × ℕ}
          (
            record { stream = h / 8; flag = bit_and h 7; payload = f.payload },
            length head + length size + length f.payload,
          )
          (f, length (bytes_of f))
    same = ground (
      arith,
      s,
      mask_low3 h,
      shape,
      length-append head (size ++ f.payload),
      length-append size f.payload,
    )

-- What the peer writes for a list of frames.
abbrev pub stream_of : List Frame → Bytes
stream_of [] = []
stream_of (f ∷ fs) = bytes_of f ++ stream_of fs

frames_of-stream_of :
    (fs : List Frame) (rest : Bytes)
    → All IsSendable fs
    → parse rest ≡ none
    → frames_of (stream_of fs ++ rest) ≡ (fs, rest)
frames_of-stream_of [] rest s stop = frames_of-none rest stop
frames_of-stream_of (f ∷ fs) rest (s, ss) stop = rw append_assoc (
    frames_of_found (bytes_of f ++ (stream_of fs ++ rest)) f (length (bytes_of f))
      (parse-frame_bytes f (stream_of fs ++ rest) s)
    ∙ rw (drop-append (bytes_of f) (stream_of fs ++ rest))
        (ap (λ (r : List Frame × Bytes). (f ∷ r.0, r.1)) (frames_of-stream_of fs rest ss stop)))

-- The peer's bytes are whole frames, each with a stream ID up to 2^60, a flag below 8 and a payload
-- up to `max_frame`, and behind them an unfinished one. However the reads cut them up, a `Drain`
-- that starts with an empty buffer returns exactly those frames, in order, and keeps the unfinished
-- bytes for the next call.
pub drain-stream_of :
    {E : Type 0} (c : Conn) (fs : List Frame) (partial : Bytes) (reads : List Bytes) (last : Bytes)
    (e : ReadEnd E)
    → All IsSendable fs
    → parse partial ≡ none
    → c.buf ≡ []
    → arrived reads last ≡ stream_of fs ++ partial
    → ((drain c reads last e).frames ≡ fs) × ((drain c reads last e).conn.buf ≡ partial)
drain-stream_of c fs partial reads last e s stop empty arrives =
    let all : c.buf ++ arrived reads last ≡ stream_of fs ++ partial = rw empty arrives in
    let found : frames_of (c.buf ++ arrived reads last) ≡ (fs, partial) =
      rw all (frames_of-stream_of fs partial s stop) in
    let (frames, rest, err) = drain-frames_of c reads last e in
    (
      frames ∙ ap (λ (r : List Frame × Bytes). r.0) found,
      rest ∙ ap (λ (r : List Frame × Bytes). r.1) found,
    )

parse_oversized :
    (b : Bytes) (header n1 size n2 : ℕ)
    → uvarint b ≡ value header n1
    → uvarint (drop n1 b) ≡ value size n2
    → max_frame < size
    → parse b ≡ none
unfolding parse
parse_oversized b header n1 size n2 first second big = rw first (rw second (ground arith))

-- Once the buffer begins with a frame header whose length is above `max_frame`, no `Drain` returns a
-- frame again, and every byte that arrives is kept in the buffer. The error is only that of the read
-- that ended the loop.
pub drain_oversized :
    {E : Type 0} (c : Conn) (header n1 size n2 : ℕ) (reads : List Bytes) (last : Bytes)
    (e : ReadEnd E)
    → uvarint c.buf ≡ value header n1
    → uvarint (drop n1 c.buf) ≡ value size n2
    → max_frame < size
    → ((drain c reads last e).frames ≡ [])
      × ((drain c reads last e).conn.buf ≡ c.buf ++ arrived reads last)
      × ((drain c reads last e).error ≡ end_error e)
drain_oversized c header n1 size n2 reads last e first second big =
    let whole : Bytes = c.buf ++ arrived reads last in
    let second' : uvarint (drop n1 whole) ≡ value size n2 =
      rw (drop-append_le n1 c.buf (arrived reads last) (uvarint_count c.buf header n1 first).1)
        (uvarint-append (drop n1 c.buf) (arrived reads last) size n2 second) in
    let stuck : frames_of whole ≡ ([], whole) = frames_of-none whole (
      parse_oversized whole header n1 size n2
        (uvarint-append c.buf (arrived reads last) header n1 first) second' big) in
    let (frames, rest, err) = drain-frames_of c reads last e in
    (
      frames ∙ ap (λ (r : List Frame × Bytes). r.0) stuck,
      rest ∙ ap (λ (r : List Frame × Bytes). r.1) stuck,
      err,
    )

-- ===== src/Mplex/Runs.antt =====
-- Frames on the wire, and the theorems at concrete inputs.
use raidan_sdk.Prelude.{
  ℕ, ◌+◌, ◌^◌, ◌≤◌, Option, none, some, List, [], ◌∷◌, ◌++◌, Bytes, length, length-take, take, ◌≡◌,
  ◌≢◌, refl, arith,
}
use raidan_sdk.Uvarint.{groups, scan, uvarint, append_uvarint}
use raidan_sdk.Mplex.{
  Frame, Conn, timed_out, parse, frame_bytes, send_frame, extract, absorb, drain, frames_of,
}
use raidan_sdk.Mplex.Drain.{drain-frames_of}
use raidan_sdk.Mplex.Send.{IsCapped, send_frame-IsCapped, send_frame_refuses}
use raidan_sdk.Mplex.RoundTrip.{stream_of, drain-stream_of, drain_oversized}

abbrev ping : Frame
ping = record { stream = 5; flag = 2; payload = 0x70 ∷ 0x69 ∷ [] }

abbrev shut : Frame
shut = record { stream = 300; flag = 4; payload = [] }

abbrev idle : Conn
idle = record { sent = 0; received = 0; limit = 10; buf = [] }

abbrev roomy : Conn
roomy = record { sent = 0; received = 0; limit = 100; buf = [] }

-- A writer that takes two bytes and reports no error.
abbrev short_write : Bytes → ℕ × Option ℕ
short_write b = (length (take 2 b), none)

frame_bytes_run : stream_of (ping ∷ shut ∷ []) ≡ 0x2a ∷ 2 ∷ 0x70 ∷ 0x69 ∷ 0xe4 ∷ 0x12 ∷ 0 ∷ []
unfolding frame_bytes append_uvarint groups
frame_bytes_run = refl

parse_run : parse (0x2a ∷ 2 ∷ 0x70 ∷ 0x69 ∷ 0xe4 ∷ []) ≡ some (ping, 4)
unfolding parse uvarint scan
parse_run = refl

parse_cut : parse (0x2a ∷ 2 ∷ 0x70 ∷ []) ≡ none
unfolding parse uvarint scan
parse_cut = refl

abbrev cut_reads : List Bytes
cut_reads = (0x2a ∷ []) ∷ (2 ∷ 0x70 ∷ 0x69 ∷ 0xe4 ∷ []) ∷ []

drain_run : (drain {E = ℕ} idle cut_reads (0x12 ∷ 0 ∷ []) timed_out).frames ≡ ping ∷ shut ∷ []
unfolding drain absorb extract parse uvarint scan
drain_run = refl

drain-stream_of_example :
    ((drain {E = ℕ} idle ((0x2a ∷ []) ∷ []) (2 ∷ 0x70 ∷ 0x69 ∷ 0xe4 ∷ []) timed_out).frames
      ≡ ping ∷ [])
    × ((drain {E = ℕ} idle ((0x2a ∷ []) ∷ []) (2 ∷ 0x70 ∷ 0x69 ∷ 0xe4 ∷ []) timed_out).conn.buf
        ≡ 0xe4 ∷ [])
unfolding frame_bytes append_uvarint groups parse uvarint scan
drain-stream_of_example =
    drain-stream_of idle (ping ∷ []) (0xe4 ∷ []) ((0x2a ∷ []) ∷ []) (2 ∷ 0x70 ∷ 0x69 ∷ 0xe4 ∷ [])
      timed_out (omega arith, tt) refl refl refl

drain-frames_of_example :
    ((drain {E = ℕ} idle ([] ∷ []) (0 ∷ 0 ∷ 7 ∷ []) timed_out).frames
      ≡ (frames_of (0 ∷ 0 ∷ 7 ∷ [])).0)
    × ((drain {E = ℕ} idle ([] ∷ []) (0 ∷ 0 ∷ 7 ∷ []) timed_out).conn.buf
        ≡ (frames_of (0 ∷ 0 ∷ 7 ∷ [])).1)
    × ((drain {E = ℕ} idle ([] ∷ []) (0 ∷ 0 ∷ 7 ∷ []) timed_out).error ≡ none)
drain-frames_of_example = drain-frames_of idle ([] ∷ []) (0 ∷ 0 ∷ 7 ∷ []) timed_out

-- The length is one past the limit.
abbrev stalled : Conn
stalled = record { sent = 0; received = 0; limit = 10; buf = 2 ∷ 0x81 ∷ 0x80 ∷ 0x40 ∷ [] }

drain_oversized_example :
    ((drain {E = ℕ} stalled [] (0 ∷ 0 ∷ []) timed_out).frames ≡ [])
    × ((drain {E = ℕ} stalled [] (0 ∷ 0 ∷ []) timed_out).conn.buf ≡ stalled.buf ++ (0 ∷ 0 ∷ []))
    × ((drain {E = ℕ} stalled [] (0 ∷ 0 ∷ []) timed_out).error ≡ none)
unfolding uvarint scan
drain_oversized_example =
    drain_oversized stalled 2 1 (2 ^ 20 + 1) 3 [] (0 ∷ 0 ∷ []) timed_out refl refl (omega arith)

short_write-within : (b : Bytes) → (short_write b).0 ≤ length b
short_write-within b = omega (arith, length-take 2 b)

send_frame-IsCapped_example :
    IsCapped (send_frame short_write idle 5 2 (0x70 ∷ [])).conn
    × ((send_frame short_write idle 5 2 (0x70 ∷ [])).conn.sent
        ≡ idle.sent + length (send_frame short_write idle 5 2 (0x70 ∷ [])).wire)
    × ((send_frame short_write idle 5 2 (0x70 ∷ [])).conn.limit ≡ idle.limit)
send_frame-IsCapped_example =
    send_frame-IsCapped short_write idle 5 2 (0x70 ∷ []) short_write-within (omega arith)

-- The flag 7 is not defined.
send_frame_refuses_example :
    ((send_frame short_write idle 5 7 []).observed ≡ [])
    × ((send_frame short_write idle 5 7 []).wire ≡ [])
    × ((send_frame short_write idle 5 7 []).conn ≡ idle)
    × ((send_frame short_write idle 5 7 []).error ≢ none)
send_frame_refuses_example =
    send_frame_refuses short_write idle 5 7 [] (omega arith)
      (λ p. absurd (omega (arith, p.flag_defined)))

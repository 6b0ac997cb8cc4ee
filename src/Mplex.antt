-- ===== src/Mplex.antt =====
-- mplex/mplex.go: the frames and the connection state after negotiation. The encrypted connection
-- is a parameter: `write` gives the count and the error of `conn.Write`, and the reads of one
-- `Drain` are given as the chunks that they returned.
pub mod Send
pub mod Parse
pub mod Drain
pub mod RoundTrip
mod Runs
use raidan_sdk.Prelude.{
  ℕ, zero, suc, ◌+◌, ◌-◌, ◌*◌, ◌/◌, ◌%◌, ◌^◌, bit_and, bit_or, Bool, true, ◌||◌, Option, none, some,
  List, [], ◌∷◌, ◌++◌, Bytes, codes, length, take, drop, ltb, if◌then◌else◌,
}
use raidan_sdk.Uvarint.{Uvarint, value, append_uvarint, uvarint}
use raidan_sdk.Session.{Write}

abbrev pub max_send : ℕ
max_send = 64 * 2 ^ 20

abbrev pub max_frame : ℕ
max_frame = 2 ^ 20

abbrev pub protocol_id : Bytes
protocol_id = codes "/mplex/6.7.0"

abbrev pub flag_open : ℕ
flag_open = 0

abbrev pub flag_data_initiator : ℕ
flag_data_initiator = 2

abbrev pub flag_close_init : ℕ
flag_close_init = 4

abbrev pub flag_reset_init : ℕ
flag_reset_init = 6

pub record Frame : Type 0 where
  pub stream : ℕ
  pub flag : ℕ
  pub payload : Bytes

pub record Conn : Type 0 where
  pub sent : ℕ
  pub received : ℕ
  pub limit : ℕ
  pub buf : Bytes

pub data SendError (E : Type 0) : Type 0 where
  undefined_flag payload_too_large cap_reached : ℕ → SendError E
  stream_out_of_range : SendError E
  write_failed : E → SendError E

-- The outcome of one send: the connection, its error, what was reported to the observer, and the
-- bytes that the connection took.
pub record Sent (E : Type 0) : Type 0 where
  pub conn : Conn
  pub error : Option (SendError E)
  pub observed : List Write
  pub wire : Bytes

-- The state after `DialWithIdentity` has negotiated the multiplexer.
unfoldable pub dialled : ℕ → Conn
dialled requested = record {
  sent = 0;
  received = 0;
  limit =
      if ltb 0 requested
      then (if ltb max_send requested then max_send else requested)
      else max_send;
  buf = [];
}

-- `id<<3|flag` as a varint, the payload's length as a varint, the payload.
unfoldable pub frame_bytes : ℕ → ℕ → Bytes → Bytes
frame_bytes id flag payload =
    append_uvarint (append_uvarint [] (bit_or (id * 8 % 2 ^ 64) flag)) (length payload) ++ payload

module _ {E : Type 0} (write : Bytes → ℕ × Option E) where
  abbrev refused : Conn → SendError E → Sent E
  refused c e = record { conn = c; error = some e; observed = []; wire = [] }

  abbrev failed_write : Option E → Option (SendError E)
  failed_write none = none
  failed_write (some e) = some (write_failed e)

  unfoldable pub send : Conn → ℕ → ℕ → Bytes → Sent E
  unfolding frame_bytes
  send c id flag payload =
      if ltb max_frame (length payload)
      then refused c (payload_too_large (length payload))
      else if ltb (2 ^ 60) id
      then refused c stream_out_of_range
      else let frame = frame_bytes id flag payload in
        if ltb c.limit ((c.sent + length frame) % 2 ^ 64)
        then refused c (cap_reached c.limit)
        else let (n, err) = write frame in
          record {
            conn = record c { sent = (c.sent + n) % 2 ^ 64 };
            error = failed_write err;
            observed =
                record {
                  protocol = codes "mplex";
                  code = flag;
                  protocol_id = protocol_id;
                  topic = [];
                  payload = frame;
                  raw = true;
                }
                ∷ [];
            wire = take n frame;
          }

  -- The method `Frame`: any defined flag.
  unfoldable pub send_frame : Conn → ℕ → ℕ → Bytes → Sent E
  send_frame c id flag payload =
      if ltb flag_reset_init flag then refused c (undefined_flag flag) else send c id flag payload

  -- The methods `Open`, `Data`, `Close` and `Reset`.
  unfoldable pub open_stream : Conn → ℕ → Bytes → Sent E
  open_stream c id name = send c id flag_open name

  unfoldable pub send_data : Conn → ℕ → Bytes → Sent E
  send_data c id payload = send c id flag_data_initiator payload

  unfoldable pub close_stream : Conn → ℕ → Sent E
  close_stream c id = send c id flag_close_init []

  unfoldable pub reset_stream : Conn → ℕ → Sent E
  reset_stream c id = send c id flag_reset_init []

-- `none` stands for a count of 0: no whole frame is at the front of the buffer.
abbrev parse_sized : Bytes → ℕ → ℕ → Uvarint → Option (Frame × ℕ)
parse_sized b header n1 (value size n2) =
    if ltb max_frame size || ltb (length b - n1 - n2) size
    then none
    else some (
      record {
        stream = header / 8;
        flag = bit_and header 7;
        payload = take size (drop (n1 + n2) b);
      },
      n1 + n2 + size,
    )
parse_sized b header n1 _ = none

abbrev parse_header : Bytes → Uvarint → Option (Frame × ℕ)
parse_header b (value header n1) = parse_sized b header n1 (uvarint (drop n1 b))
parse_header b _ = none

unfoldable pub parse : Bytes → Option (Frame × ℕ)
parse b = parse_header b (uvarint b)

-- The inner loop of `Drain`: every whole frame at the front, and what is left. A frame takes a byte
-- at least, so `length b` rounds are enough.
unfoldable pub extract : ℕ → Bytes → List Frame × Bytes
extract zero b = ([], b)
extract (suc fuel) b = elim (parse b) [
  | none ↦ ([], b)
  | some (f, used) ↦ let (fs, rest) = extract fuel (drop used b) in (f ∷ fs, rest)
]

abbrev pub frames_of : Bytes → List Frame × Bytes
frames_of b = extract (length b) b

-- One round of the outer loop: a read of `chunk`.
unfoldable pub absorb : Conn → Bytes → Conn × List Frame
absorb c chunk =
    let (fs, rest) = frames_of (c.buf ++ chunk) in
    (record c { received = (c.received + length chunk) % 2 ^ 64; buf = rest }, fs)

-- The read that ends the loop fails by its deadline, or otherwise.
pub data ReadEnd (E : Type 0) : Type 0 where
  timed_out : ReadEnd E
  read_failed : E → ReadEnd E

pub record Drained (E : Type 0) : Type 0 where
  pub conn : Conn
  pub frames : List Frame
  pub error : Option E

abbrev end_error : {E : Type 0} → ReadEnd E → Option E
end_error timed_out = none
end_error (read_failed e) = some e

-- The chunks of the reads that returned no error, then the chunk and the error of the one that did.
unfoldable pub drain : {E : Type 0} → Conn → List Bytes → Bytes → ReadEnd E → Drained E
drain c [] last e =
    let (c', fs) = absorb c last in record { conn = c'; frames = fs; error = end_error e }
drain c (chunk ∷ reads) last e =
    let (c', fs) = absorb c chunk in
    let d = drain c' reads last e in
    record { conn = d.conn; frames = fs ++ d.frames; error = d.error }

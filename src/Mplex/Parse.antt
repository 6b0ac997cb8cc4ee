-- ===== src/Mplex/Parse.antt =====
-- `parse` and the inner loop of `Drain` on any buffer.
use raidan_sdk.Prelude.{
  ◌/◌, bit_and, ℕ, ◌+◌, ◌≤◌, some, ◌++◌, Bytes, length, drop, take, length-append, length-drop,
  drop-append_le, take-append_le, ltb, false, ◌≡◌, refl, arith,
}
use raidan_sdk.Uvarint.{Uvarint, value, short, overflow, uvarint}
use raidan_sdk.Uvarint.RoundTrip.{scan-append, scan_count}
use raidan_sdk.Mplex.{Frame, parse, parse_header, parse_sized, max_frame}

pub uvarint-append :
    (b more : Bytes) (v n : ℕ) → uvarint b ≡ value v n → uvarint (b ++ more) ≡ value v n
unfolding uvarint
uvarint-append b more v n h = scan-append b more 0 0 0 v n h

pub uvarint_count : (b : Bytes) (v n : ℕ) → uvarint b ≡ value v n → (1 ≤ n) × (n ≤ length b)
unfolding uvarint
uvarint_count b v n h = omega (arith, scan_count b 0 0 0 v n h)

-- What `parse` found: the two varints and the payload stand within the buffer.
pub record Found (b : Bytes) (f : Frame) (used : ℕ) : Type 0 where
  pub header : ℕ
  pub n1 : ℕ
  pub size : ℕ
  pub n2 : ℕ
  pub first : uvarint b ≡ value header n1
  pub second : uvarint (drop n1 b) ≡ value size n2
  pub small : ltb max_frame size ≡ false
  pub is_frame : f ≡ record {
    stream = header / 8;
    flag = bit_and header 7;
    payload = take size (drop (n1 + n2) b);
  }
  pub is_used : used ≡ n1 + n2 + size
  pub fits : used ≤ length b
  pub n1_pos : 1 ≤ n1
  pub n2_pos : 1 ≤ n2

parse-Found : (b : Bytes) (f : Frame) (used : ℕ) → parse b ≡ some (f, used) → Found b f used
unfolding parse
parse-Found b f used h = at_header (uvarint b) refl h
  where
    at_size :
        (v n : ℕ)
        → uvarint b ≡ value v n
        → (r : Uvarint) → uvarint (drop n b) ≡ r
        → parse_sized b v n r ≡ some (f, used)
        → Found b f used
    at_size v n e (value m k) e' h' = record {
      header = v;
      n1 = n;
      size = m;
      n2 = k;
      first = e;
      second = e';
      small = ground arith;
      is_frame = ground arith;
      is_used = ground arith;
      fits =
          ground (arith, uvarint_count b v n e, uvarint_count (drop n b) m k e', length-drop n b);
      n1_pos = (uvarint_count b v n e).0;
      n2_pos = (uvarint_count (drop n b) m k e').0;
    }
    at_size v n e short e' h' = cc
    at_size v n e overflow e' h' = cc

    at_header : (r : Uvarint) → uvarint b ≡ r → parse_header b r ≡ some (f, used) → Found b f used
    at_header (value v n) e h' = at_size v n e (uvarint (drop n b)) refl h'
    at_header short e h' = cc
    at_header overflow e h' = cc

pub parse_used :
    (b : Bytes) (f : Frame) (used : ℕ) → parse b ≡ some (f, used) → (2 ≤ used) × (used ≤ length b)
parse_used b f used h = let w = parse-Found b f used h in (omega (arith, w), w.fits)

-- Two varints and enough bytes behind them are a frame.
pub parse_of :
    (b : Bytes) (header n1 size n2 : ℕ)
    → uvarint b ≡ value header n1
    → uvarint (drop n1 b) ≡ value size n2
    → size ≤ max_frame
    → n1 + n2 + size ≤ length b
    → parse b
      ≡ some (
        record {
          stream = header / 8;
          flag = bit_and header 7;
          payload = take size (drop (n1 + n2) b);
        },
        n1 + n2 + size,
      )
unfolding parse
parse_of b header n1 size n2 first second small fits = rw first (rw second (ground arith))

-- More bytes behind a whole frame do not change it.
pub parse-append :
    (b more : Bytes) (f : Frame) (used : ℕ)
    → parse b ≡ some (f, used)
    → parse (b ++ more) ≡ some (f, used)
parse-append b more f used h =
    let w = parse-Found b f used h in
    let inside : w.n1 + w.n2 ≤ length b = omega (arith, w) in
    let same_rest : drop w.n1 (b ++ more) ≡ drop w.n1 b ++ more =
      drop-append_le w.n1 b more (omega (arith, w)) in
    let second : uvarint (drop w.n1 (b ++ more)) ≡ value w.size w.n2 =
      rw same_rest (uvarint-append (drop w.n1 b) more w.size w.n2 w.second) in
    let payload_bound : w.size ≤ length (drop (w.n1 + w.n2) b) =
      omega (arith, w, length-drop (w.n1 + w.n2) b) in
    let same_payload : take w.size (drop (w.n1 + w.n2) (b ++ more))
        ≡ take w.size (drop (w.n1 + w.n2) b) =
      rw (drop-append_le (w.n1 + w.n2) b more inside)
        (take-append_le w.size (drop (w.n1 + w.n2) b) more payload_bound) in
    ground (
      arith,
      w,
      same_payload,
      length-append b more,
      parse_of (b ++ more) w.header w.n1 w.size w.n2 (uvarint-append b more w.header w.n1 w.first)
          second,
    )

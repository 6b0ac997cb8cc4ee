-- ===== src/Discovery/Discv5.antt =====
-- discovery/discv5_whoareyou.go, discovery/discv5_packet.go and discovery/udp_read.go: the packet that asks
-- for a challenge, and the wait for the challenge. AES in counter mode, the random bytes and the socket are
-- parameters; an error is of a type `E`.
pub mod Challenge
mod Runs
use raidan_sdk.Prelude.{
  ℕ, ◌+◌, ◌*◌, ◌%◌, ◌^◌, Bool, true, false, not, ◌&&◌, Option, none, some, List, [], ◌∷◌, ◌++◌,
  Bytes, codes, length, take, drop, ltb, ◌==◌, if◌then◌else◌, bytes_eq,
}
use raidan_sdk.Prelude.Result.{Result, ok, err}
use raidan_sdk.Rpc.ForkId.{big_endian}
use raidan_sdk.Session.{Write}

-- `binary.BigEndian`: the number of bytes, behind the value so far.
unfoldable pub big_endian_value : ℕ → Bytes → ℕ
big_endian_value n [] = n
big_endian_value n (b ∷ bs) = big_endian_value (n * 256 + b) bs

-- AES in counter mode with the first 16 bytes of an ID as its key: the ID, the masking IV, and the bytes.
abbrev pub Mask : Type 0
Mask = Bytes → Bytes → Bytes → Bytes

abbrev pub static_header_size : ℕ
static_header_size = 23

abbrev pub min_packet_size : ℕ
min_packet_size = 63

abbrev pub static_header : ℕ → Bytes → ℕ → Bytes
static_header flag nonce auth_size =
    codes "discv5" ++ (big_endian 2 1 ++ ((flag ∷ []) ++ (nonce ++ big_endian 2 auth_size)))

abbrev mask_discv5_header : Mask → Bytes → Bytes → Bytes → Bytes
mask_discv5_header mask destination_id iv header = mask destination_id iv header

-- The nonce, the message and the IV are the random bytes.
abbrev pub random_ordinary : Mask → Bytes → Bytes → Bytes → Bytes → Bytes → Bytes
random_ordinary mask our_id peer_id nonce msg iv =
    iv ++ (mask peer_id iv (static_header 0 nonce (length our_id % 2 ^ 16) ++ our_id) ++ msg)

abbrev pub checked_length : ℕ → ℕ → Option ℕ
checked_length greatest n = if ltb greatest n then none else some n

abbrev pub observed_raw : Bytes → Write
observed_raw pkt = record {
  protocol = codes "discv5";
  code = 0;
  protocol_id = [];
  topic = [];
  payload = pkt;
  raw = true;
}

pub record WhoAreYou : Type 0 where
  pub challenge_data : Bytes
  pub id_nonce : Bytes
  pub record_seq : ℕ
  pub nonce : Bytes

pub data ChallengeError (E : Type 0) : Type 0 where
  timeout : ChallengeError E
  read_failed : E → ChallengeError E
  wrong_size wrong_version wrong_flag wrong_auth_size : ℕ → ChallengeError E
  wrong_protocol : ChallengeError E

module _ {E : Type 0} where
  -- The static header's fields, one behind the other: the version, the flag, the nonce, the size.
  abbrev pub on_header : Bytes → Bytes → Bytes → Result (ChallengeError E) WhoAreYou
  on_header challenge header auth_data =
      let version = drop 6 header in
      let flag = drop 2 version in
      let nonce = drop 1 flag in
      let auth_size = big_endian_value 0 (take 2 (drop 12 nonce)) in
      if not (bytes_eq (take 6 header) (codes "discv5"))
      then err wrong_protocol
      else if not (big_endian_value 0 (take 2 version) == 1)
      then err (wrong_version (big_endian_value 0 (take 2 version)))
      else if not (big_endian_value 0 (take 1 flag) == 1)
      then err (wrong_flag (big_endian_value 0 (take 1 flag)))
      else if not (auth_size == length auth_data)
      then err (wrong_auth_size auth_size)
      else ok (record {
        challenge_data = challenge;
        id_nonce = take 16 auth_data;
        record_seq = big_endian_value 0 (take 8 (drop 16 auth_data));
        nonce = take 12 nonce;
      })

  abbrev pub on_unmasked : Bytes → Bytes → Result (ChallengeError E) WhoAreYou
  on_unmasked iv unmasked =
      on_header (iv ++ unmasked) (take static_header_size unmasked)
        (drop static_header_size unmasked)

  unfoldable pub decode_who_are_you : Mask → Bytes → Bytes → Result (ChallengeError E) WhoAreYou
  decode_who_are_you mask our_id packet =
      if not (length packet == min_packet_size)
      then err (wrong_size (length packet))
      else on_unmasked (take 16 packet) (mask our_id (take 16 packet) (take 47 (drop 16 packet)))

-- One read of a datagram: the context's error before it, that of setting the deadline, and that behind
-- the read, which goes before what the socket returned.
pub record UdpRead (E : Type 0) : Type 0 where
  pub ended_before : Option E
  pub time_left : Bool
  pub deadline_error : Option E
  pub ended_after : Option E
  pub received : Result E (Bool × Bytes)

abbrev pub is_expected : Option Bytes → Bytes → Bool
is_expected none nonce = true
is_expected (some expected) nonce = bytes_eq nonce expected

module _ {E : Type 0} where
  abbrev on_received : Option E → Result E (Bool × Bytes) → Result E (Bool × Bytes)
  on_received (some e) r = err e
  on_received none r = r

  abbrev on_read_deadline : Option E → Option E → Result E (Bool × Bytes) → Result E (Bool × Bytes)
  on_read_deadline (some e) after r = err e
  on_read_deadline none after r = on_received after r

  abbrev on_context : Option E → Bool → E → UdpRead E → Result E (Bool × Bytes)
  on_context (some e) time deadline_exceeded u = err e
  on_context none false deadline_exceeded u = err deadline_exceeded
  on_context none true deadline_exceeded u =
      on_read_deadline u.deadline_error u.ended_after u.received

  -- A datagram comes with whether it is from the peer's address.
  unfoldable pub read_udp_with_context : E → UdpRead E → Result E (Bool × Bytes)
  read_udp_with_context deadline_exceeded u =
      on_context u.ended_before u.time_left deadline_exceeded u

  abbrev pub on_challenge :
      Option Bytes
      → Result (ChallengeError E) WhoAreYou
      → Result (ChallengeError E) WhoAreYou
      → Result (ChallengeError E) WhoAreYou
  on_challenge expected rest (err e) = err e
  on_challenge expected rest (ok w) = if is_expected expected w.nonce then ok w else rest

  abbrev pub on_datagram :
      Mask
      → Bytes
      → Option Bytes
      → Result (ChallengeError E) WhoAreYou
      → Result E (Bool × Bytes)
      → Result (ChallengeError E) WhoAreYou
  on_datagram mask our_id expected rest (err e) = err (read_failed e)
  on_datagram mask our_id expected rest (ok (false, packet)) = rest
  on_datagram mask our_id expected rest (ok (true, packet)) =
      on_challenge expected rest (decode_who_are_you mask our_id packet)

  -- A round for each read before the deadline.
  unfoldable pub read_who_are_you :
      Mask → Bytes → E → Option Bytes → List (UdpRead E) → Result (ChallengeError E) WhoAreYou
  read_who_are_you mask our_id deadline_exceeded expected [] = err timeout
  read_who_are_you mask our_id deadline_exceeded expected (u ∷ us) =
      on_datagram mask our_id expected (read_who_are_you mask our_id deadline_exceeded expected us)
        (read_udp_with_context deadline_exceeded u)

-- ===== src/Rlpx/Disconnect.antt =====
-- rlpx/disconnect.go: the reason of a devp2p Disconnect, and its text. The RLP stream over a payload
-- is a parameter.
mod Runs
use raidan_sdk.Prelude.{
  ℕ, zero, suc, ◌+◌, ◌/◌, ◌%◌, Bool, true, false, ◌&&◌, ◌||◌, List, [], ◌∷◌, ◌++◌, Bytes, codes,
  length, ltb, leb, ◌==◌, if◌then◌else◌,
}
use raidan_sdk.Prelude.Text.{trim_space}
use raidan_sdk.Prelude.Result.{Result, ok, err}

-- `rlp.Stream` at the start of a payload: whether a list begins there, the number there, and the first
-- number of the list there. An error is its text.
pub record RlpStream : Type 0 where
  pub is_list : Bytes → Result Bytes Bool
  pub decode : Bytes → Result Bytes ℕ
  pub decode_in_list : Bytes → Result Bytes ℕ

-- `%d`, in at most `fuel` digits, and `%x` of a 64-bit number; 20 and 16 digits are enough for those.
unfoldable pub decimal : ℕ → ℕ → Bytes
decimal zero n = []
decimal (suc fuel) n =
    let front = decimal fuel (n / 10) in
    if ltb n 10 then (48 + n) ∷ [] else front ++ ((48 + n % 10) ∷ [])

unfoldable pub hex_digit : ℕ → ℕ
hex_digit d = if ltb d 10 then 48 + d else 87 + d

unfoldable pub hexadecimal : ℕ → ℕ → Bytes
hexadecimal zero n = []
hexadecimal (suc fuel) n =
    let front = hexadecimal fuel (n / 16) in
    if ltb n 16 then hex_digit n ∷ [] else front ++ (hex_digit (n % 16) ∷ [])

unfoldable pub disconnect_reason_name : ℕ → Bytes
disconnect_reason_name reason =
    if reason == 0x00
    then codes "disconnect requested"
    else if reason == 0x01
    then codes "network error"
    else if reason == 0x02
    then codes "breach of protocol"
    else if reason == 0x03
    then codes "useless peer"
    else if reason == 0x04
    then codes "too many peers"
    else if reason == 0x05
    then codes "already connected"
    else if reason == 0x06
    then codes "incompatible p2p protocol version"
    else if reason == 0x07
    then codes "invalid node identity"
    else if reason == 0x08
    then codes "client quitting"
    else if reason == 0x09
    then codes "unexpected identity"
    else if reason == 0x0a
    then codes "connected to self"
    else if reason == 0x0b
    then codes "read timeout"
    else if reason == 0x10
    then codes "subprotocol error"
    else if reason == 0xff
    then codes "invalid disconnect reason"
    else codes "unknown disconnect reason " ++ decimal 20 reason

unfoldable pub disconnect_reason_hex : ℕ → Bytes
disconnect_reason_hex reason =
    if leb reason 0xff
    then codes "0x" ++ (hex_digit (reason / 16) ∷ hex_digit (reason % 16) ∷ [])
    else codes "0x" ++ hexadecimal 16 reason

abbrev named_reason : Result Bytes ℕ → ℕ × Bytes
named_reason (err e) = (0xff, codes "invalid disconnect reason payload: " ++ e)
named_reason (ok reason) = (
  reason,
  disconnect_reason_name reason ++ (codes " (" ++ (disconnect_reason_hex reason ++ codes ")")),
)

abbrev reason_of : RlpStream → Bytes → Result Bytes Bool → Result Bytes ℕ
reason_of s payload (err e) = err e
reason_of s payload (ok true) = s.decode_in_list payload
reason_of s payload (ok false) = s.decode payload

unfoldable pub decode_disconnect_reason : RlpStream → Bytes → ℕ × Bytes
decode_disconnect_reason s payload =
    if length payload == 0
    then (0, codes "empty disconnect reason")
    else named_reason (reason_of s payload (s.is_list payload))

abbrev detail_of : Bytes → Bytes
detail_of [] = codes "peer disconnected"
detail_of (c ∷ s) = codes "peer disconnected: " ++ (c ∷ s)

unfoldable pub disconnect_detail : Bytes → Bytes
disconnect_detail reason = detail_of (trim_space reason)

-- ===== src/Rlpx/Disconnect/Runs.antt =====
-- Runs of the disconnect reasons.
use raidan_sdk.Prelude.{codes, ◌≡◌, refl}
use raidan_sdk.Prelude.Text.{is_space, trim_left, trim_right}
use raidan_sdk.Rlpx.Disconnect.{
  decimal, hex_digit, hexadecimal, disconnect_reason_name, disconnect_reason_hex, disconnect_detail,
}

unknown_name : disconnect_reason_name 4711 ≡ codes "unknown disconnect reason 4711"
unfolding disconnect_reason_name decimal
unknown_name = refl

short_hex : disconnect_reason_hex 0x10 ≡ codes "0x10"
unfolding disconnect_reason_hex hex_digit
short_hex = refl

long_hex : disconnect_reason_hex 0xabc ≡ codes "0xabc"
unfolding disconnect_reason_hex hex_digit hexadecimal
long_hex = refl

trimmed : disconnect_detail (codes " too many peers ") ≡ codes "peer disconnected: too many peers"
unfolding disconnect_detail trim_left trim_right is_space
trimmed = refl

blank : disconnect_detail (codes "   ") ≡ codes "peer disconnected"
unfolding disconnect_detail trim_left trim_right is_space
blank = refl

-- ===== src/Snap/Runs.antt =====
-- Runs of the wait for a request.
use raidan_sdk.Prelude.{ℕ, none, some, [], ◌∷◌, codes, ◌≡◌, refl}
use raidan_sdk.Prelude.Result.{ok, err}
use raidan_sdk.Eth.Conn.{Conn, fresh_conn, got, is_timeout, timeout, wait_for_msg}
use raidan_sdk.Eth.Wire.{Splits, decode_request_id}
use raidan_sdk.Snap.{not_sent, wait_for_request_id, request_for_response}

abbrev splits : Splits ℕ
splits = record { split_list = λ bs. ok bs; split_uint64 = λ bs. ok 7 }

abbrev conn : Conn ℕ
conn = fresh_conn 16 68 33

-- The code 0x04 of SNAP is 37 on the wire.
waits_at_the_offset :
    wait_for_request_id splits conn 4
      (got (record { code = 20; body = [] }) ∷ got (record { code = 37; body = 1 ∷ [] }) ∷ [])
    ≡ some (ok (7, 1 ∷ []))
unfolding wait_for_request_id wait_for_msg decode_request_id
waits_at_the_offset = refl

times_out : wait_for_request_id splits conn 4 (is_timeout ∷ []) ≡ some (err (not_sent timeout))
unfolding wait_for_request_id wait_for_msg
times_out = refl

pairs : request_for_response 0x05 ≡ some (0x04, codes "GetByteCodes")
unfolding request_for_response
pairs = refl

no_pair : request_for_response 0x04 ≡ none
unfolding request_for_response
no_pair = refl

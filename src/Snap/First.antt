-- ===== src/Snap/First.antt =====
-- The request that the wait gives.
use raidan_sdk.Prelude.{ℕ, ◌+◌, ◌%◌, ◌^◌, some, List, ◌++◌, ◌∷◌, All, map, ◌≡◌, ◌≢◌, refl}
use raidan_sdk.Prelude.Result.{ok}
use raidan_sdk.Eth.Conn.{ConnMsg, Conn, Select, got}
use raidan_sdk.Eth.Conn.Waits.{wait_for_msg_first}
use raidan_sdk.Eth.Wire.{Splits, decode_request_id}
use raidan_sdk.Snap.{wait_for_request_id}

-- The wait gives the first message at the request's code behind the connection's SNAP offset, with the
-- request ID that is read from it, whatever other messages come before it.
wait_for_request_id_first :
    {E : Type 0} (p : Splits E) (c : Conn E) (request_code id : ℕ) (before : List ConnMsg)
    (m : ConnMsg) (rest : List Select)
    → All (λ (x : ConnMsg). x.code ≢ (c.snap_offset + request_code) % 2 ^ 64) before
    → m.code ≡ (c.snap_offset + request_code) % 2 ^ 64
    → decode_request_id p m.body ≡ ok id
    → wait_for_request_id p c request_code (map got before ++ (got m ∷ rest))
      ≡ some (ok (id, m.body))
unfolding wait_for_request_id
wait_for_request_id_first p c request_code id before m rest h e d =
    rw (wait_for_msg_first c ((c.snap_offset + request_code) % 2 ^ 64) before m rest h e, d) refl

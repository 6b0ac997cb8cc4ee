-- ===== src/Eth/Conn/Waits.antt =====
-- The wait for a message of one code.
use raidan_sdk.Prelude.{ℕ, true, false, some, List, [], ◌∷◌, ◌++◌, All, map, ◌==◌, ◌≡◌, ◌≢◌, arith}
use raidan_sdk.Prelude.Result.{ok}
use raidan_sdk.Eth.Conn.{ConnMsg, Conn, Select, got, wait_for_msg}

-- The wait gives the payload of the first message of the wanted code, passing over those before it,
-- whatever comes behind.
pub wait_for_msg_first :
    {E : Type 0} (c : Conn E) (want : ℕ) (before : List ConnMsg) (m : ConnMsg) (rest : List Select)
    → All (λ (x : ConnMsg). x.code ≢ want) before
    → m.code ≡ want
    → wait_for_msg c want (map got before ++ (got m ∷ rest)) ≡ some (ok m.body)
unfolding wait_for_msg
wait_for_msg_first c want [] m rest h e =
    let same : (m.code == want) ≡ true = ground arith in rw same
wait_for_msg_first c want (x ∷ xs) m rest h e =
    let other : (x.code == want) ≡ false = ground (arith, h) in
    rw other (wait_for_msg_first c want xs m rest h.1 e)

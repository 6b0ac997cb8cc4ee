-- ===== src/Eth/Wire/Closing.antt =====
-- The waits on the wire end once the peer sends what they wait for.
use raidan_sdk.Prelude.{
  ℕ, suc, true, false, Option, none, some, List, [], ◌∷◌, ◌++◌, Bytes, All, ◌==◌, if◌then◌else◌,
  Bool-cases, ◌≡◌, ◌≢◌, inl, inr, refl, ap, arith,
}
use raidan_sdk.Rlpx.Disconnect.{RlpStream, decode_disconnect_reason}
use raidan_sdk.Eth.Conn.{disc_msg, ping_msg}
use raidan_sdk.Eth.Wire.{
  WireRead, received, read_failed, Waited, one_pong, after_pong, close_loop, status_loop,
  first_eth_code,
}

module _ {E : Type 0} where
  -- A message that ends no wait: of none of the codes in the list, and if it is a ping, its pong is
  -- written.
  abbrev pub Passing : List ℕ → WireRead E → Type 0
  Passing codes (read_failed e timeout) = ⊥
  Passing codes (received code body pong) =
      All (λ (c : ℕ). code ≢ c) codes × (code ≡ ping_msg → pong ≡ none)

  abbrev pub pings : List (WireRead E) → ℕ
  pings [] = 0
  pings (read_failed e timeout ∷ rs) = pings rs
  pings (received code body pong ∷ rs) = if code == ping_msg then suc (pings rs) else pings rs

-- A loop that has answered one ping more.
pub one_pong_is :
    {E A : Type 0} (failed : E → A) (w : Waited A) (a : A) (n : ℕ) (pong : Option E)
    → pong ≡ none
    → w ≡ record { answer = some a; pongs = n }
    → after_pong failed w pong ≡ record { answer = some a; pongs = suc n }
one_pong_is failed w a n none h e = ap one_pong e
one_pong_is failed w a n (some x) h e = absurd (ground arith)

-- The wait for a close, with its deadline set, ends with the reason of the Disconnect however many
-- messages come before it, and it has answered each ping with a pong: for messages before it that are no
-- Disconnect, and pongs that are written.
pub close_loop-disconnect :
    {E : Type 0} (s : RlpStream) (before rest : List (WireRead E)) (body : Bytes) (o : Option E)
    → All (Passing (disc_msg ∷ [])) before
    → close_loop s (before ++ (received disc_msg body o ∷ rest))
      ≡ record { answer = some (true, (decode_disconnect_reason s body).1); pongs = pings before }
unfolding close_loop
close_loop-disconnect s [] rest body o h = refl
close_loop-disconnect s (read_failed e timeout ∷ rs) rest body o h = absurd h.0
close_loop-disconnect s (received code b pong ∷ rs) rest body o h =
    let other : (code == disc_msg) ≡ false = ground (arith, h) in
    let rest_of = close_loop-disconnect s rs rest body o h.1 in
    rw other (elim (Bool-cases (code == ping_msg)) [
      | inl e ↦ rw e (one_pong_is _ _ _ _ pong (h.0.1 (ground arith)) rest_of)
      | inr e ↦ rw e rest_of
    ])

-- `WaitStatus` ends without an error at the first message of the code that it takes for the Status.
pub status_loop-status :
    {E : Type 0} (s : RlpStream) (before rest : List (WireRead E)) (body : Bytes) (o : Option E)
    → All (Passing (disc_msg ∷ first_eth_code ∷ [])) before
    → status_loop s (before ++ (received first_eth_code body o ∷ rest))
      ≡ record { answer = some none; pongs = pings before }
unfolding status_loop
status_loop-status s [] rest body o h = refl
status_loop-status s (read_failed e timeout ∷ rs) rest body o h = absurd h.0
status_loop-status s (received code b pong ∷ rs) rest body o h =
    let other : (code == disc_msg) ≡ false = ground (arith, h) in
    let unasked : (code == first_eth_code) ≡ false = ground (arith, h) in
    let rest_of = status_loop-status s rs rest body o h.1 in
    rw (other, unasked)
      (elim (Bool-cases (code == ping_msg)) [
        | inl e ↦ rw e (one_pong_is _ _ _ _ pong (h.0.1 (ground arith)) rest_of)
        | inr e ↦ rw e rest_of
      ])

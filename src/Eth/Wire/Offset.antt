-- ===== src/Eth/Wire/Offset.antt =====
-- The code that `WaitStatus` writes out is the one that the negotiation gives the Status.
use raidan_sdk.Prelude.{
  ℕ, ◌+◌, ◌%◌, ◌^◌, true, false, Option, none, some, List, [], ◌∷◌, ◌++◌, Bytes, All, bytes_eq,
  bytes_eq→eq, bytes_lt, Bool-cases, ◌≡◌, inl, inr, refl, sym, ap, ◌∙◌, arith,
}
use raidan_sdk.Prelude.Result.{Result, ok, err}
use raidan_sdk.Eth.Caps.{
  Cap, eth, snap, wit, capability_protocol_length, capability_offset, negotiated_capabilities,
}
use raidan_sdk.Eth.Caps.Negotiation.{Ascending, negotiated_capabilities-Ascending}
use raidan_sdk.Eth.Caps.Offsets.{not_found, offset_from_here, offset_from_there, offset_from-Above}
use raidan_sdk.Rlpx.Disconnect.{RlpStream}
use raidan_sdk.Eth.Conn.{
  Conn, fresh_conn, disc_msg, on_snap_offset, on_eth_offset, on_negotiated, negotiate,
}
use raidan_sdk.Eth.Wire.{WireRead, received, first_eth_code, status_loop}
use raidan_sdk.Eth.Wire.Closing.{Passing, pings, status_loop-status}

-- No name of a protocol with a length comes before that of ETH.
eth_first :
    (c : Cap) (len : ℕ)
    → bytes_eq c.name eth ≡ false
    → capability_protocol_length c ≡ some len
    → bytes_lt c.name eth ≡ false
unfolding capability_protocol_length
eth_first c len e h = elim (Bool-cases (bytes_eq c.name snap)) [
  | inl q ↦ rw (bytes_eq→eq c.name snap q) refl
  | inr q ↦ elim (Bool-cases (bytes_eq c.name wit)) [
    | inl r ↦ rw (bytes_eq→eq c.name wit r) refl
    | inr r ↦ absurd (ground arith)
  ]
]

capability_offset-eth :
    (caps : List Cap) (o v : ℕ)
    → Ascending caps
    → capability_offset caps eth ≡ ok (some (o, v))
    → o ≡ 16
unfolding capability_offset
capability_offset-eth [] o v a h = absurd (not_found 16 eth o v h)
capability_offset-eth (c ∷ cs) o v a h = elim (Bool-cases (bytes_eq c.name eth)) [
  | inl e ↦ (offset_from_here 16 c cs eth o v e h).0
  | inr e ↦
      let (len, l, k) = offset_from_there 16 c cs eth o v e h in
      let before : bytes_lt c.name eth ≡ true =
        offset_from-Above ((16 + len) % 2 ^ 64) cs c.name eth o v a.0 k in
      let behind : bytes_lt c.name eth ≡ false = eth_first c len e l in absurd (ground arith)
]

module _ {E : Type 0} where
  snap_keeps :
      (o v : ℕ) (r : Result Cap (Option (ℕ × ℕ))) (c : Conn E)
      → on_snap_offset o v r ≡ ok c
      → c.eth_offset ≡ o
  snap_keeps o v (err x) c e = absurd (ground arith)
  snap_keeps o v (ok none) c e =
      let same : fresh_conn o v 0 ≡ c = ground arith in sym (ap (λ (x : Conn E). x.eth_offset) same)
  snap_keeps o v (ok (some (s, w))) c e =
      let same : fresh_conn o v s ≡ c = ground arith in sym (ap (λ (x : Conn E). x.eth_offset) same)

  pub negotiate-eth_offset :
      (local remote : List Cap) (c : Conn E) → negotiate local remote ≡ ok c → c.eth_offset ≡ 16
  unfolding negotiate
  negotiate-eth_offset local remote c h = agreed (negotiated_capabilities local remote) refl h
    where
      with_eth :
          (caps : List Cap) (r : Result Cap (Option (ℕ × ℕ)))
          → Ascending caps
          → capability_offset caps eth ≡ r
          → on_eth_offset caps r ≡ ok c
          → c.eth_offset ≡ 16
      with_eth caps (err x) a q e = absurd (ground arith)
      with_eth caps (ok none) a q e = absurd (ground arith)
      with_eth caps (ok (some (o, v))) a q e =
          snap_keeps o v (capability_offset caps snap) c e ∙ capability_offset-eth caps o v a q

      agreed :
          (r : Result Cap (List Cap))
          → negotiated_capabilities local remote ≡ r
          → on_negotiated r ≡ ok c
          → c.eth_offset ≡ 16
      agreed (err x) q e = absurd (ground arith)
      agreed (ok caps) q e =
          with_eth caps (capability_offset caps eth)
            (negotiated_capabilities-Ascending local remote caps q) refl e

-- On a connection that was negotiated, `WaitStatus` ends without an error at the first message of the
-- agreed code of the Status, however many messages come before it, and it has answered each ping with a
-- pong: for messages before it that are no Disconnect and of another code, and pongs that are written.
pub status_loop-negotiate :
    {E F : Type 0} (s : RlpStream) (local remote : List Cap) (c : Conn E)
    (before rest : List (WireRead F)) (body : Bytes) (o : Option F)
    → negotiate local remote ≡ ok c
    → All (Passing (disc_msg ∷ c.eth_offset ∷ [])) before
    → status_loop s (before ++ (received c.eth_offset body o ∷ rest))
      ≡ record { answer = some none; pongs = pings before }
status_loop-negotiate s local remote c before rest body o h p =
    let at : c.eth_offset ≡ first_eth_code = negotiate-eth_offset local remote c h in
    at_code c.eth_offset at p
  where
    at_code :
        (k : ℕ)
        → k ≡ first_eth_code
        → All (Passing (disc_msg ∷ k ∷ [])) before
        → status_loop s (before ++ (received k body o ∷ rest))
          ≡ record { answer = some none; pongs = pings before }
    at_code k e = rw e (status_loop-status s before rest body o)

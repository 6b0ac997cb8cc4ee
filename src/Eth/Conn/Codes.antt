-- ===== src/Eth/Conn/Codes.antt =====
-- The wire codes of the protocols of one connection.
use raidan_sdk.Prelude.{
  ℕ, ◌+◌, ◌≤◌, ◌<◌, ◌%◌, ◌^◌, Option, none, some, List, [], ◌∷◌, Bytes, length, ◌≡◌, refl, sym, ap,
  ◌∙◌, arith,
}
use raidan_sdk.Prelude.Result.{Result, ok, err}
use raidan_sdk.Session.{Write}
use raidan_sdk.Eth.Caps.{
  Cap, eth, snap, capability_offset, negotiated_capabilities, capability_protocol_length,
  protocol_length, agreed_versions, set_version, sort_names, insert_name, from_unsupported,
  unsupported_local,
}
use raidan_sdk.Eth.Caps.Negotiation.{negotiated_capabilities-Ascending}
use raidan_sdk.Eth.Caps.Offsets.{capability_offset_apart}
use raidan_sdk.Eth.Conn.{
  Conn, fresh_conn, on_snap_offset, on_eth_offset, on_negotiated, negotiate, send_raw,
  send_snap_raw,
}

length-set_version : (c : Cap) (l : List Cap) → length (set_version c l) ≤ length l + 1
unfolding set_version
length-set_version c [] = omega arith
length-set_version c (d ∷ ds) = ground (arith, length-set_version c ds)

length-agreed_versions :
    (local versions remote : List Cap)
    → length (agreed_versions local versions remote) ≤ length versions + length remote
unfolding agreed_versions
length-agreed_versions local versions [] = omega arith
length-agreed_versions local versions (c ∷ cs) = ground (
  arith,
  length-set_version c versions,
  length-agreed_versions local versions cs,
  length-agreed_versions local (set_version c versions) cs,
)

length-insert_name : (c : Cap) (l : List Cap) → length (insert_name c l) ≡ length l + 1
unfolding insert_name
length-insert_name c [] = omega arith
length-insert_name c (d ∷ ds) = ground (arith, length-insert_name c ds)

length-sort_names : (l : List Cap) → length (sort_names l) ≡ length l
unfolding sort_names
length-sort_names [] = refl
length-sort_names (c ∷ cs) =
    omega (arith, length-insert_name c (sort_names cs), length-sort_names cs)

length-negotiated_capabilities :
    (local remote caps : List Cap)
    → negotiated_capabilities local remote ≡ ok caps
    → length caps ≤ length remote
unfolding negotiated_capabilities
length-negotiated_capabilities local remote caps h = go (unsupported_local local) h
  where
    go : (o : Option Cap) → from_unsupported local remote o ≡ ok caps → length caps ≤ length remote
    go (some c) e = absurd (ground arith)
    go none e = ground (
      arith,
      length-sort_names (agreed_versions local [] remote),
      length-agreed_versions local [] remote,
    )

-- Where both protocols were agreed on, SNAP starts behind the messages of the agreed ETH version.
snap_behind_eth :
    {E : Type 0} (local remote : List Cap) (c : Conn E) (len : ℕ)
    → length remote < 2 ^ 50
    → negotiate local remote ≡ ok c
    → protocol_length c.eth_version ≡ some len
    → 0 < c.snap_offset
    → c.eth_offset + len ≤ c.snap_offset
unfolding negotiate capability_protocol_length
snap_behind_eth {E} local remote c len few h l pos =
    agreed (negotiated_capabilities local remote) refl h
  where
    with_snap :
        (caps : List Cap) (o v : ℕ) (r : Result Cap (Option (ℕ × ℕ)))
        → negotiated_capabilities local remote ≡ ok caps
        → capability_offset caps eth ≡ ok (some (o, v))
        → capability_offset caps snap ≡ r
        → on_snap_offset o v r ≡ ok c
        → c.eth_offset + len ≤ c.snap_offset
    with_snap caps o v (err x) n a b e = absurd (ground arith)
    with_snap caps o v (ok none) n a b e =
        let same : fresh_conn o v 0 ≡ c = ground arith in
        let zero_offset : c.snap_offset ≡ 0 = sym (ap (λ (x : Conn E). x.snap_offset) same) in
        absurd (omega (arith, zero_offset))
    with_snap caps o v (ok (some (s, w))) n a b e =
        let same : fresh_conn o v s ≡ c = ground arith in
        let eth_at : o ≡ c.eth_offset = ap (λ (x : Conn E). x.eth_offset) same in
        let snap_at : s ≡ c.snap_offset = ap (λ (x : Conn E). x.snap_offset) same in
        let version_is : v ≡ c.eth_version = ap (λ (x : Conn E). x.eth_version) same in
        let apart : o + len ≤ s =
          capability_offset_apart caps eth snap o v len s w
            (omega (arith, length-negotiated_capabilities local remote caps n))
            (negotiated_capabilities-Ascending local remote caps n) refl a b
            (ap protocol_length version_is ∙ l) in
        omega (arith, apart, eth_at, snap_at)

    with_eth :
        (caps : List Cap) (r : Result Cap (Option (ℕ × ℕ)))
        → negotiated_capabilities local remote ≡ ok caps
        → capability_offset caps eth ≡ r
        → on_eth_offset caps r ≡ ok c
        → c.eth_offset + len ≤ c.snap_offset
    with_eth caps (err x) n a e = absurd (ground arith)
    with_eth caps (ok none) n a e = absurd (ground arith)
    with_eth caps (ok (some (o, v))) n a e =
        with_snap caps o v (capability_offset caps snap) n a refl e

    agreed :
        (r : Result Cap (List Cap))
        → negotiated_capabilities local remote ≡ r
        → on_negotiated r ≡ ok c
        → c.eth_offset + len ≤ c.snap_offset
    agreed (err x) n e = absurd (ground arith)
    agreed (ok caps) n e = with_eth caps (capability_offset caps eth) n refl e

-- On a connection whose negotiation agreed on ETH and SNAP, with a peer that lists fewer than 2^50
-- capabilities, an ETH message whose code is within the agreed version's length goes to the wire below
-- every SNAP message, so that the two never share a wire code.
pub send_raw-send_snap_raw :
    {E : Type 0} (local remote : List Cap) (c : Conn E) (len code snap_code wire : ℕ)
    (p q payload : Bytes) (w : Write)
    → length remote < 2 ^ 50
    → negotiate local remote ≡ ok c
    → protocol_length c.eth_version ≡ some len
    → code < len
    → c.snap_offset + snap_code < 2 ^ 64
    → send_snap_raw c snap_code q ≡ some (w, (wire, payload))
    → (send_raw c code p).1.0 < wire
unfolding send_raw send_snap_raw
send_raw-send_snap_raw local remote c len code snap_code wire p q payload w few h l inside fits
      sent =
    let pos : 0 < c.snap_offset = ground arith in
    let wire_is : wire ≡ (c.snap_offset + snap_code) % 2 ^ 64 = ground arith in
    let apart : c.eth_offset + len ≤ c.snap_offset =
      snap_behind_eth local remote c len few h l pos in
    omega (arith, wire_is, apart)

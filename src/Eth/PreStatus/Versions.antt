-- ===== src/Eth/PreStatus/Versions.antt =====
-- The agreed ETH version is one that the local side offers.
use raidan_sdk.Prelude.{
  ℕ, zero, suc, ◌+◌, ◌-◌, ◌≤◌, ◌%◌, ◌^◌, true, Option, none, some, List, [], ◌∷◌, Bytes, bytes_eq,
  Bool-cases, ◌≡◌, inl, inr, refl, sym, ap, ◌∙◌, arith,
}
use raidan_sdk.Prelude.Result.{Result, ok, err}
use raidan_sdk.Eth.Caps.{
  Cap, eth, snap, has_cap, eth_capabilities, eth_capabilities_from, version_of, offset_from,
  capability_offset, negotiated_capabilities,
}
use raidan_sdk.Eth.Caps.Negotiation.{greatest_common, negotiated_capabilities_greatest}
use raidan_sdk.Eth.Caps.Offsets.{not_found, offset_from_here, offset_from_there}
use raidan_sdk.Eth.Conn.{Conn, fresh_conn, on_snap_offset, on_eth_offset, on_negotiated, negotiate}

offset_from-version_of :
    (o : ℕ) (cs : List Cap) (n : Bytes) (y w : ℕ)
    → offset_from o cs n ≡ ok (some (y, w))
    → w ≡ version_of cs n
unfolding version_of
offset_from-version_of o [] n y w h = absurd (not_found o n y w h)
offset_from-version_of o (c ∷ cs) n y w h = elim (Bool-cases (bytes_eq c.name n)) [
  | inl e ↦ rw e ((offset_from_here o c cs n y w e h).1)
  | inr e ↦
      let (len, l, k) = offset_from_there o c cs n y w e h in
      rw e (offset_from-version_of ((o + len) % 2 ^ 64) cs n y w k)
]

greatest_common_bound :
    (local remote : List Cap) (name : Bytes) (b : ℕ)
    → ((c : Cap) → has_cap local c ≡ true → c.version ≤ b)
    → greatest_common local remote name ≤ b
unfolding greatest_common
greatest_common_bound local [] name b h = omega arith
greatest_common_bound local (c ∷ cs) name b h =
    ground (arith, greatest_common_bound local cs name b h, h c)

eth_capabilities_from_bound :
    (n : ℕ) (c : Cap) → has_cap (eth_capabilities_from n) c ≡ true → c.version ≤ 68 + n
unfolding eth_capabilities_from has_cap
eth_capabilities_from_bound zero c h = ground arith
eth_capabilities_from_bound (suc n) c h = ground (arith, eth_capabilities_from_bound n c)

eth_capabilities_bound :
    (want : ℕ) (c : Cap) → 68 ≤ want → has_cap (eth_capabilities want) c ≡ true → c.version ≤ want
unfolding eth_capabilities
eth_capabilities_bound want c h k = omega (arith, eth_capabilities_from_bound (want - 68) c k)

module _ {E : Type 0} where
  snap_keeps_version :
      (o v : ℕ) (r : Result Cap (Option (ℕ × ℕ))) (c : Conn E)
      → on_snap_offset o v r ≡ ok c
      → c.eth_version ≡ v
  snap_keeps_version o v (err x) c e = absurd (ground arith)
  snap_keeps_version o v (ok none) c e =
      let same : fresh_conn o v 0 ≡ c = ground arith in
      sym (ap (λ (x : Conn E). x.eth_version) same)
  snap_keeps_version o v (ok (some (s, w))) c e =
      let same : fresh_conn o v s ≡ c = ground arith in
      sym (ap (λ (x : Conn E). x.eth_version) same)

  -- The version of a negotiated connection is the greatest common one.
  negotiate-eth_version :
      (local remote : List Cap) (c : Conn E)
      → negotiate local remote ≡ ok c
      → c.eth_version ≡ greatest_common local remote eth
  unfolding negotiate capability_offset
  negotiate-eth_version local remote c h = agreed (negotiated_capabilities local remote) refl h
    where
      with_eth :
          (caps : List Cap) (r : Result Cap (Option (ℕ × ℕ)))
          → negotiated_capabilities local remote ≡ ok caps
          → capability_offset caps eth ≡ r
          → on_eth_offset caps r ≡ ok c
          → c.eth_version ≡ greatest_common local remote eth
      with_eth caps (err x) n q e = absurd (ground arith)
      with_eth caps (ok none) n q e = absurd (ground arith)
      with_eth caps (ok (some (o, v))) n q e =
          snap_keeps_version o v (capability_offset caps snap) c e
          ∙ offset_from-version_of 16 caps eth o v q
          ∙ negotiated_capabilities_greatest local remote caps eth n

      agreed :
          (r : Result Cap (List Cap))
          → negotiated_capabilities local remote ≡ r
          → on_negotiated r ≡ ok c
          → c.eth_version ≡ greatest_common local remote eth
      agreed (err x) q e = absurd (ground arith)
      agreed (ok caps) q e = with_eth caps (capability_offset caps eth) q refl e

  -- It is at most the one up to which the local side offers ETH.
  pub negotiate-eth_capabilities :
      (want : ℕ) (remote : List Cap) (c : Conn E)
      → 68 ≤ want
      → negotiate (eth_capabilities want) remote ≡ ok c
      → c.eth_version ≤ want
  negotiate-eth_capabilities want remote c h k = omega (
    arith,
    negotiate-eth_version (eth_capabilities want) remote c k,
    greatest_common_bound (eth_capabilities want) remote eth want
        (λ x m. eth_capabilities_bound want x h m),
  )

-- ===== src/Eth/Status/Agreement.antt =====
-- Two peers of one chain accept each other's Status.
use raidan_sdk.Prelude.{
  ℕ, ◌≤◌, ◌<◌, ◌-◌, ◌%◌, ◌^◌, ◌||◌, true, false, Option, none, some, List, [], ◌∷◌, ◌++◌, Bytes,
  All, ltb, leb, ◌==◌, bytes_eq, bytes_eq_refl, bytes_eq→eq, Bool-cases, ◌≡◌, ◌≢◌, ◌⊎◌, inl, inr,
  refl, ap, ◌∙◌, arith,
}
use raidan_sdk.Prelude.Result.{ok}
use raidan_sdk.Rpc.ForkId.{
  ForkId, ChainParams, fork_timestamp_threshold, compute_fork_id, validate_fork_id, fork_sums,
  crc_update,
}
use raidan_sdk.Rpc.ForkId.Sums.{DistinctSums}
use raidan_sdk.Rpc.ForkId.Heads.{validate_fork_id-other_head}
use raidan_sdk.Rlpx.Disconnect.{RlpStream}
use raidan_sdk.Eth.Conn.{disc_msg, ping_msg}
use raidan_sdk.Eth.Wire.{WireRead, read_failed, received}
use raidan_sdk.Eth.Wire.Closing.{Passing, pings, one_pong_is}
use raidan_sdk.Eth.Status.{
  Status68, StatusPacket, StatusCodec, Params, zero_hash, validate_status_identity, check_range,
  encode_status, status68_of, packet_of, judge_status, exchange_loop,
}

-- A decoder gives back what its encoder wrote.
abbrev pub Faithful : {E : Type 0} → StatusCodec E → Type 0
Faithful codec =
    ((s : Status68) (bs : Bytes) → codec.encode68 s ≡ ok bs → codec.decode68 bs ≡ ok s)
    × ((s : StatusPacket) (bs : Bytes)
        → codec.encode_packet s ≡ ok bs
        → codec.decode_packet bs ≡ ok s)

-- The parameters as they are fetched: the fork ID is that of the chain at its head, and the head has a
-- hash.
abbrev pub Fetched : Params → Type 0
Fetched p =
    (p.fork_id
      ≡ compute_fork_id p.chain.genesis p.chain.head_number p.chain.head_time
          (record { blocks = p.chain.fork_blocks; times = p.chain.fork_times }))
    × (p.head_hash ≢ zero_hash)

-- Parameters of one network, with one genesis and one fork schedule, at whatever heads.
abbrev pub SameChain : Params → Params → Type 0
SameChain a b =
    (a.network_id ≡ b.network_id)
    × (a.chain.genesis ≡ b.chain.genesis)
    × (a.chain.fork_blocks ≡ b.chain.fork_blocks)
    × (a.chain.fork_times ≡ b.chain.fork_times)

-- A chain that the check can judge at its head: the head is below the greatest 64-bit number, the block
-- forks are numbered up to the timestamp threshold, and the checksums between the forks are distinct.
abbrev pub CanJudge : ChainParams → Type 0
CanJudge c =
    All (λ (b : ℕ). b ≤ fork_timestamp_threshold) c.fork_blocks
    × (c.head_number < 2 ^ 64 - 1)
    × (c.head_time < 2 ^ 64 - 1)
    × DistinctSums (fork_sums (crc_update 0 c.genesis) (c.fork_blocks ++ c.fork_times))

-- What a Status announces: the hash of the sender's head and, from ETH/69 on, the blocks from the genesis
-- to the head.
abbrev pub Announces : {E : Type 0} → StatusCodec E → ℕ → Bytes → Params → Type 0
Announces codec v bs p =
    ((v ≡ 68) × ((s : Status68) × (codec.decode68 bs ≡ ok s) × (s.head ≡ p.head_hash)))
    ⊎ ((69 ≤ v)
        × ((s : StatusPacket) × (codec.decode_packet bs ≡ ok s)
            × (s.earliest_block ≡ 0)
            × (s.latest_block ≡ p.chain.head_number)
            × (s.latest_block_hash ≡ p.head_hash)))

peer_fork :
    (a b : Params)
    → Fetched a
    → SameChain a b
    → CanJudge b.chain
    → validate_fork_id b.chain a.fork_id ≡ none
peer_fork a b (id, nz) (net, g, bs, ts) (small, n, t, distinct) =
    ap (validate_fork_id b.chain) (id ∙ rw (g, bs, ts) refl)
    ∙ validate_fork_id-other_head b.chain a.chain.head_number a.chain.head_time small n t distinct

identity_passes :
    {E : Type 0} (v pv nid : ℕ) (g : Bytes) (id : ForkId) (p : Params)
    → pv ≡ v
    → nid ≡ p.network_id
    → g ≡ p.chain.genesis
    → validate_fork_id p.chain id ≡ none
    → validate_status_identity {E = E} v pv nid g id p ≡ none
unfolding validate_status_identity
identity_passes {E} v pv nid g id p w n e f =
    let same : (pv == v) ≡ true = ground arith in
    let net : (nid == p.network_id) ≡ true = ground arith in
    let gen : bytes_eq g p.chain.genesis ≡ true =
      ap (λ (b : Bytes). bytes_eq b p.chain.genesis) e ∙ bytes_eq_refl p.chain.genesis in
    rw (same, net, gen, f) refl

range_passes :
    {E : Type 0} (st : StatusPacket)
    → st.earliest_block ≡ 0
    → st.latest_block_hash ≢ zero_hash
    → check_range {E = E} st ≡ (st.fork_id, none)
unfolding check_range
range_passes st z nz =
    let ordered : ltb st.latest_block st.earliest_block ≡ false = ground arith in
    elim (Bool-cases (bytes_eq st.latest_block_hash zero_hash)) [
      | inl e ↦ absurd (nz (bytes_eq→eq st.latest_block_hash zero_hash e))
      | inr e ↦ rw (ordered, e) refl
    ]

module _ {E : Type 0} (codec : StatusCodec E) (faithful : Faithful codec) where
  -- A Status that `encode_status` wrote is accepted with its fork ID by a peer of the same chain.
  pub judge_status-encode_status :
      (v : ℕ) (a b : Params) (bs : Bytes)
      → 68 ≤ v
      → v ≤ 72
      → Fetched a
      → SameChain a b
      → CanJudge b.chain
      → encode_status codec v a ≡ ok bs
      → judge_status codec v bs b ≡ (a.fork_id, none)
  unfolding encode_status judge_status
  judge_status-encode_status v a b bs lo hi fetched (net, g, bl, ti) can sent =
      let narrow : v % 2 ^ 32 ≡ v = omega arith in
      let fork = peer_fork a b fetched (net, g, bl, ti) can in
      let own =
        identity_passes {E = E} v (v % 2 ^ 32) a.network_id a.chain.genesis a.fork_id b narrow net g
          fork in
      elim (Bool-cases (v == 68)) [
        | inl e ↦
            let d = faithful.0 (status68_of v a) bs (sent68 (ground arith)) in rw (e, d, own) refl
        | inr e ↦
            let supported : (ltb v 69 || ltb 72 v) ≡ false = ground arith in
            let d = faithful.1 (packet_of v a) bs (sent_packet (ground arith)) in
            rw (e, supported, d, own) (range_passes (packet_of v a) refl fetched.1)
      ]
    where
      sent68 : v < 69 → codec.encode68 (status68_of v a) ≡ ok bs
      sent68 h = let old : leb 69 v ≡ false = ground arith in rw old at sent

      sent_packet : 69 ≤ v → codec.encode_packet (packet_of v a) ≡ ok bs
      sent_packet h = let new : leb 69 v ≡ true = ground arith in rw new at sent

  -- The Status that `encode_status` wrote announces the head.
  encode_status-Announces :
      (v : ℕ) (a : Params) (bs : Bytes)
      → 68 ≤ v
      → encode_status codec v a ≡ ok bs
      → Announces codec v bs a
  unfolding encode_status
  encode_status-Announces v a bs lo sent = elim (Bool-cases (leb 69 v)) [
    | inl new ↦ inr (
      ground arith,
      (packet_of v a, faithful.1 (packet_of v a) bs (rw new at sent), refl, refl, refl),
    )
    | inr old ↦
        inl
          (ground arith, (status68_of v a, faithful.0 (status68_of v a) bs (rw old at sent), refl))
  ]

  -- The loop ends at the Status without an error.
  exchange_loop-accepts :
      (s : RlpStream) (v offset : ℕ) (a b : Params) (bs : Bytes) (before rest : List (WireRead E))
      (o : Option E)
      → 68 ≤ v
      → v ≤ 72
      → Fetched a
      → SameChain a b
      → CanJudge b.chain
      → encode_status codec v a ≡ ok bs
      → All (Passing (disc_msg ∷ offset ∷ [])) before
      → exchange_loop codec s v offset b (before ++ (received offset bs o ∷ rest))
        ≡ record { answer = some none; pongs = pings before }
  unfolding exchange_loop
  exchange_loop-accepts s v offset a b bs [] rest o lo hi f same can sent h =
      let here : (offset == offset) ≡ true = ground arith in
      rw (here, judge_status-encode_status v a b bs lo hi f same can sent) refl
  exchange_loop-accepts s v offset a b bs (read_failed e timeout ∷ rs) rest o lo hi f net same sent
        h =
      absurd h.0
  exchange_loop-accepts s v offset a b bs (received code body pong ∷ rs) rest o lo hi f same can
        sent h =
      let staying : (code == disc_msg) ≡ false = ground (arith, h) in
      let other : (code == offset) ≡ false = ground (arith, h) in
      let rest_of = exchange_loop-accepts s v offset a b bs rs rest o lo hi f same can sent h.1 in
      rw (other, staying)
        (elim (Bool-cases (code == ping_msg)) [
          | inl e ↦ rw e (one_pong_is _ _ _ _ pong (h.0.1 (ground arith)) rest_of)
          | inr e ↦ rw e rest_of
        ])

  -- Where a connection reads, behind any messages that neither are of the Status' code nor end the
  -- exchange, the Status that a peer of the same chain wrote at whatever head, `ExchangeStatus` ends without
  -- an error, it has answered each ping with a pong, and the Status announces the peer's head, for a version
  -- from 68 to 72, a peer whose parameters are as they are fetched, and a chain that can be judged: the own
  -- head is below the greatest 64-bit number in height and time, the block forks are numbered up to the
  -- timestamp threshold, and the checksums between the forks are distinct.
  pub exchange_loop-encode_status :
      (s : RlpStream) (v offset : ℕ) (a b : Params) (bs : Bytes) (before rest : List (WireRead E))
      (o : Option E)
      → 68 ≤ v
      → v ≤ 72
      → Fetched a
      → SameChain a b
      → CanJudge b.chain
      → encode_status codec v a ≡ ok bs
      → All (Passing (disc_msg ∷ offset ∷ [])) before
      → (exchange_loop codec s v offset b (before ++ (received offset bs o ∷ rest))
          ≡ record { answer = some none; pongs = pings before })
        × Announces codec v bs a
  exchange_loop-encode_status s v offset a b bs before rest o lo hi f same can sent h = (
    exchange_loop-accepts s v offset a b bs before rest o lo hi f same can sent h,
    encode_status-Announces v a bs lo sent,
  )

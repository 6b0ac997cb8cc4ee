-- ===== src/Eth/Status/Judgement.antt =====
-- What a peer's Status is judged by.
use raidan_sdk.Prelude.{
  ℕ, ◌≤◌, not, ◌||◌, Option, none, some, Bytes, ltb, ◌==◌, if◌then◌else◌, bytes_eq, bytes_eq→eq,
  Bool-cases, ◌≡◌, ◌≢◌, ◌⊎◌, inl, inr, refl, ap, ◌∙◌, arith,
}
use raidan_sdk.Prelude.Result.{Result, ok, err}
use raidan_sdk.Rpc.ForkId.{ForkId, ForkError, validate_fork_id}
use raidan_sdk.Eth.Dial.{zero_fork_id}
use raidan_sdk.Eth.Status.{
  Status68, StatusPacket, StatusCodec, Params, StatusError, nil_params, zero_latest_hash,
  undecodable_status, unsupported_version, network_mismatch, version_mismatch, genesis_mismatch,
  fork_rejected, bad_block_range, zero_hash, on_fork, validate_status_identity, retry_fork_id,
  on_identity, check_range, on_status68, on_packet, judge_status,
}

-- The identity is that of the chain, under the agreed version.
abbrev pub Matches : ℕ → Params → ℕ → ℕ → Bytes → Type 0
Matches eth_version p protocol_version network_id genesis =
    (protocol_version ≡ eth_version) × (network_id ≡ p.network_id) × (genesis ≡ p.chain.genesis)

module _ {E : Type 0} where
  -- The check of the identity, where that of the fork ID gave `o`.
  abbrev by_fork : ℕ → ℕ → ℕ → Bytes → Params → Option ForkError → Option (StatusError E)
  by_fork v pv nid g p o =
      if not (pv == v)
      then some (version_mismatch pv)
      else if not (nid == p.network_id)
      then some (network_mismatch nid)
      else if not (bytes_eq g p.chain.genesis)
      then some (genesis_mismatch g)
      else on_fork o

  identity_accepts :
      (v pv nid : ℕ) (g : Bytes) (id : ForkId) (p : Params)
      → validate_status_identity {E = E} v pv nid g id p ≡ none
      → Matches v p pv nid g × (validate_fork_id p.chain id ≡ none)
  unfolding validate_status_identity
  identity_accepts v pv nid g id p h = go (validate_fork_id p.chain id) refl h
    where
      go :
          (o : Option ForkError)
          → validate_fork_id p.chain id ≡ o
          → by_fork v pv nid g p o ≡ none
          → Matches v p pv nid g × (validate_fork_id p.chain id ≡ none)
      go none q k = ((ground arith, ground arith, bytes_eq→eq g p.chain.genesis (ground arith)), q)
      go (some e) q k = absurd (ground arith)

  identity_rejects :
      (v pv nid : ℕ) (g : Bytes) (id : ForkId) (p : Params) (f : ForkError)
      → validate_status_identity {E = E} v pv nid g id p ≡ some (fork_rejected f)
      → validate_fork_id p.chain id ≡ some f
  unfolding validate_status_identity
  identity_rejects v pv nid g id p f h = go (validate_fork_id p.chain id) refl h
    where
      go :
          (o : Option ForkError)
          → validate_fork_id p.chain id ≡ o
          → by_fork v pv nid g p o ≡ some (fork_rejected f)
          → validate_fork_id p.chain id ≡ some f
      go none q k = absurd (ground arith)
      go (some e) q k = q ∙ ground arith

module _ {E : Type 0} (codec : StatusCodec E) (v : ℕ) (body : Bytes) (p : Params) where
  -- The message decodes, in the layout of the version, to a Status of this chain with this fork ID; from
  -- ETH/69 on its range of blocks is ordered and ends in a block.
  abbrev pub Announces : ForkId → Type 0
  Announces id =
      ((v ≡ 68)
        × (st : Status68) × (codec.decode68 body ≡ ok st)
        × Matches v p st.protocol_version st.network_id st.genesis
        × (st.fork_id ≡ id))
      ⊎ ((69 ≤ v)
          × (v ≤ 72)
          × (st : StatusPacket) × (codec.decode_packet body ≡ ok st)
          × Matches v p st.protocol_version st.network_id st.genesis
          × (st.fork_id ≡ id)
          × (st.earliest_block ≤ st.latest_block)
          × (st.latest_block_hash ≢ zero_hash))

  abbrev pub Verdict : ForkId × Option (StatusError E) → Type 0
  Verdict (id, none) = (validate_fork_id p.chain id ≡ none) × Announces id
  Verdict (id, some (fork_rejected f)) = validate_fork_id p.chain id ≡ some f
  Verdict (id, some _) = id ≡ zero_fork_id

  retried :
      (id : ForkId) (e : StatusError E)
      → ((f : ForkError) → e ≡ fork_rejected f → validate_fork_id p.chain id ≡ some f)
      → Verdict (retry_fork_id id e)
  unfolding retry_fork_id
  retried id nil_params h = refl
  retried id zero_latest_hash h = refl
  retried id (undecodable_status e) h = refl
  retried id (unsupported_version n) h = refl
  retried id (network_mismatch n) h = refl
  retried id (version_mismatch n) h = refl
  retried id (genesis_mismatch g) h = refl
  retried id (fork_rejected f) h = h f refl
  retried id (bad_block_range a b) h = refl

  -- Behind the check of the identity, which gave `o`.
  identified :
      (pv nid : ℕ) (g : Bytes) (id : ForkId) (next : ForkId × Option (StatusError E))
      (o : Option (StatusError E))
      → validate_status_identity v pv nid g id p ≡ o
      → (Matches v p pv nid g → validate_fork_id p.chain id ≡ none → Verdict next)
      → Verdict (on_identity id next o)
  identified pv nid g id next none q k = let (m, a) = identity_accepts v pv nid g id p q in k m a
  identified pv nid g id next (some e) q k =
      retried id e (λ f r. identity_rejects v pv nid g id p f (q ∙ ap some r))

  ranged :
      (st : StatusPacket)
      → 69 ≤ v
      → v ≤ 72
      → codec.decode_packet body ≡ ok st
      → Matches v p st.protocol_version st.network_id st.genesis
      → validate_fork_id p.chain st.fork_id ≡ none
      → Verdict (check_range st)
  unfolding check_range
  ranged st lo hi d m a = elim (Bool-cases (ltb st.latest_block st.earliest_block)) [
    | inl e ↦ rw e refl
    | inr e ↦ elim (Bool-cases (bytes_eq st.latest_block_hash zero_hash)) [
      | inl q ↦ rw (e, q) refl
      | inr q ↦
          let nonzero : st.latest_block_hash ≢ zero_hash =
            λ z. absurd (ground (arith, ap (λ (b : Bytes). bytes_eq b zero_hash) z)) in
          rw (e, q) ((a, inr (lo, hi, st, d, m, refl, ground arith, nonzero)))
    ]
  ]

  judged68 :
      (r : Result E Status68) → v ≡ 68 → codec.decode68 body ≡ r → Verdict (on_status68 v p r)
  judged68 (err e) w d = refl
  judged68 (ok st) w d =
      identified st.protocol_version st.network_id st.genesis st.fork_id (st.fork_id, none) _ refl
        (λ m a. (a, inl (w, st, d, m, refl)))

  judged_packet :
      (r : Result E StatusPacket)
      → 69 ≤ v
      → v ≤ 72
      → codec.decode_packet body ≡ r
      → Verdict (on_packet v p r)
  judged_packet (err e) lo hi d = refl
  judged_packet (ok st) lo hi d =
      identified st.protocol_version st.network_id st.genesis st.fork_id (check_range st) _ refl
        (λ m a. ranged st lo hi d m a)

  -- A Status is accepted only if it decodes in the layout of the version, its version, network and genesis
  -- are the expected ones, its fork ID passes the check of the chain and, from ETH/69 on, its range of
  -- blocks is ordered and ends in a nonzero hash; the error of a rejected fork ID is the one of that check,
  -- and comes with the fork ID; every other error comes with the zero fork ID.
  pub judge_status-Verdict : Verdict (judge_status codec v body p)
  unfolding judge_status
  judge_status-Verdict = elim (Bool-cases (v == 68)) [
    | inl e ↦ rw e (judged68 (codec.decode68 body) (ground arith) refl)
    | inr e ↦ elim (Bool-cases (ltb v 69 || ltb 72 v)) [
      | inl q ↦ rw (e, q) refl
      | inr q ↦
          rw (e, q) (judged_packet (codec.decode_packet body) (ground arith) (ground arith) refl)
    ]
  ]

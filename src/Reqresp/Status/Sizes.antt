-- ===== src/Reqresp/Status/Sizes.antt =====
-- The sizes of what the Status bodies are made of.
use raidan_sdk.Prelude.{
  ℕ, zero, suc, ◌-◌, ◌/◌, ◌^◌, ◌<◌, min, Option, none, some, List, [], ◌∷◌, ◌++◌, Bytes, codes,
  length, take, replicate, length-take, ltb, Bool-cases, ◌≡◌, inl, inr, refl, sym, ap, ◌∙◌, arith,
}
use raidan_sdk.Prelude.Text.{trim_prefix, parse_uint, parse_uint_bound}
use raidan_sdk.Prelude.LittleEndian.{little_endian}
use raidan_sdk.Prelude.Result.{Result, ok, err, ◌>>=◌}
use raidan_sdk.Reqresp.Spec.{
  SpecValue, Spec, spec_uint, consensus_config, blob_parameters, hex_decode,
}
use raidan_sdk.Reqresp.Status.{
  StatusError, sized, consensus_hex, numbered, xor_digest, fork_data_root, masked_digest, on_slots,
  on_fulu, on_spec, consensus_fork_digest,
}

length-xor_digest : (a b : Bytes) → length (xor_digest a b) ≡ min (length a) (length b)
unfolding xor_digest
length-xor_digest [] b = omega arith
length-xor_digest (x ∷ a) [] = omega arith
length-xor_digest (x ∷ a) (y ∷ b) = omega (arith, length-xor_digest a b)

-- What follows from the steps of a chain that succeeds.
pub bound :
    {E A B C : Type 0} (r : Result E A) (k : A → Result E B) (b : B)
    → (r >>= k) ≡ ok b
    → ((a : A) → r ≡ ok a → k a ≡ ok b → C)
    → C
bound (ok a) k b h f = f a refl h
bound (err e) k b h f = absurd (ground arith)

module _ {E : Type 0} where
  pub numbered_bound : (s : Bytes) (n : ℕ) → numbered {E = E} (parse_uint s) ≡ ok n → n < 2 ^ 64
  numbered_bound s n h = go (parse_uint s) refl h
    where
      go : (o : Option ℕ) → parse_uint s ≡ o → numbered {E = E} o ≡ ok n → n < 2 ^ 64
      go none q k = absurd (ground arith)
      go (some m) q k = parse_uint_bound s n (q ∙ ground arith)

  pub length-consensus_hex :
      (value : Bytes) (want : ℕ) (bs : Bytes)
      → consensus_hex {E = E} value want ≡ ok bs
      → length bs ≡ want
  unfolding consensus_hex
  length-consensus_hex value want bs h = go (hex_decode (trim_prefix value (codes "0x"))) h
    where
      go : (o : Option Bytes) → sized {E = E} want o ≡ ok bs → length bs ≡ want
      go none k = absurd (ground arith)
      go (some d) k = ground arith

module _ (sha256 : Bytes → Bytes) (digests : (bs : Bytes) → length (sha256 bs) ≡ 32) where
  length-masked_digest :
      (version root : Bytes) (q : ℕ × ℕ)
      → length (masked_digest sha256 (fork_data_root sha256 version root) q) ≡ 4
  length-masked_digest version root (e, m) = omega (
    arith,
    length-xor_digest (take 4 (fork_data_root sha256 version root))
        (sha256 (little_endian 8 e ++ little_endian 8 m)),
    length-take 4 (fork_data_root sha256 version root),
    digests (
        (version ++ replicate (32 - length version) 0) ++ (root ++ replicate (32 - length root) 0)),
    digests (little_endian 8 e ++ little_endian 8 m),
  )

module _ {E : Type 0} (sha256 : Bytes → Bytes)
    (digests : (bs : Bytes) → length (sha256 bs) ≡ 32) where
  abbrev given : Bytes → Result (StatusError E) Bytes
  given bs = ok bs

  length-front : (d bs : Bytes) → given (take 4 (sha256 bs)) ≡ ok d → length d ≡ 4
  length-front d bs h =
      let e : take 4 (sha256 bs) ≡ d = ground arith in
      rw (← e) (omega (arith, length-take 4 (sha256 bs), digests bs))

  pub length-consensus_fork_digest :
      (spec : Result E (List (Bytes × SpecValue))) (version root : Bytes) (slot : ℕ) (d : Bytes)
      → consensus_fork_digest sha256 spec version root slot ≡ ok d
      → length d ≡ 4
  unfolding consensus_fork_digest
  length-consensus_fork_digest spec version root slot d h = answered spec h
    where
      masked :
          (c : Spec) (epoch : ℕ)
          → given
              (masked_digest sha256 (fork_data_root sha256 version root) (blob_parameters c epoch))
            ≡ ok d
          → length d ≡ 4
      masked c epoch k =
          let e : masked_digest sha256 (fork_data_root sha256 version root)
                (blob_parameters c epoch)
              ≡ d =
            ground arith in
          sym (ap length e)
          ∙ length-masked_digest sha256 digests version root (blob_parameters c epoch)

      slots :
          (c : Spec) (fulu : ℕ) (o : Option ℕ)
          → on_slots {E = E} sha256 (fork_data_root sha256 version root) c fulu slot o ≡ ok d
          → length d ≡ 4
      slots c fulu none k = absurd (ground arith)
      slots c fulu (some zero) k = absurd (ground arith)
      slots c fulu (some (suc n)) k = elim (Bool-cases (ltb (slot / suc n) fulu)) [
        | inl before ↦ length-front d _ (rw before at k)
        | inr behind ↦ masked c (slot / suc n) (rw behind at k)
      ]

      forked :
          (c : Spec) (o : Option ℕ)
          → on_fulu {E = E} sha256 (fork_data_root sha256 version root) c slot o ≡ ok d
          → length d ≡ 4
      forked c none k = length-front d _ k
      forked c (some fulu) k = slots c fulu (spec_uint c (codes "SLOTS_PER_EPOCH")) k

      answered :
          (r : Result E (List (Bytes × SpecValue)))
          → on_spec {E = E} sha256 (fork_data_root sha256 version root) slot r ≡ ok d
          → length d ≡ 4
      answered (err e) k = length-front d _ k
      answered (ok vs) k =
          forked (consensus_config vs) (spec_uint (consensus_config vs) (codes "FULU_FORK_EPOCH")) k

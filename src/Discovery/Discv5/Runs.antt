-- ===== src/Discovery/Discv5/Runs.antt =====
-- Runs of the wait for a challenge.
use raidan_sdk.Prelude.{
  ℕ, true, false, none, some, [], ◌∷◌, ◌++◌, Bytes, replicate, length, ◌≡◌, refl, inl, inr, arith,
}
use raidan_sdk.Prelude.Result.{ok, err}
use raidan_sdk.Rpc.ForkId.{big_endian}
use raidan_sdk.Discovery.Discv5.{
  Mask, random_ordinary, WhoAreYou, timeout, read_failed, wrong_size, decode_who_are_you, UdpRead,
  read_udp_with_context, read_who_are_you,
}
use raidan_sdk.Discovery.Discv5.Challenge.{
  challenge_header, challenge_packet, read_who_are_you-challenge_packet,
}

-- A mask that leaves the bytes as they are.
abbrev mask : Mask
mask id iv bs = bs

abbrev me : Bytes
me = replicate 32 9

abbrev masking_iv : Bytes
masking_iv = replicate 16 7

abbrev challenge : Bytes → WhoAreYou
challenge nonce = record {
  challenge_data =
      masking_iv
      ++ challenge_header (record {
        challenge_data = [];
        id_nonce = replicate 16 3;
        record_seq = 258;
        nonce = nonce;
      });
  id_nonce = replicate 16 3;
  record_seq = 258;
  nonce = nonce;
}

abbrev got : Bytes → UdpRead ℕ
got packet = record {
  ended_before = none;
  time_left = true;
  deadline_error = none;
  ended_after = none;
  received = ok (true, packet);
}

abbrev elsewhere : UdpRead ℕ
elsewhere = record (got (1 ∷ [])) { received = ok (false, 1 ∷ []) }

abbrev wanted : WhoAreYou
wanted = challenge (replicate 12 5)

abbrev other : WhoAreYou
other = challenge (replicate 12 6)

-- The packet that asks has 32 bytes of an ID and 20 of a message behind its header.
length-random_ordinary :
    length (random_ordinary mask me me (replicate 12 5) (replicate 20 1) masking_iv) ≡ 91
unfolding big_endian
length-random_ordinary = refl

too_short : decode_who_are_you {E = ℕ} mask me (1 ∷ []) ≡ err (wrong_size 1)
unfolding decode_who_are_you
too_short = refl

nothing_arrives : read_who_are_you {E = ℕ} mask me 4 none (elsewhere ∷ []) ≡ err timeout
unfolding read_who_are_you read_udp_with_context
nothing_arrives = refl

-- The context that ends behind the read goes before the datagram.
context_ends :
    read_who_are_you mask me 4 none
      (record (got (challenge_packet mask me masking_iv wanted)) { ended_after = some 3 } ∷ [])
    ≡ err (read_failed 3)
unfolding read_who_are_you read_udp_with_context
context_ends = refl

read_who_are_you-challenge_packet_example :
    read_who_are_you {E = ℕ} mask me 4 (some wanted.nonce) (
      elsewhere
      ∷ got (challenge_packet mask me masking_iv other)
      ∷ got (challenge_packet mask me masking_iv wanted)
      ∷ [])
    ≡ ok wanted
unfolding read_udp_with_context
read_who_are_you-challenge_packet_example =
    read_who_are_you-challenge_packet mask me masking_iv 4 wanted
      (elsewhere ∷ got (challenge_packet mask me masking_iv other) ∷ []) []
      (got (challenge_packet mask me masking_iv wanted)) (λ id iv bs. (refl, refl))
      (refl, refl, refl, omega arith, refl)
      (
        inl (1 ∷ [], refl),
        (inr (masking_iv, other, (refl, refl, refl, omega arith, refl), refl, refl), tt),
      )
      refl

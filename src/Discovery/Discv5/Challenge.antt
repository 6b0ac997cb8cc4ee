-- ===== src/Discovery/Discv5/Challenge.antt =====
-- The challenge that a recipient sends, read back by the one who asked for it.
use raidan_sdk.Prelude.{
  ℕ, ◌^◌, ◌<◌, true, false, some, List, [], ◌∷◌, ◌++◌, Bytes, All, append-nil, ◌==◌, ◌⊎◌, inl, inr,
  sym, length, take, length-append, bytes_eq, bytes_eq_refl, ◌≡◌, refl, ap, ◌∙◌, arith,
}
use raidan_sdk.Prelude.LittleEndian.{split_fields}
use raidan_sdk.Prelude.Result.{Result, ok}
use raidan_sdk.Rpc.ForkId.{big_endian}
use raidan_sdk.Discovery.Discv5.{
  big_endian_value, Mask, static_header, WhoAreYou, ChallengeError, on_header, decode_who_are_you,
  UdpRead, read_udp_with_context, read_who_are_you,
}

-- A mask keeps the length and takes itself off again.
abbrev pub IsMask : Mask → Type 0
IsMask mask =
    (id iv bs : Bytes) → (length (mask id iv bs) ≡ length bs) × (mask id iv (mask id iv bs) ≡ bs)

-- The packet of a challenge, from the format.
abbrev pub challenge_header : WhoAreYou → Bytes
challenge_header w = static_header 1 w.nonce 24 ++ (w.id_nonce ++ big_endian 8 w.record_seq)

abbrev pub challenge_packet : Mask → Bytes → Bytes → WhoAreYou → Bytes
challenge_packet mask id iv w = iv ++ mask id iv (challenge_header w)

-- The parts have their sizes, and the challenge's data is what the packet has in the clear.
abbrev pub IsFor : Bytes → WhoAreYou → Type 0
IsFor iv w =
    (length iv ≡ 16)
    × (length w.nonce ≡ 12)
    × (length w.id_nonce ≡ 16)
    × (w.record_seq < 2 ^ 64)
    × (w.challenge_data ≡ iv ++ challenge_header w)

big_endian_value-big_endian : (n : ℕ) → n < 2 ^ 64 → big_endian_value 0 (big_endian 8 n) ≡ n
unfolding big_endian big_endian_value
big_endian_value-big_endian n h = omega arith

length-static_header : (nonce : Bytes) → length nonce ≡ 12 → length (static_header 1 nonce 24) ≡ 23
unfolding big_endian
length-static_header nonce h = omega (arith, length-append nonce (0 ∷ 24 ∷ []))

length-challenge_header :
    (iv : Bytes) (w : WhoAreYou) → IsFor iv w → length (challenge_header w) ≡ 47
unfolding big_endian
length-challenge_header iv w (i, n, d, r, c) =
    rw
      (
        length-append (static_header 1 w.nonce 24) (w.id_nonce ++ big_endian 8 w.record_seq),
        length-append w.id_nonce (big_endian 8 w.record_seq),
        length-static_header w.nonce n,
        d,
      )
      refl

module _ {E : Type 0} where
  abbrev accepted : WhoAreYou → Result (ChallengeError E) WhoAreYou
  accepted w = ok w

  on_header-static_header :
      (iv : Bytes) (w : WhoAreYou)
      → IsFor iv w
      → on_header {E = E}
          (iv ++ challenge_header w)
          (static_header 1 w.nonce 24)
          (w.id_nonce ++ big_endian 8 w.record_seq)
        ≡ accepted w
  unfolding big_endian big_endian_value
  on_header-static_header iv w (i, n, d, r, c) =
      let (t, e) = split_fields 12 w.nonce (0 ∷ 24 ∷ []) n in
      let (t', e') = split_fields 16 w.id_nonce (big_endian 8 w.record_seq) d in
      let l : length (w.id_nonce ++ big_endian 8 w.record_seq) ≡ 24 =
        omega (arith, length-append w.id_nonce (big_endian 8 w.record_seq)) in
      rw (l, e, t, t', e', big_endian_value-big_endian w.record_seq r, ← c) refl

  decode_who_are_you-challenge_packet :
      (mask : Mask) (id iv : Bytes) (w : WhoAreYou)
      → IsMask mask
      → IsFor iv w
      → decode_who_are_you {E = E} mask id (challenge_packet mask id iv w) ≡ accepted w
  unfolding decode_who_are_you
  decode_who_are_you-challenge_packet mask id iv w m (i, n', d', r, c) =
      let masked = mask id iv (challenge_header w) in
      let n : length masked ≡ 47 =
        (m id iv (challenge_header w)).0 ∙ length-challenge_header iv w (i, n', d', r, c) in
      let (t, d) = split_fields 16 iv masked i in
      let whole : take 47 masked ≡ masked =
        ap (take 47) (sym (append-nil masked)) ∙ (split_fields 47 masked [] n).0 in
      let (f, g) =
        split_fields 23 (static_header 1 w.nonce 24) (w.id_nonce ++ big_endian 8 w.record_seq)
          (length-static_header w.nonce n') in
      let size : (length (iv ++ masked) == 63) ≡ true = ground (arith, length-append iv masked) in
      rw (size, t, d, whole, (m id iv (challenge_header w)).1, f, g)
        (on_header-static_header iv w (i, n', d', r, c))

  -- A read that is passed over: a datagram from elsewhere, or a challenge for another nonce.
  abbrev pub IsPassed : Mask → Bytes → E → Bytes → UdpRead E → Type 0
  IsPassed mask id deadline_exceeded nonce u =
      ((packet : Bytes) × (read_udp_with_context deadline_exceeded u ≡ ok (false, packet)))
      ⊎ ((iv : Bytes) × (w : WhoAreYou) × IsFor iv w
          × (bytes_eq w.nonce nonce ≡ false)
          × (read_udp_with_context deadline_exceeded u ≡ ok (true, challenge_packet mask id iv w)))

  -- Where the peer sends the challenge for the nonce of the request, masked for this node, the wait for it
  -- ends with that challenge, behind whatever comes from other addresses and whatever challenges for other
  -- nonces come from the peer, for challenges whose parts have the sizes of the format, over a mask that
  -- keeps the length and takes itself off again.
  pub read_who_are_you-challenge_packet :
      (mask : Mask) (id iv : Bytes) (deadline_exceeded : E) (w : WhoAreYou)
      (passed us : List (UdpRead E)) (u : UdpRead E)
      → IsMask mask
      → IsFor iv w
      → All (IsPassed mask id deadline_exceeded w.nonce) passed
      → read_udp_with_context deadline_exceeded u ≡ ok (true, challenge_packet mask id iv w)
      → read_who_are_you mask id deadline_exceeded (some w.nonce) (passed ++ (u ∷ us)) ≡ ok w
  unfolding read_who_are_you
  read_who_are_you-challenge_packet mask id iv late w [] us u m f h q =
      rw (q, decode_who_are_you-challenge_packet mask id iv w m f, bytes_eq_refl w.nonce) refl
  read_who_are_you-challenge_packet mask id iv late w (v ∷ vs) us u m f (inl (packet, k), hs) q =
      rw k (read_who_are_you-challenge_packet mask id iv late w vs us u m f hs q)
  read_who_are_you-challenge_packet mask id iv late w (v ∷ vs) us u m f
        (inr (iv', w', f', other, k), hs) q =
      rw (k, decode_who_are_you-challenge_packet mask id iv' w' m f', other)
        (read_who_are_you-challenge_packet mask id iv late w vs us u m f hs q)

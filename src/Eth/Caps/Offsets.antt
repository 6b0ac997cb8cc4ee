-- ===== src/Eth/Caps/Offsets.antt =====
-- The message space of the agreed protocols, and the configurations that the negotiation accepts.
use raidan_sdk.Prelude.{
  ℕ, zero, suc, ◌+◌, ◌-◌, ◌*◌, ◌≤◌, ◌<◌, ◌%◌, ◌^◌, true, false, not, Option, none, some, List, [],
  ◌∷◌, ◌++◌, Bytes, length, ◌==◌, if◌then◌else◌, bytes_eq, bytes_eq→eq, bytes_lt, bytes_lt_trans,
  bytes_lt_irrefl, Bool-cases, ◌≡◌, inl, inr, refl, sym, ap, ◌∙◌, arith,
}
use raidan_sdk.Prelude.Result.{ok}
use raidan_sdk.Eth.Caps.{
  Cap, Config, snap, supported_capability, validate, validate_capabilities, capabilities,
  eth_capabilities, eth_capabilities_from, protocol_length, unsupported_local, behind, offset_from,
  capability_offset, capability_protocol_length,
}
use raidan_sdk.Eth.Caps.Negotiation.{Ascending, Above}

protocol_length_bound : (v len : ℕ) → protocol_length v ≡ some len → len ≤ 22
unfolding protocol_length
protocol_length_bound v len h = ground arith

capability_protocol_length_bound :
    (c : Cap) (len : ℕ) → capability_protocol_length c ≡ some len → len ≤ 22
unfolding capability_protocol_length
capability_protocol_length_bound c len h = ground (arith, protocol_length_bound c.version len)

-- The space behind the offset `o` holds the protocols of `cs` without a wrap-around.
abbrev Fits : ℕ → List Cap → Type 0
Fits o cs = o + 22 * length cs < 2 ^ 64

pub not_found : (o : ℕ) (n : Bytes) (y w : ℕ) → offset_from o [] n ≡ ok (some (y, w)) → ⊥
unfolding offset_from
not_found o n y w h = ground arith

capability_length :
    (c : Cap) (m : Bytes) (v : ℕ)
    → c.name ≡ m
    → v ≡ c.version
    → capability_protocol_length c ≡ capability_protocol_length (record { name = m; version = v })
capability_length c m v e q = rw (← e, q) refl

pub offset_from_here :
    (o : ℕ) (c : Cap) (cs : List Cap) (n : Bytes) (y w : ℕ)
    → bytes_eq c.name n ≡ true
    → offset_from o (c ∷ cs) n ≡ ok (some (y, w))
    → (y ≡ o) × (w ≡ c.version)
unfolding offset_from
offset_from_here o c cs n y w e h = ground arith

-- Behind another name the search goes on, behind that protocol's messages.
pub offset_from_there :
    (o : ℕ) (c : Cap) (cs : List Cap) (n : Bytes) (y w : ℕ)
    → bytes_eq c.name n ≡ false
    → offset_from o (c ∷ cs) n ≡ ok (some (y, w))
    → (len : ℕ) × (capability_protocol_length c ≡ some len)
      × (offset_from ((o + len) % 2 ^ 64) cs n ≡ ok (some (y, w)))
unfolding offset_from
offset_from_there o c cs n y w e h = go (capability_protocol_length c) refl (passed h)
  where
    passed :
        offset_from o (c ∷ cs) n ≡ ok (some (y, w))
        → behind o c (λ o'. offset_from o' cs n) (capability_protocol_length c) ≡ ok (some (y, w))
    passed k = ground arith

    go :
        (l : Option ℕ)
        → capability_protocol_length c ≡ l
        → behind o c (λ o'. offset_from o' cs n) l ≡ ok (some (y, w))
        → (len : ℕ) × (capability_protocol_length c ≡ some len)
          × (offset_from ((o + len) % 2 ^ 64) cs n ≡ ok (some (y, w)))
    go none q k = absurd (ground arith)
    go (some len) q k = (len, q, k)

offset_from_later :
    (o : ℕ) (cs : List Cap) (n : Bytes) (y w : ℕ)
    → Fits o cs
    → offset_from o cs n ≡ ok (some (y, w))
    → o ≤ y
offset_from_later o [] n y w f h = absurd (not_found o n y w h)
offset_from_later o (c ∷ cs) n y w f h = elim (Bool-cases (bytes_eq c.name n)) [
  | inl e ↦ omega (arith, offset_from_here o c cs n y w e h)
  | inr e ↦
      let (len, l, k) = offset_from_there o c cs n y w e h in
      let bound : len ≤ 22 = capability_protocol_length_bound c len l in
      let exact : (o + len) % 2 ^ 64 ≡ o + len = omega (arith, f) in
      omega (
        arith,
        f,
        exact,
        offset_from_later ((o + len) % 2 ^ 64) cs n y w (omega (arith, f, exact)) k,
      )
]

-- A name that is found is one of the entries.
pub offset_from-Above :
    (o : ℕ) (cs : List Cap) (m n : Bytes) (y w : ℕ)
    → Above m cs
    → offset_from o cs n ≡ ok (some (y, w))
    → bytes_lt m n ≡ true
offset_from-Above o [] m n y w a h = absurd (not_found o n y w h)
offset_from-Above o (c ∷ cs) m n y w a h = elim (Bool-cases (bytes_eq c.name n)) [
  | inl e ↦ ap (bytes_lt m) (sym (bytes_eq→eq c.name n e)) ∙ a.0
  | inr e ↦
      let (len, l, k) = offset_from_there o c cs n y w e h in
      offset_from-Above ((o + len) % 2 ^ 64) cs m n y w a.1 k
]

offsets_apart :
    (o : ℕ) (cs : List Cap) (m n : Bytes) (x v len y w : ℕ)
    → Fits o cs
    → Ascending cs
    → bytes_lt m n ≡ true
    → offset_from o cs m ≡ ok (some (x, v))
    → offset_from o cs n ≡ ok (some (y, w))
    → capability_protocol_length (record { name = m; version = v }) ≡ some len
    → x + len ≤ y
offsets_apart o [] m n x v len y w f a lt hm hn hl = absurd (not_found o n y w hn)
offsets_apart o (c ∷ cs) m n x v len y w f a lt hm hn hl = elim (Bool-cases (bytes_eq c.name n)) [
  | inl at_n ↦ elim (Bool-cases (bytes_eq c.name m)) [
    | inl at_m ↦
        let same : m ≡ n = sym (bytes_eq→eq c.name m at_m) ∙ bytes_eq→eq c.name n at_n in
        let self : bytes_lt n n ≡ true = ap (λ (b : Bytes). bytes_lt b n) (sym same) ∙ lt in
        absurd (ground (arith, bytes_lt_irrefl n))
    | inr past_m ↦
        let (l, q, k) = offset_from_there o c cs m x v past_m hm in
        let up : bytes_lt n m ≡ true =
          ap (λ (b : Bytes). bytes_lt b m) (sym (bytes_eq→eq c.name n at_n))
          ∙ offset_from-Above ((o + l) % 2 ^ 64) cs c.name m x v a.0 k in
        let self : bytes_lt n n ≡ true = bytes_lt_trans n m n up lt in
        absurd (ground (arith, bytes_lt_irrefl n))
  ]
  | inr past_n ↦
      let (l, q, k) = offset_from_there o c cs n y w past_n hn in
      let bound : l ≤ 22 = capability_protocol_length_bound c l q in
      let exact : (o + l) % 2 ^ 64 ≡ o + l = omega (arith, f) in
      elim (Bool-cases (bytes_eq c.name m)) [
        | inl at_m ↦
            let (here, version_here) = offset_from_here o c cs m x v at_m hm in
            let as_cap : capability_protocol_length c ≡ some len =
              capability_length c m v (bytes_eq→eq c.name m at_m) version_here ∙ hl in
            let same_len : l ≡ len = ground arith in
            let later : (o + l) % 2 ^ 64 ≤ y =
              offset_from_later ((o + l) % 2 ^ 64) cs n y w (omega (arith, f, exact)) k in
            omega (arith, exact)
        | inr past_m ↦
            let (l', q', k') = offset_from_there o c cs m x v past_m hm in
            let same_len : l' ≡ l = ground arith in
            offsets_apart ((o + l) % 2 ^ 64) cs m n x v len y w (omega (arith, f, exact)) a.1 lt
              (ap (λ (i : ℕ). offset_from ((o + i) % 2 ^ 64) cs m) (sym same_len) ∙ k') k hl
      ]
]

-- Of two agreed protocols, in the order of their names, the second starts behind the messages of the
-- first: for an ascending list of fewer than 2^50 capabilities, where both are found and the length of
-- the first is known.
pub capability_offset_apart :
    (caps : List Cap) (m n : Bytes) (x v len y w : ℕ)
    → length caps < 2 ^ 50
    → Ascending caps
    → bytes_lt m n ≡ true
    → capability_offset caps m ≡ ok (some (x, v))
    → capability_offset caps n ≡ ok (some (y, w))
    → capability_protocol_length (record { name = m; version = v }) ≡ some len
    → x + len ≤ y
unfolding capability_offset
capability_offset_apart caps m n x v len y w few a lt hm hn hl =
    offsets_apart 16 caps m n x v len y w (omega arith) a lt hm hn hl

validate_capabilities_supported :
    (seen cs : List Cap) → validate_capabilities seen cs ≡ none → unsupported_local cs ≡ none
unfolding validate_capabilities unsupported_local
validate_capabilities_supported seen [] h = refl
validate_capabilities_supported seen (c ∷ cs) h =
    ground (arith, validate_capabilities_supported (c ∷ seen) cs)

unsupported_local-append :
    (cs ds : List Cap)
    → unsupported_local cs ≡ none
    → unsupported_local ds ≡ none
    → unsupported_local (cs ++ ds) ≡ none
unfolding unsupported_local
unsupported_local-append [] ds h k = k
unsupported_local-append (c ∷ cs) ds h k = ground (arith, unsupported_local-append cs ds)

eth_capabilities_from_supported :
    (n : ℕ) → n ≤ 4 → unsupported_local (eth_capabilities_from n) ≡ none
unfolding eth_capabilities_from unsupported_local supported_capability
eth_capabilities_from_supported zero h = refl
eth_capabilities_from_supported (suc n) h = ground (arith, eth_capabilities_from_supported n)

-- A configuration that `validate` accepts offers capabilities that the negotiation supports, all of them.
pub validate-capabilities :
    (c : Config) → validate c ≡ none → unsupported_local (capabilities c) ≡ none
unfolding validate capabilities eth_capabilities unsupported_local supported_capability
validate-capabilities c h = elim (Bool-cases (length c.exact == 0)) [
  | inr given ↦ rw given (validate_capabilities_supported [] c.exact (ground arith))
  | inl derived ↦
      let version : ℕ = if c.max_version == 0 then 70 else c.max_version in
      rw derived (
        unsupported_local-append (eth_capabilities_from (version - 68)) _
          (eth_capabilities_from_supported (version - 68) (ground arith))
          (snap_part (c.snap_version) (ground arith)))
]
  where
    snap_part :
        (v : ℕ)
        → v ≤ 2
        → unsupported_local (if not (v == 0) then record { name = snap; version = v } ∷ [] else [])
          ≡ none
    snap_part zero h = refl
    snap_part (suc zero) h = refl
    snap_part (suc (suc zero)) h = refl
    snap_part (suc (suc (suc v))) h = absurd (omega arith)

-- ===== src/Discovery/Dnsdisc/Walk/Settled.antt =====
-- A walk settles its name: the marks it leaves stand in front of those of their children.
use raidan_sdk.Prelude.{
  ℕ, zero, suc, true, Option, none, some, List, [], ◌∷◌, Bytes, All, bytes_eq, bytes_eq→eq,
  bytes_eq_refl, Bool-cases, ◌≡◌, ◌⊎◌, inl, inr, refl, sym, ap, ◌∙◌, arith,
}
use raidan_sdk.Prelude.Result.{Result, ok, err, ◌>>=◌}
use raidan_sdk.Discovery.Dnsdisc.{DnsError, validate_dns_branch}
use raidan_sdk.Discovery.Dnsdisc.Walk.{
  WalkError, Entries, lookup, member, children_of, mark, walk_each, on_children, on_valid, on_found,
  walk,
}

member-here : (v : List Bytes) (x : Bytes) → member (x ∷ v) x ≡ true
unfolding member
member-here v x = rw (bytes_eq_refl x) refl

pub member-later : (v : List Bytes) (n x : Bytes) → member v x ≡ true → member (n ∷ v) x ≡ true
unfolding member
member-later v n x m = ground arith

module _ (entries : Entries) where
  -- A name with a valid branch.
  abbrev pub IsBranch : Bytes → Bytes → Type 0
  IsBranch name entry = (lookup entries name ≡ some entry) × (validate_dns_branch entry ≡ none)

  -- A name that the walk is done with: it has a valid branch, and was marked unless that has no children.
  abbrev pub Settled : List Bytes → Bytes → Type 0
  Settled visited name =
      (entry : Bytes) × IsBranch name entry
      × ((children_of entry ≡ []) ⊎ (member visited name ≡ true))

  -- Every mark stands in front of those of its children.
  abbrev pub Ordered : List Bytes → Type 0
  Ordered [] = Unit {0}
  Ordered (name ∷ visited) =
      ((entry : Bytes) × IsBranch name entry × All (Settled visited) (children_of entry))
      × Ordered visited

  abbrev pub Grows : List Bytes → List Bytes → Type 0
  Grows v v' = (x : Bytes) → member v x ≡ true → member v' x ≡ true

  pub Grows-Settled : (v v' : List Bytes) (x : Bytes) → Grows v v' → Settled v x → Settled v' x
  Grows-Settled v v' x g (entry, b, inl e) = (entry, b, inl e)
  Grows-Settled v v' x g (entry, b, inr m) = (entry, b, inr (g x m))

  -- A step that settles a name, keeps the order and only adds marks.
  abbrev Settles : (List Bytes → Bytes → Result WalkError (List Bytes)) → Type 0
  Settles step =
      (v v' : List Bytes) (x : Bytes)
      → Ordered v
      → step v x ≡ ok v'
      → Ordered v' × Settled v' x × Grows v v'

  walk_each-Settles :
      (step : List Bytes → Bytes → Result WalkError (List Bytes)) (v v' cs : List Bytes)
      → Settles step
      → Ordered v
      → walk_each step v cs ≡ ok v'
      → Ordered v' × All (Settled v') cs × Grows v v'
  walk_each-Settles step v v' [] s o h = let e : v ≡ v' = ground arith in rw (← e) (o, tt, λ x m. m)
  walk_each-Settles step v v' (c ∷ cs) s o h =
      go (step v c) refl h (λ w. walk_each-Settles step w v' cs s)
    where
      go :
          (r : Result WalkError (List Bytes))
          → step v c ≡ r
          → (r >>= λ w. walk_each step w cs) ≡ ok v'
          → ((w : List Bytes)
              → Ordered w
              → walk_each step w cs ≡ ok v'
              → Ordered v' × All (Settled v') cs × Grows w v')
          → Ordered v' × All (Settled v') (c ∷ cs) × Grows v v'
      go (err e) q k more = absurd (ground arith)
      go (ok w) q k more =
          let (ow, sw, gw) = s v w c o q in
          let (o', s', g') = more w ow k in
          (o', (Grows-Settled w v' c g' sw, s'), λ x m. g' x (gw x m))

  -- A marked name has a valid branch.
  pub marked-IsBranch :
      (v : List Bytes) (x : Bytes)
      → Ordered v
      → member v x ≡ true
      → (entry : Bytes) × IsBranch x entry
  unfolding member
  marked-IsBranch [] x o m = absurd (ground arith)
  marked-IsBranch (n ∷ v) x o m = elim (Bool-cases (bytes_eq n x)) [
    | inl e ↦
        let (entry, b, below) = o.0 in
        (entry, (ap (lookup entries) (sym (bytes_eq→eq n x e)) ∙ b.0, b.1))
    | inr e ↦ marked-IsBranch v x o.1 (ground arith)
  ]

  -- Behind the checks of the marks, over a step that settles.
  on_children-Settles :
      (step : List Bytes → Bytes → Result WalkError (List Bytes)) (v v' : List Bytes)
      (name entry : Bytes) (cs : List Bytes)
      → Settles step
      → Ordered v
      → IsBranch name entry
      → children_of entry ≡ cs
      → on_children step v name cs ≡ ok v'
      → Ordered v' × Settled v' name × Grows v v'
  on_children-Settles step v v' name entry [] s o b q h =
      let e : v ≡ v' = ground arith in rw (← e) (o, (entry, b, inl q), λ x m. m)
  on_children-Settles step v v' name entry (c ∷ cs) s o b q h =
      go (walk_each step v (c ∷ cs)) refl h
    where
      go :
          (r : Result WalkError (List Bytes))
          → walk_each step v (c ∷ cs) ≡ r
          → mark name r ≡ ok v'
          → Ordered v' × Settled v' name × Grows v v'
      go (err e) k l = absurd (ground arith)
      go (ok w) k l =
          let (o', s', g') = walk_each-Settles step v w (c ∷ cs) s o k in
          let e : name ∷ w ≡ v' = ground arith in
          let below : All (Settled w) (children_of entry) = rw q s' in
          rw (← e) (
            ((entry, b, below), o'),
            (entry, b, inr (member-here w name)),
            λ x m. member-later w name x (g' x m),
          )

  pub walk-Settles : (depths : ℕ) (visiting : List Bytes) → Settles (walk entries depths visiting)
  unfolding walk
  walk-Settles zero visiting v v' x o h = absurd (ground arith)
  walk-Settles (suc depths) visiting v v' x o h = elim (Bool-cases (member visiting x)) [
    | inl e ↦ absurd (ground arith)
    | inr e ↦ elim (Bool-cases (member v x)) [
      | inl m ↦
          let same : v ≡ v' = ground arith in
          let (entry, b) = marked-IsBranch v x o m in rw (← same) (o, (entry, b, inr m), λ y k. k)
      | inr m ↦ found (lookup entries x) refl (walk-Settles depths (x ∷ visiting)) (rw (e, m) at h)
    ]
  ]
    where
      valid :
          (entry : Bytes) (r : Option DnsError)
          → lookup entries x ≡ some entry
          → validate_dns_branch entry ≡ r
          → Settles (walk entries depths (x ∷ visiting))
          → on_valid (walk entries depths (x ∷ visiting)) v x entry r ≡ ok v'
          → Ordered v' × Settled v' x × Grows v v'
      valid entry (some e) q k s l = absurd (ground arith)
      valid entry none q k s l =
          on_children-Settles (walk entries depths (x ∷ visiting)) v v' x entry (children_of entry)
            s o (q, k) refl l

      found :
          (r : Option Bytes)
          → lookup entries x ≡ r
          → Settles (walk entries depths (x ∷ visiting))
          → on_found (walk entries depths (x ∷ visiting)) v x r ≡ ok v'
          → Ordered v' × Settled v' x × Grows v v'
      found none q s l = absurd (ground arith)
      found (some entry) q s l = valid entry (validate_dns_branch entry) q refl s l

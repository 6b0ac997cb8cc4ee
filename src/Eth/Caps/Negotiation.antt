-- ===== src/Eth/Caps/Negotiation.antt =====
-- What two peers agree on: for each name that both offer in a common version the greatest such
-- version, in the order of the names.
use raidan_sdk.Prelude.{
  ℕ, Bool, true, false, ◌&&◌, ◌||◌, Option, none, some, List, [], ◌∷◌, Bytes, All, ltb,
  if◌then◌else◌, bytes_eq, bytes_eq_refl, bytes_eq_sym, bytes_eq→eq, bytes_lt, bytes_lt_irrefl,
  bytes_lt_trans, bytes_lt_total, Bool-cases, ◌≡◌, inl, inr, refl, sym, ap, ◌∙◌, arith,
}
use raidan_sdk.Prelude.Result.{ok}
use raidan_sdk.Eth.Caps.{
  Cap, has_cap, has_name, version_of, set_version, agreed_versions, insert_name, sort_names,
  unsupported_local, from_unsupported, negotiated_capabilities,
}

-- The greatest version of a name that occurs in `remote` and is offered by `local`, zero for none.
unfoldable pub greatest_common : List Cap → List Cap → Bytes → ℕ
greatest_common local [] name = 0
greatest_common local (c ∷ cs) name =
    let rest = greatest_common local cs name in
    if has_cap local c && bytes_eq c.name name && ltb rest c.version then c.version else rest

max_of : ℕ → ℕ → ℕ
max_of a b = if ltb a b then b else a

set_version_same : (c : Cap) (l : List Cap) → version_of (set_version c l) c.name ≡ c.version
unfolding version_of set_version
set_version_same c [] = rw (bytes_eq_refl c.name)
set_version_same c (d ∷ ds) = elim (Bool-cases (bytes_eq d.name c.name)) [
  | inl e ↦ rw (e, bytes_eq_refl c.name)
  | inr e ↦ rw (e, e) (set_version_same c ds)
]

set_version_other :
    (c : Cap) (l : List Cap) (n : Bytes)
    → bytes_eq c.name n ≡ false
    → version_of (set_version c l) n ≡ version_of l n
unfolding version_of set_version
set_version_other c [] n h = rw h
set_version_other c (d ∷ ds) n h = elim (Bool-cases (bytes_eq d.name c.name)) [
  | inl e ↦
      let same : bytes_eq d.name n ≡ false =
        ap (λ (m : Bytes). bytes_eq m n) (bytes_eq→eq d.name c.name e) ∙ h in
      rw (e, h, same)
  | inr e ↦ elim (Bool-cases (bytes_eq d.name n)) [
    | inl f ↦ rw (e, f)
    | inr f ↦ rw (e, f) (set_version_other c ds n h)
  ]
]

-- The loop from some versions on gives the greater of what it starts from and the greatest common.
agreed_versions_max :
    (local versions remote : List Cap) (n : Bytes)
    → version_of (agreed_versions local versions remote) n
      ≡ max_of (version_of versions n) (greatest_common local remote n)
unfolding agreed_versions greatest_common max_of
agreed_versions_max local versions [] n = ground arith
agreed_versions_max local versions (c ∷ cs) n = elim (Bool-cases (bytes_eq c.name n)) [
  | inl e ↦
      let name_eq : version_of versions c.name ≡ version_of versions n =
        ap (version_of versions) (bytes_eq→eq c.name n e) in
      let set_eq : version_of (set_version c versions) n ≡ c.version =
        ap (version_of (set_version c versions)) (sym (bytes_eq→eq c.name n e))
        ∙ set_version_same c versions in
      ground (
        arith,
        e,
        name_eq,
        set_eq,
        agreed_versions_max local versions cs n,
        agreed_versions_max local (set_version c versions) cs n,
      )
  | inr e ↦ ground (
    arith,
    e,
    set_version_other c versions n e,
    agreed_versions_max local versions cs n,
    agreed_versions_max local (set_version c versions) cs n,
  )
]

lt_not_eq : (a b n : Bytes) → bytes_lt a b ≡ true → bytes_eq a n ≡ true → bytes_eq b n ≡ false
lt_not_eq a b n h e = elim (Bool-cases (bytes_eq b n)) [
  | inl f ↦
      let same : a ≡ b = bytes_eq→eq a n e ∙ sym (bytes_eq→eq b n f) in
      let self : bytes_lt b b ≡ true = ap (λ (x : Bytes). bytes_lt x b) (sym same) ∙ h in
      absurd (ground (arith, bytes_lt_irrefl b))
  | inr f ↦ f
]

insert_name-version_of :
    (c : Cap) (l : List Cap) (n : Bytes)
    → version_of (insert_name c l) n ≡ (if bytes_eq c.name n then c.version else version_of l n)
unfolding insert_name version_of
insert_name-version_of c [] n = refl
insert_name-version_of c (d ∷ ds) n = elim (Bool-cases (bytes_lt d.name c.name)) [
  | inl e ↦ elim (Bool-cases (bytes_eq d.name n)) [
    | inl f ↦ rw (e, f, lt_not_eq d.name c.name n e f)
    | inr f ↦ rw (e, f) (insert_name-version_of c ds n)
  ]
  | inr e ↦ rw e
]

sort_names-version_of : (l : List Cap) (n : Bytes) → version_of (sort_names l) n ≡ version_of l n
unfolding sort_names version_of
sort_names-version_of [] n = refl
sort_names-version_of (c ∷ cs) n =
    insert_name-version_of c (sort_names cs) n
    ∙ ap (λ (v : ℕ). if bytes_eq c.name n then c.version else v) (sort_names-version_of cs n)

-- Each name of the list is greater than `n`.
abbrev pub Above : Bytes → List Cap → Type 0
Above n l = All (λ (c : Cap). bytes_lt n c.name ≡ true) l

-- Each name occurs once, and they ascend.
abbrev pub Ascending : List Cap → Type 0
Ascending [] = Unit {0}
Ascending (c ∷ cs) = Above c.name cs × Ascending cs

-- No name occurs twice.
abbrev DistinctNames : List Cap → Type 0
DistinctNames [] = Unit {0}
DistinctNames (c ∷ cs) = (has_name cs c.name ≡ false) × DistinctNames cs

All-insert_name :
    (P : Cap → Type 0) (c : Cap) (l : List Cap) → P c → All P l → All P (insert_name c l)
unfolding insert_name
All-insert_name P c [] pc h = (pc, tt)
All-insert_name P c (d ∷ ds) pc h = elim (Bool-cases (bytes_lt d.name c.name)) [
  | inl e ↦ rw e (h.0, All-insert_name P c ds pc h.1)
  | inr e ↦ rw e (pc, h)
]

All-weaken : (m n : Bytes) (l : List Cap) → bytes_lt m n ≡ true → Above n l → Above m l
All-weaken m n [] h a = tt
All-weaken m n (d ∷ ds) h a = (bytes_lt_trans m n d.name h a.0, All-weaken m n ds h a.1)

insert_name-Ascending :
    (c : Cap) (l : List Cap) → has_name l c.name ≡ false → Ascending l → Ascending (insert_name c l)
unfolding insert_name has_name
insert_name-Ascending c [] h a = (tt, tt)
insert_name-Ascending c (d ∷ ds) h a = elim (Bool-cases (bytes_lt d.name c.name)) [
  | inl e ↦ rw e (
    All-insert_name (λ (x : Cap). bytes_lt d.name x.name ≡ true) c ds e a.0,
    insert_name-Ascending c ds (ground arith) a.1,
  )
  | inr e ↦
      let lt : bytes_lt c.name d.name ≡ true = bytes_lt_total d.name c.name e (ground arith) in
      rw e ((lt, All-weaken c.name d.name ds lt a.0), a)
]

has_name-insert_name :
    (c : Cap) (l : List Cap) (n : Bytes)
    → has_name (insert_name c l) n ≡ (bytes_eq c.name n || has_name l n)
unfolding insert_name has_name
has_name-insert_name c [] n = refl
has_name-insert_name c (d ∷ ds) n = elim (Bool-cases (bytes_lt d.name c.name)) [
  | inl e ↦ rw (e, has_name-insert_name c ds n) (ground arith)
  | inr e ↦ rw e
]

has_name-sort_names : (l : List Cap) (n : Bytes) → has_name (sort_names l) n ≡ has_name l n
unfolding sort_names has_name
has_name-sort_names [] n = refl
has_name-sort_names (c ∷ cs) n =
    has_name-insert_name c (sort_names cs) n
    ∙ ap (λ (b : Bool). bytes_eq c.name n || b) (has_name-sort_names cs n)

sort_names-Ascending : (l : List Cap) → DistinctNames l → Ascending (sort_names l)
unfolding sort_names
sort_names-Ascending [] h = tt
sort_names-Ascending (c ∷ cs) h =
    insert_name-Ascending c (sort_names cs) (has_name-sort_names cs c.name ∙ h.0)
      (sort_names-Ascending cs h.1)

has_name-set_version :
    (c : Cap) (l : List Cap) (n : Bytes)
    → bytes_eq c.name n ≡ false
    → has_name (set_version c l) n ≡ has_name l n
unfolding has_name set_version
has_name-set_version c [] n h = rw h
has_name-set_version c (d ∷ ds) n h = elim (Bool-cases (bytes_eq d.name c.name)) [
  | inl e ↦
      let same : bytes_eq d.name n ≡ false =
        ap (λ (m : Bytes). bytes_eq m n) (bytes_eq→eq d.name c.name e) ∙ h in
      rw (e, h, same)
  | inr e ↦ rw (e, has_name-set_version c ds n h)
]

set_version-DistinctNames :
    (c : Cap) (l : List Cap) → DistinctNames l → DistinctNames (set_version c l)
unfolding set_version has_name
set_version-DistinctNames c [] h = (refl, tt)
set_version-DistinctNames c (d ∷ ds) h = elim (Bool-cases (bytes_eq d.name c.name)) [
  | inl e ↦ rw e (ap (has_name ds) (sym (bytes_eq→eq d.name c.name e)) ∙ h.0, h.1)
  | inr e ↦ rw e (
    has_name-set_version c ds d.name (bytes_eq_sym c.name d.name ∙ e) ∙ h.0,
    set_version-DistinctNames c ds h.1,
  )
]

agreed_versions-DistinctNames :
    (local versions remote : List Cap)
    → DistinctNames versions
    → DistinctNames (agreed_versions local versions remote)
unfolding agreed_versions
agreed_versions-DistinctNames local versions [] h = h
agreed_versions-DistinctNames local versions (c ∷ cs) h =
    elim (Bool-cases (has_cap local c && ltb (version_of versions c.name) c.version)) [
      | inl e ↦ rw e (
          agreed_versions-DistinctNames local (set_version c versions) cs
            (set_version-DistinctNames c versions h))
      | inr e ↦ rw e (agreed_versions-DistinctNames local versions cs h)
    ]

negotiated_is :
    (local remote caps : List Cap)
    → negotiated_capabilities local remote ≡ ok caps
    → caps ≡ sort_names (agreed_versions local [] remote)
unfolding negotiated_capabilities
negotiated_is local remote caps h = go (unsupported_local local) h
  where
    go :
        (o : Option Cap)
        → from_unsupported local remote o ≡ ok caps
        → caps ≡ sort_names (agreed_versions local [] remote)
    go none e = ground arith
    go (some c) e = ground arith

-- Where the negotiation succeeds, the version agreed for a name is the greatest that the remote side
-- lists and the local side offers, and 0 where they have none in common.
pub negotiated_capabilities_greatest :
    (local remote caps : List Cap) (name : Bytes)
    → negotiated_capabilities local remote ≡ ok caps
    → version_of caps name ≡ greatest_common local remote name
unfolding max_of version_of
negotiated_capabilities_greatest local remote caps name h =
    ap (λ (l : List Cap). version_of l name) (negotiated_is local remote caps h)
    ∙ sort_names-version_of (agreed_versions local [] remote) name
    ∙ agreed_versions_max local [] remote name
    ∙ start (greatest_common local remote name)
  where
    start : (g : ℕ) → max_of (version_of [] name) g ≡ g
    start g = ground arith

-- Where the negotiation succeeds, the agreed names strictly ascend in the order of byte strings, so
-- that each occurs once.
pub negotiated_capabilities-Ascending :
    (local remote caps : List Cap) → negotiated_capabilities local remote ≡ ok caps → Ascending caps
negotiated_capabilities-Ascending local remote caps h = rw (negotiated_is local remote caps h) (
    sort_names-Ascending (agreed_versions local [] remote)
      (agreed_versions-DistinctNames local [] remote tt))

-- ===== src/Rpc/Cache/Bounds.antt =====
-- The capacity of the cache, and what a load gives back.
use raidan_sdk.Prelude.{
  ℕ, ◌+◌, ◌≤◌, ◌<◌, Bool, true, false, not, ◌&&◌, ◌||◌, some, List, [], ◌∷◌, Bytes, length, ltb,
  leb, ◌==◌, if◌then◌else◌, bytes_eq, bytes_eq_refl, bytes_eq→eq, bytes_lt, ltb→lt, Bool-cases, ◌≡◌,
  ◌⊎◌, inl, inr, refl, sym, ap, ◌∙◌, arith,
}
use raidan_sdk.Rpc.Cache.{
  Entry, CacheStore, lookup, delete, put, prune_expired, oldest, evict_oldest, is_missing, load,
  store,
}

module _ {V : Type 0} where
  abbrev pub has : List (Entry V) → Bytes → Bool
  has [] k = false
  has (e ∷ es) k = bytes_eq e.key k || has es k

  is_missing-lookup : (es : List (Entry V)) (k : Bytes) → is_missing (lookup es k) ≡ not (has es k)
  unfolding lookup
  is_missing-lookup [] k = refl
  is_missing-lookup (e ∷ es) k = elim (Bool-cases (bytes_eq e.key k)) [
    | inl q ↦ rw q
    | inr q ↦ rw q (is_missing-lookup es k)
  ]

  length-delete :
      (es : List (Entry V)) (k : Bytes) → has es k ≡ true → length (delete es k) + 1 ≡ length es
  unfolding delete
  length-delete [] k h = ground arith
  length-delete (e ∷ es) k h = ground (arith, length-delete es k)

  length-put_new :
      (es : List (Entry V)) (x : Entry V) → has es x.key ≡ true → length (put es x) ≡ length es
  unfolding put
  length-put_new [] x h = ground arith
  length-put_new (e ∷ es) x h = ground (arith, length-put_new es x)

  pub length-put : (es : List (Entry V)) (x : Entry V) → length (put es x) ≤ length es + 1
  unfolding put
  length-put [] x = omega arith
  length-put (e ∷ es) x = ground (arith, length-put es x)

  pub length-prune_expired :
      (now : ℕ) (es : List (Entry V)) → length (prune_expired now es) ≤ length es
  unfolding prune_expired
  length-prune_expired now [] = omega arith
  length-prune_expired now (e ∷ es) = ground (arith, length-prune_expired now es)

  -- The loop ends with the key that it starts from or with one of the entries'.
  oldest_found :
      (k : Bytes) (exp : ℕ) (es : List (Entry V))
      → (oldest k exp es ≡ k) ⊎ (has es (oldest k exp es) ≡ true)
  unfolding oldest
  oldest_found k exp [] = inl refl
  oldest_found k exp (e ∷ es) =
      elim (Bool-cases (length k == 0 || ltb e.exp exp || (e.exp == exp && bytes_lt e.key k))) [
        | inl q ↦ rw q (taken (oldest_found e.key e.exp es))
        | inr q ↦ rw q (passed (oldest_found k exp es))
      ]
    where
      taken :
          (oldest e.key e.exp es ≡ e.key) ⊎ (has es (oldest e.key e.exp es) ≡ true)
          → (oldest e.key e.exp es ≡ k)
            ⊎ ((bytes_eq e.key (oldest e.key e.exp es) || has es (oldest e.key e.exp es)) ≡ true)
      taken (inl q) = inr (rw q (ground (arith, bytes_eq_refl e.key)))
      taken (inr q) = inr (ground arith)

      passed :
          (oldest k exp es ≡ k) ⊎ (has es (oldest k exp es) ≡ true)
          → (oldest k exp es ≡ k)
            ⊎ ((bytes_eq e.key (oldest k exp es) || has es (oldest k exp es)) ≡ true)
      passed (inl q) = inl q
      passed (inr q) = inr (ground arith)

  oldest_there : (e : Entry V) (es : List (Entry V)) → has (e ∷ es) (oldest [] 0 (e ∷ es)) ≡ true
  unfolding oldest
  oldest_there e es = elim (oldest_found e.key e.exp es) [
    | inl q ↦ rw q (ground (arith, bytes_eq_refl e.key))
    | inr q ↦ ground arith
  ]

  length-evict_oldest :
      (es : List (Entry V)) → 0 < length es → length (evict_oldest es) + 1 ≡ length es
  unfolding evict_oldest
  length-evict_oldest [] h = absurd (omega arith)
  length-evict_oldest (e ∷ es) h = length-delete (e ∷ es) (oldest [] 0 (e ∷ es)) (oldest_there e es)

  -- A cache within a positive limit stays within it, whatever is stored and whenever.
  pub length-store :
      (now : ℕ) (c : CacheStore V) (e : Entry V)
      → 0 < c.limit
      → length c.entries ≤ c.limit
      → length (store now c e).entries ≤ c.limit
  unfolding store
  length-store now c e pos h =
      let es : List (Entry V) = prune_expired now c.entries in
      let small : length es ≤ c.limit = omega (arith, length-prune_expired now c.entries) in
      elim (Bool-cases (has es e.key)) [
        | inl there ↦
            let found : is_missing (lookup es e.key) ≡ false =
              is_missing-lookup es e.key ∙ ap not there in
            rw found (omega (arith, length-put_new es e there))
        | inr gone ↦
            let missing : is_missing (lookup es e.key) ≡ true =
              is_missing-lookup es e.key ∙ ap not gone in
            elim (Bool-cases (leb c.limit (length es))) [
              | inl full ↦
                  let shrunk : length (evict_oldest es) + 1 ≡ length es =
                    length-evict_oldest es (ground arith) in
                  rw (missing, full) (omega (arith, length-put (evict_oldest es) e))
              | inr room ↦
                  let lt : length es < c.limit = ground arith in
                  rw (missing, room) (omega (arith, length-put es e))
            ]
      ]

  pub lookup-put :
      (es : List (Entry V)) (x : Entry V) (now : ℕ)
      → ltb now x.exp ≡ true
      → lookup (prune_expired now (put es x)) x.key ≡ some x
  unfolding put prune_expired lookup
  lookup-put [] x now h = rw (h, bytes_eq_refl x.key)
  lookup-put (e ∷ es) x now h = elim (Bool-cases (bytes_eq e.key x.key)) [
    | inl q ↦ rw (q, h, bytes_eq_refl x.key)
    | inr q ↦ elim (Bool-cases (ltb now e.exp)) [
      | inl live ↦ rw (q, live, q) (lookup-put es x now h)
      | inr dead ↦ rw (q, dead) (lookup-put es x now h)
    ]
  ]

  -- A load directly behind a store gives what was stored, before its expiry.
  pub load-store :
      (now later : ℕ) (c : CacheStore V) (e : Entry V)
      → later < e.exp
      → (load later (store now c e) e.key).0 ≡ some e
  unfolding load store
  load-store now later c e h = lookup-put _ e later (ground arith)

  lookup_fresh :
      (now : ℕ) (es : List (Entry V)) (k : Bytes) (e : Entry V)
      → lookup (prune_expired now es) k ≡ some e
      → (now < e.exp) × (e.key ≡ k)
  unfolding lookup prune_expired
  lookup_fresh now [] k e h = absurd (ground arith)
  lookup_fresh now (x ∷ es) k e h = elim (Bool-cases (ltb now x.exp)) [
    | inr dead ↦ lookup_fresh now es k e (
        ap
          (λ (b : Bool).
            lookup (if not b then prune_expired now es else x ∷ prune_expired now es) k)
          (sym dead)
        ∙ h)
    | inl live ↦
        let front : lookup (x ∷ prune_expired now es) k ≡ some e =
          ap
            (λ (b : Bool).
              lookup (if not b then prune_expired now es else x ∷ prune_expired now es) k)
            (sym live)
          ∙ h in
        elim (Bool-cases (bytes_eq x.key k)) [
          | inl q ↦
              let same : x ≡ e = ground arith in
              rw (← same) (ltb→lt now x.exp live, bytes_eq→eq x.key k q)
          | inr q ↦ lookup_fresh now es k e (ground arith)
        ]
  ]

  -- A load never gives an entry that has expired, nor one of another key.
  pub load_fresh :
      (now : ℕ) (c : CacheStore V) (k : Bytes) (e : Entry V)
      → (load now c k).0 ≡ some e
      → (now < e.exp) × (e.key ≡ k)
  unfolding load
  load_fresh now c k e h = lookup_fresh now c.entries k e h

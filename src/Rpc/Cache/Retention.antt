-- ===== src/Rpc/Cache/Retention.antt =====
-- How long the cache keeps an entry.
use raidan_sdk.Prelude.{
  ℕ, suc, ◌+◌, ◌<◌, ◌≤◌, true, false, ◌&&◌, some, List, [], ◌∷◌, Bytes, All, length, ltb, leb,
  bytes_eq, bytes_eq_refl, bytes_eq→eq, Bool-cases, ◌≡◌, inl, inr, refl, ap, ◌∙◌, arith,
}
use raidan_sdk.Rpc.Cache.{
  Entry, CacheStore, lookup, put, prune_expired, is_missing, load, store, len,
}
use raidan_sdk.Rpc.Cache.Bounds.{length-prune_expired, length-put}
use raidan_sdk.Rpc.Cache.Refinement.{Operation, stores, loads, clears, measures, run}

module _ {V : Type 0} where
  -- The stores among the operations.
  abbrev pub store_count : List (Operation V) → ℕ
  store_count [] = 0
  store_count (stores now x ∷ os) = suc (store_count os)
  store_count (loads now k ∷ os) = store_count os
  store_count (measures now ∷ os) = store_count os
  store_count (clears ∷ os) = store_count os

  -- An operation that leaves the entry of `e` alone: it comes before the expiry, is no clear, and stores
  -- nothing under the same key.
  abbrev pub Spares : Entry V → Operation V → Type 0
  Spares e (stores now x) = (now < e.exp) × (bytes_eq x.key e.key ≡ false)
  Spares e (loads now k) = now < e.exp
  Spares e (measures now) = now < e.exp
  Spares e clears = ⊥

  lookup-prune_expired :
      (now : ℕ) (es : List (Entry V)) (k : Bytes) (e : Entry V)
      → now < e.exp
      → lookup es k ≡ some e
      → lookup (prune_expired now es) k ≡ some e
  unfolding lookup prune_expired
  lookup-prune_expired now [] k e h q = q
  lookup-prune_expired now (x ∷ es) k e h q = elim (Bool-cases (bytes_eq x.key k)) [
    | inl own ↦
        let same : x ≡ e = ground arith in
        let live : ltb now x.exp ≡ true = ap (λ (y : Entry V). ltb now y.exp) same ∙ ground arith in
        rw (live, own) (ap some same)
    | inr other ↦
        let rest = lookup-prune_expired now es k e h (rw other at q) in
        elim (Bool-cases (ltb now x.exp)) [
          | inl live ↦ rw (live, other) rest
          | inr dead ↦ rw dead rest
        ]
  ]

  lookup-put_other :
      (es : List (Entry V)) (x : Entry V) (k : Bytes)
      → bytes_eq x.key k ≡ false
      → lookup (put es x) k ≡ lookup es k
  unfolding lookup put
  lookup-put_other [] x k h = rw h refl
  lookup-put_other (y ∷ es) x k h = elim (Bool-cases (bytes_eq y.key x.key)) [
    | inl same ↦
        let other : bytes_eq y.key k ≡ false =
          ap (λ (b : Bytes). bytes_eq b k) (bytes_eq→eq y.key x.key same) ∙ h in
        rw (same, h, other) refl
    | inr differs ↦ elim (Bool-cases (bytes_eq y.key k)) [
      | inl own ↦ rw (differs, own) refl
      | inr other ↦ rw (differs, other) (lookup-put_other es x k h)
    ]
  ]

  lookup-put_own : (es : List (Entry V)) (x : Entry V) → lookup (put es x) x.key ≡ some x
  unfolding lookup put
  lookup-put_own [] x = rw (bytes_eq_refl x.key) refl
  lookup-put_own (y ∷ es) x = elim (Bool-cases (bytes_eq y.key x.key)) [
    | inl same ↦ rw (same, bytes_eq_refl x.key) refl
    | inr differs ↦ rw (differs, differs) (lookup-put_own es x)
  ]

  -- A cache that has the entry, and room for so many stores.
  abbrev KeepsFor : Entry V → ℕ → CacheStore V → Type 0
  KeepsFor e n c = (lookup c.entries e.key ≡ some e) × (length c.entries + n ≤ c.limit)

  pruned-KeepsFor :
      (now n : ℕ) (e : Entry V) (c : CacheStore V)
      → now < e.exp
      → KeepsFor e n c
      → KeepsFor e n (record c { entries = prune_expired now c.entries })
  pruned-KeepsFor now n e c h (found, room) = (
    lookup-prune_expired now c.entries e.key e h found,
    omega (arith, length-prune_expired now c.entries),
  )

  store-KeepsFor :
      (now n : ℕ) (e x : Entry V) (c : CacheStore V)
      → now < e.exp
      → bytes_eq x.key e.key ≡ false
      → KeepsFor e (suc n) c
      → KeepsFor e n (store now c x)
  unfolding store
  store-KeepsFor now n e x c h other (found, room) =
      let es : List (Entry V) = prune_expired now c.entries in
      let fits : (is_missing (lookup es x.key) && leb c.limit (length es)) ≡ false =
        ground (arith, length-prune_expired now c.entries) in
      rw fits (
        lookup-put_other es x e.key other ∙ lookup-prune_expired now c.entries e.key e h found,
        omega (arith, length-put es x, length-prune_expired now c.entries),
      )

  run-KeepsFor :
      (os : List (Operation V)) (e : Entry V) (c : CacheStore V)
      → All (Spares e) os
      → KeepsFor e (store_count os) c
      → KeepsFor e 0 (run os c)
  unfolding load len
  run-KeepsFor [] e c h k = k
  run-KeepsFor (stores now x ∷ os) e c ((t, o), hs) k =
      run-KeepsFor os e (store now c x) hs (store-KeepsFor now (store_count os) e x c t o k)
  run-KeepsFor (loads now key ∷ os) e c (t, hs) k =
      run-KeepsFor os e (load now c key).1 hs (pruned-KeepsFor now (store_count os) e c t k)
  run-KeepsFor (measures now ∷ os) e c (t, hs) k =
      run-KeepsFor os e (len now c).1 hs (pruned-KeepsFor now (store_count os) e c t k)
  run-KeepsFor (clears ∷ os) e c (h, hs) k = absurd h

  -- An entry is loaded until its expiry, however often the cache is loaded from and measured meanwhile and
  -- whatever is stored under other keys, where nothing is cleared and the limit has room for the entries
  -- behind the store and for one more with each later store.
  pub load-store_kept :
      (now later : ℕ) (c : CacheStore V) (e : Entry V) (os : List (Operation V))
      → later < e.exp
      → All (Spares e) os
      → length (store now c e).entries + store_count os ≤ c.limit
      → (load later (run os (store now c e)) e.key).0 ≡ some e
  unfolding load store
  load-store_kept now later c e os h spared room =
      lookup-prune_expired later (run os (store now c e)).entries e.key e h
        (run-KeepsFor os e (store now c e) spared (lookup-put_own _ e, room)).0

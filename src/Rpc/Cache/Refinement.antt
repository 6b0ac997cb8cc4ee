-- ===== src/Rpc/Cache/Refinement.antt =====
-- The cache against a map that forgets nothing but at a clear.
use raidan_sdk.Prelude.{
  ℕ, ◌<◌, false, ◌&&◌, Option, none, some, List, [], ◌∷◌, Bytes, All, length, ltb, leb,
  if◌then◌else◌, bytes_eq, bytes_eq_refl, bytes_eq_sym, bytes_eq→eq, Bool-cases, ◌≡◌, inl, inr,
  refl, sym, ap, ◌∙◌, arith,
}
use raidan_sdk.Rpc.Cache.{
  Entry, CacheStore, lookup, delete, put, prune_expired, oldest, evict_oldest, is_missing, load,
  store, clear, len,
}
use raidan_sdk.Rpc.Cache.Bounds.{has, load_fresh}

-- The operations on a cache, each at its time.
pub data Operation (V : Type 0) : Type 0 where
  stores : ℕ → Entry V → Operation V
  loads : ℕ → Bytes → Operation V
  clears : Operation V
  measures : ℕ → Operation V

-- The specification: the entry of each key that was stored last.
abbrev pub Contents : Type 0 → Type 0
Contents V = Bytes → Option (Entry V)

module _ {V : Type 0} where
  abbrev pub perform : Operation V → CacheStore V → CacheStore V
  perform (stores now e) c = store now c e
  perform (loads now k) c = (load now c k).1
  perform clears c = clear c
  perform (measures now) c = (len now c).1

  abbrev pub run : List (Operation V) → CacheStore V → CacheStore V
  run [] c = c
  run (o ∷ os) c = run os (perform o c)

  abbrev pub empty_cache : ℕ → CacheStore V
  empty_cache limit = record { entries = []; limit = limit }

  abbrev pub noted : Operation V → Contents V → Contents V
  noted (stores now e) m = λ k. if bytes_eq e.key k then some e else m k
  noted (loads now k) m = m
  noted clears m = λ k. none
  noted (measures now) m = m

  abbrev pub last_stored : List (Operation V) → Contents V → Contents V
  last_stored [] m = m
  last_stored (o ∷ os) m = last_stored os (noted o m)

  abbrev Unique : List (Entry V) → Type 0
  Unique [] = Unit {0}
  Unique (e ∷ es) = (has es e.key ≡ false) × Unique es

  abbrev Holds : Contents V → Entry V → Type 0
  Holds m e = m e.key ≡ some e

  -- A cache that agrees with the specification in what it has.
  abbrev Refines : List (Entry V) → Contents V → Type 0
  Refines es m = Unique es × All (Holds m) es

  has-prune_expired :
      (now : ℕ) (es : List (Entry V)) (k : Bytes)
      → has es k ≡ false
      → has (prune_expired now es) k ≡ false
  unfolding prune_expired
  has-prune_expired now [] k h = refl
  has-prune_expired now (e ∷ es) k h = ground (arith, has-prune_expired now es k)

  prune_expired-Refines :
      (now : ℕ) (es : List (Entry V)) (m : Contents V)
      → Refines es m
      → Refines (prune_expired now es) m
  unfolding prune_expired
  prune_expired-Refines now [] m h = h
  prune_expired-Refines now (e ∷ es) m ((u, us), (a, as')) =
      let (v, b) = prune_expired-Refines now es m (us, as') in
      elim (Bool-cases (ltb now e.exp)) [
        | inl live ↦ rw live ((has-prune_expired now es e.key u, v), (a, b))
        | inr dead ↦ rw dead (v, b)
      ]

  has-delete : (es : List (Entry V)) (d k : Bytes) → has es k ≡ false → has (delete es d) k ≡ false
  unfolding delete
  has-delete [] d k h = refl
  has-delete (e ∷ es) d k h = ground (arith, has-delete es d k)

  delete-Refines :
      (es : List (Entry V)) (d : Bytes) (m : Contents V) → Refines es m → Refines (delete es d) m
  unfolding delete
  delete-Refines [] d m h = h
  delete-Refines (e ∷ es) d m ((u, us), (a, as')) =
      let (v, b) = delete-Refines es d m (us, as') in
      elim (Bool-cases (bytes_eq e.key d)) [
        | inl q ↦ rw q (us, as')
        | inr q ↦ rw q ((has-delete es d e.key u, v), (a, b))
      ]

  has-put :
      (es : List (Entry V)) (x : Entry V) (k : Bytes)
      → bytes_eq x.key k ≡ false
      → has es k ≡ false
      → has (put es x) k ≡ false
  unfolding put
  has-put [] x k n h = ground arith
  has-put (e ∷ es) x k n h = ground (arith, has-put es x k)

  -- Entries of other keys still hold.
  others-hold :
      (es : List (Entry V)) (x : Entry V) (now : ℕ) (m : Contents V)
      → has es x.key ≡ false
      → All (Holds m) es
      → All (Holds (noted (stores now x) m)) es
  others-hold [] x now m h a = tt
  others-hold (e ∷ es) x now m h (a, as') =
      let other : bytes_eq x.key e.key ≡ false = (bytes_eq_sym x.key e.key ∙ ground arith) in
      (rw other a, others-hold es x now m (ground arith) as')

  put-Refines :
      (es : List (Entry V)) (x : Entry V) (now : ℕ) (m : Contents V)
      → Refines es m
      → Refines (put es x) (noted (stores now x) m)
  unfolding put
  put-Refines [] x now m h = ((refl, tt), (rw (bytes_eq_refl x.key) refl, tt))
  put-Refines (e ∷ es) x now m ((u, us), (a, as')) = elim (Bool-cases (bytes_eq e.key x.key)) [
    | inl q ↦
        let gone : has es x.key ≡ false = ap (has es) (sym (bytes_eq→eq e.key x.key q)) ∙ u in
        rw q ((gone, us), (new x, others-hold es x now m gone as'))
    | inr q ↦
        let other : bytes_eq x.key e.key ≡ false = (bytes_eq_sym x.key e.key ∙ q) in
        let (v, b) = put-Refines es x now m (us, as') in
        rw q ((has-put es x e.key other u, v), (old e other a, b))
  ]
    where
      new : (x : Entry V) → Holds (noted (stores now x) m) x
      new x = rw (bytes_eq_refl x.key) refl

      old :
          (e : Entry V)
          → bytes_eq x.key e.key ≡ false
          → m e.key ≡ some e
          → Holds (noted (stores now x) m) e
      old e other h = rw other h

  evicted : (es : List (Entry V)) (m : Contents V) → Refines es m → Refines (evict_oldest es) m
  unfolding evict_oldest
  evicted es m h = delete-Refines es (oldest [] 0 es) m h

  perform-Refines :
      (o : Operation V) (c : CacheStore V) (m : Contents V)
      → Refines c.entries m
      → Refines (perform o c).entries (noted o m)
  unfolding load store clear len
  perform-Refines (loads now k) c m h = prune_expired-Refines now c.entries m h
  perform-Refines (measures now) c m h = prune_expired-Refines now c.entries m h
  perform-Refines clears c m h = (tt, tt)
  perform-Refines (stores now e) c m h =
      let es = prune_expired now c.entries in
      let kept = prune_expired-Refines now c.entries m h in
      elim (Bool-cases (is_missing (lookup es e.key) && leb c.limit (length es))) [
        | inl full ↦ rw full (put-Refines (evict_oldest es) e now m (evicted es m kept))
        | inr room ↦ rw room (put-Refines es e now m kept)
      ]

  run-Refines :
      (os : List (Operation V)) (c : CacheStore V) (m : Contents V)
      → Refines c.entries m
      → Refines (run os c).entries (last_stored os m)
  run-Refines [] c m h = h
  run-Refines (o ∷ os) c m h = run-Refines os (perform o c) (noted o m) (perform-Refines o c m h)

  lookup-Holds :
      (es : List (Entry V)) (m : Contents V) (k : Bytes) (e : Entry V)
      → All (Holds m) es
      → lookup es k ≡ some e
      → m e.key ≡ some e
  unfolding lookup
  lookup-Holds [] m k e a h = absurd (ground arith)
  lookup-Holds (x ∷ es) m k e (a, as') h = elim (Bool-cases (bytes_eq x.key k)) [
    | inl q ↦ let same : x ≡ e = ground arith in rw (← same) a
    | inr q ↦ lookup-Holds es m k e as' (ground arith)
  ]

  -- Whatever is stored, loaded, cleared and measured at whatever times, in whatever order and within
  -- whatever limit, what a load of a key then gives is the entry that was stored last under that key since
  -- the last clear, and that entry has not expired.
  pub load-run :
      (limit now : ℕ) (os : List (Operation V)) (k : Bytes) (e : Entry V)
      → (load now (run os (empty_cache limit)) k).0 ≡ some e
      → (last_stored os (λ (name : Bytes). none) k ≡ some e) × (now < e.exp)
  unfolding load
  load-run limit now os k e h =
      let c : CacheStore V = run os (empty_cache limit) in
      let m : Contents V = last_stored os (λ (name : Bytes). none) in
      let (fresh, own) = load_fresh now c k e h in
      let (u, held) =
        prune_expired-Refines now c.entries m (run-Refines os (empty_cache limit) _ (tt, tt)) in
      (ap m (sym own) ∙ lookup-Holds (prune_expired now c.entries) m k e held h, fresh)

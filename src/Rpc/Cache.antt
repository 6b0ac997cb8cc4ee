-- ===== src/Rpc/Cache.antt =====
-- rpc/chainparams.go: the cache of chain parameters, `chainParamsCacheStore`. Its map is an association
-- list in the order of iteration; each method runs under the lock, at the time `now`.
pub mod Bounds
pub mod Refinement
pub mod Retention
mod Runs
use raidan_sdk.Prelude.{
  ℕ, zero, suc, ◌+◌, ◌<◌, Bool, true, false, not, ◌&&◌, ◌||◌, Option, none, some, List, [], ◌∷◌,
  ◌++◌, Bytes, length, ltb, leb, ◌==◌, if◌then◌else◌, bytes_eq, bytes_lt,
}

-- An entry of the map: its key, its value and its expiry.
pub record Entry (V : Type 0) : Type 0 where
  pub key : Bytes
  pub value : V
  pub exp : ℕ

pub record CacheStore (V : Type 0) : Type 0 where
  pub entries : List (Entry V)
  pub limit : ℕ

module _ {V : Type 0} where
  unfoldable pub lookup : List (Entry V) → Bytes → Option (Entry V)
  lookup [] k = none
  lookup (e ∷ es) k = if bytes_eq e.key k then some e else lookup es k

  -- `delete` of a map: the entry of the key, if it is there.
  unfoldable pub delete : List (Entry V) → Bytes → List (Entry V)
  delete [] k = []
  delete (e ∷ es) k = if bytes_eq e.key k then es else e ∷ delete es k

  -- The write `entries[e.key] = e`.
  unfoldable pub put : List (Entry V) → Entry V → List (Entry V)
  put [] x = x ∷ []
  put (e ∷ es) x = if bytes_eq e.key x.key then x ∷ es else e ∷ put es x

  unfoldable pub prune_expired : ℕ → List (Entry V) → List (Entry V)
  prune_expired now [] = []
  prune_expired now (e ∷ es) =
      let rest = prune_expired now es in if not (ltb now e.exp) then rest else e ∷ rest

  -- The key that the loop of `evictOldestLocked` ends with; an empty key counts as none yet.
  unfoldable pub oldest : Bytes → ℕ → List (Entry V) → Bytes
  oldest key exp [] = key
  oldest key exp (e ∷ es) =
      if length key == 0 || ltb e.exp exp || (e.exp == exp && bytes_lt e.key key)
      then oldest e.key e.exp es
      else oldest key exp es

  unfoldable pub evict_oldest : List (Entry V) → List (Entry V)
  evict_oldest es = delete es (oldest [] 0 es)

  abbrev pub is_missing : Option (Entry V) → Bool
  is_missing none = true
  is_missing (some e) = false

  unfoldable pub load : ℕ → CacheStore V → Bytes → Option (Entry V) × CacheStore V
  load now c k = let es = prune_expired now c.entries in (lookup es k, record c { entries = es })

  unfoldable pub store : ℕ → CacheStore V → Entry V → CacheStore V
  store now c e =
      let es = prune_expired now c.entries in
      record c {
        entries =
            put
              (if is_missing (lookup es e.key) && leb c.limit (length es)
                then evict_oldest es
                else es)
              e;
      }

  unfoldable pub clear : CacheStore V → CacheStore V
  clear c = record c { entries = [] }

  unfoldable pub len : ℕ → CacheStore V → ℕ × CacheStore V
  len now c = let es = prune_expired now c.entries in (length es, record c { entries = es })

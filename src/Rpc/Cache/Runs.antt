-- ===== src/Rpc/Cache/Runs.antt =====
-- Runs of the cache of chain parameters.
use raidan_sdk.Prelude.{
  ℕ, ◌+◌, ◌≤◌, ◌<◌, none, some, List, [], ◌∷◌, Bytes, codes, length, ◌≡◌, refl, arith,
}
use raidan_sdk.Rpc.Cache.{
  Entry, CacheStore, lookup, delete, put, prune_expired, oldest, evict_oldest, load, store,
}
use raidan_sdk.Rpc.Cache.Bounds.{length-store}
use raidan_sdk.Rpc.Cache.Refinement.{
  Operation, stores, loads, measures, run, empty_cache, last_stored, load-run,
}
use raidan_sdk.Rpc.Cache.Retention.{load-store_kept}

abbrev entry : Bytes → ℕ → Entry ℕ
entry k exp = record { key = k; value = 0; exp = exp }

-- A full cache of two endpoints.
abbrev two : CacheStore ℕ
two = record { entries = entry (codes "a") 30 ∷ entry (codes "b") 20 ∷ []; limit = 2 }

evicts :
    (store 10 two (entry (codes "c") 40)).entries ≡ entry (codes "a") 30 ∷ entry (codes "c") 40 ∷ []
unfolding store prune_expired lookup put evict_oldest delete oldest
evicts = refl

loads_a : (load 10 two (codes "a")).0 ≡ some (entry (codes "a") 30)
unfolding load prune_expired lookup
loads_a = refl

length-store_example : length (store 10 two (entry (codes "c") 40)).entries ≤ 2
length-store_example = length-store 10 two (entry (codes "c") 40) (omega arith) (omega arith)

-- A cache with room, and what comes behind a store until just before its expiry: the entry "b" expires
-- meanwhile.
abbrev roomy : CacheStore ℕ
roomy = record { entries = entry (codes "a") 30 ∷ entry (codes "b") 20 ∷ []; limit = 4 }

abbrev meanwhile : List (Operation ℕ)
meanwhile = loads 12 (codes "c") ∷ stores 25 (entry (codes "d") 50) ∷ measures 38 ∷ []

has_room : length (store 10 roomy (entry (codes "c") 40)).entries + 1 ≤ 4
unfolding store prune_expired lookup put
has_room = omega arith

load-store_kept_example :
    (load 39 (run meanwhile (store 10 roomy (entry (codes "c") 40))) (codes "c")).0
    ≡ some (entry (codes "c") 40)
load-store_kept_example =
    load-store_kept 10 39 roomy (entry (codes "c") 40) meanwhile (omega arith)
      (omega arith, ((omega arith, refl), (omega arith, tt))) has_room

-- Two stores under one key and one under another, with a load between them.
abbrev history : List (Operation ℕ)
history =
    stores 10 (entry (codes "a") 30)
    ∷ loads 11 (codes "a")
    ∷ stores 12 (entry (codes "a") 35)
    ∷ stores 13 (entry (codes "b") 40)
    ∷ []

loads_last : (load 20 (run history (empty_cache 2)) (codes "a")).0 ≡ some (entry (codes "a") 35)
unfolding load store prune_expired lookup put
loads_last = refl

load-run_example :
    (last_stored history (λ (name : Bytes). none) (codes "a") ≡ some (entry (codes "a") 35))
    × (20 < 35)
load-run_example = load-run 2 20 history (codes "a") (entry (codes "a") 35) loads_last

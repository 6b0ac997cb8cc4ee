-- ===== src/Rpc/ForkId/Runs.antt =====
-- Runs of the fork ID.
use raidan_sdk.Prelude.{
  ℕ, ◌<◌, none, some, List, [], ◌∷◌, Bytes, codes, All, replicate, ◌≡◌, refl, arith,
}
use raidan_sdk.Rpc.ForkId.{
  ForkSchedule, ChainParams, ConfigValue, number, null, compute_fork_id, validate_fork_id,
  parse_fork_schedule, collect_forks, classify_fork, has_suffix, to_lower, compact, sort_forks,
  insert_fork, crc_update, crc_bytes, crc_byte, crc_bit,
}
use raidan_sdk.Rpc.ForkId.Own.{validate_fork_id-compute_fork_id}
use raidan_sdk.Rpc.ForkId.Schedule.{Increasing, parse_fork_schedule-Increasing}

-- The check value of CRC-32.
crc_check : crc_update 0 (codes "123456789") ≡ 0xcbf43926
unfolding crc_update crc_bytes crc_byte crc_bit
crc_check = refl

-- A chain of two block forks and one time fork, past the first.
abbrev chain : ChainParams
chain = record {
  genesis = replicate 32 7;
  head_number = 150;
  head_time = 1700000000;
  fork_blocks = 100 ∷ 200 ∷ [];
  fork_times = 1710000000 ∷ [];
}

abbrev config : List (Bytes × ConfigValue)
config =
    (codes "londonBlock", number 200)
    ∷ (codes "chainId", number 1)
    ∷ (codes "berlinBlock", number 100)
    ∷ (codes "homesteadBlock", number 0)
    ∷ (codes "muirGlacierBlock", number 200)
    ∷ (codes "cancunTime", number 1710000000)
    ∷ (codes "pragueTime", null)
    ∷ []

abbrev schedule : ForkSchedule
schedule = record { blocks = 100 ∷ 200 ∷ []; times = 1710000000 ∷ [] }

reads_schedule : parse_fork_schedule 5 config ≡ some schedule
unfolding parse_fork_schedule collect_forks classify_fork has_suffix to_lower compact sort_forks
    insert_fork
reads_schedule = refl

validate_fork_id-compute_fork_id_example :
    validate_fork_id chain (compute_fork_id (replicate 32 7) 150 1700000000 schedule) ≡ none
validate_fork_id-compute_fork_id_example =
    validate_fork_id-compute_fork_id chain (omega arith, (omega arith, tt)) (omega arith)
      (omega arith)

parse_fork_schedule-Increasing_example :
    Increasing (100 ∷ 200 ∷ [])
    × Increasing (1710000000 ∷ [])
    × All (λ (b : ℕ). 0 < b) (100 ∷ 200 ∷ [])
    × All (λ (t : ℕ). 5 < t) (1710000000 ∷ [])
parse_fork_schedule-Increasing_example =
    parse_fork_schedule-Increasing 5 config schedule reads_schedule

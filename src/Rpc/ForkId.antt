-- ===== src/Rpc/ForkId.antt =====
-- rpc/chainparams.go: the fork schedule, the EIP-2124 fork ID of a chain, and the check of a peer's.
pub mod Own
pub mod Sums
pub mod Heads
pub mod Schedule
mod Runs
use raidan_sdk.Prelude.{
  ℕ, zero, suc, ◌+◌, ◌-◌, ◌/◌, ◌%◌, ◌^◌, bit_xor, Bool, true, false, not, ◌&&◌, ◌||◌, Option, none,
  some, List, [], ◌∷◌, ◌++◌, Bytes, codes, length, ltb, leb, ◌==◌, if◌then◌else◌, bytes_eq,
}
use raidan_sdk.Prelude.Result.{Result, ok, err}

-- `crc32.IEEE`, bit by bit.
unfoldable pub crc_bit : ℕ → ℕ
crc_bit c = if c % 2 == 1 then bit_xor (c / 2) 0xedb88320 else c / 2

unfoldable pub crc_byte : ℕ → ℕ → ℕ
crc_byte c b =
    crc_bit (crc_bit (crc_bit (crc_bit (crc_bit (crc_bit (crc_bit (crc_bit (bit_xor c b))))))))

unfoldable pub crc_bytes : ℕ → Bytes → ℕ
crc_bytes c [] = c
crc_bytes c (b ∷ bs) = crc_bytes (crc_byte c b) bs

unfoldable pub crc_update : ℕ → Bytes → ℕ
crc_update hash bs = bit_xor (crc_bytes (bit_xor hash 0xffffffff) bs) 0xffffffff

-- The `w` low bytes of a number, the highest first.
unfoldable pub big_endian : ℕ → ℕ → Bytes
big_endian zero n = []
big_endian (suc w) n = (n / 256 ^ w) % 256 ∷ big_endian w n

unfoldable pub checksum_update : ℕ → ℕ → ℕ
checksum_update hash fork = crc_update hash (big_endian 8 fork)

unfoldable pub checksum_to_bytes : ℕ → Bytes
checksum_to_bytes hash = big_endian 4 hash

-- `forkid.ID`.
pub record ForkId : Type 0 where
  pub hash : Bytes
  pub next : ℕ

pub record ForkSchedule : Type 0 where
  pub blocks : List ℕ
  pub times : List ℕ

-- The fields of `ChainParams` that the check reads.
pub record ChainParams : Type 0 where
  pub genesis : Bytes
  pub head_number : ℕ
  pub head_time : ℕ
  pub fork_blocks : List ℕ
  pub fork_times : List ℕ

abbrev pub fork_timestamp_threshold : ℕ
fork_timestamp_threshold = 1438269973

-- One loop of `computeForkID`: it returns at the first fork beyond the head, or goes on with the hash.
unfoldable pub pass_forks : ℕ → ℕ → List ℕ → Result ForkId ℕ
pass_forks head hash [] = ok hash
pass_forks head hash (fork ∷ forks) =
    let rest = pass_forks head (checksum_update hash fork) forks in
    if ltb head fork then err (record { hash = checksum_to_bytes hash; next = fork }) else rest

abbrev pub behind_times : Result ForkId ℕ → ForkId
behind_times (err id) = id
behind_times (ok hash) = record { hash = checksum_to_bytes hash; next = 0 }

abbrev pub behind_blocks : ℕ → List ℕ → Result ForkId ℕ → ForkId
behind_blocks head_time times (err id) = id
behind_blocks head_time times (ok hash) = behind_times (pass_forks head_time hash times)

unfoldable pub compute_fork_id : Bytes → ℕ → ℕ → ForkSchedule → ForkId
compute_fork_id genesis head_number head_time schedule =
    behind_blocks head_time schedule.times
      (pass_forks head_number (crc_update 0 genesis) schedule.blocks)

-- The checksums before each fork and behind the last.
unfoldable pub fork_sums : ℕ → List ℕ → List Bytes
fork_sums hash [] = checksum_to_bytes hash ∷ []
fork_sums hash (fork ∷ forks) = checksum_to_bytes hash ∷ fork_sums (checksum_update hash fork) forks

pub data ForkError : Type 0 where
  incompatible_or_stale incompatible invalid_state : ForkError
  stale : ℕ → ForkError

unfoldable pub has_sum : List Bytes → Bytes → Bool
has_sum [] hash = false
has_sum (s ∷ ss) hash = bytes_eq s hash || has_sum ss hash

-- The forks that the head has passed, each with the checksum before it: the fork behind the remote's
-- checksum.
unfoldable pub find_passed : List (Bytes × ℕ) → Bytes → Option ℕ
find_passed [] hash = none
find_passed ((sum, fork) ∷ ps) hash = if bytes_eq sum hash then some fork else find_passed ps hash

abbrev pub on_passed : ℕ → List Bytes → Bytes → Option ℕ → Option ForkError
on_passed next later hash (some fork) = if fork == next then none else some (stale fork)
on_passed next later hash none = if has_sum later hash then none else some incompatible

-- The body of the loop at the first fork beyond `head`.
unfoldable pub judge :
    ChainParams → ForkId → ℕ → List (Bytes × ℕ) → Bytes → List Bytes → Option ForkError
judge params remote head passed sum later =
    if bytes_eq sum remote.hash
    then (if ltb 0 remote.next
          && (leb remote.next head
              || (ltb fork_timestamp_threshold remote.next && leb remote.next params.head_time))
        then some incompatible_or_stale
        else none)
    else on_passed remote.next later remote.hash (find_passed passed remote.hash)

-- Forks before this index are compared with the block number, the others with the time.
unfoldable pub block_fork_count : ChainParams → ℕ
block_fork_count params =
    if length params.fork_times == 0
    then length params.fork_blocks + 1
    else length params.fork_blocks

unfoldable pub head_at : ChainParams → ℕ → ℕ
head_at params i = if leb (block_fork_count params) i then params.head_time else params.head_number

-- The loop at index `i`; `none` is acceptance. There is a sum for each fork.
unfoldable pub validate_from :
    ChainParams → ForkId → ℕ → List (Bytes × ℕ) → List ℕ → List Bytes → Option ForkError
validate_from params remote i passed (fork ∷ forks) (sum ∷ sums) =
    let rest = validate_from params remote (i + 1) (passed ++ ((sum, fork) ∷ [])) forks sums in
    if leb fork (head_at params i)
    then rest
    else judge params remote (head_at params i) passed sum sums
validate_from params remote i passed _ _ = some invalid_state

unfoldable pub validate_fork_id : ChainParams → ForkId → Option ForkError
validate_fork_id params remote =
    validate_from params remote 0 []
      ((params.fork_blocks ++ params.fork_times) ++ ((2 ^ 64 - 1) ∷ []))
      (fork_sums (crc_update 0 params.genesis) (params.fork_blocks ++ params.fork_times))

pub data ForkKind : Type 0 where
  fork_none fork_block fork_time : ForkKind

-- `slices.Sort` and `slices.Compact`.
unfoldable pub insert_fork : ℕ → List ℕ → List ℕ
insert_fork n [] = n ∷ []
insert_fork n (m ∷ ms) = if ltb m n then m ∷ insert_fork n ms else n ∷ m ∷ ms

unfoldable pub sort_forks : List ℕ → List ℕ
sort_forks [] = []
sort_forks (n ∷ ns) = insert_fork n (sort_forks ns)

abbrev pub compact_onto : ℕ → List ℕ → List ℕ
compact_onto n [] = n ∷ []
compact_onto n (m ∷ ms) = if n == m then m ∷ ms else n ∷ m ∷ ms

unfoldable pub compact : List ℕ → List ℕ
compact [] = []
compact (n ∷ ns) = compact_onto n (compact ns)

-- `strings.HasSuffix` and `strings.ToLower` of ASCII.
unfoldable pub has_suffix : Bytes → Bytes → Bool
has_suffix [] suffix = bytes_eq [] suffix
has_suffix (c ∷ s) suffix = bytes_eq (c ∷ s) suffix || has_suffix s suffix

unfoldable pub to_lower : Bytes → Bytes
to_lower [] = []
to_lower (c ∷ s) = (if leb 65 c && leb c 90 then c + 32 else c) ∷ to_lower s

unfoldable pub classify_fork : Bytes → ForkKind
classify_fork key =
    let k = to_lower key in
    if has_suffix k (codes "transitiontimestamp") || has_suffix k (codes "time")
    then fork_time
    else if has_suffix k (codes "block") || has_suffix k (codes "transition")
    then fork_block
    else fork_none

-- A value of the configuration: `null`, one that `parseUint` refuses, or its number.
pub data ConfigValue : Type 0 where
  null unparsed : ConfigValue
  number : ℕ → ConfigValue

abbrev add_block : ℕ → ForkSchedule → ForkSchedule
add_block n s = if not (n == 0) then record s { blocks = s.blocks ++ (n ∷ []) } else s

abbrev add_time : ℕ → ℕ → ForkSchedule → ForkSchedule
add_time genesis_time n s =
    if ltb genesis_time n then record s { times = s.times ++ (n ∷ []) } else s

-- One entry of the configuration; `none` is the error of a value that does not parse.
abbrev pub on_entry : ℕ → ForkSchedule → ForkKind → ConfigValue → Option ForkSchedule
on_entry genesis_time s fork_none v = some s
on_entry genesis_time s fork_block null = some s
on_entry genesis_time s fork_block unparsed = none
on_entry genesis_time s fork_block (number n) = some (add_block n s)
on_entry genesis_time s fork_time null = some s
on_entry genesis_time s fork_time unparsed = none
on_entry genesis_time s fork_time (number n) = some (add_time genesis_time n s)

abbrev pub then_entries :
    (ForkSchedule → Option ForkSchedule) → Option ForkSchedule → Option ForkSchedule
then_entries more none = none
then_entries more (some s) = more s

-- The loop over the entries, in the order of the list for the map's.
unfoldable pub collect_forks : ℕ → List (Bytes × ConfigValue) → ForkSchedule → Option ForkSchedule
collect_forks genesis_time [] s = some s
collect_forks genesis_time ((key, v) ∷ es) s =
    then_entries (collect_forks genesis_time es) (on_entry genesis_time s (classify_fork key) v)

abbrev pub sorted_schedule : Option ForkSchedule → Option ForkSchedule
sorted_schedule none = none
sorted_schedule (some s) =
    some (record { blocks = compact (sort_forks s.blocks); times = compact (sort_forks s.times) })

unfoldable pub parse_fork_schedule : ℕ → List (Bytes × ConfigValue) → Option ForkSchedule
parse_fork_schedule genesis_time entries =
    sorted_schedule (collect_forks genesis_time entries (record { blocks = []; times = [] }))

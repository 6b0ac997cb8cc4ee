-- ===== src/Rpc/ForkId/Heads.antt =====
-- A chain accepts the fork ID that the same chain has at any other head.
use raidan_sdk.Prelude.{
  ℕ, ◌+◌, ◌-◌, ◌^◌, ◌≤◌, ◌<◌, true, false, none, some, List, [], ◌∷◌, ◌++◌, Bytes, All, length, leb,
  ◌==◌, if◌then◌else◌, bytes_eq, Bool-cases, ◌≡◌, ◌⊎◌, inl, inr, refl, ap, ◌∙◌, arith,
}
use raidan_sdk.Rpc.ForkId.{
  ForkId, ChainParams, fork_timestamp_threshold, compute_fork_id, fork_sums, has_sum, find_passed,
  judge, block_fork_count, head_at, validate_from, validate_fork_id, crc_update, checksum_update,
  checksum_to_bytes,
}
use raidan_sdk.Rpc.ForkId.Own.{judge_own, round_stops, round_goes_on, head_at_time}
use raidan_sdk.Rpc.ForkId.Sums.{
  DistinctSums, IsOf, blocks-IsOf, IsOf-has_sum, other_sum, find_passed-append_some,
  find_passed-here, find_passed-elsewhere,
}

-- A peer that is behind, at a fork that is passed here, or ahead.
judge_behind :
    (p : ChainParams) (id : ForkId) (head : ℕ) (passed : List (Bytes × ℕ)) (sum : Bytes)
    (later : List Bytes)
    → bytes_eq sum id.hash ≡ false
    → find_passed passed id.hash ≡ some id.next
    → judge p id head passed sum later ≡ none
unfolding judge
judge_behind p id head passed sum later other found =
    let same : (id.next == id.next) ≡ true = ground arith in rw (other, found, same) refl

judge_ahead :
    (p : ChainParams) (id : ForkId) (head : ℕ) (passed : List (Bytes × ℕ)) (sum : Bytes)
    (later : List Bytes)
    → bytes_eq sum id.hash ≡ false
    → find_passed passed id.hash ≡ none
    → has_sum later id.hash ≡ true
    → judge p id head passed sum later ≡ none
unfolding judge
judge_ahead p id head passed sum later other found there = rw (other, found, there) refl

-- Each fork from the index `i` on is a block fork up to the threshold, or is compared with the time.
abbrev Placed : ChainParams → ℕ → List ℕ → Type 0
Placed p i [] = Unit {0}
Placed p i (fork ∷ forks) =
    ((fork ≤ fork_timestamp_threshold) ⊎ (head_at p i ≡ p.head_time)) × Placed p (i + 1) forks

head_at_below :
    (p : ChainParams) (i : ℕ)
    → p.head_number < 2 ^ 64 - 1
    → p.head_time < 2 ^ 64 - 1
    → head_at p i < 2 ^ 64 - 1
unfolding head_at
head_at_below p i n t = ground arith

-- From the index `i` on, for an ID of one of the forks that were passed.
passed_accepts :
    (p : ChainParams) (id : ForkId) (i : ℕ) (passed : List (Bytes × ℕ)) (hash : ℕ) (forks : List ℕ)
    → p.head_number < 2 ^ 64 - 1
    → p.head_time < 2 ^ 64 - 1
    → find_passed passed id.hash ≡ some id.next
    → has_sum (fork_sums hash forks) id.hash ≡ false
    → validate_from p id i passed (forks ++ ((2 ^ 64 - 1) ∷ [])) (fork_sums hash forks) ≡ none
unfolding fork_sums has_sum
passed_accepts p id i passed hash [] n t found none_of =
    round_stops p id i passed (2 ^ 64 - 1) [] (checksum_to_bytes hash) [] (head_at_below p i n t)
    ∙ judge_behind p id (head_at p i) passed (checksum_to_bytes hash) [] (ground arith) found
passed_accepts p id i passed hash (fork ∷ forks) n t found none_of =
    let sum : Bytes = checksum_to_bytes hash in
    let sums : List Bytes = fork_sums (checksum_update hash fork) forks in
    let rest : List ℕ = forks ++ ((2 ^ 64 - 1) ∷ []) in
    elim (Bool-cases (leb fork (head_at p i))) [
      | inl by ↦
          round_goes_on p id i passed fork rest sum sums (ground arith)
          ∙ passed_accepts p id (i + 1) (passed ++ ((sum, fork) ∷ [])) (checksum_update hash fork)
              forks n t (find_passed-append_some passed sum id.hash fork id.next found)
              (ground arith)
      | inr beyond ↦
          round_stops p id i passed fork rest sum sums (ground arith)
          ∙ judge_behind p id (head_at p i) passed sum sums (ground arith) found
    ]

-- The first fork beyond the head, for an ID of it or of one ahead.
stop_accepts :
    (p : ChainParams) (id : ForkId) (i : ℕ) (passed : List (Bytes × ℕ)) (hash fork : ℕ)
    (forks : List ℕ)
    → head_at p i < fork
    → (fork ≤ fork_timestamp_threshold) ⊎ (head_at p i ≡ p.head_time)
    → has_sum (fork_sums (checksum_update hash fork) forks) (checksum_to_bytes hash) ≡ false
    → IsOf id hash (fork ∷ forks)
    → find_passed passed id.hash ≡ none
    → judge p id
        (head_at p i)
        passed
        (checksum_to_bytes hash)
        (fork_sums (checksum_update hash fork) forks)
      ≡ none
stop_accepts p id i passed hash fork forks beyond place new (inl e) found =
    let sums : List Bytes = fork_sums (checksum_update hash fork) forks in
    rw e (
      judge_own p (head_at p i) fork passed (checksum_to_bytes hash) sums
        (inr (beyond, elim place [ inl le ↦ inl le | inr q ↦ inr (omega (arith, beyond, q)) ])))
stop_accepts p id i passed hash fork forks beyond place new (inr o) found =
    let sums : List Bytes = fork_sums (checksum_update hash fork) forks in
    let there = IsOf-has_sum id (checksum_update hash fork) forks o in
    judge_ahead p id (head_at p i) passed (checksum_to_bytes hash) sums
      (other_sum sums (checksum_to_bytes hash) id.hash new there) found there

-- From the index `i` on, for an ID of one of the forks ahead.
accepts :
    (p : ChainParams) (id : ForkId) (i : ℕ) (passed : List (Bytes × ℕ)) (hash : ℕ) (forks : List ℕ)
    → p.head_number < 2 ^ 64 - 1
    → p.head_time < 2 ^ 64 - 1
    → Placed p i forks
    → DistinctSums (fork_sums hash forks)
    → IsOf id hash forks
    → find_passed passed id.hash ≡ none
    → validate_from p id i passed (forks ++ ((2 ^ 64 - 1) ∷ [])) (fork_sums hash forks) ≡ none
unfolding fork_sums
accepts p id i passed hash [] n t placed distinct of found =
    round_stops p id i passed (2 ^ 64 - 1) [] (checksum_to_bytes hash) [] (head_at_below p i n t)
    ∙ rw of (judge_own p (head_at p i) 0 passed (checksum_to_bytes hash) [] (inl refl))
accepts p id i passed hash (fork ∷ forks) n t (place, placed) (new, distinct) of found =
    let sum : Bytes = checksum_to_bytes hash in
    let sums : List Bytes = fork_sums (checksum_update hash fork) forks in
    let rest : List ℕ = forks ++ ((2 ^ 64 - 1) ∷ []) in
    elim (Bool-cases (leb fork (head_at p i))) [
      | inr beyond ↦
          round_stops p id i passed fork rest sum sums (ground arith)
          ∙ stop_accepts p id i passed hash fork forks (ground arith) place new of found
      | inl by ↦ round_goes_on p id i passed fork rest sum sums (ground arith) ∙ elim of [
        | inl e ↦
            passed_accepts p id (i + 1) (passed ++ ((sum, fork) ∷ [])) (checksum_update hash fork)
              forks n t (find_passed-here passed id sum fork found e)
              (ap (λ (j : ForkId). has_sum sums j.hash) e ∙ new)
        | inr o ↦
            accepts p id (i + 1) (passed ++ ((sum, fork) ∷ [])) (checksum_update hash fork) forks n
              t placed distinct o
              (find_passed-elsewhere passed id.hash sum fork found (
                other_sum sums sum id.hash new
                  (IsOf-has_sum id (checksum_update hash fork) forks o)))
      ]
    ]

-- The time forks stand behind the block forks.
times-Placed : (p : ChainParams) (i : ℕ) (ts : List ℕ) → block_fork_count p ≤ i → Placed p i ts
times-Placed p i [] h = tt
times-Placed p i (fork ∷ ts) h = (inr (head_at_time p i h), times-Placed p (i + 1) ts (omega arith))

behind-Placed :
    (p : ChainParams) (ts : List ℕ) → p.fork_times ≡ ts → Placed p (length p.fork_blocks) ts
unfolding block_fork_count
behind-Placed p [] e = tt
behind-Placed p (fork ∷ ts) e =
    let count : block_fork_count p ≡ length p.fork_blocks =
      ap (λ (l : List ℕ). if length l == 0 then length p.fork_blocks + 1 else length p.fork_blocks)
        e
      ∙ ground arith in
    times-Placed p (length p.fork_blocks) (fork ∷ ts) (omega (arith, count))

blocks-Placed :
    (p : ChainParams) (i : ℕ) (bs : List ℕ)
    → i + length bs ≡ length p.fork_blocks
    → All (λ (b : ℕ). b ≤ fork_timestamp_threshold) bs
    → Placed p i (bs ++ p.fork_times)
blocks-Placed p i [] at small =
    let here : length p.fork_blocks ≡ i = omega arith in
    rw (← here) (behind-Placed p p.fork_times refl)
blocks-Placed p i (fork ∷ bs) at (le, small) =
    (inl le, blocks-Placed p (i + 1) bs (omega arith) small)

-- A chain accepts the fork ID that the same chain has at any other head, behind it or ahead, where its own
-- head is below the greatest 64-bit number in its height and in its time, its block forks are numbered up
-- to the threshold that tells heights from times, and the checksums between its forks are distinct.
pub validate_fork_id-other_head :
    (p : ChainParams) (head_number head_time : ℕ)
    → All (λ (b : ℕ). b ≤ fork_timestamp_threshold) p.fork_blocks
    → p.head_number < 2 ^ 64 - 1
    → p.head_time < 2 ^ 64 - 1
    → DistinctSums (fork_sums (crc_update 0 p.genesis) (p.fork_blocks ++ p.fork_times))
    → validate_fork_id p (
        compute_fork_id p.genesis head_number head_time
          (record { blocks = p.fork_blocks; times = p.fork_times }))
      ≡ none
unfolding validate_fork_id compute_fork_id find_passed
validate_fork_id-other_head p head_number head_time small n t distinct =
    accepts p _ 0 [] (crc_update 0 p.genesis) (p.fork_blocks ++ p.fork_times) n t
      (blocks-Placed p 0 p.fork_blocks (omega arith) small) distinct
      (blocks-IsOf _ head_number head_time (crc_update 0 p.genesis) p.fork_blocks p.fork_times refl)
      refl

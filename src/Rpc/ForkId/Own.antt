-- ===== src/Rpc/ForkId/Own.antt =====
-- A chain accepts its own fork ID.
use raidan_sdk.Prelude.{
  ℕ, ◌+◌, ◌-◌, ◌^◌, ◌≤◌, ◌<◌, true, false, none, List, [], ◌∷◌, ◌++◌, Bytes, All, length, ltb, leb,
  ◌==◌, if◌then◌else◌, bytes_eq_refl, Bool-cases, ◌≡◌, ◌⊎◌, inl, inr, refl, ap, ◌∙◌, arith,
  append_assoc,
}
use raidan_sdk.Prelude.Result.{err}
use raidan_sdk.Rpc.ForkId.{
  ForkId, ChainParams, fork_timestamp_threshold, pass_forks, behind_times, behind_blocks,
  compute_fork_id, fork_sums, judge, block_fork_count, head_at, validate_from, validate_fork_id,
  crc_update, checksum_update, checksum_to_bytes,
}

abbrev last : List ℕ
last = (2 ^ 64 - 1) ∷ []

-- The remote ID of the checksum at hand is accepted, unless its next fork is passed here.
pub judge_own :
    (p : ChainParams) (head next : ℕ) (passed : List (Bytes × ℕ)) (sum : Bytes) (later : List Bytes)
    → (next ≡ 0) ⊎ ((head < next) × ((next ≤ fork_timestamp_threshold) ⊎ (p.head_time < next)))
    → judge p (record { hash = sum; next = next }) head passed sum later ≡ none
unfolding judge
judge_own p head next passed sum later h = ground (arith, bytes_eq_refl sum)

-- `pass_forks` stops before a fork beyond the head, and takes one that the head has passed.
pub pass_stops :
    (head hash fork : ℕ) (forks : List ℕ)
    → head < fork
    → pass_forks head hash (fork ∷ forks)
      ≡ err (record { hash = checksum_to_bytes hash; next = fork })
unfolding pass_forks
pass_stops head hash fork forks h = ground arith

pub pass_goes_on :
    (head hash fork : ℕ) (forks : List ℕ)
    → fork ≤ head
    → pass_forks head hash (fork ∷ forks) ≡ pass_forks head (checksum_update hash fork) forks
unfolding pass_forks
pass_goes_on head hash fork forks h = ground arith

-- One round of the check: the first fork beyond the head is judged, the others are passed.
pub round_stops :
    (p : ChainParams) (id : ForkId) (i : ℕ) (passed : List (Bytes × ℕ)) (fork : ℕ) (forks : List ℕ)
    (sum : Bytes) (sums : List Bytes)
    → head_at p i < fork
    → validate_from p id i passed (fork ∷ forks) (sum ∷ sums)
      ≡ judge p id (head_at p i) passed sum sums
unfolding validate_from
round_stops p id i passed fork forks sum sums h =
    let e : leb fork (head_at p i) ≡ false = ground arith in rw e

pub round_goes_on :
    (p : ChainParams) (id : ForkId) (i : ℕ) (passed : List (Bytes × ℕ)) (fork : ℕ) (forks : List ℕ)
    (sum : Bytes) (sums : List Bytes)
    → fork ≤ head_at p i
    → validate_from p id i passed (fork ∷ forks) (sum ∷ sums)
      ≡ validate_from p id (i + 1) (passed ++ ((sum, fork) ∷ [])) forks sums
unfolding validate_from
round_goes_on p id i passed fork forks sum sums h =
    let e : leb fork (head_at p i) ≡ true = ground arith in rw e

pub head_at_time : (p : ChainParams) (i : ℕ) → block_fork_count p ≤ i → head_at p i ≡ p.head_time
unfolding head_at
head_at_time p i h = ground arith

pub head_at_number :
    (p : ChainParams) (i : ℕ) → i < block_fork_count p → head_at p i ≡ p.head_number
unfolding head_at
head_at_number p i h = ground arith

-- The first fork beyond the head, for an ID of the checksum before it.
own_stop :
    (p : ChainParams) (id : ForkId) (i head next fork : ℕ) (passed : List (Bytes × ℕ))
    (forks : List ℕ) (sum : Bytes) (sums : List Bytes)
    → head_at p i ≡ head
    → head < fork
    → id ≡ record { hash = sum; next = next }
    → (next ≡ 0) ⊎ ((head < next) × ((next ≤ fork_timestamp_threshold) ⊎ (p.head_time < next)))
    → validate_from p id i passed (fork ∷ forks) (sum ∷ sums) ≡ none
own_stop p id i head next fork passed forks sum sums at beyond shape h =
    round_stops p id i passed fork forks sum sums (omega (arith, at))
    ∙ rw (at, shape) (judge_own p head next passed sum sums h)

own_times :
    (p : ChainParams) (id : ForkId) (i : ℕ) (passed : List (Bytes × ℕ)) (hash : ℕ) (ts : List ℕ)
    → block_fork_count p ≤ i
    → p.head_time < 2 ^ 64 - 1
    → id ≡ behind_times (pass_forks p.head_time hash ts)
    → validate_from p id i passed (ts ++ last) (fork_sums hash ts) ≡ none
unfolding fork_sums pass_forks
own_times p id i passed hash [] c h e =
    own_stop p id i p.head_time 0 (2 ^ 64 - 1) passed [] (checksum_to_bytes hash) []
      (head_at_time p i c) h e (inl refl)
own_times p id i passed hash (fork ∷ ts) c h e = elim (Bool-cases (ltb p.head_time fork)) [
  | inl beyond ↦
      let lt : p.head_time < fork = ground arith in
      own_stop p id i p.head_time fork fork passed (ts ++ last) (checksum_to_bytes hash)
        (fork_sums (checksum_update hash fork) ts) (head_at_time p i c) lt
        (e ∙ ap behind_times (pass_stops p.head_time hash fork ts lt)) (inr (lt, inr lt))
  | inr by ↦
      let le : fork ≤ p.head_time = ground arith in
      round_goes_on p id i passed fork (ts ++ last) (checksum_to_bytes hash)
        (fork_sums (checksum_update hash fork) ts) (omega (arith, head_at_time p i c))
      ∙ own_times p id (i + 1) (passed ++ ((checksum_to_bytes hash, fork) ∷ []))
          (checksum_update hash fork) ts (omega arith) h
          (e ∙ ap behind_times (pass_goes_on p.head_time hash fork ts le))
]

-- Behind the block forks: the time forks, or, where there is none, the end.
own_behind :
    (p : ChainParams) (id : ForkId) (passed : List (Bytes × ℕ)) (hash : ℕ) (ts : List ℕ)
    → p.fork_times ≡ ts
    → p.head_number < 2 ^ 64 - 1
    → p.head_time < 2 ^ 64 - 1
    → id ≡ behind_times (pass_forks p.head_time hash ts)
    → validate_from p id (length p.fork_blocks) passed (ts ++ last) (fork_sums hash ts) ≡ none
unfolding block_fork_count fork_sums pass_forks
own_behind p id passed hash [] e n t shape =
    let count : block_fork_count p ≡ length p.fork_blocks + 1 =
      ap (λ (l : List ℕ). if length l == 0 then length p.fork_blocks + 1 else length p.fork_blocks)
        e in
    own_stop p id (length p.fork_blocks) p.head_number 0 (2 ^ 64 - 1) passed []
      (checksum_to_bytes hash) [] (head_at_number p (length p.fork_blocks) (omega (arith, count))) n
      shape (inl refl)
own_behind p id passed hash (fork ∷ ts) e n t shape =
    let count : block_fork_count p ≡ length p.fork_blocks =
      ap (λ (l : List ℕ). if length l == 0 then length p.fork_blocks + 1 else length p.fork_blocks)
        e
      ∙ ground arith in
    own_times p id (length p.fork_blocks) passed hash (fork ∷ ts) (omega (arith, count)) t shape

pub block_fork_count_le : (p : ChainParams) → length p.fork_blocks ≤ block_fork_count p
unfolding block_fork_count
block_fork_count_le p = ground arith

own_blocks :
    (p : ChainParams) (id : ForkId) (i : ℕ) (passed : List (Bytes × ℕ)) (hash : ℕ) (bs : List ℕ)
    → i + length bs ≡ length p.fork_blocks
    → All (λ (b : ℕ). b ≤ fork_timestamp_threshold) bs
    → p.head_number < 2 ^ 64 - 1
    → p.head_time < 2 ^ 64 - 1
    → id ≡ behind_blocks p.head_time p.fork_times (pass_forks p.head_number hash bs)
    → validate_from p id i passed
        (bs ++ (p.fork_times ++ last))
        (fork_sums hash (bs ++ p.fork_times))
      ≡ none
unfolding fork_sums pass_forks
own_blocks p id i passed hash [] at small n t e =
    let here : i ≡ length p.fork_blocks = omega arith in
    rw here (own_behind p id passed hash p.fork_times refl n t e)
own_blocks p id i passed hash (fork ∷ bs) at small n t e =
    let numbered : head_at p i ≡ p.head_number =
      head_at_number p i (omega (arith, block_fork_count_le p)) in
    elim (Bool-cases (ltb p.head_number fork)) [
      | inl beyond ↦
          let lt : p.head_number < fork = ground arith in
          own_stop p id i p.head_number fork fork passed (bs ++ (p.fork_times ++ last))
            (checksum_to_bytes hash) (fork_sums (checksum_update hash fork) (bs ++ p.fork_times))
            numbered lt
            (e
              ∙ ap (behind_blocks p.head_time p.fork_times)
                  (pass_stops p.head_number hash fork bs lt))
            (inr (lt, inl small.0))
      | inr by ↦
          let le : fork ≤ p.head_number = ground arith in
          round_goes_on p id i passed fork (bs ++ (p.fork_times ++ last)) (checksum_to_bytes hash)
            (fork_sums (checksum_update hash fork) (bs ++ p.fork_times)) (omega (arith, numbered))
          ∙ own_blocks p id (i + 1) (passed ++ ((checksum_to_bytes hash, fork) ∷ []))
              (checksum_update hash fork) bs (omega arith) small.1 n t
              (e
                ∙ ap (behind_blocks p.head_time p.fork_times)
                    (pass_goes_on p.head_number hash fork bs le))
    ]

-- A chain whose head is below the greatest 64-bit number, in its height and in its time, and whose
-- block forks are numbered up to the threshold that tells heights from times, accepts the fork ID that
-- it computes for itself.
pub validate_fork_id-compute_fork_id :
    (p : ChainParams)
    → All (λ (b : ℕ). b ≤ fork_timestamp_threshold) p.fork_blocks
    → p.head_number < 2 ^ 64 - 1
    → p.head_time < 2 ^ 64 - 1
    → validate_fork_id p (
        compute_fork_id p.genesis p.head_number p.head_time
          (record { blocks = p.fork_blocks; times = p.fork_times }))
      ≡ none
unfolding validate_fork_id compute_fork_id
validate_fork_id-compute_fork_id p small n t =
    rw (append_assoc p.fork_blocks p.fork_times last)
      (own_blocks p _ 0 [] (crc_update 0 p.genesis) p.fork_blocks (omega arith) small n t refl)

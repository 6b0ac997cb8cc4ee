-- ===== src/Rpc/ForkId/Sums.antt =====
-- The checksums of a fork schedule, and the fork ID that stands at one of them.
use raidan_sdk.Prelude.{
  ℕ, true, false, none, some, List, [], ◌∷◌, ◌++◌, Bytes, ltb, bytes_eq, bytes_eq_refl, bytes_eq→eq,
  Bool-cases, ◌≡◌, ◌⊎◌, inl, inr, refl, ap, ◌∙◌, arith,
}
use raidan_sdk.Rpc.ForkId.{
  ForkId, pass_forks, behind_times, behind_blocks, fork_sums, has_sum, find_passed, checksum_update,
  checksum_to_bytes,
}
use raidan_sdk.Rpc.ForkId.Own.{pass_stops, pass_goes_on}

-- No two of the sums are the same.
abbrev pub DistinctSums : List Bytes → Type 0
DistinctSums [] = Unit {0}
DistinctSums (s ∷ ss) = (has_sum ss s ≡ false) × DistinctSums ss

-- The ID is that of the schedule at one of its forks: the sum before it, and the fork; or behind the last.
abbrev pub IsOf : ForkId → ℕ → List ℕ → Type 0
IsOf id hash [] = id ≡ record { hash = checksum_to_bytes hash; next = 0 }
IsOf id hash (fork ∷ forks) =
    (id ≡ record { hash = checksum_to_bytes hash; next = fork })
    ⊎ IsOf id (checksum_update hash fork) forks

-- `computeForkID` gives such an ID at any head.
times-IsOf :
    (id : ForkId) (t hash : ℕ) (ts : List ℕ)
    → id ≡ behind_times (pass_forks t hash ts)
    → IsOf id hash ts
unfolding pass_forks
times-IsOf id t hash [] e = e
times-IsOf id t hash (fork ∷ ts) e = elim (Bool-cases (ltb t fork)) [
  | inl beyond ↦ inl (e ∙ ap behind_times (pass_stops t hash fork ts (ground arith)))
  | inr by ↦ inr (
      times-IsOf id t (checksum_update hash fork) ts
        (e ∙ ap behind_times (pass_goes_on t hash fork ts (ground arith))))
]

pub blocks-IsOf :
    (id : ForkId) (n t hash : ℕ) (bs ts : List ℕ)
    → id ≡ behind_blocks t ts (pass_forks n hash bs)
    → IsOf id hash (bs ++ ts)
unfolding pass_forks
blocks-IsOf id n t hash [] ts e = times-IsOf id t hash ts e
blocks-IsOf id n t hash (fork ∷ bs) ts e = elim (Bool-cases (ltb n fork)) [
  | inl beyond ↦ inl (e ∙ ap (behind_blocks t ts) (pass_stops n hash fork bs (ground arith)))
  | inr by ↦ inr (
      blocks-IsOf id n t (checksum_update hash fork) bs ts
        (e ∙ ap (behind_blocks t ts) (pass_goes_on n hash fork bs (ground arith))))
]

-- The sum of the ID is among those of the schedule.
pub IsOf-has_sum :
    (id : ForkId) (hash : ℕ) (forks : List ℕ)
    → IsOf id hash forks
    → has_sum (fork_sums hash forks) id.hash ≡ true
unfolding has_sum fork_sums
IsOf-has_sum id hash [] h = rw (h, bytes_eq_refl (checksum_to_bytes hash)) refl
IsOf-has_sum id hash (fork ∷ forks) (inl h) = rw (h, bytes_eq_refl (checksum_to_bytes hash)) refl
IsOf-has_sum id hash (fork ∷ forks) (inr h) =
    ground (arith, IsOf-has_sum id (checksum_update hash fork) forks h)

-- A sum that later ones have not is none of them.
pub other_sum :
    (ss : List Bytes) (s t : Bytes)
    → has_sum ss s ≡ false
    → has_sum ss t ≡ true
    → bytes_eq s t ≡ false
unfolding has_sum
other_sum [] s t h k = absurd (ground arith)
other_sum (u ∷ ss) s t h k = elim (Bool-cases (bytes_eq s t)) [
  | inr e ↦ e
  | inl e ↦ absurd (ground (arith, ap (has_sum (u ∷ ss)) (bytes_eq→eq s t e)))
]

find_passed-append_none :
    (ps : List (Bytes × ℕ)) (sum hash : Bytes) (fork : ℕ)
    → find_passed ps hash ≡ none
    → find_passed (ps ++ ((sum, fork) ∷ [])) hash ≡ find_passed ((sum, fork) ∷ []) hash
unfolding find_passed
find_passed-append_none [] sum hash fork h = refl
find_passed-append_none ((s, f) ∷ ps) sum hash fork h = elim (Bool-cases (bytes_eq s hash)) [
  | inl e ↦ absurd (ground arith)
  | inr e ↦ rw e (find_passed-append_none ps sum hash fork (rw e at h))
]

pub find_passed-append_some :
    (ps : List (Bytes × ℕ)) (sum hash : Bytes) (fork n : ℕ)
    → find_passed ps hash ≡ some n
    → find_passed (ps ++ ((sum, fork) ∷ [])) hash ≡ some n
unfolding find_passed
find_passed-append_some [] sum hash fork n h = absurd (ground arith)
find_passed-append_some ((s, f) ∷ ps) sum hash fork n h = elim (Bool-cases (bytes_eq s hash)) [
  | inl e ↦ rw e (rw e at h)
  | inr e ↦ rw e (find_passed-append_some ps sum hash fork n (rw e at h))
]

-- The fork at hand, behind those passed.
pub find_passed-here :
    (ps : List (Bytes × ℕ)) (id : ForkId) (sum : Bytes) (fork : ℕ)
    → find_passed ps id.hash ≡ none
    → id ≡ record { hash = sum; next = fork }
    → find_passed (ps ++ ((sum, fork) ∷ [])) id.hash ≡ some id.next
unfolding find_passed
find_passed-here ps id sum fork h e =
    find_passed-append_none ps sum id.hash fork h ∙ rw (e, bytes_eq_refl sum) refl

pub find_passed-elsewhere :
    (ps : List (Bytes × ℕ)) (hash sum : Bytes) (fork : ℕ)
    → find_passed ps hash ≡ none
    → bytes_eq sum hash ≡ false
    → find_passed (ps ++ ((sum, fork) ∷ [])) hash ≡ none
unfolding find_passed
find_passed-elsewhere ps hash sum fork h other =
    find_passed-append_none ps sum hash fork h ∙ rw other refl

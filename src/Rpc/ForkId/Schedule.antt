-- ===== src/Rpc/ForkId/Schedule.antt =====
-- The fork schedule that is read from a configuration: ascending, without the forks of the genesis.
use raidan_sdk.Prelude.{
  ℕ, ◌≤◌, ◌<◌, Option, none, some, List, [], ◌∷◌, ◌++◌, Bytes, All, ltb, ◌==◌, Bool-cases, ◌≡◌, inl,
  inr, arith,
}
use raidan_sdk.Rpc.ForkId.{
  ForkSchedule, ForkKind, fork_none, fork_block, fork_time, ConfigValue, null, unparsed, number,
  insert_fork, sort_forks, compact_onto, compact, on_entry, then_entries, collect_forks,
  sorted_schedule, parse_fork_schedule, classify_fork,
}

-- No number is below the one before it.
abbrev Sorted : List ℕ → Type 0
Sorted [] = Unit {0}
Sorted (n ∷ ns) = All (λ (m : ℕ). n ≤ m) ns × Sorted ns

-- Each number is greater than those before it.
abbrev pub Increasing : List ℕ → Type 0
Increasing [] = Unit {0}
Increasing (n ∷ ns) = All (λ (m : ℕ). n < m) ns × Increasing ns

All-insert_fork : (P : ℕ → Type 0) (n : ℕ) (l : List ℕ) → P n → All P l → All P (insert_fork n l)
unfolding insert_fork
All-insert_fork P n [] p h = (p, tt)
All-insert_fork P n (m ∷ ms) p h = elim (Bool-cases (ltb m n)) [
  | inl e ↦ rw e (h.0, All-insert_fork P n ms p h.1)
  | inr e ↦ rw e (p, h)
]

All-sort_forks : (P : ℕ → Type 0) (l : List ℕ) → All P l → All P (sort_forks l)
unfolding sort_forks
All-sort_forks P [] h = tt
All-sort_forks P (n ∷ ns) h = All-insert_fork P n (sort_forks ns) h.0 (All-sort_forks P ns h.1)

All-compact_onto : (P : ℕ → Type 0) (n : ℕ) (l : List ℕ) → P n → All P l → All P (compact_onto n l)
All-compact_onto P n [] p h = (p, tt)
All-compact_onto P n (m ∷ ms) p h = elim (Bool-cases (n == m)) [
  | inl e ↦ rw e h
  | inr e ↦ rw e (p, h)
]

All-compact : (P : ℕ → Type 0) (l : List ℕ) → All P l → All P (compact l)
unfolding compact
All-compact P [] h = tt
All-compact P (n ∷ ns) h = All-compact_onto P n (compact ns) h.0 (All-compact P ns h.1)

All-le_trans : (m n : ℕ) (l : List ℕ) → m ≤ n → All (λ (k : ℕ). n ≤ k) l → All (λ (k : ℕ). m ≤ k) l
All-le_trans m n [] h a = tt
All-le_trans m n (k ∷ ks) h a = (omega (arith, a), All-le_trans m n ks h a.1)

All-lt_trans : (m n : ℕ) (l : List ℕ) → m < n → All (λ (k : ℕ). n < k) l → All (λ (k : ℕ). m < k) l
All-lt_trans m n [] h a = tt
All-lt_trans m n (k ∷ ks) h a = (omega (arith, a), All-lt_trans m n ks h a.1)

insert_fork-Sorted : (n : ℕ) (l : List ℕ) → Sorted l → Sorted (insert_fork n l)
unfolding insert_fork
insert_fork-Sorted n [] h = (tt, tt)
insert_fork-Sorted n (m ∷ ms) h = elim (Bool-cases (ltb m n)) [
  | inl e ↦
      rw e (All-insert_fork (λ (k : ℕ). m ≤ k) n ms (ground arith) h.0, insert_fork-Sorted n ms h.1)
  | inr e ↦ let le : n ≤ m = ground arith in rw e ((le, All-le_trans n m ms le h.0), h)
]

sort_forks-Sorted : (l : List ℕ) → Sorted (sort_forks l)
unfolding sort_forks
sort_forks-Sorted [] = tt
sort_forks-Sorted (n ∷ ns) = insert_fork-Sorted n (sort_forks ns) (sort_forks-Sorted ns)

compact_onto-Increasing :
    (n : ℕ) (l : List ℕ) → All (λ (k : ℕ). n ≤ k) l → Increasing l → Increasing (compact_onto n l)
compact_onto-Increasing n [] a h = (tt, tt)
compact_onto-Increasing n (m ∷ ms) a h = elim (Bool-cases (n == m)) [
  | inl e ↦ rw e h
  | inr e ↦ let lt : n < m = ground arith in rw e ((lt, All-lt_trans n m ms lt h.0), h)
]

compact-Increasing : (l : List ℕ) → Sorted l → Increasing (compact l)
unfolding compact
compact-Increasing [] h = tt
compact-Increasing (n ∷ ns) h =
    compact_onto-Increasing n (compact ns) (All-compact (λ (k : ℕ). n ≤ k) ns h.0)
      (compact-Increasing ns h.1)

-- The block forks are not 0, and the time forks lie behind the genesis.
abbrev Active : ℕ → ForkSchedule → Type 0
Active genesis_time s = All (λ (b : ℕ). 0 < b) s.blocks × All (λ (t : ℕ). genesis_time < t) s.times

All-snoc : (P : ℕ → Type 0) (l : List ℕ) (n : ℕ) → All P l → P n → All P (l ++ (n ∷ []))
All-snoc P [] n a p = (p, tt)
All-snoc P (m ∷ ms) n a p = (a.0, All-snoc P ms n a.1 p)

-- What holds of a schedule that may be there.
abbrev OptionAll : (ForkSchedule → Type 0) → Option ForkSchedule → Type 0
OptionAll P none = Unit {0}
OptionAll P (some s) = P s

on_entry-Active :
    (g : ℕ) (s : ForkSchedule) (k : ForkKind) (v : ConfigValue)
    → Active g s
    → OptionAll (Active g) (on_entry g s k v)
on_entry-Active g s fork_none v h = h
on_entry-Active g s fork_block null h = h
on_entry-Active g s fork_block unparsed h = tt
on_entry-Active g s fork_block (number n) h = elim (Bool-cases (n == 0)) [
  | inl e ↦ rw e h
  | inr e ↦ rw e (All-snoc (λ (b : ℕ). 0 < b) s.blocks n h.0 (ground arith), h.1)
]
on_entry-Active g s fork_time null h = h
on_entry-Active g s fork_time unparsed h = tt
on_entry-Active g s fork_time (number n) h = elim (Bool-cases (ltb g n)) [
  | inl e ↦ rw e (h.0, All-snoc (λ (t : ℕ). g < t) s.times n h.1 (ground arith))
  | inr e ↦ rw e h
]

collect_forks-Active :
    (g : ℕ) (es : List (Bytes × ConfigValue)) (s : ForkSchedule)
    → Active g s
    → OptionAll (Active g) (collect_forks g es s)
unfolding collect_forks
collect_forks-Active g [] s h = h
collect_forks-Active g ((key, v) ∷ es) s h =
    go (on_entry g s (classify_fork key) v) (on_entry-Active g s (classify_fork key) v h)
      (λ s' h'. collect_forks-Active g es s' h')
  where
    go :
        (o : Option ForkSchedule)
        → OptionAll (Active g) o
        → ((s' : ForkSchedule) → Active g s' → OptionAll (Active g) (collect_forks g es s'))
        → OptionAll (Active g) (then_entries (collect_forks g es) o)
    go none a more = tt
    go (some s') a more = more s' a

-- Whatever the order of the configuration's entries, the schedule read from it increases strictly, in
-- its block forks and in its time forks; no block fork is 0, and each time fork lies behind the genesis.
pub parse_fork_schedule-Increasing :
    (g : ℕ) (es : List (Bytes × ConfigValue)) (s : ForkSchedule)
    → parse_fork_schedule g es ≡ some s
    → Increasing s.blocks
      × Increasing s.times
      × All (λ (b : ℕ). 0 < b) s.blocks
      × All (λ (t : ℕ). g < t) s.times
unfolding parse_fork_schedule
parse_fork_schedule-Increasing g es s h =
    go (collect_forks g es (record { blocks = []; times = [] }))
      (collect_forks-Active g es (record { blocks = []; times = [] }) (tt, tt)) h
  where
    go :
        (o : Option ForkSchedule)
        → OptionAll (Active g) o
        → sorted_schedule o ≡ some s
        → Increasing s.blocks
          × Increasing s.times
          × All (λ (b : ℕ). 0 < b) s.blocks
          × All (λ (t : ℕ). g < t) s.times
    go none a e = absurd (ground arith)
    go (some c) a e =
        let same : record {
          blocks = compact (sort_forks c.blocks);
          times = compact (sort_forks c.times);
        }
            ≡ s =
          ground arith in
        rw (← same) (
          compact-Increasing _ (sort_forks-Sorted c.blocks),
          compact-Increasing _ (sort_forks-Sorted c.times),
          All-compact _ _ (All-sort_forks _ _ a.0),
          All-compact _ _ (All-sort_forks _ _ a.1),
        )

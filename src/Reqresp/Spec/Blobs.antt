-- ===== src/Reqresp/Spec/Blobs.antt =====
-- The entry of the blob schedule that counts at an epoch.
use raidan_sdk.Prelude.{
  ℕ, ◌≤◌, ◌<◌, ◌&&◌, Option, none, some, List, [], ◌∷◌, codes, All, ltb, leb, Bool-cases, ◌≡◌, ◌⊎◌,
  inl, inr, refl, arith,
}
use raidan_sdk.Reqresp.Spec.{
  BlobEntry, Spec, spec_uint, or_zero, newest_entry, on_newest, blob_parameters,
}

abbrev pub Occurs : BlobEntry → List BlobEntry → Type 0
Occurs b [] = ⊥
Occurs b (e ∷ es) = (e ≡ b) ⊎ Occurs b es

-- No entry up to the epoch is newer than `b`.
abbrev pub NoneNewer : ℕ → BlobEntry → List BlobEntry → Type 0
NoneNewer epoch b = All (λ (e : BlobEntry). e.epoch ≤ epoch → e.epoch ≤ b.epoch)

abbrev Beats : Option BlobEntry → BlobEntry → Type 0
Beats none b = Unit {0}
Beats (some old) b = old.epoch ≤ b.epoch

-- What the loop ends with that starts from `best`.
abbrev Best : ℕ → Option BlobEntry → List BlobEntry → Option BlobEntry → Type 0
Best epoch best es none = (best ≡ none) × All (λ (e : BlobEntry). epoch < e.epoch) es
Best epoch best es (some b) =
    (b.epoch ≤ epoch) × ((best ≡ some b) ⊎ Occurs b es) × NoneNewer epoch b es × Beats best b

-- The best entry so far counts at the epoch.
abbrev Counts : ℕ → Option BlobEntry → Type 0
Counts epoch none = Unit {0}
Counts epoch (some b) = b.epoch ≤ epoch

newest_entry-Best :
    (epoch : ℕ) (best : Option BlobEntry) (es : List BlobEntry)
    → Counts epoch best
    → Best epoch best es (newest_entry epoch best es)
unfolding newest_entry
newest_entry-Best epoch none [] h = (refl, tt)
newest_entry-Best epoch (some b) [] h = (h, inl refl, tt, omega arith)
newest_entry-Best epoch none (e ∷ es) h = elim (Bool-cases (leb e.epoch epoch)) [
  | inl le ↦
      rw le (
        taken (newest_entry epoch (some e) es) (newest_entry-Best epoch (some e) es (ground arith)))
  | inr gt ↦
      rw gt
        (passed (ground arith) (newest_entry epoch none es) (newest_entry-Best epoch none es tt))
]
  where
    taken : (r : Option BlobEntry) → Best epoch (some e) es r → Best epoch none (e ∷ es) r
    taken none (q, a) = absurd (ground arith)
    taken (some b) (le, inl q, n, k) = (le, inr (inl (ground arith)), (λ x. k, n), tt)
    taken (some b) (le, inr o, n, k) = (le, inr (inr o), (λ x. k, n), tt)

    passed :
        epoch < e.epoch → (r : Option BlobEntry) → Best epoch none es r → Best epoch none (e ∷ es) r
    passed lt none (q, a) = (q, (lt, a))
    passed lt (some b) (le, inl q, n, k) = absurd (ground arith)
    passed lt (some b) (le, inr o, n, k) =
        (le, inr (inr o), (λ x. absurd (omega (arith, lt, x)), n), tt)
newest_entry-Best epoch (some old) (e ∷ es) h =
    elim (Bool-cases (leb e.epoch epoch && ltb old.epoch e.epoch)) [
      | inl newer ↦ rw newer (
          taken (ground arith) (newest_entry epoch (some e) es)
            (newest_entry-Best epoch (some e) es (ground arith)))
      | inr older ↦ rw older (
          passed (λ x. ground arith) (newest_entry epoch (some old) es)
            (newest_entry-Best epoch (some old) es h))
    ]
  where
    taken :
        old.epoch < e.epoch
        → (r : Option BlobEntry) → Best epoch (some e) es r
        → Best epoch (some old) (e ∷ es) r
    taken lt none (q, a) = absurd (ground arith)
    taken lt (some b) (le, inl q, n, k) =
        (le, inr (inl (ground arith)), (λ x. k, n), omega (arith, lt, k))
    taken lt (some b) (le, inr o, n, k) = (le, inr (inr o), (λ x. k, n), omega (arith, lt, k))

    passed :
        (e.epoch ≤ epoch → e.epoch ≤ old.epoch)
        → (r : Option BlobEntry) → Best epoch (some old) es r
        → Best epoch (some old) (e ∷ es) r
    passed f none (q, a) = absurd (ground arith)
    passed f (some b) (le, inl q, n, k) = (le, inl q, (λ x. omega (arith, f x, k), n), k)
    passed f (some b) (le, inr o, n, k) = (le, inr (inr o), (λ x. omega (arith, f x, k), n), k)

-- Either an entry counts and gives the parameters `r`, or none does and they are those of Electra.
abbrev pub Newest : Spec → ℕ → ℕ × ℕ → Type 0
Newest c epoch r =
    ((b : BlobEntry) × Occurs b c.schedule
      × (b.epoch ≤ epoch)
      × NoneNewer epoch b c.schedule
      × (r ≡ (b.epoch, b.max_blobs)))
    ⊎ (All (λ (e : BlobEntry). epoch < e.epoch) c.schedule
        × (r ≡ (
          or_zero (spec_uint c (codes "ELECTRA_FORK_EPOCH")),
          or_zero (spec_uint c (codes "MAX_BLOBS_PER_BLOCK_ELECTRA")),
        )))

-- The blob parameters at an epoch are those of an entry of the schedule up to the epoch that no such entry
-- is newer than; where the schedule has no entry up to the epoch they are the two values of Electra, with
-- 0 for a missing one.
pub blob_parameters-Newest : (c : Spec) (epoch : ℕ) → Newest c epoch (blob_parameters c epoch)
unfolding blob_parameters
blob_parameters-Newest c epoch =
    go (newest_entry epoch none c.schedule) (newest_entry-Best epoch none c.schedule tt)
  where
    go : (r : Option BlobEntry) → Best epoch none c.schedule r → Newest c epoch (on_newest c r)
    go none (q, a) = inr (a, refl)
    go (some b) (le, inl q, n, k) = absurd (ground arith)
    go (some b) (le, inr o, n, k) = inl (b, o, le, n, refl)

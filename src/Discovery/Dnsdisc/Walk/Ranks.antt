-- ===== src/Discovery/Dnsdisc/Walk/Ranks.antt =====
-- An accepted walk has met every branch below its root, and no cycle.
use raidan_sdk.Prelude.{
  ℕ, suc, ◌≤◌, ◌<◌, Bool, true, false, Option, none, some, List, [], ◌∷◌, Bytes, All, length,
  if◌then◌else◌, bytes_eq, bytes_eq→eq, Bool-cases, ◌≡◌, ◌⊎◌, inl, inr, refl, sym, ap, ◌∙◌, arith,
}
use mathlib.Core.Path.{subst}
use raidan_sdk.Prelude.Result.{ok}
use raidan_sdk.Discovery.Dnsdisc.Walk.{
  Entries, lookup, member, children_of, validate_dns_branch_walk,
}
use raidan_sdk.Discovery.Dnsdisc.Walk.Settled.{
  IsBranch, Settled, Ordered, member-later, walk-Settles,
}

-- The place of a name's first mark, 0 for a name without one.
abbrev rank : List Bytes → Bytes → ℕ
rank [] x = 0
rank (n ∷ v) x = if member v x then rank v x else if bytes_eq n x then suc (length v) else 0

rank_bound : (v : List Bytes) (x : Bytes) → rank v x ≤ length v
rank_bound [] x = omega arith
rank_bound (n ∷ v) x = ground (arith, rank_bound v x)

rank_later :
    (n : Bytes) (v : List Bytes) (x : Bytes) → member v x ≡ true → rank (n ∷ v) x ≡ rank v x
rank_later n v x m = rw m refl

rank_here :
    (n : Bytes) (v : List Bytes) (x : Bytes)
    → member v x ≡ false
    → bytes_eq n x ≡ true
    → rank (n ∷ v) x ≡ suc (length v)
rank_here n v x m e = rw (m, e) refl

rank_marked : (v : List Bytes) (x : Bytes) → member v x ≡ true → 0 < rank v x
unfolding member
rank_marked [] x m = absurd (ground arith)
rank_marked (n ∷ v) x m = ground (arith, rank_marked v x)

-- 0 for a branch without children, its rank for another.
abbrev height_of : ℕ → List Bytes → ℕ
height_of r [] = 0
height_of r (c ∷ cs) = r

abbrev found_height : ℕ → Option Bytes → ℕ
found_height r none = 0
found_height r (some entry) = height_of r (children_of entry)

module _ (entries : Entries) where
  -- The names that are met from the root on.
  pub data Reachable (root : Bytes) : Bytes → Type 0 where
    the_root : Reachable root root
    child :
        (x entry c : Bytes)
        → Reachable root x
        → lookup entries x ≡ some entry
        → member (children_of entry) c ≡ true
        → Reachable root c

  -- Each name from the root on has a valid branch, whose children are of smaller heights.
  abbrev pub Ranked : Bytes → (Bytes → ℕ) → Type 0
  Ranked root height =
      (x : Bytes)
      → Reachable root x
      → (entry : Bytes) × IsBranch entries x entry
        × ((c : Bytes) → member (children_of entry) c ≡ true → height c < height x)

  -- A child of a marked name is settled, and it has no children of its own or a smaller rank.
  abbrev Below : List Bytes → Bytes → Bytes → Type 0
  Below v x c =
      (entry : Bytes) × IsBranch entries c entry
      × ((children_of entry ≡ []) ⊎ ((member v c ≡ true) × (rank v c < rank v x)))

  pub All-member :
      (P : Bytes → Type 0) (cs : List Bytes) (c : Bytes) → All P cs → member cs c ≡ true → P c
  unfolding member
  All-member P [] c a m = absurd (ground arith)
  All-member P (d ∷ cs) c a m = elim (Bool-cases (bytes_eq d c)) [
    | inl e ↦ subst P (bytes_eq→eq d c e) a.0
    | inr e ↦ All-member P cs c a.1 (ground arith)
  ]

  marked_child :
      (v : List Bytes) (x entry c : Bytes)
      → Ordered entries v
      → member v x ≡ true
      → lookup entries x ≡ some entry
      → member (children_of entry) c ≡ true
      → Below v x c
  unfolding member
  marked_child [] x entry c o m l k = absurd (ground arith)
  marked_child (n ∷ v) x entry c o m l k = elim (Bool-cases (member v x)) [
    | inl later ↦ raise later (marked_child v x entry c o.1 later l k)
    | inr last ↦
        let e : bytes_eq n x ≡ true = ground arith in
        let (entry', b, below) = o.0 in
        let same : some entry' ≡ some entry =
          sym b.0 ∙ ap (lookup entries) (bytes_eq→eq n x e) ∙ l in
        let settled : Settled entries v c =
          All-member (Settled entries v) (children_of entry') c below
            (ap (λ (t : Bytes). member (children_of t) c) (some_injective entry' entry same) ∙ k) in
        first last e settled
  ]
    where
      some_injective : (a b : Bytes) → some a ≡ some b → a ≡ b
      some_injective a b h = ground arith

      raise : member v x ≡ true → Below v x c → Below (n ∷ v) x c
      raise later (f, b, inl leaf) = (f, b, inl leaf)
      raise later (f, b, inr q) = (
        f,
        b,
        inr (member-later v n c q.0, rw (rank_later n v c q.0, rank_later n v x later) q.1),
      )

      first : member v x ≡ false → bytes_eq n x ≡ true → Settled entries v c → Below (n ∷ v) x c
      first last e (f, b, inl leaf) = (f, b, inl leaf)
      first last e (f, b, inr q) = (
        f,
        b,
        inr (
          member-later v n c q,
          rw (rank_later n v c q, rank_here n v x last e) (omega (arith, rank_bound v c)),
        ),
      )

  -- Every name from the root on is settled.
  Reachable-Settled :
      (root : Bytes) (v : List Bytes) (x : Bytes)
      → Ordered entries v
      → Settled entries v root
      → Reachable root x
      → Settled entries v x
  unfolding member
  Reachable-Settled root v _ o s the_root = s
  Reachable-Settled root v _ o s (child x entry c r l k) = parent (Reachable-Settled root v x o s r)
    where
      parent : Settled entries v x → Settled entries v c
      parent (entry', b, inr m) =
          let (f, q, below) = marked_child v x entry c o m l k in (f, q, below_settled f below)
        where
          below_settled :
              (f : Bytes)
              → (children_of f ≡ []) ⊎ ((member v c ≡ true) × (rank v c < rank v x))
              → (children_of f ≡ []) ⊎ (member v c ≡ true)
          below_settled f (inl leaf) = inl leaf
          below_settled f (inr q) = inr q.0
      parent (entry', b, inl leaf) =
          let same : some entry' ≡ some entry = sym b.0 ∙ l in
          let none_there : member (children_of entry) c ≡ false =
            ap (λ (o : Option Bytes). member_of o) (sym same)
            ∙ ap (λ (cs : List Bytes). member cs c) leaf in
          absurd (ground arith)
        where
          member_of : Option Bytes → Bool
          member_of none = false
          member_of (some e) = member (children_of e) c

  abbrev height : List Bytes → Bytes → ℕ
  height v x = found_height (rank v x) (lookup entries x)

  no_child : (c : Bytes) → member [] c ≡ true → ⊥
  unfolding member
  no_child c m = absurd (ground arith)

  height_leaf :
      (v : List Bytes) (x entry : Bytes)
      → lookup entries x ≡ some entry
      → children_of entry ≡ []
      → height v x ≡ 0
  height_leaf v x entry l leaf = rw (l, leaf) refl

  found_height_bound : (r : ℕ) (o : Option Bytes) → found_height r o ≤ r
  found_height_bound r none = omega arith
  found_height_bound r (some entry) = listed (children_of entry)
    where
      listed : (cs : List Bytes) → height_of r cs ≤ r
      listed [] = omega arith
      listed (c ∷ cs) = omega arith

  height_inner :
      (v : List Bytes) (x entry c : Bytes)
      → lookup entries x ≡ some entry
      → member (children_of entry) c ≡ true
      → height v x ≡ rank v x
  unfolding member
  height_inner v x entry c l m = rw l (listed (children_of entry) m)
    where
      listed : (cs : List Bytes) → member cs c ≡ true → height_of (rank v x) cs ≡ rank v x
      listed [] q = absurd (ground arith)
      listed (d ∷ cs) q = refl

  child_height :
      (v : List Bytes) (x entry c : Bytes)
      → lookup entries x ≡ some entry
      → member (children_of entry) c ≡ true
      → member v x ≡ true
      → Below v x c
      → height v c < height v x
  child_height v x entry c l k m (f, b, inl leaf) =
      rw (height_inner v x entry c l k)
        (omega (arith, height_leaf v c f b.0 leaf, rank_marked v x m))
  child_height v x entry c l k m (f, b, inr q) =
      rw (height_inner v x entry c l k)
        (omega (arith, found_height_bound (rank v c) (lookup entries c), q.1))

-- A graph of branches that the walk accepts has a height for each name such that every name that is met
-- from the root on has a valid branch, and the children of a branch are of smaller heights than it: so no
-- path from the root leads back to a name on it.
pub validate_dns_branch_walk-Ranked :
    (entries : Entries) (root : Bytes) (max_depth : ℕ) (visited : List Bytes)
    → validate_dns_branch_walk entries root max_depth ≡ ok visited
    → (height_at : Bytes → ℕ) × Ranked entries root height_at
unfolding validate_dns_branch_walk
validate_dns_branch_walk-Ranked entries root max_depth visited h =
    let (o, s, g) = walk-Settles entries (suc max_depth) [] [] visited root tt h in
    (height entries visited, λ x r. at x (Reachable-Settled entries root visited x o s r) o)
  where
    at :
        (x : Bytes)
        → Settled entries visited x
        → Ordered entries visited
        → (entry : Bytes) × IsBranch entries x entry
          × ((c : Bytes)
              → member (children_of entry) c ≡ true
              → height entries visited c < height entries visited x)
    at x (entry, b, inr m) o = (
      entry,
      b,
      λ c k.
          child_height entries visited x entry c b.0 k m
            (marked_child entries visited x entry c o m b.0 k),
    )
    at x (entry, b, inl leaf) o = (
      entry,
      b,
      λ c k. absurd (no_child entries c (sym (ap (λ (cs : List Bytes). member cs c) leaf) ∙ k)),
    )

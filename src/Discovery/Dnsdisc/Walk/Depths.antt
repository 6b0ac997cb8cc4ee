-- ===== src/Discovery/Dnsdisc/Walk/Depths.antt =====
-- A walk accepts the graphs whose branches descend within the depth.
use raidan_sdk.Prelude.{
  ℕ, zero, suc, ◌≤◌, ◌<◌, true, false, List, [], ◌∷◌, Bytes, All, bytes_eq_refl, Bool-cases, ◌≡◌,
  inl, inr, refl, ap, arith,
}
use raidan_sdk.Prelude.Result.{Result, ok}
use raidan_sdk.Discovery.Dnsdisc.Walk.{
  WalkError, Entries, member, children_of, mark, walk_each, on_children, walk,
  validate_dns_branch_walk,
}
use raidan_sdk.Discovery.Dnsdisc.Walk.Ranks.{Reachable, the_root, child, Ranked, All-member}

abbrev Accepts : Result WalkError (List Bytes) → Type 0
Accepts r = (v : List Bytes) × (r ≡ ok v)

walk_each-Accepts :
    (step : List Bytes → Bytes → Result WalkError (List Bytes)) (cs v : List Bytes)
    → ((w : List Bytes) (c : Bytes) → member cs c ≡ true → Accepts (step w c))
    → Accepts (walk_each step v cs)
unfolding member
walk_each-Accepts step [] v h = (v, refl)
walk_each-Accepts step (c ∷ cs) v h =
    let (w, e) = h v c (rw (bytes_eq_refl c) refl) in
    let (u, k) = walk_each-Accepts step cs w (λ x d m. h x d (ground arith)) in (u, rw e k)

on_children-Accepts :
    (step : List Bytes → Bytes → Result WalkError (List Bytes)) (cs v : List Bytes) (name : Bytes)
    → ((w : List Bytes) (c : Bytes) → member cs c ≡ true → Accepts (step w c))
    → Accepts (on_children step v name cs)
on_children-Accepts step [] v name h = (v, refl)
on_children-Accepts step (c ∷ cs) v name h =
    let (w, e) = walk_each-Accepts step (c ∷ cs) v h in (name ∷ w, ap (mark name) e)

module _ (entries : Entries) (root : Bytes) (height : Bytes → ℕ)
    (ranked : Ranked entries root height) where
  -- The names being visited are above the next one.
  abbrev Above : Bytes → List Bytes → Type 0
  Above x visiting = All (λ (y : Bytes). height x < height y) visiting

  Above-lower :
      (x c : Bytes) (visiting : List Bytes)
      → height c < height x
      → Above x visiting
      → Above c visiting
  Above-lower x c [] h a = tt
  Above-lower x c (y ∷ ys) h a = (omega (arith, a.0), Above-lower x c ys h a.1)

  Above-fresh : (x : Bytes) (visiting : List Bytes) → Above x visiting → member visiting x ≡ false
  Above-fresh x visiting a = elim (Bool-cases (member visiting x)) [
    | inl m ↦
        let self : height x < height x =
          All-member entries (λ (y : Bytes). height x < height y) visiting x a m in
        absurd (omega (arith, self))
    | inr m ↦ m
  ]

  walk-Accepts :
      (depths : ℕ) (visiting visited : List Bytes) (x : Bytes)
      → Reachable entries root x
      → height x < depths
      → Above x visiting
      → Accepts (walk entries depths visiting visited x)
  unfolding walk
  walk-Accepts zero visiting visited x r h a = absurd (omega arith)
  walk-Accepts (suc depths) visiting visited x r h a =
      let fresh = Above-fresh x visiting a in
      elim (Bool-cases (member visited x)) [
        | inl m ↦ rw (fresh, m) (visited, refl)
        | inr m ↦
            let (entry, (found, valid), below) = ranked x r in
            rw (fresh, m, found, valid)
              (on_children-Accepts (walk entries depths (x ∷ visiting)) (children_of entry) visited
                x
                (λ w c k.
                  walk-Accepts depths (x ∷ visiting) w c (child x entry c r found k)
                    (omega (arith, below c k)) (below c k, Above-lower x c visiting (below c k) a)))
      ]

-- A graph is accepted where the names from the root on have heights, of at most the depth for the root,
-- such that each has a valid branch and the children of a branch are of smaller heights than it.
pub validate_dns_branch_walk-Accepts :
    (entries : Entries) (root : Bytes) (height : Bytes → ℕ) (max_depth : ℕ)
    → Ranked entries root height
    → height root ≤ max_depth
    → (visited : List Bytes) × (validate_dns_branch_walk entries root max_depth ≡ ok visited)
unfolding validate_dns_branch_walk
validate_dns_branch_walk-Accepts entries root height max_depth ranked h =
    walk-Accepts entries root height ranked (suc max_depth) [] [] root the_root (omega arith) tt

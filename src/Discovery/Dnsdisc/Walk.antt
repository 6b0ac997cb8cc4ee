-- ===== src/Discovery/Dnsdisc/Walk.antt =====
-- discovery/dnsdisc.go: the walk over a graph of branches.
pub mod Settled
pub mod Ranks
pub mod Depths
use raidan_sdk.Prelude.{
  ℕ, zero, suc, ◌+◌, Bool, true, false, ◌||◌, Option, none, some, List, [], ◌∷◌, Bytes,
  if◌then◌else◌, bytes_eq,
}
use raidan_sdk.Prelude.Text.{trim_prefix}
use raidan_sdk.Prelude.Result.{Result, ok, err, ◌>>=◌}
use raidan_sdk.Discovery.Dnsdisc.{DnsError, branch_prefix, branch_children, validate_dns_branch}

pub data WalkError : Type 0 where
  too_deep : WalkError
  cycle missing : Bytes → WalkError
  bad_branch : DnsError → WalkError

abbrev pub Entries : Type 0
Entries = List (Bytes × Bytes)

unfoldable pub lookup : Entries → Bytes → Option Bytes
lookup [] name = none
lookup ((key, entry) ∷ es) name = if bytes_eq key name then some entry else lookup es name

-- A set of names.
unfoldable pub member : List Bytes → Bytes → Bool
member [] name = false
member (n ∷ ns) name = bytes_eq n name || member ns name

-- The names in the body of a valid branch.
unfoldable pub children_of : Bytes → List Bytes
children_of entry = branch_children (trim_prefix entry branch_prefix)

abbrev pub mark : Bytes → Result WalkError (List Bytes) → Result WalkError (List Bytes)
mark name (ok visited) = ok (name ∷ visited)
mark name (err e) = err e

-- The loop over the children; `step` is the walk of one.
abbrev pub walk_each :
    (List Bytes → Bytes → Result WalkError (List Bytes))
    → List Bytes
    → List Bytes
    → Result WalkError (List Bytes)
walk_each step visited [] = ok visited
walk_each step visited (c ∷ cs) = step visited c >>= λ v. walk_each step v cs

-- A branch without children is not marked.
abbrev pub on_children :
    (List Bytes → Bytes → Result WalkError (List Bytes))
    → List Bytes
    → Bytes
    → List Bytes
    → Result WalkError (List Bytes)
on_children step visited name [] = ok visited
on_children step visited name (c ∷ cs) = mark name (walk_each step visited (c ∷ cs))

abbrev pub on_valid :
    (List Bytes → Bytes → Result WalkError (List Bytes))
    → List Bytes
    → Bytes
    → Bytes
    → Option DnsError
    → Result WalkError (List Bytes)
on_valid step visited name entry (some e) = err (bad_branch e)
on_valid step visited name entry none = on_children step visited name (children_of entry)

abbrev pub on_found :
    (List Bytes → Bytes → Result WalkError (List Bytes))
    → List Bytes
    → Bytes
    → Option Bytes
    → Result WalkError (List Bytes)
on_found step visited name none = err (missing name)
on_found step visited name (some entry) =
    on_valid step visited name entry (validate_dns_branch entry)

module _ (entries : Entries) where
  -- The walk of a name with so many depths to go, the names being visited and those visited. It gives
  -- the names visited behind it; a name is being visited while its children are walked.
  unfoldable pub walk : ℕ → List Bytes → List Bytes → Bytes → Result WalkError (List Bytes)
  walk zero visiting visited name = err too_deep
  walk (suc depths) visiting visited name =
      if member visiting name
      then err (cycle name)
      else if member visited name
      then ok visited
      else on_found (walk depths (name ∷ visiting)) visited name (lookup entries name)

  -- A depth is at most `max_depth`, and the root's is 0. A limit below 0, which refuses every root, has no
  -- number here.
  unfoldable pub validate_dns_branch_walk : Bytes → ℕ → Result WalkError (List Bytes)
  validate_dns_branch_walk root max_depth = walk (suc max_depth) [] [] root

-- ===== src/Discovery/Dnsdisc/Runs.antt =====
-- Runs of the checks of DNS records and of walks.
use mathlib.Core.Path.{subst}
use raidan_sdk.Prelude.{
  ℕ, ◌<◌, Bool, true, false, ◌||◌, Option, none, some, List, [], ◌∷◌, ◌++◌, Bytes, codes, replicate,
  if◌then◌else◌, bytes_eq, bytes_eq→eq, ◌≡◌, ◌⊎◌, inl, inr, refl, sym, ap, ◌∙◌, arith,
}
use raidan_sdk.Prelude.Text.{is_space, trim_prefix, parse_digits}
use raidan_sdk.Prelude.Result.{ok, err}
use raidan_sdk.Rpc.ForkId.{big_endian}
use raidan_sdk.Discovery.Dnsdisc.{
  link_in_enr_tree, key_size, split, spaces_as, nonempty, fields, to_upper, base32_digit,
  base32_digits, tail_count, digits_value, quanta, base32_decode, decode_base32_field,
  decode_hash_field, validate_children, branch_children, validate_dns_branch,
}
use raidan_sdk.Discovery.Dnsdisc.Records.{
  required_field, check_seq, is_base64_url, base64_length, check_sig, validate_dns_root, split_at,
  validate_dns_link, validate_dns_subtree_entry,
}
use raidan_sdk.Discovery.Dnsdisc.Walk.{
  Entries, too_deep, lookup, member, children_of, walk, validate_dns_branch_walk,
}
use raidan_sdk.Discovery.Dnsdisc.Walk.Settled.{IsBranch}
use raidan_sdk.Discovery.Dnsdisc.Walk.Ranks.{
  Reachable, the_root, child, Ranked, validate_dns_branch_walk-Ranked,
}
use raidan_sdk.Discovery.Dnsdisc.Walk.Depths.{validate_dns_branch_walk-Accepts}

decodes : base32_decode (codes "MZXW6YTB") ≡ some (codes "fooba")
unfolding base32_decode base32_digits base32_digit quanta digits_value big_endian tail_count
decodes = refl

decodes_tail : base32_decode (codes "MZXW6") ≡ some (codes "foo")
unfolding base32_decode base32_digits base32_digit quanta digits_value big_endian tail_count
decodes_tail = refl

-- A root with a signature of 65 bytes.
root_accepted :
    validate_dns_root (
      codes "enrtree-root:v1 e=AAAAAAAAAAAAAAAAAAAA l=BBBBBBBBBBBBBBBBBBBB seq=3 sig="
      ++ replicate 87 65)
    ≡ none
unfolding validate_dns_root required_field parse_digits check_seq is_base64_url base64_length
    check_sig fields nonempty spaces_as is_space split trim_prefix decode_hash_field
    decode_base32_field base32_decode base32_digits base32_digit to_upper quanta digits_value
    tail_count big_endian
root_accepted = refl

short_key :
    validate_dns_link (λ k. true) (codes "enrtree://MZXW6@nodes.example") ≡ some (key_size 3)
unfolding validate_dns_link split_at decode_base32_field base32_decode base32_digits base32_digit
    to_upper quanta digits_value tail_count big_endian
short_key = refl

misplaced_link :
    validate_dns_subtree_entry (λ k. true) (codes "enrtree://MZXW6@nodes.example") false
    ≡ some link_in_enr_tree
unfolding validate_dns_subtree_entry
misplaced_link = refl

abbrev root : Bytes
root = codes "root"

abbrev leaf : Bytes
leaf = codes "BBBBBBBBBBBBBBBBBBBB"

abbrev x_name : Bytes
x_name = codes "XXXXXXXXXXXXXXXXXXXX"

abbrev y_name : Bytes
y_name = codes "YYYYYYYYYYYYYYYYYYYY"

-- The two orders of the root's children, over the paths root-X-leaf and root-Y-X-leaf.
abbrev x_first : Entries
x_first =
    (root, codes "enrtree-branch:XXXXXXXXXXXXXXXXXXXX,YYYYYYYYYYYYYYYYYYYY")
    ∷ (x_name, codes "enrtree-branch:BBBBBBBBBBBBBBBBBBBB")
    ∷ (y_name, codes "enrtree-branch:XXXXXXXXXXXXXXXXXXXX")
    ∷ (leaf, codes "enrtree-branch:")
    ∷ []

abbrev y_first : Entries
y_first =
    (root, codes "enrtree-branch:YYYYYYYYYYYYYYYYYYYY,XXXXXXXXXXXXXXXXXXXX")
    ∷ (x_name, codes "enrtree-branch:BBBBBBBBBBBBBBBBBBBB")
    ∷ (y_name, codes "enrtree-branch:XXXXXXXXXXXXXXXXXXXX")
    ∷ (leaf, codes "enrtree-branch:")
    ∷ []

-- With a depth of 2 the walk passes over the longer path behind a name that it has visited, and refuses
-- the same graph in the other order.
x_first_accepted : validate_dns_branch_walk x_first root 2 ≡ ok (root ∷ y_name ∷ x_name ∷ [])
unfolding validate_dns_branch_walk walk lookup member children_of branch_children trim_prefix split
    validate_dns_branch validate_children decode_hash_field decode_base32_field base32_decode
    base32_digits base32_digit to_upper quanta digits_value tail_count big_endian
x_first_accepted = refl

y_first_refused : validate_dns_branch_walk y_first root 2 ≡ err too_deep
unfolding validate_dns_branch_walk walk lookup member children_of branch_children trim_prefix split
    validate_dns_branch validate_children decode_hash_field decode_base32_field base32_decode
    base32_digits base32_digit to_upper quanta digits_value tail_count big_endian
y_first_refused = refl

validate_dns_branch_walk-Ranked_example : (height : Bytes → ℕ) × Ranked x_first root height
validate_dns_branch_walk-Ranked_example =
    validate_dns_branch_walk-Ranked x_first root 2 (root ∷ y_name ∷ x_name ∷ []) x_first_accepted

-- A root with one child.
abbrev pair : Entries
pair = (root, codes "enrtree-branch:BBBBBBBBBBBBBBBBBBBB") ∷ (leaf, codes "enrtree-branch:") ∷ []

abbrev child_in : Option Bytes → Bytes → Bool
child_in none c = false
child_in (some entry) c = member (children_of entry) c

pair_names : (x : Bytes) → Reachable pair root x → (x ≡ root) ⊎ (x ≡ leaf)
unfolding lookup member children_of branch_children trim_prefix split
pair_names _ the_root = inl refl
pair_names _ (child x entry c r l m) = below (pair_names x r)
  where
    of_name : (name : Bytes) → x ≡ name → child_in (lookup pair name) c ≡ true
    of_name name e = ap (λ (o : Option Bytes). child_in o c) (ap (lookup pair) (sym e) ∙ l) ∙ m

    below : (x ≡ root) ⊎ (x ≡ leaf) → (c ≡ root) ⊎ (c ≡ leaf)
    below (inl e) =
        let only : member (leaf ∷ []) c ≡ true = of_name root e in
        inr (sym (bytes_eq→eq leaf c (alone (bytes_eq leaf c) only)))
      where
        alone : (b : Bool) → (b || false) ≡ true → b ≡ true
        alone b h = ground arith
    below (inr e) = let nothing : member [] c ≡ true = of_name leaf e in absurd (ground arith)

abbrev pair_height : Bytes → ℕ
pair_height x = if bytes_eq x root then 1 else 0

pair-Ranked : Ranked pair root pair_height
unfolding lookup member children_of branch_children trim_prefix split validate_dns_branch
    validate_children decode_hash_field decode_base32_field base32_decode base32_digits base32_digit
    to_upper quanta digits_value tail_count big_endian
pair-Ranked x r = at (pair_names x r)
  where
    lower : (c : Bytes) → member (leaf ∷ []) c ≡ true → pair_height c < 1
    lower c m =
        let e : leaf ≡ c = bytes_eq→eq leaf c (alone (bytes_eq leaf c) m) in
        subst (λ (t : Bytes). pair_height t < 1) e (omega arith)
      where
        alone : (b : Bool) → (b || false) ≡ true → b ≡ true
        alone b h = ground arith

    at :
        (x ≡ root) ⊎ (x ≡ leaf)
        → (entry : Bytes) × IsBranch pair x entry
          × ((c : Bytes) → member (children_of entry) c ≡ true → pair_height c < pair_height x)
    at (inl e) = rw e (codes "enrtree-branch:BBBBBBBBBBBBBBBBBBBB", (refl, refl), lower)
    at (inr e) = rw e (codes "enrtree-branch:", (refl, refl), λ c m. absurd (ground arith))

validate_dns_branch_walk-Accepts_example :
    (visited : List Bytes) × (validate_dns_branch_walk pair root 1 ≡ ok visited)
validate_dns_branch_walk-Accepts_example =
    validate_dns_branch_walk-Accepts pair root pair_height 1 pair-Ranked (omega arith)

-- ===== src/Discovery/Dnsdisc.antt =====
-- discovery/dnsdisc.go: the checks of the TXT records of a DNS node list, and of a graph of branches.
-- Texts are ASCII; a map is an association list, whose first entry for a key counts. The check of a
-- compressed public key is a parameter.
pub mod Records
pub mod Walk
mod Runs
use raidan_sdk.Prelude.{
  ℕ, zero, suc, ◌+◌, ◌-◌, ◌*◌, ◌^◌, Bool, true, false, not, ◌&&◌, ◌||◌, Option, none, some, List,
  [], ◌∷◌, ◌++◌, Bytes, codes, length, take, drop, ltb, leb, ◌==◌, if◌then◌else◌, has_prefix,
}
use raidan_sdk.Prelude.Text.{is_space, trim_prefix}
use raidan_sdk.Prelude.Result.{Result, ok, err, ◌>>=◌}
use raidan_sdk.Rpc.ForkId.{big_endian}

pub data DnsError : Type 0 where
  empty_entry empty_seq bad_seq empty_sig bad_sig_encoding : DnsError
  record_too_long field_count sig_size child_count : ℕ → DnsError
  missing_prefix missing_field : Bytes → DnsError
  empty_value bad_base32 empty_decoded empty_child enr_in_link_tree empty_enr : DnsError
  link_in_enr_tree unknown_entry missing_at empty_key bad_pubkey empty_domain : DnsError
  hash_size key_size : ℕ → DnsError

-- `strings.Split` at a byte: there is a part behind the last.
abbrev onto_first : ℕ → List Bytes → List Bytes
onto_first c [] = (c ∷ []) ∷ []
onto_first c (p ∷ ps) = (c ∷ p) ∷ ps

unfoldable pub split : ℕ → Bytes → List Bytes
split sep [] = [] ∷ []
split sep (c ∷ s) = if c == sep then [] ∷ split sep s else onto_first c (split sep s)

-- `strings.Fields`: the parts between spaces that are not empty.
unfoldable pub spaces_as : ℕ → Bytes → Bytes
spaces_as sep [] = []
spaces_as sep (c ∷ s) = (if is_space c then sep else c) ∷ spaces_as sep s

unfoldable pub nonempty : List Bytes → List Bytes
nonempty [] = []
nonempty ([] ∷ ps) = nonempty ps
nonempty ((c ∷ p) ∷ ps) = (c ∷ p) ∷ nonempty ps

unfoldable pub fields : Bytes → List Bytes
fields s = nonempty (split 32 (spaces_as 32 s))

unfoldable pub to_upper : Bytes → Bytes
to_upper [] = []
to_upper (c ∷ s) = (if leb 97 c && leb c 122 then c - 32 else c) ∷ to_upper s

-- The base32 alphabet, `none` for a byte outside of it; line breaks are passed over.
unfoldable pub base32_digit : ℕ → Option ℕ
base32_digit c =
    if leb 65 c && leb c 90
    then some (c - 65)
    else if leb 50 c && leb c 55
    then some (c - 24)
    else none

abbrev digit_onto : Option ℕ → Option (List ℕ) → Option (List ℕ)
digit_onto (some d) (some ds) = some (d ∷ ds)
digit_onto _ _ = none

unfoldable pub base32_digits : Bytes → Option (List ℕ)
base32_digits [] = some []
base32_digits (c ∷ s) =
    if c == 10 || c == 13 then base32_digits s else digit_onto (base32_digit c) (base32_digits s)

-- The bytes of the last digits, fewer than eight; digits that end no byte are dropped, and so is a rest
-- of one, three or six digits.
unfoldable pub tail_count : ℕ → ℕ
tail_count n =
    if n == 2 then 1 else if n == 4 then 2 else if n == 5 then 3 else if n == 7 then 4 else 0

-- The digits as the front of eight.
unfoldable pub digits_value : ℕ → List ℕ → ℕ
digits_value zero ds = 0
digits_value (suc k) [] = 0
digits_value (suc k) (d ∷ ds) = d * 32 ^ k + digits_value k ds

unfoldable pub quanta : List ℕ → Bytes
quanta (a ∷ b ∷ c ∷ d ∷ e ∷ f ∷ g ∷ h ∷ ds) =
    big_endian 5 (digits_value 8 (a ∷ b ∷ c ∷ d ∷ e ∷ f ∷ g ∷ h ∷ [])) ++ quanta ds
quanta ds = take (tail_count (length ds)) (big_endian 5 (digits_value 8 ds))

abbrev on_digits : Option (List ℕ) → Option Bytes
on_digits none = none
on_digits (some ds) = some (quanta ds)

unfoldable pub base32_decode : Bytes → Option Bytes
base32_decode s = on_digits (base32_digits s)

abbrev on_decoded : Option Bytes → Result DnsError Bytes
on_decoded none = err bad_base32
on_decoded (some []) = err empty_decoded
on_decoded (some (b ∷ bs)) = ok (b ∷ bs)

unfoldable pub decode_base32_field : Bytes → Result DnsError Bytes
decode_base32_field [] = err empty_value
decode_base32_field (c ∷ s) = on_decoded (base32_decode (to_upper (c ∷ s)))

abbrev checked_size : Bytes → Result DnsError Bytes
checked_size decoded =
    if ltb (length decoded) 12 || ltb 32 (length decoded)
    then err (hash_size (length decoded))
    else ok decoded

unfoldable pub decode_hash_field : Bytes → Result DnsError Bytes
decode_hash_field value = decode_base32_field value >>= checked_size

abbrev pub branch_prefix : Bytes
branch_prefix = codes "enrtree-branch:"

-- The loop over a branch's children; `none` is acceptance.
abbrev pub error_of : {A : Type 0} → Result DnsError A → Option DnsError
error_of (ok a) = none
error_of (err e) = some e

abbrev or_error : Option DnsError → Option DnsError → Option DnsError
or_error (some e) rest = some e
or_error none rest = rest

unfoldable pub validate_children : List Bytes → Option DnsError
validate_children [] = none
validate_children ([] ∷ cs) = some empty_child
validate_children ((b ∷ c) ∷ cs) =
    or_error (error_of (decode_hash_field (b ∷ c))) (validate_children cs)

unfoldable pub branch_children : Bytes → List Bytes
branch_children [] = []
branch_children (b ∷ body) = split 44 (b ∷ body)

unfoldable pub validate_dns_branch : Bytes → Option DnsError
validate_dns_branch entry =
    let children = branch_children (trim_prefix entry branch_prefix) in
    if not (has_prefix entry branch_prefix)
    then some (missing_prefix branch_prefix)
    else if ltb 13 (length children)
    then some (child_count (length children))
    else validate_children children

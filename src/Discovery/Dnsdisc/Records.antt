-- ===== src/Discovery/Dnsdisc/Records.antt =====
-- discovery/dnsdisc.go: the checks of a root, of a link and of an entry of either tree.
use raidan_sdk.Prelude.{
  ℕ, ◌+◌, ◌-◌, ◌*◌, ◌/◌, ◌%◌, Bool, true, not, ◌&&◌, ◌||◌, Option, none, some, List, [], ◌∷◌, Bytes,
  codes, length, drop, ltb, leb, ◌==◌, if◌then◌else◌, bytes_eq, has_prefix,
}
use raidan_sdk.Prelude.Text.{trim_prefix, parse_uint}
use raidan_sdk.Prelude.Result.{Result, ok, err, ◌>>=◌}
use raidan_sdk.Discovery.Dnsdisc.{
  DnsError, empty_entry, empty_seq, bad_seq, empty_sig, bad_sig_encoding, record_too_long,
  field_count, sig_size, missing_prefix, missing_field, enr_in_link_tree, empty_enr,
  link_in_enr_tree, unknown_entry, missing_at, empty_key, bad_pubkey, empty_domain, key_size,
  fields, decode_base32_field, decode_hash_field, branch_prefix, error_of, validate_dns_branch,
}

unfoldable pub required_field : Bytes → Bytes → Result DnsError Bytes
required_field token prefix =
    if has_prefix token prefix then ok (trim_prefix token prefix) else err (missing_field prefix)

abbrev on_seq : Option ℕ → Result DnsError ℕ
on_seq none = err bad_seq
on_seq (some n) = ok n

unfoldable pub check_seq : Bytes → Result DnsError ℕ
check_seq [] = err empty_seq
check_seq (c ∷ s) = on_seq (parse_uint (c ∷ s))

-- The length that `base64.RawURLEncoding` decodes to: four digits are three bytes, and a rest of one is
-- an error.
unfoldable pub is_base64_url : Bytes → Bool
is_base64_url [] = true
is_base64_url (c ∷ s) =
    ((leb 65 c && leb c 90)
      || (leb 97 c && leb c 122)
      || (leb 48 c && leb c 57)
      || c == 45
      || c == 95)
    && is_base64_url s

unfoldable pub base64_length : Bytes → Option ℕ
base64_length s =
    if not (is_base64_url s) || length s % 4 == 1
    then none
    else some (length s / 4 * 3 + (length s % 4 - 1))

abbrev on_sig_length : Option ℕ → Result DnsError ℕ
on_sig_length none = err bad_sig_encoding
on_sig_length (some n) = if n == 65 then ok n else err (sig_size n)

unfoldable pub check_sig : Bytes → Result DnsError ℕ
check_sig [] = err empty_sig
check_sig (c ∷ s) = on_sig_length (base64_length (c ∷ s))

-- The checks of the four values, in the order of the code: first all fields, then what is in them.
abbrev on_fields : List Bytes → Result DnsError ℕ
on_fields (name ∷ a ∷ b ∷ d ∷ f ∷ []) =
    if not (bytes_eq name (codes "enrtree-root:v1"))
    then err (missing_prefix (codes "enrtree-root:v1"))
    else required_field a (codes "e=") >>= λ e. required_field b (codes "l=") >>= λ l.
        required_field d (codes "seq=") >>= λ seq. required_field f (codes "sig=") >>= λ sig.
        decode_hash_field e >>= λ x.
        decode_hash_field l >>= λ y. check_seq seq >>= λ n. check_sig sig
on_fields fs = err (field_count (length fs))

unfoldable pub validate_dns_root : Bytes → Option DnsError
validate_dns_root [] = some empty_entry
validate_dns_root (c ∷ s) =
    if ltb 512 (length (c ∷ s))
    then some (record_too_long (length (c ∷ s)))
    else error_of (on_fields (fields (c ∷ s)))

-- The text before and behind the first `@`.
abbrev before_more : ℕ → Option (Bytes × Bytes) → Option (Bytes × Bytes)
before_more c none = none
before_more c (some (before, behind)) = some (c ∷ before, behind)

unfoldable pub split_at : Bytes → Option (Bytes × Bytes)
split_at [] = none
split_at (c ∷ s) = if c == 64 then some ([], s) else before_more c (split_at s)

abbrev pub link_prefix : Bytes
link_prefix = codes "enrtree://"

module _ (is_pubkey : Bytes → Bool) where
  abbrev check_key : Bytes → Result DnsError Bytes
  check_key key =
      if not (length key == 33)
      then err (key_size (length key))
      else if is_pubkey key
      then ok key
      else err bad_pubkey

  abbrev check_domain : Bytes → Bytes → Result DnsError Bytes
  check_domain [] key = err empty_domain
  check_domain (c ∷ s) key = ok key

  -- The `@` is not in the prefix, so the key is what stands behind the prefix and before the `@`.
  abbrev on_at : Option (Bytes × Bytes) → Option DnsError
  on_at none = some missing_at
  on_at (some (before, domain)) =
      let key = drop (length link_prefix) before in
      if length key == 0
      then some empty_key
      else error_of (decode_base32_field key >>= check_key >>= check_domain domain)

  unfoldable pub validate_dns_link : Bytes → Option DnsError
  validate_dns_link entry =
      if has_prefix entry link_prefix
      then on_at (split_at entry)
      else some (missing_prefix link_prefix)

  unfoldable pub validate_dns_subtree_entry : Bytes → Bool → Option DnsError
  validate_dns_subtree_entry entry link_tree =
      if has_prefix entry branch_prefix
      then validate_dns_branch entry
      else if has_prefix entry (codes "enr:")
      then (if link_tree
          then some enr_in_link_tree
          else if bytes_eq entry (codes "enr:")
          then some empty_enr
          else none)
      else if has_prefix entry link_prefix
      then (if not link_tree then some link_in_enr_tree else validate_dns_link entry)
      else some unknown_entry

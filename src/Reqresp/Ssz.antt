-- ===== src/Reqresp/Ssz.antt =====
-- reqresp/ssz.go, reqresp/blocksbyrange.go, reqresp/blocksbyroot.go, reqresp/execution_proofs.go,
-- reqresp/datacolumnsidecarsbyrange.go, reqresp/datacolumnsidecarsbyroot.go and
-- gossipsub/execution_proof.go: the SSZ of requests. A root is a string of 32 bytes, a proof type a byte
-- and a column a number of 64 bits.
pub mod Offsets
pub mod Identifiers
mod Runs
use raidan_sdk.Prelude.{
  ℕ, ◌+◌, ◌-◌, ◌*◌, ◌^◌, Option, none, some, List, [], ◌∷◌, ◌++◌, Bytes, length, ltb, if◌then◌else◌,
}
use raidan_sdk.Prelude.LittleEndian.{little_endian}
use raidan_sdk.Prelude.Result.{Result, ok, err}

pub data SszError : Type 0 where
  too_many_roots too_many_columns too_many_proof_types too_many_identifiers : ℕ → SszError
  identifier_too_long : ℕ → ℕ → SszError
  length_overflows : SszError

abbrev pub ssz_uint64 : ℕ → Bytes
ssz_uint64 n = little_endian 8 n

abbrev pub ssz_two_uint64_request : ℕ → ℕ → Bytes
ssz_two_uint64_request first second = little_endian 8 first ++ little_endian 8 second

abbrev pub ssz_blocks_by_range_request : ℕ → ℕ → ℕ → Bytes
ssz_blocks_by_range_request start_slot count step =
    little_endian 8 start_slot ++ (little_endian 8 count ++ little_endian 8 step)

abbrev max_root_list_items : ℕ
max_root_list_items = 2 ^ 20

unfoldable pub concat_roots : List Bytes → Bytes
concat_roots [] = []
concat_roots (r ∷ rs) = r ++ concat_roots rs

unfoldable pub ssz_root_list : List Bytes → Result SszError Bytes
ssz_root_list roots =
    if ltb max_root_list_items (length roots)
    then err (too_many_roots (length roots))
    else ok (concat_roots roots)

-- Numbers of `w` bytes, one behind the other.
unfoldable pub write_numbers : ℕ → List ℕ → Bytes
write_numbers w [] = []
write_numbers w (n ∷ ns) = little_endian w n ++ write_numbers w ns

abbrev max_data_columns_by_range : ℕ
max_data_columns_by_range = 2 ^ 20

unfoldable pub ssz_data_columns_by_range_request : ℕ → ℕ → List ℕ → Result SszError Bytes
ssz_data_columns_by_range_request start_slot count columns =
    if ltb max_data_columns_by_range (length columns)
    then err (too_many_columns (length columns))
    else ok (
        little_endian 8 start_slot
        ++ (little_endian 8 count ++ (little_endian 4 20 ++ write_numbers 8 columns)))

abbrev max_execution_proof_types : ℕ
max_execution_proof_types = 4

unfoldable pub ssz_execution_proofs_by_range : ℕ → ℕ → Bytes → Result SszError Bytes
ssz_execution_proofs_by_range start_slot count proof_types =
    if ltb max_execution_proof_types (length proof_types)
    then err (too_many_proof_types (length proof_types))
    else ok (
        little_endian 8 start_slot
        ++ (little_endian 8 count ++ (little_endian 4 20 ++ proof_types)))

unfoldable pub ssz_execution_proof_status : Bytes → ℕ → Bytes → Result SszError Bytes
ssz_execution_proof_status block_root slot proof_types =
    if ltb max_execution_proof_types (length proof_types)
    then err (too_many_proof_types (length proof_types))
    else ok (block_root ++ (little_endian 8 slot ++ (little_endian 4 44 ++ proof_types)))

-- A root with the columns, or the proof types, that are asked for.
pub record Identifier : Type 0 where
  pub block_root : Bytes
  pub elements : List ℕ

-- The size of an identifier whose elements take `w` bytes each.
abbrev pub identifier_size : ℕ → Identifier → ℕ
identifier_size w i = 36 + w * length i.elements

-- The loops that write: the offsets from the first one on, and the identifiers.
unfoldable pub write_offsets : ℕ → ℕ → List Identifier → Bytes
write_offsets w offset [] = []
write_offsets w offset (i ∷ is) =
    little_endian 4 offset ++ write_offsets w (offset + identifier_size w i) is

abbrev pub write_identifier : ℕ → Identifier → Bytes
write_identifier w i = i.block_root ++ (little_endian 4 36 ++ write_numbers w i.elements)

unfoldable pub write_identifiers : ℕ → List Identifier → Bytes
write_identifiers w [] = []
write_identifiers w (i ∷ is) = write_identifier w i ++ write_identifiers w is

abbrev pub identifiers_body : ℕ → List Identifier → Bytes
identifiers_body w is = write_offsets w (4 * length is) is ++ write_identifiers w is

abbrev pub max_identifiers : ℕ
max_identifiers = 128

abbrev pub max_columns_per_identifier : ℕ
max_columns_per_identifier = 128

-- The loop that adds up the sizes of the columns' identifiers, from the index `n` on.
unfoldable pub column_sizes : ℕ → ℕ → List Identifier → Option SszError
column_sizes n total [] = none
column_sizes n total (i ∷ is) =
    let rest = column_sizes (n + 1) (total + identifier_size 8 i) is in
    if ltb max_columns_per_identifier (length i.elements)
    then some (identifier_too_long n (length i.elements))
    else if ltb (2 ^ 63 - 1 - identifier_size 8 i) total
    then some length_overflows
    else rest

abbrev pub unless_error : Option SszError → Bytes → Result SszError Bytes
unless_error (some e) body = err e
unless_error none body = ok body

unfoldable pub ssz_data_columns_by_root_identifiers : List Identifier → Result SszError Bytes
ssz_data_columns_by_root_identifiers is =
    if ltb max_identifiers (length is)
    then err (too_many_identifiers (length is))
    else unless_error (column_sizes 0 (4 * length is) is) (identifiers_body 8 is)

-- The loop over the proof types' identifiers.
unfoldable pub proof_sizes : ℕ → List Identifier → Option SszError
proof_sizes n [] = none
proof_sizes n (i ∷ is) =
    let rest = proof_sizes (n + 1) is in
    if ltb max_execution_proof_types (length i.elements)
    then some (identifier_too_long n (length i.elements))
    else rest

unfoldable pub ssz_execution_proofs_by_root : List Identifier → Result SszError Bytes
ssz_execution_proofs_by_root is =
    if ltb max_identifiers (length is)
    then err (too_many_identifiers (length is))
    else unless_error (proof_sizes 0 is) (identifiers_body 1 is)

pub record SignedExecutionProof : Type 0 where
  pub proof_data : Bytes
  pub proof_type : ℕ
  pub new_payload_request_root : Bytes
  pub validator_index : ℕ
  pub signature : Bytes

abbrev pub ssz_signed_execution_proof : SignedExecutionProof → Bytes
ssz_signed_execution_proof p =
    little_endian 4 108
    ++ (little_endian 8 p.validator_index
        ++ (p.signature
            ++ (little_endian 4 37
                ++ ((p.proof_type ∷ []) ++ (p.new_payload_request_root ++ p.proof_data)))))

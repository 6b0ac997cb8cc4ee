-- ===== src/Reqresp/Ssz/Runs.antt =====
-- Runs of the requests' SSZ.
use raidan_sdk.Prelude.{[], ◌∷◌, ◌++◌, List, Bytes, replicate, ◌≡◌, refl, arith}
use raidan_sdk.Prelude.LittleEndian.{little_endian}
use raidan_sdk.Prelude.Result.{ok, err}
use raidan_sdk.Reqresp.Ssz.{
  too_many_proof_types, identifier_too_long, ssz_blocks_by_range_request, write_numbers,
  ssz_execution_proof_status, Identifier, write_offsets, write_identifiers, column_sizes,
  ssz_data_columns_by_root_identifiers, proof_sizes, ssz_execution_proofs_by_root,
}
use raidan_sdk.Reqresp.Ssz.Offsets.{read_items}
use raidan_sdk.Reqresp.Ssz.Identifiers.{read_each, read_each-ssz_data_columns_by_root_identifiers}

abbrev zeros : Bytes
zeros = replicate 7 0

by_range :
    ssz_blocks_by_range_request 3 258 1 ≡ (3 ∷ zeros) ++ ((2 ∷ 1 ∷ replicate 6 0) ++ (1 ∷ zeros))
unfolding little_endian
by_range = refl

abbrev identifiers : List Identifier
identifiers =
    record { block_root = replicate 32 1; elements = 5 ∷ 6 ∷ [] }
    ∷ record { block_root = replicate 32 2; elements = [] }
    ∷ []

-- The second identifier starts behind the 8 bytes of the table and the 52 of the first.
columns_by_root :
    ssz_data_columns_by_root_identifiers identifiers
    ≡ ok (
        (8 ∷ 0 ∷ 0 ∷ 0 ∷ 60 ∷ 0 ∷ 0 ∷ 0 ∷ [])
        ++ ((replicate 32 1 ++ ((36 ∷ 0 ∷ 0 ∷ 0 ∷ []) ++ ((5 ∷ zeros) ++ (6 ∷ zeros))))
            ++ (replicate 32 2 ++ (36 ∷ 0 ∷ 0 ∷ 0 ∷ []))))
unfolding ssz_data_columns_by_root_identifiers column_sizes write_offsets write_identifiers
    write_numbers little_endian
columns_by_root = refl

abbrev many : List Identifier
many =
    record { block_root = replicate 32 1; elements = [] }
    ∷ record { block_root = replicate 32 1; elements = replicate 5 0 }
    ∷ []

too_many_proofs : ssz_execution_proofs_by_root many ≡ err (identifier_too_long 1 5)
unfolding ssz_execution_proofs_by_root proof_sizes
too_many_proofs = refl

status_of_proofs :
    ssz_execution_proof_status (replicate 32 0) 9 (replicate 5 1) ≡ err (too_many_proof_types 5)
unfolding ssz_execution_proof_status
status_of_proofs = refl

read_each-ssz_data_columns_by_root_identifiers_example :
    (body : Bytes) × (ssz_data_columns_by_root_identifiers identifiers ≡ ok body)
    × (read_each (read_items body) ≡ identifiers)
read_each-ssz_data_columns_by_root_identifiers_example =
    read_each-ssz_data_columns_by_root_identifiers identifiers (omega arith)
      ((refl, omega arith, (omega arith, (omega arith, tt))), ((refl, omega arith, tt), tt))

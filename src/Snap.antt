-- ===== src/Snap.antt =====
-- snap/requests.go: the wait for a request on an ETH connection with SNAP, and the requests that go with
-- the responses. An error of the connection or of its RLP is of a type `E`.
pub mod First
mod Runs
use raidan_sdk.Prelude.{
  ℕ, ◌+◌, ◌%◌, ◌^◌, Option, none, some, List, Bytes, codes, ◌==◌, if◌then◌else◌,
}
use raidan_sdk.Prelude.Result.{Result, ok, err}
use raidan_sdk.Eth.Conn.{WaitError, Conn, Select, wait_for_msg}
use raidan_sdk.Eth.Wire.{Splits, decode_request_id}

pub data RequestError (E : Type 0) : Type 0 where
  not_sent : WaitError E → RequestError E
  bad_request_id : E → RequestError E

module _ {E : Type 0} (p : Splits E) where
  abbrev on_request_id : Bytes → Result E ℕ → Result (RequestError E) (ℕ × Bytes)
  on_request_id body (err e) = err (bad_request_id e)
  on_request_id body (ok id) = ok (id, body)

  abbrev pub on_waited :
      Option (Result (WaitError E) Bytes) → Option (Result (RequestError E) (ℕ × Bytes))
  on_waited none = none
  on_waited (some (err e)) = some (err (not_sent e))
  on_waited (some (ok body)) = some (on_request_id body (decode_request_id p body))

  -- `none` for a list of what was selected that ends before the wait does.
  unfoldable pub wait_for_request_id :
      Conn E → ℕ → List Select → Option (Result (RequestError E) (ℕ × Bytes))
  wait_for_request_id c request_code ss =
      on_waited (wait_for_msg c ((c.snap_offset + request_code) % 2 ^ 64) ss)

-- The request code and the name that go with a response, `none` for the error of another code.
unfoldable pub request_for_response : ℕ → Option (ℕ × Bytes)
request_for_response code =
    if code == 0x01
    then some (0x00, codes "GetAccountRange")
    else if code == 0x03
    then some (0x02, codes "GetStorageRanges")
    else if code == 0x05
    then some (0x04, codes "GetByteCodes")
    else if code == 0x07
    then some (0x06, codes "GetTrieNodes")
    else if code == 0x09
    then some (0x08, codes "GetBlockAccessLists")
    else none

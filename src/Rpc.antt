-- ===== src/Rpc.antt =====
-- The rpc package: the fork ID of a chain, the cache of chain parameters, and the network ID.
pub mod ForkId
pub mod Cache
use raidan_sdk.Prelude.{ℕ}
use raidan_sdk.Prelude.Result.{Result, ok, err}

-- `fetchNetworkID`, from what `net_version` and `eth_chainId` answered: the first that is a number, or
-- both errors.
unfoldable pub fetch_network_id : {E : Type 0} → Result E ℕ → Result E ℕ → Result (E × E) ℕ
fetch_network_id (ok network) chain = ok network
fetch_network_id (err e) (ok chain) = ok chain
fetch_network_id (err e) (err e') = err (e, e')

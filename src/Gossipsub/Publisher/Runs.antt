-- ===== src/Gossipsub/Publisher/Runs.antt =====
-- Runs of a publisher.
use raidan_sdk.Prelude.{ℕ, true, false, none, some, List, [], ◌∷◌, Bytes, codes, ◌≡◌, refl}
use raidan_sdk.Prelude.Result.{ok, err}
use raidan_sdk.Gossipsub.Publisher.{
  joined, subscribed, cancelled, left, published, new_publisher, has_topic, no_peers, JoinCalls,
  join, peer_loop, wait_for_gossip_peer, Publication, publish, await_loop, await, leave_all, close,
}
use raidan_sdk.Gossipsub.Publisher.Topics.{InStep}
use raidan_sdk.Gossipsub.Publisher.InStep.{Operation, publishes, awaits, closes, run, run-InStep}
use raidan_sdk.Gossipsub.Publisher.Sending.{Sends, publish-Sends}

abbrev me : Bytes
me = codes "me"

abbrev blocks : Bytes
blocks = codes "blocks"

abbrev calls : JoinCalls ℕ
calls = record { join_error = none; subscribe_error = none }

abbrev unsubscribed : JoinCalls ℕ
unsubscribed = record { join_error = none; subscribe_error = some 4 }

-- A publication that meets a peer in the second round of its wait.
abbrev publication : Publication ℕ
publication = record {
  wait_for_peer = true;
  peers = 0;
  polls =
      record { peers = 0; before_deadline = true; ended = none; peers_after = 0 }
      ∷ record { peers = 2; before_deadline = true; ended = none; peers_after = 2 }
      ∷ [];
  join_calls = calls;
  before_publish = some none;
  publish_error = none;
  waits_after = true;
  after_error = none;
}

-- One that meets none before the deadline.
abbrev lonely : Publication ℕ
lonely = record publication {
  polls = record { peers = 0; before_deadline = false; ended = none; peers_after = 0 } ∷ [];
}

publishes_once :
    (publish (new_publisher me) blocks (7 ∷ []) publication).calls
    ≡ joined blocks ∷ subscribed blocks ∷ published blocks (7 ∷ []) ∷ []
unfolding publish new_publisher join has_topic wait_for_gossip_peer peer_loop
publishes_once = refl

meets_nobody : (publish (new_publisher me) blocks (7 ∷ []) lonely).error ≡ some no_peers
unfolding publish new_publisher join has_topic wait_for_gossip_peer peer_loop
meets_nobody = refl

-- Its own messages are passed over.
skips_own :
    await_loop {E = ℕ} me (
      ok (record { from = me; body = 1 ∷ [] })
      ∷ ok (record { from = codes "peer"; body = 2 ∷ [] })
      ∷ [])
    ≡ some (ok (2 ∷ []))
unfolding await_loop
skips_own = refl

abbrev operations : List (Operation ℕ)
operations =
    publishes blocks (7 ∷ []) publication
    ∷ awaits (codes "votes") unsubscribed []
    ∷ awaits (codes "votes") calls (err 3 ∷ [])
    ∷ closes (λ t. none)
    ∷ publishes blocks (7 ∷ []) publication
    ∷ []

leaves_all :
    (run operations (new_publisher me) []).1
    ≡ joined blocks
      ∷ subscribed blocks
      ∷ published blocks (7 ∷ [])
      ∷ joined (codes "votes")
      ∷ left (codes "votes")
      ∷ joined (codes "votes")
      ∷ subscribed (codes "votes")
      ∷ cancelled blocks
      ∷ left blocks
      ∷ cancelled (codes "votes")
      ∷ left (codes "votes")
      ∷ []
unfolding publish new_publisher join has_topic wait_for_gossip_peer peer_loop await await_loop
    leave_all close
leaves_all = refl

run-InStep_example :
    InStep (run operations (new_publisher me) []).0 (run operations (new_publisher me) []).1
run-InStep_example = run-InStep me operations

publish-Sends_example :
    Sends blocks (7 ∷ []) (publish (new_publisher me) blocks (7 ∷ []) publication)
publish-Sends_example = publish-Sends (new_publisher me) blocks (7 ∷ []) publication

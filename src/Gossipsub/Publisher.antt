-- ===== src/Gossipsub/Publisher.antt =====
-- gossipsub/publish.go: the publisher and its topics. The router is a parameter: what its calls returned
-- is given, and the calls that are made of it are listed. A map of topics is the list of its names in the
-- order of iteration; an error is of a type `E`.
pub mod Once
pub mod Topics
pub mod InStep
pub mod Sending
mod Runs
use raidan_sdk.Prelude.{
  ℕ, ◌*◌, Bool, true, false, not, ◌&&◌, ◌||◌, Option, none, some, List, [], ◌∷◌, ◌++◌, Bytes, codes,
  length, ltb, ◌==◌, if◌then◌else◌, bytes_eq,
}
use raidan_sdk.Prelude.Result.{Result, ok, err}
use raidan_sdk.Session.{Write}

abbrev pub max_payload_size : ℕ
max_payload_size = 10 * 1024 * 1024

-- The calls that are made of the router and of its topics, joins where they succeeded.
pub data RouterCall : Type 0 where
  joined subscribed cancelled left : Bytes → RouterCall
  published : Bytes → Bytes → RouterCall

pub record Publisher : Type 0 where
  pub self : Bytes
  pub topics : List Bytes
  pub closed : Bool

pub data PublishError (E : Type 0) : Type 0 where
  too_large : ℕ → PublishError E
  publisher_closed no_peers still_waiting : PublishError E
  join_failed subscribe_failed wait_ended before_failed publish_failed after_ended :
      E → PublishError E

unfoldable pub new_publisher : Bytes → Publisher
new_publisher self = record { self = self; topics = []; closed = false }

unfoldable pub has_topic : List Bytes → Bytes → Bool
has_topic [] name = false
has_topic (t ∷ ts) name = bytes_eq t name || has_topic ts name

-- The errors of the router's calls at a join.
pub record JoinCalls (E : Type 0) : Type 0 where
  pub join_error : Option E
  pub subscribe_error : Option E

module _ {E : Type 0} where
  abbrev pub on_subscribe :
      Publisher → Bytes → Option E → Option (PublishError E) × (Publisher × List RouterCall)
  on_subscribe p name (some e) = (some (subscribe_failed e), (p, joined name ∷ left name ∷ []))
  on_subscribe p name none =
      (none, (record p { topics = p.topics ++ (name ∷ []) }, joined name ∷ subscribed name ∷ []))

  abbrev pub on_join :
      Publisher
      → Bytes
      → Option E
      → Option E
      → Option (PublishError E) × (Publisher × List RouterCall)
  on_join p name subscribe_error (some e) = (some (join_failed e), (p, []))
  on_join p name subscribe_error none = on_subscribe p name subscribe_error

  -- Whether the publisher is closed, and whether it has the topic.
  abbrev pub on_state :
      Bool
      → Bool
      → Publisher
      → Bytes
      → JoinCalls E
      → Option (PublishError E) × (Publisher × List RouterCall)
  on_state true there p name calls = (some publisher_closed, (p, []))
  on_state false true p name calls = (none, (p, []))
  on_state false false p name calls = on_join p name calls.subscribe_error calls.join_error

  unfoldable pub join :
      Publisher → Bytes → JoinCalls E → Option (PublishError E) × (Publisher × List RouterCall)
  join p name calls = on_state p.closed (has_topic p.topics name) p name calls

-- One round of the wait for a peer: the peers at its start, whether the deadline is ahead, the context's
-- error if it ended first, and the peers behind the loop if this round ends it.
pub record Poll (E : Type 0) : Type 0 where
  pub peers : ℕ
  pub before_deadline : Bool
  pub ended : Option E
  pub peers_after : ℕ

module _ {E : Type 0} where
  abbrev pub counted : ℕ → Result (PublishError E) ℕ
  counted peers = if peers == 0 then err no_peers else ok peers

  abbrev pub on_tick : Result (PublishError E) ℕ → Option E → Result (PublishError E) ℕ
  on_tick rest (some e) = err (wait_ended e)
  on_tick rest none = rest

  unfoldable pub peer_loop : List (Poll E) → Result (PublishError E) ℕ
  peer_loop [] = err still_waiting
  peer_loop (p ∷ ps) =
      let rest = peer_loop ps in
      if p.peers == 0 && p.before_deadline then on_tick rest p.ended else counted p.peers_after

  unfoldable pub wait_for_gossip_peer : Bool → ℕ → List (Poll E) → Result (PublishError E) ℕ
  wait_for_gossip_peer wait_for_peer peers polls =
      if wait_for_peer then peer_loop polls else ok peers

-- One publication: the options, and what the calls of the router and of the hook returned. The hook is
-- optional; `waits_after` is that `After` is not negative, since zero stands for a default, and
-- `after_error` is how that wait ended.
pub record Publication (E : Type 0) : Type 0 where
  pub wait_for_peer : Bool
  pub peers : ℕ
  pub polls : List (Poll E)
  pub join_calls : JoinCalls E
  pub before_publish : Option (Option E)
  pub publish_error : Option E
  pub waits_after : Bool
  pub after_error : Option E

pub record Outcome (E : Type 0) : Type 0 where
  pub error : Option (PublishError E)
  pub publisher : Publisher
  pub calls : List RouterCall
  pub writes : List Write

abbrev pub observed_publish : Bytes → Bytes → Write
observed_publish name payload = record {
  protocol = codes "gossipsub";
  code = 0;
  protocol_id = [];
  topic = name;
  payload = payload;
  raw = false;
}

module _ {E : Type 0} where
  abbrev pub stopped : PublishError E → Publisher → List RouterCall → Outcome E
  stopped e p calls = record { error = some e; publisher = p; calls = calls; writes = [] }

  abbrev pub after_result : Publication E → Option E → Option (PublishError E)
  after_result a (some e) = some (publish_failed e)
  after_result a none = if a.waits_after then on_after a.after_error else none
    where
      on_after : Option E → Option (PublishError E)
      on_after (some e) = some (after_ended e)
      on_after none = none

  abbrev pub send : Publication E → Bytes → Bytes → Publisher → List RouterCall → Outcome E
  send a name payload p calls = record {
    error = after_result a a.publish_error;
    publisher = p;
    calls = calls ++ (published name payload ∷ []);
    writes = observed_publish name payload ∷ [];
  }

  abbrev pub on_hook :
      Publication E → Bytes → Bytes → Publisher → List RouterCall → Option (Option E) → Outcome E
  on_hook a name payload p calls (some (some e)) = stopped (before_failed e) p calls
  on_hook a name payload p calls (some none) = send a name payload p calls
  on_hook a name payload p calls none = send a name payload p calls

  abbrev pub on_peers :
      Publication E
      → Bytes
      → Bytes
      → Publisher
      → List RouterCall
      → Result (PublishError E) ℕ
      → Outcome E
  on_peers a name payload p calls (err e) = stopped e p calls
  on_peers a name payload p calls (ok n) = on_hook a name payload p calls a.before_publish

  abbrev pub on_joined :
      Publication E
      → Bytes
      → Bytes
      → Option (PublishError E) × (Publisher × List RouterCall)
      → Outcome E
  on_joined a name payload (some e, (p, calls)) = stopped e p calls
  on_joined a name payload (none, (p, calls)) =
      on_peers a name payload p calls (wait_for_gossip_peer a.wait_for_peer a.peers a.polls)

  -- `Publisher.Publish`.
  unfoldable pub publish : Publisher → Bytes → Bytes → Publication E → Outcome E
  publish p name payload a =
      if ltb max_payload_size (length payload)
      then stopped (too_large (length payload)) p []
      else on_joined a name payload (join p name a.join_calls)

-- A message of the subscription: the peer that it came from, and its data.
pub record Message : Type 0 where
  pub from : Bytes
  pub body : Bytes

module _ {E : Type 0} where
  -- The loop of `Await`; `none` for a subscription that ends before the loop does.
  unfoldable pub await_loop : Bytes → List (Result E Message) → Option (Result E Bytes)
  await_loop self [] = none
  await_loop self (err e ∷ rs) = some (err e)
  await_loop self (ok m ∷ rs) =
      if bytes_eq m.from self then await_loop self rs else some (ok m.body)

  abbrev pub awaited : Option (Result E Bytes) → Option (Result (PublishError E) Bytes)
  awaited none = none
  awaited (some (err e)) = some (err (wait_ended e))
  awaited (some (ok b)) = some (ok b)

  abbrev pub on_await :
      List (Result E Message)
      → Option (PublishError E) × (Publisher × List RouterCall)
      → Option (Result (PublishError E) Bytes) × (Publisher × List RouterCall)
  on_await rs (some e, (p, calls)) = (some (err e), (p, calls))
  on_await rs (none, (p, calls)) = (awaited (await_loop p.self rs), (p, calls))

  unfoldable pub await :
      Publisher
      → Bytes
      → JoinCalls E
      → List (Result E Message)
      → Option (Result (PublishError E) Bytes) × (Publisher × List RouterCall)
  await p name calls rs = on_await rs (join p name calls)

  -- The loop of `Close`: the first error of leaving a topic, and the calls. Every topic is left.
  abbrev first_of : Option E → Option E → Option E
  first_of (some e) rest = some e
  first_of none rest = rest

  unfoldable pub leave_all : (Bytes → Option E) → List Bytes → Option E × List RouterCall
  leave_all close_error [] = (none, [])
  leave_all close_error (t ∷ ts) =
      let (o, calls) = leave_all close_error ts in
      (first_of (close_error t) o, cancelled t ∷ left t ∷ calls)

  abbrev pub on_close :
      Bool → Publisher → Option E × List RouterCall → Option E × (Publisher × List RouterCall)
  on_close true p r = (none, (p, []))
  on_close false p (o, calls) = (o, (record p { topics = []; closed = true }, calls))

  unfoldable pub close : (Bytes → Option E) → Publisher → Option E × (Publisher × List RouterCall)
  close close_error p = on_close p.closed p (leave_all close_error p.topics)

-- ===== src/Gossipsub/Publisher/Sending.antt =====
-- What a publication sends, and what an observer and a subscriber see of it.
use raidan_sdk.Prelude.{
  ℕ, ◌≤◌, Bool, true, false, Option, none, some, List, [], ◌∷◌, ◌++◌, Bytes, length, ltb,
  Bool-cases, ◌≡◌, inl, inr, refl, arith,
}
use raidan_sdk.Prelude.Result.{Result, ok, err}
use raidan_sdk.Session.{Write}
use raidan_sdk.Gossipsub.Publisher.{
  RouterCall, joined, subscribed, cancelled, left, published, Publisher, PublishError, has_topic,
  JoinCalls, on_join, on_state, join, wait_for_gossip_peer, Publication, Outcome, observed_publish,
  on_hook, on_peers, on_joined, publish, max_payload_size,
}

-- The messages that the router was asked to publish.
abbrev pub sent_messages : List RouterCall → List (Bytes × Bytes)
sent_messages [] = []
sent_messages (published t payload ∷ cs) = (t, payload) ∷ sent_messages cs
sent_messages (joined t ∷ cs) = sent_messages cs
sent_messages (subscribed t ∷ cs) = sent_messages cs
sent_messages (cancelled t ∷ cs) = sent_messages cs
sent_messages (left t ∷ cs) = sent_messages cs

sent_messages-append :
    (cs : List RouterCall) (t payload : Bytes)
    → sent_messages cs ≡ []
    → sent_messages (cs ++ (published t payload ∷ [])) ≡ (t, payload) ∷ []
sent_messages-append [] t payload h = refl
sent_messages-append (joined u ∷ cs) t payload h = sent_messages-append cs t payload h
sent_messages-append (subscribed u ∷ cs) t payload h = sent_messages-append cs t payload h
sent_messages-append (cancelled u ∷ cs) t payload h = sent_messages-append cs t payload h
sent_messages-append (left u ∷ cs) t payload h = sent_messages-append cs t payload h
sent_messages-append (published u p ∷ cs) t payload h = absurd (ground arith)

module _ {E : Type 0} where
  -- Nothing was sent or observed and there is an error, or the one message was, which is within the limit.
  abbrev pub SendsOnce :
      Bytes → Bytes → List Write → List (Bytes × Bytes) → Option (PublishError E) → Type 0
  SendsOnce name payload [] messages none = ⊥
  SendsOnce name payload [] messages (some e) = messages ≡ []
  SendsOnce name payload (w ∷ ws) messages o =
      (length payload ≤ max_payload_size)
      × (messages ≡ (name, payload) ∷ [])
      × (w ∷ ws ≡ observed_publish name payload ∷ [])

  abbrev pub Sends : Bytes → Bytes → Outcome E → Type 0
  Sends name payload o = SendsOnce name payload o.writes (sent_messages o.calls) o.error

  -- A join sends nothing.
  join_sends_nothing :
      (p : Publisher) (name : Bytes) (calls : JoinCalls E)
      → sent_messages (join p name calls).1.1 ≡ []
  unfolding join
  join_sends_nothing p name calls = state p.closed (has_topic p.topics name)
    where
      asked : (o q : Option E) → sent_messages (on_join p name q o).1.1 ≡ []
      asked (some e) q = refl
      asked none (some e) = refl
      asked none none = refl

      state : (b t : Bool) → sent_messages (on_state b t p name calls).1.1 ≡ []
      state true t = refl
      state false true = refl
      state false false = asked calls.join_error calls.subscribe_error

  -- A publication that ends before the router is asked to publish has an error, and neither sends nor
  -- observes anything; any other sends and observes its one message, which is within the limit of size.
  pub publish-Sends :
      (p : Publisher) (name payload : Bytes) (a : Publication E)
      → Sends name payload (publish p name payload a)
  unfolding publish
  publish-Sends p name payload a = elim (Bool-cases (ltb max_payload_size (length payload))) [
    | inl large ↦ rw large refl
    | inr fits ↦
        rw fits (
          joining (ground arith) (join p name a.join_calls)
            (join_sends_nothing p name a.join_calls))
  ]
    where
      hooked :
          length payload ≤ max_payload_size
          → (p' : Publisher) (cs : List RouterCall) (o : Option (Option E)) → sent_messages cs ≡ []
          → Sends name payload (on_hook a name payload p' cs o)
      hooked small p' cs (some (some e)) h = h
      hooked small p' cs (some none) h = (small, sent_messages-append cs name payload h, refl)
      hooked small p' cs none h = (small, sent_messages-append cs name payload h, refl)

      met :
          length payload ≤ max_payload_size
          → (p' : Publisher) (cs : List RouterCall) (r : Result (PublishError E) ℕ)
          → sent_messages cs ≡ []
          → Sends name payload (on_peers a name payload p' cs r)
      met small p' cs (err e) h = h
      met small p' cs (ok n) h = hooked small p' cs a.before_publish h

      joining :
          length payload ≤ max_payload_size
          → (r : Option (PublishError E) × (Publisher × List RouterCall)) → sent_messages r.1.1 ≡ []
          → Sends name payload (on_joined a name payload r)
      joining small (some e, (p', cs)) h = h
      joining small (none, (p', cs)) h =
          met small p' cs (wait_for_gossip_peer a.wait_for_peer a.peers a.polls) h

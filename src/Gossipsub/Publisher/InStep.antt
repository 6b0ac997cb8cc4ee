-- ===== src/Gossipsub/Publisher/InStep.antt =====
-- A publisher stays in step with the router over all its operations.
use raidan_sdk.Prelude.{
  ◌∙◌, if◌then◌else◌, Bool-cases, inl, inr, ltb, length, Bool, true, false, Option, none, some,
  List, [], ◌∷◌, ◌++◌, Bytes, ◌≡◌, refl,
}
use raidan_sdk.Prelude.Result.{Result}
use raidan_sdk.Gossipsub.Publisher.{
  RouterCall, Publisher, PublishError, new_publisher, JoinCalls, join, Publication, publish,
  Message, on_await, await, leave_all, on_close, close, max_payload_size,
}
use raidan_sdk.Gossipsub.Publisher.Once.{
  Connecting, no_router, publish_and_close, on_warmup, on_session, publish_once,
}
use raidan_sdk.Gossipsub.Publisher.Topics.{
  open_topics, InStep, Lands, Moves, Moves-InStep, join-Moves, publish-Moves, open_topics-leave_all,
}

-- The operations of a publisher, with what the router's calls return.
pub data Operation (E : Type 0) : Type 0 where
  publishes : Bytes → Bytes → Publication E → Operation E
  awaits : Bytes → JoinCalls E → List (Result E Message) → Operation E
  closes : (Bytes → Option E) → Operation E

module _ {E : Type 0} where
  -- The publisher behind an operation, and the calls of the router that it makes.
  abbrev pub perform : Operation E → Publisher → Publisher × List RouterCall
  perform (publishes name payload a) p = let o = publish p name payload a in (o.publisher, o.calls)
  perform (awaits name calls rs) p = (await p name calls rs).1
  perform (closes close_error) p = (close close_error p).1

  abbrev pub run : List (Operation E) → Publisher → List RouterCall → Publisher × List RouterCall
  run [] p log = (p, log)
  run (o ∷ os) p log = let (p', calls) = perform o p in run os p' (log ++ calls)

  await-Moves :
      (p : Publisher) (name : Bytes) (calls : JoinCalls E) (rs : List (Result E Message))
      → Moves p (await p name calls rs).1.0 (await p name calls rs).1.1
  unfolding await
  await-Moves p name calls rs d c = go (join p name calls) (join-Moves p name calls d c)
    where
      go :
          (r : Option (PublishError E) × (Publisher × List RouterCall))
          → Lands p.topics r.1.0 r.1.1
          → Lands p.topics (on_await rs r).1.0 (on_await rs r).1.1
      go (some e, (p', cs)) h = h
      go (none, (p', cs)) h = h

  close-Moves :
      (close_error : Bytes → Option E) (p : Publisher)
      → Moves p (close close_error p).1.0 (close close_error p).1.1
  unfolding close
  close-Moves close_error p d c = go p.closed c
    where
      go :
          (b : Bool)
          → (b ≡ true → p.topics ≡ [])
          → Lands p.topics
              (on_close b p (leave_all close_error p.topics)).1.0
              (on_close b p (leave_all close_error p.topics)).1.1
      go true h = (refl, d, c)
      go false h = (open_topics-leave_all close_error p.topics, tt, λ s. refl)

  perform-Moves : (o : Operation E) (p : Publisher) → Moves p (perform o p).0 (perform o p).1
  perform-Moves (publishes name payload a) p = publish-Moves p name payload a
  perform-Moves (awaits name calls rs) p = await-Moves p name calls rs
  perform-Moves (closes close_error) p = close-Moves close_error p

  run-Kept :
      (os : List (Operation E)) (p : Publisher) (log : List RouterCall)
      → InStep p log
      → InStep (run os p log).0 (run os p log).1
  run-Kept [] p log h = h
  run-Kept (o ∷ os) p log h =
      run-Kept os (perform o p).0 (log ++ (perform o p).1)
        (Moves-InStep p (perform o p).0 log (perform o p).1 h (perform-Moves o p))

  -- Whatever a new publisher is asked to publish, to await and to close, in whatever order and however
  -- the calls of the router end, the topics that were joined and not asked to be left are exactly the
  -- publisher's, each of them once, and a closed publisher has none.
  pub run-InStep :
      (self : Bytes) (os : List (Operation E))
      → InStep (run os (new_publisher self) []).0 (run os (new_publisher self) []).1
  unfolding new_publisher
  run-InStep self os = run-Kept os (new_publisher self) [] (refl, tt, λ s. refl)

  close-closed :
      (close_error : Bytes → Option E) (p : Publisher) → (close close_error p).1.0.closed ≡ true
  unfolding close
  close-closed close_error p = go p.closed refl
    where
      go :
          (b : Bool)
          → p.closed ≡ b
          → (on_close b p (leave_all close_error p.topics)).1.0.closed ≡ true
      go true h = h
      go false h = refl

  -- The package's `Publish` leaves each topic that it joined.
  pub publish_once-leaves :
      (c : Connecting E) (self name payload : Bytes) (a : Publication E)
      (close_error : Bytes → Option E)
      → open_topics (publish_once c self name payload a close_error).1 [] ≡ []
  unfolding publish_once
  publish_once-leaves c self name payload a close_error =
      elim (Bool-cases (ltb max_payload_size (length payload))) [
        | inl large ↦ rw large refl
        | inr fits ↦ rw fits (connected c.session_error)
      ]
    where
      both :
          open_topics
            ((publish (new_publisher self) name payload a).calls
              ++ (close close_error (publish (new_publisher self) name payload a).publisher).1.1)
            []
          ≡ []
      both =
          let (e, d, c') = run-InStep self (publishes name payload a ∷ closes close_error ∷ []) in
          e ∙ c' (close-closed close_error (publish (new_publisher self) name payload a).publisher)

      routed :
          (b : Bool)
          → open_topics
              (if b
                then publish_and_close close_error (publish (new_publisher self) name payload a)
                else (some no_router, [])).1
              []
            ≡ []
      routed true = both
      routed false = refl

      warmed :
          (o : Option E) → open_topics (on_warmup c self name payload a close_error o).1 [] ≡ []
      warmed (some e) = refl
      warmed none = routed c.has_router

      connected :
          (o : Option E) → open_topics (on_session c self name payload a close_error o).1 [] ≡ []
      connected (some e) = refl
      connected none = warmed (if c.handshake then c.handshake_error else none)

-- ===== src/Gossipsub/Publisher/Topics.antt =====
-- The topics of a publisher and those that the router has joined for it.
use raidan_sdk.Prelude.{
  ℕ, Bool, true, false, ◌||◌, Option, none, some, List, [], ◌∷◌, ◌++◌, Bytes, length, ltb,
  if◌then◌else◌, bytes_eq, bytes_eq_refl, bytes_eq_sym, Bool-cases, ◌≡◌, inl, inr, refl, ap, ◌∙◌,
  arith,
}
use raidan_sdk.Prelude.Result.{Result, ok, err}
use raidan_sdk.Gossipsub.Publisher.{
  RouterCall, joined, subscribed, cancelled, left, published, Publisher, PublishError, has_topic,
  JoinCalls, on_join, join, Publication, on_hook, on_peers, on_joined, publish,
  wait_for_gossip_peer, max_payload_size, on_state, leave_all,
}

-- A name taken out of a list, once.
abbrev pub without : Bytes → List Bytes → List Bytes
without name [] = []
without name (t ∷ ts) = if bytes_eq t name then ts else t ∷ without name ts

-- The topics that the router is in behind its calls: a topic is in from its join until it is left.
abbrev pub open_topics : List RouterCall → List Bytes → List Bytes
open_topics [] ts = ts
open_topics (joined t ∷ cs) ts = open_topics cs (ts ++ (t ∷ []))
open_topics (left t ∷ cs) ts = open_topics cs (without t ts)
open_topics (subscribed t ∷ cs) ts = open_topics cs ts
open_topics (cancelled t ∷ cs) ts = open_topics cs ts
open_topics (published t payload ∷ cs) ts = open_topics cs ts

-- No topic occurs twice.
abbrev pub Distinct : List Bytes → Type 0
Distinct [] = Unit {0}
Distinct (t ∷ ts) = (has_topic ts t ≡ false) × Distinct ts

open_topics-append :
    (cs ds : List RouterCall) (ts : List Bytes)
    → open_topics (cs ++ ds) ts ≡ open_topics ds (open_topics cs ts)
open_topics-append [] ds ts = refl
open_topics-append (joined t ∷ cs) ds ts = open_topics-append cs ds (ts ++ (t ∷ []))
open_topics-append (left t ∷ cs) ds ts = open_topics-append cs ds (without t ts)
open_topics-append (subscribed t ∷ cs) ds ts = open_topics-append cs ds ts
open_topics-append (cancelled t ∷ cs) ds ts = open_topics-append cs ds ts
open_topics-append (published t payload ∷ cs) ds ts = open_topics-append cs ds ts

without-new :
    (t : Bytes) (ts : List Bytes) → has_topic ts t ≡ false → without t (ts ++ (t ∷ [])) ≡ ts
unfolding has_topic
without-new t [] h = rw (bytes_eq_refl t) refl
without-new t (u ∷ ts) h =
    let other : bytes_eq u t ≡ false = ground arith in
    rw other (ap (λ (l : List Bytes). u ∷ l) (without-new t ts (ground arith)))

has_topic-append :
    (ts : List Bytes) (t u : Bytes)
    → has_topic (ts ++ (t ∷ [])) u ≡ (has_topic ts u || bytes_eq t u)
unfolding has_topic
has_topic-append [] t u = ground arith
has_topic-append (v ∷ ts) t u = ground (arith, has_topic-append ts t u)

Distinct-append :
    (ts : List Bytes) (t : Bytes) → Distinct ts → has_topic ts t ≡ false → Distinct (ts ++ (t ∷ []))
unfolding has_topic
Distinct-append [] t d h = (refl, tt)
Distinct-append (u ∷ ts) t d h =
    let other : bytes_eq t u ≡ false = bytes_eq_sym t u ∙ ground arith in
    (rw (has_topic-append ts t u, d.0, other) refl, Distinct-append ts t d.1 (ground arith))

leave_first :
    (t : Bytes) (ts : List Bytes) (cs : List RouterCall)
    → open_topics (cancelled t ∷ left t ∷ cs) (t ∷ ts) ≡ open_topics cs ts
leave_first t ts cs =
    ap (λ (b : Bool). open_topics cs (if b then ts else t ∷ without t ts)) (bytes_eq_refl t)

-- Leaving every topic leaves none open.
pub open_topics-leave_all :
    {E : Type 0} (close_error : Bytes → Option E) (ts : List Bytes)
    → open_topics (leave_all close_error ts).1 ts ≡ []
unfolding leave_all
open_topics-leave_all close_error [] = refl
open_topics-leave_all close_error (t ∷ ts) =
    leave_first t ts (leave_all close_error ts).1 ∙ open_topics-leave_all close_error ts

-- The router is in exactly the publisher's topics, each once; a closed publisher has none.
abbrev pub InStep : Publisher → List RouterCall → Type 0
InStep p calls =
    (open_topics calls [] ≡ p.topics) × Distinct p.topics × (p.closed ≡ true → p.topics ≡ [])

-- The calls from the old topics `ts` on lead to the publisher's.
abbrev pub Lands : List Bytes → Publisher → List RouterCall → Type 0
Lands ts p calls =
    (open_topics calls ts ≡ p.topics) × Distinct p.topics × (p.closed ≡ true → p.topics ≡ [])

-- What an operation adds to the calls takes the router from the publisher's old topics to its new ones.
abbrev pub Moves : Publisher → Publisher → List RouterCall → Type 0
Moves p p' calls = Distinct p.topics → (p.closed ≡ true → p.topics ≡ []) → Lands p.topics p' calls

pub Moves-InStep :
    (p p' : Publisher) (log calls : List RouterCall)
    → InStep p log
    → Moves p p' calls
    → InStep p' (log ++ calls)
Moves-InStep p p' log calls (e, d, c) m =
    let (e', d', c') = m d c in
    (open_topics-append log calls [] ∙ ap (open_topics calls) e ∙ e', d', c')

module _ {E : Type 0} where
  pub join-Moves :
      (p : Publisher) (name : Bytes) (calls : JoinCalls E)
      → Moves p (join p name calls).1.0 (join p name calls).1.1
  unfolding join
  join-Moves p name calls d c = state p.closed (has_topic p.topics name) refl refl
    where
      -- Behind a join that the router was asked for.
      asked :
          (o q : Option E)
          → p.closed ≡ false
          → has_topic p.topics name ≡ false
          → Lands p.topics (on_join p name q o).1.0 (on_join p name q o).1.1
      asked (some e) q live new = (refl, d, λ s. absurd (ground arith))
      asked none (some e) live new = (without-new name p.topics new, d, λ s. absurd (ground arith))
      asked none none live new =
          (refl, Distinct-append p.topics name d new, λ s. absurd (ground arith))

      state :
          (b t : Bool)
          → p.closed ≡ b
          → has_topic p.topics name ≡ t
          → Lands p.topics (on_state b t p name calls).1.0 (on_state b t p name calls).1.1
      state true t shut there = (refl, d, c)
      state false true live there = (refl, d, c)
      state false false live new = asked calls.join_error calls.subscribe_error live new

  -- A publication adds to the calls of its join none that joins or leaves a topic.
  pub publish-Moves :
      (p : Publisher) (name payload : Bytes) (a : Publication E)
      → Moves p (publish p name payload a).publisher (publish p name payload a).calls
  unfolding publish
  publish-Moves p name payload a d c = elim (Bool-cases (ltb max_payload_size (length payload))) [
    | inl large ↦ rw large (refl, d, c)
    | inr fits ↦ rw fits (joining (join p name a.join_calls) (join-Moves p name a.join_calls d c))
  ]
    where
      joining :
          (r : Option (PublishError E) × (Publisher × List RouterCall))
          → Lands p.topics r.1.0 r.1.1
          → Lands p.topics (on_joined a name payload r).publisher (on_joined a name payload r).calls
      joining (some e, (p', calls)) h = h
      joining (none, (p', calls)) h = met (wait_for_gossip_peer a.wait_for_peer a.peers a.polls)
        where
          sent : Lands p.topics p' (calls ++ (published name payload ∷ []))
          sent = (open_topics-append calls (published name payload ∷ []) p.topics ∙ h.0, h.1, h.2)

          hooked :
              (o : Option (Option E))
              → Lands p.topics
                  (on_hook a name payload p' calls o).publisher
                  (on_hook a name payload p' calls o).calls
          hooked (some (some e)) = h
          hooked (some none) = sent
          hooked none = sent

          met :
              (r : Result (PublishError E) ℕ)
              → Lands p.topics
                  (on_peers a name payload p' calls r).publisher
                  (on_peers a name payload p' calls r).calls
          met (err e) = h
          met (ok n) = hooked a.before_publish

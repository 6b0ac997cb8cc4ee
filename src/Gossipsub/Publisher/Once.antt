-- ===== src/Gossipsub/Publisher/Once.antt =====
-- gossipsub/publish.go: the package's `Publish`, with a session and a publisher of its own.
use raidan_sdk.Prelude.{
  ℕ, Bool, Option, none, some, List, [], ◌++◌, Bytes, length, ltb, if◌then◌else◌,
}
use raidan_sdk.Gossipsub.Publisher.{
  max_payload_size, RouterCall, PublishError, new_publisher, Publication, Outcome, publish, close,
}

-- The package's `Publish`: the errors of its session and of the handshake on it, and where the session has
-- a router.
pub record Connecting (E : Type 0) : Type 0 where
  pub session_error : Option E
  pub handshake : Bool
  pub handshake_error : Option E
  pub has_router : Bool

pub data ConnectError (E : Type 0) : Type 0 where
  payload_too_large : ℕ → ConnectError E
  session_failed warmup_failed : E → ConnectError E
  no_router : ConnectError E
  not_published : PublishError E → ConnectError E

module _ {E : Type 0} where
  abbrev pub connect_error : Option (PublishError E) → Option (ConnectError E)
  connect_error none = none
  connect_error (some e) = some (not_published e)

  -- The publication, and the calls of it and of the close behind it.
  abbrev pub publish_and_close :
      (Bytes → Option E) → Outcome E → Option (ConnectError E) × List RouterCall
  publish_and_close close_error o =
      (connect_error o.error, o.calls ++ (close close_error o.publisher).1.1)

  abbrev pub on_warmup :
      Connecting E
      → Bytes
      → Bytes
      → Bytes
      → Publication E
      → (Bytes → Option E)
      → Option E
      → Option (ConnectError E) × List RouterCall
  on_warmup c self name payload a close_error (some e) = (some (warmup_failed e), [])
  on_warmup c self name payload a close_error none =
      if c.has_router
      then publish_and_close close_error (publish (new_publisher self) name payload a)
      else (some no_router, [])

  abbrev pub on_session :
      Connecting E
      → Bytes
      → Bytes
      → Bytes
      → Publication E
      → (Bytes → Option E)
      → Option E
      → Option (ConnectError E) × List RouterCall
  on_session c self name payload a close_error (some e) = (some (session_failed e), [])
  on_session c self name payload a close_error none =
      on_warmup c self name payload a close_error (if c.handshake then c.handshake_error else none)

  unfoldable pub publish_once :
      Connecting E
      → Bytes
      → Bytes
      → Bytes
      → Publication E
      → (Bytes → Option E)
      → Option (ConnectError E) × List RouterCall
  publish_once c self name payload a close_error =
      if ltb max_payload_size (length payload)
      then (some (payload_too_large (length payload)), [])
      else on_session c self name payload a close_error c.session_error

-- ===== src/Gossipsub/Rpc.antt =====
-- gossipsub/rpc.go, gossipsub/rpc_builder.go and gossipsub/topic.go: raw RPC frames and topic names. The
-- host, the stream and the protobuf encoder are parameters; an error is of a type `E`.
pub mod Framed
mod Runs
use raidan_sdk.Prelude.{
  ℕ, zero, suc, ◌+◌, Bool, true, false, not, Option, none, some, List, [], ◌∷◌, ◌++◌, Bytes, codes,
  length, ◌==◌, if◌then◌else◌,
}
use raidan_sdk.Prelude.Result.{Result, ok, err, ◌>>=◌}
use raidan_sdk.Session.{Write}
use raidan_sdk.Uvarint.{append_uvarint}
use raidan_sdk.Reqresp.Framing.Body.{WriteError, Written, write_full}

pub data RpcError (E : Type 0) : Type 0 where
  empty_peer no_time : RpcError E
  open_failed deadline_failed close_failed : E → RpcError E
  length_not_written rpc_not_written : WriteError E → RpcError E

-- What the host and the stream do, `none` for no error. The stream's writer, at the length and at the RPC,
-- takes a count of bytes of what it is given; a count below 0 would end like one beyond the buffer.
pub record StreamCalls (E : Type 0) : Type 0 where
  pub time_left : Bool
  pub open_error : Option E
  pub deadline_error : Option E
  pub protocol : Bytes
  pub write_length : Bytes → ℕ × Option E
  pub write_body : Bytes → ℕ × Option E
  pub close_error : Option E

-- How a send ends: its error, what the stream took, what was observed, and whether the stream was reset.
pub record SentRpc (E : Type 0) : Type 0 where
  pub error : Option (RpcError E)
  pub wire : Bytes
  pub writes : List Write
  pub reset : Bool

abbrev pub observed_rpc : Bytes → Bytes → Write
observed_rpc protocol_id rpc = record {
  protocol = codes "gossipsub";
  code = 0;
  protocol_id = protocol_id;
  topic = [];
  payload = rpc;
  raw = true;
}

module _ {E : Type 0} where
  abbrev pub on_deadline : Option E → Option (RpcError E) × Bool
  on_deadline none = (none, false)
  on_deadline (some e) = (some (deadline_failed e), true)

  abbrev pub on_open : StreamCalls E → Option E → Option (RpcError E) × Bool
  on_open calls (some e) = (some (open_failed e), false)
  on_open calls none = on_deadline calls.deadline_error

  -- The error of `OpenRPCStream`, and whether it reset the stream.
  unfoldable pub open_rpc_stream : Bytes → StreamCalls E → Option (RpcError E) × Bool
  open_rpc_stream [] calls = (some empty_peer, false)
  open_rpc_stream (b ∷ peer_id) calls =
      if not calls.time_left then (some no_time, false) else on_open calls calls.open_error

  -- `writeRPC`.
  abbrev pub write_rpc : (Bytes → ℕ × Option E) → Bytes → Written E
  write_rpc write payload = write_full write payload

  abbrev pub on_closed : Bytes → List Write → Option E → SentRpc E
  on_closed wire writes (some e) = record {
    error = some (close_failed e);
    wire = wire;
    writes = writes;
    reset = true;
  }
  on_closed wire writes none = record { error = none; wire = wire; writes = writes; reset = false }

  abbrev pub on_body :
      StreamCalls E → Bytes → List Write → Bytes → Option (WriteError E) → SentRpc E
  on_body calls prefix writes body (some e) = record {
    error = some (rpc_not_written e);
    wire = prefix ++ body;
    writes = writes;
    reset = true;
  }
  on_body calls prefix writes body none = on_closed (prefix ++ body) writes calls.close_error

  abbrev pub on_prefix :
      StreamCalls E → Bytes → List Write → Bytes → Option (WriteError E) → SentRpc E
  on_prefix calls rpc writes prefix (some e) = record {
    error = some (length_not_written e);
    wire = prefix;
    writes = writes;
    reset = true;
  }
  on_prefix calls rpc writes prefix none =
      on_body calls prefix writes (write_rpc calls.write_body rpc).wire
        (write_rpc calls.write_body rpc).error

  abbrev pub on_stream : StreamCalls E → Bytes → Option (RpcError E) × Bool → SentRpc E
  on_stream calls rpc (some e, reset) = record {
    error = some e;
    wire = [];
    writes = [];
    reset = reset;
  }
  on_stream calls rpc (none, reset) =
      let prefix = write_rpc calls.write_length (append_uvarint [] (length rpc)) in
      on_prefix calls rpc (observed_rpc calls.protocol rpc ∷ []) prefix.wire prefix.error

  unfoldable pub send_rpc : Bytes → StreamCalls E → Bytes → SentRpc E
  send_rpc peer_id calls rpc = on_stream calls rpc (open_rpc_stream peer_id calls)

pub data BuildError (E : Type 0) : Type 0 where
  empty_topic_at : ℕ → BuildError E
  empty_publish_topic : BuildError E
  not_marshalled : E → BuildError E

-- `proto.Marshal` of the subscriptions and of one message.
pub record Marshal (E : Type 0) : Type 0 where
  pub subscriptions : List (Bool × Bytes) → Result E Bytes
  pub message : Bytes → Bytes → Result E Bytes

-- The subscriptions, or the index of an empty topic.
unfoldable pub subscription_list : ℕ → Bool → List Bytes → Result ℕ (List (Bool × Bytes))
subscription_list i subscribe [] = ok []
subscription_list i subscribe ([] ∷ ts) = err i
subscription_list i subscribe ((b ∷ t) ∷ ts) =
    subscription_list (i + 1) subscribe ts >>= λ ss. ok ((subscribe, b ∷ t) ∷ ss)

module _ {E : Type 0} (m : Marshal E) where
  abbrev pub marshalled : Result E Bytes → Result (BuildError E) Bytes
  marshalled (ok bs) = ok bs
  marshalled (err e) = err (not_marshalled e)

  abbrev pub on_subscriptions : Result ℕ (List (Bool × Bytes)) → Result (BuildError E) Bytes
  on_subscriptions (err i) = err (empty_topic_at i)
  on_subscriptions (ok ss) = marshalled (m.subscriptions ss)

  unfoldable pub encode_subscriptions : List Bytes → Bool → Result (BuildError E) Bytes
  encode_subscriptions topics subscribe = on_subscriptions (subscription_list 0 subscribe topics)

  unfoldable pub encode_publish : Bytes → Bytes → Result (BuildError E) Bytes
  encode_publish [] payload = err empty_publish_topic
  encode_publish (b ∷ topic) payload = marshalled (m.message (b ∷ topic) payload)

-- `strings.Trim` of slashes.
unfoldable pub trim_slashes_left : Bytes → Bytes
trim_slashes_left [] = []
trim_slashes_left (c ∷ s) = if c == 47 then trim_slashes_left s else c ∷ s

abbrev before_slashes : ℕ → Bytes → Bytes
before_slashes c [] = if c == 47 then [] else c ∷ []
before_slashes c (d ∷ s) = c ∷ d ∷ s

unfoldable pub trim_slashes_right : Bytes → Bytes
trim_slashes_right [] = []
trim_slashes_right (c ∷ s) = before_slashes c (trim_slashes_right s)

unfoldable pub topic_name : Bytes → Bytes → Bytes
topic_name fork_digest_hex topic =
    codes "/eth2/"
    ++ (fork_digest_hex
        ++ (codes "/"
            ++ (trim_slashes_right (trim_slashes_left topic) ++ (codes "/" ++ codes "ssz_snappy"))))

-- ===== src/Gossipsub/Rpc/Runs.antt =====
-- Runs of raw RPC frames and topic names.
use raidan_sdk.Prelude.{ℕ, true, false, none, some, [], ◌∷◌, codes, length, take, ◌≡◌, refl, arith}
use raidan_sdk.Prelude.Result.{ok, err}
use raidan_sdk.Uvarint.{append_uvarint, groups}
use raidan_sdk.Reqresp.Framing.Body.{write_full, write_full_rounds}
use raidan_sdk.Gossipsub.Rpc.{
  no_time, empty_topic_at, StreamCalls, open_rpc_stream, send_rpc, Marshal, subscription_list,
  encode_subscriptions, trim_slashes_left, trim_slashes_right, topic_name,
}
use raidan_sdk.Gossipsub.Rpc.Framed.{Frames, send_rpc-Frames}

-- A stream that takes two bytes a call.
abbrev stream : StreamCalls ℕ
stream = record {
  time_left = true;
  open_error = none;
  deadline_error = none;
  protocol = codes "/meshsub/1.1.0";
  write_length = λ b. (length (take 2 b), none);
  write_body = λ b. (length (take 3 b), none);
  close_error = none;
}

sends : (send_rpc (codes "peer") stream (9 ∷ 8 ∷ 7 ∷ [])).wire ≡ 3 ∷ 9 ∷ 8 ∷ 7 ∷ []
unfolding send_rpc open_rpc_stream write_full write_full_rounds append_uvarint groups
sends = refl

late : (send_rpc (codes "peer") (record stream { time_left = false }) (9 ∷ [])).error ≡ some no_time
unfolding send_rpc open_rpc_stream
late = refl

abbrev marshal : Marshal ℕ
marshal = record { subscriptions = λ ss. ok []; message = λ t p. ok p }

nameless : encode_subscriptions marshal (codes "a" ∷ [] ∷ []) true ≡ err (empty_topic_at 1)
unfolding encode_subscriptions subscription_list
nameless = refl

named :
    topic_name (codes "01020304") (codes "/beacon_block/")
    ≡ codes "/eth2/01020304/beacon_block/ssz_snappy"
unfolding topic_name trim_slashes_left trim_slashes_right
named = refl

send_rpc-Frames_example : Frames (9 ∷ 8 ∷ 7 ∷ []) (send_rpc (codes "peer") stream (9 ∷ 8 ∷ 7 ∷ []))
send_rpc-Frames_example = send_rpc-Frames (codes "peer") stream (9 ∷ 8 ∷ 7 ∷ []) (omega arith)

-- ===== src/Eth/Status/Runs.antt =====
-- Runs of the Status exchange, over a codec that writes the numbers of a Status in a row.
use raidan_sdk.Prelude.{
  ℕ, ◌≡◌, true, none, some, [], ◌∷◌, ◌++◌, Bytes, length, take, drop, take-append, drop-append,
  refl, sym, ap, ◌∙◌, arith,
}
use raidan_sdk.Prelude.Result.{Result, ok, err}
use raidan_sdk.Rpc.ForkId.{
  ChainParams, compute_fork_id, fork_sums, checksum_update, checksum_to_bytes, crc_update,
  crc_bytes, crc_byte, crc_bit, big_endian, has_sum,
}
use raidan_sdk.Rlpx.Disconnect.{RlpStream}
use raidan_sdk.Eth.Conn.{ping_msg, pong_msg}
use raidan_sdk.Eth.Wire.{received}
use raidan_sdk.Eth.Dial.{zero_fork_id}
use raidan_sdk.Eth.Status.{
  Status68, StatusPacket, StatusCodec, Params, version_mismatch, encode_status, judge_status,
  validate_status_identity, retry_fork_id, exchange_loop,
}
use raidan_sdk.Eth.Status.Judgement.{Verdict, judge_status-Verdict}
use raidan_sdk.Eth.Status.Agreement.{
  Faithful, Fetched, CanJudge, Announces, exchange_loop-encode_status,
}

abbrev write68 : Status68 → Result ℕ Bytes
write68 s = ok (
    s.protocol_version
    ∷ s.network_id
    ∷ s.td
    ∷ s.fork_id.next
    ∷ length s.head
    ∷ length s.genesis
    ∷ (s.head ++ (s.genesis ++ s.fork_id.hash)))

abbrev read68 : Bytes → Result ℕ Status68
read68 (v ∷ n ∷ td ∷ next ∷ h ∷ g ∷ rest) = ok (record {
  protocol_version = v;
  network_id = n;
  td = td;
  head = take h rest;
  genesis = take g (drop h rest);
  fork_id = record { hash = drop g (drop h rest); next = next };
})
read68 _ = err 0

abbrev write_packet : StatusPacket → Result ℕ Bytes
write_packet s = ok (
    s.protocol_version
    ∷ s.network_id
    ∷ s.earliest_block
    ∷ s.latest_block
    ∷ s.fork_id.next
    ∷ length s.latest_block_hash
    ∷ length s.genesis
    ∷ (s.latest_block_hash ++ (s.genesis ++ s.fork_id.hash)))

abbrev read_packet : Bytes → Result ℕ StatusPacket
read_packet (v ∷ n ∷ from ∷ to ∷ next ∷ h ∷ g ∷ rest) = ok (record {
  protocol_version = v;
  network_id = n;
  genesis = take g (drop h rest);
  fork_id = record { hash = drop g (drop h rest); next = next };
  earliest_block = from;
  latest_block = to;
  latest_block_hash = take h rest;
})
read_packet _ = err 0

abbrev codec : StatusCodec ℕ
codec = record {
  encode68 = write68;
  decode68 = read68;
  encode_packet = write_packet;
  decode_packet = read_packet;
}

read_written68 :
    (s : Status68)
    → read68 (
        s.protocol_version
        ∷ s.network_id
        ∷ s.td
        ∷ s.fork_id.next
        ∷ length s.head
        ∷ length s.genesis
        ∷ (s.head ++ (s.genesis ++ s.fork_id.hash)))
      ≡ ok s
read_written68 s =
    rw
      (
        take-append s.head (s.genesis ++ s.fork_id.hash),
        drop-append s.head (s.genesis ++ s.fork_id.hash),
        take-append s.genesis s.fork_id.hash,
        drop-append s.genesis s.fork_id.hash,
      )
      refl

read_written_packet :
    (s : StatusPacket)
    → read_packet (
        s.protocol_version
        ∷ s.network_id
        ∷ s.earliest_block
        ∷ s.latest_block
        ∷ s.fork_id.next
        ∷ length s.latest_block_hash
        ∷ length s.genesis
        ∷ (s.latest_block_hash ++ (s.genesis ++ s.fork_id.hash)))
      ≡ ok s
read_written_packet s =
    rw
      (
        take-append s.latest_block_hash (s.genesis ++ s.fork_id.hash),
        drop-append s.latest_block_hash (s.genesis ++ s.fork_id.hash),
        take-append s.genesis s.fork_id.hash,
        drop-append s.genesis s.fork_id.hash,
      )
      refl

abbrev payload_of : Result ℕ Bytes → Bytes
payload_of (ok bs) = bs
payload_of (err e) = []

codec-Faithful : Faithful codec
codec-Faithful = (
  λ s bs h. ap read68 (sym (ap payload_of h)) ∙ read_written68 s,
  λ s bs h. ap read_packet (sym (ap payload_of h)) ∙ read_written_packet s,
)

abbrev chain : ChainParams
chain = record {
  genesis = 7 ∷ [];
  head_number = 150;
  head_time = 1700000000;
  fork_blocks = 100 ∷ 200 ∷ [];
  fork_times = 1710000000 ∷ [];
}

abbrev ours : Params
ours = record {
  network_id = 5;
  head_hash = 9 ∷ [];
  fork_id =
      compute_fork_id (7 ∷ []) 150 1700000000
        (record { blocks = 100 ∷ 200 ∷ []; times = 1710000000 ∷ [] });
  chain = chain;
}

-- The same chain at a later head, behind two of the forks more.
abbrev theirs : Params
theirs = record {
  network_id = 5;
  head_hash = 8 ∷ [];
  fork_id =
      compute_fork_id (7 ∷ []) 250 1720000000
        (record { blocks = 100 ∷ 200 ∷ []; times = 1710000000 ∷ [] });
  chain = record chain { head_number = 250; head_time = 1720000000 };
}

theirs-Fetched : Fetched theirs
theirs-Fetched = (refl, λ e. absurd (ground (arith, ap length e)))

chain-CanJudge : CanJudge chain
unfolding fork_sums checksum_update checksum_to_bytes crc_update crc_bytes crc_byte crc_bit
    big_endian has_sum
chain-CanJudge =
    ((omega arith, (omega arith, tt)), omega arith, omega arith, (refl, (refl, (refl, (refl, tt)))))

abbrev theirs_sent : Bytes
theirs_sent = 70 ∷ 5 ∷ 0 ∷ 250 ∷ theirs.fork_id.next ∷ 1 ∷ 1 ∷ 8 ∷ 7 ∷ theirs.fork_id.hash

they_send : encode_status codec 70 theirs ≡ ok theirs_sent
unfolding encode_status
they_send = refl

abbrev sent : Bytes
sent = 70 ∷ 5 ∷ 0 ∷ 150 ∷ ours.fork_id.next ∷ 1 ∷ 1 ∷ 9 ∷ 7 ∷ ours.fork_id.hash

sends : encode_status codec 70 ours ≡ ok sent
unfolding encode_status
sends = refl

abbrev stream : RlpStream
stream = record { is_list = λ bs. ok true; decode = λ bs. err []; decode_in_list = λ bs. err [] }

-- A peer of another version.
refuses : judge_status codec 71 sent ours ≡ (zero_fork_id, some (version_mismatch 70))
unfolding judge_status validate_status_identity retry_fork_id
refuses = refl

judge_status-Verdict_example : Verdict codec 71 sent ours (judge_status codec 71 sent ours)
judge_status-Verdict_example = judge_status-Verdict codec 71 sent ours

exchange_loop-encode_status_example :
    (exchange_loop codec stream 70 16 ours
        (received ping_msg [] none ∷ received pong_msg [] none ∷ received 16 theirs_sent none ∷ [])
      ≡ record { answer = some none; pongs = 1 })
    × Announces codec 70 theirs_sent theirs
exchange_loop-encode_status_example =
    exchange_loop-encode_status codec codec-Faithful stream 70 16 theirs ours theirs_sent
      (received ping_msg [] none ∷ received pong_msg [] none ∷ []) [] none (omega arith)
      (omega arith) theirs-Fetched (refl, refl, refl, refl) chain-CanJudge they_send
      (
        ((omega arith, (omega arith, tt)), λ e. refl),
        (((omega arith, (omega arith, tt)), λ e. refl), tt),
      )

-- ===== src/Lib.antt =====
-- A model of the raidan SDK, a Go library of Ethereum wire protocols for tests against live clients.
--
-- The program is a set of packages over a session: each protocol dials a peer, frames what the caller
-- gives it, reports every write to the observer of the context, and reads the answers within bounds.
-- The files here model the parts that decide what goes over the wire and what is accepted from it:
--
--   Prelude    byte strings, lists, texts, Boolean tests, bit operations and results that the parts share.
--   Uvarint    the varints of Go's encoding/binary, which mplex and reqresp stand on.
--   Session    session/scope.go, session/observer.go, session/time.go: the scope that a context
--              carries (`with_scope` is `With`), the report of a write (`observe_write`) and the time
--              left (`remaining`).
--   Mplex      mplex/mplex.go: `send_frame` is `Frame`, `send` and `parse` have their names, `drain` is
--              `Drain`, a fold of `absorb` over what the reads returned.
--   Reqresp    reqresp/framing.go and reqresp/inbound.go in Framing (`next` is the reader's `Next`, and
--              Framing/Body has `writeFull` and `ReadSSZSnappy`);
--              reqresp/request.go in Exchange (`request` is the session's `request`) and in
--              Exchange/Retry (the package functions `Request` and `RequestChunks`);
--              reqresp/status.go in Spec (`consensus_config` and `blob_parameters`) and in Status
--              (`beacon_status` and `status_warmup` have the source's names); the SSZ of the requests in
--              Ssz.
--   Eth        eth/caps.go in Caps; eth/conn.go in Conn: the negotiation, the sends, the background
--              reader (`read_round` is one round of `readMessages`) and the waits on its queue. The
--              interleavings of the reader with the consumers are the lists of actions in Conn/Reader.
--              Dial has the raw dial and `DialWithKey` with its retry. Status has eth/status.go, Wire the
--              waits of eth/wait.go and eth/request.go, and PreStatus `DialPreStatusWithKey` and the
--              `DialReady` of eth/ready.go, which composes it with the exchange of Status.
--   Snap       snap/requests.go: the wait for a request on an ETH connection, and its table of codes.
--   Wit        wit/conn.go: the dial behind an ETH connection, the send and the read loop.
--   Rlp        wire.go: the RLP of byte strings and of lists.
--   Rlpx       rlpx/conn.go in Frame: `write_frame` is `frameWriter.write`, `write_message` is `Conn.Write`,
--              and Frame/Format is a reader of the format that shares no code with them;
--              rlpx/disconnect.go in Disconnect.
--   Discovery  discovery/dnsdisc.go in Dnsdisc, with the root, link and entry checks in Dnsdisc/Records and
--              `ValidateDNSBranchWalk` in Dnsdisc/Walk; the challenge of discovery/discv5_whoareyou.go, with
--              discovery/udp_read.go and the packets of discovery/discv5_packet.go, in Discv5.
--   Gossipsub  gossipsub/publish.go in Publisher, whose operations list the calls that they make of the
--              router; gossipsub/rpc.go, gossipsub/rpc_builder.go and gossipsub/topic.go in Rpc.
--   Rpc        rpc/chainparams.go: the fork schedule, the fork ID and its check in ForkId; the cache of
--              chain parameters in Cache.
--
-- State is passed explicitly: an operation takes the record of a connection, a reader or a cache and
-- returns the next one. The peers, sockets, clocks and libraries are parameters: what each of their calls
-- returned is an argument. An integer of w bits wraps where the source's does, written out.
--
-- Bounds and fuel. The split of the mplex buffer into frames runs on as many rounds as the buffer has
-- bytes, and each frame takes at least two. The varint reader has the source's ten rounds. The loop over
-- response chunks has one round more than the ceiling of chunks, since each chunk counts. The retries
-- have the source's three attempts. A full write has a round for each byte. The walk over DNS branches
-- recurses on the depths to go.
--
-- Assumed of the snappy codec (`SnappyLaws` in Reqresp/Framing/Limits): a read of n bytes gives n; what
-- was compressed decompresses, taking the bytes of the frames and no more; and the frames have the
-- overhead that the format documents. Reqresp/Framing/Stored is a codec that keeps these laws.
--
-- Assumed of the RLP codec of a Status (`Faithful` in Eth/Status/Agreement): it decodes what it encoded. Of
-- the ciphers of a frame (`Sound` in Rlpx/Frame/Format): the keystream keeps the length and takes itself
-- off again, the hash is 32 bytes long, and the block cipher makes a block of the first 16 bytes that it is
-- given. Of SHA-256 (in Reqresp/Status/Layout): a digest has 32 bytes. Of the mask of discv5 (`IsMask` in
-- Discovery/Discv5/Challenge): it keeps the length and takes itself off again. The Runs files have
-- instances of all four.
--
-- Not modelled: the dialling and the cryptography of the transports (libp2p, Noise, RLPx, discv4 and
-- discv5), which are libraries' or stand on them; the typed messages, which are records that a library
-- encodes; the HTTP and JSON of the RPC calls; timers, beyond the case that a wait took.
pub mod Prelude
pub mod Uvarint
pub mod Session
pub mod Mplex
pub mod Reqresp
pub mod Eth
pub mod Rpc
pub mod Discovery
pub mod Gossipsub
pub mod Rlp
pub mod Rlpx
pub mod Snap
pub mod Wit

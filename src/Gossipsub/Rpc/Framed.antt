-- ===== src/Gossipsub/Rpc/Framed.antt =====
-- What a stream gets of an RPC.
use raidan_sdk.Prelude.{
  ℕ, ◌^◌, ◌<◌, Bool, true, false, Option, none, some, List, [], ◌∷◌, ◌++◌, append-nil, append_assoc,
  Bytes, length, drop, drop-append_eq, ◌≡◌, ◌≢◌, refl, sym, ap, ◌∙◌,
}
use raidan_sdk.Session.{Write}
use raidan_sdk.Uvarint.{value, append_uvarint, uvarint}
use raidan_sdk.Uvarint.RoundTrip.{uvarint-append_uvarint}
use raidan_sdk.Reqresp.Framing.Body.{
  WriteError, write_full, Completes, out_of_rounds, write_full-Completes, invalid_count,
  write_failed, short_write,
}
use raidan_sdk.Gossipsub.Rpc.{
  RpcError, StreamCalls, SentRpc, observed_rpc, open_rpc_stream, on_closed, on_body, on_prefix,
  on_stream, send_rpc,
}

-- The frame of an RPC on the wire.
abbrev pub rpc_frame : Bytes → Bytes
rpc_frame rpc = append_uvarint [] (length rpc) ++ rpc

-- The length and the RPC behind it are read back from a whole frame.
whole-frame :
    (rpc wire : Bytes)
    → length rpc < 2 ^ 64
    → wire ≡ rpc_frame rpc
    → (n : ℕ) × (uvarint wire ≡ value (length rpc) n) × (drop n wire ≡ rpc)
whole-frame rpc wire small e = (
  length (append_uvarint [] (length rpc)),
  ap uvarint e ∙ uvarint-append_uvarint (length rpc) rpc small,
  ap (drop (length (append_uvarint [] (length rpc)))) e
      ∙ drop-append_eq _ (append_uvarint [] (length rpc)) rpc refl,
)

module _ {E : Type 0} where
  -- Without an error the length that the stream begins with is that of the RPC, the RPC is what follows it,
  -- and the stream is not reset; with an error the stream has a front of the frame, and is reset if it has
  -- any of it.
  abbrev pub FramesOrFails : Bytes → Option (RpcError E) → Bytes → Bool → Type 0
  FramesOrFails rpc none wire reset =
      (n : ℕ) × (uvarint wire ≡ value (length rpc) n) × (drop n wire ≡ rpc) × (reset ≡ false)
  FramesOrFails rpc (some e) wire reset =
      ((rest : Bytes) × (wire ++ rest ≡ rpc_frame rpc)) × (wire ≢ [] → reset ≡ true)

  abbrev pub Frames : Bytes → SentRpc E → Type 0
  Frames rpc s = FramesOrFails rpc s.error s.wire s.reset

  -- A write that fails has written a front.
  front :
      (p wire : Bytes) (e : WriteError E)
      → Completes p wire (some e)
      → (rest : Bytes) × (wire ++ rest ≡ p)
  front p wire out_of_rounds h = absurd h
  front p wire (invalid_count n) h = h
  front p wire (write_failed e) h = h
  front p wire short_write h = h

  -- However the host, the stream and its writer behave, `SendRPC` of fewer than 2^64 bytes that reports no
  -- error has put a frame on the stream whose length reads back as that of the RPC and is followed by the
  -- RPC, and has not reset the stream; one that reports an error has put a front of the frame there, and
  -- has reset the stream if that is not empty.
  pub send_rpc-Frames :
      (peer_id : Bytes) (calls : StreamCalls E) (rpc : Bytes)
      → length rpc < 2 ^ 64
      → Frames rpc (send_rpc peer_id calls rpc)
  unfolding send_rpc
  send_rpc-Frames peer_id calls rpc small = streamed (open_rpc_stream peer_id calls)
    where
      closed :
          (wire : Bytes) (ws : List Write) (o : Option E)
          → wire ≡ rpc_frame rpc
          → Frames rpc (on_closed wire ws o)
      closed wire ws (some e) h = (([], append-nil wire ∙ h), λ k. refl)
      closed wire ws none h = let (n, u, d) = whole-frame rpc wire small h in (n, u, d, refl)

      body :
          (head : Bytes) (ws : List Write) (wire : Bytes) (o : Option (WriteError E))
          → head ≡ append_uvarint [] (length rpc)
          → Completes rpc wire o
          → Frames rpc (on_body calls head ws wire o)
      body head ws wire none h c =
          closed (head ++ wire) ws calls.close_error
            (ap (λ (w : Bytes). head ++ w) c ∙ ap (λ (x : Bytes). x ++ rpc) h)
      body head ws wire (some e) h c =
          let (rest, k) = front rpc wire e c in
          (
            (
              rest,
              append_assoc head wire rest
                  ∙ ap (λ (w : Bytes). head ++ w) k
                  ∙ ap (λ (x : Bytes). x ++ rpc) h,
            ),
            λ q. refl,
          )

      headed :
          (ws : List Write) (wire : Bytes) (o : Option (WriteError E))
          → Completes (append_uvarint [] (length rpc)) wire o
          → Frames rpc (on_prefix calls rpc ws wire o)
      headed ws wire none c =
          body wire ws (write_full calls.write_body rpc).wire
            (write_full calls.write_body rpc).error c (write_full-Completes calls.write_body rpc)
      headed ws wire (some e) c =
          let (rest, k) = front (append_uvarint [] (length rpc)) wire e c in
          (
            (rest ++ rpc, sym (append_assoc wire rest rpc) ∙ ap (λ (x : Bytes). x ++ rpc) k),
            λ q. refl,
          )

      streamed : (r : Option (RpcError E) × Bool) → Frames rpc (on_stream calls rpc r)
      streamed (some e, reset) = ((rpc_frame rpc, refl), λ k. absurd (k refl))
      streamed (none, reset) =
          headed (observed_rpc calls.protocol rpc ∷ []) _ _
            (write_full-Completes calls.write_length (append_uvarint [] (length rpc)))

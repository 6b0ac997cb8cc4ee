-- ===== src/Reqresp/Status/Layout.antt =====
-- The layout of the Status bodies.
use raidan_sdk.Prelude.{
  ℕ, ◌^◌, ◌<◌, ◌++◌, Bytes, length, take, drop, replicate, length-append, ◌≡◌, refl, sym, ap, ◌∙◌,
  arith,
}
use raidan_sdk.Prelude.Text.{parse_uint}
use raidan_sdk.Prelude.LittleEndian.{
  little_endian, little_endian_value, little_endian_value-little_endian, length-little_endian,
  split_fields,
}
use raidan_sdk.Prelude.Result.{Result, ok}
use raidan_sdk.Reqresp.Status.{
  StatusError, consensus_hex, numbered, fetched, StatusFields, Answers, status_v1, status_v2,
  consensus_fork_digest, status_fields, beacon_status,
}
use raidan_sdk.Reqresp.Status.Sizes.{
  bound, numbered_bound, length-consensus_hex, length-consensus_fork_digest,
}

-- The independent reading of a body.
abbrev pub read_status : Bytes → StatusFields
read_status body =
    let roots = drop 4 body in
    let finality = drop 32 roots in
    let head = drop 8 finality in
    let slot = drop 32 head in
    record {
      fork_digest = take 4 body;
      finalized_root = take 32 roots;
      finalized_epoch = little_endian_value (take 8 finality);
      head_root = take 32 head;
      head_slot = little_endian_value slot;
    }

-- The fields whose sizes are those of the format.
abbrev Sized : StatusFields → Type 0
Sized f =
    (length f.fork_digest ≡ 4)
    × (length f.finalized_root ≡ 32)
    × (f.finalized_epoch < 2 ^ 64)
    × (length f.head_root ≡ 32)
    × (f.head_slot < 2 ^ 64)

read_status-status_v1 : (f : StatusFields) → Sized f → read_status (status_v1 f) ≡ f
unfolding status_v1
read_status-status_v1 f (d, r, e, h, s) =
    let epoch = little_endian 8 f.finalized_epoch in
    let slot = little_endian 8 f.head_slot in
    let a = split_fields 4 f.fork_digest (f.finalized_root ++ (epoch ++ (f.head_root ++ slot))) d in
    let b = split_fields 32 f.finalized_root (epoch ++ (f.head_root ++ slot)) r in
    let c = split_fields 8 epoch (f.head_root ++ slot) (length-little_endian 8 f.finalized_epoch) in
    let g = split_fields 32 f.head_root slot h in
    rw
      (
        a.0,
        a.1,
        b.0,
        b.1,
        c.0,
        c.1,
        g.0,
        g.1,
        little_endian_value-little_endian 8 f.finalized_epoch e,
        little_endian_value-little_endian 8 f.head_slot s,
      )
      refl

fields-Sized :
    {E : Type 0} (digest finalized_root head_root : Bytes) (finalized_epoch head_slot : ℕ)
    (f : StatusFields)
    → length digest ≡ 4
    → length finalized_root ≡ 32
    → finalized_epoch < 2 ^ 64
    → length head_root ≡ 32
    → head_slot < 2 ^ 64
    → Path
        (Result (StatusError E) StatusFields)
        (ok (record {
          fork_digest = digest;
          finalized_root = finalized_root;
          finalized_epoch = finalized_epoch;
          head_root = head_root;
          head_slot = head_slot;
        }))
        (ok f)
    → Sized f
fields-Sized digest finalized_root head_root finalized_epoch head_slot f d r e h s q =
    let p : Path StatusFields
        (record {
          fork_digest = digest;
          finalized_root = finalized_root;
          finalized_epoch = finalized_epoch;
          head_root = head_root;
          head_slot = head_slot;
        })
        f =
      ground arith in
    rw (← p) (d, r, e, h, s)

length-status_v1 : (f : StatusFields) → Sized f → length (status_v1 f) ≡ 84
unfolding status_v1
length-status_v1 f (d, r, e, h, s) =
    rw
      (
        length-append f.fork_digest (
            f.finalized_root
            ++ (little_endian 8 f.finalized_epoch ++ (f.head_root ++ little_endian 8 f.head_slot))),
        length-append f.finalized_root
            (little_endian 8 f.finalized_epoch ++ (f.head_root ++ little_endian 8 f.head_slot)),
        length-append (little_endian 8 f.finalized_epoch)
            (f.head_root ++ little_endian 8 f.head_slot),
        length-append f.head_root (little_endian 8 f.head_slot),
        length-little_endian 8 f.finalized_epoch,
        length-little_endian 8 f.head_slot,
        d,
        r,
        h,
      )
      refl

module _ {E : Type 0} (sha256 : Bytes → Bytes)
    (digests : (bs : Bytes) → length (sha256 bs) ≡ 32) where
  status_fields-Sized : (a : Answers E) (f : StatusFields) → status_fields sha256 a ≡ ok f → Sized f
  unfolding status_fields
  status_fields-Sized a f h0 = bound (fetched a.fork) _ f h0 (λ fork q0 h1.
      bound (consensus_hex fork 4) _ f h1 (λ version q1 h2.
        bound (fetched a.genesis) _ f h2 (λ genesis q2 h3.
          bound (consensus_hex genesis 32) _ f h3 (λ genesis_root q3 h4.
            bound (fetched a.header) _ f h4 (λ header q4 h5.
              bound (consensus_hex header.0 32) _ f h5 (λ head_root q5 h6.
                bound (numbered (parse_uint header.1)) _ f h6 (λ head_slot q6 h7.
                  bound (fetched a.finality) _ f h7 (λ finality q7 h8.
                    bound (consensus_hex finality.0 32) _ f h8 (λ finalized_root q8 h9.
                      bound (numbered (parse_uint finality.1)) _ f h9 (λ finalized_epoch q9 h10.
                        bound (consensus_fork_digest sha256 a.spec version genesis_root head_slot) _
                          f h10
                          (λ digest q10 h11.
                            fields-Sized digest finalized_root head_root finalized_epoch head_slot f
                              (length-consensus_fork_digest sha256 digests a.spec version
                                genesis_root head_slot digest q10)
                              (length-consensus_hex finality.0 32 finalized_root q8)
                              (numbered_bound finality.1 finalized_epoch q9)
                              (length-consensus_hex header.0 32 head_root q5)
                              (numbered_bound header.1 head_slot q6) h11)))))))))))

  -- The bodies of a successful exchange with the beacon node hold one Status, whose fields are read back
  -- from the first; the first has 84 bytes, and the second is the first with 8 zeros behind it, where every
  -- digest of `sha256` has 32 bytes.
  pub beacon_status-read_status :
      (a : Answers E) (v1 v2 : Bytes)
      → beacon_status sha256 a ≡ ok (v1, v2)
      → (status_fields sha256 a ≡ ok (read_status v1))
        × (length v1 ≡ 84)
        × (v2 ≡ v1 ++ replicate 8 0)
  unfolding beacon_status status_v2
  beacon_status-read_status a v1 v2 h =
      bound (status_fields sha256 a) _ (v1, v2) h
        (λ f q k.
          let e : status_v1 f ≡ v1 = ground arith in
          let w : status_v1 f ++ replicate 8 0 ≡ v2 = ground arith in
          let s = status_fields-Sized a f q in
          (
            q ∙ ap ok (sym (read_status-status_v1 f s) ∙ ap read_status e),
            sym (ap length e) ∙ length-status_v1 f s,
            sym w ∙ ap (λ v. v ++ replicate 8 0) e,
          ))

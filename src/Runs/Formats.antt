-- ===== src/Runs/Formats.antt =====
-- Runs of the documents and proofs: the checkpoint codec and the OpenTimestamps format.
use multi_log.Prelude.{◌≡◌, refl, arith, [], ◌∷◌, ◌++◌, Bytes, codes, ok, inl, inr, pos}
use multi_log.Checkpoint.{Checkpoint}
use multi_log.Checkpoint.Codec.{Json, to_wire, marshal, unmarshal, unmarshal-marshal}
use multi_log.OpenTimestamps.{
  op_sha256, op_append, tag_pending, tag_bitcoin, write_varuint, write_varuint_loop, write_varbytes,
  Digests, apply, Op, Attestation, attestation_body, is_pending, is_bitcoin, Timestamp, node,
  no_edges, edge,
}
use multi_log.OpenTimestamps.Reading.{got}
use multi_log.OpenTimestamps.Branches.{IsAttestation}
use multi_log.OpenTimestamps.Tree.{DetachedFile, serialize_file, parse_detached_file}
use multi_log.OpenTimestamps.Steps.{IsTimestamp, AreEdges}
use multi_log.OpenTimestamps.RoundTrip.{parse_detached_file-serialize_file}
use multi_log.Witness.{Proof}
use multi_log.Runs.Toy.{toy}

instance abbrev toy_digests : Digests
toy_digests = record { sha1_sum = λ b. b; ripemd160_sum = λ b. b }

abbrev digest : Bytes
digest = codes "0123456789abcdef0123456789abcdef"

abbrev nonce : Op
nonce = record { tag = op_append; arg = 9 ∷ [] }

abbrev pending : Attestation
pending = record { tag = tag_pending; uri = codes "https://a"; height = 0; raw = [] }

abbrev mined : Attestation
mined = record { tag = tag_bitcoin; uri = []; height = 800; raw = [] }

-- digest, append nonce, with a pending attestation at the root and one of Bitcoin at the child.
abbrev tree : Timestamp
tree =
    node digest (pending ∷ []) (edge nonce (node (digest ++ 9 ∷ []) (mined ∷ []) no_edges) no_edges)

abbrev file : DetachedFile
file = record { file_hash_op = op_sha256; ts = tree }

pending-IsAttestation : IsAttestation pending
unfolding is_pending attestation_body write_varbytes write_varuint write_varuint_loop
pending-IsAttestation = (refl, omega arith, inl (refl, omega arith, refl, refl))

mined-IsAttestation : IsAttestation mined
unfolding is_pending is_bitcoin attestation_body write_varuint write_varuint_loop
mined-IsAttestation = (refl, omega arith, inr (inl (refl, refl, omega arith, refl, refl)))

tree-IsTimestamp : IsTimestamp tree
unfolding IsTimestamp AreEdges apply
tree-IsTimestamp = (
  (pending-IsAttestation, tt),
  omega arith,
  (inl (refl, omega arith), refl, ((mined-IsAttestation, tt), omega arith, tt), tt),
)

parse_detached_file-serialize_file_example : parse_detached_file (serialize_file file) ≡ got file []
parse_detached_file-serialize_file_example =
    parse_detached_file-serialize_file file refl refl tree-IsTimestamp

abbrev proof : Proof
proof = record {
  notary = codes "ots";
  format = codes "opentimestamps";
  token = serialize_file file;
}

abbrev small : Checkpoint
small = record {
  tenant_id = codes "acme";
  seq_start = 0;
  seq_end = 1;
  entry_count = 2;
  head_hash = 1 ∷ 255 ∷ [];
  merkle_root = 2 ∷ [];
  prev_checkpoint_hash = [];
  anchored_at = pos 9;
  canon_version = 1;
  checkpoint_id = 3 ∷ [];
}

-- A library that knows one document.
abbrev one_document : Json
one_document = record {
  marshal_indent = λ w. ok (codes "{}");
  unmarshal_wire = λ b. ok (to_wire small);
}

small_written : marshal one_document small ≡ ok (codes "{}")
unfolding marshal
small_written = refl

unmarshal-marshal_example : unmarshal one_document (codes "{}") ≡ ok small
unmarshal-marshal_example =
    unmarshal-marshal one_document small (codes "{}") (omega arith, (omega arith, tt))
      (omega arith, tt) tt (omega arith, tt) small_written (λ _. refl)

-- ===== src/OpenTimestamps/RoundTrip.antt =====
-- Reading back a proof tree and a detached file.
use multi_log.Prelude.{
  ℕ, zero, suc, ◌+◌, ◌≤◌, ◌≡◌, refl, sym, ◌∙◌, ap, arith, List, [], ◌∷◌, ◌++◌, append-nil,
  append_assoc, Bytes, length, length-append, All,
}
use mathlib.Core.Path.{subst}
use native.Mathlib.Decide.{dec_lt}
use multi_log.Crypto.{Sha256}
use multi_log.OpenTimestamps.Reading.{got, read_byte, read_n}
use multi_log.OpenTimestamps.{
  op_sha256, header_magic, write_varuint, Digests, apply, Attestation, Timestamp, node, Edges,
  no_edges, edge,
}
use multi_log.OpenTimestamps.Varuint.{varuint-write_varuint, read_n-append}
use multi_log.OpenTimestamps.Branches.{arg_bytes, IsAttestation}
use multi_log.OpenTimestamps.Tree.{
  message, edge_count, fork, serialize_attestations, serialize, serialize_edges, add_edge,
  deserialize_rest, deserialize_timestamp, DetachedFile, serialize_file, parse_versioned,
  parse_detached_file,
}
use multi_log.OpenTimestamps.Steps.{
  AreEdges, IsTimestamp, append_edges, append_edges-add_edge, append_edges-none, attestation_bytes,
  branch_last, branch_more, edge_bytes, length-attestation_bytes, length-edge_bytes,
  no_attestation_bytes, no_edges_bytes, one_attestation, one_edge, parse, tag_apart,
}

module _ ⦃sha : Sha256⦄ ⦃d : Digests⦄ where
  -- Where a node has no branch left to read, it is whole.
  nothing_left :
      (total : ℕ) (m more : Bytes) (i j : ℕ) (before atts all : List Attestation) (ops : Edges)
      → before ++ atts ≡ all
      → length atts ≡ 0
      → edge_count ops ≡ 0
      → got
          (node m before no_edges)
          (serialize_attestations total i atts ++ (serialize_edges total j ops ++ more))
        ≡ got (node m all ops) more
  nothing_left total m more i j before [] all no_edges joined none empty =
      ap (got (node m before no_edges)) (
        no_attestation_bytes total i (serialize_edges total j no_edges ++ more)
        ∙ no_edges_bytes total j more)
      ∙ ap (λ b. got (node m b no_edges) more) (sym (append-nil before) ∙ joined)
  nothing_left total m more i j before [] all (edge o child rest) joined none empty =
      absurd (omega arith)
  nothing_left total m more i j before (a ∷ atts) all ops joined none empty = absurd (omega arith)

  module _ (total : ℕ) (m : Bytes) (ops : Edges) (more : Bytes) where
    -- Reading the edges of a node whose attestations are read gives the node.
    abbrev EdgesRead : List Attestation → ℕ → Type 0
    EdgesRead all j =
        (rounds : ℕ)
        → 1 ≤ edge_count ops
        → length (serialize_edges total j ops) ≤ rounds
        → deserialize_rest rounds (node m all no_edges) (serialize_edges total j ops ++ more)
          ≡ got (node m all ops) more

    read_attestations :
        (rounds i j : ℕ) (before atts all : List Attestation)
        → before ++ atts ≡ all
        → j ≡ i + length atts
        → total ≡ j + edge_count ops
        → 1 ≤ length atts + edge_count ops
        → All IsAttestation atts
        → EdgesRead all j
        → length (serialize_attestations total i atts) + length (serialize_edges total j ops)
          ≤ rounds
        → deserialize_rest rounds
            (node m before no_edges)
            (serialize_attestations total i atts ++ (serialize_edges total j ops ++ more))
          ≡ got (node m all ops) more
    read_attestations rounds i j before [] all joined at count some well edges fits =
        let whole : before ≡ all = sym (append-nil before) ∙ joined in
        ap (deserialize_rest rounds (node m before no_edges))
          (no_attestation_bytes total i (serialize_edges total j ops ++ more))
        ∙ ap
            (λ b. deserialize_rest rounds (node m b no_edges) (serialize_edges total j ops ++ more))
            whole
        ∙ edges rounds (omega arith) (omega arith)
    read_attestations zero i j before (a ∷ atts) all joined at count some well edges fits =
        absurd (omega (arith, length-attestation_bytes total i a atts))
    read_attestations (suc rounds) i j before (a ∷ atts) all joined at count some (one_well, well)
          edges fits =
        let sizes = length-attestation_bytes total i a atts in
        let behind : Bytes =
          serialize_attestations total (i + 1) atts ++ (serialize_edges total j ops ++ more) in
        let read = one_attestation rounds m before no_edges a behind one_well in
        let next : List Attestation = before ++ a ∷ [] in
        let joins : next ++ atts ≡ all = append_assoc before (a ∷ []) atts ∙ joined in
        ap (deserialize_rest (suc rounds) (node m before no_edges))
          (attestation_bytes total i a atts (serialize_edges total j ops ++ more))
        ∙ elim (dec_lt (i + 1) total) [
          | yes follows ↦
              branch_more rounds i total 0x00 (node m before no_edges) (node m next no_edges) _
                behind follows read
              ∙ read_attestations rounds (i + 1) j next atts all joins (omega arith) count
                  (omega arith) well edges (omega (arith, sizes))
          | no last ↦
              branch_last rounds i total 0x00 (node m before no_edges) (node m next no_edges) _
                behind refl (omega arith) read
              ∙ nothing_left total m more (i + 1) j next atts all ops joins (omega arith)
                  (omega arith)
        ]

  module _ (m : Bytes) (atts : List Attestation) (ops : Edges) where
    abbrev branches : ℕ
    branches = length atts + edge_count ops

    node_bytes :
        (more : Bytes)
        → serialize (node m atts ops) ++ more
          ≡ serialize_attestations branches 0 atts
            ++ (serialize_edges branches (length atts) ops ++ more)
    unfolding serialize serialize_edges
    node_bytes more =
        append_assoc (serialize_attestations branches 0 atts)
          (serialize_edges branches (length atts) ops) more

    length-node_bytes :
        length (serialize (node m atts ops))
        ≡ length (serialize_attestations branches 0 atts)
          + length (serialize_edges branches (length atts) ops)
    unfolding serialize serialize_edges
    length-node_bytes =
        length-append (serialize_attestations branches 0 atts)
          (serialize_edges branches (length atts) ops)

  mutual
    unfolding IsTimestamp AreEdges

    read_node :
        (rounds : ℕ) (t : Timestamp) (msg more : Bytes)
        → IsTimestamp t
        → message t ≡ msg
        → length (serialize t) ≤ rounds
        → parse rounds msg (serialize t ++ more) ≡ got t more
    read_node rounds (node m atts ops) msg more (well, some, edges) same fits =
        let total : ℕ = length atts + edge_count ops in
        ap (λ (x : Bytes). parse rounds x (serialize (node m atts ops) ++ more)) (sym same)
        ∙ ap (parse rounds m) (node_bytes m atts ops more)
        ∙ read_attestations total m ops more rounds 0 (length atts) [] atts atts refl (omega arith)
            refl some well
            (λ r has small.
              read_edges r (length atts) total m atts no_edges ops more edges has refl small)
            (omega (arith, length-node_bytes m atts ops, fits))

    read_edges :
        (rounds i total : ℕ) (msg : Bytes) (atts : List Attestation) (os ops : Edges) (more : Bytes)
        → AreEdges msg ops
        → 1 ≤ edge_count ops
        → total ≡ i + edge_count ops
        → length (serialize_edges total i ops) ≤ rounds
        → deserialize_rest rounds (node msg atts os) (serialize_edges total i ops ++ more)
          ≡ got (node msg atts (append_edges os ops)) more
    read_edges rounds i total msg atts os no_edges more well some count fits = absurd (omega arith)
    read_edges zero i total msg atts os (edge o child rest) more (is_op, _, _, _) some count fits =
        absurd (omega (arith, length-edge_bytes total i o child rest is_op))
    read_edges (suc rounds) i total msg atts os (edge o child no_edges) more (is_op, same, well, _)
          some count fits =
        let sizes = length-edge_bytes total i o child no_edges is_op in
        let read = read_node rounds child (apply o msg) more well same (omega (arith, sizes)) in
        ap (deserialize_rest (suc rounds) (node msg atts os)) (
          edge_bytes total i o child no_edges is_op more
          ∙ ap (λ b. fork i total ++ o.tag ∷ (arg_bytes o ++ (serialize child ++ b)))
              (no_edges_bytes total (i + 1) more))
        ∙ branch_last rounds i total o.tag (node msg atts os) (node msg atts (add_edge o child os))
            _ more (tag_apart o is_op).0 (omega arith)
            (one_edge rounds msg atts os o child more is_op read)
        ∙ ap (λ es. got (node msg atts es) more)
            (sym (append_edges-none (add_edge o child os))
              ∙ append_edges-add_edge os o child no_edges)
    read_edges (suc rounds) i total msg atts os (edge o child (edge p c rest)) more
          (is_op, same, well, others) some count fits =
        let sizes = length-edge_bytes total i o child (edge p c rest) is_op in
        let behind : Bytes = serialize_edges total (i + 1) (edge p c rest) ++ more in
        let read = read_node rounds child (apply o msg) behind well same (omega (arith, sizes)) in
        ap (deserialize_rest (suc rounds) (node msg atts os))
          (edge_bytes total i o child (edge p c rest) is_op more)
        ∙ branch_more rounds i total o.tag (node msg atts os) (node msg atts (add_edge o child os))
            _ behind (omega arith) (one_edge rounds msg atts os o child behind is_op read)
        ∙ read_edges rounds (i + 1) total msg atts (add_edge o child os) (edge p c rest) more others
            (omega arith) (omega arith) (omega (arith, sizes))
        ∙ ap (λ es. got (node msg atts es) more) (append_edges-add_edge os o child (edge p c rest))

  deserialize_timestamp-serialize :
      (t : Timestamp) → IsTimestamp t → deserialize_timestamp (message t) (serialize t) ≡ got t []
  unfolding deserialize_timestamp
  deserialize_timestamp-serialize t well =
      ap (parse (suc (length (serialize t))) (message t)) (sym (append-nil (serialize t)))
      ∙ read_node (suc (length (serialize t))) t (message t) [] well refl (omega arith)

  parse_versioned-serialize :
      (t : Timestamp)
      → IsTimestamp t
      → length (message t) ≡ 32
      → parse_versioned (write_varuint 1 ++ op_sha256 ∷ (message t ++ serialize t))
        ≡ got (record { file_hash_op = op_sha256; ts = t }) []
  unfolding parse_versioned read_byte
  parse_versioned-serialize t well digest =
      let digest_read : read_n 32 (message t ++ serialize t) ≡ got (message t) (serialize t) =
        subst (λ n. read_n n (message t ++ serialize t) ≡ got (message t) (serialize t)) digest
          (read_n-append (message t) (serialize t) (omega (arith, digest))) in
      rw
        (
          varuint-write_varuint 1 (op_sha256 ∷ (message t ++ serialize t)) (omega arith),
          digest_read,
          deserialize_timestamp-serialize t well,
        )
        refl

  -- Parsing a serialized detached file gives the file back, with no byte left over. Its file-hash
  -- operation is SHA-256, its digest has 32 bytes, every node of its tree has a branch, every
  -- operation and attestation is one of the format, short enough for `make`, and each node's message
  -- is what its operation makes of its parent's.
  pub parse_detached_file-serialize_file :
      (f : DetachedFile)
      → f.file_hash_op ≡ op_sha256
      → length (message f.ts) ≡ 32
      → IsTimestamp f.ts
      → parse_detached_file (serialize_file f) ≡ got f []
  unfolding parse_detached_file serialize_file
  parse_detached_file-serialize_file f hash_op digest well =
      let body : Bytes = write_varuint 1 ++ op_sha256 ∷ (message f.ts ++ serialize f.ts) in
      rw
        (
          hash_op,
          read_n-append header_magic body (omega arith),
          parse_versioned-serialize f.ts well digest,
        )
        (let same = sym hash_op in cc)

-- ===== src/OpenTimestamps/Steps.antt =====
-- The steps by which a written proof tree is read back.
use multi_log.Prelude.{
  ℕ, suc, ◌+◌, ◌≤◌, ◌<◌, ◌≡◌, refl, sym, ◌∙◌, ap, arith, false, inl, inr, List, [], ◌∷◌, ◌++◌,
  append-nil, append_assoc, ◌==◌, lt→ltb, le→ltb, Bytes, length, length-append, All,
}
use multi_log.Crypto.{Sha256}
use multi_log.OpenTimestamps.Reading.{Reader, got, read_byte}
use multi_log.OpenTimestamps.{
  Op, Digests, apply, serialize_op, Attestation, serialize_attestation, Timestamp, node, Edges,
  no_edges, edge,
}
use multi_log.OpenTimestamps.Branches.{
  IsOp, arg_bytes, deserialize_op-serialize_op, IsAttestation,
  deserialize_attestation-serialize_attestation,
}
use multi_log.OpenTimestamps.Tree.{
  message, edge_count, fork, serialize_attestations, serialize, serialize_edges, add_edge, one,
  deserialize_rest,
}

abbrev pub append_edges : Edges → Edges → Edges
append_edges no_edges es = es
append_edges (edge o child rest) es = edge o child (append_edges rest es)

pub append_edges-add_edge :
    (os : Edges) (o : Op) (child : Timestamp) (rest : Edges)
    → append_edges (add_edge o child os) rest ≡ append_edges os (edge o child rest)
append_edges-add_edge no_edges o child rest = refl
append_edges-add_edge (edge p c os) o child rest =
    ap (λ es. edge p c es) (append_edges-add_edge os o child rest)

-- No operation's tag reads as a fork or as an attestation.
pub tag_apart : (o : Op) → IsOp o → ((o.tag == 0xff) ≡ false) × ((o.tag == 0x00) ≡ false)
tag_apart o (inl (with_arg, _)) = ground arith
tag_apart o (inr (_, digest, _)) = ground arith

pub attestation_shape :
    (f xs ys zs : Bytes) (t : ℕ) → (f ++ t ∷ (xs ++ ys)) ++ zs ≡ f ++ t ∷ (xs ++ (ys ++ zs))
attestation_shape f xs ys zs t =
    append_assoc f (t ∷ (xs ++ ys)) zs ∙ ap (λ b. f ++ t ∷ b) (append_assoc xs ys zs)

pub edge_shape :
    (f op xs ys zs ws : Bytes) (t : ℕ)
    → op ≡ t ∷ xs
    → (f ++ (op ++ (ys ++ zs))) ++ ws ≡ f ++ t ∷ (xs ++ (ys ++ (zs ++ ws)))
edge_shape f op xs ys zs ws t split =
    ap (λ b. (f ++ (b ++ (ys ++ zs))) ++ ws) split
    ∙ attestation_shape f xs (ys ++ zs) ws t
    ∙ ap (λ b. f ++ t ∷ (xs ++ b)) (append_assoc ys zs ws)

module _ ⦃sha : Sha256⦄ ⦃d : Digests⦄ where
  -- The proof trees that reading can return: every node has a branch, every operation and attestation
  -- is one of the format, and a child's message is what its operation makes of the parent's.
  unfoldable mutual
    pub IsTimestamp : Timestamp → Type 0
    IsTimestamp (node msg atts ops) =
        All IsAttestation atts × (1 ≤ length atts + edge_count ops) × AreEdges msg ops

    pub AreEdges : Bytes → Edges → Type 0
    AreEdges msg no_edges = Unit {0}
    AreEdges msg (edge o child rest) =
        IsOp o × (message child ≡ apply o msg) × IsTimestamp child × AreEdges msg rest

  -- The recursive call of `deserializeTimestamp` with some rounds left.
  abbrev pub parse : ℕ → Bytes → Reader Timestamp
  parse rounds msg = deserialize_rest rounds (node msg [] no_edges)

  pub one_edge :
      (rounds : ℕ) (msg : Bytes) (atts : List Attestation) (os : Edges) (o : Op) (child : Timestamp)
      (more : Bytes)
      → IsOp o
      → parse rounds (apply o msg) (serialize child ++ more) ≡ got child more
      → one (parse rounds) (node msg atts os) o.tag (arg_bytes o ++ (serialize child ++ more))
        ≡ got (node msg atts (add_edge o child os)) more
  unfolding one
  one_edge rounds msg atts os o child more is_op read =
      let (_, op_read) = deserialize_op-serialize_op o (serialize child ++ more) is_op in
      rw ((tag_apart o is_op).1, one, op_read, read) refl

  pub one_attestation :
      (rounds : ℕ) (msg : Bytes) (atts : List Attestation) (os : Edges) (a : Attestation)
      (more : Bytes)
      → IsAttestation a
      → one (parse rounds) (node msg atts os) 0x00 (serialize_attestation a ++ more)
        ≡ got (node msg (atts ++ a ∷ []) os) more
  unfolding one
  one_attestation rounds msg atts os a more is_attestation =
      rw (deserialize_attestation-serialize_attestation a more is_attestation) refl

  pub deserialize_rest-last :
      (rounds tag : ℕ) (t : Timestamp) (b : Bytes)
      → (tag == 0xff) ≡ false
      → deserialize_rest (suc rounds) t (tag ∷ b) ≡ one (parse rounds) t tag b
  unfolding deserialize_rest read_byte
  deserialize_rest-last rounds tag t b apart = cc

  -- The last branch of a node, and a branch that others follow.
  pub branch_last :
      (rounds i total tag : ℕ) (t t' : Timestamp) (b more : Bytes)
      → (tag == 0xff) ≡ false
      → i + 1 ≡ total
      → one (parse rounds) t tag b ≡ got t' more
      → deserialize_rest (suc rounds) t (fork i total ++ tag ∷ b) ≡ got t' more
  branch_last rounds i total tag t t' b more apart last read =
      rw (le→ltb (i + 1) total (omega arith)) (deserialize_rest-last rounds tag t b apart ∙ read)

  pub branch_more :
      (rounds i total tag : ℕ) (t t' : Timestamp) (b more : Bytes)
      → i + 1 < total
      → one (parse rounds) t tag b ≡ got t' more
      → deserialize_rest (suc rounds) t (fork i total ++ tag ∷ b) ≡ deserialize_rest rounds t' more
  unfolding deserialize_rest read_byte
  branch_more rounds i total tag t t' b more follows read =
      rw (lt→ltb (i + 1) total follows, deserialize_rest, read) refl

  module _ (total i : ℕ) (o : Op) (child : Timestamp) (rest : Edges) (is_op : IsOp o) where
    -- The bytes of an edge and of those behind it.
    pub edge_bytes :
        (more : Bytes)
        → serialize_edges total i (edge o child rest) ++ more
          ≡ fork i total
            ++ o.tag
              ∷ (arg_bytes o ++ (serialize child ++ (serialize_edges total (i + 1) rest ++ more)))
    unfolding serialize serialize_edges
    edge_bytes more =
        edge_shape (fork i total) (serialize_op o) (arg_bytes o) (serialize child)
          (serialize_edges total (i + 1) rest) more o.tag (deserialize_op-serialize_op o [] is_op).0

    pub length-edge_bytes :
        length (serialize child) + length (serialize_edges total (i + 1) rest)
        < length (serialize_edges total i (edge o child rest))
    length-edge_bytes =
        let whole =
          ap (length {A = ℕ})
            (sym (append-nil (serialize_edges total i (edge o child rest))) ∙ edge_bytes []) in
        let behind : Bytes = serialize_edges total (i + 1) rest ++ [] in
        omega (
          arith,
          whole,
          length-append (fork i total) (o.tag ∷ (arg_bytes o ++ (serialize child ++ behind))),
          length-append (arg_bytes o) (serialize child ++ behind),
          length-append (serialize child) behind,
          length-append (serialize_edges total (i + 1) rest) [],
        )

  pub append_edges-none : (os : Edges) → append_edges os no_edges ≡ os
  append_edges-none no_edges = refl
  append_edges-none (edge o child os) = ap (λ es. edge o child es) (append_edges-none os)

  pub no_edges_bytes :
      (total i : ℕ) (more : Bytes) → serialize_edges total i no_edges ++ more ≡ more
  unfolding serialize serialize_edges
  no_edges_bytes total i more = refl

  module _ (total i : ℕ) (a : Attestation) (atts : List Attestation) where
    pub attestation_bytes :
        (more : Bytes)
        → serialize_attestations total i (a ∷ atts) ++ more
          ≡ fork i total
            ++ 0x00
              ∷ (serialize_attestation a ++ (serialize_attestations total (i + 1) atts ++ more))
    unfolding serialize_attestations
    attestation_bytes more =
        attestation_shape (fork i total) (serialize_attestation a)
          (serialize_attestations total (i + 1) atts) more 0x00

    pub length-attestation_bytes :
        length (serialize_attestations total (i + 1) atts)
        < length (serialize_attestations total i (a ∷ atts))
    length-attestation_bytes =
        let whole =
          ap (length {A = ℕ})
            (sym (append-nil (serialize_attestations total i (a ∷ atts))) ∙ attestation_bytes []) in
        let behind : Bytes = serialize_attestations total (i + 1) atts ++ [] in
        omega (
          arith,
          whole,
          length-append (fork i total) (0 ∷ (serialize_attestation a ++ behind)),
          length-append (serialize_attestation a) behind,
          length-append (serialize_attestations total (i + 1) atts) [],
        )

  pub no_attestation_bytes :
      (total i : ℕ) (more : Bytes) → serialize_attestations total i [] ++ more ≡ more
  unfolding serialize_attestations
  no_attestation_bytes total i more = refl

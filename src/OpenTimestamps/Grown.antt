-- ===== src/OpenTimestamps/Grown.antt =====
-- Every proof tree that `deserializeTimestamp` returns is one of the format.
use multi_log.Prelude.{
  ℕ, zero, suc, ◌≤◌, ◌≡◌, refl, sym, ◌∙◌, ap, arith, Bool-cases, ◌==◌, inl, inr, [], ◌∷◌, Bytes,
  length, length-append, All, All-append,
}
use mathlib.Core.Path.{subst}
use multi_log.Crypto.{Sha256}
use multi_log.OpenTimestamps.Reading.{got, Reader, pass, read_byte}
use multi_log.OpenTimestamps.{
  Op, Digests, apply, deserialize_op, Attestation, deserialize_attestation, Timestamp, node, Edges,
  no_edges, edge,
}
use multi_log.OpenTimestamps.Bounds.{>>=-got, read_byte-got}
use multi_log.OpenTimestamps.Branches.{IsOp, IsAttestation}
use multi_log.OpenTimestamps.Parsed.{IsShort, deserialize_op-got, deserialize_attestation-got}
use multi_log.OpenTimestamps.Tree.{
  message, edge_count, add_edge, with_attestation, with_edge, one, deserialize_rest,
  deserialize_timestamp,
}
use multi_log.OpenTimestamps.Steps.{IsTimestamp, AreEdges}

module _ ⦃sha : Sha256⦄ ⦃d : Digests⦄ where
  -- A node whose branches so far are of the format; it may have none yet.
  abbrev pub IsPartial : Timestamp → Type 0
  IsPartial (node msg atts ops) = All IsAttestation atts × AreEdges msg ops

  pub IsTimestamp-IsPartial : (t : Timestamp) → IsTimestamp t → IsPartial t
  unfolding IsTimestamp
  IsTimestamp-IsPartial (node msg atts ops) (well, _, edges) = (well, edges)

  pub empty-IsPartial : (msg : Bytes) → IsPartial (node msg [] no_edges)
  unfolding AreEdges
  empty-IsPartial msg = (tt, tt)

  AreEdges-add_edge :
      (msg : Bytes) (o : Op) (child : Timestamp) (ops : Edges)
      → IsOp o
      → message child ≡ apply o msg
      → IsTimestamp child
      → AreEdges msg ops
      → AreEdges msg (add_edge o child ops)
  unfolding AreEdges
  AreEdges-add_edge msg o child no_edges is_op same well h = (is_op, same, well, tt)
  AreEdges-add_edge msg o child (edge p c rest) is_op same well (is_op', same', well', others) =
      (is_op', same', well', AreEdges-add_edge msg o child rest is_op same well others)

  edge_count-add_edge :
      (o : Op) (child : Timestamp) (ops : Edges)
      → edge_count (add_edge o child ops) ≡ suc (edge_count ops)
  edge_count-add_edge o child no_edges = refl
  edge_count-add_edge o child (edge p c rest) = ap suc (edge_count-add_edge o child rest)

  IsTimestamp-with_attestation :
      (t : Timestamp) (a : Attestation)
      → IsPartial t
      → IsAttestation a
      → IsTimestamp (with_attestation a t)
  unfolding IsTimestamp
  IsTimestamp-with_attestation (node msg atts ops) a (well, edges) good = (
    All-append IsAttestation atts (a ∷ []) well (good, tt),
    omega (arith, length-append atts (a ∷ [])),
    edges,
  )

  IsTimestamp-with_edge :
      (t : Timestamp) (o : Op) (child : Timestamp)
      → IsPartial t
      → IsOp o
      → message child ≡ apply o (message t)
      → IsTimestamp child
      → IsTimestamp (with_edge o child t)
  unfolding IsTimestamp
  IsTimestamp-with_edge (node msg atts ops) o child (well, edges) is_op same good = (
    well,
    omega (arith, edge_count-add_edge o child ops),
    AreEdges-add_edge msg o child ops is_op same good edges,
  )

  message-with_attestation :
      (a : Attestation) (t : Timestamp) → message (with_attestation a t) ≡ message t
  message-with_attestation a (node msg atts ops) = refl

  message-with_edge : (o : Op) (child t : Timestamp) → message (with_edge o child t) ≡ message t
  message-with_edge o child (node msg atts ops) = refl

  -- What a read of a tree from `b` over the message `msg` returns.
  abbrev Grown : Bytes → Bytes → Timestamp → Bytes → Type 0
  Grown msg b t rest = IsTimestamp t × (message t ≡ msg) × (length rest ≤ length b)

  one-got :
      (parse : Bytes → Reader Timestamp) (t : Timestamp) (tag : ℕ) (b : Bytes) (t' : Timestamp)
      (rest : Bytes)
      → ((msg b' : Bytes) (c : Timestamp) (rest' : Bytes)
          → IsShort b'
          → parse msg b' ≡ got c rest'
          → Grown msg b' c rest')
      → IsPartial t
      → IsShort b
      → one parse t tag b ≡ got t' rest
      → Grown (message t) b t' rest
  unfolding one
  one-got parse t tag b t' rest children partial short h = elim (Bool-cases (tag == 0x00)) [
    | inl attestation ↦
        let h' = rw (attestation, one) at h in
        let (a, left, read, made) =
          >>=-got deserialize_attestation (λ x. pass (with_attestation x t)) b h' in
        let (good, fewer) = deserialize_attestation-got b a left short read in
        let same : with_attestation a t ≡ t' = cc in
        let behind : left ≡ rest = cc in
        (
          subst IsTimestamp same (IsTimestamp-with_attestation t a partial good),
          ap message (sym same) ∙ message-with_attestation a t,
          omega (arith, ap (length {A = ℕ}) behind),
        )
    | inr operation ↦
        let h' = rw (operation, one) at h in
        let (o, left, read, h1) = >>=-got (deserialize_op tag) _ b h' in
        let (is_op, fewer) = deserialize_op-got tag b o left read in
        let (child, left', parsed, made) =
          >>=-got (parse (apply o (message t))) (λ c. pass (with_edge o c t)) left h1 in
        let (good, linked, fewer') =
          children (apply o (message t)) left child left' (omega arith) parsed in
        let same : with_edge o child t ≡ t' = cc in
        let behind : left' ≡ rest = cc in
        (
          subst IsTimestamp same (IsTimestamp-with_edge t o child partial is_op linked good),
          ap message (sym same) ∙ message-with_edge o child t,
          omega (arith, ap (length {A = ℕ}) behind),
        )
  ]

  deserialize_rest-got :
      (rounds : ℕ) (t : Timestamp) (b : Bytes) (t' : Timestamp) (rest : Bytes)
      → IsPartial t
      → IsShort b
      → deserialize_rest rounds t b ≡ got t' rest
      → Grown (message t) b t' rest
  unfolding deserialize_rest
  deserialize_rest-got zero t b t' rest partial short h = cc
  deserialize_rest-got (suc rounds) t b t' rest partial short h =
      let parse : Bytes → Reader Timestamp =
        λ msg. deserialize_rest rounds (node msg [] no_edges) in
      let children : (msg b' : Bytes) (c : Timestamp) (rest' : Bytes)
          → IsShort b'
          → parse msg b' ≡ got c rest'
          → Grown msg b' c rest' =
        λ msg b' c rest' short' h'.
          deserialize_rest-got rounds (node msg [] no_edges) b' c rest' (empty-IsPartial msg) short'
            h' in
      let (tag, left, read, h1) = >>=-got read_byte _ b h in
      let fewer = read_byte-got b tag left read in
      elim (Bool-cases (tag == 0xff)) [
        | inl fork ↦
            let h2 = rw fork at h1 in
            let (next, left1, read1, h3) = >>=-got read_byte _ left h2 in
            let fewer1 = read_byte-got left next left1 read1 in
            let (t1, left2, read2, h4) =
              >>=-got (one parse t next) (deserialize_rest rounds) left1 h3 in
            let (good, same, fewer2) =
              one-got parse t next left1 t1 left2 children partial (omega arith) read2 in
            let (good', same', fewer3) =
              deserialize_rest-got rounds t1 left2 t' rest (IsTimestamp-IsPartial t1 good)
                (omega arith) h4 in
            (good', same' ∙ same, omega arith)
        | inr last ↦
            let h2 = rw last at h1 in
            let (good, same, fewer1) =
              one-got parse t tag left t' rest children partial (omega arith) h2 in
            (good, same, omega arith)
      ]

  -- A tree that is read from at most 2 ^ 40 bytes is one of the format, over the message that it was
  -- read for: every node has a branch, every operation and attestation is one of the format, and each
  -- node's message is what its operation makes of its parent's.
  pub deserialize_timestamp-IsTimestamp :
      (msg b : Bytes) (t : Timestamp) (rest : Bytes)
      → IsShort b
      → deserialize_timestamp msg b ≡ got t rest
      → IsTimestamp t × (message t ≡ msg)
  unfolding deserialize_timestamp
  deserialize_timestamp-IsTimestamp msg b t rest short h =
      let (good, same, _) =
        deserialize_rest-got (suc (length b)) (node msg [] no_edges) b t rest (empty-IsPartial msg)
          short h in
      (good, same)

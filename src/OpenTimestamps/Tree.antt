-- ===== src/OpenTimestamps/Tree.antt =====
-- internal/witness/opentimestamps/wire.go: the proof tree and the detached file around it.
use multi_log.Prelude.{
  ℕ, zero, suc, ◌+◌, ltb, ◌==◌, if◌then◌else◌, true, false, List, [], ◌∷◌, ◌++◌, Bytes, codes,
  bytes_equal, length, text,
}
use multi_log.Crypto.{Sha256}
use multi_log.OpenTimestamps.Reading.{Read, Reader, pass, refuse, ◌>>=◌, read_byte, read_n, varuint}
use multi_log.OpenTimestamps.{
  op_sha256, header_magic, write_varuint, Op, Digests, apply, serialize_op, deserialize_op,
  Attestation, serialize_attestation, deserialize_attestation, Timestamp, node, Edges, no_edges,
  edge,
}

abbrev pub message : Timestamp → Bytes
message (node msg atts ops) = msg

abbrev pub edge_count : Edges → ℕ
edge_count no_edges = 0
edge_count (edge o child rest) = suc (edge_count rest)

-- Before branch `i` of `total`: 0xff except before the last. `i < total-1` is on Go's int.
abbrev pub fork : ℕ → ℕ → Bytes
fork i total = if ltb (i + 1) total then 0xff ∷ [] else []

unfoldable pub serialize_attestations : ℕ → ℕ → List Attestation → Bytes
serialize_attestations total i [] = []
serialize_attestations total i (a ∷ atts) =
    fork i total ++ 0x00 ∷ (serialize_attestation a ++ serialize_attestations total (i + 1) atts)

unfoldable mutual
  pub serialize : Timestamp → Bytes
  serialize (node msg atts ops) =
      let total = length atts + edge_count ops in
      serialize_attestations total 0 atts ++ serialize_edges total (length atts) ops

  pub serialize_edges : ℕ → ℕ → Edges → Bytes
  serialize_edges total i no_edges = []
  serialize_edges total i (edge o child rest) =
      fork i total ++ (serialize_op o ++ (serialize child ++ serialize_edges total (i + 1) rest))

pub record DetachedFile : Type 0 where
  pub file_hash_op : ℕ
  pub ts : Timestamp

unfoldable pub serialize_file : DetachedFile → Bytes
unfolding serialize
serialize_file f =
    header_magic ++ (write_varuint 1 ++ f.file_hash_op ∷ (message f.ts ++ serialize f.ts))

abbrev pub add_edge : Op → Timestamp → Edges → Edges
add_edge o child no_edges = edge o child no_edges
add_edge o child (edge p c rest) = edge p c (add_edge o child rest)

abbrev pub with_attestation : Attestation → Timestamp → Timestamp
with_attestation a (node msg atts ops) = node msg (atts ++ a ∷ []) ops

abbrev pub with_edge : Op → Timestamp → Timestamp → Timestamp
with_edge o child (node msg atts ops) = node msg atts (add_edge o child ops)

module _ ⦃sha : Sha256⦄ ⦃d : Digests⦄ where
  -- The closure `one`: it adds to the node `t` the branch that `tag` begins, where `parse` is the
  -- call of `deserializeTimestamp` on a message.
  unfoldable pub one : (Bytes → Reader Timestamp) → Timestamp → ℕ → Reader Timestamp
  one parse t tag = elim (tag == 0x00) [
    | true ↦ deserialize_attestation >>= (λ a. pass (with_attestation a t))
    | false ↦ do
      o ← deserialize_op tag
      child ← parse (apply o (message t))
      pass (with_edge o child t)
  ]

  -- The body of `deserializeTimestamp` from the next tag on, with the branches read so far in `t`:
  -- the loop and the recursive call each take a round, and each reads a byte.
  unfoldable pub deserialize_rest : ℕ → Timestamp → Reader Timestamp
  deserialize_rest zero t = refuse (text (codes "out of rounds"))
  deserialize_rest (suc rounds) t = read_byte >>= (λ tag. elim (tag == 0xff) [
    | true ↦ do
      next ← read_byte
      t' ← one (λ msg. deserialize_rest rounds (node msg [] no_edges)) t next
      deserialize_rest rounds t'
    | false ↦ one (λ msg. deserialize_rest rounds (node msg [] no_edges)) t tag
  ])

  -- One round for each byte of the input, and one for its end.
  unfoldable pub deserialize_timestamp : Bytes → Reader Timestamp
  unfolding deserialize_rest
  deserialize_timestamp msg b = deserialize_rest (suc (length b)) (node msg [] no_edges) b

  -- The part of `parseDetachedFile` behind the check of the magic.
  unfoldable pub parse_versioned : Reader DetachedFile
  unfolding deserialize_timestamp
  parse_versioned = do
    version ← varuint
    file_hash_op ← read_byte
    elim (file_hash_op == op_sha256) [
      | false ↦ refuse (text (codes "opentimestamps: unsupported file hash op"))
      | true ↦ do
        digest ← read_n 32
        ts ← deserialize_timestamp digest
        pass (record { file_hash_op = file_hash_op; ts = ts })
    ]

  unfoldable pub parse_detached_file : Bytes → Read DetachedFile
  unfolding parse_versioned
  parse_detached_file = read_n (length header_magic) >>= (λ magic.
      elim (bytes_equal magic header_magic) [
        | false ↦ refuse (text (codes "opentimestamps: bad .ots header magic"))
        | true ↦ parse_versioned
      ])

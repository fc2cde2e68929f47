-- ===== src/Crypto/Commit.antt =====
-- What the digests of canonical.go commit to, as far as SHA-256 has no collision on what is hashed.
use multi_log.Prelude.{
  ℕ, ◌≡◌, ◌≢◌, refl, sym, ◌∙◌, ap, arith, List, [], ◌∷◌, ◌++◌, Bytes, IsU64, ℤ, IsI64, to_u64,
  to_u64-IsU64, to_u64-injective, length, length-append, All, append-cut,
}
use multi_log.Crypto.{
  Sha256, canon_version, domain_entry, domain_genesis, domain_checkpoint, put_uint64, raw, hash,
  genesis_encoder, entry_leaf, entry_encoder, chain_hash, checkpoint_id, checkpoint_encoder,
  length-hash,
}
use multi_log.Crypto.Framing.{
  encode, Fits, put_uint64-injective, length-put_uint64, encode-injective,
}

-- SHA-256 does not collide on this pair of messages.
abbrev pub NoCollision : ⦃sha : Sha256⦄ → Bytes → Bytes → Type 0
NoCollision x y = hash x ≡ hash y → x ≡ y

-- The arguments of `entry_leaf`.
pub record Payload : Type 0 where
  pub tenant_id : Bytes
  pub seq : ℕ
  pub event_time : ℤ
  pub ingest_time : ℤ
  pub source : Bytes
  pub line : Bytes

-- The arguments of `checkpoint_id`.
pub record Commitment : Type 0 where
  pub tenant_id : Bytes
  pub seq_start : ℕ
  pub seq_end : ℕ
  pub entry_count : ℕ
  pub head_hash : Bytes
  pub merkle_root : Bytes
  pub prev : Bytes
  pub anchored_at : ℤ

-- The values that the source's types allow: uint64, int64, and strings shorter than 2 ^ 64.
pub record PayloadInRange (p : Payload) : Type 0 where
  pub tenant : Fits p.tenant_id
  pub position : IsU64 p.seq
  pub event : IsI64 p.event_time
  pub ingest : IsI64 p.ingest_time
  pub origin : Fits p.source
  pub text : Fits p.line

pub record CommitmentInRange (c : Commitment) : Type 0 where
  pub tenant : Fits c.tenant_id
  pub start : IsU64 c.seq_start
  pub end : IsU64 c.seq_end
  pub count : IsU64 c.entry_count
  pub head : Fits c.head_hash
  pub root : Fits c.merkle_root
  pub previous : Fits c.prev
  pub anchored : IsI64 c.anchored_at

-- The canonical bytes of each kind.
abbrev pub genesis_message : Bytes → Bytes
genesis_message t = raw (genesis_encoder t)

abbrev pub entry_message : Payload → Bytes
entry_message p = raw (entry_encoder p.tenant_id p.seq p.event_time p.ingest_time p.source p.line)

abbrev pub checkpoint_message : Commitment → Bytes
checkpoint_message c = raw (
    checkpoint_encoder c.tenant_id c.seq_start c.seq_end c.entry_count c.head_hash c.merkle_root
      c.prev c.anchored_at)

abbrev pub payload_leaf : ⦃sha : Sha256⦄ → Payload → Bytes
payload_leaf p = entry_leaf p.tenant_id p.seq p.event_time p.ingest_time p.source p.line

abbrev pub commitment_id : ⦃sha : Sha256⦄ → Commitment → Bytes
commitment_id c =
    checkpoint_id c.tenant_id c.seq_start c.seq_end c.entry_count c.head_hash c.merkle_root c.prev
      c.anchored_at

abbrev entry_list : Payload → List Bytes
entry_list p =
    put_uint64 canon_version
    ∷ p.tenant_id
    ∷ put_uint64 p.seq
    ∷ put_uint64 (to_u64 p.event_time)
    ∷ put_uint64 (to_u64 p.ingest_time)
    ∷ p.source
    ∷ p.line
    ∷ []

abbrev checkpoint_list : Commitment → List Bytes
checkpoint_list c =
    put_uint64 canon_version
    ∷ c.tenant_id
    ∷ put_uint64 c.seq_start
    ∷ put_uint64 c.seq_end
    ∷ put_uint64 c.entry_count
    ∷ c.head_hash
    ∷ c.merkle_root
    ∷ c.prev
    ∷ put_uint64 (to_u64 c.anchored_at)
    ∷ []

genesis_fields : (t : Bytes) → genesis_message t ≡ encode domain_genesis (t ∷ [])
unfolding genesis_encoder encode
genesis_fields t = refl

entry_fields : (p : Payload) → entry_message p ≡ encode domain_entry (entry_list p)
unfolding entry_encoder encode
entry_fields p = refl

checkpoint_fields :
    (c : Commitment) → checkpoint_message c ≡ encode domain_checkpoint (checkpoint_list c)
unfolding checkpoint_encoder encode
checkpoint_fields c = refl

u64_field : {n m : ℕ} → IsU64 n → IsU64 m → put_uint64 n ≡ put_uint64 m → n ≡ m
u64_field {n} {m} = put_uint64-injective n m

i64_field : {a b : ℤ} → IsI64 a → IsI64 b → put_uint64 (to_u64 a) ≡ put_uint64 (to_u64 b) → a ≡ b
i64_field {a} {b} ha hb e =
    to_u64-injective a b ha hb
      (put_uint64-injective (to_u64 a) (to_u64 b) (to_u64-IsU64 a) (to_u64-IsU64 b) e)

entry_list-Fits : {p : Payload} → PayloadInRange p → All Fits (domain_entry ∷ entry_list p)
entry_list-Fits h = omega (arith, length-put_uint64)

checkpoint_list-Fits :
    {c : Commitment} → CommitmentInRange c → All Fits (domain_checkpoint ∷ checkpoint_list c)
checkpoint_list-Fits h = omega (arith, length-put_uint64)

-- Two payloads with the same canonical bytes are the same payload.
pub entry_message-injective :
    {p q : Payload}
    → PayloadInRange p
    → PayloadInRange q
    → entry_message p ≡ entry_message q
    → p ≡ q
entry_message-injective {p} {q} h k e =
    let fields : entry_list p ≡ entry_list q =
      (encode-injective domain_entry domain_entry (entry_list p) (entry_list q) (entry_list-Fits h)
        (entry_list-Fits k) (sym (entry_fields p) ∙ e ∙ entry_fields q)).1 in
    let position : p.seq ≡ q.seq = u64_field h.position k.position (cc) in
    let event : p.event_time ≡ q.event_time = i64_field h.event k.event (cc) in
    let ingest : p.ingest_time ≡ q.ingest_time = i64_field h.ingest k.ingest (cc) in cc

-- Two payloads with the same leaf are the same, unless SHA-256 collides on their canonical bytes.
pub entry_leaf-injective :
    ⦃sha : Sha256⦄ {p q : Payload}
    → PayloadInRange p
    → PayloadInRange q
    → NoCollision (entry_message p) (entry_message q)
    → payload_leaf p ≡ payload_leaf q
    → p ≡ q
unfolding entry_leaf
entry_leaf-injective h k free e = entry_message-injective h k (free e)

checkpoint_message-injective :
    {c d : Commitment}
    → CommitmentInRange c
    → CommitmentInRange d
    → checkpoint_message c ≡ checkpoint_message d
    → c ≡ d
checkpoint_message-injective {c} {d} h k e =
    let fields : checkpoint_list c ≡ checkpoint_list d =
      (encode-injective domain_checkpoint domain_checkpoint (checkpoint_list c) (checkpoint_list d)
        (checkpoint_list-Fits h) (checkpoint_list-Fits k)
        (sym (checkpoint_fields c) ∙ e ∙ checkpoint_fields d)).1 in
    let start : c.seq_start ≡ d.seq_start = u64_field h.start k.start (cc) in
    let end : c.seq_end ≡ d.seq_end = u64_field h.end k.end (cc) in
    let count : c.entry_count ≡ d.entry_count = u64_field h.count k.count (cc) in
    let anchored : c.anchored_at ≡ d.anchored_at = i64_field h.anchored k.anchored (cc) in cc

-- Two checkpoints with the same id agree in the tenant, the window, the entry count, the head
-- hash, the Merkle root, the previous checkpoint and the time, unless SHA-256 collides on their
-- canonical bytes.
pub checkpoint_id-injective :
    ⦃sha : Sha256⦄ {c d : Commitment}
    → CommitmentInRange c
    → CommitmentInRange d
    → NoCollision (checkpoint_message c) (checkpoint_message d)
    → commitment_id c ≡ commitment_id d
    → c ≡ d
unfolding checkpoint_id
checkpoint_id-injective h k free e = checkpoint_message-injective h k (free e)

tags :
    {d d' : Bytes} (bs cs : List Bytes)
    → All Fits (d ∷ bs)
    → All Fits (d' ∷ cs)
    → encode d bs ≡ encode d' cs
    → d ≡ d'
tags {d} {d'} bs cs h k e = (encode-injective d d' bs cs h k e).0

-- The messages of a genesis, an entry and a checkpoint, all in range, are pairwise different.
domains_apart :
    (t : Bytes) {p : Payload} {c : Commitment}
    → Fits t
    → PayloadInRange p
    → CommitmentInRange c
    → (genesis_message t ≢ entry_message p)
      × (genesis_message t ≢ checkpoint_message c)
      × (entry_message p ≢ checkpoint_message c)
domains_apart t {p} {c} ht hp hc = (
  λ e.
      let same =
        tags (t ∷ []) (entry_list p) (omega arith) (entry_list-Fits hp)
          (sym (genesis_fields t) ∙ e ∙ entry_fields p) in
      cc,
  λ e.
      let same =
        tags (t ∷ []) (checkpoint_list c) (omega arith) (checkpoint_list-Fits hc)
          (sym (genesis_fields t) ∙ e ∙ checkpoint_fields c) in
      cc,
  λ e.
      let same =
        tags (entry_list p) (checkpoint_list c) (entry_list-Fits hp) (checkpoint_list-Fits hc)
          (sym (entry_fields p) ∙ e ∙ checkpoint_fields c) in
      cc,
)

-- A link of the chain commits to both of its halves where the leaves are equally long, unless
-- SHA-256 collides on the two concatenations.
pub chain_hash-injective :
    ⦃sha : Sha256⦄ (prev prev' leaf leaf' : Bytes)
    → length leaf ≡ length leaf'
    → NoCollision (prev ++ leaf) (prev' ++ leaf')
    → chain_hash prev leaf ≡ chain_hash prev' leaf'
    → (prev ≡ prev') × (leaf ≡ leaf')
unfolding chain_hash
chain_hash-injective prev prev' leaf leaf' same free e =
    let joined : prev ++ leaf ≡ prev' ++ leaf' = free e in
    append-cut prev leaf prev' leaf'
      (omega
        (arith, length-append prev leaf, length-append prev' leaf', ap (length {A = ℕ}) joined))
      joined

pub length-entry_leaf : ⦃sha : Sha256⦄ (p : Payload) → length (payload_leaf p) ≡ 32
unfolding entry_leaf
length-entry_leaf p = length-hash _

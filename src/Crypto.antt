-- ===== src/Crypto.antt =====
-- internal/crypto/canonical.go: the canonical, length-prefixed encoding and the hashes over it.
-- A Go string is its bytes. SHA-256 is Go's standard library: a parameter, `Sha256`, of which the
-- code relies on the length of the digest.
pub mod Framing
pub mod Commit
use multi_log.Prelude.{ℕ, ◌^◌, ◌%◌, ◌≡◌, Bytes, ◌++◌, [], ℤ, codes, length, be_bytes, to_u64}

-- crypto/sha256
pub record Sha256 : Type 0 where
  pub sum256 : Bytes → Bytes
  pub length-sum256 : (b : Bytes) → length (sum256 b) ≡ 32

abbrev pub canon_version : ℕ
canon_version = 1

abbrev pub domain_entry : Bytes
domain_entry = codes "mlog/entry/v1"

abbrev pub domain_genesis : Bytes
domain_genesis = codes "mlog/genesis/v1"

abbrev pub domain_checkpoint : Bytes
domain_checkpoint = codes "mlog/checkpoint/v1"

pub record Encoder : Type 0 where
  pub buf : Bytes

-- binary.BigEndian.PutUint64
unfoldable pub put_uint64 : ℕ → Bytes
put_uint64 n = be_bytes 8 n

unfoldable pub field : Bytes → Encoder → Encoder
field b e = record { buf = e.buf ++ (put_uint64 (length b % 2 ^ 64) ++ b) }

unfoldable pub new_encoder : Bytes → Encoder
new_encoder domain = field domain (record { buf = [] })

unfoldable pub bytes : Bytes → Encoder → Encoder
bytes b e = field b e

unfoldable pub str : Bytes → Encoder → Encoder
str s e = field s e

unfoldable pub uint : ℕ → Encoder → Encoder
uint n e = field (put_uint64 n) e

unfoldable pub int : ℤ → Encoder → Encoder
unfolding uint
int n e = uint (to_u64 n) e

-- Method calls in the source's order: `e ▸ str s` is `e.Str(s)`.
infixl 40 ◌▸◌
abbrev pub ◌▸◌ : Encoder → (Encoder → Encoder) → Encoder
e ▸ method = method e

abbrev pub raw : Encoder → Bytes
raw e = e.buf

-- The encoder that each of the three digests below sums up.
unfoldable pub genesis_encoder : Bytes → Encoder
unfolding new_encoder field str
genesis_encoder tenant_id = new_encoder domain_genesis ▸ str tenant_id

unfoldable pub entry_encoder : Bytes → ℕ → ℤ → ℤ → Bytes → Bytes → Encoder
unfolding new_encoder field str uint int
entry_encoder tenant_id seq event_time ingest_time source line =
    new_encoder domain_entry
    ▸ uint canon_version
    ▸ str tenant_id
    ▸ uint seq
    ▸ int event_time
    ▸ int ingest_time
    ▸ str source
    ▸ str line

unfoldable pub checkpoint_encoder : Bytes → ℕ → ℕ → ℕ → Bytes → Bytes → Bytes → ℤ → Encoder
unfolding new_encoder field str uint int bytes
checkpoint_encoder tenant_id seq_start seq_end entry_count head_hash merkle_root prev anchored_at =
    new_encoder domain_checkpoint
    ▸ uint canon_version
    ▸ str tenant_id
    ▸ uint seq_start
    ▸ uint seq_end
    ▸ uint entry_count
    ▸ bytes head_hash
    ▸ bytes merkle_root
    ▸ bytes prev
    ▸ int anchored_at

module _ ⦃sha : Sha256⦄ where
  unfoldable pub hash : Bytes → Bytes
  hash b = sha.sum256 b

  unfoldable pub sum : Encoder → Bytes
  unfolding hash
  sum e = hash e.buf

  unfoldable pub genesis : Bytes → Bytes
  unfolding sum
  genesis tenant_id = sum (genesis_encoder tenant_id)

  unfoldable pub entry_leaf : Bytes → ℕ → ℤ → ℤ → Bytes → Bytes → Bytes
  unfolding sum
  entry_leaf tenant_id seq event_time ingest_time source line =
      sum (entry_encoder tenant_id seq event_time ingest_time source line)

  unfoldable pub chain_hash : Bytes → Bytes → Bytes
  unfolding hash
  chain_hash prev_hash leaf = hash (prev_hash ++ leaf)

  unfoldable pub checkpoint_id : Bytes → ℕ → ℕ → ℕ → Bytes → Bytes → Bytes → ℤ → Bytes
  unfolding sum
  checkpoint_id tenant_id seq_start seq_end entry_count head_hash merkle_root prev anchored_at =
      sum (
        checkpoint_encoder tenant_id seq_start seq_end entry_count head_hash merkle_root prev
          anchored_at)

  pub length-hash : (b : Bytes) → length (hash b) ≡ 32
  unfolding hash
  length-hash b = sha.length-sum256 b

-- ===== src/Checkpoint.antt =====
-- internal/checkpoint/checkpoint.go: the commitment to a window of entries.
pub mod Merkle
pub mod Built
pub mod Window
pub mod Codec
use multi_log.Prelude.{
  ℕ, ◌%◌, ◌^◌, List, [], ◌∷◌, map, Bytes, ℤ, length, Run, done, panicked, ◌>>=◌,
}
use multi_log.Crypto.{Sha256, canon_version, checkpoint_id}
use multi_log.Crypto.Commit.{Commitment}
use multi_log.Chain.{Entry}
use multi_log.Checkpoint.Merkle.{merkle_root}

pub record Checkpoint : Type 0 where
  pub tenant_id : Bytes
  pub seq_start : ℕ
  pub seq_end : ℕ
  pub entry_count : ℕ
  pub head_hash : Bytes
  pub merkle_root : Bytes
  pub prev_checkpoint_hash : Bytes
  pub anchored_at : ℤ
  pub canon_version : ℕ
  pub checkpoint_id : Bytes

-- What a checkpoint's id is taken of.
abbrev pub commitment : Checkpoint → Commitment
commitment cp = record {
  tenant_id = cp.tenant_id;
  seq_start = cp.seq_start;
  seq_end = cp.seq_end;
  entry_count = cp.entry_count;
  head_hash = cp.head_hash;
  merkle_root = cp.merkle_root;
  prev = cp.prev_checkpoint_hash;
  anchored_at = cp.anchored_at;
}

-- `entries[0]` and `entries[len(entries)-1]`
abbrev pub first_entry : List Entry → Run Entry
first_entry [] = panicked
first_entry (e ∷ es) = done e

abbrev pub last_entry : List Entry → Run Entry
last_entry [] = panicked
last_entry (e ∷ []) = done e
last_entry (e ∷ x ∷ es) = last_entry (x ∷ es)

module _ ⦃sha : Sha256⦄ where
  unfoldable pub build : Bytes → List Entry → Bytes → ℤ → Run Checkpoint
  build tenant_id entries prev_checkpoint_id anchored_at = do
    first ← first_entry entries
    last ← last_entry entries
    root ← merkle_root (map (λ e. e.entry_hash) entries)
    let count = length entries % 2 ^ 64
    done (record {
      tenant_id = tenant_id;
      seq_start = first.seq;
      seq_end = last.seq;
      entry_count = count;
      head_hash = last.entry_hash;
      merkle_root = root;
      prev_checkpoint_hash = prev_checkpoint_id;
      anchored_at = anchored_at;
      canon_version = canon_version;
      checkpoint_id =
          checkpoint_id tenant_id first.seq last.seq count last.entry_hash root prev_checkpoint_id
            anchored_at;
    })

-- ===== src/Anchor/Views.antt =====
-- internal/anchor/anchor.go: what the anchorer relies on of the services that it calls. A view says
-- what the services hold in a state; the laws say what a call that succeeds has read or changed, and
-- what no call changes. Nothing is said of what a failed write has written of its own.
use multi_log.Prelude.{
  ℕ, ◌^◌, ◌<◌, ◌≡◌, ◌≢◌, false, List, [], ◌∷◌, ◌++◌, Option, some, Bytes, bytes_equal, IsI64, All,
  drop, immutable, ok, err,
}
use multi_log.Chain.{Entry}
use multi_log.Checkpoint.{Checkpoint}
use multi_log.Witness.{Proof, ProofLedger, get_proofs}
use multi_log.Anchor.{Services}

pub record Views (s : Services) : Type 0 where
  -- The rows of a tenant, by number.
  pub rows : Bytes → s.World → List Entry
  -- The checkpoints that the WORM store lists for it, by end.
  pub held : Bytes → s.World → List Checkpoint
  -- The end and the id of the last checkpoint of the working copy.
  pub last : Bytes → s.World → Option (ℕ × Bytes)
  -- The proofs.
  pub ledger : s.World → ProofLedger

-- All listed checkpoints end before this one does.
abbrev pub IsBeyond : List Checkpoint → Checkpoint → Type 0
IsBeyond olds cp = All (λ (old : Checkpoint). old.seq_end < cp.seq_end) olds

pub record IsFaithful (s : Services) (v : Views s) : Type 1 where
  pub clock : (w : s.World) → IsI64 (s.now w)
  pub last_read :
      (t : Bytes) (w : s.World) (x : Option (ℕ × Bytes))
      → s.last_checkpoint t w ≡ ok x
      → x ≡ v.last t w
  -- The rows from `n` on, or the first of them: the query has a limit.
  pub rows_read :
      (t : Bytes) (n : ℕ) (w : s.World) (es : List Entry)
      → s.entries_asc t n w ≡ ok es
      → (more : List Entry) × (drop n (v.rows t w) ≡ es ++ more)
  pub worm_rows :
      (cp : Checkpoint) (w : s.World) (u : Bytes) → v.rows u (s.worm_put cp w).1 ≡ v.rows u w
  pub worm_last :
      (cp : Checkpoint) (w : s.World) (u : Bytes) → v.last u (s.worm_put cp w).1 ≡ v.last u w
  pub worm_ledger : (cp : Checkpoint) (w : s.World) → v.ledger (s.worm_put cp w).1 ≡ v.ledger w
  pub worm_others :
      (cp : Checkpoint) (w : s.World) (u : Bytes)
      → bytes_equal cp.tenant_id u ≡ false
      → v.held u (s.worm_put cp w).1 ≡ v.held u w
  pub worm_stored :
      (cp : Checkpoint) (w : s.World)
      → (s.worm_put cp w).0 ≡ ok tt
      → IsBeyond (v.held cp.tenant_id w) cp
      → v.held cp.tenant_id (s.worm_put cp w).1 ≡ v.held cp.tenant_id w ++ cp ∷ []
  -- Only a checkpoint in its place is refused as immutable.
  pub worm_refused :
      (cp : Checkpoint) (w : s.World)
      → IsBeyond (v.held cp.tenant_id w) cp
      → (s.worm_put cp w).0 ≢ err immutable
  -- A place that is taken stays as it is.
  pub worm_taken :
      (cp old : Checkpoint) (w : s.World) (olds more : List Checkpoint)
      → v.held cp.tenant_id w ≡ olds ++ old ∷ more
      → old.seq_end ≡ cp.seq_end
      → v.held cp.tenant_id (s.worm_put cp w).1 ≡ v.held cp.tenant_id w
  pub copy_rows :
      (cp : Checkpoint) (w : s.World) (u : Bytes) → v.rows u (s.put_checkpoint cp w).1 ≡ v.rows u w
  pub copy_held :
      (cp : Checkpoint) (w : s.World) (u : Bytes) → v.held u (s.put_checkpoint cp w).1 ≡ v.held u w
  pub copy_ledger :
      (cp : Checkpoint) (w : s.World) → v.ledger (s.put_checkpoint cp w).1 ≡ v.ledger w
  pub copy_others :
      (cp : Checkpoint) (w : s.World) (u : Bytes)
      → bytes_equal cp.tenant_id u ≡ false
      → v.last u (s.put_checkpoint cp w).1 ≡ v.last u w
  -- ON CONFLICT DO NOTHING, and the last checkpoint is the one with the highest end.
  pub copy_stored :
      (cp : Checkpoint) (w : s.World)
      → (s.put_checkpoint cp w).0 ≡ ok tt
      → ((end : ℕ) (id : Bytes) → v.last cp.tenant_id w ≡ some (end, id) → end < cp.seq_end)
      → v.last cp.tenant_id (s.put_checkpoint cp w).1 ≡ some (cp.seq_end, cp.checkpoint_id)
  pub proof_rows :
      (t : Bytes) (end : ℕ) (p : Proof) (w : s.World) (u : Bytes)
      → v.rows u (s.put_proof t end p w).1 ≡ v.rows u w
  pub proof_held :
      (t : Bytes) (end : ℕ) (p : Proof) (w : s.World) (u : Bytes)
      → v.held u (s.put_proof t end p w).1 ≡ v.held u w
  pub proof_last :
      (t : Bytes) (end : ℕ) (p : Proof) (w : s.World) (u : Bytes)
      → v.last u (s.put_proof t end p w).1 ≡ v.last u w
  -- A window's proofs afterwards are those before, in any order, and the new one, if that.
  pub proof_own :
      (t : Bytes) (end : ℕ) (p : Proof) (w : s.World) (P : Proof → Type 0)
      → end < 2 ^ 64
      → All P (get_proofs t end (v.ledger w))
      → P p
      → All P (get_proofs t end (v.ledger (s.put_proof t end p w).1))
  pub proof_others :
      (t : Bytes) (end : ℕ) (p : Proof) (w : s.World) (u : Bytes) (m : ℕ)
      → end < 2 ^ 64
      → m < 2 ^ 64
      → ¬ ((t ≡ u) × (end ≡ m))
      → get_proofs u m (v.ledger (s.put_proof t end p w).1) ≡ get_proofs u m (v.ledger w)

-- ===== src/Verify.antt =====
-- internal/verify/verify.go: recompute every chain and checkpoint, and compare with the witnesses.
-- The report is passed along; the store too, since reading a tenant sorts its slice. An issue's text
-- is kept as its arguments.
pub mod Replay
pub mod Checkpoints
pub mod Tamper
pub mod Evident
pub mod Whole
use multi_log.Prelude.{
  ℕ, ◌+◌, ◌%◌, ◌^◌, Bool, true, false, not, ◌==◌, if◌then◌else◌, List, [], ◌∷◌, ◌++◌, Option, none,
  some, Bytes, bytes_equal, Map, Bytes_eq, get, put, length, Error, Result, ok, err, Run, done,
  ◌>>=◌,
}
use multi_log.Crypto.{Sha256, genesis, entry_leaf, chain_hash}
use multi_log.Chain
use multi_log.Chain.{Entry, Store, range, tenants}
use multi_log.Checkpoint.{Checkpoint, build}
use multi_log.Witness.{CheckpointStore, Notary, Proof, ProofLedger, get_proofs}

pub data Kind : Type 0 where
  sequence_gap chain_break entry_tamper worm_error truncation checkpoint_mismatch : Kind
  notary_mismatch : Kind

-- What each `Detail` text says beside its fixed words.
pub data Detail : Type 0 where
  expected_found : ℕ → ℕ → Detail
  prev_hash_unlinked : Detail
  entry_hash_differs : Detail
  worm_unreadable : Error → Detail
  committed_missing : ℕ → ℕ → ℕ → ℕ → Detail
  window_differs : ℕ → ℕ → Detail
  proof_refused : Bytes → Error → Detail

pub record Issue : Type 0 where
  pub tenant : Bytes
  pub seq : ℕ
  pub has_seq : Bool
  pub kind : Kind
  pub detail : Detail

pub record Report : Type 0 where
  pub issues : List Issue
  pub entries_checked : ℕ
  pub checkpoints_seen : ℕ
  pub proofs_checked : ℕ

abbrev pub empty_report : Report
empty_report = record { issues = []; entries_checked = 0; checkpoints_seen = 0; proofs_checked = 0 }

unfoldable pub report_ok : Report → Bool
report_ok r = length r.issues == 0

abbrev pub add_issue : Report → Issue → Report
add_issue r i = record r { issues = r.issues ++ i ∷ [] }

abbrev pub issue_at : Bytes → ℕ → Kind → Detail → Issue
issue_at tenant seq kind detail = record {
  tenant = tenant;
  seq = seq;
  has_seq = true;
  kind = kind;
  detail = detail;
}

module _ ⦃sha : Sha256⦄ where
  -- The loop of `verifyChain` over the entries that are left.
  unfoldable pub verify_entries : Bytes → Bytes → ℕ → List Entry → Report → Report
  verify_entries tenant prev want [] r = r
  verify_entries tenant prev want (e ∷ es) r =
      let r' = record r { entries_checked = r.entries_checked + 1 } in
      let leaf = entry_leaf tenant e.seq e.event_time e.ingest_time e.source e.raw in
      let recomputed = chain_hash prev leaf in
      let rest = verify_entries tenant e.entry_hash ((want + 1) % 2 ^ 64) es r' in
      if not (e.seq == want)
      then add_issue r' (issue_at tenant want sequence_gap (expected_found want e.seq))
      else if not (bytes_equal e.prev_hash prev)
      then add_issue r' (issue_at tenant e.seq chain_break prev_hash_unlinked)
      else if not (bytes_equal e.entry_hash recomputed)
      then add_issue r' (issue_at tenant e.seq entry_tamper entry_hash_differs)
      else rest

  unfoldable pub verify_chain : Store → Bytes → Report → Report × Store
  unfolding verify_entries
  verify_chain store tenant r =
      let (es, store') = Chain.tenant tenant store in
      (verify_entries tenant (genesis tenant) 0 es r, store')

  -- What a notary's verdict on a proof adds.
  unfoldable pub note_verdict : Bytes → ℕ → Proof → Result (Unit {0}) → Report → Report
  note_verdict tenant seq_end p (ok _) r = r
  note_verdict tenant seq_end p (err e) r =
      add_issue r (issue_at tenant seq_end notary_mismatch (proof_refused p.notary e))

  -- A proof is checked against the rebuilt id if its notary is known.
  unfoldable pub verify_proof : Map Bytes Notary → Bytes → ℕ → Bytes → Proof → Report → Report
  unfolding note_verdict
  verify_proof notaries tenant seq_end id p r = elim (get p.notary notaries) [
    | none ↦ r
    | some nt ↦
        note_verdict tenant seq_end p (nt.verify p id)
          (record r { proofs_checked = r.proofs_checked + 1 })
  ]

  -- Step 3 of a checkpoint: the loop over the proofs that the ledger holds.
  unfoldable pub verify_proofs : Map Bytes Notary → Bytes → ℕ → Bytes → List Proof → Report → Report
  verify_proofs notaries tenant seq_end id [] r = r
  verify_proofs notaries tenant seq_end id (p ∷ ps) r =
      verify_proofs notaries tenant seq_end id ps (verify_proof notaries tenant seq_end id p r)

  -- Step 2: what comparing the rebuilt id with the anchored one adds.
  abbrev pub compare_ids : Bytes → Checkpoint → Checkpoint → Report → Report
  compare_ids tenant cp rebuilt r =
      if not (bytes_equal rebuilt.checkpoint_id cp.checkpoint_id)
      then add_issue r
          (issue_at tenant cp.seq_end checkpoint_mismatch (window_differs cp.seq_start cp.seq_end))
      else r

  -- What follows the call of `Range` for a checkpoint, on its two results.
  unfoldable pub verify_window :
      ProofLedger
      → Map Bytes Notary
      → Bytes
      → Bytes
      → Checkpoint
      → Report
      → List Entry × Bool
      → Run Report
  verify_window ledger notaries tenant prev_id cp r (entries, false) =
      let first_missing = (cp.seq_start + length entries) % 2 ^ 64 in
      done (
        add_issue r (
          issue_at tenant first_missing truncation
            (committed_missing cp.seq_start cp.seq_end cp.entry_count first_missing)))
  verify_window ledger notaries tenant prev_id cp r (entries, true) = do
    rebuilt ← build tenant entries prev_id cp.anchored_at
    done (
        verify_proofs notaries tenant cp.seq_end rebuilt.checkpoint_id
          (get_proofs tenant cp.seq_end ledger) (compare_ids tenant cp rebuilt r))

  -- Steps 1 to 3 for one anchored checkpoint.
  unfoldable pub verify_checkpoint :
      Store → ProofLedger → Map Bytes Notary → Bytes → Bytes → Checkpoint → Report → Run Report
  unfolding verify_window
  verify_checkpoint store ledger notaries tenant prev_id cp r = do
    let r' = record r { checkpoints_seen = r.checkpoints_seen + 1 }
    found ← range tenant cp.seq_start cp.seq_end store
    verify_window ledger notaries tenant prev_id cp r' found

  -- The loop over the anchored checkpoints; `prev_id` is the id of the one before.
  unfoldable pub verify_anchored :
      Store → ProofLedger → Map Bytes Notary → Bytes → Bytes → List Checkpoint → Report → Run Report
  verify_anchored store ledger notaries tenant prev_id [] r = done r
  verify_anchored store ledger notaries tenant prev_id (cp ∷ cps) r = do
    r' ← verify_checkpoint store ledger notaries tenant prev_id cp r
    verify_anchored store ledger notaries tenant cp.checkpoint_id cps r'

  unfoldable pub verify_checkpoints :
      Store
      → Result (List Checkpoint)
      → ProofLedger
      → Map Bytes Notary
      → Bytes
      → Report
      → Run Report
  verify_checkpoints store (err e) ledger notaries tenant r = done (
      add_issue r (record {
        tenant = tenant;
        seq = 0;
        has_seq = false;
        kind = worm_error;
        detail = worm_unreadable e;
      }))
  verify_checkpoints store (ok anchored) ledger notaries tenant r =
      verify_anchored store ledger notaries tenant [] anchored r

  -- The loop of `Verify` over the tenants.
  unfoldable pub verify_tenants :
      Store
      → (Bytes → Result (List Checkpoint))
      → ProofLedger
      → Map Bytes Notary
      → List Bytes
      → Report
      → Run (Report × Store)
  verify_tenants store all ledger notaries [] r = done (r, store)
  verify_tenants store all ledger notaries (t ∷ ts) r = do
    let (r', store') = verify_chain store t r
    r'' ← verify_checkpoints store' (all t) ledger notaries t r'
    verify_tenants store' all ledger notaries ts r''

  unfoldable pub by_name : List Notary → Map Bytes Notary → Map Bytes Notary
  by_name [] m = m
  by_name (n ∷ ns) m = by_name ns (put n.name n m)

  unfoldable pub verify :
      Store
      → (worm : CheckpointStore) → worm.State
      → ProofLedger
      → List Notary
      → Run (Report × Store)
  unfolding verify_tenants by_name
  verify store worm state ledger notaries =
      verify_tenants store (λ t. worm.all_checkpoints t state) ledger (by_name notaries [])
        (tenants store) empty_report

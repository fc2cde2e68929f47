-- ===== src/Verify/Checkpoints.antt =====
-- What the checks of one anchored checkpoint report.
use multi_log.Prelude.{
  ℕ, ◌+◌, ◌%◌, ◌^◌, ◌≤◌, ◌≡◌, ◌≢◌, ◌∙◌, ap, arith, Bool, true, false, Bool-cases, Option-cases, inl,
  inr, List, [], ◌∷◌, Bytes, bytes_equal, bytes_equal→eq, Map, Bytes_eq, get, length, length-append,
  Result, ok, err, Run, done, >>=-eq-done, done-injective,
}
use multi_log.Crypto.{Sha256}
use multi_log.Chain.{Entry, Store, range}
use multi_log.Checkpoint.{Checkpoint, build}
use multi_log.Witness.{Notary, Proof, ProofLedger, get_proofs}
use multi_log.Verify.{
  Issue, Report, add_issue, issue_at, note_verdict, verify_proof, verify_proofs, verify_window,
  compare_ids, verify_checkpoint, truncation, checkpoint_mismatch, window_differs,
  committed_missing,
}

module _ ⦃sha : Sha256⦄ where
  abbrev pub issue_count : Report → ℕ
  issue_count r = length r.issues

  note_verdict_grows :
      (t : Bytes) (end : ℕ) (p : Proof) (v : Result (Unit {0})) (r : Report)
      → issue_count r ≤ issue_count (note_verdict t end p v r)
  unfolding note_verdict
  note_verdict_grows t end p (ok _) r = omega arith
  note_verdict_grows t end p (err e) r = omega (arith, length-append r.issues (_ ∷ []))

  verify_proof_grows :
      (notaries : Map Bytes Notary) (t : Bytes) (end : ℕ) (id : Bytes) (p : Proof) (r : Report)
      → issue_count r ≤ issue_count (verify_proof notaries t end id p r)
  unfolding verify_proof
  verify_proof_grows notaries t end id p r = elim (Option-cases (get p.notary notaries)) [
    | inl unknown ↦ rw (unknown, verify_proof) (omega arith)
    | inr (nt, known) ↦ rw (known, verify_proof) (note_verdict_grows t end p (nt.verify p id) _)
  ]

  -- Checking proofs removes no issue.
  pub verify_proofs_grows :
      (notaries : Map Bytes Notary) (t : Bytes) (end : ℕ) (id : Bytes) (ps : List Proof)
      (r : Report)
      → issue_count r ≤ issue_count (verify_proofs notaries t end id ps r)
  unfolding verify_proofs
  verify_proofs_grows notaries t end id [] r = omega arith
  verify_proofs_grows notaries t end id (p ∷ ps) r = omega (
    arith,
    verify_proof_grows notaries t end id p r,
    verify_proofs_grows notaries t end id ps (verify_proof notaries t end id p r),
  )

  module _ (store : Store) (ledger : ProofLedger) (notaries : Map Bytes Notary) (t prev_id : Bytes)
      (cp : Checkpoint) (r : Report) where
    abbrev seen : Report
    seen = record r { checkpoints_seen = r.checkpoints_seen + 1 }

    -- The report where the window is complete and `rebuilt` is what its entries give.
    abbrev compared : Checkpoint → Report
    compared rebuilt =
        verify_proofs notaries t cp.seq_end rebuilt.checkpoint_id (get_proofs t cp.seq_end ledger)
          (compare_ids t cp rebuilt seen)

    -- An incomplete window is reported at the first sequence number that is missing.
    pub verify_checkpoint-missing :
        (found : List Entry)
        → range t cp.seq_start cp.seq_end store ≡ done (found, false)
        → let missing : ℕ = (cp.seq_start + length found) % 2 ^ 64 in
          verify_checkpoint store ledger notaries t prev_id cp r
          ≡ done (
              add_issue seen (
                issue_at t missing truncation
                  (committed_missing cp.seq_start cp.seq_end cp.entry_count missing)))
    unfolding verify_checkpoint
    verify_checkpoint-missing found e = rw e

    pub verify_checkpoint-found :
        (found : List Entry) (rebuilt : Checkpoint)
        → range t cp.seq_start cp.seq_end store ≡ done (found, true)
        → build t found prev_id cp.anchored_at ≡ done rebuilt
        → verify_checkpoint store ledger notaries t prev_id cp r ≡ done (compared rebuilt)
    unfolding verify_checkpoint
    verify_checkpoint-found found rebuilt e b = rw (e, b)

    -- What a check that adds no issue has found out.
    abbrev pub Confirmed : Type 0
    Confirmed =
        (found : List Entry) × (rebuilt : Checkpoint) × (range t cp.seq_start cp.seq_end store
          ≡ done (found, true))
        × (build t found prev_id cp.anchored_at ≡ done rebuilt)
        × (rebuilt.checkpoint_id ≡ cp.checkpoint_id)

    compared-confirms :
        (rebuilt : Checkpoint)
        → (compared rebuilt).issues ≡ r.issues
        → rebuilt.checkpoint_id ≡ cp.checkpoint_id
    compared-confirms rebuilt clean =
        elim (Bool-cases (bytes_equal rebuilt.checkpoint_id cp.checkpoint_id)) [
          | inl same ↦ bytes_equal→eq rebuilt.checkpoint_id cp.checkpoint_id same
          | inr differs ↦
              let fewer = ap (length {A = Issue}) (rw differs at clean) in
              absurd (
                omega (
                  arith,
                  fewer,
                  verify_proofs_grows notaries t cp.seq_end rebuilt.checkpoint_id
                      (get_proofs t cp.seq_end ledger)
                      (add_issue seen (
                        issue_at t cp.seq_end checkpoint_mismatch
                          (window_differs cp.seq_start cp.seq_end))),
                  length-append r.issues (_ ∷ []),
                ))
        ]

    missing_reported :
        (r' : Report) (i : Issue)
        → ◌≡◌ {A = Run Report} (done (add_issue seen i)) (done r')
        → r'.issues ≢ r.issues
    missing_reported r' i now clean =
        let more = ap (λ (x : Report). length x.issues) (done-injective now) in
        omega (arith, more, length-append r.issues (i ∷ []), ap (length {A = Issue}) clean)

    window_confirms :
        (w : List Entry × Bool) (r' : Report)
        → range t cp.seq_start cp.seq_end store ≡ done w
        → verify_window ledger notaries t prev_id cp seen w ≡ done r'
        → r'.issues ≡ r.issues
        → Confirmed
    unfolding verify_window
    window_confirms (found, false) r' ranged now clean = absurd (missing_reported r' _ now clean)
    window_confirms (found, true) r' ranged after clean =
        let (rebuilt, built, now) = >>=-eq-done (build t found prev_id cp.anchored_at) _ after in
        (
          found,
          rebuilt,
          ranged,
          built,
          compared-confirms rebuilt (ap (λ (x : Report). x.issues) (done-injective now) ∙ clean),
        )

    -- If the check of a checkpoint ends and adds no issue, the window is complete in the store and
    -- rebuilding the checkpoint from it gives the anchored id.
    pub verify_checkpoint_clean :
        (r' : Report)
        → verify_checkpoint store ledger notaries t prev_id cp r ≡ done r'
        → r'.issues ≡ r.issues
        → Confirmed
    unfolding verify_checkpoint
    verify_checkpoint_clean r' ends clean =
        let (w, ranged, after) = >>=-eq-done (range t cp.seq_start cp.seq_end store) _ ends in
        window_confirms w r' ranged after clean

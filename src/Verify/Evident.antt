-- ===== src/Verify/Evident.antt =====
-- internal/verify/verify.go: which stores pass for a checkpoint that was anchored, and which do not.
use multi_log.Prelude.{
  ℕ, suc, ◌+◌, ◌%◌, ◌^◌, ◌≤◌, ◌<◌, ◌≡◌, refl, ◌∙◌, arith, List, [], ◌∷◌, Bytes, bytes_equal_refl,
  length, take, Map, Bytes_eq, get, or_nil, Option-cases, inl, inr, All, ok, done, some,
}
use multi_log.Crypto.{Sha256, genesis}
use multi_log.Crypto.Framing.{Fits}
use multi_log.Crypto.Commit.{NoCollision, checkpoint_message}
use multi_log.Chain.{Entry, Store}
use multi_log.Chain.Window.Slices.{range-short}
use multi_log.Chain.Sealer.Chained.{IsChained}
use multi_log.Chain.Sealer.Agree.{payloads, AllInRange, NoChainCollision}
use multi_log.Checkpoint.{Checkpoint, commitment, build}
use multi_log.Checkpoint.Window.{window}
use multi_log.Witness.{Notary, Proof, ProofLedger, get_proofs}
use multi_log.Verify.{
  Report, add_issue, issue_at, verify_entries, verify_proof, verify_proofs, note_verdict,
  verify_checkpoint, truncation, committed_missing,
}
use multi_log.Verify.Replay.{IsChained-verify_entries}
use multi_log.Verify.Checkpoints.{verify_checkpoint-missing, verify_checkpoint-found}
use multi_log.Verify.Tamper.{
  Anchored, anchored_commits, fs-IsNumbered, found_whole, nothing_missing, same_payloads, same_link,
}

module _ ⦃sha : Sha256⦄ where
  -- The notary that made a proof, if it is known, attests the id.
  abbrev pub Attests : Map Bytes Notary → Bytes → Proof → Type 0
  Attests notaries id p = (nt : Notary) → get p.notary notaries ≡ some nt → nt.verify p id ≡ ok tt

  verify_proof-Attests :
      (notaries : Map Bytes Notary) (t : Bytes) (end : ℕ) (id : Bytes) (p : Proof) (r : Report)
      → Attests notaries id p
      → (verify_proof notaries t end id p r).issues ≡ r.issues
  unfolding verify_proof note_verdict
  verify_proof-Attests notaries t end id p r good = elim (Option-cases (get p.notary notaries)) [
    | inl unknown ↦ rw (unknown, verify_proof) refl
    | inr (nt, known) ↦ rw (known, verify_proof, good nt known) refl
  ]

  verify_proofs-Attests :
      (notaries : Map Bytes Notary) (t : Bytes) (end : ℕ) (id : Bytes) (ps : List Proof)
      (r : Report)
      → All (Attests notaries id) ps
      → (verify_proofs notaries t end id ps r).issues ≡ r.issues
  unfolding verify_proofs
  verify_proofs-Attests notaries t end id [] r good = refl
  verify_proofs-Attests notaries t end id (p ∷ ps) r (one, more) =
      verify_proofs-Attests notaries t end id ps (verify_proof notaries t end id p r) more
      ∙ verify_proof-Attests notaries t end id p r one

  -- A checkpoint was anchored over the entries `start` to `end` of a chain `es` that began at the
  -- genesis hash. If later a store's entries `fs` for the tenant are replayed, and the checkpoint is
  -- checked, and neither adds an issue, then no entry up to `end` is missing, every entry up to `end`
  -- has the payload (tenant, number, both times, source, raw line) it had, and the checkpoint before
  -- is the one this one was linked to. SHA-256 is assumed not to
  -- collide on the messages compared, and lengths and values to be in the range of their Go types.
  pub tamper_evident :
      (t : Bytes) (start end : ℕ) (es : List Entry) (prev : Bytes) (cp : Checkpoint)
      (a : Anchored t start end es prev cp) (fs : List Entry) (store : Store)
      → or_nil (get t store.entries) ≡ fs
      → length fs < 2 ^ 64
      → (r0 : Report) → (verify_entries t (genesis t) 0 fs r0).issues ≡ r0.issues
      → (ledger : ProofLedger) (notaries : Map Bytes Notary) (prev_id : Bytes) (r r' : Report)
      → verify_checkpoint store ledger notaries t prev_id cp r ≡ done r'
      → r'.issues ≡ r.issues
      → Fits prev_id
      → AllInRange t fs
      → ((rebuilt : Checkpoint)
          → build t (window start end fs) prev_id cp.anchored_at ≡ done rebuilt
          → NoCollision
              (checkpoint_message (commitment rebuilt))
              (checkpoint_message (commitment cp)))
      → NoChainCollision t (genesis t) (take (suc end) fs) (genesis t) (take (suc end) es)
      → (end < length fs)
        × (payloads t (take (suc end) fs) ≡ payloads t (take (suc end) es))
        × (prev_id ≡ prev)
  tamper_evident t start end es prev cp a fs store at bounded r0 replayed ledger notaries prev_id r
        r' ends clean linked in_range free_id free_chain =
      let chained : IsChained t 0 (genesis t) fs =
        IsChained-verify_entries t (genesis t) 0 fs r0 (omega arith) replayed in
      (
        nothing_missing t start end es prev cp a fs store at bounded chained ledger notaries prev_id
            r r' ends clean,
        same_payloads t start end es prev cp a fs store at bounded chained ledger notaries prev_id r
            r' ends clean linked in_range free_id free_chain,
        same_link t start end es prev cp a fs store at bounded chained ledger notaries prev_id r r'
            ends clean linked in_range free_id free_chain,
      )

  module _ (t : Bytes) (start end : ℕ) (es : List Entry) (prev : Bytes) (cp : Checkpoint)
      (a : Anchored t start end es prev cp) (fs : List Entry) (store : Store)
      (at : or_nil (get t store.entries) ≡ fs) (bounded : length fs < 2 ^ 64)
      (chained : IsChained t 0 (genesis t) fs) (ledger : ProofLedger) (notaries : Map Bytes Notary)
      (r : Report) where
    -- Where the tenant's entries are an unbroken chain that ends inside the window of an anchored
    -- checkpoint, its check reports one truncation, at the first sequence number that is missing.
    pub truncation_reported :
        (prev_id : Bytes)
        → start ≤ length fs
        → length fs ≤ end
        → verify_checkpoint store ledger notaries t prev_id cp r
          ≡ done (
              add_issue
                (record r { checkpoints_seen = r.checkpoints_seen + 1 })
                (issue_at t
                  (length fs)
                  truncation
                  (committed_missing start end cp.entry_count (length fs))))
    truncation_reported prev_id reached short =
        let c = anchored_commits t start end es prev cp a in
        let (found, ranged, n) =
          range-short t store fs
            (fs-IsNumbered t start end es prev cp a fs store at bounded chained) at start end
            a.ordered (omega (arith, a.inside, a.bounded)) a.small short in
        let missing : (start + length found) % 2 ^ 64 ≡ length fs = omega arith in
        verify_checkpoint-missing store ledger notaries t prev_id cp r found
          (rw (c.first, c.last) ranged)
        ∙ rw (c.first, c.last, missing) refl

    -- Where the tenant's entries are an unbroken chain that reaches past the window of an anchored
    -- checkpoint, the window's entries are as they were, and every proof that the ledger has for it is
    -- of an unknown notary or attested by its notary, the checkpoint's check ends without an issue.
    pub anchored_passes :
        window start end fs ≡ window start end es
        → end < length fs
        → All (Attests notaries cp.checkpoint_id) (get_proofs t cp.seq_end ledger)
        → (r' : Report) × (verify_checkpoint store ledger notaries t prev cp r ≡ done r')
          × (r'.issues ≡ r.issues)
    anchored_passes same inside attested = (
      _,
      verify_checkpoint-found store ledger notaries t prev cp r (window start end fs) cp
          (found_whole t start end es prev cp a fs store at bounded chained inside)
          (rw same a.built),
      verify_proofs-Attests notaries t cp.seq_end cp.checkpoint_id _ _ attested
          ∙ rw (bytes_equal_refl cp.checkpoint_id) refl,
    )

-- ===== src/Live/Absent.antt =====
-- internal/verifylive/verifylive.go: a tenant whose rows are all gone from the log store.
use multi_log.Prelude.{◌≡◌, refl, List, [], ◌∷◌, Bytes, ok, done, keys}
use multi_log.Crypto.{Sha256}
use multi_log.Chain.{new_store, tenants, sort_strings}
use multi_log.Witness.{CheckpointStore, Notary, ProofLedger, new_proof_ledger}
use multi_log.Verify.{empty_report, verify_tenants, verify}
use multi_log.Live.{DataPlane, gather, verify_live, run_tenant}

gather-deleted :
    (plane : DataPlane) (t : Bytes) (ledger : ProofLedger)
    → plane.entries_asc t ≡ ok []
    → plane.load_ledger t new_proof_ledger ≡ ok ledger
    → gather plane (t ∷ []) new_store new_proof_ledger ≡ ok (new_store, ledger)
unfolding gather
gather-deleted plane t ledger gone loaded = rw (gone, gather, loaded) refl

module _ ⦃sha : Sha256⦄ where
  verify_new_store :
      (worm : CheckpointStore) (state : worm.State) (ledger : ProofLedger) (notaries : List Notary)
      → verify new_store worm state ledger notaries ≡ done (empty_report, new_store)
  unfolding verify verify_tenants tenants sort_strings keys
  verify_new_store worm state ledger notaries = refl

  -- A tenant all of whose rows are gone from the log store passes the live verification with no issue
  -- and nothing checked, whatever the checkpoint store holds for it.
  pub run_tenant-deleted :
      (plane : DataPlane) (worm : CheckpointStore) (state : worm.State) (notaries : List Notary)
      (t : Bytes) (ledger : ProofLedger)
      → plane.entries_asc t ≡ ok []
      → plane.load_ledger t new_proof_ledger ≡ ok ledger
      → run_tenant plane worm state notaries t ≡ done (ok empty_report)
  unfolding run_tenant verify_live
  run_tenant-deleted plane worm state notaries t ledger gone loaded =
      rw (gather-deleted plane t ledger gone loaded, verify_new_store worm state ledger notaries)
        refl

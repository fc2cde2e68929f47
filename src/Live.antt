-- ===== src/Live.antt =====
-- internal/verifylive/verifylive.go: verification against the live data plane. What the log store and
-- the proof store answer during a run is an interface.
pub mod Absent
use multi_log.Prelude.{ℕ, List, [], ◌∷◌, Bytes, Error, Result, ok, err, Run, done, ◌>>=◌}
use mathlib.Core.List.{foldl}
use multi_log.Crypto.{Sha256}
use multi_log.Chain.{Entry, Store, new_store, append}
use multi_log.Witness.{CheckpointStore, Notary, ProofLedger, new_proof_ledger}
use multi_log.Verify.{Report, empty_report, verify}

pub record DataPlane : Type 0 where
  pub tenants : Result (List Bytes)
  -- `EntriesAsc` from number 0 with limit 0.
  pub entries_asc : Bytes → Result (List Entry)
  pub load_ledger : Bytes → ProofLedger → Result ProofLedger

abbrev pub append_all : Store → List Entry → Store
append_all store [] = store
append_all store (e ∷ es) = append_all (append e store) es

unfoldable pub load_tenants : DataPlane → List Bytes → Store → Result Store
load_tenants plane [] store = ok store
load_tenants plane (t ∷ ts) store = elim (plane.entries_asc t) [
  | err e ↦ err e
  | ok es ↦ load_tenants plane ts (append_all store es)
]

unfoldable pub load : DataPlane → Result (Store × List Bytes)
unfolding load_tenants
load plane = elim plane.tenants [
  | err e ↦ err e
  | ok ts ↦ elim (load_tenants plane ts new_store) [ err e ↦ err e | ok store ↦ ok (store, ts) ]
]

-- The loop of `verifyTenants`: the store and the ledger that it fills.
unfoldable pub gather : DataPlane → List Bytes → Store → ProofLedger → Result (Store × ProofLedger)
gather plane [] store ledger = ok (store, ledger)
gather plane (t ∷ ts) store ledger = elim (plane.entries_asc t) [
  | err e ↦ err e
  | ok es ↦ elim (plane.load_ledger t ledger) [
    | err e ↦ err e
    | ok ledger' ↦ gather plane ts (append_all store es) ledger'
  ]
]

module _ ⦃sha : Sha256⦄ (plane : DataPlane) (worm : CheckpointStore) (state : worm.State)
    (notaries : List Notary) where
  abbrev pub verify_gathered : Result (Store × ProofLedger) → Run (Result Report)
  verify_gathered (err e) = done (err e)
  verify_gathered (ok (store, ledger)) = do
    (r, store') ← verify store worm state ledger notaries
    done (ok r)

  unfoldable pub verify_live : List Bytes → Run (Result Report)
  unfolding gather
  verify_live ts = verify_gathered (gather plane ts new_store new_proof_ledger)

  unfoldable pub run_tenant : Bytes → Run (Result Report)
  unfolding verify_live
  run_tenant t = verify_live (t ∷ [])

  unfoldable pub run : Run (Result Report)
  unfolding load verify_live
  run = elim (load plane) [ err e ↦ done (err e) | ok (_, ts) ↦ verify_live ts ]

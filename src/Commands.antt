-- ===== src/Commands.antt =====
-- cmd/verifier/main.go, the handler of GET /verify, and the attacker of cmd/demo/main.go.
pub mod Answers
pub mod Resealed
pub mod Demo
pub mod Controlplane
pub mod Anchorer
use multi_log.Prelude.{
  is_empty, ℕ, ◌==◌, Bool, if◌then◌else◌, List, [], ◌∷◌, map, Bytes_eq, Option, none, some, Bytes,
  ℤ, put, Error, Result, ok, err, Run, done, ◌>>=◌, status_ok, status_conflict,
  internal_server_error,
}
use multi_log.Crypto.{Sha256, genesis, entry_leaf, chain_hash}
use multi_log.Chain
use multi_log.Chain.{Entry, Store}
use multi_log.Witness.{CheckpointStore, Notary}
use multi_log.Verify.{Issue, Kind, Detail, Report, report_ok}
use multi_log.Live.{DataPlane, run_tenant, run}

-- The JSON of an issue: `omitempty` leaves the number 0 out.
pub record IssueView : Type 0 where
  pub tenant : Bytes
  pub seq : Option ℕ
  pub kind : Kind
  pub detail : Detail

unfoldable pub issue_view : Issue → IssueView
issue_view i = record {
  tenant = i.tenant;
  seq = if i.seq == 0 then none else some i.seq;
  kind = i.kind;
  detail = i.detail;
}

pub record Answer : Type 0 where
  pub status : ℕ
  pub is_clean : Bool
  pub entries_checked : ℕ
  pub checkpoints_seen : ℕ
  pub proofs_checked : ℕ
  pub issues : List IssueView

pub data Response : Type 0 where
  verify_failed : Error → Response
  answered : Answer → Response

unfoldable pub write_report : Report → Answer
unfolding issue_view
write_report r = record {
  status = if report_ok r then status_ok else status_conflict;
  is_clean = report_ok r;
  entries_checked = r.entries_checked;
  checkpoints_seen = r.checkpoints_seen;
  proofs_checked = r.proofs_checked;
  issues = map issue_view r.issues;
}

abbrev pub respond : Result Report → Response
respond (err e) = verify_failed e
respond (ok r) = answered (write_report r)

abbrev pub status : Response → ℕ
status (verify_failed e) = internal_server_error
status (answered a) = a.status

module _ ⦃sha : Sha256⦄ where
  -- The parameter is the text of the query parameter `tenant`, empty where it is absent.
  unfoldable pub serve_verify :
      DataPlane → (worm : CheckpointStore) → worm.State → List Notary → Bytes → Run Response
  serve_verify plane worm state notaries tenant = do
    r ←
        if is_empty tenant
        then run plane worm state notaries
        else run_tenant plane worm state notaries tenant
    done (respond r)

  -- The loop of `insiderReseal`.
  unfoldable pub reseal : Bytes → Bytes → List Entry → List Entry
  reseal tenant prev [] = []
  reseal tenant prev (e ∷ es) =
      let leaf = entry_leaf tenant e.seq e.event_time e.ingest_time e.source e.raw in
      let hash = chain_hash prev leaf in
      record e { prev_hash = prev; entry_hash = hash } ∷ reseal tenant hash es

  -- The entries are changed where the store points to them, if it has any.
  abbrev pub write_back : Bytes → List Entry → Store → Store
  write_back tenant [] store = store
  write_back tenant (e ∷ es) store = record { entries = put tenant (e ∷ es) store.entries }

  unfoldable pub insider_reseal : Store → Bytes → Store
  unfolding reseal
  insider_reseal store tenant =
      let (es, store') = Chain.tenant tenant store in
      write_back tenant (reseal tenant (genesis tenant) es) store'

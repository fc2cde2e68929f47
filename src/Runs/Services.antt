-- ===== src/Runs/Services.antt =====
-- Runs of the persistent sealer and of the anchorer over small services.
use multi_log.Prelude.{
  ℕ, ◌+◌, ◌≡◌, refl, List, [], ◌∷◌, ◌++◌, none, some, Bytes, codes, get, Bytes_eq, pos, ok, err,
  text, done, length, immutable, Result, ltb, ◌==◌, if◌then◌else◌,
}
use multi_log.Crypto.{genesis}
use multi_log.Chain.{Entry}
use multi_log.Witness.{MemStore, mem_put, new_mem_store, mem_store, new_proof_ledger}
use multi_log.Verify.{empty_report}
use multi_log.Live.{DataPlane, run_tenant}
use multi_log.Live.Absent.{run_tenant-deleted}
use multi_log.Chain.Sealer.Chained.{IsChained}
use multi_log.Ingest.{LogStore, Record, Sealer}
use multi_log.Ingest.Batches.{acknowledged, acknowledged-IsChained}
use multi_log.Anchor.{Services}
use multi_log.Runs.Toy.{toy, acme, globex, chain, anchored}

-- A log store that is a list of entries, and that refuses every append once it holds three.
abbrev append_up_to_three : List Entry → List Entry → Result (Unit {0}) × List Entry
append_up_to_three new held =
    if ltb (length held) 3 then (ok tt, held ++ new) else (err (text (codes "full")), held)

abbrev logs : LogStore
logs = record {
  State = List Entry;
  head = λ t held. ok (0, genesis t);
  append = append_up_to_three;
}

abbrev start : Sealer logs
start = record {
  store = [];
  heads = (acme, record { next_seq = 0; prev_hash = genesis acme }) ∷ [];
}

abbrev rec : Record
rec = record { source = codes "web"; raw = codes "a"; event_time = pos 1; ingest_time = pos 2 }

abbrev batches : List (Bytes × List Record)
batches = (acme, rec ∷ rec ∷ []) ∷ (globex, rec ∷ []) ∷ (acme, rec ∷ []) ∷ []

start_head : get acme start.heads ≡ some (record { next_seq = 0; prev_hash = genesis acme })
unfolding get
start_head = refl

acknowledged-IsChained_example :
    IsChained acme 0 (genesis acme) (acknowledged logs acme batches start)
acknowledged-IsChained_example =
    acknowledged-IsChained logs acme batches start
      (record { next_seq = 0; prev_hash = genesis acme }) start_head

-- Services over the number of checkpoints put, whose WORM store refuses the second one.
abbrev services : Services
services = record {
  World = ℕ;
  tenants = λ w. ok (acme ∷ []);
  last_checkpoint = λ t w. ok none;
  entries_asc = λ t from w. ok chain;
  worm_put = λ cp w. if w == 1 then (err immutable, w) else (ok tt, w);
  put_checkpoint = λ cp w. (ok tt, w + 1);
  put_proof = λ t end p w. (ok tt, w);
  now = λ w. pos 9;
}

-- A data plane from which every row is gone, while the checkpoint store still has a checkpoint.
abbrev plane : DataPlane
plane = record { tenants = ok []; entries_asc = λ t. ok []; load_ledger = λ t l. ok l }

abbrev held : MemStore
held = (mem_put anchored (new_mem_store (codes "worm"))).1

run_tenant-deleted_example :
    run_tenant plane (mem_store (codes "worm")) held [] acme ≡ done (ok empty_report)
run_tenant-deleted_example =
    run_tenant-deleted plane (mem_store (codes "worm")) held [] acme new_proof_ledger refl refl

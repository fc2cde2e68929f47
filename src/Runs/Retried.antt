-- ===== src/Runs/Retried.antt =====
-- A run of the persistent sealer that tries a batch again whose append was stored.
use multi_log.Prelude.{
  get, put, ℕ, ◌+◌, ◌≡◌, ◌≢◌, refl, arith, false, if◌then◌else◌, List, [], ◌∷◌, ◌++◌, ok, err, text,
  codes, Bool, true,
}
use multi_log.Crypto.{genesis}
use multi_log.Chain.{Entry}
use multi_log.Verify.{verify_entries, empty_report}
use multi_log.Ingest.{
  LogStore, batch_entry, HeadState, seal_records, Sealer, new_sealer, seal_batch,
}
use multi_log.Ingest.Restarts.{end_of, IsLost}
use multi_log.Ingest.Restarts.Retried.{count, seal_batch-retried}
use multi_log.Runs.Toy.{toy, acme}
use multi_log.Runs.Restarted.{stored, stored-other, rec}

-- A log store that reports its first append as failed, although it has stored it.
abbrev is_none : List Entry → Bool
is_none [] = true
is_none (e ∷ es) = false

abbrev flaky_logs : LogStore
flaky_logs = record {
  State = List Entry;
  head = λ t held. let h = end_of t (stored t held) in ok (h.next_seq, h.prev_hash);
  append = λ new held. (if is_none held then err (text (codes "reset")) else ok tt, held ++ new);
}

abbrev start : Sealer flaky_logs
start = new_sealer flaky_logs []

abbrev failed : Sealer flaky_logs
failed = (seal_batch flaky_logs acme (rec ∷ []) start).1

abbrev done_again : Sealer flaky_logs
done_again = (seal_batch flaky_logs acme (rec ∷ []) failed).1

abbrev genesis_head : HeadState
genesis_head = end_of acme []

abbrev entry : Entry
entry = batch_entry acme 0 (genesis acme) rec

was_lost : IsLost flaky_logs stored acme (rec ∷ []) start
unfolding get seal_records
was_lost = record {
  h = genesis_head;
  error = text (codes "reset");
  st = entry ∷ [];
  front = entry ∷ [];
  back = [];
  at = refl;
  failed = refl;
  parts = refl;
  kept = refl;
  others = λ v apart. stored-other acme v (entry ∷ []) apart (refl, tt);
}

acknowledged : seal_batch flaky_logs acme (rec ∷ []) failed ≡ (ok (entry ∷ []), done_again)
unfolding seal_batch get put seal_records
acknowledged = refl

counts :
    (k : ℕ)
    → count k (stored acme done_again.store)
      ≡ count k (stored acme failed.store) + count k (entry ∷ [])
unfolding seal_batch get put seal_records
counts k = ground arith

seal_batch-retried_example :
    (verify_entries acme (genesis acme) 0 (stored acme done_again.store) empty_report).issues
    ≢ empty_report.issues
unfolding seal_batch get put seal_records was_lost
seal_batch-retried_example =
    seal_batch-retried flaky_logs stored acme (rec ∷ []) start was_lost entry [] rec [] (entry ∷ [])
      done_again empty_report refl acknowledged counts (omega arith)

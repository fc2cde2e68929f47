-- ===== src/Runs/Verification.antt =====
-- Runs of the verifier on a chain of three entries, whose first two were anchored.
use multi_log.Prelude.{
  ◌+◌, ◌≡◌, refl, sym, ◌∙◌, ap, arith, [], ◌∷◌, ◌++◌, Bytes, codes, Map, Bytes_eq, get, put, or_nil,
  All, pos, done-injective, bytes_equal_refl, ◌<◌, done, ok, length, take,
}
use mathlib.Core.Path.{subst}
use multi_log.Crypto.{genesis}
use multi_log.Crypto.Commit.{NoCollision, checkpoint_message}
use multi_log.Checkpoint.{Checkpoint, commitment, build}
use multi_log.Chain.{Entry, Store}
use multi_log.Chain.Sealer.{sealed_entry}
use multi_log.Chain.Sealer.Chained.{IsChained}
use multi_log.Chain.Sealer.Honest.{stored-seal_all}
use multi_log.Chain.Sealer.Agree.{payloads}
use multi_log.Witness.{
  Notary, Proof, ProofLedger, new_proof_ledger, add_proof, get_proofs, ledger_key, Hmac, MockNotary,
  mock_verify, mac, mock_notary,
}
use multi_log.Verify.{
  Report, empty_report, add_issue, issue_at, verify_entries, verify_checkpoint, truncation,
  committed_missing,
}
use multi_log.Verify.Replay.{
  ReportsAt, verify_entries-IsChained, verify_entries-pinpoints, IsChained-verify_entries,
}
use multi_log.Verify.Evident.{Attests, tamper_evident, truncation_reported, anchored_passes}
use multi_log.Runs.Toy.{
  toy, acme, lines, sealer, chain, first, second, early, anchored, chain-IsChained, early-IsChained,
  chain-AllInRange, early-Anchored,
}

abbrev store : Store
store = sealer.store

stored : or_nil (get acme store.entries) ≡ chain
stored = stored-seal_all lines acme

replayed :
    verify_entries acme (genesis acme) 0 chain empty_report
    ≡ record empty_report { entries_checked = 3 }
replayed =
    verify_entries-IsChained acme (genesis acme) 0 chain empty_report (omega arith) chain-IsChained

IsChained-verify_entries_example : IsChained acme 0 (genesis acme) chain
IsChained-verify_entries_example =
    IsChained-verify_entries acme (genesis acme) 0 chain empty_report (omega arith)
      (ap (λ (r : Report). r.issues) replayed)

-- The second entry with its number changed.
abbrev forged : Entry
forged = record second { seq = 7 }

verify_entries-pinpoints_example :
    ReportsAt acme
      (0 + length (first ∷ []))
      (record empty_report { entries_checked = 0 + length (first ∷ []) })
      (verify_entries acme (genesis acme) 0 (first ∷ [] ++ forged ∷ early) empty_report)
verify_entries-pinpoints_example =
    verify_entries-pinpoints acme (genesis acme) 0 (first ∷ []) forged early empty_report
      (omega arith) (early-IsChained.0, early-IsChained.1, early-IsChained.2, tt)
      (λ (h, _, _). omega (arith, h))

-- A store that has lost all but the first entry.
abbrev truncated : Store
truncated = record { entries = (acme, first ∷ []) ∷ [] }

truncated_holds : or_nil (get acme truncated.entries) ≡ first ∷ []
unfolding get
truncated_holds = refl

truncation_reported_example :
    verify_checkpoint truncated new_proof_ledger [] acme [] anchored empty_report
    ≡ done (
        add_issue
          (record empty_report { checkpoints_seen = 0 + 1 })
          (issue_at acme
            (length (first ∷ []))
            truncation
            (committed_missing 0 1 anchored.entry_count (length (first ∷ [])))))
truncation_reported_example =
    truncation_reported acme 0 1 early [] anchored early-Anchored (first ∷ []) truncated
      truncated_holds (omega arith) (early-IsChained.0, early-IsChained.1, early-IsChained.2, tt)
      new_proof_ledger [] empty_report [] (omega arith) (omega arith)

instance abbrev toy_hmac : Hmac
toy_hmac = record { mac_of = λ secret b. secret ++ b }

abbrev notary : MockNotary
notary = record { name = codes "mock"; secret = codes "key" }

abbrev proof : Proof
proof = record {
  notary = codes "mock";
  format = codes "mock-hmac";
  token = codes "key" ++ anchored.checkpoint_id;
}

abbrev ledger : ProofLedger
ledger = add_proof acme 1 proof new_proof_ledger

abbrev notaries : Map Bytes Notary
notaries = (codes "mock", mock_notary notary) ∷ []

proofs_held : get_proofs acme anchored.seq_end ledger ≡ proof ∷ []
unfolding get_proofs add_proof ledger_key get put sealed_entry
proofs_held = refl

attests : Attests notaries anchored.checkpoint_id proof
unfolding get mock_verify mac
attests nt known =
    let same : mock_notary notary ≡ nt = cc in
    subst (λ (n : Notary). n.verify proof anchored.checkpoint_id ≡ ok tt) same
      (rw (bytes_equal_refl proof.token) refl)

attested : All (Attests notaries anchored.checkpoint_id) (get_proofs acme anchored.seq_end ledger)
attested = rw proofs_held (attests, tt)

-- The check of the anchored checkpoint on the whole store.
checked :
    (r' : Report) × (verify_checkpoint store ledger notaries acme [] anchored empty_report
      ≡ done r')
    × (r'.issues ≡ [])
checked =
    anchored_passes acme 0 1 early [] anchored early-Anchored chain store stored (omega arith)
      chain-IsChained ledger notaries empty_report refl (omega arith) attested

-- The commitments compared are the same, so SHA-256 has nothing to collide on.
same_build :
    (rebuilt : Checkpoint)
    → build acme early [] (pos 9) ≡ done rebuilt
    → NoCollision
        (checkpoint_message (commitment rebuilt))
        (checkpoint_message (commitment anchored))
same_build rebuilt built _ =
    ap (λ (c : Checkpoint). checkpoint_message (commitment c))
      (done-injective (sym built ∙ early-Anchored.built))

tamper_evident_example :
    (1 < length chain)
    × (payloads acme (take 2 chain) ≡ payloads acme (take 2 early))
    × (◌≡◌ {A = Bytes} [] [])
tamper_evident_example =
    tamper_evident acme 0 1 early [] anchored early-Anchored chain store stored (omega arith)
      empty_report (ap (λ (r : Report). r.issues) replayed) ledger notaries [] empty_report
      checked.0 checked.1 checked.2 (omega arith) chain-AllInRange same_build
      ((λ _. refl), (λ _. refl), ((λ _. refl), (λ _. refl), tt))

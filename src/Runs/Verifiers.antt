-- ===== src/Runs/Verifiers.antt =====
-- A request to the verifier, and the resealing attacker, on a chain of two lines.
use multi_log.Prelude.{
  Run, Result, ◌>>=◌, ◌^◌, ◌<◌, ◌≡◌, refl, ◌∙◌, ap, arith, List, [], ◌∷◌, Bytes, codes, get, put,
  Bytes_eq, length, ok, done, ok-injective, status_ok, sym, ◌+◌,
}
use multi_log.Chain.{Store, sort_by_seq, new_store, append, insert_by_seq}
use multi_log.Chain.Sorted.{held}
use multi_log.Chain.Sealer.{sealed_entry}
use multi_log.Chain.Sealer.Agree.{payloads}
use multi_log.Chain.Window.{IsNumbered}
use multi_log.Witness.{mem_store, new_proof_ledger, ProofLedger}
use multi_log.Verify.{Report, verify_chain, empty_report}
use multi_log.Live.{DataPlane, gather, verify_gathered, verify_live, run_tenant}
use multi_log.Commands.{respond, status, serve_verify, insider_reseal, write_report}
use multi_log.Commands.Answers.{requested, Clean, serve_verify-Clean}
use multi_log.Commands.Resealed.{verify_chain-insider_reseal}
use multi_log.Runs.Toy.{toy, acme, early, first, second}
use multi_log.Runs.Audited.{store, worm_name, worm, run, bounded}

-- The second row was edited.
abbrev edited : Store
edited = record { entries = (acme, first ∷ record second { raw = codes "z" } ∷ []) ∷ [] }

edited-IsNumbered : IsNumbered 0 (sort_by_seq (held acme edited))
unfolding sort_by_seq insert_by_seq get sealed_entry
edited-IsNumbered = (refl, (refl, tt))

edited_bounded : length (held acme edited) < 2 ^ 64
unfolding get
edited_bounded = omega arith

verify_chain-insider_reseal_example :
    ((verify_chain (insider_reseal edited acme) acme empty_report).0
      ≡ record empty_report { entries_checked = 0 + length (held acme edited) })
    × (payloads acme (held acme (insider_reseal edited acme))
        ≡ payloads acme (sort_by_seq (held acme edited)))
verify_chain-insider_reseal_example =
    verify_chain-insider_reseal edited acme empty_report edited_bounded edited-IsNumbered

abbrev plane : DataPlane
plane = record { tenants = ok (acme ∷ []); entries_asc = λ t. ok early; load_ledger = λ t l. ok l }

gathered : gather plane (acme ∷ []) new_store new_proof_ledger ≡ ok (store, new_proof_ledger)
unfolding gather append get put sealed_entry
gathered = refl

rows_bounded :
    (ts : List Bytes) (st : Store) (ledger : ProofLedger)
    → requested plane acme ≡ ok ts
    → gather plane ts new_store new_proof_ledger ≡ ok (st, ledger)
    → (u : Bytes) → length (held u st) < 2 ^ 64
rows_bounded ts st ledger named at u =
    let same : acme ∷ [] ≡ ts = ok-injective named in
    let at' : gather plane (acme ∷ []) new_store new_proof_ledger ≡ ok (st, ledger) =
      rw (← same) at at in
    let found : (store, new_proof_ledger) ≡ (st, ledger) = ok-injective (sym gathered ∙ at') in
    let st_same : store ≡ st = ap (λ (p : Store × ProofLedger). p.0) found in
    rw (← st_same) (bounded u)

verified :
    verify_gathered plane (mem_store worm_name) worm [] (ok (store, new_proof_ledger))
    ≡ done (ok run.0)
verified = rw run.2 refl

ran : run_tenant plane (mem_store worm_name) worm [] acme ≡ done (ok run.0)
unfolding run_tenant verify_live
ran = ap (verify_gathered plane (mem_store worm_name) worm []) gathered ∙ verified

answers : serve_verify plane (mem_store worm_name) worm [] acme ≡ done (respond (ok run.0))
unfolding serve_verify
answers = ap (λ (m : Run (Result Report)). m >>= (λ r. done (respond r))) ran

accepted : status (respond (ok run.0)) ≡ status_ok
unfolding write_report
accepted = rw run.3 refl

serve_verify-Clean_example :
    (ts : List Bytes) × (requested plane acme ≡ ok ts)
    × Clean plane (mem_store worm_name) worm [] ts
serve_verify-Clean_example =
    serve_verify-Clean plane (mem_store worm_name) worm [] acme (respond (ok run.0)) rows_bounded
      answers accepted

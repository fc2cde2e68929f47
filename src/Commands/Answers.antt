-- ===== src/Commands/Answers.antt =====
-- What an answer of GET /verify says of the data that was read.
use multi_log.Prelude.{
  ◌^◌, ◌<◌, ◌≡◌, refl, ◌∙◌, ap, arith, Bool-cases, inl, inr, true, List, [], ◌∷◌, Bytes, Bytes_eq,
  All, length, Error, Result, ok, err, done, >>=-eq-done, done-injective, ok-injective, status_ok,
}
use multi_log.Crypto.{Sha256}
use multi_log.Chain.{Store, new_store, tenants}
use multi_log.Chain.Sorted.{held}
use multi_log.Witness.{CheckpointStore, Notary, ProofLedger, new_proof_ledger}
use multi_log.Verify.{Report, report_ok, verify, by_name}
use multi_log.Verify.Whole.{Verified, verify_sound}
use multi_log.Live.{
  DataPlane, gather, load_tenants, load, verify_gathered, verify_live, run, run_tenant,
}
use multi_log.Commands.{Response, respond, status, write_report, serve_verify}

-- The tenants whose data a request is about: the one that it names, or all.
abbrev pub requested : DataPlane → Bytes → Result (List Bytes)
requested plane [] = plane.tenants
requested plane (c ∷ cs) = ok ((c ∷ cs) ∷ [])

module _ ⦃sha : Sha256⦄ (plane : DataPlane) (worm : CheckpointStore) (state : worm.State)
    (notaries : List Notary) where
  -- What was read for the tenants `ts`, and that it passed.
  abbrev pub Clean : List Bytes → Type 0
  Clean ts =
      (store : Store) × (ledger : ProofLedger) × (gather plane ts new_store new_proof_ledger
        ≡ ok (store, ledger))
      × All (Verified ledger (by_name notaries []) (λ t. worm.all_checkpoints t state) store)
          (tenants store)

  respond-ok :
      (answer : Result Report)
      → status (respond answer) ≡ status_ok
      → (r : Report) × (answer ≡ ok r) × (report_ok r ≡ true)
  unfolding write_report
  respond-ok (err e) h = absurd (omega arith)
  respond-ok (ok r) h = elim (Bool-cases (report_ok r)) [
    | inl clean ↦ (r, refl, clean)
    | inr issues ↦ absurd (ground arith)
  ]

  verify_gathered-Clean :
      (ts : List Bytes) (read : Result (Store × ProofLedger)) (r : Report)
      → ((store : Store) (ledger : ProofLedger)
          → gather plane ts new_store new_proof_ledger ≡ ok (store, ledger)
          → (u : Bytes) → length (held u store) < 2 ^ 64)
      → gather plane ts new_store new_proof_ledger ≡ read
      → verify_gathered plane worm state notaries read ≡ done (ok r)
      → report_ok r ≡ true
      → Clean ts
  verify_gathered-Clean ts (err e) r bounded at ends clean = cc
  verify_gathered-Clean ts (ok (store, ledger)) r bounded at ends clean =
      let ((r', store'), checked, same) =
        >>=-eq-done (verify store worm state ledger notaries) _ ends in
      let same_report : r' ≡ r = ok-injective (done-injective same) in
      (
        store,
        ledger,
        at,
        verify_sound store worm state ledger notaries r' store' (bounded store ledger at) checked
            (ap report_ok same_report ∙ clean),
      )

  load-err :
      (ts : List Bytes) (e : Error)
      → plane.tenants ≡ ok ts
      → load_tenants plane ts new_store ≡ err e
      → load plane ≡ err e
  unfolding load
  load-err ts e at read = rw (at, load, read) refl

  load-ok :
      (ts : List Bytes) (store : Store)
      → plane.tenants ≡ ok ts
      → load_tenants plane ts new_store ≡ ok store
      → load plane ≡ ok (store, ts)
  unfolding load
  load-ok ts store at read = rw (at, load, read) refl

  run-verify_live :
      (ts : List Bytes) (loaded : Result Store) (r : Report)
      → plane.tenants ≡ ok ts
      → load_tenants plane ts new_store ≡ loaded
      → run plane worm state notaries ≡ done (ok r)
      → verify_live plane worm state notaries ts ≡ done (ok r)
  unfolding run
  run-verify_live ts (err e) r at read ends =
      let none_run = rw (load-err ts e at read, run) at ends in cc
  run-verify_live ts (ok store) r at read ends = rw (load-ok ts store at read, run) at ends

  run-Clean :
      (named : Result (List Bytes)) (r : Report)
      → ((ts : List Bytes) (store : Store) (ledger : ProofLedger)
          → plane.tenants ≡ ok ts
          → gather plane ts new_store new_proof_ledger ≡ ok (store, ledger)
          → (u : Bytes) → length (held u store) < 2 ^ 64)
      → plane.tenants ≡ named
      → run plane worm state notaries ≡ done (ok r)
      → report_ok r ≡ true
      → (ts : List Bytes) × (plane.tenants ≡ ok ts) × Clean ts
  unfolding run load verify_live
  run-Clean (err e) r bounded at ends clean = let none_run = rw (at, load) at ends in cc
  run-Clean (ok ts) r bounded at ends clean = (
    ts,
    at,
    verify_gathered-Clean ts (gather plane ts new_store new_proof_ledger) r
        (λ store ledger. bounded ts store ledger at) refl
        (run-verify_live ts (load_tenants plane ts new_store) r at refl ends) clean,
  )

  -- If GET /verify answers 200, then it was about the tenant that the request names or, where it names
  -- none, the tenants that the log store listed; all of their rows and proofs could be read; and for
  -- every tenant that the rows read belong to, the entries, sorted, are an unbroken chain from the
  -- genesis hash, its checkpoints could be read, and each of them passes its check. Each tenant is
  -- assumed to have fewer than 2 ^ 64 rows.
  pub serve_verify-Clean :
      (tenant : Bytes) (reply : Response)
      → ((ts : List Bytes) (store : Store) (ledger : ProofLedger)
          → requested plane tenant ≡ ok ts
          → gather plane ts new_store new_proof_ledger ≡ ok (store, ledger)
          → (u : Bytes) → length (held u store) < 2 ^ 64)
      → serve_verify plane worm state notaries tenant ≡ done reply
      → status reply ≡ status_ok
      → (ts : List Bytes) × (requested plane tenant ≡ ok ts) × Clean ts
  unfolding serve_verify run run_tenant verify_live load
  serve_verify-Clean [] reply bounded ends good =
      let (answer, ran, same) =
        >>=-eq-done (run plane worm state notaries) (λ r. done (respond r)) ends in
      let (r, is_report, clean) = respond-ok answer (ap status (done-injective same) ∙ good) in
      run-Clean plane.tenants r bounded refl (ran ∙ ap (λ a. done a) is_report) clean
  serve_verify-Clean (c ∷ cs) reply bounded ends good =
      let ts = (c ∷ cs) ∷ [] in
      let (answer, ran, same) =
        >>=-eq-done (run_tenant plane worm state notaries (c ∷ cs)) (λ r. done (respond r)) ends in
      let (r, is_report, clean) = respond-ok answer (ap status (done-injective same) ∙ good) in
      (
        ts,
        refl,
        verify_gathered-Clean ts (gather plane ts new_store new_proof_ledger) r
            (λ store ledger. bounded ts store ledger refl) refl (ran ∙ ap (λ a. done a) is_report)
            clean,
      )

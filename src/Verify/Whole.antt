-- ===== src/Verify/Whole.antt =====
-- What a whole run of `Verify` without issues has found out, for every tenant.
pub mod Payloads
pub mod Intact
pub mod Known
pub mod Kept
pub mod Next
use multi_log.Prelude.{
  ℕ, ◌+◌, ◌%◌, ◌^◌, ◌≤◌, ◌<◌, ◌≡◌, refl, sym, ◌∙◌, ap, arith, Bool, true, false, ◌==◌, Bool-cases,
  inl, inr, List, [], ◌∷◌, Bytes, bytes_equal, Map, Bytes_eq, All, length, length-append, Result,
  Result-cases, ok, err, Run, done, >>=-eq-done, done-injective,
}
use mathlib.Core.Path.{subst}
use multi_log.Crypto.{Sha256, genesis}
use multi_log.Chain
use multi_log.Chain.{Entry, Store, sort_by_seq, tenants, range}
use multi_log.Chain.Sorted.{held, tenant-sorted, sort_by_seq-tenant, length-sort_by_seq}
use multi_log.Chain.Sealer.Chained.{linked_hash, IsChained}
use multi_log.Checkpoint.{Checkpoint, build}
use multi_log.Witness.{CheckpointStore, Notary, ProofLedger}
use multi_log.Verify.{
  Report, report_ok, empty_report, verify_entries, verify_chain, verify_window, verify_checkpoint,
  verify_anchored, verify_checkpoints, verify_tenants, verify, by_name, compare_ids,
}
use multi_log.Verify.Replay.{IsChained-verify_entries}
use multi_log.Verify.Checkpoints.{issue_count, verify_proofs_grows}

empty_list : {A : Type 0} (xs : List A) → length xs ≡ 0 → xs ≡ []
empty_list [] h = refl
empty_list (x ∷ xs) h = absurd (omega arith)

module _ ⦃sha : Sha256⦄ where
  no_issues : (r : Report) → issue_count r ≡ 0 → r.issues ≡ []
  no_issues r none_left = empty_list r.issues none_left

  verify_entries_grows :
      (t prev : Bytes) (want : ℕ) (es : List Entry) (r : Report)
      → issue_count r ≤ issue_count (verify_entries t prev want es r)
  unfolding verify_entries
  verify_entries_grows t prev want [] r = omega arith
  verify_entries_grows t prev want (e ∷ es) r =
      let rest =
        verify_entries_grows t e.entry_hash ((want + 1) % 2 ^ 64) es
          (record r { entries_checked = r.entries_checked + 1 }) in
      elim (Bool-cases (e.seq == want)) [
        | inr gap ↦ rw (gap, verify_entries) (omega (arith, length-append r.issues (_ ∷ [])))
        | inl at ↦ elim (Bool-cases (bytes_equal e.prev_hash prev)) [
          | inr broken ↦
              rw (at, broken, verify_entries) (omega (arith, length-append r.issues (_ ∷ [])))
          | inl linked ↦ elim (Bool-cases (bytes_equal e.entry_hash (linked_hash t prev e))) [
            | inr tampered ↦
                rw (at, linked, tampered, verify_entries)
                  (omega (arith, length-append r.issues (_ ∷ [])))
            | inl same ↦ rw (at, linked, same, verify_entries) rest
          ]
        ]
      ]

  compare_ids_grows :
      (t : Bytes) (cp rebuilt : Checkpoint) (r : Report)
      → issue_count r ≤ issue_count (compare_ids t cp rebuilt r)
  compare_ids_grows t cp rebuilt r =
      elim (Bool-cases (bytes_equal rebuilt.checkpoint_id cp.checkpoint_id)) [
        | inl same ↦ rw same (omega arith)
        | inr differs ↦ rw differs (omega (arith, length-append r.issues (_ ∷ [])))
      ]

  module _ (ledger : ProofLedger) (notaries : Map Bytes Notary) (t : Bytes) where
    verify_window_grows :
        (prev_id : Bytes) (cp : Checkpoint) (r r' : Report) (w : List Entry × Bool)
        → verify_window ledger notaries t prev_id cp r w ≡ done r'
        → issue_count r ≤ issue_count r'
    unfolding verify_window
    verify_window_grows prev_id cp r r' (found, false) now =
        omega (arith, ap issue_count (done-injective now), length-append r.issues (_ ∷ []))
    verify_window_grows prev_id cp r r' (found, true) after =
        let (rebuilt, built, now) = >>=-eq-done (build t found prev_id cp.anchored_at) _ after in
        omega (
          arith,
          ap issue_count (done-injective now),
          compare_ids_grows t cp rebuilt r,
          verify_proofs_grows notaries t cp.seq_end rebuilt.checkpoint_id _
              (compare_ids t cp rebuilt r),
        )

    -- The check of a checkpoint that ended and added no issue.
    abbrev pub Passed : Store → Bytes → Checkpoint → Type 0
    Passed store prev_id cp =
        (r : Report) × (r' : Report) × (verify_checkpoint store ledger notaries t prev_id cp r
          ≡ done r')
        × (r'.issues ≡ r.issues)

    -- Each checkpoint against the id of the one before.
    abbrev pub AllPassed : Store → Bytes → List Checkpoint → Type 0
    AllPassed store prev_id [] = Unit {0}
    AllPassed store prev_id (cp ∷ cps) =
        Passed store prev_id cp × AllPassed store cp.checkpoint_id cps

    verify_checkpoint_grows :
        (store : Store) (prev_id : Bytes) (cp : Checkpoint) (r r' : Report)
        → verify_checkpoint store ledger notaries t prev_id cp r ≡ done r'
        → issue_count r ≤ issue_count r'
    unfolding verify_checkpoint
    verify_checkpoint_grows store prev_id cp r r' ends =
        let (w, _, after) = >>=-eq-done (range t cp.seq_start cp.seq_end store) _ ends in
        verify_window_grows prev_id cp _ r' w after

    verify_anchored-AllPassed :
        (store : Store) (prev_id : Bytes) (cps : List Checkpoint) (r r' : Report)
        → verify_anchored store ledger notaries t prev_id cps r ≡ done r'
        → issue_count r' ≡ 0
        → (issue_count r ≡ 0) × AllPassed store prev_id cps
    unfolding verify_anchored
    verify_anchored-AllPassed store prev_id [] r r' ends clean =
        (ap issue_count (done-injective ends) ∙ clean, tt)
    verify_anchored-AllPassed store prev_id (cp ∷ cps) r r' ends clean =
        let (r1, checked, after) =
          >>=-eq-done (verify_checkpoint store ledger notaries t prev_id cp r) _ ends in
        let (clean1, others) =
          verify_anchored-AllPassed store cp.checkpoint_id cps r1 r' after clean in
        let grown = verify_checkpoint_grows store prev_id cp r r1 checked in
        let clean0 : issue_count r ≡ 0 = omega (arith, grown, clean1) in
        (clean0, ((r, r1, checked, no_issues r1 clean1 ∙ sym (no_issues r clean0)), others))

    verify_checkpoints-AllPassed :
        (store : Store) (found : Result (List Checkpoint)) (r r' : Report)
        → verify_checkpoints store found ledger notaries t r ≡ done r'
        → issue_count r' ≡ 0
        → (issue_count r ≡ 0)
          × ((cps : List Checkpoint) × (found ≡ ok cps) × AllPassed store [] cps)
    unfolding verify_checkpoints
    verify_checkpoints-AllPassed store (err e) r r' ends clean = absurd (
        omega (arith, clean, ap issue_count (done-injective ends), length-append r.issues (_ ∷ [])))
    verify_checkpoints-AllPassed store (ok cps) r r' ends clean =
        let (clean0, passed) = verify_anchored-AllPassed store [] cps r r' ends clean in
        (clean0, (cps, refl, passed))

  -- What a run without issues has found out about a tenant: its entries, sorted, are an unbroken chain,
  -- the checkpoint store could be read, and each of the checkpoints passes its check over them.
  abbrev pub Verified :
      ProofLedger → Map Bytes Notary → (Bytes → Result (List Checkpoint)) → Store → Bytes → Type 0
  Verified ledger notaries all store t =
      let es = sort_by_seq (held t store) in
      IsChained t 0 (genesis t) es
      × ((st : Store) × (cps : List Checkpoint) × (held t st ≡ es)
          × (all t ≡ ok cps)
          × AllPassed ledger notaries t st [] cps)

  module _ (ledger : ProofLedger) (notaries : Map Bytes Notary)
      (all : Bytes → Result (List Checkpoint)) where
    Verified-tenant :
        (t : Bytes) (store : Store) (us : List Bytes)
        → All (Verified ledger notaries all (Chain.tenant t store).1) us
        → All (Verified ledger notaries all store) us
    Verified-tenant t store [] h = tt
    Verified-tenant t store (u ∷ us) ((chained, (st, cps, at, found, passed)), hs) =
        let same = sort_by_seq-tenant t u store in
        (
          (subst (IsChained u 0 (genesis u)) same chained, (st, cps, at ∙ same, found, passed)),
          Verified-tenant t store us hs,
        )

    same_length :
        (t u : Bytes) (store : Store)
        → length (held u (Chain.tenant t store).1) ≡ length (held u store)
    same_length t u store =
        sym (length-sort_by_seq (held u (Chain.tenant t store).1))
        ∙ ap (length {A = Entry}) (sort_by_seq-tenant t u store)
        ∙ length-sort_by_seq (held u store)

    verify_tenants-Verified :
        (ts : List Bytes) (store : Store) (r : Report) (r' : Report) (store' : Store)
        → ((t : Bytes) → length (held t store) < 2 ^ 64)
        → verify_tenants store all ledger notaries ts r ≡ done (r', store')
        → issue_count r' ≡ 0
        → (issue_count r ≡ 0) × All (Verified ledger notaries all store) ts
    unfolding verify_tenants verify_chain
    verify_tenants-Verified [] store r r' store' bounded ends clean =
        (ap (λ (p : Report × Store). issue_count p.0) (done-injective ends) ∙ clean, tt)
    verify_tenants-Verified (t ∷ ts) store r r' store' bounded ends clean =
        let es = (Chain.tenant t store).0 in
        let st = (Chain.tenant t store).1 in
        let (sorted, at) = tenant-sorted t store in
        let r1 = verify_entries t (genesis t) 0 es r in
        let (r2, checked, after) =
          >>=-eq-done (verify_checkpoints st (all t) ledger notaries t r1) _ ends in
        let (clean2, others) =
          verify_tenants-Verified ts st r2 r' store'
            (λ u. omega (arith, bounded u, same_length t u store)) after clean in
        let (clean1, (cps, found, passed)) =
          verify_checkpoints-AllPassed ledger notaries t st (all t) r1 r2 checked clean2 in
        let clean0 : issue_count r ≡ 0 =
          omega (arith, clean1, verify_entries_grows t (genesis t) 0 es r) in
        let count : length es ≡ length (held t store) =
          ap (length {A = Entry}) sorted ∙ length-sort_by_seq (held t store) in
        let chained =
          IsChained-verify_entries t (genesis t) 0 es r (omega (arith, count, bounded t))
            (no_issues r1 clean1 ∙ sym (no_issues r clean0)) in
        (
          clean0,
          (
            (subst (IsChained t 0 (genesis t)) sorted chained, (st, cps, at, found, passed)),
            Verified-tenant t store ts others,
          ),
        )

  -- If `Verify` ends and its report is OK, then for every tenant that the store names the entries,
  -- sorted by number, are an unbroken chain from the genesis hash, the checkpoint store could be read,
  -- and every anchored checkpoint passes its check over those entries and the id of the one before,
  -- where no tenant has 2 ^ 64 entries.
  pub verify_sound :
      (store : Store) (worm : CheckpointStore) (state : worm.State) (ledger : ProofLedger)
      (notaries : List Notary) (r : Report) (store' : Store)
      → ((t : Bytes) → length (held t store) < 2 ^ 64)
      → verify store worm state ledger notaries ≡ done (r, store')
      → report_ok r ≡ true
      → All
          (Verified ledger (by_name notaries []) (λ t. worm.all_checkpoints t state) store)
          (tenants store)
  unfolding verify report_ok
  verify_sound store worm state ledger notaries r store' bounded ends clean =
      (verify_tenants-Verified ledger (by_name notaries []) (λ t. worm.all_checkpoints t state)
        (tenants store) store empty_report r store' bounded ends (ground arith)).1

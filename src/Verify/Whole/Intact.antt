-- ===== src/Verify/Whole/Intact.antt =====
-- Stores and witnesses that a whole run of `Verify` passes.
use multi_log.Prelude.{
  ℕ, ◌+◌, ◌^◌, ◌<◌, ◌≡◌, refl, sym, ◌∙◌, ap, arith, true, Bool-cases, Option-cases, inl, inr, List,
  [], ◌∷◌, Bytes, bytes_equal, bytes_equal→eq, Map, Bytes_eq, get, get-put_ne, or_nil, All, length,
  Result, ok, done, ◌>>=◌,
}
use mathlib.Core.Path.{subst}
use multi_log.Crypto.{Sha256, genesis}
use multi_log.Chain
use multi_log.Chain.{Entry, Store, sort_by_seq, tenants}
use multi_log.Chain.Sorted.{held, tenant-sorted}
use multi_log.Chain.Sealer.Chained.{IsChained, sort-IsChained}
use multi_log.Checkpoint.{Checkpoint}
use multi_log.Witness.{CheckpointStore, Notary, ProofLedger, get_proofs}
use multi_log.Verify.{
  Report, report_ok, empty_report, verify_entries, verify_chain, verify_anchored,
  verify_checkpoints, verify_tenants, verify, by_name,
}
use multi_log.Verify.Replay.{verify_entries-IsChained}
use multi_log.Verify.Tamper.{Anchored}
use multi_log.Verify.Evident.{Attests, anchored_passes}

-- Reading a tenant whose entries are sorted changes nothing.
pub held-tenant :
    (t u : Bytes) (s : Store)
    → sort_by_seq (held t s) ≡ held t s
    → held u (Chain.tenant t s).1 ≡ held u s
unfolding Chain.tenant
held-tenant t u s sorted = elim (Bool-cases (bytes_equal t u)) [
  | inl same ↦
      subst (λ v. held v (Chain.tenant t s).1 ≡ held v s) (bytes_equal→eq t u same)
        ((tenant-sorted t s).1 ∙ sorted)
  | inr other ↦ elim (Option-cases (get t s.entries)) [
    | inl missing ↦ rw (missing, Chain.tenant) refl
    | inr (es, found) ↦
        rw (found, Chain.tenant) (ap or_nil (get-put_ne t u (sort_by_seq es) s.entries other))
  ]
]

module _ ⦃sha : Sha256⦄ (ledger : ProofLedger) (notaries : Map Bytes Notary) where
  -- Each of a tenant's checkpoints was anchored over its entries with the id of the one before, and
  -- every proof that the ledger has for it is of an unknown notary or attested by its notary.
  abbrev pub AllAnchored : Bytes → List Entry → Bytes → List Checkpoint → Type 0
  AllAnchored t es prev [] = Unit {0}
  AllAnchored t es prev (cp ∷ cps) =
      ((start : ℕ) × (end : ℕ) × Anchored t start end es prev cp
        × All (Attests notaries cp.checkpoint_id) (get_proofs t cp.seq_end ledger))
      × AllAnchored t es cp.checkpoint_id cps

  verify_anchored-AllAnchored :
      (t : Bytes) (store : Store) (es : List Entry) (prev : Bytes) (cps : List Checkpoint)
      (r : Report)
      → held t store ≡ es
      → IsChained t 0 (genesis t) es
      → length es < 2 ^ 64
      → AllAnchored t es prev cps
      → (r' : Report) × (verify_anchored store ledger notaries t prev cps r ≡ done r')
        × (r'.issues ≡ r.issues)
  unfolding verify_anchored
  verify_anchored-AllAnchored t store es prev [] r at chained bounded anchored = (r, refl, refl)
  verify_anchored-AllAnchored t store es prev (cp ∷ cps) r at chained bounded
        ((start, end, a, attested), others) =
      let (r1, checked, kept) =
        anchored_passes t start end es prev cp a es store at bounded chained ledger notaries r refl
          a.inside attested in
      let (r2, ends, kept') =
        verify_anchored-AllAnchored t store es cp.checkpoint_id cps r1 at chained bounded others in
      (
        r2,
        ap (λ m. m >>= (λ x. verify_anchored store ledger notaries t cp.checkpoint_id cps x))
              checked
            ∙ ends,
        kept' ∙ kept,
      )

  module _ (all : Bytes → Result (List Checkpoint)) where
    -- A tenant whose entries are an unbroken chain, with checkpoints that were anchored over it.
    abbrev pub Intact : Store → Bytes → Type 0
    Intact store t =
        IsChained t 0 (genesis t) (held t store)
        × (length (held t store) < 2 ^ 64)
        × ((cps : List Checkpoint) × (all t ≡ ok cps) × AllAnchored t (held t store) [] cps)

    Intact-held :
        (t : Bytes) (store st : Store) → held t st ≡ held t store → Intact store t → Intact st t
    Intact-held t store st same (chained, bounded, (cps, read, anchored)) = (
      subst (IsChained t 0 (genesis t)) (sym same) chained,
      subst (λ es. length es < 2 ^ 64) (sym same) bounded,
      (cps, read, subst (λ es. AllAnchored t es [] cps) (sym same) anchored),
    )

    All-Intact :
        (store st : Store) (ts : List Bytes)
        → ((u : Bytes) → held u st ≡ held u store)
        → All (Intact store) ts
        → All (Intact st) ts
    All-Intact store st [] same h = tt
    All-Intact store st (t ∷ ts) same (h, hs) =
        (Intact-held t store st (same t) h, All-Intact store st ts same hs)

    -- The two passes over one tenant.
    tenant_passes :
        (t : Bytes) (store : Store) (r : Report)
        → Intact store t
        → (r' : Report) × (verify_checkpoints
              (Chain.tenant t store).1
              (all t)
              ledger
              notaries
              t
              (verify_entries t (genesis t) 0 (Chain.tenant t store).0 r)
            ≡ done r')
          × (r'.issues ≡ r.issues)
          × ((u : Bytes) → held u (Chain.tenant t store).1 ≡ held u store)
    unfolding verify_checkpoints
    tenant_passes t store r (chained, bounded, (cps, read, anchored)) =
        let fixed = sort-IsChained t 0 (genesis t) (held t store) (omega arith) chained in
        let st = (Chain.tenant t store).1 in
        let r1 : Report = record r {
          entries_checked = r.entries_checked + length (held t store);
        } in
        let replayed : verify_entries t (genesis t) 0 (Chain.tenant t store).0 r ≡ r1 =
          ap (λ es. verify_entries t (genesis t) 0 es r) ((tenant-sorted t store).0 ∙ fixed)
          ∙ verify_entries-IsChained t (genesis t) 0 (held t store) r (omega arith) chained in
        let (r2, ends, kept) =
          verify_anchored-AllAnchored t st (held t store) [] cps r1 (held-tenant t t store fixed)
            chained bounded anchored in
        (
          r2,
          ap (λ x. verify_checkpoints st (all t) ledger notaries t x) replayed
              ∙ ap (λ x. verify_checkpoints st x ledger notaries t r1) read
              ∙ ends,
          kept,
          λ u. held-tenant t u store fixed,
        )

    verify_tenants-Intact :
        (ts : List Bytes) (store : Store) (r : Report)
        → All (Intact store) ts
        → (r' : Report) × (store' : Store) × (verify_tenants store all ledger notaries ts r
            ≡ done (r', store'))
          × (r'.issues ≡ r.issues)
    unfolding verify_tenants verify_chain
    verify_tenants-Intact [] store r h = (r, store, refl, refl)
    verify_tenants-Intact (t ∷ ts) store r (h, hs) =
        let st = (Chain.tenant t store).1 in
        let (r1, passes, kept, same) = tenant_passes t store r h in
        let (r2, store', ends, kept') =
          verify_tenants-Intact ts st r1 (All-Intact store st ts same hs) in
        (
          r2,
          store',
          ap (λ m. m >>= (λ x. verify_tenants st all ledger notaries ts x)) passes ∙ ends,
          kept' ∙ kept,
        )

module _ ⦃sha : Sha256⦄ where
  -- A run of `Verify` ends with an OK report where, for every tenant that the store names, the entries
  -- are an unbroken chain of less than 2 ^ 64, the checkpoint store could be read, each of its
  -- checkpoints was anchored over those entries with the id of the one before, and every proof in the
  -- ledger is of an unknown notary or attested by its notary: there are no false alarms.
  pub verify_complete :
      (store : Store) (worm : CheckpointStore) (state : worm.State) (ledger : ProofLedger)
      (notaries : List Notary)
      → All
          (Intact ledger (by_name notaries []) (λ t. worm.all_checkpoints t state) store)
          (tenants store)
      → (r : Report) × (store' : Store) × (verify store worm state ledger notaries
          ≡ done (r, store'))
        × (report_ok r ≡ true)
  unfolding verify report_ok
  verify_complete store worm state ledger notaries intact =
      let (r, store', ends, kept) =
        verify_tenants-Intact ledger (by_name notaries []) (λ t. worm.all_checkpoints t state)
          (tenants store) store empty_report intact in
      (r, store', ends, rw kept refl)

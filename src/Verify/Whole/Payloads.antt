-- ===== src/Verify/Whole/Payloads.antt =====
-- What an OK report of `Verify` says of the entries behind an anchored checkpoint.
use multi_log.Prelude.{
  ℕ, suc, ◌^◌, ◌<◌, ◌≡◌, true, List, [], ◌∷◌, ◌++◌, Bytes, All, length, take, ok, done, sym, ◌∙◌,
  Map, Bytes_eq, arith, ok-injective,
}
use mathlib.Core.Path.{subst}
use multi_log.Crypto.{Sha256, genesis}
use multi_log.Crypto.Framing.{Fits}
use multi_log.Crypto.Commit.{NoCollision, checkpoint_message}
use multi_log.Chain.{Entry, Store, sort_by_seq, tenants}
use multi_log.Chain.Sorted.{held, length-sort_by_seq}
use multi_log.Chain.Sealer.Agree.{payloads, AllInRange, NoChainCollision}
use multi_log.Checkpoint.{Checkpoint, commitment, build}
use multi_log.Checkpoint.Window.{window}
use multi_log.Witness.{CheckpointStore, Notary, ProofLedger}
use multi_log.Verify.{Report, report_ok, verify, by_name}
use multi_log.Verify.Tamper.{Anchored, nothing_missing, same_payloads, same_link}
use multi_log.Verify.Whole.{Passed, AllPassed, Verified, verify_sound}

All-middle :
    {A : Type 0} (P : A → Type 0) (xs : List A) (y : A) (zs : List A) → All P (xs ++ y ∷ zs) → P y
All-middle P [] y zs (h, hs) = h
All-middle P (x ∷ xs) y zs (h, hs) = All-middle P xs y zs hs

-- The id that the checkpoint behind a list links to.
abbrev pub id_before : Bytes → List Checkpoint → Bytes
id_before prev [] = prev
id_before prev (cp ∷ cps) = id_before cp.checkpoint_id cps

module _ ⦃sha : Sha256⦄ where
  AllPassed-middle :
      (ledger : ProofLedger) (notaries : Map Bytes Notary) (t : Bytes) (store : Store)
      (prev : Bytes) (cps : List Checkpoint) (cp : Checkpoint) (more : List Checkpoint)
      → AllPassed ledger notaries t store prev (cps ++ cp ∷ more)
      → Passed ledger notaries t store (id_before prev cps) cp
  AllPassed-middle ledger notaries t store prev [] cp more (h, hs) = h
  AllPassed-middle ledger notaries t store prev (x ∷ cps) cp more (h, hs) =
      AllPassed-middle ledger notaries t store x.checkpoint_id cps cp more hs

  -- A checkpoint was anchored over the entries `start` to `end` of a tenant's chain `es`. If later a
  -- run of `Verify` ends with an OK report, the store names the tenant, and the checkpoint is among
  -- those that the checkpoint store has for it, then none of the tenant's entries up to `end` is
  -- missing, sorted by number they have the payloads (tenant, number, both times, source, raw line)
  -- that they had, and the checkpoint before is the one that this one was linked to. SHA-256 is assumed
  -- not to collide on the messages compared, and lengths and values to be in the range of their Go
  -- types.
  pub verify-Anchored :
      (t : Bytes) (start end : ℕ) (es : List Entry) (prev : Bytes) (cp : Checkpoint)
      (a : Anchored t start end es prev cp) (store : Store) (worm : CheckpointStore)
      (state : worm.State) (ledger : ProofLedger) (notaries : List Notary) (r : Report)
      (store' : Store)
      → ((u : Bytes) → length (held u store) < 2 ^ 64)
      → verify store worm state ledger notaries ≡ done (r, store')
      → report_ok r ≡ true
      → (us vs : List Bytes) → tenants store ≡ us ++ t ∷ vs
      → (cps more : List Checkpoint) → worm.all_checkpoints t state ≡ ok (cps ++ cp ∷ more)
      → let fs : List Entry = sort_by_seq (held t store) in
        let prev_id : Bytes = id_before [] cps in
        Fits prev_id
        → AllInRange t fs
        → ((rebuilt : Checkpoint)
            → build t (window start end fs) prev_id cp.anchored_at ≡ done rebuilt
            → NoCollision
                (checkpoint_message (commitment rebuilt))
                (checkpoint_message (commitment cp)))
        → NoChainCollision t (genesis t) (take (suc end) fs) (genesis t) (take (suc end) es)
        → (end < length fs)
          × (payloads t (take (suc end) fs) ≡ payloads t (take (suc end) es))
          × (prev_id ≡ prev)
  verify-Anchored t start end es prev cp a store worm state ledger notaries r store' bounded ends
        clean us vs named cps more listed linked in_range free_id free_chain =
      let fs = sort_by_seq (held t store) in
      let all = verify_sound store worm state ledger notaries r store' bounded ends clean in
      let (chained, (st, found, at, read, passed)) =
        All-middle (Verified ledger (by_name notaries []) (λ u. worm.all_checkpoints u state) store)
          us t vs (subst (All _) named all) in
      let same : found ≡ cps ++ cp ∷ more = ok-injective (sym read ∙ listed) in
      let (r0, r1, checked, kept) =
        AllPassed-middle ledger (by_name notaries []) t st [] cps cp more
          (subst (AllPassed ledger (by_name notaries []) t st []) same passed) in
      let small : length fs < 2 ^ 64 =
        omega (arith, length-sort_by_seq (held t store), bounded t) in
      (
        nothing_missing t start end es prev cp a fs st at small chained ledger (by_name notaries [])
            (id_before [] cps) r0 r1 checked kept,
        same_payloads t start end es prev cp a fs st at small chained ledger (by_name notaries [])
            (id_before [] cps) r0 r1 checked kept linked in_range free_id free_chain,
        same_link t start end es prev cp a fs st at small chained ledger (by_name notaries [])
            (id_before [] cps) r0 r1 checked kept linked in_range free_id free_chain,
      )

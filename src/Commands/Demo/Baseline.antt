-- ===== src/Commands/Demo/Baseline.antt =====
-- cmd/demo/main.go: the system that `build` makes passes the verifier.
use multi_log.Prelude.{
  ℕ, ◌^◌, ◌<◌, ◌≡◌, refl, sym, ◌∙◌, ap, arith, Bool-cases, inl, inr, true, false, List, [], ◌∷◌,
  Bytes, bytes_equal, bytes_equal→eq, codes, IsI64, Map, Bytes_eq, get, All, All-always, length,
  done, ◌>>=◌,
}
use mathlib.Core.Path.{subst}
use multi_log.Crypto.{Sha256, genesis}
use multi_log.Crypto.Framing.{Fits}
use multi_log.Chain
use multi_log.Chain.{Entry, Store, new_store, tenants}
use multi_log.Chain.Sorted.{held, tenant-sorted}
use multi_log.Chain.Sealer.{new_sealer}
use multi_log.Chain.Sealer.Chained.{IsChained, sort-IsChained}
use multi_log.Chain.Sealer.Agree.{AllInRange}
use multi_log.Witness.{Notary, new_proof_ledger, get_proofs, new_mem_store, mem_store}
use multi_log.Witness.Honest.{IsHonest}
use multi_log.Verify.{Report, report_ok, verify, by_name}
use multi_log.Verify.Whole.Known.{IsKnown, HasDistinctNames, by_name-IsKnown}
use multi_log.Verify.Whole.Kept.{Windows-none, Kept, Kept-same, Kept-Intact}
use multi_log.Verify.Whole.Intact.{held-tenant, verify_complete}
use multi_log.Commands.Demo.{
  Sample, System, Progress, base_time, window_loop, anchor_tenants, build_of,
}
use multi_log.Commands.Demo.Windows.{Answers, Went, window_loop-Went}
use multi_log.Commands.Demo.Sealed.{
  SamplesFit, total_samples, sealed, seal_tenants-seal_all, sealed-IsChained, length-sealed,
  sealed-AllInRange,
}

abbrev pub IsDistinct : List Bytes → Type 0
IsDistinct [] = Unit {0}
IsDistinct (t ∷ ts) = All (λ u. bytes_equal t u ≡ false) ts × IsDistinct ts

module _ ⦃sha : Sha256⦄ where
  module _ (notaries : Map Bytes Notary) (nts : List Notary) (answers : All Answers nts)
      (known : All (IsKnown notaries) nts) (es : Bytes → List Entry)
      (chained : (u : Bytes) → IsChained u 0 (genesis u) (es u))
      (bounded : (u : Bytes) → length (es u) < 2 ^ 64) where
    -- Every tenant has its windows so far; those of `ts` have none yet.
    abbrev AllKept : Progress → Type 0
    AllKept p =
        (u : Bytes) → (n : ℕ) × (last : Bytes) × Kept notaries u (es u) n last p.worm p.ledger

    abbrev AllNew : Progress → List Bytes → Type 0
    AllNew p ts = All (λ t. Kept notaries t (es t) 0 [] p.worm p.ledger) ts

    Kept-Went :
        (t u : Bytes) (p p' : Progress) (n : ℕ) (last : Bytes)
        → Went notaries t (es t) p p'
        → bytes_equal t u ≡ false
        → Kept notaries u (es u) n last p.worm p.ledger
        → Kept notaries u (es u) n last p'.worm p'.ledger
    Kept-Went t u p p' n last w other k =
        Kept-same notaries u (es u) n last p.worm p'.worm p.ledger p'.ledger (w.records u other)
          (λ m short. w.proofs u m other short) k

    AllKept-Went :
        (t : Bytes) (p p' : Progress) → Went notaries t (es t) p p' → AllKept p → AllKept p'
    AllKept-Went t p p' w all u = elim (Bool-cases (bytes_equal t u)) [
      | inl own ↦
          subst (λ v. (n : ℕ) × (last : Bytes) × Kept notaries v (es v) n last p'.worm p'.ledger)
            (bytes_equal→eq t u own) (w.size, w.last, w.kept)
      | inr other ↦ let (n, last, k) = all u in (n, last, Kept-Went t u p p' n last w other k)
    ]

    AllNew-Went :
        (t : Bytes) (p p' : Progress) (ts : List Bytes)
        → Went notaries t (es t) p p'
        → All (λ u. bytes_equal t u ≡ false) ts
        → AllNew p ts
        → AllNew p' ts
    AllNew-Went t p p' [] w others new = tt
    AllNew-Went t p p' (u ∷ ts) w (other, others) (k, new) =
        (Kept-Went t u p p' 0 [] w other k, AllNew-Went t p p' ts w others new)

    anchor_tenants-AllKept :
        (ts : List Bytes) (store : Store) (p : Progress)
        → ((u : Bytes) → held u store ≡ es u)
        → IsI64 p.anchored_at
        → IsDistinct ts
        → All (λ t. Fits t × AllInRange t (es t)) ts
        → AllKept p
        → AllNew p ts
        → (store' : Store) × (p' : Progress) × (anchor_tenants nts ts store p ≡ done (store', p'))
          × ((u : Bytes) → held u store' ≡ es u)
          × AllKept p'
    unfolding anchor_tenants
    anchor_tenants-AllKept [] store p at dated distinct fits all new = (store, p, refl, at, all)
    anchor_tenants-AllKept (t ∷ ts) store p at dated (others, distinct) ((named, in_range), fits)
          all (k, new) =
        let fixed = sort-IsChained t 0 (genesis t) (es t) (omega (arith, bounded t)) (chained t) in
        let read : (Chain.tenant t store).0 ≡ es t =
          (tenant-sorted t store).0 ∙ ap Chain.sort_by_seq (at t) ∙ fixed in
        let sorted : Chain.sort_by_seq (held t store) ≡ held t store =
          ap Chain.sort_by_seq (at t) ∙ fixed ∙ sym (at t) in
        let (p1, ran, went) =
          window_loop-Went notaries nts answers known t (es t) (chained t) (bounded t) named
            in_range (length (es t)) 0 (es t) [] p refl (omega arith) (omega arith) dated k in
        let (store', p', ends, at', all') =
          anchor_tenants-AllKept ts (Chain.tenant t store).1 p1
            (λ u. held-tenant t u store sorted ∙ at u) went.dated distinct fits
            (AllKept-Went t p p1 went all) (AllNew-Went t p p1 ts went others new) in
        (
          store',
          p',
          ap (λ m. m >>= (λ q. anchor_tenants nts ts (Chain.tenant t store).1 q))
                (ap (λ xs. window_loop nts (length xs) t xs [] p) read ∙ ran)
              ∙ ends,
          at',
          all',
        )

  first_progress : IsI64 base_time
  first_progress = omega arith

  -- The progress that `build_of` begins with.
  abbrev begin : Map Bytes (List Sample) → List Bytes → Progress
  begin logs order = record {
    worm = new_mem_store (codes "S3 Object Lock (WORM)");
    ledger = new_proof_ledger;
    anchored_at = (sealed logs order).0;
  }

  Kept-begin :
      (notaries : Map Bytes Notary) (logs : Map Bytes (List Sample)) (order : List Bytes)
      (u : Bytes) (es : List Entry)
      → Kept notaries u es 0 [] (begin logs order).worm (begin logs order).ledger
  unfolding get get_proofs
  Kept-begin notaries logs order u es = record {
    cps = [];
    stored = refl;
    windows = Windows-none notaries u es (begin logs order).ledger (λ m below. refl);
  }

  Named-order :
      (logs : Map Bytes (List Sample)) (order ts : List Bytes)
      → SamplesFit logs order
      → SamplesFit logs ts
      → All (λ t. Fits t × AllInRange t (held t (sealed logs order).1.store)) ts
  Named-order logs order [] fits hs = tt
  Named-order logs order (t ∷ ts) fits ((h, _), hs) =
      ((h, sealed-AllInRange logs order t h fits), Named-order logs order ts fits hs)

  -- The demo's baseline, for any lines of any tenants: the lines are sealed, window for window the
  -- checkpoints are put into the in-memory store and stamped by the notaries, and then the verifier
  -- reports no issue. The tenants are distinct, their lines are fewer than 2 ^ 64, names and lines are
  -- shorter than 2 ^ 64 bytes, and the notaries have distinct names, stamp every id, under their own
  -- name, and accept what they stamped.
  pub build_of-verify :
      (order : List Bytes) (logs : Map Bytes (List Sample)) (nts : List Notary)
      → IsDistinct order
      → SamplesFit logs order
      → total_samples logs order < 2 ^ 64
      → HasDistinctNames nts
      → All IsHonest nts
      → All Answers nts
      → (sys : System) × (r : Report) × (store' : Store) × (build_of order logs nts ≡ done sys)
        × (verify sys.store (mem_store sys.worm.name) sys.worm sys.ledger sys.notaries
            ≡ done (r, store'))
        × (report_ok r ≡ true)
  unfolding build_of
  build_of-verify order logs nts distinct fits few names honest answers =
      let notaries = by_name nts [] in
      let store = (sealed logs order).1.store in
      let p = begin logs order in
      let bounded = λ (u : Bytes).
        let b : length (held u store) < 2 ^ 64 = omega (arith, length-sealed logs order u) in b in
      let (store', p', ends, at, all) =
        anchor_tenants-AllKept notaries nts answers (by_name-IsKnown nts honest names)
          (λ u. held u store) (sealed-IsChained logs order) bounded order store p (λ u. refl)
          (seal_tenants-seal_all logs order base_time (new_sealer new_store) (omega arith)).1
          distinct (Named-order logs order order fits fits)
          (λ u. (0, [], Kept-begin notaries logs order u (held u store)))
          (All-always (λ t. Kept notaries t (held t store) 0 [] p.worm p.ledger)
            (λ t. Kept-begin notaries logs order t (held t store)) order) in
      let (r, st, verified, clean) =
        verify_complete store' (mem_store p'.worm.name) p'.worm p'.ledger nts (
          All-always _
            (λ u.
              let (n, last, k) = all u in
              Kept-Intact notaries u store' n last p'.worm p'.ledger
                (subst (IsChained u 0 (genesis u)) (sym (at u)) (sealed-IsChained logs order u))
                (subst (λ es. length es < 2 ^ 64) (sym (at u)) (bounded u))
                (subst (λ es. Kept notaries u es n last p'.worm p'.ledger) (sym (at u)) k))
            (tenants store')) in
      (
        record { store = store'; worm = p'.worm; ledger = p'.ledger; notaries = nts },
        r,
        st,
        rw ends refl,
        verified,
        clean,
      )

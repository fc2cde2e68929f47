-- ===== src/Verify/Whole/Kept.antt =====
-- A tenant whose checkpoints were put one behind the other into the in-memory store, with their proofs
-- in the ledger, stays intact when the next window is anchored.
use multi_log.Prelude.{
  ℕ, ◌+◌, ◌^◌, ◌≤◌, ◌<◌, ◌≡◌, refl, sym, ◌∙◌, ap, arith, List, [], ◌∷◌, ◌++◌, Bytes, Map, Bytes_eq,
  get, or_nil, All, length, ok,
}
use mathlib.Core.Path.{subst}
use multi_log.Crypto.{Sha256, genesis}
use multi_log.Chain.{Entry, Store}
use multi_log.Chain.Sorted.{held}
use multi_log.Chain.Sealer.Chained.{IsChained}
use multi_log.Checkpoint.{Checkpoint}
use multi_log.Checkpoint.Window.{CommitsTo}
use multi_log.Witness.{Notary, ProofLedger, get_proofs, MemStore, mem_put, mem_all}
use multi_log.Witness.Rising.{
  keyed, IsRising, IsRising-le, IsRising-snoc, mem_all-keyed, mem_put-next,
}
use multi_log.Verify.Evident.{Attests}
use multi_log.Verify.Tamper.{Anchored, anchored_commits}
use multi_log.Verify.Whole.Payloads.{id_before}
use multi_log.Verify.Whole.Intact.{Intact, AllAnchored}

module _ ⦃sha : Sha256⦄ (notaries : Map Bytes Notary) where
  -- The checkpoints `cps` of a tenant are over the first `n` of its entries `es`, the last of them with
  -- the id `last`, and the ledger has attested proofs for them.
  pub record Windows (t : Bytes) (es : List Entry) (n : ℕ) (last : Bytes) (cps : List Checkpoint)
      (ledger : ProofLedger) : Type 0 where
    pub rising : IsRising 0 cps n
    pub bounded : n ≤ 2 ^ 64
    pub anchored : AllAnchored ledger notaries t es [] cps
    pub linked : id_before [] cps ≡ last
    pub fresh : (m : ℕ) → n ≤ m → m < 2 ^ 64 → get_proofs t m ledger ≡ []

  -- And they are what the in-memory store has of the tenant.
  pub record Kept (t : Bytes) (es : List Entry) (n : ℕ) (last : Bytes) (worm : MemStore)
      (ledger : ProofLedger) : Type 0 where
    pub cps : List Checkpoint
    pub stored : or_nil (get t worm.records) ≡ keyed cps
    pub windows : Windows t es n last cps ledger

  -- The ledger has the same proofs for the windows of a tenant that end below `n`.
  abbrev SameBelow : Bytes → ℕ → ProofLedger → ProofLedger → Type 0
  SameBelow t n ledger ledger' = (m : ℕ) → m < n → get_proofs t m ledger' ≡ get_proofs t m ledger

  AllAnchored-SameBelow :
      (t : Bytes) (n : ℕ) (ledger ledger' : ProofLedger) (es : List Entry) (lo : ℕ) (prev : Bytes)
      (cps : List Checkpoint)
      → SameBelow t n ledger ledger'
      → IsRising lo cps n
      → AllAnchored ledger notaries t es prev cps
      → AllAnchored ledger' notaries t es prev cps
  AllAnchored-SameBelow t n ledger ledger' es lo prev [] same rising h = tt
  AllAnchored-SameBelow t n ledger ledger' es lo prev (cp ∷ cps) same (above, rising)
        ((start, end, a, attested), hs) =
      let below = IsRising-le (cp.seq_end + 1) cps n rising in
      (
        (
          start,
          end,
          a,
          subst (All (Attests notaries cp.checkpoint_id))
              (sym (same cp.seq_end (omega (arith, below)))) attested,
        ),
        AllAnchored-SameBelow t n ledger ledger' es (cp.seq_end + 1) cp.checkpoint_id cps same
            rising hs,
      )

  AllAnchored-snoc :
      (t : Bytes) (ledger : ProofLedger) (es : List Entry) (prev : Bytes) (cps : List Checkpoint)
      (cp : Checkpoint) (start end : ℕ)
      → AllAnchored ledger notaries t es prev cps
      → Anchored t start end es (id_before prev cps) cp
      → All (Attests notaries cp.checkpoint_id) (get_proofs t cp.seq_end ledger)
      → AllAnchored ledger notaries t es prev (cps ++ cp ∷ [])
  AllAnchored-snoc t ledger es prev [] cp start end h a attested = ((start, end, a, attested), tt)
  AllAnchored-snoc t ledger es prev (x ∷ cps) cp start end (h, hs) a attested =
      (h, AllAnchored-snoc t ledger es x.checkpoint_id cps cp start end hs a attested)

  id_before-snoc :
      (prev : Bytes) (cps : List Checkpoint) (cp : Checkpoint)
      → id_before prev (cps ++ cp ∷ []) ≡ cp.checkpoint_id
  id_before-snoc prev [] cp = refl
  id_before-snoc prev (x ∷ cps) cp = id_before-snoc x.checkpoint_id cps cp

  -- What stamping the checkpoint of a window that ends at `end` does to the ledger: the window's proofs
  -- stay attested, and no other window's change.
  abbrev pub Stamped : Bytes → ℕ → Bytes → ProofLedger → ProofLedger → Type 0
  Stamped t end id ledger ledger' =
      (All (Attests notaries id) (get_proofs t end ledger)
        → All (Attests notaries id) (get_proofs t end ledger'))
      × ((u : Bytes) (m : ℕ)
          → m < 2 ^ 64
          → ¬ ((t ≡ u) × (end ≡ m))
          → get_proofs u m ledger' ≡ get_proofs u m ledger)

  -- The next window, stamped.
  pub Windows-next :
      (t : Bytes) (es : List Entry) (n end : ℕ) (last : Bytes) (cps : List Checkpoint)
      (cp : Checkpoint) (ledger ledger' : ProofLedger)
      → Windows t es n last cps ledger
      → Anchored t n end es last cp
      → Stamped t end cp.checkpoint_id ledger ledger'
      → Windows t es (end + 1) cp.checkpoint_id (cps ++ cp ∷ []) ledger'
  Windows-next t es n end last cps cp ledger ledger' k a (own, others) =
      let c : CommitsTo t n end es last cp.anchored_at cp = anchored_commits t n end es last cp a in
      let within : n ≤ cp.seq_end = omega (arith, a.ordered, c.last) in
      let short : end < 2 ^ 64 = omega (arith, a.inside, a.bounded) in
      let attested : All (Attests notaries cp.checkpoint_id) (get_proofs t end ledger') =
        own (
          subst (All (Attests notaries cp.checkpoint_id)) (sym (k.fresh end a.ordered short)) tt) in
      record {
        rising = IsRising-snoc 0 cps cp n (end + 1) k.rising within (omega (arith, c.last));
        bounded = omega arith;
        anchored =
            AllAnchored-snoc t ledger' es [] cps cp n end
              (AllAnchored-SameBelow t n ledger ledger' es 0 [] cps
                (λ m below.
                  others t m (omega (arith, a.ordered))
                    (λ (_, same). absurd (omega (arith, a.ordered))))
                k.rising k.anchored)
              (subst (λ p. Anchored t n end es p cp) (sym k.linked) a)
              (subst (λ m. All (Attests notaries cp.checkpoint_id) (get_proofs t m ledger'))
                (sym c.last) attested);
        linked = id_before-snoc [] cps cp;
        fresh = λ m above below.
            others t m below (λ (_, same). absurd (omega arith))
            ∙ k.fresh m (omega (arith, a.ordered)) below;
      }

  -- The other tenants, where none of their proofs changes.
  pub Windows-same :
      (u : Bytes) (es : List Entry) (n : ℕ) (last : Bytes) (cps : List Checkpoint)
      (ledger ledger' : ProofLedger)
      → ((m : ℕ) → m < 2 ^ 64 → get_proofs u m ledger' ≡ get_proofs u m ledger)
      → Windows u es n last cps ledger
      → Windows u es n last cps ledger'
  Windows-same u es n last cps ledger ledger' proofs k = record {
    rising = k.rising;
    bounded = k.bounded;
    anchored =
        AllAnchored-SameBelow u n ledger ledger' es 0 [] cps
          (λ m below. proofs m (omega (arith, k.bounded))) k.rising k.anchored;
    linked = k.linked;
    fresh = λ m above below. proofs m below ∙ k.fresh m above below;
  }

  pub Windows-none :
      (t : Bytes) (es : List Entry) (ledger : ProofLedger)
      → ((m : ℕ) → m < 2 ^ 64 → get_proofs t m ledger ≡ [])
      → Windows t es 0 [] [] ledger
  Windows-none t es ledger none = record {
    rising = omega arith;
    bounded = omega arith;
    anchored = tt;
    linked = refl;
    fresh = λ m above below. none m below;
  }

  -- The next window is put and stamped.
  pub Kept-window :
      (t : Bytes) (es : List Entry) (n end : ℕ) (last : Bytes) (cp : Checkpoint) (worm : MemStore)
      (ledger ledger' : ProofLedger)
      → Kept t es n last worm ledger
      → Anchored t n end es last cp
      → Stamped t end cp.checkpoint_id ledger ledger'
      → ((mem_put cp worm).0 ≡ ok tt)
        × Kept t es (end + 1) cp.checkpoint_id (mem_put cp worm).1 ledger'
  Kept-window t es n end last cp worm ledger ledger' k a stamped =
      let c : CommitsTo t n end es last cp.anchored_at cp = anchored_commits t n end es last cp a in
      let at : or_nil (get cp.tenant_id worm.records) ≡ keyed k.cps =
        subst (λ u. or_nil (get u worm.records) ≡ keyed k.cps) (sym c.tenant) k.stored in
      let (stored, next) =
        mem_put-next cp worm k.cps n at k.windows.rising (omega (arith, a.ordered, c.last)) in
      (
        stored,
        record {
          cps = k.cps ++ cp ∷ [];
          stored =
              subst (λ u. or_nil (get u (mem_put cp worm).1.records) ≡ keyed (k.cps ++ cp ∷ []))
                c.tenant next;
          windows = Windows-next t es n end last k.cps cp ledger ledger' k.windows a stamped;
        },
      )

  pub Kept-same :
      (u : Bytes) (es : List Entry) (n : ℕ) (last : Bytes) (worm worm' : MemStore)
      (ledger ledger' : ProofLedger)
      → get u worm'.records ≡ get u worm.records
      → ((m : ℕ) → m < 2 ^ 64 → get_proofs u m ledger' ≡ get_proofs u m ledger)
      → Kept u es n last worm ledger
      → Kept u es n last worm' ledger'
  Kept-same u es n last worm worm' ledger ledger' records proofs k = record {
    cps = k.cps;
    stored = ap or_nil records ∙ k.stored;
    windows = Windows-same u es n last k.cps ledger ledger' proofs k.windows;
  }

  pub Kept-Intact :
      (t : Bytes) (store : Store) (n : ℕ) (last : Bytes) (worm : MemStore) (ledger : ProofLedger)
      → IsChained t 0 (genesis t) (held t store)
      → length (held t store) < 2 ^ 64
      → Kept t (held t store) n last worm ledger
      → Intact ledger notaries (λ u. mem_all u worm) store t
  Kept-Intact t store n last worm ledger chained bounded k = (
    chained,
    bounded,
    (k.cps, mem_all-keyed t worm k.cps n k.stored k.windows.rising, k.windows.anchored),
  )

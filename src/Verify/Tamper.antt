-- ===== src/Verify/Tamper.antt =====
-- What a verification without issues proves about the stored entries.
use multi_log.Prelude.{
  ℕ, suc, ◌+◌, ◌^◌, ◌≤◌, ◌<◌, ◌≡◌, sym, ◌∙◌, ap, arith, true, false, Bool, List, Bytes, IsI64,
  length, take, drop, take-append-drop, length-take, All-take, Map, Bytes_eq, get, or_nil, done,
  done-injective,
}
use native.Mathlib.Decide.{dec_lt}
use multi_log.Crypto.{Sha256, genesis}
use multi_log.Crypto.Framing.{Fits}
use multi_log.Crypto.Commit.{NoCollision, Commitment, checkpoint_message, checkpoint_id-injective}
use multi_log.Chain.{Entry, Store, range, max_pointers}
use multi_log.Chain.Window.{IsNumbered}
use multi_log.Chain.Window.Slices.{range-short, range-within}
use multi_log.Chain.Sealer.Chained.{IsChained}
use multi_log.Chain.Sealer.Agree.{
  payloads, AllInRange, NoChainCollision, chains_agree, IsChained-IsNumbered, IsChained-front,
}
use multi_log.Checkpoint.{Checkpoint, commitment, build}
use multi_log.Checkpoint.Window.{window, CommitsTo, build-CommitsTo}
use multi_log.Witness.{Notary, ProofLedger}
use multi_log.Verify.{Report, verify_checkpoint}
use multi_log.Verify.Checkpoints.{Confirmed, verify_checkpoint_clean}

module _ ⦃sha : Sha256⦄ where
  -- A checkpoint over the window `start` to `end` of the tenant's chain `es`, as it was anchored.
  pub record Anchored (t : Bytes) (start end : ℕ) (es : List Entry) (prev : Bytes) (cp : Checkpoint)
      : Type 0 where
    pub chain : IsChained t 0 (genesis t) es
    pub bounded : length es < 2 ^ 64
    pub ordered : start ≤ end
    pub inside : end < length es
    pub small : end < start + max_pointers
    pub built : build t (window start end es) prev cp.anchored_at ≡ done cp
    pub named : Fits t
    pub linked : Fits prev
    pub dated : IsI64 cp.anchored_at
    pub in_range : AllInRange t es

  module _ (t : Bytes) (start end : ℕ) (es : List Entry) (prev : Bytes) (cp : Checkpoint)
      (a : Anchored t start end es prev cp) where
    pub anchored_commits : CommitsTo t start end es prev cp.anchored_at cp
    anchored_commits =
        build-CommitsTo t es start end prev cp.anchored_at a.chain a.bounded a.ordered a.inside
          a.named a.linked a.dated cp a.built

    module _ (fs : List Entry) (store : Store) (at : or_nil (get t store.entries) ≡ fs)
        (bounded : length fs < 2 ^ 64) (chained : IsChained t 0 (genesis t) fs) where
      pub fs-IsNumbered : IsNumbered 0 fs
      fs-IsNumbered = IsChained-IsNumbered t 0 (genesis t) fs (omega arith) chained

      -- Where the store's chain is shorter than the window's end, `Range` is incomplete.
      found_short :
          length fs ≤ end
          → (found : List Entry) × (range t cp.seq_start cp.seq_end store ≡ done (found, false))
      found_short short =
          let c = anchored_commits in
          let (found, ranged, _) =
            range-short t store fs fs-IsNumbered at start end a.ordered
              (omega (arith, a.inside, a.bounded)) a.small short in
          (found, rw (c.first, c.last) ranged)

      pub found_whole :
          end < length fs → range t cp.seq_start cp.seq_end store ≡ done (window start end fs, true)
      found_whole inside =
          let c = anchored_commits in
          rw (c.first, c.last)
            (range-within t store fs fs-IsNumbered at start end a.ordered
              (omega (arith, a.inside, a.bounded)) a.small inside bounded)

      module _ (ledger : ProofLedger) (notaries : Map Bytes Notary) (prev_id : Bytes)
          (r r' : Report) (ends : verify_checkpoint store ledger notaries t prev_id cp r ≡ done r')
          (clean : r'.issues ≡ r.issues) where
        confirmed : Confirmed store ledger notaries t prev_id cp r
        confirmed = verify_checkpoint_clean store ledger notaries t prev_id cp r r' ends clean

        -- The store has an entry for every sequence number up to the window's end.
        pub nothing_missing : end < length fs
        nothing_missing = elim (dec_lt end (length fs)) [
          | yes inside ↦ inside
          | no short ↦
              let (_, _, whole, _, _) = confirmed in
              let (_, partial) = found_short (omega arith) in
              let apart = done-injective (sym whole ∙ partial) in cc
        ]

        rebuilt_window :
            (rebuilt : Checkpoint) × (build t (window start end fs) prev_id cp.anchored_at
              ≡ done rebuilt)
            × (rebuilt.checkpoint_id ≡ cp.checkpoint_id)
        rebuilt_window =
            let (found, rebuilt, whole, built, same) = confirmed in
            let sliced : found ≡ window start end fs =
              ap (λ (p : List Entry × Bool). p.0)
                (done-injective (sym whole ∙ found_whole nothing_missing)) in
            (rebuilt, rw sliced at built, same)

        module _ (linked : Fits prev_id) (in_range : AllInRange t fs)
            (free_id : (rebuilt : Checkpoint)
              → build t (window start end fs) prev_id cp.anchored_at ≡ done rebuilt
              → NoCollision
                  (checkpoint_message (commitment rebuilt))
                  (checkpoint_message (commitment cp)))
            (free_chain : NoChainCollision t
              (genesis t)
              (take (suc end) fs)
              (genesis t)
              (take (suc end) es)) where
          same_commitment :
              (rebuilt : Checkpoint) × CommitsTo t start end fs prev_id cp.anchored_at rebuilt
              × (commitment rebuilt ≡ commitment cp)
          same_commitment =
              let (rebuilt, built, same) = rebuilt_window in
              let c = anchored_commits in
              let d =
                build-CommitsTo t fs start end prev_id cp.anchored_at chained bounded a.ordered
                  nothing_missing a.named linked a.dated rebuilt built in
              (
                rebuilt,
                d,
                checkpoint_id-injective d.in_range c.in_range (free_id rebuilt built)
                    (sym d.id ∙ same ∙ c.id),
              )

          front_chained :
              (xs : List Entry)
              → IsChained t 0 (genesis t) xs
              → IsChained t 0 (genesis t) (take (suc end) xs)
          front_chained xs h =
              IsChained-front t 0 (genesis t) (take (suc end) xs) (drop (suc end) xs)
                (rw (take-append-drop (suc end) xs) h)

          pub same_payloads : payloads t (take (suc end) fs) ≡ payloads t (take (suc end) es)
          same_payloads =
              let (rebuilt, d, same) = same_commitment in
              let heads = ap (λ (x : Commitment). x.head_hash) same in
              (chains_agree t 0 (genesis t) (genesis t) (take (suc end) fs) (take (suc end) es)
                (front_chained fs chained) (front_chained es a.chain)
                (length-take (suc end) fs nothing_missing ∙ sym (length-take (suc end) es a.inside))
                (All-take _ (suc end) fs in_range) (All-take _ (suc end) es a.in_range) free_chain
                (sym d.head ∙ heads ∙ anchored_commits.head)).1

          pub same_link : prev_id ≡ prev
          same_link =
              let (rebuilt, d, same) = same_commitment in
              sym d.previous ∙ ap (λ (x : Commitment). x.prev) same ∙ anchored_commits.previous

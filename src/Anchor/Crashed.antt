-- ===== src/Anchor/Crashed.antt =====
-- internal/anchor/anchor.go: a run behind one that ended between the WORM store and the working copy.
use multi_log.Prelude.{
  ℕ, zero, suc, ◌+◌, ◌^◌, ◌≤◌, ◌<◌, ◌≡◌, ◌≢◌, refl, sym, ◌∙◌, ap, arith, inl, inr, List, [], ◌∷◌,
  ◌++◌, none, some, Bytes, Map, All, length, take, drop, length-append, take-append_within, ok,
  Result-cases, Run, done, done-injective,
}
use mathlib.Core.Path.{subst}
use multi_log.Crypto.{Sha256, genesis}
use multi_log.Crypto.Framing.{Fits}
use multi_log.Crypto.Commit.{NoCollision, Commitment, checkpoint_message, checkpoint_id-injective}
use multi_log.Chain.{Entry, max_pointers}
use multi_log.Chain.Sealer.Chained.{IsChained}
use multi_log.Chain.Sealer.Agree.{AllInRange}
use multi_log.Checkpoint.{Checkpoint, commitment, build}
use multi_log.Checkpoint.Built.{made, build_total}
use multi_log.Witness.{Notary}
use multi_log.Verify.Tamper.{Anchored, anchored_commits}
use multi_log.Verify.Whole.Known.{IsKnown}
use multi_log.Verify.Whole.Next.{window_Anchored}
use multi_log.Anchor.{
  Services, Outcome, forgive, stamp_all, anchor_window, anchor_windows, start_of, prev_of,
  anchor_tenant,
}
use multi_log.Anchor.Stamps.{on_ok-none, stamp_all-StampedWorld}
use multi_log.Anchor.Views.{Views, IsFaithful}
use multi_log.Anchor.Settled.{mark}
use multi_log.Anchor.Complete.{start_of-mark, prev_of-mark}

module _ ⦃sha : Sha256⦄ where
  -- Two checkpoints over one window that were made at different times have different ids.
  times_differ :
      (t : Bytes) (start end : ℕ) (es : List Entry) (prev : Bytes) (cp cp' : Checkpoint)
      → Anchored t start end es prev cp
      → Anchored t start end es prev cp'
      → NoCollision (checkpoint_message (commitment cp)) (checkpoint_message (commitment cp'))
      → cp.anchored_at ≢ cp'.anchored_at
      → cp.checkpoint_id ≢ cp'.checkpoint_id
  times_differ t start end es prev cp cp' a a' free apart same =
      let c = anchored_commits t start end es prev cp a in
      let c' = anchored_commits t start end es prev cp' a' in
      apart (
        ap (λ (x : Commitment). x.anchored_at)
          (checkpoint_id-injective c.in_range c'.in_range free (sym c.id ∙ same ∙ c'.id)))

  take_whole : (m : ℕ) (es : List Entry) → length es ≤ m → take m es ≡ es
  take_whole zero [] h = refl
  take_whole zero (e ∷ es) h = absurd (omega arith)
  take_whole (suc m) [] h = refl
  take_whole (suc m) (e ∷ es) h = ap (λ xs. e ∷ xs) (take_whole m es (omega arith))

  drop_whole : (m : ℕ) (es : List Entry) → length es ≤ m → drop m es ≡ []
  drop_whole zero [] h = refl
  drop_whole zero (e ∷ es) h = absurd (omega arith)
  drop_whole (suc m) [] h = refl
  drop_whole (suc m) (e ∷ es) h = drop_whole m es (omega arith)

module _ ⦃sha : Sha256⦄ (s : Services) (v : Views s) (f : IsFaithful s v)
    (notaries : Map Bytes Notary) (nts : List Notary) (known : All (IsKnown notaries) nts) (m : ℕ)
    (small : m < max_pointers) (t : Bytes) (es : List Entry)
    (chained : IsChained t 0 (genesis t) es) (bounded : length es < 2 ^ 64) (named : Fits t)
    (in_range : AllInRange t es) where
  -- The window of the first run has been put, and its working copy has not been written.
  pub record HasCrashed (n end : ℕ) (id : Bytes) (cp : Checkpoint) (w : s.World) : Type 0 where
    pub cps : List Checkpoint
    pub rows : v.rows t w ≡ es
    pub last : v.last t w ≡ mark n id
    pub first : n ≡ 0 → id ≡ []
    pub held : v.held t w ≡ cps ++ cp ∷ []
    pub anchored : Anchored t n end es id cp

  -- What a window without an error leaves where its place is taken.
  window-Crashed :
      (n end : ℕ) (id : Bytes) (cp cp' : Checkpoint) (w w' : s.World) (count done_with : ℕ)
      (next : s.World → Run (Outcome s nts (suc m)))
      → HasCrashed n end id cp w
      → Anchored t n end es id cp'
      → ((end' : ℕ) (id' : Bytes) → mark n id ≡ some (end', id') → end' < end)
      → anchor_window s nts (suc m) t cp' count w next ≡ done ((done_with, none), w')
      → (w3 : s.World) × (next w3 ≡ done ((done_with, none), w'))
        × (v.held t w3 ≡ v.held t w)
        × (v.last t w3 ≡ some (end, cp'.checkpoint_id))
  unfolding anchor_window
  window-Crashed n end id cp cp' w w' count done_with next h a below ends =
      let w1 = (s.worm_put cp' w).1 in
      let w2 = (s.put_checkpoint cp' w1).1 in
      let w3 = (stamp_all s nts (suc m) nts t cp' w2).1 in
      let c = anchored_commits t n end es id cp h.anchored in
      let c' = anchored_commits t n end es id cp' a in
      let none_err = on_ok-none s v f notaries nts known (suc m) count in
      let (put, ends1) = none_err (forgive (s.worm_put cp' w).0, w1) _ done_with w' ends in
      let (copied, ends2) = none_err (s.put_checkpoint cp' w1) _ done_with w' ends1 in
      let (stamped, ends3) =
        none_err (stamp_all s nts (suc m) nts t cp' w2) next done_with w' ends2 in
      let stamps =
        stamp_all-StampedWorld s v f notaries nts known (suc m) nts t cp' w2
          (omega (arith, c'.last, a.inside, bounded)) known stamped in
      let taken : v.held t w1 ≡ v.held t w =
        subst (λ u. v.held u w1 ≡ v.held u w) c'.tenant
          (f.worm_taken cp' cp w h.cps []
            (subst (λ u. v.held u w ≡ h.cps ++ cp ∷ []) (sym c'.tenant) h.held)
            (c.last ∙ sym c'.last)) in
      let copy : v.last t w2 ≡ some (cp'.seq_end, cp'.checkpoint_id) =
        subst (λ u. v.last u w2 ≡ some (cp'.seq_end, cp'.checkpoint_id)) c'.tenant
          (f.copy_stored cp' w1 copied (λ end' id' found.
            let less = below end' id' (
              sym h.last
              ∙ subst (λ u. v.last u w ≡ some (end', id')) c'.tenant
                  (sym (f.worm_last cp' w cp'.tenant_id) ∙ found)) in
            omega (arith, less, c'.last))) in
      (
        w3,
        ends3,
        stamps.held t ∙ f.copy_held cp' w1 t ∙ taken,
        stamps.last t ∙ copy ∙ ap (λ j. some (j, cp'.checkpoint_id)) c'.last,
      )

  mark_before :
      (n k : ℕ) (id : Bytes) (end' : ℕ) (id' : Bytes) → mark n id ≡ some (end', id') → end' < n + k
  mark_before zero k id end' id' h = cc
  mark_before (suc e) k id end' id' h = let same : e ≡ end' = cc in omega arith

  -- A run ended between the WORM store and the working copy, with the checkpoint `cp` over a tenant's
  -- next window. If the next run reads exactly that window again, at another time, and gives no error,
  -- then the WORM store still has `cp`, while the working copy, which the next checkpoint will be
  -- linked to, has another id for the window. What the services read and change is as `IsFaithful`
  -- says, SHA-256 is assumed not to collide on the two checkpoints, and lengths and values are in the
  -- range of their Go types.
  pub anchor_tenant-crashed :
      (n : ℕ) (e : Entry) (rest : List Entry) (id : Bytes) (cp : Checkpoint) (w w' : s.World)
      (count : ℕ)
      → HasCrashed n (n + length rest) id cp w
      → Fits id
      → s.entries_asc t n w ≡ ok (e ∷ rest)
      → length rest ≤ m
      → s.now w ≢ cp.anchored_at
      → ((again : Checkpoint)
          → build t (e ∷ rest) id (s.now w) ≡ done again
          → NoCollision
              (checkpoint_message (commitment again))
              (checkpoint_message (commitment cp)))
      → anchor_tenant s nts (suc m) t w ≡ done ((count, none), w')
      → (id' : Bytes) × (v.last t w' ≡ some (n + length rest, id'))
        × (v.held t w' ≡ v.held t w)
        × (id' ≢ cp.checkpoint_id)
  unfolding anchor_tenant anchor_windows
  anchor_tenant-crashed n e rest id cp w w' count h linkable listed whole later free ends =
      elim (Result-cases (s.last_checkpoint t w)) [
        | inr (x, failed) ↦
            let none_run : ◌≡◌ {A = Run (Outcome s nts (suc m))} (done ((0, some x), w))
                (done ((count, none), w')) =
              rw (failed, anchor_tenant) at ends in
            absurd (cc)
        | inl (last, found) ↦
            let at : last ≡ mark n id = f.last_read t w last found ∙ h.last in
            let inside : n + length rest < length es = h.anchored.inside in
            let starts : start_of s nts (suc m) last ≡ n =
              ap (start_of s nts (suc m)) at
              ∙ start_of-mark s v f notaries nts known m small t es chained bounded named in_range n
                  id (omega arith) in
            let follows : prev_of s nts (suc m) last ≡ id =
              ap (prev_of s nts (suc m)) at
              ∙ prev_of-mark s v f notaries nts known m small t es chained bounded named in_range n
                  id h.first in
            let listed' = subst (λ j. s.entries_asc t j w ≡ ok (e ∷ rest)) (sym starts) listed in
            let (root, _, built) = build_total t e rest id (s.now w) in
            let again : Checkpoint = made t e rest root id (s.now w) in
            let (more, cut_at) = f.rows_read t n w (e ∷ rest) listed in
            let front : take (length rest) (rest ++ more) ≡ rest =
              take-append_within (length rest) rest more (omega arith)
              ∙ take_whole (length rest) rest (omega arith) in
            let anchored : Anchored t n (n + length rest) es id again =
              subst (λ xs. Anchored t n (n + length rest) es id (made t e xs root id (s.now w)))
                front
                (window_Anchored t es chained bounded named in_range n (length rest) e
                  (rest ++ more) id (s.now w) root (ap (drop n) (sym h.rows) ∙ cut_at) (omega arith)
                  (omega (arith, length-append rest more)) linkable (f.clock w)
                  (subst
                    (λ xs. build t (e ∷ xs) id (s.now w) ≡ done (made t e xs root id (s.now w)))
                    (sym front) built)) in
            let ends1 : anchor_windows s nts (suc m) (suc (length rest)) t (e ∷ rest)
                  (prev_of s nts (suc m) last) 0 w
                ≡ done ((count, none), w') =
              rw (found, anchor_tenant, listed') at ends in
            let ends2 : anchor_window s nts (suc m) t again 0 w (λ w3. done ((1, none), w3))
                ≡ done ((count, none), w') =
              rw (follows, anchor_windows, take_whole m rest whole, built, drop_whole m rest whole)
                at ends1 in
            let (w3, stopped, held, kept) =
              window-Crashed n (n + length rest) id cp again w w' 0 count
                (λ w3. done ((1, none), w3)) h anchored (mark_before n (length rest) id) ends2 in
            let same : w3 ≡ w' = ap (λ (r : Outcome s nts (suc m)). r.1) (done-injective stopped) in
            (
              again.checkpoint_id,
              subst (λ x. v.last t x ≡ some (n + length rest, again.checkpoint_id)) same kept,
              subst (λ x. v.held t x ≡ v.held t w) same held,
              times_differ t n (n + length rest) es id again cp anchored h.anchored
                  (free again built) later,
            )
      ]

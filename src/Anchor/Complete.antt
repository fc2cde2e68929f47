-- ===== src/Anchor/Complete.antt =====
-- internal/anchor/anchor.go: what a run of the anchorer without an error leaves.
use multi_log.Prelude.{
  ℕ, zero, suc, ◌+◌, ◌^◌, ◌≤◌, ◌<◌, ◌≡◌, refl, sym, ◌∙◌, ap, arith, inl, inr, List, [], ◌∷◌, ◌++◌,
  none, some, Bytes, Map, Bytes_eq, All, length, take, drop, length-append, length-drop,
  drop-drop_add, cut, take-append_within, drop-append_within, ok, Run, done, done-injective,
  Result-cases,
}
use mathlib.Core.Path.{subst}
use multi_log.Crypto.{Sha256, genesis}
use multi_log.Crypto.Framing.{Fits}
use multi_log.Chain.{Entry, max_pointers}
use multi_log.Chain.Sealer.Chained.{IsChained}
use multi_log.Chain.Sealer.Agree.{AllInRange}
use multi_log.Checkpoint.{Checkpoint, build}
use multi_log.Checkpoint.Built.{made, build_total}
use multi_log.Witness.{Notary}
use multi_log.Verify.Tamper.{anchored_commits}
use multi_log.Verify.Whole.Known.{IsKnown}
use multi_log.Verify.Whole.Next.{made-Fits, window_Anchored}
use multi_log.Anchor.{
  Services, Outcome, forgive, stamp_all, anchor_window, anchor_windows, start_of, prev_of,
  anchor_tenant,
}
use multi_log.Anchor.Stamps.{on_ok-none, stamp_all-StampedWorld}
use multi_log.Anchor.Views.{Views, IsFaithful}
use multi_log.Anchor.Settled.{Same-trans, mark, SettledAt, Advanced, window-Advanced}

module _ ⦃sha : Sha256⦄ (s : Services) (v : Views s) (f : IsFaithful s v)
    (notaries : Map Bytes Notary) (nts : List Notary) (known : All (IsKnown notaries) nts) (m : ℕ)
    (small : m < max_pointers) (t : Bytes) (es : List Entry)
    (chained : IsChained t 0 (genesis t) es) (bounded : length es < 2 ^ 64) (named : Fits t)
    (in_range : AllInRange t es) where
  -- The tenant's first `n` entries are anchored, the last checkpoint has this id.
  abbrev Reached : ℕ → Bytes → s.World → s.World → Type 0
  Reached n id w w' =
      Advanced s v f notaries nts known (suc m) t es chained bounded named in_range n id w w'

  Reached-trans :
      (n n' : ℕ) (id id' : Bytes) (w w' w'' : s.World)
      → Reached n id w w'
      → Reached n' id' w' w''
      → Reached n' id' w w''
  Reached-trans n n' id id' w w' w'' a b = record {
    settled = b.settled;
    rows = λ u. b.rows u ∙ a.rows u;
    others =
        λ u h. Same-trans s v f notaries nts known (suc m) u w w' w'' (a.others u h) (b.others u h);
  }

  anchor_window-Reached :
      (n k : ℕ) (e : Entry) (rest : List Entry) (last root : Bytes) (w w' : s.World)
      (anchored done_with : ℕ) (next : s.World → Run (Outcome s nts (suc m)))
      → v.rows t w ≡ es
      → drop n es ≡ e ∷ rest
      → k ≤ m
      → k ≤ length rest
      → build t (e ∷ take k rest) last (s.now w) ≡ done (made t e (take k rest) root last (s.now w))
      → SettledAt s v f notaries nts known (suc m) t n last w
      → anchor_window s nts (suc m) t (made t e (take k rest) root last (s.now w)) anchored w next
        ≡ done ((done_with, none), w')
      → (w3 : s.World) × Reached
          (n + k + 1)
          (made t e (take k rest) root last (s.now w)).checkpoint_id
          w
          w3
        × (next w3 ≡ done ((done_with, none), w'))
  unfolding anchor_window
  anchor_window-Reached n k e rest last root w w' anchored done_with next rows behind below within
        built settled ends =
      let cp = made t e (take k rest) root last (s.now w) in
      let a =
        window_Anchored t es chained bounded named in_range n k e rest last (s.now w) root behind
          (omega arith) within settled.linkable (f.clock w) built in
      let c = anchored_commits t n (n + k) es last cp a in
      let w1 = (s.worm_put cp w).1 in
      let w2 = (s.put_checkpoint cp w1).1 in
      let w3 = (stamp_all s nts (suc m) nts t cp w2).1 in
      let none_err = on_ok-none s v f notaries nts known (suc m) anchored in
      let (put, ends1) = none_err (forgive (s.worm_put cp w).0, w1) _ done_with w' ends in
      let (copied, ends2) = none_err (s.put_checkpoint cp w1) _ done_with w' ends1 in
      let (stamped, ends3) =
        none_err (stamp_all s nts (suc m) nts t cp w2) next done_with w' ends2 in
      (
        w3,
        window-Advanced s v f notaries nts known (suc m) t es chained bounded named in_range n
            (n + k) last cp w a (made-Fits t e (take k rest) root last (s.now w)) settled w3 rows
            put copied
            (stamp_all-StampedWorld s v f notaries nts known (suc m) nts t cp w2
              (omega (arith, c.last, a.inside)) known stamped),
        ends3,
      )

  anchor_windows-Reached :
      (rounds n : ℕ) (rest more : List Entry) (last : Bytes) (w w' : s.World)
      (anchored done_with : ℕ)
      → v.rows t w ≡ es
      → drop n es ≡ rest ++ more
      → SettledAt s v f notaries nts known (suc m) t n last w
      → anchor_windows s nts (suc m) rounds t rest last anchored w ≡ done ((done_with, none), w')
      → (id : Bytes) × Reached (n + length rest) id w w'
  unfolding anchor_windows
  anchor_windows-Reached rounds n [] more last w w' anchored done_with rows behind settled ends =
      let same : w ≡ w' = ap (λ (r : Outcome s nts (suc m)). r.1) (done-injective ends) in
      (
        last,
        subst (Reached (n + 0) last w) same (record {
          settled =
              let e : n ≡ n + 0 = omega arith in
              subst (λ j. SettledAt s v f notaries nts known (suc m) t j last w) e settled;
          rows = λ u. refl;
          others = λ u h. record { held = refl; last = refl; proofs = λ j short. refl };
        }),
      )
  anchor_windows-Reached zero n (e ∷ rest) more last w w' anchored done_with rows behind settled
        ends =
      cc
  anchor_windows-Reached (suc rounds) n (e ∷ rest) more last w w' anchored done_with rows behind
        settled ends =
      let (k, taken, dropped, below, within) = cut m e rest in
      let (root, _, built) = build_total t e (take k rest) last (s.now w) in
      let front = take-append_within k rest more within in
      let cp : List Entry → Checkpoint = λ xs. made t e xs root last (s.now w) in
      let next : Checkpoint → s.World → Run (Outcome s nts (suc m)) = λ c w3.
        anchor_windows s nts (suc m) rounds t (drop (suc k) (e ∷ rest)) c.checkpoint_id
          (anchored + 1) w3 in
      let ends1 : anchor_window s nts (suc m) t (cp (take k rest)) anchored w
            (next (cp (take k rest)))
          ≡ done ((done_with, none), w') =
        rw (taken, built, dropped) at ends in
      let (w3, one, ends2) =
        anchor_window-Reached n k e (rest ++ more) last root w w' anchored done_with
          (next (cp (take k (rest ++ more)))) rows behind below
          (omega (arith, length-append rest more))
          (subst (λ xs. build t (e ∷ xs) last (s.now w) ≡ done (cp xs)) (sym front) built) settled
          (subst
            (λ xs.
              anchor_window s nts (suc m) t (cp xs) anchored w (next (cp xs))
              ≡ done ((done_with, none), w'))
            (sym front) ends1) in
      let behind' : drop (n + k + 1) es ≡ drop k rest ++ more =
        ap (λ j. drop j es) (let e : n + k + 1 ≡ n + suc k = omega arith in e)
        ∙ sym (drop-drop_add n (suc k) es)
        ∙ ap (drop (suc k)) behind
        ∙ drop-append_within k rest more within in
      let (id, others) =
        anchor_windows-Reached rounds (n + k + 1) (drop k rest) more
          (cp (take k (rest ++ more))).checkpoint_id w3 w' (anchored + 1) done_with
          (one.rows t ∙ rows) behind' one.settled ends2 in
      let total : n + k + 1 + length (drop k rest) ≡ n + suc (length rest) =
        omega (arith, length-drop k rest) in
      (
        id,
        subst (λ j. Reached j id w w') total
            (Reached-trans (n + k + 1) (n + k + 1 + length (drop k rest)) _ id w w3 w' one others),
      )

  pub start_of-mark : (n : ℕ) (id : Bytes) → n < 2 ^ 64 → start_of s nts (suc m) (mark n id) ≡ n
  start_of-mark zero id short = refl
  start_of-mark (suc end) id short = omega arith

  pub prev_of-mark :
      (n : ℕ) (id : Bytes) → (n ≡ 0 → id ≡ []) → prev_of s nts (suc m) (mark n id) ≡ id
  prev_of-mark zero id first = sym (first refl)
  prev_of-mark (suc end) id first = refl

  pub anchor_tenant-Advanced :
      (n : ℕ) (id : Bytes) (w w' : s.World) (count : ℕ)
      → v.rows t w ≡ es
      → n ≤ length es
      → SettledAt s v f notaries nts known (suc m) t n id w
      → anchor_tenant s nts (suc m) t w ≡ done ((count, none), w')
      → (read : List Entry) × (more : List Entry) × (id' : Bytes) × (drop n es ≡ read ++ more)
        × (s.entries_asc t n w ≡ ok read)
        × Advanced s v f notaries nts known
            (suc m)
            t
            es
            chained
            bounded
            named
            in_range
            (n + length read)
            id'
            w
            w'
  unfolding anchor_tenant
  anchor_tenant-Advanced n id w w' count rows within settled ends =
      elim (Result-cases (s.last_checkpoint t w)) [
        | inr (e, failed) ↦
            let none_run : ◌≡◌ {A = Run (Outcome s nts (suc m))} (done ((0, some e), w))
                (done ((count, none), w')) =
              rw (failed, anchor_tenant) at ends in
            absurd (cc)
        | inl (last, found) ↦
            let at : last ≡ mark n id = f.last_read t w last found ∙ settled.marked in
            let starts : start_of s nts (suc m) last ≡ n =
              ap (start_of s nts (suc m)) at ∙ start_of-mark n id (omega arith) in
            let follows : prev_of s nts (suc m) last ≡ id =
              ap (prev_of s nts (suc m)) at ∙ prev_of-mark n id settled.first in
            elim (Result-cases (s.entries_asc t (start_of s nts (suc m) last) w)) [
              | inr (e, failed) ↦
                  let none_run : ◌≡◌ {A = Run (Outcome s nts (suc m))} (done ((0, some e), w))
                      (done ((count, none), w')) =
                    rw (found, anchor_tenant, failed) at ends in
                  absurd (cc)
              | inl (read, listed) ↦
                  let ends' : anchor_windows s nts (suc m) (length read) t read
                        (prev_of s nts (suc m) last) 0 w
                      ≡ done ((count, none), w') =
                    rw (found, anchor_tenant, listed) at ends in
                  let listed' = subst (λ j. s.entries_asc t j w ≡ ok read) starts listed in
                  let (more, cut_at) = f.rows_read t n w read listed' in
                  let behind = ap (drop n) (sym rows) ∙ cut_at in
                  let (id', reached) =
                    anchor_windows-Reached (length read) n read more id w w' 0 count rows behind
                      settled
                      (subst
                        (λ p.
                          anchor_windows s nts (suc m) (length read) t read p 0 w
                          ≡ done ((count, none), w'))
                        follows ends') in
                  (read, more, id', behind, listed', reached)
            ]
      ]

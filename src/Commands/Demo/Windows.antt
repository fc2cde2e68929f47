-- ===== src/Commands/Demo/Windows.antt =====
-- cmd/demo/main.go: the loop over the windows of one tenant.
use multi_log.Prelude.{
  ℕ, zero, suc, ◌+◌, ◌%◌, ◌^◌, ◌≤◌, ◌<◌, ◌≡◌, refl, sym, ◌∙◌, ap, arith, false, List, [], ◌∷◌,
  Bytes, bytes_equal, ℤ, IsI64, to_u64, of_u64-IsI64, Map, drop-drop_add, cut, Bytes_eq, get, All,
  length, take, drop, length-drop, ok, done,
}
use mathlib.Core.Path.{subst}
use multi_log.Crypto.{Sha256, genesis}
use multi_log.Crypto.Framing.{Fits}
use multi_log.Chain.{Entry}
use multi_log.Chain.Sealer.Chained.{IsChained}
use multi_log.Chain.Sealer.Agree.{AllInRange}
use multi_log.Checkpoint.{Checkpoint}
use multi_log.Checkpoint.Built.{made, build_total}
use multi_log.Witness.{Proof, Notary, ProofLedger, get_proofs, add_proof, mem_put}
use multi_log.Witness.Rising.{mem_put-others}
use multi_log.Verify.Tamper.{anchored_commits}
use multi_log.Verify.Whole.Known.{IsKnown}
use multi_log.Verify.Whole.Kept.{Kept, Stamped, Kept-window}
use multi_log.Verify.Whole.Next.{
  apart, Stamped-refl, Stamped-trans, Stamped-add, made-Fits, window_Anchored,
}
use multi_log.Commands.Demo.{Progress, next_second, stamp_with, window_loop}

-- A notary that gives a proof for every id.
abbrev pub Answers : Notary → Type 0
Answers nt = (id : Bytes) → (p : Proof) × (nt.stamp id ≡ ok p)

pub next_second-IsI64 : (z : ℤ) → IsI64 (next_second z)
next_second-IsI64 z = of_u64-IsI64 ((to_u64 z + 1000000000) % 2 ^ 64) (omega arith)

module _ ⦃sha : Sha256⦄ (notaries : Map Bytes Notary) where
  stamp_with-Stamped :
      (nts : List Notary) (t : Bytes) (cp : Checkpoint) (ledger : ProofLedger)
      → cp.seq_end < 2 ^ 64
      → All Answers nts
      → All (IsKnown notaries) nts
      → (ledger' : ProofLedger) × (stamp_with nts t cp ledger ≡ done ledger')
        × Stamped notaries t cp.seq_end cp.checkpoint_id ledger ledger'
  unfolding stamp_with
  stamp_with-Stamped [] t cp ledger short answers known =
      (ledger, refl, Stamped-refl notaries t cp.seq_end cp.checkpoint_id ledger)
  stamp_with-Stamped (nt ∷ nts) t cp ledger short (answer, answers) (one, known) =
      let (p, made) = answer cp.checkpoint_id in
      let (ledger', ends, stamped) =
        stamp_with-Stamped nts t cp (add_proof t cp.seq_end p ledger) short answers known in
      (
        ledger',
        rw made ends,
        Stamped-trans notaries t cp.seq_end cp.checkpoint_id ledger
            (add_proof t cp.seq_end p ledger) ledger'
            (Stamped-add notaries t cp.seq_end cp.checkpoint_id p ledger short
              (one cp.checkpoint_id p made))
            stamped,
      )

  -- What the windows of a tenant change.
  pub record Went (t : Bytes) (es : List Entry) (p p' : Progress) : Type 0 where
    pub size : ℕ
    pub last : Bytes
    pub kept : Kept notaries t es size last p'.worm p'.ledger
    pub dated : IsI64 p'.anchored_at
    pub records :
        (u : Bytes) → bytes_equal t u ≡ false → get u p'.worm.records ≡ get u p.worm.records
    pub proofs :
        (u : Bytes) (m : ℕ)
        → bytes_equal t u ≡ false
        → m < 2 ^ 64
        → get_proofs u m p'.ledger ≡ get_proofs u m p.ledger

  module _ (nts : List Notary) (answers : All Answers nts) (known : All (IsKnown notaries) nts)
      (t : Bytes) (es : List Entry) (chained : IsChained t 0 (genesis t) es)
      (bounded : length es < 2 ^ 64) (named : Fits t) (in_range : AllInRange t es) where
    pub window_loop-Went :
        (rounds n : ℕ) (rest : List Entry) (last : Bytes) (p : Progress)
        → drop n es ≡ rest
        → length rest ≤ rounds
        → Fits last
        → IsI64 p.anchored_at
        → Kept notaries t es n last p.worm p.ledger
        → (p' : Progress) × (window_loop nts rounds t rest last p ≡ done p') × Went t es p p'
    unfolding window_loop
    window_loop-Went rounds n [] last p behind enough linked dated kept = (
      p,
      refl,
      record {
        size = n;
        last = last;
        kept = kept;
        dated = dated;
        records = λ u other. refl;
        proofs = λ u m other short. refl;
      },
    )
    window_loop-Went zero n (e ∷ rest) last p behind enough linked dated kept = absurd (omega arith)
    window_loop-Went (suc rounds) n (e ∷ rest) last p behind enough linked dated kept =
        let (k, taken, dropped, below, within) = cut 5 e rest in
        let at : ℤ = p.anchored_at in
        let (root, _, built) = build_total t e (take k rest) last at in
        let cp : Checkpoint = made t e (take k rest) root last at in
        let a =
          window_Anchored t es chained bounded named in_range n k e rest last at root behind
            (omega arith) within linked dated built in
        let c = anchored_commits t n (n + k) es last cp a in
        let (ledger', stamps, stamped) =
          stamp_with-Stamped nts t cp p.ledger (omega (arith, c.last, a.inside)) answers known in
        let stamped' =
          subst (λ m. Stamped notaries t m cp.checkpoint_id p.ledger ledger') c.last stamped in
        let (stored, kept') =
          Kept-window notaries t es n (n + k) last cp p.worm p.ledger ledger' kept a stamped' in
        let next : Progress = record {
          worm = (mem_put cp p.worm).1;
          ledger = ledger';
          anchored_at = next_second at;
        } in
        let behind' : drop (n + k + 1) es ≡ drop (suc k) (e ∷ rest) =
          ap (λ m. drop m es) (let e : n + k + 1 ≡ n + suc k = omega arith in e)
          ∙ sym (drop-drop_add n (suc k) es)
          ∙ ap (drop (suc k)) behind in
        let (p', ends, went) =
          window_loop-Went rounds (n + k + 1) (drop (suc k) (e ∷ rest)) cp.checkpoint_id next
            behind' (omega (arith, length-drop k rest)) (made-Fits t e (take k rest) root last at)
            (next_second-IsI64 at) kept' in
        (
          p',
          rw (taken, built, stored, stamps, dropped) ends,
          record {
            size = went.size;
            last = went.last;
            kept = went.kept;
            dated = went.dated;
            records = λ u other. went.records u other ∙ mem_put-others cp p.worm u other;
            proofs = λ u m other short.
                went.proofs u m other short
                ∙ stamped'.1 u m short (λ (same, _). absurd (apart t u other same));
          },
        )

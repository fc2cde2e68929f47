-- ===== src/Anchor/Stamps.antt =====
-- internal/anchor/anchor.go: what has happened where a call gave no error.
use multi_log.Prelude.{
  ℕ, ◌^◌, ◌<◌, ◌≡◌, ◌⊎◌, refl, ◌∙◌, inl, inr, List, [], ◌∷◌, none, Bytes, Map, Bytes_eq, All,
  immutable, Result, ok, err, Run, done, Result-cases,
}
use multi_log.Crypto.{Sha256}
use multi_log.Checkpoint.{Checkpoint}
use multi_log.Witness.{Notary}
use multi_log.Verify.Evident.{Attests}
use multi_log.Verify.Whole.Known.{IsKnown}
use multi_log.Verify.Whole.Kept.{Stamped}
use multi_log.Verify.Whole.Next.{Stamped-refl, Stamped-trans}
use multi_log.Anchor.{Services, Outcome, on_ok, forgive, stamp_all}
use multi_log.Anchor.Views.{Views, IsFaithful}

pub forgive-ok : (r : Result (Unit {0})) → forgive r ≡ ok tt → (r ≡ ok tt) ⊎ (r ≡ err immutable)
forgive-ok (ok _) h = inl refl
forgive-ok (err immutable) h = inr refl
forgive-ok (err e) h = cc

module _ ⦃sha : Sha256⦄ (s : Services) (v : Views s) (f : IsFaithful s v)
    (notaries : Map Bytes Notary) (nts : List Notary) (known : All (IsKnown notaries) nts)
    (max : ℕ) where
  -- An error ends the run, so that a run without one has passed each call.
  pub on_ok-none :
      (n : ℕ) (reply : Result (Unit {0}) × s.World) (next : s.World → Run (Outcome s nts max))
      (k : ℕ) (w' : s.World)
      → on_ok s nts max n reply next ≡ done ((k, none), w')
      → (reply.0 ≡ ok tt) × (next reply.1 ≡ done ((k, none), w'))
  on_ok-none n (err e, w) next k w' h = cc
  on_ok-none n (ok _, w) next k w' h = (refl, h)

  -- What stamping leaves.
  pub record StampedWorld (t : Bytes) (end : ℕ) (id : Bytes) (w w' : s.World) : Type 0 where
    pub rows : (u : Bytes) → v.rows u w' ≡ v.rows u w
    pub held : (u : Bytes) → v.held u w' ≡ v.held u w
    pub last : (u : Bytes) → v.last u w' ≡ v.last u w
    pub proofs : Stamped notaries t end id (v.ledger w) (v.ledger w')

  pub stamp_all-StampedWorld :
      (ns : List Notary) (t : Bytes) (cp : Checkpoint) (w : s.World)
      → cp.seq_end < 2 ^ 64
      → All (IsKnown notaries) ns
      → (stamp_all s nts max ns t cp w).0 ≡ ok tt
      → StampedWorld t cp.seq_end cp.checkpoint_id w (stamp_all s nts max ns t cp w).1
  unfolding stamp_all
  stamp_all-StampedWorld [] t cp w fits known h = record {
    rows = λ u. refl;
    held = λ u. refl;
    last = λ u. refl;
    proofs = Stamped-refl notaries t cp.seq_end cp.checkpoint_id (v.ledger w);
  }
  stamp_all-StampedWorld (n ∷ ns) t cp w fits (one, more) h =
      elim (Result-cases (n.stamp cp.checkpoint_id)) [
        | inr (e, failed) ↦
            let h' : ◌≡◌ {A = Result (Unit {0})} (err e) (ok tt) = rw (failed, stamp_all) at h in
            absurd (cc)
        | inl (p, given) ↦
            let w1 = (s.put_proof t cp.seq_end p w).1 in
            elim (Result-cases (s.put_proof t cp.seq_end p w).0) [
              | inr (e, failed) ↦
                  let h' : ◌≡◌ {A = Result (Unit {0})} (err e) (ok tt) =
                    rw (given, stamp_all, failed) at h in
                  absurd (cc)
              | inl (_, written) ↦
                  let h' = rw (given, stamp_all, written) at h in
                  let rest = stamp_all-StampedWorld ns t cp w1 fits more h' in
                  rw (given, stamp_all, written)
                    (record {
                      rows = λ u. rest.rows u ∙ f.proof_rows t cp.seq_end p w u;
                      held = λ u. rest.held u ∙ f.proof_held t cp.seq_end p w u;
                      last = λ u. rest.last u ∙ f.proof_last t cp.seq_end p w u;
                      proofs =
                          Stamped-trans notaries t cp.seq_end cp.checkpoint_id (v.ledger w)
                            (v.ledger w1) _
                            (
                              λ before.
                                  f.proof_own t cp.seq_end p w (Attests notaries cp.checkpoint_id)
                                    fits before (one cp.checkpoint_id p given),
                              λ u m short differs.
                                  f.proof_others t cp.seq_end p w u m fits short differs,
                            )
                            rest.proofs;
                    })
            ]
      ]

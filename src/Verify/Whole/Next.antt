-- ===== src/Verify/Whole/Next.antt =====
-- The next window of a tenant's entries, and the stamping of its checkpoint.
use multi_log.Prelude.{
  All, All-append, ℕ, suc, ◌+◌, ◌^◌, ◌≤◌, ◌<◌, ◌≡◌, refl, sym, ◌∙◌, ap, arith, true, false, ◌≢◌,
  List, [], ◌∷◌, Bytes, bytes_equal, bytes_equal_refl, ℤ, IsI64, Map, drop-take_add, Bytes_eq,
  length, take, drop, length-drop, done,
}
use mathlib.Core.Path.{subst}
use multi_log.Crypto.{Sha256, genesis, checkpoint_id, length-hash}
use multi_log.Crypto.Framing.{Fits}
use multi_log.Chain.{Entry, max_pointers}
use multi_log.Chain.Sealer.Chained.{IsChained}
use multi_log.Chain.Sealer.Agree.{AllInRange}
use multi_log.Checkpoint.{build}
use multi_log.Checkpoint.Built.{made}
use multi_log.Checkpoint.Window.{window}
use multi_log.Witness.{Proof, Notary, ProofLedger, get_proofs, add_proof}
use multi_log.Witness.Ledger.{get_proofs-add_proof}
use multi_log.Verify.Evident.{Attests}
use multi_log.Verify.Tamper.{Anchored}
use multi_log.Verify.Whole.Kept.{Stamped}

pub apart : (t u : Bytes) → bytes_equal t u ≡ false → t ≢ u
apart t u other same =
    let equal : bytes_equal t u ≡ true =
      subst (λ v. bytes_equal t v ≡ true) same (bytes_equal_refl t) in
    cc

module _ ⦃sha : Sha256⦄ (notaries : Map Bytes Notary) where
  pub Stamped-refl :
      (t : Bytes) (end : ℕ) (id : Bytes) (ledger : ProofLedger)
      → Stamped notaries t end id ledger ledger
  Stamped-refl t end id ledger = (λ h. h, λ u m below apart. refl)

  pub Stamped-trans :
      (t : Bytes) (end : ℕ) (id : Bytes) (l0 l1 l2 : ProofLedger)
      → Stamped notaries t end id l0 l1
      → Stamped notaries t end id l1 l2
      → Stamped notaries t end id l0 l2
  Stamped-trans t end id l0 l1 l2 (own, others) (own', others') =
      (λ h. own' (own h), λ u m below apart. others' u m below apart ∙ others u m below apart)

  pub Stamped-add :
      (t : Bytes) (end : ℕ) (id : Bytes) (p : Proof) (ledger : ProofLedger)
      → end < 2 ^ 64
      → Attests notaries id p
      → Stamped notaries t end id ledger (add_proof t end p ledger)
  Stamped-add t end id p ledger short attested = (
    λ h.
        subst (All (Attests notaries id))
          (sym (get_proofs-add_proof t t end end p ledger short short).0)
          (All-append (Attests notaries id) (get_proofs t end ledger) (p ∷ []) h (attested, tt)),
    λ u m below apart. (get_proofs-add_proof t u end m p ledger short below).1 apart,
  )

module _ ⦃sha : Sha256⦄ where
  pub made-Fits :
      (t : Bytes) (e : Entry) (es : List Entry) (root prev : Bytes) (at : ℤ)
      → Fits (made t e es root prev at).checkpoint_id
  unfolding checkpoint_id
  made-Fits t e es root prev at = omega (arith, length-hash _)

module _ ⦃sha : Sha256⦄ (t : Bytes) (es : List Entry) (chained : IsChained t 0 (genesis t) es)
    (bounded : length es < 2 ^ 64) (named : Fits t) (in_range : AllInRange t es) where
  -- The checkpoint over the entries `n` to `n + k`.
  pub window_Anchored :
      (n k : ℕ) (e : Entry) (rest : List Entry) (last : Bytes) (at : ℤ) (root : Bytes)
      → drop n es ≡ e ∷ rest
      → k < max_pointers
      → k ≤ length rest
      → Fits last
      → IsI64 at
      → build t (e ∷ take k rest) last at ≡ done (made t e (take k rest) root last at)
      → Anchored t n (n + k) es last (made t e (take k rest) root last at)
  window_Anchored n k e rest last at root behind small within linked dated built =
      let cut_out : window n (n + k) es ≡ e ∷ take k rest =
        ap (λ m. drop n (take m es)) (let e : suc (n + k) ≡ n + suc k = omega arith in e)
        ∙ drop-take_add n (suc k) es
        ∙ ap (take (suc k)) behind in
      let left : length es ≡ n + suc (length rest) =
        omega (arith, length-drop n es, ap (length {A = Entry}) behind) in
      record {
        chain = chained;
        bounded = bounded;
        ordered = omega arith;
        inside = omega arith;
        small = omega arith;
        built = ap (λ xs. build t xs last at) cut_out ∙ built;
        named = named;
        linked = linked;
        dated = dated;
        in_range = in_range;
      }

-- ===== src/Anchor/Settled.antt =====
-- Where WORM store, working copy and proofs agree, a run of the anchorer leaves them agreeing.
use multi_log.Prelude.{
  ℕ, zero, suc, ◌+◌, ◌^◌, ◌≤◌, ◌<◌, ◌≡◌, sym, ◌∙◌, ap, arith, inl, inr, false, List, [], ◌∷◌, ◌++◌,
  Option, none, some, Bytes, bytes_equal, Map, Bytes_eq, All, length, ok,
}
use mathlib.Core.Path.{subst}
use multi_log.Crypto.{Sha256, genesis}
use multi_log.Crypto.Framing.{Fits}
use multi_log.Chain.{Entry}
use multi_log.Chain.Sealer.Chained.{IsChained}
use multi_log.Chain.Sealer.Agree.{AllInRange}
use multi_log.Checkpoint.{Checkpoint}
use multi_log.Witness.{Notary, get_proofs}
use multi_log.Witness.Rising.{IsRising, IsRising-le}
use multi_log.Checkpoint.Window.{CommitsTo}
use multi_log.Verify.Tamper.{Anchored, anchored_commits}
use multi_log.Verify.Whole.Known.{IsKnown}
use multi_log.Verify.Whole.Kept.{Windows, Stamped, Windows-next}
use multi_log.Verify.Whole.Next.{apart}
use multi_log.Anchor.{Services, forgive}
use multi_log.Anchor.Stamps.{forgive-ok, StampedWorld}
use multi_log.Anchor.Views.{Views, IsFaithful, IsBeyond}

-- What the working copy has for the checkpoints over the first `n` entries.
abbrev pub mark : ℕ → Bytes → Option (ℕ × Bytes)
mark zero id = none
mark (suc end) id = some (end, id)

IsRising-IsBeyond :
    (lo : ℕ) (cps : List Checkpoint) (n : ℕ) (cp : Checkpoint)
    → IsRising lo cps n
    → n ≤ cp.seq_end
    → IsBeyond cps cp
IsRising-IsBeyond lo [] n cp h above = tt
IsRising-IsBeyond lo (x ∷ cps) n cp (h, hs) above = (
  omega (arith, IsRising-le (x.seq_end + 1) cps n hs),
  IsRising-IsBeyond (x.seq_end + 1) cps n cp hs above,
)

module _ ⦃sha : Sha256⦄ (s : Services) (v : Views s) (f : IsFaithful s v)
    (notaries : Map Bytes Notary) (nts : List Notary) (known : All (IsKnown notaries) nts)
    (max : ℕ) where
  -- What is not changed for a tenant.
  pub record Same (u : Bytes) (w w' : s.World) : Type 0 where
    pub held : v.held u w' ≡ v.held u w
    pub last : v.last u w' ≡ v.last u w
    pub proofs : (m : ℕ) → m < 2 ^ 64 → get_proofs u m (v.ledger w') ≡ get_proofs u m (v.ledger w)

  pub Same-trans : (u : Bytes) (w w' w'' : s.World) → Same u w w' → Same u w' w'' → Same u w w''
  Same-trans u w w' w'' a b = record {
    held = b.held ∙ a.held;
    last = b.last ∙ a.last;
    proofs = λ m short. b.proofs m short ∙ a.proofs m short;
  }

  -- The WORM store, the working copy and the proofs agree on checkpoints over the first `n` entries.
  pub record SettledAt (t : Bytes) (n : ℕ) (id : Bytes) (w : s.World) : Type 0 where
    pub windows : Windows notaries t (v.rows t w) n id (v.held t w) (v.ledger w)
    pub marked : v.last t w ≡ mark n id
    pub first : n ≡ 0 → id ≡ []
    pub linkable : Fits id

  module _ (t : Bytes) (es : List Entry) (chained : IsChained t 0 (genesis t) es)
      (bounded : length es < 2 ^ 64) (named : Fits t) (in_range : AllInRange t es) where
    -- The tenant's first `n` entries are anchored, and the other tenants are as they were.
    pub record Advanced (n : ℕ) (id : Bytes) (w w' : s.World) : Type 0 where
      pub settled : SettledAt t n id w'
      pub rows : (u : Bytes) → v.rows u w' ≡ v.rows u w
      pub others : (u : Bytes) → bytes_equal t u ≡ false → Same u w w'

    module _ (n end : ℕ) (last : Bytes) (cp : Checkpoint) (w : s.World)
        (anchored : Anchored t n end es last cp) (linkable : Fits cp.checkpoint_id)
        (settled : SettledAt t n last w) where
      abbrev pub put_world : s.World
      put_world = (s.worm_put cp w).1

      abbrev pub copy_world : s.World
      copy_world = (s.put_checkpoint cp put_world).1

      commits : CommitsTo t n end es last cp.anchored_at cp
      commits = anchored_commits t n end es last cp anchored

      beyond : IsBeyond (v.held cp.tenant_id w) cp
      beyond =
          subst (λ u. IsBeyond (v.held u w) cp) (sym commits.tenant)
            (IsRising-IsBeyond 0 (v.held t w) n cp settled.windows.rising
              (omega (arith, anchored.ordered, commits.last)))

      put_held : forgive (s.worm_put cp w).0 ≡ ok tt → v.held t put_world ≡ v.held t w ++ cp ∷ []
      put_held put = elim (forgive-ok (s.worm_put cp w).0 put) [
        | inl stored ↦
            subst (λ u. v.held u put_world ≡ v.held u w ++ cp ∷ []) commits.tenant
              (f.worm_stored cp w stored beyond)
        | inr refused ↦ absurd (f.worm_refused cp w beyond refused)
      ]

      mark_below :
          (m : ℕ) (id : Bytes) (end' : ℕ) (id' : Bytes)
          → mark m id ≡ some (end', id')
          → m ≤ cp.seq_end
          → end' < cp.seq_end
      mark_below zero id end' id' h above = cc
      mark_below (suc e) id end' id' h above = let same : e ≡ end' = cc in omega arith

      copy_last :
          (s.put_checkpoint cp put_world).0 ≡ ok tt
          → v.last t copy_world ≡ some (cp.seq_end, cp.checkpoint_id)
      copy_last copied =
          subst (λ u. v.last u copy_world ≡ some (cp.seq_end, cp.checkpoint_id)) commits.tenant
            (f.copy_stored cp put_world copied (λ end' id' found.
              mark_below n last end' id'
                (sym settled.marked
                  ∙ subst (λ u. v.last u w ≡ some (end', id')) commits.tenant
                      (sym (f.worm_last cp w cp.tenant_id) ∙ found))
                (omega (arith, anchored.ordered, commits.last))))

      -- One window goes through.
      pub window-Advanced :
          (w3 : s.World)
          → v.rows t w ≡ es
          → forgive (s.worm_put cp w).0 ≡ ok tt
          → (s.put_checkpoint cp put_world).0 ≡ ok tt
          → StampedWorld s v f notaries nts known max t cp.seq_end cp.checkpoint_id copy_world w3
          → Advanced (end + 1) cp.checkpoint_id w w3
      window-Advanced w3 rows put copied stamps =
          let ledgers : v.ledger copy_world ≡ v.ledger w =
            f.copy_ledger cp put_world ∙ f.worm_ledger cp w in
          let all_rows : (u : Bytes) → v.rows u w3 ≡ v.rows u w =
            λ u. stamps.rows u ∙ f.copy_rows cp put_world u ∙ f.worm_rows cp w u in
          let proofs : Stamped notaries t end cp.checkpoint_id (v.ledger w) (v.ledger w3) =
            subst (λ m. Stamped notaries t m cp.checkpoint_id (v.ledger w) (v.ledger w3))
              commits.last
              (subst (λ l. Stamped notaries t cp.seq_end cp.checkpoint_id l (v.ledger w3)) ledgers
                stamps.proofs) in
          let windows : Windows notaries t es (end + 1) cp.checkpoint_id (v.held t w ++ cp ∷ [])
              (v.ledger w3) =
            Windows-next notaries t es n end last (v.held t w) cp (v.ledger w) (v.ledger w3)
              (subst (λ xs. Windows notaries t xs n last (v.held t w) (v.ledger w)) rows
                settled.windows)
              anchored proofs in
          let held : v.held t w3 ≡ v.held t w ++ cp ∷ [] =
            stamps.held t ∙ f.copy_held cp put_world t ∙ put_held put in
          let other_tenant : (u : Bytes)
              → bytes_equal t u ≡ false
              → bytes_equal cp.tenant_id u ≡ false =
            λ u h. subst (λ x. bytes_equal x u ≡ false) (sym commits.tenant) h in
          record {
            settled = record {
              windows =
                  subst
                    (λ xs.
                      Windows notaries t xs (end + 1) cp.checkpoint_id (v.held t w3) (v.ledger w3))
                    (sym (all_rows t ∙ rows))
                    (subst
                      (λ cps. Windows notaries t es (end + 1) cp.checkpoint_id cps (v.ledger w3))
                      (sym held) windows);
              marked =
                  stamps.last t
                  ∙ copy_last copied
                  ∙ ap (λ m. some (m, cp.checkpoint_id)) commits.last
                  ∙ ap (λ m. mark m cp.checkpoint_id)
                      (let e : suc end ≡ end + 1 = omega arith in e);
              first = λ zero_size. absurd (omega arith);
              linkable = linkable;
            };
            rows = all_rows;
            others = λ u h. record {
              held =
                  stamps.held u
                  ∙ f.copy_held cp put_world u
                  ∙ f.worm_others cp w u (other_tenant u h);
              last =
                  stamps.last u
                  ∙ f.copy_others cp put_world u (other_tenant u h)
                  ∙ f.worm_last cp w u;
              proofs = λ m short. proofs.1 u m short (λ (same, _). absurd (apart t u h same));
            };
          }

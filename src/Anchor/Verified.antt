-- ===== src/Anchor/Verified.antt =====
-- internal/anchor/anchor.go and internal/verify/verify.go: after the anchorer, the verifier.
use multi_log.Prelude.{
  ℕ, suc, ◌+◌, ◌^◌, ◌≤◌, ◌<◌, ◌≡◌, refl, sym, ◌∙◌, ap, arith, Bool-cases, inl, inr, true, List, [],
  ◌∷◌, none, some, Bytes, bytes_equal, bytes_equal→eq, All, length, length-append, length-drop, ok,
  Run, done, >>=-eq-done, done-injective,
}
use mathlib.Core.Path.{subst}
use multi_log.Crypto.{Sha256, genesis}
use multi_log.Crypto.Framing.{Fits}
use multi_log.Chain.{Entry, Store, tenants, max_pointers}
use multi_log.Chain.Sorted.{held}
use multi_log.Chain.Sealer.Chained.{IsChained}
use multi_log.Chain.Sealer.Agree.{AllInRange}
use multi_log.Witness.{Notary, CheckpointStore}
use multi_log.Verify.{Report, report_ok, verify, by_name}
use multi_log.Verify.Whole.Known.{IsKnown}
use multi_log.Verify.Whole.Kept.{Windows, Windows-same}
use multi_log.Verify.Whole.Intact.{Intact, AllAnchored, verify_complete}
use multi_log.Anchor.{Services, Outcome, anchor_tenant, anchor_each, anchor_all}
use multi_log.Anchor.Views.{Views, IsFaithful}
use multi_log.Anchor.Settled.{Same, SettledAt}
use multi_log.Anchor.Complete.{anchor_tenant-Advanced}

module _ ⦃sha : Sha256⦄ (s : Services) (v : Views s) (f : IsFaithful s v) (nts : List Notary)
    (known : All (IsKnown (by_name nts [])) nts) (m : ℕ) (small : m < max_pointers) where
  -- A tenant's rows are an unbroken chain in the range of the Go types.
  pub record IsSound (w : s.World) (u : Bytes) : Type 0 where
    pub chained : IsChained u 0 (genesis u) (v.rows u w)
    pub bounded : length (v.rows u w) < 2 ^ 64
    pub named : Fits u
    pub in_range : AllInRange u (v.rows u w)

  -- The WORM store, the working copy and the proofs agree on a tenant.
  pub record IsSettled (w : s.World) (u : Bytes) : Type 0 where
    pub size : ℕ
    pub id : Bytes
    pub within : size ≤ length (v.rows u w)
    pub at : SettledAt s v f (by_name nts []) nts known (suc m) u size id w

  IsSound-rows :
      (u : Bytes) (w w' : s.World) → v.rows u w' ≡ v.rows u w → IsSound w u → IsSound w' u
  IsSound-rows u w w' same h = record {
    chained = subst (IsChained u 0 (genesis u)) (sym same) h.chained;
    bounded = subst (λ es. length es < 2 ^ 64) (sym same) h.bounded;
    named = h.named;
    in_range = subst (AllInRange u) (sym same) h.in_range;
  }

  IsSettled-Same :
      (u : Bytes) (w w' : s.World)
      → v.rows u w' ≡ v.rows u w
      → Same s v f (by_name nts []) nts known (suc m) u w w'
      → IsSettled w u
      → IsSettled w' u
  IsSettled-Same u w w' rows same h = record {
    size = h.size;
    id = h.id;
    within = subst (λ es. h.size ≤ length es) (sym rows) h.within;
    at = record {
      windows =
          subst (λ cps. Windows (by_name nts []) u (v.rows u w') h.size h.id cps (v.ledger w'))
            (sym same.held)
            (subst (λ es. Windows (by_name nts []) u es h.size h.id (v.held u w) (v.ledger w'))
              (sym rows)
              (Windows-same (by_name nts []) u (v.rows u w) h.size h.id (v.held u w) (v.ledger w)
                (v.ledger w') same.proofs h.at.windows));
      marked = same.last ∙ h.at.marked;
      first = h.at.first;
      linkable = h.at.linkable;
    };
  }

  -- One tenant's turn leaves every tenant settled, and the rows as they were.
  anchor_tenant-IsSettled :
      (t : Bytes) (w w' : s.World) (count : ℕ)
      → IsSound w t
      → IsSettled w t
      → anchor_tenant s nts (suc m) t w ≡ done ((count, none), w')
      → ((u : Bytes) → v.rows u w' ≡ v.rows u w) × ((u : Bytes) → IsSettled w u → IsSettled w' u)
  anchor_tenant-IsSettled t w w' count sound settled ends =
      let (read, more, id, cut_at, listed, a) =
        anchor_tenant-Advanced s v f (by_name nts []) nts known m small t (v.rows t w) sound.chained
          sound.bounded sound.named sound.in_range settled.size settled.id w w' count refl
          settled.within settled.at ends in
      let rows : (u : Bytes) → v.rows u w' ≡ v.rows u w = a.rows in
      let total : settled.size + length read ≤ length (v.rows t w) = omega (
        arith,
        length-append read more,
        length-drop settled.size (v.rows t w),
        ap (length {A = Entry}) cut_at,
        settled.within,
      ) in
      let own : IsSettled w' t = record {
        size = settled.size + length read;
        id = id;
        within = subst (λ es. settled.size + length read ≤ length es) (sym (rows t)) total;
        at = a.settled;
      } in
      (
        rows,
        λ u h. elim (Bool-cases (bytes_equal t u)) [
          | inl same ↦ subst (IsSettled w') (bytes_equal→eq t u same) own
          | inr other ↦ IsSettled-Same u w w' (rows u) (a.others u other) h
        ],
      )

  map-All :
      (P Q : Bytes → Type 0) (ts : List Bytes) → ((u : Bytes) → P u → Q u) → All P ts → All Q ts
  map-All P Q [] h hs = tt
  map-All P Q (t ∷ ts) h (one, more) = (h t one, map-All P Q ts h more)

  -- A run over the tenants goes on only behind a tenant without an error.
  goes_on :
      (ts : List Bytes) (total count : ℕ) (w' : s.World) (out : Outcome s nts (suc m))
      → ◌≡◌ {A = Run (Outcome s nts (suc m))}
          (elim out.0.1 [
            | some e ↦ done ((total + out.0.0, some e), out.1)
            | none ↦ anchor_each s nts (suc m) ts (total + out.0.0) out.1
          ])
          (done ((count, none), w'))
      → (out ≡ ((out.0.0, none), out.1))
        × (anchor_each s nts (suc m) ts (total + out.0.0) out.1 ≡ done ((count, none), w'))
  goes_on ts total count w' ((n, some e), w1) h = absurd (cc)
  goes_on ts total count w' ((n, none), w1) h = (refl, h)

  anchor_each-IsSettled :
      (ts : List Bytes) (total count : ℕ) (w w' : s.World)
      → All (IsSound w) ts
      → All (IsSettled w) ts
      → anchor_each s nts (suc m) ts total w ≡ done ((count, none), w')
      → ((u : Bytes) → v.rows u w' ≡ v.rows u w) × ((u : Bytes) → IsSettled w u → IsSettled w' u)
  unfolding anchor_each
  anchor_each-IsSettled [] total count w w' sound settled ends =
      let same : w ≡ w' = ap (λ (r : Outcome s nts (suc m)). r.1) (done-injective ends) in
      (λ u. ap (v.rows u) (sym same), λ u h. subst (λ x. IsSettled x u) same h)
  anchor_each-IsSettled (t ∷ ts) total count w w' (sound, sounds) (settled, more) ends =
      let (out, ran, after) = >>=-eq-done (anchor_tenant s nts (suc m) t w) _ ends in
      let (fine, rest) = goes_on ts total count w' out after in
      let (rows, keeps) =
        anchor_tenant-IsSettled t w out.1 out.0.0 sound settled (ran ∙ ap (λ o. done o) fine) in
      let (rows', keeps') =
        anchor_each-IsSettled ts (total + out.0.0) count out.1 w'
          (map-All (IsSound w) (IsSound out.1) ts (λ u h. IsSound-rows u w out.1 (rows u) h) sounds)
          (map-All (IsSettled w) (IsSettled out.1) ts keeps more) rest in
      (λ u. rows' u ∙ rows u, λ u h. keeps' u (keeps u h))

  -- What the verifier reads of a tenant: its rows, and its checkpoints from the WORM store.
  abbrev pub Reads : Store → (worm : CheckpointStore) → worm.State → s.World → Bytes → Type 0
  Reads store worm state w u =
      (held u store ≡ v.rows u w) × (worm.all_checkpoints u state ≡ ok (v.held u w))

  IsSettled-Intact :
      (store : Store) (worm : CheckpointStore) (state : worm.State) (w : s.World) (u : Bytes)
      → IsSound w u
      → IsSettled w u
      → Reads store worm state w u
      → Intact (v.ledger w) (by_name nts []) (λ x. worm.all_checkpoints x state) store u
  IsSettled-Intact store worm state w u sound settled (rows, cps) = (
    subst (IsChained u 0 (genesis u)) (sym rows) sound.chained,
    subst (λ es. length es < 2 ^ 64) (sym rows) sound.bounded,
    (
      v.held u w,
      cps,
      subst (λ es. AllAnchored (v.ledger w) (by_name nts []) u es [] (v.held u w)) (sym rows)
          settled.at.windows.anchored,
    ),
  )

  All-Intact :
      (store : Store) (worm : CheckpointStore) (state : worm.State) (w : s.World) (ts : List Bytes)
      → All (IsSound w) ts
      → All (IsSettled w) ts
      → All (Reads store worm state w) ts
      → All (Intact (v.ledger w) (by_name nts []) (λ x. worm.all_checkpoints x state) store) ts
  All-Intact store worm state w [] sound settled reads = tt
  All-Intact store worm state w (t ∷ ts) (a, sound) (b, settled) (c, reads) = (
    IsSettled-Intact store worm state w t a b c,
    All-Intact store worm state w ts sound settled reads,
  )

  -- The tenants' rows are unbroken chains, and the WORM store, the working copy and the proofs agree.
  -- If `AnchorAll` then gives no error, a run of the verifier over those rows, checkpoints and proofs
  -- ends with an OK report: anchoring raises no false alarm. What the services read and change is as
  -- `IsFaithful` says, every proof of a notary is attested, windows have at most 2 ^ 45 entries, and
  -- lengths and values are in the range of their Go types.
  pub anchor_all-verify :
      (ts : List Bytes) (w w' : s.World) (count : ℕ)
      → s.tenants w ≡ ok ts
      → All (IsSound w) ts
      → All (IsSettled w) ts
      → anchor_all s nts (suc m) w ≡ done ((count, none), w')
      → (store : Store) (worm : CheckpointStore) (state : worm.State) → tenants store ≡ ts
      → All (Reads store worm state w') ts
      → (r : Report) × (store' : Store) × (verify store worm state (v.ledger w') nts
          ≡ done (r, store'))
        × (report_ok r ≡ true)
  unfolding anchor_all
  anchor_all-verify ts w w' count listed sound settled ends store worm state named reads =
      let ran : anchor_each s nts (suc m) ts 0 w ≡ done ((count, none), w') =
        rw (listed, anchor_all) at ends in
      let (rows, keeps) = anchor_each-IsSettled ts 0 count w w' sound settled ran in
      verify_complete store worm state (v.ledger w') nts (
        subst (All _) (sym named) (
          All-Intact store worm state w' ts
            (map-All (IsSound w) (IsSound w') ts (λ u h. IsSound-rows u w w' (rows u) h) sound)
            (map-All (IsSettled w) (IsSettled w') ts keeps settled) reads))

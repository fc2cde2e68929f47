-- ===== src/Witness/Rising.antt =====
-- internal/witness/witness.go, MemStore: checkpoints that are put in the order of their ends.
use multi_log.Prelude.{
  ℕ, ◌+◌, ◌≤◌, ◌<◌, ◌≡◌, refl, sym, ◌∙◌, ap, arith, List, [], ◌∷◌, ◌++◌, none, false, Option-cases,
  inl, inr, le→leb, Bytes, bytes_equal, Map, Eq, ℕ_eq, Bytes_eq, get, put, get-put_self, get-put_ne,
  or_nil, ok,
}
use multi_log.Checkpoint.{Checkpoint}
use multi_log.Witness.{MemStore, mem_put, mem_all, insert_by_end, sorted_values}

-- The inner map of a tenant whose checkpoints were put in this order.
abbrev pub keyed : List Checkpoint → Map ℕ Checkpoint
keyed [] = []
keyed (cp ∷ cps) = (cp.seq_end, cp) ∷ keyed cps

-- The ends rise from `lo` at least, and are below `n`.
abbrev pub IsRising : ℕ → List Checkpoint → ℕ → Type 0
IsRising lo [] n = lo ≤ n
IsRising lo (cp ∷ cps) n = (lo ≤ cp.seq_end) × IsRising (cp.seq_end + 1) cps n

keyed-snoc :
    (cps : List Checkpoint) (cp : Checkpoint)
    → keyed (cps ++ cp ∷ []) ≡ keyed cps ++ (cp.seq_end, cp) ∷ []
keyed-snoc [] cp = refl
keyed-snoc (x ∷ cps) cp = ap (λ m. (x.seq_end, x) ∷ m) (keyed-snoc cps cp)

pub IsRising-le : (lo : ℕ) (cps : List Checkpoint) (n : ℕ) → IsRising lo cps n → lo ≤ n
IsRising-le lo [] n h = h
IsRising-le lo (cp ∷ cps) n (h, hs) = omega (arith, IsRising-le (cp.seq_end + 1) cps n hs)

pub IsRising-snoc :
    (lo : ℕ) (cps : List Checkpoint) (cp : Checkpoint) (n m : ℕ)
    → IsRising lo cps n
    → n ≤ cp.seq_end
    → cp.seq_end < m
    → IsRising lo (cps ++ cp ∷ []) m
IsRising-snoc lo [] cp n m h above below = (omega arith, omega arith)
IsRising-snoc lo (x ∷ cps) cp n m (h, hs) above below =
    (h, IsRising-snoc (x.seq_end + 1) cps cp n m hs above below)

sorted_values-keyed :
    (lo : ℕ) (cps : List Checkpoint) (n : ℕ) → IsRising lo cps n → sorted_values (keyed cps) ≡ cps
unfolding sorted_values insert_by_end
sorted_values-keyed lo [] n h = refl
sorted_values-keyed lo (cp ∷ []) n h = refl
sorted_values-keyed lo (cp ∷ x ∷ cps) n (h, hs) =
    ap (insert_by_end cp) (sorted_values-keyed (cp.seq_end + 1) (x ∷ cps) n hs)
    ∙ rw (le→leb cp.seq_end x.seq_end (omega arith), insert_by_end) refl

get-keyed :
    (lo : ℕ) (cps : List Checkpoint) (n k : ℕ)
    → IsRising lo cps n
    → n ≤ k
    → get k (keyed cps) ≡ none
unfolding get
get-keyed lo [] n k h above = refl
get-keyed lo (cp ∷ cps) n k (h, hs) above =
    ground
      (arith, get-keyed (cp.seq_end + 1) cps n k hs above, IsRising-le (cp.seq_end + 1) cps n hs)

put-absent {ℓ κ} :
    {K : Type ℓ} {V : Type κ} ⦃eq : Eq K⦄ (k : K) (v : V) (m : Map K V)
    → get k m ≡ none
    → put k v m ≡ m ++ (k, v) ∷ []
unfolding get put
put-absent k v [] h = refl
put-absent ⦃eq⦄ k v ((j, w) ∷ m) h = ground (arith, put-absent k v m)

-- What `All` gives of checkpoints that were put in the order of their ends.
pub mem_all-keyed :
    (t : Bytes) (worm : MemStore) (cps : List Checkpoint) (n : ℕ)
    → or_nil (get t worm.records) ≡ keyed cps
    → IsRising 0 cps n
    → mem_all t worm ≡ ok cps
unfolding mem_all
mem_all-keyed t worm cps n stored rising =
    ap ok (ap sorted_values stored ∙ sorted_values-keyed 0 cps n rising)

-- The next checkpoint of a tenant is stored behind the others.
pub mem_put-next :
    (cp : Checkpoint) (worm : MemStore) (cps : List Checkpoint) (n : ℕ)
    → or_nil (get cp.tenant_id worm.records) ≡ keyed cps
    → IsRising 0 cps n
    → n ≤ cp.seq_end
    → ((mem_put cp worm).0 ≡ ok tt)
      × (or_nil (get cp.tenant_id (mem_put cp worm).1.records) ≡ keyed (cps ++ cp ∷ []))
unfolding mem_put
mem_put-next cp worm cps n stored rising above =
    let free = get-keyed 0 cps n cp.seq_end rising above in
    let free' = ap (get cp.seq_end) stored ∙ free in
    rw (free', mem_put)
      (
        refl,
        ap or_nil (
              get-put_self cp.tenant_id (put cp.seq_end cp (or_nil (get cp.tenant_id worm.records)))
                worm.records)
            ∙ ap (put cp.seq_end cp) stored
            ∙ put-absent cp.seq_end cp (keyed cps) free
            ∙ sym (keyed-snoc cps cp),
      )

-- The checkpoints of other tenants stay as they are.
pub mem_put-others :
    (cp : Checkpoint) (worm : MemStore) (u : Bytes)
    → bytes_equal cp.tenant_id u ≡ false
    → get u (mem_put cp worm).1.records ≡ get u worm.records
unfolding mem_put
mem_put-others cp worm u other =
    elim (Option-cases (get cp.seq_end (or_nil (get cp.tenant_id worm.records)))) [
      | inr (old, taken) ↦ rw (taken, mem_put) refl
      | inl free ↦ rw (free, mem_put) (get-put_ne cp.tenant_id u _ worm.records other)
    ]

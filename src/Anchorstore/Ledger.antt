-- ===== src/Anchorstore/Ledger.antt =====
-- Which proofs the verifier finds in the ledger that is loaded.
use multi_log.Prelude.{
  ℕ, ◌^◌, ◌<◌, ◌≡◌, sym, ◌∙◌, ap, ◌==◌, ==_iff, if◌then◌else◌, Bool-cases, inl, inr, List, [], ◌∷◌,
  ◌++◌, append-nil, append_assoc, All, Bytes, ok, ok-injective,
}
use multi_log.Witness.{Proof, ProofLedger, add_proof, get_proofs}
use mathlib.Core.Path.{subst}
use multi_log.Witness.Ledger.{get_proofs-add_proof}
use multi_log.Anchorstore.{Tables, load_rows, load_ledger}

abbrev pub AllEndsFit : List (ℕ × Proof) → Type 0
AllEndsFit rows = All (λ (row : ℕ × Proof). row.0 < 2 ^ 64) rows

-- The proofs of the rows of one window, in order.
abbrev pub proofs_of : ℕ → List (ℕ × Proof) → List Proof
proofs_of n [] = []
proofs_of n ((end, p) ∷ rows) = let rest = proofs_of n rows in if end == n then p ∷ rest else rest

get_proofs-load_rows :
    (t : Bytes) (n : ℕ) (rows : List (ℕ × Proof)) (l : ProofLedger)
    → n < 2 ^ 64
    → AllEndsFit rows
    → get_proofs t n (load_rows t rows l) ≡ get_proofs t n l ++ proofs_of n rows
unfolding load_rows
get_proofs-load_rows t n [] l hn fits = sym (append-nil (get_proofs t n l))
get_proofs-load_rows t n ((end, p) ∷ rows) l hn (fit, fits) =
    let later = get_proofs-load_rows t n rows (add_proof t end p l) hn fits in
    let (own, others) = get_proofs-add_proof t t end n p l fit hn in
    elim (Bool-cases (end == n)) [
      | inl same ↦
          let at : end ≡ n = (==_iff end n).0 same in
          let own' =
            subst (λ k. get_proofs t k (add_proof t end p l) ≡ get_proofs t k l ++ p ∷ []) at own in
          rw same (
            later
            ∙ ap (λ ps. ps ++ proofs_of n rows) own'
            ∙ append_assoc (get_proofs t n l) (p ∷ []) (proofs_of n rows))
      | inr other ↦
          let apart = others (λ (_, at). let clash = (==_iff end n).1 at in cc) in
          rw other (later ∙ ap (λ ps. ps ++ proofs_of n rows) apart)
    ]

-- The ledger that `LoadLedger` fills for a tenant has, for each window, the proofs that it had and
-- behind them those of the rows of that window, in the order of the rows and no others, where the ends
-- are below 2 ^ 64.
pub get_proofs-load_ledger :
    (tables : Tables) (s : tables.State) (t : Bytes) (n : ℕ) (rows : List (ℕ × Proof))
    (l l' : ProofLedger)
    → tables.select_proofs t s ≡ ok rows
    → load_ledger tables t l s ≡ ok l'
    → n < 2 ^ 64
    → AllEndsFit rows
    → get_proofs t n l' ≡ get_proofs t n l ++ proofs_of n rows
unfolding load_ledger
get_proofs-load_ledger tables s t n rows l l' read loaded hn fits =
    let loaded' = rw (read, load_ledger) at loaded in
    ap (get_proofs t n) (sym (ok-injective loaded')) ∙ get_proofs-load_rows t n rows l hn fits

-- ===== src/Runs/Audited.antt =====
-- A whole run of the verifier over one tenant with one anchored checkpoint.
use multi_log.Prelude.{
  ◌^◌, ◌<◌, ◌≡◌, refl, sym, ◌∙◌, ap, arith, Bool-cases, inl, inr, true, List, [], ◌∷◌, ◌++◌, Bytes,
  bytes_equal, codes, get, put, Bytes_eq, ℕ_eq, keys, All, length, take, pos, ok, done,
  done-injective,
}
use mathlib.Core.Path.{subst}
use multi_log.Crypto.{genesis}
use multi_log.Crypto.Commit.{NoCollision, checkpoint_message}
use multi_log.Chain.{Entry, Store, insert_by_seq, sort_by_seq, tenants, sort_strings, insert_string}
use multi_log.Chain.Sorted.{held}
use multi_log.Chain.Sealer.{sealed_entry}
use multi_log.Chain.Sealer.Agree.{payloads, AllInRange, NoChainCollision}
use multi_log.Checkpoint.{Checkpoint, commitment, build}
use multi_log.Checkpoint.Window.{window}
use multi_log.Witness.{
  MemStore, mem_put, mem_all, new_mem_store, mem_store, sorted_values, insert_by_end,
  new_proof_ledger, get_proofs,
}
use multi_log.Verify.{Report, report_ok, verify, by_name}
use multi_log.Verify.Whole.{Verified, verify_sound}
use multi_log.Verify.Whole.Payloads.{verify-Anchored}
use multi_log.Verify.Whole.Intact.{Intact, verify_complete}
use multi_log.Runs.Toy.{
  toy, acme, early, anchored, early-IsChained, early-Anchored, chain-AllInRange,
}

abbrev pub store : Store
store = record { entries = (acme, early) ∷ [] }

abbrev pub worm_name : Bytes
worm_name = codes "worm"

abbrev pub worm : MemStore
worm = (mem_put anchored (new_mem_store worm_name)).1

named : tenants store ≡ [] ++ acme ∷ []
unfolding tenants sort_strings insert_string keys
named = refl

listed : mem_all acme worm ≡ ok ([] ++ anchored ∷ [])
unfolding mem_all mem_put sorted_values insert_by_end get put
listed = refl

holds : held acme store ≡ early
unfolding get
holds = refl

sorted : sort_by_seq (held acme store) ≡ early
unfolding sort_by_seq insert_by_seq get sealed_entry
sorted = refl

no_proofs : get_proofs acme anchored.seq_end new_proof_ledger ≡ []
unfolding get_proofs get
no_proofs = refl

acme-Intact : Intact new_proof_ledger (by_name [] []) (λ t. mem_all t worm) store acme
acme-Intact = rw holds (
  early-IsChained,
  omega arith,
  (anchored ∷ [], listed, ((0, 1, early-Anchored, rw no_proofs tt), tt)),
)

pub intact :
    All (Intact new_proof_ledger (by_name [] []) (λ t. mem_all t worm) store) (tenants store)
intact = subst (All _) (sym named) (acme-Intact, tt)

verify_complete_example :
    (r : Report) × (store' : Store) × (verify store (mem_store worm_name) worm new_proof_ledger []
      ≡ done (r, store'))
    × (report_ok r ≡ true)
verify_complete_example =
    verify_complete store (mem_store worm_name) worm new_proof_ledger [] intact

abbrev pub run :
    (r : Report) × (store' : Store) × (verify store (mem_store worm_name) worm new_proof_ledger []
      ≡ done (r, store'))
    × (report_ok r ≡ true)
run = verify_complete store (mem_store worm_name) worm new_proof_ledger [] intact

pub bounded : (t : Bytes) → length (held t store) < 2 ^ 64
unfolding get
bounded t = elim (Bool-cases (bytes_equal acme t)) [
  | inl same ↦ rw same (omega arith)
  | inr other ↦ rw other (omega arith)
]

verify_sound_example :
    All (Verified new_proof_ledger (by_name [] []) (λ t. mem_all t worm) store) (tenants store)
verify_sound_example =
    verify_sound store (mem_store worm_name) worm new_proof_ledger [] run.0 run.1 bounded run.2
      run.3

same_build :
    (rebuilt : Checkpoint)
    → build acme (window 0 1 early) [] (pos 9) ≡ done rebuilt
    → NoCollision
        (checkpoint_message (commitment rebuilt))
        (checkpoint_message (commitment anchored))
same_build rebuilt built _ =
    ap (λ (c : Checkpoint). checkpoint_message (commitment c))
      (done-injective (sym built ∙ early-Anchored.built))

in_range : AllInRange acme early
in_range = (chain-AllInRange.0, (chain-AllInRange.1.0, tt))

verify-Anchored_example :
    (1 < length (sort_by_seq (held acme store)))
    × (payloads acme (take 2 (sort_by_seq (held acme store))) ≡ payloads acme (take 2 early))
    × (◌≡◌ {A = Bytes} [] [])
verify-Anchored_example =
    verify-Anchored acme 0 1 early [] anchored early-Anchored store (mem_store worm_name) worm
      new_proof_ledger [] run.0 run.1 bounded run.2 run.3 [] [] named [] [] listed (omega arith)
      (subst (AllInRange acme) (sym sorted) in_range)
      (subst
        (λ (es : List Entry).
          (rebuilt : Checkpoint)
          → build acme (window 0 1 es) [] (pos 9) ≡ done rebuilt
          → NoCollision (checkpoint_message (commitment rebuilt))
              (checkpoint_message (commitment anchored)))
        (sym sorted) same_build)
      (subst
        (λ (es : List Entry).
          NoChainCollision acme (genesis acme) (take 2 es) (genesis acme) (take 2 early))
        (sym sorted) ((λ _. refl), (λ _. refl), ((λ _. refl), (λ _. refl), tt)))

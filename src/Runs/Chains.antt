-- ===== src/Runs/Chains.antt =====
-- Runs of the hash chain, its window reads and its checkpoints.
use multi_log.Prelude.{
  ◌≡◌, refl, arith, true, [], ◌∷◌, codes, Bytes_eq, get, or_nil, done, panicked, pos, take, drop,
  map,
}
use multi_log.Crypto.{genesis}
use multi_log.Crypto.Framing.{encode-injective}
use multi_log.Crypto.Commit.{checkpoint_id-injective}
use multi_log.Chain.{Store, new_store, range}
use multi_log.Chain.Window.{range_panics}
use multi_log.Chain.Window.Slices.{range-within}
use multi_log.Chain.Sealer.{new_sealer}
use multi_log.Chain.Sealer.Chained.{IsChained}
use multi_log.Chain.Sealer.Honest.{seal_all, stored-seal_all, seal_all-IsChained, line_of, lines_of}
use multi_log.Chain.Sealer.Agree.{payloads, chains_agree, IsChained-IsNumbered}
use multi_log.Checkpoint.{commitment}
use multi_log.Checkpoint.Window.{CommitsTo, build-CommitsTo}
use multi_log.Runs.Toy.{
  toy, acme, lines, sealer, chain, early, anchored, chain-IsChained, early-IsChained,
  early-Anchored,
}

encode-injective_example :
    (codes "d" ≡ codes "d") × (codes "ab" ∷ codes "" ∷ [] ≡ codes "ab" ∷ codes "" ∷ [])
encode-injective_example =
    encode-injective (codes "d") (codes "d") (codes "ab" ∷ codes "" ∷ [])
      (codes "ab" ∷ codes "" ∷ []) (omega arith) (omega arith) refl

early-commits : CommitsTo acme 0 1 early [] (pos 9) anchored
early-commits =
    build-CommitsTo acme early 0 1 [] (pos 9) early-IsChained (omega arith) (omega arith)
      (omega arith) (omega arith) (omega arith) (omega arith) anchored early-Anchored.built

-- The store after the four lines.
abbrev store : Store
store = sealer.store

stored : or_nil (get acme store.entries) ≡ chain
stored = stored-seal_all lines acme

seal_all-IsChained_example :
    IsChained acme 0
      (genesis acme)
      (or_nil (get acme (seal_all (new_sealer new_store) lines).store.entries))
    × (map line_of (or_nil (get acme (seal_all (new_sealer new_store) lines).store.entries))
        ≡ lines_of acme lines)
seal_all-IsChained_example = seal_all-IsChained lines acme

chains_agree_example : (genesis acme ≡ genesis acme) × (payloads acme early ≡ payloads acme early)
chains_agree_example =
    chains_agree acme 0 (genesis acme) (genesis acme) early early early-IsChained early-IsChained
      refl early-Anchored.in_range early-Anchored.in_range
      ((λ _. refl), (λ _. refl), ((λ _. refl), (λ _. refl), tt)) refl

range-within_example : range acme 0 1 store ≡ done (drop 0 (take 2 chain), true)
range-within_example =
    range-within acme store chain
      (IsChained-IsNumbered acme 0 (genesis acme) chain (omega arith) chain-IsChained) stored 0 1
      (omega arith) (omega arith) (omega arith) (omega arith) (omega arith)

range_panics_example : range acme 5 2 store ≡ panicked
range_panics_example = range_panics acme 5 2 store (omega arith) (omega arith)

checkpoint_id-injective_example : commitment anchored ≡ commitment anchored
checkpoint_id-injective_example =
    checkpoint_id-injective early-commits.in_range early-commits.in_range (λ _. refl) refl

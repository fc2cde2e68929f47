-- ===== src/Checkpoint/Merkle.antt =====
-- internal/checkpoint/merkle.go
pub mod Roots
use multi_log.Prelude.{
  ℕ, zero, suc, List, [], ◌∷◌, ◌++◌, map, Bytes, length, ltb, true, false, Run, done, panicked,
  looping,
}
use multi_log.Crypto.{Sha256, hash}

abbrev pub leaf_prefix : Bytes
leaf_prefix = 0x00 ∷ []

abbrev pub node_prefix : Bytes
node_prefix = 0x01 ∷ []

module _ ⦃sha : Sha256⦄ where
  abbrev pub leaf_node : Bytes → Bytes
  leaf_node h = hash (leaf_prefix ++ h)

  abbrev pub inner_node : Bytes → Bytes → Bytes
  inner_node left right = hash ((node_prefix ++ left) ++ right)

  -- One pass over a level: neighbours are joined, and an odd last node is joined with itself.
  unfoldable pub next_level : List Bytes → List Bytes
  next_level [] = []
  next_level (left ∷ []) = inner_node left left ∷ []
  next_level (left ∷ right ∷ rest) = inner_node left right ∷ next_level rest

  -- `level[0]`
  abbrev top : List Bytes → Run Bytes
  top [] = panicked
  top (h ∷ _) = done h

  -- `for len(level) > 1`, with `rounds` rounds.
  unfoldable pub merkle_loop : ℕ → List Bytes → Run Bytes
  merkle_loop zero level = looping
  merkle_loop (suc rounds) level = elim (ltb 1 (length level)) [
    | true ↦ merkle_loop rounds (next_level level)
    | false ↦ top level
  ]

  unfoldable pub merkle_root : List Bytes → Run Bytes
  unfolding merkle_loop
  merkle_root [] = done (hash leaf_prefix)
  merkle_root (h ∷ hs) = merkle_loop (length (h ∷ hs)) (map leaf_node (h ∷ hs))

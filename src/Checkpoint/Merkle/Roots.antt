-- ===== src/Checkpoint/Merkle/Roots.antt =====
-- The loop of `MerkleRoot` ends, and what its root does and does not tell apart.
use multi_log.Prelude.{
  ℕ, zero, suc, ◌+◌, ◌*◌, ◌%◌, ◌≤◌, ◌<◌, ◌≡◌, refl, sym, ◌∙◌, ap, arith, List, [], ◌∷◌, ◌++◌, map,
  Bytes, length, length-map, lt→ltb, All, done, done-injective,
}
use multi_log.Crypto.{Sha256, length-hash}
use mathlib.Core.List.{map-append}
use multi_log.Checkpoint.Merkle.{leaf_node, inner_node, next_level, merkle_loop, merkle_root}

module _ ⦃sha : Sha256⦄ where
  -- A pass halves the level, rounded up.
  length-next_level :
      (level : List Bytes)
      → (length level ≤ 2 * length (next_level level))
        × (2 * length (next_level level) ≤ length level + 1)
  unfolding next_level
  length-next_level [] = omega arith
  length-next_level (l ∷ []) = omega arith
  length-next_level (l ∷ r ∷ rest) = omega (arith, length-next_level rest)

  merkle_loop_step :
      (rounds : ℕ) (level : List Bytes)
      → 1 < length level
      → merkle_loop (suc rounds) level ≡ merkle_loop rounds (next_level level)
  unfolding merkle_loop
  merkle_loop_step rounds level h = rw (lt→ltb 1 (length level) h, merkle_loop)

  merkle_loop_total :
      (rounds : ℕ) (level : List Bytes)
      → 1 ≤ length level
      → length level ≤ rounds
      → (root : Bytes) × (merkle_loop rounds level ≡ done root)
  unfolding merkle_loop
  merkle_loop_total zero level h1 h2 = absurd (omega arith)
  merkle_loop_total (suc rounds) [] h1 h2 = absurd (omega arith)
  merkle_loop_total (suc rounds) (l ∷ []) h1 h2 = (l, refl)
  merkle_loop_total (suc rounds) (l ∷ r ∷ rest) h1 h2 =
      let halved = length-next_level (l ∷ r ∷ rest) in
      rw (merkle_loop_step rounds (l ∷ r ∷ rest) (omega arith)) (
        merkle_loop_total rounds (next_level (l ∷ r ∷ rest)) (omega (arith, halved))
          (omega (arith, halved)))

  -- `MerkleRoot` returns a root for every list of entry hashes: the rounds that the model gives its
  -- loop, one for each hash, suffice, and no index is out of range.
  pub merkle_root_total : (hs : List Bytes) → (root : Bytes) × (merkle_root hs ≡ done root)
  unfolding merkle_root
  merkle_root_total [] = (_, refl)
  merkle_root_total (h ∷ hs) =
      merkle_loop_total (length (h ∷ hs)) (map leaf_node (h ∷ hs)) (omega arith)
        (omega (arith, length-map leaf_node (h ∷ hs)))

  -- Any two sufficient numbers of rounds give the same root.
  merkle_loop_rounds :
      (m n : ℕ) (level : List Bytes)
      → 1 ≤ length level
      → length level ≤ m
      → length level ≤ n
      → merkle_loop m level ≡ merkle_loop n level
  unfolding merkle_loop
  merkle_loop_rounds m n [] h1 hm hn = absurd (omega arith)
  merkle_loop_rounds zero n (l ∷ ls) h1 hm hn = absurd (omega arith)
  merkle_loop_rounds (suc m) zero (l ∷ ls) h1 hm hn = absurd (omega arith)
  merkle_loop_rounds (suc m) (suc n) (l ∷ []) h1 hm hn = refl
  merkle_loop_rounds (suc m) (suc n) (l ∷ r ∷ rest) h1 hm hn =
      let halved = length-next_level (l ∷ r ∷ rest) in
      merkle_loop_step m (l ∷ r ∷ rest) (omega arith)
      ∙ merkle_loop_rounds m n (next_level (l ∷ r ∷ rest)) (omega (arith, halved))
          (omega (arith, halved)) (omega (arith, halved))
      ∙ sym (merkle_loop_step n (l ∷ r ∷ rest) (omega arith))

  next_level-repeat :
      (xs : List Bytes) (x : Bytes)
      → length xs % 2 ≡ 0
      → next_level (xs ++ x ∷ []) ≡ next_level (xs ++ x ∷ x ∷ [])
  unfolding next_level
  next_level-repeat [] x even = refl
  next_level-repeat (l ∷ []) x even = absurd (omega arith)
  next_level-repeat (l ∷ r ∷ rest) x even =
      ap (λ level. inner_node l r ∷ level) (next_level-repeat rest x (omega arith))

  merkle_root-cons :
      (h : Bytes) (hs : List Bytes)
      → merkle_root (h ∷ hs) ≡ merkle_loop (length (h ∷ hs)) (map leaf_node (h ∷ hs))
  unfolding merkle_root
  merkle_root-cons h hs = refl

  -- Equal second levels give equal roots, whatever the lengths.
  merkle_root-next_level :
      (h h' g g' : Bytes) (hs gs : List Bytes)
      → next_level (map leaf_node (h ∷ h' ∷ hs)) ≡ next_level (map leaf_node (g ∷ g' ∷ gs))
      → merkle_root (h ∷ h' ∷ hs) ≡ merkle_root (g ∷ g' ∷ gs)
  merkle_root-next_level h h' g g' hs gs e =
      let left : List Bytes = map leaf_node (h ∷ h' ∷ hs) in
      let right : List Bytes = map leaf_node (g ∷ g' ∷ gs) in
      let m = length-map leaf_node hs in
      let n = length-map leaf_node gs in
      let same : length (next_level left) ≡ length (next_level right) = ap (length {A = Bytes}) e in
      merkle_root-cons h (h' ∷ hs)
      ∙ merkle_loop_step (suc (length hs)) left (omega arith)
      ∙ ap (merkle_loop (suc (length hs))) e
      ∙ merkle_loop_rounds (suc (length hs)) (suc (length gs)) (next_level right)
          (omega (arith, length-next_level right)) (omega (arith, same, length-next_level left))
          (omega (arith, length-next_level right))
      ∙ sym (merkle_loop_step (suc (length gs)) right (omega arith))
      ∙ sym (merkle_root-cons g (g' ∷ gs))

  -- `MerkleRoot` does not tell an odd list of at least three hashes from the same list with its last
  -- hash once more: the entry count that a checkpoint commits to does.
  merkle_root-repeat :
      (h h' : Bytes) (hs : List Bytes) (x : Bytes)
      → length hs % 2 ≡ 0
      → merkle_root (h ∷ h' ∷ (hs ++ x ∷ [])) ≡ merkle_root (h ∷ h' ∷ (hs ++ x ∷ x ∷ []))
  merkle_root-repeat h h' hs x even =
      merkle_root-next_level h h' h h' (hs ++ x ∷ []) (hs ++ x ∷ x ∷ []) (
        simp map-append (
          next_level-repeat (leaf_node h ∷ leaf_node h' ∷ map leaf_node hs) (leaf_node x)
            (omega (arith, length-map leaf_node hs))))

  abbrev IsDigest : Bytes → Type 0
  IsDigest b = length b ≡ 32

  next_level-IsDigest : (level : List Bytes) → All IsDigest level → All IsDigest (next_level level)
  unfolding next_level
  next_level-IsDigest [] h = tt
  next_level-IsDigest (l ∷ []) h = (length-hash _, tt)
  next_level-IsDigest (l ∷ r ∷ rest) (_, (_, h)) = (length-hash _, next_level-IsDigest rest h)

  merkle_loop-IsDigest :
      (rounds : ℕ) (level : List Bytes) (root : Bytes)
      → All IsDigest level
      → merkle_loop rounds level ≡ done root
      → IsDigest root
  unfolding merkle_loop
  merkle_loop-IsDigest zero level root h e = cc
  merkle_loop-IsDigest (suc rounds) [] root h e = cc
  merkle_loop-IsDigest (suc rounds) (l ∷ []) root (h, _) e =
      let same : l ≡ root = done-injective e in rw (← same) h
  merkle_loop-IsDigest (suc rounds) (l ∷ r ∷ rest) root h e =
      merkle_loop-IsDigest rounds (next_level (l ∷ r ∷ rest)) root
        (next_level-IsDigest (l ∷ r ∷ rest) h)
        (sym (merkle_loop_step rounds (l ∷ r ∷ rest) (omega arith)) ∙ e)

  map-IsDigest : (hs : List Bytes) → All IsDigest (map leaf_node hs)
  map-IsDigest [] = tt
  map-IsDigest (h ∷ hs) = (length-hash _, map-IsDigest hs)

  -- A Merkle root is a digest.
  pub length-merkle_root :
      (hs : List Bytes) (root : Bytes) → merkle_root hs ≡ done root → length root ≡ 32
  unfolding merkle_root
  length-merkle_root [] root e = let same = done-injective e in rw (← same) (length-hash _)
  length-merkle_root (h ∷ hs) root e =
      merkle_loop-IsDigest (length (h ∷ hs)) (map leaf_node (h ∷ hs)) root (map-IsDigest (h ∷ hs)) e

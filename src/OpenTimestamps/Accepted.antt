-- ===== src/OpenTimestamps/Accepted.antt =====
-- internal/witness/opentimestamps/notary.go: which tokens `Verify` accepts, and what the searches for
-- an attestation of Bitcoin find.
use multi_log.Prelude.{
  ◌≤◌, ◌≡◌, refl, sym, ◌∙◌, ap, arith, Bool, true, false, ◌||◌, ◌==◌, Bool-cases, Option, none,
  some, inl, inr, List, [], ◌∷◌, ◌++◌, Bytes, bytes_equal_refl, length, length-append, done, ok,
}
use multi_log.Crypto.{Sha256}
use multi_log.OpenTimestamps.{
  op_sha256, Digests, Attestation, is_bitcoin, Timestamp, node, Edges, no_edges, edge,
}
use multi_log.OpenTimestamps.Tree.{DetachedFile, message, edge_count, serialize_file}
use multi_log.OpenTimestamps.Steps.{IsTimestamp, AreEdges}
use multi_log.OpenTimestamps.RoundTrip.{parse_detached_file-serialize_file}
use multi_log.OpenTimestamps.Notary.{
  collect, collect_edges, first_bitcoin, find_bitcoin, find_bitcoin_edges, some_bitcoin, at_message,
  or_else, verify_token,
}
use multi_log.Witness.{Proof}

module _ ⦃sha : Sha256⦄ ⦃d : Digests⦄ where
  mutual
    unfolding IsTimestamp AreEdges collect

    collect_some : (t : Timestamp) → IsTimestamp t → 1 ≤ length (collect t)
    collect_some (node msg atts ops) (well, branches, edges) =
        omega (arith, length-append atts (collect_edges ops), collect_edges_some msg ops edges)

    collect_edges_some :
        (msg : Bytes) (ops : Edges) → AreEdges msg ops → edge_count ops ≤ length (collect_edges ops)
    collect_edges_some msg no_edges well = omega arith
    collect_edges_some msg (edge o child rest) (is_op, same, well, others) = omega (
      arith,
      length-append (collect child) (collect_edges rest),
      collect_some child well,
      collect_edges_some msg rest others,
    )

  -- `Verify` accepts the serialization of every detached file over a SHA-256 digest of 32 bytes and a
  -- proof tree of the format, for the digest itself: such a tree has an attestation.
  pub verify_token-serialize_file :
      (f : DetachedFile) (p : Proof)
      → f.file_hash_op ≡ op_sha256
      → length (message f.ts) ≡ 32
      → IsTimestamp f.ts
      → p.token ≡ serialize_file f
      → verify_token p (message f.ts) ≡ done (ok tt)
  unfolding verify_token
  verify_token-serialize_file f p hash_op digest well same =
      let filled : (length (collect f.ts) == 0) ≡ false = ground (arith, collect_some f.ts well) in
      rw
        (
          same,
          parse_detached_file-serialize_file f hash_op digest well,
          bytes_equal_refl (message f.ts),
          filled,
        )
        refl

abbrev is_some {ℓ} : {A : Type ℓ} → Option A → Bool
is_some none = false
is_some (some a) = true

is_some-or_else {ℓ} :
    {A : Type ℓ} (x y : Option A) → is_some (or_else x y) ≡ (is_some x || is_some y)
is_some-or_else none y = refl
is_some-or_else (some a) y = refl

some_bitcoin-append :
    (xs ys : List Attestation) → some_bitcoin (xs ++ ys) ≡ (some_bitcoin xs || some_bitcoin ys)
some_bitcoin-append [] ys = refl
some_bitcoin-append (a ∷ xs) ys = ground (arith, some_bitcoin-append xs ys)

is_some-first_bitcoin :
    (msg : Bytes) (xs : List Attestation)
    → is_some (at_message msg (first_bitcoin xs)) ≡ some_bitcoin xs
is_some-first_bitcoin msg [] = refl
is_some-first_bitcoin msg (a ∷ xs) = elim (Bool-cases (is_bitcoin a)) [
  | inl yes_bitcoin ↦ rw yes_bitcoin refl
  | inr other ↦ rw other (is_some-first_bitcoin msg xs)
]

mutual
  unfolding find_bitcoin collect

  finds : (t : Timestamp) → is_some (find_bitcoin t) ≡ some_bitcoin (collect t)
  finds (node msg atts ops) =
      is_some-or_else (at_message msg (first_bitcoin atts)) (find_bitcoin_edges ops)
      ∙ ap (λ b. b || is_some (find_bitcoin_edges ops)) (is_some-first_bitcoin msg atts)
      ∙ ap (λ b. some_bitcoin atts || b) (finds_edges ops)
      ∙ sym (some_bitcoin-append atts (collect_edges ops))

  finds_edges : (ops : Edges) → is_some (find_bitcoin_edges ops) ≡ some_bitcoin (collect_edges ops)
  finds_edges no_edges = refl
  finds_edges (edge o child rest) =
      is_some-or_else (find_bitcoin child) (find_bitcoin_edges rest)
      ∙ ap (λ b. b || is_some (find_bitcoin_edges rest)) (finds child)
      ∙ ap (λ b. some_bitcoin (collect child) || b) (finds_edges rest)
      ∙ sym (some_bitcoin-append (collect child) (collect_edges rest))

-- `findBitcoin` finds an attestation exactly in the trees in which `collect` lists one of Bitcoin,
-- which is what `HasBitcoin` looks for.
find_bitcoin-collect :
    (t : Timestamp)
    → ((find_bitcoin t ≡ none) → some_bitcoin (collect t) ≡ false)
      × ((found : Bytes × Attestation)
          → find_bitcoin t ≡ some found
          → some_bitcoin (collect t) ≡ true)
find_bitcoin-collect t =
    (λ e. sym (finds t) ∙ ap is_some e, λ found e. sym (finds t) ∙ ap is_some e)

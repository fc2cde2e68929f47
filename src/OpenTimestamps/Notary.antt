-- ===== src/OpenTimestamps/Notary.antt =====
-- internal/witness/opentimestamps/notary.go: what is read off a proof. The requests to calendars and
-- to the block explorer are services; the Merkle root of a block is an argument.
use multi_log.Prelude.{
  ℕ, not, ◌==◌, if◌then◌else◌, Bool, false, ◌||◌, List, [], ◌∷◌, ◌++◌, Option, none, some, Bytes,
  codes, bytes_equal, length, text, Run, done, panicked, looping, Result, ok, err,
}
use multi_log.Crypto.{Sha256}
use multi_log.OpenTimestamps.Reading.{Read, got, failed, crashed}
use multi_log.OpenTimestamps.{
  Digests, Attestation, is_pending, is_bitcoin, Timestamp, node, Edges, no_edges, edge,
}
use multi_log.OpenTimestamps.Tree.{DetachedFile, message, parse_detached_file}
use multi_log.Witness.{Proof}

unfoldable mutual
  pub collect : Timestamp → List Attestation
  collect (node msg atts ops) = atts ++ collect_edges ops

  pub collect_edges : Edges → List Attestation
  collect_edges no_edges = []
  collect_edges (edge o child rest) = collect child ++ collect_edges rest

abbrev pub first_bitcoin : List Attestation → Option Attestation
first_bitcoin [] = none
first_bitcoin (a ∷ atts) = let rest = first_bitcoin atts in if is_bitcoin a then some a else rest

-- The first of two results that is there.
abbrev pub or_else {ℓ} : {A : Type ℓ} → Option A → Option A → Option A
or_else none y = y
or_else (some x) y = some x

-- The node's message stands for the node.
abbrev pub at_message : Bytes → Option Attestation → Option (Bytes × Attestation)
at_message msg none = none
at_message msg (some a) = some (msg, a)

unfoldable mutual
  pub find_bitcoin : Timestamp → Option (Bytes × Attestation)
  find_bitcoin (node msg atts ops) =
      or_else (at_message msg (first_bitcoin atts)) (find_bitcoin_edges ops)

  pub find_bitcoin_edges : Edges → Option (Bytes × Attestation)
  find_bitcoin_edges no_edges = none
  find_bitcoin_edges (edge o child rest) = or_else (find_bitcoin child) (find_bitcoin_edges rest)

abbrev pub pending_of : List Attestation → List Bytes
pending_of [] = []
pending_of (a ∷ atts) = let rest = pending_of atts in if is_pending a then a.uri ∷ rest else rest

abbrev pub some_bitcoin : List Attestation → Bool
some_bitcoin [] = false
some_bitcoin (a ∷ atts) = is_bitcoin a || some_bitcoin atts

-- `parseDetachedFile` at the end of its reads: the value and error pair, or the panic.
abbrev pub finish {ℓ} : {A : Type ℓ} → Read A → Run (Result A)
finish (got a rest) = done (ok a)
finish (failed e) = done (err e)
finish crashed = panicked

-- What follows a call that returned an error is skipped.
abbrev pub on_ok {ℓ κ} :
    {A : Type ℓ} {B : Type κ} → Run (Result A) → (A → Run (Result B)) → Run (Result B)
on_ok (done (ok a)) f = f a
on_ok (done (err e)) f = done (err e)
on_ok panicked f = panicked
on_ok looping f = looping

abbrev pub check_file : Bytes → DetachedFile → Run (Result (Unit {0}))
check_file checkpoint_id f =
    if not (bytes_equal (message f.ts) checkpoint_id)
    then done (err (text (codes "opentimestamps: proof attests a different checkpoint id")))
    else if length (collect f.ts) == 0
    then done (err (text (codes "opentimestamps: proof contains no attestations")))
    else done (ok tt)

abbrev pub answer_false : Run (Result Bool) → Run Bool
answer_false (done (ok b)) = done b
answer_false (done (err e)) = done false
answer_false panicked = panicked
answer_false looping = looping

-- The end of `VerifyBitcoin`, on what `findBitcoin` returns.
abbrev pub check_block : (ℕ → Result Bytes) → Option (Bytes × Attestation) → Run (Result ℕ)
check_block root_at none = done (err (text (codes "opentimestamps: no Bitcoin attestation yet")))
check_block root_at (some (msg, a)) = on_ok (done (root_at a.height)) (λ root.
    if not (bytes_equal msg root)
    then done (err (text (codes "opentimestamps: merkle root does not match the proof")))
    else done (ok a.height))

module _ ⦃sha : Sha256⦄ ⦃d : Digests⦄ where
  -- `Verify`: it reads no field of the notary.
  unfoldable pub verify_token : Proof → Bytes → Run (Result (Unit {0}))
  verify_token p checkpoint_id =
      on_ok (finish (parse_detached_file p.token)) (check_file checkpoint_id)

  unfoldable pub pending_uris : Proof → Run (Result (List Bytes))
  pending_uris p =
      on_ok (finish (parse_detached_file p.token)) (λ f. done (ok (pending_of (collect f.ts))))

  unfoldable pub has_bitcoin : Proof → Run Bool
  has_bitcoin p =
      answer_false (
        on_ok (finish (parse_detached_file p.token)) (λ f. done (ok (some_bitcoin (collect f.ts)))))

  -- `VerifyBitcoin`, where `root_at` gives the Merkle root of the block at a height.
  unfoldable pub verify_bitcoin : (ℕ → Result Bytes) → Proof → Bytes → Run (Result ℕ)
  unfolding verify_token
  verify_bitcoin root_at p checkpoint_id = on_ok (verify_token p checkpoint_id) (λ _.
      on_ok (finish (parse_detached_file p.token)) (λ f. check_block root_at (find_bitcoin f.ts)))

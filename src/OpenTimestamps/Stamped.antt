-- ===== src/OpenTimestamps/Stamped.antt =====
-- The proofs that `Stamp` returns are accepted by `Verify`.
use multi_log.Prelude.{
  ℕ, zero, suc, ◌+◌, ◌^◌, ◌≤◌, ◌≡◌, refl, sym, ◌∙◌, ap, arith, Bool, true, false, ◌==◌, Bool-cases,
  Option-cases, inl, inr, List, [], ◌∷◌, ◌++◌, Bytes, codes, length, length-append, take,
  All-append, status_ok, Result, Run-cases, ok, err, and_then-ok, Run, done, panicked, looping,
  done-injective, ok-injective,
}
use mathlib.Core.Path.{subst}
use multi_log.Crypto.{Sha256}
use multi_log.Witness.{Proof}
use multi_log.OpenTimestamps.Reading.{Read, got, failed, crashed}
use multi_log.OpenTimestamps.{op_sha256, Digests, apply, Timestamp, node, Edges, no_edges, edge}
use multi_log.OpenTimestamps.Tree.{message, edge_count, deserialize_timestamp, serialize_file}
use multi_log.OpenTimestamps.Steps.{IsTimestamp, AreEdges, append_edges}
use multi_log.OpenTimestamps.Branches.{IsAttestation}
use multi_log.OpenTimestamps.Parsed.{IsShort}
use multi_log.OpenTimestamps.Grown.{
  IsPartial, IsTimestamp-IsPartial, empty-IsPartial, deserialize_timestamp-IsTimestamp,
}
use multi_log.OpenTimestamps.Notary.{finish, on_ok, verify_token}
use multi_log.OpenTimestamps.Accepted.{verify_token-serialize_file}
use multi_log.OpenTimestamps.Calendar.{
  Answer, Client, Notary, body_within, do_request, submit, merge, submit_all, stamped_tree,
  proof_of, stamp,
}

length-take_le : (n : ℕ) (b : Bytes) → length (take n b) ≤ n
length-take_le zero b = omega arith
length-take_le (suc n) [] = omega arith
length-take_le (suc n) (x ∷ b) = omega (arith, length-take_le n b)

body_within-short :
    (limit : ℕ) (a : Answer) (b : Bytes) → body_within limit a ≡ ok b → length b ≤ limit
body_within-short limit a b h = elim (Option-cases a.read_error) [
  | inr (e, broken) ↦ let h' = rw broken at h in cc
  | inl whole ↦ elim (Bool-cases (a.status == status_ok)) [
    | inr other ↦ let h' = rw (whole, other) at h in cc
    | inl fine ↦
        let h' = rw (whole, fine) at h in
        let same : take limit a.body ≡ b = cc in
        subst (λ x. length x ≤ limit) same (length-take_le limit a.body)
  ]
]

module _ ⦃sha : Sha256⦄ ⦃d : Digests⦄ where
  finish-ok {ℓ} :
      {A : Type ℓ} (m : Read A) (x : A) → finish m ≡ done (ok x) → (rest : Bytes) × (m ≡ got x rest)
  finish-ok (got y rest) x h = (rest, cc)
  finish-ok (failed e) x h = cc
  finish-ok crashed x h = cc

  read_answer :
      (answer : Result Bytes) (digest : Bytes) (t : Timestamp)
      → ((b : Bytes) → answer ≡ ok b → IsShort b)
      → on_ok (done answer) (λ body. finish (deserialize_timestamp digest body)) ≡ done (ok t)
      → IsTimestamp t × (message t ≡ digest)
  read_answer (err e) digest t short h = cc
  read_answer (ok b) digest t short h =
      let (rest, read) = finish-ok (deserialize_timestamp digest b) t h in
      deserialize_timestamp-IsTimestamp digest b t rest (short b refl) read

  submit-IsTimestamp :
      (http : Client) (url digest : Bytes) (t : Timestamp)
      → submit http url digest ≡ done (ok t)
      → IsTimestamp t × (message t ≡ digest)
  unfolding submit
  submit-IsTimestamp http url digest t h =
      let asked = http.exchange (codes "POST") (url ++ codes "/digest") digest in
      read_answer (do_request asked) digest t
        (λ b answered.
          let (a, _, read) = and_then-ok asked (body_within (2 ^ 20)) answered in
          omega (arith, body_within-short (2 ^ 20) a b read))
        h

  AreEdges-append_edges :
      (msg : Bytes) (ops more : Edges)
      → AreEdges msg ops
      → AreEdges msg more
      → AreEdges msg (append_edges ops more)
  unfolding AreEdges
  AreEdges-append_edges msg no_edges more h k = k
  AreEdges-append_edges msg (edge o child rest) more (is_op, same, well, others) k =
      (is_op, same, well, AreEdges-append_edges msg rest more others k)

  edge_count-append_edges :
      (ops more : Edges) → edge_count (append_edges ops more) ≡ edge_count ops + edge_count more
  edge_count-append_edges no_edges more = omega arith
  edge_count-append_edges (edge o child rest) more =
      omega (arith, edge_count-append_edges rest more)

  merge-IsTimestamp :
      (http : Client) (t c : Timestamp)
      → IsPartial t
      → IsTimestamp c
      → message c ≡ message t
      → IsTimestamp (merge http t c)
  unfolding IsTimestamp
  merge-IsTimestamp http (node msg atts ops) (node msg' atts' ops') (well, edges)
        (well', some_branch, edges') same =
      (
        All-append IsAttestation atts atts' well well',
        omega (arith, length-append atts atts', edge_count-append_edges ops ops'),
        AreEdges-append_edges msg ops ops' edges (subst (λ m. AreEdges m ops') same edges'),
      )

  message-merge : (http : Client) (t c : Timestamp) → message (merge http t c) ≡ message t
  message-merge http (node msg atts ops) (node msg' atts' ops') = refl

  submit_all-IsTimestamp :
      (http : Client) (submitted : Bytes) (urls : List Bytes) (t : Timestamp) (reached : Bool)
      (t' : Timestamp)
      → IsPartial t
      → message t ≡ submitted
      → (reached ≡ true → IsTimestamp t)
      → submit_all http submitted urls t reached ≡ done (t', true)
      → IsTimestamp t' × (message t' ≡ submitted)
  unfolding submit_all
  submit_all-IsTimestamp http submitted [] t reached t' partial at good h =
      let same : t ≡ t' = ap (λ (p : Timestamp × Bool). p.0) (done-injective h) in
      let yes_reached : reached ≡ true = ap (λ (p : Timestamp × Bool). p.1) (done-injective h) in
      (subst IsTimestamp same (good yes_reached), ap message (sym same) ∙ at)
  submit_all-IsTimestamp http submitted (url ∷ urls) t reached t' partial at good h =
      elim (Run-cases (submit http url submitted)) [
        | inl stuck ↦ let h' = rw (stuck, submit_all) at h in cc
        | inr (inl stuck) ↦ let h' = rw (stuck, submit_all) at h in cc
        | inr (inr (err e, asked)) ↦
            submit_all-IsTimestamp http submitted urls t reached t' partial at good
              (rw (asked, submit_all) at h)
        | inr (inr (ok c, asked)) ↦
            let (whole, over) = submit-IsTimestamp http url submitted c asked in
            let merged = merge-IsTimestamp http t c partial whole (over ∙ sym at) in
            submit_all-IsTimestamp http submitted urls (merge http t c) true t'
              (IsTimestamp-IsPartial (merge http t c) merged) (message-merge http t c ∙ at)
              (λ _. merged) (rw (asked, submit_all) at h)
      ]

  stamped_tree-IsTimestamp :
      (http : Client) (id nonce : Bytes) (t : Timestamp)
      → length nonce ≡ 16
      → IsTimestamp t
      → message t ≡ sha.sum256 (id ++ nonce)
      → IsTimestamp (stamped_tree http id nonce t)
  unfolding IsTimestamp AreEdges apply
  stamped_tree-IsTimestamp http id nonce t size well same = (
    tt,
    omega arith,
    (
      inl (refl, omega arith),
      refl,
      (tt, omega arith, (inr (refl, refl, refl), same, well, tt)),
      tt,
    ),
  )

  proof_of-ok :
      (http : Client) (n : Notary) (id nonce : Bytes) (out : Run (Timestamp × Bool)) (p : Proof)
      → proof_of http n id nonce out ≡ done (ok p)
      → (t : Timestamp) × (out ≡ done (t, true))
        × (p.token
            ≡ serialize_file
                (record { file_hash_op = op_sha256; ts = stamped_tree http id nonce t }))
  proof_of-ok http n id nonce panicked p h = cc
  proof_of-ok http n id nonce looping p h = cc
  proof_of-ok http n id nonce (done (t, false)) p h = cc
  proof_of-ok http n id nonce (done (t, true)) p h =
      (t, refl, ap (λ (x : Proof). x.token) (sym (ok-injective (done-injective h))))

  -- A proof that `Stamp` returns for a checkpoint id of 32 bytes is accepted by `Verify` for that id,
  -- whatever the calendars have answered and however many of them could not be reached.
  pub verify_token-stamp :
      (http : Client) (n : Notary) (nonce id : Bytes) (p : Proof)
      → length nonce ≡ 16
      → length id ≡ 32
      → stamp http n (ok nonce) id ≡ done (ok p)
      → verify_token p id ≡ done (ok tt)
  unfolding stamp
  verify_token-stamp http n nonce id p size digest h =
      let submitted = sha.sum256 (id ++ nonce) in
      let (t, gathered, token) =
        proof_of-ok http n id nonce
          (submit_all http submitted n.calendars (node submitted [] no_edges) false) p h in
      let (well, over) =
        submit_all-IsTimestamp http submitted n.calendars (node submitted [] no_edges) false t
          (empty-IsPartial submitted) refl (λ never. cc) gathered in
      verify_token-serialize_file
        (record { file_hash_op = op_sha256; ts = stamped_tree http id nonce t }) p refl digest
        (stamped_tree-IsTimestamp http id nonce t size well over) token

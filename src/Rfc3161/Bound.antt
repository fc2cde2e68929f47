-- ===== src/Rfc3161/Bound.antt =====
-- What a token of a time-stamping authority is bound to.
use multi_log.Prelude.{
  ℕ, ◌==◌, ◌↔◌, ◌≡◌, refl, sym, ◌∙◌, ap, Bool-cases, inl, inr, Bytes, bytes_equal, bytes_equal→eq,
  status_ok, ok, and_then-ok, ok-injective,
}
use multi_log.Witness.{Proof}
use multi_log.Rfc3161.{
  Timestamp, Library, Authority, Notary, sha256_id, check, parse_and_check, verify, keep, stamp,
}

module _ (library : Library) where
  check-ok :
      (id : Bytes) (ts found : Timestamp) → check library id ts ≡ ok found → ts.hashed_message ≡ id
  check-ok id ts found h = elim (Bool-cases (ts.hash_algorithm == sha256_id)) [
    | inr other ↦ let h' = rw other at h in cc
    | inl sha ↦ elim (Bool-cases (bytes_equal ts.hashed_message id)) [
      | inr differs ↦ let h' = rw (sha, differs) at h in cc
      | inl same ↦ bytes_equal→eq ts.hashed_message id same
    ]
  ]

  -- What is read from a token that verifies is the id.
  abbrev Attested : Bytes → Bytes → Type 0
  Attested token id =
      (ts : Timestamp) × (library.parse_response token ≡ ok ts) × (ts.hashed_message ≡ id)

  verify-Attested : (p : Proof) (id : Bytes) → verify library p id ≡ ok tt → Attested p.token id
  unfolding verify parse_and_check
  verify-Attested p id h =
      let (found, checked, _) = and_then-ok (parse_and_check library p.token id) _ h in
      let (ts, parsed, passed) =
        and_then-ok (library.parse_response p.token) (check library id) checked in
      (ts, parsed, check-ok id ts found passed)

  -- A proof verifies for one checkpoint id at most, whoever made it.
  verify-injective :
      (p : Proof) (id id' : Bytes)
      → verify library p id ≡ ok tt
      → verify library p id' ≡ ok tt
      → id ≡ id'
  verify-injective p id id' h h' =
      let (ts, parsed, same) = verify-Attested p id h in
      let (ts', parsed', same') = verify-Attested p id' h' in
      let one : ts ≡ ts' = cc in sym same ∙ ap (λ (x : Timestamp). x.hashed_message) one ∙ same'

  keep-ok :
      (n : Notary) (id : Bytes) (status : ℕ) (response : Bytes) (p : Proof)
      → keep library n id status response ≡ ok p
      → verify library p id ≡ ok tt
  unfolding verify parse_and_check
  keep-ok n id status response p h = elim (Bool-cases (status == status_ok)) [
    | inr other ↦ let h' = rw other at h in cc
    | inl fine ↦
        let h' = rw fine at h in
        let (ts, checked, made) = and_then-ok (parse_and_check library response id) _ h' in
        let token : response ≡ p.token = ap (λ (x : Proof). x.token) (ok-injective made) in
        rw (← token, checked) refl
  ]

  -- A proof that `Stamp` returns for a checkpoint id verifies for exactly that id, whatever the
  -- authority has answered.
  pub verify-stamp :
      (authority : Authority) (n : Notary) (id : Bytes) (p : Proof)
      → stamp library authority n id ≡ ok p
      → (other : Bytes) → (verify library p other ≡ ok tt) ↔ (id ≡ other)
  unfolding stamp
  verify-stamp authority n id p h other =
      let (der, _, h1) = and_then-ok (library.marshal_request id) _ h in
      let ((status, read), _, h2) = and_then-ok (authority.do_post n.url der) _ h1 in
      let (response, _, kept) = and_then-ok read _ h2 in
      let good = keep-ok n id status response p kept in
      (verify-injective p id other good, λ same. ap (verify library p) (sym same) ∙ good)

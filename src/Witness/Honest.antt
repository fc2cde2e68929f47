-- ===== src/Witness/Honest.antt =====
-- internal/witness/witness.go: notaries that accept the proofs that they make.
use multi_log.Prelude.{◌≡◌, refl, sym, ap, Bytes, bytes_equal_refl, Bytes_eq, ok, ok-injective}
use mathlib.Core.Path.{subst}
use multi_log.Witness.{Proof, Notary, Hmac, MockNotary, mac, mock_stamp, mock_verify, mock_notary}

-- What the verifier relies on: a proof carries the notary's name, and the notary accepts it for the id
-- that it stamped.
pub record IsHonest (nt : Notary) : Type 0 where
  pub signed : (id : Bytes) (p : Proof) → nt.stamp id ≡ ok p → p.notary ≡ nt.name
  pub accepted : (id : Bytes) (p : Proof) → nt.stamp id ≡ ok p → nt.verify p id ≡ ok tt

pub mock_notary-IsHonest : ⦃h : Hmac⦄ (n : MockNotary) → IsHonest (mock_notary n)
unfolding mock_stamp mock_verify
mock_notary-IsHonest n = record {
  signed = λ id p made. ap (λ (q : Proof). q.notary) (sym (ok-injective made));
  accepted = λ id p made.
      subst (λ (q : Proof). mock_verify n q id ≡ ok tt) (ok-injective made)
        (rw (bytes_equal_refl (mac n id)) refl);
}

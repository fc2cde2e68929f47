-- ===== src/OpenTimestamps/Parsed.antt =====
-- What a proof tree that was read must look like.
use multi_log.Prelude.{
  ℕ, ◌^◌, ◌≤◌, ◌≡◌, refl, ap, arith, Bool-cases, inl, inr, [], Bytes, bytes_equal, length,
}
use mathlib.Core.Path.{subst}
use multi_log.OpenTimestamps.Reading.{Read, got, failed, crashed, pass, read_n, varuint, varbytes}
use multi_log.OpenTimestamps.{
  tag_pending, tag_bitcoin, Op, has_arg, is_digest, deserialize_op, Attestation, is_pending,
  is_bitcoin, attestation_body, from_body, deserialize_body, deserialize_attestation,
}
use multi_log.OpenTimestamps.Bounds.{
  >>=-got, read_n-got, varuint-got, varbytes-got, length-write_varuint, length-write_varbytes,
}
use multi_log.OpenTimestamps.Branches.{IsOp, IsAttestation}

-- The bound on the input: a calendar's answer is cut at 2 ^ 20 bytes.
abbrev pub IsShort : Bytes → Type 0
IsShort b = length b ≤ 2 ^ 40

pub deserialize_op-got :
    (tag : ℕ) (b : Bytes) (o : Op) (rest : Bytes)
    → deserialize_op tag b ≡ got o rest
    → IsOp o × (length rest ≤ length b)
unfolding deserialize_op
deserialize_op-got tag b o rest h = elim (Bool-cases (has_arg tag)) [
  | inl with_arg ↦
      let h' = rw (with_arg, deserialize_op) at h in
      let (arg, left, read, made) =
        >>=-got varbytes (λ x. pass (record { tag = tag; arg = x })) b h' in
      let (small, fewer) = varbytes-got b arg left read in
      let same : (record { tag = tag; arg = arg }) ≡ o = cc in
      let behind : left ≡ rest = cc in
      (subst IsOp same (inl (with_arg, small)), omega (arith, ap (length {A = ℕ}) behind))
  | inr without ↦ elim (Bool-cases (is_digest tag)) [
    | inl digest ↦
        let h' = rw (without, digest, deserialize_op) at h in
        let same : (record { tag = tag; arg = [] }) ≡ o = cc in
        let behind : b ≡ rest = cc in
        (subst IsOp same (inr (without, digest, refl)), omega (arith, ap (length {A = ℕ}) behind))
    | inr unknown ↦ let h' = rw (without, unknown, deserialize_op) at h in cc
  ]
]

from_body-got {ℓ} :
    {A : Type ℓ} (m : Read A) (b : Bytes) (x : A) (rest : Bytes)
    → from_body m b ≡ got x rest
    → (left : Bytes) × (m ≡ got x left) × (b ≡ rest)
from_body-got (got y left) b x rest h = (left, cc, cc)
from_body-got (failed e) b x rest h = cc
from_body-got crashed b x rest h = cc

-- The attestation that a body of a certain size gives.
deserialize_body-got :
    (tag body b : Bytes) (a : Attestation) (rest : Bytes)
    → length tag ≡ 8
    → IsShort body
    → deserialize_body tag body b ≡ got a rest
    → IsAttestation a × (b ≡ rest)
unfolding deserialize_body attestation_body is_pending is_bitcoin
deserialize_body-got tag body b a rest eight short h =
    elim (Bool-cases (bytes_equal tag tag_pending)) [
      | inl pending ↦
          let h' = rw (pending, deserialize_body) at h in
          let (uri, left, read, made) =
            >>=-got (from_body (varbytes body))
              (λ u. pass (record { tag = tag; uri = u; height = 0; raw = [] })) b h' in
          let (left', found, at) = from_body-got (varbytes body) b uri left read in
          let (small, fewer) = varbytes-got body uri left' found in
          let same : (record { tag = tag; uri = uri; height = 0; raw = [] }) ≡ a = cc in
          (
            subst IsAttestation same (
              eight,
              rw pending (omega (arith, length-write_varbytes uri)),
              inl (pending, small, refl, refl),
            ),
            cc,
          )
      | inr other ↦ elim (Bool-cases (bytes_equal tag tag_bitcoin)) [
        | inl bitcoin ↦
            let h' = rw (other, bitcoin, deserialize_body) at h in
            let (n, left, read, made) =
              >>=-got (from_body (varuint body))
                (λ x. pass (record { tag = tag; uri = []; height = x; raw = [] })) b h' in
            let (left', found, at) = from_body-got (varuint body) b n left read in
            let (fits, _) = varuint-got body n left' found in
            let same : (record { tag = tag; uri = []; height = n; raw = [] }) ≡ a = cc in
            (
              subst IsAttestation same (
                eight,
                rw (other, bitcoin) (omega (arith, length-write_varuint n)),
                inr (inl (other, bitcoin, fits, refl, refl)),
              ),
              cc,
            )
        | inr unknown ↦
            let h' = rw (other, unknown, deserialize_body) at h in
            let same : (record { tag = tag; uri = []; height = 0; raw = body }) ≡ a = cc in
            (
              subst IsAttestation same (
                eight,
                rw (other, unknown) (omega arith),
                inr (inr (other, unknown, refl, refl)),
              ),
              cc,
            )
      ]
    ]

pub deserialize_attestation-got :
    (b : Bytes) (a : Attestation) (rest : Bytes)
    → IsShort b
    → deserialize_attestation b ≡ got a rest
    → IsAttestation a × (length rest ≤ length b)
unfolding deserialize_attestation
deserialize_attestation-got b a rest short h =
    let (tag, left, tagged, h1) = >>=-got (read_n 8) _ b h in
    let (eight, _, fewer) = read_n-got 8 b tag left tagged in
    let (body, left', read, h2) = >>=-got varbytes _ left h1 in
    let (_, fewer') = varbytes-got left body left' read in
    let (well, behind) = deserialize_body-got tag body left' a rest eight (omega arith) h2 in
    (well, omega (arith, ap (length {A = ℕ}) behind))

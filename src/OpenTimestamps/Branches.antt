-- ===== src/OpenTimestamps/Branches.antt =====
-- Reading back operations and attestations.
use multi_log.Prelude.{
  ◌≤◌, ◌≡◌, refl, sym, ◌∙◌, ap, arith, true, false, ◌⊎◌, inl, inr, [], ◌∷◌, ◌++◌, append-nil,
  append_assoc, if◌then◌else◌, Bytes, IsU64, length,
}
use mathlib.Core.Path.{subst}
use multi_log.OpenTimestamps.Reading.{got, varuint, varbytes, read_n, max_bytes}
use multi_log.OpenTimestamps.{
  write_varuint, write_varbytes, Op, has_arg, is_digest, serialize_op, deserialize_op, Attestation,
  is_pending, is_bitcoin, attestation_body, serialize_attestation, deserialize_body,
  deserialize_attestation,
}
use multi_log.OpenTimestamps.Varuint.{varuint-write_varuint, read_n-append, varbytes-write_varbytes}

-- The operations that the format has: append and prepend with an argument, the digests without.
abbrev pub IsOp : Op → Type 0
IsOp o =
    ((has_arg o.tag ≡ true) × (length o.arg ≤ max_bytes))
    ⊎ ((has_arg o.tag ≡ false) × (is_digest o.tag ≡ true) × (o.arg ≡ []))

-- What `serialize` writes behind the tag.
abbrev pub arg_bytes : Op → Bytes
arg_bytes o = if has_arg o.tag then write_varbytes o.arg else []

-- Reading an operation behind its tag gives it back.
pub deserialize_op-serialize_op :
    (o : Op) (rest : Bytes)
    → IsOp o
    → (serialize_op o ≡ o.tag ∷ arg_bytes o)
      × (deserialize_op o.tag (arg_bytes o ++ rest) ≡ got o rest)
unfolding serialize_op deserialize_op
deserialize_op-serialize_op o rest (inl (with_arg, small)) =
    (refl, rw (with_arg, deserialize_op, varbytes-write_varbytes o.arg rest small) refl)
deserialize_op-serialize_op o rest (inr (without, digest, none)) =
    (refl, rw (without, deserialize_op, digest) (let same = sym none in cc))

-- The attestations that reading can return: a pending one has an address alone, one of Bitcoin a
-- height alone, any other its raw body alone.
abbrev pub HasShape : Attestation → Type 0
HasShape a =
    ((is_pending a ≡ true) × (length a.uri ≤ max_bytes) × (a.height ≡ 0) × (a.raw ≡ []))
    ⊎ ((is_pending a ≡ false)
        × (is_bitcoin a ≡ true)
        × IsU64 a.height
        × (a.uri ≡ [])
        × (a.raw ≡ []))
    ⊎ ((is_pending a ≡ false) × (is_bitcoin a ≡ false) × (a.height ≡ 0) × (a.uri ≡ []))

abbrev pub IsAttestation : Attestation → Type 0
IsAttestation a = (length a.tag ≡ 8) × (length (attestation_body a) ≤ max_bytes) × HasShape a

-- What the body is, and that reading it gives the attestation back.
abbrev ReadsBody : Attestation → Bytes → Bytes → Type 0
ReadsBody a body rest =
    (attestation_body a ≡ body) × (deserialize_body a.tag body rest ≡ got a rest)

body_pending :
    (a : Attestation) (rest : Bytes)
    → is_pending a ≡ true
    → length a.uri ≤ max_bytes
    → a.height ≡ 0
    → a.raw ≡ []
    → ReadsBody a (write_varbytes a.uri) rest
unfolding deserialize_body attestation_body is_pending is_bitcoin
body_pending a rest pending small no_height no_raw =
    let read =
      ap varbytes (sym (append-nil (write_varbytes a.uri)))
      ∙ varbytes-write_varbytes a.uri [] small in
    (
      rw pending refl,
      rw (pending, deserialize_body, read) (let h = sym no_height in let r = sym no_raw in cc),
    )

body_bitcoin :
    (a : Attestation) (rest : Bytes)
    → is_pending a ≡ false
    → is_bitcoin a ≡ true
    → IsU64 a.height
    → a.uri ≡ []
    → a.raw ≡ []
    → ReadsBody a (write_varuint a.height) rest
unfolding deserialize_body attestation_body is_pending is_bitcoin
body_bitcoin a rest other bitcoin fits no_uri no_raw =
    let read =
      ap varuint (sym (append-nil (write_varuint a.height)))
      ∙ varuint-write_varuint a.height [] fits in
    (
      rw (other, bitcoin) refl,
      rw (other, bitcoin, deserialize_body, read) (let h = sym no_uri in let r = sym no_raw in cc),
    )

body_unknown :
    (a : Attestation) (rest : Bytes)
    → is_pending a ≡ false
    → is_bitcoin a ≡ false
    → a.height ≡ 0
    → a.uri ≡ []
    → ReadsBody a a.raw rest
unfolding deserialize_body attestation_body is_pending is_bitcoin
body_unknown a rest other unknown no_height no_uri = (
  rw (other, unknown) refl,
  rw (other, unknown, deserialize_body) (let h = sym no_height in let r = sym no_uri in cc),
)

deserialize_body-attestation_body :
    (a : Attestation) (rest : Bytes)
    → HasShape a
    → deserialize_body a.tag (attestation_body a) rest ≡ got a rest
deserialize_body-attestation_body a rest (inl (pending, small, no_height, no_raw)) =
    let (body, read) = body_pending a rest pending small no_height no_raw in rw body read
deserialize_body-attestation_body a rest (inr (inl (other, bitcoin, fits, no_uri, no_raw))) =
    let (body, read) = body_bitcoin a rest other bitcoin fits no_uri no_raw in rw body read
deserialize_body-attestation_body a rest (inr (inr (other, unknown, no_height, no_uri))) =
    let (body, read) = body_unknown a rest other unknown no_height no_uri in rw body read

-- Reading a written attestation gives it back, and leaves what follows.
pub deserialize_attestation-serialize_attestation :
    (a : Attestation) (rest : Bytes)
    → IsAttestation a
    → deserialize_attestation (serialize_attestation a ++ rest) ≡ got a rest
unfolding deserialize_attestation serialize_attestation
deserialize_attestation-serialize_attestation a rest (eight, small, shape) =
    let more : Bytes = write_varbytes (attestation_body a) ++ rest in
    let tag_read : read_n 8 (a.tag ++ more) ≡ got a.tag more =
      subst (λ n. read_n n (a.tag ++ more) ≡ got a.tag more) eight
        (read_n-append a.tag more (omega (arith, eight))) in
    rw
      (
        append_assoc a.tag (write_varbytes (attestation_body a)) rest,
        tag_read,
        varbytes-write_varbytes (attestation_body a) rest small,
      )
      (deserialize_body-attestation_body a rest shape)

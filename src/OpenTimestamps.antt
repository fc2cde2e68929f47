-- ===== src/OpenTimestamps.antt =====
-- internal/witness/opentimestamps/wire.go: the wire format of OpenTimestamps proofs.
-- A buffer that is written is the list of bytes that a call appends. A byte `b` is below 256, so
-- `b & 0x7f` is `b % 128`, and bits that are set apart from each other add up.
pub mod Reading
pub mod Varuint
pub mod Bounds
pub mod Branches
pub mod Tree
pub mod Steps
pub mod Parsed
pub mod Grown
pub mod Calendar
pub mod Stamped
pub mod RoundTrip
pub mod Notary
pub mod Accepted
use multi_log.Prelude.{
  ℕ, zero, suc, ◌+◌, ◌*◌, ◌/◌, ◌%◌, ◌^◌, Bool, true, false, not, ◌||◌, ltb, ◌==◌, if◌then◌else◌,
  List, [], ◌∷◌, ◌++◌, Bytes, codes, bytes_equal, length, text,
}
use multi_log.Crypto.{Sha256}
use multi_log.OpenTimestamps.Reading.{
  Read, got, failed, Reader, pass, refuse, ◌>>=◌, read_byte, read_n, varuint, varbytes,
}

-- Operation tags.
abbrev pub op_append : ℕ
op_append = 0xf0

abbrev pub op_prepend : ℕ
op_prepend = 0xf1

abbrev pub op_sha1 : ℕ
op_sha1 = 0x02

abbrev pub op_ripemd160 : ℕ
op_ripemd160 = 0x03

abbrev pub op_sha256 : ℕ
op_sha256 = 0x08

abbrev pub tag_pending : Bytes
tag_pending = 0x83 ∷ 0xdf ∷ 0xe3 ∷ 0x0d ∷ 0x2e ∷ 0xf9 ∷ 0x0c ∷ 0x8e ∷ []

abbrev pub tag_bitcoin : Bytes
tag_bitcoin = 0x05 ∷ 0x88 ∷ 0x96 ∷ 0x0d ∷ 0x73 ∷ 0xd7 ∷ 0x19 ∷ 0x01 ∷ []

abbrev pub header_magic : Bytes
header_magic =
    (0 ∷ codes "OpenTimestamps")
    ++ (0 ∷ 0 ∷ codes "Proof")
    ++ 0 ∷ 0xbf ∷ 0x89 ∷ 0xe2 ∷ 0xe8 ∷ 0x84 ∷ 0xe8 ∷ 0x92 ∷ 0x94 ∷ []

-- `for n >= 0x80`, with as many rounds as a uint64 can need.
unfoldable pub write_varuint_loop : ℕ → ℕ → Bytes
write_varuint_loop zero n = n % 256 ∷ []
write_varuint_loop (suc rounds) n =
    let rest = write_varuint_loop rounds (n / 128) in
    if ltb n 0x80 then n % 256 ∷ [] else (n % 128 + 0x80) ∷ rest

unfoldable pub write_varuint : ℕ → Bytes
unfolding write_varuint_loop
write_varuint n = write_varuint_loop 9 n

unfoldable pub write_varbytes : Bytes → Bytes
write_varbytes b = write_varuint (length b % 2 ^ 64) ++ b

-- The tag of an operation, and the argument of append and prepend.
pub record Op : Type 0 where
  pub tag : ℕ
  pub arg : Bytes

abbrev pub has_arg : ℕ → Bool
has_arg tag = tag == op_append || tag == op_prepend

abbrev pub is_digest : ℕ → Bool
is_digest tag = tag == op_sha1 || (tag == op_ripemd160 || tag == op_sha256)

-- crypto/sha1 and golang.org/x/crypto/ripemd160
pub record Digests : Type 0 where
  pub sha1_sum : Bytes → Bytes
  pub ripemd160_sum : Bytes → Bytes

module _ ⦃sha : Sha256⦄ ⦃d : Digests⦄ where
  unfoldable pub apply : Op → Bytes → Bytes
  apply o msg =
      if o.tag == op_append
      then msg ++ o.arg
      else if o.tag == op_prepend
      then o.arg ++ msg
      else if o.tag == op_sha256
      then sha.sum256 msg
      else if o.tag == op_sha1
      then d.sha1_sum msg
      else if o.tag == op_ripemd160
      then d.ripemd160_sum msg
      else msg

unfoldable pub serialize_op : Op → Bytes
serialize_op o = o.tag ∷ (if has_arg o.tag then write_varbytes o.arg else [])

unfoldable pub deserialize_op : ℕ → Reader Op
deserialize_op tag = elim (has_arg tag) [
  | true ↦ varbytes >>= (λ arg. pass (record { tag = tag; arg = arg }))
  | false ↦
      if is_digest tag
      then pass (record { tag = tag; arg = [] })
      else refuse (text (codes "opentimestamps: unsupported op tag"))
]

pub record Attestation : Type 0 where
  pub tag : Bytes
  pub uri : Bytes
  pub height : ℕ
  pub raw : Bytes

unfoldable pub is_pending : Attestation → Bool
is_pending a = bytes_equal a.tag tag_pending

unfoldable pub is_bitcoin : Attestation → Bool
is_bitcoin a = bytes_equal a.tag tag_bitcoin

unfoldable pub attestation_body : Attestation → Bytes
unfolding is_pending is_bitcoin
attestation_body a =
    if is_pending a
    then write_varbytes a.uri
    else if is_bitcoin a
    then write_varuint a.height
    else a.raw

unfoldable pub serialize_attestation : Attestation → Bytes
serialize_attestation a = a.tag ++ write_varbytes (attestation_body a)

-- A value that a second reader, over the attestation's body, found: what that reader leaves is
-- dropped.
abbrev pub from_body {ℓ} : {A : Type ℓ} → Read A → Reader A
from_body (got a rest) = pass a
from_body (failed e) = refuse e
from_body Read.crashed = λ _. Read.crashed

unfoldable pub deserialize_body : Bytes → Bytes → Reader Attestation
deserialize_body tag body = elim (bytes_equal tag tag_pending) [
  | true ↦
      from_body (varbytes body)
      >>= (λ uri. pass (record { tag = tag; uri = uri; height = 0; raw = [] }))
  | false ↦ elim (bytes_equal tag tag_bitcoin) [
    | true ↦
        from_body (varuint body)
        >>= (λ h. pass (record { tag = tag; uri = []; height = h; raw = [] }))
    | false ↦ pass (record { tag = tag; uri = []; height = 0; raw = body })
  ]
]

unfoldable pub deserialize_attestation : Reader Attestation
unfolding deserialize_body
deserialize_attestation = do tag ← read_n 8; body ← varbytes; deserialize_body tag body

-- A node of the proof tree, with its attestations and its edges to other nodes.
mutual
  pub data Timestamp : Type 0 where
    node : Bytes → List Attestation → Edges → Timestamp

  pub data Edges : Type 0 where
    no_edges : Edges
    edge : Op → Timestamp → Edges → Edges

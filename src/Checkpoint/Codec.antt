-- ===== src/Checkpoint/Codec.antt =====
-- internal/checkpoint/codec.go: the document that is stored for a checkpoint. encoding/json is a
-- parameter.
use multi_log.Prelude.{
  and_then, ℕ, ◌≡◌, refl, [], ◌∷◌, Option, none, some, Bytes, codes, ℤ, All, IsByte,
  encode_to_string, decode_string, decode_string-encode_to_string, Result, ok, err, text,
}
use multi_log.Checkpoint.{Checkpoint}

pub record WireCheckpoint : Type 0 where
  pub tenant_id : Bytes
  pub seq_start : ℕ
  pub seq_end : ℕ
  pub entry_count : ℕ
  pub head_hash : Bytes
  pub merkle_root : Bytes
  pub prev_checkpoint_hash : Bytes
  pub anchored_at : ℤ
  pub canon_version : ℕ
  pub checkpoint_id : Bytes

-- json.MarshalIndent and json.Unmarshal at the wire type.
pub record Json : Type 0 where
  pub marshal_indent : WireCheckpoint → Result Bytes
  pub unmarshal_wire : Bytes → Result WireCheckpoint

unfoldable pub to_wire : Checkpoint → WireCheckpoint
to_wire cp = record {
  tenant_id = cp.tenant_id;
  seq_start = cp.seq_start;
  seq_end = cp.seq_end;
  entry_count = cp.entry_count;
  head_hash = encode_to_string cp.head_hash;
  merkle_root = encode_to_string cp.merkle_root;
  prev_checkpoint_hash = encode_to_string cp.prev_checkpoint_hash;
  anchored_at = cp.anchored_at;
  canon_version = cp.canon_version;
  checkpoint_id = encode_to_string cp.checkpoint_id;
}

abbrev pub or_hex_error : Option Bytes → Result Bytes
or_hex_error none = err (text (codes "encoding/hex"))
or_hex_error (some b) = ok b

-- The closure `dec`.
unfoldable pub dec : Bytes → Result Bytes
dec s = elim s [ [] ↦ ok [] | ◌∷◌ c cs ↦ or_hex_error (decode_string (c ∷ cs)) ]

unfoldable pub of_wire : WireCheckpoint → Result Checkpoint
unfolding dec
of_wire w = and_then (dec w.head_hash) (λ head. and_then (dec w.merkle_root) (λ root.
    and_then (dec w.prev_checkpoint_hash) (λ prev. and_then (dec w.checkpoint_id) (λ id.
      ok (record {
        tenant_id = w.tenant_id;
        seq_start = w.seq_start;
        seq_end = w.seq_end;
        entry_count = w.entry_count;
        head_hash = head;
        merkle_root = root;
        prev_checkpoint_hash = prev;
        anchored_at = w.anchored_at;
        canon_version = w.canon_version;
        checkpoint_id = id;
      })))))

module _ (json : Json) where
  unfoldable pub marshal : Checkpoint → Result Bytes
  unfolding to_wire
  marshal cp = json.marshal_indent (to_wire cp)

  unfoldable pub unmarshal : Bytes → Result Checkpoint
  unfolding of_wire
  unmarshal b = and_then (json.unmarshal_wire b) of_wire

dec-encode_to_string : (b : Bytes) → All IsByte b → dec (encode_to_string b) ≡ ok b
unfolding dec encode_to_string
dec-encode_to_string [] bytes = refl
dec-encode_to_string (x ∷ b) bytes = rw (decode_string-encode_to_string (x ∷ b) bytes) refl

-- A checkpoint whose four hashes are byte strings is read back from its document as it was, where the
-- JSON library reads this one wire value back from what it wrote.
pub unmarshal-marshal :
    (json : Json) (cp : Checkpoint) (document : Bytes)
    → All IsByte cp.head_hash
    → All IsByte cp.merkle_root
    → All IsByte cp.prev_checkpoint_hash
    → All IsByte cp.checkpoint_id
    → marshal json cp ≡ ok document
    → (json.marshal_indent (to_wire cp) ≡ ok document
        → json.unmarshal_wire document ≡ ok (to_wire cp))
    → unmarshal json document ≡ ok cp
unfolding unmarshal marshal of_wire to_wire
unmarshal-marshal json cp document head root prev id written reads =
    rw
      (
        reads written,
        dec-encode_to_string cp.head_hash head,
        dec-encode_to_string cp.merkle_root root,
        dec-encode_to_string cp.prev_checkpoint_hash prev,
        dec-encode_to_string cp.checkpoint_id id,
      )
      refl

-- ===== src/Runs/Calendars.antt =====
-- A run of stamping over two calendars, one of which is down.
use multi_log.Prelude.{
  ◌≡◌, refl, none, [], ◌∷◌, ◌++◌, Bytes, codes, Result, ok, err, text, done, bytes_equal,
  if◌then◌else◌,
}
use multi_log.Witness.{Proof}
use multi_log.OpenTimestamps.Reading.{read_byte, read_n, varuint_loop, varuint, varbytes}
use multi_log.OpenTimestamps.{
  op_sha256, tag_pending, Digests, deserialize_body, deserialize_attestation, Attestation, node,
  no_edges,
}
use multi_log.OpenTimestamps.Tree.{one, deserialize_rest, deserialize_timestamp, serialize_file}
use multi_log.OpenTimestamps.Notary.{verify_token}
use multi_log.OpenTimestamps.Calendar.{
  Answer, Client, Notary, submit, submit_all, stamped_tree, stamp,
}
use multi_log.OpenTimestamps.Stamped.{verify_token-stamp}
use multi_log.Runs.Toy.{toy}

instance abbrev others : Digests
others = record { sha1_sum = λ b. []; ripemd160_sum = λ b. [] }

-- One calendar is down; the other promises an attestation at the address "a".
abbrev answer_at : Bytes → Result Answer
answer_at url =
    if bytes_equal url (codes "down/digest")
    then err (text (codes "down"))
    else ok
        (record { status = 200; body = 0 ∷ (tag_pending ++ 2 ∷ 1 ∷ 97 ∷ []); read_error = none })

abbrev http : Client
http = record { exchange = λ method url body. answer_at url }

abbrev calendars : Notary
calendars = record { name = codes "ots"; calendars = codes "down" ∷ codes "up" ∷ [] }

abbrev nonce : Bytes
nonce = codes "0123456789abcdef"

abbrev id : Bytes
id = codes "0123456789abcdef0123456789abcdef"

abbrev promise : Attestation
promise = record { tag = tag_pending; uri = 97 ∷ []; height = 0; raw = [] }

abbrev proof : Proof
proof = record {
  notary = codes "ots";
  format = codes "opentimestamps";
  token = serialize_file (record {
    file_hash_op = op_sha256;
    ts = stamped_tree http id nonce (node (toy.sum256 (id ++ nonce)) (promise ∷ []) no_edges);
  });
}

stamps : stamp http calendars (ok nonce) id ≡ done (ok proof)
unfolding stamp submit_all submit deserialize_timestamp deserialize_rest one deserialize_attestation
    deserialize_body read_byte read_n varuint varuint_loop varbytes
stamps = refl

verify_token-stamp_example : verify_token proof id ≡ done (ok tt)
verify_token-stamp_example = verify_token-stamp http calendars nonce id proof refl refl stamps

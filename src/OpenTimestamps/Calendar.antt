-- ===== src/OpenTimestamps/Calendar.antt =====
-- internal/witness/opentimestamps/calendar.go, and the requests of notary.go: stamping over calendars,
-- and the Merkle root of a block. The HTTP client is what its servers answer during a call.
use multi_log.Prelude.{
  ℕ, ◌^◌, ◌==◌, not, Bool, true, false, if◌then◌else◌, List, [], ◌∷◌, ◌++◌, Option, none, some,
  Bytes, codes, take, encode_to_string, decode_string, trim_space, status_ok, Error, text, Result,
  ok, err, and_then, Run, done, panicked, looping,
}
use multi_log.Crypto.{Sha256}
use multi_log.Witness.{Proof, decimal}
use multi_log.OpenTimestamps.{op_append, op_sha256, Digests, Timestamp, node, no_edges, edge}
use multi_log.OpenTimestamps.Tree.{deserialize_timestamp, serialize_file}
use multi_log.OpenTimestamps.Steps.{append_edges}
use multi_log.OpenTimestamps.Notary.{finish, on_ok}

-- An answer: `read_error` is an error of the body's reader before the limit.
pub record Answer : Type 0 where
  pub status : ℕ
  pub body : Bytes
  pub read_error : Option Error

-- By method, address and body.
pub record Client : Type 0 where
  pub exchange : Bytes → Bytes → Bytes → Result Answer

pub record Notary : Type 0 where
  pub name : Bytes
  pub calendars : List Bytes

abbrev pub default_calendars : List Bytes
default_calendars =
    codes "https://alice.btc.calendar.opentimestamps.org"
    ∷ codes "https://bob.btc.calendar.opentimestamps.org"
    ∷ codes "https://finney.calendar.opentimestamps.org"
    ∷ []

abbrev pub or_default : List Bytes → List Bytes
or_default [] = default_calendars
or_default (url ∷ urls) = url ∷ urls

abbrev pub new : Bytes → List Bytes → Notary
new name calendars = record { name = name; calendars = or_default calendars }

-- The body as far as the limit, and then the status.
abbrev pub body_within : ℕ → Answer → Result Bytes
body_within limit a = elim a.read_error [
  | some e ↦ err e
  | none ↦
      if not (a.status == status_ok)
      then err (text (codes "opentimestamps: status"))
      else ok (take limit a.body)
]

abbrev pub do_request : Result Answer → Result Bytes
do_request answer = and_then answer (body_within (2 ^ 20))

module _ ⦃sha : Sha256⦄ ⦃d : Digests⦄ (http : Client) where
  unfoldable pub submit : Bytes → Bytes → Run (Result Timestamp)
  submit url digest =
      on_ok (done (do_request (http.exchange (codes "POST") (url ++ codes "/digest") digest)))
        (λ body. finish (deserialize_timestamp digest body))

  unfoldable pub upgrade : Bytes → Bytes → Run (Result Timestamp)
  upgrade url commitment =
      on_ok
        (done (
          do_request (
            http.exchange (codes "GET")
              (url ++ (codes "/timestamp/" ++ encode_to_string commitment)) [])))
        (λ body. finish (deserialize_timestamp commitment body))

  abbrev pub merge : Timestamp → Timestamp → Timestamp
  merge (node msg atts ops) (node _ more_atts more_ops) =
      node msg (atts ++ more_atts) (append_edges ops more_ops)

  -- The loop over the calendars: the node so far, and whether one has answered.
  unfoldable pub submit_all : Bytes → List Bytes → Timestamp → Bool → Run (Timestamp × Bool)
  unfolding submit
  submit_all submitted [] t reached = done (t, reached)
  submit_all submitted (url ∷ urls) t reached = elim (submit url submitted) [
    | panicked ↦ panicked
    | looping ↦ looping
    | done answer ↦ elim answer [
      | err e ↦ submit_all submitted urls t reached
      | ok c ↦ submit_all submitted urls (merge t c) true
    ]
  ]

  -- From the id by the nonce and SHA-256 to what was submitted.
  abbrev pub stamped_tree : Bytes → Bytes → Timestamp → Timestamp
  stamped_tree checkpoint_id nonce t =
      let hashed =
        node (checkpoint_id ++ nonce) [] (edge (record { tag = op_sha256; arg = [] }) t no_edges) in
      node checkpoint_id [] (edge (record { tag = op_append; arg = nonce }) hashed no_edges)

  abbrev pub proof_of : Notary → Bytes → Bytes → Run (Timestamp × Bool) → Run (Result Proof)
  proof_of n checkpoint_id nonce panicked = panicked
  proof_of n checkpoint_id nonce looping = looping
  proof_of n checkpoint_id nonce (done (t, false)) =
      done (err (text (codes "opentimestamps: no calendar reachable")))
  proof_of n checkpoint_id nonce (done (t, true)) = done (
      ok (record {
        notary = n.name;
        format = codes "opentimestamps";
        token =
            serialize_file
              (record { file_hash_op = op_sha256; ts = stamped_tree checkpoint_id nonce t });
      }))

  -- `random` is what `rand.Read` gives for 16 bytes.
  unfoldable pub stamp : Notary → Result Bytes → Bytes → Run (Result Proof)
  unfolding submit_all
  stamp n random checkpoint_id = on_ok (done random) (λ nonce.
      let submitted = sha.sum256 (checkpoint_id ++ nonce) in
      proof_of n checkpoint_id nonce
        (submit_all submitted n.calendars (node submitted [] no_edges) false))

unfoldable pub reverse_bytes : Bytes → Bytes
reverse_bytes [] = []
reverse_bytes (b ∷ bs) = reverse_bytes bs ++ b ∷ []

abbrev hex_bytes : Option Bytes → Result Bytes
hex_bytes none = err (text (codes "encoding/hex"))
hex_bytes (some b) = ok b

-- `merkle_root_of` is package json at the one field that is read of a block.
module _ (http : Client) (merkle_root_of : Bytes → Result Bytes) where
  unfoldable pub esplora_get : Bytes → Result Bytes
  esplora_get url = and_then (http.exchange (codes "GET") url []) (body_within (2 ^ 16))

  unfoldable pub bitcoin_merkle_root : ℕ → Result Bytes
  unfolding esplora_get reverse_bytes
  bitcoin_merkle_root height =
      and_then (esplora_get (codes "https://blockstream.info/api/block-height/" ++ decimal height))
        (λ hash.
          and_then (esplora_get (codes "https://blockstream.info/api/block/" ++ trim_space hash))
            (λ body. and_then (merkle_root_of body) (λ hex.
              and_then (hex_bytes (decode_string hex)) (λ shown. ok (reverse_bytes shown)))))

-- ===== src/Anchorstore.antt =====
-- internal/anchorstore/anchorstore.go: the working copy of checkpoints, and the proofs. PostgreSQL is an
-- interface over its state, with one operation for each statement that is sent.
pub mod Ledger
use multi_log.Prelude.{
  each_ok, ℕ, Bool, List, [], ◌∷◌, Option, none, some, Bytes, codes, ℤ, encode_to_string,
  decode_string, text, Result, ok, err, and_then,
}
use multi_log.Checkpoint.{Checkpoint}
use multi_log.Checkpoint.Codec.{Json, marshal}
use multi_log.Witness.{Proof, ProofLedger, add_proof}

pub record CheckpointRow : Type 0 where
  pub tenant_id : Bytes
  pub seq_start : ℕ
  pub seq_end : ℕ
  pub entry_count : ℕ
  pub checkpoint_id : Bytes
  pub anchored_at : ℤ
  pub document : Bytes
  pub worm_stored : Bool

-- `none` stands for pgx.ErrNoRows.
pub record Tables : Type 1 where
  pub State : Type 0
  -- SELECT seq_end, checkpoint_id FROM checkpoints WHERE tenant_id = ... ORDER BY seq_end DESC LIMIT 1
  pub select_last : Bytes → State → Result (Option (ℕ × Bytes))
  -- INSERT INTO checkpoints ... ON CONFLICT (tenant_id, seq_end) DO NOTHING
  pub insert_checkpoint : CheckpointRow → State → Result (Unit {0}) × State
  -- INSERT INTO checkpoint_proofs ... ON CONFLICT (tenant_id, seq_end, notary) DO NOTHING
  pub insert_proof : Bytes → ℕ → Proof → State → Result (Unit {0}) × State
  -- SELECT seq_end, notary, format, token FROM checkpoint_proofs WHERE tenant_id = ...
  pub select_proofs : Bytes → State → Result (List (ℕ × Proof))
  -- Any other statement.
  pub exec : Bytes → State → Result (Unit {0}) × State

-- The statements of `InitSchema`.
abbrev pub schema : List Bytes
schema =
    codes
      "CREATE TABLE IF NOT EXISTS checkpoints (\n\t\t\ttenant_id     text   NOT NULL,\n\t\t\tseq_start     bigint NOT NULL,\n\t\t\tseq_end       bigint NOT NULL,\n\t\t\tentry_count   bigint NOT NULL,\n\t\t\tcheckpoint_id text   NOT NULL,\n\t\t\tanchored_at   bigint NOT NULL,\n\t\t\tdocument      jsonb  NOT NULL,\n\t\t\tworm_stored   boolean NOT NULL DEFAULT false,\n\t\t\tcreated_at    timestamptz NOT NULL DEFAULT now(),\n\t\t\tPRIMARY KEY (tenant_id, seq_end)\n\t\t)"
    ∷ codes
        "CREATE TABLE IF NOT EXISTS checkpoint_proofs (\n\t\t\ttenant_id  text  NOT NULL,\n\t\t\tseq_end    bigint NOT NULL,\n\t\t\tnotary     text  NOT NULL,\n\t\t\tformat     text  NOT NULL,\n\t\t\ttoken      bytea NOT NULL,\n\t\t\tcreated_at timestamptz NOT NULL DEFAULT now(),\n\t\t\tPRIMARY KEY (tenant_id, seq_end, notary)\n\t\t)"
    ∷ []

unfoldable pub init_schema : (tables : Tables) → tables.State → Result (Unit {0}) × tables.State
init_schema tables s = each_ok tables.exec schema s

abbrev hex_bytes : Option Bytes → Result Bytes
hex_bytes none = err (text (codes "encoding/hex"))
hex_bytes (some b) = ok b

-- What `LastCheckpoint` makes of the row that is found.
abbrev pub last_of_row : Option (ℕ × Bytes) → Result (Option (ℕ × Bytes))
last_of_row none = ok none
last_of_row (some (end, id_hex)) =
    and_then (hex_bytes (decode_string id_hex)) (λ id. ok (some (end, id)))

abbrev pub row_of : Checkpoint → Bytes → Bool → CheckpointRow
row_of cp document worm_stored = record {
  tenant_id = cp.tenant_id;
  seq_start = cp.seq_start;
  seq_end = cp.seq_end;
  entry_count = cp.entry_count;
  checkpoint_id = encode_to_string cp.checkpoint_id;
  anchored_at = cp.anchored_at;
  document = document;
  worm_stored = worm_stored;
}

-- The loop of `LoadLedger` over the rows.
unfoldable pub load_rows : Bytes → List (ℕ × Proof) → ProofLedger → ProofLedger
load_rows tenant_id [] ledger = ledger
load_rows tenant_id ((seq_end, p) ∷ rows) ledger =
    load_rows tenant_id rows (add_proof tenant_id seq_end p ledger)

module _ (tables : Tables) where
  unfoldable pub last_checkpoint : Bytes → tables.State → Result (Option (ℕ × Bytes))
  last_checkpoint tenant_id s = and_then (tables.select_last tenant_id s) last_of_row

  unfoldable pub put_checkpoint :
      Json → Checkpoint → Bool → tables.State → Result (Unit {0}) × tables.State
  put_checkpoint json cp worm_stored s = elim (marshal json cp) [
    | err e ↦ (err e, s)
    | ok document ↦ tables.insert_checkpoint (row_of cp document worm_stored) s
  ]

  unfoldable pub put_proof : Bytes → ℕ → Proof → tables.State → Result (Unit {0}) × tables.State
  put_proof tenant_id seq_end p s = tables.insert_proof tenant_id seq_end p s

  -- A ledger is returned only where all rows were read: the callers drop it otherwise.
  unfoldable pub load_ledger : Bytes → ProofLedger → tables.State → Result ProofLedger
  unfolding load_rows
  load_ledger tenant_id ledger s =
      and_then (tables.select_proofs tenant_id s) (λ rows. ok (load_rows tenant_id rows ledger))

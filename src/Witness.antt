-- ===== src/Witness.antt =====
-- internal/witness/witness.go: where checkpoints are anchored. A checkpoint store and a notary are
-- interfaces; `mem_store` and `mock_notary` implement them, S3, RFC 3161 and OpenTimestamps do so
-- with services outside the repository.
pub mod Mem
pub mod Ledger
pub mod Honest
pub mod Rising
use multi_log.Prelude.{
  ℕ, zero, suc, ◌+◌, ◌/◌, ◌%◌, ltb, leb, if◌then◌else◌, List, [], ◌∷◌, ◌++◌, Option, none, some,
  Bytes, codes, bytes_equal, Map, ℕ_eq, Bytes_eq, get, put, or_nil, immutable, not_attested, Result,
  ok, err,
}
use multi_log.Checkpoint.{Checkpoint}

-- A store of full checkpoints, over whatever state it keeps.
pub record CheckpointStore : Type 1 where
  pub State : Type 0
  pub name : Bytes
  pub put_checkpoint : Checkpoint → State → Result (Unit {0}) × State
  pub get_checkpoint : Bytes → ℕ → State → Result (Option Checkpoint)
  pub all_checkpoints : Bytes → State → Result (List Checkpoint)

pub record Proof : Type 0 where
  pub notary : Bytes
  pub format : Bytes
  pub token : Bytes

pub record Notary : Type 0 where
  pub name : Bytes
  pub stamp : Bytes → Result Proof
  pub verify : Proof → Bytes → Result (Unit {0})

-- `%d` of a uint64, which has at most 20 digits.
unfoldable pub decimal_loop : ℕ → ℕ → Bytes
decimal_loop zero n = []
decimal_loop (suc digits) n =
    let front = decimal_loop digits (n / 10) in
    let digit : Bytes = (48 + n % 10) ∷ [] in if ltb n 10 then digit else front ++ digit

unfoldable pub decimal : ℕ → Bytes
unfolding decimal_loop
decimal n = decimal_loop 20 n

unfoldable pub ledger_key : Bytes → ℕ → Bytes
unfolding decimal
ledger_key tenant_id seq_end = tenant_id ++ b'/' ∷ decimal seq_end

pub record ProofLedger : Type 0 where
  pub m : Map Bytes (List Proof)

abbrev pub new_proof_ledger : ProofLedger
new_proof_ledger = record { m = [] }

unfoldable pub add_proof : Bytes → ℕ → Proof → ProofLedger → ProofLedger
add_proof tenant_id seq_end p l =
    let k = ledger_key tenant_id seq_end in record { m = put k (or_nil (get k l.m) ++ p ∷ []) l.m }

unfoldable pub get_proofs : Bytes → ℕ → ProofLedger → List Proof
get_proofs tenant_id seq_end l = or_nil (get (ledger_key tenant_id seq_end) l.m)

pub record MemStore : Type 0 where
  pub name : Bytes
  pub records : Map Bytes (Map ℕ Checkpoint)

abbrev pub new_mem_store : Bytes → MemStore
new_mem_store name = record { name = name; records = [] }

-- A missing inner map reads as the empty one; `Put` makes it before it looks for the checkpoint.
unfoldable pub mem_put : Checkpoint → MemStore → Result (Unit {0}) × MemStore
mem_put cp s =
    let by_tenant = or_nil (get cp.tenant_id s.records) in
    elim (get cp.seq_end by_tenant) [
      | some _ ↦ (err immutable, s)
      | none ↦
          (ok tt, record s { records = put cp.tenant_id (put cp.seq_end cp by_tenant) s.records })
    ]

unfoldable pub mem_get : Bytes → ℕ → MemStore → Result (Option Checkpoint)
mem_get tenant_id seq_end s = ok (get seq_end (or_nil (get tenant_id s.records)))

unfoldable pub insert_by_end : Checkpoint → List Checkpoint → List Checkpoint
insert_by_end cp [] = cp ∷ []
insert_by_end cp (x ∷ xs) =
    if leb cp.seq_end x.seq_end then cp ∷ x ∷ xs else x ∷ insert_by_end cp xs

-- The map's values, sorted by `SeqEnd`.
unfoldable pub sorted_values : Map ℕ Checkpoint → List Checkpoint
unfolding insert_by_end
sorted_values [] = []
sorted_values ((_, cp) ∷ m) = insert_by_end cp (sorted_values m)

unfoldable pub mem_all : Bytes → MemStore → Result (List Checkpoint)
unfolding sorted_values
mem_all tenant_id s = ok (sorted_values (or_nil (get tenant_id s.records)))

abbrev pub mem_store : Bytes → CheckpointStore
mem_store name = record {
  State = MemStore;
  name = name;
  put_checkpoint = mem_put;
  get_checkpoint = mem_get;
  all_checkpoints = mem_all;
}

-- crypto/hmac over SHA-256: the code under a secret of a message.
pub record Hmac : Type 0 where
  pub mac_of : Bytes → Bytes → Bytes

pub record MockNotary : Type 0 where
  pub name : Bytes
  pub secret : Bytes

module _ ⦃h : Hmac⦄ where
  unfoldable pub mac : MockNotary → Bytes → Bytes
  mac n checkpoint_id = h.mac_of n.secret checkpoint_id

  unfoldable pub mock_stamp : MockNotary → Bytes → Result Proof
  mock_stamp n checkpoint_id =
      ok (record { notary = n.name; format = codes "mock-hmac"; token = mac n checkpoint_id })

  unfoldable pub mock_verify : MockNotary → Proof → Bytes → Result (Unit {0})
  mock_verify n p checkpoint_id =
      if bytes_equal p.token (mac n checkpoint_id) then ok tt else err (not_attested n.name)

  abbrev pub mock_notary : MockNotary → Notary
  mock_notary n = record { name = n.name; stamp = mock_stamp n; verify = mock_verify n }

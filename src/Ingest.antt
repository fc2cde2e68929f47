-- ===== src/Ingest.antt =====
-- internal/ingest/sealer.go: the persistent sealer, over the log store that it is given.
pub mod Batches
pub mod Body
pub mod Handler
pub mod Appended
pub mod Replies
pub mod Lines
pub mod Restarts
use multi_log.Prelude.{
  ℕ, ◌+◌, ◌%◌, ◌^◌, List, [], ◌∷◌, Option, none, some, Bytes, ℤ, Map, Bytes_eq, get, put, Result,
  ok, err,
}
use multi_log.Crypto.{Sha256, entry_leaf, chain_hash}
use multi_log.Chain.{Entry}

-- The interface `LogStore`, over whatever state the store keeps. `head` gives the next number and the
-- previous hash; either call may fail, and an append that fails may have changed the state.
pub record LogStore : Type 1 where
  pub State : Type 0
  pub head : Bytes → State → Result (ℕ × Bytes)
  pub append : List Entry → State → Result (Unit {0}) × State

pub record Record : Type 0 where
  pub source : Bytes
  pub raw : Bytes
  pub event_time : ℤ
  pub ingest_time : ℤ

pub record HeadState : Type 0 where
  pub next_seq : ℕ
  pub prev_hash : Bytes

module _ ⦃sha : Sha256⦄ where
  abbrev pub batch_entry : Bytes → ℕ → Bytes → Record → Entry
  batch_entry tenant_id seq prev r = record {
    tenant_id = tenant_id;
    seq = seq;
    event_time = r.event_time;
    ingest_time = r.ingest_time;
    source = r.source;
    raw = r.raw;
    prev_hash = prev;
    entry_hash =
        chain_hash prev (entry_leaf tenant_id seq r.event_time r.ingest_time r.source r.raw);
  }

  -- The loop over the records: the entries, and the head behind the last.
  unfoldable pub seal_records : Bytes → ℕ → Bytes → List Record → List Entry × HeadState
  seal_records tenant_id seq prev [] = ([], record { next_seq = seq; prev_hash = prev })
  seal_records tenant_id seq prev (r ∷ recs) =
      let e = batch_entry tenant_id seq prev r in
      let (entries, h) = seal_records tenant_id ((seq + 1) % 2 ^ 64) e.entry_hash recs in
      (e ∷ entries, h)

module _ ⦃sha : Sha256⦄ (logs : LogStore) where
  -- The sealer, with the store that it points to.
  pub record Sealer : Type 0 where
    pub store : logs.State
    pub heads : Map Bytes HeadState

  abbrev pub new_sealer : logs.State → Sealer
  new_sealer store = record { store = store; heads = [] }

  -- The tenant's head: the one at hand, or the one that the store resumes from.
  abbrev pub resume : Bytes → Sealer → Result HeadState
  resume tenant_id s = elim (get tenant_id s.heads) [
    | some h ↦ ok h
    | none ↦ elim (logs.head tenant_id s.store) [
      | err e ↦ err e
      | ok (next_seq, prev_hash) ↦ ok (record { next_seq = next_seq; prev_hash = prev_hash })
    ]
  ]

  -- What follows the append. A head that was resumed is kept in either case; it moves on only where
  -- the append succeeded.
  abbrev pub settle :
      Bytes
      → Sealer
      → HeadState
      → List Entry × HeadState
      → Result (Unit {0}) × logs.State
      → Result (List Entry) × Sealer
  settle tenant_id s h (entries, next) (ok _, store) =
      (ok entries, record { store = store; heads = put tenant_id next s.heads })
  settle tenant_id s h (entries, next) (err e, store) =
      (err e, record { store = store; heads = put tenant_id h s.heads })

  unfoldable pub seal_batch : Bytes → List Record → Sealer → Result (List Entry) × Sealer
  unfolding seal_records
  seal_batch tenant_id recs s = elim (resume tenant_id s) [
    | err e ↦ (err e, s)
    | ok h ↦
        let sealed = seal_records tenant_id h.next_seq h.prev_hash recs in
        settle tenant_id s h sealed (logs.append sealed.0 s.store)
  ]

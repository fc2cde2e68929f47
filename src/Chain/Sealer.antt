-- ===== src/Chain/Sealer.antt =====
-- internal/chain/sealer.go: the single writer that numbers entries and links them. The mutex makes
-- each call of `Seal` one step; a sequence of calls is a list.
pub mod Chained
pub mod Honest
pub mod Agree
use multi_log.Prelude.{
  ℕ, ◌+◌, ◌%◌, ◌^◌, List, [], ◌∷◌, Option, none, some, Bytes, ℤ, Map, Bytes_eq, get, put,
}
use multi_log.Crypto.{Sha256, genesis, entry_leaf, chain_hash}
use multi_log.Chain.{Entry, Store, append}

pub record Head : Type 0 where
  pub next_seq : ℕ
  pub prev_hash : Bytes

-- The sealer with the store that it points to.
pub record Sealer : Type 0 where
  pub store : Store
  pub heads : Map Bytes Head

abbrev pub new_sealer : Store → Sealer
new_sealer s = record { store = s; heads = [] }

module _ ⦃sha : Sha256⦄ where
  abbrev pub or_new_head : Bytes → Option Head → Head
  or_new_head tenant_id none = record { next_seq = 0; prev_hash = genesis tenant_id }
  or_new_head tenant_id (some h) = h

  -- The tenant's head, a new one at the genesis hash where there is none.
  unfoldable pub head_of : Bytes → Sealer → Head
  head_of tenant_id s = or_new_head tenant_id (get tenant_id s.heads)

  -- The entry that is sealed at a head.
  unfoldable pub sealed_entry : Head → Bytes → Bytes → Bytes → ℤ → ℤ → Entry
  sealed_entry h tenant_id source raw event_time ingest_time =
      let leaf = entry_leaf tenant_id h.next_seq event_time ingest_time source raw in
      record {
        tenant_id = tenant_id;
        seq = h.next_seq;
        event_time = event_time;
        ingest_time = ingest_time;
        source = source;
        raw = raw;
        prev_hash = h.prev_hash;
        entry_hash = chain_hash h.prev_hash leaf;
      }

  unfoldable pub seal : Bytes → Bytes → Bytes → ℤ → ℤ → Sealer → Entry × Sealer
  unfolding head_of sealed_entry append
  seal tenant_id source raw event_time ingest_time s =
      let h = head_of tenant_id s in
      let e = sealed_entry h tenant_id source raw event_time ingest_time in
      (
        e,
        record {
          store = append e s.store;
          heads =
              put tenant_id
                (record { next_seq = (h.next_seq + 1) % 2 ^ 64; prev_hash = e.entry_hash }) s.heads;
        },
      )

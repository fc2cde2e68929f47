-- ===== src/Ingest/Restarts.antt =====
-- The persistent sealer over time: batches of any tenant, appends that fail, and restarts that forget
-- the heads at hand.
pub mod Settled
pub mod Sound
pub mod Retried
use multi_log.Prelude.{
  length, ◌<◌, ℕ, ◌+◌, ◌%◌, ◌^◌, ◌≡◌, refl, sym, ◌∙◌, ap, false, Bool-cases, inl, inr, List, [],
  ◌∷◌, ◌++◌, append-nil, Option-cases, none, some, All, Bytes, bytes_equal, bytes_equal→eq,
  Bytes_eq, get, put, get-put_self, get-put_ne, Result, Result-cases, ok, err, Error,
}
use mathlib.Core.Path.{subst}
use multi_log.Crypto.{Sha256, genesis}
use multi_log.Chain.{Entry}
use multi_log.Chain.Sealer.Chained.{IsChained}
use multi_log.Ingest.{
  LogStore, Record, HeadState, seal_records, Sealer, new_sealer, resume, settle, seal_batch,
}
use multi_log.Ingest.Batches.{seal_records-IsChained}

-- The head behind a chain: the number and the hash that the next entry must have.
abbrev pub end_from : HeadState → List Entry → HeadState
end_from h [] = h
end_from h (e ∷ es) =
    end_from (record { next_seq = (e.seq + 1) % 2 ^ 64; prev_hash = e.entry_hash }) es

module _ ⦃sha : Sha256⦄ where
  abbrev pub end_of : Bytes → List Entry → HeadState
  end_of t es = end_from (record { next_seq = 0; prev_hash = genesis t }) es

  -- The entries that a batch appends, at the head `h`.
  abbrev pub sealed_at : Bytes → List Record → HeadState → List Entry
  sealed_at t recs h = (seal_records t h.next_seq h.prev_hash recs).0

-- What a gateway relies on in its log store, where `stored` are the entries that it holds for a
-- tenant, by their numbers: an append that succeeds leaves the other tenants alone, and where its
-- entries continue their tenant's chain they come behind it; and the head is that behind an unbroken
-- chain. Nothing is said of an append that fails.
pub record IsDurable ⦃sha : Sha256⦄ (logs : LogStore) (stored : Bytes → logs.State → List Entry)
    : Type 0 where
  pub append_adds :
      (u : Bytes) (es : List Entry) (st st' : logs.State)
      → All (λ e. e.tenant_id ≡ u) es
      → IsChained u 0 (genesis u) (stored u st ++ es)
      → length (stored u st ++ es) < 2 ^ 64
      → logs.append es st ≡ (ok tt, st')
      → stored u st' ≡ stored u st ++ es
  pub append_others :
      (u t : Bytes) (es : List Entry) (st st' : logs.State)
      → All (λ e. e.tenant_id ≡ u) es
      → bytes_equal u t ≡ false
      → logs.append es st ≡ (ok tt, st')
      → stored t st' ≡ stored t st
  pub head_resumes :
      (t : Bytes) (st : logs.State) (n : ℕ) (p : Bytes)
      → IsChained t 0 (genesis t) (stored t st)
      → length (stored t st) < 2 ^ 64
      → logs.head t st ≡ ok (n, p)
      → record { next_seq = n; prev_hash = p } ≡ end_of t (stored t st)

module _ ⦃sha : Sha256⦄ (logs : LogStore) (stored : Bytes → logs.State → List Entry) where
  -- The batch does not use up the tenant's numbers.
  abbrev pub HasRoom : Bytes → List Record → Sealer logs → Type 0
  HasRoom t recs s = length (stored t s.store) + length recs < 2 ^ 64

  -- If the batch's append fails, it has stored nothing.
  abbrev pub StoresNothing : Bytes → List Record → Sealer logs → Type 0
  StoresNothing t recs s =
      (h : HeadState) (e : Error) (st : logs.State)
      → resume logs t s ≡ ok h
      → logs.append (sealed_at t recs h) s.store ≡ (err e, st)
      → (v : Bytes) → stored v st ≡ stored v s.store

  -- The batch's append failed, but has stored the first of its entries, or all of them.
  pub record IsLost (t : Bytes) (recs : List Record) (s : Sealer logs) : Type 0 where
    pub h : HeadState
    pub error : Error
    pub st : logs.State
    pub front : List Entry
    pub back : List Entry
    pub at : resume logs t s ≡ ok h
    pub failed : logs.append (sealed_at t recs h) s.store ≡ (err error, st)
    pub parts : sealed_at t recs h ≡ front ++ back
    pub kept : stored t st ≡ stored t s.store ++ front
    pub others : (v : Bytes) → bytes_equal t v ≡ false → stored v st ≡ stored v s.store

  -- One thing that happens to a gateway: a batch that the store takes or refuses, a restart, or a batch
  -- whose append fails after it has stored entries, with a restart right behind it.
  pub data Step : Sealer logs → Sealer logs → Type 0 where
    batch :
        (t : Bytes) (recs : List Record) (s : Sealer logs)
        → HasRoom t recs s
        → StoresNothing t recs s
        → Step s (seal_batch logs t recs s).1
    restart : (s : Sealer logs) → Step s (new_sealer logs s.store)
    lost :
        (t : Bytes) (recs : List Record) (s : Sealer logs)
        → HasRoom t recs s
        → IsLost t recs s
        → Step s (new_sealer logs (seal_batch logs t recs s).1.store)

  -- The states that a gateway can be in that was started over a store.
  pub data Reachable (st : logs.State) : Sealer logs → Type 0 where
    started : Reachable st (new_sealer logs st)
    after : {s s' : Sealer logs} → Reachable st s → Step s s' → Reachable st s'

  -- The invariant, for one tenant.
  abbrev pub IsSound : Bytes → Sealer logs → Type 0
  IsSound t s =
      IsChained t 0 (genesis t) (stored t s.store)
      × (length (stored t s.store) < 2 ^ 64)
      × ((h : HeadState) → get t s.heads ≡ some h → h ≡ end_of t (stored t s.store))

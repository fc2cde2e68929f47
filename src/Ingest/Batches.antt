-- ===== src/Ingest/Batches.antt =====
-- What a sequence of `SealBatch` calls acknowledges, whichever appends fail.
use multi_log.Prelude.{
  Result-cases, ℕ, ◌+◌, ◌%◌, ◌^◌, ◌≡◌, refl, sym, ◌∙◌, false, Bool-cases, inl, inr, List, [], ◌∷◌,
  ◌++◌, if◌then◌else◌, Bytes, bytes_equal, bytes_equal→eq, Bytes_eq, some, get, get-put_self,
  get-put_ne, Result, ok, err,
}
use mathlib.Core.Path.{subst}
use multi_log.Crypto.{Sha256}
use multi_log.Chain.{Entry}
use multi_log.Chain.Sealer.Chained.{IsChained}
use multi_log.Ingest.{LogStore, Record, HeadState, seal_records, Sealer, resume, settle, seal_batch}

module _ ⦃sha : Sha256⦄ where
  -- The entries of a batch continue the chain at the head, and what continues it behind the batch
  -- continues it at the head behind the batch.
  pub seal_records-IsChained :
      (t : Bytes) (seq : ℕ) (prev : Bytes) (recs : List Record) (later : List Entry)
      → let next : HeadState = (seal_records t seq prev recs).1 in
        IsChained t next.next_seq next.prev_hash later
        → IsChained t seq prev ((seal_records t seq prev recs).0 ++ later)
  unfolding seal_records
  seal_records-IsChained t seq prev [] later chained = chained
  seal_records-IsChained t seq prev (r ∷ recs) later chained =
      (refl, refl, refl, seal_records-IsChained t ((seq + 1) % 2 ^ 64) _ recs later chained)

module _ ⦃sha : Sha256⦄ (logs : LogStore) where
  abbrev entries_of : Result (List Entry) → List Entry
  entries_of (ok entries) = entries
  entries_of (err e) = []

  -- The entries that a sequence of calls returned without an error for tenant `t`.
  abbrev pub acknowledged : Bytes → List (Bytes × List Record) → Sealer logs → List Entry
  acknowledged t [] s = []
  acknowledged t ((u, recs) ∷ batches) s =
      let (reply, s') = seal_batch logs u recs s in
      let rest = acknowledged t batches s' in
      if bytes_equal u t then entries_of reply ++ rest else rest

  -- What a call for tenant `t` does at the head `h`, by the append's reply.
  abbrev Settled :
      Bytes → HeadState → Result (List Entry) × Sealer logs → List Entry × HeadState → Type 0
  Settled t h (ok entries, s') sealed = (entries ≡ sealed.0) × (get t s'.heads ≡ some sealed.1)
  Settled t h (err e, s') sealed = get t s'.heads ≡ some h

  settle-Settled :
      (t : Bytes) (s : Sealer logs) (h : HeadState) (sealed : List Entry × HeadState)
      (reply : Result (Unit {0}) × logs.State)
      → Settled t h (settle logs t s h sealed reply) sealed
  settle-Settled t s h (entries, next) (ok _, store) = (refl, get-put_self t next s.heads)
  settle-Settled t s h (entries, next) (err e, store) = get-put_self t h s.heads

  seal_batch-Settled :
      (t : Bytes) (recs : List Record) (s : Sealer logs) (h : HeadState)
      → get t s.heads ≡ some h
      → Settled t h (seal_batch logs t recs s) (seal_records t h.next_seq h.prev_hash recs)
  unfolding seal_batch
  seal_batch-Settled t recs s h at = rw (at, seal_batch) (settle-Settled t s h _ _)

  settle-other :
      (u t : Bytes) (s : Sealer logs) (h : HeadState) (sealed : List Entry × HeadState)
      (reply : Result (Unit {0}) × logs.State)
      → bytes_equal u t ≡ false
      → get t (settle logs u s h sealed reply).1.heads ≡ get t s.heads
  settle-other u t s h (entries, next) (ok _, store) apart = get-put_ne u t next s.heads apart
  settle-other u t s h (entries, next) (err e, store) apart = get-put_ne u t h s.heads apart

  seal_batch-other :
      (u t : Bytes) (recs : List Record) (s : Sealer logs)
      → bytes_equal u t ≡ false
      → get t (seal_batch logs u recs s).1.heads ≡ get t s.heads
  unfolding seal_batch
  seal_batch-other u t recs s apart = elim (Result-cases (resume logs u s)) [
    | inl (h, at) ↦ rw (at, seal_batch) (settle-other u t s h _ _ apart)
    | inr (e, at) ↦ rw (at, seal_batch) refl
  ]

  -- A batch of the tenant, and whatever continues its chain behind it.
  one_batch :
      (t : Bytes) (recs : List Record) (h : HeadState) (out : Result (List Entry) × Sealer logs)
      (later : List Entry)
      → Settled t h out (seal_records t h.next_seq h.prev_hash recs)
      → ((h' : HeadState)
          → get t out.1.heads ≡ some h'
          → IsChained t h'.next_seq h'.prev_hash later)
      → IsChained t h.next_seq h.prev_hash (entries_of out.0 ++ later)
  one_batch t recs h (ok entries, s') later (same, at) chained =
      rw same (seal_records-IsChained t h.next_seq h.prev_hash recs later (chained _ at))
  one_batch t recs h (err e, s') later at chained = chained h at

  -- Once a tenant's head is at hand, the entries that any sequence of calls acknowledges for the
  -- tenant, in order, continue its chain at that head without a gap: batches of other tenants and
  -- batches whose append failed leave no trace in it.
  pub acknowledged-IsChained :
      (t : Bytes) (batches : List (Bytes × List Record)) (s : Sealer logs) (h : HeadState)
      → get t s.heads ≡ some h
      → IsChained t h.next_seq h.prev_hash (acknowledged t batches s)
  acknowledged-IsChained t [] s h at = tt
  acknowledged-IsChained t ((u, recs) ∷ batches) s h at = elim (Bool-cases (bytes_equal u t)) [
    | inr other ↦ rw other (
        acknowledged-IsChained t batches (seal_batch logs u recs s).1 h
          (seal_batch-other u t recs s other ∙ at))
    | inl same ↦ rw same (
        one_batch t recs h (seal_batch logs u recs s) _
          (subst
            (λ x.
              Settled t h (seal_batch logs x recs s) (seal_records t h.next_seq h.prev_hash recs))
            (sym (bytes_equal→eq u t same)) (seal_batch-Settled t recs s h at))
          (λ h' at'. acknowledged-IsChained t batches (seal_batch logs u recs s).1 h' at'))
  ]

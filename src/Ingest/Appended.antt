-- ===== src/Ingest/Appended.antt =====
-- What one call of `SealBatch` that succeeds has done.
use multi_log.Prelude.{
  ℕ, ◌+◌, ◌%◌, ◌^◌, ◌≡◌, refl, arith, inl, inr, List, [], ◌∷◌, map, length, Bytes, Result,
  Result-cases, ok, err,
}
use multi_log.Crypto.{Sha256}
use multi_log.Chain.{Entry}
use multi_log.Ingest.{LogStore, Record, HeadState, seal_records, Sealer, resume, settle, seal_batch}

module _ ⦃sha : Sha256⦄ where
  pub length-seal_records :
      (t : Bytes) (seq : ℕ) (prev : Bytes) (recs : List Record)
      → length (seal_records t seq prev recs).0 ≡ length recs
  unfolding seal_records
  length-seal_records t seq prev [] = refl
  length-seal_records t seq prev (r ∷ recs) =
      omega (arith, length-seal_records t ((seq + 1) % 2 ^ 64) _ recs)

  pub raw-seal_records :
      (t : Bytes) (seq : ℕ) (prev : Bytes) (recs : List Record)
      → map (λ (e : Entry). e.raw) (seal_records t seq prev recs).0
        ≡ map (λ (r : Record). r.raw) recs
  unfolding seal_records
  raw-seal_records t seq prev [] = refl
  raw-seal_records t seq prev (r ∷ recs) = rw (raw-seal_records t ((seq + 1) % 2 ^ 64) _ recs) refl

module _ ⦃sha : Sha256⦄ (logs : LogStore) where
  settle-ok :
      (t : Bytes) (s : Sealer logs) (h : HeadState) (sealed : List Entry × HeadState)
      (reply : Result (Unit {0}) × logs.State) (entries : List Entry) (s' : Sealer logs)
      → settle logs t s h sealed reply ≡ (ok entries, s')
      → (entries ≡ sealed.0) × (reply ≡ (ok tt, s'.store))
  settle-ok t s h (es, next) (ok tt, store) entries s' same = (cc, cc)
  settle-ok t s h (es, next) (err e, store) entries s' same = cc

  pub seal_batch-ok :
      (t : Bytes) (recs : List Record) (s : Sealer logs) (entries : List Entry) (s' : Sealer logs)
      → seal_batch logs t recs s ≡ (ok entries, s')
      → (h : HeadState) × (resume logs t s ≡ ok h)
        × (entries ≡ (seal_records t h.next_seq h.prev_hash recs).0)
        × (logs.append entries s.store ≡ (ok tt, s'.store))
  unfolding seal_batch
  seal_batch-ok t recs s entries s' same = elim (Result-cases (resume logs t s)) [
    | inl (h, at) ↦
        let (whole, appended) =
          settle-ok t s h (seal_records t h.next_seq h.prev_hash recs)
            (logs.append (seal_records t h.next_seq h.prev_hash recs).0 s.store) entries s'
            (rw (at, seal_batch) at same) in
        (h, at, whole, rw whole appended)
    | inr (e, at) ↦ let same' = rw (at, seal_batch) at same in cc
  ]

-- ===== src/Ingest/Restarts/Settled.antt =====
-- One batch leaves every tenant's chain whole.
use multi_log.Prelude.{
  length-append, ◌<◌, arith, length, ℕ, ◌+◌, ◌%◌, ◌^◌, ◌≡◌, refl, sym, ◌∙◌, ap, false, Bool-cases,
  inl, inr, List, [], ◌∷◌, ◌++◌, append-nil, Option-cases, All, Bytes, bytes_equal, bytes_equal→eq,
  Bytes_eq, get, put, get-put_self, get-put_ne, Result, Result-cases, ok, err,
}
use mathlib.Core.Path.{subst}
use multi_log.Crypto.{Sha256, genesis}
use multi_log.Chain.{Entry}
use multi_log.Chain.Sealer.Chained.{IsChained}
use multi_log.Ingest.{LogStore, Record, HeadState, seal_records, Sealer, resume, settle, seal_batch}
use multi_log.Ingest.Restarts.{
  end_from, end_of, IsDurable, sealed_at, HasRoom, StoresNothing, IsSound,
}
use multi_log.Ingest.Appended.{length-seal_records}
use multi_log.Ingest.Batches.{seal_records-IsChained}

end_from-append :
    (h : HeadState) (es more : List Entry) → end_from h (es ++ more) ≡ end_from (end_from h es) more
end_from-append h [] more = refl
end_from-append h (e ∷ es) more =
    end_from-append (record { next_seq = (e.seq + 1) % 2 ^ 64; prev_hash = e.entry_hash }) es more

module _ ⦃sha : Sha256⦄ where
  IsChained-append :
      (t : Bytes) (h : HeadState) (es more : List Entry)
      → IsChained t h.next_seq h.prev_hash es
      → IsChained t (end_from h es).next_seq (end_from h es).prev_hash more
      → IsChained t h.next_seq h.prev_hash (es ++ more)
  IsChained-append t h [] more chained next = next
  IsChained-append t h (e ∷ es) more (at, link, hash, chained) next =
      let moved = subst (λ n. IsChained t ((n + 1) % 2 ^ 64) e.entry_hash es) (sym at) chained in
      let rest =
        IsChained-append t (record { next_seq = (e.seq + 1) % 2 ^ 64; prev_hash = e.entry_hash }) es
          more moved next in
      (
        at,
        link,
        hash,
        subst (λ n. IsChained t ((n + 1) % 2 ^ 64) e.entry_hash (es ++ more)) at rest,
      )

  end_from-seal_records :
      (t : Bytes) (seq : ℕ) (prev : Bytes) (recs : List Record)
      → end_from (record { next_seq = seq; prev_hash = prev }) (seal_records t seq prev recs).0
        ≡ (seal_records t seq prev recs).1
  unfolding seal_records
  end_from-seal_records t seq prev [] = refl
  end_from-seal_records t seq prev (r ∷ recs) = end_from-seal_records t ((seq + 1) % 2 ^ 64) _ recs

  tenant-seal_records :
      (t : Bytes) (seq : ℕ) (prev : Bytes) (recs : List Record)
      → All (λ e. e.tenant_id ≡ t) (seal_records t seq prev recs).0
  unfolding seal_records
  tenant-seal_records t seq prev [] = tt
  tenant-seal_records t seq prev (r ∷ recs) =
      (refl, tenant-seal_records t ((seq + 1) % 2 ^ 64) _ recs)

module _ ⦃sha : Sha256⦄ (logs : LogStore) (stored : Bytes → logs.State → List Entry)
    (durable : IsDurable logs stored) where
  pub resume-end_of :
      (t : Bytes) (s : Sealer logs) (h : HeadState)
      → IsSound logs stored t s
      → resume logs t s ≡ ok h
      → h ≡ end_of t (stored t s.store)
  resume-end_of t s h (chained, fits, heads) at = elim (Option-cases (get t s.heads)) [
    | inr (h', found) ↦ let at' = rw (found, resume) at at in heads h (cc)
    | inl missing ↦
        let at' = rw (missing, resume) at at in
        elim (Result-cases (logs.head t s.store)) [
          | inl ((n, p), answered) ↦
              let at'' = rw answered at at' in
              sym (cc) ∙ durable.head_resumes t s.store n p chained fits answered
          | inr (e, failed) ↦ let at'' = rw failed at at' in cc
        ]
  ]

  pub unchanged-IsSound :
      (t : Bytes) (s s' : Sealer logs)
      → IsSound logs stored t s
      → stored t s'.store ≡ stored t s.store
      → get t s'.heads ≡ get t s.heads
      → IsSound logs stored t s'
  unchanged-IsSound t s s' (chained, fits, heads) same same_head = (
    subst (IsChained t 0 (genesis t)) (sym same) chained,
    subst (λ (es : List Entry). length es < 2 ^ 64) (sym same) fits,
    λ h found. heads h (sym same_head ∙ found) ∙ ap (end_of t) (sym same),
  )

  put-IsSound :
      (t : Bytes) (s : Sealer logs) (h : HeadState) (store : logs.State)
      → IsChained t 0 (genesis t) (stored t store)
      → length (stored t store) < 2 ^ 64
      → h ≡ end_of t (stored t store)
      → IsSound logs stored t (record { store = store; heads = put t h s.heads })
  put-IsSound t s h store chained fits at = (
    chained,
    fits,
    λ h' found. let same = get-put_self t h s.heads in let same' : h ≡ h' = cc in sym same' ∙ at,
  )

  -- What a batch seals continues the chain, within the tenant's numbers.
  abbrev pub Continues : Bytes → List Entry → List Entry → Type 0
  Continues t es more = IsChained t 0 (genesis t) (es ++ more) × (length (es ++ more) < 2 ^ 64)

  pub sealed_at-Continues :
      (t : Bytes) (recs : List Record) (s : Sealer logs) (h : HeadState)
      → IsSound logs stored t s
      → HasRoom logs stored t recs s
      → h ≡ end_of t (stored t s.store)
      → Continues t (stored t s.store) (sealed_at t recs h)
  sealed_at-Continues t recs s h (chained, fits, heads) room at =
      let sealed = seal_records t h.next_seq h.prev_hash recs in
      let new =
        subst (IsChained t h.next_seq h.prev_hash) (append-nil sealed.0)
          (seal_records-IsChained t h.next_seq h.prev_hash recs [] tt) in
      (
        IsChained-append t (record { next_seq = 0; prev_hash = genesis t }) (stored t s.store)
            sealed.0 chained
            (subst (λ (x : HeadState). IsChained t x.next_seq x.prev_hash sealed.0) at new),
        omega (
          arith,
          room,
          length-append (stored t s.store) sealed.0,
          length-seal_records t h.next_seq h.prev_hash recs,
        ),
      )

  -- The batch's own tenant.
  settle-own :
      (t : Bytes) (recs : List Record) (s : Sealer logs) (h : HeadState)
      (reply : Result (Unit {0}) × logs.State)
      → IsSound logs stored t s
      → HasRoom logs stored t recs s
      → StoresNothing logs stored t recs s
      → resume logs t s ≡ ok h
      → logs.append (sealed_at t recs h) s.store ≡ reply
      → IsSound logs stored t
          (settle logs t s h (seal_records t h.next_seq h.prev_hash recs) reply).1
  settle-own t recs s h (ok _, store) sound room clean resumed appended =
      let at = resume-end_of t s h sound resumed in
      let sealed = seal_records t h.next_seq h.prev_hash recs in
      let (chained, fits) = sealed_at-Continues t recs s h sound room at in
      let adds =
        durable.append_adds t sealed.0 s.store store
          (tenant-seal_records t h.next_seq h.prev_hash recs) chained fits appended in
      let first : HeadState = record { next_seq = 0; prev_hash = genesis t } in
      put-IsSound t s sealed.1 store (subst (IsChained t 0 (genesis t)) (sym adds) chained)
        (subst (λ (es : List Entry). length es < 2 ^ 64) (sym adds) fits)
        (sym (end_from-seal_records t h.next_seq h.prev_hash recs)
          ∙ ap (λ x. end_from x sealed.0) at
          ∙ sym (end_from-append first (stored t s.store) sealed.0)
          ∙ ap (end_of t) (sym adds))
  settle-own t recs s h (err e, store) sound room clean resumed appended =
      let same = clean h e store resumed appended t in
      put-IsSound t s h store (subst (IsChained t 0 (genesis t)) (sym same) sound.0)
        (subst (λ (es : List Entry). length es < 2 ^ 64) (sym same) sound.1)
        (resume-end_of t s h sound resumed ∙ ap (end_of t) (sym same))

  -- Any other tenant.
  settle-other :
      (u t : Bytes) (recs : List Record) (s : Sealer logs) (h : HeadState)
      (reply : Result (Unit {0}) × logs.State)
      → bytes_equal u t ≡ false
      → IsSound logs stored t s
      → StoresNothing logs stored u recs s
      → resume logs u s ≡ ok h
      → logs.append (sealed_at u recs h) s.store ≡ reply
      → IsSound logs stored t
          (settle logs u s h (seal_records u h.next_seq h.prev_hash recs) reply).1
  settle-other u t recs s h (ok _, store) apart sound clean resumed appended =
      let sealed = seal_records u h.next_seq h.prev_hash recs in
      unchanged-IsSound t s (record { store = store; heads = put u sealed.1 s.heads }) sound
        (durable.append_others u t sealed.0 s.store store
          (tenant-seal_records u h.next_seq h.prev_hash recs) apart appended)
        (get-put_ne u t sealed.1 s.heads apart)
  settle-other u t recs s h (err e, store) apart sound clean resumed appended =
      unchanged-IsSound t s (record { store = store; heads = put u h s.heads }) sound
        (clean h e store resumed appended t) (get-put_ne u t h s.heads apart)

  pub seal_batch-IsSound :
      (u t : Bytes) (recs : List Record) (s : Sealer logs)
      → ((v : Bytes) → IsSound logs stored v s)
      → HasRoom logs stored u recs s
      → StoresNothing logs stored u recs s
      → IsSound logs stored t (seal_batch logs u recs s).1
  unfolding seal_batch
  seal_batch-IsSound u t recs s sound room clean = elim (Result-cases (resume logs u s)) [
    | inr (e, at) ↦ rw (at, seal_batch) (sound t)
    | inl (h, at) ↦
        rw (at, seal_batch)
          (elim (Bool-cases (bytes_equal u t)) [
            | inr apart ↦ settle-other u t recs s h _ apart (sound t) clean at refl
            | inl same ↦
                subst
                  (λ v.
                    IsSound logs stored v
                      (settle logs u s h (seal_records u h.next_seq h.prev_hash recs)
                        (logs.append (seal_records u h.next_seq h.prev_hash recs).0 s.store)).1)
                  (bytes_equal→eq u t same) (settle-own u recs s h _ (sound u) room clean at refl)
          ])
  ]

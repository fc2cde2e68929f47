-- ===== src/Ingest/Restarts/Retried.antt =====
-- internal/ingest/sealer.go: a batch behind one whose append was stored although it was reported as
-- failed, with no restart between them.
use multi_log.Prelude.{
  suc, ℕ, ◌+◌, ◌%◌, ◌≤◌, ◌<◌, ◌^◌, ◌==◌, ◌≡◌, ◌≢◌, refl, sym, ◌∙◌, ap, arith, if◌then◌else◌, List,
  [], ◌∷◌, ◌++◌, Bytes, Bytes_eq, length, put, get-put_self, ok, ok-injective,
}
use mathlib.Core.Path.{subst}
use multi_log.Crypto.{Sha256, genesis}
use multi_log.Chain.{Entry}
use multi_log.Chain.Window.{IsNumbered}
use multi_log.Chain.Sealer.Agree.{IsChained-IsNumbered}
use multi_log.Ingest.{
  LogStore, Record, HeadState, batch_entry, seal_records, Sealer, resume, seal_batch,
}
use multi_log.Ingest.Appended.{seal_batch-ok}
use multi_log.Ingest.Restarts.{sealed_at, IsLost}
use multi_log.Verify.{Report, verify_entries}
use multi_log.Verify.Replay.{IsChained-verify_entries}

-- How many entries have a number.
abbrev pub count : ℕ → List Entry → ℕ
count k [] = 0
count k (e ∷ es) = let rest = count k es in if e.seq == k then suc rest else rest

count-append : (k : ℕ) (es fs : List Entry) → count k (es ++ fs) ≡ count k es + count k fs
count-append k [] fs = omega arith
count-append k (e ∷ es) fs = ground (arith, count-append k es fs)

count-below : (k want : ℕ) (es : List Entry) → IsNumbered want es → k < want → count k es ≡ 0
count-below k want [] h low = refl
count-below k want (e ∷ es) (h, hs) low =
    ground (arith, count-below k (want + 1) es hs (omega arith))

-- Entries that are numbered without a gap have no number twice.
count-IsNumbered : (k want : ℕ) (es : List Entry) → IsNumbered want es → count k es ≤ 1
count-IsNumbered k want [] h = omega arith
count-IsNumbered k want (e ∷ es) (h, hs) =
    grind (arith, count-IsNumbered k (want + 1) es hs, count-below k (want + 1) es hs)

count-first : (k : ℕ) (e : Entry) (es : List Entry) → e.seq ≡ k → 1 ≤ count k (e ∷ es)
count-first k e es same = ground arith

module _ ⦃sha : Sha256⦄ where
  -- The first entry that is sealed has the head's number.
  first-sealed_at :
      (t : Bytes) (recs : List Record) (h : HeadState) (e : Entry) (es : List Entry)
      → sealed_at t recs h ≡ e ∷ es
      → e.seq ≡ h.next_seq
  unfolding seal_records
  first-sealed_at t [] h e es same = cc
  first-sealed_at t (r ∷ recs) h e es same = cc

  count-sealed_at :
      (t : Bytes) (r : Record) (recs : List Record) (h : HeadState)
      → 1 ≤ count h.next_seq (sealed_at t (r ∷ recs) h)
  unfolding seal_records
  count-sealed_at t r recs h =
      let first = batch_entry t h.next_seq h.prev_hash r in
      count-first h.next_seq first
        (seal_records t ((h.next_seq + 1) % 2 ^ 64) first.entry_hash recs).0 refl

module _ ⦃sha : Sha256⦄ (logs : LogStore) (stored : Bytes → logs.State → List Entry) where
  -- The gateway behind the failed append: the store has changed, and the head is the old one.
  abbrev behind :
      (t : Bytes) (recs : List Record) (s : Sealer logs) → IsLost logs stored t recs s → Sealer logs
  behind t recs s l = record { store = l.st; heads = put t l.h s.heads }

  seal_batch-behind :
      (t : Bytes) (recs : List Record) (s : Sealer logs) (l : IsLost logs stored t recs s)
      → (seal_batch logs t recs s).1 ≡ behind t recs s l
  unfolding seal_batch
  seal_batch-behind t recs s l = rw (l.at, seal_batch, l.failed) refl

  resume-behind :
      (t : Bytes) (recs : List Record) (s : Sealer logs) (l : IsLost logs stored t recs s)
      → resume logs t (behind t recs s l) ≡ ok l.h
  resume-behind t recs s l = rw (get-put_self t l.h s.heads, resume) refl

  -- The append of a batch has failed after it stored entries, and the gateway goes on. If the next batch
  -- of the tenant is not empty and is acknowledged, and its append adds its entries to those that the
  -- store has, then a replay of what the store holds for the tenant reports an issue: two of its
  -- entries have the same number. Fewer than 2 ^ 64 entries are stored.
  pub seal_batch-retried :
      (t : Bytes) (recs : List Record) (s : Sealer logs) (l : IsLost logs stored t recs s)
      (e : Entry) (more : List Entry) (r : Record) (recs' : List Record) (es : List Entry)
      (s' : Sealer logs) (report : Report)
      → l.front ≡ e ∷ more
      → seal_batch logs t (r ∷ recs') (seal_batch logs t recs s).1 ≡ (ok es, s')
      → ((k : ℕ)
          → count k (stored t s'.store)
            ≡ count k (stored t (seal_batch logs t recs s).1.store) + count k es)
      → length (stored t s'.store) < 2 ^ 64
      → (verify_entries t (genesis t) 0 (stored t s'.store) report).issues ≢ report.issues
  unfolding seal_records
  seal_batch-retried t recs s l e more r recs' es s' report front acknowledged adds fits clean =
      let k = l.h.next_seq in
      let held = stored t s'.store in
      let chained = IsChained-verify_entries t (genesis t) 0 held report (omega arith) clean in
      let once =
        count-IsNumbered k 0 held
          (IsChained-IsNumbered t 0 (genesis t) held (omega arith) chained) in
      let state = seal_batch-behind t recs s l in
      let (h, at, whole, _) = seal_batch-ok logs t (r ∷ recs') _ es s' acknowledged in
      let same : h ≡ l.h =
        ok-injective
          (sym at ∙ ap (λ (x : Sealer logs). resume logs t x) state ∙ resume-behind t recs s l) in
      let new : es ≡ sealed_at t (r ∷ recs') l.h =
        whole ∙ ap (λ x. sealed_at t (r ∷ recs') x) same in
      let seq : e.seq ≡ k =
        first-sealed_at t recs l.h e (more ++ l.back) (l.parts ∙ ap (λ xs. xs ++ l.back) front) in
      let old : count k (stored t l.st) ≡ count k (stored t s.store) + count k l.front =
        ap (count k) l.kept ∙ count-append k (stored t s.store) l.front in
      let one : 1 ≤ count k l.front =
        subst (λ xs. 1 ≤ count k xs) (sym front) (count-first k e more seq) in
      let two : 1 ≤ count k es =
        subst (λ xs. 1 ≤ count k xs) (sym new) (count-sealed_at t r recs' l.h) in
      let all : count k held ≡ count k (stored t l.st) + count k es =
        adds k ∙ ap (λ (x : Sealer logs). count k (stored t x.store) + count k es) state in
      omega (arith, once, old, one, two, all)

-- ===== src/Ingest/Restarts/Sound.antt =====
-- Batches, failures and restarts leave every tenant's chain whole.
use multi_log.Prelude.{
  append_assoc, length-append, ◌<◌, arith, length, ◌+◌, ◌^◌, ◌≡◌, refl, sym, ◌∙◌, ap, Bool-cases,
  inl, inr, List, ◌++◌, Bytes, bytes_equal, bytes_equal→eq, Bytes_eq, get,
}
use mathlib.Core.Path.{subst}
use multi_log.Crypto.{Sha256, genesis}
use multi_log.Chain.{Entry}
use multi_log.Chain.Sealer.Chained.{IsChained}
use multi_log.Ingest.{LogStore, Record, Sealer, new_sealer, seal_batch}
use multi_log.Chain.Sealer.Agree.{IsChained-front}
use multi_log.Verify.{Report, verify_entries}
use multi_log.Verify.Replay.{verify_entries-IsChained}
use multi_log.Ingest.Restarts.{
  IsDurable, sealed_at, HasRoom, IsLost, Step, batch, restart, lost, Reachable, started, after,
  IsSound,
}
use multi_log.Ingest.Restarts.Settled.{
  resume-end_of, unchanged-IsSound, sealed_at-Continues, seal_batch-IsSound,
}

module _ ⦃sha : Sha256⦄ (logs : LogStore) (stored : Bytes → logs.State → List Entry)
    (durable : IsDurable logs stored) where
  fresh-IsSound :
      (t : Bytes) (store : logs.State)
      → IsChained t 0 (genesis t) (stored t store)
      → length (stored t store) < 2 ^ 64
      → IsSound logs stored t (new_sealer logs store)
  unfolding get
  fresh-IsSound t store chained fits = (chained, fits, λ h found. cc)

  -- The first of the entries that were to be appended, behind the chain.
  lost-own :
      (u : Bytes) (recs : List Record) (s : Sealer logs) (l : IsLost logs stored u recs s)
      → IsSound logs stored u s
      → HasRoom logs stored u recs s
      → IsSound logs stored u (new_sealer logs l.st)
  lost-own u recs s l sound room =
      let (chained, fits) =
        sealed_at-Continues logs stored durable u recs s l.h sound room
          (resume-end_of logs stored durable u s l.h sound l.at) in
      let whole : stored u s.store ++ sealed_at u recs l.h ≡ stored u l.st ++ l.back =
        ap (λ es. stored u s.store ++ es) l.parts
        ∙ sym (append_assoc (stored u s.store) l.front l.back)
        ∙ ap (λ es. es ++ l.back) (sym l.kept) in
      fresh-IsSound u l.st
        (IsChained-front u 0 (genesis u) (stored u l.st) l.back
          (subst (IsChained u 0 (genesis u)) whole chained))
        (omega (arith, fits, ap (length {A = Entry}) whole, length-append (stored u l.st) l.back))

  lost-IsSound :
      (u t : Bytes) (recs : List Record) (s : Sealer logs)
      → ((v : Bytes) → IsSound logs stored v s)
      → HasRoom logs stored u recs s
      → IsLost logs stored u recs s
      → IsSound logs stored t (new_sealer logs (seal_batch logs u recs s).1.store)
  unfolding seal_batch
  lost-IsSound u t recs s sound room l =
      rw (l.at, seal_batch, l.failed)
        (elim (Bool-cases (bytes_equal u t)) [
          | inr apart ↦
              unchanged-IsSound logs stored durable t (new_sealer logs s.store)
                (new_sealer logs l.st) (fresh-IsSound t s.store (sound t).0 (sound t).1)
                (l.others t apart) refl
          | inl same ↦
              subst (λ v. IsSound logs stored v (new_sealer logs l.st)) (bytes_equal→eq u t same)
                (lost-own u recs s l (sound u) room)
        ])

  Step-IsSound :
      {s s' : Sealer logs} (t : Bytes)
      → ((v : Bytes) → IsSound logs stored v s)
      → Step logs stored s s'
      → IsSound logs stored t s'
  Step-IsSound t sound (batch u recs s room clean) =
      seal_batch-IsSound logs stored durable u t recs s sound room clean
  Step-IsSound t sound (restart s) = fresh-IsSound t s.store (sound t).0 (sound t).1
  Step-IsSound t sound (lost u recs s room l) = lost-IsSound u t recs s sound room l

  Reachable-IsSound :
      {st : logs.State} {s : Sealer logs} (t : Bytes)
      → ((v : Bytes) → IsChained v 0 (genesis v) (stored v st) × (length (stored v st) < 2 ^ 64))
      → Reachable logs stored st s
      → IsSound logs stored t s
  Reachable-IsSound {st} t first started = fresh-IsSound t st (first t).0 (first t).1
  Reachable-IsSound t first (after reached step) =
      Step-IsSound t (λ v. Reachable-IsSound v first reached) step

  -- However a gateway's batches and restarts follow each other, a replay of what its store then holds
  -- for a tenant reports no issue and counts every entry. An append may fail at any batch, if it has
  -- then stored nothing, or if the gateway is restarted right after it, where it may have stored the
  -- first of its entries or all of them. In the store, an append that succeeds leaves other tenants
  -- alone and puts entries that continue their tenant's chain behind it, and the head is that behind an
  -- unbroken chain; it held unbroken chains when the gateway was first started, and no tenant's numbers
  -- run out.
  pub Reachable-verify_entries :
      {st : logs.State} {s : Sealer logs} (t : Bytes) (r : Report)
      → ((v : Bytes) → IsChained v 0 (genesis v) (stored v st) × (length (stored v st) < 2 ^ 64))
      → Reachable logs stored st s
      → verify_entries t (genesis t) 0 (stored t s.store) r
        ≡ record r { entries_checked = r.entries_checked + length (stored t s.store) }
  Reachable-verify_entries {s} t r first reached =
      let (chained, fits, _) = Reachable-IsSound t first reached in
      verify_entries-IsChained t (genesis t) 0 (stored t s.store) r (omega arith) chained

-- ===== src/Commands/Resealed.antt =====
-- What the resealing attacker of cmd/demo gets past, and what it leaves.
use multi_log.Prelude.{
  ℕ, ◌+◌, ◌%◌, ◌^◌, ◌<◌, ◌≡◌, refl, sym, ◌∙◌, ap, arith, List, [], ◌∷◌, Bytes, Bytes_eq,
  get-put_self, or_nil, length,
}
use multi_log.Crypto.{Sha256, genesis}
use multi_log.Chain
use multi_log.Chain.{Entry, Store, sort_by_seq}
use multi_log.Chain.Sorted.{held, tenant-sorted, length-sort_by_seq}
use multi_log.Chain.Window.{IsNumbered}
use multi_log.Chain.Sealer.Chained.{linked_hash, payload, IsChained, sort-IsChained}
use multi_log.Chain.Sealer.Agree.{payloads}
use multi_log.Verify.{Report, verify_chain}
use multi_log.Verify.Replay.{verify_entries-IsChained}
use multi_log.Commands.{reseal, write_back, insider_reseal}

module _ ⦃sha : Sha256⦄ where
  length-reseal : (t prev : Bytes) (es : List Entry) → length (reseal t prev es) ≡ length es
  unfolding reseal
  length-reseal t prev [] = refl
  length-reseal t prev (e ∷ es) =
      let same = length-reseal t (linked_hash t prev e) es in omega arith

  payloads-reseal :
      (t prev : Bytes) (es : List Entry) → payloads t (reseal t prev es) ≡ payloads t es
  unfolding reseal
  payloads-reseal t prev [] = refl
  payloads-reseal t prev (e ∷ es) =
      ap (λ ps. payload t e ∷ ps) (payloads-reseal t (linked_hash t prev e) es)

  reseal-IsChained :
      (t : Bytes) (want : ℕ) (prev : Bytes) (es : List Entry)
      → want + length es < 2 ^ 64
      → IsNumbered want es
      → IsChained t want prev (reseal t prev es)
  unfolding reseal
  reseal-IsChained t want prev [] fits h = tt
  reseal-IsChained t want prev (e ∷ es) fits (h, hs) =
      let next : want + 1 ≡ (want + 1) % 2 ^ 64 = omega arith in
      (
        h,
        refl,
        refl,
        rw (← next) (reseal-IsChained t (want + 1) (linked_hash t prev e) es (omega arith) hs),
      )

  held-write_back :
      (t prev : Bytes) (es : List Entry) (store : Store)
      → held t store ≡ es
      → held t (write_back t (reseal t prev es) store) ≡ reseal t prev es
  unfolding reseal
  held-write_back t prev [] store h = h
  held-write_back t prev (e ∷ es) store h =
      ap or_nil (get-put_self t (reseal t prev (e ∷ es)) store.entries)

  held-insider_reseal :
      (store : Store) (t : Bytes)
      → held t (insider_reseal store t) ≡ reseal t (genesis t) (sort_by_seq (held t store))
  unfolding insider_reseal
  held-insider_reseal store t =
      let (read, left) = tenant-sorted t store in
      held-write_back t (genesis t) (Chain.tenant t store).0 (Chain.tenant t store).1
        (left ∙ sym read)
      ∙ ap (reseal t (genesis t)) read

  -- An attacker edits a tenant's rows, whatever they then say, so that they are still numbered from 0
  -- without a gap and are fewer than 2 ^ 64, and reseals them: replaying the chain adds no issue to a
  -- report and counts every row, and the payloads stored are the edited ones, in the order of their
  -- numbers.
  pub verify_chain-insider_reseal :
      (store : Store) (t : Bytes) (r : Report)
      → length (held t store) < 2 ^ 64
      → IsNumbered 0 (sort_by_seq (held t store))
      → ((verify_chain (insider_reseal store t) t r).0
          ≡ record r { entries_checked = r.entries_checked + length (held t store) })
        × (payloads t (held t (insider_reseal store t)) ≡ payloads t (sort_by_seq (held t store)))
  unfolding verify_chain
  verify_chain-insider_reseal store t r bounded numbered =
      let es = sort_by_seq (held t store) in
      let resealed = reseal t (genesis t) es in
      let at = held-insider_reseal store t in
      let count : length resealed ≡ length (held t store) =
        length-reseal t (genesis t) es ∙ length-sort_by_seq (held t store) in
      let chained =
        reseal-IsChained t 0 (genesis t) es
          (omega (arith, bounded, length-sort_by_seq (held t store))) numbered in
      let read : (Chain.tenant t (insider_reseal store t)).0 ≡ resealed =
        (tenant-sorted t (insider_reseal store t)).0
        ∙ ap sort_by_seq at
        ∙ sort-IsChained t 0 (genesis t) resealed (omega (arith, bounded, count)) chained in
      (
        rw
            (
              read,
              verify_entries-IsChained t (genesis t) 0 resealed r (omega (arith, bounded, count))
                  chained,
              count,
            )
            refl,
        ap (payloads t) at ∙ payloads-reseal t (genesis t) es,
      )

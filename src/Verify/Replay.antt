-- ===== src/Verify/Replay.antt =====
-- What the replay of `verifyChain` reports, on any entries.
use multi_log.Prelude.{
  ℕ, ◌+◌, ◌%◌, ◌^◌, ◌<◌, ◌≡◌, ◌≢◌, refl, sym, ◌∙◌, ap, append-nil, arith, true, ◌==◌, ◌&&◌, ◌⊎◌,
  Bool-cases, inl, inr, List, [], ◌∷◌, ◌++◌, Bytes, bytes_equal, bytes_equal_iff, bytes_equal→eq,
  length, length-append,
}
use mathlib.Core.Path.{ap₂}
use multi_log.Crypto.{Sha256}
use multi_log.Chain.{Entry}
use multi_log.Chain.Sealer.Chained.{linked_hash, IsChained, last_hash}
use multi_log.Verify.{
  Issue, issue_at, Report, add_issue, verify_entries, sequence_gap, chain_break, entry_tamper,
  expected_found, prev_hash_unlinked, entry_hash_differs,
}

module _ ⦃sha : Sha256⦄ where
  -- Entry `e` continues a chain of tenant `t` at sequence number `want` after the hash `prev`.
  abbrev pub IsLinked : Bytes → ℕ → Bytes → Entry → Type 0
  IsLinked t want prev e =
      (e.seq ≡ want) × (e.prev_hash ≡ prev) × (e.entry_hash ≡ linked_hash t prev e)

  -- One issue, at sequence number `want` of tenant `t`.
  abbrev pub ReportsAt : Bytes → ℕ → Report → Report → Type 0
  ReportsAt t want r r' =
      (i : Issue) × (r' ≡ add_issue (record r { entries_checked = r.entries_checked + 1 }) i)
      × (i.tenant ≡ t)
      × (i.has_seq ≡ true)
      × (i.seq ≡ want)

  -- One step of the replay.
  verify_entries-good :
      (t prev : Bytes) (want : ℕ) (e : Entry) (es : List Entry) (r : Report)
      → IsLinked t want prev e
      → verify_entries t prev want (e ∷ es) r
        ≡ verify_entries t e.entry_hash
            ((want + 1) % 2 ^ 64)
            es
            (record r { entries_checked = r.entries_checked + 1 })
  unfolding verify_entries
  verify_entries-good t prev want e es r h =
      ground (
        arith,
        bytes_equal_iff e.prev_hash prev,
        bytes_equal_iff e.entry_hash (linked_hash t prev e),
      )

  verify_entries-bad :
      (t prev : Bytes) (want : ℕ) (e : Entry) (es : List Entry) (r : Report)
      → ¬ IsLinked t want prev e
      → ReportsAt t want r (verify_entries t prev want (e ∷ es) r)
  unfolding verify_entries
  verify_entries-bad t prev want e es r h = elim (Bool-cases (e.seq == want)) [
    | inr gap ↦ (issue_at t want sequence_gap (expected_found want e.seq), rw gap, refl, refl, refl)
    | inl at ↦ elim (Bool-cases (bytes_equal e.prev_hash prev)) [
      | inr broken ↦ (
        issue_at t e.seq chain_break prev_hash_unlinked,
        rw (at, broken),
        refl,
        refl,
        ground arith,
      )
      | inl linked ↦ elim (Bool-cases (bytes_equal e.entry_hash (linked_hash t prev e))) [
        | inr tampered ↦ (
          issue_at t e.seq entry_tamper entry_hash_differs,
          rw (at, linked, tampered),
          refl,
          refl,
          ground arith,
        )
        | inl same ↦ absurd (
            h (
              ground arith,
              bytes_equal→eq e.prev_hash prev linked,
              bytes_equal→eq e.entry_hash (linked_hash t prev e) same,
            ))
      ]
    ]
  ]

  same_counts :
      (t prev : Bytes) (rest : List Entry) (r : Report) {m m' n n' : ℕ}
      → m ≡ m'
      → n ≡ n'
      → verify_entries t prev m rest (record r { entries_checked = n })
        ≡ verify_entries t prev m' rest (record r { entries_checked = n' })
  same_counts t prev rest r p q =
      ap₂ (λ m n. verify_entries t prev m rest (record r { entries_checked = n })) p q

  -- Replaying an unbroken chain adds no issue and counts every entry; what follows it is replayed
  -- from where it ends.
  verify_entries-append :
      (t prev : Bytes) (want : ℕ) (es rest : List Entry) (r : Report)
      → want + length es < 2 ^ 64
      → IsChained t want prev es
      → verify_entries t prev want (es ++ rest) r
        ≡ verify_entries t
            (last_hash prev es)
            (want + length es)
            rest
            (record r { entries_checked = r.entries_checked + length es })
  verify_entries-append t prev want [] rest r fits h =
      same_counts t prev rest r (omega arith) (omega arith)
  verify_entries-append t prev want (e ∷ es) rest r fits (h1, h2, h3, hs) =
      verify_entries-good t prev want e (es ++ rest) r (h1, h2, h3)
      ∙ verify_entries-append t e.entry_hash ((want + 1) % 2 ^ 64) es rest
          (record r { entries_checked = r.entries_checked + 1 }) (omega arith) hs
      ∙ same_counts t (last_hash e.entry_hash es) rest r (omega arith) (omega arith)

  -- Replaying an unbroken chain that ends below 2 ^ 64 adds no issue and counts every entry.
  pub verify_entries-IsChained :
      (t prev : Bytes) (want : ℕ) (es : List Entry) (r : Report)
      → want + length es < 2 ^ 64
      → IsChained t want prev es
      → verify_entries t prev want es r
        ≡ record r { entries_checked = r.entries_checked + length es }
  verify_entries-IsChained t prev want es r fits h =
      ap (λ xs. verify_entries t prev want xs r) (sym (append-nil es))
      ∙ verify_entries-append t prev want es [] r fits h
      ∙ unfold verify_entries in refl

  -- At the first entry that does not continue the chain below 2 ^ 64 the replay stops, with exactly
  -- one issue, at that entry's position; it and the entries before it are counted, none behind it.
  pub verify_entries-pinpoints :
      (t prev : Bytes) (want : ℕ) (good : List Entry) (bad : Entry) (rest : List Entry) (r : Report)
      → want + length good < 2 ^ 64
      → IsChained t want prev good
      → ¬ IsLinked t (want + length good) (last_hash prev good) bad
      → ReportsAt t
          (want + length good)
          (record r { entries_checked = r.entries_checked + length good })
          (verify_entries t prev want (good ++ bad ∷ rest) r)
  verify_entries-pinpoints t prev want good bad rest r fits h broken =
      rw (verify_entries-append t prev want good (bad ∷ rest) r fits h)
        (verify_entries-bad t (last_hash prev good) (want + length good) bad rest _ broken)

  -- Whether an entry continues the chain can be decided.
  IsLinked-dec :
      (t : Bytes) (want : ℕ) (prev : Bytes) (e : Entry)
      → IsLinked t want prev e ⊎ (¬ IsLinked t want prev e)
  IsLinked-dec t want prev e =
      elim (Bool-cases (
        e.seq == want
        && (bytes_equal e.prev_hash prev && bytes_equal e.entry_hash (linked_hash t prev e)))) [
          | inl b ↦ inl (
              ground (
                arith,
                bytes_equal_iff e.prev_hash prev,
                bytes_equal_iff e.entry_hash (linked_hash t prev e),
              ))
          | inr b ↦ inr (λ h. ground (
            arith,
            bytes_equal_iff e.prev_hash prev,
            bytes_equal_iff e.entry_hash (linked_hash t prev e),
          ))
        ]

  snoc-ne : (xs : List Issue) (i : Issue) → xs ++ i ∷ [] ≢ xs
  snoc-ne xs i e = omega (arith, length-append xs (i ∷ []), ap (length {A = Issue}) e)

  -- Entries whose replay adds no issue, ending below 2 ^ 64, are an unbroken chain.
  pub IsChained-verify_entries :
      (t prev : Bytes) (want : ℕ) (es : List Entry) (r : Report)
      → want + length es < 2 ^ 64
      → (verify_entries t prev want es r).issues ≡ r.issues
      → IsChained t want prev es
  IsChained-verify_entries t prev want [] r fits clean = tt
  IsChained-verify_entries t prev want (e ∷ es) r fits clean = elim (IsLinked-dec t want prev e) [
    | inl (h1, h2, h3) ↦ (
      h1,
      h2,
      h3,
      IsChained-verify_entries t e.entry_hash ((want + 1) % 2 ^ 64) es
          (record r { entries_checked = r.entries_checked + 1 }) (omega arith)
          (rw (verify_entries-good t prev want e es r (h1, h2, h3)) at clean),
    )
    | inr broken ↦
        let (i, now, _, _, _) = verify_entries-bad t prev want e es r broken in
        absurd (snoc-ne r.issues i (sym (ap (λ (x : Report). x.issues) now) ∙ clean))
  ]

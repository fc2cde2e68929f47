-- ===== src/Chain/Sealer/Chained.antt =====
-- What a tenant's hash chain is, independently of how it was built.
use multi_log.Prelude.{
  ℕ, ◌+◌, ◌%◌, ◌^◌, ◌≤◌, ◌<◌, ◌≡◌, refl, arith, List, [], ◌∷◌, ◌++◌, Bytes, length,
}
use multi_log.Crypto.{Sha256, chain_hash}
use multi_log.Crypto.Commit.{Payload, payload_leaf}
use multi_log.Chain.{Entry, insert_by_seq, sort_by_seq}

-- The six fields of an entry that its leaf commits to, under the tenant that the verifier assumes.
abbrev pub payload : Bytes → Entry → Payload
payload t e = record {
  tenant_id = t;
  seq = e.seq;
  event_time = e.event_time;
  ingest_time = e.ingest_time;
  source = e.source;
  line = e.raw;
}

module _ ⦃sha : Sha256⦄ where
  -- The entry hash that an entry must have after the hash `prev`.
  abbrev pub linked_hash : Bytes → Bytes → Entry → Bytes
  linked_hash t prev e = chain_hash prev (payload_leaf (payload t e))

  -- `es` continues the chain of tenant `t` at sequence number `want` after the hash `prev`.
  abbrev pub IsChained : Bytes → ℕ → Bytes → List Entry → Type 0
  IsChained t want prev [] = Unit {0}
  IsChained t want prev (e ∷ es) =
      (e.seq ≡ want)
      × (e.prev_hash ≡ prev)
      × (e.entry_hash ≡ linked_hash t prev e)
      × IsChained t ((want + 1) % 2 ^ 64) e.entry_hash es

  -- The hash at the end of a chain.
  abbrev pub last_hash : Bytes → List Entry → Bytes
  last_hash prev [] = prev
  last_hash prev (e ∷ es) = last_hash e.entry_hash es

  pub IsChained-snoc :
      (t : Bytes) (want : ℕ) (prev : Bytes) (es : List Entry) (e : Entry)
      → want + length es < 2 ^ 64
      → IsChained t want prev es
      → e.seq ≡ want + length es
      → e.prev_hash ≡ last_hash prev es
      → e.entry_hash ≡ linked_hash t (last_hash prev es) e
      → IsChained t want prev (es ++ e ∷ [])
  IsChained-snoc t want prev [] e fits h p q r = (omega arith, q, r, tt)
  IsChained-snoc t want prev (x ∷ es) e fits (h1, h2, h3, hs) p q r = (
    h1,
    h2,
    h3,
    IsChained-snoc t ((want + 1) % 2 ^ 64) x.entry_hash es e (omega arith) hs (omega arith) q r,
  )

  -- `Tenant`'s sort leaves an unbroken chain whose numbers do not wrap as it is.
  pub sort-IsChained :
      (t : Bytes) (want : ℕ) (prev : Bytes) (es : List Entry)
      → want + length es ≤ 2 ^ 64
      → IsChained t want prev es
      → sort_by_seq es ≡ es
  unfolding sort_by_seq insert_by_seq
  sort-IsChained t want prev [] fits h = refl
  sort-IsChained t want prev (x ∷ []) fits h = refl
  sort-IsChained t want prev (x ∷ y ∷ es) fits (h1, h2, h3, hs) =
      ground
        (arith, sort-IsChained t ((want + 1) % 2 ^ 64) x.entry_hash (y ∷ es) (omega arith) hs, hs.0)

  pub last_hash-snoc :
      (prev : Bytes) (es : List Entry) (e : Entry) → last_hash prev (es ++ e ∷ []) ≡ e.entry_hash
  last_hash-snoc prev [] e = refl
  last_hash-snoc prev (x ∷ es) e = last_hash-snoc x.entry_hash es e

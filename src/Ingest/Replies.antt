-- ===== src/Ingest/Replies.antt =====
-- What a reply of the ingest gateway tells its client.
use multi_log.Prelude.{
  uncons, ℕ, ◌+◌, ◌-◌, ◌*◌, ◌%◌, ◌^◌, ◌≡◌, refl, sym, ◌∙◌, ap, arith, Bool-cases, inl, inr, List,
  [], ◌∷◌, append-nil, map, Option-cases, Bytes, codes, bytes_equal, is_empty, ℤ, length, take,
  TimeFormat, length-map, immutable, unauthorized, not_attested, text, Result, Result-cases, ok,
  err, Run, done, done-injective,
}
use mathlib.Core.Path.{subst}
use multi_log.Crypto.{Sha256}
use multi_log.Chain.{Entry}
use multi_log.Chain.Sealer.Chained.{IsChained}
use multi_log.Ingest.{LogStore, Record, HeadState, Sealer, seal_records, seal_batch}
use multi_log.Ingest.Batches.{seal_records-IsChained}
use multi_log.Ingest.Appended.{length-seal_records, raw-seal_records, seal_batch-ok}
use multi_log.Ingest.Body.{Json, parse_log_objects}
use multi_log.Ingest.Handler.{
  Request, Response, accepted, raw_of, record_from_object, last_entry, accepted_reply, sealed_reply,
  serve_objects, serve_tenant, serve_ingest,
}

module _ ⦃sha : Sha256⦄ where
  last_entry-IsChained :
      (t : Bytes) (want : ℕ) (prev : Bytes) (e : Entry) (es : List Entry)
      → IsChained t want prev (e ∷ es)
      → (last_entry e es).seq % 2 ^ 64 ≡ (want + length es) % 2 ^ 64
  last_entry-IsChained t want prev e [] (at, _, _, rest) = omega arith
  last_entry-IsChained t want prev e (x ∷ es) (at, _, _, rest) =
      omega (arith, last_entry-IsChained t ((want + 1) % 2 ^ 64) e.entry_hash x es rest)

  accepted_reply-accepted :
      (t : Bytes) (entries : List Entry) (u : Bytes) (n first_seq last_seq : ℕ)
      → accepted_reply t entries ≡ done (accepted n u first_seq last_seq)
      → (e : Entry) × (es : List Entry) × (entries ≡ e ∷ es)
        × (t ≡ u)
        × (n ≡ length entries)
        × (first_seq ≡ e.seq)
        × (last_seq ≡ (last_entry e es).seq)
  accepted_reply-accepted t [] u n first_seq last_seq h = cc
  accepted_reply-accepted t (e ∷ es) u n first_seq last_seq h =
      let h' = done-injective h in (e, es, refl, cc, cc, cc, cc)

module _ ⦃sha : Sha256⦄ ⦃time : TimeFormat⦄ (json : Json) (logs : LogStore) where
  -- What a client is told by `accepted`: its objects and no others have been appended, as entries that
  -- continue the tenant's chain, in the order of the body and with the objects' texts.
  pub record Accepted (t : Bytes) (body : Bytes) (s s' : Sealer logs) (n first_seq last_seq : ℕ)
      : Type 0 where
    pub objects : List json.Object
    pub parsed : parse_log_objects json body ≡ ok objects
    pub counted : n ≡ length objects
    pub entries : List Entry
    pub appended : logs.append entries s.store ≡ (ok tt, s'.store)
    pub texts : map (λ (e : Entry). e.raw) entries ≡ map (raw_of json) objects
    pub prev_hash : Bytes
    pub chained : IsChained t first_seq prev_hash entries
    pub last : last_seq % 2 ^ 64 ≡ (first_seq + (n - 1)) % 2 ^ 64

  raw_of-record_from_object :
      (source : Bytes) (now : ℤ) (objects : List json.Object)
      → map (λ (r : Record). r.raw) (map (λ o. record_from_object json o source now) objects)
        ≡ map (raw_of json) objects
  unfolding record_from_object
  raw_of-record_from_object source now [] = refl
  raw_of-record_from_object source now (o ∷ objects) =
      rw (raw_of-record_from_object source now objects) refl

  chained_batch :
      (t : Bytes) (h : HeadState) (recs : List Record) (e : Entry) (es : List Entry)
      → e ∷ es ≡ (seal_records t h.next_seq h.prev_hash recs).0
      → IsChained t e.seq h.prev_hash (e ∷ es)
  chained_batch t h recs e es whole =
      let sealed = (seal_records t h.next_seq h.prev_hash recs).0 in
      let chained =
        subst (IsChained t h.next_seq h.prev_hash) (append-nil sealed ∙ sym whole)
          (seal_records-IsChained t h.next_seq h.prev_hash recs [] tt) in
      subst (λ n. IsChained t n h.prev_hash (e ∷ es)) (sym chained.0) chained

  sealed_objects :
      (t body source : Bytes) (now : ℤ) (objects : List json.Object) (s s' : Sealer logs)
      (u : Bytes) (n first_seq last_seq : ℕ) (entries : List Entry)
      → parse_log_objects json body ≡ ok objects
      → seal_batch logs t (map (λ o. record_from_object json o source now) objects) s
        ≡ (ok entries, s')
      → accepted_reply t entries ≡ done (accepted n u first_seq last_seq)
      → (t ≡ u) × Accepted t body s s' n first_seq last_seq
  sealed_objects t body source now objects s s' u n first_seq last_seq entries parsed sealed said =
      let recs = map (λ o. record_from_object json o source now) objects in
      let (h, _, whole, appended) = seal_batch-ok logs t recs s entries s' sealed in
      let (e, es, split, same, counted, first, last) =
        accepted_reply-accepted t entries u n first_seq last_seq said in
      let chained = chained_batch t h recs e es (sym split ∙ whole) in
      (
        same,
        record {
          objects = objects;
          parsed = parsed;
          counted =
              counted
              ∙ ap length whole
              ∙ length-seal_records t h.next_seq h.prev_hash recs
              ∙ length-map _ objects;
          entries = entries;
          appended = appended;
          texts = rw whole (
              raw-seal_records t h.next_seq h.prev_hash recs
              ∙ raw_of-record_from_object source now objects);
          prev_hash = h.prev_hash;
          chained = rw (split, first) chained;
          last =
              let told : n ≡ length (e ∷ es) = counted ∙ ap length split in
              omega (arith, last_entry-IsChained t e.seq h.prev_hash e es chained);
        },
      )

  objects-Accepted :
      (r : Request) (t body : Bytes) (now : ℤ) (parsed : Result (List json.Object))
      (s s' : Sealer logs) (u : Bytes) (n first_seq last_seq : ℕ)
      → parse_log_objects json body ≡ parsed
      → serve_objects json logs now r t parsed s ≡ (done (accepted n u first_seq last_seq), s')
      → (t ≡ u) × Accepted t body s s' n first_seq last_seq
  objects-Accepted r t body now (err e) s s' u n first_seq last_seq at h = cc
  objects-Accepted r t body now (ok []) s s' u n first_seq last_seq at h = cc
  objects-Accepted r t body now (ok (o ∷ objects)) s s' u n first_seq last_seq at h =
      let recs = map (λ x. record_from_object json x r.x_source now) (o ∷ objects) in
      let told : sealed_reply t (seal_batch logs t recs s).0
          ≡ done (accepted n u first_seq last_seq) =
        ap (λ p. p.0) h in
      let after : (seal_batch logs t recs s).1 ≡ s' = ap (λ p. p.1) h in
      elim (Result-cases (seal_batch logs t recs s).0) [
        | inr (e, failed) ↦ let told' = rw failed at told in cc
        | inl (entries, sealed) ↦
            sealed_objects t body r.x_source now (o ∷ objects) s s' u n first_seq last_seq entries
              at (cc) (rw sealed at told)
      ]

  -- What an accepted request has done, whoever sent it.
  abbrev pub Served :
      Result Bytes → Request → Bytes → Sealer logs → Sealer logs → ℕ → ℕ → ℕ → Type 0
  Served who r t s s' n first_seq last_seq =
      (who ≡ ok t) × Accepted t (take (16 * 2 ^ 20) r.body) s s' n first_seq last_seq

  serve_tenant-Served :
      (r : Request) (who : Result Bytes) (now : ℤ) (s s' : Sealer logs) (u : Bytes)
      (n first_seq last_seq : ℕ)
      → serve_tenant json logs now r who s ≡ (done (accepted n u first_seq last_seq), s')
      → Served who r u s s' n first_seq last_seq
  serve_tenant-Served r (err immutable) now s s' u n first_seq last_seq h = cc
  serve_tenant-Served r (err unauthorized) now s s' u n first_seq last_seq h = cc
  serve_tenant-Served r (err (not_attested m)) now s s' u n first_seq last_seq h = cc
  serve_tenant-Served r (err (text m)) now s s' u n first_seq last_seq h = cc
  serve_tenant-Served r (ok t) now s s' u n first_seq last_seq h =
      elim (Option-cases r.read_error) [
        | inr (e, failed) ↦ let h' = rw failed at h in cc
        | inl whole ↦
            let (same, told) =
              objects-Accepted r t (take (16 * 2 ^ 20) r.body) now _ s s' u n first_seq last_seq
                refl (rw whole at h) in
            (
              ap ok same,
              subst (λ x. Accepted x (take (16 * 2 ^ 20) r.body) s s' n first_seq last_seq) same
                  told,
            )
      ]

  -- A client that is told `accepted` has a valid key of exactly that tenant, and every object of the
  -- body's first 16 MiB, in order and with its text, is an entry of the one append that succeeded: the
  -- entries continue a chain of the tenant from the first number that the client is told to the last,
  -- and the count is theirs.
  pub serve_ingest-Served :
      (auth : Bytes → Result Bytes) (r : Request) (now : ℤ) (s s' : Sealer logs) (t : Bytes)
      (n first_seq last_seq : ℕ)
      → serve_ingest json logs now auth r s ≡ (done (accepted n t first_seq last_seq), s')
      → Served (auth r.api_key) r t s s' n first_seq last_seq
  unfolding serve_ingest
  serve_ingest-Served auth r now s s' t n first_seq last_seq h =
      elim (Bool-cases (bytes_equal r.method (codes "POST"))) [
        | inr other ↦ let h' = rw (other, serve_ingest) at h in cc
        | inl post ↦ elim (Bool-cases (is_empty r.api_key)) [
          | inl missing ↦ let h' = rw (post, missing, serve_ingest) at h in cc
          | inr present ↦
              serve_tenant-Served r (auth r.api_key) now s s' t n first_seq last_seq
                (rw (post, present, serve_ingest) at h)
        ]
      ]

  abbrev Returns : Run Response × Sealer logs → Type 0
  Returns out = (response : Response) × (out.0 ≡ done response)

  -- The entries of a batch with a record are not empty, so that the handler may index them.
  serve_objects-Returns :
      (r : Request) (t : Bytes) (now : ℤ) (parsed : Result (List json.Object)) (s : Sealer logs)
      → Returns (serve_objects json logs now r t parsed s)
  serve_objects-Returns r t now (err e) s = (_, refl)
  serve_objects-Returns r t now (ok []) s = (_, refl)
  serve_objects-Returns r t now (ok (o ∷ objects)) s =
      let recs = map (λ x. record_from_object json x r.x_source now) (o ∷ objects) in
      elim (Result-cases (seal_batch logs t recs s).0) [
        | inr (e, failed) ↦ (_, ap (sealed_reply t) failed)
        | inl (entries, sealed) ↦
            let (h, _, whole, _) =
              seal_batch-ok logs t recs s entries (seal_batch logs t recs s).1 (cc) in
            let (x, xs, split) = uncons (length objects) entries (
              ap length whole
              ∙ length-seal_records t h.next_seq h.prev_hash recs
              ∙ length-map _ (o ∷ objects)) in
            (_, ap (sealed_reply t) (sealed ∙ ap ok split))
      ]

  serve_tenant-Returns :
      (r : Request) (who : Result Bytes) (now : ℤ) (s : Sealer logs)
      → Returns (serve_tenant json logs now r who s)
  serve_tenant-Returns r (err immutable) now s = (_, refl)
  serve_tenant-Returns r (err unauthorized) now s = (_, refl)
  serve_tenant-Returns r (err (not_attested m)) now s = (_, refl)
  serve_tenant-Returns r (err (text m)) now s = (_, refl)
  serve_tenant-Returns r (ok t) now s = elim (Option-cases r.read_error) [
    | inr (e, failed) ↦ rw failed (_, refl)
    | inl whole ↦ rw whole (serve_objects-Returns r t now _ s)
  ]

  -- The handler answers every request: it never panics on the entries that the sealer returns.
  pub serve_ingest_total :
      (auth : Bytes → Result Bytes) (r : Request) (now : ℤ) (s : Sealer logs)
      → (response : Response) × ((serve_ingest json logs now auth r s).0 ≡ done response)
  unfolding serve_ingest
  serve_ingest_total auth r now s = elim (Bool-cases (bytes_equal r.method (codes "POST"))) [
    | inr other ↦ rw (other, serve_ingest) (_, refl)
    | inl post ↦ elim (Bool-cases (is_empty r.api_key)) [
      | inl missing ↦ rw (post, missing, serve_ingest) (_, refl)
      | inr present ↦
          rw (post, present, serve_ingest) (serve_tenant-Returns r (auth r.api_key) now s)
    ]
  ]

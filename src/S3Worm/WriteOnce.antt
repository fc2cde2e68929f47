-- ===== src/S3Worm/WriteOnce.antt =====
-- What `Put` and `Get` promise over a bucket whose reads see the writes before them.
use multi_log.Prelude.{
  ◌⊎◌, ℕ, ◌+◌, ◌^◌, ◌<◌, ◌≡◌, ◌≢◌, refl, sym, ◌∙◌, ap, Bool-cases, inl, inr, true, List, [], ◌∷◌,
  Option, none, some, Bytes, All, IsByte, immutable, Error, Result, Result-cases, ok, err,
}
use mathlib.Core.Path.{subst}
use multi_log.Checkpoint.{Checkpoint}
use multi_log.Checkpoint.Codec.{Json, to_wire, marshal, unmarshal, unmarshal-marshal}
use multi_log.S3Worm.{
  Fetched, body, api_error, other_error, S3, Store, key, is_not_found, checkpoint_of, found,
  get_checkpoint, put_document, put_checkpoint,
}
use multi_log.S3Worm.Keys.{key-injective}

-- What the service says of the current version of the object at a key: a body that is read is it, an
-- answer that there is none is true, and a PutObject touches no other key, whatever it replies.
pub record IsConsistent (s3 : S3) (bucket : Bytes) (object : Bytes → s3.State → Option Bytes)
    : Type 0 where
  pub reads :
      (k b : Bytes) (s : s3.State) → s3.get_object bucket k s ≡ body (ok b) → object k s ≡ some b
  pub misses :
      (k code : Bytes) (e : Error) (s : s3.State)
      → s3.get_object bucket k s ≡ api_error code e
      → is_not_found code ≡ true
      → object k s ≡ none
  pub puts :
      (k b : Bytes) (until : ℕ) (s s' : s3.State)
      → s3.put_object bucket k b until s ≡ (ok tt, s')
      → object k s' ≡ some b
  pub others :
      (k j b : Bytes) (until : ℕ) (s : s3.State)
      → k ≢ j
      → object j (s3.put_object bucket k b until s).1 ≡ object j s

module _ (json : Json) (s3 : S3) (store : Store) where
  -- Any sequence of `Put` calls, whatever each replies.
  abbrev pub put_all : List Checkpoint → s3.State → s3.State
  put_all [] s = s
  put_all (cp ∷ cps) s = put_all cps (put_checkpoint json s3 store cp s).1

module _ (json : Json) (s3 : S3) (store : Store) (object : Bytes → s3.State → Option Bytes)
    (consistent : IsConsistent s3 store.bucket object) where
  checkpoint_of-none :
      (k : Bytes) (s : s3.State) (answer : Fetched)
      → s3.get_object store.bucket k s ≡ answer
      → checkpoint_of json s3 store answer ≡ ok none
      → object k s ≡ none
  checkpoint_of-none k s (body (ok b)) at h = elim (Result-cases (unmarshal json b)) [
    | inl (cp, read) ↦ let h' = rw read at h in cc
    | inr (e, failed) ↦ let h' = rw failed at h in cc
  ]
  checkpoint_of-none k s (body (err e)) at h = cc
  checkpoint_of-none k s (api_error code e) at h = elim (Bool-cases (is_not_found code)) [
    | inl missing ↦ consistent.misses k code e s at missing
    | inr other ↦ let h' = rw other at h in cc
  ]
  checkpoint_of-none k s (other_error e) at h = cc

  -- A call of `Put` writes only where it has found no object, and then only there.
  abbrev Writes : Checkpoint → s3.State → Result (Unit {0}) × s3.State → Type 0
  Writes cp s out =
      (document : Bytes) × (marshal json cp ≡ ok document)
      × (object (key cp.tenant_id cp.seq_end) s ≡ none)
      × (s3.put_object store.bucket (key cp.tenant_id cp.seq_end) document
            (s3.now s + store.retain_for) s
          ≡ out)

  put_document-cases :
      (cp : Checkpoint) (s : s3.State) (before : Result (Option Checkpoint))
      (document : Result Bytes)
      → get_checkpoint json s3 store cp.tenant_id cp.seq_end s ≡ before
      → marshal json cp ≡ document
      → let out = put_document json s3 store cp before document s in
        ((e : Error) × (out ≡ (err e, s))) ⊎ Writes cp s out
  unfolding get_checkpoint
  put_document-cases cp s (err e) document got written = inl (e, refl)
  put_document-cases cp s (ok (some x)) document got written = inl (immutable, refl)
  put_document-cases cp s (ok none) (err e) got written = inl (e, refl)
  put_document-cases cp s (ok none) (ok document) got written =
      inr (document, written, checkpoint_of-none _ s _ refl got, refl)

  put_checkpoint-cases :
      (cp : Checkpoint) (s : s3.State)
      → let out = put_checkpoint json s3 store cp s in
        ((e : Error) × (out ≡ (err e, s))) ⊎ Writes cp s out
  unfolding put_checkpoint
  put_checkpoint-cases cp s = put_document-cases cp s _ _ refl refl

  put_checkpoint_keeps :
      (t : Bytes) (n : ℕ) (b : Bytes) (cp : Checkpoint) (s : s3.State)
      → object (key t n) s ≡ some b
      → object (key t n) (put_checkpoint json s3 store cp s).1 ≡ some b
  put_checkpoint_keeps t n b cp s there = elim (put_checkpoint-cases cp s) [
    | inl (e, refused) ↦
        ap (λ (out : Result (Unit {0}) × s3.State). object (key t n) out.1) refused ∙ there
    | inr (document, _, missing, written) ↦
        let apart : key cp.tenant_id cp.seq_end ≢ key t n =
          λ same. let there' = subst (λ k. object k s ≡ some b) (sym same) there in cc in
        ap (λ (out : Result (Unit {0}) × s3.State). object (key t n) out.1) (sym written)
        ∙ consistent.others (key cp.tenant_id cp.seq_end) (key t n) document _ s apart
        ∙ there
  ]

  -- An object that is anchored stays as it is through any sequence of `Put` calls, for its own
  -- checkpoint or others, whatever the service replies to each: where a body that is read is the
  -- object, an answer that there is none is true, and a PutObject touches no other key.
  pub put_all_keeps :
      (t : Bytes) (n : ℕ) (b : Bytes) (cps : List Checkpoint) (s : s3.State)
      → object (key t n) s ≡ some b
      → object (key t n) (put_all json s3 store cps s) ≡ some b
  put_all_keeps t n b [] s there = there
  put_all_keeps t n b (cp ∷ cps) s there =
      put_all_keeps t n b cps (put_checkpoint json s3 store cp s).1
        (put_checkpoint_keeps t n b cp s there)

  -- A `Put` that succeeds has found no object under its key and written one there, which a `Get` that
  -- reads the object then returns as the checkpoint that was put; the object of any other tenant or
  -- end is as it was, where the ends are below 2 ^ 64. The hashes are byte strings, and package json reads its document back.
  pub get_checkpoint-put_checkpoint :
      (cp : Checkpoint) (s s' : s3.State) (b : Bytes)
      → put_checkpoint json s3 store cp s ≡ (ok tt, s')
      → All IsByte cp.head_hash
      → All IsByte cp.merkle_root
      → All IsByte cp.prev_checkpoint_hash
      → All IsByte cp.checkpoint_id
      → ((document : Bytes)
          → json.marshal_indent (to_wire cp) ≡ ok document
          → json.unmarshal_wire document ≡ ok (to_wire cp))
      → s3.get_object store.bucket (key cp.tenant_id cp.seq_end) s' ≡ body (ok b)
      → cp.seq_end < 2 ^ 64
      → (t : Bytes) (n : ℕ) → n < 2 ^ 64
      → ¬ ((cp.tenant_id ≡ t) × (cp.seq_end ≡ n))
      → (get_checkpoint json s3 store cp.tenant_id cp.seq_end s' ≡ ok (some cp))
        × (object (key cp.tenant_id cp.seq_end) s ≡ none)
        × (object (key t n) s' ≡ object (key t n) s)
  unfolding get_checkpoint
  get_checkpoint-put_checkpoint cp s s' b put head root prev id back got hn t n hm apart =
      elim (put_checkpoint-cases cp s) [
        | inl (e, refused) ↦ let apart = sym refused ∙ put in cc
        | inr (document, written, missing, called) ↦
            let k = key cp.tenant_id cp.seq_end in
            let stored = consistent.puts k document _ s s' (called ∙ put) in
            let same = sym (consistent.reads k b s' got) ∙ stored in
            let same' : document ≡ b = cc in
            (
              ap (checkpoint_of json s3 store) got
                  ∙ ap found (
                      ap (unmarshal json) (sym same')
                      ∙ unmarshal-marshal json cp document head root prev id written
                          (back document)),
              missing,
              ap (λ (out : Result (Unit {0}) × s3.State). object (key t n) out.1)
                    (sym (called ∙ put))
                  ∙ consistent.others k (key t n) document _ s
                      (λ same. apart (key-injective cp.tenant_id t cp.seq_end n hn hm same)),
            )
      ]

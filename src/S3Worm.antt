-- ===== src/S3Worm.antt =====
-- internal/witness/s3worm/s3worm.go: checkpoints as objects of an S3 bucket under Object Lock. The S3
-- client and the clock are an interface over the service's state; times are nanoseconds.
pub mod Keys
pub mod WriteOnce
use multi_log.Prelude.{
  ℕ, zero, suc, ◌+◌, ◌*◌, ◌/◌, ◌%◌, Bool, true, false, ◌||◌, ◌==◌, if◌then◌else◌, List, [], ◌∷◌,
  ◌++◌, Option, none, some, Bytes, codes, bytes_equal, immutable, Error, Result, ok, err, and_then,
}
use multi_log.Checkpoint.{Checkpoint}
use multi_log.Checkpoint.Codec.{Json, marshal, unmarshal}
use multi_log.Witness.{CheckpointStore, insert_by_end}

-- How GetObject ends: with a body, which may fail to be read to its end, with an error of the API by
-- its code, or with another error.
pub data Fetched : Type 0 where
  body : Result Bytes → Fetched
  api_error : Bytes → Error → Fetched
  other_error : Error → Fetched

-- The client. A bucket comes first, then a key or prefix; `put_object` takes the body and the end of
-- the retention. `list_pages` are the pages of the paginator, up to the first that fails.
pub record S3 : Type 1 where
  pub State : Type 0
  pub now : State → ℕ
  pub head_bucket : Bytes → State → Result (Unit {0})
  pub create_bucket : Bytes → State → Result (Unit {0}) × State
  pub get_object : Bytes → Bytes → State → Fetched
  pub put_object : Bytes → Bytes → Bytes → ℕ → State → Result (Unit {0}) × State
  pub list_pages : Bytes → Bytes → State → List (Result (List Bytes))

pub record Store : Type 0 where
  pub bucket : Bytes
  pub retain_for : ℕ

-- The configured retention, or 365 days.
unfoldable pub new : Bytes → ℕ → Store
new bucket retain_for = record {
  bucket = bucket;
  retain_for = if retain_for == 0 then 365 * 24 * 3600 * 1000000000 else retain_for;
}

-- `%0wd` of a number of at most `w` digits.
unfoldable pub padded : ℕ → ℕ → Bytes
padded zero n = []
padded (suc width) n = padded width (n / 10) ++ (48 + n % 10) ∷ []

unfoldable pub key : Bytes → ℕ → Bytes
unfolding padded
key tenant_id seq_end = tenant_id ++ (codes "/checkpoints/" ++ (padded 20 seq_end ++ codes ".json"))

abbrev pub is_not_found : Bytes → Bool
is_not_found code = bytes_equal code (codes "NotFound") || bytes_equal code (codes "NoSuchKey")

abbrev pub found : Result Checkpoint → Result (Option Checkpoint)
found (ok cp) = ok (some cp)
found (err e) = err e

unfoldable pub sort_by_end : List Checkpoint → List Checkpoint
unfolding insert_by_end
sort_by_end [] = []
sort_by_end (cp ∷ cps) = insert_by_end cp (sort_by_end cps)

module _ (json : Json) (s3 : S3) (store : Store) where
  unfoldable pub ensure_bucket : s3.State → Result (Unit {0}) × s3.State
  ensure_bucket s = elim (s3.head_bucket store.bucket s) [
    | ok _ ↦ (ok tt, s)
    | err e ↦ s3.create_bucket store.bucket s
  ]

  -- The end of `Get`, on what the client answers.
  abbrev pub checkpoint_of : Fetched → Result (Option Checkpoint)
  checkpoint_of (body document) = found (and_then document (unmarshal json))
  checkpoint_of (api_error code e) = if is_not_found code then ok none else err e
  checkpoint_of (other_error e) = err e

  unfoldable pub get_checkpoint : Bytes → ℕ → s3.State → Result (Option Checkpoint)
  unfolding key
  get_checkpoint tenant_id seq_end s =
      checkpoint_of (s3.get_object store.bucket (key tenant_id seq_end) s)

  -- The end of `Put`, on what `Get` and `Marshal` return.
  abbrev pub put_document :
      Checkpoint
      → Result (Option Checkpoint)
      → Result Bytes
      → s3.State
      → Result (Unit {0}) × s3.State
  put_document cp (err e) document s = (err e, s)
  put_document cp (ok (some x)) document s = (err immutable, s)
  put_document cp (ok none) (err e) s = (err e, s)
  put_document cp (ok none) (ok document) s =
      s3.put_object store.bucket (key cp.tenant_id cp.seq_end) document
        (s3.now s + store.retain_for) s

  unfoldable pub put_checkpoint : Checkpoint → s3.State → Result (Unit {0}) × s3.State
  unfolding get_checkpoint key
  put_checkpoint cp s =
      put_document cp (get_checkpoint cp.tenant_id cp.seq_end s) (marshal json cp) s

  -- One object of a page.
  abbrev pub read_object : Fetched → Result Checkpoint
  read_object (body document) = and_then document (unmarshal json)
  read_object (api_error code e) = err e
  read_object (other_error e) = err e

  unfoldable pub read_objects : List Bytes → s3.State → Result (List Checkpoint)
  read_objects [] s = ok []
  read_objects (k ∷ keys) s =
      let rest = read_objects keys s in
      and_then (read_object (s3.get_object store.bucket k s))
        (λ cp. and_then rest (λ cps. ok (cp ∷ cps)))

  unfoldable pub read_pages : List (Result (List Bytes)) → s3.State → Result (List Checkpoint)
  unfolding read_objects
  read_pages [] s = ok []
  read_pages (page ∷ pages) s =
      let rest = read_pages pages s in
      and_then page
        (λ keys. and_then (read_objects keys s) (λ cps. and_then rest (λ more. ok (cps ++ more))))

  unfoldable pub all_checkpoints : Bytes → s3.State → Result (List Checkpoint)
  unfolding read_pages sort_by_end
  all_checkpoints tenant_id s =
      and_then (read_pages (s3.list_pages store.bucket (tenant_id ++ codes "/checkpoints/") s) s)
        (λ cps. ok (sort_by_end cps))

  -- The store as the interface that the anchorer and the verifier take.
  abbrev pub s3_store : CheckpointStore
  s3_store = record {
    State = s3.State;
    name = codes "S3 Object Lock (WORM)";
    put_checkpoint = put_checkpoint;
    get_checkpoint = get_checkpoint;
    all_checkpoints = all_checkpoints;
  }

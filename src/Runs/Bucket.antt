-- ===== src/Runs/Bucket.antt =====
-- Runs of the S3 store over a bucket that is a map.
use multi_log.Prelude.{
  ◌≡◌, refl, sym, ◌∙◌, ap, arith, Bool-cases, inl, inr, [], ◌∷◌, Option, none, some, Option-cases,
  Bytes, codes, bytes_equal, bytes_equal→eq, Map, Bytes_eq, get, put, get-put_self, get-put_ne, pos,
  text, ok,
}
use multi_log.Checkpoint.{Checkpoint}
use multi_log.Checkpoint.Codec.{Json, to_wire, marshal}
use multi_log.S3Worm.{
  Fetched, body, api_error, S3, Store, padded, key, get_checkpoint, put_checkpoint,
}
use multi_log.S3Worm.WriteOnce.{IsConsistent, put_all, put_all_keeps, get_checkpoint-put_checkpoint}

abbrev answer : Option Bytes → Fetched
answer none = api_error (codes "NoSuchKey") (text (codes "no such key"))
answer (some b) = body (ok b)

abbrev s3 : S3
s3 = record {
  State = Map Bytes Bytes;
  now = λ s. 5;
  head_bucket = λ bucket s. ok tt;
  create_bucket = λ bucket s. (ok tt, s);
  get_object = λ bucket k s. answer (get k s);
  put_object = λ bucket k b until s. (ok tt, put k b s);
  list_pages = λ bucket prefix s. [];
}

abbrev bucket : Store
bucket = record { bucket = codes "b"; retain_for = 10 }

abbrev object : Bytes → Map Bytes Bytes → Option Bytes
object k s = get k s

bucket-IsConsistent : IsConsistent s3 (codes "b") object
bucket-IsConsistent = record {
  reads = λ k b s h. elim (Option-cases (get k s)) [
    | inl missing ↦ let h' = rw missing at h in cc
    | inr (c, found) ↦ let h' = rw found at h in cc
  ];
  misses = λ k code e s h known. elim (Option-cases (get k s)) [
    | inl missing ↦ missing
    | inr (c, found) ↦ let h' = rw found at h in cc
  ];
  puts = λ k b until s s' h.
      let same : put k b s ≡ s' = cc in ap (get k) (sym same) ∙ get-put_self k b s;
  others = λ k j b until s apart. elim (Bool-cases (bytes_equal k j)) [
    | inl same ↦ absurd (apart (bytes_equal→eq k j same))
    | inr other ↦ get-put_ne k j b s other
  ];
}

abbrev cp : Checkpoint
cp = record {
  tenant_id = codes "acme";
  seq_start = 0;
  seq_end = 1;
  entry_count = 2;
  head_hash = 1 ∷ 255 ∷ [];
  merkle_root = 2 ∷ [];
  prev_checkpoint_hash = [];
  anchored_at = pos 9;
  canon_version = 1;
  checkpoint_id = 3 ∷ [];
}

-- A library that knows one document.
abbrev one_document : Json
one_document = record {
  marshal_indent = λ w. ok (codes "{}");
  unmarshal_wire = λ b. ok (to_wire cp);
}

abbrev after_put : Map Bytes Bytes
after_put = (put_checkpoint one_document s3 bucket cp []).1

puts_first : put_checkpoint one_document s3 bucket cp [] ≡ (ok tt, after_put)
unfolding put_checkpoint get_checkpoint marshal get
puts_first = refl

reads_first : s3.get_object (codes "b") (key (codes "acme") 1) after_put ≡ body (ok (codes "{}"))
unfolding put_checkpoint get_checkpoint marshal get put key padded
reads_first = refl

get_checkpoint-put_checkpoint_example :
    (get_checkpoint one_document s3 bucket (codes "acme") 1 after_put ≡ ok (some cp))
    × (object (key (codes "acme") 1) [] ≡ none)
    × (object (key (codes "acme") 3) after_put ≡ object (key (codes "acme") 3) [])
get_checkpoint-put_checkpoint_example =
    get_checkpoint-put_checkpoint one_document s3 bucket object bucket-IsConsistent cp [] after_put
      (codes "{}") puts_first (omega arith, (omega arith, tt)) (omega arith, tt) tt
      (omega arith, tt) (λ document written. refl) reads_first (omega arith) (codes "acme") 3
      (omega arith) (λ (_, same). omega (arith, same))

holds : object (key (codes "acme") 1) after_put ≡ some (codes "{}")
unfolding put_checkpoint get_checkpoint marshal get put key padded
holds = refl

put_all_keeps_example :
    object (key (codes "acme") 1) (put_all one_document s3 bucket (cp ∷ cp ∷ []) after_put)
    ≡ some (codes "{}")
put_all_keeps_example =
    put_all_keeps one_document s3 bucket object bucket-IsConsistent (codes "acme") 1 (codes "{}")
      (cp ∷ cp ∷ []) after_put holds

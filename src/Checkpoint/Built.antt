-- ===== src/Checkpoint/Built.antt =====
-- What `Build` puts into a checkpoint.
use multi_log.Prelude.{
  ℕ, ◌+◌, ◌%◌, ◌^◌, ◌≡◌, refl, sym, ◌∙◌, arith, List, [], ◌∷◌, map, Bytes, ℤ, length, done,
  done-injective,
}
use multi_log.Crypto.{Sha256, canon_version, checkpoint_id}
use multi_log.Chain.{Entry}
use multi_log.Chain.Window.{IsNumbered}
use multi_log.Chain.Sealer.Chained.{last_hash}
use multi_log.Checkpoint.{Checkpoint, last_entry, build}
use multi_log.Checkpoint.Merkle.{merkle_root}
use multi_log.Checkpoint.Merkle.Roots.{merkle_root_total, length-merkle_root}

-- The last of a nonempty list.
abbrev pub last_of : Entry → List Entry → Entry
last_of e [] = e
last_of e (x ∷ es) = last_of x es

last_entry-last_of : (e : Entry) (es : List Entry) → last_entry (e ∷ es) ≡ done (last_of e es)
last_entry-last_of e [] = refl
last_entry-last_of e (x ∷ es) = last_entry-last_of x es

pub seq-last_of :
    (want : ℕ) (e : Entry) (es : List Entry)
    → IsNumbered want (e ∷ es)
    → (last_of e es).seq ≡ want + length es
seq-last_of want e [] (h, _) = omega arith
seq-last_of want e (x ∷ es) (h, hs) = omega (arith, seq-last_of (want + 1) x es hs)

pub last_hash-last_of :
    ⦃sha : Sha256⦄ (p : Bytes) (e : Entry) (es : List Entry)
    → last_hash p (e ∷ es) ≡ (last_of e es).entry_hash
last_hash-last_of p e [] = refl
last_hash-last_of p e (x ∷ es) = last_hash-last_of e.entry_hash x es

module _ ⦃sha : Sha256⦄ where
  -- The checkpoint over a nonempty window with a given Merkle root.
  abbrev pub made : Bytes → Entry → List Entry → Bytes → Bytes → ℤ → Checkpoint
  made t e es root prev at =
      let last = last_of e es in
      let count = length (e ∷ es) % 2 ^ 64 in
      record {
        tenant_id = t;
        seq_start = e.seq;
        seq_end = last.seq;
        entry_count = count;
        head_hash = last.entry_hash;
        merkle_root = root;
        prev_checkpoint_hash = prev;
        anchored_at = at;
        canon_version = canon_version;
        checkpoint_id = checkpoint_id t e.seq last.seq count last.entry_hash root prev at;
      }

  abbrev entry_hashes : List Entry → List Bytes
  entry_hashes es = map (λ e. e.entry_hash) es

  build-made :
      (t : Bytes) (e : Entry) (es : List Entry) (prev : Bytes) (at : ℤ) (root : Bytes)
      → merkle_root (entry_hashes (e ∷ es)) ≡ done root
      → build t (e ∷ es) prev at ≡ done (made t e es root prev at)
  unfolding build
  build-made t e es prev at root h = rw (last_entry-last_of e es, h)

  -- `Build` succeeds on every nonempty window.
  pub build_total :
      (t : Bytes) (e : Entry) (es : List Entry) (prev : Bytes) (at : ℤ)
      → (root : Bytes) × (merkle_root (entry_hashes (e ∷ es)) ≡ done root)
        × (build t (e ∷ es) prev at ≡ done (made t e es root prev at))
  build_total t e es prev at =
      let (root, h) = merkle_root_total (entry_hashes (e ∷ es)) in
      (root, h, build-made t e es prev at root h)

  -- What is known of a checkpoint that `Build` returned.
  pub build_result :
      (t : Bytes) (e : Entry) (es : List Entry) (prev : Bytes) (at : ℤ) (cp : Checkpoint)
      → build t (e ∷ es) prev at ≡ done cp
      → (root : Bytes) × (cp ≡ made t e es root prev at) × (length root ≡ 32)
  build_result t e es prev at cp h =
      let (root, rooted, built) = build_total t e es prev at in
      (root, done-injective (sym h ∙ built), length-merkle_root _ root rooted)

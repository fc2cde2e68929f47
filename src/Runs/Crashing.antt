-- ===== src/Runs/Crashing.antt =====
-- A run of the anchorer after one that ended between the WORM store and the working copy.
use multi_log.Prelude.{
  map, Bytes, ◌≢◌, ap, true, false, ℕ, ◌≡◌, refl, sym, ◌∙◌, arith, [], ◌∷◌, none, some, be_bytes,
  bytes_equal, bytes_equal_refl, pos, Bytes_eq, get, done, done-injective,
}
use multi_log.Chain.{Entry}
use multi_log.Checkpoint.{Checkpoint, commitment, build}
use multi_log.Chain.Sealer.{sealed_entry}
use multi_log.Checkpoint.Built.{made, build_total}
use multi_log.Checkpoint.Merkle.{merkle_root}
use multi_log.Verify.Tamper.{Anchored}
use multi_log.Anchor.Crashed.{HasCrashed, anchor_tenant-crashed}
use multi_log.Verify.{by_name}
use multi_log.Anchor.{anchor_tenant, anchor_windows, anchor_window, stamp_all}
use multi_log.Runs.Toy.{toy, acme, early, first, second, anchored, early-IsChained, early-Anchored}
use multi_log.Runs.Anchoring.{World, hold, copy, services, views, views-IsFaithful, before}
use multi_log.Checkpoint.Merkle.{merkle_loop, next_level}
use multi_log.Crypto.{
  hash, chain_hash, genesis, entry_leaf, genesis_encoder, put_uint64, entry_encoder,
  checkpoint_encoder,
}
use multi_log.Crypto.Commit.{NoCollision, checkpoint_message}

-- The checkpoint of a first run, at an earlier time, and the state that the run left.
abbrev early_made :
    (root : Bytes) × (merkle_root (map (λ (e : Entry). e.entry_hash) early) ≡ done root)
    × (build acme early [] (pos 8) ≡ done (made acme first (second ∷ []) root [] (pos 8)))
early_made = build_total acme first (second ∷ []) [] (pos 8)

abbrev put_early : Checkpoint
put_early = made acme first (second ∷ []) early_made.0 [] (pos 8)

abbrev crashed : World
crashed = hold put_early before

put_early-Anchored : Anchored acme 0 1 early [] put_early
put_early-Anchored = record {
  chain = early-IsChained;
  bounded = early-Anchored.bounded;
  ordered = early-Anchored.ordered;
  inside = early-Anchored.inside;
  small = early-Anchored.small;
  built = early_made.2;
  named = early-Anchored.named;
  linked = early-Anchored.linked;
  dated = omega arith;
  in_range = early-Anchored.in_range;
}

crashed_ran : anchor_tenant services [] 2 acme crashed ≡ done ((1, none), copy anchored crashed)
unfolding anchor_tenant anchor_windows anchor_window stamp_all sealed_entry
crashed_ran = rw ((build_total acme first (second ∷ []) [] (pos 9)).2) refl

abbrev root_value : Bytes
root_value =
    164 ∷ 138 ∷ 119 ∷ 95 ∷ 59 ∷ 235 ∷ 31 ∷ 182 ∷ 110 ∷ 192 ∷ 179 ∷ 160 ∷ 143 ∷ 210 ∷ 114 ∷ 225 ∷ 111
    ∷ 22 ∷ 139 ∷ 232 ∷ 68 ∷ 56 ∷ 126 ∷ 185 ∷ 27 ∷ 172 ∷ 98 ∷ 6 ∷ 103 ∷ 25 ∷ 246 ∷ 150 ∷ []

root_computed : merkle_root (map (λ (e : Entry). e.entry_hash) early) ≡ done root_value
unfolding merkle_root merkle_loop next_level sealed_entry hash be_bytes chain_hash genesis
    entry_leaf genesis_encoder put_uint64 entry_encoder
root_computed = refl

abbrev message_at : Bytes → ℕ → Bytes
message_at root n = checkpoint_message (commitment (made acme first (second ∷ []) root [] (pos n)))

hash_apart : bytes_equal (hash (message_at root_value 9)) (hash (message_at root_value 8)) ≡ false
unfolding sealed_entry checkpoint_encoder hash be_bytes chain_hash genesis entry_leaf
    genesis_encoder put_uint64 entry_encoder
hash_apart = refl

message_early : message_at root_value 8 ≡ checkpoint_message (commitment put_early)
message_early = ap (λ root. message_at root 8) (done-injective (sym root_computed ∙ early_made.1))

message_anchored : message_at root_value 9 ≡ checkpoint_message (commitment anchored)
message_anchored =
    ap (λ root. message_at root 9)
      (done-injective (sym root_computed ∙ (build_total acme first (second ∷ []) [] (pos 9)).1))

hashes_apart :
    hash (checkpoint_message (commitment anchored))
    ≢ hash (checkpoint_message (commitment put_early))
hashes_apart same =
    let even : hash (message_at root_value 9) ≡ hash (message_at root_value 8) =
      ap hash message_anchored ∙ same ∙ sym (ap hash message_early) in
    let clash : true ≡ false =
      sym (bytes_equal_refl (hash (message_at root_value 8)))
      ∙ sym (ap (λ h. bytes_equal h (hash (message_at root_value 8))) even)
      ∙ hash_apart in
    absurd (cc)

collisions :
    (again : Checkpoint)
    → build acme early [] (pos 9) ≡ done again
    → NoCollision
        (checkpoint_message (commitment again))
        (checkpoint_message (commitment put_early))
collisions again built same =
    let it : again ≡ anchored = done-injective (sym built ∙ early-Anchored.built) in
    absurd (
      hashes_apart
        (sym (ap (λ (c : Checkpoint). hash (checkpoint_message (commitment c))) it) ∙ same))

has_crashed :
    HasCrashed services views views-IsFaithful
      (by_name [] [])
      []
      tt
      1
      (omega arith)
      acme
      early
      early-IsChained
      early-Anchored.bounded
      early-Anchored.named
      early-Anchored.in_range
      0
      1
      []
      put_early
      crashed
unfolding get
has_crashed = record {
  cps = [];
  rows = refl;
  last = refl;
  first = λ _. refl;
  held = refl;
  anchored = put_early-Anchored;
}

anchor_tenant-crashed_example :
    (id' : Bytes) × (views.last acme (copy anchored crashed) ≡ some (1, id'))
    × (views.held acme (copy anchored crashed) ≡ views.held acme crashed)
    × (id' ≢ put_early.checkpoint_id)
anchor_tenant-crashed_example =
    anchor_tenant-crashed services views views-IsFaithful (by_name [] []) [] tt 1 (omega arith) acme
      early early-IsChained early-Anchored.bounded early-Anchored.named early-Anchored.in_range 0
      first (second ∷ []) [] put_early crashed (copy anchored crashed) 1 has_crashed (omega arith)
      refl (omega arith) (λ (e : pos 9 ≡ pos 8). absurd (cc)) collisions crashed_ran

-- ===== src/Runs/Toy.antt =====
-- Concrete data for the runs: a function with 32-byte values in the place of SHA-256, and two short
-- chains.
use multi_log.Prelude.{
  ℕ, ◌+◌, ◌*◌, ◌%◌, ◌^◌, ◌≡◌, refl, List, [], ◌∷◌, Bytes, codes, be_bytes, length-be_bytes, pos,
  Bytes_eq, drop, length, arith, ◌<◌,
}
use multi_log.Crypto.{Sha256, genesis}
use multi_log.Crypto.Commit.{PayloadInRange}
use multi_log.Chain.{Entry, new_store}
use multi_log.Chain.Sealer.{Sealer, new_sealer, sealed_entry}
use multi_log.Chain.Sealer.Chained.{payload, IsChained}
use multi_log.Chain.Sealer.Agree.{AllInRange, IsChained-front}
use multi_log.Checkpoint.Built.{made, build_total}
use multi_log.Verify.Tamper.{Anchored}
use multi_log.Chain.Sealer.Honest.{Line, seal_all, sealed_chain, sealed_chain-IsChained, first_head}
use multi_log.Checkpoint.{Checkpoint}

abbrev mix : ℕ → Bytes → ℕ
mix acc [] = acc
mix acc (b ∷ bs) = mix ((acc * 257 + b + 1) % 2 ^ 256) bs

instance abbrev pub toy : Sha256
toy = record { sum256 = λ b. be_bytes 32 (mix 7 b); length-sum256 = λ b. length-be_bytes 32 _ }

abbrev pub acme : Bytes
acme = codes "acme"

abbrev pub globex : Bytes
globex = codes "globex"

abbrev line : Bytes → Bytes → Line
line t text = record {
  tenant_id = t;
  source = codes "web";
  raw = text;
  event_time = pos 5;
  ingest_time = pos 6;
}

abbrev pub lines : List Line
lines =
    line acme (codes "a")
    ∷ line globex (codes "x")
    ∷ line acme (codes "b")
    ∷ line acme (codes "c")
    ∷ []

abbrev pub acme_lines : List Line
acme_lines = line acme (codes "a") ∷ line acme (codes "b") ∷ line acme (codes "c") ∷ []

abbrev pub sealer : Sealer
sealer = seal_all (new_sealer new_store) lines

abbrev pub chain : List Entry
chain = sealed_chain acme (first_head acme) acme_lines

-- The first two of the three entries, and the checkpoint anchored over them.
abbrev pub first : Entry
first = sealed_entry (first_head acme) acme (codes "web") (codes "a") (pos 5) (pos 6)

abbrev pub second : Entry
second =
    sealed_entry (record { next_seq = 1; prev_hash = first.entry_hash }) acme (codes "web")
      (codes "b") (pos 5) (pos 6)

abbrev pub third : Entry
third =
    sealed_entry (record { next_seq = 2; prev_hash = second.entry_hash }) acme (codes "web")
      (codes "c") (pos 5) (pos 6)

abbrev pub early : List Entry
early = first ∷ second ∷ []

abbrev pub early_root : Bytes
early_root = (build_total acme first (second ∷ []) [] (pos 9)).0

abbrev pub anchored : Checkpoint
anchored = made acme first (second ∷ []) early_root [] (pos 9)

pub chain-IsChained : IsChained acme 0 (genesis acme) chain
chain-IsChained = sealed_chain-IsChained acme (first_head acme) acme_lines

pub early-IsChained : IsChained acme 0 (genesis acme) early
early-IsChained = IsChained-front acme 0 (genesis acme) early (drop 2 chain) chain-IsChained

payload-InRange :
    (e : Entry)
    → e.event_time ≡ pos 5
    → e.ingest_time ≡ pos 6
    → e.seq < 10
    → length e.source < 10
    → length e.raw < 10
    → PayloadInRange (payload acme e)
payload-InRange e at in_at seq source raw = record {
  tenant = omega arith;
  position = omega arith;
  event = rw at (omega arith);
  ingest = rw in_at (omega arith);
  origin = omega arith;
  text = omega arith;
}

pub chain-AllInRange : AllInRange acme chain
unfolding sealed_entry
chain-AllInRange = (
  payload-InRange first refl refl (omega arith) (omega arith) (omega arith),
  (
    payload-InRange second refl refl (omega arith) (omega arith) (omega arith),
    (payload-InRange third refl refl (omega arith) (omega arith) (omega arith), tt),
  ),
)

pub early-Anchored : Anchored acme 0 1 early [] anchored
unfolding sealed_entry
early-Anchored = record {
  chain = early-IsChained;
  bounded = omega arith;
  ordered = omega arith;
  inside = omega arith;
  small = omega arith;
  built = (build_total acme first (second ∷ []) [] (pos 9)).2;
  named = omega arith;
  linked = omega arith;
  dated = omega arith;
  in_range = (chain-AllInRange.0, (chain-AllInRange.1.0, tt));
}

-- ===== src/Anchor.antt =====
-- internal/anchor/anchor.go: how the entries sealed since the last checkpoint are anchored. The
-- databases, the WORM store and the clock are an interface over one state, `World`; the notaries are
-- a list.
pub mod Total
pub mod Views
pub mod Stamps
pub mod Settled
pub mod Complete
pub mod Verified
pub mod Crashed
use multi_log.Prelude.{
  ℕ, zero, suc, ◌+◌, ◌%◌, ◌^◌, Bool, true, false, ltb, if◌then◌else◌, List, [], ◌∷◌, Option, none,
  some, Bytes, ℤ, pos, negsuc, length, take, drop, Error, immutable, Result, ok, err, Run, done,
  looping, ◌>>=◌,
}
use multi_log.Crypto.{Sha256}
use multi_log.Chain.{Entry}
use multi_log.Checkpoint.{Checkpoint, build}
use multi_log.Witness.{Proof, Notary}

pub record Services : Type 1 where
  pub World : Type 0
  pub tenants : World → Result (List Bytes)
  -- The end and the id of the last checkpoint, where there is one.
  pub last_checkpoint : Bytes → World → Result (Option (ℕ × Bytes))
  pub entries_asc : Bytes → ℕ → World → Result (List Entry)
  pub worm_put : Checkpoint → World → Result (Unit {0}) × World
  pub put_checkpoint : Checkpoint → World → Result (Unit {0}) × World
  pub put_proof : Bytes → ℕ → Proof → World → Result (Unit {0}) × World
  pub now : World → ℤ

-- `WindowMax`, or 1000 where it is not positive.
unfoldable pub window_max : ℤ → ℕ
window_max (pos n) = if ltb 0 n then n else 1000
window_max (negsuc n) = 1000

-- An immutable-overwrite error counts as done.
abbrev pub forgive : Result (Unit {0}) → Result (Unit {0})
forgive (err immutable) = ok tt
forgive r = r

module _ ⦃sha : Sha256⦄ (s : Services) (notaries : List Notary) (max : ℕ) where
  -- What a call returns: how many checkpoints were written, and the error that stopped it.
  abbrev pub Outcome : Type 0
  Outcome = (ℕ × Option Error) × s.World

  -- The next call where the last one gave no error.
  abbrev pub on_ok : ℕ → Result (Unit {0}) × s.World → (s.World → Run Outcome) → Run Outcome
  on_ok anchored (err e, w) next = done ((anchored, some e), w)
  on_ok anchored (ok _, w) next = next w

  -- The loop over the notaries.
  unfoldable pub stamp_all :
      List Notary → Bytes → Checkpoint → s.World → Result (Unit {0}) × s.World
  stamp_all [] tenant cp w = (ok tt, w)
  stamp_all (nt ∷ nts) tenant cp w = elim (nt.stamp cp.checkpoint_id) [
    | err e ↦ (err e, w)
    | ok p ↦ elim (s.put_proof tenant cp.seq_end p w).0 [
      | err e ↦ (err e, (s.put_proof tenant cp.seq_end p w).1)
      | ok _ ↦ stamp_all nts tenant cp (s.put_proof tenant cp.seq_end p w).1
    ]
  ]

  -- One window: the WORM store first, then the working copy, then the proofs.
  unfoldable pub anchor_window :
      Bytes → Checkpoint → ℕ → s.World → (s.World → Run Outcome) → Run Outcome
  unfolding stamp_all
  anchor_window tenant cp anchored w next =
      let (reply, w') = s.worm_put cp w in
      on_ok anchored (forgive reply, w')
        (λ w1.
          on_ok anchored (s.put_checkpoint cp w1)
            (λ w2. on_ok anchored (stamp_all notaries tenant cp w2) next))

  -- The loop over the windows of the entries that are left.
  unfoldable pub anchor_windows : ℕ → Bytes → List Entry → Bytes → ℕ → s.World → Run Outcome
  anchor_windows rounds tenant [] prev_id anchored w = done ((anchored, none), w)
  anchor_windows zero tenant (e ∷ es) prev_id anchored w = looping
  anchor_windows (suc rounds) tenant (e ∷ es) prev_id anchored w = do
    cp ← build tenant (take max (e ∷ es)) prev_id (s.now w)
    anchor_window tenant cp anchored w
        (λ w'. anchor_windows rounds tenant (drop max (e ∷ es)) cp.checkpoint_id (anchored + 1) w')

  abbrev pub start_of : Option (ℕ × Bytes) → ℕ
  start_of none = 0
  start_of (some (last_end, prev_id)) = (last_end + 1) % 2 ^ 64

  abbrev pub prev_of : Option (ℕ × Bytes) → Bytes
  prev_of none = []
  prev_of (some (last_end, prev_id)) = prev_id

  unfoldable pub anchor_tenant : Bytes → s.World → Run Outcome
  unfolding anchor_windows anchor_window
  anchor_tenant tenant w = elim (s.last_checkpoint tenant w) [
    | err e ↦ done ((0, some e), w)
    | ok last ↦ elim (s.entries_asc tenant (start_of last) w) [
      | err e ↦ done ((0, some e), w)
      | ok entries ↦ anchor_windows (length entries) tenant entries (prev_of last) 0 w
    ]
  ]

  -- The loop of `AnchorAll` over the tenants.
  unfoldable pub anchor_each : List Bytes → ℕ → s.World → Run Outcome
  anchor_each [] total w = done ((total, none), w)
  anchor_each (t ∷ ts) total w = do
    out ← anchor_tenant t w
    elim out.0.1 [
      | some e ↦ done ((total + out.0.0, some e), out.1)
      | none ↦ anchor_each ts (total + out.0.0) out.1
    ]

  unfoldable pub anchor_all : s.World → Run Outcome
  unfolding anchor_each
  anchor_all w = elim (s.tenants w) [ err e ↦ done ((0, some e), w) | ok ts ↦ anchor_each ts 0 w ]

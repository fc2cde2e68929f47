-- ===== src/Anchor/Total.antt =====
-- A run of the anchorer ends, and writes as many checkpoints as there are windows.
use multi_log.Prelude.{
  Result-cases, ℕ, zero, suc, ◌+◌, ◌*◌, ◌≤◌, ◌<◌, ◌≡◌, refl, arith, List, [], ◌∷◌, none, some,
  Bytes, ℤ, length, take, drop, length-drop, inl, inr, pos, negsuc, Error, Result, ok, err, Run,
  done,
}
use multi_log.Crypto.{Sha256}
use multi_log.Chain.{Entry}
use multi_log.Checkpoint.{Checkpoint}
use multi_log.Checkpoint.Built.{made, build_total}
use multi_log.Witness.{Notary}
use multi_log.Anchor.{
  Services, Outcome, on_ok, forgive, stamp_all, anchor_window, anchor_windows, window_max, start_of,
  prev_of, anchor_tenant,
}

take_some :
    (max : ℕ) (e : Entry) (es : List Entry)
    → 1 ≤ max
    → (front : List Entry) × (take max (e ∷ es) ≡ e ∷ front)
take_some zero e es positive = absurd (omega arith)
take_some (suc max) e es positive = (take max es, refl)

module _ ⦃sha : Sha256⦄ (s : Services) (notaries : List Notary) (max : ℕ) where
  -- A run ends, and its outcome has the property.
  abbrev Ends : Run (Outcome s notaries max) → (Outcome s notaries max → Type 0) → Type 0
  Ends m P = (r : Outcome s notaries max) × (m ≡ done r) × P r

  on_ok-Ends :
      (P : Outcome s notaries max → Type 0) (n : ℕ) (reply : Result (Unit {0}) × s.World)
      (next : s.World → Run (Outcome s notaries max))
      → ((e : Error) (w : s.World) → P ((n, some e), w))
      → ((w : s.World) → Ends (next w) P)
      → Ends (on_ok s notaries max n reply next) P
  on_ok-Ends P n (err e, w) next stopped goes = (((n, some e), w), refl, stopped e w)
  on_ok-Ends P n (ok _, w) next stopped goes = goes w

  anchor_window-Ends :
      (P : Outcome s notaries max → Type 0) (n : ℕ) (t : Bytes) (cp : Checkpoint) (w : s.World)
      (next : s.World → Run (Outcome s notaries max))
      → ((e : Error) (w : s.World) → P ((n, some e), w))
      → ((w : s.World) → Ends (next w) P)
      → Ends (anchor_window s notaries max t cp n w next) P
  unfolding anchor_window
  anchor_window-Ends P n t cp w next stopped goes =
      on_ok-Ends P n (forgive (s.worm_put cp w).0, (s.worm_put cp w).1) _ stopped
        (λ w1.
          on_ok-Ends P n (s.put_checkpoint cp w1) _ stopped
            (λ w2. on_ok-Ends P n (stamp_all s notaries max notaries t cp w2) next stopped goes))

  -- Without an error, `length es` entries behind `n` checkpoints give one for each window of at most
  -- `max`.
  abbrev pub Counted : List Entry → ℕ → Outcome s notaries max → Type 0
  Counted es n ((n', some e), w) = Unit {0}
  Counted es n ((n', none), w) =
      (k : ℕ) × (n' ≡ n + k) × (length es ≤ k * max) × (k * max < length es + max)

  Counted-step :
      (es : List Entry) (n : ℕ) (r : Outcome s notaries max)
      → 1 ≤ length es
      → 1 ≤ max
      → Counted (drop max es) (n + 1) r
      → Counted es n r
  Counted-step es n ((n', some e), w) filled positive h = tt
  Counted-step es n ((n', none), w) filled positive (zero, total, enough, few) =
      (1, omega arith, omega (arith, length-drop max es), omega arith)
  Counted-step es n ((n', none), w) filled positive (suc k, total, enough, few) = (
    suc (suc k),
    omega arith,
    omega (arith, length-drop max es),
    omega (arith, length-drop max es),
  )

  -- The loop over the windows ends with no panic, given a round for each entry and windows that are
  -- not empty; without an error the number of checkpoints written is the number of windows.
  anchor_windows_total :
      (rounds : ℕ) (t : Bytes) (es : List Entry) (prev : Bytes) (n : ℕ) (w : s.World)
      → 1 ≤ max
      → length es ≤ rounds
      → (r : Outcome s notaries max) × (anchor_windows s notaries max rounds t es prev n w ≡ done r)
        × Counted es n r
  unfolding anchor_windows
  anchor_windows_total rounds t [] prev n w positive enough =
      (((n, none), w), refl, (0, omega arith, omega arith, omega arith))
  anchor_windows_total zero t (e ∷ es) prev n w positive enough = absurd (omega arith)
  anchor_windows_total (suc rounds) t (e ∷ es) prev n w positive enough =
      let (front, taken) = take_some max e es positive in
      let at : ℤ = s.now w in
      let (root, _, built) = build_total t e front prev at in
      let next : List Entry = drop max (e ∷ es) in
      let (r, ends, counted) =
        anchor_window-Ends (Counted (e ∷ es) n) n t (made t e front root prev at) w
          (λ w'.
            anchor_windows s notaries max rounds t next (made t e front root prev at).checkpoint_id
              (n + 1) w')
          (λ x w'. tt)
          (λ w'.
            let (r, ends, counted) =
              anchor_windows_total rounds t next (made t e front root prev at).checkpoint_id (n + 1)
                w' positive (omega (arith, length-drop max (e ∷ es))) in
            (r, ends, Counted-step (e ∷ es) n r (omega arith) positive counted)) in
      (r, rw (taken, built) ends, counted)

window_max_pos : (z : ℤ) → 1 ≤ window_max z
unfolding window_max
window_max_pos (pos n) = ground arith
window_max_pos (negsuc n) = omega arith

-- `AnchorTenant` ends with no panic, whatever `WindowMax` is, whatever entries it reads and whichever
-- of the services fails.
pub anchor_tenant_total :
    ⦃sha : Sha256⦄ (s : Services) (notaries : List Notary) (max : ℤ) (t : Bytes) (w : s.World)
    → (r : Outcome s notaries (window_max max)) × (anchor_tenant s notaries (window_max max) t w
        ≡ done r)
unfolding anchor_tenant
anchor_tenant_total s notaries max t w = elim (Result-cases (s.last_checkpoint t w)) [
  | inr (e, read) ↦ (((0, some e), w), rw (read, anchor_tenant) refl)
  | inl (last, read) ↦
      elim (Result-cases (s.entries_asc t (start_of s notaries (window_max max) last) w)) [
        | inr (e, listed) ↦ (((0, some e), w), rw (read, anchor_tenant, listed) refl)
        | inl (es, listed) ↦
            let (r, ends, _) =
              anchor_windows_total s notaries (window_max max) (length es) t es
                (prev_of s notaries (window_max max) last) 0 w (window_max_pos max) (omega arith) in
            (r, rw (read, anchor_tenant, listed) ends)
      ]
]

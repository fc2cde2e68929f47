-- ===== src/Commands/Anchorer/Answering.antt =====
-- POST /anchor always answers.
use multi_log.Prelude.{ℕ, ◌+◌, ◌≡◌, List, none, some, Bytes, ℤ, Run, done}
use multi_log.Crypto.{Sha256}
use multi_log.Witness.{Notary}
use multi_log.Anchor.{Services, Outcome, window_max, anchor_each}

module _ ⦃sha : Sha256⦄ (s : Services) (notaries : List Notary) (max : ℤ) where
  abbrev Ends : Run (Outcome s notaries (window_max max)) → Type 0
  Ends m = (r : Outcome s notaries (window_max max)) × (m ≡ done r)

  -- The end of a round of the loop over the tenants.
  abbrev next_tenant :
      List Bytes
      → ℕ
      → Outcome s notaries (window_max max)
      → Run (Outcome s notaries (window_max max))
  next_tenant ts total ((n, some e), w) = done ((total + n, some e), w)
  next_tenant ts total ((n, none), w) = anchor_each s notaries (window_max max) ts (total + n) w

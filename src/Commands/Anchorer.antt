-- ===== src/Commands/Anchorer.antt =====
-- cmd/anchorer/main.go: the settings of the anchorer, and POST /anchor. `parse_duration` is package
-- time's, `atoi` the first result of strconv.Atoi.
pub mod Answering
use multi_log.Prelude.{
  ℕ, ltb, if◌then◌else◌, List, [], Option, none, some, Bytes, codes, ℤ, pos, negsuc, Error, Run,
  done, ◌>>=◌, status_ok, internal_server_error,
}
use multi_log.Crypto.{Sha256}
use multi_log.Witness.{Notary}
use multi_log.Config.{env}
use multi_log.Witnessbuild.{positive_or}
use multi_log.Anchor.{Services, Outcome, window_max, anchor_all}

-- In nanoseconds; `cmd/verifier` has the same function.
unfoldable pub duration_env : (Bytes → Option ℤ) → (Bytes → Bytes) → Bytes → ℕ → ℕ
duration_env parse_duration getenv key def = positive_or def (parse_duration (env getenv key []))

unfoldable pub window_of : (Bytes → ℤ) → (Bytes → Bytes) → ℤ
window_of atoi getenv = atoi (env getenv (codes "ANCHOR_WINDOW") (codes "1000"))

pub data Response : Type 0 where
  anchor_failed : Error → Response
  anchored : ℕ → Response

abbrev pub status : Response → ℕ
status (anchor_failed e) = internal_server_error
status (anchored n) = status_ok

abbrev pub respond : ℕ × Option Error → Response
respond (n, some e) = anchor_failed e
respond (n, none) = anchored n

module _ ⦃sha : Sha256⦄ (s : Services) (notaries : List Notary) where
  -- `window` is the anchorer's `WindowMax`.
  unfoldable pub post_anchor : ℤ → s.World → Run (Response × s.World)
  post_anchor window w = do
    (reply, w') ← anchor_all s notaries (window_max window) w
    done (respond reply, w')

-- ===== src/Witnessbuild.antt =====
-- internal/witnessbuild/witnessbuild.go: the witnesses that the anchorer and the verifier make of their
-- environments. The parser of durations is package time's.
pub mod Agree
use multi_log.Prelude.{
  ℕ, ◌*◌, Bool, true, ltb, if◌then◌else◌, List, [], ◌∷◌, Option, none, some, Bytes, codes,
  bytes_equal, ℤ, pos, negsuc, Result, ok, and_then, map,
}
use multi_log.Config.{env}
use multi_log.S3Worm
use multi_log.S3Worm.{S3, ensure_bucket}
use multi_log.Rfc3161
use multi_log.OpenTimestamps
use multi_log.Checkpoint.Codec.{Json}
use multi_log.Witness.{MockNotary}

abbrev pub tsa_name : Bytes
tsa_name = codes "RFC 3161 TSA"

abbrev pub ots_name : Bytes
ots_name = codes "OpenTimestamps (Bitcoin)"

-- s3worm.Config
pub record WormConfig : Type 0 where
  pub region : Bytes
  pub bucket : Bytes
  pub access_key : Bytes
  pub secret_key : Bytes
  pub endpoint : Bytes
  pub use_path_style : Bool
  pub retain_for : ℕ

-- Nanoseconds.
abbrev pub one_day : ℕ
one_day = 24 * 3600 * 1000000000

-- A duration that can be read and is positive, or the default.
abbrev pub positive_or : ℕ → Option ℤ → ℕ
positive_or def none = def
positive_or def (some (pos d)) = if ltb 0 d then d else def
positive_or def (some (negsuc d)) = def

-- A notary of one of the three kinds.
pub data Built : Type 0 where
  time_stamping : Rfc3161.Notary → Built
  calendars : OpenTimestamps.Calendar.Notary → Built
  mock : MockNotary → Built

module _ (getenv : Bytes → Bytes) where
  unfoldable pub worm_config : (Bytes → Option ℤ) → WormConfig
  worm_config parse_duration = record {
    region = env getenv (codes "S3_REGION") (codes "us-east-1");
    bucket = env getenv (codes "S3_BUCKET") (codes "multilog-worm");
    access_key = env getenv (codes "S3_ACCESS_KEY") (codes "minioadmin");
    secret_key = env getenv (codes "S3_SECRET_KEY") (codes "minioadmin");
    endpoint = env getenv (codes "S3_ENDPOINT") (codes "http://localhost:9100");
    use_path_style = true;
    retain_for = positive_or one_day (parse_duration (env getenv (codes "WORM_RETAIN") []));
  }

  -- `s3` is the client that the SDK makes of the settings.
  unfoldable pub worm :
      Json → (s3 : S3) → (Bytes → Option ℤ) → s3.State → Result S3Worm.Store × s3.State
  unfolding worm_config
  worm json s3 parse_duration s =
      let c = worm_config parse_duration in
      let st = S3Worm.new c.bucket c.retain_for in
      let (reply, s') = ensure_bucket json s3 st s in (and_then reply (λ _. ok st), s')

  unfoldable pub mock_notaries : List MockNotary
  mock_notaries =
      record {
        name = tsa_name;
        secret = env getenv (codes "NOTARY_TSA_SECRET") (codes "tsa-demo-secret");
      }
      ∷ record {
        name = ots_name;
        secret = env getenv (codes "NOTARY_OTS_SECRET") (codes "ots-demo-secret");
      }
      ∷ []

  unfoldable pub notaries : List Built
  unfolding mock_notaries
  notaries =
      if bytes_equal (env getenv (codes "NOTARY_MODE") (codes "mock")) (codes "real")
      then time_stamping (record {
        name = tsa_name;
        url = env getenv (codes "TSA_URL") (codes "http://timestamp.digicert.com");
      })
        ∷ calendars (OpenTimestamps.Calendar.new ots_name [])
        ∷ []
      else map mock mock_notaries

-- ===== src/Witnessbuild/Agree.antt =====
-- internal/witnessbuild/witnessbuild.go: the anchorer and the verifier agree on the mock notaries.
use multi_log.Prelude.{List, map, Bytes}
use multi_log.Witness.{Hmac, Notary, mock_notary}
use multi_log.Witnessbuild.{mock_notaries}

-- The notaries as the verifier and the anchorer call them.
abbrev pub called : ⦃h : Hmac⦄ → (Bytes → Bytes) → List Notary
called getenv = map mock_notary (mock_notaries getenv)

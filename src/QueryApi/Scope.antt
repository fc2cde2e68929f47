-- ===== src/QueryApi/Scope.antt =====
-- What a read over HTTP can show.
use multi_log.Prelude.{
  ℕ, ◌≡◌, refl, List, [], ◌∷◌, map, Bytes, length, encode_to_string, TimeFormat, Result, ok,
}
use multi_log.Chain.{Entry}
use multi_log.Logstore.{SearchParams, search}
use multi_log.QueryApi.{Request, LogView, hex_short, search_params, view}

module _ ⦃time : TimeFormat⦄ where
  -- What an answer with entries rests on.
  abbrev Answered :
      Result Bytes
      → (Bytes → SearchParams → Result (List Entry))
      → Request
      → Bytes
      → ℕ
      → List LogView
      → Type 0
  Answered who search r tenant count views =
      (es : List Entry) × (who ≡ ok tenant)
      × (search tenant (search_params r) ≡ ok es)
      × (count ≡ length es)
      × (views ≡ map view es)

-- The handler's own printing of a hash is package hex's.
hex_short-encode_to_string : (b : Bytes) → hex_short b ≡ encode_to_string b
unfolding hex_short encode_to_string
hex_short-encode_to_string [] = refl
hex_short-encode_to_string (c ∷ b) = rw (hex_short-encode_to_string b) refl

-- ===== src/QueryApi.antt =====
-- internal/queryapi/handler.go: GET /logs, the read interface of one tenant. The authenticator and the
-- searcher are the functions that they are during one request.
pub mod Scope
use multi_log.Prelude.{
  is_empty, and_then, ℕ, ◌+◌, ◌*◌, ◌/◌, ◌%◌, List, [], ◌∷◌, map, not, if◌then◌else◌, Option, none,
  some, Bytes, codes, bytes_equal, ℤ, pos, negsuc, length, hex_digit, TimeFormat, parse_int,
  status_ok, status_unauthorized, method_not_allowed, internal_server_error, Error, unauthorized,
  Result, ok, err,
}
use multi_log.Chain.{Entry}
use multi_log.Logstore.{SearchParams, zero_time}

-- What the handler reads of a request: an absent header or parameter is the empty text.
pub record Request : Type 0 where
  pub method : Bytes
  pub api_key : Bytes
  pub q : Bytes
  pub source : Bytes
  pub limit : Bytes
  pub start : Bytes
  pub end : Bytes

pub record LogView : Type 0 where
  pub seq : ℕ
  pub event_time : Bytes
  pub ingest_time : Bytes
  pub source : Bytes
  pub raw : Bytes
  pub entry_hash : Bytes

-- A refusal has a status and a message; an answer the tenant, the count and the entries.
pub data Response : Type 0 where
  refused : ℕ → Bytes → Response
  query_failed : Error → Response
  logs : Bytes → ℕ → List LogView → Response

abbrev pub status : Response → ℕ
status (refused code message) = code
status (query_failed e) = internal_server_error
status (logs tenant count views) = status_ok

unfoldable pub hex_short : Bytes → Bytes
hex_short [] = []
hex_short (c ∷ b) = hex_digit (c / 16) ∷ hex_digit (c % 16) ∷ hex_short b

-- `time.Unix(sec, 0)` as nanoseconds.
abbrev pub seconds : ℤ → ℤ
seconds (pos n) = pos (n * 1000000000)
seconds (negsuc n) = negsuc (n * 1000000000 + 999999999)

module _ ⦃time : TimeFormat⦄ where
  unfoldable pub parse_time : Bytes → ℤ
  parse_time s = elim (time.parse_rfc3339_nano s) [
    | some t ↦ t
    | none ↦ elim (parse_int s) [ some sec ↦ seconds sec | none ↦ zero_time ]
  ]

  -- `Limit` stays 0 where the parameter is absent or no number.
  abbrev pub limit_of : Option ℤ → ℤ
  limit_of none = pos 0
  limit_of (some n) = n

  unfoldable pub search_params : Request → SearchParams
  unfolding parse_time
  search_params r = record {
    start = if not (is_empty r.start) then parse_time r.start else zero_time;
    end = if not (is_empty r.end) then parse_time r.end else zero_time;
    text = r.q;
    source = r.source;
    limit = if not (is_empty r.limit) then limit_of (parse_int r.limit) else pos 0;
  }

  unfoldable pub view : Entry → LogView
  unfolding hex_short
  view e = record {
    seq = e.seq;
    event_time = time.format_rfc3339_nano e.event_time;
    ingest_time = time.format_rfc3339_nano e.ingest_time;
    source = e.source;
    raw = e.raw;
    entry_hash = hex_short e.entry_hash;
  }

  -- The end of the handler, on what the search returns.
  abbrev pub answer : Bytes → Result (List Entry) → Response
  answer tenant (err e) = query_failed e
  answer tenant (ok entries) = logs tenant (length entries) (map view entries)

  -- What follows the authentication.
  abbrev pub authenticated :
      (Bytes → SearchParams → Result (List Entry)) → Request → Result Bytes → Response
  authenticated search r (err unauthorized) = refused status_unauthorized (codes "unauthorized")
  authenticated search r (err e) = refused internal_server_error (codes "auth error")
  authenticated search r (ok tenant) = answer tenant (search tenant (search_params r))

  unfoldable pub serve_logs :
      (Bytes → Result Bytes) → (Bytes → SearchParams → Result (List Entry)) → Request → Response
  unfolding search_params view
  serve_logs auth search r =
      if not (bytes_equal r.method (codes "GET"))
      then refused method_not_allowed (codes "method not allowed")
      else if is_empty r.api_key
      then refused status_unauthorized (codes "missing X-API-Key")
      else authenticated search r (auth r.api_key)

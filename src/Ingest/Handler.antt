-- ===== src/Ingest/Handler.antt =====
-- internal/ingest/handler.go: POST /ingest. The authenticator is the function that it is during one
-- request; package json is a parameter.
use multi_log.Prelude.{
  ℕ, ◌*◌, ◌^◌, ◌==◌, not, if◌then◌else◌, List, [], ◌∷◌, map, Option, none, some, Bytes, codes,
  bytes_equal, is_empty, Bool, false, to_u64, ltb, ◌-◌, ℤ, pos, negsuc, length, take, TimeFormat,
  status_ok, status_unauthorized, method_not_allowed, bad_request, internal_server_error, Error,
  unauthorized, Result, ok, err, Run, done, panicked,
}
use multi_log.Crypto.{Sha256}
use multi_log.Chain.{Entry}
use multi_log.Ingest.{LogStore, Record, Sealer, seal_batch}
use multi_log.Ingest.Body.{Json, parse_log_objects}

-- What the handler reads of a request: an absent header is the empty text. `read_error` is an error of
-- the body's reader before the limit.
pub record Request : Type 0 where
  pub method : Bytes
  pub api_key : Bytes
  pub x_source : Bytes
  pub body : Bytes
  pub read_error : Option Error

-- `failed` has the start of the message and the error that follows it; `accepted` the count, the
-- tenant, and the first and last number.
pub data Response : Type 0 where
  refused : ℕ → Bytes → Response
  failed : ℕ → Bytes → Error → Response
  nothing_accepted : Bytes → Response
  accepted : ℕ → Bytes → ℕ → ℕ → Response

abbrev pub status : Response → ℕ
status (refused code message) = code
status (failed code message e) = code
status (nothing_accepted tenant) = status_ok
status (accepted n tenant first_seq last_seq) = status_ok

-- io.ReadAll of io.LimitReader: what is behind the limit is not read.
abbrev pub read_body : Request → Result Bytes
read_body r = elim r.read_error [ some e ↦ err e | none ↦ ok (take (16 * 2 ^ 20) r.body) ]

-- `strVal`: the empty text where there is no string.
abbrev pub str_val : Option Bytes → Bytes
str_val none = []
str_val (some s) = s

abbrev pub is_zero : ℤ → Bool
is_zero (pos n) = n == 0
is_zero (negsuc n) = false

-- An int64 by its two's complement.
abbrev pub of_u64 : ℕ → ℤ
of_u64 u = if ltb u (2 ^ 63) then pos u else negsuc (2 ^ 64 - 1 - u)

-- `UnixNano`, which wraps round.
abbrev pub unix_nano : ℤ → ℤ
unix_nano t = of_u64 (to_u64 t)

module _ ⦃time : TimeFormat⦄ (json : Json) where
  abbrev pub time_of : Option ℤ → ℤ
  time_of none = pos 0
  time_of (some t) = unix_nano t

  -- 0 for no string or no time.
  unfoldable pub parse_time : Option Bytes → ℤ
  parse_time s =
      if is_empty (str_val s) then pos 0 else time_of (time.parse_rfc3339_nano (str_val s))

  unfoldable pub raw_of : json.Object → Bytes
  raw_of o =
      let message = str_val (json.string_field (codes "message") o) in
      let raw = str_val (json.string_field (codes "raw") o) in
      if not (is_empty message)
      then message
      else if not (is_empty raw)
      then raw
      else str_val (json.marshal o)

  unfoldable pub source_of : json.Object → Bytes → Bytes
  source_of o default_source =
      let source = str_val (json.string_field (codes "source") o) in
      if not (is_empty source)
      then source
      else if not (is_empty default_source)
      then default_source
      else codes "unknown"

  unfoldable pub event_of : json.Object → ℤ → ℤ
  unfolding parse_time
  event_of o ingest =
      let timestamp = parse_time (json.string_field (codes "timestamp") o) in
      let event = parse_time (json.string_field (codes "time") o) in
      if not (is_zero timestamp) then timestamp else if not (is_zero event) then event else ingest

  unfoldable pub record_from_object : json.Object → Bytes → ℤ → Record
  unfolding raw_of source_of event_of
  record_from_object o default_source ingest = record {
    source = source_of o default_source;
    raw = raw_of o;
    event_time = event_of o ingest;
    ingest_time = ingest;
  }

abbrev pub last_entry : Entry → List Entry → Entry
last_entry e [] = e
last_entry e (x ∷ entries) = last_entry x entries

-- The last call of the handler: it indexes the entries, which panics on none.
abbrev pub accepted_reply : Bytes → List Entry → Run Response
accepted_reply tenant [] = panicked
accepted_reply tenant (e ∷ entries) =
    done (accepted (length (e ∷ entries)) tenant e.seq (last_entry e entries).seq)

abbrev pub sealed_reply : Bytes → Result (List Entry) → Run Response
sealed_reply tenant (err e) = done (failed internal_server_error (codes "ingest failed: ") e)
sealed_reply tenant (ok entries) = accepted_reply tenant entries

module _ ⦃sha : Sha256⦄ ⦃time : TimeFormat⦄ (json : Json) (logs : LogStore) (now : ℤ) where
  -- What follows the parsing of the body.
  abbrev pub serve_objects :
      Request → Bytes → Result (List json.Object) → Sealer logs → Run Response × Sealer logs
  serve_objects r tenant (err e) s = (done (failed bad_request (codes "invalid body: ") e), s)
  serve_objects r tenant (ok []) s = (done (nothing_accepted tenant), s)
  serve_objects r tenant (ok (o ∷ objects)) s =
      let records = map (λ x. record_from_object json x r.x_source now) (o ∷ objects) in
      let (reply, s') = seal_batch logs tenant records s in (sealed_reply tenant reply, s')

  -- What follows the authentication.
  abbrev pub serve_tenant : Request → Result Bytes → Sealer logs → Run Response × Sealer logs
  serve_tenant r (err unauthorized) s =
      (done (refused status_unauthorized (codes "unauthorized")), s)
  serve_tenant r (err e) s = (done (refused internal_server_error (codes "auth error")), s)
  serve_tenant r (ok tenant) s = elim (read_body r) [
    | err e ↦ (done (refused bad_request (codes "read error")), s)
    | ok body ↦ serve_objects r tenant (parse_log_objects json body) s
  ]

  unfoldable pub serve_ingest :
      (Bytes → Result Bytes) → Request → Sealer logs → Run Response × Sealer logs
  unfolding parse_log_objects record_from_object seal_batch
  serve_ingest auth r s =
      if not (bytes_equal r.method (codes "POST"))
      then (done (refused method_not_allowed (codes "method not allowed")), s)
      else if is_empty r.api_key
      then (done (refused status_unauthorized (codes "missing X-API-Key")), s)
      else serve_tenant r (auth r.api_key) s

-- ===== src/Runs/Queries.antt =====
-- Runs of the query API over a table of two tenants.
use multi_log.Prelude.{
  ℕ, ◌≡◌, false, List, [], ◌∷◌, map, none, some, Bytes, codes, arith, pos, TimeFormat, ok,
}
use multi_log.Chain.{Entry}
use multi_log.Control.{Database}
use multi_log.Logstore.{to_row, scan_entries}
use multi_log.Logstore.Rows.{HashesAreBytes, scan_entries-to_row}
use multi_log.QueryApi.{Request}
use multi_log.Runs.Toy.{toy, acme, globex}

instance abbrev clock : TimeFormat
clock = record { parse_rfc3339_nano = λ s. none; format_rfc3339_nano = λ t. codes "t" }

abbrev entry : Bytes → ℕ → Entry
entry t n = record {
  tenant_id = t;
  seq = n;
  event_time = pos 1;
  ingest_time = pos 2;
  source = codes "web";
  raw = codes "a";
  prev_hash = 1 ∷ 2 ∷ [];
  entry_hash = 3 ∷ 255 ∷ [];
}

abbrev entries : List Entry
entries = entry acme 0 ∷ entry globex 0 ∷ entry acme 1 ∷ []

entry-HashesAreBytes : (t : Bytes) (n : ℕ) → HashesAreBytes (entry t n)
entry-HashesAreBytes t n = ((omega arith, (omega arith, tt)), (omega arith, (omega arith, tt)))

scan_entries-to_row_example : scan_entries (map to_row entries) ≡ ok entries
scan_entries-to_row_example = scan_entries-to_row entries (
  entry-HashesAreBytes acme 0,
  (entry-HashesAreBytes globex 0, (entry-HashesAreBytes acme 1, tt)),
)

-- Every key is acme's.
abbrev control : Database
control = record {
  State = Unit {0};
  insert_tenant = λ id name s. (ok tt, s);
  select_tenant = λ id s. ok (some tt);
  insert_key = λ h prefix t s. (ok tt, s);
  select_tenants = λ s. ok [];
  exec = λ q s. (ok tt, s);
  select_key = λ h s. ok (some (acme, false));
}

abbrev request : Request
request = record {
  method = codes "GET";
  api_key = codes "k";
  q = codes "a";
  source = [];
  limit = codes "10";
  start = [];
  end = codes "12";
}

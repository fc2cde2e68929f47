-- ===== src/Logstore.antt =====
-- internal/logstore/clickhouse.go: the log store over ClickHouse. The driver's connection is an
-- interface over the database's state. A time is its nanoseconds since 1970, a statement its text.
pub mod Rows
pub mod Search
pub mod Schema
use multi_log.Prelude.{
  and_then, is_empty, ℕ, ◌+◌, ◌-◌, ◌*◌, ◌%◌, ◌^◌, ltb, leb, ◌==◌, not, ◌&&◌, if◌then◌else◌, Bool,
  true, false, ◌||◌, List, [], ◌∷◌, ◌++◌, map, Option, none, some, Bytes, codes, bytes_equal, ℤ,
  pos, negsuc, decode_string, encode_to_string, text, Result, ok, err,
}
use multi_log.Crypto.{Sha256, genesis}
use multi_log.Chain.{Entry}
use multi_log.Witness.{decimal}

-- A row of the table of logs, with the two hashes in hexadecimal.
pub record Row : Type 0 where
  pub tenant_id : Bytes
  pub seq : ℕ
  pub event_time : ℤ
  pub ingest_time : ℤ
  pub source : Bytes
  pub raw : Bytes
  pub prev_hash : Bytes
  pub entry_hash : Bytes

-- An argument for a `?` of a statement.
pub data Arg : Type 0 where
  text_arg : Bytes → Arg
  number_arg : ℕ → Arg
  time_arg : ℤ → Arg

-- driver.Conn, with one operation for each shape of result. `prepare_batch` and `append_row` are the
-- two calls of a batch before `send`, which alone changes the state.
pub record Conn : Type 1 where
  pub State : Type 0
  pub prepare_batch : Bytes → State → Result (Unit {0})
  pub append_row : Row → State → Result (Unit {0})
  pub send : List Row → State → Result (Unit {0}) × State
  pub query_rows : Bytes → List Arg → State → Result (List Row)
  pub query_heads : Bytes → List Arg → State → Result (List (ℕ × Bytes))
  pub query_tenants : Bytes → State → Result (List Bytes)
  pub exec : Bytes → State → Result (Unit {0}) × State

unfoldable pub table : Bytes → Bytes
table db = db ++ codes ".logs"

-- A row as `Append` sends it.
unfoldable pub to_row : Entry → Row
to_row e = record {
  tenant_id = e.tenant_id;
  seq = e.seq;
  event_time = e.event_time;
  ingest_time = e.ingest_time;
  source = e.source;
  raw = e.raw;
  prev_hash = encode_to_string e.prev_hash;
  entry_hash = encode_to_string e.entry_hash;
}

abbrev bad_hex : Result Bytes
bad_hex = err (text (codes "encoding/hex"))

abbrev pub from_hex : Bytes → Result Bytes
from_hex s = elim (decode_string s) [ none ↦ bad_hex | some b ↦ ok b ]

-- The body of the loop of `scanEntries`.
unfoldable pub from_row : Row → Result Entry
from_row r = and_then (from_hex r.prev_hash) (λ prev. and_then (from_hex r.entry_hash) (λ hash.
    ok (record {
      tenant_id = r.tenant_id;
      seq = r.seq;
      event_time = r.event_time;
      ingest_time = r.ingest_time;
      source = r.source;
      raw = r.raw;
      prev_hash = prev;
      entry_hash = hash;
    })))

unfoldable pub scan_entries : List Row → Result (List Entry)
scan_entries [] = ok []
scan_entries (r ∷ rows) =
    let rest = scan_entries rows in and_then (from_row r) (λ e. and_then rest (λ es. ok (e ∷ es)))

-- The columns that are read back, in the order of the scan.
abbrev pub select_columns : Bytes
select_columns =
    codes "SELECT tenant_id, seq, event_time, ingest_time, source, raw, prev_hash, entry_hash FROM "

-- What a search is limited to. The zero time, like an empty text, stands for no limit.
pub record SearchParams : Type 0 where
  pub start : ℤ
  pub end : ℤ
  pub text : Bytes
  pub source : Bytes
  pub limit : ℤ

-- The zero time.Time: the first of January of year 1.
abbrev pub zero_time : ℤ
zero_time = negsuc (62135596800 * 1000000000 - 1)

abbrev pub is_zero : ℤ → Bool
is_zero (pos n) = false
is_zero (negsuc n) = n == 62135596800 * 1000000000 - 1

-- The variables `where` and `args` of `Search`, and one of its ifs, which appends to both.
abbrev pub Clauses : Type 0
Clauses = List Bytes × List Arg

abbrev pub add_clause : Bool → Bytes → Arg → Clauses → Clauses
add_clause true condition arg (conditions, args) = (conditions ++ condition ∷ [], args ++ arg ∷ [])
add_clause false condition arg clauses = clauses

unfoldable pub search_clauses : Bytes → SearchParams → Clauses
search_clauses tenant_id p =
    let c0 : Clauses = (codes "tenant_id = ?" ∷ [], text_arg tenant_id ∷ []) in
    let c1 = add_clause (not (is_zero p.start)) (codes "ingest_time >= ?") (time_arg p.start) c0 in
    let c2 = add_clause (not (is_zero p.end)) (codes "ingest_time <= ?") (time_arg p.end) c1 in
    let c3 =
      add_clause (not (is_empty p.text)) (codes "positionCaseInsensitive(raw, ?) > 0")
        (text_arg p.text) c2 in
    add_clause (not (is_empty p.source)) (codes "source = ?") (text_arg p.source) c3

-- At most 10000 rows; 1000 where the limit is not positive or too large.
unfoldable pub search_limit : ℤ → ℕ
search_limit (pos n) = if ltb 0 n && leb n 10000 then n else 1000
search_limit (negsuc n) = 1000

-- strings.Join with " AND "
unfoldable pub join_and : List Bytes → Bytes
join_and [] = []
join_and (c ∷ []) = c
join_and (c ∷ d ∷ cs) = c ++ (codes " AND " ++ join_and (d ∷ cs))

unfoldable pub search_query : Bytes → List Bytes → ℕ → Bytes
unfolding join_and table
search_query db conditions limit =
    select_columns
    ++ (table db
        ++ (codes " WHERE "
            ++ (join_and conditions ++ (codes " ORDER BY seq DESC LIMIT " ++ decimal limit))))

-- A limit that is not positive becomes 100000.
unfoldable pub entries_limit : ℤ → ℕ
entries_limit (pos n) = if ltb 0 n then n else 100000
entries_limit (negsuc n) = 100000

unfoldable pub entries_query : Bytes → ℕ → Bytes
unfolding table
entries_query db limit =
    select_columns
    ++ (table db
        ++ (codes " WHERE tenant_id = ? AND seq >= ? ORDER BY seq ASC LIMIT " ++ decimal limit))

unfoldable pub head_query : Bytes → Bytes
unfolding table
head_query db =
    codes "SELECT seq, entry_hash FROM "
    ++ (table db ++ codes " WHERE tenant_id = ? ORDER BY seq DESC LIMIT 1")

-- The loop of `Head` over the rows, which keeps the last.
abbrev pub last_row : List (ℕ × Bytes) → Option (ℕ × Bytes)
last_row [] = none
last_row (r ∷ []) = some r
last_row (r ∷ x ∷ rows) = last_row (x ∷ rows)

module _ ⦃sha : Sha256⦄ (conn : Conn) (db : Bytes) where
  -- The loop of `Append` over the entries.
  unfoldable pub append_rows : List Entry → conn.State → Result (Unit {0})
  append_rows [] s = ok tt
  append_rows (e ∷ es) s = elim (conn.append_row (to_row e) s) [
    | err x ↦ err x
    | ok _ ↦ append_rows es s
  ]

  unfoldable pub append_batch : List Entry → conn.State → Result (Unit {0}) × conn.State
  unfolding append_rows table
  append_batch es s = elim (conn.prepare_batch (codes "INSERT INTO " ++ table db) s) [
    | err x ↦ (err x, s)
    | ok _ ↦ elim (append_rows es s) [ err x ↦ (err x, s) | ok _ ↦ conn.send (map to_row es) s ]
  ]

  unfoldable pub append : List Entry → conn.State → Result (Unit {0}) × conn.State
  unfolding append_batch
  append [] s = (ok tt, s)
  append (e ∷ es) s = append_batch (e ∷ es) s

  -- What `Head` makes of the row that it keeps.
  abbrev pub resume_at : Bytes → Option (ℕ × Bytes) → Result (ℕ × Bytes)
  resume_at tenant_id none = ok (0, genesis tenant_id)
  resume_at tenant_id (some (seq, hash_hex)) =
      and_then (from_hex hash_hex) (λ prev. ok ((seq + 1) % 2 ^ 64, prev))

  unfoldable pub head : Bytes → conn.State → Result (ℕ × Bytes)
  unfolding head_query
  head tenant_id s =
      and_then (conn.query_heads (head_query db) (text_arg tenant_id ∷ []) s)
        (λ rows. resume_at tenant_id (last_row rows))

  unfoldable pub tenants : conn.State → Result (List Bytes)
  unfolding table
  tenants s = conn.query_tenants (codes "SELECT DISTINCT tenant_id FROM " ++ table db) s

  unfoldable pub entries_asc : Bytes → ℕ → ℤ → conn.State → Result (List Entry)
  unfolding entries_query entries_limit
  entries_asc tenant_id start_seq limit s =
      and_then
        (conn.query_rows (entries_query db (entries_limit limit))
          (text_arg tenant_id ∷ number_arg start_seq ∷ []) s)
        scan_entries

  unfoldable pub search : Bytes → SearchParams → conn.State → Result (List Entry)
  unfolding search_clauses search_query search_limit
  search tenant_id p s =
      let (conditions, args) = search_clauses tenant_id p in
      and_then (conn.query_rows (search_query db conditions (search_limit p.limit)) args s)
        scan_entries

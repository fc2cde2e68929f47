-- ===== src/Logstore/Schema.antt =====
-- internal/logstore/clickhouse.go: opening the store and creating its table.
use multi_log.Prelude.{is_empty, if◌then◌else◌, ◌++◌, Bytes, codes, Result, ok, err, and_then}
use multi_log.Logstore.{Conn, table}

pub record Config : Type 0 where
  pub addr : Bytes
  pub database : Bytes
  pub username : Bytes
  pub password : Bytes

unfoldable pub with_defaults : Config → Config
with_defaults cfg = record cfg {
  database = if is_empty cfg.database then codes "multilog" else cfg.database;
  username = if is_empty cfg.username then codes "default" else cfg.username;
}

-- `open_conn` is clickhouse.Open; the name of the database is what the store keeps besides the connection.
unfoldable pub new : (Config → Result (Unit {0})) → Config → Result Bytes
unfolding with_defaults
new open_conn cfg =
    let cfg' = with_defaults cfg in and_then (open_conn cfg') (λ _. ok cfg'.database)

unfoldable pub create_table : Bytes → Bytes
unfolding table
create_table db =
    codes "CREATE TABLE IF NOT EXISTS "
    ++ (table db
        ++ codes
            " (\n\t\ttenant_id    String,\n\t\tseq          UInt64,\n\t\tevent_time   DateTime64(9, 'UTC'),\n\t\tingest_time  DateTime64(9, 'UTC'),\n\t\tsource       String,\n\t\traw          String,\n\t\tprev_hash    String,\n\t\tentry_hash   String\n\t) ENGINE = MergeTree\n\tPARTITION BY (tenant_id, toYYYYMMDD(ingest_time))\n\tORDER BY (tenant_id, seq)")

unfoldable pub init_schema : (conn : Conn) → Bytes → conn.State → Result (Unit {0}) × conn.State
unfolding create_table
init_schema conn db s = elim (conn.exec (codes "CREATE DATABASE IF NOT EXISTS " ++ db) s).0 [
  | err e ↦ (err e, (conn.exec (codes "CREATE DATABASE IF NOT EXISTS " ++ db) s).1)
  | ok _ ↦
      conn.exec (create_table db) (conn.exec (codes "CREATE DATABASE IF NOT EXISTS " ++ db) s).1
]

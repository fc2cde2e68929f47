-- ===== src/Control.antt =====
-- internal/control/control.go: tenants and their API keys. PostgreSQL is an interface over its state,
-- with one operation for each statement that is sent; the random bytes are an argument.
pub mod Keys
use multi_log.Prelude.{
  each_ok, is_empty, ℕ, ◌+◌, ◌-◌, ◌*◌, ◌/◌, ◌%◌, Bool, true, false, ◌||◌, ltb, ◌==◌, if◌then◌else◌,
  List, [], ◌∷◌, ◌++◌, Option, none, some, Bytes, ℤ, codes, length, take, encode_to_string,
  unauthorized, text, Result, ok, err,
}
use multi_log.Crypto.{Sha256}

-- A time is in nanoseconds.
pub record Tenant : Type 0 where
  pub id : Bytes
  pub name : Bytes
  pub created_at : ℤ

-- `none` stands for pgx.ErrNoRows.
pub record Database : Type 1 where
  pub State : Type 0
  -- INSERT INTO tenants (id, name)
  pub insert_tenant : Bytes → Bytes → State → Result (Unit {0}) × State
  -- SELECT true FROM tenants WHERE id = ...
  pub select_tenant : Bytes → State → Result (Option (Unit {0}))
  -- INSERT INTO api_keys (key_hash, key_prefix, tenant_id)
  pub insert_key : Bytes → Bytes → Bytes → State → Result (Unit {0}) × State
  -- SELECT id, name, created_at FROM tenants ORDER BY created_at: the rows, or an error on the way
  pub select_tenants : State → Result (List Tenant)
  -- Any other statement.
  pub exec : Bytes → State → Result (Unit {0}) × State
  -- SELECT tenant_id, revoked FROM api_keys WHERE key_hash = ...
  pub select_key : Bytes → State → Result (Option (Bytes × Bool))

-- A digit of base64 in its URL alphabet.
abbrev pub url_digit : ℕ → ℕ
url_digit n =
    if ltb n 26
    then 65 + n
    else if ltb n 52
    then 71 + n
    else if ltb n 62
    then n - 4
    else if n == 62
    then 45
    else 95

-- base64.RawURLEncoding.EncodeToString
unfoldable pub raw_url : Bytes → Bytes
raw_url [] = []
raw_url (a ∷ []) = url_digit (a / 4) ∷ url_digit (a % 4 * 16) ∷ []
raw_url (a ∷ b ∷ []) =
    url_digit (a / 4) ∷ url_digit (a % 4 * 16 + b / 16) ∷ url_digit (b % 16 * 4) ∷ []
raw_url (a ∷ b ∷ c ∷ rest) =
    url_digit (a / 4)
    ∷ url_digit (a % 4 * 16 + b / 16)
    ∷ url_digit (b % 16 * 4 + c / 64)
    ∷ url_digit (c % 64)
    ∷ raw_url rest

-- The plaintext key over the random bytes.
unfoldable pub key_of : Bytes → Bytes
key_of raw = codes "mlog_" ++ raw_url raw

-- The statements of `InitSchema`.
abbrev pub schema : List Bytes
schema =
    codes
      "CREATE TABLE IF NOT EXISTS tenants (\n\t\t\tid         text PRIMARY KEY,\n\t\t\tname       text NOT NULL,\n\t\t\tcreated_at timestamptz NOT NULL DEFAULT now()\n\t\t)"
    ∷ codes
        "CREATE TABLE IF NOT EXISTS api_keys (\n\t\t\tkey_hash   text PRIMARY KEY,\n\t\t\tkey_prefix text NOT NULL,\n\t\t\ttenant_id  text NOT NULL REFERENCES tenants(id) ON DELETE CASCADE,\n\t\t\tcreated_at timestamptz NOT NULL DEFAULT now(),\n\t\t\trevoked    boolean NOT NULL DEFAULT false\n\t\t)"
    ∷ codes "CREATE INDEX IF NOT EXISTS api_keys_tenant_idx ON api_keys(tenant_id)"
    ∷ []

module _ (db : Database) where
  unfoldable pub init_schema : db.State → Result (Unit {0}) × db.State
  init_schema s = each_ok db.exec schema s

  unfoldable pub list_tenants : db.State → Result (List Tenant)
  list_tenants s = db.select_tenants s

module _ ⦃sha : Sha256⦄ where
  unfoldable pub hash_key : Bytes → Bytes
  hash_key key = encode_to_string (sha.sum256 key)

module _ ⦃sha : Sha256⦄ (db : Database) where
  unfoldable pub create_tenant : Bytes → Bytes → db.State → Result (Unit {0}) × db.State
  create_tenant id name s =
      if is_empty id || is_empty name
      then (err (text (codes "control: tenant id and name are required")), s)
      else db.insert_tenant id name s

  -- The end of `IssueAPIKey`, on what the insertion replies.
  abbrev pub issued : Bytes → Result (Unit {0}) × db.State → Result Bytes × db.State
  issued key (err e, s) = (err e, s)
  issued key (ok _, s) = (ok key, s)

  -- `random` is what `rand.Read` gives for 24 bytes.
  unfoldable pub issue_api_key : Result Bytes → Bytes → db.State → Result Bytes × db.State
  unfolding key_of hash_key
  issue_api_key random tenant_id s = elim (db.select_tenant tenant_id s) [
    | err e ↦ (err e, s)
    | ok rows ↦ elim rows [
      | none ↦ (err (text (codes "control: unknown tenant")), s)
      | some _ ↦ elim random [
        | err e ↦ (err e, s)
        | ok raw ↦
            let key = key_of raw in
            issued key (db.insert_key (hash_key key) (take 12 key) tenant_id s)
      ]
    ]
  ]

  -- What `Authenticate` makes of the row that is found.
  abbrev pub admitted : Result (Option (Bytes × Bool)) → Result Bytes
  admitted (err e) = err e
  admitted (ok none) = err unauthorized
  admitted (ok (some (tenant_id, true))) = err unauthorized
  admitted (ok (some (tenant_id, false))) = ok tenant_id

  unfoldable pub authenticate : Bytes → db.State → Result Bytes
  unfolding hash_key
  authenticate key s = admitted (db.select_key (hash_key key) s)

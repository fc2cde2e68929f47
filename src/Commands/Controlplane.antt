-- ===== src/Commands/Controlplane.antt =====
-- cmd/controlplane/main.go: the handlers of the admin API. The decoder of a request's body is package
-- json's at the two fields that are read.
pub mod Issued
use multi_log.Prelude.{
  ℕ, List, Option, none, some, Bytes, codes, Error, Result, ok, err, status_ok, status_created,
  bad_request, internal_server_error,
}
use multi_log.Crypto.{Sha256}
use multi_log.Control.{Database, Tenant, create_tenant, list_tenants, issue_api_key}

pub data Response : Type 0 where
  bad_json : Response
  refused : Error → Response
  failed : Error → Response
  tenant_created : Bytes → Bytes → Response
  listed : List Tenant → Response
  key_created : Bytes → Response

abbrev pub status : Response → ℕ
status bad_json = bad_request
status (refused e) = bad_request
status (failed e) = internal_server_error
status (tenant_created id name) = status_created
status (listed ts) = status_ok
status (key_created key) = status_created

abbrev created : Bytes → Bytes → Result (Unit {0}) → Response
created id name (err e) = refused e
created id name (ok _) = tenant_created id name

abbrev pub key_reply : Result Bytes → Response
key_reply (err e) = refused e
key_reply (ok key) = key_created key

module _ ⦃sha : Sha256⦄ (db : Database) where
  unfoldable pub post_tenants :
      (Bytes → Option (Bytes × Bytes)) → Bytes → db.State → Response × db.State
  post_tenants decode body s = elim (decode body) [
    | none ↦ (bad_json, s)
    | some (id, name) ↦ let (reply, s') = create_tenant db id name s in (created id name reply, s')
  ]

  unfoldable pub get_tenants : db.State → Response
  get_tenants s = elim (list_tenants db s) [ err e ↦ failed e | ok ts ↦ listed ts ]

  -- `id` is the segment of the path, `random` what `rand.Read` gives.
  unfoldable pub post_keys : Result Bytes → Bytes → db.State → Response × db.State
  post_keys random id s = let (reply, s') = issue_api_key db random id s in (key_reply reply, s')

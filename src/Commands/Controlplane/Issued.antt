-- ===== src/Commands/Controlplane/Issued.antt =====
-- A key that the admin API has given out, at the gateways.
use multi_log.Prelude.{◌≡◌, ap, false, some, Bytes, Result, ok, err}
use multi_log.Crypto.{Sha256}
use multi_log.Control.{Database, issue_api_key, authenticate}
use multi_log.Control.Keys.{authenticate-issue_api_key}
use multi_log.Commands.Controlplane.{key_created, key_reply, post_keys}

module _ ⦃sha : Sha256⦄ (db : Database) where
  key_reply-ok : (r : Result Bytes) (key : Bytes) → key_reply r ≡ key_created key → r ≡ ok key
  key_reply-ok (err e) key h = cc
  key_reply-ok (ok k) key h = cc

  -- If POST /tenants/{id}/keys answers with a key, then the key authenticates as the tenant of the path
  -- at once, where the database finds the row that it has just inserted, not revoked.
  pub authenticate-post_keys :
      (random : Result Bytes) (t key : Bytes) (s : db.State)
      → (post_keys db random t s).0 ≡ key_created key
      → ((h prefix : Bytes) (s' : db.State)
          → db.insert_key h prefix t s ≡ (ok tt, s')
          → db.select_key h s' ≡ ok (some (t, false)))
      → authenticate db key (post_keys db random t s).1 ≡ ok t
  unfolding post_keys
  authenticate-post_keys random t key s given finds =
      let (reply, s') = issue_api_key db random t s in
      let same : reply ≡ ok key = key_reply-ok reply key given in
      authenticate-issue_api_key db random t s key s' (ap (λ (r : Result Bytes). (r, s')) same)
        (λ h prefix inserted. finds h prefix s' inserted)

-- ===== src/Runs/Keys.antt =====
-- Runs of the control plane over a database with one row.
use multi_log.Prelude.{◌≡◌, refl, false, [], some, Bytes, codes, ok}
use multi_log.Control.{Database, key_of, hash_key, issue_api_key, authenticate}
use multi_log.Control.Keys.{authenticate_sound}
use multi_log.Commands.Controlplane.{key_created, post_keys}
use multi_log.Commands.Controlplane.Issued.{authenticate-post_keys}
use multi_log.Runs.Toy.{toy, acme}

-- The state is the hash of the one key row, whose tenant is always acme.
abbrev db : Database
db = record {
  State = Bytes;
  insert_tenant = λ id name s. (ok tt, s);
  select_tenant = λ id s. ok (some tt);
  insert_key = λ h prefix t s. (ok tt, h);
  select_tenants = λ s. ok [];
  exec = λ q s. (ok tt, s);
  select_key = λ h s. ok (some (acme, false));
}

abbrev random : Bytes
random = codes "abcdefghijklmnopqrstuvwx"

given : (post_keys db (ok random) acme []).0 ≡ key_created (key_of random)
unfolding post_keys issue_api_key
given = refl

authenticate-post_keys_example :
    authenticate db (key_of random) (post_keys db (ok random) acme []).1 ≡ ok acme
authenticate-post_keys_example =
    authenticate-post_keys db (ok random) acme (key_of random) [] given
      (λ h prefix s' inserted. refl)

admits : authenticate db (key_of random) [] ≡ ok acme
unfolding authenticate
admits = refl

authenticate_sound_example : db.select_key (hash_key (key_of random)) [] ≡ ok (some (acme, false))
authenticate_sound_example = authenticate_sound db (key_of random) acme [] admits

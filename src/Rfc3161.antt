-- ===== src/Rfc3161.antt =====
-- internal/witness/rfc3161/rfc3161.go: a notary over a time-stamping authority. The timestamp library
-- and the exchange with the authority are parameters; of an error's text the fixed words are kept.
pub mod Bound
use multi_log.Prelude.{
  ℕ, ◌==◌, not, if◌then◌else◌, List, Bytes, codes, bytes_equal, status_ok, text, Result, ok, err,
  and_then,
}
use multi_log.Witness
use multi_log.Witness.{Proof}

-- What the library reads from a token whose signature is valid.
pub record Timestamp : Type 0 where
  pub hash_algorithm : ℕ
  pub hashed_message : Bytes

pub record Library : Type 0 where
  pub marshal_request : Bytes → Result Bytes
  pub parse_response : Bytes → Result Timestamp

-- The HTTP exchange: the status, and the body as far as it can be read.
pub record Authority : Type 0 where
  pub do_post : Bytes → Bytes → Result (ℕ × Result Bytes)

pub record Notary : Type 0 where
  pub name : Bytes
  pub url : Bytes

-- crypto.SHA256
abbrev pub sha256_id : ℕ
sha256_id = 5

module _ (library : Library) where
  -- The checks on what the library has read.
  abbrev pub check : Bytes → Timestamp → Result Timestamp
  check checkpoint_id ts =
      if not (ts.hash_algorithm == sha256_id)
      then err (text (codes "rfc3161: unexpected hash algorithm"))
      else if not (bytes_equal ts.hashed_message checkpoint_id)
      then err (text (codes "rfc3161: token attests a different checkpoint id"))
      else ok ts

  unfoldable pub parse_and_check : Bytes → Bytes → Result Timestamp
  parse_and_check token checkpoint_id =
      and_then (library.parse_response token) (check checkpoint_id)

  unfoldable pub verify : Proof → Bytes → Result (Unit {0})
  unfolding parse_and_check
  verify p checkpoint_id = and_then (parse_and_check p.token checkpoint_id) (λ ts. ok tt)

  -- The end of `Stamp`, on what the authority answers.
  abbrev pub keep : Notary → Bytes → ℕ → Bytes → Result Proof
  keep n checkpoint_id status response =
      if not (status == status_ok)
      then err (text (codes "rfc3161: TSA returned"))
      else and_then (parse_and_check response checkpoint_id)
          (λ ts. ok (record { notary = n.name; format = codes "rfc3161"; token = response }))

  unfoldable pub stamp : Authority → Notary → Bytes → Result Proof
  unfolding parse_and_check
  stamp authority n checkpoint_id = and_then (library.marshal_request checkpoint_id) (λ der.
      and_then (authority.do_post n.url der)
        (λ (status, read). and_then read (λ response. keep n checkpoint_id status response)))

  abbrev pub notary : Authority → Notary → Witness.Notary
  notary authority n = record { name = n.name; stamp = stamp authority n; verify = verify }

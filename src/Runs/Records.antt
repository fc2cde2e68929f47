-- ===== src/Runs/Records.antt =====
-- Runs of the proof tables and of the time-stamping notary.
use multi_log.Prelude.{ℕ, ◌↔◌, ◌≡◌, refl, arith, ◌++◌, List, [], ◌∷◌, none, Bytes, codes, ok}
use multi_log.Witness.{Proof, new_proof_ledger, get_proofs}
use multi_log.Anchorstore.{Tables, load_rows, load_ledger}
use multi_log.Anchorstore.Ledger.{proofs_of, get_proofs-load_ledger}
use multi_log.Rfc3161.{Library, Authority, Notary, parse_and_check, stamp, verify}
use multi_log.Rfc3161.Bound.{verify-stamp}
use multi_log.Runs.Toy.{acme}

abbrev proof : Bytes → Proof
proof name = record { notary = name; format = codes "f"; token = [] }

abbrev rows : List (ℕ × Proof)
rows = (1, proof (codes "a")) ∷ (3, proof (codes "a")) ∷ (1, proof (codes "b")) ∷ []

-- Tables that hold three proofs.
abbrev tables : Tables
tables = record {
  State = Unit {0};
  select_last = λ t s. ok none;
  insert_checkpoint = λ row s. (ok tt, s);
  insert_proof = λ t end p s. (ok tt, s);
  select_proofs = λ t s. ok rows;
  exec = λ q s. (ok tt, s);
}

loaded : load_ledger tables acme new_proof_ledger tt ≡ ok (load_rows acme rows new_proof_ledger)
unfolding load_ledger
loaded = refl

get_proofs-load_ledger_example :
    get_proofs acme 1 (load_rows acme rows new_proof_ledger)
    ≡ get_proofs acme 1 new_proof_ledger ++ proofs_of 1 rows
get_proofs-load_ledger_example =
    get_proofs-load_ledger tables tt acme 1 rows new_proof_ledger
      (load_rows acme rows new_proof_ledger) refl loaded (omega arith)
      (omega arith, (omega arith, (omega arith, tt)))

-- A token that is the id itself.
abbrev library : Library
library = record {
  marshal_request = λ id. ok id;
  parse_response = λ token. ok (record { hash_algorithm = 5; hashed_message = token });
}

abbrev authority : Authority
authority = record { do_post = λ url der. ok (200, ok der) }

abbrev tsa : Notary
tsa = record { name = codes "tsa"; url = codes "u" }

abbrev stamped : Proof
stamped = record { notary = codes "tsa"; format = codes "rfc3161"; token = 1 ∷ 2 ∷ [] }

stamps : stamp library authority tsa (1 ∷ 2 ∷ []) ≡ ok stamped
unfolding stamp parse_and_check
stamps = refl

verify-stamp_example :
    (verify library stamped (1 ∷ 3 ∷ []) ≡ ok tt) ↔ (◌≡◌ {A = Bytes} (1 ∷ 2 ∷ []) (1 ∷ 3 ∷ []))
verify-stamp_example = verify-stamp library authority tsa (1 ∷ 2 ∷ []) stamped stamps (1 ∷ 3 ∷ [])

-- ===== src/Control/Keys.antt =====
-- What issuing and checking API keys guarantee.
use multi_log.Prelude.{
  Result-cases, ◌≡◌, refl, sym, Bool, true, false, inl, inr, Option, none, some, Bytes, take,
  Result, ok, err,
}
use multi_log.Crypto.{Sha256}
use multi_log.Control.{Database, key_of, hash_key, issued, issue_api_key, admitted, authenticate}

module _ ⦃sha : Sha256⦄ (db : Database) where
  issued-ok :
      (key k : Bytes) (reply : Result (Unit {0}) × db.State) (s' : db.State)
      → issued db key reply ≡ (ok k, s')
      → (reply.0 ≡ ok tt) × (reply.1 ≡ s') × (key ≡ k)
  issued-ok key k (err e, s) s' same = cc
  issued-ok key k (ok _, s) s' same = (refl, cc, cc)

  -- What a call of `IssueAPIKey` that returned a key has done: the tenant is known, the key is built
  -- of the random bytes, and a row with its hash has been inserted for the tenant.
  abbrev pub Issued : Result Bytes → Bytes → db.State → Bytes → db.State → Type 0
  Issued random t s key s' =
      (raw : Bytes) × (random ≡ ok raw)
      × (key ≡ key_of raw)
      × (db.select_tenant t s ≡ ok (some tt))
      × (db.insert_key (hash_key key) (take 12 key) t s ≡ (ok tt, s'))

  issue_api_key-Issued :
      (random : Result Bytes) (t : Bytes) (s : db.State) (key : Bytes) (s' : db.State)
      → issue_api_key db random t s ≡ (ok key, s')
      → Issued random t s key s'
  unfolding issue_api_key
  issue_api_key-Issued random t s key s' same = elim (Result-cases (db.select_tenant t s)) [
    | inr (e, found) ↦ let h = rw (found, issue_api_key) at same in cc
    | inl (none, found) ↦ let h = rw (found, issue_api_key) at same in cc
    | inl (some tt, found) ↦ elim (Result-cases random) [
      | inr (e, drawn) ↦ let h = rw (found, drawn, issue_api_key) at same in cc
      | inl (raw, drawn) ↦
          let h = rw (found, drawn, issue_api_key) at same in
          let (inserted, state, built) =
            issued-ok (key_of raw) key
              (db.insert_key (hash_key (key_of raw)) (take 12 (key_of raw)) t s) s' h in
          (raw, drawn, sym built, found, rw (← built) (cc))
    ]
  ]

  -- A key that was issued for a tenant authenticates as that tenant right after, where the database
  -- finds the row that it has just inserted, not revoked.
  pub authenticate-issue_api_key :
      (random : Result Bytes) (t : Bytes) (s : db.State) (key : Bytes) (s' : db.State)
      → issue_api_key db random t s ≡ (ok key, s')
      → ((h prefix : Bytes)
          → db.insert_key h prefix t s ≡ (ok tt, s')
          → db.select_key h s' ≡ ok (some (t, false)))
      → authenticate db key s' ≡ ok t
  unfolding authenticate
  authenticate-issue_api_key random t s key s' same finds =
      let (raw, _, _, _, inserted) = issue_api_key-Issued random t s key s' same in
      rw (finds (hash_key key) (take 12 key) inserted) refl

  admitted-ok :
      (found : Result (Option (Bytes × Bool))) (t : Bytes)
      → admitted db found ≡ ok t
      → found ≡ ok (some (t, false))
  admitted-ok (err e) t same = cc
  admitted-ok (ok none) t same = cc
  admitted-ok (ok (some (u, true))) t same = cc
  admitted-ok (ok (some (u, false))) t same = cc

  -- A key authenticates as a tenant only if the database has a row with the key's hash for exactly
  -- that tenant, and the row is not revoked.
  pub authenticate_sound :
      (key t : Bytes) (s : db.State)
      → authenticate db key s ≡ ok t
      → db.select_key (hash_key key) s ≡ ok (some (t, false))
  unfolding authenticate
  authenticate_sound key t s same = admitted-ok (db.select_key (hash_key key) s) t same

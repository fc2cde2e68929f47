-- ===== src/Commands/Demo.antt =====
-- cmd/demo/main.go: the system that the demo builds in memory and verifies.
pub mod Windows
pub mod Sealed
pub mod Baseline
use multi_log.Prelude.{
  ℕ, zero, suc, ◌+◌, ◌%◌, ◌^◌, String, List, [], ◌∷◌, Bytes, codes, ℤ, pos, to_u64, of_u64, Map,
  Bytes_eq, get, or_nil, length, take, drop, Result, ok, err, Run, done, panicked, looping, ◌>>=◌,
}
use multi_log.Crypto.{Sha256}
use multi_log.Chain
use multi_log.Chain.{Entry, Store, new_store}
use multi_log.Chain.Sealer.{Sealer, new_sealer, seal}
use multi_log.Checkpoint.{Checkpoint}
use multi_log.Checkpoint
use multi_log.Witness.{
  Notary, ProofLedger, new_proof_ledger, add_proof, MemStore, new_mem_store, mem_put, Hmac,
  mock_notary,
}

abbrev pub window_size : ℕ
window_size = 6

abbrev pub base_time : ℤ
base_time = pos 1700000000000000000

pub record Sample : Type 0 where
  pub source : Bytes
  pub raw : Bytes

abbrev sample : String → String → Sample
sample source raw = record { source = codes source; raw = codes raw }

abbrev pub acme_samples : List Sample
acme_samples =
    sample "api" "{\"lvl\":\"info\",\"msg\":\"user login\",\"user\":\"alice\",\"ip\":\"10.0.0.4\"}"
    ∷ sample "api" "{\"lvl\":\"info\",\"msg\":\"user login\",\"user\":\"bob\",\"ip\":\"10.0.0.9\"}"
    ∷ sample "authz"
        "{\"lvl\":\"warn\",\"msg\":\"permission denied\",\"user\":\"bob\",\"res\":\"billing\"}"
    ∷ sample "api" "{\"lvl\":\"info\",\"msg\":\"invoice created\",\"id\":\"INV-1001\",\"amt\":4200}"
    ∷ sample "authz"
        "{\"lvl\":\"alert\",\"msg\":\"admin role granted\",\"by\":\"alice\",\"to\":\"carol\"}"
    ∷ sample "api" "{\"lvl\":\"info\",\"msg\":\"export started\",\"user\":\"carol\",\"rows\":50000}"
    ∷ sample "k8s"
        "{\"lvl\":\"info\",\"msg\":\"pod scheduled\",\"pod\":\"api-7f9\",\"node\":\"node-2\"}"
    ∷ sample "authz"
        "{\"lvl\":\"alert\",\"msg\":\"unauthorized access attempt\",\"user\":\"mallory\",\"res\":\"secrets\"}"
    ∷ sample "api" "{\"lvl\":\"info\",\"msg\":\"payment captured\",\"id\":\"PAY-77\",\"amt\":4200}"
    ∷ sample "k8s"
        "{\"lvl\":\"warn\",\"msg\":\"OOMKilled\",\"pod\":\"worker-3\",\"node\":\"node-1\"}"
    ∷ sample "api" "{\"lvl\":\"info\",\"msg\":\"user logout\",\"user\":\"alice\"}"
    ∷ sample "authz" "{\"lvl\":\"info\",\"msg\":\"api key rotated\",\"user\":\"carol\"}"
    ∷ []

abbrev pub globex_samples : List Sample
globex_samples =
    sample "app" "{\"lvl\":\"info\",\"msg\":\"order placed\",\"order\":\"G-501\",\"total\":120}"
    ∷ sample "app" "{\"lvl\":\"error\",\"msg\":\"payment gateway timeout\",\"order\":\"G-501\"}"
    ∷ sample "app" "{\"lvl\":\"info\",\"msg\":\"retry succeeded\",\"order\":\"G-501\"}"
    ∷ sample "host" "{\"lvl\":\"warn\",\"msg\":\"disk usage high\",\"mount\":\"/var\",\"pct\":88}"
    ∷ sample "app"
        "{\"lvl\":\"info\",\"msg\":\"order shipped\",\"order\":\"G-501\",\"carrier\":\"UPS\"}"
    ∷ sample "host"
        "{\"lvl\":\"crit\",\"msg\":\"sshd auth failure\",\"user\":\"root\",\"ip\":\"8.8.8.8\"}"
    ∷ sample "app" "{\"lvl\":\"info\",\"msg\":\"refund issued\",\"order\":\"G-477\",\"amt\":60}"
    ∷ sample "host" "{\"lvl\":\"info\",\"msg\":\"backup completed\",\"size\":\"2.1GB\"}"
    ∷ []

abbrev pub sample_logs : Map Bytes (List Sample)
sample_logs = (codes "acme-corp", acme_samples) ∷ (codes "globex", globex_samples) ∷ []

abbrev pub tenant_order : List Bytes
tenant_order = codes "acme-corp" ∷ codes "globex" ∷ []

pub record System : Type 0 where
  pub store : Store
  pub worm : MemStore
  pub ledger : ProofLedger
  pub notaries : List Notary

-- `t += 1_000_000_000` on int64.
abbrev pub next_second : ℤ → ℤ
next_second t = of_u64 ((to_u64 t + 1000000000) % 2 ^ 64)

-- An error panics.
abbrev pub must {ℓ} : {A : Type ℓ} → Result A → Run A
must (ok a) = done a
must (err e) = panicked

-- What the loop over the windows changes.
pub record Progress : Type 0 where
  pub worm : MemStore
  pub ledger : ProofLedger
  pub anchored_at : ℤ

module _ ⦃sha : Sha256⦄ where
  unfoldable pub seal_samples : Bytes → List Sample → ℤ → Sealer → ℤ × Sealer
  seal_samples tenant [] t s = (t, s)
  seal_samples tenant (l ∷ ls) t s =
      seal_samples tenant ls (next_second t) (seal tenant l.source l.raw t t s).1

  unfoldable pub seal_tenants : Map Bytes (List Sample) → List Bytes → ℤ → Sealer → ℤ × Sealer
  unfolding seal_samples
  seal_tenants logs [] t s = (t, s)
  seal_tenants logs (tenant ∷ ts) t s =
      let (t', s') = seal_samples tenant (or_nil (get tenant logs)) t s in
      seal_tenants logs ts t' s'

  unfoldable pub stamp_with : List Notary → Bytes → Checkpoint → ProofLedger → Run ProofLedger
  stamp_with [] tenant cp ledger = done ledger
  stamp_with (n ∷ ns) tenant cp ledger = do
    p ← must (n.stamp cp.checkpoint_id)
    stamp_with ns tenant cp (add_proof tenant cp.seq_end p ledger)

  -- The loop over the windows of the entries that are left.
  unfoldable pub window_loop :
      List Notary → ℕ → Bytes → List Entry → Bytes → Progress → Run Progress
  unfolding stamp_with
  window_loop notaries rounds tenant [] prev_id p = done p
  window_loop notaries zero tenant (e ∷ es) prev_id p = looping
  window_loop notaries (suc rounds) tenant (e ∷ es) prev_id p = do
    cp ← Checkpoint.build tenant (take window_size (e ∷ es)) prev_id p.anchored_at
    _ ← must (mem_put cp p.worm).0
    ledger ← stamp_with notaries tenant cp p.ledger
    window_loop notaries rounds tenant (drop window_size (e ∷ es)) cp.checkpoint_id (record {
      worm = (mem_put cp p.worm).1;
      ledger = ledger;
      anchored_at = next_second p.anchored_at;
    })

  unfoldable pub anchor_tenants :
      List Notary → List Bytes → Store → Progress → Run (Store × Progress)
  unfolding window_loop
  anchor_tenants notaries [] store p = done (store, p)
  anchor_tenants notaries (tenant ∷ ts) store p = do
    let (es, store') = Chain.tenant tenant store
    p' ← window_loop notaries (length es) tenant es [] p
    anchor_tenants notaries ts store' p'

  -- `build` over these tenants, lines and notaries.
  unfoldable pub build_of : List Bytes → Map Bytes (List Sample) → List Notary → Run System
  unfolding seal_tenants anchor_tenants
  build_of order logs notaries = do
    let (t, sealer) = seal_tenants logs order base_time (new_sealer new_store)
    (store, p) ← anchor_tenants notaries order sealer.store (record {
      worm = new_mem_store (codes "S3 Object Lock (WORM)");
      ledger = new_proof_ledger;
      anchored_at = t;
    })
    done (record { store = store; worm = p.worm; ledger = p.ledger; notaries = notaries })

  abbrev pub demo_notaries : ⦃h : Hmac⦄ → List Notary
  demo_notaries =
      mock_notary (record { name = codes "RFC 3161 TSA"; secret = codes "tsa-signing-key" })
      ∷ mock_notary
          (record { name = codes "OpenTimestamps (Bitcoin)"; secret = codes "ots-signing-key" })
      ∷ []

  unfoldable pub build : ⦃h : Hmac⦄ → Run System
  unfolding build_of
  build = build_of tenant_order sample_logs demo_notaries

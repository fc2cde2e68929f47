-- ===== src/Runs/Demo.antt =====
-- The demo's baseline with its own lines, and two environments.
use multi_log.Prelude.{
  Bytes, codes, bytes_equal, [], if◌then◌else◌, ◌≡◌, refl, true, Bytes_eq, get, done, ◌++◌, arith,
}
use multi_log.Witness.{Hmac, mem_store}
use multi_log.Witness.Honest.{mock_notary-IsHonest}
use multi_log.Verify.{Report, report_ok, verify}
use multi_log.Chain.{Store}
use multi_log.Commands.Demo.{System, tenant_order, sample_logs, demo_notaries, build_of}
use multi_log.Commands.Demo.Sealed.{SamplesFit}
use multi_log.Commands.Demo.Baseline.{build_of-verify}
use multi_log.Witness.{mock_stamp}
use multi_log.Runs.Toy.{toy}

instance abbrev keyed_sum : Hmac
keyed_sum = record { mac_of = λ secret message. toy.sum256 (secret ++ message) }

samples-Fit : SamplesFit sample_logs tenant_order
unfolding get
samples-Fit = omega arith

build_of-verify_example :
    (sys : System) × (r : Report) × (store' : Store) × (build_of tenant_order sample_logs
        demo_notaries
      ≡ done sys)
    × (verify sys.store (mem_store sys.worm.name) sys.worm sys.ledger sys.notaries
        ≡ done (r, store'))
    × (report_ok r ≡ true)
unfolding mock_stamp get
build_of-verify_example =
    build_of-verify tenant_order sample_logs demo_notaries ((refl, tt), (tt, tt)) samples-Fit
      (omega arith) ((refl, tt), (tt, tt)) (mock_notary-IsHonest _, (mock_notary-IsHonest _, tt))
      ((λ id. (_, refl)), ((λ id. (_, refl)), tt))

-- The verifier's environment sets a region besides.
abbrev unset : Bytes → Bytes
unset k = []

abbrev region_set : Bytes → Bytes
region_set k = if bytes_equal k (codes "S3_REGION") then codes "eu-west-1" else []

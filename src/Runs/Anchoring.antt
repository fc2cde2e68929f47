-- ===== src/Runs/Anchoring.antt =====
-- A run of the anchorer over a chain of two entries.
use multi_log.Prelude.{
  Result, Bytes, Bool, ◌==◌, ◌||◌, immutable, Bool-cases, inl, inr, ap, true, false, err, codes,
  keys, ℕ, ◌≡◌, refl, sym, ◌∙◌, arith, if◌then◌else◌, List, [], ◌∷◌, ◌++◌, append-nil, Option, none,
  some, bytes_equal, bytes_equal_refl, pos, Bytes_eq, get, All, All-append, drop, ok, done,
  ok-injective,
}
use mathlib.Core.Path.{subst}
use multi_log.Chain.{Store, tenants, sort_strings, insert_string}
use multi_log.Checkpoint.{Checkpoint}
use multi_log.Checkpoint.Built.{build_total}
use multi_log.Witness.{CheckpointStore, Proof, ProofLedger, new_proof_ledger, add_proof, get_proofs}
use multi_log.Witness.Ledger.{get_proofs-add_proof}
use multi_log.Verify.{by_name, Report, report_ok, verify}
use multi_log.Verify.Whole.Kept.{Windows-none}
use multi_log.Anchor.{
  Services, anchor_tenant, anchor_each, anchor_all, anchor_windows, anchor_window, stamp_all,
}
use multi_log.Anchor.Views.{IsBeyond, Views, IsFaithful}
use multi_log.Anchor.Settled.{SettledAt}
use multi_log.Anchor.Verified.{Reads, anchor_all-verify}
use multi_log.Runs.Toy.{toy, acme, early, first, second, anchored, early-IsChained, early-Anchored}

pub record World : Type 0 where
  pub held : Bytes → List Checkpoint
  pub last : Bytes → Option (ℕ × Bytes)
  pub proofs : ProofLedger

abbrev pub hold : Checkpoint → World → World
hold cp w = record w {
  held = λ u. if bytes_equal cp.tenant_id u then w.held u ++ cp ∷ [] else w.held u;
}

abbrev is_taken : List Checkpoint → Checkpoint → Bool
is_taken [] cp = false
is_taken (old ∷ olds) cp = old.seq_end == cp.seq_end || is_taken olds cp

-- The WORM store refuses a place that is taken.
abbrev pub place : Checkpoint → World → Result (Unit {0}) × World
place cp w = if is_taken (w.held cp.tenant_id) cp then (err immutable, w) else (ok tt, hold cp w)

abbrev pub copy : Checkpoint → World → World
copy cp w = record w {
  last = λ u. if bytes_equal cp.tenant_id u then some (cp.seq_end, cp.checkpoint_id) else w.last u;
}

abbrev pub prove : Bytes → ℕ → Proof → World → World
prove t end p w = record w { proofs = add_proof t end p w.proofs }

-- The queries answer from the state, and the writes succeed.
abbrev pub services : Services
services = record {
  World = World;
  tenants = λ w. ok (acme ∷ []);
  last_checkpoint = λ t w. ok (w.last t);
  entries_asc = λ t n w. ok (drop n early);
  worm_put = place;
  put_checkpoint = λ cp w. (ok tt, copy cp w);
  put_proof = λ t end p w. (ok tt, prove t end p w);
  now = λ w. pos 9;
}

abbrev pub views : Views services
views = record {
  rows = λ t w. early;
  held = λ t w. w.held t;
  last = λ t w. w.last t;
  ledger = λ w. w.proofs;
}

IsBeyond-free :
    (olds : List Checkpoint) (cp : Checkpoint) → IsBeyond olds cp → is_taken olds cp ≡ false
IsBeyond-free [] cp h = refl
IsBeyond-free (old ∷ olds) cp (h, hs) = ground (arith, IsBeyond-free olds cp hs)

taken-place :
    (olds : List Checkpoint) (old : Checkpoint) (more : List Checkpoint) (cp : Checkpoint)
    → old.seq_end ≡ cp.seq_end
    → is_taken (olds ++ old ∷ more) cp ≡ true
taken-place [] old more cp same = ground arith
taken-place (x ∷ olds) old more cp same = ground (arith, taken-place olds old more cp same)

-- What is known of both outcomes of putting is known of putting.
place-both :
    (P : World → Type 0) (cp : Checkpoint) (w : World) → P w → P (hold cp w) → P (place cp w).1
place-both P cp w kept held = elim (Bool-cases (is_taken (w.held cp.tenant_id) cp)) [
  | inl taken ↦ rw taken kept
  | inr free ↦ rw free held
]

pub views-IsFaithful : IsFaithful services views
views-IsFaithful = record {
  clock = λ w. omega arith;
  last_read = λ t w x read. cc;
  rows_read = λ t n w es read. ([], ok-injective read ∙ sym (append-nil es));
  worm_rows = λ cp w u. refl;
  worm_last = λ cp w u. place-both (λ x. x.last u ≡ w.last u) cp w refl refl;
  worm_ledger = λ cp w. place-both (λ x. x.proofs ≡ w.proofs) cp w refl refl;
  worm_others = λ cp w u other. place-both (λ x. x.held u ≡ w.held u) cp w refl (rw other refl);
  worm_stored = λ cp w stored beyond.
      rw (IsBeyond-free (w.held cp.tenant_id) cp beyond, bytes_equal_refl cp.tenant_id) refl;
  worm_refused = λ cp w beyond refused.
      let free = IsBeyond-free (w.held cp.tenant_id) cp beyond in
      let refused' : ◌≡◌ {A = Result (Unit {0})} (ok tt) (err immutable) = rw free at refused in cc;
  worm_taken = λ cp old w olds more at same.
      let full : is_taken (w.held cp.tenant_id) cp ≡ true =
        ap (λ xs. is_taken xs cp) at ∙ taken-place olds old more cp same in
      rw full refl;
  copy_rows = λ cp w u. refl;
  copy_held = λ cp w u. refl;
  copy_ledger = λ cp w. refl;
  copy_others = λ cp w u other. rw other refl;
  copy_stored = λ cp w stored below. rw (bytes_equal_refl cp.tenant_id) refl;
  proof_rows = λ t end p w u. refl;
  proof_held = λ t end p w u. refl;
  proof_last = λ t end p w u. refl;
  proof_own = λ t end p w P short before new.
      subst (All P) (sym (get_proofs-add_proof t t end end p w.proofs short short).0)
        (All-append P (get_proofs t end w.proofs) (p ∷ []) before (new, tt));
  proof_others = λ t end p w u m short short' apart.
      (get_proofs-add_proof t u end m p w.proofs short short').1 apart;
}

abbrev pub before : World
before = record { held = λ u. []; last = λ u. none; proofs = new_proof_ledger }

abbrev after : World
after = copy anchored (hold anchored before)

ran : anchor_tenant services [] 2 acme before ≡ done ((1, none), after)
unfolding anchor_tenant anchor_windows anchor_window stamp_all
ran = rw ((build_total acme first (second ∷ []) [] (pos 9)).2) refl

settled : SettledAt services views views-IsFaithful (by_name [] []) [] tt 2 acme 0 [] before
unfolding get_proofs get
settled = record {
  windows = Windows-none (by_name [] []) acme early new_proof_ledger (λ m short. refl);
  marked = refl;
  first = λ _. refl;
  linkable = omega arith;
}

ran_all : anchor_all services [] 2 before ≡ done ((1, none), after)
unfolding anchor_all anchor_each
ran_all = rw ran refl

abbrev entry_store : Store
entry_store = record { entries = (acme, early) ∷ [] }

-- A checkpoint store that lists what the run has put.
abbrev listing : CheckpointStore
listing = record {
  State = World;
  name = codes "worm";
  put_checkpoint = λ cp w. (ok tt, hold cp w);
  get_checkpoint = λ t n w. ok none;
  all_checkpoints = λ t w. ok (w.held t);
}

named : tenants entry_store ≡ acme ∷ []
unfolding tenants sort_strings insert_string keys
named = refl

reads :
    Reads services views views-IsFaithful [] tt 1 (omega arith) entry_store listing after after acme
unfolding get
reads = (refl, refl)

anchor_all-verify_example :
    (r : Report) × (store' : Store) × (verify entry_store listing after after.proofs []
      ≡ done (r, store'))
    × (report_ok r ≡ true)
anchor_all-verify_example =
    anchor_all-verify services views views-IsFaithful [] tt 1 (omega arith) (acme ∷ []) before after
      1 refl
      (
        record {
          chained = early-IsChained;
          bounded = early-Anchored.bounded;
          named = early-Anchored.named;
          in_range = early-Anchored.in_range;
        },
        tt,
      )
      (record { size = 0; id = []; within = omega arith; at = settled }, tt) ran_all entry_store
      listing after named (reads, tt)

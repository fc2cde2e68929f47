-- ===== src/Runs/Restarted.antt =====
-- A run of the persistent sealer over a small log store, across a restart.
use multi_log.Prelude.{
  ◌==◌, get, put, ◌+◌, ◌≡◌, refl, sym, ◌∙◌, arith, inl, inr, Bool-cases, false, bytes_equal,
  if◌then◌else◌, List, [], ◌∷◌, ◌++◌, Bytes, codes, All, pos, Result, ok, err, text, length, ltb,
  ap, append-nil, bytes_equal_refl, Error,
}
use multi_log.Crypto.{genesis}
use multi_log.Chain.{Entry}
use multi_log.Verify.{verify_entries, empty_report}
use multi_log.Ingest.{LogStore, Record, HeadState, seal_records, Sealer, new_sealer, seal_batch}
use multi_log.Ingest.Restarts.{
  end_of, sealed_at, HasRoom, StoresNothing, IsLost, IsDurable, Step, batch, restart, lost,
  Reachable, started, after,
}
use multi_log.Ingest.Restarts.Sound.{Reachable-verify_entries}
use multi_log.Runs.Toy.{toy, acme, globex}

-- What a list of entries holds for a tenant.
abbrev pub stored : Bytes → List Entry → List Entry
stored t [] = []
stored t (e ∷ held) =
    let rest = stored t held in if bytes_equal e.tenant_id t then e ∷ rest else rest

-- A log store for three appends of one entry: the fourth is stored, but reported as failed, and any
-- further one is refused.
abbrev append_up_to_three : List Entry → List Entry → Result (Unit {0}) × List Entry
append_up_to_three new held =
    if ltb (length held) 3
    then (ok tt, held ++ new)
    else if length held == 3
    then (err (text (codes "reset")), held ++ new)
    else (err (text (codes "full")), held)

abbrev small_logs : LogStore
small_logs = record {
  State = List Entry;
  head = λ t held. let h = end_of t (stored t held) in ok (h.next_seq, h.prev_hash);
  append = append_up_to_three;
}

pub stored-append :
    (t : Bytes) (xs ys : List Entry) → stored t (xs ++ ys) ≡ stored t xs ++ stored t ys
stored-append t [] ys = refl
stored-append t (x ∷ xs) ys = elim (Bool-cases (bytes_equal x.tenant_id t)) [
  | inl same ↦ rw (same, stored-append t xs ys) refl
  | inr other ↦ rw (other, stored-append t xs ys) refl
]

stored-same : (t : Bytes) (es : List Entry) → All (λ e. e.tenant_id ≡ t) es → stored t es ≡ es
stored-same t [] h = refl
stored-same t (e ∷ es) (same, more) = rw (same, bytes_equal_refl t, stored-same t es more) refl

pub stored-other :
    (u t : Bytes) (es : List Entry)
    → bytes_equal u t ≡ false
    → All (λ e. e.tenant_id ≡ u) es
    → stored t es ≡ []
stored-other u t [] apart h = refl
stored-other u t (e ∷ es) apart (same, more) = rw (same, apart, stored-other u t es apart more) refl

append_up_to_three-ok :
    (new held held_after : List Entry)
    → append_up_to_three new held ≡ (ok tt, held_after)
    → held_after ≡ held ++ new
append_up_to_three-ok new held held_after h = elim (Bool-cases (ltb (length held) 3)) [
  | inl room ↦ let h' = rw room at h in cc
  | inr full ↦ elim (Bool-cases (length held == 3)) [
    | inl last ↦ let h' = rw (full, last) at h in cc
    | inr over ↦ let h' = rw (full, over) at h in cc
  ]
]

append_up_to_three-err :
    (new held held_after : List Entry) (e : Error)
    → (length held == 3) ≡ false
    → append_up_to_three new held ≡ (err e, held_after)
    → held_after ≡ held
append_up_to_three-err new held held_after e over h = elim (Bool-cases (ltb (length held) 3)) [
  | inl room ↦ let h' = rw room at h in cc
  | inr full ↦ let h' = rw (full, over) at h in cc
]

small_logs-IsDurable : IsDurable small_logs stored
small_logs-IsDurable = record {
  append_adds = λ u es st st' own chained fits h.
      ap (stored u) (append_up_to_three-ok es st st' h)
      ∙ stored-append u st es
      ∙ ap (λ x. stored u st ++ x) (stored-same u es own);
  append_others = λ u t es st st' own apart h.
      ap (stored t) (append_up_to_three-ok es st st' h)
      ∙ stored-append t st es
      ∙ ap (λ x. stored t st ++ x) (stored-other u t es apart own)
      ∙ append-nil (stored t st);
  head_resumes = λ t st n p chained fits h. sym (cc);
}

small_logs-StoresNothing :
    (t : Bytes) (recs : List Record) (s : Sealer small_logs)
    → (length s.store == 3) ≡ false
    → StoresNothing small_logs stored t recs s
small_logs-StoresNothing t recs s over h e st at failed v =
    ap (stored v) (append_up_to_three-err (sealed_at t recs h) s.store st e over failed)

abbrev pub rec : Record
rec = record { source = codes "web"; raw = codes "a"; event_time = pos 1; ingest_time = pos 2 }

-- Three batches, a restart, a batch whose append is stored but reported as failed, another restart, and
-- a batch that is refused.
abbrev first_of_three : Sealer small_logs
first_of_three = (seal_batch small_logs acme (rec ∷ []) (new_sealer small_logs [])).1

abbrev second_of_three : Sealer small_logs
second_of_three = (seal_batch small_logs globex (rec ∷ []) first_of_three).1

abbrev third_of_three : Sealer small_logs
third_of_three = (seal_batch small_logs acme (rec ∷ []) second_of_three).1

abbrev restarted : Sealer small_logs
restarted = new_sealer small_logs third_of_three.store

abbrev again : Sealer small_logs
again = new_sealer small_logs (seal_batch small_logs acme (rec ∷ []) restarted).1.store

abbrev last : Sealer small_logs
last = (seal_batch small_logs acme (rec ∷ []) again).1

abbrev acme_head : HeadState
acme_head = end_of acme (stored acme third_of_three.store)

was_lost : IsLost small_logs stored acme (rec ∷ []) restarted
unfolding seal_batch get put seal_records
was_lost = record {
  h = acme_head;
  error = text (codes "reset");
  st = third_of_three.store ++ sealed_at acme (rec ∷ []) acme_head;
  front = sealed_at acme (rec ∷ []) acme_head;
  back = [];
  at = refl;
  failed = refl;
  parts = refl;
  kept = refl;
  others = λ v apart.
      stored-append v third_of_three.store (sealed_at acme (rec ∷ []) acme_head)
      ∙ ap (λ x. stored v third_of_three.store ++ x)
          (stored-other acme v (sealed_at acme (rec ∷ []) acme_head) apart (refl, tt))
      ∙ append-nil (stored v third_of_three.store);
}

batch_of :
    (t : Bytes) (s : Sealer small_logs)
    → HasRoom small_logs stored t (rec ∷ []) s
    → (length s.store == 3) ≡ false
    → Step small_logs stored s (seal_batch small_logs t (rec ∷ []) s).1
batch_of t s room over = batch t (rec ∷ []) s room (small_logs-StoresNothing t (rec ∷ []) s over)

reached : Reachable small_logs stored [] last
unfolding seal_batch get put seal_records
reached =
    after
      (after
        (after
          (after
            (after (after started (batch_of acme _ (omega arith) refl))
              (batch_of globex first_of_three (omega arith) refl))
            (batch_of acme second_of_three (omega arith) refl))
          (restart third_of_three))
        (lost acme (rec ∷ []) restarted (omega arith) was_lost))
      (batch_of acme again (omega arith) refl)

Reachable-verify_entries_example :
    verify_entries acme (genesis acme) 0 (stored acme last.store) empty_report
    ≡ record empty_report { entries_checked = 0 + length (stored acme last.store) }
Reachable-verify_entries_example =
    Reachable-verify_entries small_logs stored small_logs-IsDurable acme empty_report
      (λ v. (tt, omega arith)) reached

-- The entry whose append was reported as failed is in the chain.
count : length (stored acme last.store) ≡ 3
unfolding seal_batch get put seal_records
count = refl

-- ===== src/Chain/Window/Total.antt =====
-- `Range` ends.
use multi_log.Prelude.{
  ℕ, zero, suc, ◌+◌, ◌-◌, ◌%◌, ◌^◌, ◌≤◌, ◌<◌, ◌≡◌, refl, ◌∙◌, arith, Bool, true, false, List, [],
  ◌∷◌, ◌++◌, Option-cases, inl, inr, lt→leb, Bytes, Map, ℕ_eq, Bytes_eq, get, or_nil, done,
}
use multi_log.Chain.{Entry, Store, by_seq, range_loop, range, max_pointers}
use multi_log.Chain.Window.{range_loop-found, range_loop-none, range-window}

range_loop_total :
    (rounds seq end : ℕ) (m : Map ℕ Entry) (out : List Entry)
    → seq + rounds ≡ end + 1
    → end + 1 < 2 ^ 64
    → (r : List Entry × Bool) × (range_loop rounds seq end m out ≡ done r)
range_loop_total zero seq end m out at fits =
    ((out, true), unfold range_loop in rw (lt→leb end seq (omega arith)))
range_loop_total (suc rounds) seq end m out at fits = elim (Option-cases (get seq m)) [
  | inl missing ↦ ((out, false), range_loop-none rounds seq end m out (omega arith) missing)
  | inr (e, found) ↦
      let (r, ends) =
        range_loop_total rounds ((seq + 1) % 2 ^ 64) end m (out ++ e ∷ []) (omega arith) fits in
      (r, range_loop-found rounds seq end m out e (omega arith) found ∙ ends)
]

-- On any store `Range` ends, with no panic, where the window is not reversed, not larger than `make`
-- allows, and ends below the largest uint64.
range_total :
    (id : Bytes) (start end : ℕ) (s : Store)
    → start ≤ end
    → end + 1 < 2 ^ 64
    → end < start + max_pointers
    → (r : List Entry × Bool) × (range id start end s ≡ done r)
range_total id start end s ordered fits small =
    let (r, ends) =
      range_loop_total (end + 1 - start) start end (by_seq (or_nil (get id s.entries)) []) []
        (omega arith) fits in
    (r, range-window id start end s (or_nil (get id s.entries)) refl ordered fits small ∙ ends)

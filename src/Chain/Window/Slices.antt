-- ===== src/Chain/Window/Slices.antt =====
-- `Range` over a numbered list, as a cut of the list.
use multi_log.Prelude.{
  ℕ, suc, ◌+◌, ◌-◌, ◌^◌, ◌≤◌, ◌<◌, ◌≡◌, sym, ◌∙◌, ap, arith, true, false, List, [], ◌∷◌, ◌++◌,
  Bytes, Bytes_eq, get, or_nil, length, take, drop, take-append-drop, length-take, length-drop,
  uncons, append_assoc, done,
}
use multi_log.Chain.{Entry, Store, range, max_pointers}
use multi_log.Chain.Window.{IsNumbered, range_complete, range-missing, range-beyond}
use native.Mathlib.Decide.{dec_le}
use mathlib.Core.Path.{subst}

module _ (id : Bytes) (s : Store) (es : List Entry) (numbered : IsNumbered 0 es)
    (at : or_nil (get id s.entries) ≡ es) (start end : ℕ) (ordered : start ≤ end)
    (fits : end < 2 ^ 64) (small : end < start + max_pointers) where
  -- Over entries numbered from 0 without a gap, a window that is not too large and reaches past the
  -- last entry is found incomplete, and `Range` returns as many entries as there are from its start on.
  pub range-short :
      length es ≤ end
      → (found : List Entry) × (range id start end s ≡ done (found, false))
        × (length found ≡ length es - start)
  range-short short = elim (dec_le start (length es)) [
    | yes within ↦
        let front = length-take start es within in
        let whole = take-append-drop start es in
        (
          drop start es,
          subst (λ k. range id k end s ≡ done (drop start es, false)) front
              (range-missing id s (take start es) (drop start es) end (at ∙ sym whole)
                (rw whole numbered) (rw whole short) fits (omega (arith, front))),
          length-drop start es,
        )
    | no beyond ↦ (
      [],
      range-beyond id s es start end at numbered (omega arith) ordered fits small,
      omega arith,
    )
  ]

  -- Over entries numbered from 0 without a gap, a window that is not too large and ends within the
  -- entries is found complete, and `Range` returns its cut of the list.
  pub range-within :
      end < length es
      → length es < 2 ^ 64
      → range id start end s ≡ done (drop start (take (suc end) es), true)
  range-within inside bounded =
      let front : List Entry = take (suc end) es in
      let l = length-take (suc end) es inside in
      let k = length-take start front (omega (arith, l)) in
      let d = length-drop start front in
      let (e, win, cut) = uncons (end - start) (drop start front) (omega (arith, l, d)) in
      let n : length (drop start front) ≡ suc (length win) = ap (length {A = Entry}) cut in
      let parts : take start front ++ ((e ∷ win) ++ drop (suc end) es) ≡ es =
        ap (λ w. take start front ++ (w ++ drop (suc end) es)) (sym cut)
        ∙ sym (append_assoc (take start front) (drop start front) (drop (suc end) es))
        ∙ ap (λ f. f ++ drop (suc end) es) (take-append-drop start front)
        ∙ take-append-drop (suc end) es in
      let found =
        range_complete id s (take start front) win (drop (suc end) es) e (at ∙ sym parts)
          (rw parts numbered) (rw parts bounded) (omega (arith, l, d, n)) in
      let last : start + length win ≡ end = omega (arith, l, d, n) in
      subst (λ m. range id start m s ≡ done (drop start front, true)) last
        (subst (λ w. range id start (start + length win) s ≡ done (w, true)) (sym cut)
          (subst (λ b. range id b (b + length win) s ≡ done (e ∷ win, true)) k found))

-- ===== src/Chain/Window.antt =====
-- What `Range` finds among entries numbered without a gap, and how it ends on any store.
pub mod Slices
pub mod Total
use multi_log.Prelude.{
  ℕ, zero, suc, ◌+◌, ◌-◌, ◌%◌, ◌^◌, ◌≤◌, ◌<◌, ◌≡◌, ◌⊎◌, refl, sym, ◌∙◌, ap, arith, Bool, true,
  false, List, [], ◌∷◌, ◌++◌, append-nil, append_assoc, Option-cases, inl, inr, none, some, le→leb,
  le→ltb, lt→leb, lt→ltb, Bytes, Map, ℕ_eq, Bytes_eq, get, put, get-put_self, get-put_ne, or_nil,
  length, length-append, done, panicked,
}
use native.Mathlib.Nat.{zero-add}
use multi_log.Chain.{
  Entry, Store, by_seq, range_loop, range, range_rounds, window_size, max_pointers,
}

-- The entries are numbered `want`, `want + 1`, ...
abbrev pub IsNumbered : ℕ → List Entry → Type 0
IsNumbered want [] = Unit {0}
IsNumbered want (e ∷ es) = (e.seq ≡ want) × IsNumbered (want + 1) es

-- The map has these entries at `seq`, `seq + 1`, ...
abbrev Holds : Map ℕ Entry → ℕ → List Entry → Type 0
Holds m seq [] = Unit {0}
Holds m seq (e ∷ es) = (get seq m ≡ some e) × Holds m (seq + 1) es

pub IsNumbered-append :
    (want : ℕ) (es fs : List Entry)
    → IsNumbered want (es ++ fs)
    → IsNumbered want es × IsNumbered (want + length es) fs
IsNumbered-append want [] fs h = (tt, let e : want ≡ want + 0 = omega arith in rw (← e) h)
IsNumbered-append want (e ∷ es) fs (h, hs) =
    let (p, q) = IsNumbered-append (want + 1) es fs hs in
    let n : want + 1 + length es ≡ want + suc (length es) = omega arith in ((h, p), rw n at q)

by_seq-outside :
    (want : ℕ) (es : List Entry) (m : Map ℕ Entry) (k : ℕ)
    → IsNumbered want es
    → (k < want) ⊎ (want + length es ≤ k)
    → get k (by_seq es m) ≡ get k m
unfolding by_seq
by_seq-outside want [] m k h out = refl
by_seq-outside want (e ∷ es) m k (h, hs) out =
    by_seq-outside (want + 1) es (put e.seq e m) k hs (ground arith)
    ∙ get-put_ne e.seq k e m (ground arith)

by_seq-Holds :
    (want : ℕ) (es : List Entry) (m : Map ℕ Entry)
    → IsNumbered want es
    → Holds (by_seq es m) want es
unfolding by_seq
by_seq-Holds want [] m h = tt
by_seq-Holds want (e ∷ es) m (h, hs) = (
  by_seq-outside (want + 1) es (put e.seq e m) want hs (inl (omega arith))
      ∙ ap (λ k. get k (put e.seq e m)) (sym h)
      ∙ get-put_self e.seq e m,
  by_seq-Holds (want + 1) es (put e.seq e m) hs,
)

Holds-append :
    (m : Map ℕ Entry) (seq : ℕ) (es fs : List Entry)
    → Holds m seq (es ++ fs)
    → Holds m seq es × Holds m (seq + length es) fs
Holds-append m seq [] fs h = (tt, let e : seq ≡ seq + 0 = omega arith in rw (← e) h)
Holds-append m seq (e ∷ es) fs (h, hs) =
    let (p, q) = Holds-append m (seq + 1) es fs hs in
    let n : seq + 1 + length es ≡ seq + suc (length es) = omega arith in ((h, p), rw n at q)

-- One round of the loop that finds its entry.
pub range_loop-found :
    (rounds seq end : ℕ) (m : Map ℕ Entry) (out : List Entry) (e : Entry)
    → seq ≤ end
    → get seq m ≡ some e
    → range_loop (suc rounds) seq end m out
      ≡ range_loop rounds ((seq + 1) % 2 ^ 64) end m (out ++ e ∷ [])
unfolding range_loop
range_loop-found rounds seq end m out e le found = rw (le→leb seq end le, found, range_loop)

pub range_loop-none :
    (rounds seq end : ℕ) (m : Map ℕ Entry) (out : List Entry)
    → seq ≤ end
    → get seq m ≡ none
    → range_loop (suc rounds) seq end m out ≡ done (out, false)
unfolding range_loop
range_loop-none rounds seq end m out le missing = rw (le→leb seq end le, missing, range_loop)

range_loop_complete :
    (win : List Entry) (seq end : ℕ) (m : Map ℕ Entry) (out : List Entry)
    → Holds m seq win
    → end + 1 ≡ seq + length win
    → end + 1 < 2 ^ 64
    → range_loop (length win) seq end m out ≡ done (out ++ win, true)
range_loop_complete [] seq end m out h at fits =
    unfold range_loop in rw (lt→leb end seq (omega arith), append-nil)
range_loop_complete (e ∷ win) seq end m out (h, hs) at fits =
    let next : (seq + 1) % 2 ^ 64 ≡ seq + 1 = omega arith in
    range_loop-found (length win) seq end m out e (omega arith) h
    ∙ rw next (range_loop_complete win (seq + 1) end m (out ++ e ∷ []) hs (omega arith) fits)
    ∙ ap (λ es. done (es, true)) (append_assoc out (e ∷ []) win)

range_loop-missing :
    (win : List Entry) (rounds seq end : ℕ) (m : Map ℕ Entry) (out : List Entry)
    → Holds m seq win
    → get (seq + length win) m ≡ none
    → seq + length win ≤ end
    → end < 2 ^ 64
    → length win < rounds
    → range_loop rounds seq end m out ≡ done (out ++ win, false)
range_loop-missing win zero seq end m out h none_at le fits more = absurd (omega arith)
range_loop-missing [] (suc rounds) seq end m out h none_at le fits more =
    let here : seq + 0 ≡ seq = omega arith in
    let missing : get seq m ≡ none = rw here at none_at in
    range_loop-none rounds seq end m out (omega arith) missing
    ∙ ap (λ es. done (es, false)) (sym (append-nil out))
range_loop-missing (e ∷ win) (suc rounds) seq end m out (h, hs) none_at le fits more =
    let next : (seq + 1) % 2 ^ 64 ≡ seq + 1 = omega arith in
    let n : seq + suc (length win) ≡ seq + 1 + length win = omega arith in
    range_loop-found rounds seq end m out e (omega arith) h
    ∙ rw next (
        range_loop-missing win rounds (seq + 1) end m (out ++ e ∷ []) hs (rw n at none_at)
          (omega arith) fits (omega arith))
    ∙ ap (λ es. done (es, false)) (append_assoc out (e ∷ []) win)

range-small :
    (id : Bytes) (start end : ℕ) (s : Store) (es : List Entry) (n : ℕ)
    → or_nil (get id s.entries) ≡ es
    → window_size start end ≡ n
    → n ≤ max_pointers
    → range id start end s ≡ range_loop (range_rounds start end) start end (by_seq es []) []
unfolding range
range-small id start end s es n at size small = rw (at, size, le→ltb max_pointers n small)

-- Below the largest uint64 the rounds are as many as the window has numbers, and never fewer.
range_rounds-window :
    (start end : ℕ) → start ≤ end → end + 1 < 2 ^ 64 → range_rounds start end ≡ end + 1 - start
range_rounds-window start end ordered fits = ground arith

range_rounds-enough :
    (start end : ℕ) → start ≤ end → end < 2 ^ 64 → end + 1 - start ≤ range_rounds start end
range_rounds-enough start end ordered fits = ground arith

pub range-window :
    (id : Bytes) (start end : ℕ) (s : Store) (es : List Entry)
    → or_nil (get id s.entries) ≡ es
    → start ≤ end
    → end + 1 < 2 ^ 64
    → end < start + max_pointers
    → range id start end s ≡ range_loop (end + 1 - start) start end (by_seq es []) []
range-window id start end s es at ordered fits small =
    range-small id start end s es (end + 1 - start) at (omega arith) (omega arith)
    ∙ ap (λ n. range_loop n start end (by_seq es []) [])
        (range_rounds-window start end ordered fits)

-- `Range` finds the whole of a window that the store has, in order.
pub range_complete :
    (id : Bytes) (s : Store) (before win after : List Entry) (e : Entry)
    → or_nil (get id s.entries) ≡ before ++ ((e ∷ win) ++ after)
    → IsNumbered 0 (before ++ ((e ∷ win) ++ after))
    → length (before ++ ((e ∷ win) ++ after)) < 2 ^ 64
    → length (e ∷ win) ≤ max_pointers
    → range id (length before) (length before + length win) s ≡ done (e ∷ win, true)
range_complete id s before win after e at numbered fits small =
    let n = length-append before ((e ∷ win) ++ after) in
    let k = length-append (e ∷ win) after in
    let all = by_seq-Holds 0 (before ++ ((e ∷ win) ++ after)) [] numbered in
    let later = (Holds-append (by_seq (before ++ ((e ∷ win) ++ after)) []) 0 before _ all).1 in
    let holds = (Holds-append _ (0 + length before) (e ∷ win) after later).0 in
    range-small id (length before) (length before + length win) s _ (length (e ∷ win)) at
      (omega (arith, n, k)) small
    ∙ ap
        (λ r.
          range_loop r (length before) (length before + length win)
            (by_seq (before ++ ((e ∷ win) ++ after)) []) [])
        (range_rounds-window (length before) (length before + length win) (omega arith)
            (omega (arith, n, k))
          ∙ omega arith)
    ∙ range_loop_complete (e ∷ win) (length before) (length before + length win) _ []
        (rw zero-add at holds) (omega arith) (omega (arith, n, k))

-- A window that begins behind the last entry is missing whole.
pub range-beyond :
    (id : Bytes) (s : Store) (es : List Entry) (start end : ℕ)
    → or_nil (get id s.entries) ≡ es
    → IsNumbered 0 es
    → length es ≤ start
    → start ≤ end
    → end < 2 ^ 64
    → end < start + max_pointers
    → range id start end s ≡ done ([], false)
range-beyond id s es start end at numbered short ordered fits small =
    range-small id start end s es (end + 1 - start) at (omega arith) (omega arith)
    ∙ range_loop-missing [] (range_rounds start end) start end _ [] tt
        (by_seq-outside 0 es [] (start + 0) numbered (inr (omega arith)) ∙ unfold get in refl)
        (omega arith) fits (omega (arith, range_rounds-enough start end ordered fits))

-- Where the store's entries end inside the window, `Range` returns those it has and says that the
-- window is not complete.
pub range-missing :
    (id : Bytes) (s : Store) (before win : List Entry) (end : ℕ)
    → or_nil (get id s.entries) ≡ before ++ win
    → IsNumbered 0 (before ++ win)
    → length (before ++ win) ≤ end
    → end < 2 ^ 64
    → end < length before + max_pointers
    → range id (length before) end s ≡ done (win, false)
range-missing id s before win end at numbered short fits small =
    let n = length-append before win in
    let all = by_seq-Holds 0 (before ++ win) [] numbered in
    let holds = (Holds-append (by_seq (before ++ win) []) 0 before win all).1 in
    range-small id (length before) end s (before ++ win) (end + 1 - length before) at
      (omega (arith, n)) (omega arith)
    ∙ range_loop-missing win (range_rounds (length before) end) (length before) end _ []
        (rw zero-add at holds)
        (by_seq-outside 0 (before ++ win) [] (length before + length win) numbered
            (inr (omega (arith, n)))
          ∙ unfold get in refl)
        (omega (arith, n)) fits
        (omega (arith, n, range_rounds-enough (length before) end (omega (arith, n)) fits))

-- A reversed window of low sequence numbers makes `Range` panic: `end - start + 1` wraps round and
-- is far too large for `make`.
pub range_panics :
    (id : Bytes) (start end : ℕ) (s : Store)
    → end + 1 < start
    → start < 2 ^ 63
    → range id start end s ≡ panicked
unfolding range
range_panics id start end s reversed low =
    rw (lt→ltb max_pointers (window_size start end) (omega arith))

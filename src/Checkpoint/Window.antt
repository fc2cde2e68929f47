-- ===== src/Checkpoint/Window.antt =====
-- The checkpoint over a window of a chain commits to the chain up to the window's end.
use multi_log.Prelude.{
  ℕ, suc, ◌+◌, ◌-◌, ◌^◌, ◌≤◌, ◌<◌, ◌≡◌, refl, sym, ◌∙◌, ap, arith, List, ◌∷◌, ◌++◌, Bytes, ℤ, IsI64,
  length, take, drop, take-append-drop, length-take, length-drop, uncons, done,
}
use mathlib.Core.Path.{subst}
use multi_log.Crypto.{Sha256, genesis}
use multi_log.Crypto.Framing.{Fits}
use multi_log.Crypto.Commit.{CommitmentInRange, commitment_id}
use multi_log.Chain.{Entry}
use multi_log.Chain.Window.{IsNumbered, IsNumbered-append}
use multi_log.Chain.Sealer.Chained.{IsChained, last_hash}
use multi_log.Chain.Sealer.Agree.{
  IsChained-IsNumbered, IsChained-front, last_hash-append, length-last_hash,
}
use multi_log.Checkpoint.{Checkpoint, commitment, build}
use multi_log.Checkpoint.Built.{made, last_of, seq-last_of, last_hash-last_of, build_result}

-- The entries numbered `start` to `end` of a numbered list.
abbrev pub window : ℕ → ℕ → List Entry → List Entry
window start end es = drop start (take (suc end) es)

module _ ⦃sha : Sha256⦄ where
  pub record CommitsTo (t : Bytes) (start end : ℕ) (es : List Entry) (prev : Bytes) (at : ℤ)
      (cp : Checkpoint) : Type 0 where
    pub tenant : cp.tenant_id ≡ t
    pub first : cp.seq_start ≡ start
    pub last : cp.seq_end ≡ end
    pub head : cp.head_hash ≡ last_hash (genesis t) (take (suc end) es)
    pub previous : cp.prev_checkpoint_hash ≡ prev
    pub time : cp.anchored_at ≡ at
    pub id : cp.checkpoint_id ≡ commitment_id (commitment cp)
    pub in_range : CommitmentInRange (commitment cp)

  made-CommitsTo :
      (t : Bytes) (start end : ℕ) (es : List Entry) (prev : Bytes) (at : ℤ) (e : Entry)
      (win : List Entry) (root : Bytes)
      → e.seq ≡ start
      → (last_of e win).seq ≡ end
      → (last_of e win).entry_hash ≡ last_hash (genesis t) (take (suc end) es)
      → length (last_of e win).entry_hash ≡ 32
      → length root ≡ 32
      → (start ≤ end) × (end < 2 ^ 64) × Fits t × Fits prev × IsI64 at
      → CommitsTo t start end es prev at (made t e win root prev at)
  made-CommitsTo t start end es prev at e win root first last head digest root_digest fits =
      record {
        tenant = refl;
        first = first;
        last = last;
        head = head;
        previous = refl;
        time = refl;
        id = refl;
        in_range = record {
          tenant = fits.2;
          start = omega arith;
          end = omega arith;
          count = omega arith;
          head = omega arith;
          root = omega arith;
          previous = fits.3;
          anchored = fits.4;
        };
      }

  module _ (t : Bytes) (es : List Entry) (start end : ℕ) (prev : Bytes) (at : ℤ)
      (chained : IsChained t 0 (genesis t) es) (bounded : length es < 2 ^ 64)
      (ordered : start ≤ end) (inside : end < length es) (named : Fits t) (linked : Fits prev)
      (dated : IsI64 at) where
    pub build-CommitsTo :
        (cp : Checkpoint)
        → build t (window start end es) prev at ≡ done cp
        → CommitsTo t start end es prev at cp
    build-CommitsTo cp built =
        let front : List Entry = take (suc end) es in
        let l = length-take (suc end) es inside in
        let k = length-take start front (omega (arith, l)) in
        let d = length-drop start front in
        let (e, win, cut) = uncons (end - start) (drop start front) (omega (arith, l, d)) in
        let n : length (drop start front) ≡ suc (length win) = ap (length {A = Entry}) cut in
        let parts : take start front ++ (e ∷ win) ≡ front =
          ap (λ w. take start front ++ w) (sym cut) ∙ take-append-drop start front in
        let front_chained : IsChained t 0 (genesis t) front =
          IsChained-front t 0 (genesis t) front (drop (suc end) es)
            (rw (take-append-drop (suc end) es) chained) in
        let numbered : IsNumbered 0 front =
          IsChained-IsNumbered t 0 (genesis t) front (omega (arith, l)) front_chained in
        let (_, later) = IsNumbered-append 0 (take start front) (e ∷ win) (rw parts numbered) in
        let at_start : 0 + length (take start front) ≡ start = omega (arith, k) in
        let here : IsNumbered start (e ∷ win) = rw at_start at later in
        let head : (last_of e win).entry_hash ≡ last_hash (genesis t) front =
          sym (last_hash-last_of (last_hash (genesis t) (take start front)) e win)
          ∙ sym (last_hash-append (genesis t) (take start front) (e ∷ win))
          ∙ ap (last_hash (genesis t)) parts in
        let (x, xs, split) = uncons end front l in
        let digest : length (last_hash (genesis t) (x ∷ xs)) ≡ 32 =
          length-last_hash t 0 (genesis t) x xs (rw split at front_chained) in
        let (root, same, root_digest) = build_result t e win prev at cp (rw cut at built) in
        subst (CommitsTo t start end es prev at) (sym same) (
          made-CommitsTo t start end es prev at e win root here.0
            (omega (arith, seq-last_of start e win here, l, d, n)) head
            (ap (length {A = ℕ}) head ∙ ap (λ f. length (last_hash (genesis t) f)) split ∙ digest)
            root_digest (ordered, omega arith, named, linked, dated))

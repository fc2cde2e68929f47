-- ===== src/Chain/Sealer/Honest.antt =====
-- What a sequence of `Seal` calls leaves in the store, for each tenant by itself.
use multi_log.Prelude.{
  ◌+◌, ◌%◌, ◌^◌, ◌≡◌, refl, ap, arith, Bool-cases, inl, inr, List, [], ◌∷◌, ◌++◌, append-nil,
  append_assoc, if◌then◌else◌, Bytes, bytes_equal, ℤ, Bytes_eq, get, get-put, get-put_self, or_nil,
  bytes_equal_refl, bytes_equal→eq, false, length, suc, map, sym, ◌∙◌,
}
use multi_log.Crypto.{Sha256, genesis}
use multi_log.Chain.{Entry, new_store, append}
use multi_log.Chain.Sealer.Chained.{IsChained}
use multi_log.Chain.Sealer.{Head, Sealer, new_sealer, head_of, sealed_entry, seal}
use mathlib.Core.List.{foldl}
use mathlib.Core.Path.{subst}

-- The arguments of one call of `Seal`.
pub record Line : Type 0 where
  pub tenant_id : Bytes
  pub source : Bytes
  pub raw : Bytes
  pub event_time : ℤ
  pub ingest_time : ℤ

-- The lines of one tenant, in order.
abbrev pub lines_of : Bytes → List Line → List Line
lines_of t [] = []
lines_of t (l ∷ ls) =
    let rest = lines_of t ls in if bytes_equal l.tenant_id t then l ∷ rest else rest

module _ ⦃sha : Sha256⦄ where
  unfoldable pub seal_line : Sealer → Line → Sealer
  seal_line s l = (seal l.tenant_id l.source l.raw l.event_time l.ingest_time s).1

  unfoldable pub seal_all : Sealer → List Line → Sealer
  seal_all s ls = foldl seal_line s ls

  -- The chain of one tenant, built with no store and no other tenant in sight.
  abbrev pub line_entry : Bytes → Head → Line → Entry
  line_entry t h l = sealed_entry h t l.source l.raw l.event_time l.ingest_time

  abbrev pub advance : Head → Entry → Head
  advance h e = record { next_seq = (h.next_seq + 1) % 2 ^ 64; prev_hash = e.entry_hash }

  abbrev pub sealed_chain : Bytes → Head → List Line → List Entry
  sealed_chain t h [] = []
  sealed_chain t h (l ∷ ls) = let e = line_entry t h l in e ∷ sealed_chain t (advance h e) ls

  abbrev pub end_head : Bytes → Head → List Line → Head
  end_head t h [] = h
  end_head t h (l ∷ ls) = end_head t (advance h (line_entry t h l)) ls

  abbrev pub first_head : Bytes → Head
  first_head t = record { next_seq = 0; prev_hash = genesis t }

  sealed_chain-snoc :
      (t : Bytes) (h : Head) (ls : List Line) (l : Line)
      → sealed_chain t h (ls ++ l ∷ [])
        ≡ sealed_chain t h ls ++ line_entry t (end_head t h ls) l ∷ []
  sealed_chain-snoc t h [] l = refl
  sealed_chain-snoc t h (x ∷ ls) l =
      ap (λ es. line_entry t h x ∷ es) (sealed_chain-snoc t (advance h (line_entry t h x)) ls l)

  end_head-snoc :
      (t : Bytes) (h : Head) (ls : List Line) (l : Line)
      → end_head t h (ls ++ l ∷ []) ≡ advance (end_head t h ls) (line_entry t (end_head t h ls) l)
  end_head-snoc t h [] l = refl
  end_head-snoc t h (x ∷ ls) l = end_head-snoc t (advance h (line_entry t h x)) ls l

  -- The sealer `s` has sealed the lines `past`.
  record HasSealed (past : List Line) (s : Sealer) : Type 0 where
    stored :
        (t : Bytes)
        → or_nil (get t s.store.entries) ≡ sealed_chain t (first_head t) (lines_of t past)
    heads : (t : Bytes) → head_of t s ≡ end_head t (first_head t) (lines_of t past)

  lines_of-snoc :
      (t : Bytes) (ls : List Line) (l : Line)
      → lines_of t (ls ++ l ∷ [])
        ≡ (if bytes_equal l.tenant_id t then lines_of t ls ++ l ∷ [] else lines_of t ls)
  lines_of-snoc t [] l = refl
  lines_of-snoc t (x ∷ ls) l = ground (arith, lines_of-snoc t ls l)

  module _ (past : List Line) (s : Sealer) (l : Line) (h : HasSealed past s) where
    -- After one more line the sealer has sealed it: first for the line's tenant, then for the others.
    abbrev StoredAt : Bytes → Type 0
    StoredAt t =
        or_nil (get t (seal_line s l).store.entries)
        ≡ sealed_chain t (first_head t) (lines_of t (past ++ l ∷ []))

    abbrev HeadAt : Bytes → Type 0
    HeadAt t = head_of t (seal_line s l) ≡ end_head t (first_head t) (lines_of t (past ++ l ∷ []))

    stored_self : StoredAt l.tenant_id
    unfolding seal_line seal append
    stored_self = simp (
      get-put_self,
      lines_of-snoc,
      bytes_equal_refl,
      sealed_chain-snoc,
      h.stored l.tenant_id,
      h.heads l.tenant_id,
    )

    stored_other : (t : Bytes) → bytes_equal l.tenant_id t ≡ false → StoredAt t
    unfolding seal_line seal append
    stored_other t ne = simp (get-put, lines_of-snoc, ne, h.stored t)

    head_self : HeadAt l.tenant_id
    unfolding seal_line seal
    head_self =
        simp (get-put_self, lines_of-snoc, bytes_equal_refl, end_head-snoc, ← h.heads l.tenant_id)

    head_other : (t : Bytes) → bytes_equal l.tenant_id t ≡ false → HeadAt t
    unfolding seal_line seal
    head_other t ne = simp (get-put, lines_of-snoc, ne, ← h.heads t)

    HasSealed-seal : HasSealed (past ++ l ∷ []) (seal_line s l)
    HasSealed-seal = record {
      stored = λ t. elim (Bool-cases (bytes_equal l.tenant_id t)) [
        | inl e ↦ subst StoredAt (bytes_equal→eq l.tenant_id t e) stored_self
        | inr ne ↦ stored_other t ne
      ];
      heads = λ t. elim (Bool-cases (bytes_equal l.tenant_id t)) [
        | inl e ↦ subst HeadAt (bytes_equal→eq l.tenant_id t e) head_self
        | inr ne ↦ head_other t ne
      ];
    }

  seal_all-HasSealed :
      (ls past : List Line) (s : Sealer) → HasSealed past s → HasSealed (past ++ ls) (seal_all s ls)
  unfolding seal_all
  seal_all-HasSealed [] past s h = rw append-nil h
  seal_all-HasSealed (l ∷ ls) past s h =
      rw (← append_assoc past (l ∷ []) ls)
        (seal_all-HasSealed ls (past ++ l ∷ []) (seal_line s l) (HasSealed-seal past s l h))

  new_sealer-HasSealed : HasSealed [] (new_sealer new_store)
  unfolding get head_of
  new_sealer-HasSealed = record { stored = λ t. refl; heads = λ t. refl }

  -- The store holds for each tenant the entries that the tenant's lines alone would have given.
  pub stored-seal_all :
      (ls : List Line) (t : Bytes)
      → or_nil (get t (seal_all (new_sealer new_store) ls).store.entries)
        ≡ sealed_chain t (first_head t) (lines_of t ls)
  stored-seal_all ls t =
      (seal_all-HasSealed ls [] (new_sealer new_store) new_sealer-HasSealed).stored t

  -- And the sealer goes on from the end of that chain.
  pub head_of-seal_all :
      (ls : List Line) (t : Bytes)
      → head_of t (seal_all (new_sealer new_store) ls) ≡ end_head t (first_head t) (lines_of t ls)
  head_of-seal_all ls t =
      (seal_all-HasSealed ls [] (new_sealer new_store) new_sealer-HasSealed).heads t

  pub sealed_chain-IsChained :
      (t : Bytes) (h : Head) (ls : List Line)
      → IsChained t h.next_seq h.prev_hash (sealed_chain t h ls)
  unfolding sealed_entry
  sealed_chain-IsChained t h [] = tt
  sealed_chain-IsChained t h (l ∷ ls) =
      (refl, refl, refl, sealed_chain-IsChained t (advance h (line_entry t h l)) ls)

  -- What a stored entry says of the call that sealed it.
  abbrev pub line_of : Entry → Line
  line_of e = record {
    tenant_id = e.tenant_id;
    source = e.source;
    raw = e.raw;
    event_time = e.event_time;
    ingest_time = e.ingest_time;
  }

  lines_of-sealed_chain :
      (t : Bytes) (h : Head) (ls : List Line)
      → map line_of (sealed_chain t h (lines_of t ls)) ≡ lines_of t ls
  unfolding sealed_entry
  lines_of-sealed_chain t h [] = refl
  lines_of-sealed_chain t h (l ∷ ls) = elim (Bool-cases (bytes_equal l.tenant_id t)) [
    | inr other ↦ rw other (lines_of-sealed_chain t h ls)
    | inl same ↦ rw same (
        ap
          (λ u.
            record {
              tenant_id = u;
              source = l.source;
              raw = l.raw;
              event_time = l.event_time;
              ingest_time = l.ingest_time;
            }
            ∷ map line_of (sealed_chain t (advance h (line_entry t h l)) (lines_of t ls)))
          (sym (bytes_equal→eq l.tenant_id t same))
        ∙ ap (λ xs. l ∷ xs) (lines_of-sealed_chain t (advance h (line_entry t h l)) ls))
  ]

  -- After any sequence of `Seal` calls on a new sealer over an empty store, what the store holds for a
  -- tenant is an unbroken chain, numbered from 0 and linked from the tenant's genesis hash, in which
  -- every entry hash is that of the entry's own fields; and its entries say, in the order of the calls,
  -- exactly what the tenant's calls were given.
  pub seal_all-IsChained :
      (ls : List Line) (t : Bytes)
      → let es : List Entry = or_nil (get t (seal_all (new_sealer new_store) ls).store.entries) in
        IsChained t 0 (genesis t) es × (map line_of es ≡ lines_of t ls)
  seal_all-IsChained ls t = rw (stored-seal_all ls t) (
    sealed_chain-IsChained t (first_head t) (lines_of t ls),
    lines_of-sealed_chain t (first_head t) ls,
  )

  pub length-sealed_chain :
      (t : Bytes) (h : Head) (ls : List Line) → length (sealed_chain t h ls) ≡ length ls
  length-sealed_chain t h [] = refl
  length-sealed_chain t h (l ∷ ls) =
      ap suc (length-sealed_chain t (advance h (line_entry t h l)) ls)

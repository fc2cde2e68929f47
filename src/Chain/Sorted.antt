-- ===== src/Chain/Sorted.antt =====
-- Reading a tenant's slice sorts it; what that leaves as it was.
use multi_log.Prelude.{
  ℕ, suc, ◌≤◌, ◌≡◌, refl, ◌∙◌, ap, arith, leb, leb→le, le→leb, Bool-cases, inl, inr, List, [], ◌∷◌,
  All, length, Option-cases, Bytes, bytes_equal, bytes_equal→eq, Bytes_eq, get, get-put_self,
  get-put_ne, or_nil,
}
use mathlib.Core.Path.{subst}
use multi_log.Chain.{Entry, Store, insert_by_seq, sort_by_seq, tenant}

abbrev IsSorted : List Entry → Type 0
IsSorted [] = Unit {0}
IsSorted (x ∷ xs) = All (λ (y : Entry). x.seq ≤ y.seq) xs × IsSorted xs

All-insert_by_seq :
    (P : Entry → Type 0) (e : Entry) (es : List Entry) → P e → All P es → All P (insert_by_seq e es)
unfolding insert_by_seq
All-insert_by_seq P e [] h hs = (h, tt)
All-insert_by_seq P e (x ∷ es) h (hx, hs) = elim (Bool-cases (leb e.seq x.seq)) [
  | inl before ↦ rw (before, insert_by_seq) (h, (hx, hs))
  | inr behind ↦ rw (behind, insert_by_seq) (hx, All-insert_by_seq P e es h hs)
]

All-le :
    (m n : ℕ) (es : List Entry)
    → m ≤ n
    → All (λ (y : Entry). n ≤ y.seq) es
    → All (λ (y : Entry). m ≤ y.seq) es
All-le m n [] below hs = tt
All-le m n (e ∷ es) below (h, hs) = (omega arith, All-le m n es below hs)

insert_by_seq-IsSorted : (e : Entry) (es : List Entry) → IsSorted es → IsSorted (insert_by_seq e es)
unfolding insert_by_seq
insert_by_seq-IsSorted e [] sorted = (tt, tt)
insert_by_seq-IsSorted e (x ∷ es) (first, rest) = elim (Bool-cases (leb e.seq x.seq)) [
  | inl before ↦
      let below = leb→le e.seq x.seq before in
      rw (before, insert_by_seq) ((below, All-le e.seq x.seq es below first), (first, rest))
  | inr behind ↦
      rw (behind, insert_by_seq)
        (
          All-insert_by_seq (λ (y : Entry). x.seq ≤ y.seq) e es (ground arith) first,
          insert_by_seq-IsSorted e es rest,
        )
]

sort_by_seq-IsSorted : (es : List Entry) → IsSorted (sort_by_seq es)
unfolding sort_by_seq
sort_by_seq-IsSorted [] = tt
sort_by_seq-IsSorted (e ∷ es) = insert_by_seq-IsSorted e (sort_by_seq es) (sort_by_seq-IsSorted es)

insert_by_seq-first :
    (e : Entry) (es : List Entry)
    → All (λ (y : Entry). e.seq ≤ y.seq) es
    → insert_by_seq e es ≡ e ∷ es
unfolding insert_by_seq
insert_by_seq-first e [] h = refl
insert_by_seq-first e (x ∷ es) (h, hs) = rw (insert_by_seq, le→leb e.seq x.seq h) refl

sort_by_seq_fixes : (es : List Entry) → IsSorted es → sort_by_seq es ≡ es
unfolding sort_by_seq
sort_by_seq_fixes [] h = refl
sort_by_seq_fixes (e ∷ es) (first, rest) =
    ap (insert_by_seq e) (sort_by_seq_fixes es rest) ∙ insert_by_seq-first e es first

pub sort_by_seq-sort_by_seq : (es : List Entry) → sort_by_seq (sort_by_seq es) ≡ sort_by_seq es
sort_by_seq-sort_by_seq es = sort_by_seq_fixes (sort_by_seq es) (sort_by_seq-IsSorted es)

length-insert_by_seq : (e : Entry) (es : List Entry) → length (insert_by_seq e es) ≡ suc (length es)
unfolding insert_by_seq
length-insert_by_seq e [] = refl
length-insert_by_seq e (x ∷ es) = elim (Bool-cases (leb e.seq x.seq)) [
  | inl before ↦ rw (before, insert_by_seq) refl
  | inr behind ↦ rw (behind, insert_by_seq) (ap suc (length-insert_by_seq e es))
]

pub length-sort_by_seq : (es : List Entry) → length (sort_by_seq es) ≡ length es
unfolding sort_by_seq
length-sort_by_seq [] = refl
length-sort_by_seq (e ∷ es) =
    length-insert_by_seq e (sort_by_seq es) ∙ ap suc (length-sort_by_seq es)

-- What a store holds for a tenant.
abbrev pub held : Bytes → Store → List Entry
held t s = or_nil (get t s.entries)

-- Reading a tenant gives its entries sorted, and leaves them so.
pub tenant-sorted :
    (t : Bytes) (s : Store)
    → ((tenant t s).0 ≡ sort_by_seq (held t s)) × (held t (tenant t s).1 ≡ sort_by_seq (held t s))
unfolding tenant sort_by_seq
tenant-sorted t s = elim (Option-cases (get t s.entries)) [
  | inl missing ↦ rw (missing, tenant) (refl, rw missing refl)
  | inr (es, found) ↦
      rw (found, tenant) (refl, ap or_nil (get-put_self t (sort_by_seq es) s.entries))
]

-- For each tenant, the store after it holds the same entries up to their order.
pub sort_by_seq-tenant :
    (t u : Bytes) (s : Store) → sort_by_seq (held u (tenant t s).1) ≡ sort_by_seq (held u s)
unfolding tenant sort_by_seq
sort_by_seq-tenant t u s = elim (Bool-cases (bytes_equal t u)) [
  | inl same ↦
      subst (λ v. sort_by_seq (held v (tenant t s).1) ≡ sort_by_seq (held v s))
        (bytes_equal→eq t u same)
        (ap sort_by_seq (tenant-sorted t s).1 ∙ sort_by_seq-sort_by_seq (held t s))
  | inr other ↦ elim (Option-cases (get t s.entries)) [
    | inl missing ↦ rw (missing, tenant) refl
    | inr (es, found) ↦
        rw (found, tenant)
          (ap (λ o. sort_by_seq (or_nil o)) (get-put_ne t u (sort_by_seq es) s.entries other))
  ]
]

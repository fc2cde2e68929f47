-- ===== src/Witness/Mem.antt =====
-- internal/witness/witness.go, MemStore: a checkpoint that is stored stays as it is.
use multi_log.Prelude.{
  ℕ, ◌≡◌, ◌⊎◌, refl, ap, arith, Bool-cases, Option-cases, inl, inr, List, [], ◌∷◌, Option, none,
  some, ◌==◌, Bytes, bytes_equal, bytes_equal→eq, ℕ_eq, Bytes_eq, get, get-put_self, get-put_ne,
  or_nil, immutable, ok, err,
}
use mathlib.Core.Path.{subst}
use multi_log.Checkpoint.{Checkpoint}
use multi_log.Witness.{MemStore, mem_put, mem_get}

-- What `Put` does: it stores the checkpoint where there is none under its tenant and end, and then it
-- can be read back; else it refuses and changes nothing.
abbrev pub PutOutcome : Checkpoint → MemStore → Type 0
PutOutcome cp s =
    ((mem_get cp.tenant_id cp.seq_end s ≡ ok none)
      × ((mem_put cp s).0 ≡ ok tt)
      × (mem_get cp.tenant_id cp.seq_end (mem_put cp s).1 ≡ ok (some cp)))
    ⊎ ((old : Checkpoint) × (mem_get cp.tenant_id cp.seq_end s ≡ ok (some old))
        × (mem_put cp s ≡ (err immutable, s)))

-- `Put` stores a checkpoint that is then read back, or finds one in its place, refuses with the error
-- for immutable records, and leaves the store as it was.
mem_put_reply : (cp : Checkpoint) (s : MemStore) → PutOutcome cp s
unfolding mem_put mem_get
mem_put_reply cp s = elim (Option-cases (get cp.seq_end (or_nil (get cp.tenant_id s.records)))) [
  | inl free ↦ inl (ap ok free, rw (free, mem_put) refl, rw (free, mem_put) (simp get-put_self))
  | inr (old, taken) ↦ inr (old, ap ok taken, rw (taken, mem_put) refl)
]

-- What is found under a tenant and an end.
abbrev found : Bytes → ℕ → MemStore → Option Checkpoint
found t n s = get n (or_nil (get t s.records))

mem_put-free :
    (cp : Checkpoint) (s : MemStore) (n : ℕ) (old : Checkpoint)
    → found cp.tenant_id cp.seq_end s ≡ none
    → found cp.tenant_id n s ≡ some old
    → found cp.tenant_id n (mem_put cp s).1 ≡ some old
unfolding mem_put
mem_put-free cp s n old free held = elim (Bool-cases (cp.seq_end == n)) [
  | inl same ↦ absurd (let e : cp.seq_end ≡ n = ground arith in let h = rw e at free in cc)
  | inr apart ↦ rw (free, mem_put) (simp (get-put_self, get-put_ne cp.seq_end n cp _ apart, held))
]

mem_put-keeps :
    (cp : Checkpoint) (s : MemStore) (t : Bytes) (n : ℕ) (old : Checkpoint)
    → found t n s ≡ some old
    → found t n (mem_put cp s).1 ≡ some old
unfolding mem_put
mem_put-keeps cp s t n old held = elim (Option-cases (found cp.tenant_id cp.seq_end s)) [
  | inr (_, taken) ↦ rw (taken, mem_put) held
  | inl free ↦ elim (Bool-cases (bytes_equal cp.tenant_id t)) [
    | inl same ↦
        let e = bytes_equal→eq cp.tenant_id t same in
        subst (λ t. found t n (mem_put cp s).1 ≡ some old) e
          (mem_put-free cp s n old free (rw (← e) at held))
    | inr other ↦ rw (free, mem_put) (simp (get-put_ne cp.tenant_id t _ s.records other, held))
  ]
]

-- The state after a sequence of `Put` calls, whatever each of them replied.
abbrev pub put_all : List Checkpoint → MemStore → MemStore
put_all [] s = s
put_all (cp ∷ cps) s = put_all cps (mem_put cp s).1

put_all-keeps :
    (cps : List Checkpoint) (s : MemStore) (t : Bytes) (n : ℕ) (old : Checkpoint)
    → found t n s ≡ some old
    → found t n (put_all cps s) ≡ some old
put_all-keeps [] s t n old held = held
put_all-keeps (cp ∷ cps) s t n old held =
    put_all-keeps cps (mem_put cp s).1 t n old (mem_put-keeps cp s t n old held)

-- Whatever sequence of checkpoints is put later, a checkpoint that can be read from the in-memory
-- store stays readable and the same.
pub mem_put_keeps :
    (cps : List Checkpoint) (s : MemStore) (t : Bytes) (n : ℕ) (old : Checkpoint)
    → mem_get t n s ≡ ok (some old)
    → mem_get t n (put_all cps s) ≡ ok (some old)
unfolding mem_get
mem_put_keeps cps s t n old held =
    let here : found t n s ≡ some old = cc in ap ok (put_all-keeps cps s t n old here)

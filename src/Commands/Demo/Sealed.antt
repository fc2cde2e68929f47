-- ===== src/Commands/Demo/Sealed.antt =====
-- cmd/demo/main.go: the sealing of the sample lines.
use multi_log.Prelude.{
  ℕ, suc, ◌+◌, ◌^◌, ◌≤◌, ◌<◌, ◌≡◌, refl, sym, ◌∙◌, ap, arith, Bool-cases, inl, inr, List, [], ◌∷◌,
  ◌++◌, Bytes, bytes_equal, ℤ, IsI64, Map, Bytes_eq, get, or_nil, All, All-append, length,
  length-append,
}
use mathlib.Core.Path.{subst}
use multi_log.Crypto.{Sha256, genesis}
use multi_log.Crypto.Framing.{Fits}
use multi_log.Chain.{Entry, new_store}
use multi_log.Chain.Sorted.{held}
use multi_log.Chain.Sealer.{Sealer, Head, new_sealer, seal, sealed_entry}
use multi_log.Chain.Sealer.Chained.{IsChained}
use multi_log.Chain.Sealer.Agree.{AllInRange}
use multi_log.Chain.Sealer.Honest.{
  Line, lines_of, seal_line, seal_all, sealed_chain, line_entry, advance, first_head,
  stored-seal_all, sealed_chain-IsChained, length-sealed_chain,
}
use multi_log.Commands.Demo.{Sample, base_time, next_second, seal_samples, seal_tenants}
use multi_log.Commands.Demo.Windows.{next_second-IsI64}

-- The calls of `Seal` for one tenant, and the time after them.
abbrev sample_lines : Bytes → List Sample → ℤ → List Line
sample_lines tenant [] t = []
sample_lines tenant (l ∷ ls) t =
    record { tenant_id = tenant; source = l.source; raw = l.raw; event_time = t; ingest_time = t }
    ∷ sample_lines tenant ls (next_second t)

abbrev end_time : List Sample → ℤ → ℤ
end_time [] t = t
end_time (l ∷ ls) t = end_time ls (next_second t)

abbrev pub samples_of : Map Bytes (List Sample) → Bytes → List Sample
samples_of logs t = or_nil (get t logs)

-- All calls of `Seal` of the demo.
abbrev pub all_lines : Map Bytes (List Sample) → List Bytes → ℤ → List Line
all_lines logs [] t = []
all_lines logs (tenant ∷ ts) t =
    sample_lines tenant (samples_of logs tenant) t
    ++ all_lines logs ts (end_time (samples_of logs tenant) t)

abbrev pub total_samples : Map Bytes (List Sample) → List Bytes → ℕ
total_samples logs [] = 0
total_samples logs (t ∷ ts) = length (samples_of logs t) + total_samples logs ts

abbrev pub SampleFits : Sample → Type 0
SampleFits l = Fits l.source × Fits l.raw

-- The names and lines are shorter than 2 ^ 64 bytes.
abbrev pub SamplesFit : Map Bytes (List Sample) → List Bytes → Type 0
SamplesFit logs ts = All (λ t. Fits t × All SampleFits (samples_of logs t)) ts

abbrev LineInRange : Line → Type 0
LineInRange l = IsI64 l.event_time × IsI64 l.ingest_time × Fits l.source × Fits l.raw

end_time-IsI64 : (ls : List Sample) (t : ℤ) → IsI64 t → IsI64 (end_time ls t)
end_time-IsI64 [] t h = h
end_time-IsI64 (l ∷ ls) t h = end_time-IsI64 ls (next_second t) (next_second-IsI64 t)

sample_lines-InRange :
    (tenant : Bytes) (ls : List Sample) (t : ℤ)
    → IsI64 t
    → All SampleFits ls
    → All LineInRange (sample_lines tenant ls t)
sample_lines-InRange tenant [] t h fits = tt
sample_lines-InRange tenant (l ∷ ls) t h ((source, raw), fits) =
    ((h, h, source, raw), sample_lines-InRange tenant ls (next_second t) (next_second-IsI64 t) fits)

all_lines-InRange :
    (logs : Map Bytes (List Sample)) (ts : List Bytes) (t : ℤ)
    → IsI64 t
    → SamplesFit logs ts
    → All LineInRange (all_lines logs ts t)
all_lines-InRange logs [] t h fits = tt
all_lines-InRange logs (tenant ∷ ts) t h ((_, fit), fits) =
    All-append LineInRange (sample_lines tenant (samples_of logs tenant) t) _
      (sample_lines-InRange tenant (samples_of logs tenant) t h fit)
      (all_lines-InRange logs ts (end_time (samples_of logs tenant) t)
        (end_time-IsI64 (samples_of logs tenant) t h) fits)

length-sample_lines :
    (tenant : Bytes) (ls : List Sample) (t : ℤ) → length (sample_lines tenant ls t) ≡ length ls
length-sample_lines tenant [] t = refl
length-sample_lines tenant (l ∷ ls) t = ap suc (length-sample_lines tenant ls (next_second t))

length-all_lines :
    (logs : Map Bytes (List Sample)) (ts : List Bytes) (t : ℤ)
    → length (all_lines logs ts t) ≡ total_samples logs ts
length-all_lines logs [] t = refl
length-all_lines logs (tenant ∷ ts) t =
    let ls = samples_of logs tenant in
    omega (
      arith,
      length-append (sample_lines tenant ls t) (all_lines logs ts (end_time ls t)),
      length-sample_lines tenant ls t,
      length-all_lines logs ts (end_time ls t),
    )

length-lines_of : (t : Bytes) (ls : List Line) → length (lines_of t ls) ≤ length ls
length-lines_of t [] = omega arith
length-lines_of t (l ∷ ls) = ground (arith, length-lines_of t ls)

All-lines_of : (P : Line → Type 0) (t : Bytes) (ls : List Line) → All P ls → All P (lines_of t ls)
All-lines_of P t [] h = tt
All-lines_of P t (l ∷ ls) (h, hs) = elim (Bool-cases (bytes_equal l.tenant_id t)) [
  | inl own ↦ rw own (h, All-lines_of P t ls hs)
  | inr other ↦ rw other (All-lines_of P t ls hs)
]

module _ ⦃sha : Sha256⦄ where
  seal_all-append :
      (xs ys : List Line) (s : Sealer) → seal_all s (xs ++ ys) ≡ seal_all (seal_all s xs) ys
  unfolding seal_all
  seal_all-append [] ys s = refl
  seal_all-append (x ∷ xs) ys s = seal_all-append xs ys (seal_line s x)

  seal_samples-seal_all :
      (tenant : Bytes) (ls : List Sample) (t : ℤ) (s : Sealer)
      → seal_samples tenant ls t s ≡ (end_time ls t, seal_all s (sample_lines tenant ls t))
  unfolding seal_samples seal_all seal_line
  seal_samples-seal_all tenant [] t s = refl
  seal_samples-seal_all tenant (l ∷ ls) t s =
      seal_samples-seal_all tenant ls (next_second t) (seal tenant l.source l.raw t t s).1

  -- Sealing the samples is a sequence of `Seal` calls, and the clock stays in the range of int64.
  pub seal_tenants-seal_all :
      (logs : Map Bytes (List Sample)) (ts : List Bytes) (t : ℤ) (s : Sealer)
      → IsI64 t
      → ((seal_tenants logs ts t s).1 ≡ seal_all s (all_lines logs ts t))
        × IsI64 (seal_tenants logs ts t s).0
  unfolding seal_tenants seal_all
  seal_tenants-seal_all logs [] t s h = (refl, h)
  seal_tenants-seal_all logs (tenant ∷ ts) t s h =
      let ls = samples_of logs tenant in
      let one = seal_samples-seal_all tenant ls t s in
      let (rest, dated) =
        seal_tenants-seal_all logs ts (end_time ls t) (seal_all s (sample_lines tenant ls t))
          (end_time-IsI64 ls t h) in
      subst
        (λ (q : ℤ × Sealer).
          ((seal_tenants logs ts q.0 q.1).1
            ≡ seal_all s (sample_lines tenant ls t ++ all_lines logs ts (end_time ls t)))
          × IsI64 (seal_tenants logs ts q.0 q.1).0)
        (sym one)
        (
          rest
              ∙ sym (
                  seal_all-append (sample_lines tenant ls t) (all_lines logs ts (end_time ls t)) s),
          dated,
        )

  sealed_chain-AllInRange :
      (t : Bytes) (h : Head) (ls : List Line)
      → h.next_seq < 2 ^ 64
      → Fits t
      → All LineInRange ls
      → AllInRange t (sealed_chain t h ls)
  unfolding sealed_entry
  sealed_chain-AllInRange t h [] short named fits = tt
  sealed_chain-AllInRange t h (l ∷ ls) short named ((event, ingest, source, raw), fits) = (
    record {
      tenant = named;
      position = short;
      event = event;
      ingest = ingest;
      origin = source;
      text = raw;
    },
    sealed_chain-AllInRange t (advance h (line_entry t h l)) ls (omega arith) named fits,
  )

  -- The store after the samples are sealed.
  abbrev pub sealed : Map Bytes (List Sample) → List Bytes → ℤ × Sealer
  sealed logs ts = seal_tenants logs ts base_time (new_sealer new_store)

  module _ (logs : Map Bytes (List Sample)) (ts : List Bytes) (u : Bytes) where
    held-sealed :
        held u (sealed logs ts).1.store
        ≡ sealed_chain u (first_head u) (lines_of u (all_lines logs ts base_time))
    held-sealed =
        ap (λ (s : Sealer). held u s.store)
          (seal_tenants-seal_all logs ts base_time (new_sealer new_store) (omega arith)).0
        ∙ stored-seal_all (all_lines logs ts base_time) u

    pub sealed-IsChained : IsChained u 0 (genesis u) (held u (sealed logs ts).1.store)
    sealed-IsChained =
        subst (IsChained u 0 (genesis u)) (sym held-sealed)
          (sealed_chain-IsChained u (first_head u) (lines_of u (all_lines logs ts base_time)))

    pub length-sealed : length (held u (sealed logs ts).1.store) ≤ total_samples logs ts
    length-sealed =
        let lines = all_lines logs ts base_time in
        omega (
          arith,
          ap (length {A = Entry}) held-sealed,
          length-sealed_chain u (first_head u) (lines_of u lines),
          length-lines_of u lines,
          length-all_lines logs ts base_time,
        )

    pub sealed-AllInRange :
        Fits u → SamplesFit logs ts → AllInRange u (held u (sealed logs ts).1.store)
    sealed-AllInRange named fits =
        let lines = all_lines logs ts base_time in
        subst (AllInRange u) (sym held-sealed) (
          sealed_chain-AllInRange u (first_head u) (lines_of u lines) (omega arith) named (
            All-lines_of LineInRange u lines
              (all_lines-InRange logs ts base_time (omega arith) fits)))

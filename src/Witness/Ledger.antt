-- ===== src/Witness/Ledger.antt =====
-- internal/witness/witness.go, ProofLedger: the keys of different windows differ, so that a proof is
-- found under its own window and no other.
use multi_log.Prelude.{
  ℕ, zero, suc, ◌+◌, ◌*◌, ◌-◌, ◌/◌, ◌%◌, ◌^◌, ◌<◌, ◌≡◌, ◌≢◌, refl, sym, ◌∙◌, ap, arith, Bool-cases,
  inl, inr, [], ◌∷◌, ◌++◌, ltb, Bytes, All, All-append, Bytes_eq, get-put_self, get-put_ne,
  bytes_equal, bytes_equal→eq,
}
use mathlib.Core.Path.{ap₂}
use multi_log.Witness.{Proof, ProofLedger, decimal_loop, decimal, ledger_key, add_proof, get_proofs}

-- The number that decimal digits stand for, read after `acc`.
abbrev read : ℕ → Bytes → ℕ
read acc [] = acc
read acc (c ∷ cs) = read (acc * 10 + (c - 48)) cs

read-append : (acc : ℕ) (cs : Bytes) (c : ℕ) → read acc (cs ++ c ∷ []) ≡ read acc cs * 10 + (c - 48)
read-append acc [] c = refl
read-append acc (x ∷ cs) c = read-append (acc * 10 + (x - 48)) cs c

read-decimal_loop : (digits n : ℕ) → n < 10 ^ digits → read 0 (decimal_loop digits n) ≡ n
unfolding decimal_loop
read-decimal_loop zero n small = omega arith
read-decimal_loop (suc digits) n small = elim (Bool-cases (ltb n 10)) [
  | inl one ↦ rw one (ground arith)
  | inr more ↦ rw more (
      read-append 0 (decimal_loop digits (n / 10)) (48 + n % 10)
      ∙ omega (arith, read-decimal_loop digits (n / 10) (omega arith)))
]

-- No digit is a slash.
digits_apart : (digits n : ℕ) → All (λ c. c ≢ 47) (decimal_loop digits n)
unfolding decimal_loop
digits_apart zero n = tt
digits_apart (suc digits) n = elim (Bool-cases (ltb n 10)) [
  | inl one ↦ rw one ((omega arith), tt)
  | inr more ↦ rw more (
      All-append _ (decimal_loop digits (n / 10)) _ (digits_apart digits (n / 10))
        ((omega arith), tt))
]

slash_inside : (s d : Bytes) → ¬ All (λ c. c ≢ 47) (s ++ 47 ∷ d)
slash_inside [] d (h, _) = h refl
slash_inside (x ∷ s) d (_, hs) = slash_inside s d hs

cut_at_slash :
    (s t d e : Bytes)
    → All (λ c. c ≢ 47) d
    → All (λ c. c ≢ 47) e
    → s ++ 47 ∷ d ≡ t ++ 47 ∷ e
    → (s ≡ t) × (d ≡ e)
cut_at_slash [] [] d e hd he same = (refl, let h : d ≡ e = cc in h)
cut_at_slash [] (x ∷ t) d e hd he same =
    let h : d ≡ t ++ 47 ∷ e = cc in absurd (slash_inside t e (rw h at hd))
cut_at_slash (x ∷ s) [] d e hd he same =
    let h : e ≡ s ++ 47 ∷ d = cc in absurd (slash_inside s d (rw h at he))
cut_at_slash (x ∷ s) (y ∷ t) d e hd he same =
    let head : x ≡ y = cc in
    let tail : s ++ 47 ∷ d ≡ t ++ 47 ∷ e = cc in
    let (names, ends) = cut_at_slash s t d e hd he tail in (ap₂ (λ x xs. x ∷ xs) head names, ends)

-- The ledger's keys for two windows with ends below 2 ^ 64 are the same only if the tenants and the
-- ends are, whatever bytes the tenants' names have.
ledger_key-injective :
    (s t : Bytes) (m n : ℕ)
    → m < 2 ^ 64
    → n < 2 ^ 64
    → ledger_key s m ≡ ledger_key t n
    → (s ≡ t) × (m ≡ n)
unfolding ledger_key decimal
ledger_key-injective s t m n hm hn same =
    let (names, ends) =
      cut_at_slash s t (decimal_loop 20 m) (decimal_loop 20 n) (digits_apart 20 m)
        (digits_apart 20 n) same in
    (
      names,
      sym (read-decimal_loop 20 m (omega arith))
          ∙ ap (read 0) ends
          ∙ read-decimal_loop 20 n (omega arith),
    )

-- A proof that is added is found last under its own window, and the proofs of every other window stay
-- as they were.
pub get_proofs-add_proof :
    (s t : Bytes) (m n : ℕ) (p : Proof) (l : ProofLedger)
    → m < 2 ^ 64
    → n < 2 ^ 64
    → (get_proofs s m (add_proof s m p l) ≡ get_proofs s m l ++ p ∷ [])
      × (¬ ((s ≡ t) × (m ≡ n)) → get_proofs t n (add_proof s m p l) ≡ get_proofs t n l)
unfolding get_proofs add_proof
get_proofs-add_proof s t m n p l hm hn = (
  simp get-put_self,
  λ apart. elim (Bool-cases (bytes_equal (ledger_key s m) (ledger_key t n))) [
    | inl same ↦ absurd (
        apart (
          ledger_key-injective s t m n hm hn
            (bytes_equal→eq (ledger_key s m) (ledger_key t n) same)))
    | inr other ↦ simp (get-put_ne (ledger_key s m) (ledger_key t n) _ l.m other)
  ],
)

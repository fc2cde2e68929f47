-- ===== src/S3Worm/Keys.antt =====
-- The objects of different checkpoints have different keys.
use multi_log.Prelude.{
  ℕ, zero, suc, ◌+◌, ◌/◌, ◌%◌, ◌^◌, ◌<◌, ◌≡◌, refl, sym, ◌∙◌, ap, arith, ◌++◌, append-cut, Bytes,
  codes, length, length-append,
}
use multi_log.S3Worm.{padded, key}

length-padded : (width n : ℕ) → length (padded width n) ≡ width
unfolding padded
length-padded zero n = refl
length-padded (suc width) n =
    length-append (padded width (n / 10)) _ ∙ omega (arith, length-padded width (n / 10))

padded-injective :
    (width m n : ℕ) → m < 10 ^ width → n < 10 ^ width → padded width m ≡ padded width n → m ≡ n
unfolding padded
padded-injective zero m n hm hn same = omega arith
padded-injective (suc width) m n hm hn same =
    let (front, last) =
      append-cut (padded width (m / 10)) _ (padded width (n / 10)) _
        (length-padded width (m / 10) ∙ sym (length-padded width (n / 10))) same in
    let tens = padded-injective width (m / 10) (n / 10) (omega arith) (omega arith) front in
    let ones : 48 + m % 10 ≡ 48 + n % 10 = cc in omega (arith, tens, ones)

abbrev ending : ℕ → Bytes
ending n = codes "/checkpoints/" ++ (padded 20 n ++ codes ".json")

length-ending : (n : ℕ) → length (ending n) ≡ 38
length-ending n = omega (arith, length-append (padded 20 n) (codes ".json"), length-padded 20 n)

-- Two checkpoints with ends below 2 ^ 64 have the same key only if their tenants and ends are the
-- same, whatever bytes the tenants' names have.
pub key-injective :
    (s t : Bytes) (m n : ℕ) → m < 2 ^ 64 → n < 2 ^ 64 → key s m ≡ key t n → (s ≡ t) × (m ≡ n)
unfolding key
key-injective s t m n hm hn same =
    let whole = length-append s (ending m) in
    let whole' = length-append t (ending n) in
    let sizes = ap (length {A = ℕ}) same in
    let (names, ends) =
      append-cut s (ending m) t (ending n)
        (omega (arith, whole, whole', sizes, length-ending m, length-ending n)) same in
    let (_, digits) = append-cut (codes "/checkpoints/") _ (codes "/checkpoints/") _ refl ends in
    let (numbers, _) =
      append-cut (padded 20 m) _ (padded 20 n) _ (length-padded 20 m ∙ sym (length-padded 20 n))
        digits in
    (names, padded-injective 20 m n (omega arith) (omega arith) numbers)

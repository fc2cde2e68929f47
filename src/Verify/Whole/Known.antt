-- ===== src/Verify/Whole/Known.antt =====
-- internal/verify/verify.go: the map of the notaries by name, and the proofs that it finds the notary of.
use multi_log.Prelude.{
  ◌≡◌, refl, ◌∙◌, ap, false, some, List, [], ◌∷◌, Bytes, bytes_equal, Map, Bytes_eq, get, put,
  get-put_self, get-put_ne, All, ok,
}
use mathlib.Core.Path.{subst}
use multi_log.Crypto.{Sha256}
use multi_log.Witness.{Proof, Notary}
use multi_log.Witness.Honest.{IsHonest}
use multi_log.Verify.{by_name}
use multi_log.Verify.Evident.{Attests}

abbrev pub HasDistinctNames : List Notary → Type 0
HasDistinctNames [] = Unit {0}
HasDistinctNames (n ∷ ns) =
    All (λ (m : Notary). bytes_equal m.name n.name ≡ false) ns × HasDistinctNames ns

module _ ⦃sha : Sha256⦄ where
  get-by_name_absent :
      (k : Bytes) (ns : List Notary) (m : Map Bytes Notary)
      → All (λ (n : Notary). bytes_equal n.name k ≡ false) ns
      → get k (by_name ns m) ≡ get k m
  unfolding by_name
  get-by_name_absent k [] m h = refl
  get-by_name_absent k (n ∷ ns) m (h, hs) =
      get-by_name_absent k ns (put n.name n m) hs ∙ get-put_ne n.name k n m h

  get-by_name :
      (ns : List Notary) (m : Map Bytes Notary)
      → HasDistinctNames ns
      → All (λ (n : Notary). get n.name (by_name ns m) ≡ some n) ns
  unfolding by_name
  get-by_name [] m h = tt
  get-by_name (n ∷ ns) m (h, hs) = (
    get-by_name_absent n.name ns (put n.name n m) h ∙ get-put_self n.name n m,
    get-by_name ns (put n.name n m) hs,
  )

  -- Whatever the notary stamps is attested under these names.
  abbrev pub IsKnown : Map Bytes Notary → Notary → Type 0
  IsKnown notaries nt = (id : Bytes) (p : Proof) → nt.stamp id ≡ ok p → Attests notaries id p

  IsHonest-IsKnown :
      (notaries : Map Bytes Notary) (nt : Notary)
      → IsHonest nt
      → get nt.name notaries ≡ some nt
      → IsKnown notaries nt
  IsHonest-IsKnown notaries nt honest listed id p made other found =
      let named : get p.notary notaries ≡ some nt =
        ap (λ k. get k notaries) (honest.signed id p made) ∙ listed in
      let same : nt ≡ other = cc in
      subst (λ (n : Notary). n.verify p id ≡ ok tt) same (honest.accepted id p made)

  All-IsKnown :
      (notaries : Map Bytes Notary) (ns : List Notary)
      → All IsHonest ns
      → All (λ (n : Notary). get n.name notaries ≡ some n) ns
      → All (IsKnown notaries) ns
  All-IsKnown notaries [] hs ls = tt
  All-IsKnown notaries (n ∷ ns) (h, hs) (l, ls) =
      (IsHonest-IsKnown notaries n h l, All-IsKnown notaries ns hs ls)

  -- Honest notaries with distinct names.
  pub by_name-IsKnown :
      (ns : List Notary) → All IsHonest ns → HasDistinctNames ns → All (IsKnown (by_name ns [])) ns
  by_name-IsKnown ns honest distinct =
      All-IsKnown (by_name ns []) ns honest (get-by_name ns [] distinct)

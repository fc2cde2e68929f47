-- ===== src/Chain/Sealer/Agree.antt =====
-- Two unbroken chains that end in the same hash are the same chain.
use multi_log.Prelude.{
  ℕ, ◌+◌, ◌%◌, ◌^◌, ◌<◌, ◌≡◌, refl, sym, ◌∙◌, ap, arith, List, [], ◌∷◌, ◌++◌, map, Bytes, length,
  All,
}
use multi_log.Crypto.{Sha256, chain_hash, length-hash}
use multi_log.Crypto.Commit.{
  NoCollision, Payload, PayloadInRange, payload_leaf, entry_message, entry_leaf-injective,
  chain_hash-injective, length-entry_leaf,
}
use multi_log.Chain.{Entry}
use multi_log.Chain.Window.{IsNumbered}
use multi_log.Chain.Sealer.Chained.{payload, IsChained, last_hash}

-- The payloads of a tenant's entries.
abbrev pub payloads : Bytes → List Entry → List Payload
payloads t es = map (payload t) es

abbrev pub AllInRange : Bytes → List Entry → Type 0
AllInRange t es = All (λ e. PayloadInRange (payload t e)) es

module _ ⦃sha : Sha256⦄ where
  -- SHA-256 does not collide on what two chains hash at the same position: the canonical bytes of the
  -- two entries, and the two previous hashes with their leaves.
  abbrev pub NoChainCollision : Bytes → Bytes → List Entry → Bytes → List Entry → Type 0
  NoChainCollision t p [] q fs = Unit {0}
  NoChainCollision t p (e ∷ es) q [] = Unit {0}
  NoChainCollision t p (e ∷ es) q (f ∷ fs) =
      NoCollision (entry_message (payload t e)) (entry_message (payload t f))
      × NoCollision (p ++ payload_leaf (payload t e)) (q ++ payload_leaf (payload t f))
      × NoChainCollision t e.entry_hash es f.entry_hash fs

  -- Two unbroken chains of one tenant, equally long and with values in range, that end in the same
  -- hash began at the same hash and have the same payloads, unless SHA-256 collides on what the two
  -- hash at one position.
  pub chains_agree :
      (t : Bytes) (want : ℕ) (p q : Bytes) (es fs : List Entry)
      → IsChained t want p es
      → IsChained t want q fs
      → length es ≡ length fs
      → AllInRange t es
      → AllInRange t fs
      → NoChainCollision t p es q fs
      → last_hash p es ≡ last_hash q fs
      → (p ≡ q) × (payloads t es ≡ payloads t fs)
  chains_agree t want p q [] [] hs ks same rs rs' free e = (e, refl)
  chains_agree t want p q [] (f ∷ fs) hs ks same rs rs' free e = absurd (omega arith)
  chains_agree t want p q (e ∷ es) [] hs ks same rs rs' free end = absurd (omega arith)
  chains_agree t want p q (e ∷ es) (f ∷ fs) (_, _, h, hs) (_, _, k, ks) same (r, rs) (r', rs')
        (one, link, free) end =
      let (hashes, rest) =
        chains_agree t ((want + 1) % 2 ^ 64) e.entry_hash f.entry_hash es fs hs ks (omega arith) rs
          rs' free end in
      let (prevs, leaves) =
        chain_hash-injective p q (payload_leaf (payload t e)) (payload_leaf (payload t f))
          (length-entry_leaf (payload t e) ∙ sym (length-entry_leaf (payload t f))) link
          (sym h ∙ hashes ∙ k) in
      let first : payload t e ≡ payload t f = entry_leaf-injective r r' one leaves in (prevs, cc)

  -- A chain that does not wrap is numbered without a gap.
  pub IsChained-IsNumbered :
      (t : Bytes) (want : ℕ) (p : Bytes) (es : List Entry)
      → want + length es < 2 ^ 64
      → IsChained t want p es
      → IsNumbered want es
  IsChained-IsNumbered t want p [] fits h = tt
  IsChained-IsNumbered t want p (e ∷ es) fits (h, _, _, hs) =
      let next : (want + 1) % 2 ^ 64 ≡ want + 1 = omega arith in
      (h, IsChained-IsNumbered t (want + 1) e.entry_hash es (omega arith) (rw next at hs))

  pub IsChained-front :
      (t : Bytes) (want : ℕ) (p : Bytes) (es fs : List Entry)
      → IsChained t want p (es ++ fs)
      → IsChained t want p es
  IsChained-front t want p [] fs h = tt
  IsChained-front t want p (e ∷ es) fs (h1, h2, h3, hs) =
      (h1, h2, h3, IsChained-front t ((want + 1) % 2 ^ 64) e.entry_hash es fs hs)

  pub last_hash-append :
      (p : Bytes) (es fs : List Entry) → last_hash p (es ++ fs) ≡ last_hash (last_hash p es) fs
  last_hash-append p [] fs = refl
  last_hash-append p (e ∷ es) fs = last_hash-append e.entry_hash es fs

  -- The hash that ends a nonempty chain is a digest.
  pub length-last_hash :
      (t : Bytes) (want : ℕ) (p : Bytes) (e : Entry) (es : List Entry)
      → IsChained t want p (e ∷ es)
      → length (last_hash p (e ∷ es)) ≡ 32
  unfolding chain_hash
  length-last_hash t want p e [] (_, _, h, _) = ap (length {A = ℕ}) h ∙ length-hash _
  length-last_hash t want p e (x ∷ es) (_, _, _, hs) =
      length-last_hash t ((want + 1) % 2 ^ 64) e.entry_hash x es hs

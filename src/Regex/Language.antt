-- ===== src/Regex/Language.antt =====
-- What the characters of a matching text are.
use observability_kit.Prelude.{
  ℕ, suc, zero, String, Bool, true, false, List, [], ◌∷◌, ◌≡◌, refl, ap, all, codes, arith,
  Bool-cases, inl, inr, if◌then◌else◌,
}
use observability_kit.Regex.{
  Regex, empty, eps, chars, seq, alt, star, nullable, cat, join, deriv, matches, up_to, anchored,
  full_match,
}

-- Every character class of the expression lies within `p`.
abbrev pub Within : (ℕ → Bool) → Regex → Type 0
Within p empty = Unit
Within p eps = Unit
Within p (chars f) = (c : ℕ) → p c ≡ false → f c ≡ false
Within p (seq r s) = Within p r × Within p s
Within p (alt r s) = Within p r × Within p s
Within p (star r) = Within p r

module _ (p : ℕ → Bool) where
  Within-cat : (r s : Regex) → Within p r → Within p s → Within p (cat r s)
  unfolding cat
  Within-cat empty s h k = tt
  Within-cat eps s h k = k
  Within-cat (chars f) s h k = (h, k)
  Within-cat (seq a b) s h k = (h, k)
  Within-cat (alt a b) s h k = (h, k)
  Within-cat (star a) s h k = (h, k)

  join-empty : (r : Regex) → join r empty ≡ r
  unfolding join
  join-empty empty = refl
  join-empty eps = refl
  join-empty (chars f) = refl
  join-empty (seq a b) = refl
  join-empty (alt a b) = refl
  join-empty (star a) = refl

  Within-join : (r s : Regex) → Within p r → Within p s → Within p (join r s)
  unfolding join
  Within-join empty s h k = k
  Within-join eps empty h k = tt
  Within-join eps _ h k = (tt, k)
  Within-join (chars f) empty h k = h
  Within-join (chars f) _ h k = (h, k)
  Within-join (seq a b) empty h k = h
  Within-join (seq a b) _ h k = (h, k)
  Within-join (alt a b) empty h k = h
  Within-join (alt a b) _ h k = (h, k)
  Within-join (star a) empty h k = h
  Within-join (star a) _ h k = (h, k)

  -- A character outside `p` leads nowhere.
  deriv-outside : (c : ℕ) (r : Regex) → p c ≡ false → Within p r → deriv c r ≡ empty
  unfolding deriv
  deriv-outside c empty out h = refl
  deriv-outside c eps out h = refl
  deriv-outside c (chars f) out h = rw (h c out) refl
  deriv-outside c (seq r s) out h =
      ground (arith, deriv-outside c r out h.0, deriv-outside c s out h.1)
  deriv-outside c (alt r s) out h = rw (deriv-outside c r out h.0, deriv-outside c s out h.1) refl
  deriv-outside c (star r) out h = rw (deriv-outside c r out h) refl

  Within-if : (b : Bool) (s : Regex) → Within p s → Within p (if b then s else empty)
  Within-if true s h = h
  Within-if false s h = tt

  Within-deriv : (c : ℕ) (r : Regex) → Within p r → Within p (deriv c r)
  unfolding deriv
  Within-deriv c empty h = tt
  Within-deriv c eps h = tt
  Within-deriv c (chars f) h = elim (f c) as (λ b. Within p (if b then eps else empty)) [
    | true ↦ tt
    | false ↦ tt
  ]
  Within-deriv c (seq r s) h =
      Within-join (cat (deriv c r) s) (if nullable r then deriv c s else empty)
        (Within-cat (deriv c r) s (Within-deriv c r h.0) h.1)
        (Within-if (nullable r) (deriv c s) (Within-deriv c s h.1))
  Within-deriv c (alt r s) h =
      Within-join (deriv c r) (deriv c s) (Within-deriv c r h.0) (Within-deriv c s h.1)
  Within-deriv c (star r) h = Within-cat (deriv c r) (star r) (Within-deriv c r h) h

  matches-empty : (cs : List ℕ) → matches empty cs ≡ false
  unfolding matches
  matches-empty [] = refl
  matches-empty (c ∷ cs) = matches-empty cs

  -- A matching text consists of characters of `p`.
  matches-all : (r : Regex) (cs : List ℕ) → Within p r → matches r cs ≡ true → all p cs ≡ true
  unfolding matches
  matches-all r [] h m = refl
  matches-all r (c ∷ cs) h m = elim (Bool-cases (p c)) [
    | inl yes_p ↦ rw yes_p (matches-all (deriv c r) cs (Within-deriv c r h) m)
    | inr outside ↦
        ground (arith, matches-empty cs, ap (λ r. matches r cs) (deriv-outside c r outside h))
  ]

  pub Within-up_to : (n : ℕ) (r : Regex) → Within p r → Within p (up_to n r)
  unfolding up_to
  Within-up_to zero r h = tt
  Within-up_to (suc n) r h = (tt, (h, Within-up_to n r h))

  -- For the patterns: the newline that `$` lets through counts as a character too.
  pub full_match-all :
      (r : Regex) (s : String)
      → Within p r
      → p 10 ≡ true
      → full_match r s ≡ true
      → all p (codes s) ≡ true
  unfolding full_match
  full_match-all r s h newline m =
      matches-all (anchored r) (codes s) (h, (tt, λ c out. ground arith)) m

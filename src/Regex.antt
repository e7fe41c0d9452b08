-- ===== src/Regex.antt =====
-- The part of Python's `re` that the services use: `pattern.match` on patterns of the shape
-- `^body$`, by derivatives of the body. Texts are lists of code points.
pub mod Patterns
pub mod Language
use observability_kit.Prelude.{
  ℕ, zero, suc, String, Bool, true, false, ◌&&◌, ◌||◌, List, [], ◌∷◌, ◌=?◌, codes, if◌then◌else◌,
}

pub data Regex : Type 0 where
  empty eps : Regex
  chars : (ℕ → Bool) → Regex
  seq alt : Regex → Regex → Regex
  star : Regex → Regex

unfoldable pub nullable : Regex → Bool
nullable empty = false
nullable eps = true
nullable (chars f) = false
nullable (seq r s) = nullable r && nullable s
nullable (alt r s) = nullable r || nullable s
nullable (star r) = true

-- `seq` and `alt` without dead branches, which keeps derivatives small.
unfoldable pub cat : Regex → Regex → Regex
cat empty s = empty
cat eps s = s
cat r s = seq r s

unfoldable pub join : Regex → Regex → Regex
join empty s = s
join r empty = r
join r s = alt r s

unfoldable pub deriv : ℕ → Regex → Regex
unfolding nullable cat join
deriv c empty = empty
deriv c eps = empty
deriv c (chars f) = if f c then eps else empty
deriv c (seq r s) =
    let first = cat (deriv c r) s in
    let second = deriv c s in join first (if nullable r then second else empty)
deriv c (alt r s) = join (deriv c r) (deriv c s)
deriv c (star r) = cat (deriv c r) (star r)

unfoldable pub matches : Regex → List ℕ → Bool
unfolding nullable deriv
matches r [] = nullable r
matches r (c ∷ cs) = matches (deriv c r) cs

infixr 60 ◌▹◌
abbrev pub ◌▹◌ : Regex → Regex → Regex
r ▹ s = seq r s

-- `r?`, `r+`, `r{0,n}`, `r{n}`, a literal character
abbrev pub opt : Regex → Regex
opt r = alt eps r

abbrev pub plus : Regex → Regex
plus r = seq r (star r)

unfoldable pub up_to : ℕ → Regex → Regex
up_to zero r = eps
up_to (suc n) r = opt (seq r (up_to n r))

unfoldable pub times : ℕ → Regex → Regex
times zero r = eps
times (suc n) r = seq r (times n r)

abbrev pub char : ℕ → Regex
char c = chars (λ d. d =? c)

-- `^body$` under `match`: without `re.MULTILINE`, `$` also holds before a newline that ends the
-- text.
abbrev pub anchored : Regex → Regex
anchored body = seq body (opt (char 10))

unfoldable pub full_match : Regex → String → Bool
unfolding matches
full_match body s = matches (anchored body) (codes s)

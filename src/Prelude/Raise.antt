-- ===== src/Prelude/Raise.antt =====
-- Code that may raise and keeps no state: the chains of `Result`.
use mathlib.Core.Path.{◌≡◌, refl, ap}
use mathlib.Core.Option.{Option, none, some}
use observability_kit.Prelude.Exec.{Result, ok, raised}

module _ {ℓ} {E A B : Type ℓ} where
  infixl 10 ◌>>=◌ ◌>>◌
  abbrev pub ◌>>=◌ : Result E A → (A → Result E B) → Result E B
  ok a >>= f = f a
  raised e >>= f = raised e

  abbrev pub ◌>>◌ : Result E A → Result E B → Result E B
  m >> n = m >>= λ _. n

  -- What a chain that returns has returned at its first link.
  pub bind-ok :
      (r : Result E A) (f : A → Result E B) (y : B)
      → r >>= f ≡ ok y
      → (x : A) × (r ≡ ok x) × (f x ≡ ok y)
  bind-ok (ok x) f y h = (x, refl, h)
  bind-ok (raised e) f y h = cc

module _ {ℓ} {E A : Type ℓ} where
  pub ok-inj : {x y : A} → ◌≡◌ {A = Result E A} (ok x) (ok y) → x ≡ y
  ok-inj h = cc

  abbrev pub or_raise : Option A → E → Result E A
  or_raise (some a) e = ok a
  or_raise none e = raised e

  pub or_raise-ok : (o : Option A) (e : E) (a : A) → or_raise o e ≡ ok a → o ≡ some a
  or_raise-ok none e a h = cc
  or_raise-ok (some b) e a h = ap some (ok-inj h)

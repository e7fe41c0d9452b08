-- ===== src/Text.antt =====
-- Python's str methods that the line readers use.
use Prim.Native.Nat.{ℕ, zero, suc}
use Prim.Native.Char.{code}
use observability_kit.Prelude.{String, Bool, true, false, ◌&&◌, ◌==◌, ◌=?◌, if◌then◌else◌}
use observability_kit.Regex.Patterns.{is_space}

unfoldable pub lstrip : String → String
lstrip String.[] = String.[]
lstrip (String.◌∷◌ c s) = let rest = lstrip s in if is_space (code c) then rest else String.◌∷◌ c s

unfoldable pub rstrip : String → String
rstrip String.[] = String.[]
rstrip (String.◌∷◌ c s) =
    let rest = rstrip s in if is_space (code c) && rest == "" then String.[] else String.◌∷◌ c rest

unfoldable pub strip : String → String
strip s = rstrip (lstrip s)

-- `s[n:]`
abbrev pub drop : ℕ → String → String
drop zero s = s
drop (suc n) String.[] = String.[]
drop (suc n) (String.◌∷◌ c s) = drop n s

-- `s.startswith(prefix)`
abbrev pub starts_with : String → String → Bool
starts_with String.[] s = true
starts_with (String.◌∷◌ c p) String.[] = false
starts_with (String.◌∷◌ c p) (String.◌∷◌ d s) = code c =? code d && starts_with p s

-- `s[:-1]`, and whether it cuts a colon off
abbrev pub but_last : String → String
but_last String.[] = String.[]
but_last (String.◌∷◌ c String.[]) = String.[]
but_last (String.◌∷◌ c (String.◌∷◌ d s)) = String.◌∷◌ c (but_last (String.◌∷◌ d s))

abbrev pub ends_with_colon : String → Bool
ends_with_colon String.[] = false
ends_with_colon (String.◌∷◌ c String.[]) = code c =? b':'
ends_with_colon (String.◌∷◌ c (String.◌∷◌ d s)) = ends_with_colon (String.◌∷◌ d s)

-- `s.split(":", 1)[1]` of a text with a colon
unfoldable pub after_colon : String → String
after_colon String.[] = String.[]
after_colon (String.◌∷◌ c s) = let rest = after_colon s in if code c =? b':' then s else rest

-- `len(s) - len(s.lstrip(" "))`
unfoldable pub indent_of : String → ℕ
indent_of String.[] = 0
indent_of (String.◌∷◌ c s) = let n = indent_of s in if code c =? b' ' then suc n else 0

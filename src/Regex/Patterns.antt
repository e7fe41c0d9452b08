-- ===== src/Regex/Patterns.antt =====
-- The patterns of services/tenancy/tenantctl/models.py.
use observability_kit.Prelude.{
  ℕ, ◌+◌, String, Bool, false, ◌||◌, ◌&&◌, not, List, [], ◌∷◌, ◌=?◌, leb,
}
use observability_kit.Regex.{Regex, chars, alt, ◌▹◌, opt, plus, up_to, times, char, full_match}

unfoldable pub between : ℕ → ℕ → ℕ → Bool
between lo hi c = leb lo c && leb c hi

-- [a-z0-9] and [a-z0-9-]
unfoldable pub is_slug_end : ℕ → Bool
unfolding between
is_slug_end c = between b'a' b'z' c || between b'0' b'9' c

unfoldable pub is_slug_char : ℕ → Bool
unfolding is_slug_end
is_slug_char c = is_slug_end c || c =? b'-'

-- ^[a-z0-9]([a-z0-9-]{0,30}[a-z0-9])?$
unfoldable pub tenant_id_pattern : Regex
tenant_id_pattern = chars is_slug_end ▹ opt (up_to 30 (chars is_slug_char) ▹ chars is_slug_end)

-- \s : the white space of Unicode
unfoldable pub is_space : ℕ → Bool
unfolding between
is_space c =
    between 9 13 c
    || between 28 32 c
    || c =? 133
    || c =? 160
    || c =? 5760
    || between 8192 8202 c
    || between 8232 8233 c
    || c =? 8239
    || c =? 8287
    || c =? 12288

-- [^@\s]
unfoldable pub is_mail_char : ℕ → Bool
unfolding is_space
is_mail_char c = not (c =? b'@' || is_space c)

-- ^[^@\s]+@[^@\s]+\.[^@\s]+$
unfoldable pub email_pattern : Regex
unfolding is_mail_char
email_pattern = let part = plus (chars is_mail_char) in part ▹ char b'@' ▹ part ▹ char b'.' ▹ part

-- Where the runs of ten decimal digits of Unicode 14 begin; 120782 begins five runs.
abbrev digit_runs : List ℕ
digit_runs =
    48 ∷ 1632 ∷ 1776 ∷ 1984 ∷ 2406 ∷ 2534 ∷ 2662 ∷ 2790 ∷ 2918 ∷ 3046 ∷ 3174 ∷ 3302 ∷ 3430 ∷ 3558
    ∷ 3664 ∷ 3792 ∷ 3872 ∷ 4160 ∷ 4240 ∷ 6112 ∷ 6160 ∷ 6470 ∷ 6608 ∷ 6784 ∷ 6800 ∷ 6992 ∷ 7088
    ∷ 7232 ∷ 7248 ∷ 42528 ∷ 43216 ∷ 43264 ∷ 43472 ∷ 43504 ∷ 43600 ∷ 44016 ∷ 65296 ∷ 66720 ∷ 68912
    ∷ 69734 ∷ 69872 ∷ 69942 ∷ 70096 ∷ 70384 ∷ 70736 ∷ 70864 ∷ 71248 ∷ 71360 ∷ 71472 ∷ 71904 ∷ 72016
    ∷ 72784 ∷ 73040 ∷ 73120 ∷ 92768 ∷ 92864 ∷ 93008 ∷ 120782 ∷ 120792 ∷ 120802 ∷ 120812 ∷ 120822
    ∷ 123200 ∷ 123632 ∷ 125264 ∷ 130032 ∷ []

in_runs : ℕ → List ℕ → Bool
unfolding between
in_runs c [] = false
in_runs c (start ∷ starts) = between start (start + 9) c || in_runs c starts

-- \d
unfoldable pub is_digit : ℕ → Bool
unfolding in_runs
is_digit c = in_runs c digit_runs

-- ^\d{4}-\d{2}-\d{2}T\d{2}:\d{2}:\d{2}(\.\d+)?(Z|[+-]\d{2}:\d{2})$
unfoldable pub datetime_pattern : Regex
unfolding is_digit times
datetime_pattern =
    let two = times 2 (chars is_digit) in
    let sign = chars (λ c. c =? b'+' || c =? b'-') in
    let fraction = opt (char b'.' ▹ plus (chars is_digit)) in
    let zone = alt (char b'Z') (sign ▹ two ▹ char b':' ▹ two) in
    times 4 (chars is_digit)
    ▹ char b'-'
    ▹ two
    ▹ char b'-'
    ▹ two
    ▹ char b'T'
    ▹ two
    ▹ char b':'
    ▹ two
    ▹ char b':'
    ▹ two
    ▹ fraction
    ▹ zone

unfoldable pub is_tenant_id : String → Bool
unfolding tenant_id_pattern full_match
is_tenant_id s = full_match tenant_id_pattern s

unfoldable pub is_email : String → Bool
unfolding email_pattern full_match
is_email s = full_match email_pattern s

unfoldable pub is_datetime : String → Bool
unfolding datetime_pattern full_match
is_datetime s = full_match datetime_pattern s

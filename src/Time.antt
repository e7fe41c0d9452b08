-- ===== src/Time.antt =====
-- Instants as `datetime` has them: microseconds since 0001-01-01T00:00:00, years 1 to 9999, and
-- `datetime.fromisoformat` on the texts that the date-time pattern admits.
use observability_kit.Prelude.{
  ℕ, zero, suc, ◌+◌, ◌-◌, ◌*◌, ◌/◌, ◌%◌, String, Bool, true, ◌||◌, ◌&&◌, not, List, [], ◌∷◌, Option,
  none, some, leb, ltb, ◌=?◌, codes, length, if◌then◌else◌,
}

abbrev pub second : ℕ
second = 1000000

abbrev pub minute : ℕ
minute = 60000000

abbrev pub day : ℕ
day = 86400000000

is_leap : ℕ → Bool
is_leap y = y % 4 =? 0 && (not (y % 100 =? 0) || y % 400 =? 0)

abbrev month_lengths : ℕ → List ℕ
month_lengths february = 31 ∷ february ∷ 31 ∷ 30 ∷ 31 ∷ 30 ∷ 31 ∷ 31 ∷ 30 ∷ 31 ∷ 30 ∷ 31 ∷ []

-- The days before a month, and its length; `none` where there is no such month.
in_year : ℕ → ℕ → List ℕ → Option (ℕ × ℕ)
in_year before m [] = none
in_year before zero (n ∷ ns) = some (before, n)
in_year before (suc m) (n ∷ ns) = in_year (before + n) m ns

-- The days from 0001-01-01 to a date of the Gregorian calendar, if there is such a date.
unfoldable pub ordinal : ℕ → ℕ → ℕ → Option ℕ
unfolding is_leap in_year
ordinal y m d =
    let before_year = (y - 1) * 365 + (y - 1) / 4 - (y - 1) / 100 + (y - 1) / 400 in
    if ltb y 1 || ltb 9999 y || ltb m 1 || ltb d 1
    then none
    else elim (in_year 0 (m - 1) (month_lengths (if is_leap y then 29 else 28))) [
      | none ↦ none
      | some (before, n) ↦ if leb d n then some (before_year + before + (d - 1)) else none
    ]

-- The first instant that `datetime` cannot represent: 10000-01-01.
abbrev pub end_of_time : ℕ
end_of_time = 3652059 * day

-- `fromisoformat` takes ASCII digits only.
ascii_digit : ℕ → Option ℕ
ascii_digit c = if leb b'0' c && leb c b'9' then some (c - b'0') else none

infixl 5 ◌>>=◌
abbrev ◌>>=◌ {ℓ κ} : {A : Type ℓ} {B : Type κ} → Option A → (A → Option B) → Option B
none >>= k = none
some a >>= k = k a

-- `n` digits, and what follows them.
digits : ℕ → ℕ → List ℕ → Option (ℕ × List ℕ)
unfolding ascii_digit
digits zero acc cs = some (acc, cs)
digits (suc n) acc [] = none
digits (suc n) acc (c ∷ cs) =
    let rest = λ (d : ℕ). digits n (acc * 10 + d) cs in
    elim (ascii_digit c) [ none ↦ none | some d ↦ rest d ]

expect : ℕ → List ℕ → Option (List ℕ)
expect c [] = none
expect c (d ∷ cs) = if d =? c then some cs else none

-- A fraction of a second: the first six digits count, and the others are dropped.
fraction_digits : ℕ → ℕ → List ℕ → ℕ × List ℕ
unfolding ascii_digit
fraction_digits scale acc [] = (acc, [])
fraction_digits scale acc (c ∷ cs) =
    let longer = λ (d : ℕ). fraction_digits (scale / 10) (acc + d * scale) cs in
    elim (ascii_digit c) [ none ↦ (acc, c ∷ cs) | some d ↦ longer d ]

fraction : List ℕ → ℕ × List ℕ
unfolding fraction_digits
fraction [] = (0, [])
fraction (c ∷ cs) = if c =? b'.' then fraction_digits 100000 0 cs else (0, c ∷ cs)

-- The offset from UTC, in minutes: `some (ahead, minutes)`. `Z` has been replaced by `+00:00`.
offset : List ℕ → Option (Bool × ℕ)
unfolding digits expect
offset [] = none
offset (c ∷ cs) =
    if c =? b'+' || c =? b'-' || c =? b'Z'
    then (if c =? b'Z' then (if leb (length cs) 0 then some (true, 0) else none) else do
      (h, cs) ← digits 2 0 cs
      cs ← expect b':' cs
      (m, cs) ← digits 2 0 cs
      if leb (length cs) 0 && ltb (h * 60 + m) 1440 then some (c =? b'+', h * 60 + m) else none)
    else none

-- A local time with its offset, as `fromisoformat` returns it.
pub record Stamp : Type 0 where
  pub local : ℕ
  pub ahead : Bool
  pub minutes : ℕ

unfoldable pub from_isoformat : String → Option Stamp
unfolding ordinal digits expect fraction offset
from_isoformat text = do
  (y, cs) ← digits 4 0 (codes text)
  cs ← expect b'-' cs
  (m, cs) ← digits 2 0 cs
  cs ← expect b'-' cs
  (d, cs) ← digits 2 0 cs
  cs ← expect b'T' cs
  (hour, cs) ← digits 2 0 cs
  cs ← expect b':' cs
  (min, cs) ← digits 2 0 cs
  cs ← expect b':' cs
  (sec, cs) ← digits 2 0 cs
  days ← ordinal y m d
  let (micro, zone) = fraction cs
  (ahead, minutes) ← offset zone
  if ltb hour 24 && ltb min 60 && ltb sec 60
      then some (record {
        local = days * day + (hour * 60 + min) * minute + sec * second + micro;
        ahead = ahead;
        minutes = minutes;
      })
      else none

-- `stamp.astimezone(timezone.utc)`; `none` is the OverflowError of an instant outside the years
-- 1 to 9999.
unfoldable pub to_utc : Stamp → Option ℕ
to_utc t =
    let shift = t.minutes * minute in
    if t.ahead
    then (if leb shift t.local then some (t.local - shift) else none)
    else (if ltb (t.local + shift) end_of_time then some (t.local + shift) else none)

-- The whole second that `strftime("%Y-%m-%dT%H:%M:%SZ")` writes and `strptime` reads back.
abbrev pub floor_second : ℕ → ℕ
floor_second t = t / second * second

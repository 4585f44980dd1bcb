-- ===== src/Core/HashTime.antt =====
-- core/time.go: the textual form of a time inside the payload hash.
use stonewrit.Prelude.{
  ℕ, zero, suc, ◌+◌, ◌-◌, ◌*◌, ◌/◌, ◌%◌, ◌^◌, List, [], ◌∷◌, ◌++◌, Text, codes, ltb, if◌then◌else◌,
  ◌==◌, Bool, ◌&&◌, ◌||◌, not, length,
}
use Prim.Native.Nat.{min}
use stonewrit.Crypto.Encoding.{format_nat}
use stonewrit.Spec.{Time}

-- a date of the proleptic Gregorian calendar, as `Format` shows it
pub record Civil : Type 0 where
  pub year : ℕ
  pub month : ℕ
  pub day : ℕ

is_leap : ℕ → Bool
is_leap y = y % 4 == 0 && (not (y % 100 == 0) || y % 400 == 0)

month_days : Bool → List ℕ
month_days leap =
    31 ∷ (if leap then 29 else 28) ∷ 31 ∷ 30 ∷ 31 ∷ 30 ∷ 31 ∷ 31 ∷ 30 ∷ 31 ∷ 30 ∷ 31 ∷ []

-- the month and the day of a day of the year, both from 1
month_day : ℕ → List ℕ → ℕ → ℕ × ℕ
month_day m [] d = (m, d + 1)
month_day m (n ∷ ns) d =
    let later = month_day (m + 1) ns (d - n) in if ltb d n then (m, d + 1) else later

-- the date of a number of days since January 1 of the year 1
unfoldable pub civil : ℕ → Civil
unfolding is_leap month_days month_day
civil days =
    let r400 = days % 146097 in
    let n100 = min 3 (r400 / 36524) in
    let r100 = r400 - 36524 * n100 in
    let r4 = r100 % 1461 in
    let n1 = min 3 (r4 / 365) in
    let y = 400 * (days / 146097) + 100 * n100 + 4 * (r100 / 1461) + n1 + 1 in
    let (m, d) = month_day 1 (month_days (is_leap y)) (r4 - 365 * n1) in
    record { year = y; month = m; day = d }

zeros : ℕ → Text
zeros zero = []
zeros (suc n) = b'0' ∷ zeros n

-- decimal, filled with zeros in front to a width
unfoldable pub padded : ℕ → ℕ → Text
unfolding zeros
padded width n = let s = format_nat n in zeros (width - length s) ++ s

-- t.Truncate(time.Millisecond), on nanoseconds since the zero time
unfoldable pub truncate_ms : Time → Time
truncate_ms t = t / 10 ^ 6 * 10 ^ 6

-- t.Format("2006-01-02T15:04:05.000")
format_ms : Time → Text
unfolding civil padded
format_ms t =
    let ms = t / 10 ^ 6 in
    let s = ms / 1000 in
    let c = civil (s / 86400) in
    padded 4 c.year
    ++ codes "-"
    ++ padded 2 c.month
    ++ codes "-"
    ++ padded 2 c.day
    ++ codes "T"
    ++ padded 2 (s / 3600 % 24)
    ++ codes ":"
    ++ padded 2 (s / 60 % 60)
    ++ codes ":"
    ++ padded 2 (s % 60)
    ++ codes "."
    ++ padded 3 (ms % 1000)

unfoldable pub hash_time : Time → Text
unfolding truncate_ms format_ms
hash_time t = format_ms (truncate_ms t) ++ codes "Z"

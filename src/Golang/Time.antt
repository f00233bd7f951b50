-- ===== src/Golang/Time.antt =====
-- time.Time as the nanoseconds since the zero time (1 January of the year 1, UTC), so `0` is the
-- zero time; durations are nanoseconds too. Instants before the zero time do not occur.
use hypomux_arch.Prelude.{
  ℕ, ◌+◌, ◌*◌, ◌/◌, ◌%◌, ◌≤◌, ◌≡◌, refl, Bool, arith, ltb, leb, ◌==◌, if◌then◌else◌,
}

abbrev pub Time : Type 0
Time = ℕ

abbrev pub second : ℕ
second = 1_000_000_000

abbrev pub minute : ℕ
minute = 60 * second

abbrev pub day : ℕ
day = 86_400 * second

abbrev pub is_zero : Time → Bool
is_zero t = t == 0

abbrev pub after : Time → Time → Bool
after t u = ltb u t

abbrev pub before : Time → Time → Bool
before t u = ltb t u

-- t.AddDate(100, 0, 0) in UTC. A century has 36525 days if it holds the 29 February of a year that
-- 400 divides, and 36524 if not: of the 146097 days of the calendar's cycle, counted from a
-- 1 March of such a year (306 days before the zero time), that is so of the last 36525.
unfoldable pub add_century : Time → Time
add_century t = t + (36524 + (if leb 109572 ((t / day + 306) % 146097) then 1 else 0)) * day

-- A century has at least 36524 days.
pub add_century-ge : (t : Time) → t + 36524 * day ≤ add_century t
unfolding add_century
add_century-ge t = ground arith

-- 2000-01-01 is day 730119, and 2100-01-01 is 36525 days later; 2100-01-01 to 2200-01-01 is 36524.
century_2000 : add_century (730119 * day) ≡ (730119 + 36525) * day
unfolding add_century
century_2000 = refl

century_2100 : add_century (766644 * day) ≡ (766644 + 36524) * day
unfolding add_century
century_2100 = refl

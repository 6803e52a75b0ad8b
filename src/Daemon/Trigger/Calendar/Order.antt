-- ===== src/Daemon/Trigger/Calendar/Order.antt =====
-- Later months hold later days.
use evowork.Prelude.{ℕ, zero, suc, ◌-◌, ◌*◌, ◌≤◌, ◌≡◌, arith}
use evowork.Prelude.Int.{
  ℤ, pos, pos_part, ◌+ℤ◌, ◌-ℤ◌, ◌≤ℤ◌, ◌<ℤ◌, int_laws, eq_of_parts, parts_of_eq, neg_part_zero,
}
use evowork.Daemon.Trigger.Calendar.{day_of_year, unix_days_from_civil}
use evowork.Daemon.Trigger.Calendar.Years.{year_in_era}
use evowork.Daemon.Trigger.Calendar.Dates.{march_year, unix_days_in_era}
use evowork.Daemon.Trigger.Calendar.Valid.{IsDate}
use evowork.Daemon.Trigger.Calendar.Months.{
  month_number, next_month, year_after, month_number-next, next_month_days, next_month_in,
}
use evowork.Daemon.Trigger.Calendar.Found.{first-IsDate}

-- The days of one month follow each other.
pub same_month_days :
    (year : ℤ) (m d e : ℕ)
    → 1 ≤ d
    → d ≤ e
    → unix_days_from_civil year m e ≡ unix_days_from_civil year m d +ℤ pos (e - d)
unfolding day_of_year
same_month_days year m d e a h =
    let (era, yoe, lt, y_eq) = year_in_era (march_year year m) in
    let at : (e : ℕ) → _ = λ e. parts_of_eq _ _ (unix_days_in_era year era yoe m e y_eq lt) in
    eq_of_parts _ _ (omega (int_laws, at d, at e))

-- A month is known by its number.
pub same_month :
    (y z : ℤ) (m n : ℕ)
    → (1 ≤ m) × (m ≤ 12)
    → (1 ≤ n) × (n ≤ 12)
    → month_number y m ≡ month_number z n
    → (y ≡ z) × (m ≡ n)
same_month y z m n a b e =
    let parts = parts_of_eq (month_number y m) _ e in
    (eq_of_parts _ _ (omega (int_laws, parts)), omega (int_laws, parts))

-- The first days of two months that are `k` months apart.
pub first_days :
    (k : ℕ) (y z : ℤ) (m n : ℕ)
    → (1 ≤ m) × (m ≤ 12)
    → (1 ≤ n) × (n ≤ 12)
    → month_number z n ≡ month_number y m +ℤ pos k
    → (unix_days_from_civil y m 1 ≤ℤ unix_days_from_civil z n 1)
      × (unix_days_from_civil z n 1 ≤ℤ unix_days_from_civil y m 1 +ℤ pos (31 * k))
first_days zero y z m n a b e =
    let parts = parts_of_eq (month_number z n) _ e in
    let (y_eq, m_eq) = same_month y z m n a b (eq_of_parts _ _ (omega (int_laws, parts))) in
    rw (y_eq, m_eq) (omega int_laws)
first_days (suc k) y z m n a b e =
    let parts = parts_of_eq (month_number z n) _ e in
    let next = parts_of_eq _ _ (month_number-next y m) in
    let step = next_month_days y m 1 (first-IsDate y m a.0 a.1) in
    let rest =
      first_days k (year_after y m) z (next_month m) n (next_month_in m a.0 a.1) b
        (eq_of_parts _ _ (omega (int_laws, parts, next))) in
    omega (int_laws, step, rest)

-- A day of a later month is a later day.
pub later_month :
    (y z : ℤ) (m n d e : ℕ)
    → IsDate y m d
    → IsDate z n e
    → month_number y m <ℤ month_number z n
    → unix_days_from_civil y m d <ℤ unix_days_from_civil z n e
later_month y z m n d e v w lt =
    let gap = month_number z n -ℤ month_number y m in
    let none_below = neg_part_zero gap (omega int_laws) in
    let k = pos_part gap - 1 in
    let step = next_month_days y m d v in
    let next = parts_of_eq _ _ (month_number-next y m) in
    let months =
      first_days k (year_after y m) z (next_month m) n (next_month_in m v.month_from v.month_to)
        (w.month_from, w.month_to) (eq_of_parts _ _ (omega (int_laws, next, none_below))) in
    let days = parts_of_eq _ _ (same_month_days z n 1 e (omega arith) w.day_from) in
    omega (int_laws, step, months, days)

-- ===== src/Daemon/Trigger/Schedule/Loop.antt =====
-- The loop of `next_monthly` in crates/evo-daemon/src/trigger.rs: the months that it goes through.
use evowork.Prelude.{
  ℕ, zero, suc, ◌+◌, ◌-◌, ◌*◌, ◌^◌, ◌≤◌, ◌<◌, ◌≡◌, refl, sym, ap, subst, ◌∙◌, ◌⊎◌, inl, inr, arith,
  leb, leb→le, true, false, none, some, unwrap_or, Bool-cases,
}
use evowork.Prelude.Int.{
  ℤ, pos, pos_part, neg_part, ◌+ℤ◌, ◌*ℤ◌, ◌≤ℤ◌, ◌<ℤ◌, leb_ℤ, wrap_i64, wrap_i64_near, int_laws,
  eq_of_parts, parts_of_eq,
}
use evowork.Daemon.Trigger.Calendar.{unix_days_from_civil}
use evowork.Daemon.Trigger.Calendar.Valid.{IsDate}
use evowork.Daemon.Trigger.Calendar.Found.{
  month_days, month-IsDate, first-IsDate, days_in_month_found,
}
use evowork.Daemon.Trigger.Calendar.Months.{
  month_number, next_month, year_after, month_number-next, next_month_days, next_month_in,
}
use evowork.Daemon.Trigger.Calendar.Order.{same_month_days, same_month, later_month}
use evowork.Daemon.Trigger.Schedule.{ms_per_day, candidate, month_loop}

-- The local time of a date.
abbrev pub value : ℤ → ℕ → ℕ → ℕ → ℤ
value year m day target = unix_days_from_civil year m day *ℤ ms_per_day +ℤ pos target

not_due : (a b : ℤ) → leb_ℤ a b ≡ false → ¬ (a ≤ℤ b)
not_due a b e h = ground arith

-- The month is at most 28 - `left` months after that of `today`.
pub record IsNear (today : ℤ) (left : ℕ) (year : ℤ) (m : ℕ) : Type 0 where
  pub from : today ≤ℤ unix_days_from_civil year m 1 +ℤ pos 31
  pub to : unix_days_from_civil year m 1 +ℤ pos (31 * left) ≤ℤ today +ℤ pos 868

-- `found` is the local time of the first date from a month on that is not before `local`.
pub record IsFirstDate (day target : ℕ) (local year : ℤ) (m : ℕ) (found : ℤ) : Type 0 where
  pub found_year : ℤ
  pub found_month : ℕ
  pub date : IsDate found_year found_month day
  pub at : found ≡ value found_year found_month day target
  pub from : local ≤ℤ found
  pub least :
      (y : ℤ) (n : ℕ)
      → IsDate y n day
      → month_number year m ≤ℤ month_number y n
      → local ≤ℤ value y n day target
      → found ≤ℤ value y n day target

module _ (today : ℤ) (today_from : neg_part today ≤ 2 ^ 36) (today_to : pos_part today ≤ 2 ^ 36)
    (day target : ℕ) (day_from : 1 ≤ day) (target_to : target < ms_per_day) where
  value_fits :
      (left : ℕ) (year : ℤ) (m : ℕ)
      → IsNear today left year m
      → left ≤ 28
      → day ≤ 31
      → wrap_i64 (value year m day target) ≡ value year m day target
  value_fits left year m near small le =
      let days = parts_of_eq _ _ (same_month_days year m 1 day (omega arith) day_from) in
      wrap_i64_near _ (omega (int_laws, days)) (omega (int_laws, days))

  too_long : (d days length : ℕ) → leb d length ≡ false → days ≡ length → ¬ (d ≤ days)
  too_long d days length e same le = ground arith

  -- A month either has the day and so a candidate, or it has neither.
  candidate-cases :
      (left : ℕ) (year : ℤ) (m : ℕ)
      → (1 ≤ m) × (m ≤ 12)
      → IsNear today left year m
      → left ≤ 28
      → day ≤ 31
      → (IsDate year m day × (candidate year m day target ≡ some (value year m day target)))
        ⊎ (¬ IsDate year m day × (candidate year m day target ≡ none))
  unfolding candidate
  candidate-cases left year m in_year near small le =
      let days = days_in_month_found year m in_year.0 in_year.1 in
      elim (Bool-cases (leb day (month_days year m))) [
        | inl e ↦ inl (
          month-IsDate year m day in_year.0 in_year.1 day_from (leb→le day _ e),
          rw (days, e) (ap some (value_fits left year m near small le)),
        )
        | inr e ↦ inr (
          λ v.
              let same = ap (λ o. unwrap_or o 0) (sym v.days_eq ∙ days) in
              too_long day v.days (month_days year m) e same v.day_to,
          rw (days, e) refl,
        )
      ]

  at_month :
      (year y : ℤ) (m n : ℕ)
      → y ≡ year
      → n ≡ m
      → (local : ℤ) → IsDate y n day × (local ≤ℤ value y n day target)
      → IsDate year m day × (local ≤ℤ value year m day target)
  at_month year y m n y_eq m_eq local h =
      subst (λ k. IsDate year k day × (local ≤ℤ value year k day target)) m_eq
        (subst (λ z. IsDate z n day × (local ≤ℤ value z n day target)) y_eq h)

  -- A month without a date that would do is passed over.
  pass_over :
      (local year : ℤ) (m : ℕ) (found : ℤ)
      → (1 ≤ m) × (m ≤ 12)
      → (IsDate year m day → local ≤ℤ value year m day target → ⊥)
      → IsFirstDate day target local (year_after year m) (next_month m) found
      → IsFirstDate day target local year m found
  pass_over local year m found in_year nothing rest = record {
    found_year = rest.found_year;
    found_month = rest.found_month;
    date = rest.date;
    at = rest.at;
    from = rest.from;
    least = λ y n v order from.
        let next = parts_of_eq _ _ (month_number-next year m) in
        let which : (month_number (year_after year m) (next_month m) ≤ℤ month_number y n)
            ⊎ (pos_part (month_number year m) + neg_part (month_number y n)
                ≡ pos_part (month_number y n) + neg_part (month_number year m)) =
          omega (int_laws, next, order) in
        elim which [
          | inl later ↦ rest.least y n v later from
          | inr same ↦
              let (y_eq, m_eq) =
                same_month year y m n in_year (v.month_from, v.month_to) (eq_of_parts _ _ same) in
              let (here, due) = at_month year y m n (sym y_eq) (sym m_eq) local (v, from) in
              absurd (nothing here due)
        ];
  }

  -- The date that is sought is then in a later month.
  not_this_month :
      (year z : ℤ) (m n k : ℕ)
      → (1 ≤ m) × (m ≤ 12)
      → (local : ℤ) → (IsDate year m day → local ≤ℤ value year m day target → ⊥)
      → IsDate z n day
      → local ≤ℤ value z n day target
      → month_number z n ≡ month_number year m +ℤ pos k
      → 1 ≤ k
  not_this_month year z m n zero in_year local nothing v due k_eq =
      let parts = parts_of_eq _ _ k_eq in
      let (z_eq, n_eq) =
        same_month z year n m (v.month_from, v.month_to) in_year
          (eq_of_parts _ _ (omega (int_laws, parts))) in
      let (here, now) = at_month year z m n z_eq n_eq local (v, due) in absurd (nothing here now)
  not_this_month year z m n (suc k) in_year local nothing v due k_eq = omega arith

  next_month-IsNear :
      (left : ℕ) (year : ℤ) (m : ℕ)
      → (1 ≤ m) × (m ≤ 12)
      → IsNear today (suc left) year m
      → IsNear today left (year_after year m) (next_month m)
  next_month-IsNear left year m in_year near =
      let step = next_month_days year m 1 (first-IsDate year m in_year.0 in_year.1) in
      record { from = omega (int_laws, step); to = omega (int_laws, step) }

  this_month :
      (local year : ℤ) (m : ℕ)
      → IsDate year m day
      → local ≤ℤ value year m day target
      → IsFirstDate day target local year m (value year m day target)
  this_month local year m here now = record {
    found_year = year;
    found_month = m;
    date = here;
    at = refl;
    from = now;
    least = λ y n v order from.
        let which : (pos_part (month_number year m) + neg_part (month_number y n)
              ≡ pos_part (month_number y n) + neg_part (month_number year m))
            ⊎ (month_number year m <ℤ month_number y n) =
          omega (arith, order) in
        elim which [
          | inl same ↦
              let (y_eq, m_eq) =
                same_month year y m n (here.month_from, here.month_to) (v.month_from, v.month_to)
                  (eq_of_parts _ _ same) in
              let at =
                parts_of_eq _ _
                  (ap (λ z. value z m day target) y_eq ∙ ap (λ k. value y k day target) m_eq) in
              omega (arith, at)
          | inr later ↦ omega (int_laws, later_month year y m n day day here v later)
        ];
  }

  -- A round of the loop.
  round_none :
      (left : ℕ) (year : ℤ) (m : ℕ) (local : ℤ)
      → candidate year m day target ≡ none
      → month_loop (suc left) year m day target local
        ≡ month_loop left (year_after year m) (next_month m) day target local
  unfolding month_loop
  round_none left year m local e = rw (month_loop, e) refl

  round_found :
      (left : ℕ) (year : ℤ) (m : ℕ) (local found : ℤ)
      → candidate year m day target ≡ some found
      → leb_ℤ local found ≡ true
      → month_loop (suc left) year m day target local ≡ some found
  unfolding month_loop
  round_found left year m local found e now = rw (month_loop, e, now) refl

  round_past :
      (left : ℕ) (year : ℤ) (m : ℕ) (local found : ℤ)
      → candidate year m day target ≡ some found
      → leb_ℤ local found ≡ false
      → month_loop (suc left) year m day target local
        ≡ month_loop left (year_after year m) (next_month m) day target local
  unfolding month_loop
  round_past left year m local found e past = rw (month_loop, e, past) refl

  -- The loop finds the first date, as soon as there is one among the months that it goes through.
  pub month_loop_lem :
      (left : ℕ) (local year : ℤ) (m k : ℕ) (z : ℤ) (n : ℕ)
      → left ≤ 28
      → day ≤ 31
      → (1 ≤ m) × (m ≤ 12)
      → IsNear today left year m
      → IsDate z n day
      → local ≤ℤ value z n day target
      → month_number z n ≡ month_number year m +ℤ pos k
      → k < left
      → (found : ℤ) × (month_loop left year m day target local ≡ some found)
        × IsFirstDate day target local year m found
  unfolding month_loop
  month_loop_lem zero local year m k z n small le in_year near v due k_eq lt = absurd (omega arith)
  month_loop_lem (suc left) local year m k z n small le in_year near v due k_eq lt =
      let step = next_month-IsNear left year m in_year near in
      let month = next_month_in m in_year.0 in_year.1 in
      let next_year = year_after year m in
      let later : (IsDate year m day → local ≤ℤ value year m day target → ⊥)
          → (found : ℤ) × (month_loop left next_year (next_month m) day target local ≡ some found)
            × IsFirstDate day target local year m found =
        λ nothing.
          let k_pos = not_this_month year z m n k in_year local nothing v due k_eq in
          let number = parts_of_eq _ _ k_eq in
          let next = parts_of_eq _ _ (month_number-next year m) in
          let (found, e, first) =
            month_loop_lem left local next_year (next_month m) (k - 1) z n (omega arith) le month
              step v due (eq_of_parts _ _ (omega (int_laws, number, next))) (omega arith) in
          (found, e, pass_over local year m found in_year nothing first) in
      elim (candidate-cases (suc left) year m in_year near small le) [
        | inr (none_here, e) ↦
            let (found, run, first) = later (λ here _. absurd (none_here here)) in
            (found, round_none left year m local e ∙ run, first)
        | inl (here, e) ↦ elim (Bool-cases (leb_ℤ local (value year m day target))) [
          | inl now ↦ (
            value year m day target,
            round_found left year m local (value year m day target) e now,
            this_month local year m here (leb→le _ _ now),
          )
          | inr past ↦
              let (found, run, first) = later (λ _. not_due local (value year m day target) past) in
              (found, round_past left year m local (value year m day target) e past ∙ run, first)
        ]
      ]

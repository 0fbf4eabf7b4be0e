-- ===== src/State/User/Age.antt =====
-- `Age` of state/user.go.
use go_icq.Prelude.{
  ℕ, zero, suc, ◌+◌, ◌-◌, ◌/◌, ◌%◌, ◌^◌, Bool, true, false, ◌&&◌, ◌||◌, not, List, [], ◌∷◌, take,
  ltb, leb, ◌==◌, ◌≡◌, ◌<◌, ◌≤◌, refl, lt→ltb, arith, if◌then◌else◌,
}
use go_icq.Prelude.Int.{ℤ, pos, ◌-ℤ◌}
use go_icq.State.User.{User}
use go_icq.State.User.Name.{uint_32}

-- A date as `Year` and `YearDay` of time.Time give it.
pub record YearDay : Type 0 where
  pub year : ℕ
  pub day : ℕ

abbrev pub is_leap : ℕ → Bool
is_leap y = (y % 4 == 0) && (not (y % 100 == 0) || (y % 400 == 0))

abbrev pub year_length : ℕ → ℕ
year_length y = if is_leap y then 366 else 365

-- The days before a month, counted from 0.
abbrev sum : List ℕ → ℕ
sum [] = 0
sum (n ∷ ns) = n + sum ns

abbrev pub days_before : Bool → ℕ → ℕ
days_before leap month =
    sum (
      take month (31 ∷ (if leap then 29 else 28) ∷ 31 ∷ 30 ∷ 31 ∷ 30 ∷ 31 ∷ 31 ∷ 30 ∷ 31 ∷ 30 ∷ []))

-- `Year` and `YearDay` of `time.Date(year, month, day, …)`, which carries a month above December and a day
-- above the month's last over. With `month` and `day` below 256 this passes one new year at most.
unfoldable pub date : ℕ → ℕ → ℕ → YearDay
date y month d =
    let y' = y + (month - 1) / 12 in
    let n = days_before (is_leap y') ((month - 1) % 12) + d in
    if leb n (year_length y')
    then record { year = y'; day = n }
    else record { year = suc y'; day = n - year_length y' }

-- `uint16` of an int.
abbrev pub uint_16 : ℤ → ℕ
uint_16 z = uint_32 z % 2 ^ 16

abbrev pub years_since : YearDay → YearDay → ℤ
years_since now bday =
    if ltb now.day bday.day
    then pos now.year -ℤ pos bday.year -ℤ pos 1
    else pos now.year -ℤ pos bday.year

-- `Age` at a time in UTC.
unfoldable pub age : User → YearDay → ℕ
unfolding date
age user now =
    let info = user.icq_more_info in
    if ltb 0 info.birth_year && (info.birth_day == 0 && info.birth_month == 0)
    then uint_16 (pos now.year -ℤ pos info.birth_year)
    else if ltb 0 info.birth_year && (ltb 0 info.birth_day && ltb 0 info.birth_month)
    then uint_16 (years_since now (date info.birth_year info.birth_month info.birth_day))
    else 0

sum-take : (k : ℕ) (ns : List ℕ) → sum (take k ns) ≤ sum ns
sum-take zero ns = omega arith
sum-take (suc k) [] = omega arith
sum-take (suc k) (n ∷ ns) = let h = sum-take k ns in omega arith

-- From March on, a leap year is a day ahead.
days_before-leap :
    (month : ℕ) → 3 ≤ month → days_before true (month - 1) ≡ suc (days_before false (month - 1))
days_before-leap month h =
    let e : month - 1 ≡ suc (suc (month - 3)) = omega arith in rw e (omega arith)

days_before_bound : (month : ℕ) → days_before false month ≤ 334
days_before_bound month = sum-take month (31 ∷ 28 ∷ 31 ∷ 30 ∷ 31 ∷ 30 ∷ 31 ∷ 31 ∷ 30 ∷ 31 ∷ 30 ∷ [])

day_of_year :
    (leap : Bool) (month d : ℕ)
    → 3 ≤ month
    → d ≤ 31
    → leb (days_before leap (month - 1) + d) (if leap then 366 else 365) ≡ true
day_of_year true month d h l =
    let b = days_before_bound (month - 1) in let e = days_before-leap month h in ground arith
day_of_year false month d h l = let b = days_before_bound (month - 1) in ground arith

date-day :
    (y month d : ℕ) (leap : Bool)
    → is_leap y ≡ leap
    → 3 ≤ month
    → month ≤ 12
    → d ≤ 31
    → date y month d ≡ record { year = y; day = days_before leap (month - 1) + d }
unfolding date
date-day y month d leap e h k l =
    let y' : y + (month - 1) / 12 ≡ y = omega arith in
    let m' : (month - 1) % 12 ≡ month - 1 = omega arith in
    let fits = day_of_year leap month d h l in rw (y', m', e, fits) refl

later : (n d : ℕ) → ltb (n + d) (suc n + d) ≡ true
later n d = lt→ltb _ _ (omega arith)

-ℤ-pos : (a b : ℕ) → b ≤ a → pos a -ℤ pos b ≡ pos (a - b)
unfolding ◌-ℤ◌
-ℤ-pos a b h = ground arith

years_less : (y b : ℕ) → b < y → y < 2 ^ 16 → uint_16 (pos y -ℤ pos b -ℤ pos 1) ≡ y - b - 1
years_less y b h k = rw (-ℤ-pos y b (omega arith), -ℤ-pos (y - b) 1 (omega arith)) (omega arith)

-- On the birthday itself a user who was born in a leap year, in March or later, is one year too young in
-- every year that is no leap year: `Age` compares the numbers of the days in the two years. The user
-- has a birthday of a month from March to December and a day from 1 to 31 that is not carried over.
pub age-leap_birthday :
    (user : User) (y : ℕ)
    → is_leap user.icq_more_info.birth_year ≡ true
    → is_leap y ≡ false
    → 0 < user.icq_more_info.birth_year
    → user.icq_more_info.birth_year < y
    → y < 2 ^ 16
    → 3 ≤ user.icq_more_info.birth_month
    → user.icq_more_info.birth_month ≤ 12
    → 1 ≤ user.icq_more_info.birth_day
    → user.icq_more_info.birth_day ≤ 31
    → age user (date y user.icq_more_info.birth_month user.icq_more_info.birth_day)
      ≡ y - user.icq_more_info.birth_year - 1
unfolding age
age-leap_birthday user y leap common h0 h1 h2 h3 h4 h5 h6 =
    let info = user.icq_more_info in
    let born = date-day info.birth_year info.birth_month info.birth_day true leap h3 h4 h6 in
    let now = date-day y info.birth_month info.birth_day false common h3 h4 h6 in
    let ahead = days_before-leap info.birth_month h3 in
    let year_set : ltb 0 info.birth_year ≡ true = lt→ltb _ _ h0 in
    let day_set : ltb 0 info.birth_day ≡ true = lt→ltb _ _ (omega arith) in
    let month_set : ltb 0 info.birth_month ≡ true = lt→ltb _ _ (omega arith) in
    let no_day : (info.birth_day == 0) ≡ false = ground arith in
    rw
      (
        year_set,
        day_set,
        month_set,
        no_day,
        born,
        now,
        ahead,
        later (days_before false (info.birth_month - 1)) info.birth_day,
      )
      (years_less y info.birth_year h1 h2)

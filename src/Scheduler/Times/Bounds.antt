-- ===== src/Scheduler/Times/Bounds.antt =====
-- gorp-core/src/scheduler.rs: the fields of the cron expressions that a text is parsed to.
use gorp_rs.Base.{
  ℕ, ◌≤◌, ◌≡◌, refl, ap, sym, subst, String, Char, Bool, true, false, ◌||◌, ◌==◌, Option, none,
  some, Result, ok, err, ◌>>=◌, ◌⊎◌, inl, inr, arith, if◌then◌else◌, ltb, eqb,
}
use gorp_rs.Text.{Unicode, ◌^^◌, strip_prefix, strip_suffix, trim, first_word, other_words}
use gorp_rs.Text.Decimal.{show_u32}
use gorp_rs.Scheduler.Execute.{Env, compute_next_cron_execution_in_tz}
use gorp_rs.Scheduler.Times.{
  Time, in_range, whole_hour, parse_time_of_day, cron_day, daily_cron, parse_weekday_time, at_time,
  every_minutes, every_hours, count_or_weekday, part_of_day, recurring_cron, ParsedSchedule,
  recurring, parse_recurring,
}

abbrev pub IsTime : Time → Type 0
IsTime (hour, minute) = (hour ≤ 23) × (minute ≤ 59)

-- What a result holds, if it is no error.
abbrev pub Ensures : {A : Type 0} → (A → Type 0) → Result A → Type 0
Ensures P (ok a) = P a
Ensures P (err e) = Unit

ensured : {A : Type 0} (P : A → Type 0) (m : Result A) (a : A) → Ensures P m → m ≡ ok a → P a
ensured P (ok b) a h e = subst P (ap (λ r. elim r [ ok c ↦ c | err f ↦ b ]) e) h
ensured P (err f) a h e = absurd (cc)

bind-Ensures :
    {A B : Type 0} (P : B → Type 0) (m : Result A) (f : A → Result B)
    → ((a : A) → m ≡ ok a → Ensures P (f a))
    → Ensures P (m >>= f)
bind-Ensures P (ok a) f k = k a refl
bind-Ensures P (err f') f k = tt

if-Ensures :
    {B : Type 0} (P : B → Type 0) (c : Bool) (x y : Result B)
    → (c ≡ true → Ensures P x)
    → (c ≡ false → Ensures P y)
    → Ensures P (if c then x else y)
if-Ensures P true x y h k = h refl
if-Ensures P false x y h k = k refl

option-Ensures :
    {A B : Type 0} (P : B → Type 0) (o : Option A) (x : Result B) (f : A → Result B)
    → Ensures P x
    → ((a : A) → Ensures P (f a))
    → Ensures P (elim o as (λ _. Result B) [ none ↦ x | some a ↦ f a ])
option-Ensures P none x f h k = h
option-Ensures P (some a) x f h k = k a

in_range-Ensures : (t : Time) → Ensures IsTime (in_range t)
unfolding in_range
in_range-Ensures (hour, minute) =
    if-Ensures IsTime _ (err _) (ok (hour, minute)) (λ e. tt) (λ e. ground arith)

whole_hour-Ensures : (hour : ℕ) → Ensures IsTime (whole_hour hour)
unfolding whole_hour
whole_hour-Ensures hour = if-Ensures IsTime _ (err _) (ok (hour, 0)) (λ e. tt) (λ e. ground arith)

parse_time_of_day-Ensures :
    (u : Unicode) (space : Char → Bool) (input : String)
    → Ensures IsTime (parse_time_of_day u space input)
unfolding parse_time_of_day
parse_time_of_day-Ensures u space input =
    search (if-Ensures IsTime, bind-Ensures IsTime, in_range-Ensures, whole_hour-Ensures)

-- A time of day that is read is in range: an hour up to 23 and a minute up to 59.
pub parse_time_of_day-IsTime :
    (u : Unicode) (space : Char → Bool) (input : String) (t : Time)
    → parse_time_of_day u space input ≡ ok t
    → IsTime t
parse_time_of_day-IsTime u space input t e =
    ensured IsTime (parse_time_of_day u space input) t (parse_time_of_day-Ensures u space input) e

-- A day field: every day, or one of those that a weekday is read as.
abbrev pub IsDay : String → Type 0
IsDay day = (day ≡ "*") ⊎ ((weekday : String) × (cron_day weekday ≡ ok day))

-- The cron expressions with fields in range: every hour, at a time of day, or in steps.
pub data IsCron : String → Type 0 where
  every_hour : IsCron "0 * * * *"
  at : (t : Time) (day : String) → IsTime t → IsDay day → IsCron (daily_cron t day)
  step_minutes : (n : ℕ) → 1 ≤ n → n ≤ 59 → IsCron ("*/" ^^ show_u32 n ^^ " * * * *")
  step_hours : (n : ℕ) → 1 ≤ n → n ≤ 23 → IsCron ("0 */" ^^ show_u32 n ^^ " * * *")

default-IsCron :
    (cron : String) (t : Time) → IsTime t → cron ≡ daily_cron t "*" → Ensures IsCron (ok cron)
default-IsCron cron t h e = subst IsCron (sym e) (at t "*" h (inl refl))

module _ (u : Unicode) (space : Char → Bool) where
  at_time-Ensures : (s : String) → Ensures IsCron (at_time u space s)
  unfolding at_time
  at_time-Ensures s =
      bind-Ensures IsCron (parse_time_of_day u space s) (λ t. ok (daily_cron t "*"))
        (λ t e. at t "*" (parse_time_of_day-IsTime u space s t e) (inl refl))

  every_minutes-Ensures : (s : String) → Ensures IsCron (every_minutes u space s)
  unfolding every_minutes
  every_minutes-Ensures s = search (
    bind-Ensures IsCron,
    if-Ensures IsCron,
    λ (n : ℕ) (h : (eqb n 0 || ltb 59 n) ≡ false).
        step_minutes n (ground (arith, h)) (ground (arith, h)),
  )

  every_hours-Ensures : (s : String) → Ensures IsCron (every_hours u space s)
  unfolding every_hours
  every_hours-Ensures s = search (
    bind-Ensures IsCron,
    if-Ensures IsCron,
    λ (n : ℕ) (h : (eqb n 0 || ltb 23 n) ≡ false).
        step_hours n (ground (arith, h)) (ground (arith, h)),
  )

  day-IsCron-Ensures :
      (day : String) (m : Result Time)
      → IsDay day
      → Ensures IsTime m
      → Ensures IsCron (m >>= λ t. ok (daily_cron t day))
  day-IsCron-Ensures day (ok t) d h = at t day h d
  day-IsCron-Ensures day (err e) d h = tt

  IsTime-or_nine :
      (s : String) → Ensures IsTime (if s == "" then ok (9, 0) else parse_time_of_day u space s)
  IsTime-or_nine s =
      if-Ensures IsTime (s == "") (ok (9, 0)) (parse_time_of_day u space s)
        (λ e. (omega arith, omega arith)) (λ e. parse_time_of_day-Ensures u space s)

  parse_weekday_time-Ensures : (s : String) → Ensures IsCron (parse_weekday_time u space s)
  unfolding parse_weekday_time
  parse_weekday_time-Ensures s = search (
    bind-Ensures IsCron,
    if-Ensures IsCron,
    λ (day : String) (e : cron_day (first_word space s) ≡ ok day).
        day-IsCron-Ensures day _ (inr (first_word space s, e))
          (IsTime-or_nine (other_words space s)),
  )

  count_or_weekday-Ensures : (s : String) → Ensures IsCron (count_or_weekday u space s)
  unfolding count_or_weekday
  count_or_weekday-Ensures s =
      option-Ensures IsCron (strip_suffix s " minutes") _ (every_minutes u space)
        (option-Ensures IsCron (strip_suffix s " hours") (parse_weekday_time u space s)
          (every_hours u space) (parse_weekday_time-Ensures s) every_hours-Ensures)
        every_minutes-Ensures

  part_of_day-Ensures :
      (word default : String) (next : Result String) (s : String)
      → Ensures IsCron (ok default)
      → Ensures IsCron next
      → Ensures IsCron (part_of_day u space word default next s)
  unfolding part_of_day
  part_of_day-Ensures word default next s h k =
      option-Ensures IsCron (strip_prefix s (word ^^ " ")) (if s == word then ok default else next)
        (λ time_part. at_time u space (trim space time_part))
        (if-Ensures IsCron (s == word) (ok default) next (λ e. h) (λ e. k))
        (λ time_part. at_time-Ensures (trim space time_part))

  at_hour :
      (hour : ℕ) (cron : String)
      → hour ≤ 23
      → cron ≡ daily_cron (hour, 0) "*"
      → Ensures IsCron (ok cron)
  at_hour hour cron h e = default-IsCron cron (hour, 0) (h, omega arith) e

  -- A text that is read as a recurring time gives a cron expression whose fields are in range.
  recurring_cron-Ensures : (s : String) → Ensures IsCron (recurring_cron u space s)
  unfolding recurring_cron show_u32
  recurring_cron-Ensures s =
      let after_noon =
        part_of_day-Ensures "afternoon" "0 14 * * *" _ s
          (at_hour 14 "0 14 * * *" (omega arith) refl)
          (part_of_day-Ensures "evening" "0 18 * * *" _ s
            (at_hour 18 "0 18 * * *" (omega arith) refl)
            (part_of_day-Ensures "night" "0 21 * * *" _ s
              (at_hour 21 "0 21 * * *" (omega arith) refl) (count_or_weekday-Ensures s))) in
      search (
        if-Ensures IsCron,
        every_hour,
        at_hour 9 "0 9 * * *" (omega arith) refl,
        at_time-Ensures,
        part_of_day-Ensures "morning" "0 8 * * *" _ s (at_hour 8 "0 8 * * *" (omega arith) refl)
            after_noon,
      )

-- A recurring schedule whose cron fields are in range, with the next time that its expression gives.
abbrev pub Recurs : Env → String → ParsedSchedule → Type 0
Recurs env timezone s =
    (cron : String) × (next : String) × (s ≡ recurring cron next)
    × IsCron cron
    × (compute_next_cron_execution_in_tz env cron timezone ≡ ok next)

-- A recurring time that is accepted is a recurring schedule: its cron expression has all fields in range
-- (an hour up to 23, a minute up to 59, a day that a weekday is read as, a step of at least 1), and its
-- next time is the one that the expression gives in the time zone.
pub parse_recurring-Recurs :
    (env : Env) (input timezone : String) (s : ParsedSchedule)
    → parse_recurring env input timezone ≡ ok s
    → Recurs env timezone s
unfolding parse_recurring
parse_recurring-Recurs env input timezone s e =
    let rest = elim (strip_prefix input "every ") as (λ _. String) [ some r ↦ r | none ↦ input ] in
    let parsed = recurring_cron env.unicode env.is_whitespace rest in
    ensured (Recurs env timezone) (parse_recurring env input timezone) s
      (bind-Ensures (Recurs env timezone) parsed _ (λ cron read.
        bind-Ensures (Recurs env timezone) (compute_next_cron_execution_in_tz env cron timezone)
          (λ next. ok (recurring cron next))
          (λ next given. (
            cron,
            next,
            refl,
            ensured IsCron parsed cron (recurring_cron-Ensures env.unicode env.is_whitespace rest)
                read,
            given,
          ))))
      e

-- ===== src/Scheduler/Times.antt =====
-- gorp-core/src/scheduler.rs, lines 156-321: recurring times in natural language, as cron expressions.
pub mod Bounds
use gorp_rs.Base.{
  ℕ, ◌+◌, ◌<◌, String, Char, Bool, not, ◌&&◌, ◌||◌, ◌==◌, eqb, ltb, Option, none, some, Result, ok,
  err, Error, message, or_err, ◌>>=◌, if◌then◌else◌, is_some,
}
use gorp_rs.Text.{
  Unicode, ◌^^◌, contains, trim, trim_start, first_word, strip_prefix, strip_suffix, after_first,
  before_char, other_words, has_prefix,
}
use gorp_rs.Text.Decimal.{parse_u32, show_u32}
use gorp_rs.Scheduler.Execute.{Env, compute_next_cron_execution_in_tz}

-- An hour and a minute.
abbrev pub Time : Type 0
Time = ℕ × ℕ

abbrev invalid_time : Error
invalid_time = message "Invalid time: hour must be 0-23, minute must be 0-59"

unfoldable pub in_range : Time → Result Time
in_range (hour, minute) =
    if ltb 23 hour || ltb 59 minute then err invalid_time else ok (hour, minute)

abbrev pub parse_hour : String → Result ℕ
parse_hour s = or_err (parse_u32 s) (message "Invalid hour")

-- `parts.get(1).unwrap_or(&"0")` of the parts between colons.
abbrev second_part : String → String
second_part s = elim (after_first s ":") [ none ↦ "0" | some rest ↦ before_char b':' rest ]

unfoldable pub hour_minute : String → Result Time
hour_minute s = do
  h ← parse_hour (before_char b':' s)
  m ← or_err (parse_u32 (second_part s)) (message "Invalid minute")
  ok (h, m)

unfoldable pub clock_time : String → Result Time
unfolding hour_minute contains
clock_time s = if contains s ":" then hour_minute s else parse_hour s >>= λ h. ok (h, 0)

-- The hour of a time with am or pm.
abbrev pub to_24 : Bool → Time → Time
to_24 is_pm (hour, minute) = (
  if is_pm && ltb hour 12 then hour + 12 else if not is_pm && eqb hour 12 then 0 else hour,
  minute,
)

-- The text before am, or else before pm.
abbrev before_half : String → String
before_half s = elim (strip_suffix s "am") [
  | some r ↦ r
  | none ↦ elim (strip_suffix s "pm") [ some r ↦ r | none ↦ s ]
]

unfoldable pub whole_hour : ℕ → Result Time
whole_hour hour = if ltb 23 hour then err (message "Hour must be 0-23") else ok (hour, 0)

unfoldable pub cron_day : String → Result String
cron_day weekday =
    if weekday == "monday" || weekday == "mon"
    then ok "MON"
    else if weekday == "tuesday" || weekday == "tue" || weekday == "tues"
    then ok "TUE"
    else if weekday == "wednesday" || weekday == "wed"
    then ok "WED"
    else if weekday == "thursday" || weekday == "thu" || weekday == "thur" || weekday == "thurs"
    then ok "THU"
    else if weekday == "friday" || weekday == "fri"
    then ok "FRI"
    else if weekday == "saturday" || weekday == "sat"
    then ok "SAT"
    else if weekday == "sunday" || weekday == "sun"
    then ok "SUN"
    else if weekday == "weekday" || weekday == "weekdays"
    then ok "MON-FRI"
    else if weekday == "weekend" || weekday == "weekends"
    then ok "SAT,SUN"
    else err (message "Unknown day")

-- `format!("{} {} * * {}", minute, hour, day)`
abbrev pub daily_cron : Time → String → String
daily_cron (hour, minute) day = show_u32 minute ^^ " " ^^ show_u32 hour ^^ " * * " ^^ day

module _ (u : Unicode) (is_whitespace : Char → Bool) where
  unfoldable pub parse_time_of_day : String → Result Time
  unfolding in_range clock_time hour_minute whole_hour contains strip_suffix trim
  parse_time_of_day input =
      let s = u.to_lowercase (trim is_whitespace input) in
      if is_some (strip_suffix s "am") || is_some (strip_suffix s "pm")
      then (clock_time (trim is_whitespace (before_half s)) >>= λ t.
          in_range (to_24 (is_some (strip_suffix s "pm")) t))
      else if contains s ":"
      then hour_minute s >>= in_range
      else parse_hour s >>= whole_hour

  unfoldable pub parse_weekday_time : String → Result String
  parse_weekday_time input =
      let weekday = first_word is_whitespace input in
      let time_str = other_words is_whitespace input in
      if weekday == "" then err (message "Empty recurring pattern") else do
        day ← cron_day weekday
        t ← if time_str == "" then ok (9, 0) else parse_time_of_day time_str
        ok (daily_cron t day)

  -- A time of day after a word such as "morning ".
  unfoldable pub at_time : String → Result String
  at_time time_part = parse_time_of_day time_part >>= λ t. ok (daily_cron t "*")

  unfoldable pub every_minutes : String → Result String
  unfolding parse_u32 show_u32 trim
  every_minutes minutes =
      or_err (parse_u32 (trim is_whitespace minutes)) (message "Invalid minute value") >>= λ mins.
      if eqb mins 0 || ltb 59 mins
      then err (message "Minutes must be between 1 and 59")
      else ok ("*/" ^^ show_u32 mins ^^ " * * * *")

  unfoldable pub every_hours : String → Result String
  unfolding parse_u32 show_u32 trim
  every_hours hours =
      or_err (parse_u32 (trim is_whitespace hours)) (message "Invalid hour value") >>= λ hrs.
      if eqb hrs 0 || ltb 23 hrs
      then err (message "Hours must be between 1 and 23")
      else ok ("0 */" ^^ show_u32 hrs ^^ " * * *")

  -- A text with one of the endings " minutes" and " hours", or a weekday.
  unfoldable pub count_or_weekday : String → Result String
  count_or_weekday rest = elim (strip_suffix rest " minutes") [
    | some minutes ↦ every_minutes minutes
    | none ↦ elim (strip_suffix rest " hours") [
      | some hours ↦ every_hours hours
      | none ↦ parse_weekday_time rest
    ]
  ]

  -- A part of the day with a time, or alone with the cron expression that it stands for.
  unfoldable pub part_of_day : String → String → Result String → String → Result String
  part_of_day word default next rest = elim (strip_prefix rest (word ^^ " ")) [
    | some time_part ↦ at_time (trim is_whitespace time_part)
    | none ↦ if rest == word then ok default else next
  ]

  -- What follows "day at " or "day ".
  abbrev day_time : String → String
  day_time rest = elim (strip_prefix rest "day at ") [
    | some t ↦ t
    | none ↦ elim (strip_prefix rest "day ") [ some t ↦ t | none ↦ "9am" ]
  ]

  unfoldable pub recurring_cron : String → Result String
  recurring_cron rest =
      if rest == "hour" || rest == "hourly"
      then ok "0 * * * *"
      else if rest == "day" || rest == "daily"
      then ok "0 9 * * *"
      else if has_prefix rest "day at " || has_prefix rest "day "
      then at_time (day_time rest)
      else part_of_day "morning" "0 8 * * *"
          (part_of_day "afternoon" "0 14 * * *"
            (part_of_day "evening" "0 18 * * *"
              (part_of_day "night" "0 21 * * *" (count_or_weekday rest) rest) rest)
            rest)
          rest

pub data ParsedSchedule : Type 0 where
  one_time : String → ParsedSchedule
  recurring : String → String → ParsedSchedule

unfoldable pub parse_recurring : Env → String → String → Result ParsedSchedule
parse_recurring env input timezone = do
  cron ←
      recurring_cron env.unicode env.is_whitespace
        (elim (strip_prefix input "every ") [ some rest ↦ rest | none ↦ input ])
  next ← compute_next_cron_execution_in_tz env cron timezone
  ok (recurring cron next)

-- ===== src/Tests/Times.antt =====
-- The recurring times of gorp-core/src/scheduler.rs on concrete texts.
use gorp_rs.Scheduler.Execute.{compute_next_cron_execution_in_tz}
use gorp_rs.Text.{
  after_first, before_char, first_word, has_prefix, other_words, strip_prefix, strip_suffix,
}
use gorp_rs.Base.{◌≡◌, refl, none, some, ok}
use gorp_rs.Text.Decimal.{parse_u32, show_u32}
use gorp_rs.Scheduler.Times.{
  at_time, count_or_weekday, cron_day, every_minutes, parse_recurring, parse_time_of_day,
  parse_weekday_time, part_of_day, recurring, recurring_cron,
}
use gorp_rs.Scheduler.Times.Bounds.{
  IsTime, parse_time_of_day-IsTime, Recurs, parse_recurring-Recurs,
}
use gorp_rs.Tests.{letters, clockwork}

evening_example : IsTime (20, 30)
unfolding parse_time_of_day parse_u32 before_char after_first
evening_example = parse_time_of_day-IsTime letters clockwork.is_whitespace " 8:30pm" (20, 30) refl

midnight : parse_time_of_day letters clockwork.is_whitespace "12 am" ≡ ok (0, 0)
unfolding parse_time_of_day parse_u32
midnight = refl

noon : parse_time_of_day letters clockwork.is_whitespace "12pm" ≡ ok (12, 0)
unfolding parse_time_of_day parse_u32
noon = refl

weekdays : recurring_cron letters clockwork.is_whitespace "mon 8 am" ≡ ok "0 8 * * MON"
unfolding recurring_cron has_prefix part_of_day strip_prefix count_or_weekday strip_suffix
    parse_weekday_time first_word cron_day other_words parse_time_of_day parse_u32 show_u32
weekdays = refl

steps : recurring_cron letters clockwork.is_whitespace "15 minutes" ≡ ok "*/15 * * * *"
unfolding recurring_cron has_prefix part_of_day strip_prefix count_or_weekday strip_suffix
    every_minutes
steps = refl

numbers : (parse_u32 "4294967295" ≡ some 4294967295) × (parse_u32 "4294967296" ≡ none)
unfolding parse_u32
numbers = (refl, refl)

morning_example : Recurs clockwork "UTC" (recurring "0 9 * * *" "2025-01-02T09:00:00+00:00")
unfolding parse_recurring recurring_cron strip_prefix has_prefix part_of_day at_time
    parse_time_of_day parse_u32 compute_next_cron_execution_in_tz show_u32
morning_example =
    parse_recurring-Recurs clockwork "every morning 9am" "UTC"
      (recurring "0 9 * * *" "2025-01-02T09:00:00+00:00") refl

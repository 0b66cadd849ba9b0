-- ===== src/Scheduler/Execute.antt =====
-- src/scheduler.rs, execute_schedule and write_context_file; gorp-core/src/utils.rs,
-- expand_slash_command; gorp-core/src/scheduler.rs, compute_next_cron_execution_in_tz.
pub mod Outcome
use gorp_rs.Base.{
  ℕ, String, Char, Bool, not, List, Option, none, some, Result, ok, err, Error, message, error_text,
  ◌==◌, if◌then◌else◌, ◌>>=◌, or_err,
}
use gorp_rs.Text.{
  Unicode, ◌^^◌, join, starts_with_char, trim, first_word, strip_prefix, after_first, drop_char,
}
use gorp_rs.Text.Decimal.{show_u32}
use gorp_rs.Database.{Db, Channel}
use gorp_rs.Session.Channels.{get_by_name}
use gorp_rs.Bus.{Broadcast, MessageBus, BusMessage, api, session, publish_inbound}
use gorp_rs.Scheduler.Store.{ScheduledPrompt, mark_executed, mark_failed}

-- What an execution takes from elsewhere: Unicode whitespace, the file system, JSON text, and the crates cron and chrono-tz (`upcoming` is the first time that a schedule
-- gives in a time zone, in UTC).
pub record Env : Type 1 where
  pub unicode : Unicode
  pub is_whitespace : Char → Bool
  pub State : Type 0
  pub exists : State → String → Bool
  pub read_to_string : State → String → Result String
  pub create_dir_all : String → State → State × Result (Unit {0})
  pub write : String → String → State → State × Result (Unit {0})
  pub context_json : Channel → String → Result String
  pub Schedule : Type 0
  pub Tz : Type 0
  pub parse_schedule : String → Option Schedule
  pub parse_tz : String → Option Tz
  pub upcoming : Schedule → Tz → Option String

module _ (env : Env) where
  open env use {
    unicode, is_whitespace, State, exists, read_to_string, create_dir_all, write, context_json,
    Schedule, Tz, parse_schedule, parse_tz, upcoming,
  }

  unfoldable pub compute_next_cron_execution_in_tz : String → String → Result String
  compute_next_cron_execution_in_tz cron_expr timezone = do
    schedule ← or_err (parse_schedule ("0 " ^^ cron_expr)) (message "Invalid cron expression")
    tz ← or_err (parse_tz timezone) (message "Invalid timezone")
    or_err (upcoming schedule tz) (message "Could not compute next execution time")

  -- The YAML front matter between `---` marks is dropped.
  unfoldable pub strip_front_matter : String → String
  unfolding strip_prefix after_first trim
  strip_front_matter content = elim (strip_prefix content "---") [
    | none ↦ content
    | some stripped ↦ elim (after_first stripped "---") [
      | none ↦ content
      | some rest ↦ trim is_whitespace rest
    ]
  ]

  abbrev pub command_path : String → String → String
  command_path workspace_dir command_name =
      join (join (join workspace_dir ".claude") "commands") (command_name ^^ ".md")

  unfoldable pub expand_slash_command : State → String → String → Result String
  unfolding strip_front_matter trim first_word starts_with_char drop_char join
  expand_slash_command st prompt workspace_dir =
      let trimmed = trim is_whitespace prompt in
      let command_name = first_word is_whitespace (drop_char trimmed) in
      let path = command_path workspace_dir command_name in
      if not (starts_with_char trimmed b'/')
      then ok prompt
      else if command_name == ""
      then ok prompt
      else if not (exists st path)
      then err
          (message ("Slash command '" ^^ command_name ^^ "' not found. Expected file: " ^^ path))
      else elim (read_to_string st path) [
        | err e ↦ err (message ("Failed to read command file: " ^^ error_text e))
        | ok content ↦ ok (strip_front_matter content)
      ]

  -- A failure is logged and ignored.
  unfoldable pub write_context_file : Channel → String → State → State
  unfolding join
  write_context_file channel now st =
      let dir = join channel.directory ".gorp" in
      let made = create_dir_all dir st in
      elim made.1 [
        | err e ↦ made.0
        | ok _ ↦ elim (context_json channel now) [
          | err e ↦ made.0
          | ok text ↦ (write (join dir "context.json") text made.0).0
        ]
      ]

  module _ (b : Broadcast) where
    abbrev pub World : Type 0
    World = Db × MessageBus b × State

    abbrev pub schedule_message : ScheduledPrompt → String → String → BusMessage
    schedule_message schedule prompt now = record {
      id = "sched-" ^^ schedule.id ^^ "-" ^^ show_u32 schedule.execution_count;
      source = api "scheduler";
      session_target = session schedule.channel_name;
      sender = if schedule.created_by == "" then "scheduler" else schedule.created_by;
      body = prompt;
      timestamp = now;
    }

    abbrev fail : ScheduledPrompt → String → World → World
    fail schedule error (db, bus, st) = ((mark_failed schedule.id error db).0, bus, st)

    -- The next time of a recurring schedule, or the failure to compute it.
    unfoldable pub reschedule : String → ScheduledPrompt → Result String → World → World
    unfolding mark_executed mark_failed
    reschedule now schedule (ok next) (db, bus, st) =
        ((mark_executed schedule.id (some next) now db).0, bus, st)
    reschedule now schedule (err e) w =
        fail schedule ("Failed to compute next execution: " ^^ error_text e) w

    unfoldable pub finish_with : String → String → ScheduledPrompt → Option String → World → World
    unfolding reschedule compute_next_cron_execution_in_tz mark_executed
    finish_with timezone now schedule none (db, bus, st) =
        ((mark_executed schedule.id none now db).0, bus, st)
    finish_with timezone now schedule (some cron_expr) w =
        reschedule now schedule (compute_next_cron_execution_in_tz cron_expr timezone) w

    -- The end of an execution, after the message is published.
    unfoldable pub finish : String → String → ScheduledPrompt → World → World
    unfolding finish_with
    finish timezone now schedule w = finish_with timezone now schedule schedule.cron_expression w

    -- The prompt is expanded: the message is published.
    unfoldable pub publish_prompt :
        String → String → ScheduledPrompt → Result String → World → World
    unfolding finish publish_inbound mark_failed
    publish_prompt timezone now schedule (ok prompt) (db, bus, st) =
        finish timezone now schedule
          (db, publish_inbound b bus (schedule_message schedule prompt now), st)
    publish_prompt timezone now schedule (err e) w = fail schedule (error_text e) w

    -- The channel is looked up: context file, slash command, message.
    unfoldable pub run_in :
        String → String → ScheduledPrompt → Result (Option Channel) → World → World
    unfolding write_context_file expand_slash_command publish_prompt mark_failed
    run_in timezone now schedule (err e) w = fail schedule (error_text e) w
    run_in timezone now schedule (ok none) w = fail schedule "Channel no longer exists" w
    run_in timezone now schedule (ok (some channel)) (db, bus, st) =
        let st' = write_context_file channel now st in
        publish_prompt timezone now schedule
          (expand_slash_command st' schedule.prompt channel.directory) (db, bus, st')

    -- `timezone` is the configured one, `now` the time of the execution.
    unfoldable pub execute_schedule : String → String → ScheduledPrompt → World → World
    unfolding run_in get_by_name
    execute_schedule timezone now schedule (db, bus, st) =
        run_in timezone now schedule (get_by_name unicode schedule.channel_name db).1 (db, bus, st)

-- ===== src/Scheduler/Store.antt =====
-- gorp-core/src/scheduler.rs, lines 351-756: SchedulerStore, over the shared database. Times are
-- RFC 3339 texts, as they are stored and compared.
pub mod Reads
pub mod Claims
pub mod Lifecycle
pub mod Lists
use gorp_rs.Base.{
  ℕ, suc, ◌+◌, String, Bool, true, false, ◌&&◌, ◌==◌, List, [], ◌∷◌, Option, none, some, Result, ok,
  err, Error, storage, foreign_key_violation, collect, has_key, ltb, not, if◌then◌else◌,
  ◌>>=◌ as bind, any,
}
use gorp_rs.Sql.{update, affected, select, delete, query_row, insert}
use gorp_rs.Sql.Order.{order_by, text_le}
use gorp_rs.Database.{Db, ScheduleRow, Op, ◌>>=◌, ◌>>◌, return, execute, query}
use gorp_rs.Scheduler.Status.{ScheduleStatus, active, executing, to_string, from_str}

pub record ScheduledPrompt : Type 0 where
  pub id : String
  pub channel_name : String
  pub room_id : String
  pub prompt : String
  pub created_by : String
  pub created_at : String
  pub execute_at : Option String
  pub cron_expression : Option String
  pub last_executed_at : Option String
  pub next_execution_at : String
  pub status : ScheduleStatus
  pub error_message : Option String
  pub execution_count : ℕ

abbrev pub schedule_row : ScheduledPrompt → ScheduleRow
schedule_row s = record {
  id = s.id;
  channel_name = s.channel_name;
  room_id = s.room_id;
  prompt = s.prompt;
  created_by = s.created_by;
  created_at = s.created_at;
  execute_at = s.execute_at;
  cron_expression = s.cron_expression;
  last_executed_at = s.last_executed_at;
  next_execution_at = s.next_execution_at;
  status = to_string s.status;
  error_message = s.error_message;
  execution_count = s.execution_count;
}

-- `row.get` of the counter into an i32, which is never negative here.
abbrev pub i32_limit : ℕ
i32_limit = 2147483648

-- `.parse().unwrap_or(ScheduleStatus::Active)`
unfoldable pub status_of : String → ScheduleStatus
status_of s = elim (from_str s) [ ok t ↦ t | err e ↦ active ]

abbrev pub schedule_of : ScheduleStatus → Option String → ScheduleRow → ScheduledPrompt
schedule_of status error_message r = record {
  id = r.id;
  channel_name = r.channel_name;
  room_id = r.room_id;
  prompt = r.prompt;
  created_by = r.created_by;
  created_at = r.created_at;
  execute_at = r.execute_at;
  cron_expression = r.cron_expression;
  last_executed_at = r.last_executed_at;
  next_execution_at = r.next_execution_at;
  status = status;
  error_message = error_message;
  execution_count = r.execution_count;
}

abbrev pub count_out_of_range : Error
count_out_of_range = storage "execution_count is no i32"

-- The closure of `get_by_id`, `list_all`, `list_by_room` and `list_by_channel`.
unfoldable pub read_row : ScheduleRow → Result ScheduledPrompt
read_row r =
    if ltb r.execution_count i32_limit
    then ok (schedule_of (status_of r.status) r.error_message r)
    else err count_out_of_range

-- The closure of `claim_due_schedules`: the claim token is cleared.
unfoldable pub read_claimed : ScheduleRow → Result ScheduledPrompt
read_claimed r =
    if ltb r.execution_count i32_limit
    then ok (schedule_of executing none r)
    else err count_out_of_range

-- FOREIGN KEY (channel_name) REFERENCES channels(channel_name).
abbrev pub has_channel : String → Db → Bool
has_channel name db =
    if db.foreign_keys then has_key (λ c. c.channel_name) name db.channels else true

unfoldable pub create_schedule : ScheduledPrompt → Op (Unit {0})
create_schedule s = execute λ db.
    bind
      (insert (has_key (λ r. r.id) s.id db.scheduled_prompts) (schedule_row s) db.scheduled_prompts)
      λ rows.
        if has_channel s.channel_name db
        then ok (record db { scheduled_prompts = rows })
        else err foreign_key_violation

-- WHERE status = 'active' AND next_execution_at <= now.
unfoldable pub is_due : String → ScheduleRow → Bool
is_due now r = r.status == "active" && text_le r.next_execution_at now

-- SET status = 'executing', error_message = now: the time is the claim token.
abbrev pub mark_claimed : String → ScheduleRow → ScheduleRow
mark_claimed now r = record r { status = "executing"; error_message = some now }

abbrev pub is_text : Option String → String → Bool
is_text none t = false
is_text (some s) t = s == t

-- WHERE status = 'executing' AND error_message = now.
abbrev pub is_claimed : String → ScheduleRow → Bool
is_claimed now r = r.status == "executing" && is_text r.error_message now

unfoldable pub claim_due_schedules : String → Op (List ScheduledPrompt)
claim_due_schedules now_str = do
  execute λ db. ok (record db {
    scheduled_prompts = update (is_due now_str) (mark_claimed now_str) db.scheduled_prompts;
  })
  query λ db. collect read_claimed (select (is_claimed now_str) db.scheduled_prompts)

-- An UPDATE of the row with an ID.
abbrev pub by_id : String → ScheduleRow → Bool
by_id id r = r.id == id

abbrev pub update_schedule : (ScheduleRow → Bool) → (ScheduleRow → ScheduleRow) → Op (Unit {0})
update_schedule p f =
    execute λ db. ok (record db { scheduled_prompts = update p f db.scheduled_prompts })

abbrev pub executed : String → Option String → ScheduleRow → ScheduleRow
executed now (some next) r = record r {
  last_executed_at = some now;
  next_execution_at = next;
  status = "active";
  execution_count = r.execution_count + 1;
  error_message = none;
}
executed now none r = record r {
  last_executed_at = some now;
  status = "completed";
  execution_count = r.execution_count + 1;
  error_message = none;
}

-- `now` is the time of the call.
unfoldable pub mark_executed : String → Option String → String → Op (Unit {0})
mark_executed id next_execution now = update_schedule (by_id id) (executed now next_execution)

unfoldable pub mark_failed : String → String → Op (Unit {0})
mark_failed id error =
    update_schedule (by_id id) (λ r. record r { status = "failed"; error_message = some error })

-- An UPDATE that reports whether it changed a row.
unfoldable pub update_reporting : (ScheduleRow → Bool) → (ScheduleRow → ScheduleRow) → Op Bool
update_reporting p f db =
    (update_schedule p f >> return (ltb 0 (affected p db.scheduled_prompts))) db

unfoldable pub delete_schedule : String → Op Bool
delete_schedule id db =
    (execute (λ d. ok (record d { scheduled_prompts = delete (by_id id) d.scheduled_prompts }))
        >> return (ltb 0 (affected (by_id id) db.scheduled_prompts)))
      db

unfoldable pub pause_schedule : String → Op Bool
unfolding update_reporting
pause_schedule id =
    update_reporting (λ r. r.id == id && r.status == "active") (λ r. record r { status = "paused" })

unfoldable pub resume_schedule : String → Op Bool
unfolding update_reporting
resume_schedule id =
    update_reporting (λ r. r.id == id && r.status == "paused") (λ r. record r { status = "active" })

unfoldable pub cancel_schedule : String → Op Bool
unfolding update_reporting
cancel_schedule id = update_reporting (by_id id) (λ r. record r { status = "cancelled" })

abbrev pub read_option : Option ScheduleRow → Result (Option ScheduledPrompt)
read_option none = ok none
read_option (some r) = bind (read_row r) (λ s. ok (some s))

-- `get_by_id` and its alias `get_schedule`.
unfoldable pub get_by_id : String → Op (Option ScheduledPrompt)
get_by_id id = query λ db. read_option (query_row (by_id id) db.scheduled_prompts)

-- ORDER BY next_execution_at ASC.
abbrev listed : (ScheduleRow → Bool) → Op (List ScheduledPrompt)
listed p =
    query
      λ db. collect read_row (order_by (λ r. r.next_execution_at) (select p db.scheduled_prompts))

unfoldable pub list_all : Op (List ScheduledPrompt)
list_all = query λ db. collect read_row (order_by (λ r. r.next_execution_at) db.scheduled_prompts)

unfoldable pub list_by_room : String → Op (List ScheduledPrompt)
list_by_room room_id = listed λ r. r.room_id == room_id

unfoldable pub list_by_channel : String → Op (List ScheduledPrompt)
list_by_channel channel_name = listed λ r. r.channel_name == channel_name

-- ===== src/Session/Tasks.antt =====
-- gorp-core/src/session.rs, lines 50-106 and 903-1173: dispatch events and dispatch tasks.
pub mod Status
pub mod Claims
pub mod Updates
pub mod Events
use mathlib.Core.List.{reverse}
use gorp_rs.Base.{
  ℕ, String, Bool, true, false, ◌&&◌, ◌==◌, List, Option, none, some, Result, ok, err, Error,
  message, storage, collect, has_key, ltb, is_some, if◌then◌else◌, ◌>>=◌ as bind, map,
}
use gorp_rs.Sql.{update, affected, select, query_row, insert}
use gorp_rs.Sql.Order.{order_by}
use gorp_rs.Database.{Db, EventRow, TaskRow, Op, ◌>>=◌, ◌>>◌, return, execute, query, lift}

pub data DispatchTaskStatus : Type 0 where
  pending in_progress completed failed : DispatchTaskStatus

-- `Display`
unfoldable pub to_string : DispatchTaskStatus → String
to_string pending = "pending"
to_string in_progress = "in_progress"
to_string completed = "completed"
to_string failed = "failed"

-- `FromStr`
unfoldable pub from_str : String → Result DispatchTaskStatus
from_str s =
    if s == "pending"
    then ok pending
    else if s == "in_progress"
    then ok in_progress
    else if s == "completed"
    then ok completed
    else if s == "failed"
    then ok failed
    else err (message "Unknown task status")

pub record DispatchTask : Type 0 where
  pub id : String
  pub target_room_id : String
  pub prompt : String
  pub status : DispatchTaskStatus
  pub created_at : String
  pub completed_at : Option String
  pub result_summary : Option String

abbrev pub task_row : DispatchTask → TaskRow
task_row t = record {
  id = t.id;
  target_room_id = t.target_room_id;
  prompt = t.prompt;
  status = to_string t.status;
  created_at = t.created_at;
  completed_at = t.completed_at;
  result_summary = t.result_summary;
}

-- The closure of `get_dispatch_task`, and `parse_task_row`: an unknown status is an error.
unfoldable pub parse_task_row : TaskRow → Result DispatchTask
unfolding from_str
parse_task_row r = bind (from_str r.status) λ s. ok (record {
  id = r.id;
  target_room_id = r.target_room_id;
  prompt = r.prompt;
  status = s;
  created_at = r.created_at;
  completed_at = r.completed_at;
  result_summary = r.result_summary;
})

abbrev pub new_task : String → String → String → String → DispatchTask
new_task target_room_id prompt uuid now = record {
  id = uuid;
  target_room_id = target_room_id;
  prompt = prompt;
  status = pending;
  created_at = now;
  completed_at = none;
  result_summary = none;
}

unfoldable pub create_dispatch_task : String → String → String → String → Op DispatchTask
unfolding to_string
create_dispatch_task target_room_id prompt uuid now = do
  execute λ db.
      bind
        (insert (has_key (λ r. r.id) uuid db.dispatch_tasks)
          (task_row (new_task target_room_id prompt uuid now)) db.dispatch_tasks)
        λ rows. ok (record db { dispatch_tasks = rows })
  return (new_task target_room_id prompt uuid now)

abbrev pub parsed_row : Option TaskRow → Result (Option DispatchTask)
parsed_row none = ok none
parsed_row (some r) = bind (parse_task_row r) (λ t. ok (some t))

unfoldable pub get_dispatch_task : String → Op (Option DispatchTask)
unfolding parse_task_row
get_dispatch_task id = query λ db. parsed_row (query_row (λ r. r.id == id) db.dispatch_tasks)

abbrev pub is_terminal : DispatchTaskStatus → Bool
is_terminal completed = true
is_terminal failed = true
is_terminal _ = false

unfoldable pub update_dispatch_task_status :
    String → DispatchTaskStatus → Option String → String → Op (Unit {0})
unfolding to_string
update_dispatch_task_status id status result_summary now = execute λ db. ok (record db {
  dispatch_tasks =
      update (λ r. r.id == id)
        (λ r. record r {
          status = to_string status;
          completed_at = if is_terminal status then some now else none;
          result_summary = result_summary;
        })
        db.dispatch_tasks;
})

abbrev pub claimable : String → DispatchTaskStatus → TaskRow → Bool
claimable id expected r = r.id == id && r.status == to_string expected

-- Compare and swap: whether a row was updated.
unfoldable pub claim_dispatch_task : String → DispatchTaskStatus → DispatchTaskStatus → Op Bool
unfolding to_string
claim_dispatch_task id expected_status new_status db =
    (execute (λ d. ok (record d {
      dispatch_tasks =
          update (claimable id expected_status) (λ r. record r { status = to_string new_status })
            d.dispatch_tasks;
    }))
        >> return (ltb 0 (affected (claimable id expected_status) db.dispatch_tasks)))
      db

abbrev pub with_status : Option DispatchTaskStatus → TaskRow → Bool
with_status none r = true
with_status (some s) r = r.status == to_string s

-- ORDER BY created_at DESC.
unfoldable pub list_dispatch_tasks : Option DispatchTaskStatus → Op (List DispatchTask)
unfolding to_string parse_task_row
list_dispatch_tasks status = query λ db.
    collect parse_task_row
      (reverse (order_by (λ r. r.created_at) (select (with_status status) db.dispatch_tasks)))

-- ===== src/Scheduler/Status.antt =====
-- gorp-core/src/scheduler.rs, lines 38-76: the status of a schedule and its text.
use gorp_rs.Base.{
  String, ◌≡◌, ◌↔◌, refl, Result, ok, err, message, ◌==◌, eq_iff, arith, if◌then◌else◌,
}

pub data ScheduleStatus : Type 0 where
  active paused completed failed executing cancelled : ScheduleStatus

-- `Display`
unfoldable pub to_string : ScheduleStatus → String
to_string active = "active"
to_string paused = "paused"
to_string completed = "completed"
to_string failed = "failed"
to_string executing = "executing"
to_string cancelled = "cancelled"

-- `FromStr`
unfoldable pub from_str : String → Result ScheduleStatus
from_str s =
    if s == "active"
    then ok active
    else if s == "paused"
    then ok paused
    else if s == "completed"
    then ok completed
    else if s == "failed"
    then ok failed
    else if s == "executing"
    then ok executing
    else if s == "cancelled"
    then ok cancelled
    else err (message "Unknown schedule status")

pub from_str-to_string : (t : ScheduleStatus) → from_str (to_string t) ≡ ok t
unfolding from_str to_string
from_str-to_string active = refl
from_str-to_string _ = refl

from_str_sound : (s : String) (t : ScheduleStatus) → from_str s ≡ ok t → s ≡ to_string t
unfolding from_str to_string
from_str_sound s active h = ground (
  arith,
  eq_iff s "active",
  eq_iff s "paused",
  eq_iff s "completed",
  eq_iff s "failed",
  eq_iff s "executing",
  eq_iff s "cancelled",
)
from_str_sound s _ h = ground (
  arith,
  eq_iff s "active",
  eq_iff s "paused",
  eq_iff s "completed",
  eq_iff s "failed",
  eq_iff s "executing",
  eq_iff s "cancelled",
)

-- Reading a status accepts exactly the texts that printing one gives, and gives that status back.
pub schedule_status_iff :
    (s : String) (t : ScheduleStatus) → (from_str s ≡ ok t) ↔ (s ≡ to_string t)
schedule_status_iff s t = (from_str_sound s t, λ e. rw e (from_str-to_string t))

-- ===== src/Tests/Schedules.antt =====
-- The schedules of gorp-core/src/scheduler.rs and src/scheduler.rs on concrete rows.
use gorp_rs.Sql.Order.{order_by, text_le}
use mathlib.Core.Option
use gorp_rs.Base.{
  String, true, false, ◌≡◌, ◌≢◌, ◌↔◌, refl, List, [], ◌∷◌, none, some, ok, arith, All, has_key,
  ◌==◌, eq_iff,
}
use gorp_rs.Sql.{select, update}
use gorp_rs.Database.{execute, query}
use gorp_rs.Bus.{MessageBus, new}
use gorp_rs.Scheduler.Status.{active, executing, from_str, to_string, schedule_status_iff}
use gorp_rs.Scheduler.Store.{
  ScheduledPrompt, cancel_schedule, claim_due_schedules, create_schedule, get_by_id, is_due,
  list_all, list_by_channel, list_by_room, mark_executed, pause_schedule, read_claimed, read_row,
  resume_schedule, schedule_of, status_of,
}
use gorp_rs.Scheduler.Store.Reads.{row_of, get_by_id-create}
use gorp_rs.Scheduler.Store.Claims.{claimed_rows, claim_due-exact, claim-claim_apart}
use gorp_rs.Scheduler.Store.Lifecycle.{cancel_schedule-mark_executed, pause-resume_row}
use gorp_rs.Scheduler.Store.Lists.{Lists, list-Lists}
use gorp_rs.Scheduler.Execute.{execute_schedule}
use gorp_rs.Session.Channels.{get_by_name}
use gorp_rs.Scheduler.Execute.Outcome.{Ends, execute_schedule-Ends}
use gorp_rs.Tests.{wire, clockwork, daily, once, stored_db}

status_text_example : (from_str "active" ≡ ok active) ↔ ("active" ≡ to_string active)
status_text_example = schedule_status_iff "active" active

abbrev bus : MessageBus wire
bus = new wire 16

abbrev claimed : ScheduledPrompt
claimed = schedule_of executing none daily

executed_example :
    Ends clockwork wire "UTC" "now" claimed daily
      (get_by_name clockwork.unicode claimed.channel_name stored_db).1
      []
      bus
      (execute_schedule clockwork wire "UTC" "now" claimed (stored_db, bus, []))
executed_example =
    execute_schedule-Ends clockwork wire "UTC" "now" claimed daily stored_db bus [] refl refl

-- Between the times of the two schedules, and after both.
abbrev monday : String
monday = "2025-01-02T08:00:00+00:00"

abbrev later : String
later = "2025-01-05T08:00:00+00:00"

times_differ : monday ≢ later
times_differ e = absurd (cc ((eq_iff monday later).1 e))

claim_example : claim_due_schedules monday stored_db ≡ (
  record stored_db { scheduled_prompts = claimed_rows monday (daily ∷ once ∷ []) },
  ok (claimed ∷ []),
)
unfolding is_due text_le
claim_example = claim_due-exact monday stored_db refl refl (omega arith, (omega arith, tt))

apart_example :
    All
      (λ s. has_key (λ t. t.id) s.id (claimed ∷ []) ≡ false)
      (schedule_of executing none once ∷ [])
unfolding claim_due_schedules execute query update is_due text_le read_claimed
apart_example =
    claim-claim_apart monday later stored_db (claimed ∷ []) (schedule_of executing none once ∷ [])
      refl (refl, (refl, tt)) (omega arith, (omega arith, tt)) refl refl times_differ refl refl

abbrev new_schedule : ScheduledPrompt
new_schedule = schedule_of active none (record daily { id = "n" })

stored_example :
    ((create_schedule new_schedule stored_db).1 ≡ ok tt)
    × ((get_by_id "n" (create_schedule new_schedule stored_db).0).1 ≡ ok (some new_schedule))
stored_example = get_by_id-create new_schedule stored_db refl refl refl (omega arith)

cancel_example :
    ((cancel_schedule "d" stored_db).1 ≡ ok true)
    × (Option.map (λ s. s.status) (row_of "d" (cancel_schedule "d" stored_db).0) ≡ some "cancelled")
    × (Option.map
          (λ s. s.status)
          (row_of "d" (mark_executed "d" (some later) monday (cancel_schedule "d" stored_db).0).0)
        ≡ some "active")
    × (Option.map
          (λ s. s.next_execution_at)
          (row_of "d" (mark_executed "d" (some later) monday (cancel_schedule "d" stored_db).0).0)
        ≡ some later)
cancel_example = cancel_schedule-mark_executed "d" later monday stored_db daily refl refl

pause_example :
    ((pause_schedule "d" stored_db).1 ≡ ok true)
    × (row_of "d" (pause_schedule "d" stored_db).0 ≡ some (record daily { status = "paused" }))
    × ((resume_schedule "d" stored_db).1 ≡ ok false)
    × (row_of "d" (resume_schedule "d" stored_db).0 ≡ some daily)
pause_example = pause-resume_row "d" stored_db daily refl (refl, (refl, tt)) refl

abbrev both : List ScheduledPrompt
both = schedule_of active none daily ∷ schedule_of active none once ∷ []

list_example :
    Lists (daily ∷ once ∷ []) both
    × Lists (select (λ r. r.room_id == "!pa") (daily ∷ once ∷ [])) both
    × Lists (select (λ r. r.channel_name == "dev") (daily ∷ once ∷ [])) []
unfolding list_all query order_by text_le read_row status_of from_str list_by_room list_by_channel
list_example = list-Lists stored_db "!pa" "dev" both both [] refl refl refl

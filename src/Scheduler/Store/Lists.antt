-- ===== src/Scheduler/Store/Lists.antt =====
-- gorp-core/src/scheduler.rs, list_all, list_by_room and list_by_channel: their contents and order.
use mathlib.Core.List.{Perm}
use mathlib.Core.List.Perm
use gorp_rs.Base.{
  String, true, ◌≡◌, List, [], ◌∷◌, ok, ◌==◌, arith, map, All, collect, Result-cases, inl, inr,
}
use gorp_rs.Sql.{select}
use gorp_rs.Sql.Order.{order_by, order_by-Sorted, order_by-perm, Sorted, text_le}
use gorp_rs.Database.{Db, ScheduleRow, query}
use gorp_rs.Scheduler.Store.{
  ScheduledPrompt, schedule_of, status_of, read_row, list_all, list_by_room, list_by_channel,
}

-- The schedule that a row stands for; a status that cannot be read counts as active.
abbrev pub prompt_of : ScheduleRow → ScheduledPrompt
prompt_of r = schedule_of (status_of r.status) r.error_message r

collect-read_row :
    (rows : List ScheduleRow) (xs : List ScheduledPrompt)
    → collect read_row rows ≡ ok xs
    → xs ≡ map prompt_of rows
unfolding read_row
collect-read_row [] xs h = ground arith
collect-read_row (r ∷ rows) xs h = elim (Result-cases (collect read_row rows)) [
  | inl (ys, e) ↦ ground (arith, collect-read_row rows ys e)
  | inr (f, e) ↦ ground arith
]

Sorted-prompts :
    (rows : List ScheduleRow)
    → Sorted (λ r. r.next_execution_at) rows
    → Sorted (λ s. s.next_execution_at) (map prompt_of rows)
Sorted-prompts [] h = tt
Sorted-prompts (r ∷ rows) h = (go r rows h.0, Sorted-prompts rows h.1)
  where
    go :
        (r : ScheduleRow) (rows : List ScheduleRow)
        → All (λ s. text_le r.next_execution_at s.next_execution_at ≡ true) rows
        → All (λ s. text_le r.next_execution_at s.next_execution_at ≡ true) (map prompt_of rows)
    go r [] h = tt
    go r (s ∷ rows) h = (h.0, go r rows h.1)

abbrev pub Lists : List ScheduleRow → List ScheduledPrompt → Type 0
Lists rows xs = Sorted (λ s. s.next_execution_at) xs × Perm xs (map prompt_of rows)

ordered-Lists :
    (rows : List ScheduleRow) (xs : List ScheduledPrompt)
    → collect read_row (order_by (λ r. r.next_execution_at) rows) ≡ ok xs
    → Lists rows xs
ordered-Lists rows xs h =
    let key = λ (r : ScheduleRow). r.next_execution_at in
    rw (collect-read_row (order_by key rows) xs h) (
      Sorted-prompts (order_by key rows) (order_by-Sorted key rows),
      Perm.map prompt_of (order_by-perm key rows),
    )

-- A list of schedules that is returned holds each schedule of the table, of the room or of the channel
-- once for each of its rows, and no other, by the time of the next execution.
pub list-Lists :
    (db : Db) (room channel : String) (xs ys zs : List ScheduledPrompt)
    → (list_all db).1 ≡ ok xs
    → (list_by_room room db).1 ≡ ok ys
    → (list_by_channel channel db).1 ≡ ok zs
    → Lists db.scheduled_prompts xs
      × Lists (select (λ r. r.room_id == room) db.scheduled_prompts) ys
      × Lists (select (λ r. r.channel_name == channel) db.scheduled_prompts) zs
unfolding list_all list_by_room list_by_channel query
list-Lists db room channel xs ys zs hx hy hz = (
  ordered-Lists db.scheduled_prompts xs (ground arith),
  ordered-Lists (select (λ r. r.room_id == room) db.scheduled_prompts) ys (ground arith),
  ordered-Lists (select (λ r. r.channel_name == channel) db.scheduled_prompts) zs (ground arith),
)

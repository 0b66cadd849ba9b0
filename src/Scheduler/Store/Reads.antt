-- ===== src/Scheduler/Store/Reads.antt =====
-- gorp-core/src/scheduler.rs, get_by_id: what it reads after a statement on `scheduled_prompts`.
use mathlib.Core.Option
use gorp_rs.Base.{
  ◌<◌, String, Bool, true, false, ◌≡◌, refl, ap, ◌∙◌, List, [], ◌∷◌, ◌++◌, Option, none, some, ok,
  ◌==◌, eq_refl, arith, has_key, first-append, lt→ltb,
}
use gorp_rs.Sql.{update, query_row}
use gorp_rs.Sql.Laws.{first-update, updated, has_key_of_first}
use gorp_rs.Database.{Db, ScheduleRow, query, execute_ok}
use gorp_rs.Scheduler.Status.{from_str-to_string}
use gorp_rs.Scheduler.Store.{
  ScheduledPrompt, schedule_row, schedule_of, status_of, read_row, read_option, get_by_id, by_id,
  create_schedule, has_channel, i32_limit, update_schedule,
}

abbrev pub with_rows : List ScheduleRow → Db → Db
with_rows rows db = record db { scheduled_prompts = rows }

abbrev pub row_of : String → Db → Option ScheduleRow
row_of id db = query_row (by_id id) db.scheduled_prompts

pub get_by_id_eq :
    (id : String) (db : Db) → db.fault ≡ none → (get_by_id id db).1 ≡ read_option (row_of id db)
unfolding get_by_id query
get_by_id_eq id db sound = ground arith

pub update_schedule_eq :
    (p : ScheduleRow → Bool) (f : ScheduleRow → ScheduleRow) (db : Db)
    → db.fault ≡ none
    → update_schedule p f db ≡ (with_rows (update p f db.scheduled_prompts) db, ok tt)
update_schedule_eq p f db sound = execute_ok _ db _ sound refl

-- The row with an ID after an UPDATE that keeps the IDs.
pub row_of-update :
    (p : ScheduleRow → Bool) (f : ScheduleRow → ScheduleRow) (id : String) (db : Db)
    → ((r : ScheduleRow) → (f r).id ≡ r.id)
    → row_of id (with_rows (update p f db.scheduled_prompts) db)
      ≡ Option.map (updated p f) (row_of id db)
row_of-update p f id db keeps =
    first-update p f (by_id id) (λ r. ap (λ i. i == id) (keeps r)) db.scheduled_prompts

pub row_of_id : (id : String) (db : Db) {r : ScheduleRow} → row_of id db ≡ some r → r.id ≡ id
row_of_id id db e = has_key_of_first (λ r. r.id) id db.scheduled_prompts e

-- The row with an ID after an UPDATE of the row with that ID.
pub row_of-update_id :
    (f : ScheduleRow → ScheduleRow) (id : String) (db : Db) (r : ScheduleRow)
    → ((r : ScheduleRow) → (f r).id ≡ r.id)
    → row_of id db ≡ some r
    → row_of id (with_rows (update (by_id id) f db.scheduled_prompts) db) ≡ some (f r)
row_of-update_id f id db r keeps e =
    let hit : (r.id == id) ≡ true = ap (λ i. i == id) (row_of_id id db e) ∙ eq_refl id in
    rw (row_of-update (by_id id) f id db keeps, e) (ground (arith, hit))

pub read_row_in_range :
    (r : ScheduleRow)
    → r.execution_count < i32_limit
    → read_row r ≡ ok (schedule_of (status_of r.status) r.error_message r)
unfolding read_row
read_row_in_range r h = rw (lt→ltb r.execution_count i32_limit h)

status_of-schedule_row : (s : ScheduledPrompt) → status_of (schedule_row s).status ≡ s.status
unfolding status_of
status_of-schedule_row s = rw (from_str-to_string s.status, status_of)

create_schedule_eq :
    (s : ScheduledPrompt) (db : Db)
    → db.fault ≡ none
    → has_key (λ r. r.id) s.id db.scheduled_prompts ≡ false
    → has_channel s.channel_name db ≡ true
    → create_schedule s db ≡ (with_rows (db.scheduled_prompts ++ schedule_row s ∷ []) db, ok tt)
unfolding create_schedule
create_schedule_eq s db sound fresh known =
    execute_ok _ db (with_rows (db.scheduled_prompts ++ schedule_row s ∷ []) db) sound
      (rw (fresh, known))

-- A schedule with a fresh ID, a known channel and a counter that is an i32 is stored over a sound
-- connection, and read back as it was given.
pub get_by_id-create :
    (s : ScheduledPrompt) (db : Db)
    → db.fault ≡ none
    → has_key (λ r. r.id) s.id db.scheduled_prompts ≡ false
    → has_channel s.channel_name db ≡ true
    → s.execution_count < i32_limit
    → ((create_schedule s db).1 ≡ ok tt)
      × ((get_by_id s.id (create_schedule s db).0).1 ≡ ok (some s))
get_by_id-create s db sound fresh known range = rw (create_schedule_eq s db sound fresh known) (
  refl,
  rw (
    get_by_id_eq s.id (with_rows (db.scheduled_prompts ++ schedule_row s ∷ []) db) sound,
    first-append (by_id s.id) db.scheduled_prompts (schedule_row s ∷ []) fresh,
    eq_refl s.id,
    read_row_in_range (schedule_row s) range,
    status_of-schedule_row s,
  ),
)

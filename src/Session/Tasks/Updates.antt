-- ===== src/Session/Tasks/Updates.antt =====
-- Creating, updating and reading tasks, gorp-core/src/session.rs, lines 979-1087.
use gorp_rs.Base.{
  String, true, false, ◌≡◌, refl, Option, none, some, ok, ◌==◌, eq_refl, arith, [], ◌∷◌, ◌++◌,
  has_key, if◌then◌else◌, first-append, Bool-cases, inl, inr, ap, ◌∙◌,
}
use mathlib.Core.Option
use gorp_rs.Sql.{update, query_row}
use gorp_rs.Sql.Laws.{first-update, updated, has_key_of_first}
use gorp_rs.Database.{Db, TaskRow, execute, execute_ok, query}
use gorp_rs.Session.Tasks.{
  DispatchTaskStatus, DispatchTask, to_string, parse_task_row, create_dispatch_task,
  get_dispatch_task, update_dispatch_task_status, new_task, is_terminal, parsed_row, task_row,
}
use gorp_rs.Session.Tasks.Status.{from_str-to_string}

abbrev pub with_task : DispatchTask → Db → Db
with_task t db = record db { dispatch_tasks = db.dispatch_tasks ++ task_row t ∷ [] }

create_dispatch_task_eq :
    (room prompt uuid now : String) (db : Db)
    → db.fault ≡ none
    → has_key (λ r. r.id) uuid db.dispatch_tasks ≡ false
    → create_dispatch_task room prompt uuid now db
      ≡ (with_task (new_task room prompt uuid now) db, ok (new_task room prompt uuid now))
unfolding create_dispatch_task execute
create_dispatch_task_eq room prompt uuid now db sound fresh = ground arith

get_dispatch_task_eq :
    (id : String) (db : Db)
    → db.fault ≡ none
    → (get_dispatch_task id db).1 ≡ parsed_row (query_row (λ r. r.id == id) db.dispatch_tasks)
unfolding get_dispatch_task query
get_dispatch_task_eq id db sound = ground arith

-- A task that is created over a sound connection is read back, when its ID is fresh.
pub get_dispatch_task-create :
    (room prompt uuid now : String) (db : Db)
    → db.fault ≡ none
    → has_key (λ r. r.id) uuid db.dispatch_tasks ≡ false
    → let (db', r) = create_dispatch_task room prompt uuid now db in
      (r ≡ ok (new_task room prompt uuid now))
      × ((get_dispatch_task uuid db').1 ≡ ok (some (new_task room prompt uuid now)))
unfolding parse_task_row to_string
get_dispatch_task-create room prompt uuid now db sound fresh =
    let t = new_task room prompt uuid now in
    rw (create_dispatch_task_eq room prompt uuid now db sound fresh) (
      refl,
      rw (
        get_dispatch_task_eq uuid (with_task t db) sound,
        first-append (λ r. r.id == uuid) db.dispatch_tasks (task_row t ∷ []) fresh,
        eq_refl uuid,
      ),
    )

-- What a status update does to a task: the new status and summary, and a time of completion exactly
-- if the status is a final one.
abbrev pub updated_task : DispatchTaskStatus → Option String → String → DispatchTask → DispatchTask
updated_task s summary now t = record t {
  status = s;
  completed_at = if is_terminal s then some now else none;
  result_summary = summary;
}

update_row : DispatchTaskStatus → Option String → String → TaskRow → TaskRow
update_row s summary now r = record r {
  status = to_string s;
  completed_at = if is_terminal s then some now else none;
  result_summary = summary;
}

update_row-id :
    (s : DispatchTaskStatus) (summary : Option String) (now : String) (r : TaskRow)
    → (update_row s summary now r).id ≡ r.id
unfolding update_row
update_row-id s summary now r = refl

abbrev with_update : String → DispatchTaskStatus → Option String → String → Db → Db
with_update id s summary now db = record db {
  dispatch_tasks = update (λ r. r.id == id) (update_row s summary now) db.dispatch_tasks;
}

update_eq :
    (id : String) (s : DispatchTaskStatus) (summary : Option String) (now : String) (db : Db)
    → db.fault ≡ none
    → update_dispatch_task_status id s summary now db ≡ (with_update id s summary now db, ok tt)
unfolding update_dispatch_task_status update_row
update_eq id s summary now db sound = execute_ok _ db _ sound refl

parse-update_row :
    (s : DispatchTaskStatus) (summary : Option String) (now : String) (r : TaskRow)
    (t : DispatchTask)
    → parse_task_row r ≡ ok t
    → parse_task_row (update_row s summary now r) ≡ ok (updated_task s summary now t)
unfolding parse_task_row update_row
parse-update_row s summary now r t h = rw (from_str-to_string s) (ground arith)

parsed_row-update :
    (id other : String) (s : DispatchTaskStatus) (summary : Option String) (now : String)
    (o : Option TaskRow) (before : Option DispatchTask)
    → ((r : TaskRow) → o ≡ some r → r.id ≡ other)
    → parsed_row o ≡ ok before
    → parsed_row (Option.map (updated (λ r. r.id == id) (update_row s summary now)) o)
      ≡ ok (Option.map (λ t. if other == id then updated_task s summary now t else t) before)
parsed_row-update id other s summary now none before k h = ground arith
parsed_row-update id other s summary now (some r) none k h = ground arith
parsed_row-update id other s summary now (some r) (some t) k h =
    let parsed : parse_task_row r ≡ ok t = ground arith in
    elim (Bool-cases (other == id)) [
      | inl e ↦
          let same : (r.id == id) ≡ true = ap (λ i. i == id) (k r refl) ∙ e in
          rw (e, same) (ground (arith, parse-update_row s summary now r t parsed))
      | inr e ↦
          let differs : (r.id == id) ≡ false = ap (λ i. i == id) (k r refl) ∙ e in
          rw (e, differs) (ground arith)
    ]

-- Reading a task after a status update, over a sound connection and when the task could be read
-- before: the updated task keeps its other fields and is completed at `now` exactly if the new
-- status is a final one; any other task reads as before.
pub get_dispatch_task-update :
    (id other : String) (s : DispatchTaskStatus) (summary : Option String) (now : String) (db : Db)
    (before : Option DispatchTask)
    → db.fault ≡ none
    → (get_dispatch_task other db).1 ≡ ok before
    → (get_dispatch_task other (update_dispatch_task_status id s summary now db).0).1
      ≡ ok (Option.map (λ t. if other == id then updated_task s summary now t else t) before)
get_dispatch_task-update id other s summary now db before sound h =
    rw
      (
        update_eq id s summary now db sound,
        get_dispatch_task_eq other (with_update id s summary now db) sound,
        first-update (λ r. r.id == id) (update_row s summary now) (λ r. r.id == other)
            (λ r. ap (λ i. i == other) (update_row-id s summary now r)) db.dispatch_tasks,
      )
      (parsed_row-update id other s summary now (query_row (λ r. r.id == other) db.dispatch_tasks)
        before (λ r e. has_key_of_first (λ r. r.id) other db.dispatch_tasks e)
        (rw (get_dispatch_task_eq other db sound) at h))

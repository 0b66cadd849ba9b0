-- ===== src/Scheduler/Store/Lifecycle.antt =====
-- gorp-core/src/scheduler.rs: how a schedule changes from one status to another.
use mathlib.Core.Option
use gorp_rs.Base.{
  String, Bool, true, false, ◌&&◌, ◌≡◌, refl, ap, ◌∙◌, List, [], ◌∷◌, Option, none, some, Result,
  ok, ◌==◌, eq_refl, eq_iff, arith, if◌then◌else◌, ltb, Bool-cases, inl, inr, first, has_key,
  Distinct,
}
use gorp_rs.Sql.{update, affected}
use gorp_rs.Database.{Db, ScheduleRow, execute}
use gorp_rs.Scheduler.Store.{
  by_id, executed, mark_executed, mark_failed, pause_schedule, resume_schedule, cancel_schedule,
  update_reporting,
}
use gorp_rs.Scheduler.Store.Reads.{
  with_rows, row_of, row_of-update, row_of-update_id, row_of_id, update_schedule_eq,
}

pub mark_executed_eq :
    (id : String) (next : Option String) (now : String) (db : Db)
    → db.fault ≡ none
    → mark_executed id next now db
      ≡ (with_rows (update (by_id id) (executed now next) db.scheduled_prompts) db, ok tt)
unfolding mark_executed
mark_executed_eq id next now db sound = update_schedule_eq (by_id id) (executed now next) db sound

abbrev pub failed_row : String → ScheduleRow → ScheduleRow
failed_row error r = record r { status = "failed"; error_message = some error }

pub mark_failed_eq :
    (id error : String) (db : Db)
    → db.fault ≡ none
    → mark_failed id error db
      ≡ (with_rows (update (by_id id) (failed_row error) db.scheduled_prompts) db, ok tt)
unfolding mark_failed
mark_failed_eq id error db sound = update_schedule_eq (by_id id) (failed_row error) db sound

pub executed-id :
    (now : String) (next : Option String) (r : ScheduleRow) → (executed now next r).id ≡ r.id
executed-id now none r = refl
executed-id now (some t) r = refl

abbrev cancelled_row : ScheduleRow → ScheduleRow
cancelled_row r = record r { status = "cancelled" }

affected-first :
    (id : String) (rows : List ScheduleRow) (r : ScheduleRow)
    → first (by_id id) rows ≡ some r
    → ltb 0 (affected (by_id id) rows) ≡ true
affected-first id [] r e = ground arith
affected-first id (x ∷ rows) r e = ground (arith, affected-first id rows r)

cancel_schedule_eq :
    (id : String) (db : Db) (r : ScheduleRow)
    → db.fault ≡ none
    → row_of id db ≡ some r
    → cancel_schedule id db
      ≡ (with_rows (update (by_id id) cancelled_row db.scheduled_prompts) db, ok true)
unfolding cancel_schedule execute
cancel_schedule_eq id db r sound e = ground (arith, affected-first id db.scheduled_prompts r e)

-- Cancelling a stored schedule while it is executed has no lasting effect: over a sound connection,
-- the end of the execution sets a recurring schedule active again, and due at its next time.
pub cancel_schedule-mark_executed :
    (id next now : String) (db : Db) (r : ScheduleRow)
    → db.fault ≡ none
    → row_of id db ≡ some r
    → let cancelled_db = (cancel_schedule id db).0 in
      let final_db = (mark_executed id (some next) now cancelled_db).0 in
      ((cancel_schedule id db).1 ≡ ok true)
      × (Option.map (λ s. s.status) (row_of id cancelled_db) ≡ some "cancelled")
      × (Option.map (λ s. s.status) (row_of id final_db) ≡ some "active")
      × (Option.map (λ s. s.next_execution_at) (row_of id final_db) ≡ some next)
cancel_schedule-mark_executed id next now db r sound e =
    let db1 = with_rows (update (by_id id) cancelled_row db.scheduled_prompts) db in
    let held = row_of-update_id cancelled_row id db r (λ s. refl) e in
    let done =
      row_of-update_id (executed now (some next)) id db1 (cancelled_row r) (λ s. refl) held in
    rw (cancel_schedule_eq id db r sound e) (
      refl,
      rw held,
      rw (mark_executed_eq id (some next) now db1 sound) (rw done),
      rw (mark_executed_eq id (some next) now db1 sound) (rw done),
    )

affected_none :
    (id : String) (q : ScheduleRow → Bool) (rows : List ScheduleRow)
    → has_key (λ r. r.id) id rows ≡ false
    → affected (λ r. r.id == id && q r) rows ≡ 0
affected_none id q [] h = refl
affected_none id q (x ∷ rows) h = ground (arith, affected_none id q rows)

-- With distinct IDs, the row count of an UPDATE by ID and a test tells the test of the row.
affected-test :
    (id : String) (q : ScheduleRow → Bool) (rows : List ScheduleRow) (r : ScheduleRow)
    → Distinct (λ s. s.id) rows
    → first (by_id id) rows ≡ some r
    → ltb 0 (affected (λ s. s.id == id && q s) rows) ≡ q r
affected-test id q [] r u e = ground arith
affected-test id q (x ∷ rows) r u e = elim (Bool-cases (x.id == id)) [
  | inl hit ↦
      let same : x ≡ r = ground arith in
      let rest = affected_none id q rows (rw (← (eq_iff x.id id).0 hit) u.0) in
      rw (hit, ← same) (ground (arith, rest))
  | inr miss ↦ rw miss (affected-test id q rows r u.1 (ground arith))
]

module _ (id : String) (q : ScheduleRow → Bool) (f : ScheduleRow → ScheduleRow)
    (keeps : (r : ScheduleRow) → (f r).id ≡ r.id) (db : Db) (r : ScheduleRow)
    (sound : db.fault ≡ none) (ids : Distinct (λ s. s.id) db.scheduled_prompts)
    (e : row_of id db ≡ some r) where
  abbrev changed : Db
  changed = with_rows (update (λ s. s.id == id && q s) f db.scheduled_prompts) db

  reporting_eq : update_reporting (λ s. s.id == id && q s) f db ≡ (changed, ok (q r))
  unfolding update_reporting execute
  reporting_eq = ground (arith, affected-test id q db.scheduled_prompts r ids e)

  changed_row : row_of id changed ≡ some (if q r then f r else r)
  changed_row =
      let hit : (r.id == id) ≡ true = ap (λ i. i == id) (row_of_id id db e) ∙ eq_refl id in
      rw (row_of-update (λ s. s.id == id && q s) f id db keeps, e) (ground (arith, hit))

-- Over a sound connection and with distinct IDs, pausing and resuming a stored schedule report
-- whether it was active, respectively paused, and change its status only then, and nothing else of
-- it.
pub pause-resume_row :
    (id : String) (db : Db) (r : ScheduleRow)
    → db.fault ≡ none
    → Distinct (λ s. s.id) db.scheduled_prompts
    → row_of id db ≡ some r
    → ((pause_schedule id db).1 ≡ ok (r.status == "active"))
      × (row_of id (pause_schedule id db).0
          ≡ some (if r.status == "active" then record r { status = "paused" } else r))
      × ((resume_schedule id db).1 ≡ ok (r.status == "paused"))
      × (row_of id (resume_schedule id db).0
          ≡ some (if r.status == "paused" then record r { status = "active" } else r))
unfolding pause_schedule resume_schedule
pause-resume_row id db r sound ids e =
    let is_active = λ (s : ScheduleRow). s.status == "active" in
    let is_paused = λ (s : ScheduleRow). s.status == "paused" in
    let pause = λ (s : ScheduleRow). record s { status = "paused" } in
    let resume = λ (s : ScheduleRow). record s { status = "active" } in
    let p = reporting_eq id is_active pause (λ s. refl) db r sound ids e in
    let q = reporting_eq id is_paused resume (λ s. refl) db r sound ids e in
    (
      ap (λ (x : Db × Result Bool). x.1) p,
      ap (λ (x : Db × Result Bool). row_of id x.0) p
          ∙ changed_row id is_active pause (λ s. refl) db r sound ids e,
      ap (λ (x : Db × Result Bool). x.1) q,
      ap (λ (x : Db × Result Bool). row_of id x.0) q
          ∙ changed_row id is_paused resume (λ s. refl) db r sound ids e,
    )

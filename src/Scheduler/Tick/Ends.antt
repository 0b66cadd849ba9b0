-- ===== src/Scheduler/Tick/Ends.antt =====
-- src/scheduler.rs: no schedule that a round has claimed is left as executing.
use gorp_rs.Base.{
  String, Bool, false, ◌&&◌, ◌==◌, ◌≡◌, refl, ◌⊎◌, inl, inr, List, [], ◌∷◌, Option, none, some,
  Result, ok, err, any, All, arith,
}
use gorp_rs.Sql.{update}
use gorp_rs.Database.{Db, Channel, ScheduleRow, execute, query}
use gorp_rs.Bus.{Broadcast, MessageBus}
use gorp_rs.Scheduler.Store.{
  ScheduledPrompt, by_id, executed, mark_executed, mark_failed, claim_due_schedules,
}
use gorp_rs.Scheduler.Store.Lifecycle.{mark_executed_eq, mark_failed_eq, failed_row, executed-id}
use gorp_rs.Scheduler.Execute.{
  Env, reschedule, finish_with, finish, publish_prompt, run_in, execute_schedule,
}
use gorp_rs.Scheduler.Tick.{execute_all, execute_claimed, run_due, timed}

abbrev is_executing : String → ScheduleRow → Bool
is_executing id r = r.id == id && r.status == "executing"

-- No row with an ID is executing.
abbrev pub Settled : String → Db → Type 0
Settled id db = any (is_executing id) db.scheduled_prompts ≡ false

-- A change of rows that ends their execution.
module _ (f : ScheduleRow → ScheduleRow) (keeps_id : (r : ScheduleRow) → (f r).id ≡ r.id)
    (ends : (r : ScheduleRow) → ((f r).status == "executing") ≡ false) where
  any-update :
      (id q : String) (rows : List ScheduleRow)
      → any (is_executing q) rows ≡ false
      → any (is_executing q) (update (by_id id) f rows) ≡ false
  unfolding update
  any-update id q [] h = refl
  any-update id q (r ∷ rows) h = ground (arith, any-update id q rows, keeps_id r, ends r)

  any-update_self :
      (id : String) (rows : List ScheduleRow)
      → any (is_executing id) (update (by_id id) f rows) ≡ false
  unfolding update
  any-update_self id [] = refl
  any-update_self id (r ∷ rows) = ground (arith, any-update_self id rows, keeps_id r, ends r)

executed_ends :
    (now : String) (next : Option String) (r : ScheduleRow)
    → ((executed now next r).status == "executing") ≡ false
executed_ends now none r = refl
executed_ends now (some t) r = refl

-- An execution writes the schedule once.
abbrev Closed : String → Db → Db → Type 0
Closed id db db' =
    ((error : String) × (db' ≡ (mark_failed id error db).0))
    ⊎ ((now : String) × (next : Option String) × (db' ≡ (mark_executed id next now db).0))

module _ (env : Env) (b : Broadcast) (timezone now : String) (s : ScheduledPrompt) where
  reschedule-Closed :
      (r : Result String) (db : Db) (bus : MessageBus b) (st : env.State)
      → Closed s.id db (reschedule env b now s r (db, bus, st)).0
  unfolding reschedule
  reschedule-Closed (ok next) db bus st = inr (now, some next, refl)
  reschedule-Closed (err e) db bus st = inl (_, refl)

  finish_with-Closed :
      (c : Option String) (db : Db) (bus : MessageBus b) (st : env.State)
      → Closed s.id db (finish_with env b timezone now s c (db, bus, st)).0
  unfolding finish_with
  finish_with-Closed none db bus st = inr (now, none, refl)
  finish_with-Closed (some cron) db bus st = reschedule-Closed _ db bus st

  publish_prompt-Closed :
      (prompt : Result String) (db : Db) (bus : MessageBus b) (st : env.State)
      → Closed s.id db (publish_prompt env b timezone now s prompt (db, bus, st)).0
  unfolding publish_prompt finish
  publish_prompt-Closed (ok prompt) db bus st = finish_with-Closed s.cron_expression db _ st
  publish_prompt-Closed (err e) db bus st = inl (_, refl)

  run_in-Closed :
      (found : Result (Option Channel)) (db : Db) (bus : MessageBus b) (st : env.State)
      → Closed s.id db (run_in env b timezone now s found (db, bus, st)).0
  unfolding run_in
  run_in-Closed (err e) db bus st = inl (_, refl)
  run_in-Closed (ok none) db bus st = inl (_, refl)
  run_in-Closed (ok (some channel)) db bus st = publish_prompt-Closed _ db bus _

  execute_schedule-Closed :
      (db : Db) (bus : MessageBus b) (st : env.State)
      → Closed s.id db (execute_schedule env b timezone now s (db, bus, st)).0
  unfolding execute_schedule
  execute_schedule-Closed db bus st = run_in-Closed _ db bus st

-- The connection stays sound, the schedule is settled, and so is any that was.
Closed-Settled :
    (id q : String) (db db' : Db)
    → Closed id db db'
    → db.fault ≡ none
    → (db'.fault ≡ none) × Settled id db' × (Settled q db → Settled q db')
Closed-Settled id q db db' (inl (error, e)) sound =
    let rows = db.scheduled_prompts in
    rw (e, mark_failed_eq id error db sound)
      (
        sound,
        any-update_self (failed_row error) (λ r. refl) (λ r. refl) id rows,
        λ h. any-update (failed_row error) (λ r. refl) (λ r. refl) id q rows h,
      )
Closed-Settled id q db db' (inr (now, next, e)) sound =
    let rows = db.scheduled_prompts in
    rw (e, mark_executed_eq id next now db sound)
      (
        sound,
        any-update_self (executed now next) (executed-id now next) (executed_ends now next) id rows,
        λ h.
            any-update (executed now next) (executed-id now next) (executed_ends now next) id q rows
              h,
      )

claim-fault :
    (now : String) (db : Db) → db.fault ≡ none → (claim_due_schedules now db).0.fault ≡ none
unfolding claim_due_schedules execute query
claim-fault now db sound = ground (arith, sound)

module _ (env : Env) (b : Broadcast) (timezone : String) where
  execute_all-keeps :
      (q : String) (runs : List (String × ScheduledPrompt)) (db : Db) (bus : MessageBus b)
      (st : env.State)
      → db.fault ≡ none
      → Settled q db
      → Settled q (execute_all env b timezone runs (db, bus, st)).0
  unfolding execute_all
  execute_all-keeps q [] db bus st sound h = h
  execute_all-keeps q ((now, s) ∷ runs) db bus st sound h =
      let w = execute_schedule env b timezone now s (db, bus, st) in
      let (sound', own, kept) =
        Closed-Settled s.id q db w.0 (execute_schedule-Closed env b timezone now s db bus st)
          sound in
      execute_all-keeps q runs w.0 w.1 w.2 sound' (kept h)

  execute_all-Settled :
      (runs : List (String × ScheduledPrompt)) (db : Db) (bus : MessageBus b) (st : env.State)
      → db.fault ≡ none
      → All
          (λ (r : String × ScheduledPrompt).
            Settled r.1.id (execute_all env b timezone runs (db, bus, st)).0)
          runs
  unfolding execute_all
  execute_all-Settled [] db bus st sound = tt
  execute_all-Settled ((now, s) ∷ runs) db bus st sound =
      let w = execute_schedule env b timezone now s (db, bus, st) in
      let (sound', own, kept) =
        Closed-Settled s.id s.id db w.0 (execute_schedule-Closed env b timezone now s db bus st)
          sound in
      (
        execute_all-keeps s.id runs w.0 w.1 w.2 sound' own,
        execute_all-Settled runs w.0 w.1 w.2 sound',
      )

  All-timed :
      (P : ScheduledPrompt → Type 0) (at : ScheduledPrompt → String)
      (schedules : List ScheduledPrompt)
      → All (λ (r : String × ScheduledPrompt). P r.1) (timed env b at schedules)
      → All P schedules
  All-timed P at [] h = tt
  All-timed P at (s ∷ schedules) (h, hs) = (h, All-timed P at schedules hs)

  -- Over a sound connection, once the executions of a round have ended, no row of a schedule that the
  -- round has claimed is executing, whatever failed in an execution and whenever it ended.
  pub run_due-Settled :
      (at : ScheduledPrompt → String) (now : String) (db : Db) (bus : MessageBus b) (st : env.State)
      (schedules : List ScheduledPrompt)
      → db.fault ≡ none
      → (claim_due_schedules now db).1 ≡ ok schedules
      → All (λ s. Settled s.id (run_due env b timezone at now (db, bus, st)).0) schedules
  unfolding run_due execute_claimed
  run_due-Settled at now db bus st schedules sound e = rw e (
      All-timed
        (λ s.
          Settled s.id
            (execute_all env b timezone (timed env b at schedules)
              ((claim_due_schedules now db).0, bus, st)).0)
        at schedules
        (execute_all-Settled (timed env b at schedules) (claim_due_schedules now db).0 bus st
          (claim-fault now db sound)))

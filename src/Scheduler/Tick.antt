-- ===== src/Scheduler/Tick.antt =====
-- src/scheduler.rs, start_scheduler: one round of the loop. The executions of the claimed schedules are
-- tasks of their own: they are run one after the other here, in the order of a list, and before the
-- channels are warmed up.
pub mod Ends
use gorp_rs.Base.{
  ℕ, ◌+◌, String, Bool, true, false, ◌&&◌, ltb, leb, List, [], ◌∷◌, Option, none, some, Result, ok,
  err, map, if◌then◌else◌,
}
use gorp_rs.Text.{Unicode}
use gorp_rs.Database.{Db, Channel}
use gorp_rs.Session.Channels.{get_by_name}
use gorp_rs.Bus.{Broadcast}
use gorp_rs.Scheduler.Status.{ScheduleStatus, active}
use gorp_rs.Scheduler.Store.{ScheduledPrompt, claim_due_schedules, list_all}
use gorp_rs.Scheduler.Execute.{Env, World, execute_schedule}
use gorp_rs.Warm.{Agents, WarmSessionManager}
use gorp_rs.Warm.Prepare.{prepare_session_async}

module _ (env : Env) (b : Broadcast) where
  -- Each schedule with the time of its execution.
  unfoldable pub execute_all : String → List (String × ScheduledPrompt) → World env b → World env b
  unfolding execute_schedule
  execute_all timezone [] w = w
  execute_all timezone ((now, schedule) ∷ runs) w =
      execute_all timezone runs (execute_schedule env b timezone now schedule w)

  abbrev pub timed :
      (ScheduledPrompt → String) → List ScheduledPrompt → List (String × ScheduledPrompt)
  timed at = map (λ s. (at s, s))

  -- `claimed` is what the claim gave; an error is logged.
  unfoldable pub execute_claimed :
      String
      → (ScheduledPrompt → String)
      → Result (List ScheduledPrompt)
      → World env b
      → World env b
  unfolding execute_all
  execute_claimed timezone at (err e) w = w
  execute_claimed timezone at (ok schedules) w = execute_all timezone (timed at schedules) w

  -- `at` gives the time at which each execution ends.
  unfoldable pub run_due : String → (ScheduledPrompt → String) → String → World env b → World env b
  unfolding claim_due_schedules execute_claimed
  run_due timezone at now (db, bus, st) =
      let claim = claim_due_schedules now db in
      execute_claimed timezone at claim.1 (claim.0, bus, st)

-- Times are seconds; `parse_from_rfc3339` gives none on an error.
module _ (u : Unicode) (a : Agents) (parse_from_rfc3339 : String → Option ℕ) where
  -- `status == ScheduleStatus::Active`
  abbrev is_active : ScheduleStatus → Bool
  is_active active = true
  is_active _ = false

  abbrev is_soon : ℕ → ℕ → Option ℕ → Bool
  is_soon now cutoff none = false
  is_soon now cutoff (some next) = ltb now next && leb next cutoff

  -- What is prepared is not looked at: neither an error nor the ID of a new session is kept.
  unfoldable pub warm_up :
      (WarmSessionManager a → WarmSessionManager a)
      → ℕ
      → Result (Option Channel)
      → WarmSessionManager a
      → WarmSessionManager a
  unfolding prepare_session_async
  warm_up meanwhile now (err e) warm = warm
  warm_up meanwhile now (ok none) warm = warm
  warm_up meanwhile now (ok (some channel)) warm =
      (prepare_session_async a now now meanwhile channel warm).0

  unfoldable pub pre_warm_all :
      (WarmSessionManager a → WarmSessionManager a)
      → ℕ
      → ℕ
      → List ScheduledPrompt
      → Db
      → WarmSessionManager a
      → WarmSessionManager a
  unfolding warm_up get_by_name
  pre_warm_all meanwhile now cutoff [] db warm = warm
  pre_warm_all meanwhile now cutoff (s ∷ schedules) db warm =
      let warmed = warm_up meanwhile now (get_by_name u s.channel_name db).1 warm in
      pre_warm_all meanwhile now cutoff schedules db (
        if is_active s.status && is_soon now cutoff (parse_from_rfc3339 s.next_execution_at)
        then warmed
        else warm)

  unfoldable pub pre_warm_listed :
      (WarmSessionManager a → WarmSessionManager a)
      → ℕ
      → ℕ
      → Result (List ScheduledPrompt)
      → Db
      → WarmSessionManager a
      → WarmSessionManager a
  unfolding pre_warm_all
  pre_warm_listed meanwhile now pre_warm_secs (err e) db warm = warm
  pre_warm_listed meanwhile now pre_warm_secs (ok schedules) db warm =
      pre_warm_all meanwhile now (now + pre_warm_secs) schedules db warm

  unfoldable pub pre_warm_due :
      (WarmSessionManager a → WarmSessionManager a)
      → ℕ
      → ℕ
      → Db
      → WarmSessionManager a
      → WarmSessionManager a
  unfolding pre_warm_listed list_all
  pre_warm_due meanwhile now pre_warm_secs db warm =
      pre_warm_listed meanwhile now pre_warm_secs (list_all db).1 db warm

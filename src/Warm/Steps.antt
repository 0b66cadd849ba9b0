-- ===== src/Warm/Steps.antt =====
-- gorp-core/src/warm_session.rs: the manager under any interleaving of the steps that tasks take with
-- it. The parts of prepare_session_async that hold a lock are steps of their own.
pub mod Frames
pub mod Changes
pub mod Kept
use gorp_rs.Base.{
  ℕ, String, Bool, false, not, ◌==◌, ◌≡◌, refl, List, length, none, some, Result, ok, arith,
  find_key, DistinctKeys, Option-cases, Bool-cases, inl, inr, ltb, if◌then◌else◌,
}
use gorp_rs.Database.{Channel}
use gorp_rs.Warm.{
  Agents, WarmConfig, WarmSession, WarmSessionManager, cell, new, set_invalidated, set_session_id,
  cleanup_stale, evict, invalidate_session, get_existing_session,
}
use gorp_rs.Warm.Sessions.{
  Opened, reuse, keep_opened, open_with, create_agent_handle, working_dir, get_or_create_session,
  send_prompt_with_handle, prepare_session,
}
use gorp_rs.Warm.Laws.{cell_in_bounds}
use gorp_rs.Warm.Prepare.{look, insert_opened}
use gorp_rs.Warm.Entries.{
  IsValid, All-find_key, kept-IsValid, write_cell-IsValid, set_invalidated-IsValid,
  cleanup_stale-IsValid, invalidate_session-IsValid, look-IsValid, insert_opened-IsValid,
  keep_opened-IsValid, reuse-some, reuse-IsValid, send-IsValid,
}

module _ (a : Agents) where
  abbrev pub Manager : Type 0
  Manager = WarmSessionManager a

  -- One step of a task, whatever its arguments.
  pub data Step : Manager → Manager → Type 0 where
    cleaned : (now : ℕ) (w : Manager) → Step w (cleanup_stale a now w)
    evicted : (name : String) (w : Manager) → Step w (evict a name w).0
    dropped : (name : String) (w : Manager) → Step w (invalidate_session a name w).0
    marked : (flag : Bool) (i : ℕ) (w : Manager) → Step w (set_invalidated a flag i w)
    renamed : (id : String) (i : ℕ) (w : Manager) → Step w (set_session_id a id i w)
    looked : (now : ℕ) (name : String) (w : Manager) → Step w (look a now name w).0
    inserted :
        (now : ℕ) (channel : Channel) (opened : Result (Opened a)) (w : Manager)
        → Step w (insert_opened a now channel opened w).0
    made :
        (now later : ℕ) (channel : Channel) (w : Manager)
        → Step w (get_or_create_session a now later channel w).0
    sent :
        (now i : ℕ) (id body : String) (w : Manager)
        → Step w (send_prompt_with_handle a now i id body w).0
    -- mutexes are locked and released, and agents work
    held_changed : (held : List ℕ) (w : Manager) → Step w (record w { held = held })
    agents_worked : (st : a.State) (w : Manager) → Step w (record w { agents = st })

  pub data Reachable : Manager → Type 0 where
    started : (config : WarmConfig a) (st : a.State) → Reachable (new a config st)
    then_step : (w w' : Manager) → Reachable w → Step w w' → Reachable w'

  -- Any number of steps.
  pub data Run : Manager → Manager → Type 0 where
    stayed : (w : Manager) → Run w w
    ran : (w v v' : Manager) → Run w v → Step v v' → Run w v'

  -- The manager after the cleanup that a full map is given.
  abbrev pub cleaned_up : ℕ → Manager → Manager
  cleaned_up now w = if ltb 1000 (length w.sessions) then cleanup_stale a now w else w

  abbrev pub opened_for : Channel → Manager → a.State × Result (Opened a)
  opened_for channel w =
      open_with a channel (create_agent_handle a w (working_dir a channel w.agents) w.agents)

  pub get_or_create_found :
      (now later i : ℕ) (channel : Channel) (w : Manager)
      → find_key channel.channel_name (cleaned_up now w).sessions ≡ some i
      → get_or_create_session a now later channel w ≡ reuse a now i (cleaned_up now w)
  unfolding get_or_create_session
  get_or_create_found now later i channel w e = ground (arith, e)

  pub get_or_create_missing :
      (now later : ℕ) (channel : Channel) (w : Manager)
      → find_key channel.channel_name (cleaned_up now w).sessions ≡ none
      → get_or_create_session a now later channel w
        ≡ keep_opened a later channel
            (opened_for channel (cleaned_up now w)).1
            (record (cleaned_up now w) { agents = (opened_for channel (cleaned_up now w)).0 })
  unfolding get_or_create_session
  get_or_create_missing now later channel w e = ground (arith, e)

  cleaned_up-IsValid : (now : ℕ) (w : Manager) → IsValid a w → IsValid a (cleaned_up now w)
  cleaned_up-IsValid now w h = elim (Bool-cases (ltb 1000 (length w.sessions))) [
    | inl full ↦ rw full (cleanup_stale-IsValid a now w h)
    | inr room ↦ rw room h
  ]

  get_or_create_session-IsValid :
      (now later : ℕ) (channel : Channel) (w : Manager)
      → IsValid a w
      → IsValid a (get_or_create_session a now later channel w).0
  get_or_create_session-IsValid now later channel w h =
      let w1 = cleaned_up now w in
      let valid : IsValid a w1 = cleaned_up-IsValid now w h in
      elim (Option-cases (find_key channel.channel_name w1.sessions)) [
        | inl e ↦ rw (get_or_create_missing now later channel w e) (
            keep_opened-IsValid a later channel (opened_for channel w1).1
              (record w1 { agents = (opened_for channel w1).0 }) valid)
        | inr (i, e) ↦
            rw (get_or_create_found now later i channel w e) (reuse-IsValid a now i w1 valid)
      ]

  pub Step-IsValid : (w w' : Manager) → Step w w' → IsValid a w → IsValid a w'
  unfolding evict set_session_id
  Step-IsValid _ _ (cleaned now w) h = cleanup_stale-IsValid a now w h
  Step-IsValid _ _ (evicted name w) h = kept-IsValid a (λ e. not (e.0 == name)) w h
  Step-IsValid _ _ (dropped name w) h = invalidate_session-IsValid a name w h
  Step-IsValid _ _ (marked flag i w) h = set_invalidated-IsValid a flag i w h
  Step-IsValid _ _ (renamed id i w) h =
      write_cell-IsValid a (λ s. record s { session_id = id }) i w h
  Step-IsValid _ _ (looked now name w) h = look-IsValid a now name w h
  Step-IsValid _ _ (inserted now channel opened w) h =
      insert_opened-IsValid a now channel opened w h
  Step-IsValid _ _ (made now later channel w) h =
      get_or_create_session-IsValid now later channel w h
  Step-IsValid _ _ (sent now i id body w) h = send-IsValid a now i id body w h
  Step-IsValid _ _ (held_changed held w) h = h
  Step-IsValid _ _ (agents_worked st w) h = h

  -- Each channel has one entry, and no entry dangles.
  pub Reachable-IsValid : (w : Manager) → Reachable w → IsValid a w
  unfolding new
  Reachable-IsValid _ (started config st) = (tt, tt)
  Reachable-IsValid _ (then_step w w' before step) =
      Step-IsValid w w' step (Reachable-IsValid w before)

-- ===== src/Warm/Prepare.antt =====
-- gorp-core/src/warm_session.rs, prepare_session_async: a session is looked up under the lock of the
-- manager, opened without it, and inserted under it again. `meanwhile` is what other tasks do to the
-- manager between the two.
pub mod Found
pub mod Races
pub mod Told
pub mod Fresh
use gorp_rs.Base.{
  ℕ, String, Bool, false, if◌then◌else◌, Option, none, some, Result, ok, err, find_key,
}
use gorp_rs.Database.{Channel}
use gorp_rs.Warm.{Agents, WarmSessionManager, cell, touch, insert_session}
use gorp_rs.Warm.Sessions.{
  Prepared, Opened, allocate, open_with, create_agent_handle_with_config, working_dir,
}

module _ (a : Agents) where
  -- An invalidated session counts as missing.
  unfoldable pub look :
      ℕ → String → WarmSessionManager a → WarmSessionManager a × Option (ℕ × String)
  unfolding cell touch
  look now channel_name w = elim (find_key channel_name w.sessions) [
    | none ↦ (w, none)
    | some i ↦ elim (cell a i w.cells) [
      | none ↦ (w, none)
      | some s ↦ if s.invalidated then (w, none) else (touch a now i w, some (i, s.session_id))
    ]
  ]

  -- The new agent comes from the default registry, with the backend of the channel if it has one.
  unfoldable pub open_outside : Channel → WarmSessionManager a → a.State × Result (Opened a)
  unfolding open_with create_agent_handle_with_config
  open_outside channel w = open_with a channel (
      create_agent_handle_with_config a a.default_registry (working_dir a channel w.agents) w.config
        channel.backend_type w.agents)

  unfoldable pub insert_opened : ℕ → Channel → Result (Opened a) → WarmSessionManager a → Prepared a
  unfolding allocate insert_session
  insert_opened later channel (err e) w = (w, err e)
  insert_opened later channel (ok (handle, session_id, is_new)) w =
      let (w', i) = allocate a later handle session_id w in
      let (w'', final_handle) = insert_session a channel.channel_name i w' in
      (w'', ok (final_handle, session_id, is_new))

  unfoldable pub prepare_session_async :
      ℕ
      → ℕ
      → (WarmSessionManager a → WarmSessionManager a)
      → Channel
      → WarmSessionManager a
      → Prepared a
  unfolding look open_outside insert_opened
  prepare_session_async now later meanwhile channel w =
      let looked = look now channel.channel_name w in
      elim looked.1 [
        | some p ↦ (looked.0, ok (p.0, p.1, false))
        | none ↦
            let opened = open_outside channel looked.0 in
            insert_opened later channel opened.1 (meanwhile (record looked.0 { agents = opened.0 }))
      ]

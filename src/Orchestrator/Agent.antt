-- ===== src/Orchestrator/Agent.antt =====
-- src/orchestrator.rs, handle_agent_message: a message from the bus for the agent of a session. It is
-- handled as one step, but for what other tasks do to the manager while a session is opened.
pub mod Agreement
use gorp_rs.Base.{
  ℕ, String, Bool, ◌==◌, List, [], ◌∷◌, Option, none, some, Result, ok, err, Error, error_text,
  if◌then◌else◌,
}
use gorp_rs.Text.{Unicode, ◌^^◌}
use gorp_rs.Database.{Db, Channel}
use gorp_rs.Session.Channels.{get_by_name, update_session_id, mark_started}
use gorp_rs.Bus.{
  Broadcast, MessageBus, BusMessage, ResponseContent, chunk, complete, error, publish_response,
}
use gorp_rs.Warm.{Agents, WarmSessionManager, set_session_id}
use gorp_rs.Warm.Sessions.{send_prompt_with_handle}
use gorp_rs.Warm.Prepare.{prepare_session_async}
use gorp_rs.Chat.{AgentEvent}
use gorp_rs.Chat

module _ (u : Unicode) (b : Broadcast) (a : Agents)
    (received : a.Receiver → List (AgentEvent a.Value)) where
  abbrev pub World : Type 0
  World = Db × MessageBus b × WarmSessionManager a

  -- The times of the look-up, of the new session, of the prompt and of the answers, and what others do.
  pub record Timing : Type 0 where
    pub looked_at : ℕ
    pub opened_at : ℕ
    pub sent_at : ℕ
    pub answered_at : String
    pub meanwhile : WarmSessionManager a → WarmSessionManager a

  unfoldable pub publish : String → String → ResponseContent → World → World
  unfolding publish_response
  publish now session_name content (db, bus, warm) = (
    db,
    publish_response b bus
        (record { session_name = session_name; content = content; timestamp = now }),
    warm,
  )

  -- The new session ID goes to the warm session even if the store fails.
  unfoldable pub session_changed : String → ℕ → String → World → World
  unfolding update_session_id set_session_id
  session_changed room i id (db, bus, warm) =
      ((update_session_id room id db).0, bus, set_session_id a id i warm)

  -- The loop over the events; no text where an error ends it.
  unfoldable pub receive_events :
      String
      → String
      → String
      → ℕ
      → List (AgentEvent a.Value)
      → String
      → World
      → World × Option String
  unfolding publish session_changed
  receive_events now session_name room i [] response w = (w, some response)
  receive_events now session_name room i (Chat.text more ∷ events) response w =
      receive_events now session_name room i events (response ^^ more)
        (publish now session_name (chunk more) w)
  receive_events now session_name room i (Chat.result final ∷ events) response w =
      (w, some (if response == "" then final else response))
  receive_events now session_name room i (Chat.error code reason ∷ events) response w =
      (publish now session_name (error reason) w, none)
  receive_events now session_name room i (Chat.session_changed id ∷ events) response w =
      receive_events now session_name room i events response (session_changed room i id w)
  receive_events now session_name room i (Chat.tool_start name input ∷ events) response w =
      receive_events now session_name room i events response w
  receive_events now session_name room i (Chat.tool_progress ∷ events) response w =
      receive_events now session_name room i events response w
  receive_events now session_name room i (Chat.tool_end ∷ events) response w =
      receive_events now session_name room i events response w
  receive_events now session_name room i (Chat.session_invalid reason ∷ events) response w =
      receive_events now session_name room i events response w
  receive_events now session_name room i (Chat.custom kind ∷ events) response w =
      receive_events now session_name room i events response w

  unfoldable pub conclude : String → String → String → World × Option String → World
  unfolding publish mark_started
  conclude now session_name room (w, none) = w
  conclude now session_name room (w, some response) =
      let (db, bus, warm) = publish now session_name (complete response) w in
      ((mark_started room db).0, bus, warm)

  -- The prompt is sent, or not.
  unfoldable pub delivered : String → String → String → ℕ → Result a.Receiver → World → World
  unfolding receive_events conclude publish
  delivered now session_name room i (err e) w =
      publish now session_name (error ("Failed to send prompt: " ^^ error_text e)) w
  delivered now session_name room i (ok receiver) w =
      conclude now session_name room
        (receive_events now session_name room i (received receiver) "" w)

  -- The session is prepared, or not.
  unfoldable pub prepared :
      Timing → String → String → String → Result (ℕ × String × Bool) → World → World
  unfolding delivered publish update_session_id send_prompt_with_handle
  prepared t session_name room body (err e) w =
      publish t.answered_at session_name (error ("Failed to prepare session: " ^^ error_text e)) w
  prepared t session_name room body (ok (i, session_id, is_new)) (db, bus, warm) =
      let stored = if is_new then (update_session_id room session_id db).0 else db in
      let sent = send_prompt_with_handle a t.sent_at i session_id body warm in
      delivered t.answered_at session_name room i sent.1 (stored, bus, sent.0)

  -- `found` is what the look-up of the channel gave.
  unfoldable pub found_channel : Timing → String → String → Result (Option Channel) → World → World
  unfolding prepared publish prepare_session_async
  found_channel t session_name body (err e) w =
      publish t.answered_at session_name (error ("Store error: " ^^ error_text e)) w
  found_channel t session_name body (ok none) w =
      publish t.answered_at session_name
        (error ("Session '" ^^ session_name ^^ "' not found in store")) w
  found_channel t session_name body (ok (some channel)) (db, bus, warm) =
      let ready = prepare_session_async a t.looked_at t.opened_at t.meanwhile channel warm in
      prepared t session_name channel.room_id body ready.1 (db, bus, ready.0)

  -- With a warm session manager, and without one.
  unfoldable pub handle_agent_message : Timing → String → String → World → World
  unfolding found_channel get_by_name
  handle_agent_message t session_name body (db, bus, warm) =
      found_channel t session_name body (get_by_name u session_name db).1 (db, bus, warm)

  unfoldable pub no_backend : String → String → MessageBus b → MessageBus b
  unfolding publish_response
  no_backend now session_name bus = publish_response b bus (record {
    session_name = session_name;
    content = error "No agent backend configured";
    timestamp = now;
  })

-- ===== src/Orchestrator/Agent/Agreement.antt =====
-- src/orchestrator.rs, handle_agent_message: the bus and the stored bindings under messages for agents.
use gorp_rs.Base.{
  ℕ, String, Bool, true, false, refl, List, [], ◌∷◌, Option, none, some, Result, ok, err, arith,
  if◌then◌else◌,
}
use gorp_rs.Text.{◌^^◌}
use gorp_rs.Database.{Db, Channel, execute}
use gorp_rs.Session.Files.{FileSystem}
use gorp_rs.Session.Channels.{get_by_name, update_session_id, mark_started}
use gorp_rs.Bus.{
  Broadcast, MessageBus, BusResponse, ResponseContent, error, chunk, complete, publish_response,
}
use gorp_rs.Warm.{Agents}
use gorp_rs.Warm.Sessions.{send_prompt_with_handle}
use gorp_rs.Warm.Prepare.{prepare_session_async}
use gorp_rs.Scheduler.Execute.{Env}
use gorp_rs.Orchestrator.Dispatch.Agreement.{Keeps, Agree, Keeps-Agree, resolve-publish_response}
use gorp_rs.Chat.{AgentEvent}
use gorp_rs.Chat
use gorp_rs.Orchestrator.Agent.{
  World, Timing, publish, session_changed, receive_events, conclude, delivered, prepared,
  found_channel, handle_agent_message, no_backend,
}

update_session_id-Keeps : (room id : String) (db : Db) → Keeps db (update_session_id room id db).0
unfolding update_session_id execute
update_session_id-Keeps room id db = ground arith

mark_started-Keeps : (room : String) (db : Db) → Keeps db (mark_started room db).0
unfolding mark_started execute
mark_started-Keeps room db = ground arith

module _ (env : Env) (fs : FileSystem) (b : Broadcast) (a : Agents)
    (received : a.Receiver → List (AgentEvent a.Value)) where
  abbrev W : Type 0
  W = World env.unicode b a received

  -- The bus routes each channel as the stored bindings do.
  abbrev pub Agreed : W → Type 0
  Agreed (db, bus, warm) = Agree env fs b db bus

  publish-Agreed :
      (now name : String) (content : ResponseContent) (w : W)
      → Agreed w
      → Agreed (publish env.unicode b a received now name content w)
  unfolding publish
  publish-Agreed now name content (db, bus, warm) h =
      let resp : BusResponse = record { session_name = name; content = content; timestamp = now } in
      Keeps-Agree env fs b db db bus (publish_response b bus resp) (refl, refl)
        (resolve-publish_response env fs b bus resp) h

  kept-Agreed :
      (db db' : Db) (bus : MessageBus b)
      → Keeps db db'
      → Agree env fs b db bus
      → Agree env fs b db' bus
  kept-Agreed db db' bus k h = Keeps-Agree env fs b db db' bus bus k (λ q d. refl) h

  session_changed-Agreed :
      (room : String) (i : ℕ) (id : String) (w : W)
      → Agreed w
      → Agreed (session_changed env.unicode b a received room i id w)
  unfolding session_changed
  session_changed-Agreed room i id (db, bus, warm) h =
      kept-Agreed db (update_session_id room id db).0 bus (update_session_id-Keeps room id db) h

  receive_events-Agreed :
      (now name room : String) (i : ℕ) (events : List (AgentEvent a.Value)) (response : String)
      (w : W)
      → Agreed w
      → Agreed (receive_events env.unicode b a received now name room i events response w).0
  unfolding receive_events
  receive_events-Agreed now name room i [] response w h = h
  receive_events-Agreed now name room i (Chat.text more ∷ events) response w h =
      receive_events-Agreed now name room i events (response ^^ more)
        (publish env.unicode b a received now name (chunk more) w)
        (publish-Agreed now name (chunk more) w h)
  receive_events-Agreed now name room i (Chat.result final ∷ events) response w h = h
  receive_events-Agreed now name room i (Chat.error code reason ∷ events) response w h =
      publish-Agreed now name _ w h
  receive_events-Agreed now name room i (Chat.session_changed id ∷ events) response w h =
      receive_events-Agreed now name room i events response
        (session_changed env.unicode b a received room i id w)
        (session_changed-Agreed room i id w h)
  receive_events-Agreed now name room i (Chat.tool_start tool input ∷ events) response w h =
      receive_events-Agreed now name room i events response w h
  receive_events-Agreed now name room i (Chat.tool_progress ∷ events) response w h =
      receive_events-Agreed now name room i events response w h
  receive_events-Agreed now name room i (Chat.tool_end ∷ events) response w h =
      receive_events-Agreed now name room i events response w h
  receive_events-Agreed now name room i (Chat.session_invalid reason ∷ events) response w h =
      receive_events-Agreed now name room i events response w h
  receive_events-Agreed now name room i (Chat.custom kind ∷ events) response w h =
      receive_events-Agreed now name room i events response w h

  marked-Agreed : (room : String) (w : W) → Agreed w → Agreed ((mark_started room w.0).0, w.1, w.2)
  marked-Agreed room (db, bus, warm) h =
      kept-Agreed db (mark_started room db).0 bus (mark_started-Keeps room db) h

  conclude-Agreed :
      (now name room : String) (w : W) (response : Option String)
      → Agreed w
      → Agreed (conclude env.unicode b a received now name room (w, response))
  unfolding conclude
  conclude-Agreed now name room w none h = h
  conclude-Agreed now name room w (some response) h =
      marked-Agreed room (publish env.unicode b a received now name (complete response) w)
        (publish-Agreed now name (complete response) w h)

  delivered-Agreed :
      (now name room : String) (i : ℕ) (r : Result a.Receiver) (w : W)
      → Agreed w
      → Agreed (delivered env.unicode b a received now name room i r w)
  unfolding delivered
  delivered-Agreed now name room i (err e) w h = publish-Agreed now name _ w h
  delivered-Agreed now name room i (ok receiver) w h =
      let seen = receive_events env.unicode b a received now name room i (received receiver) "" w in
      conclude-Agreed now name room seen.0 seen.1
        (receive_events-Agreed now name room i (received receiver) "" w h)

  stored-Keeps :
      (is_new : Bool) (room id : String) (db : Db)
      → Keeps db (if is_new then (update_session_id room id db).0 else db)
  stored-Keeps true room id db = update_session_id-Keeps room id db
  stored-Keeps false room id db = (refl, refl)

  prepared-Agreed :
      (t : Timing env.unicode b a received) (name room body : String)
      (r : Result (ℕ × String × Bool)) (w : W)
      → Agreed w
      → Agreed (prepared env.unicode b a received t name room body r w)
  unfolding prepared
  prepared-Agreed t name room body (err e) w h = publish-Agreed t.answered_at name _ w h
  prepared-Agreed t name room body (ok (i, id, is_new)) (db, bus, warm) h =
      let sent = send_prompt_with_handle a t.sent_at i id body warm in
      let stored = if is_new then (update_session_id room id db).0 else db in
      delivered-Agreed t.answered_at name room i sent.1 (stored, bus, sent.0)
        (kept-Agreed db stored bus (stored-Keeps is_new room id db) h)

  found-Agreed :
      (t : Timing env.unicode b a received) (name body : String) (r : Result (Option Channel))
      (w : W)
      → Agreed w
      → Agreed (found_channel env.unicode b a received t name body r w)
  unfolding found_channel
  found-Agreed t name body (err e) w h = publish-Agreed t.answered_at name _ w h
  found-Agreed t name body (ok none) w h = publish-Agreed t.answered_at name _ w h
  found-Agreed t name body (ok (some channel)) (db, bus, warm) h =
      let ready = prepare_session_async a t.looked_at t.opened_at t.meanwhile channel warm in
      prepared-Agreed t name channel.room_id body ready.1 (db, bus, ready.0) h

  pub handle_agent_message-Agreed :
      (t : Timing env.unicode b a received) (name body : String) (w : W)
      → Agreed w
      → Agreed (handle_agent_message env.unicode b a received t name body w)
  unfolding handle_agent_message
  handle_agent_message-Agreed t name body (db, bus, warm) h =
      found-Agreed t name body (get_by_name env.unicode name db).1 (db, bus, warm) h

  pub no_backend-Agree :
      (now name : String) (db : Db) (bus : MessageBus b)
      → Agree env fs b db bus
      → Agree env fs b db (no_backend env.unicode b a received now name bus)
  unfolding no_backend
  no_backend-Agree now name db bus h =
      let resp : BusResponse = record {
        session_name = name;
        content = error "No agent backend configured";
        timestamp = now;
      } in
      Keeps-Agree env fs b db db bus (publish_response b bus resp) (refl, refl)
        (resolve-publish_response env fs b bus resp) h

-- ===== src/Chat/Turn/Done.antt =====
-- gorp-core/src/orchestrator.rs: what holds of a message that is handled without an error.
use Prim.Native.String.{len}
use gorp_rs.Base.{
  ℕ, Char, String, Bool, true, false, ◌==◌, ◌≡◌, refl, leb, some, Result, ok, err, if◌then◌else◌,
}
use gorp_rs.Text.{Unicode, ◌^^◌}
use gorp_rs.Text.Chunks.{chunk_message}
use gorp_rs.Database.{Db, Channel}
use gorp_rs.Session.Channels.{get_by_room, mark_started}
use gorp_rs.Warm.{Agents, WarmSession, WarmSessionManager, cell, get_existing_session}
use gorp_rs.Chat.{
  Platform, OrchestratorConfig, HandleResult, handled, ignored, failed, Act, World, on_db, try_db,
  on_warm, send_content, reply, set_typing, AgentEvent, text, tool_start, tool_progress, tool_end,
  result, error, session_invalid, session_changed, custom, MessageContent, html, plain,
}
use gorp_rs.Chat
use gorp_rs.Chat.Turn.{
  Outcome, finished, orphaned, agent_error, keep_changed, send_chunks, send_response, conclude,
  respond, max_chunk_size, lost, lost_text, handle_session_orphaned,
}
-- An UPDATE of the channel of a room.
use gorp_rs.Chat.Turn.Laws.{
  updated_room, Synced, Same, send_content-Same, after, send_chunks-Same, keep_changed-Synced,
}

module _ (a : Agents) (p : Platform a) where
  abbrev W : Type 0
  W = World a p

  -- The channel is marked as started, with the ID of the session that is warm for it.
  abbrev pub Ready : String → String → Db → WarmSessionManager a → Type 0
  Ready room name db warm =
      (i : ℕ) × (ch : Channel) × (s : WarmSession a) × ((get_by_room room db).1 ≡ ok (some ch))
      × (get_existing_session a name warm ≡ some i)
      × (cell a i warm.cells ≡ some s)
      × (ch.started ≡ true)
      × (ch.session_id ≡ s.session_id)

  -- What holds of a message that is handled without an error.
  abbrev pub Done : String → String → W × Result HandleResult → Type 0
  Done room name (w, ok handled) = Ready room name w.db w.warm
  Done room name (w, ok ignored) = Unit
  Done room name (w, ok (failed reason)) = Unit
  Done room name (w, err e) = Unit

  pub after-Done :
      {A : Type 0} (room name : String) (r : W × Result A) (f : A → Act W HandleResult)
      → ((x : A) (v : W) → Done room name (f x v))
      → Done room name (after a p r f)
  after-Done room name (w, ok x) f h = h x w
  after-Done room name (w, err e) f h = tt

  pub refused-Done :
      (room name reason : String) (r : W × Result (Unit {0}))
      → Done room name (after a p r (λ x. Chat.return (failed reason)))
  refused-Done room name reason (w, ok x) = tt
  refused-Done room name reason (w, err e) = tt

  marked-Ready :
      (room name : String) (i : ℕ) (db : Db) (warm : WarmSessionManager a)
      → Synced a room name i db warm
      → ((mark_started room db).1 ≡ ok tt) × Ready room name (mark_started room db).0 warm
  unfolding mark_started
  marked-Ready room name i db warm (sound, cached, ch, s, found, there, same) =
      let (done, sound', found') =
        updated_room (λ c. record c { started = true }) (λ c. refl) (λ c. refl) room db ch sound
          found in
      (done, (i, record ch { started = true }, s, found', cached, there, refl, same))

  told-Done :
      (room name : String) (w : W) (r : W × Result (Unit {0}))
      → Same a p w r.0
      → Ready room name w.db w.warm
      → Done room name (after a p r (λ x. Chat.return handled))
  told-Done room name w (v, ok x) (e, e') h = rw (e, e') h
  told-Done room name w (v, err f) e h = tt

  module _ (u : Unicode) (is_whitespace is_alphabetic : Char → Bool)
      (config : OrchestratorConfig) where
    if-Same :
        (w : W) (b : Bool) (f g : Act W (Unit {0}))
        → Same a p w (f w).0
        → Same a p w (g w).0
        → Same a p w ((if b then f else g) w).0
    if-Same w true f g h k = h
    if-Same w false f g h k = k

    send_response-Same :
        (room response : String) (w : W)
        → Same a p w (send_response a p u is_whitespace is_alphabetic config room response w).0
    unfolding send_response
    send_response-Same room response w =
        if-Same w (leb (len response) max_chunk_size)
          (send_content a p room (html response (p.markdown_to_html response)))
          (send_chunks a p room (chunk_message is_whitespace max_chunk_size response))
          (send_content-Same a p room (html response (p.markdown_to_html response)) w)
          (send_chunks-Same a p room (chunk_message is_whitespace max_chunk_size response) w)

    stored-Done :
        (room name : String) (w : W) (r : Db × Result (Unit {0}))
        (f : Unit {0} → Act W HandleResult)
        → r.1 ≡ ok tt
        → ((x : Unit {0}) → Done room name (f x (record w { db = r.0 })))
        → Done room name (after a p (record w { db = r.0 }, r.1) f)
    stored-Done room name w (db, ok x) f e h = h x
    stored-Done room name w (db, err g) f e h = tt

    respond-Done :
        (room name response : String) (i : ℕ) (w : W)
        → Synced a room name i w.db w.warm
        → Done room name (respond a p u is_whitespace is_alphabetic config room response w)
    unfolding respond on_db
    respond-Done room name response i w h =
        let (done, ready) = marked-Ready room name i w.db w.warm h in
        let marked = record w { db = (mark_started room w.db).0 } in
        stored-Done room name w (mark_started room w.db)
          (λ x v.
            after a p
              (send_response a p u is_whitespace is_alphabetic config room
                (p.strip_function_calls response) v)
              (λ y. Chat.return handled))
          done
          (λ x.
            told-Done room name marked
              (send_response a p u is_whitespace is_alphabetic config room
                (p.strip_function_calls response) marked)
              (send_response-Same room (p.strip_function_calls response) marked) ready)

    if-Done :
        (room name : String) (b : Bool) (x y : W × Result HandleResult)
        → Done room name x
        → Done room name y
        → Done room name (if b then x else y)
    if-Done room name true x y h k = h
    if-Done room name false x y h k = k

    pub conclude-Done :
        (uuid room name : String) (channel : Channel) (i : ℕ) (outcome : Outcome) (w : W)
        → Synced a room name i w.db w.warm
        → Done room name
            (conclude a p u is_whitespace is_alphabetic config uuid room channel i outcome w)
    unfolding conclude handle_session_orphaned
    conclude-Done uuid room name channel i orphaned w h =
        refused-Done room name "Session orphaned"
          (reply a p room (lost_text a p) (lost a p uuid room channel i w))
    conclude-Done uuid room name channel i (agent_error reason) w h =
        refused-Done room name reason (reply a p room ("Agent error: " ^^ reason) w)
    conclude-Done uuid room name channel i (finished response changed) w h =
        if-Done room name (response == "") _ _
          (refused-Done room name "No response from agent"
            (reply a p room "Agent finished without a response. Please try again." w))
          (respond-Done room name response i (keep_changed a p room i changed w)
            (keep_changed-Synced a p room name i changed w h))

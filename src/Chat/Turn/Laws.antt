-- ===== src/Chat/Turn/Laws.antt =====
-- gorp-core/src/orchestrator.rs: the store and the warm sessions after a prompt.
use gorp_rs.Base.{
  ℕ, String, Bool, ◌==◌, ◌≡◌, refl, ap, ◌∙◌, List, [], ◌∷◌, Option, none, some, Result, ok, err,
  arith, eq_refl,
}
use gorp_rs.Text.{◌^^◌}
use gorp_rs.Database.{Db, Channel, execute_ok}
use gorp_rs.Sql.{update}
use gorp_rs.Session.Channels.{get_by_room, update_session_id, update_channels}
use gorp_rs.Session.Channels.Laws.{get_by_room-update, with_channels}
use gorp_rs.Warm.{
  Agents, WarmSession, WarmSessionManager, cell, get_existing_session, set_session_id,
}
use gorp_rs.Warm.Laws.{cell-write_cell}
use gorp_rs.Chat.{
  Platform, OrchestratorConfig, Act, World, send_content, set_typing, AgentEvent, text, tool_start,
  tool_progress, tool_end, result, error, session_invalid, session_changed, custom, MessageContent,
  html,
}
use gorp_rs.Chat.Turn.{notify_tool, receive_events, keep_changed, send_chunks}

-- An UPDATE of the channel of a room.
module _ (f : Channel → Channel) (keeps_room : (c : Channel) → (f c).room_id ≡ c.room_id)
    (keeps_directory : (c : Channel) → (f c).directory ≡ c.directory) where
  pub updated_room :
      (room : String) (db : Db) (ch : Channel)
      → db.fault ≡ none
      → (get_by_room room db).1 ≡ ok (some ch)
      → let r = update_channels (λ c. c.room_id == room) f db in
        (r.1 ≡ ok tt) × (r.0.fault ≡ none) × ((get_by_room room r.0).1 ≡ ok (some (f ch)))
  updated_room room db ch sound h =
      let e =
        execute_ok (λ d. ok (with_channels (update (λ c. c.room_id == room) f d.channels) d)) db
          (with_channels (update (λ c. c.room_id == room) f db.channels) db) sound refl in
      (
        ap (λ r. r.1) e,
        ap (λ r. r.0.fault) e ∙ sound,
        get_by_room-update f keeps_room keeps_directory room room db (some ch) sound h
            ∙ rw (eq_refl room) refl,
      )

module _ (a : Agents) where
  -- The store has the ID of the session that is warm for the channel of a room.
  abbrev pub Synced : String → String → ℕ → Db → WarmSessionManager a → Type 0
  Synced room name i db warm =
      (db.fault ≡ none)
      × (get_existing_session a name warm ≡ some i)
      × (ch : Channel) × (s : WarmSession a) × ((get_by_room room db).1 ≡ ok (some ch))
      × (cell a i warm.cells ≡ some s)
      × (ch.session_id ≡ s.session_id)

  module _ (p : Platform a) where
    abbrev W : Type 0
    W = World a p

    -- A step that writes to the room only.
    abbrev pub Same : W → W → Type 0
    Same w w' = (w'.db ≡ w.db) × (w'.warm ≡ w.warm)

    pub send_content-Same :
        (room : String) (content : MessageContent) (w : W)
        → Same w (send_content a p room content w).0
    unfolding send_content
    send_content-Same room content w = (refl, refl)

    pub set_typing-Same :
        (room : String) (typing : Bool) (w : W) → Same w (set_typing a p room typing w).0
    unfolding set_typing
    set_typing-Same room typing w = (refl, refl)

    notify_tool-Same :
        (config : OrchestratorConfig) (room : String) (channel : Channel) (name : String)
        (input : a.Value) (w : W)
        → Same w (notify_tool a p config room channel name input w)
    unfolding notify_tool
    notify_tool-Same config room channel name input w = ground arith

    -- A step that may fail, and what follows it if it does not.
    abbrev pub after : {A B : Type 0} → W × Result A → (A → Act W B) → W × Result B
    after r f = elim r.1 [ ok x ↦ f x r.0 | err e ↦ (r.0, err e) ]

    bind-Same :
        {A B : Type 0} (w : W) (r : W × Result A) (f : A → Act W B)
        → Same w r.0
        → ((x : A) (v : W) → Same v (f x v).0)
        → Same w (after r f).0
    bind-Same w (v, ok x) f (e, e') h = let (g, g') = h x v in (g ∙ e, g' ∙ e')
    bind-Same w (v, err e) f h k = h

    pub receive_events-Same :
        (config : OrchestratorConfig) (room : String) (channel : Channel)
        (events : List (AgentEvent a.Value)) (response : String) (changed : Option String) (w : W)
        → Same w (receive_events a p config room channel events response changed w).0
    unfolding receive_events
    receive_events-Same config room channel [] response changed w = (refl, refl)
    receive_events-Same config room channel (text more ∷ events) response changed w =
        receive_events-Same config room channel events (response ^^ more) changed w
    receive_events-Same config room channel (tool_start name input ∷ events) response changed w =
        let (e, e') = notify_tool-Same config room channel name input w in
        let (g, g') =
          receive_events-Same config room channel events response changed
            (notify_tool a p config room channel name input w) in
        (g ∙ e, g' ∙ e')
    receive_events-Same config room channel (tool_progress ∷ events) response changed w =
        receive_events-Same config room channel events response changed w
    receive_events-Same config room channel (tool_end ∷ events) response changed w =
        receive_events-Same config room channel events response changed w
    receive_events-Same config room channel (result final ∷ events) response changed w =
        (refl, refl)
    receive_events-Same config room channel (error code reason ∷ events) response changed w =
        (refl, refl)
    receive_events-Same config room channel (session_invalid reason ∷ events) response changed w =
        (refl, refl)
    receive_events-Same config room channel (session_changed new_id ∷ events) response changed w =
        receive_events-Same config room channel events response (some new_id) w
    receive_events-Same config room channel (custom kind ∷ events) response changed w =
        receive_events-Same config room channel events response changed w

    pub send_chunks-Same :
        (room : String) (chunks : List String) (w : W) → Same w (send_chunks a p room chunks w).0
    unfolding send_chunks
    send_chunks-Same room [] w = (refl, refl)
    send_chunks-Same room (chunk ∷ chunks) w =
        let content = html chunk (p.markdown_to_html chunk) in
        bind-Same w (send_content a p room content w) (λ x. send_chunks a p room chunks)
          (send_content-Same room content w) (λ x v. send_chunks-Same room chunks v)

    keep_changed_eq :
        (room id : String) (i : ℕ) (w : W)
        → (update_session_id room id w.db).1 ≡ ok tt
        → keep_changed a p room i (some id) w ≡ record w {
          db = (update_session_id room id w.db).0;
          warm = set_session_id a id i w.warm;
        }
    unfolding keep_changed
    keep_changed_eq room id i w e = ground (arith, e)

    changed_Synced :
        (room id name : String) (i : ℕ) (w : W)
        → Synced room name i w.db w.warm
        → ((update_session_id room id w.db).1 ≡ ok tt)
          × Synced room name i (update_session_id room id w.db).0 (set_session_id a id i w.warm)
    unfolding update_session_id set_session_id
    changed_Synced room id name i w (sound, cached, ch, s, found, there, same) =
        let (done, sound', found') =
          updated_room (λ c. record c { session_id = id }) (λ c. refl) (λ c. refl) room w.db ch
            sound found in
        (
          done,
          (
            sound',
            cached,
            record ch { session_id = id },
            record s { session_id = id },
            found',
            cell-write_cell a (λ t. record t { session_id = id }) i s w.warm.cells there,
            refl,
          ),
        )

    pub keep_changed-Synced :
        (room name : String) (i : ℕ) (changed : Option String) (w : W)
        → Synced room name i w.db w.warm
        → let w' = keep_changed a p room i changed w in Synced room name i w'.db w'.warm
    unfolding keep_changed
    keep_changed-Synced room name i none w h = h
    keep_changed-Synced room name i (some id) w h =
        let (done, synced) = changed_Synced room id name i w h in
        rw (keep_changed_eq room id i w done) synced

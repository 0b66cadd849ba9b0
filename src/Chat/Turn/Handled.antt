-- ===== src/Chat/Turn/Handled.antt =====
-- gorp-core/src/orchestrator.rs, handle_agent_message: a prompt from the room to the answer.
use gorp_rs.Base.{
  ℕ, Char, String, Bool, true, false, ◌≡◌, refl, sym, ap, ◌∙◌, none, some, Result, ok, err, Error,
  error_text, arith, if◌then◌else◌,
}
use gorp_rs.Text.{Unicode, ◌^^◌}
use gorp_rs.Database.{Db, Channel, query}
use gorp_rs.Session.Channels.{get_by_room, update_session_id}
use gorp_rs.Warm.{Agents, WarmSession, WarmSessionManager, cell, get_existing_session, touch}
use gorp_rs.Warm.Sessions.{Prepared, send_prompt_with_handle}
use gorp_rs.Warm.Laws.{cell-write_cell, send_valid}
use gorp_rs.Warm.Prepare.{prepare_session_async}
use gorp_rs.Warm.Prepare.Races.{IsOwn, Ensures, prepare_session_async-IsOwn}
use gorp_rs.Warm.Prepare.Told.{Tells, prepare_session_async-Tells}
use gorp_rs.Chat.{
  Platform, OrchestratorConfig, HandleResult, handled, ignored, failed, World, Act, set_typing,
  reply, on_db,
}
use gorp_rs.Chat
use gorp_rs.Chat.Turn.{
  receive_events, process_agent_events, give_up, answered, prompted, Timing, ask_agent,
  agent_message_found, handle_agent_message,
}
use gorp_rs.Chat.Turn.Laws.{Same, Synced, after, receive_events-Same, set_typing-Same, updated_room}
use gorp_rs.Chat.Turn.Done.{Done, Ready, refused-Done, after-Done, conclude-Done}

pub read_ok :
    (room : String) (db : Db) (ch : Channel)
    → db.fault ≡ none
    → (get_by_room room db).1 ≡ ok (some ch)
    → get_by_room room db ≡ (db, ok (some ch))
unfolding get_by_room query
read_ok room db ch sound h = ground arith

module _ (a : Agents) (p : Platform a) (u : Unicode) (is_whitespace is_alphabetic : Char → Bool)
    (config : OrchestratorConfig) where
  abbrev W : Type 0
  W = World a p

  abbrev Handled : Type 0
  Handled = W × Result HandleResult

  process-Done :
      (uuid room name : String) (channel : Channel) (i : ℕ) (r : a.Receiver) (w : W)
      → Synced a room name i w.db w.warm
      → Done a p room name (
          process_agent_events a p u is_whitespace is_alphabetic config uuid room channel i
            (p.received r)
            w)
  unfolding process_agent_events
  process-Done uuid room name channel i r w h =
      let seen = receive_events a p config room channel (p.received r) "" none w in
      let (e, e') = receive_events-Same a p config room channel (p.received r) "" none w in
      conclude-Done a p u is_whitespace is_alphabetic config uuid room name channel i seen.1 seen.0
        (rw (e, e') h)

  -- The typing indicator is stopped behind the events.
  stopped : String → Handled → Handled
  stopped room processed =
      let s = set_typing a p room false processed.0 in
      elim s.1 [ ok _ ↦ (s.0, processed.1) | err e ↦ (s.0, err e) ]

  moved-Done :
      (room name : String) (v : W) (r : Result HandleResult) (s : W × Result (Unit {0}))
      → Same a p v s.0
      → Done a p room name (v, r)
      → Done a p room name (elim s.1 [ ok _ ↦ (s.0, r) | err e ↦ (s.0, err e) ])
  moved-Done room name v (ok handled) (s, ok x) (e, e') h = rw (e, e') h
  moved-Done room name v (ok ignored) (s, ok x) e h = tt
  moved-Done room name v (ok (failed reason)) (s, ok x) e h = tt
  moved-Done room name v (err f) (s, ok x) e h = tt
  moved-Done room name v r (s, err f) e h = tt

  give_up-Done :
      (room name intro : String) (e : Error) (w : W)
      → Done a p room name (give_up a p u is_whitespace is_alphabetic config room intro e w)
  unfolding give_up
  give_up-Done room name intro e w =
      after-Done a p room name (set_typing a p room false w)
        (λ x v.
          after a p (reply a p room (intro ^^ error_text e) v)
            (λ y. Chat.return (failed (error_text e))))
        (λ x v.
          refused-Done a p room name (error_text e) (reply a p room (intro ^^ error_text e) v))

  answered-Done :
      (uuid room name : String) (channel : Channel) (i : ℕ) (r : Result a.Receiver) (w : W)
      → Synced a room name i w.db w.warm
      → Done a p room name
          (answered a p u is_whitespace is_alphabetic config uuid room channel i r w)
  unfolding answered
  answered-Done uuid room name channel i (err e) w h = give_up-Done room name _ e w
  answered-Done uuid room name channel i (ok r) w h =
      let processed =
        process_agent_events a p u is_whitespace is_alphabetic config uuid room channel i
          (p.received r) w in
      moved-Done room name processed.0 processed.1 (set_typing a p room false processed.0)
        (set_typing-Same a p room false processed.0) (process-Done uuid room name channel i r w h)

  answered_if_Synced :
      (room name session_id : String) (ch : Channel) (i : ℕ) (is_new : Bool) (w : W)
      → w.db.fault ≡ none
      → (get_by_room room w.db).1 ≡ ok (some ch)
      → (is_new ≡ false → session_id ≡ ch.session_id)
      → let db = if is_new then (update_session_id room session_id w.db).0 else w.db in
        (db.fault ≡ none)
        × (ch' : Channel) × ((get_by_room room db).1 ≡ ok (some ch'))
        × (ch'.session_id ≡ session_id)
  unfolding update_session_id
  answered_if_Synced room name session_id ch i true w sound found same =
      let (done, sound', found') =
        updated_room (λ c. record c { session_id = session_id }) (λ c. refl) (λ c. refl) room w.db
          ch sound found in
      (sound', record ch { session_id = session_id }, found', refl)
  answered_if_Synced room name session_id ch i false w sound found same =
      (sound, ch, found, sym (same refl))

  -- A prepared session: it is cached, valid and has the ID that is told.
  prompted-Done :
      (sent : ℕ) (uuid room body : String) (ch : Channel) (i : ℕ) (session_id : String)
      (is_new : Bool) (w : W)
      → w.db.fault ≡ none
      → (get_by_room room w.db).1 ≡ ok (some ch)
      → IsOwn a ch.channel_name w.warm (i, session_id, is_new)
      → (is_new ≡ false → session_id ≡ ch.session_id)
      → Done a p room ch.channel_name (
          prompted a p u is_whitespace is_alphabetic config sent uuid room body ch
            (ok (i, session_id, is_new))
            w)
  unfolding prompted touch
  prompted-Done sent uuid room body ch i session_id is_new w sound found
        (cached, s, there, valid, id) same =
      let (sound', ch', found', same') =
        answered_if_Synced room ch.channel_name session_id ch i is_new w sound found same in
      let delivered = send_prompt_with_handle a sent i session_id body w.warm in
      let stored = if is_new then (update_session_id room session_id w.db).0 else w.db in
      answered-Done uuid room ch.channel_name ch i delivered.1
        (record w { db = stored; warm = delivered.0 })
        (
          sound',
          rw (send_valid a sent i session_id body s w.warm there valid) cached,
          ch',
          record s { last_used = sent },
          found',
          rw (send_valid a sent i session_id body s w.warm there valid)
              (cell-write_cell a (λ t. record t { last_used = sent }) i s w.warm.cells there),
          same' ∙ sym id,
        )

  -- The session that is warm for a channel has the ID of the store.
  abbrev IsCurrent : Channel → WarmSessionManager a → Type 0
  IsCurrent ch warm =
      (i : ℕ) (s : WarmSession a)
      → get_existing_session a ch.channel_name warm ≡ some i
      → cell a i warm.cells ≡ some s
      → s.session_id ≡ ch.session_id

  prepared-Done :
      (sent : ℕ) (uuid room body : String) (ch : Channel) (w : W) (ready : Prepared a)
      → w.db.fault ≡ none
      → (get_by_room room w.db).1 ≡ ok (some ch)
      → Ensures a (IsOwn a ch.channel_name) ready
      → Ensures a (Tells a ch) ready
      → Done a p room ch.channel_name (
          prompted a p u is_whitespace is_alphabetic config sent uuid room body ch ready.1
            (record w { warm = ready.0 }))
  unfolding prompted
  prepared-Done sent uuid room body ch w (warm, err e) sound found own told =
      give_up-Done room ch.channel_name "Failed to prepare session: " e (record w { warm = warm })
  prepared-Done sent uuid room body ch w (warm, ok (i, id, is_new)) sound found own told =
      prompted-Done sent uuid room body ch i id is_new (record w { warm = warm }) sound found own
        told

  ask_agent-Done :
      (t : Timing a p u is_whitespace is_alphabetic config) (uuid room body : String) (ch : Channel)
      (w : W)
      → ((v : WarmSessionManager a) → get_existing_session a ch.channel_name (t.meanwhile v) ≡ none)
      → w.db.fault ≡ none
      → (get_by_room room w.db).1 ≡ ok (some ch)
      → IsCurrent ch w.warm
      → Done a p room ch.channel_name
          (ask_agent a p u is_whitespace is_alphabetic config t uuid room body ch w)
  unfolding ask_agent
  ask_agent-Done t uuid room body ch w alone sound found current =
      prepared-Done t.sent_at uuid room body ch w
        (prepare_session_async a t.looked_at t.opened_at t.meanwhile ch w.warm) sound found
        (prepare_session_async-IsOwn a t.looked_at t.opened_at t.meanwhile ch w.warm alone)
        (prepare_session_async-Tells a t.looked_at t.opened_at t.meanwhile ch w.warm current)

  found-Done :
      (t : Timing a p u is_whitespace is_alphabetic config) (uuid room body : String) (ch : Channel)
      (w : W) (s : W × Result (Unit {0}))
      → Same a p w s.0
      → ((v : WarmSessionManager a) → get_existing_session a ch.channel_name (t.meanwhile v) ≡ none)
      → w.db.fault ≡ none
      → (get_by_room room w.db).1 ≡ ok (some ch)
      → IsCurrent ch w.warm
      → Done a p room ch.channel_name (
          after a p s (λ x. ask_agent a p u is_whitespace is_alphabetic config t uuid room body ch))
  found-Done t uuid room body ch w (v, ok x) (e, e') alone sound found current =
      ask_agent-Done t uuid room body ch v alone (ap (λ db. db.fault) e ∙ sound)
        (ap (λ db. (get_by_room room db).1) e ∙ found)
        (λ i s c k.
          current i s (ap (λ m. get_existing_session a ch.channel_name m) (sym e') ∙ c)
            (ap (λ m. cell a i m.cells) (sym e') ∙ k))
  found-Done t uuid room body ch w (v, err f) e alone sound found current = tt

  Done-handled :
      (room name : String) (r : Handled)
      → r.1 ≡ ok handled
      → Done a p room name r
      → Ready a p room name r.0.db r.0.warm
  Done-handled room name (w, ok handled) e h = h
  Done-handled room name (w, ok ignored) e h = absurd (ground (arith, e))
  Done-handled room name (w, ok (failed reason)) e h = absurd (ground (arith, e))
  Done-handled room name (w, err f) e h = absurd (ground (arith, e))

  message_eq :
      (t : Timing a p u is_whitespace is_alphabetic config) (uuid room body : String) (ch : Channel)
      (w : W)
      → (get_by_room room w.db) ≡ (w.db, ok (some ch))
      → handle_agent_message a p u is_whitespace is_alphabetic config t uuid room body w
        ≡ after a p
            (set_typing a p room true w)
            (λ x. ask_agent a p u is_whitespace is_alphabetic config t uuid room body ch)
  unfolding handle_agent_message agent_message_found on_db
  message_eq t uuid room body ch w e =
      ap
        (λ r.
          after a p (record w { db = r.0 }, r.1)
            (λ found.
              agent_message_found a p u is_whitespace is_alphabetic config t uuid room body found))
        e

  -- Over a sound connection, let a message for the agent come to a room whose channel has no warm
  -- session with another ID than the store, and let other tasks leave no session of the channel
  -- behind while one is opened. If it is handled without an error, the channel of the room is then
  -- marked as started, and its session ID in the store is that of the session that is warm for it.
  pub handle_agent_message-Ready :
      (t : Timing a p u is_whitespace is_alphabetic config) (uuid room body : String) (ch : Channel)
      (w : W)
      → w.db.fault ≡ none
      → (get_by_room room w.db).1 ≡ ok (some ch)
      → ((i : ℕ) (s : WarmSession a)
          → get_existing_session a ch.channel_name w.warm ≡ some i
          → cell a i w.warm.cells ≡ some s
          → s.session_id ≡ ch.session_id)
      → ((v : WarmSessionManager a) → get_existing_session a ch.channel_name (t.meanwhile v) ≡ none)
      → (handle_agent_message a p u is_whitespace is_alphabetic config t uuid room body w).1
        ≡ ok handled
      → let w' =
          (handle_agent_message a p u is_whitespace is_alphabetic config t uuid room body w).0 in
        Ready a p room ch.channel_name w'.db w'.warm
  handle_agent_message-Ready t uuid room body ch w sound found current alone done =
      Done-handled room ch.channel_name
        (handle_agent_message a p u is_whitespace is_alphabetic config t uuid room body w) done
        (rw (message_eq t uuid room body ch w (read_ok room w.db ch sound found)) (
          found-Done t uuid room body ch w (set_typing a p room true w)
            (set_typing-Same a p room true w) alone sound found current))

-- ===== src/Chat/Turn/Lost.antt =====
-- gorp-core/src/orchestrator.rs: a prompt whose session the agent has lost.
use gorp_rs.Base.{
  ℕ, Char, String, Bool, true, false, ◌≡◌, refl, ap, List, [], ◌∷◌, ◌++◌, Option, none, some,
  Result, ok, err, arith, All,
}
use gorp_rs.Text.{Unicode, ◌^^◌}
use gorp_rs.Database.{Channel}
use gorp_rs.Session.Channels.{get_by_room, reset_orphaned_session}
use gorp_rs.Warm.{Agents, WarmSession, cell, get_existing_session, set_invalidated, evict}
use gorp_rs.Warm.Sessions.{send_prompt_with_handle}
use gorp_rs.Warm.Laws.{cell-write_cell, send_invalidated, refusal, gone-none}
use gorp_rs.Chat.{
  Platform, OrchestratorConfig, HandleResult, failed, World, AgentEvent, text, tool_start,
  tool_progress, tool_end, result, error, session_invalid, session_changed, custom, reply,
  send_content,
}
use gorp_rs.Chat
use gorp_rs.Chat.Turn.{
  orphaned, is_orphaned, notify_tool, receive_events, process_agent_events, conclude,
  handle_session_orphaned, lost, lost_text,
}
use gorp_rs.Chat.Turn.Laws.{updated_room, after, receive_events-Same}

-- The events behind which the loop goes on, and those that tell that the session is lost.
abbrev pub goes_on : {V : Type 0} → AgentEvent V → Bool
goes_on (text more) = true
goes_on (tool_start name input) = true
goes_on tool_progress = true
goes_on tool_end = true
goes_on (result final) = false
goes_on (error code reason) = false
goes_on (session_invalid reason) = false
goes_on (session_changed id) = true
goes_on (custom kind) = true

abbrev pub tells_loss : {V : Type 0} → AgentEvent V → Bool
tells_loss (text more) = false
tells_loss (tool_start name input) = false
tells_loss tool_progress = false
tells_loss tool_end = false
tells_loss (result final) = false
tells_loss (error code reason) = is_orphaned code
tells_loss (session_invalid reason) = true
tells_loss (session_changed id) = false
tells_loss (custom kind) = false

module _ (a : Agents) (p : Platform a) (config : OrchestratorConfig) where
  receive_events-lost :
      (room : String) (channel : Channel) (before rest : List (AgentEvent a.Value))
      (event : AgentEvent a.Value) (response : String) (changed : Option String) (w : World a p)
      → All (λ (e : AgentEvent a.Value). goes_on e ≡ true) before
      → tells_loss event ≡ true
      → (receive_events a p config room channel (before ++ event ∷ rest) response changed w).1
        ≡ orphaned
  unfolding receive_events
  receive_events-lost room channel [] rest (error code reason) response changed w h k = rw k refl
  receive_events-lost room channel [] rest (session_invalid reason) response changed w h k = refl
  receive_events-lost room channel [] rest (text more) response changed w h k =
      absurd (ground (arith, k))
  receive_events-lost room channel [] rest (tool_start name input) response changed w h k =
      absurd (ground (arith, k))
  receive_events-lost room channel [] rest tool_progress response changed w h k =
      absurd (ground (arith, k))
  receive_events-lost room channel [] rest tool_end response changed w h k =
      absurd (ground (arith, k))
  receive_events-lost room channel [] rest (result final) response changed w h k =
      absurd (ground (arith, k))
  receive_events-lost room channel [] rest (session_changed id) response changed w h k =
      absurd (ground (arith, k))
  receive_events-lost room channel [] rest (custom kind) response changed w h k =
      absurd (ground (arith, k))
  receive_events-lost room channel (text more ∷ before) rest event response changed w h k =
      receive_events-lost room channel before rest event (response ^^ more) changed w h.1 k
  receive_events-lost room channel (tool_start name input ∷ before) rest event response changed w h
        k =
      receive_events-lost room channel before rest event response changed
        (notify_tool a p config room channel name input w) h.1 k
  receive_events-lost room channel (tool_progress ∷ before) rest event response changed w h k =
      receive_events-lost room channel before rest event response changed w h.1 k
  receive_events-lost room channel (tool_end ∷ before) rest event response changed w h k =
      receive_events-lost room channel before rest event response changed w h.1 k
  receive_events-lost room channel (result final ∷ before) rest event response changed w h k =
      absurd (ground (arith, h.0))
  receive_events-lost room channel (error code reason ∷ before) rest event response changed w h k =
      absurd (ground (arith, h.0))
  receive_events-lost room channel (session_invalid reason ∷ before) rest event response changed w h
        k =
      absurd (ground (arith, h.0))
  receive_events-lost room channel (session_changed id ∷ before) rest event response changed w h k =
      receive_events-lost room channel before rest event response (some id) w h.1 k
  receive_events-lost room channel (custom kind ∷ before) rest event response changed w h k =
      receive_events-lost room channel before rest event response changed w h.1 k

  answered :
      (v : World a p) (r : World a p × Result (Unit {0}))
      → (r.0.db ≡ v.db) × (r.0.warm ≡ v.warm)
      → let w' = (after a p r (λ y. Chat.return (failed "Session orphaned"))).0 in
        (w'.db ≡ v.db) × (w'.warm ≡ v.warm)
  answered v (w, ok x) h = h
  answered v (w, err e) h = h

  module _ (u : Unicode) (is_whitespace is_alphabetic : Char → Bool) where
    orphaned_eq :
        (uuid room : String) (channel : Channel) (i : ℕ) (w : World a p)
        → let w' =
            (conclude a p u is_whitespace is_alphabetic config uuid room channel i orphaned w).0 in
          let v = lost a p uuid room channel i w in (w'.db ≡ v.db) × (w'.warm ≡ v.warm)
    unfolding conclude handle_session_orphaned send_content
    orphaned_eq uuid room channel i w =
        answered (lost a p uuid room channel i w)
          (reply a p room (lost_text a p) (lost a p uuid room channel i w)) (refl, refl)

    processed_eq :
        (uuid room : String) (channel : Channel) (i : ℕ) (events : List (AgentEvent a.Value))
        (w : World a p)
        → (receive_events a p config room channel events "" none w).1 ≡ orphaned
        → let w' =
            (process_agent_events a p u is_whitespace is_alphabetic config uuid room channel i
              events w).0 in
          let v =
            lost a p uuid room channel i
              (receive_events a p config room channel events "" none w).0 in
          (w'.db ≡ v.db) × (w'.warm ≡ v.warm)
    unfolding process_agent_events
    processed_eq uuid room channel i events w e = rw e (
        orphaned_eq uuid room channel i (receive_events a p config room channel events "" none w).0)

    -- If the agent tells, over a sound connection and before any result or other error, that the
    -- session of a channel is lost, the channel has the fresh session ID in the store and is not
    -- started, no session is warm for it, and a prompt that is sent to the old handle is refused.
    pub process_agent_events-lost :
        (uuid room : String) (ch : Channel) (i now : ℕ) (s : WarmSession a)
        (before rest : List (AgentEvent a.Value)) (event : AgentEvent a.Value)
        (session_id body : String) (w : World a p)
        → w.db.fault ≡ none
        → (get_by_room room w.db).1 ≡ ok (some ch)
        → cell a i w.warm.cells ≡ some s
        → All (λ (e : AgentEvent a.Value). goes_on e ≡ true) before
        → tells_loss event ≡ true
        → let w' =
            (process_agent_events a p u is_whitespace is_alphabetic config uuid room ch i
              (before ++ event ∷ rest)
              w).0 in
          ((get_by_room room w'.db).1
            ≡ ok (some (record ch { session_id = uuid; started = false })))
          × (get_existing_session a ch.channel_name w'.warm ≡ none)
          × ((send_prompt_with_handle a now i session_id body w'.warm).1 ≡ err (refusal a))
    unfolding reset_orphaned_session set_invalidated evict
    process_agent_events-lost uuid room ch i now s before rest event session_id body w sound found
          there h k =
        let events = before ++ event ∷ rest in
        let (e, e') =
          processed_eq uuid room ch i events w
            (receive_events-lost room ch before rest event "" none w h k) in
        let (same, same') = receive_events-Same a p config room ch events "" none w in
        let (done, sound', found') =
          updated_room (λ c. record c { session_id = uuid; started = false }) (λ c. refl)
            (λ c. refl) room w.db ch sound found in
        let dropped = set_invalidated a true i w.warm in
        (
          rw (e, same) found',
          rw (e', same') (gone-none a ch.channel_name dropped),
          rw (e', same')
              (ap (λ r. r.1)
                (send_invalidated a now i session_id body (record s { invalidated = true })
                  (evict a ch.channel_name dropped).0
                  (cell-write_cell a (λ t. record t { invalidated = true }) i s w.warm.cells there)
                  refl)),
        )

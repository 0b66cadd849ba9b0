-- ===== src/Warm/Sessions.antt =====
-- gorp-core/src/warm_session.rs: how a session is opened, reused and prompted. The error "dangling handle"
-- stands for no code: an Arc always points to a session.
use gorp_rs.Base.{
  ℕ, String, Bool, true, false, not, ◌&&◌, ◌==◌, ltb, List, [], ◌∷◌, ◌++◌, length, Option, none,
  some, Result, ok, err, message, error_text, ◌>>=◌, if◌then◌else◌, find_key, put,
}
use gorp_rs.Text.{◌^^◌}
use gorp_rs.Database.{Channel}
use gorp_rs.Warm.{
  Reply, Agents, WarmConfig, WarmSessionManager, cell, touch, cleanup_stale, has_session, replied,
  timed_out,
}

module _ (a : Agents) where
  open a use {
    State, Handle, Receiver, Registry, Value, McpServerConfig, text, number, to_value, canonicalize,
    default_registry, create, load_session, new_session, prompt,
  }

  -- `config["…"] = …` where the option is given.
  abbrev option_value : {A : Type 0} → String → (A → Value) → Option A → List (String × Value)
  option_value key to none = []
  option_value key to (some x) = (key, to x) ∷ []

  abbrev servers_value : List McpServerConfig → Result (List (String × Value))
  servers_value [] = ok []
  servers_value (s ∷ servers) = to_value (s ∷ servers) >>= λ v. ok (("mcp_servers", v) ∷ [])

  unfoldable pub agent_options : String → String → WarmConfig a → Result (List (String × Value))
  agent_options backend_type working_dir config =
      let base = ("working_dir", text working_dir) ∷ ("binary", text config.agent_binary) ∷ [] in
      let mux =
        option_value "model" text config.model
        ++ option_value "max_tokens" number config.max_tokens
        ++ option_value "global_system_prompt_path" text config.global_system_prompt_path in
      if backend_type == "mux"
      then (servers_value config.mcp_servers >>= λ servers. ok (base ++ mux ++ servers))
      else ok base

  unfoldable pub create_agent_handle_with_config :
      Registry → String → WarmConfig a → Option String → State → State × Result Handle
  unfolding agent_options
  create_agent_handle_with_config registry working_dir config backend_override agents =
      let backend_type : String = elim backend_override [
        | some b ↦ b
        | none ↦ config.backend_type
      ] in
      elim (agent_options backend_type working_dir config) [
        | err e ↦ (agents, err e)
        | ok options ↦ create registry backend_type options agents
      ]

  unfoldable pub create_agent_handle : WarmSessionManager a → String → State → State × Result Handle
  unfolding create_agent_handle_with_config
  create_agent_handle w working_dir agents =
      create_agent_handle_with_config w.registry working_dir w.config none agents

  unfoldable pub created_session : State × Reply String → State × Result (String × Bool)
  created_session (st, replied (ok new_id)) = (st, ok (new_id, true))
  created_session (st, replied (err e)) =
      (st, err (message ("Failed to create new session: " ^^ error_text e)))
  created_session (st, timed_out) =
      (st, err (message "Timeout creating new session after 60 seconds"))

  -- A stored session is resumed; a new one is made when there is none or it cannot be resumed.
  unfoldable pub resumed_session :
      Channel → Handle → State × Reply (Unit {0}) → State × Result (String × Bool)
  unfolding created_session
  resumed_session channel handle (st, replied (ok _)) = (st, ok (channel.session_id, false))
  resumed_session channel handle (st, replied (err e)) = created_session (new_session handle st)
  resumed_session channel handle (st, timed_out) = created_session (new_session handle st)

  unfoldable pub open_session : Channel → Handle → State → State × Result (String × Bool)
  unfolding resumed_session created_session
  open_session channel handle st =
      if channel.started && not (channel.session_id == "")
      then resumed_session channel handle (load_session handle channel.session_id st)
      else created_session (new_session handle st)

  abbrev pub working_dir : Channel → State → String
  working_dir channel st = elim (canonicalize st channel.directory) [
    | some d ↦ d
    | none ↦ channel.directory
  ]

  -- An agent with a session, and whether the session is new.
  abbrev pub Opened : Type 0
  Opened = Handle × String × Bool

  unfoldable pub open_with : Channel → State × Result Handle → State × Result Opened
  unfolding open_session
  open_with channel (st, err e) = (st, err e)
  open_with channel (st, ok handle) =
      let opened = open_session channel handle st in
      (opened.0, opened.1 >>= λ o. ok (handle, o.0, o.1))

  -- A new cell, with its handle.
  unfoldable pub allocate : ℕ → Handle → String → WarmSessionManager a → WarmSessionManager a × ℕ
  allocate now handle session_id w = (
    record w {
      cells =
          w.cells
          ++ record {
            handle = handle;
            session_id = session_id;
            last_used = now;
            invalidated = false;
          }
            ∷ [];
    },
    length w.cells,
  )

  -- (session_handle, session_id, is_new_session)
  abbrev pub Prepared : Type 0
  Prepared = WarmSessionManager a × Result (ℕ × String × Bool)

  -- The answer for a session that is warm.
  unfoldable pub reuse : ℕ → ℕ → WarmSessionManager a → Prepared
  unfolding touch cell
  reuse now i w = elim (cell a i w.cells) [
    | none ↦ (w, err (message "dangling handle"))
    | some s ↦ (touch a now i w, ok (i, s.session_id, false))
  ]

  unfoldable pub keep_opened : ℕ → Channel → Result Opened → WarmSessionManager a → Prepared
  unfolding allocate
  keep_opened now channel (err e) w = (w, err e)
  keep_opened now channel (ok (handle, session_id, is_new)) w =
      let (w', i) = allocate now handle session_id w in
      (record w' { sessions = put channel.channel_name i w'.sessions }, ok (i, session_id, is_new))

  unfoldable pub get_or_create_session : ℕ → ℕ → Channel → WarmSessionManager a → Prepared
  unfolding cleanup_stale reuse create_agent_handle open_with keep_opened
  get_or_create_session now later channel w =
      let w1 = if ltb 1000 (length w.sessions) then cleanup_stale a now w else w in
      elim (find_key channel.channel_name w1.sessions) [
        | some i ↦ reuse now i w1
        | none ↦
            let opened =
              open_with channel
                (create_agent_handle w1 (working_dir channel w1.agents) w1.agents) in
            keep_opened later channel opened.1 (record w1 { agents = opened.0 })
      ]

  unfoldable pub prepare_session : ℕ → ℕ → Channel → WarmSessionManager a → Prepared
  unfolding reuse get_or_create_session
  prepare_session now later channel w = elim (find_key channel.channel_name w.sessions) [
    | some i ↦ reuse now i w
    | none ↦ get_or_create_session now later channel w
  ]

  -- The ID of a session that was made for a channel that was not warm.
  unfoldable pub pre_warm :
      ℕ → ℕ → Channel → WarmSessionManager a → WarmSessionManager a × Result (Option String)
  unfolding get_or_create_session
  pre_warm now later channel w =
      let made = get_or_create_session now later channel w in
      if has_session a channel.channel_name w
      then (w, ok none)
      else (made.0, made.1 >>= λ p. ok (if p.2 then some p.1 else none))

  unfoldable pub send_prompt_with_handle :
      ℕ → ℕ → String → String → WarmSessionManager a → WarmSessionManager a × Result Receiver
  unfolding cell touch
  send_prompt_with_handle now i session_id body w = elim (cell a i w.cells) [
    | none ↦ (w, err (message "dangling handle"))
    | some s ↦
        let used = touch a now i w in
        let sent = prompt s.handle session_id body used.agents in
        if s.invalidated
        then (w, err (message "Session was invalidated (orphaned). Please retry."))
        else (record used { agents = sent.0 }, sent.1)
  ]

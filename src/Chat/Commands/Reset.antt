-- ===== src/Chat/Commands/Reset.antt =====
-- gorp-core/src/orchestrator.rs, handle_reset: the channel after a reset.
use gorp_rs.Base.{
  ℕ, ◌≤◌, String, false, length, ◌≡◌, refl, ap, none, some, Result, ok, err, Option-cases,
  Bool-cases, inl, inr,
}
use gorp_rs.Database.{Db, Channel}
use gorp_rs.Session.Channels.{get_by_room, reset_orphaned_session}
use gorp_rs.Warm.{
  Agents, WarmSessionManager, get_existing_session, invalidate_session, is_held, set_invalidated,
}
use gorp_rs.Warm.Laws.{invalidate_none, invalidate_eq, gone-none}
use gorp_rs.Warm.Prepare.{prepare_session_async}
use gorp_rs.Warm.Prepare.Races.{Ensures}
use gorp_rs.Warm.Prepare.Fresh.{IsNew, prepare_session_async-IsNew}
use gorp_rs.Chat.{Platform, World, Act, HandleResult, handled, reply, send_content, on_db, on_warm}
use gorp_rs.Chat
use gorp_rs.Chat.Commands.{handle_reset, reset_found}
use gorp_rs.Chat.Turn.Laws.{updated_room, after}
use gorp_rs.Chat.Turn.Handled.{read_ok}

module _ (a : Agents) (p : Platform a) where
  invalidate_session-none :
      (name : String) (warm : WarmSessionManager a)
      → get_existing_session a name (invalidate_session a name warm).0 ≡ none
  unfolding set_invalidated
  invalidate_session-none name warm = elim (Option-cases (get_existing_session a name warm)) [
    | inl e ↦ rw (invalidate_none a name warm e) e
    | inr (i, e) ↦ elim (Bool-cases (is_held a i warm)) [
      | inl held ↦ rw (invalidate_eq a i name warm e, held) (gone-none a name warm)
      | inr free ↦ rw (invalidate_eq a i name warm e, free) (gone-none a name warm)
    ]
  ]

  abbrev W : Type 0
  W = World a p

  -- The store is written and the answer sent.
  abbrev rest : String → String → Db × Result (Unit {0}) → W → W × Result HandleResult
  rest uuid room stored w =
      after a p (record w { db = stored.0 }, stored.1)
        (λ x v.
          after a p (reply a p room "Session reset. Next message will start fresh." v)
            (λ y. Chat.return handled))

  reset_eq :
      (uuid room : String) (ch : Channel) (w : W)
      → get_by_room room w.db ≡ (w.db, ok (some ch))
      → handle_reset a p uuid room w
        ≡ rest uuid room
            (reset_orphaned_session uuid room w.db)
            (record w { warm = (invalidate_session a ch.channel_name w.warm).0 })
  unfolding handle_reset reset_found on_db on_warm
  reset_eq uuid room ch w e =
      ap (λ r. after a p (record w { db = r.0 }, r.1) (λ found. reset_found a p uuid room found)) e

  answered :
      (v : W) (r : W × Result (Unit {0}))
      → (r.0.db ≡ v.db) × (r.0.warm ≡ v.warm)
      → let w' = (after a p r (λ y. Chat.return handled)).0 in (w'.db ≡ v.db) × (w'.warm ≡ v.warm)
  answered v (w, ok x) h = h
  answered v (w, err e) h = h

  rest_eq :
      (uuid room : String) (stored : Db × Result (Unit {0})) (w : W)
      → let w' = (rest uuid room stored w).0 in (w'.db ≡ stored.0) × (w'.warm ≡ w.warm)
  unfolding send_content
  rest_eq uuid room (db, ok x) w =
      answered (record w { db = db })
        (reply a p room "Session reset. Next message will start fresh." (record w { db = db }))
        (refl, refl)
  rest_eq uuid room (db, err e) w = (refl, refl)

  -- Over a sound connection, `!reset` gives the channel of a room the fresh session ID and marks it as
  -- not started, and no session is warm for the channel, even if the answer cannot be sent. If other
  -- tasks leave no session of the channel behind while a session is prepared for it then, and drop none
  -- from memory, preparing gives an error or a session that was opened as a new one on a new agent,
  -- that the manager holds for the channel under the ID the caller gets, and that is none of the
  -- sessions there were when the reset ended.
  pub handle_reset-prepare_session_async :
      (uuid room : String) (ch : Channel) (w : W) (now later : ℕ)
      (meanwhile : WarmSessionManager a → WarmSessionManager a)
      → w.db.fault ≡ none
      → (get_by_room room w.db).1 ≡ ok (some ch)
      → ((v : WarmSessionManager a) → get_existing_session a ch.channel_name (meanwhile v) ≡ none)
      → ((v : WarmSessionManager a) → length v.cells ≤ length (meanwhile v).cells)
      → let w' = (handle_reset a p uuid room w).0 in
        let ch' = record ch { session_id = uuid; started = false } in
        ((get_by_room room w'.db).1 ≡ ok (some ch'))
        × (get_existing_session a ch.channel_name w'.warm ≡ none)
        × Ensures a (IsNew a ch' w'.warm) (prepare_session_async a now later meanwhile ch' w'.warm)
  unfolding reset_orphaned_session
  handle_reset-prepare_session_async uuid room ch w now later meanwhile sound found alone grown =
      let ch' = record ch { session_id = uuid; started = false } in
      let v = record w { warm = (invalidate_session a ch.channel_name w.warm).0 } in
      let (e, e') = rest_eq uuid room (reset_orphaned_session uuid room w.db) v in
      let cold = invalidate_session-none ch.channel_name w.warm in
      let (done, sound', found') =
        updated_room (λ c. record c { session_id = uuid; started = false }) (λ c. refl) (λ c. refl)
          room w.db ch sound found in
      rw (reset_eq uuid room ch w (read_ok room w.db ch sound found)) (
        rw e found',
        rw e' cold,
        rw e' (prepare_session_async-IsNew a now later meanwhile ch' v.warm alone grown cold refl),
      )

-- ===== src/Warm/Laws.antt =====
-- gorp-core/src/warm_session.rs: the cells, and what cleaning up and invalidating do to the sessions.
use gorp_rs.Base.{
  ℕ, zero, suc, ◌-◌, ◌<◌, ◌≤◌, String, true, false, not, ◌&&◌, ltb, List, [], ◌∷◌, ◌++◌, length,
  none, some, err, Error, message, ◌≡◌, refl, ap, arith, eq_refl, if◌then◌else◌, find_key,
  find_key-keep, find_key-without, without, DistinctKeys, Bool-cases, inl, inr,
}
use gorp_rs.Warm.{
  Agents, WarmSession, WarmSessionManager, cell, write_cell, is_held, stays, cleanup_stale,
  invalidate_session, set_invalidated, touch, get_existing_session,
}
use gorp_rs.Warm.Sessions.{send_prompt_with_handle}

module _ (a : Agents) where
  pub cell-write_cell :
      (f : WarmSession a → WarmSession a) (i : ℕ) (s : WarmSession a) (cells : List (WarmSession a))
      → cell a i cells ≡ some s
      → cell a i (write_cell a f i cells) ≡ some (f s)
  unfolding cell write_cell
  cell-write_cell f zero s [] h = ground arith
  cell-write_cell f zero s (t ∷ cells) h = ground arith
  cell-write_cell f (suc i) s [] h = ground arith
  cell-write_cell f (suc i) s (t ∷ cells) h = cell-write_cell f i s cells h

  pub length-write_cell :
      (f : WarmSession a → WarmSession a) (i : ℕ) (cells : List (WarmSession a))
      → length (write_cell a f i cells) ≡ length cells
  unfolding write_cell
  length-write_cell f zero [] = refl
  length-write_cell f zero (t ∷ cells) = refl
  length-write_cell f (suc i) [] = refl
  length-write_cell f (suc i) (t ∷ cells) = omega (arith, length-write_cell f i cells)

  pub cell_last :
      (s : WarmSession a) (cells : List (WarmSession a))
      → cell a (length cells) (cells ++ s ∷ []) ≡ some s
  unfolding cell
  cell_last s [] = refl
  cell_last s (t ∷ cells) = cell_last s cells

  pub cell_beyond :
      (i : ℕ) (cells : List (WarmSession a)) → length cells ≤ i → cell a i cells ≡ none
  unfolding cell
  cell_beyond i [] h = refl
  cell_beyond zero (t ∷ cells) h = absurd (omega (arith, h))
  cell_beyond (suc i) (t ∷ cells) h = cell_beyond i cells (omega (arith, h))

  pub cell_in_bounds :
      (i : ℕ) (cells : List (WarmSession a))
      → i < length cells
      → (s : WarmSession a) × (cell a i cells ≡ some s)
  unfolding cell
  cell_in_bounds i [] h = absurd (omega (arith, h))
  cell_in_bounds zero (t ∷ cells) h = (t, refl)
  cell_in_bounds (suc i) (t ∷ cells) h = cell_in_bounds i cells (omega (arith, h))

  -- In a map with one entry for each name, the cleanup drops the session of a channel if its mutex is
  -- free and it was idle for longer than `keep_alive_duration`, and keeps every other session of the
  -- channel under the same handle.
  pub cleanup_stale-get_existing_session :
      (now i : ℕ) (name : String) (s : WarmSession a) (w : WarmSessionManager a)
      → DistinctKeys w.sessions
      → get_existing_session a name w ≡ some i
      → cell a i w.cells ≡ some s
      → get_existing_session a name (cleanup_stale a now w) ≡ (
          if not (is_held a i w) && ltb w.config.keep_alive_duration (now - s.last_used)
          then none
          else some i)
  unfolding cleanup_stale stays
  cleanup_stale-get_existing_session now i name s w d h k =
      ground (arith, find_key-keep (stays a now w) name w.sessions d, h, k)

  abbrev pub refusal : Error
  refusal = message "Session was invalidated (orphaned). Please retry."

  pub send_none :
      (now i : ℕ) (id body : String) (w : WarmSessionManager a)
      → cell a i w.cells ≡ none
      → (send_prompt_with_handle a now i id body w).0 ≡ w
  unfolding send_prompt_with_handle
  send_none now i id body w h = ground (arith, h)

  pub send_invalidated :
      (now i : ℕ) (id body : String) (s : WarmSession a) (w : WarmSessionManager a)
      → cell a i w.cells ≡ some s
      → s.invalidated ≡ true
      → send_prompt_with_handle a now i id body w ≡ (w, err refusal)
  unfolding send_prompt_with_handle
  send_invalidated now i id body s w h v = ground (arith, h, v)

  pub send_valid :
      (now i : ℕ) (id body : String) (s : WarmSession a) (w : WarmSessionManager a)
      → cell a i w.cells ≡ some s
      → s.invalidated ≡ false
      → let sent = a.prompt s.handle id body w.agents in
        send_prompt_with_handle a now i id body w
        ≡ (record (touch a now i w) { agents = sent.0 }, sent.1)
  unfolding send_prompt_with_handle touch
  send_valid now i id body s w h v = ground (arith, h, v)

  abbrev pub gone : String → WarmSessionManager a → WarmSessionManager a
  gone name w = record w { sessions = without name w.sessions }

  pub invalidate_none :
      (name : String) (w : WarmSessionManager a)
      → get_existing_session a name w ≡ none
      → (invalidate_session a name w).0 ≡ w
  unfolding invalidate_session
  invalidate_none name w h = ground (arith, h)

  pub invalidate_eq :
      (i : ℕ) (name : String) (w : WarmSessionManager a)
      → get_existing_session a name w ≡ some i
      → (invalidate_session a name w).0
        ≡ (if is_held a i w then gone name w else set_invalidated a true i (gone name w))
  unfolding invalidate_session
  invalidate_eq i name w h = ground (arith, h)

  pub gone-none :
      (name : String) (w : WarmSessionManager a) → find_key name (without name w.sessions) ≡ none
  gone-none name w = ground (arith, find_key-without name name w.sessions, eq_refl name)

  -- After the invalidation of a channel that has a warm session, the channel has none. If the session
  -- was valid, a task that still has its handle gets an error when it sends a prompt, but only if the
  -- mutex of the session was free at the invalidation: if it was held, the prompt goes to the old agent.
  pub invalidate_session-send_prompt_with_handle :
      (now i : ℕ) (name session_id body : String) (s : WarmSession a) (w : WarmSessionManager a)
      → get_existing_session a name w ≡ some i
      → cell a i w.cells ≡ some s
      → s.invalidated ≡ false
      → let w' = (invalidate_session a name w).0 in
        (get_existing_session a name w' ≡ none)
        × ((send_prompt_with_handle a now i session_id body w').1 ≡ (
            if is_held a i w then (a.prompt s.handle session_id body w.agents).1 else err refusal))
  unfolding set_invalidated
  invalidate_session-send_prompt_with_handle now i name session_id body s w h k valid =
      elim (Bool-cases (is_held a i w)) [
        | inl held ↦
            rw (invalidate_eq i name w h, held)
              (
                gone-none name w,
                ap (λ r. r.1) (send_valid now i session_id body s (gone name w) k valid),
              )
        | inr free ↦
            rw (invalidate_eq i name w h, free)
              (
                gone-none name w,
                ap (λ r. r.1)
                    (send_invalidated now i session_id body (record s { invalidated = true })
                      (set_invalidated a true i (gone name w))
                      (cell-write_cell (λ t. record t { invalidated = true }) i s w.cells k) refl),
              )
      ]

-- ===== src/Warm/Steps/Frames.antt =====
-- gorp-core/src/warm_session.rs: what a step may do to the session of a channel, and the steps that
-- leave the map alone.
use gorp_rs.Base.{
  ℕ, ◌-◌, ◌≤◌, ◌<◌, String, Bool, false, ◌≡◌, refl, ap, length, Option, none, some, arith, find_key,
  Option-cases, Bool-cases, ◌⊎◌, inl, inr,
}
use gorp_rs.Warm.{
  Agents, WarmSession, cell, write_cell, touch, set_invalidated, evict, invalidate_session, is_held,
  get_existing_session,
}
use gorp_rs.Warm.Sessions.{reuse, send_prompt_with_handle}
use gorp_rs.Warm.Prepare.{look}
use gorp_rs.Warm.Prepare.Found.{look-none, look_dangling, look_invalidated, look_valid}
use gorp_rs.Warm.Laws.{send_none, send_invalidated, send_valid, length-write_cell}
use gorp_rs.Warm.Entries.{reuse-none, reuse-some}
use gorp_rs.Warm.Steps.{Manager}

module _ (a : Agents) (name : String) where
  abbrev pub at_name : Manager a → Option ℕ
  at_name w = get_existing_session a name w

  -- The mutex of a session is free, and it was idle for longer than `keep_alive_duration`.
  abbrev pub Stale : ℕ → Manager a → Type 0
  Stale i w =
      (now : ℕ) × (s : WarmSession a) × (cell a i w.cells ≡ some s)
      × (is_held a i w ≡ false)
      × (w.config.keep_alive_duration < now - s.last_used)

  -- Why the session of the channel is given up in a step.
  abbrev pub Ended : ℕ → Manager a → Manager a → Type 0
  Ended i w w' = (w' ≡ (evict a name w).0) ⊎ (w' ≡ (invalidate_session a name w).0) ⊎ Stale i w

  -- A step leaves the session of the channel alone, or it had none or gives it up: then the channel has
  -- none, or one in a new cell.
  abbrev pub Change : Manager a → Manager a → Type 0
  Change w w' =
      (at_name w' ≡ at_name w)
      ⊎ (((at_name w ≡ none) ⊎ ((i : ℕ) × (at_name w ≡ some i) × Ended i w w'))
          × ((at_name w' ≡ none) ⊎ (at_name w' ≡ some (length w.cells))))

  -- No cell is dropped.
  abbrev pub Effect : Manager a → Manager a → Type 0
  Effect w w' = Change w w' × (length w.cells ≤ length w'.cells)

  -- The map is left alone.
  abbrev pub Frame : Manager a → Manager a → Type 0
  Frame w w' = (w'.sessions ≡ w.sessions) × (length w.cells ≤ length w'.cells)

  pub Frame-Effect : (w w' : Manager a) → Frame w w' → Effect w w'
  Frame-Effect w w' (same, grown) = (inl (ap (find_key name) same), grown)

  pub write_cell-Frame :
      (f : WarmSession a → WarmSession a) (i : ℕ) (w : Manager a)
      → Frame w (record w { cells = write_cell a f i w.cells })
  write_cell-Frame f i w = (refl, omega (arith, length-write_cell a f i w.cells))

  pub touch-Frame : (now i : ℕ) (w : Manager a) → Frame w (touch a now i w)
  unfolding touch
  touch-Frame now i w = write_cell-Frame _ i w

  pub set_invalidated-Frame :
      (flag : Bool) (i : ℕ) (w : Manager a) → Frame w (set_invalidated a flag i w)
  unfolding set_invalidated
  set_invalidated-Frame flag i w = write_cell-Frame _ i w

  pub look-Frame : (now : ℕ) (q : String) (w : Manager a) → Frame w (look a now q w).0
  look-Frame now q w = elim (Option-cases (find_key q w.sessions)) [
    | inl e ↦ rw (look-none a now q w e) (refl, omega arith)
    | inr (i, e) ↦ elim (Option-cases (cell a i w.cells)) [
      | inl k ↦ rw (look_dangling a now i q w e k) (refl, omega arith)
      | inr (s, k) ↦ elim (Bool-cases s.invalidated) [
        | inl v ↦ rw (look_invalidated a now i q s w e k v) (refl, omega arith)
        | inr v ↦ rw (look_valid a now i q s w e k v) (touch-Frame now i w)
      ]
    ]
  ]

  pub send-Frame :
      (now i : ℕ) (id body : String) (w : Manager a)
      → Frame w (send_prompt_with_handle a now i id body w).0
  send-Frame now i id body w = elim (Option-cases (cell a i w.cells)) [
    | inl e ↦ rw (send_none a now i id body w e) (refl, omega arith)
    | inr (s, e) ↦ elim (Bool-cases s.invalidated) [
      | inl v ↦ rw (send_invalidated a now i id body s w e v) (refl, omega arith)
      | inr v ↦ rw (send_valid a now i id body s w e v) (touch-Frame now i w)
    ]
  ]

  pub reuse-Frame : (now i : ℕ) (w : Manager a) → Frame w (reuse a now i w).0
  reuse-Frame now i w = elim (Option-cases (cell a i w.cells)) [
    | inl e ↦ rw (reuse-none a now i w e) (refl, omega arith)
    | inr (s, e) ↦ rw (reuse-some a now i s w e) (touch-Frame now i w)
  ]

-- ===== src/Warm/Steps/Changes.antt =====
-- gorp-core/src/warm_session.rs: what each step does to the session of a channel.
use gorp_rs.Base.{
  ℕ, ◌-◌, ◌≤◌, String, true, ◌==◌, ◌≡◌, refl, ap, sym, ◌∙◌, [], ◌∷◌, ◌++◌, length, Option, none,
  some, Result, ok, err, arith, find_key, find_key-put, find_key-without, find_key-keep, put,
  without, length-append, Option-cases, Bool-cases, ◌⊎◌, inl, inr, ltb, eq_iff,
}
use gorp_rs.Database.{Channel}
use gorp_rs.Warm.{
  Agents, WarmSession, set_session_id, cleanup_stale, stays, evict, invalidate_session,
  insert_session, is_held, get_existing_session,
}
use gorp_rs.Warm.Sessions.{Opened, allocate, reuse, keep_opened, get_or_create_session}
use gorp_rs.Warm.Prepare.{insert_opened}
use gorp_rs.Warm.Laws.{
  cell_in_bounds, cleanup_stale-get_existing_session, invalidate_none, invalidate_eq,
}
use gorp_rs.Warm.Entries.{IsValid, All-find_key}
use gorp_rs.Warm.Steps.{
  Manager, Step, cleaned, evicted, dropped, marked, renamed, looked, inserted, made, sent,
  held_changed, agents_worked, cleaned_up, opened_for, get_or_create_found, get_or_create_missing,
}
use gorp_rs.Warm.Steps.Frames.{
  Stale, Ended, Change, Effect, Frame, Frame-Effect, write_cell-Frame, set_invalidated-Frame,
  look-Frame, send-Frame, reuse-Frame,
}

module _ (a : Agents) (name : String) where
  abbrev at_name : Manager a → Option ℕ
  at_name w = get_existing_session a name w

  -- The session of the channel stays, or the channel had none and has one in a new cell.
  abbrev Added : Manager a → Manager a → Type 0
  Added w w' =
      ((at_name w' ≡ at_name w) ⊎ ((at_name w ≡ none) × (at_name w' ≡ some (length w.cells))))
      × (length w.cells ≤ length w'.cells)

  Added-Effect : (w w' : Manager a) → Added w w' → Effect a name w w'
  Added-Effect w w' (inl same, grown) = (inl same, grown)
  Added-Effect w w' (inr (cold, fresh), grown) = (inr (inl cold, inr fresh), grown)

  Frame-Added : (w w' : Manager a) → Frame a name w w' → Added w w'
  Frame-Added w w' (same, grown) = (inl (ap (find_key name) same), grown)

  put-Added :
      (q : String) (s : WarmSession a) (w : Manager a)
      → find_key q w.sessions ≡ none
      → Added w
          (record w { sessions = put q (length w.cells) w.sessions; cells = w.cells ++ s ∷ [] })
  put-Added q s w e = (
    elim (Bool-cases (q == name)) [
      | inl k ↦ inr (
        ap (λ t. find_key t w.sessions) (sym ((eq_iff q name).0 k)) ∙ e,
        rw (find_key-put q name (length w.cells) w.sessions, k) refl,
      )
      | inr k ↦ inl (rw (find_key-put q name (length w.cells) w.sessions, k) refl)
    ],
    omega (arith, length-append w.cells (s ∷ [])),
  )

  insert_opened-Added :
      (now : ℕ) (channel : Channel) (opened : Result (Opened a)) (w : Manager a)
      → Added w (insert_opened a now channel opened w).0
  unfolding insert_opened insert_session allocate
  insert_opened-Added now channel (err e) w = (inl refl, omega arith)
  insert_opened-Added now channel (ok (handle, id, is_new)) w =
      elim (Option-cases (find_key channel.channel_name w.sessions)) [
        | inl e ↦ rw e (put-Added channel.channel_name _ w e)
        | inr (i, e) ↦ rw e (inl refl, omega (arith, length-append w.cells))
      ]

  keep_opened-Added :
      (now : ℕ) (channel : Channel) (opened : Result (Opened a)) (w : Manager a)
      → find_key channel.channel_name w.sessions ≡ none
      → Added w (keep_opened a now channel opened w).0
  unfolding keep_opened allocate
  keep_opened-Added now channel (err e) w h = (inl refl, omega arith)
  keep_opened-Added now channel (ok (handle, id, is_new)) w h = put-Added channel.channel_name _ w h

  -- What a cleanup does to the channel.
  abbrev Cleaned : Manager a → Manager a → Type 0
  Cleaned w w' =
      ((at_name w' ≡ at_name w)
        ⊎ ((i : ℕ) × (at_name w ≡ some i) × Stale a name i w × (at_name w' ≡ none)))
      × (length w'.cells ≡ length w.cells)

  cleanup_stale-Cleaned :
      (now : ℕ) (w : Manager a) → IsValid a w → Cleaned w (cleanup_stale a now w)
  unfolding cleanup_stale
  cleanup_stale-Cleaned now w (d, ps) = (
    elim (Option-cases (find_key name w.sessions)) [
      | inl e ↦ inl (rw (find_key-keep (stays a now w) name w.sessions d, e) refl)
      | inr (i, e) ↦
          let (s, k) = cell_in_bounds a i w.cells (All-find_key a w.cells name i w.sessions e ps) in
          let kept = cleanup_stale-get_existing_session a now i name s w d e k in
          elim (Bool-cases (is_held a i w)) [
            | inl held ↦ inl (rw held at kept ∙ sym e)
            | inr free ↦ elim (Bool-cases (ltb w.config.keep_alive_duration (now - s.last_used))) [
              | inl idle ↦ inr (i, e, (now, s, k, free, ground arith), rw (free, idle) at kept)
              | inr recent ↦ inl (rw (free, recent) at kept ∙ sym e)
            ]
          ]
    ],
    refl,
  )

  cleaned_up-Cleaned : (now : ℕ) (w : Manager a) → IsValid a w → Cleaned w (cleaned_up a now w)
  cleaned_up-Cleaned now w h = elim (Bool-cases (ltb 1000 (length w.sessions))) [
    | inl full ↦ rw full (cleanup_stale-Cleaned now w h)
    | inr room ↦ rw room (inl refl, refl)
  ]

  Cleaned-Effect : (w v w' : Manager a) → Cleaned w v → Added v w' → Effect a name w w'
  Cleaned-Effect w v w' (inl same, cells) (inl same', grown) = (inl (same' ∙ same), omega arith)
  Cleaned-Effect w v w' (inl same, cells) (inr (cold, fresh), grown) =
      (inr (inl (sym same ∙ cold), inr (fresh ∙ ap some cells)), omega arith)
  Cleaned-Effect w v w' (inr (i, warm, stale, gone), cells) (inl same', grown) =
      (inr (inr (i, warm, inr (inr stale)), inl (same' ∙ gone)), omega arith)
  Cleaned-Effect w v w' (inr (i, warm, stale, gone), cells) (inr (cold, fresh), grown) =
      (inr (inr (i, warm, inr (inr stale)), inr (fresh ∙ ap some cells)), omega arith)

  get_or_create_session-Effect :
      (now later : ℕ) (channel : Channel) (w : Manager a)
      → IsValid a w
      → Effect a name w (get_or_create_session a now later channel w).0
  get_or_create_session-Effect now later channel w h =
      let w1 = cleaned_up a now w in
      let cleaned_lem = cleaned_up-Cleaned now w h in
      elim (Option-cases (find_key channel.channel_name w1.sessions)) [
        | inl e ↦
            let opened = opened_for a channel w1 in
            rw (get_or_create_missing a now later channel w e) (
              Cleaned-Effect w w1 _ cleaned_lem
                (keep_opened-Added later channel opened.1 (record w1 { agents = opened.0 }) e))
        | inr (i, e) ↦ rw (get_or_create_found a now later i channel w e) (
            Cleaned-Effect w w1 _ cleaned_lem
              (Frame-Added w1 (reuse a now i w1).0 (reuse-Frame a name now i w1)))
      ]

  -- Another channel is evicted, or this one.
  without-Change :
      (q : String) (w w' : Manager a)
      → w'.sessions ≡ without q w.sessions
      → ((q ≡ name) → (i : ℕ) → at_name w ≡ some i → Ended a name i w w')
      → Change a name w w'
  without-Change q w w' e ended = elim (Bool-cases (q == name)) [
    | inl k ↦
        let gone : at_name w' ≡ none = rw e (rw (find_key-without q name w.sessions, k) refl) in
        elim (Option-cases (find_key name w.sessions)) [
          | inl cold ↦ inr (inl cold, inl gone)
          | inr (i, warm) ↦ inr (inr (i, warm, ended ((eq_iff q name).0 k) i warm), inl gone)
        ]
    | inr k ↦ inl (rw e (rw (find_key-without q name w.sessions, k) refl))
  ]

  evict-Effect : (q : String) (w : Manager a) → Effect a name w (evict a q w).0
  unfolding evict
  evict-Effect q w = (
    without-Change q w (evict a q w).0 refl (λ same i warm. inl (ap (λ t. (evict a t w).0) same)),
    omega arith,
  )

  -- An invalidation removes the entry of the channel, if there is one.
  invalidate_session-Effect :
      (q : String) (w : Manager a) → Effect a name w (invalidate_session a q w).0
  invalidate_session-Effect q w = elim (Option-cases (find_key q w.sessions)) [
    | inl e ↦ rw (invalidate_none a q w e) (inl refl, omega arith)
    | inr (i, e) ↦
        let (removed, grown) = entry_removed i e in
        (
          without-Change q w (invalidate_session a q w).0 removed
              (λ same j warm. inr (inl (ap (λ t. (invalidate_session a t w).0) same))),
          grown,
        )
  ]
    where
      entry_removed :
          (i : ℕ)
          → get_existing_session a q w ≡ some i
          → ((invalidate_session a q w).0.sessions ≡ without q w.sessions)
            × (length w.cells ≤ length (invalidate_session a q w).0.cells)
      entry_removed i e = elim (Bool-cases (is_held a i w)) [
        | inl held ↦ rw (invalidate_eq a i q w e, held) (refl, omega arith)
        | inr free ↦
            rw (invalidate_eq a i q w e, free)
              (set_invalidated-Frame a name true i (record w { sessions = without q w.sessions }))
      ]

  pub Step-Effect : (w w' : Manager a) → Step a w w' → IsValid a w → Effect a name w w'
  unfolding set_session_id
  Step-Effect _ _ (cleaned now w) h =
      let v = cleanup_stale a now w in
      Cleaned-Effect w v v (cleanup_stale-Cleaned now w h) (inl refl, omega arith)
  Step-Effect _ _ (evicted q w) h = evict-Effect q w
  Step-Effect _ _ (dropped q w) h = invalidate_session-Effect q w
  Step-Effect _ _ (marked flag i w) h =
      Frame-Effect a name w _ (set_invalidated-Frame a name flag i w)
  Step-Effect _ _ (renamed id i w) h = Frame-Effect a name w _ (write_cell-Frame a name _ i w)
  Step-Effect _ _ (looked now q w) h = Frame-Effect a name w _ (look-Frame a name now q w)
  Step-Effect _ _ (inserted now channel opened w) h =
      Added-Effect w _ (insert_opened-Added now channel opened w)
  Step-Effect _ _ (made now later channel w) h = get_or_create_session-Effect now later channel w h
  Step-Effect _ _ (sent now i id body w) h =
      Frame-Effect a name w _ (send-Frame a name now i id body w)
  Step-Effect _ _ (held_changed held w) h = (inl refl, omega arith)
  Step-Effect _ _ (agents_worked st w) h = (inl refl, omega arith)

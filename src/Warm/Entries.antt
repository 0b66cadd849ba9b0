-- ===== src/Warm/Entries.antt =====
-- gorp-core/src/warm_session.rs: the entries of the map under each operation.
use gorp_rs.Base.{
  ℕ, ◌≤◌, ◌<◌, String, Bool, true, false, not, ◌==◌, ◌≡◌, List, [], ◌∷◌, ◌++◌, length, keep, none,
  some, Result, ok, err, arith, All, All-keep, put, without, find_key, DistinctKeys,
  DistinctKeys-keep, DistinctKeys-put, length-append, Option-cases, Bool-cases, inl, inr,
}
use gorp_rs.Database.{Channel}
use gorp_rs.Warm.{
  Agents, WarmSession, WarmSessionManager, cell, write_cell, set_invalidated, touch, stays,
  cleanup_stale, insert_session, invalidate_session, is_held,
}
use gorp_rs.Warm.Sessions.{Opened, reuse, allocate, keep_opened, send_prompt_with_handle}
use gorp_rs.Warm.Prepare.Found.{look-none, look_dangling, look_invalidated, look_valid}
use gorp_rs.Warm.Laws.{
  invalidate_none, invalidate_eq, send_none, send_invalidated, send_valid, length-write_cell,
}
use gorp_rs.Warm.Prepare.{look, insert_opened}

module _ (a : Agents) where
  abbrev Manager : Type 0
  Manager = WarmSessionManager a

  abbrev Points : List (WarmSession a) → String × ℕ → Type 0
  Points cells e = e.1 < length cells

  -- Each channel has one entry, and each entry points to a session.
  abbrev pub IsValid : Manager → Type 0
  IsValid w = DistinctKeys w.sessions × All (Points w.cells) w.sessions

  Points-grown :
      (cells cells' : List (WarmSession a)) (m : List (String × ℕ))
      → length cells ≤ length cells'
      → All (Points cells) m
      → All (Points cells') m
  Points-grown cells cells' [] h p = tt
  Points-grown cells cells' (e ∷ m) h (p, ps) =
      (omega (arith, h, p), Points-grown cells cells' m h ps)

  All-put :
      (cells : List (WarmSession a)) (name : String) (i : ℕ) (m : List (String × ℕ))
      → i < length cells
      → All (Points cells) m
      → All (Points cells) (put name i m)
  All-put cells name i [] h p = (h, tt)
  All-put cells name i (e ∷ m) h (p, ps) = ground (arith, All-put cells name i m h ps)

  pub All-find_key :
      (cells : List (WarmSession a)) (name : String) (i : ℕ) (m : List (String × ℕ))
      → find_key name m ≡ some i
      → All (Points cells) m
      → i < length cells
  All-find_key cells name i [] e p = ground arith
  All-find_key cells name i (x ∷ m) e (p, ps) = ground (arith, All-find_key cells name i m)

  pub kept-IsValid :
      (p : String × ℕ → Bool) (w : Manager)
      → IsValid w
      → IsValid (record w { sessions = keep p w.sessions })
  kept-IsValid p w (d, ps) =
      (DistinctKeys-keep p w.sessions d, All-keep (Points w.cells) p w.sessions ps)

  pub write_cell-IsValid :
      (f : WarmSession a → WarmSession a) (i : ℕ) (w : Manager)
      → IsValid w
      → IsValid (record w { cells = write_cell a f i w.cells })
  write_cell-IsValid f i w (d, ps) = (
    d,
    Points-grown w.cells (write_cell a f i w.cells) w.sessions
        (omega (arith, length-write_cell a f i w.cells)) ps,
  )

  -- A new cell at the end, with an entry for it.
  added-IsValid :
      (s : WarmSession a) (name : String) (w : Manager)
      → IsValid w
      → IsValid
          (record w { cells = w.cells ++ s ∷ []; sessions = put name (length w.cells) w.sessions })
  added-IsValid s name w (d, ps) =
      let cells = w.cells ++ s ∷ [] in
      let grown = length-append w.cells (s ∷ []) in
      (
        DistinctKeys-put name (length w.cells) w.sessions d,
        All-put cells name (length w.cells) w.sessions (omega (arith, grown))
            (Points-grown w.cells cells w.sessions (omega (arith, grown)) ps),
      )

  grown-IsValid :
      (s : WarmSession a) (w : Manager)
      → IsValid w
      → IsValid (record w { cells = w.cells ++ s ∷ [] })
  grown-IsValid s w (d, ps) = (
    d,
    Points-grown w.cells (w.cells ++ s ∷ []) w.sessions
        (omega (arith, length-append w.cells (s ∷ []))) ps,
  )

  touch-IsValid : (now i : ℕ) (w : Manager) → IsValid w → IsValid (touch a now i w)
  unfolding touch
  touch-IsValid now i w h = write_cell-IsValid _ i w h

  pub set_invalidated-IsValid :
      (flag : Bool) (i : ℕ) (w : Manager) → IsValid w → IsValid (set_invalidated a flag i w)
  unfolding set_invalidated
  set_invalidated-IsValid flag i w h = write_cell-IsValid _ i w h

  pub cleanup_stale-IsValid : (now : ℕ) (w : Manager) → IsValid w → IsValid (cleanup_stale a now w)
  unfolding cleanup_stale
  cleanup_stale-IsValid now w h = kept-IsValid (stays a now w) w h

  pub invalidate_session-IsValid :
      (name : String) (w : Manager) → IsValid w → IsValid (invalidate_session a name w).0
  invalidate_session-IsValid name w h = elim (Option-cases (find_key name w.sessions)) [
    | inl e ↦ rw (invalidate_none a name w e) h
    | inr (i, e) ↦
        let gone = record w { sessions = without name w.sessions } in
        let valid : IsValid gone = kept-IsValid (λ e. not (e.0 == name)) w h in
        elim (Bool-cases (is_held a i w)) [
          | inl held ↦ rw (invalidate_eq a i name w e, held) valid
          | inr free ↦
              rw (invalidate_eq a i name w e, free) (set_invalidated-IsValid true i gone valid)
        ]
  ]

  pub look-IsValid :
      (now : ℕ) (name : String) (w : Manager) → IsValid w → IsValid (look a now name w).0
  look-IsValid now name w h = elim (Option-cases (find_key name w.sessions)) [
    | inl e ↦ rw (look-none a now name w e) h
    | inr (i, e) ↦ elim (Option-cases (cell a i w.cells)) [
      | inl k ↦ rw (look_dangling a now i name w e k) h
      | inr (s, k) ↦ elim (Bool-cases s.invalidated) [
        | inl v ↦ rw (look_invalidated a now i name s w e k v) h
        | inr v ↦ rw (look_valid a now i name s w e k v) (touch-IsValid now i w h)
      ]
    ]
  ]

  pub insert_opened-IsValid :
      (now : ℕ) (channel : Channel) (opened : Result (Opened a)) (w : Manager)
      → IsValid w
      → IsValid (insert_opened a now channel opened w).0
  unfolding insert_opened insert_session allocate
  insert_opened-IsValid now channel (err e) w h = h
  insert_opened-IsValid now channel (ok (handle, id, is_new)) w h =
      elim (Option-cases (find_key channel.channel_name w.sessions)) [
        | inl e ↦ rw e (added-IsValid _ channel.channel_name w h)
        | inr (i, e) ↦ rw e (grown-IsValid _ w h)
      ]

  pub keep_opened-IsValid :
      (now : ℕ) (channel : Channel) (opened : Result (Opened a)) (w : Manager)
      → IsValid w
      → IsValid (keep_opened a now channel opened w).0
  unfolding keep_opened allocate
  keep_opened-IsValid now channel (err e) w h = h
  keep_opened-IsValid now channel (ok (handle, id, is_new)) w h =
      added-IsValid _ channel.channel_name w h

  pub reuse-none : (now i : ℕ) (w : Manager) → cell a i w.cells ≡ none → (reuse a now i w).0 ≡ w
  unfolding reuse
  reuse-none now i w e = ground (arith, e)

  pub reuse-some :
      (now i : ℕ) (s : WarmSession a) (w : Manager)
      → cell a i w.cells ≡ some s
      → reuse a now i w ≡ (touch a now i w, ok (i, s.session_id, false))
  unfolding reuse
  reuse-some now i s w e = ground (arith, e)

  pub reuse-IsValid : (now i : ℕ) (w : Manager) → IsValid w → IsValid (reuse a now i w).0
  reuse-IsValid now i w h = elim (Option-cases (cell a i w.cells)) [
    | inl e ↦ rw (reuse-none now i w e) h
    | inr (s, e) ↦ rw (reuse-some now i s w e) (touch-IsValid now i w h)
  ]

  pub send-IsValid :
      (now i : ℕ) (id body : String) (w : Manager)
      → IsValid w
      → IsValid (send_prompt_with_handle a now i id body w).0
  send-IsValid now i id body w h = elim (Option-cases (cell a i w.cells)) [
    | inl e ↦ rw (send_none a now i id body w e) h
    | inr (s, e) ↦ elim (Bool-cases s.invalidated) [
      | inl v ↦ rw (send_invalidated a now i id body s w e v) h
      | inr v ↦ rw (send_valid a now i id body s w e v) (touch-IsValid now i w h)
    ]
  ]

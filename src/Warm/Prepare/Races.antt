-- ===== src/Warm/Prepare/Races.antt =====
-- gorp-core/src/warm_session.rs, prepare_session_async: which session a caller gets, and what happens to
-- its prompt.
use gorp_rs.Base.{
  ℕ, String, Bool, true, false, ◌≡◌, refl, ap, ◌∙◌, length, Option, none, some, Result, ok, err,
  arith, Bool-cases, Option-cases, inl, inr, find_key, find_key-put, eq_refl,
}
use gorp_rs.Database.{Channel}
use gorp_rs.Warm.{
  Agents, WarmSession, WarmSessionManager, cell, touch, insert_session, get_existing_session,
}
use gorp_rs.Warm.Sessions.{Opened, Prepared, allocate, send_prompt_with_handle}
use gorp_rs.Warm.Laws.{cell-write_cell, cell_last, send_valid}
use gorp_rs.Warm.Prepare.Found.{look-none, look_dangling, look_invalidated, look_valid}
use gorp_rs.Warm.Prepare.{look, open_outside, insert_opened, prepare_session_async}

module _ (a : Agents) where
  abbrev pub Manager : Type 0
  Manager = WarmSessionManager a

  -- A prepared session that the manager holds for the channel.
  abbrev IsCached : String → Manager → ℕ × String × Bool → Type 0
  IsCached name w p = get_existing_session a name w ≡ some p.0

  -- … and that is valid and has the ID that the caller got.
  abbrev pub IsOwn : String → Manager → ℕ × String × Bool → Type 0
  IsOwn name w p =
      IsCached name w p
      × (s : WarmSession a) × (cell a p.0 w.cells ≡ some s)
      × (s.invalidated ≡ false)
      × (s.session_id ≡ p.1)

  -- What holds of a result that is no error.
  abbrev pub Ensures : {A : Type 0} → (Manager → A → Type 0) → Manager × Result A → Type 0
  Ensures P (w, ok x) = P w x
  Ensures P (w, err e) = Unit

  insert_opened-IsCached :
      (later : ℕ) (channel : Channel) (opened : Result (Opened a)) (w : Manager)
      → Ensures (IsCached channel.channel_name) (insert_opened a later channel opened w)
  unfolding insert_opened insert_session allocate
  insert_opened-IsCached later channel (err e) w = tt
  insert_opened-IsCached later channel (ok (handle, session_id, is_new)) w =
      elim (Option-cases (find_key channel.channel_name w.sessions)) [
        | inl e ↦ rw e (
            ground (
              arith,
              find_key-put channel.channel_name channel.channel_name (length w.cells) w.sessions,
              eq_refl channel.channel_name,
            ))
        | inr (i, e) ↦ rw e e
      ]

  pub insert_opened-IsOwn :
      (later : ℕ) (channel : Channel) (opened : Result (Opened a)) (w : Manager)
      → get_existing_session a channel.channel_name w ≡ none
      → Ensures (IsOwn channel.channel_name) (insert_opened a later channel opened w)
  unfolding insert_opened insert_session allocate
  insert_opened-IsOwn later channel (err e) w h = tt
  insert_opened-IsOwn later channel (ok (handle, session_id, is_new)) w h = rw h (
    ground (
      arith,
      find_key-put channel.channel_name channel.channel_name (length w.cells) w.sessions,
      eq_refl channel.channel_name,
    ),
    record { handle = handle; session_id = session_id; last_used = later; invalidated = false },
    cell_last a _ w.cells,
    refl,
    refl,
  )

  -- The same for a look-up that finds a session.
  abbrev Finds : String → Manager × Option (ℕ × String) → Type 0
  Finds name (w, none) = Unit
  Finds name (w, some p) = IsOwn name w (p.0, p.1, false)

  touched :
      (now i : ℕ) (s : WarmSession a) (w : Manager)
      → cell a i w.cells ≡ some s
      → cell a i (touch a now i w).cells ≡ some (record s { last_used = now })
  unfolding touch
  touched now i s w h = cell-write_cell a (λ t. record t { last_used = now }) i s w.cells h

  look-Finds : (now : ℕ) (name : String) (w : Manager) → Finds name (look a now name w)
  unfolding touch
  look-Finds now name w = elim (Option-cases (find_key name w.sessions)) [
    | inl e ↦ rw (look-none a now name w e) tt
    | inr (i, e) ↦ elim (Option-cases (cell a i w.cells)) [
      | inl k ↦ rw (look_dangling a now i name w e k) tt
      | inr (s, k) ↦ elim (Bool-cases s.invalidated) [
        | inl v ↦ rw (look_invalidated a now i name s w e k v) tt
        | inr v ↦
            rw (look_valid a now i name s w e k v)
              (e, record s { last_used = now }, touched now i s w k, v, refl)
      ]
    ]
  ]

  IsOwn-IsCached :
      (name : String) (r : Manager × Result (ℕ × String × Bool))
      → Ensures (IsOwn name) r
      → Ensures (IsCached name) r
  IsOwn-IsCached name (w, ok p) h = h.0
  IsOwn-IsCached name (w, err e) h = tt

  -- A property of what is prepared holds if the insertion has it, and what is found has it.
  pub prepared :
      (P : Manager → ℕ × String × Bool → Type 0) (now later : ℕ) (meanwhile : Manager → Manager)
      (channel : Channel) (w : Manager)
      → ((i : ℕ) (id : String) (v : Manager)
          → IsOwn channel.channel_name v (i, id, false)
          → P v (i, id, false))
      → ((opened : Result (Opened a)) (v : Manager)
          → Ensures P (insert_opened a later channel opened (meanwhile v)))
      → Ensures P (prepare_session_async a now later meanwhile channel w)
  unfolding prepare_session_async
  prepared P now later meanwhile channel w found inserted =
      let looked = look a now channel.channel_name w in
      go looked.0 looked.1 (look-Finds now channel.channel_name w)
    where
      go :
          (v : Manager) (o : Option (ℕ × String))
          → Finds channel.channel_name (v, o)
          → Ensures P (elim o [
            | some p ↦ (v, ok (p.0, p.1, false))
            | none ↦
                (insert_opened a later channel
                  (open_outside a channel v).1
                  (meanwhile (record v { agents = (open_outside a channel v).0 })))
          ])
      go v none h = inserted (open_outside a channel v).1 _
      go v (some p) h = found p.0 p.1 v h

  Ensures_ok :
      {A : Type 0} (P : Manager → A → Type 0) (r : Manager × Result A) (x : A)
      → r.1 ≡ ok x
      → Ensures P r
      → P r.0 x
  Ensures_ok P (w, ok y) x e h = ground (arith, e, h)
  Ensures_ok P (w, err f) x e h = absurd (ground (arith, e))

  -- Whatever other tasks do while a session is opened, a session that is prepared without an error is
  -- the one that the manager then holds for the channel.
  pub prepare_session_async-get_existing_session :
      (now later : ℕ) (meanwhile : Manager → Manager) (channel : Channel) (w : Manager)
      (p : ℕ × String × Bool)
      → (prepare_session_async a now later meanwhile channel w).1 ≡ ok p
      → get_existing_session a channel.channel_name
          (prepare_session_async a now later meanwhile channel w).0
        ≡ some p.0
  prepare_session_async-get_existing_session now later meanwhile channel w p e =
      Ensures_ok (IsCached channel.channel_name)
        (prepare_session_async a now later meanwhile channel w) p e
        (prepared (IsCached channel.channel_name) now later meanwhile channel w (λ i id v h. h.0)
          (λ opened v. insert_opened-IsCached later channel opened (meanwhile v)))

  pub prepare_session_async-IsOwn :
      (now later : ℕ) (meanwhile : Manager → Manager) (channel : Channel) (w : Manager)
      → ((v : Manager) → get_existing_session a channel.channel_name (meanwhile v) ≡ none)
      → Ensures (IsOwn channel.channel_name) (prepare_session_async a now later meanwhile channel w)
  prepare_session_async-IsOwn now later meanwhile channel w alone =
      prepared (IsOwn channel.channel_name) now later meanwhile channel w (λ i id v h. h)
        (λ opened v. insert_opened-IsOwn later channel opened (meanwhile v) (alone v))

  -- If other tasks leave no session of the channel behind while one is opened, a prompt that is sent to
  -- a session that was prepared without an error goes to the agent of the session that the manager
  -- holds, under the session's own ID.
  pub send_prompt_with_handle-prepare_session_async :
      (now later sent : ℕ) (meanwhile : Manager → Manager) (channel : Channel) (body : String)
      (w : Manager) (p : ℕ × String × Bool)
      → ((v : Manager) → get_existing_session a channel.channel_name (meanwhile v) ≡ none)
      → (prepare_session_async a now later meanwhile channel w).1 ≡ ok p
      → let w' = (prepare_session_async a now later meanwhile channel w).0 in
        (s : WarmSession a) × (get_existing_session a channel.channel_name w' ≡ some p.0)
        × (cell a p.0 w'.cells ≡ some s)
        × (s.session_id ≡ p.1)
        × ((send_prompt_with_handle a sent p.0 p.1 body w').1
            ≡ (a.prompt s.handle s.session_id body w'.agents).1)
  send_prompt_with_handle-prepare_session_async now later sent meanwhile channel body w p alone e =
      let w' = (prepare_session_async a now later meanwhile channel w).0 in
      let (cached, s, there, valid, id) =
        Ensures_ok (IsOwn channel.channel_name)
          (prepare_session_async a now later meanwhile channel w) p e
          (prepare_session_async-IsOwn now later meanwhile channel w alone) in
      (
        s,
        cached,
        there,
        id,
        rw id (ap (λ r. r.1) (send_valid a sent p.0 p.1 body s w' there valid)),
      )

  insert_opened-existing :
      (later i : ℕ) (channel : Channel) (o : Opened a) (w : Manager)
      → get_existing_session a channel.channel_name w ≡ some i
      → (insert_opened a later channel (ok o) w).1 ≡ ok (i, o.1, o.2)
  unfolding insert_opened insert_session allocate
  insert_opened-existing later i channel o w h = rw h refl

  -- `prepare_session_async` after the look-up, if nothing else happens.
  abbrev continued : ℕ → ℕ → Channel → Manager × Option (ℕ × String) → Prepared a
  continued now later channel r = elim r.1 [
    | some p ↦ (r.0, ok (p.0, p.1, false))
    | none ↦
        insert_opened a later channel (open_outside a channel r.0).1
          (record r.0 { agents = (open_outside a channel r.0).0 })
  ]

  -- If the session of a channel is invalidated but not evicted, and other tasks do not change the
  -- manager while a new session is opened without an error, the caller gets the old handle with the ID
  -- of the new session.
  pub prepare_session_async-set_invalidated :
      (now later i : ℕ) (channel : Channel) (s : WarmSession a) (w : Manager) (o : Opened a)
      → get_existing_session a channel.channel_name w ≡ some i
      → cell a i w.cells ≡ some s
      → s.invalidated ≡ true
      → (open_outside a channel w).1 ≡ ok o
      → (prepare_session_async a now later (λ v. v) channel w).1 ≡ ok (i, o.1, o.2)
  unfolding prepare_session_async
  prepare_session_async-set_invalidated now later i channel s w o h k v e =
      ap (λ r. (continued now later channel r).1)
        (look_invalidated a now i channel.channel_name s w h k v)
      ∙ rw e (insert_opened-existing later i channel o _ h)

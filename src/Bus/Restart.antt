-- ===== src/Bus/Restart.antt =====
-- src/server.rs, lines 120-135: at a start the bus is filled from the bindings of the session store.
-- Then, and as long as both are written together (src/orchestrator.rs), they agree on every channel.
use mathlib.Core.Option
use gorp_rs.Base.{
  ℕ, String, true, false, ◌||◌, ◌≡◌, refl, List, [], ◌∷◌, ◌++◌, Option, none, some, arith, eq_iff,
  if◌then◌else◌, any, map, ok, first-none, inl, inr, any-append, Option-cases,
}
use gorp_rs.Sql.{query_row, delete}
use gorp_rs.Sql.Laws.{any-delete_le, any-delete_self}
use gorp_rs.Database.{Db, Binding, execute, query}
use gorp_rs.Session.Bindings.{
  binds, binding, bind_channel, unbind_channel, resolve_binding, list_all_bindings,
}
use gorp_rs.Session.Bindings.Laws.{resolve_binding-bind}
use gorp_rs.Bus.{
  ChannelMap, get, Broadcast, MessageBus, new, SessionTarget, dispatch, session, resolve_target,
  load_bindings, key_eq,
}
use gorp_rs.Bus
use gorp_rs.Bus.Laws.{get-insert, resolve_target-writes}

-- PRIMARY KEY (platform_id, channel_id) holds.
abbrev pub Distinct : List Binding → Type 0
Distinct [] = Unit
Distinct (b ∷ rows) = (any (binds b.platform_id b.channel_id) rows ≡ false) × Distinct rows

abbrev pub target_of : Option String → SessionTarget
target_of none = dispatch
target_of (some name) = session name

abbrev triple : Binding → String × String × String
triple b = (b.platform_id, b.channel_id, b.session_name)

none_left :
    (p c q d : String) (rows : List Binding)
    → any (binds p c) rows ≡ false
    → key_eq (p, c) (q, d) ≡ true
    → query_row (binds q d) rows ≡ none
none_left p c q d rows h k =
    let e : p ≡ q = ground (arith, eq_iff p q) in
    let f : c ≡ d = ground (arith, eq_iff c d) in rw (← e, ← f) (first-none (binds p c) rows h)

module _ (br : Broadcast) where
  load-lookup :
      (rows : List Binding) (bus : MessageBus br) (q d : String)
      → Distinct rows
      → resolve_target br (load_bindings br bus (map triple rows)) q d
        ≡ (elim (query_row (binds q d) rows) [
          | some b ↦ session b.session_name
          | none ↦ resolve_target br bus q d
        ])
  unfolding load_bindings resolve_target
  load-lookup [] bus q d u = refl
  load-lookup (b ∷ rows) bus q d u = ground (
    arith,
    get-insert b.platform_id b.channel_id b.session_name q d bus.channel_map,
    load-lookup rows
        (record bus {
          channel_map = Bus.insert (b.platform_id, b.channel_id) b.session_name bus.channel_map;
        })
        q d u.1,
    none_left b.platform_id b.channel_id q d rows u.0,
  )

  listed :
      (db : Db) (bindings : List (String × String × String))
      → (list_all_bindings db).1 ≡ ok bindings
      → bindings ≡ map triple db.channel_bindings
  unfolding list_all_bindings query
  listed db bindings h = ground arith

  resolved :
      (q d : String) (db : Db) (found : Option String)
      → (resolve_binding q d db).1 ≡ ok found
      → found ≡ Option.map (λ b. b.session_name) (query_row (binds q d) db.channel_bindings)
  unfolding resolve_binding query
  resolved q d db found h = ground arith

  empty-dispatch :
      (capacity : ℕ) (q d : String) → resolve_target br (new br capacity) q d ≡ dispatch
  unfolding resolve_target new get
  empty-dispatch capacity q d = refl

  -- A new bus that is filled with all stored bindings routes each channel to the session that the
  -- store resolves it to, and an unbound channel to DISPATCH, when both can be read and the primary
  -- key of the bindings holds.
  pub restart-agrees :
      (capacity : ℕ) (db : Db) (q d : String) (bindings : List (String × String × String))
      (found : Option String)
      → Distinct db.channel_bindings
      → (list_all_bindings db).1 ≡ ok bindings
      → (resolve_binding q d db).1 ≡ ok found
      → resolve_target br (load_bindings br (new br capacity) bindings) q d ≡ target_of found
  restart-agrees capacity db q d bindings found u all one =
      rw (listed db bindings all, resolved q d db found one)
        (ground (
          arith,
          load-lookup db.channel_bindings (new br capacity) q d u,
          empty-dispatch capacity q d,
        ))

  -- Over a sound connection, the store and the bus agree on a channel after both are written, if
  -- they did before, and both then hold the new binding of the channel that was bound or unbound.
  pub writes-agree :
      (db : Db) (bus : MessageBus br) (p c s q d : String) (before : Option String)
      → db.fault ≡ none
      → (resolve_binding q d db).1 ≡ ok before
      → resolve_target br bus q d ≡ target_of before
      → ((resolve_binding q d (bind_channel p c s db).0).1
          ≡ ok (if key_eq (p, c) (q, d) then some s else before))
        × (resolve_target br (Bus.bind_channel br bus p c s) q d
            ≡ target_of (if key_eq (p, c) (q, d) then some s else before))
        × ((resolve_binding q d (unbind_channel p c db).0).1
            ≡ ok (if key_eq (p, c) (q, d) then none else before))
        × (resolve_target br (Bus.unbind_channel br bus p c) q d
            ≡ target_of (if key_eq (p, c) (q, d) then none else before))
  writes-agree db bus p c s q d before sound h k =
      let (stored, removed) = resolve_binding-bind p c s q d db sound in
      let (routed, unrouted) = resolve_target-writes br bus p c s q d in
      (
        ground (arith, stored, h),
        ground (arith, routed, k),
        ground (arith, removed, h),
        ground (arith, unrouted, k),
      )

binds-kept :
    (p c : String) (b : Binding) (rows : List Binding)
    → any (binds p c) (rows ++ b ∷ []) ≡ (any (binds p c) rows || binds p c b)
binds-kept p c b rows = ground (arith, any-append (binds p c) rows (b ∷ []))

Distinct-delete :
    (p c : String) (rows : List Binding) → Distinct rows → Distinct (delete (binds p c) rows)
Distinct-delete p c [] u = tt
Distinct-delete p c (b ∷ rows) u = ground (
  arith,
  any-delete_le (binds b.platform_id b.channel_id) (binds p c) rows u.0,
  Distinct-delete p c rows u.1,
)

Distinct-snoc :
    (x : Binding) (rows : List Binding)
    → any (binds x.platform_id x.channel_id) rows ≡ false
    → Distinct rows
    → Distinct (rows ++ x ∷ [])
Distinct-snoc x [] h u = (refl, tt)
Distinct-snoc x (b ∷ rows) h u = ground (
  arith,
  binds-kept b.platform_id b.channel_id x rows,
  eq_iff b.platform_id x.platform_id,
  eq_iff b.channel_id x.channel_id,
  eq_iff x.platform_id b.platform_id,
  eq_iff x.channel_id b.channel_id,
  Distinct-snoc x rows,
  u.1,
)

-- Binding and unbinding keep the primary key of the stored bindings.
pub bindings-Distinct :
    (p c s : String) (db : Db)
    → Distinct db.channel_bindings
    → Distinct (bind_channel p c s db).0.channel_bindings
      × Distinct (unbind_channel p c db).0.channel_bindings
unfolding bind_channel unbind_channel execute
bindings-Distinct p c s db u =
    let without = Distinct-delete p c db.channel_bindings u in
    let with =
      Distinct-snoc (binding p c s) _ (any-delete_self (binds p c) db.channel_bindings) without in
    elim (Option-cases db.fault) [
      | inl sound ↦ rw sound (with, without)
      | inr (e, broken) ↦ rw broken (u, u)
    ]

-- ===== src/Session/Tasks/Events/Pending.antt =====
-- gorp-core/src/session.rs: which dispatch events are pending, and in which order.
use gorp_rs.Base.{
  String, Bool, not, ◌≡◌, refl, ap, ◌∙◌, List, [], ◌∷◌, none, some, ok, ◌==◌, arith, keep, collect,
  is_some, Result-cases, inl, inr,
}
use gorp_rs.Sql.{update, select}
use gorp_rs.Sql.Order.{order_by, order_by-keep}
use gorp_rs.Database.{Db, EventRow, execute, query}
use gorp_rs.Session.Tasks.Events.{
  Json, DispatchEvent, read_event, get_pending_dispatch_events, acknowledge_dispatch_event,
}

abbrev is_pending : EventRow → Bool
is_pending r = not (is_some r.acknowledged_at)

abbrev acknowledged : String → String → List EventRow → List EventRow
acknowledged id now rows =
    update (λ r. r.id == id) (λ r. record r { acknowledged_at = some now }) rows

abbrev in_order : List EventRow → List EventRow
in_order rows = order_by (λ r. r.created_at) (select is_pending rows)

acknowledge_eq :
    (id now : String) (db : Db)
    → db.fault ≡ none
    → (acknowledge_dispatch_event id now db).0
      ≡ record db { dispatch_events = acknowledged id now db.dispatch_events }
unfolding acknowledge_dispatch_event execute
acknowledge_eq id now db sound = ground arith

-- An acknowledged row is pending no more.
pending-acknowledged :
    (id now : String) (rows : List EventRow)
    → select is_pending (acknowledged id now rows)
      ≡ keep (λ r. not (r.id == id)) (select is_pending rows)
unfolding update
pending-acknowledged id now [] = refl
pending-acknowledged id now (r ∷ rows) = ground (arith, pending-acknowledged id now rows)

in_order-acknowledged :
    (id now : String) (rows : List EventRow)
    → in_order (acknowledged id now rows) ≡ keep (λ r. not (r.id == id)) (in_order rows)
in_order-acknowledged id now rows =
    ap (order_by (λ r. r.created_at)) (pending-acknowledged id now rows)
    ∙ order_by-keep (λ r. r.created_at) (λ r. not (r.id == id)) (select is_pending rows)

module _ (j : Json) where
  get_pending_eq :
      (db : Db)
      → db.fault ≡ none
      → (get_pending_dispatch_events j db).1 ≡ collect (read_event j) (in_order db.dispatch_events)
  unfolding get_pending_dispatch_events query
  get_pending_eq db sound = ground arith

  read_event-id : (r : EventRow) (e : DispatchEvent j) → read_event j r ≡ ok e → r.id ≡ e.id
  unfolding read_event
  read_event-id r e h = ground arith

  collect-keep :
      (id : String) (rows : List EventRow) (xs : List (DispatchEvent j))
      → collect (read_event j) rows ≡ ok xs
      → collect (read_event j) (keep (λ r. not (r.id == id)) rows)
        ≡ ok (keep (λ e. not (e.id == id)) xs)
  collect-keep id [] xs h = ground arith
  collect-keep id (r ∷ rows) xs h = elim (Result-cases (read_event j r)) [
    | inr (f, e) ↦ ground arith
    | inl (x, e) ↦ elim (Result-cases (collect (read_event j) rows)) [
      | inr (f, e') ↦ ground arith
      | inl (ys, e') ↦ ground (arith, read_event-id r x e, collect-keep id rows ys e', e, e')
    ]
  ]

  -- Acknowledging an event takes it off the pending ones and leaves the others in their order, when the
  -- pending events can be read over a sound connection.
  pub get_pending-acknowledge :
      (id now : String) (db : Db) (before : List (DispatchEvent j))
      → db.fault ≡ none
      → (get_pending_dispatch_events j db).1 ≡ ok before
      → (get_pending_dispatch_events j (acknowledge_dispatch_event id now db).0).1
        ≡ ok (keep (λ e. not (e.id == id)) before)
  get_pending-acknowledge id now db before sound h =
      rw
        (
          acknowledge_eq id now db sound,
          get_pending_eq (record db { dispatch_events = acknowledged id now db.dispatch_events })
              sound,
          in_order-acknowledged id now db.dispatch_events,
        )
        (collect-keep id (in_order db.dispatch_events) before (rw (get_pending_eq db sound) at h))

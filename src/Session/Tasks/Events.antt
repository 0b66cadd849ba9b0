-- ===== src/Session/Tasks/Events.antt =====
-- gorp-core/src/session.rs, lines 903-977: events from worker rooms, over the JSON library.
pub mod Pending
use gorp_rs.Base.{
  String, not, ◌==◌, List, Option, none, some, Result, ok, err, storage, collect, has_key, is_some,
  ◌≡◌, ◌>>=◌ as bind, or_err,
}
use gorp_rs.Sql.{update, select, insert}
use gorp_rs.Sql.Order.{order_by}
use gorp_rs.Database.{EventRow, Op, ◌>>=◌, execute, query, lift}

-- serde_json: values and their text.
pub record Json : Type 1 where
  pub Value : Type 0
  pub to_string : Value → Result String
  pub from_str : String → Option Value

module _ (j : Json) where
  pub record DispatchEvent : Type 0 where
    pub id : String
    pub source_room_id : String
    pub event_type : String
    pub payload : j.Value
    pub created_at : String
    pub acknowledged_at : Option String

  abbrev event_row : DispatchEvent → String → EventRow
  event_row e payload_str = record {
    id = e.id;
    source_room_id = e.source_room_id;
    event_type = e.event_type;
    payload = payload_str;
    created_at = e.created_at;
    acknowledged_at = e.acknowledged_at;
  }

  unfoldable pub insert_dispatch_event : DispatchEvent → Op (Unit {0})
  insert_dispatch_event e db = elim db.fault [
    | some f ↦ (db, err f)
    | none ↦
        (lift (j.to_string e.payload) >>= λ payload_str. execute λ d.
            bind
              (insert (has_key (λ r. r.id) e.id d.dispatch_events) (event_row e payload_str)
                d.dispatch_events)
              λ rows. ok (record d { dispatch_events = rows }))
          db
  ]

  unfoldable pub read_event : EventRow → Result DispatchEvent
  read_event r = bind (or_err (j.from_str r.payload) (storage "payload is not JSON")) λ v.
      ok (record {
        id = r.id;
        source_room_id = r.source_room_id;
        event_type = r.event_type;
        payload = v;
        created_at = r.created_at;
        acknowledged_at = r.acknowledged_at;
      })

  -- WHERE acknowledged_at IS NULL ORDER BY created_at ASC.
  unfoldable pub get_pending_dispatch_events : Op (List DispatchEvent)
  unfolding read_event
  get_pending_dispatch_events = query λ db. collect read_event (
      order_by (λ r. r.created_at)
        (select (λ r. not (is_some r.acknowledged_at)) db.dispatch_events))

unfoldable pub acknowledge_dispatch_event : String → String → Op (Unit {0})
acknowledge_dispatch_event id now = execute λ db. ok (record db {
  dispatch_events =
      update (λ r. r.id == id) (λ r. record r { acknowledged_at = some now }) db.dispatch_events;
})

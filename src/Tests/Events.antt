-- ===== src/Tests/Events.antt =====
-- The dispatch events of gorp-core/src/session.rs on concrete rows.
use gorp_rs.Sql.Order.{order_by, text_le}
use gorp_rs.Base.{String, true, ◌≡◌, refl, [], ◌∷◌, none, some, ok}
use gorp_rs.Database.{Db, EventRow, empty_db, query}
use gorp_rs.Session.Tasks.Events.{
  Json, DispatchEvent, get_pending_dispatch_events, acknowledge_dispatch_event,
}
use gorp_rs.Session.Tasks.Events.Pending.{get_pending-acknowledge}

-- Values that are their own text.
abbrev plain : Json
plain = record { Value = String; to_string = λ v. ok v; from_str = λ s. some s }

abbrev later_row : EventRow
later_row = record {
  id = "b";
  source_room_id = "!pa";
  event_type = "done";
  payload = "2";
  created_at = "2025-01-02";
  acknowledged_at = none;
}

abbrev earlier_row : EventRow
earlier_row = record later_row { id = "a"; payload = "1"; created_at = "2025-01-01" }

abbrev event : EventRow → DispatchEvent plain
event r = record {
  id = r.id;
  source_room_id = r.source_room_id;
  event_type = r.event_type;
  payload = r.payload;
  created_at = r.created_at;
  acknowledged_at = r.acknowledged_at;
}

abbrev two_events : Db
two_events = record (empty_db true) { dispatch_events = later_row ∷ earlier_row ∷ [] }

acknowledged_example :
    (get_pending_dispatch_events plain (acknowledge_dispatch_event "a" "now" two_events).0).1
    ≡ ok (event later_row ∷ [])
unfolding get_pending_dispatch_events query order_by text_le
acknowledged_example =
    get_pending-acknowledge plain "a" "now" two_events (event earlier_row ∷ event later_row ∷ [])
      refl refl

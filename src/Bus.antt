-- ===== src/Bus.antt =====
-- src/bus.rs: the message bus. A tokio broadcast channel is a parameter; the channel map is an
-- association list with one entry for each key, as in a HashMap.
pub mod Laws
pub mod Restart
use mathlib.Core.Option
use gorp_rs.Base.{
  ℕ, String, Bool, ◌&&◌, ◌==◌, List, [], ◌∷◌, Option, none, some, Result, keep, not, map,
  if◌then◌else◌,
}

pub data MessageSource : Type 0 where
  platform : String → String → MessageSource
  web : String → MessageSource
  api : String → MessageSource

pub data SessionTarget : Type 0 where
  dispatch : SessionTarget
  session : String → SessionTarget

pub record BusMessage : Type 0 where
  pub id : String
  pub source : MessageSource
  pub session_target : SessionTarget
  pub sender : String
  pub body : String
  pub timestamp : String

pub data ResponseContent : Type 0 where
  chunk complete error system_notice : String → ResponseContent

pub record BusResponse : Type 0 where
  pub session_name : String
  pub content : ResponseContent
  pub timestamp : String

-- `tokio::sync::broadcast`: a channel that `send` may refuse for want of a receiver.
pub record Broadcast : Type 1 where
  pub Sender : Type 0 → Type 0
  pub Receiver : Type 0 → Type 0
  pub channel : {A : Type 0} → ℕ → Sender A
  pub send : {A : Type 0} → Sender A → A → Sender A × Result ℕ
  pub subscribe : {A : Type 0} → Sender A → Sender A × Receiver A

abbrev pub Key : Type 0
Key = String × String

-- HashMap<(String, String), String>
abbrev pub ChannelMap : Type 0
ChannelMap = List (Key × String)

abbrev pub key_eq : Key → Key → Bool
key_eq a b = a.0 == b.0 && a.1 == b.1

unfoldable pub get : Key → ChannelMap → Option String
get k [] = none
get k (e ∷ m) = let rest = get k m in if key_eq e.0 k then some e.1 else rest

unfoldable pub insert : Key → String → ChannelMap → ChannelMap
insert k v [] = (k, v) ∷ []
insert k v (e ∷ m) = let rest = insert k v m in if key_eq e.0 k then (k, v) ∷ m else e ∷ rest

unfoldable pub remove : Key → ChannelMap → ChannelMap
remove k m = keep (λ e. not (key_eq e.0 k)) m

module _ (b : Broadcast) where
  pub record MessageBus : Type 0 where
    pub inbound_tx : b.Sender BusMessage
    pub outbound_tx : b.Sender BusResponse
    pub channel_map : ChannelMap

  -- `MessageBus::new`
  unfoldable pub new : ℕ → MessageBus
  new capacity = record {
    inbound_tx = b.channel capacity;
    outbound_tx = b.channel capacity;
    channel_map = [];
  }

  -- A send error is ignored.
  unfoldable pub publish_inbound : MessageBus → BusMessage → MessageBus
  publish_inbound bus msg = record bus { inbound_tx = (b.send bus.inbound_tx msg).0 }

  unfoldable pub publish_response : MessageBus → BusResponse → MessageBus
  publish_response bus resp = record bus { outbound_tx = (b.send bus.outbound_tx resp).0 }

  unfoldable pub subscribe_inbound : MessageBus → MessageBus × b.Receiver BusMessage
  subscribe_inbound bus =
      let (tx, rx) = b.subscribe bus.inbound_tx in (record bus { inbound_tx = tx }, rx)

  unfoldable pub subscribe_responses : MessageBus → MessageBus × b.Receiver BusResponse
  subscribe_responses bus =
      let (tx, rx) = b.subscribe bus.outbound_tx in (record bus { outbound_tx = tx }, rx)

  -- `resolve_target` and `resolve_target_async`; so for the pairs below.
  unfoldable pub resolve_target : MessageBus → String → String → SessionTarget
  unfolding get
  resolve_target bus platform_id channel_id = elim (get (platform_id, channel_id) bus.channel_map) [
    | some name ↦ session name
    | none ↦ dispatch
  ]

  unfoldable pub bind_channel : MessageBus → String → String → String → MessageBus
  unfolding insert
  bind_channel bus platform_id channel_id session_name = record bus {
    channel_map = insert (platform_id, channel_id) session_name bus.channel_map;
  }

  unfoldable pub unbind_channel : MessageBus → String → String → MessageBus
  unfolding remove
  unbind_channel bus platform_id channel_id = record bus {
    channel_map = remove (platform_id, channel_id) bus.channel_map;
  }

  unfoldable pub bindings_for_session : MessageBus → String → List Key
  bindings_for_session bus session_name =
      map (λ e. e.0) (keep (λ e. e.1 == session_name) bus.channel_map)

  unfoldable pub load_bindings : MessageBus → List (String × String × String) → MessageBus
  unfolding insert
  load_bindings bus [] = bus
  load_bindings bus ((p, c, s) ∷ bindings) =
      load_bindings (record bus { channel_map = insert (p, c) s bus.channel_map }) bindings

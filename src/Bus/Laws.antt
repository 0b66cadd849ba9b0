-- ===== src/Bus/Laws.antt =====
-- src/bus.rs: where a channel is routed after the bindings change.
use gorp_rs.Base.{String, ◌≡◌, [], ◌∷◌, none, some, arith, eq_iff, if◌then◌else◌}
use gorp_rs.Bus.{
  ChannelMap, key_eq, get, insert, remove, Broadcast, MessageBus, dispatch, session, resolve_target,
  bind_channel, unbind_channel,
}

pub get-insert :
    (p c v q d : String) (m : ChannelMap)
    → get (q, d) (insert (p, c) v m) ≡ (if key_eq (p, c) (q, d) then some v else get (q, d) m)
unfolding get insert
get-insert p c v q d [] = ground (arith, eq_iff p q, eq_iff c d)
get-insert p c v q d (((a, b), w) ∷ m) = ground (
  arith,
  eq_iff p q,
  eq_iff c d,
  eq_iff a p,
  eq_iff b c,
  eq_iff a q,
  eq_iff b d,
  get-insert p c v q d m,
)

pub get-remove :
    (p c q d : String) (m : ChannelMap)
    → get (q, d) (remove (p, c) m) ≡ (if key_eq (p, c) (q, d) then none else get (q, d) m)
unfolding get remove
get-remove p c q d [] = ground arith
get-remove p c q d (((a, b), w) ∷ m) = ground (
  arith,
  eq_iff p q,
  eq_iff c d,
  eq_iff a p,
  eq_iff b c,
  eq_iff a q,
  eq_iff b d,
  get-remove p c q d m,
)

-- A bound channel is routed to its session, an unbound one to DISPATCH, and every other channel goes
-- where it went.
pub resolve_target-writes :
    (b : Broadcast) (bus : MessageBus b) (p c s q d : String)
    → (resolve_target b (bind_channel b bus p c s) q d
        ≡ (if key_eq (p, c) (q, d) then session s else resolve_target b bus q d))
      × (resolve_target b (unbind_channel b bus p c) q d
          ≡ (if key_eq (p, c) (q, d) then dispatch else resolve_target b bus q d))
unfolding resolve_target bind_channel unbind_channel
resolve_target-writes b bus p c s q d = (
  ground (arith, get-insert p c s q d bus.channel_map),
  ground (arith, get-remove p c q d bus.channel_map),
)

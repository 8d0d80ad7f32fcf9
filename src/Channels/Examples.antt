-- ===== src/Channels/Examples.antt =====
-- One channel on concrete events, and the theorems applied to it.
use tea_desktop.Base.{ℕ, ◌<◌, ◌≡◌, arith, Bool, true, false, [], ◌∷◌, none, ltb}
use Prim.Native.String.{String}
use tea_desktop.Base.Text.{Text, codes}
use tea_desktop.Conversation.Values.{null}
use tea_desktop.AgentDrawer.Store.{MessageRef}
use tea_desktop.Channels.Projection.{
  Message, visible, state_active, ChannelEvent, message_received, message_deleted, message_revoked,
  pin_changed, ChannelProjection, create_channel_projection, update_messages, reduce_channel_event,
  apply_event, update_messages,
}
use tea_desktop.Channels.Bounds.{
  AreBounded, reduce_all, reduce_all-AreBounded, redelivered_event_rejected,
}
use tea_desktop.Channels.Removal.{Removal, Revocation, InEach, removed_and_revoked}

-- Texts of one code unit, in the order of their units.
abbrev after : Text → Text → Bool
after (c ∷ []) (d ∷ []) = ltb d c
after _ _ = false

abbrev ref_of : String → MessageRef
ref_of id = record {
  channel_ref = codes "x";
  message_client_id = codes id;
  message_server_id = none;
}

abbrev message : String → ℕ → Message
message id time = record {
  ref = ref_of id;
  sent_at = time;
  text = codes "Hi";
  content = visible null;
  state = state_active;
  pinned = false;
  reactions = null;
  receipt = null;
  details = null;
}

abbrev arrival : ChannelEvent
arrival = record {
  sequence = 1;
  event = message_received (message "b" 2 ∷ message "a" 2 ∷ message "c" 1 ∷ []);
}

abbrev pinning : ChannelEvent
pinning = record { sequence = 2; event = pin_changed (ref_of "a") true }

abbrev held : ChannelProjection
held = reduce_all after 2 create_channel_projection (arrival ∷ pinning ∷ [])

held_sequence : held.last_event_sequence < 3
unfolding reduce_all reduce_channel_event apply_event update_messages
held_sequence = omega arith

removed_and_revoked_example :
    InEach
      (Removal (ref_of "a" ∷ []))
      held.messages_by_channel
      (reduce_channel_event after 2 held
        (record { sequence = 3; event = message_deleted (ref_of "a" ∷ []) })).0.messages_by_channel
    × InEach
        (Revocation (ref_of "a" ∷ []))
        held.messages_by_channel
        (reduce_channel_event after 2 held (record {
          sequence = 3;
          event = message_revoked (ref_of "a" ∷ []);
        })).0.messages_by_channel
removed_and_revoked_example = removed_and_revoked after 2 held (ref_of "a" ∷ []) 3 held_sequence

reduce_all-AreBounded_example : AreBounded after 2 held
reduce_all-AreBounded_example =
    reduce_all-AreBounded after 2 create_channel_projection (arrival ∷ pinning ∷ []) tt

redelivered_event_rejected_example :
    reduce_channel_event after 2
      (reduce_all after 2
        (reduce_channel_event after 2 create_channel_projection arrival).0
        (pinning ∷ []))
      arrival
    ≡ (
      reduce_all after 2
          (reduce_channel_event after 2 create_channel_projection arrival).0
          (pinning ∷ []),
      false,
    )
redelivered_event_rejected_example =
    redelivered_event_rejected after 2 create_channel_projection arrival (pinning ∷ [])

-- ===== src/Channels/Projection.antt =====
-- src/features/channels/projection.ts: how pages and events change the channels and messages held.
-- Debug output is left out.
use tea_desktop.Base.{
  ℕ, ◌-◌, Bool, true, false, not, ◌&&◌, ◌||◌, List, [], ◌∷◌, ◌++◌, Option, none, some,
  if◌then◌else◌, length, ltb, leb, ◌==◌, any, drop, filter, get_or, map,
}
use tea_desktop.Base.Map
use tea_desktop.Base.Text.{Text, text_eq, is_empty}
use tea_desktop.Conversation.Values.{Json}
use tea_desktop.AgentDrawer.Store.{MessageRef}

-- A channel's other fields are only stored.
pub record Channel : Type 0 where
  pub ref : Text
  pub details : Json

pub data MessageContent : Type 0 where
  redacted : MessageContent
  visible : Json → MessageContent

pub data MessageState : Type 0 where
  state_active state_modified state_revoked state_deleted : MessageState

-- The fields that the projection reads or writes; `details` are the others.
pub record Message : Type 0 where
  pub ref : MessageRef
  pub sent_at : ℕ
  pub text : Text
  pub content : MessageContent
  pub state : MessageState
  pub pinned : Bool
  pub reactions : Json
  pub receipt : Json
  pub details : Json

pub data ChannelEventKind : Type 0 where
  channel_upserted : List Channel → ChannelEventKind
  channel_deleted : List Text → ChannelEventKind
  total_unread_changed : ℕ → ChannelEventKind
  message_received message_upserted : List Message → ChannelEventKind
  message_deleted message_revoked : List MessageRef → ChannelEventKind
  history_cleared : Text → Option ℕ → ChannelEventKind
  pin_changed : MessageRef → Bool → ChannelEventKind
  reactions_changed receipt_changed : MessageRef → Json → ChannelEventKind
  -- an event of another type
  other_event : ChannelEventKind

pub record ChannelEvent : Type 0 where
  pub sequence : ℕ
  pub event : ChannelEventKind

pub record ChannelProjection : Type 0 where
  pub channels : List (Text × Channel)
  pub messages_by_channel : List (Text × List Message)
  pub last_event_sequence : ℕ
  pub total_unread_count : ℕ

abbrev pub create_channel_projection : ChannelProjection
create_channel_projection = record {
  channels = [];
  messages_by_channel = [];
  last_event_sequence = 0;
  total_unread_count = 0;
}

-- Two server ids that are neither missing nor empty, and equal.
abbrev pub same_server_id : Option Text → Option Text → Bool
same_server_id none right = false
same_server_id (some l) none = false
same_server_id (some l) (some r) = not (is_empty l) && not (is_empty r) && text_eq l r

unfoldable pub same_message : MessageRef → MessageRef → Bool
same_message left right =
    text_eq left.channel_ref right.channel_ref
    && (text_eq left.message_client_id right.message_client_id
        || same_server_id left.message_server_id right.message_server_id)

-- The message takes the place of the first one that it is the same as, or stands last.
unfoldable pub put_message : Message → List Message → List Message
put_message message [] = message ∷ []
put_message message (candidate ∷ rest) =
    let later = put_message message rest in
    if same_message candidate.ref message.ref then message ∷ rest else candidate ∷ later

unfoldable pub put_all : List Message → List Message → List Message
put_all merged [] = merged
put_all merged (message ∷ rest) = put_all (put_message message merged) rest

abbrev pub set_all : List Channel → List (Text × Channel) → List (Text × Channel)
set_all [] held = held
set_all (channel ∷ rest) held = set_all rest (Map.set channel.ref channel held)

abbrev pub delete_all {ℓ} : {V : Type ℓ} → List Text → List (Text × V) → List (Text × V)
delete_all [] held = held
delete_all (ref ∷ rest) held = delete_all rest (Map.delete ref held)

unfoldable pub group_from : List (Text × List Message) → List Message → List (Text × List Message)
group_from grouped [] = grouped
group_from grouped (m ∷ rest) =
    let key = m.ref.channel_ref in
    group_from (Map.set key (get_or (Map.get key grouped) [] ++ (m ∷ [])) grouped) rest

abbrev pub group_by_channel : List Message → List (Text × List Message)
group_by_channel messages = group_from [] messages

abbrev pub matches_any : List MessageRef → Message → Bool
matches_any refs message = any (λ ref. same_message message.ref ref) refs

abbrev pub change_each :
    (List Message → List Message) → List (Text × List Message) → List (Text × List Message)
change_each change [] = []
change_each change ((ref, messages) ∷ rest) = (ref, change messages) ∷ change_each change rest

abbrev pub keep_unmatched : List MessageRef → List Message → List Message
keep_unmatched refs messages = filter (λ m. not (matches_any refs m)) messages

abbrev pub update_matched : List MessageRef → (Message → Message) → List Message → List Message
update_matched refs update messages = map (λ m. if matches_any refs m then update m else m) messages

unfoldable pub remove_messages : ChannelProjection → List MessageRef → ChannelProjection
remove_messages p refs = record p {
  messages_by_channel = change_each (keep_unmatched refs) p.messages_by_channel;
}

unfoldable pub update_messages :
    ChannelProjection → List MessageRef → (Message → Message) → ChannelProjection
update_messages p refs update = record p {
  messages_by_channel = change_each (update_matched refs update) p.messages_by_channel;
}

abbrev pub revoke : Message → Message
revoke message = record message { state = state_revoked; text = []; content = redacted }

unfoldable pub replace_channels : ChannelProjection → List Channel → ChannelProjection
replace_channels p channels =
    let held = set_all channels [] in
    record p {
      channels = held;
      messages_by_channel = filter (λ e. Map.has e.0 held) p.messages_by_channel;
    }

-- `after l r` stands for `l.localeCompare(r) > 0`.
module _ (after : Text → Text → Bool) (limit : ℕ) where
  abbrev pub sorts_after : Message → Message → Bool
  sorts_after l r =
      ltb r.sent_at l.sent_at
      || (l.sent_at == r.sent_at && after l.ref.message_client_id r.ref.message_client_id)

  -- A stable sort: a message goes before the first one that sorts after it.
  unfoldable pub insert : Message → List Message → List Message
  insert m [] = m ∷ []
  insert m (n ∷ rest) =
      let later = insert m rest in if sorts_after n m then m ∷ n ∷ rest else n ∷ later

  unfoldable pub sort_into : List Message → List Message → List Message
  sort_into sorted [] = sorted
  sort_into sorted (m ∷ rest) = sort_into (insert m sorted) rest

  unfoldable pub merge_messages : List Message → List Message → List Message
  merge_messages current incoming =
      let merged = sort_into [] (put_all [] (current ++ incoming)) in
      drop (length merged - limit) merged

  abbrev pub merge_into :
      Text → List Message → List (Text × List Message) → List (Text × List Message)
  merge_into ref messages held =
      Map.set ref (merge_messages (get_or (Map.get ref held) []) messages) held

  unfoldable pub merge_groups :
      List (Text × List Message) → List (Text × List Message) → List (Text × List Message)
  merge_groups held [] = held
  merge_groups held ((_, []) ∷ rest) = merge_groups held rest
  merge_groups held ((_, m ∷ messages) ∷ rest) =
      merge_groups (merge_into m.ref.channel_ref (m ∷ messages) held) rest

  abbrev pub merge_message_page : ChannelProjection → Text → List Message → ChannelProjection
  merge_message_page p ref items = record p {
    messages_by_channel = merge_into ref items p.messages_by_channel;
  }

  abbrev pub after_clearing : Option ℕ → List Message → List Message
  after_clearing none messages = []
  after_clearing (some before) messages = filter (λ m. ltb before m.sent_at) messages

  unfoldable pub apply_event : ChannelProjection → ChannelEventKind → ChannelProjection
  apply_event p (channel_upserted channels) = record p { channels = set_all channels p.channels }
  apply_event p (channel_deleted refs) = record p {
    channels = delete_all refs p.channels;
    messages_by_channel = delete_all refs p.messages_by_channel;
  }
  apply_event p (total_unread_changed total) = record p { total_unread_count = total }
  apply_event p (message_received messages) = record p {
    messages_by_channel = merge_groups p.messages_by_channel (group_by_channel messages);
  }
  apply_event p (message_upserted messages) = record p {
    messages_by_channel = merge_groups p.messages_by_channel (group_by_channel messages);
  }
  apply_event p (message_deleted refs) = remove_messages p refs
  apply_event p (message_revoked refs) = update_messages p refs revoke
  apply_event p (history_cleared ref before) = record p {
    messages_by_channel =
        Map.set ref (after_clearing before (get_or (Map.get ref p.messages_by_channel) []))
          p.messages_by_channel;
  }
  apply_event p (pin_changed ref pinned) =
      update_messages p (ref ∷ []) (λ m. record m { pinned = pinned })
  apply_event p (reactions_changed ref reactions) =
      update_messages p (ref ∷ []) (λ m. record m { reactions = reactions })
  apply_event p (receipt_changed ref receipt) =
      update_messages p (ref ∷ []) (λ m. record m { receipt = receipt })
  apply_event p other_event = p

  unfoldable pub reduce_channel_event : ChannelProjection → ChannelEvent → ChannelProjection × Bool
  reduce_channel_event p incoming =
      let next = record p { last_event_sequence = incoming.sequence } in
      if leb incoming.sequence p.last_event_sequence
      then (p, false)
      else (apply_event next incoming.event, true)

-- ===== src/Channels/Bounds.antt =====
-- projection.ts: what all events keep of the messages held, and events that are delivered again.
use tea_desktop.Base.{
  true, ℕ, suc, ◌-◌, ◌≤◌, ◌≡◌, refl, ap, Bool, false, not, List, [], ◌∷◌, ◌++◌, Option, none, some,
  if◌then◌else◌, length, ltb, leb, filter, get_or, map, arith, All, Bool-cases, Option-cases, inl,
  inr, length-drop, length-filter-le,
}
use tea_desktop.Base.Map
use tea_desktop.Base.Text.{Text}
use tea_desktop.AgentDrawer.Store.{MessageRef}
use tea_desktop.Channels.Projection.{
  Message, ChannelEvent, ChannelEventKind, channel_upserted, channel_deleted, total_unread_changed,
  message_received, message_upserted, message_deleted, message_revoked, history_cleared,
  pin_changed, reactions_changed, receipt_changed, other_event, ChannelProjection, matches_any,
  change_each, keep_unmatched, update_matched, remove_messages, update_messages, revoke,
  merge_messages, merge_groups, group_by_channel, apply_event, reduce_channel_event, delete_all,
  after_clearing, sort_into, put_all, merge_into,
}

All-filter :
    {A : Type 0} (P : A → Type 0) (p : A → Bool) (xs : List A) → All P xs → All P (filter p xs)
All-filter P p [] h = tt
All-filter P p (x ∷ xs) h = elim (Bool-cases (p x)) [
  | inl e ↦ rw e (h.0, All-filter P p xs h.1)
  | inr e ↦ rw e (All-filter P p xs h.1)
]

length-map : {A : Type 0} (f : A → A) (xs : List A) → length (map f xs) ≡ length xs
length-map f [] = refl
length-map f (x ∷ xs) = ap suc (length-map f xs)

module _ (after : Text → Text → Bool) (limit : ℕ) where
  abbrev IsShort : Text × List Message → Type 0
  IsShort e = length e.1 ≤ limit

  -- No channel holds more messages than the limit.
  abbrev pub AreBounded : ChannelProjection → Type 0
  AreBounded p = All (λ (e : Text × List Message). length e.1 ≤ limit) p.messages_by_channel

  length-merge_messages :
      (current incoming : List Message)
      → length (merge_messages after limit current incoming) ≤ limit
  unfolding merge_messages
  length-merge_messages current incoming =
      let merged = sort_into after limit [] (put_all [] (current ++ incoming)) in
      omega (arith, length-drop (length merged - limit) merged)

  shorter_each :
      (change : List Message → List Message)
      → ((xs : List Message) → length (change xs) ≤ length xs)
      → (held : List (Text × List Message)) → All IsShort held
      → All IsShort (change_each change held)
  shorter_each change f [] h = tt
  shorter_each change f ((ref, xs) ∷ held) h =
      (omega (arith, f xs, h.0), shorter_each change f held h.1)

  deleted_each :
      (refs : List Text) (held : List (Text × List Message))
      → All IsShort held
      → All IsShort (delete_all refs held)
  deleted_each [] held h = h
  deleted_each (ref ∷ refs) held h =
      deleted_each refs (Map.delete ref held) (Map.All-delete IsShort ref held h)

  merged_each :
      (held groups : List (Text × List Message))
      → All IsShort held
      → All IsShort (merge_groups after limit held groups)
  unfolding merge_groups
  merged_each held [] h = h
  merged_each held ((k, []) ∷ groups) h = merged_each held groups h
  merged_each held ((k, m ∷ messages) ∷ groups) h =
      merged_each (merge_into after limit m.ref.channel_ref (m ∷ messages) held) groups
        (Map.All-set IsShort m.ref.channel_ref _ held h (length-merge_messages _ (m ∷ messages)))

  updated_each :
      (refs : List MessageRef) (update : Message → Message) (xs : List Message)
      → length (update_matched refs update xs) ≤ length xs
  updated_each refs update xs =
      omega (arith, length-map (λ m. if matches_any refs m then update m else m) xs)

  held_short :
      (ref : Text) (held : List (Text × List Message))
      → All IsShort held
      → length (get_or (Map.get ref held) []) ≤ limit
  held_short ref held h = elim (Option-cases (Map.get ref held)) [
    | inl e ↦ rw e (omega arith)
    | inr (xs, e) ↦ rw e (Map.All-get IsShort ref xs held e h)
  ]

  cleared_short :
      (before : Option ℕ) (xs : List Message)
      → length xs ≤ limit
      → length (after_clearing after limit before xs) ≤ limit
  cleared_short none xs h = omega arith
  cleared_short (some t) xs h =
      omega (arith, h, length-filter-le (λ (m : Message). ltb t m.sent_at) xs)

  apply_event-AreBounded :
      (p : ChannelProjection) (k : ChannelEventKind)
      → AreBounded p
      → AreBounded (apply_event after limit p k)
  unfolding apply_event remove_messages update_messages
  apply_event-AreBounded p (channel_upserted channels) h = h
  apply_event-AreBounded p (channel_deleted refs) h = deleted_each refs p.messages_by_channel h
  apply_event-AreBounded p (total_unread_changed total) h = h
  apply_event-AreBounded p (message_received messages) h =
      merged_each p.messages_by_channel (group_by_channel messages) h
  apply_event-AreBounded p (message_upserted messages) h =
      merged_each p.messages_by_channel (group_by_channel messages) h
  apply_event-AreBounded p (message_deleted refs) h =
      shorter_each (keep_unmatched refs)
        (λ xs. length-filter-le (λ (m : Message). not (matches_any refs m)) xs)
        p.messages_by_channel h
  apply_event-AreBounded p (message_revoked refs) h =
      shorter_each (update_matched refs revoke) (updated_each refs revoke) p.messages_by_channel h
  apply_event-AreBounded p (history_cleared ref before) h =
      Map.All-set IsShort ref _ p.messages_by_channel h
        (cleared_short before _ (held_short ref p.messages_by_channel h))
  apply_event-AreBounded p (pin_changed ref pinned) h =
      shorter_each _ (updated_each (ref ∷ []) (λ m. record m { pinned = pinned }))
        p.messages_by_channel h
  apply_event-AreBounded p (reactions_changed ref reactions) h =
      shorter_each _ (updated_each (ref ∷ []) (λ m. record m { reactions = reactions }))
        p.messages_by_channel h
  apply_event-AreBounded p (receipt_changed ref receipt) h =
      shorter_each _ (updated_each (ref ∷ []) (λ m. record m { receipt = receipt }))
        p.messages_by_channel h
  apply_event-AreBounded p other_event h = h

  apply_event-sequence :
      (p : ChannelProjection) (k : ChannelEventKind)
      → (apply_event after limit p k).last_event_sequence ≡ p.last_event_sequence
  unfolding apply_event remove_messages update_messages
  apply_event-sequence p (channel_upserted channels) = refl
  apply_event-sequence p (channel_deleted refs) = refl
  apply_event-sequence p (total_unread_changed total) = refl
  apply_event-sequence p (message_received messages) = refl
  apply_event-sequence p (message_upserted messages) = refl
  apply_event-sequence p (message_deleted refs) = refl
  apply_event-sequence p (message_revoked refs) = refl
  apply_event-sequence p (history_cleared ref before) = refl
  apply_event-sequence p (pin_changed ref pinned) = refl
  apply_event-sequence p (reactions_changed ref reactions) = refl
  apply_event-sequence p (receipt_changed ref receipt) = refl
  apply_event-sequence p other_event = refl

  -- The projection after some events.
  unfoldable pub reduce_all : ChannelProjection → List ChannelEvent → ChannelProjection
  reduce_all p [] = p
  reduce_all p (e ∷ events) = reduce_all (reduce_channel_event after limit p e).0 events

  -- Whatever events arrive, no channel ever holds more messages than the limit.
  pub reduce_all-AreBounded :
      (p : ChannelProjection) (events : List ChannelEvent)
      → AreBounded p
      → AreBounded (reduce_all p events)
  unfolding reduce_all reduce_channel_event
  reduce_all-AreBounded p [] h = h
  reduce_all-AreBounded p (e ∷ events) h =
      reduce_all-AreBounded (reduce_channel_event after limit p e).0 events
        (elim (Bool-cases (leb e.sequence p.last_event_sequence)) [
          | inl old ↦ rw old h
          | inr new ↦
              rw new
                (apply_event-AreBounded (record p { last_event_sequence = e.sequence }) e.event h)
        ])

  -- An event leaves the last sequence at its own or beyond, and never sets it back.
  reduce_channel_event-sequence :
      (p : ChannelProjection) (e : ChannelEvent)
      → (p.last_event_sequence ≤ (reduce_channel_event after limit p e).0.last_event_sequence)
        × (e.sequence ≤ (reduce_channel_event after limit p e).0.last_event_sequence)
  unfolding reduce_channel_event
  reduce_channel_event-sequence p e =
      let same = apply_event-sequence (record p { last_event_sequence = e.sequence }) e.event in
      elim (Bool-cases (leb e.sequence p.last_event_sequence)) [
        | inl old ↦ rw old (omega arith, ground arith)
        | inr new ↦ rw new (rw same (ground arith, omega arith))
      ]

  reduce_all-sequence :
      (p : ChannelProjection) (events : List ChannelEvent)
      → p.last_event_sequence ≤ (reduce_all p events).last_event_sequence
  unfolding reduce_all
  reduce_all-sequence p [] = omega arith
  reduce_all-sequence p (e ∷ events) =
      let next = (reduce_channel_event after limit p e).0 in
      omega (arith, (reduce_channel_event-sequence p e).0, reduce_all-sequence next events)

  old_event_rejected :
      (p : ChannelProjection) (e : ChannelEvent)
      → e.sequence ≤ p.last_event_sequence
      → reduce_channel_event after limit p e ≡ (p, false)
  unfolding reduce_channel_event
  old_event_rejected p e h =
      let old : leb e.sequence p.last_event_sequence ≡ true = ground arith in rw old refl

  -- An event that is delivered a second time, whatever events came in between, is rejected and
  -- changes nothing.
  pub redelivered_event_rejected :
      (p : ChannelProjection) (e : ChannelEvent) (events : List ChannelEvent)
      → reduce_channel_event after limit
          (reduce_all (reduce_channel_event after limit p e).0 events)
          e
        ≡ (reduce_all (reduce_channel_event after limit p e).0 events, false)
  redelivered_event_rejected p e events =
      let first = (reduce_channel_event after limit p e).0 in
      old_event_rejected (reduce_all first events) e
        (omega (arith, (reduce_channel_event-sequence p e).1, reduce_all-sequence first events))

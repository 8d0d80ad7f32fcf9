-- ===== src/Channels/Removal.antt =====
-- projection.ts: which message a reference names (sameMessage), and the messages that the events
-- messageDeleted and messageRevoked leave.
use tea_desktop.Base.{
  ℕ, ◌<◌, ◌≡◌, refl, Bool, true, false, ◌⊎◌, ◌↔◌, List, [], ◌∷◌, Option, none, some, leb, arith,
  Bool-cases, inl, inr,
}
use tea_desktop.Base.Text.{Text, text_eq, text_eq_iff}
use tea_desktop.AgentDrawer.Store.{MessageRef}
use tea_desktop.Channels.Projection.{
  Message, redacted, state_revoked, message_deleted, message_revoked, ChannelProjection,
  same_server_id, same_message, matches_any, change_each, keep_unmatched, update_matched,
  remove_messages, update_messages, revoke, apply_event, reduce_channel_event,
}

-- Both have a server id, it is the same, and it is not empty.
abbrev pub SharesServerId : Option Text → Option Text → Type 0
SharesServerId (some (c ∷ l)) (some r) = c ∷ l ≡ r
SharesServerId _ _ = ⊥

-- Two references name one message: of one channel, with the same client id or the same server id.
abbrev pub IsSame : MessageRef → MessageRef → Type 0
IsSame left right =
    (left.channel_ref ≡ right.channel_ref)
    × ((left.message_client_id ≡ right.message_client_id)
        ⊎ SharesServerId left.message_server_id right.message_server_id)

-- One of the references names the message.
abbrev pub IsNamed : List MessageRef → Message → Type 0
IsNamed [] m = ⊥
IsNamed (ref ∷ refs) m = IsSame m.ref ref ⊎ IsNamed refs m

-- The second list is the first one without the messages that are named, in the same order.
pub data Removal (refs : List MessageRef) : List Message → List Message → Type 0 where
  no_more : Removal refs [] []
  leaves_out :
      {m : Message} {xs ys : List Message}
      → IsNamed refs m
      → Removal refs xs ys
      → Removal refs (m ∷ xs) ys
  keeps :
      {m : Message} {xs ys : List Message}
      → ¬ IsNamed refs m
      → Removal refs xs ys
      → Removal refs (m ∷ xs) (m ∷ ys)

-- What is known of a revoked message: nothing of its text and content, and all else as before.
abbrev pub IsRevoked : Message → Message → Type 0
IsRevoked m n =
    (n.state ≡ state_revoked)
    × (n.text ≡ [])
    × (n.content ≡ redacted)
    × (record n { state = m.state; text = m.text; content = m.content } ≡ m)

-- The second list is the first one with the messages that are named revoked, the others unchanged.
pub data Revocation (refs : List MessageRef) : List Message → List Message → Type 0 where
  no_others : Revocation refs [] []
  revokes :
      {m n : Message} {xs ys : List Message}
      → IsNamed refs m
      → IsRevoked m n
      → Revocation refs xs ys
      → Revocation refs (m ∷ xs) (n ∷ ys)
  leaves :
      {m : Message} {xs ys : List Message}
      → ¬ IsNamed refs m
      → Revocation refs xs ys
      → Revocation refs (m ∷ xs) (m ∷ ys)

-- The same channels, with lists of messages that are so related.
abbrev pub InEach :
    (List Message → List Message → Type 0)
    → List (Text × List Message)
    → List (Text × List Message)
    → Type 0
InEach R [] [] = Unit
InEach R ((k, xs) ∷ held) ((j, ys) ∷ next) = (k ≡ j) × R xs ys × InEach R held next
InEach R _ _ = ⊥

same_server_id_iff : (l r : Option Text) → (same_server_id l r ≡ true) ↔ SharesServerId l r
same_server_id_iff none r = (λ e. absurd (ground arith), λ h. absurd h)
same_server_id_iff (some []) none = (λ e. absurd (ground arith), λ h. absurd h)
same_server_id_iff (some (c ∷ l)) none = (λ e. absurd (ground arith), λ h. absurd h)
same_server_id_iff (some []) (some r) = (λ e. absurd (ground arith), λ h. absurd h)
same_server_id_iff (some (c ∷ l)) (some []) =
    (λ e. absurd (ground arith), λ h. absurd (ground arith))
same_server_id_iff (some (c ∷ l)) (some (d ∷ r)) = text_eq_iff (c ∷ l) (d ∷ r)

same_message_iff : (left right : MessageRef) → (same_message left right ≡ true) ↔ IsSame left right
unfolding same_message
same_message_iff left right =
    let channel = text_eq_iff left.channel_ref right.channel_ref in
    let client = text_eq_iff left.message_client_id right.message_client_id in
    let server = same_server_id_iff left.message_server_id right.message_server_id in
    (
      λ e. (
        channel.0 (ground arith),
        elim (Bool-cases (text_eq left.message_client_id right.message_client_id)) [
          | inl f ↦ inl (client.0 f)
          | inr f ↦ inr (server.0 (ground arith))
        ],
      ),
      λ h.
          rw (channel.1 h.0)
            (elim h.1 [ inl f ↦ rw (client.1 f) refl | inr f ↦ rw (server.1 f) (ground arith) ]),
    )

matches_any_iff :
    (refs : List MessageRef) (m : Message) → (matches_any refs m ≡ true) ↔ IsNamed refs m
matches_any_iff [] m = (λ e. absurd (ground arith), λ h. absurd h)
matches_any_iff (ref ∷ refs) m =
    let here = same_message_iff m.ref ref in
    let there = matches_any_iff refs m in
    (
      λ e. elim (Bool-cases (same_message m.ref ref)) [
        | inl f ↦ inl (here.0 f)
        | inr f ↦ inr (there.0 (ground arith))
      ],
      λ h. elim h [ inl f ↦ rw (here.1 f) refl | inr f ↦ rw (there.1 f) (ground arith) ],
    )

unmatched : (refs : List MessageRef) (m : Message) → matches_any refs m ≡ false → ¬ IsNamed refs m
unmatched refs m e h = absurd (ground (arith, (matches_any_iff refs m).1 h))

keep_unmatched-Removal :
    (refs : List MessageRef) (xs : List Message) → Removal refs xs (keep_unmatched refs xs)
keep_unmatched-Removal refs [] = no_more
keep_unmatched-Removal refs (x ∷ xs) = elim (Bool-cases (matches_any refs x)) [
  | inl e ↦ rw e (leaves_out ((matches_any_iff refs x).0 e) (keep_unmatched-Removal refs xs))
  | inr e ↦ rw e (keeps (unmatched refs x e) (keep_unmatched-Removal refs xs))
]

update_matched-Revocation :
    (refs : List MessageRef) (xs : List Message)
    → Revocation refs xs (update_matched refs revoke xs)
update_matched-Revocation refs [] = no_others
update_matched-Revocation refs (x ∷ xs) = elim (Bool-cases (matches_any refs x)) [
  | inl e ↦ rw e (
      revokes ((matches_any_iff refs x).0 e) (refl, refl, refl, refl)
        (update_matched-Revocation refs xs))
  | inr e ↦ rw e (leaves (unmatched refs x e) (update_matched-Revocation refs xs))
]

InEach-change_each :
    (R : List Message → List Message → Type 0) (change : List Message → List Message)
    → ((xs : List Message) → R xs (change xs))
    → (held : List (Text × List Message)) → InEach R held (change_each change held)
InEach-change_each R change f [] = tt
InEach-change_each R change f ((ref, xs) ∷ held) = (refl, f xs, InEach-change_each R change f held)

-- After a new event that deletes messages, each channel holds the messages that it held without
-- those that the event names, in the same order. After a new event that revokes messages, each
-- channel holds what it held, the messages named marked as revoked and their text and content
-- gone, the others unchanged. A message is named by a reference of its channel with its client
-- id, or with its server id where both have one that is not empty.
pub removed_and_revoked :
    (after : Text → Text → Bool) (limit : ℕ) (p : ChannelProjection) (refs : List MessageRef)
    → (n : ℕ) → p.last_event_sequence < n
    → InEach
        (Removal refs)
        p.messages_by_channel
        (reduce_channel_event after limit p
          (record { sequence = n; event = message_deleted refs })).0.messages_by_channel
      × InEach
          (Revocation refs)
          p.messages_by_channel
          (reduce_channel_event after limit p
            (record { sequence = n; event = message_revoked refs })).0.messages_by_channel
unfolding reduce_channel_event apply_event remove_messages update_messages
removed_and_revoked after limit p refs n new =
    let fresh : leb n p.last_event_sequence ≡ false = ground arith in
    (
      rw fresh (
          InEach-change_each (Removal refs) (keep_unmatched refs) (keep_unmatched-Removal refs)
            p.messages_by_channel),
      rw fresh (
          InEach-change_each (Revocation refs) (update_matched refs revoke)
            (update_matched-Revocation refs) p.messages_by_channel),
    )

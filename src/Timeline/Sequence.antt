-- ===== src/Timeline/Sequence.antt =====
-- Event sequences: what the reducer has seen it does not apply again.
use tea_desktop.Base.{◌<◌, ◌≤◌, ◌≡◌, refl, sym, ◌∙◌, ap, ◌++◌, List, [], ◌∷◌, arith, All, Bool}
use tea_desktop.Base.Text.{Text}
use tea_desktop.Conversation.{
  ConversationEvent, ConversationEventKind, ConversationTurn, run_started, message_delta,
  thought_delta, tool_requested, tool_progress, tool_completed, approval_requested, run_finished,
  run_failed, Nullish,
}
use tea_desktop.Timeline.Reducer.{
  on_message, on_thought, on_tool_requested, on_tool_progress, on_tool_completed,
  on_approval_requested, on_run_failed, on_event, reduce_turn, reduce_all,
}

on_thought-last :
    (next : ConversationTurn) (text : Text) (m : Nullish Text) (r : Bool)
    → (on_thought next text m r).last_event_sequence ≡ next.last_event_sequence
unfolding on_thought
on_thought-last next text m r = ground arith

-- No event changes the sequence that the reducer recorded.
pub on_event-last :
    (next : ConversationTurn) (k : ConversationEventKind)
    → (on_event next k).last_event_sequence ≡ next.last_event_sequence
unfolding on_event on_message on_tool_requested on_tool_progress on_tool_completed
    on_approval_requested on_run_failed
on_event-last next run_started = refl
on_event-last next (message_delta text terminal) = refl
on_event-last next (thought_delta text m r) = on_thought-last next text m r
on_event-last next (tool_requested id name a) = ground arith
on_event-last next (tool_progress id m c t) = ground arith
on_event-last next (tool_completed id s m) = ground arith
on_event-last next (approval_requested a id c r d) = ground arith
on_event-last next run_finished = refl
on_event-last next (run_failed f) = refl

on_thought-id :
    (next : ConversationTurn) (text : Text) (m : Nullish Text) (r : Bool)
    → (on_thought next text m r).id ≡ next.id
unfolding on_thought
on_thought-id next text m r = ground arith

pub on_event-id :
    (next : ConversationTurn) (k : ConversationEventKind) → (on_event next k).id ≡ next.id
unfolding on_event on_message on_tool_requested on_tool_progress on_tool_completed
    on_approval_requested on_run_failed
on_event-id next run_started = refl
on_event-id next (message_delta text terminal) = refl
on_event-id next (thought_delta text m r) = on_thought-id next text m r
on_event-id next (tool_requested id name a) = ground arith
on_event-id next (tool_progress id m c t) = ground arith
on_event-id next (tool_completed id s m) = ground arith
on_event-id next (approval_requested a id c r d) = ground arith
on_event-id next run_finished = refl
on_event-id next (run_failed f) = refl

-- A turn keeps its id.
pub reduce_turn-id : (t : ConversationTurn) (e : ConversationEvent) → (reduce_turn t e).id ≡ t.id
unfolding reduce_turn
reduce_turn-id t e =
    ground (arith, on_event-id (record t { last_event_sequence = e.sequence }) e.event)

pub reduce_turn_new :
    (t : ConversationTurn) (e : ConversationEvent)
    → t.last_event_sequence < e.sequence
    → reduce_turn t e ≡ on_event (record t { last_event_sequence = e.sequence }) e.event
unfolding reduce_turn
reduce_turn_new t e h = ground arith

pub reduce_turn-grows :
    (t : ConversationTurn) (e : ConversationEvent)
    → (t.last_event_sequence ≤ (reduce_turn t e).last_event_sequence)
      × (e.sequence ≤ (reduce_turn t e).last_event_sequence)
unfolding reduce_turn
reduce_turn-grows t e =
    ground (arith, on_event-last (record t { last_event_sequence = e.sequence }) e.event)

pub reduce_turn_stale :
    (t : ConversationTurn) (e : ConversationEvent)
    → e.sequence ≤ t.last_event_sequence
    → reduce_turn t e ≡ t
unfolding reduce_turn
reduce_turn_stale t e h = ground arith

-- The events that a turn has seen.
abbrev pub Seen : ConversationTurn → ConversationEvent → Type 0
Seen t e = e.sequence ≤ t.last_event_sequence

reduce_all-grows :
    (t : ConversationTurn) (es : List ConversationEvent)
    → t.last_event_sequence ≤ (reduce_all t es).last_event_sequence
unfolding reduce_all
reduce_all-grows t [] = omega arith
reduce_all-grows t (e ∷ es) =
    omega (arith, reduce_turn-grows t e, reduce_all-grows (reduce_turn t e) es)

reduce_all-Seen :
    (t : ConversationTurn) (es : List ConversationEvent) → All (Seen (reduce_all t es)) es
unfolding reduce_all
reduce_all-Seen t [] = tt
reduce_all-Seen t (e ∷ es) = (
  omega (arith, reduce_turn-grows t e, reduce_all-grows (reduce_turn t e) es),
  reduce_all-Seen (reduce_turn t e) es,
)

reduce_all_stale :
    (t : ConversationTurn) (es : List ConversationEvent) → All (Seen t) es → reduce_all t es ≡ t
unfolding reduce_all
reduce_all_stale t [] h = refl
reduce_all_stale t (e ∷ es) h =
    ap (λ u. reduce_all u es) (reduce_turn_stale t e h.0) ∙ reduce_all_stale t es h.1

pub reduce_all-append :
    (t : ConversationTurn) (es fs : List ConversationEvent)
    → reduce_all t (es ++ fs) ≡ reduce_all (reduce_all t es) fs
unfolding reduce_all
reduce_all-append t [] fs = refl
reduce_all-append t (e ∷ es) fs = reduce_all-append (reduce_turn t e) es fs

-- After a reconnection the events `fs` that were already delivered may come again before the new
-- events `gs`: the turn is the one that a single delivery of each gives.
pub redelivery_harmless :
    (t : ConversationTurn) (es fs gs : List ConversationEvent)
    → reduce_all (reduce_all t (es ++ fs)) (fs ++ gs) ≡ reduce_all t ((es ++ fs) ++ gs)
redelivery_harmless t es fs gs =
    reduce_all-append (reduce_all t (es ++ fs)) fs gs
    ∙ ap (λ u. reduce_all u gs) again
    ∙ sym (reduce_all-append t (es ++ fs) gs)
  where
    again : reduce_all (reduce_all t (es ++ fs)) fs ≡ reduce_all t (es ++ fs)
    again = rw (reduce_all-append t es fs) (
        reduce_all_stale (reduce_all (reduce_all t es) fs) fs
          (reduce_all-Seen (reduce_all t es) fs))

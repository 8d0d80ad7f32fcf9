-- ===== src/Timeline/WellFormed.antt =====
-- Every event keeps the blocks of a turn well formed (`Timeline.Identity`).
use tea_desktop.Base.{
  subst, ℕ, ◌<◌, ◌≡◌, ◌≢◌, refl, sym, ◌∙◌, ◌++◌, List, [], ◌∷◌, Bool, true, false, not, Option,
  none, some, arith, All, All-append, All-imp, All-filter, All-last, filter, map-append, Bool-cases,
  Option-cases, inl, inr, last?, get_or, ◌&&◌,
}
use tea_desktop.Base.Text.{Text, text_eq, text_eq_iff, is_empty}
use tea_desktop.Conversation.{
  ConversationTurn, ConversationTurnBlock, assistant_text, agent_thought, tool_call, failure_tip,
  block_id, TerminalStatus, ToolCallBlock, ConversationEventKind, run_started, message_delta,
  thought_delta, tool_requested, tool_progress, tool_completed, approval_requested, run_finished,
  run_failed, ConversationEvent, ConversationFailure, Nullish, AgentThoughtBlock,
}
use tea_desktop.Timeline.Blocks.{find_tool, replace_block, close_streaming_text, close_turn_blocks}
use tea_desktop.Timeline.Reducer.{
  on_message, on_thought, on_tool_requested, on_tool_progress, on_tool_completed,
  on_approval_requested, on_run_failed, on_event, reduce_turn, push_message, message_blocks,
  push_thought, replace_thought, thought_with, put_tool, new_tool, failure_status, same_strict,
  or_null,
}
use native.Mathlib.Decide.{dec_le}
use tea_desktop.Timeline.Sequence.{reduce_turn_new, reduce_turn_stale}
use tea_desktop.Timeline.Identity.{
  IsForeign, IsOwn, ids, Distinct, AreWellFormed, IsWellFormed, Distinct-snoc, ids-replace,
  ids-close_streaming, ids-close_turn, Owns-replace, Owns-close_streaming, Owns-close_turn,
  assistant-ne, thought-ne, failure-ne, IsOwn-mono,
}

pub find_tool-IsForeign :
    (turn_id : Text) (last : ℕ) (bs : List ConversationTurnBlock) (id : Text) (t : ToolCallBlock)
    → All (IsOwn turn_id last) bs
    → find_tool bs id ≡ some t
    → IsForeign turn_id t.id
unfolding find_tool
find_tool-IsForeign turn_id last [] id t o h = cc
find_tool-IsForeign turn_id last (tool_call b ∷ bs) id t o h = elim (Bool-cases (text_eq b.id id)) [
  | inl e ↦ subst (λ (x : ToolCallBlock). IsForeign turn_id x.id) {x = b} {y = t} (ground arith) o.0
  | inr e ↦ find_tool-IsForeign turn_id last bs id t o.1 (ground arith)
]
find_tool-IsForeign turn_id last (assistant_text b ∷ bs) id t o h =
    find_tool-IsForeign turn_id last bs id t o.1 h
find_tool-IsForeign turn_id last (agent_thought b ∷ bs) id t o h =
    find_tool-IsForeign turn_id last bs id t o.1 h
find_tool-IsForeign turn_id last (failure_tip b ∷ bs) id t o h =
    find_tool-IsForeign turn_id last bs id t o.1 h

-- An id of the agent's that no tool call has is new.
find_tool-none :
    (turn_id : Text) (last : ℕ) (bs : List ConversationTurnBlock) (id : Text)
    → All (IsOwn turn_id last) bs
    → IsForeign turn_id id
    → find_tool bs id ≡ none
    → All (λ x. x ≢ id) (ids bs)
unfolding find_tool
find_tool-none turn_id last [] id o f h = tt
find_tool-none turn_id last (tool_call b ∷ bs) id o f h = (
  λ e. ground (arith, text_eq_iff b.id id),
  find_tool-none turn_id last bs id o.1 f (ground arith),
)
find_tool-none turn_id last (assistant_text b ∷ bs) id o f h =
    (λ e. f _ (sym e ∙ o.0.0), find_tool-none turn_id last bs id o.1 f h)
find_tool-none turn_id last (agent_thought b ∷ bs) id o f h =
    (λ e. f _ (sym e ∙ o.0.0), find_tool-none turn_id last bs id o.1 f h)
find_tool-none turn_id last (failure_tip b ∷ bs) id o f h =
    (λ e. f _ (sym e ∙ o.0.0), find_tool-none turn_id last bs id o.1 f h)

All-ids-filter :
    (P : Text → Type 0) (p : ConversationTurnBlock → Bool) (bs : List ConversationTurnBlock)
    → All P (ids bs)
    → All P (ids (filter p bs))
All-ids-filter P p [] h = h
All-ids-filter P p (b ∷ bs) h = elim (Bool-cases (p b)) [
  | inl e ↦ rw e (h.0, All-ids-filter P p bs h.1)
  | inr e ↦ rw e (All-ids-filter P p bs h.1)
]

Distinct-filter :
    (p : ConversationTurnBlock → Bool) (bs : List ConversationTurnBlock)
    → Distinct (ids bs)
    → Distinct (ids (filter p bs))
Distinct-filter p [] h = h
Distinct-filter p (b ∷ bs) h = elim (Bool-cases (p b)) [
  | inl e ↦ rw e (All-ids-filter _ p bs h.0, Distinct-filter p bs h.1)
  | inr e ↦ rw e (Distinct-filter p bs h.1)
]

All-ids :
    (P : Text → Type 0) (bs : List ConversationTurnBlock)
    → All (λ b. P (block_id b)) bs
    → All P (ids bs)
All-ids P [] h = tt
All-ids P (b ∷ bs) h = (h.0, All-ids P bs h.1)

-- A turn under the event of sequence `last`, with the blocks of earlier events.
module _ (turn_id : Text) (old last : ℕ) (later : old < last) where
  push-WellFormed :
      (bs : List ConversationTurnBlock) (b : ConversationTurnBlock)
      → AreWellFormed turn_id old bs
      → IsOwn turn_id last b
      → All (λ x. x ≢ block_id b) (ids bs)
      → AreWellFormed turn_id last (bs ++ (b ∷ []))
  push-WellFormed bs b w o n = (
    All-append _ bs (b ∷ []) (All-imp _ _ (λ c. IsOwn-mono turn_id old last c (omega arith)) bs w.0)
        (o, tt),
    rw (map-append block_id bs (b ∷ [])) (Distinct-snoc (ids bs) (block_id b) w.1 n),
  )

  grown-WellFormed :
      (bs : List ConversationTurnBlock)
      → AreWellFormed turn_id old bs
      → AreWellFormed turn_id last bs
  grown-WellFormed bs w =
      (All-imp _ _ (λ c. IsOwn-mono turn_id old last c (omega arith)) bs w.0, w.1)

  replace-WellFormed :
      (bs : List ConversationTurnBlock) (id : Text) (r : ConversationTurnBlock)
      → AreWellFormed turn_id old bs
      → IsOwn turn_id last r
      → block_id r ≡ id
      → AreWellFormed turn_id last (replace_block bs id r)
  replace-WellFormed bs id r w o e = (
    Owns-replace turn_id last bs id r o (grown-WellFormed bs w).0,
    subst Distinct (sym (ids-replace bs id r e)) w.1,
  )

close_streaming-WellFormed :
    (turn_id : Text) (n : ℕ) (bs : List ConversationTurnBlock)
    → AreWellFormed turn_id n bs
    → AreWellFormed turn_id n (close_streaming_text bs)
close_streaming-WellFormed turn_id n bs w =
    (Owns-close_streaming turn_id n bs w.0, subst Distinct (sym (ids-close_streaming bs)) w.1)

close_turn-WellFormed :
    (turn_id : Text) (n : ℕ) (bs : List ConversationTurnBlock) (s : TerminalStatus)
    → AreWellFormed turn_id n bs
    → AreWellFormed turn_id n (close_turn_blocks bs s)
close_turn-WellFormed turn_id n bs s w =
    (Owns-close_turn turn_id n bs s w.0, subst Distinct (sym (ids-close_turn bs s)) w.1)

-- The tool calls that an event names keep out of the reducer's namespace.
abbrev pub NamesForeign : Text → ConversationEventKind → Type 0
NamesForeign turn_id (tool_requested id name a) = IsForeign turn_id id
NamesForeign turn_id (tool_progress id m c t) = IsForeign turn_id id
NamesForeign turn_id (approval_requested a id c r d) = IsForeign turn_id id
NamesForeign turn_id _ = Unit

-- `next` is the turn that has taken the sequence of a new event over, and not yet its content.
module _ (next : ConversationTurn) (old : ℕ) (later : old < next.last_event_sequence)
    (w : AreWellFormed next.id old next.blocks) where
  push_message-WellFormed :
      (text : Text) (terminal : Bool)
      → AreWellFormed next.id next.last_event_sequence (push_message next text terminal)
  unfolding push_message
  push_message-WellFormed text terminal =
      push-WellFormed next.id old next.last_event_sequence later next.blocks _ w (refl, omega arith)
        (All-ids _ next.blocks (
          All-imp _ _ (λ c. assistant-ne next.id old next.last_event_sequence c later) next.blocks
            w.0))

  message_blocks-WellFormed :
      (text : Text) (terminal : Bool) (last : Option ConversationTurnBlock)
      → last? next.blocks ≡ last
      → AreWellFormed next.id next.last_event_sequence (message_blocks next text terminal last)
  unfolding message_blocks
  message_blocks-WellFormed text terminal (some (assistant_text b)) e =
      elim (Bool-cases b.streaming) [
        | inl s ↦
            let o = All-last (IsOwn next.id old) next.blocks w.0 e in
            rw s (
              replace-WellFormed next.id old next.last_event_sequence later next.blocks b.id _ w
                (o.0, omega arith) refl)
        | inr s ↦ rw s (push_message-WellFormed text terminal)
      ]
  message_blocks-WellFormed text terminal (some (agent_thought b)) e =
      push_message-WellFormed text terminal
  message_blocks-WellFormed text terminal (some (tool_call b)) e =
      push_message-WellFormed text terminal
  message_blocks-WellFormed text terminal (some (failure_tip b)) e =
      push_message-WellFormed text terminal
  message_blocks-WellFormed text terminal none e = push_message-WellFormed text terminal

  on_message-WellFormed :
      (text : Text) (terminal : Bool) → IsWellFormed (on_message next text terminal)
  unfolding on_message
  on_message-WellFormed text true =
      close_turn-WellFormed next.id next.last_event_sequence _ TerminalStatus.completed
        (message_blocks-WellFormed text true (last? next.blocks) refl)
  on_message-WellFormed text false = message_blocks-WellFormed text false (last? next.blocks) refl

  push_thought-WellFormed :
      (text : Text) (m : Nullish Text) → IsWellFormed (push_thought next text m)
  unfolding push_thought
  push_thought-WellFormed text m = elim (Bool-cases (is_empty text)) [
    | inl e ↦ rw e (grown-WellFormed next.id old next.last_event_sequence later next.blocks w)
    | inr e ↦ rw e (
        push-WellFormed next.id old next.last_event_sequence later
          (close_streaming_text next.blocks) _
          (close_streaming-WellFormed next.id old next.blocks w) (refl, omega arith)
          (subst (All _) (sym (ids-close_streaming next.blocks)) (
            All-ids _ next.blocks (
              All-imp _ _ (λ c. thought-ne next.id old next.last_event_sequence c later) next.blocks
                w.0))))
  ]

  replace_thought-WellFormed :
      (text : Text) (b : AgentThoughtBlock)
      → IsOwn next.id old (agent_thought b)
      → IsWellFormed (replace_thought next text b)
  unfolding replace_thought
  replace_thought-WellFormed text b o = elim (Bool-cases (is_empty text)) [
    | inl e ↦
        let g = grown-WellFormed next.id old next.last_event_sequence later next.blocks w in
        rw e (All-filter _ _ next.blocks g.0, Distinct-filter _ next.blocks g.1)
    | inr e ↦ rw e (
        replace-WellFormed next.id old next.last_event_sequence later next.blocks b.id _ w
          (o.0, omega arith) refl)
  ]

  thought_with-WellFormed :
      (text : Text) (m : Nullish Text) (r : Bool) (last : Option ConversationTurnBlock)
      → last? next.blocks ≡ last
      → IsWellFormed (thought_with next text m r last)
  unfolding thought_with
  thought_with-WellFormed text m r (some (agent_thought b)) e =
      let o = All-last (IsOwn next.id old) next.blocks w.0 e in
      elim (Bool-cases (b.streaming && same_strict (or_null b.message_id) (or_null m) && not r)) [
        | inl s ↦ rw s (
            replace-WellFormed next.id old next.last_event_sequence later next.blocks b.id _ w
              (o.0, omega arith) refl)
        | inr s ↦ rw s (elim (Bool-cases (r && same_strict b.message_id m)) [
          | inl s' ↦ rw s' (replace_thought-WellFormed text b o)
          | inr s' ↦ rw s' (push_thought-WellFormed text m)
        ])
      ]
  thought_with-WellFormed text m r (some (assistant_text b)) e = push_thought-WellFormed text m
  thought_with-WellFormed text m r (some (tool_call b)) e = push_thought-WellFormed text m
  thought_with-WellFormed text m r (some (failure_tip b)) e = push_thought-WellFormed text m
  thought_with-WellFormed text m r none e = push_thought-WellFormed text m

  put_tool-WellFormed :
      (id : Text) (existing : Option ToolCallBlock) (tool : ToolCallBlock)
      → find_tool next.blocks id ≡ existing
      → tool.id ≡ (get_or existing (new_tool next id)).id
      → IsForeign next.id id
      → IsWellFormed (put_tool next existing tool)
  unfolding put_tool
  put_tool-WellFormed id (some t) tool e i f =
      replace-WellFormed next.id old next.last_event_sequence later next.blocks t.id _ w
        (subst (IsForeign next.id) (sym i) (find_tool-IsForeign next.id old next.blocks id t w.0 e))
        i
  put_tool-WellFormed id none tool e i f =
      push-WellFormed next.id old next.last_event_sequence later (close_streaming_text next.blocks)
        _ (close_streaming-WellFormed next.id old next.blocks w)
        (subst (IsForeign next.id) (sym i) f)
        (subst (All _) (sym (ids-close_streaming next.blocks))
          (rw i (find_tool-none next.id old next.blocks id w.0 f e)))

  on_tool_completed-WellFormed :
      (id : Text) (s : TerminalStatus) (m : Option Text)
      → IsWellFormed (on_tool_completed next id s m)
  unfolding on_tool_completed
  on_tool_completed-WellFormed id s m = elim (Option-cases (find_tool next.blocks id)) [
    | inl e ↦
        rw (e, on_tool_completed)
          (grown-WellFormed next.id old next.last_event_sequence later next.blocks w)
    | inr (t, e) ↦
        rw (e, on_tool_completed)
          (replace-WellFormed next.id old next.last_event_sequence later next.blocks t.id _ w
            (find_tool-IsForeign next.id old next.blocks id t w.0 e) refl)
  ]

  on_run_failed-WellFormed : (f : ConversationFailure) → IsWellFormed (on_run_failed next f)
  unfolding on_run_failed
  on_run_failed-WellFormed f =
      push-WellFormed next.id old next.last_event_sequence later _ _
        (close_turn-WellFormed next.id old next.blocks (failure_status f.code) w)
        (refl, omega arith)
        (subst (All _) (sym (ids-close_turn next.blocks (failure_status f.code))) (
          All-ids _ next.blocks (
            All-imp _ _ (λ c. failure-ne next.id old next.last_event_sequence c later) next.blocks
              w.0)))

  on_event-WellFormed :
      (k : ConversationEventKind) → NamesForeign next.id k → IsWellFormed (on_event next k)
  unfolding on_event on_thought on_tool_requested on_tool_progress on_approval_requested
  on_event-WellFormed run_started f =
      grown-WellFormed next.id old next.last_event_sequence later next.blocks w
  on_event-WellFormed (message_delta text terminal) f = on_message-WellFormed text terminal
  on_event-WellFormed (thought_delta text m r) f =
      thought_with-WellFormed text m r (last? next.blocks) refl
  on_event-WellFormed (tool_requested id name a) f = put_tool-WellFormed id _ _ refl refl f
  on_event-WellFormed (tool_progress id m c t) f = put_tool-WellFormed id _ _ refl refl f
  on_event-WellFormed (tool_completed id s m) f = on_tool_completed-WellFormed id s m
  on_event-WellFormed (approval_requested a id c r d) f = put_tool-WellFormed id _ _ refl refl f
  on_event-WellFormed run_finished f =
      close_turn-WellFormed next.id next.last_event_sequence next.blocks TerminalStatus.completed
        (grown-WellFormed next.id old next.last_event_sequence later next.blocks w)
  on_event-WellFormed (run_failed failure) f = on_run_failed-WellFormed failure

pub reduce_turn-IsWellFormed :
    (t : ConversationTurn) (e : ConversationEvent)
    → IsWellFormed t
    → NamesForeign t.id e.event
    → IsWellFormed (reduce_turn t e)
reduce_turn-IsWellFormed t e w f = elim (dec_le e.sequence t.last_event_sequence) [
  | yes stale ↦ subst IsWellFormed (sym (reduce_turn_stale t e stale)) w
  | no fresh ↦ subst IsWellFormed (sym (reduce_turn_new t e (omega arith))) (
      on_event-WellFormed (record t { last_event_sequence = e.sequence }) t.last_event_sequence
        (omega arith) w e.event f)
]

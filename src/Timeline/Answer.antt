-- ===== src/Timeline/Answer.antt =====
-- What the assistant said in a turn: the texts of its assistant blocks, in order.
use tea_desktop.Base.{
  ◌&&◌, ℕ, ◌<◌, ◌≡◌, ◌≢◌, refl, sym, ap, ◌∙◌, ◌++◌, List, [], ◌∷◌, Bool, true, false, not, Option,
  none, some, arith, All, All-last, filter, Bool-cases, Option-cases, inl, inr, last?, append_assoc,
  append-nil, leb, if◌then◌else◌,
}
use tea_desktop.Base.Text.{Text, codes, text_eq, text_eq_iff, text_eq_refl, text_ne, is_empty}
use tea_desktop.Conversation.{
  ConversationTurn, ConversationTurnBlock, assistant_text, agent_thought, tool_call, failure_tip,
  block_id, TerminalStatus, ToolCallBlock, ConversationEventKind, run_started, message_delta,
  thought_delta, tool_requested, tool_progress, tool_completed, approval_requested, run_finished,
  run_failed, ConversationEvent, Nullish, AgentThoughtBlock, AssistantTextBlock,
}
use tea_desktop.Timeline.Blocks.{find_tool, replace_block, close_streaming_text, close_turn_blocks}
use tea_desktop.Timeline.Reducer.{
  own_id, on_message, on_thought, on_tool_requested, on_tool_progress, on_tool_completed,
  on_approval_requested, on_run_failed, on_event, reduce_turn, reduce_all, create_turn,
  push_message, message_blocks, push_thought, replace_thought, thought_with, put_tool,
  failure_status, same_strict, or_null,
}
use native.Mathlib.Decide.{dec_le}
use tea_desktop.Timeline.Sequence.{
  on_event-last, reduce_turn-id, reduce_turn_new, reduce_turn_stale,
}
use tea_desktop.Timeline.Identity.{
  IsForeign, IsOwn, ids, Distinct, AreWellFormed, IsWellFormed, own_id_kinds,
}
use tea_desktop.Timeline.WellFormed.{find_tool-IsForeign, NamesForeign, reduce_turn-IsWellFormed}

abbrev pub text_of : ConversationTurnBlock → Text
text_of (assistant_text b) = b.text
text_of _ = []

abbrev pub answer : List ConversationTurnBlock → Text
answer [] = []
answer (b ∷ bs) = text_of b ++ answer bs

answer-append : (bs cs : List ConversationTurnBlock) → answer (bs ++ cs) ≡ answer bs ++ answer cs
answer-append [] cs = refl
answer-append (b ∷ bs) cs = rw (answer-append bs cs) (sym (append_assoc (text_of b) _ _))

answer-close_streaming :
    (bs : List ConversationTurnBlock) → answer (close_streaming_text bs) ≡ answer bs
unfolding close_streaming_text
answer-close_streaming [] = refl
answer-close_streaming (assistant_text b ∷ bs) = ground (arith, answer-close_streaming bs)
answer-close_streaming (agent_thought b ∷ bs) = ground (arith, answer-close_streaming bs)
answer-close_streaming (tool_call b ∷ bs) = ground (arith, answer-close_streaming bs)
answer-close_streaming (failure_tip b ∷ bs) = ground (arith, answer-close_streaming bs)

answer-close_turn :
    (bs : List ConversationTurnBlock) (s : TerminalStatus)
    → answer (close_turn_blocks bs s) ≡ answer bs
unfolding close_turn_blocks close_streaming_text
answer-close_turn [] s = refl
answer-close_turn (assistant_text b ∷ bs) s = ground (arith, answer-close_turn bs s)
answer-close_turn (agent_thought b ∷ bs) s = ground (arith, answer-close_turn bs s)
answer-close_turn (tool_call b ∷ bs) s = ground (arith, answer-close_turn bs s)
answer-close_turn (failure_tip b ∷ bs) s = ground (arith, answer-close_turn bs s)

-- Blocks of an id that no assistant block has may be replaced or dropped.
abbrev Silent : Text → List ConversationTurnBlock → Type 0
Silent id = All (λ b. block_id b ≡ id → text_of b ≡ [])

answer-replace-Silent :
    (bs : List ConversationTurnBlock) (id : Text) (r : ConversationTurnBlock)
    → text_of r ≡ []
    → Silent id bs
    → answer (replace_block bs id r) ≡ answer bs
unfolding replace_block
answer-replace-Silent [] id r e h = refl
answer-replace-Silent (b ∷ bs) id r e h = elim (Bool-cases (text_eq (block_id b) id)) [
  | inl s ↦ rw (s, e, h.0 ((text_eq_iff _ _).0 s)) (answer-replace-Silent bs id r e h.1)
  | inr s ↦ rw s (ap (◌++◌ (text_of b)) (answer-replace-Silent bs id r e h.1))
]

answer-filter-Silent :
    (bs : List ConversationTurnBlock) (id : Text)
    → Silent id bs
    → answer (filter (λ block. not (text_eq (block_id block) id)) bs) ≡ answer bs
answer-filter-Silent [] id h = refl
answer-filter-Silent (b ∷ bs) id h = elim (Bool-cases (text_eq (block_id b) id)) [
  | inl s ↦ rw (s, h.0 ((text_eq_iff _ _).0 s)) (answer-filter-Silent bs id h.1)
  | inr s ↦ rw s (ap (◌++◌ (text_of b)) (answer-filter-Silent bs id h.1))
]

foreign-Silent :
    (turn_id : Text) (n : ℕ) (id : Text) (bs : List ConversationTurnBlock)
    → IsForeign turn_id id
    → All (IsOwn turn_id n) bs
    → Silent id bs
foreign-Silent turn_id n id [] f o = tt
foreign-Silent turn_id n id (assistant_text b ∷ bs) f o =
    (λ e. absurd (f _ (sym e ∙ o.0.0)), foreign-Silent turn_id n id bs f o.1)
foreign-Silent turn_id n id (agent_thought b ∷ bs) f o =
    (λ e. refl, foreign-Silent turn_id n id bs f o.1)
foreign-Silent turn_id n id (tool_call b ∷ bs) f o =
    (λ e. refl, foreign-Silent turn_id n id bs f o.1)
foreign-Silent turn_id n id (failure_tip b ∷ bs) f o =
    (λ e. refl, foreign-Silent turn_id n id bs f o.1)

thought-Silent :
    (turn_id : Text) (n : ℕ) (id : Text) (sequence : ℕ) (bs : List ConversationTurnBlock)
    → id ≡ own_id turn_id (codes "thought") sequence
    → All (IsOwn turn_id n) bs
    → Silent id bs
thought-Silent turn_id n id sequence [] f o = tt
thought-Silent turn_id n id sequence (assistant_text b ∷ bs) f o = (
  λ e. absurd (own_id_kinds turn_id _ _ (sym o.0.0 ∙ (e ∙ f)) (omega arith)),
  thought-Silent turn_id n id sequence bs f o.1,
)
thought-Silent turn_id n id sequence (agent_thought b ∷ bs) f o =
    (λ e. refl, thought-Silent turn_id n id sequence bs f o.1)
thought-Silent turn_id n id sequence (tool_call b ∷ bs) f o =
    (λ e. refl, thought-Silent turn_id n id sequence bs f o.1)
thought-Silent turn_id n id sequence (failure_tip b ∷ bs) f o =
    (λ e. refl, thought-Silent turn_id n id sequence bs f o.1)

last-ids :
    (x : ConversationTurnBlock) (bs : List ConversationTurnBlock) (b : ConversationTurnBlock)
    → All (λ y. block_id x ≢ y) (ids bs)
    → last? bs ≡ some b
    → block_id x ≢ block_id b
last-ids x [] b h e = cc
last-ids x (y ∷ []) b h e = let q : b ≡ y = cc in λ p. h.0 (p ∙ ap block_id q)
last-ids x (y ∷ z ∷ l) b h e = last-ids x (z ∷ l) b h.1 e

-- With distinct ids, a replacement of the last block touches no other.
answer-replace_last :
    (bs : List ConversationTurnBlock) (b : AssistantTextBlock) (text : Text) (streaming : Bool)
    → Distinct (ids bs)
    → last? bs ≡ some (assistant_text b)
    → answer (
        replace_block bs b.id
          (assistant_text (record b { text = b.text ++ text; streaming = streaming })))
      ≡ answer bs ++ text
unfolding replace_block
answer-replace_last [] b text streaming d e = cc
answer-replace_last (x ∷ []) b text streaming d e =
    let p : x ≡ assistant_text b = cc in rw (p, text_eq_refl b.id) (simp append-nil)
answer-replace_last (x ∷ y ∷ l) b text streaming d e =
    rw (text_ne (block_id x) b.id (last-ids x (y ∷ l) (assistant_text b) d.0 e)) (
      ap (◌++◌ (text_of x)) (answer-replace_last (y ∷ l) b text streaming d.1 e)
      ∙ sym (append_assoc (text_of x) _ _))

-- The text that an event adds.
abbrev pub delta : ConversationEventKind → Text
delta (message_delta text terminal) = text
delta _ = []

module _ (next : ConversationTurn) (old : ℕ) (w : AreWellFormed next.id old next.blocks) where
  push_message-answer :
      (text : Text) (terminal : Bool)
      → answer (push_message next text terminal) ≡ answer next.blocks ++ text
  unfolding push_message
  push_message-answer text terminal =
      rw (answer-append next.blocks) (ap (◌++◌ (answer next.blocks)) (append-nil text))

  message_blocks-answer :
      (text : Text) (terminal : Bool) (last : Option ConversationTurnBlock)
      → last? next.blocks ≡ last
      → answer (message_blocks next text terminal last) ≡ answer next.blocks ++ text
  unfolding message_blocks
  message_blocks-answer text terminal (some (assistant_text b)) e = elim (Bool-cases b.streaming) [
    | inl s ↦ rw s (answer-replace_last next.blocks b text (not terminal) w.1 e)
    | inr s ↦ rw s (push_message-answer text terminal)
  ]
  message_blocks-answer text terminal (some (agent_thought b)) e = push_message-answer text terminal
  message_blocks-answer text terminal (some (tool_call b)) e = push_message-answer text terminal
  message_blocks-answer text terminal (some (failure_tip b)) e = push_message-answer text terminal
  message_blocks-answer text terminal none e = push_message-answer text terminal

  on_message-answer :
      (text : Text) (terminal : Bool)
      → answer (on_message next text terminal).blocks ≡ answer next.blocks ++ text
  unfolding on_message
  on_message-answer text true =
      answer-close_turn _ TerminalStatus.completed
      ∙ message_blocks-answer text true (last? next.blocks) refl
  on_message-answer text false = message_blocks-answer text false (last? next.blocks) refl

  push_thought-answer :
      (text : Text) (m : Nullish Text)
      → answer (push_thought next text m).blocks ≡ answer next.blocks
  unfolding push_thought
  push_thought-answer text m = elim (Bool-cases (is_empty text)) [
    | inl e ↦ rw e
    | inr e ↦
        rw
          (
            e,
            answer-append (close_streaming_text next.blocks),
            append-nil (answer (close_streaming_text next.blocks)),
          )
          (answer-close_streaming next.blocks)
  ]

  replace_thought-answer :
      (text : Text) (b : AgentThoughtBlock)
      → IsOwn next.id old (agent_thought b)
      → answer (replace_thought next text b).blocks ≡ answer next.blocks
  unfolding replace_thought
  replace_thought-answer text b o =
      let s = thought-Silent next.id old b.id b.sequence next.blocks o.0 w.0 in
      elim (Bool-cases (is_empty text)) [
        | inl e ↦ rw e (answer-filter-Silent next.blocks b.id s)
        | inr e ↦ rw e (answer-replace-Silent next.blocks b.id _ refl s)
      ]

  thought_with-answer :
      (text : Text) (m : Nullish Text) (r : Bool) (last : Option ConversationTurnBlock)
      → last? next.blocks ≡ last
      → answer (thought_with next text m r last).blocks ≡ answer next.blocks
  unfolding thought_with
  thought_with-answer text m r (some (agent_thought b)) e =
      let o = All-last (IsOwn next.id old) next.blocks w.0 e in
      elim (Bool-cases (b.streaming && same_strict (or_null b.message_id) (or_null m) && not r)) [
        | inl s ↦ rw s (
            answer-replace-Silent next.blocks b.id _ refl
              (thought-Silent next.id old b.id b.sequence next.blocks o.0 w.0))
        | inr s ↦ rw s (elim (Bool-cases (r && same_strict b.message_id m)) [
          | inl s' ↦ rw s' (replace_thought-answer text b o)
          | inr s' ↦ rw s' (push_thought-answer text m)
        ])
      ]
  thought_with-answer text m r (some (assistant_text b)) e = push_thought-answer text m
  thought_with-answer text m r (some (tool_call b)) e = push_thought-answer text m
  thought_with-answer text m r (some (failure_tip b)) e = push_thought-answer text m
  thought_with-answer text m r none e = push_thought-answer text m

  put_tool-answer :
      (id : Text) (existing : Option ToolCallBlock) (tool : ToolCallBlock)
      → find_tool next.blocks id ≡ existing
      → answer (put_tool next existing tool).blocks ≡ answer next.blocks
  unfolding put_tool
  put_tool-answer id (some t) tool e = answer-replace-Silent next.blocks t.id _ refl (
      foreign-Silent next.id old t.id next.blocks
        (find_tool-IsForeign next.id old next.blocks id t w.0 e) w.0)
  put_tool-answer id none tool e =
      rw
        (
          answer-append (close_streaming_text next.blocks),
          append-nil (answer (close_streaming_text next.blocks)),
        )
        (answer-close_streaming next.blocks)

  on_tool_completed-answer :
      (id : Text) (s : TerminalStatus) (m : Option Text)
      → answer (on_tool_completed next id s m).blocks ≡ answer next.blocks
  unfolding on_tool_completed
  on_tool_completed-answer id s m = elim (Option-cases (find_tool next.blocks id)) [
    | inl e ↦ rw (e, on_tool_completed) refl
    | inr (t, e) ↦
        rw (e, on_tool_completed)
          (answer-replace-Silent next.blocks t.id _ refl (
            foreign-Silent next.id old t.id next.blocks
              (find_tool-IsForeign next.id old next.blocks id t w.0 e) w.0))
  ]

  on_event-answer :
      (k : ConversationEventKind) → answer (on_event next k).blocks ≡ answer next.blocks ++ delta k
  unfolding on_event on_thought on_tool_requested on_tool_progress on_approval_requested
      on_run_failed
  on_event-answer run_started = rw append-nil
  on_event-answer (message_delta text terminal) = on_message-answer text terminal
  on_event-answer (thought_delta text m r) =
      rw append-nil (thought_with-answer text m r (last? next.blocks) refl)
  on_event-answer (tool_requested id name a) = rw append-nil (put_tool-answer id _ _ refl)
  on_event-answer (tool_progress id m c t) = rw append-nil (put_tool-answer id _ _ refl)
  on_event-answer (tool_completed id s m) = rw append-nil (on_tool_completed-answer id s m)
  on_event-answer (approval_requested a id c r d) = rw append-nil (put_tool-answer id _ _ refl)
  on_event-answer run_finished =
      rw append-nil (answer-close_turn next.blocks TerminalStatus.completed)
  on_event-answer (run_failed f) =
      rw
        (
          append-nil (answer next.blocks),
          answer-append (close_turn_blocks next.blocks (failure_status f.code)),
          append-nil (answer (close_turn_blocks next.blocks (failure_status f.code))),
        )
        (answer-close_turn next.blocks (failure_status f.code))

-- The texts of the events that are newer than all before them.
abbrev pub delivered : ℕ → List ConversationEvent → Text
delivered last [] = []
delivered last (e ∷ es) =
    let skipped = delivered last es in
    let taken = delta e.event ++ delivered e.sequence es in
    if leb e.sequence last then skipped else taken

pub reduce_turn-answer :
    (t : ConversationTurn) (e : ConversationEvent)
    → IsWellFormed t
    → t.last_event_sequence < e.sequence
    → (answer (reduce_turn t e).blocks ≡ answer t.blocks ++ delta e.event)
      × ((reduce_turn t e).last_event_sequence ≡ e.sequence)
reduce_turn-answer t e w fresh =
    let next = record t { last_event_sequence = e.sequence } in
    rw (reduce_turn_new t e fresh)
      (on_event-answer next t.last_event_sequence w e.event, on_event-last next e.event)

reduce_all-delivers :
    (t : ConversationTurn) (es : List ConversationEvent)
    → IsWellFormed t
    → All (λ (e : ConversationEvent). NamesForeign t.id e.event) es
    → answer (reduce_all t es).blocks ≡ answer t.blocks ++ delivered t.last_event_sequence es
unfolding reduce_all
reduce_all-delivers t [] w f = rw append-nil
reduce_all-delivers t (e ∷ es) w f = elim (dec_le e.sequence t.last_event_sequence) [
  | yes stale ↦ ground (arith, reduce_turn_stale t e stale, reduce_all-delivers t es w f.1)
  | no fresh ↦
      let (said, now) = reduce_turn-answer t e w (omega arith) in
      let rest =
        reduce_all-delivers (reduce_turn t e) es (reduce_turn-IsWellFormed t e w f.0)
          (rw (reduce_turn-id t e) f.1) in
      ground (
        arith,
        rest,
        said,
        now,
        append_assoc (answer t.blocks) (delta e.event) (delivered e.sequence es),
      )
]

-- What the assistant said in a new turn is the texts of the accepted message deltas, in the order
-- in which they came: no thought, tool call or approval adds to it or cuts from it, nothing is
-- said twice, and an event not newer than one before it is left out. The agent's tool call ids
-- must not start with `${turn.id}-`.
pub answer-reduce_all :
    (id prompt_id text : Text) (attachments : List Text) (last : ℕ) (es : List ConversationEvent)
    → All (λ (e : ConversationEvent). NamesForeign id e.event) es
    → answer (reduce_all (create_turn id prompt_id text attachments last) es).blocks
      ≡ delivered last es
unfolding create_turn
answer-reduce_all id prompt_id text attachments last es f = reduce_all-delivers _ es (tt, tt) f

-- ===== src/Acp/Replay.antt =====
-- electron/conversation/acp/replay.ts: `AcpV1ReplayCollector`. The turns stand with the newest first.
-- `size` stands for the bytes of a notification's JSON text. Of a collector that has failed only the
-- failure matters, since every call throws it again.
pub mod Turns
pub mod Spoken
pub mod Outputs
pub mod Chunks
pub mod Transcript
pub mod Limits
pub mod Ordering
pub mod Replayed
pub mod Exchange
use tea_desktop.Base.{
  ℕ, ◌+◌, Bool, true, false, not, ◌&&◌, List, [], ◌∷◌, ◌++◌, Option, none, some, if◌then◌else◌,
  length, ltb, leb, any, Result, ok, err, ◌>>=◌, ◌>>◌, throw_if,
}
use mathlib.Core.List.{reverse}
use tea_desktop.Base.Text.{Text, codes, text_eq, is_empty, trim, show}
use tea_desktop.Conversation.{
  Nullish, undefined, given, ConversationEvent, ConversationEventKind, message_delta, thought_delta,
  run_started, run_finished, ConversationTurn, ConversationTurnBlock, tool_call,
}
use tea_desktop.Conversation.Values.{Json}
use tea_desktop.Timeline.Blocks.{is_open}
use tea_desktop.Timeline.Reducer.{create_turn, reduce_turn}
use tea_desktop.ToolBroker.Inspection.{byte_length}
use tea_desktop.Acp.Updates.{
  ToolPatch, V1Update, AcpSessionUpdateNotification, v1, v2, text_content,
}
use tea_desktop.Acp.Projector.{
  Projector, ProjectorError, AcpProjectedUpdate, new_projector, project, trimmed_or,
}

pub data ReplayError : Type 0 where
  already_completed wrong_version unknown_session update_limit update_size not_text : ReplayError
  unexpected_terminal output_before_prompt turn_limit empty_prompt unfinished_tool : ReplayError
  text_limit empty_replay invalid_limit : ReplayError
  projection : ProjectorError → ReplayError

pub data ReplayPhase : Type 0 where
  empty user output : ReplayPhase

pub record AcpReplayLimits : Type 0 where
  pub max_updates : ℕ
  pub max_turns : ℕ
  pub max_text_bytes : ℕ
  pub max_update_bytes : ℕ

pub record Collector : Type 0 where
  pub conversation_id : Text
  pub session_id : Text
  pub limits : AcpReplayLimits
  pub projector : Projector
  pub turns : List ConversationTurn
  pub updates : ℕ
  pub text_bytes : ℕ
  pub sequence : ℕ
  pub current_user_message_id : Nullish Text
  pub phase : ReplayPhase
  pub completed : Bool
  pub failure : Option ReplayError

-- `positiveLimit` of a number that is given
unfoldable pub positive_limits : AcpReplayLimits → Bool
positive_limits limits =
    leb 1 limits.max_updates
    && leb 1 limits.max_turns
    && leb 1 limits.max_text_bytes
    && leb 1 limits.max_update_bytes

abbrev pub new_collector : Text → Text → AcpReplayLimits → Collector
new_collector conversation_id session_id limits = record {
  conversation_id = conversation_id;
  session_id = session_id;
  limits = limits;
  projector = new_projector 1;
  turns = [];
  updates = 0;
  text_bytes = 0;
  sequence = 0;
  current_user_message_id = undefined;
  phase = empty;
  completed = false;
  failure = none;
}

-- The constructor, with its limits resolved.
unfoldable pub create_collector : Text → Text → AcpReplayLimits → Result ReplayError Collector
unfolding positive_limits
create_collector conversation_id session_id limits =
    throw_if (not (positive_limits limits)) invalid_limit
    >> ok (new_collector conversation_id session_id limits)

-- `requireTextContent`
unfoldable pub require_text_content : Json → Result ReplayError Text
require_text_content content = elim (text_content content) [
  | none ↦ err not_text
  | some text ↦ ok text
]

abbrev pub next_event : Collector → ConversationEventKind → ConversationEvent
next_event c kind = record {
  conversation_id = c.conversation_id;
  sequence = c.sequence + 1;
  event = kind;
}

-- `requireCurrentTurn`
abbrev pub current_turn : List ConversationTurn → Result ReplayError ConversationTurn
current_turn [] = err output_before_prompt
current_turn (turn ∷ turns) = ok turn

abbrev pub put_current : ConversationTurn → List ConversationTurn → List ConversationTurn
put_current turn [] = []
put_current turn (_ ∷ turns) = turn ∷ turns

unfoldable pub add_text : Collector → Text → Result ReplayError Collector
add_text c value =
    let total = c.text_bytes + byte_length value in
    throw_if (ltb c.limits.max_text_bytes total) text_limit >> ok (record c { text_bytes = total })

unfoldable pub reduce_current : Collector → ConversationEventKind → Result ReplayError Collector
reduce_current c kind = do
  current ← current_turn c.turns
  ok (record c {
    turns = put_current (reduce_turn current (next_event c kind)) c.turns;
    sequence = c.sequence + 1;
  })

abbrev pub is_open_tool : ConversationTurnBlock → Bool
is_open_tool (tool_call block) = is_open block.status
is_open_tool _ = false

unfoldable pub complete_current_turn : Collector → Result ReplayError Collector
complete_current_turn c = do
  current ← current_turn c.turns
  throw_if (is_empty (trim current.user.text)) empty_prompt
  throw_if (any is_open_tool current.blocks) unfinished_tool
  reduce_current c run_finished

abbrev pub replay_turn_id : ℕ → Text
replay_turn_id n = codes "acp-replay-turn-" ++ show n

abbrev pub has_turns : List ConversationTurn → Bool
has_turns [] = false
has_turns (turn ∷ turns) = true

abbrev pub new_turn : Collector → Nullish Text → ConversationTurn
new_turn c message_id =
    let number = length c.turns + 1 in
    reduce_turn
      (create_turn (replay_turn_id number)
        (trimmed_or message_id (codes "acp-replay-prompt-" ++ show number)) [] [] c.sequence)
      (next_event c run_started)

unfoldable pub start_turn : Collector → Nullish Text → Result ReplayError Collector
start_turn c message_id = do
  throw_if (leb c.limits.max_turns (length c.turns)) turn_limit
  next ← (if has_turns c.turns then complete_current_turn c else ok c)
  ok (record next {
    turns = new_turn next message_id ∷ next.turns;
    sequence = next.sequence + 1;
    current_user_message_id = message_id;
    phase = user;
  })

abbrev pub other_message : Nullish Text → Nullish Text → Bool
other_message (given a) (given b) = not (text_eq a b)
other_message _ _ = false

abbrev pub starts_new_message : Collector → Nullish Text → Bool
starts_new_message c message_id = elim c.phase [
  | empty ↦ true
  | output ↦ true
  | user ↦ other_message message_id c.current_user_message_id
]

abbrev pub say : Text → ConversationTurn → ConversationTurn
say text turn = record turn { user = record turn.user { text = turn.user.text ++ text } }

unfoldable pub accept_user_chunk : Collector → Json → Nullish Text → Result ReplayError Collector
accept_user_chunk c content message_id = do
  text ← require_text_content content
  started ← (if starts_new_message c message_id then start_turn c message_id else ok c)
  current ← current_turn started.turns
  counted ← add_text started text
  ok (record counted { turns = put_current (say text current) counted.turns; phase = user })

-- The text that an event adds to the collector's count.
abbrev pub counted_text : ConversationEventKind → Option Text
counted_text (message_delta text terminal) = some text
counted_text (thought_delta text message_id replace) = some text
counted_text _ = none

abbrev pub count_event : Collector → ConversationEventKind → Result ReplayError Collector
count_event c event = elim (counted_text event) [ none ↦ ok c | some text ↦ add_text c text ]

-- The loop over the projected events.
unfoldable pub accept_events : Collector → List ConversationEventKind → Result ReplayError Collector
accept_events c [] = ok c
accept_events c (event ∷ events) = do
  counted ← count_event c event
  reduced ← reduce_current counted event
  accept_events reduced events

abbrev pub is_empty_phase : ReplayPhase → Bool
is_empty_phase empty = true
is_empty_phase _ = false

abbrev pub is_given : Option ConversationEventKind → Bool
is_given none = false
is_given (some event) = true

abbrev pub lift_projection {ℓ} : {A : Type ℓ} → Result ProjectorError A → Result ReplayError A
lift_projection (err e) = err (projection e)
lift_projection (ok a) = ok a

abbrev pub check_content : V1Update → Result ReplayError (Unit {0})
check_content (V1Update.agent_message_chunk content id) =
    require_text_content content >>= λ _. ok tt
check_content (V1Update.agent_thought_chunk content id) =
    require_text_content content >>= λ _. ok tt
check_content _ = ok tt

-- What is done with projected events; without any, nothing.
unfoldable pub take_events : Collector → List ConversationEventKind → Result ReplayError Collector
take_events c [] = ok c
take_events c (event ∷ events) =
    throw_if (is_empty_phase c.phase) output_before_prompt
    >> accept_events (record c { phase = output }) (event ∷ events)

unfoldable pub accept_projected :
    Collector → Projector → AcpProjectedUpdate → Result ReplayError Collector
accept_projected c projector projected =
    throw_if (is_given projected.terminal) unexpected_terminal
    >> take_events (record c { projector = projector }) projected.events

module _ (fingerprint : ToolPatch → Text) (size : AcpSessionUpdateNotification → ℕ) where
  unfoldable pub accept_update : Collector → Text → V1Update → Result ReplayError Collector
  accept_update c session (V1Update.user_message_chunk content message_id) =
      accept_user_chunk c content message_id
  accept_update c session update = do
    check_content update
    projected ← lift_projection (project fingerprint c.projector (v1 session update))
    accept_projected c projected.0 projected.1

  unfoldable pub accept_once :
      Collector → AcpSessionUpdateNotification → Result ReplayError Collector
  accept_once c (v2 session update) = throw_if c.completed already_completed >> err wrong_version
  accept_once c (v1 session update) = do
    throw_if c.completed already_completed
    throw_if (not (text_eq session c.session_id)) unknown_session
    throw_if (ltb c.limits.max_updates (c.updates + 1)) update_limit
    throw_if (ltb c.limits.max_update_bytes (size (v1 session update))) update_size
    accept_update (record c { updates = c.updates + 1 }) session update

  unfoldable pub accept :
      Collector → AcpSessionUpdateNotification → Collector × Result ReplayError (Unit {0})
  accept c input = elim c.failure [
    | some failure ↦ (c, err failure)
    | none ↦ elim (accept_once c input) [
      | ok next ↦ (next, ok tt)
      | err failure ↦ (record c { failure = some failure }, err failure)
    ]
  ]

  -- The notifications in their order. A caller that goes on after an error loses nothing by it.
  unfoldable pub accept_all : Collector → List AcpSessionUpdateNotification → Collector
  unfolding accept
  accept_all c [] = c
  accept_all c (input ∷ inputs) = accept_all (accept c input).0 inputs

-- The loop of `finish` over the turns.
abbrev pub any_open_tool : List ConversationTurn → Bool
any_open_tool turns = any (λ turn. any is_open_tool turn.blocks) turns

unfoldable pub finish_turns : Collector → Result ReplayError (List ConversationTurn × ℕ)
finish_turns c = do
  throw_if (not (has_turns c.turns)) empty_replay
  last ← complete_current_turn c
  throw_if (any_open_tool last.turns) unfinished_tool
  ok (reverse last.turns, last.sequence)

unfoldable pub finish : Collector → Collector × Result ReplayError (List ConversationTurn × ℕ)
finish c = elim c.failure [
  | some failure ↦ (c, err failure)
  | none ↦
      if c.completed
      then (c, err already_completed)
      else (record c { completed = true }, finish_turns c)
]

-- A whole replay.
unfoldable pub replay :
    (ToolPatch → Text)
    → (AcpSessionUpdateNotification → ℕ)
    → Collector
    → List AcpSessionUpdateNotification
    → Result ReplayError (List ConversationTurn × ℕ)
unfolding finish
replay fingerprint size c inputs = (finish (accept_all fingerprint size c inputs)).1

-- ===== src/Timeline/Settled.antt =====
-- What a turn looks like once it is over: nothing streams, no tool call is open, no approval waits.
use tea_desktop.Base.{◌<◌, ap, ◌≡◌, refl, true, false, List, [], ◌∷◌, none, arith, All, All-append}
use tea_desktop.Base.Text.{Text}
use tea_desktop.Conversation.{
  ConversationEvent, ConversationTurn, ConversationTurnBlock, assistant_text, agent_thought,
  tool_call, failure_tip, ConversationTurnStatus, ConversationEventKind, message_delta,
  run_finished, run_failed, TerminalStatus, ConversationFailure, cancel,
}
use tea_desktop.Timeline.Blocks.{close_streaming_text, close_turn_blocks, is_open}
use tea_desktop.Timeline.Approvals.{complete_approval}
use tea_desktop.Timeline.Reducer.{
  reduce_turn, on_event, fail_turn, cancel_turn, on_message, on_run_failed,
}

abbrev pub IsSettledBlock : ConversationTurnBlock → Type 0
IsSettledBlock (assistant_text b) = b.streaming ≡ false
IsSettledBlock (agent_thought b) = b.streaming ≡ false
IsSettledBlock (tool_call b) = (is_open b.status ≡ false) × (b.approval ≡ none)
IsSettledBlock (failure_tip b) = Unit

abbrev pub IsOver : ConversationTurnStatus → Type 0
IsOver ConversationTurnStatus.completed = Unit
IsOver ConversationTurnStatus.failed = Unit
IsOver ConversationTurnStatus.cancelled = Unit
IsOver _ = ⊥

abbrev pub IsSettled : ConversationTurn → Type 0
IsSettled t = IsOver t.status × All IsSettledBlock t.blocks

pub close_turn_blocks-IsSettled :
    (bs : List ConversationTurnBlock) (s : TerminalStatus)
    → All IsSettledBlock (close_turn_blocks bs s)
unfolding close_turn_blocks close_streaming_text
close_turn_blocks-IsSettled [] s = tt
close_turn_blocks-IsSettled (assistant_text b ∷ bs) s =
    (ground arith, close_turn_blocks-IsSettled bs s)
close_turn_blocks-IsSettled (agent_thought b ∷ bs) s =
    (ground arith, close_turn_blocks-IsSettled bs s)
close_turn_blocks-IsSettled (tool_call b ∷ bs) s = (ground arith, close_turn_blocks-IsSettled bs s)
close_turn_blocks-IsSettled (failure_tip b ∷ bs) s = (tt, close_turn_blocks-IsSettled bs s)

-- Closing what is closed changes nothing, whatever the second reason is.
pub close_turn_blocks_settled :
    (bs : List ConversationTurnBlock) (s : TerminalStatus)
    → All IsSettledBlock bs
    → close_turn_blocks bs s ≡ bs
unfolding close_turn_blocks close_streaming_text
close_turn_blocks_settled [] s h = refl
close_turn_blocks_settled (assistant_text b ∷ bs) s h =
    ground (arith, close_turn_blocks_settled bs s h.1)
close_turn_blocks_settled (agent_thought b ∷ bs) s h =
    ground (arith, close_turn_blocks_settled bs s h.1)
close_turn_blocks_settled (tool_call b ∷ bs) s h =
    ground (arith, close_turn_blocks_settled bs s h.1)
close_turn_blocks_settled (failure_tip b ∷ bs) s h =
    ground (arith, close_turn_blocks_settled bs s h.1)

-- The events that end a run.
abbrev pub IsTerminal : ConversationEventKind → Type 0
IsTerminal (message_delta text terminal) = terminal ≡ true
IsTerminal run_finished = Unit
IsTerminal (run_failed failure) = Unit
IsTerminal _ = ⊥

on_message-IsSettled : (t : ConversationTurn) (text : Text) → IsSettled (on_message t text true)
unfolding on_message
on_message-IsSettled t text = (tt, close_turn_blocks-IsSettled _ TerminalStatus.completed)

on_run_failed-IsSettled :
    (t : ConversationTurn) (f : ConversationFailure) → IsSettled (on_run_failed t f)
unfolding on_run_failed
on_run_failed-IsSettled t f =
    (ground arith, All-append IsSettledBlock _ _ (close_turn_blocks-IsSettled t.blocks _) (tt, tt))

on_event-IsSettled :
    (t : ConversationTurn) (k : ConversationEventKind) → IsTerminal k → IsSettled (on_event t k)
unfolding on_event
on_event-IsSettled t (message_delta text terminal) h = rw h (on_message-IsSettled t text)
on_event-IsSettled t run_finished h =
    (tt, close_turn_blocks-IsSettled t.blocks TerminalStatus.completed)
on_event-IsSettled t (run_failed f) h = on_run_failed-IsSettled t f
on_event-IsSettled t _ h = absurd h

-- A new event that ends the run leaves a turn that is over, in which no block streams, no tool
-- call is open and no approval waits.
pub terminal_event-IsSettled :
    (t : ConversationTurn) (e : ConversationEvent)
    → t.last_event_sequence < e.sequence
    → IsTerminal e.event
    → IsSettled (reduce_turn t e)
unfolding reduce_turn
terminal_event-IsSettled t e h k =
    ground (arith, on_event-IsSettled (record t { last_event_sequence = e.sequence }) e.event k)

fail_turn-IsSettled : (t : ConversationTurn) (f : ConversationFailure) → IsSettled (fail_turn t f)
unfolding fail_turn
fail_turn-IsSettled t f = (
  tt,
  All-append IsSettledBlock _ _ (close_turn_blocks-IsSettled t.blocks TerminalStatus.failed)
      (tt, tt),
)

complete_cancel-IsSettled :
    (t : ConversationTurn) (id : Text) → IsSettled (complete_approval t id cancel)
unfolding complete_approval
complete_cancel-IsSettled t id = (tt, close_turn_blocks-IsSettled _ TerminalStatus.cancelled)

-- The three local endings settle a turn too: cancelling it, failing it, and cancelling one of its
-- approvals. Cancelling a cancelled turn changes nothing.
pub local_endings-IsSettled :
    (t : ConversationTurn) (f : ConversationFailure) (id : Text)
    → IsSettled (cancel_turn t)
      × IsSettled (fail_turn t f)
      × IsSettled (complete_approval t id cancel)
      × (cancel_turn (cancel_turn t) ≡ cancel_turn t)
unfolding cancel_turn
local_endings-IsSettled t f id = (
  (tt, close_turn_blocks-IsSettled t.blocks TerminalStatus.cancelled),
  fail_turn-IsSettled t f,
  complete_cancel-IsSettled t id,
  ap
      (λ (bs : List ConversationTurnBlock). record t {
        status = ConversationTurnStatus.cancelled;
        blocks = bs;
      })
      (close_turn_blocks_settled _ TerminalStatus.cancelled
        (close_turn_blocks-IsSettled t.blocks TerminalStatus.cancelled)),
)

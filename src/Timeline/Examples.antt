-- ===== src/Timeline/Examples.antt =====
-- One turn on concrete events: the reducer's tests, and the theorems applied to them.
use tea_desktop.Base.{ℕ, ◌≡◌, refl, ap, ◌++◌, true, false, List, [], ◌∷◌, none, some, arith, All}
use tea_desktop.Base.Text.{codes, text_eq, show}
use tea_desktop.Conversation.{
  allow_once, cancel, deny, ApprovalRequest, ApprovalRequestStatus, ConversationFailureCode,
  ConversationFailure, ConversationEventKind, run_started, message_delta, tool_requested,
  approval_requested, run_finished, ConversationEvent, ConversationTurn,
}
use tea_desktop.Conversation.Values.{Json}
use tea_desktop.Timeline.Blocks.{find_tool, replace_block, close_streaming_text}
use tea_desktop.Timeline.Reducer.{
  create_turn, on_message, on_tool_requested, on_approval_requested, on_event, reduce_turn,
  reduce_all, cancel_turn,
}
use tea_desktop.Timeline.Approvals.{find_approval, set_approval_resolving, complete_approval}
use tea_desktop.Timeline.Sequence.{redelivery_harmless}
use tea_desktop.Timeline.Settled.{IsSettled, terminal_event-IsSettled, local_endings-IsSettled}
use tea_desktop.Timeline.ApprovalLaws.{approval_updates, complete_approval_removes}
use tea_desktop.Timeline.Identity.{IsForeign, first}
use tea_desktop.Timeline.WellFormed.{NamesForeign}
use tea_desktop.Timeline.Answer.{answer, answer-reduce_all}

abbrev event_at : ℕ → ConversationEventKind → ConversationEvent
event_at n k = record { conversation_id = codes "c"; sequence = n; event = k }

abbrev start : ConversationTurn
unfolding create_turn
start = create_turn (codes "turn") (codes "p") (codes "Hi") [] 0

abbrev opening : List ConversationEvent
opening =
    event_at 1 run_started
    ∷ event_at 2 (message_delta (codes "He") false)
    ∷ event_at 3 (message_delta (codes "y") false)
    ∷ []

abbrev asking : List ConversationEvent
asking =
    event_at 4 (tool_requested (codes "call") (codes "shell") Json.null)
    ∷ event_at 5 (approval_requested (codes "a1") (codes "call") [] [] (allow_once ∷ cancel ∷ []))
    ∷ []

abbrev closing : List ConversationEvent
closing = event_at 6 (message_delta (codes "!") true) ∷ []

reducer_runs : answer (reduce_all start (opening ++ asking)).blocks ≡ codes "Hey"
unfolding reduce_all reduce_turn on_event on_message on_tool_requested on_approval_requested
    find_tool replace_block close_streaming_text text_eq show create_turn
reducer_runs = refl

call-IsForeign : IsForeign (codes "turn") (codes "call")
call-IsForeign rest e = absurd (omega (arith, ap first e))

events-NamesForeign :
    All
      (λ (e : ConversationEvent). NamesForeign (codes "turn") e.event)
      ((opening ++ asking) ++ closing)
events-NamesForeign = (tt, (tt, (tt, (call-IsForeign, (call-IsForeign, (tt, tt))))))

redelivery_harmless_example :
    reduce_all (reduce_all start (opening ++ asking)) (asking ++ closing)
    ≡ reduce_all start ((opening ++ asking) ++ closing)
redelivery_harmless_example = redelivery_harmless start opening asking closing

terminal_event-IsSettled_example : IsSettled (reduce_turn start (event_at 6 run_finished))
unfolding create_turn
terminal_event-IsSettled_example =
    terminal_event-IsSettled start (event_at 6 run_finished) (omega arith) tt

abbrev offline : ConversationFailure
offline = record { code = ConversationFailureCode.transport; message = none; retryable = true }

local_endings-IsSettled_example : IsSettled (cancel_turn (reduce_all start (opening ++ asking)))
local_endings-IsSettled_example =
    (local_endings-IsSettled (reduce_all start (opening ++ asking)) offline (codes "a1")).0

abbrev waiting : ApprovalRequest
waiting = record {
  id = codes "a1";
  tool_call_id = codes "call";
  tool_name = codes "shell";
  capabilities = [];
  resources = [];
  decisions = allow_once ∷ cancel ∷ [];
  status = ApprovalRequestStatus.pending;
  decision = none;
  error = none;
}

approval_waits : find_approval (reduce_all start (opening ++ asking)) (codes "a1") ≡ some waiting
unfolding reduce_all reduce_turn on_event on_message on_tool_requested on_approval_requested
    find_tool replace_block close_streaming_text text_eq show find_approval create_turn
approval_waits = refl

approval_updates_example :
    find_approval
      (set_approval_resolving (reduce_all start (opening ++ asking)) (codes "a1") allow_once)
      (codes "a1")
    ≡ some (record waiting {
      status = ApprovalRequestStatus.resolving;
      decision = some allow_once;
      error = none;
    })
approval_updates_example =
    (approval_updates (reduce_all start (opening ++ asking)) (codes "a1") (codes "b") (codes "no")
      allow_once waiting approval_waits (λ e. absurd (omega (arith, ap first e)))).0

complete_approval_removes_example :
    find_approval
      (complete_approval (reduce_all start (opening ++ asking)) (codes "a1") deny)
      (codes "a1")
    ≡ none
complete_approval_removes_example =
    (complete_approval_removes (reduce_all start (opening ++ asking)) (codes "a1") (codes "b") deny
      (λ e. absurd (omega (arith, ap first e)))).0

answer-reduce_all_example :
    answer
      (reduce_all
        (create_turn (codes "turn") (codes "p") (codes "Hi") [] 0)
        ((opening ++ asking) ++ closing)).blocks
    ≡ codes "Hey!"
answer-reduce_all_example =
    answer-reduce_all (codes "turn") (codes "p") (codes "Hi") [] 0 ((opening ++ asking) ++ closing)
      events-NamesForeign

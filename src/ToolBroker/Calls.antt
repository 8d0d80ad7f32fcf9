-- ===== src/ToolBroker/Calls.antt =====
-- toolBroker.ts: `call` keeps a broker well-formed.
use tea_desktop.Base.{
  ℕ, ◌<◌, ◌≡◌, refl, sym, subst, Bool, true, false, ◌||◌, List, Option, none, some, length, arith,
  Option-cases, inl, inr,
}
use tea_desktop.Base.Text.{Text, is_empty, trim}
use tea_desktop.ToolBroker.Definitions.{HostToolDefinition, Platform, execution_failed}
use tea_desktop.ToolBroker.Broker.{
  ToolScope, PendingToolCall, Effect, Broker, evict, remember_settled, launch_call, call, call_tool,
  refusal, immediate_failure, Launch, by_main, by_renderer, throws, tool_in,
}
use tea_desktop.ToolBroker.Steps.{guard-keeps}
use tea_desktop.Base.Map
use tea_desktop.Conversation.Values.{Json}
use tea_desktop.Base.Map.{IsMap}
use tea_desktop.ToolBroker.Invariant.{
  IsValid, AreValid, IsCurrent, IsUnsettled, settled-AreValid, settle_failure-IsValid,
}

-- A new call of the configured scope.
added-AreValid :
    (b : Broker) (id : Text) (p : PendingToolCall)
    → Map.get id b.pending ≡ none
    → Map.get id b.settled_owners ≡ none
    → IsCurrent b.scopes (id, p)
    → length b.pending < b.limits.max_pending_calls
    → IsValid b
    → AreValid b.limits.max_pending_calls b.scopes (Map.set id p b.pending) b.settled_owners
unfolding IsValid
added-AreValid b id p new unsettled current room i = record {
  is_map = Map.set-IsMap id p b.pending i.is_map;
  unsettled =
      Map.All-set_new (IsUnsettled b.settled_owners) id p b.pending new i.unsettled unsettled;
  current = Map.All-set_new (IsCurrent b.scopes) id p b.pending new i.current current;
  history = i.history;
  bounded = omega (arith, room, Map.length-set-le id p b.pending);
}

launch-IsValid :
    (b : Broker) (id name : Text) (arguments : Json) (p : PendingToolCall) (launch : Launch)
    → (effects : List Effect) → Map.get id b.pending ≡ none
    → Map.get id b.settled_owners ≡ none
    → IsCurrent b.scopes (id, p)
    → length b.pending < b.limits.max_pending_calls
    → IsValid b
    → IsValid (
        launch_call
          (record b { pending = Map.set id p b.pending; log = effects })
          id
          name
          arguments
          p
          launch)
unfolding launch_call IsValid
launch-IsValid b id name arguments p by_main effects new unsettled current room i =
    subst (λ m. AreValid b.limits.max_pending_calls b.scopes m b.settled_owners)
      (sym (Map.set-set id (record p { abortable = true }) p b.pending))
      (added-AreValid b id (record p { abortable = true }) new unsettled current room i)
launch-IsValid b id name arguments p by_renderer effects new unsettled current room i =
    added-AreValid b id p new unsettled current room i
launch-IsValid b id name arguments p (throws a) effects new unsettled current room i =
    settle_failure-IsValid _ id execution_failed (
      subst (λ m. AreValid b.limits.max_pending_calls b.scopes m b.settled_owners)
        (sym (Map.set-set id (record p { abortable = a }) p b.pending))
        (added-AreValid b id (record p { abortable = a }) new unsettled current room i))

-- A call that goes on has room for it.
refusal-room :
    (platform : Platform) (b : Broker) (arguments : Json) (signal : Option Bool)
    → (tool : HostToolDefinition) → refusal platform b arguments signal tool ≡ none
    → length b.pending < b.limits.max_pending_calls
unfolding refusal
refusal-room platform b arguments signal tool h = ground arith

remembered-IsValid :
    (b : Broker) (id conversation_id : Text)
    → Map.get id b.pending ≡ none
    → IsValid b
    → IsValid (remember_settled b id conversation_id)
unfolding remember_settled IsValid
remembered-IsValid b id conversation_id new i =
    subst
      (λ m.
        AreValid b.limits.max_pending_calls b.scopes m
          (evict (Map.set id conversation_id b.settled_owners)))
      (Map.delete_absent id b.pending new) (settled-AreValid _ _ _ _ id conversation_id i)

tool_in-IsCurrent :
    (scopes : List (Text × ToolScope)) (id : Text) (revision : ℕ) (name : Text)
    → (tool : HostToolDefinition) → tool_in (Map.get id scopes) revision name ≡ some tool
    → (s : ToolScope) × (Map.get id scopes ≡ some s) × (s.revision ≡ revision)
tool_in-IsCurrent scopes id revision name tool h = elim (Option-cases (Map.get id scopes)) [
  | inl e ↦ absurd (ground arith)
  | inr (s, e) ↦ (s, e, ground arith)
]

call_tool-IsValid :
    (platform : Platform) (b : Broker) (id : Text) (revision : ℕ) (name : Text) (arguments : Json)
    → (signal : Option Bool) (call_id : Text) (launch : Launch) → Map.get call_id b.pending ≡ none
    → Map.get call_id b.settled_owners ≡ none
    → IsValid b
    → (found : Option HostToolDefinition) → tool_in (Map.get id b.scopes) revision name ≡ found
    → IsValid (call_tool platform b id revision name arguments signal call_id launch found).0
unfolding call_tool immediate_failure
call_tool-IsValid platform b id revision name arguments signal call_id launch new old i none h =
    remembered-IsValid b call_id id new i
call_tool-IsValid platform b id revision name arguments signal call_id launch new old i (some tool)
      h =
    elim (Option-cases (refusal platform b arguments signal tool)) [
      | inl e ↦
          rw (e, call_tool)
            (launch-IsValid b call_id name arguments _ launch _ new old
              (tool_in-IsCurrent b.scopes id revision name tool h)
              (refusal-room platform b arguments signal tool e) i)
      | inr (code, e) ↦ rw (e, call_tool) (remembered-IsValid b call_id id new i)
    ]

allocated :
    (b : Broker) (id : Text)
    → (is_empty id || Map.has id b.pending || Map.has id b.settled_owners) ≡ false
    → (Map.get id b.pending ≡ none) × (Map.get id b.settled_owners ≡ none)
allocated b id h = ground arith

pub call-IsValid :
    (platform : Platform) (b : Broker) (id : Text) (revision : ℕ) (name : Text) (arguments : Json)
    → (signal : Option Bool) (generated : Text) (launch : Launch) → IsValid b
    → IsValid (call platform b id revision name arguments signal generated launch).0
unfolding call
call-IsValid platform b id revision name arguments signal generated launch i =
    guard-keeps IsValid b _ _ _ i (λ running. guard-keeps IsValid b _ _ _ i (λ fresh.
      let free = allocated b (trim generated) fresh in
      call_tool-IsValid platform b id revision name arguments signal (trim generated) launch free.0
        free.1 i _ refl))

-- ===== src/ToolBroker/Launching.antt =====
-- toolBroker.ts: how `call` hands on the calls that it promises a result.
use tea_desktop.Base.{
  ℕ, ◌≡◌, refl, ◌∙◌, Bool, true, false, List, [], ◌∷◌, ◌++◌, Option, none, some, Result, ok, err,
  Option-cases, inl, inr, ◌↔◌, append_assoc,
}
use tea_desktop.Base.Text.{Text, is_empty, trim}
use tea_desktop.Base.Map
use tea_desktop.Conversation.Values.{Json}
use tea_desktop.ToolBroker.Definitions.{BrokerError, HostToolDefinition, Platform, execution_failed}
use tea_desktop.ToolBroker.Broker.{
  listener_removed, Reply, promised, immediate, PendingToolCall, Broker, Effect, timer_started,
  timer_cleared, execution_aborted, call_emitted, call_executed, resolved, abort_of, unlisten,
  failed, settle, settle_found, settle_failure, remember_settled, call, call_tool, refusal,
  immediate_failure, Launch, by_main, by_renderer, throws, launch_call, tool_in,
}
use tea_desktop.ToolBroker.Invariant.{get-evict-set_new}
use tea_desktop.ToolBroker.Outcomes.{call-open}
use tea_desktop.ToolBroker.Admission.{IsAdmitted, call_tool-promised}

-- The call waits for its result, as one of this conversation, revision and tool.
abbrev pub Waits : Broker → Text → Text → ℕ → HostToolDefinition → Bool → Type 0
Waits c call_id id revision tool abortable =
    (p : PendingToolCall) × (Map.get call_id c.pending ≡ some p)
    × (p.conversation_id ≡ id)
    × (p.revision ≡ revision)
    × (p.tool ≡ tool)
    × (p.abortable ≡ abortable)

-- What is done to end a call that was started: its timer and its signal's listener are gone, and its
-- promise is resolved with a failure. The first list is what is done before.
abbrev pub ended : List Effect → Text → Text → Option Bool → List Effect
ended before id call_id none =
    before ++ (timer_cleared call_id ∷ resolved call_id (failed id call_id execution_failed) ∷ [])
ended before id call_id (some aborted) =
    before
    ++ (timer_cleared call_id
        ∷ listener_removed call_id
        ∷ resolved call_id (failed id call_id execution_failed)
        ∷ [])

-- How the broker `b` handed on a call, which made it `c`. The call's timer is started; then the main
-- handler executes it or the renderer is told, once and with the tool's name and the arguments, and
-- it waits; or, when that throws, it is settled at once as failed.
abbrev pub IsLaunched :
    Broker
    → Broker
    → Text
    → Text
    → ℕ
    → Text
    → Json
    → Option Bool
    → HostToolDefinition
    → Launch
    → Type 0
IsLaunched b c id call_id revision name arguments signal tool by_main =
    (c.log
      ≡ b.log
        ++ (timer_started call_id b.limits.call_timeout_ms
            ∷ call_executed call_id name arguments
            ∷ []))
    × Waits c call_id id revision tool true
IsLaunched b c id call_id revision name arguments signal tool by_renderer =
    (c.log
      ≡ b.log
        ++ (timer_started call_id b.limits.call_timeout_ms
            ∷ call_emitted call_id name arguments
            ∷ []))
    × Waits c call_id id revision tool false
IsLaunched b c id call_id revision name arguments signal tool (throws false) =
    (c.log ≡ b.log ++ (timer_started call_id b.limits.call_timeout_ms ∷ ended [] id call_id signal))
    × (Map.get call_id c.pending ≡ none)
    × (Map.get call_id c.settled_owners ≡ some id)
IsLaunched b c id call_id revision name arguments signal tool (throws true) =
    (c.log
      ≡ b.log
        ++ (timer_started call_id b.limits.call_timeout_ms
            ∷ ended (execution_aborted call_id ∷ []) id call_id signal))
    × (Map.get call_id c.pending ≡ none)
    × (Map.get call_id c.settled_owners ≡ some id)

-- A promise means that the call was handed on; a call that is answered at once is not, nothing
-- outside is touched, and no call waits that did not before.
abbrev pub IsCarriedOut :
    Broker
    → Text
    → Text
    → ℕ
    → Text
    → Json
    → Option Bool
    → Launch
    → Option HostToolDefinition
    → Broker × Result BrokerError Reply
    → Type 0
IsCarriedOut b id call_id revision name arguments signal launch found (c, ok (promised k)) =
    (tool : HostToolDefinition) × (found ≡ some tool)
    × (k ≡ call_id)
    × IsLaunched b c id call_id revision name arguments signal tool launch
IsCarriedOut b id call_id revision name arguments signal launch found (c, ok (immediate r)) =
    (c.log ≡ b.log) × (c.pending ≡ b.pending)
IsCarriedOut b id call_id revision name arguments signal launch found (c, err e) = ⊥

-- A pending call that fails: its entry goes, its owner is remembered and it is settled.
failure_lem :
    (b : Broker) (k : Text) (p : PendingToolCall)
    → Map.get k b.pending ≡ some p
    → Map.get k b.settled_owners ≡ none
    → let c = settle_failure b k execution_failed in
      (c.log
        ≡ ((b.log ++ abort_of k p) ++ (timer_cleared k ∷ unlisten k p))
          ++ (resolved k (failed p.conversation_id k execution_failed) ∷ []))
      × (Map.get k c.pending ≡ none)
      × (Map.get k c.settled_owners ≡ some p.conversation_id)
unfolding settle_failure settle settle_found remember_settled
failure_lem b k p e old =
    rw (e, settle_failure)
      (rw (e, settle)
        (
          refl,
          Map.get-delete_self k b.pending,
          get-evict-set_new k p.conversation_id b.settled_owners old,
        ))

abbrev entry : Text → ℕ → HostToolDefinition → Option Bool → PendingToolCall
entry id revision tool signal = record {
  conversation_id = id;
  revision = revision;
  tool = tool;
  has_signal = elim signal [ none ↦ false | some _ ↦ true ];
  abortable = false;
}

abbrev started : Broker → Text → PendingToolCall → Broker
started b call_id p = record b {
  pending = Map.set call_id p b.pending;
  log = b.log ++ (timer_started call_id b.limits.call_timeout_ms ∷ []);
}

-- The broker when handing the call on throws.
abbrev thrown : Broker → Text → PendingToolCall → Bool → Broker
thrown b call_id p abortable = record (started b call_id p) {
  pending = Map.set call_id (record p { abortable = abortable }) (started b call_id p).pending;
}

thrown_lem :
    (b : Broker) (call_id : Text) (p : PendingToolCall) (abortable : Bool)
    → Map.get call_id b.settled_owners ≡ none
    → let c = settle_failure (thrown b call_id p abortable) call_id execution_failed in
      (c.log
        ≡ (((b.log ++ (timer_started call_id b.limits.call_timeout_ms ∷ []))
              ++ abort_of call_id (record p { abortable = abortable }))
            ++ (timer_cleared call_id ∷ unlisten call_id p))
          ++ (resolved call_id (failed p.conversation_id call_id execution_failed) ∷ []))
      × (Map.get call_id c.pending ≡ none)
      × (Map.get call_id c.settled_owners ≡ some p.conversation_id)
thrown_lem b call_id p abortable old =
    failure_lem (thrown b call_id p abortable) call_id (record p { abortable = abortable })
      (Map.get-set_self call_id _ _) old

launch-IsLaunched :
    (b : Broker) (id call_id : Text) (revision : ℕ) (name : Text) (arguments : Json)
    → (signal : Option Bool) (tool : HostToolDefinition) (launch : Launch)
    → Map.get call_id b.settled_owners ≡ none
    → IsLaunched b
        (launch_call
          (started b call_id (entry id revision tool signal))
          call_id
          name
          arguments
          (entry id revision tool signal)
          launch)
        id
        call_id
        revision
        name
        arguments
        signal
        tool
        launch
unfolding launch_call
launch-IsLaunched b id call_id revision name arguments signal tool by_main old =
    (simp append_assoc, (_, Map.get-set_self call_id _ _, refl, refl, refl, refl))
launch-IsLaunched b id call_id revision name arguments signal tool by_renderer old =
    (simp append_assoc, (_, Map.get-set_self call_id _ _, refl, refl, refl, refl))
launch-IsLaunched b id call_id revision name arguments none tool (throws false) old =
    let h = thrown_lem b call_id (entry id revision tool none) false old in
    (h.0 ∙ simp append_assoc, h.1, h.2)
launch-IsLaunched b id call_id revision name arguments (some s) tool (throws false) old =
    let h = thrown_lem b call_id (entry id revision tool (some s)) false old in
    (h.0 ∙ simp append_assoc, h.1, h.2)
launch-IsLaunched b id call_id revision name arguments none tool (throws true) old =
    let h = thrown_lem b call_id (entry id revision tool none) true old in
    (h.0 ∙ simp append_assoc, h.1, h.2)
launch-IsLaunched b id call_id revision name arguments (some s) tool (throws true) old =
    let h = thrown_lem b call_id (entry id revision tool (some s)) true old in
    (h.0 ∙ simp append_assoc, h.1, h.2)

call_tool-IsCarriedOut :
    (platform : Platform) (b : Broker) (id : Text) (revision : ℕ) (name : Text) (arguments : Json)
    → (signal : Option Bool) (call_id : Text) (launch : Launch) (found : Option HostToolDefinition)
    → Map.get call_id b.settled_owners ≡ none
    → IsCarriedOut b id call_id revision name arguments signal launch found
        (call_tool platform b id revision name arguments signal call_id launch found)
unfolding call_tool immediate_failure remember_settled
call_tool-IsCarriedOut platform b id revision name arguments signal call_id launch none old =
    (refl, refl)
call_tool-IsCarriedOut platform b id revision name arguments signal call_id launch (some tool) old =
    elim (Option-cases (refusal platform b arguments signal tool)) [
      | inl e ↦
          rw (e, call_tool)
            (
              tool,
              refl,
              refl,
              launch-IsLaunched b id call_id revision name arguments signal tool launch old,
            )
      | inr (code, e) ↦ rw (e, call_tool) (refl, refl)
    ]

-- A call with a fresh id is promised a result exactly when the scope that the caller opened is
-- still the configured one and has the tool, the arguments are an object of plain JSON within the
-- limits that the tool's input schema validates, the signal was not aborted, and fewer calls are
-- pending than the limit. A call that is promised a result is handed on once: its timer is started,
-- it is executed by the main handler or told to the renderer with its tool's name and arguments,
-- and it waits for its result; where handing it on throws it is settled at once as failed. A call
-- that is not promised a result is answered at once, and nothing is started or handed on.
pub call_launched_iff :
    (platform : Platform) (b : Broker) (id : Text) (revision : ℕ) (name : Text) (arguments : Json)
    → (signal : Option Bool) (generated : Text) (launch : Launch) → b.is_shut_down ≡ false
    → is_empty (trim generated) ≡ false
    → Map.get (trim generated) b.pending ≡ none
    → Map.get (trim generated) b.settled_owners ≡ none
    → (((call platform b id revision name arguments signal generated launch).1
          ≡ ok (promised (trim generated)))
        ↔ ((tool : HostToolDefinition) × (tool_in (Map.get id b.scopes) revision name ≡ some tool)
            × IsAdmitted platform b arguments signal tool))
      × IsCarriedOut b id
          (trim generated)
          revision
          name
          arguments
          signal
          launch
          (tool_in (Map.get id b.scopes) revision name)
          (call platform b id revision name arguments signal generated launch)
call_launched_iff platform b id revision name arguments signal generated launch running named new
      old =
    let found = tool_in (Map.get id b.scopes) revision name in
    rw
      (call-open platform b id revision name arguments signal generated launch running named new
        old)
      (
        call_tool-promised platform b id revision name arguments signal (trim generated) launch
            found,
        call_tool-IsCarriedOut platform b id revision name arguments signal (trim generated) launch
            found old,
      )

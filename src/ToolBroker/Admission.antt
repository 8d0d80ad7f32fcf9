-- ===== src/ToolBroker/Admission.antt =====
-- toolBroker.ts: which calls `call` promises a result.
use tea_desktop.Base.{
  ℕ, ◌<◌, ◌≡◌, ◌≢◌, refl, Bool, true, false, Option, none, some, if◌then◌else◌, length, leb, ok,
  arith, Option-cases, inl, inr, ◌↔◌,
}
use tea_desktop.Base.Text.{Text}
use tea_desktop.Conversation.Values.{Json}
use tea_desktop.ToolBroker.InspectionLaws.{inspect_json_iff}
use tea_desktop.ToolBroker.Results.{IsBounded, is_valid→valid}
use tea_desktop.ToolBroker.Definitions.{
  HostToolDefinition, Platform, cancelled, limit_exceeded, is_record,
}
use tea_desktop.ToolBroker.Broker.{promised, Broker, call_tool, refusal, immediate_failure, Launch}

-- When a call reaches its tool: the tool is in the caller's scope, the arguments are an object of
-- plain JSON within the limits that the input schema validates, the signal was not aborted, and
-- there is room.
pub record IsAdmitted (platform : Platform) (b : Broker) (arguments : Json) (signal : Option Bool)
    (tool : HostToolDefinition) : Type 0 where
  pub object : is_record arguments ≡ true
  pub bounded : IsBounded b.limits arguments
  pub validated : platform.validates tool.input_schema arguments ≡ true
  pub not_aborted : signal ≢ some true
  pub room : length b.pending < b.limits.max_pending_calls

signal_room :
    (signal : Option Bool) (n m : ℕ)
    → signal ≢ some true
    → n < m
    → (elim signal [
      | some true ↦ some cancelled
      | _ ↦ if leb m n then some limit_exceeded else none
    ])
      ≡ none
signal_room none n m h l = ground arith
signal_room (some true) n m h l = absurd (h refl)
signal_room (some false) n m h l = ground arith

admitted_lem :
    (platform : Platform) (b : Broker) (arguments : Json) (signal : Option Bool)
    → (tool : HostToolDefinition) → IsAdmitted platform b arguments signal tool
    → refusal platform b arguments signal tool ≡ none
unfolding refusal
admitted_lem platform b arguments signal tool a =
    rw
      (
        a.object,
        (inspect_json_iff b.limits.max_json_bytes b.limits.max_json_depth arguments).1 a.bounded,
        a.validated,
      )
      (signal_room signal _ _ a.not_aborted a.room)

refusal-none :
    (platform : Platform) (b : Broker) (arguments : Json) (signal : Option Bool)
    → (tool : HostToolDefinition) → refusal platform b arguments signal tool ≡ none
    → IsAdmitted platform b arguments signal tool
unfolding refusal
refusal-none platform b arguments signal tool h = record {
  object = ground arith;
  bounded = is_valid→valid b.limits arguments (ground arith);
  validated = ground arith;
  not_aborted = λ e. ground arith;
  room = ground arith;
}

pub call_tool-promised :
    (platform : Platform) (b : Broker) (id : Text) (revision : ℕ) (name : Text) (arguments : Json)
    → (signal : Option Bool) (call_id : Text) (launch : Launch) (found : Option HostToolDefinition)
    → ((call_tool platform b id revision name arguments signal call_id launch found).1
        ≡ ok (promised call_id))
      ↔ ((tool : HostToolDefinition) × (found ≡ some tool)
          × IsAdmitted platform b arguments signal tool)
unfolding call_tool immediate_failure
call_tool-promised platform b id revision name arguments signal call_id launch none =
    (λ h. absurd (ground arith), λ h. absurd (ground arith))
call_tool-promised platform b id revision name arguments signal call_id launch (some tool) =
    elim (Option-cases (refusal platform b arguments signal tool)) [
      | inl e ↦ (
        λ h. (tool, refl, refusal-none platform b arguments signal tool e),
        λ h. rw (e, call_tool) refl,
      )
      | inr (code, e) ↦ (
        λ h. absurd (ground arith),
        λ h. absurd (ground (arith, admitted_lem platform b arguments signal h.0 h.2)),
      )
    ]

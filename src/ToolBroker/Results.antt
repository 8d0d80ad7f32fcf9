-- ===== src/ToolBroker/Results.antt =====
-- toolBroker.ts: what is let through of the definitions and of the results.
use tea_desktop.Base.{
  ◌≤◌, ◌≡◌, refl, subst, Bool, true, false, length, leb, arith, Bool-cases, inl, inr, ◌↔◌,
}
use tea_desktop.Conversation.Values.{Json}
use tea_desktop.ToolBroker.Inspection.{inspect_json}
use tea_desktop.ToolBroker.InspectionLaws.{is_plain, json_depth, json_length, inspect_json_iff}
use tea_desktop.ToolBroker.Definitions.{
  HostToolResult, HostToolDefinition, Platform, Limits, ToolOutcome, success, failure, listed,
  unlisted, absent, text, not_text, validate_result, validate_outcome, is_record, is_valid,
  max_failure_message_chars,
}

-- A value of plain JSON within the limits.
abbrev pub IsBounded : Limits → Json → Type 0
IsBounded limits v =
    (is_plain v ≡ true)
    × (json_depth v ≤ limits.max_json_depth)
    × (json_length v ≤ limits.max_json_bytes)

-- What a caller of a tool may be given.
abbrev pub IsDeliverable : Platform → Limits → HostToolDefinition → ToolOutcome → Type 0
IsDeliverable platform limits tool (success output) =
    (is_record output ≡ true)
    × IsBounded limits output
    × (platform.validates tool.output_schema output ≡ true)
IsDeliverable platform limits tool (failure unlisted message) = ◌≡◌ {A = Bool} true false
IsDeliverable platform limits tool (failure (listed code) absent) = Unit
IsDeliverable platform limits tool (failure (listed code) (text s)) =
    length s ≤ max_failure_message_chars
IsDeliverable platform limits tool (failure (listed code) not_text) = ◌≡◌ {A = Bool} true false

pub is_valid→valid :
    (limits : Limits) (v : Json)
    → is_valid (inspect_json limits.max_json_bytes limits.max_json_depth v) ≡ true
    → IsBounded limits v
is_valid→valid limits v h =
    (inspect_json_iff limits.max_json_bytes limits.max_json_depth v).0 (ground arith)

delivered_outcome :
    (platform : Platform) (limits : Limits) (result : HostToolResult) (tool : HostToolDefinition)
    → (outcome : ToolOutcome) → result.outcome ≡ outcome
    → IsDeliverable platform limits tool
        (validate_outcome platform limits result tool outcome).outcome
unfolding validate_outcome
delivered_outcome platform limits result tool (success output) h =
    elim (Bool-cases (is_record output)) [
      | inr e ↦ rw e tt
      | inl e ↦
          rw e
            (elim (Bool-cases
              (is_valid (inspect_json limits.max_json_bytes limits.max_json_depth output))) [
                | inr f ↦ rw f tt
                | inl f ↦ rw f (elim (Bool-cases (platform.validates tool.output_schema output)) [
                  | inr g ↦ rw g tt
                  | inl g ↦ rw (g, h) (e, is_valid→valid limits output f, g)
                ])
              ])
    ]
delivered_outcome platform limits result tool (failure unlisted message) h = tt
delivered_outcome platform limits result tool (failure (listed code) absent) h = rw h tt
delivered_outcome platform limits result tool (failure (listed code) (text s)) h =
    elim (Bool-cases (leb (length s) max_failure_message_chars)) [
      | inl e ↦ rw (e, h) (ground arith)
      | inr e ↦ rw e tt
    ]
delivered_outcome platform limits result tool (failure (listed code) not_text) h = tt

kept_outcome :
    (platform : Platform) (limits : Limits) (result : HostToolResult) (tool : HostToolDefinition)
    → (outcome : ToolOutcome) → IsDeliverable platform limits tool outcome
    → validate_outcome platform limits result tool outcome ≡ result
unfolding validate_outcome
kept_outcome platform limits result tool (success output) h =
    rw (h.0, (inspect_json_iff limits.max_json_bytes limits.max_json_depth output).1 h.1, h.2) refl
kept_outcome platform limits result tool (failure unlisted message) h = absurd (ground arith)
kept_outcome platform limits result tool (failure (listed code) absent) h = refl
kept_outcome platform limits result tool (failure (listed code) (text s)) h = ground arith
kept_outcome platform limits result tool (failure (listed code) not_text) h = absurd (ground arith)

-- `validateResult` always gives a deliverable outcome: a success whose output is an object of plain
-- JSON within the limits that the tool's output schema validates, or a failure with one of the six
-- codes and at most 1024 code units of message. It passes exactly
-- the results that are deliverable as they are.
pub validate_result-IsDeliverable :
    (platform : Platform) (limits : Limits) (result : HostToolResult) (tool : HostToolDefinition)
    → IsDeliverable platform limits tool (validate_result platform limits result tool).outcome
      × ((validate_result platform limits result tool ≡ result)
          ↔ IsDeliverable platform limits tool result.outcome)
unfolding validate_result
validate_result-IsDeliverable platform limits result tool =
    let delivered = delivered_outcome platform limits result tool result.outcome refl in
    (
      delivered,
      (
        λ h. subst (λ r. IsDeliverable platform limits tool r.outcome) h delivered,
        λ h. kept_outcome platform limits result tool result.outcome h,
      ),
    )

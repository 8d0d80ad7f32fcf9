-- ===== src/Acp/Projector/Inversion.antt =====
-- projector.ts: how a tool call's update can be accepted.
use tea_desktop.Base.{
  ◌≡◌, ◌⊎◌, false, List, [], ◌++◌, Option, none, some, ok, arith, Bool-cases, Option-cases, inl,
  inr,
}
use tea_desktop.Base.Map
use tea_desktop.Base.Text.{Text, codes, text_eq, is_empty, trim, show}
use tea_desktop.Conversation.{ConversationEventKind}
use tea_desktop.Acp.Updates.{ToolPatch}
use tea_desktop.Acp.Projector.{
  Projector, ToolProjection, project_known_tool, project_open_tool, project_tool,
}

-- The tool call was not seen before, or has not ended.
abbrev pub Runs : Option ToolProjection → Type 0
Runs none = Unit
Runs (some existing) = existing.terminal ≡ false

abbrev pub print_of : (ToolPatch → Text) → Projector → ToolPatch → Text
print_of fingerprint p update = show p.wire_version ++ (codes ":" ++ fingerprint update)

-- The update was taken by a tool call that runs.
pub record IsTaken (fingerprint : ToolPatch → Text) (p : Projector) (update : ToolPatch)
    (q : Projector) (events : List ConversationEventKind) : Type 0 where
  pub existing : Option ToolProjection
  pub found : Map.get (trim update.tool_call_id) p.tools ≡ existing
  pub runs : Runs existing
  pub result :
      project_open_tool p update (trim update.tool_call_id) (print_of fingerprint p update) existing
      ≡ (q, events)

module _ (fingerprint : ToolPatch → Text) (p : Projector) (update : ToolPatch) where
  known_tool_cases :
      (q : Projector) (events : List ConversationEventKind) (id print : Text)
      → (existing : ToolProjection)
      → project_known_tool fingerprint p update id print existing ≡ ok (q, events)
      → ((p ≡ q) × (events ≡ []))
        ⊎ ((existing.terminal ≡ false)
            × (project_open_tool p update id print (some existing) ≡ (q, events)))
  unfolding project_known_tool
  known_tool_cases q events id print existing h =
      elim (Bool-cases (text_eq existing.fingerprint print)) [
        | inl e ↦ inl (ground arith)
        | inr e ↦ elim (Bool-cases existing.terminal) [
          | inl f ↦ inl (ground arith)
          | inr f ↦ inr (f, ground arith)
        ]
      ]

  -- An update that is accepted repeats what is known, or is taken by a tool call that runs.
  pub project_tool_cases :
      (q : Projector) (events : List ConversationEventKind)
      → project_tool fingerprint p update ≡ ok (q, events)
      → ((p ≡ q) × (events ≡ [])) ⊎ IsTaken fingerprint p update q events
  unfolding project_tool
  project_tool_cases q events h = elim (Bool-cases (is_empty (trim update.tool_call_id))) [
    | inl e ↦ absurd (ground arith)
    | inr e ↦ elim (Option-cases (Map.get (trim update.tool_call_id) p.tools)) [
      | inl f ↦ inr (record { existing = none; found = f; runs = tt; result = ground arith })
      | inr (existing, f) ↦
          elim (known_tool_cases q events (trim update.tool_call_id) (print_of fingerprint p update)
            existing (ground arith)) [
              | inl same ↦ inl same
              | inr (runs, result) ↦
                  inr (record { existing = some existing; found = f; runs = runs; result = result })
            ]
    ]
  ]

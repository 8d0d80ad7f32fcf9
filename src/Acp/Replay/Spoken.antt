-- ===== src/Acp/Replay/Spoken.antt =====
-- projector.ts, version 1: what an update of a replay says, and what its events say.
use tea_desktop.Base.{
  ◌+◌, ◌==◌, subst, ℕ, ◌≡◌, refl, sym, true, List, [], ◌∷◌, ◌++◌, Option, none, some, arith, All,
  Bool-cases, Option-cases, inl, inr, append-nil, ok, >>=-ok,
}
use tea_desktop.Base.Text.{Text, is_empty, trim}
use tea_desktop.Conversation.{
  ConversationEventKind, Nullish, message_delta, thought_delta, tool_requested, tool_progress,
  tool_completed, approval_requested, run_started, run_finished, run_failed,
}
use tea_desktop.Conversation.Values.{Json}
use tea_desktop.Timeline.Identity.{IsForeign}
use tea_desktop.Timeline.WellFormed.{NamesForeign}
use tea_desktop.Timeline.Answer.{delta}
use tea_desktop.Acp.Updates.{
  ToolPatch, V1Update, AcpSessionUpdateNotification, v1, v2, content_text,
}
use tea_desktop.Acp.Projector.{
  Projector, AcpProjectedUpdate, project_v1, project, project_tool, project_open_tool,
  status_events, only, text_delta, thought_delta_of, is_in_progress, terminal_status, with_events,
  ToolProjection,
}
use tea_desktop.Acp.Projector.Reading.{said}
use tea_desktop.Acp.Projector.Inversion.{project_tool_cases, print_of}
use tea_desktop.ToolBroker.Inspection.{byte_length}
use tea_desktop.Acp.Replay.{replay_turn_id, counted_text}
use tea_desktop.Acp.Replay.Turns.{Transcript, by, person, agent}

-- What an update says, of whoever says it.
abbrev pub lines_in : V1Update → Transcript
lines_in (V1Update.user_message_chunk content id) = by person (content_text content)
lines_in (V1Update.agent_message_chunk content id) = by agent (content_text content)
lines_in _ = []

-- What the agent says in it.
abbrev pub agent_lines : V1Update → Transcript
agent_lines (V1Update.agent_message_chunk content id) = by agent (content_text content)
agent_lines _ = []

-- The bytes of the text of a chunk, thoughts included.
abbrev pub text_size : V1Update → ℕ
text_size (V1Update.user_message_chunk content id) = byte_length (content_text content)
text_size (V1Update.agent_message_chunk content id) = byte_length (content_text content)
text_size (V1Update.agent_thought_chunk content id) = byte_length (content_text content)
text_size _ = 0

abbrev pub agent_size : V1Update → ℕ
agent_size (V1Update.user_message_chunk content id) = 0
agent_size update = text_size update

abbrev pub heard : AcpSessionUpdateNotification → Transcript
heard (v1 session update) = lines_in update
heard (v2 session update) = []

-- The tool call ids that the agent chose keep out of the turns' own names.
abbrev pub NamesOthers : AcpSessionUpdateNotification → Type 0
NamesOthers (v1 session (V1Update.tool_call update)) =
    (n : ℕ) → IsForeign (replay_turn_id n) (trim update.tool_call_id)
NamesOthers _ = Unit

-- The session does not matter.
others_of :
    (session : Text) (update : V1Update)
    → NamesOthers (v1 session update)
    → NamesOthers (v1 [] update)
others_of session (V1Update.tool_call update) others = others
others_of session (V1Update.user_message_chunk content id) others = tt
others_of session (V1Update.agent_message_chunk content id) others = tt
others_of session (V1Update.agent_thought_chunk content id) others = tt
others_of session V1Update.other_update others = tt

-- The bytes that an event, and events, add to the count.
abbrev pub bytes_of : Option Text → ℕ
bytes_of none = 0
bytes_of (some text) = byte_length text

abbrev pub event_bytes : List ConversationEventKind → ℕ
event_bytes [] = 0
event_bytes (event ∷ events) = bytes_of (counted_text event) + event_bytes events

abbrev pub AllForeign : List ConversationEventKind → Type 0
AllForeign = All (λ kind. (n : ℕ) → NamesForeign (replay_turn_id n) kind)

pub said-delta :
    (kind : ConversationEventKind) (events : List ConversationEventKind)
    → said (kind ∷ events) ≡ delta kind ++ said events
said-delta run_started events = refl
said-delta (message_delta text terminal) events = refl
said-delta (thought_delta text m r) events = refl
said-delta (tool_requested id name a) events = refl
said-delta (tool_progress id m c t) events = refl
said-delta (tool_completed id s m) events = refl
said-delta (approval_requested a id c r d) events = refl
said-delta run_finished events = refl
said-delta (run_failed f) events = refl

-- What a projected update says and names.
pub record Speaks (added : Transcript) (bytes : ℕ) (events : List ConversationEventKind)
    : Type 0 where
  pub words : by agent (said events) ≡ added
  pub weight : event_bytes events ≡ bytes
  pub foreign : AllForeign events

is_empty-bytes : (t : Text) → is_empty t ≡ true → byte_length t ≡ 0
unfolding byte_length
is_empty-bytes [] h = refl
is_empty-bytes (c ∷ t) h = cc

text_delta-Speaks :
    (content : Json)
    → Speaks
        (by agent (content_text content))
        (byte_length (content_text content))
        (text_delta content)
unfolding text_delta
text_delta-Speaks content = elim (Bool-cases (is_empty (content_text content))) [
  | inl e ↦ record {
    words = ground arith;
    weight = rw e (sym (is_empty-bytes (content_text content) e));
    foreign = rw e tt;
  }
  | inr e ↦ record {
    words = rw (e, append-nil (content_text content)) refl;
    weight = rw e (omega arith);
    foreign = rw e ((λ n. tt), tt);
  }
]

thought_delta_of-Speaks :
    (content : Json) (id : Nullish Text)
    → Speaks [] (byte_length (content_text content)) (thought_delta_of content id)
unfolding thought_delta_of
thought_delta_of-Speaks content id = elim (Bool-cases (is_empty (content_text content))) [
  | inl e ↦ record {
    words = rw e refl;
    weight = rw e (sym (is_empty-bytes (content_text content) e));
    foreign = rw e tt;
  }
  | inr e ↦ record {
    words = rw e refl;
    weight = rw e (omega arith);
    foreign = rw e ((λ n. tt), tt);
  }
]

module _ (id name : Text) (update : ToolPatch)
    (others : (n : ℕ) → IsForeign (replay_turn_id n) id) where
  status_events-Speaks : (status : Nullish Text) → Speaks [] 0 (status_events id name status update)
  unfolding status_events
  status_events-Speaks status = elim (Bool-cases (is_in_progress status)) [
    | inl e ↦ record { words = rw e refl; weight = rw e refl; foreign = rw e (others, tt) }
    | inr e ↦ elim (Option-cases (terminal_status status)) [
      | inl f ↦ record { words = rw (e, f) refl; weight = rw (e, f) refl; foreign = rw (e, f) tt }
      | inr (ended, f) ↦ record {
        words = rw (e, f) refl;
        weight = rw (e, f) refl;
        foreign = rw (e, f) ((λ n. tt), tt);
      }
    ]
  ]

project_open_tool-Speaks :
    (p : Projector) (update : ToolPatch) (id print : Text) (existing : Option ToolProjection)
    → ((n : ℕ) → IsForeign (replay_turn_id n) id)
    → Speaks [] 0 (project_open_tool p update id print existing).1
unfolding project_open_tool
project_open_tool-Speaks p update id print none others =
    let s = status_events-Speaks id _ update others _ in
    record { words = s.words; weight = omega (arith, s.weight); foreign = (others, s.foreign) }
project_open_tool-Speaks p update id print (some existing) others =
    status_events-Speaks id _ update others _

module _ (fingerprint : ToolPatch → Text) (p q : Projector) (out : AcpProjectedUpdate) where
  tool-Speaks :
      (update : ToolPatch)
      → ((n : ℕ) → IsForeign (replay_turn_id n) (trim update.tool_call_id))
      → with_events (project_tool fingerprint p update) ≡ ok (q, out)
      → Speaks [] 0 out.events
  tool-Speaks update others h =
      let (next, h₁, h₂) = >>=-ok (project_tool fingerprint p update) _ h in
      let e : next.1 ≡ out.events = ground arith in
      elim (project_tool_cases fingerprint p update next.0 next.1 h₁) [
        | inl (kept, quiet) ↦ rw (← e, quiet) (record { words = refl; weight = refl; foreign = tt })
        | inr t ↦ rw (← e) (
            subst (λ x. Speaks [] 0 x.1) t.result
              (project_open_tool-Speaks p update (trim update.tool_call_id)
                (print_of fingerprint p update) t.existing others))
      ]

  version_1-Speaks :
      (update : V1Update)
      → NamesOthers (v1 [] update)
      → project_v1 fingerprint p update ≡ ok (q, out)
      → Speaks (agent_lines update) (agent_size update) out.events
  unfolding project_v1
  version_1-Speaks (V1Update.agent_message_chunk content id) others h =
      let e : only (text_delta content) ≡ out = ground arith in rw (← e) (text_delta-Speaks content)
  version_1-Speaks (V1Update.agent_thought_chunk content id) others h =
      let e : only (thought_delta_of content id) ≡ out = ground arith in
      rw (← e) (thought_delta_of-Speaks content id)
  version_1-Speaks (V1Update.tool_call update) others h = tool-Speaks update others h
  version_1-Speaks (V1Update.user_message_chunk content id) others h =
      let e : only [] ≡ out = ground arith in
      rw (← e) (record { words = refl; weight = refl; foreign = tt })
  version_1-Speaks V1Update.other_update others h =
      let e : only [] ≡ out = ground arith in
      rw (← e) (record { words = refl; weight = refl; foreign = tt })

  -- What an update's events say, which name no turn's own block.
  pub project_v1-Speaks :
      (session : Text) (update : V1Update)
      → NamesOthers (v1 session update)
      → project fingerprint p (v1 session update) ≡ ok (q, out)
      → Speaks (agent_lines update) (agent_size update) out.events
  unfolding project project_v1
  project_v1-Speaks session update others h = elim (Bool-cases (p.wire_version == 1)) [
    | inr e ↦ absurd (ground arith)
    | inl e ↦ version_1-Speaks update (others_of session update others) (ground arith)
  ]

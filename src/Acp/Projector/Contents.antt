-- ===== src/Acp/Projector/Contents.antt =====
-- projector.ts: the content of an agent's messages and thoughts, and the deltas that come of it.
use tea_desktop.Base.{
  ◌≡◌, refl, sym, ap, subst, List, [], ◌++◌, Option, none, some, length, drop, Result, ok, err,
  Bool-cases, Option-cases, inl, inr, append-nil, Result-cases,
}
use tea_desktop.Base.Text.{
  trim, Text, text_eq, text_eq_iff, is_empty, starts_with, starts_with-drop,
}
use tea_desktop.Conversation.{Nullish, undefined, null, given, ConversationEventKind}
use tea_desktop.Conversation.Values.{Json}
use tea_desktop.Acp.Updates.{
  ToolPatch, V2Update, content_text, joined_text, agent_message_chunk, agent_message,
  agent_thought_chunk, agent_thought, tool_call_update,
}
use tea_desktop.Acp.Projector.Inversion.{project_tool_cases, print_of}
use tea_desktop.Acp.Projector.{
  terminal_status, is_in_progress, ToolProjection, status_events, project_open_tool, ProjectorError,
  Projector, content_of, project_agent_chunk, full_text, replace_message, project_agent_message,
  project_thought_chunk, replace_thought_text, project_agent_thought, project_tool,
}
use tea_desktop.Acp.Projector.Reading.{
  Contents, read_thoughts, content_of-set, put_same, Agree, keep_empty, set_parts, set_thought,
  said_delta, silent,
}

pub agent_chunk-Agree :
    (p : Projector) (id : Text) (content : Json)
    → Agree
        (agent_message_chunk id content)
        p
        (project_agent_chunk p id content).0
        (project_agent_chunk p id content).1
unfolding project_agent_chunk
agent_chunk-Agree p id content =
    let held = p.v2_agent_messages in
    let delta = content_text content in
    elim (Bool-cases (is_empty delta)) [
      | inl e ↦ rw e (record {
        messages = λ k. keep_empty id k held delta e;
        thoughts = λ k. refl;
        messages_read = λ k. keep_empty id k held [] refl;
        thoughts_read = λ k. refl;
      })
      | inr e ↦ rw e (record {
        messages = λ k. content_of-set id k (content_of id held ++ delta) held;
        thoughts = λ k. refl;
        messages_read = λ k.
            set_parts id k held (content_of id held ++ delta) (delta ++ [])
              (ap (λ (t : Text). content_of id held ++ t) (append-nil delta));
        thoughts_read = λ k. refl;
      })
    ]

abbrev pub AgreesWith :
    V2Update → Projector → Result ProjectorError (Projector × List ConversationEventKind) → Type 0
AgreesWith update p (err e) = Unit
AgreesWith update p (ok next) = Agree update p next.0 next.1

replace_message-Agree :
    (p : Projector) (id next : Text) (content : Nullish (List Json))
    → full_text content ≡ some next
    → AgreesWith (agent_message id content) p (replace_message p id next)
unfolding replace_message
replace_message-Agree p id next content full =
    let held = p.v2_agent_messages in
    let previous = content_of id held in
    let delta = drop (length previous) next in
    elim (Bool-cases (text_eq next previous)) [
      | inl e ↦ rw e (record {
        messages = λ k. rw full (
            sym (
              put_same id k next (λ j. content_of j held) (sym ((text_eq_iff next previous).0 e))));
        thoughts = λ k. refl;
        messages_read = λ k. keep_empty id k held [] refl;
        thoughts_read = λ k. refl;
      })
      | inr e ↦ rw e (elim (Bool-cases (starts_with previous next)) [
        | inr f ↦ rw f tt
        | inl f ↦ rw f (record {
          messages = λ k. rw full (content_of-set id k next held);
          thoughts = λ k. refl;
          messages_read = λ k.
              rw (said_delta delta)
                (set_parts id k held next delta (starts_with-drop previous next f));
          thoughts_read = λ k. sym (silent delta (λ j. content_of j p.v2_agent_thoughts) k);
        })
      ])
    ]

pub agent_message-Agree :
    (p : Projector) (id : Text) (content : Nullish (List Json))
    → AgreesWith (agent_message id content) p (project_agent_message p id content)
unfolding project_agent_message
agent_message-Agree p id undefined = record {
  messages = λ k. refl;
  thoughts = λ k. refl;
  messages_read = λ k. keep_empty id k p.v2_agent_messages [] refl;
  thoughts_read = λ k. refl;
}
agent_message-Agree p id null = replace_message-Agree p id [] null refl
agent_message-Agree p id (given content) =
    replace_message-Agree p id (joined_text content) (given content) refl

pub thought_chunk-Agree :
    (p : Projector) (id : Text) (content : Json)
    → Agree
        (agent_thought_chunk id content)
        p
        (project_thought_chunk p id content).0
        (project_thought_chunk p id content).1
unfolding project_thought_chunk
thought_chunk-Agree p id content =
    let held = p.v2_agent_thoughts in
    let delta = content_text content in
    elim (Bool-cases (is_empty delta)) [
      | inl e ↦ rw e (record {
        messages = λ k. refl;
        thoughts = λ k. keep_empty id k held delta e;
        messages_read = λ k. refl;
        thoughts_read = λ k. refl;
      })
      | inr e ↦ rw e (record {
        messages = λ k. refl;
        thoughts = λ k. content_of-set id k (content_of id held ++ delta) held;
        messages_read = λ k. refl;
        thoughts_read = λ k. content_of-set id k (content_of id held ++ delta) held;
      })
    ]

replace_thought-Agree :
    (p : Projector) (id next : Text) (content : Nullish (List Json))
    → full_text content ≡ some next
    → Agree
        (agent_thought id content)
        p
        (replace_thought_text p id next).0
        (replace_thought_text p id next).1
unfolding replace_thought_text
replace_thought-Agree p id next content full =
    let held = p.v2_agent_thoughts in
    let previous = content_of id held in
    let delta = drop (length previous) next in
    elim (Bool-cases (text_eq next previous)) [
      | inl e ↦ rw e (record {
        messages = λ k. refl;
        thoughts = λ k. rw full (
            sym (
              put_same id k next (λ j. content_of j held) (sym ((text_eq_iff next previous).0 e))));
        messages_read = λ k. refl;
        thoughts_read = λ k. refl;
      })
      | inr e ↦ rw e (elim (Bool-cases (starts_with previous next)) [
        | inr f ↦ rw f (record {
          messages = λ k. refl;
          thoughts = λ k. rw full (content_of-set id k next held);
          messages_read = λ k. refl;
          thoughts_read = λ k. content_of-set id k next held;
        })
        | inl f ↦ rw f (record {
          messages = λ k. refl;
          thoughts = λ k. rw full (content_of-set id k next held);
          messages_read = λ k. refl;
          thoughts_read = λ k. set_thought id k held next delta (starts_with-drop previous next f);
        })
      ])
    ]

pub agent_thought-Agree :
    (p : Projector) (id : Text) (content : Nullish (List Json))
    → Agree
        (agent_thought id content)
        p
        (project_agent_thought p id content).0
        (project_agent_thought p id content).1
unfolding project_agent_thought
agent_thought-Agree p id undefined = record {
  messages = λ k. refl;
  thoughts = λ k. refl;
  messages_read = λ k. refl;
  thoughts_read = λ k. refl;
}
agent_thought-Agree p id null = replace_thought-Agree p id [] null refl
agent_thought-Agree p id (given content) =
    replace_thought-Agree p id (joined_text content) (given content) refl

silent_status :
    (id name : Text) (status : Nullish Text) (update : ToolPatch) (held : Contents) (k : Text)
    → read_thoughts (status_events id name status update) held k ≡ held k
unfolding status_events
silent_status id name status update held k = elim (Bool-cases (is_in_progress status)) [
  | inl e ↦ rw e refl
  | inr e ↦ rw e (elim (Option-cases (terminal_status status)) [
    | inl f ↦ rw f refl
    | inr (ended, f) ↦ rw f refl
  ])
]

open_tool-Agree :
    (p : Projector) (update : ToolPatch) (id print : Text) (existing : Option ToolProjection)
    → Agree
        (tool_call_update update)
        p
        (project_open_tool p update id print existing).0
        (project_open_tool p update id print existing).1
unfolding project_open_tool
open_tool-Agree p update id print none = record {
  messages = λ k. refl;
  thoughts = λ k. refl;
  messages_read = λ k. refl;
  thoughts_read = λ k. sym (silent_status id _ _ update (λ j. content_of j p.v2_agent_thoughts) k);
}
open_tool-Agree p update id print (some existing) = record {
  messages = λ k. refl;
  thoughts = λ k. refl;
  messages_read = λ k. refl;
  thoughts_read = λ k. sym (silent_status id _ _ update (λ j. content_of j p.v2_agent_thoughts) k);
}

same-Agree : (p : Projector) (update : ToolPatch) → Agree (tool_call_update update) p p []
same-Agree p update = record {
  messages = λ k. refl;
  thoughts = λ k. refl;
  messages_read = λ k. refl;
  thoughts_read = λ k. refl;
}

-- A tool call's events tell a reader nothing of messages and thoughts.
pub tool-Agree :
    (fingerprint : ToolPatch → Text) (p : Projector) (update : ToolPatch)
    → AgreesWith (tool_call_update update) p (project_tool fingerprint p update)
tool-Agree fingerprint p update = elim (Result-cases (project_tool fingerprint p update)) [
  | inr (e, h) ↦ rw h tt
  | inl (next, h) ↦ rw h (elim (project_tool_cases fingerprint p update next.0 next.1 h) [
    | inl (kept, quiet) ↦ rw (← kept) (rw quiet (same-Agree p update))
    | inr t ↦
        subst (λ x. Agree (tool_call_update update) p x.0 x.1) t.result
          (open_tool-Agree p update (trim update.tool_call_id) (print_of fingerprint p update)
            t.existing)
  ])
]

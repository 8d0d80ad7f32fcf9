-- ===== src/Acp/Projector/ToolOrder.antt =====
-- projector.ts: the events of tool calls, in the order in which they come.
use mathlib.Core.Path.{fun_ext}
use tea_desktop.Base.{
  ◌==◌, ℕ, ◌≡◌, refl, sym, ap, ◌∙◌, subst, List, [], ◌∷◌, ◌++◌, Option, none, some, Result, ok, err,
  arith, All, Result-cases, Bool-cases, inl, inr,
}
use tea_desktop.Base.Map
use tea_desktop.Base.Text.{Text, text_eq_refl, trim}
use tea_desktop.Conversation.{
  Nullish, undefined, null, given, ConversationEventKind, message_delta, thought_delta,
}
use tea_desktop.Conversation.Values.{Json}
use tea_desktop.Acp.Updates.{
  joined_text, ToolPatch, AcpSessionUpdateNotification, V1Update, V2Update, v1, v2,
}
use tea_desktop.Acp.Projector.{
  thought_delta_of, text_delta, replace_thought_text, replace_message, project_thought_chunk,
  project_agent_thought, project_agent_message, project_agent_chunk, name_of_tool, trimmed_or,
  or_else, ProjectorError, AcpProjectedUpdate, Projector, ToolProjection, project_open_tool,
  project_tool, with_events, project_v1, project_v2, project, new_projector, terminal_status,
  is_some_status,
}
use tea_desktop.Acp.Projector.Inversion.{project_tool_cases, print_of, Runs}
use tea_desktop.Acp.Projector.Phases.{
  unseen, running, IsSilent, Phases, enter, IsOrderly, advance_all, phase_of, phases_of,
  IsOrderly-append, status_events-IsOrderly, status_events-phase, Follows, set_phase, enter_twice,
}

abbrev name_for : ToolPatch → Option ToolProjection → Text
name_for update existing =
    trimmed_or update.name
      (trimmed_or update.title (trimmed_or update.kind (name_of_tool existing)))

open_tool-Follows :
    (p : Projector) (update : ToolPatch) (id print : Text) (existing : Option ToolProjection)
    → Map.get id p.tools ≡ existing
    → Runs existing
    → Follows p
        (project_open_tool p update id print existing).0
        (project_open_tool p update id print existing).1
unfolding project_open_tool
open_tool-Follows p update id print none found runs =
    let φ = phases_of p in
    let name = name_for update none in
    let status = or_else update.status undefined in
    let next : ToolProjection = record {
      name = name;
      status = status;
      terminal = is_some_status (terminal_status status);
      fingerprint = print;
    } in
    let r : enter id running φ id ≡ running = rw (text_eq_refl id) refl in
    record {
      orderly =
          (ap phase_of found, status_events-IsOrderly id name status update (enter id running φ) r);
      reached = λ k.
          set_phase id k next p
          ∙ sym (enter_twice id (phase_of (some next)) running φ k)
          ∙ sym (status_events-phase id name status update (enter id running φ) k r);
    }
open_tool-Follows p update id print (some t) found runs =
    let φ = phases_of p in
    let name = name_for update (some t) in
    let status = or_else update.status t.status in
    let next : ToolProjection = record {
      name = name;
      status = status;
      terminal = is_some_status (terminal_status status);
      fingerprint = print;
    } in
    let r : φ id ≡ running = ap phase_of found ∙ rw runs refl in
    record {
      orderly = status_events-IsOrderly id name status update φ r;
      reached = λ k. set_phase id k next p ∙ sym (status_events-phase id name status update φ k r);
    }

same-Follows : (p : Projector) → Follows p p []
same-Follows p = record { orderly = tt; reached = λ k. refl }

silent_events :
    (φ : Phases) (events : List ConversationEventKind)
    → All IsSilent events
    → IsOrderly φ events × (advance_all φ events ≡ φ)
silent_events φ [] q = (tt, refl)
silent_events φ (message_delta text terminal ∷ es) q =
    let (o, a) = silent_events φ es q.1 in ((tt, o), a)
silent_events φ (thought_delta text id replace ∷ es) q =
    let (o, a) = silent_events φ es q.1 in ((tt, o), a)
silent_events φ (e ∷ es) q = absurd (ground arith)

-- Events that no tool call has a part in.
silent-Follows :
    (p q : Projector) (events : List ConversationEventKind)
    → q.tools ≡ p.tools
    → All IsSilent events
    → Follows p q events
silent-Follows p q events same quiet =
    let (o, a) = silent_events (phases_of p) events quiet in
    record {
      orderly = o;
      reached = λ k.
          ap (λ (m : List (Text × ToolProjection)). phase_of (Map.get k m)) same
          ∙ sym (ap (λ (φ : Phases). φ k) a);
    }

abbrev IsQuiet : Projector → Projector × List ConversationEventKind → Type 0
IsQuiet p r = (r.0.tools ≡ p.tools) × All IsSilent r.1

abbrev IsQuietResult :
    Projector → Result ProjectorError (Projector × List ConversationEventKind) → Type 0
IsQuietResult p (err e) = Unit
IsQuietResult p (ok r) = IsQuiet p r

text_delta-IsSilent : (content : Json) → All IsSilent (text_delta content)
unfolding text_delta
text_delta-IsSilent content = ground arith

thought_delta_of-IsSilent :
    (content : Json) (id : Nullish Text) → All IsSilent (thought_delta_of content id)
unfolding thought_delta_of
thought_delta_of-IsSilent content id = ground arith

module _ (p : Projector) (id : Text) where
  agent_chunk-IsQuiet : (content : Json) → IsQuiet p (project_agent_chunk p id content)
  unfolding project_agent_chunk
  agent_chunk-IsQuiet content = ground arith

  thought_chunk-IsQuiet : (content : Json) → IsQuiet p (project_thought_chunk p id content)
  unfolding project_thought_chunk
  thought_chunk-IsQuiet content = ground arith

  replace_message-IsQuietResult : (next : Text) → IsQuietResult p (replace_message p id next)
  unfolding replace_message
  replace_message-IsQuietResult next = ground arith

  agent_message-IsQuietResult :
      (content : Nullish (List Json)) → IsQuietResult p (project_agent_message p id content)
  unfolding project_agent_message
  agent_message-IsQuietResult undefined = (refl, tt)
  agent_message-IsQuietResult null = replace_message-IsQuietResult []
  agent_message-IsQuietResult (given content) = replace_message-IsQuietResult (joined_text content)

  replace_thought-IsQuiet : (next : Text) → IsQuiet p (replace_thought_text p id next)
  unfolding replace_thought_text
  replace_thought-IsQuiet next = ground arith

  agent_thought-IsQuiet :
      (content : Nullish (List Json)) → IsQuiet p (project_agent_thought p id content)
  unfolding project_agent_thought
  agent_thought-IsQuiet undefined = (refl, tt)
  agent_thought-IsQuiet null = replace_thought-IsQuiet []
  agent_thought-IsQuiet (given content) = replace_thought-IsQuiet (joined_text content)

module _ (fingerprint : ToolPatch → Text) where
  abbrev FollowsOut : Projector → Result ProjectorError (Projector × AcpProjectedUpdate) → Type 0
  FollowsOut p (err e) = Unit
  FollowsOut p (ok next) = Follows p next.0 next.1.events

  project_tool-Follows :
      (p : Projector) (update : ToolPatch)
      → FollowsOut p (with_events (project_tool fingerprint p update))
  project_tool-Follows p update = elim (Result-cases (project_tool fingerprint p update)) [
    | inr (e, h) ↦ rw h tt
    | inl (next, h) ↦ rw h (elim (project_tool_cases fingerprint p update next.0 next.1 h) [
      | inl (kept, quiet) ↦ rw (← kept) (rw quiet (same-Follows p))
      | inr t ↦
          subst (λ x. Follows p x.0 x.1) t.result
            (open_tool-Follows p update (trim update.tool_call_id) (print_of fingerprint p update)
              t.existing t.found t.runs)
    ])
  ]

  project_v1-Follows : (p : Projector) (u : V1Update) → FollowsOut p (project_v1 fingerprint p u)
  unfolding project_v1
  project_v1-Follows p (V1Update.agent_message_chunk content id) =
      silent-Follows p p (text_delta content) refl (text_delta-IsSilent content)
  project_v1-Follows p (V1Update.agent_thought_chunk content id) =
      silent-Follows p p (thought_delta_of content id) refl (thought_delta_of-IsSilent content id)
  project_v1-Follows p (V1Update.tool_call update) = project_tool-Follows p update
  project_v1-Follows p (V1Update.user_message_chunk content id) = same-Follows p
  project_v1-Follows p V1Update.other_update = same-Follows p

  quiet-Follows :
      (p : Projector) (r : Projector × List ConversationEventKind) → IsQuiet p r → Follows p r.0 r.1
  quiet-Follows p r h = silent-Follows p r.0 r.1 h.0 h.1

  quiet_result-Follows :
      (p : Projector) (r : Result ProjectorError (Projector × List ConversationEventKind))
      → IsQuietResult p r
      → FollowsOut p (with_events r)
  quiet_result-Follows p (err e) h = tt
  quiet_result-Follows p (ok r) h = quiet-Follows p r h

  project_v2-Follows : (p : Projector) (u : V2Update) → FollowsOut p (project_v2 fingerprint p u)
  unfolding project_v2
  project_v2-Follows p (V2Update.agent_message_chunk id content) =
      quiet-Follows p (project_agent_chunk p id content) (agent_chunk-IsQuiet p id content)
  project_v2-Follows p (V2Update.agent_message id content) =
      quiet_result-Follows p (project_agent_message p id content)
        (agent_message-IsQuietResult p id content)
  project_v2-Follows p (V2Update.agent_thought_chunk id content) =
      quiet-Follows p (project_thought_chunk p id content) (thought_chunk-IsQuiet p id content)
  project_v2-Follows p (V2Update.agent_thought id content) =
      quiet-Follows p (project_agent_thought p id content) (agent_thought-IsQuiet p id content)
  project_v2-Follows p (V2Update.tool_call_update update) = project_tool-Follows p update
  project_v2-Follows p (V2Update.state_update state reason) = same-Follows p
  project_v2-Follows p V2Update.other_update = same-Follows p

  project-Follows :
      (p : Projector) (n : AcpSessionUpdateNotification) → FollowsOut p (project fingerprint p n)
  unfolding project
  project-Follows p (v1 session u) = elim (Bool-cases (p.wire_version == 1)) [
    | inl e ↦ rw e (project_v1-Follows p u)
    | inr e ↦ rw e tt
  ]
  project-Follows p (v2 session u) = elim (Bool-cases (p.wire_version == 2)) [
    | inl e ↦ rw e (project_v2-Follows p u)
    | inr e ↦ rw e tt
  ]

  -- The notifications in the order in which they arrive, of which a refused one gives no events.
  unfoldable pub project_stream :
      Projector → List AcpSessionUpdateNotification → List ConversationEventKind
  project_stream p [] = []
  project_stream p (n ∷ ns) = elim (project fingerprint p n) [
    | err e ↦ project_stream p ns
    | ok next ↦ next.1.events ++ project_stream next.0 ns
  ]

  project_stream-IsOrderly_from :
      (p : Projector) (ns : List AcpSessionUpdateNotification)
      → IsOrderly (phases_of p) (project_stream p ns)
  unfolding project_stream
  project_stream-IsOrderly_from p [] = tt
  project_stream-IsOrderly_from p (n ∷ ns) = elim (Result-cases (project fingerprint p n)) [
    | inr (e, h) ↦ rw (h, project_stream) (project_stream-IsOrderly_from p ns)
    | inl (next, h) ↦
        let f : Follows p next.0 next.1.events = subst (FollowsOut p) h (project-Follows p n) in
        rw (h, project_stream)
          (IsOrderly-append (phases_of p) next.1.events (project_stream next.0 ns) f.orderly (
            subst (λ φ. IsOrderly φ (project_stream next.0 ns)) (fun_ext f.reached)
              (project_stream-IsOrderly_from next.0 ns)))
  ]

  -- Whatever an agent sends, of either version, each tool call is requested at most once, all its
  -- other events come after that, and none comes after the one that says how it ended.
  pub project_stream-IsOrderly :
      (version : ℕ) (ns : List AcpSessionUpdateNotification)
      → IsOrderly (λ k. unseen) (project_stream (new_projector version) ns)
  unfolding Map.get
  project_stream-IsOrderly version ns = project_stream-IsOrderly_from (new_projector version) ns

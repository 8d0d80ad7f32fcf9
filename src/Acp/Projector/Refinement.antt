-- ===== src/Acp/Projector/Refinement.antt =====
-- projector.ts: what a reader makes of the events that updates of version 2 give.
use mathlib.Core.Path.{fun_ext}
use tea_desktop.Base.{
  ◌≡◌, refl, sym, ap, ◌∙◌, subst, List, [], ◌∷◌, Result, ok, err, ◌>>=◌, >>=-ok, arith,
}
use tea_desktop.Base.Text.{Text}
use tea_desktop.Conversation.{ConversationEventKind}
use tea_desktop.Acp.Updates.{
  ToolPatch, V2Update, agent_message_chunk, agent_message, agent_thought_chunk, agent_thought,
  tool_call_update, state_update, other_update,
}
use tea_desktop.Acp.Projector.{
  ProjectorError, AcpProjectedUpdate, Projector, content_of, with_events, project_v2, project_tool,
  project_agent_message,
}
use tea_desktop.Acp.Projector.Contents.{
  AgreesWith, agent_chunk-Agree, agent_message-Agree, thought_chunk-Agree, agent_thought-Agree,
  tool-Agree,
}
use tea_desktop.Acp.Projector.Reading.{
  Contents, message_contents, thought_contents, read_thoughts, read_messages, Agree,
}

-- What the agent holds after its updates, from what it held before.
abbrev pub all_messages : List V2Update → Contents → Contents
all_messages [] held = held
all_messages (u ∷ us) held = all_messages us (message_contents u held)

abbrev pub all_thoughts : List V2Update → Contents → Contents
all_thoughts [] held = held
all_thoughts (u ∷ us) held = all_thoughts us (thought_contents u held)

-- The updates with the events that each gave.
abbrev pub Log : Type 0
Log = List (V2Update × List ConversationEventKind)

abbrev pub read_all_messages : Log → Contents → Contents
read_all_messages [] held = held
read_all_messages ((u, events) ∷ log) held = read_all_messages log (read_messages u events held)

abbrev pub read_all_thoughts : Log → Contents → Contents
read_all_thoughts [] held = held
read_all_thoughts ((u, events) ∷ log) held = read_all_thoughts log (read_thoughts events held)

module _ (fingerprint : ToolPatch → Text) where
  -- The updates in the order in which they arrive, up to one that is refused.
  unfoldable pub project_all : Projector → List V2Update → Result ProjectorError (Projector × Log)
  project_all p [] = ok (p, [])
  project_all p (u ∷ us) = project_v2 fingerprint p u >>= λ next.
      project_all next.0 us >>= λ rest. ok (rest.0, (u, next.1.events) ∷ rest.1)

  abbrev AgreesOut :
      V2Update → Projector → Result ProjectorError (Projector × AcpProjectedUpdate) → Type 0
  AgreesOut u p (err e) = Unit
  AgreesOut u p (ok next) = Agree u p next.0 next.1.events

  with_events-Agree :
      (u : V2Update) (p : Projector)
      → (r : Result ProjectorError (Projector × List ConversationEventKind)) → AgreesWith u p r
      → AgreesOut u p (with_events r)
  with_events-Agree u p (err e) a = tt
  with_events-Agree u p (ok next) a = a

  project_v2-Agree : (p : Projector) (u : V2Update) → AgreesOut u p (project_v2 fingerprint p u)
  unfolding project_v2
  project_v2-Agree p (agent_message_chunk id content) = agent_chunk-Agree p id content
  project_v2-Agree p (agent_message id content) =
      with_events-Agree _ p (project_agent_message p id content) (agent_message-Agree p id content)
  project_v2-Agree p (agent_thought_chunk id content) = thought_chunk-Agree p id content
  project_v2-Agree p (agent_thought id content) = agent_thought-Agree p id content
  project_v2-Agree p (tool_call_update update) =
      with_events-Agree _ p (project_tool fingerprint p update) (tool-Agree fingerprint p update)
  project_v2-Agree p (state_update state reason) = record {
    messages = λ k. refl;
    thoughts = λ k. refl;
    messages_read = λ k. refl;
    thoughts_read = λ k. refl;
  }
  project_v2-Agree p other_update = record {
    messages = λ k. refl;
    thoughts = λ k. refl;
    messages_read = λ k. refl;
    thoughts_read = λ k. refl;
  }

  abbrev pub messages_of : Projector → Contents
  messages_of p k = content_of k p.v2_agent_messages

  abbrev pub thoughts_of : Projector → Contents
  thoughts_of p k = content_of k p.v2_agent_thoughts

  -- The agent's contents and a reader's, from where the projector stands.
  abbrev pub Refines : Projector → List V2Update → Log → Type 0
  Refines p us log =
      (read_all_messages log (messages_of p) ≡ all_messages us (messages_of p))
      × (read_all_thoughts log (thoughts_of p) ≡ all_thoughts us (thoughts_of p))

  Refines-next :
      (p q : Projector) (u : V2Update) (us : List V2Update) (events : List ConversationEventKind)
      → (log : Log) → Agree u p q events
      → Refines q us log
      → Refines p (u ∷ us) ((u, events) ∷ log)
  Refines-next p q u us events log a r =
      let m : messages_of q ≡ message_contents u (messages_of p) = fun_ext a.messages in
      let t : thoughts_of q ≡ thought_contents u (thoughts_of p) = fun_ext a.thoughts in
      let n : messages_of q ≡ read_messages u events (messages_of p) = fun_ext a.messages_read in
      let s : thoughts_of q ≡ read_thoughts events (thoughts_of p) = fun_ext a.thoughts_read in
      (
        ap (read_all_messages log) (sym n) ∙ r.0 ∙ ap (all_messages us) m,
        ap (read_all_thoughts log) (sym s) ∙ r.1 ∙ ap (all_thoughts us) t,
      )

  -- Whatever updates of version 2 a projector takes, in any order and also after others: from its
  -- events a reader makes, for each message and each thought, the content that the agent's updates say.
  pub project_all-Refines :
      (p q : Projector) (us : List V2Update) (log : Log)
      → project_all p us ≡ ok (q, log)
      → Refines p us log
  unfolding project_all
  project_all-Refines p q [] log h = let e : [] ≡ log = ground arith in rw (← e) (refl, refl)
  project_all-Refines p q (u ∷ us) log h =
      let (next, h₁, h₂) = >>=-ok (project_v2 fingerprint p u) _ h in
      let (rest, h₃, h₄) = >>=-ok (project_all next.0 us) _ h₂ in
      let e : (u, next.1.events) ∷ rest.1 ≡ log = ground arith in
      rw (← e) (
        Refines-next p next.0 u us next.1.events rest.1
          (subst (AgreesOut u p) h₁ (project_v2-Agree p u))
          (project_all-Refines next.0 rest.0 us rest.1 h₃))

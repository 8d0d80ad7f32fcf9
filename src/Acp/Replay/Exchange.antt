-- ===== src/Acp/Replay/Exchange.antt =====
-- replay.ts: the replay of a question and its answer.
use tea_desktop.Base.{
  subst, append-nil, ℕ, ◌+◌, ◌≤◌, ◌≡◌, refl, sym, ap, ◌∙◌, false, List, [], ◌∷◌, ◌++◌, arith, none,
  some, Result, ok, ltb, leb,
}
use tea_desktop.Base.Text.{Text, text_eq_refl, is_empty, trim}
use tea_desktop.Conversation.{ConversationTurn, Nullish, message_delta}
use tea_desktop.Conversation.Values.{Json}
use tea_desktop.ToolBroker.Inspection.{byte_length}
use tea_desktop.Acp.Updates.{
  ToolPatch, V1Update, AcpSessionUpdateNotification, v1, text_content, content_text,
}
use tea_desktop.Acp.Projector.{project, project_v1, text_delta}
use tea_desktop.Acp.Replay.{
  ReplayError, is_open_tool, run_finished, output, any, user, Collector, AcpReplayLimits,
  new_collector, accept, accept_once, accept_update, accept_user_chunk, require_text_content,
  start_turn, add_text, accept_projected, take_events, accept_events, complete_current_turn, finish,
  finish_turns, reduce_current, accept_all, replay, new_turn, say, next_event,
}
use tea_desktop.Timeline.Reducer.{
  reduce_turn, on_event, on_message, message_blocks, push_message, create_turn,
}
use tea_desktop.Timeline.Blocks.{close_turn_blocks, close_streaming_text}
use tea_desktop.Acp.Replay.Replayed.{replay-IsFaithful}
use tea_desktop.Acp.Replay.Turns.{lines_of, by, person, agent}

required :
    (content : Json) (t : Text)
    → text_content content ≡ some t
    → require_text_content content ≡ ok t
unfolding require_text_content
required content t h = ground arith

content_text-some :
    (content : Json) (t : Text) → text_content content ≡ some t → content_text content ≡ t
unfolding content_text
content_text-some content t h = ground arith

-- One turn in which the one and then the other is said, after three events.
abbrev pub IsExchange : Text → Text → Result ReplayError (List ConversationTurn × ℕ) → Type 0
IsExchange asked said (ok (turn ∷ [], last)) =
    (lines_of turn ≡ by person asked ++ by agent said) × (last ≡ 3)
IsExchange asked said _ = ⊥

module _ (fingerprint : ToolPatch → Text) (size : AcpSessionUpdateNotification → ℕ)
    (conversation session : Text) (limits : AcpReplayLimits) (question answer : Json)
    (asked said : Text) (first second : Nullish Text) where
  abbrev asks : AcpSessionUpdateNotification
  asks = v1 session (V1Update.user_message_chunk question first)

  abbrev answers : AcpSessionUpdateNotification
  answers = v1 session (V1Update.agent_message_chunk answer second)

  abbrev begin : Collector
  begin = new_collector conversation session limits

  abbrev after_question : Collector
  after_question = record begin {
    turns = say asked (new_turn begin first) ∷ [];
    updates = 1;
    text_bytes = 0 + byte_length asked;
    sequence = 1;
    current_user_message_id = first;
    phase = user;
  }

  question_accepted :
      text_content question ≡ some asked
      → size asks ≤ limits.max_update_bytes
      → 2 ≤ limits.max_updates
      → 1 ≤ limits.max_turns
      → byte_length asked + byte_length said ≤ limits.max_text_bytes
      → accept_once fingerprint size begin asks ≡ ok after_question
  unfolding accept_once accept_update accept_user_chunk start_turn add_text
  question_accepted q s u t b =
      let e₁ : ltb limits.max_updates 1 ≡ false = ground arith in
      let e₂ : ltb limits.max_update_bytes (size asks) ≡ false = ground arith in
      let e₃ : leb limits.max_turns 0 ≡ false = ground arith in
      let e₄ : ltb limits.max_text_bytes (0 + byte_length asked) ≡ false = ground arith in
      rw (text_eq_refl session, e₁, e₂, required question asked q, e₃, e₄) refl

  abbrev answered_turn : ConversationTurn
  answered_turn =
      reduce_turn (say asked (new_turn begin first))
        (next_event after_question (message_delta said false))

  abbrev after_answer : Collector
  after_answer = record after_question {
    turns = answered_turn ∷ [];
    updates = 2;
    text_bytes = 0 + byte_length asked + byte_length said;
    sequence = 2;
    phase = output;
  }

  answer_accepted :
      text_content answer ≡ some said
      → is_empty said ≡ false
      → size answers ≤ limits.max_update_bytes
      → 2 ≤ limits.max_updates
      → byte_length asked + byte_length said ≤ limits.max_text_bytes
      → accept_once fingerprint size after_question answers ≡ ok after_answer
  unfolding accept_once accept_update add_text accept_projected take_events accept_events
      reduce_current project project_v1 text_delta
  answer_accepted a n s u b =
      let e₁ : ltb limits.max_updates 2 ≡ false = ground arith in
      let e₂ : ltb limits.max_update_bytes (size answers) ≡ false = ground arith in
      let e₄ : ltb limits.max_text_bytes (0 + byte_length asked + byte_length said) ≡ false =
        ground arith in
      rw
        (
          text_eq_refl session,
          e₁,
          e₂,
          required answer said a,
          content_text-some answer said a,
          n,
          e₄,
        )
        refl

  answered_open : any is_open_tool answered_turn.blocks ≡ false
  unfolding reduce_turn on_event on_message message_blocks push_message create_turn
  answered_open = refl

  abbrev ended_turn : ConversationTurn
  ended_turn = reduce_turn answered_turn (next_event after_answer run_finished)

  ended_open : any is_open_tool ended_turn.blocks ≡ false
  unfolding reduce_turn on_event on_message message_blocks push_message create_turn
      close_turn_blocks close_streaming_text
  ended_open = refl

  answered_asked : is_empty (trim answered_turn.user.text) ≡ is_empty (trim asked)
  unfolding reduce_turn on_event on_message message_blocks push_message create_turn
  answered_asked = refl

  finished : is_empty (trim asked) ≡ false → finish_turns after_answer ≡ ok (ended_turn ∷ [], 3)
  unfolding finish_turns complete_current_turn reduce_current
  finished n = rw (answered_asked, n, answered_open, ended_open) refl

  accepted :
      (c d : Collector) (input : AcpSessionUpdateNotification)
      → c.failure ≡ none
      → accept_once fingerprint size c input ≡ ok d
      → accept fingerprint size c input ≡ (d, ok tt)
  unfolding accept
  accepted c d input e h = ground arith

  -- The two notifications fit the limits.
  pub record Fits : Type 0 where
    pub question_size : size asks ≤ limits.max_update_bytes
    pub answer_size : size answers ≤ limits.max_update_bytes
    pub updates : 2 ≤ limits.max_updates
    pub turns : 1 ≤ limits.max_turns
    pub bytes : byte_length asked + byte_length said ≤ limits.max_text_bytes

  -- A question that is not blank and an answer that is not empty, of one session and within the limits,
  -- are always accepted and replayed: as one turn, in which the one and then the other is said, and
  -- that has seen three events.
  pub replay-IsExchange :
      text_content question ≡ some asked
      → text_content answer ≡ some said
      → is_empty (trim asked) ≡ false
      → is_empty said ≡ false
      → Fits
      → IsExchange asked said (replay fingerprint size begin (asks ∷ answers ∷ []))
  unfolding replay accept_all finish
  replay-IsExchange q a n m f =
      let h₁ =
        accepted begin after_question asks refl
          (question_accepted q f.question_size f.updates f.turns f.bytes) in
      let h₂ =
        accepted after_question after_answer answers refl
          (answer_accepted a m f.answer_size f.updates f.bytes) in
      let h : replay fingerprint size begin (asks ∷ answers ∷ []) ≡ ok (ended_turn ∷ [], 3) =
        ap
          (λ (x : Collector × Result ReplayError (Unit {0})).
            (finish (accept_all fingerprint size x.0 (answers ∷ []))).1)
          h₁
        ∙ ap (λ (x : Collector × Result ReplayError (Unit {0})). (finish x.0).1) h₂
        ∙ finished n in
      let w =
        (replay-IsFaithful fingerprint size conversation session limits (asks ∷ answers ∷ [])
          (ended_turn ∷ []) 3 (tt, (tt, tt)) h).words in
      let told =
        sym (append-nil (lines_of ended_turn))
        ∙ w
        ∙ ap (◌++◌ (by person (content_text question)))
            (append-nil (by agent (content_text answer)))
        ∙ ap (λ (t : Text). by person t ++ by agent (content_text answer))
            (content_text-some question asked q)
        ∙ ap (λ (t : Text). by person asked ++ by agent t) (content_text-some answer said a) in
      subst (IsExchange asked said) (sym h) (told, refl)

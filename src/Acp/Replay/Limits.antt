-- ===== src/Acp/Replay/Limits.antt =====
-- replay.ts: what a replay counts, and its limits.
use tea_desktop.Base.{
  ℕ, ◌+◌, ◌≤◌, ◌≡◌, refl, ap, ◌∙◌, subst, List, [], ◌∷◌, length, arith, Bool-cases, Option-cases,
  inl, inr, ok, ◌>>=◌, >>=-ok, throw_if-ok, ltb, if◌then◌else◌,
}
use tea_desktop.Base.Text.{Text}
use tea_desktop.Conversation.{ConversationTurn, ConversationEventKind, Nullish}
use tea_desktop.Conversation.Values.{Json}
use tea_desktop.ToolBroker.Inspection.{byte_length}
use tea_desktop.Acp.Replay.Spoken.{
  bytes_of, event_bytes, text_size, agent_size, project_v1-Speaks, NamesOthers,
}
use tea_desktop.Acp.Updates.{ToolPatch, V1Update, AcpSessionUpdateNotification, v1, content_text}
use tea_desktop.Acp.Projector.{Projector, AcpProjectedUpdate, project}
use tea_desktop.Acp.Replay.{
  Collector, AcpReplayLimits, count_event, counted_text, add_text, reduce_current, accept_events,
  take_events, accept_projected, accept_user_chunk, accept_update, start_turn, starts_new_message,
  require_text_content, current_turn, put_current, say, user, output, is_empty_phase, is_given,
  check_content, lift_projection,
}
use tea_desktop.Acp.Replay.Turns.{reduce_current-Reduces, AreKept}
use tea_desktop.Acp.Replay.Transcript.{lifted}
use tea_desktop.Acp.Replay.Chunks.{start_turn-Starts, require_text-content}

-- What a step counts, and what it leaves.
pub record Counts (c d : Collector) (bytes : ℕ) : Type 0 where
  pub same_limits : d.limits ≡ c.limits
  pub same_failure : d.failure ≡ c.failure
  pub same_updates : d.updates ≡ c.updates
  pub counted : d.text_bytes ≡ c.text_bytes + bytes
  pub within : c.text_bytes ≤ c.limits.max_text_bytes → d.text_bytes ≤ c.limits.max_text_bytes
  pub room : length c.turns ≤ c.limits.max_turns → length d.turns ≤ c.limits.max_turns

none-Counts : (c : Collector) → Counts c c 0
none-Counts c = record {
  same_limits = refl;
  same_failure = refl;
  same_updates = refl;
  counted = omega arith;
  within = λ h. h;
  room = λ h. h;
}

both-Counts : (b c d : Collector) (m n : ℕ) → Counts b c m → Counts c d n → Counts b d (m + n)
both-Counts b c d m n x y = record {
  same_limits = y.same_limits ∙ x.same_limits;
  same_failure = y.same_failure ∙ x.same_failure;
  same_updates = y.same_updates ∙ x.same_updates;
  counted = omega (arith, x.counted, y.counted);
  within = λ h.
      let a = x.within h in
      let e = ap (λ (l : AcpReplayLimits). l.max_text_bytes) x.same_limits in
      let z : d.text_bytes ≤ c.limits.max_text_bytes = y.within (omega arith) in omega arith;
  room = λ h.
      let a = x.room h in
      let e = ap (λ (l : AcpReplayLimits). l.max_turns) x.same_limits in
      let z : length d.turns ≤ c.limits.max_turns = y.room (omega arith) in omega arith;
}

add_text-Counts :
    (c d : Collector) (text : Text) → add_text c text ≡ ok d → Counts c d (byte_length text)
unfolding add_text
add_text-Counts c d text h =
    let total = c.text_bytes + byte_length text in
    let (small, h₁) = throw_if-ok (ltb c.limits.max_text_bytes total) _ _ h in
    let e : record c { text_bytes = total } ≡ d = ground arith in
    rw (← e) (record {
      same_limits = refl;
      same_failure = refl;
      same_updates = refl;
      counted = refl;
      within = λ h. ground arith;
      room = λ h. h;
    })

length-put :
    (turn : ConversationTurn) (turns : List ConversationTurn)
    → length (put_current turn turns) ≡ length turns
length-put turn [] = refl
length-put turn (_ ∷ turns) = refl

count_event-Counts :
    (c d : Collector) (kind : ConversationEventKind)
    → count_event c kind ≡ ok d
    → Counts c d (bytes_of (counted_text kind))
count_event-Counts c d kind h = elim (Option-cases (counted_text kind)) [
  | inl e ↦ let same : c ≡ d = ground arith in rw (← same, e) (none-Counts c)
  | inr (text, e) ↦ rw e (add_text-Counts c d text (ground arith))
]

reduce_current-Counts :
    (c d : Collector) (kind : ConversationEventKind) → reduce_current c kind ≡ ok d → Counts c d 0
reduce_current-Counts c d kind h =
    let r = reduce_current-Reduces c d kind h in
    rw r.now (record {
      same_limits = refl;
      same_failure = refl;
      same_updates = refl;
      counted = omega arith;
      within = λ b. b;
      room = λ b. subst (λ (ts : List ConversationTurn). length ts ≤ c.limits.max_turns) r.was b;
    })

accept_events-Counts :
    (c d : Collector) (events : List ConversationEventKind)
    → accept_events c events ≡ ok d
    → Counts c d (event_bytes events)
unfolding accept_events
accept_events-Counts c d [] h = let e : c ≡ d = ground arith in rw (← e) (none-Counts c)
accept_events-Counts c d (kind ∷ kinds) h =
    let (counted, h₁, h₂) = >>=-ok (count_event c kind) _ h in
    let (reduced, h₃, h₄) = >>=-ok (reduce_current counted kind) _ h₂ in
    both-Counts c counted d _ _ (count_event-Counts c counted kind h₁) (
      subst (Counts counted d) (omega arith) (
        both-Counts counted reduced d 0 _ (reduce_current-Counts counted reduced kind h₃)
          (accept_events-Counts reduced d kinds h₄)))

take_events-Counts :
    (c d : Collector) (events : List ConversationEventKind)
    → take_events c events ≡ ok d
    → Counts c d (event_bytes events)
unfolding take_events
take_events-Counts c d [] h = let e : c ≡ d = ground arith in rw (← e) (none-Counts c)
take_events-Counts c d (event ∷ events) h =
    let (_, h₁) = throw_if-ok (is_empty_phase c.phase) _ _ h in
    let x = accept_events-Counts (record c { phase = output }) d (event ∷ events) h₁ in
    record {
      same_limits = x.same_limits;
      same_failure = x.same_failure;
      same_updates = x.same_updates;
      counted = x.counted;
      within = x.within;
      room = x.room;
    }

accept_projected-Counts :
    (c d : Collector) (projector : Projector) (projected : AcpProjectedUpdate)
    → accept_projected c projector projected ≡ ok d
    → Counts c d (event_bytes projected.events)
unfolding accept_projected
accept_projected-Counts c d projector projected h =
    let (_, h₁) = throw_if-ok (is_given projected.terminal) _ _ h in
    let x = take_events-Counts (record c { projector = projector }) d projected.events h₁ in
    record {
      same_limits = x.same_limits;
      same_failure = x.same_failure;
      same_updates = x.same_updates;
      counted = x.counted;
      within = x.within;
      room = x.room;
    }

started-Counts :
    (c started : Collector) (id : Nullish Text)
    → AreKept c.sequence c.turns
    → (if starts_new_message c id then start_turn c id else ok c) ≡ ok started
    → Counts c started 0
started-Counts c started id k h = elim (Bool-cases (starts_new_message c id)) [
  | inr e ↦ let same : c ≡ started = ground arith in rw (← same) (none-Counts c)
  | inl e ↦
      let s = start_turn-Starts c started id k (ground arith) in
      record {
        same_limits = s.limits;
        same_failure = s.failure;
        same_updates = s.updates;
        counted = omega (arith, s.text_bytes);
        within = λ b. omega (arith, s.text_bytes);
        room = λ b. omega (arith, s.numbered, s.limited);
      }
]

accept_user-Counts :
    (c d : Collector) (content : Json) (id : Nullish Text)
    → AreKept c.sequence c.turns
    → accept_user_chunk c content id ≡ ok d
    → Counts c d (byte_length (content_text content))
unfolding accept_user_chunk
accept_user-Counts c d content id k h =
    let (text, h₁, h₂) = >>=-ok (require_text_content content) _ h in
    let (started, h₃, h₄) =
      >>=-ok (if starts_new_message c id then start_turn c id else ok c) _ h₂ in
    let (current, h₅, h₆) = >>=-ok (current_turn started.turns) _ h₄ in
    let (counted, h₇, h₈) = >>=-ok (add_text started text) _ h₆ in
    let x =
      both-Counts c started counted 0 _ (started-Counts c started id k h₃)
        (add_text-Counts started counted text h₇) in
    let e : record counted { turns = put_current (say text current) counted.turns; phase = user }
        ≡ d =
      ground arith in
    rw (← e, require_text-content content text h₁)
      (record {
        same_limits = x.same_limits;
        same_failure = x.same_failure;
        same_updates = x.same_updates;
        counted = omega (arith, x.counted);
        within = x.within;
        room = λ b. rw (length-put (say text current) counted.turns) (x.room b);
      })

module _ (fingerprint : ToolPatch → Text) (size : AcpSessionUpdateNotification → ℕ) where
  output-Counts :
      (c d : Collector) (session : Text) (update : V1Update)
      → NamesOthers (v1 session update)
      → (check_content update >>= λ _.
          lift_projection (project fingerprint c.projector (v1 session update)) >>= λ projected.
          accept_projected c projected.0 projected.1)
        ≡ ok d
      → Counts c d (agent_size update)
  output-Counts c d session update others h =
      let (_, h₁, h₂) = >>=-ok (check_content update) _ h in
      let (next, h₃, h₄) =
        >>=-ok (lift_projection (project fingerprint c.projector (v1 session update))) _ h₂ in
      let s =
        project_v1-Speaks fingerprint c.projector next.0 next.1 session update others
          (lifted fingerprint size _ next h₃) in
      rw (← s.weight) (accept_projected-Counts c d next.0 next.1 h₄)

  pub accept_update-Counts :
      (c d : Collector) (session : Text) (update : V1Update)
      → NamesOthers (v1 session update)
      → AreKept c.sequence c.turns
      → accept_update fingerprint size c session update ≡ ok d
      → Counts c d (text_size update)
  unfolding accept_update
  accept_update-Counts c d session (V1Update.user_message_chunk content id) others k h =
      accept_user-Counts c d content id k h
  accept_update-Counts c d session (V1Update.agent_message_chunk content id) others k h =
      output-Counts c d session (V1Update.agent_message_chunk content id) others h
  accept_update-Counts c d session (V1Update.agent_thought_chunk content id) others k h =
      output-Counts c d session (V1Update.agent_thought_chunk content id) others h
  accept_update-Counts c d session (V1Update.tool_call update) others k h =
      output-Counts c d session (V1Update.tool_call update) others h
  accept_update-Counts c d session V1Update.other_update others k h =
      output-Counts c d session V1Update.other_update others h

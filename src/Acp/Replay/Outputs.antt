-- ===== src/Acp/Replay/Outputs.antt =====
-- replay.ts: what the events of an update add to a replay.
use tea_desktop.Base.{
  ◌⊎◌, ℕ, ◌+◌, ◌≡◌, refl, sym, ap, ◌∙◌, subst, true, List, [], ◌∷◌, ◌++◌, append_assoc, append-nil,
  arith, Option-cases, inl, inr, ok, >>=-ok, throw_if-ok, ltb,
}
use tea_desktop.Base.Text.{Text}
use tea_desktop.Conversation.{ConversationTurn, ConversationEventKind}
use tea_desktop.Timeline.Answer.{delta}
use tea_desktop.ToolBroker.Inspection.{byte_length}
use tea_desktop.Acp.Projector.{Projector, AcpProjectedUpdate}
use tea_desktop.Acp.Projector.Reading.{said}
use tea_desktop.Acp.Replay.Spoken.{AllForeign, said-delta, Speaks}
use tea_desktop.Acp.Replay.Turns.{
  Transcript, by, by-append, agent, transcript, AreKept, IsQuiet, Extends, reduce_current-Reduces,
  reduce_current-Extends,
}
use tea_desktop.Acp.Replay.{
  Collector, ReplayPhase, empty, user, output, add_text, count_event, counted_text, accept_events,
  take_events, is_given, accept_projected, has_turns, is_empty_phase, reduce_current,
}

pub phase_cases : (p : ReplayPhase) → (p ≡ user) ⊎ ((p ≡ empty) ⊎ (p ≡ output))
phase_cases empty = inr (inl refl)
phase_cases user = inl refl
phase_cases output = inr (inr refl)

pub turns_cases : (turns : List ConversationTurn) → (turns ≡ []) ⊎ (has_turns turns ≡ true)
turns_cases [] = inl refl
turns_cases (turn ∷ turns) = inr refl

-- Text that was counted.
pub add_text-ok :
    (c d : Collector) (text : Text)
    → add_text c text ≡ ok d
    → (n : ℕ) × (d ≡ record c { text_bytes = n })
unfolding add_text
add_text-ok c d text h =
    let (_, e) =
      throw_if-ok (ltb c.limits.max_text_bytes (c.text_bytes + byte_length text)) _ _ h in
    (c.text_bytes + byte_length text, ground arith)

count_event-ok :
    (c d : Collector) (kind : ConversationEventKind)
    → count_event c kind ≡ ok d
    → (n : ℕ) × (d ≡ record c { text_bytes = n })
count_event-ok c d kind h = elim (Option-cases (counted_text kind)) [
  | inl e ↦ (c.text_bytes, ground arith)
  | inr (text, e) ↦ add_text-ok c d text (ground arith)
]

-- The events add what they say.
accept_events-Extends :
    (c d : Collector) (events : List ConversationEventKind)
    → AllForeign events
    → AreKept c.sequence c.turns
    → accept_events c events ≡ ok d
    → Extends c d (by agent (said events)) × (d.phase ≡ c.phase)
unfolding accept_events
accept_events-Extends c d [] f k h =
    let e : c ≡ d = ground arith in
    rw (← e) (record { kept = k; told = sym (append-nil (transcript c.turns)) }, refl)
accept_events-Extends c d (kind ∷ kinds) f k h =
    let (counted, h₁, h₂) = >>=-ok (count_event c kind) _ h in
    let (reduced, h₃, h₄) = >>=-ok (reduce_current counted kind) _ h₂ in
    let (n, e) = count_event-ok c counted kind h₁ in
    let r = reduce_current-Reduces counted reduced kind h₃ in
    let x =
      reduce_current-Extends counted reduced kind f.0
        (subst (λ (b : Collector). AreKept b.sequence b.turns) (sym e) k) r in
    let (rest, phase) = accept_events-Extends reduced d kinds f.1 x.kept h₄ in
    (
      record {
        kept = rest.kept;
        told =
            rest.told
            ∙ ap (λ (t : Transcript). t ++ by agent (said kinds))
                (x.told ∙ ap (λ (b : Collector). transcript b.turns ++ by agent (delta kind)) e)
            ∙ append_assoc (transcript c.turns) _ _
            ∙ ap (λ (t : Transcript). transcript c.turns ++ t)
                (sym (
                  ap (by agent) (said-delta kind kinds)
                  ∙ by-append agent (delta kind) (said kinds)));
      },
      phase ∙ ap (λ (b : Collector). b.phase) r.now ∙ ap (λ (b : Collector). b.phase) e,
    )

-- A collector whose turns are in order, and its next state.
pub record IsReplaying (c : Collector) : Type 0 where
  pub kept : AreKept c.sequence c.turns
  pub quiet : IsQuiet c.phase c.turns

pub record Advances (c d : Collector) (added : Transcript) : Type 0 where
  pub replaying : IsReplaying d
  pub told : transcript d.turns ≡ transcript c.turns ++ added

take_events-Advances :
    (c d : Collector) (events : List ConversationEventKind) (added : Transcript) (bytes : ℕ)
    → Speaks added bytes events
    → IsReplaying c
    → take_events c events ≡ ok d
    → Advances c d added
unfolding take_events
take_events-Advances c d [] added bytes s r h =
    let e : c ≡ d = ground arith in
    rw (← e, ← s.words) (record { replaying = r; told = sym (append-nil (transcript c.turns)) })
take_events-Advances c d (event ∷ events) added bytes s r h =
    let (_, h₁) = throw_if-ok (is_empty_phase c.phase) _ _ h in
    let (x, phase) =
      accept_events-Extends (record c { phase = output }) d (event ∷ events) s.foreign r.kept h₁ in
    record {
      replaying = record { kept = x.kept; quiet = rw phase tt };
      told = x.told ∙ ap (λ (t : Transcript). transcript c.turns ++ t) s.words;
    }

pub accept_projected-Advances :
    (c d : Collector) (projector : Projector) (projected : AcpProjectedUpdate) (added : Transcript)
    (bytes : ℕ)
    → Speaks added bytes projected.events
    → IsReplaying c
    → accept_projected c projector projected ≡ ok d
    → Advances c d added
unfolding accept_projected
accept_projected-Advances c d projector projected added bytes s r h =
    let (_, h₁) = throw_if-ok (is_given projected.terminal) _ _ h in
    let a =
      take_events-Advances (record c { projector = projector }) d projected.events added bytes s
        (record { kept = r.kept; quiet = r.quiet }) h₁ in
    record { replaying = a.replaying; told = a.told }

-- ===== src/Acp/Replay/Turns.antt =====
-- replay.ts: the turns of a replay, and what the collector's steps do to them.
use tea_desktop.Base.{
  any, ℕ, ◌+◌, ◌≤◌, ◌≡◌, refl, sym, ap, ◌∙◌, subst, Bool, false, List, [], ◌∷◌, ◌++◌, length, map,
  map-append, append_assoc, append-nil, arith, ok, >>=-ok, throw_if-ok,
}
use tea_desktop.Base.Text.{Text, is_empty, trim}
use tea_desktop.Conversation.{
  ConversationTurn, ConversationTurnStatus, ConversationEvent, ConversationEventKind, run_started,
  message_delta, thought_delta, tool_requested, tool_progress, tool_completed, approval_requested,
  run_finished, run_failed, Nullish,
}
use tea_desktop.Timeline.Reducer.{
  on_event, on_message, on_thought, on_tool_requested, on_tool_progress, on_tool_completed,
  on_approval_requested, on_run_failed, reduce_turn,
}
use tea_desktop.Timeline.Sequence.{reduce_turn-id, reduce_turn_new}
use tea_desktop.Timeline.Identity.{IsWellFormed}
use tea_desktop.Timeline.WellFormed.{NamesForeign, reduce_turn-IsWellFormed}
use tea_desktop.Timeline.Answer.{answer, delta, reduce_turn-answer}
use tea_desktop.Timeline.Settled.{IsSettled, terminal_event-IsSettled}
use tea_desktop.Acp.Replay.{
  Collector, ReplayPhase, empty, user, output, current_turn, put_current, next_event,
  reduce_current, complete_current_turn, replay_turn_id, is_open_tool,
}

pub data Speaker : Type 0 where
  person agent : Speaker

-- A conversation as it would be read aloud: who says which code unit.
abbrev pub Transcript : Type 0
Transcript = List (Speaker × ℕ)

abbrev pub by : Speaker → Text → Transcript
by who text = map (λ (c : ℕ). (who, c)) text

abbrev pub lines_of : ConversationTurn → Transcript
lines_of turn = by person turn.user.text ++ by agent (answer turn.blocks)

-- Of turns that stand with the newest first.
abbrev pub transcript : List ConversationTurn → Transcript
transcript [] = []
transcript (turn ∷ turns) = transcript turns ++ lines_of turn

-- The newest turn, of which events up to `sequence` were seen.
abbrev pub IsCurrent : ℕ → ℕ → ConversationTurn → Type 0
IsCurrent sequence n turn =
    (turn.id ≡ replay_turn_id n) × IsWellFormed turn × (turn.last_event_sequence ≤ sequence)

-- A turn that was asked for and is over.
abbrev pub IsEnded : ℕ → ConversationTurn → Type 0
IsEnded n turn =
    (turn.id ≡ replay_turn_id n)
    × IsWellFormed turn
    × IsSettled turn
    × (turn.status ≡ ConversationTurnStatus.completed)
    × (is_empty (trim turn.user.text) ≡ false)

abbrev pub AreEnded : List ConversationTurn → Type 0
AreEnded [] = Unit
AreEnded (turn ∷ turns) = IsEnded (length turns + 1) turn × AreEnded turns

abbrev pub AreKept : ℕ → List ConversationTurn → Type 0
AreKept sequence [] = Unit
AreKept sequence (turn ∷ turns) = IsCurrent sequence (length turns + 1) turn × AreEnded turns

-- Before any output the newest turn has no answer.
abbrev pub IsQuiet : ReplayPhase → List ConversationTurn → Type 0
IsQuiet empty turns = turns ≡ []
IsQuiet user [] = Unit
IsQuiet user (turn ∷ turns) = answer turn.blocks ≡ []
IsQuiet output turns = Unit

on_thought-user :
    (next : ConversationTurn) (text : Text) (m : Nullish Text) (r : Bool)
    → (on_thought next text m r).user ≡ next.user
unfolding on_thought
on_thought-user next text m r = ground arith

on_event-user :
    (next : ConversationTurn) (k : ConversationEventKind) → (on_event next k).user ≡ next.user
unfolding on_event on_message on_tool_requested on_tool_progress on_tool_completed
    on_approval_requested on_run_failed
on_event-user next run_started = refl
on_event-user next (message_delta text terminal) = refl
on_event-user next (thought_delta text m r) = on_thought-user next text m r
on_event-user next (tool_requested id name a) = ground arith
on_event-user next (tool_progress id m c t) = ground arith
on_event-user next (tool_completed id s m) = ground arith
on_event-user next (approval_requested a id c r d) = ground arith
on_event-user next run_finished = refl
on_event-user next (run_failed f) = refl

-- No event touches what the user asked.
pub reduce_turn-user :
    (t : ConversationTurn) (e : ConversationEvent) → (reduce_turn t e).user ≡ t.user
unfolding reduce_turn
reduce_turn-user t e =
    ground (arith, on_event-user (record t { last_event_sequence = e.sequence }) e.event)

pub by-append : (who : Speaker) (s t : Text) → by who (s ++ t) ≡ by who s ++ by who t
by-append who s t = map-append _ s t

-- A new event adds its delta to the newest turn, which stays as it should be.
pub reduce_turn-IsCurrent :
    (c : Collector) (n : ℕ) (t : ConversationTurn) (kind : ConversationEventKind)
    → NamesForeign (replay_turn_id n) kind
    → IsCurrent c.sequence n t
    → IsCurrent (c.sequence + 1) n (reduce_turn t (next_event c kind))
      × (lines_of (reduce_turn t (next_event c kind)) ≡ lines_of t ++ by agent (delta kind))
reduce_turn-IsCurrent c n t kind f (named, w, seen) =
    let e = next_event c kind in
    let (said, last) = reduce_turn-answer t e w (omega arith) in
    (
      (reduce_turn-id t e ∙ named, reduce_turn-IsWellFormed t e w (rw named f), omega arith),
      rw (reduce_turn-user t e, said, by-append agent (answer t.blocks) (delta kind))
          (sym (append_assoc (by person t.user.text) _ _)),
    )

-- The newest turn and the others.
pub current_turn-ok :
    (turns : List ConversationTurn) (turn : ConversationTurn)
    → current_turn turns ≡ ok turn
    → (rest : List ConversationTurn) × (turns ≡ turn ∷ rest)
current_turn-ok [] turn h = cc
current_turn-ok (t ∷ rest) turn h = (rest, ground arith)

-- What a step leaves of a collector `c`, with what it adds to the transcript.
pub record Extends (c d : Collector) (added : Transcript) : Type 0 where
  pub kept : AreKept d.sequence d.turns
  pub told : transcript d.turns ≡ transcript c.turns ++ added

-- What a step of the reducer leaves as it was.
pub record IsBeside (c d : Collector) : Type 0 where
  pub same_phase : d.phase ≡ c.phase
  pub same_message : d.current_user_message_id ≡ c.current_user_message_id
  pub same_number : length d.turns ≡ length c.turns

pub record Reduces (c d : Collector) (kind : ConversationEventKind) : Type 0 where
  pub current : ConversationTurn
  pub rest : List ConversationTurn
  pub was : c.turns ≡ current ∷ rest
  pub now : d ≡ record c {
    turns = reduce_turn current (next_event c kind) ∷ rest;
    sequence = c.sequence + 1;
  }

pub reduce_current-Reduces :
    (c d : Collector) (kind : ConversationEventKind)
    → reduce_current c kind ≡ ok d
    → Reduces c d kind
unfolding reduce_current
reduce_current-Reduces c d kind h =
    let (current, h₁, h₂) = >>=-ok (current_turn c.turns) _ h in
    let (rest, e) = current_turn-ok c.turns current h₁ in
    record {
      current = current;
      rest = rest;
      was = e;
      now =
          let f : record c {
            turns = put_current (reduce_turn current (next_event c kind)) c.turns;
            sequence = c.sequence + 1;
          }
              ≡ d =
            ground arith in
          sym f
          ∙ ap
              (λ (ts : List ConversationTurn). record c {
                turns = put_current (reduce_turn current (next_event c kind)) ts;
                sequence = c.sequence + 1;
              })
              e;
    }

pub reduce_current-Extends :
    (c d : Collector) (kind : ConversationEventKind)
    → ((n : ℕ) → NamesForeign (replay_turn_id n) kind)
    → AreKept c.sequence c.turns
    → Reduces c d kind
    → Extends c d (by agent (delta kind))
reduce_current-Extends c d kind f k r =
    let kept = subst (AreKept c.sequence) r.was k in
    let (now, said) =
      reduce_turn-IsCurrent c (length r.rest + 1) r.current kind (f (length r.rest + 1)) kept.0 in
    record {
      kept = rw r.now (now, kept.1);
      told = rw (r.now, r.was, said) (sym (append_assoc (transcript r.rest) _ _));
    }

-- The newest turn is asked and over, and nothing else has changed.
pub record Completes (c d : Collector) : Type 0 where
  pub ended : AreEnded d.turns
  pub told : transcript d.turns ≡ transcript c.turns
  pub numbered : length d.turns ≡ length c.turns
  pub same_limits : d.limits ≡ c.limits
  pub same_text : d.text_bytes ≡ c.text_bytes
  pub same_updates : d.updates ≡ c.updates
  pub same_failure : d.failure ≡ c.failure

run_finished-IsEnded :
    (c : Collector) (n : ℕ) (t : ConversationTurn)
    → is_empty (trim t.user.text) ≡ false
    → IsCurrent c.sequence n t
    → IsEnded n (reduce_turn t (next_event c run_finished))
unfolding on_event
run_finished-IsEnded c n t asked k =
    let e = next_event c run_finished in
    let (now, said) = reduce_turn-IsCurrent c n t run_finished tt k in
    (
      now.0,
      now.1,
      terminal_event-IsSettled t e (let (_, _, seen) = k in omega arith) tt,
      rw (reduce_turn_new t e (let (_, _, seen) = k in omega arith)) refl,
      rw (reduce_turn-user t e) asked,
    )

pub complete_current-Completes :
    (c d : Collector) → AreKept c.sequence c.turns → complete_current_turn c ≡ ok d → Completes c d
unfolding complete_current_turn
complete_current-Completes c d k h =
    let (current, h₁, h₂) = >>=-ok (current_turn c.turns) _ h in
    let (rest, e) = current_turn-ok c.turns current h₁ in
    let (asked, h₃) = throw_if-ok (is_empty (trim current.user.text)) _ _ h₂ in
    let (closed, h₄) = throw_if-ok (any is_open_tool current.blocks) _ _ h₃ in
    let r = reduce_current-Reduces c d run_finished h₄ in
    let x = reduce_current-Extends c d run_finished (λ n. tt) k r in
    let kept = subst (AreKept c.sequence) r.was k in
    let same : current ≡ r.current = cc (e, r.was) in
    record {
      ended = rw r.now (
        run_finished-IsEnded c (length r.rest + 1) r.current
            (subst (λ (t : ConversationTurn). is_empty (trim t.user.text) ≡ false) same asked)
            kept.0,
        kept.1,
      );
      told = x.told ∙ append-nil (transcript c.turns);
      numbered = rw (r.now, r.was) refl;
      same_limits = rw r.now refl;
      same_text = rw r.now refl;
      same_updates = rw r.now refl;
      same_failure = rw r.now refl;
    }

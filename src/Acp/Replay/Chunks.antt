-- ===== src/Acp/Replay/Chunks.antt =====
-- replay.ts: what a new turn and a chunk of the user add to a replay.
use tea_desktop.Base.{
  ◌<◌, ℕ, ◌+◌, ◌≡◌, refl, sym, ap, ◌∙◌, subst, false, [], ◌∷◌, ◌++◌, length, append_assoc,
  append-nil, arith, Bool-cases, Option-cases, inl, inr, ok, >>=-ok, throw_if-ok, leb,
  if◌then◌else◌,
}
use tea_desktop.Base.Text.{show, codes, Text}
use tea_desktop.Conversation.{ConversationTurn, Nullish, run_started}
use tea_desktop.Conversation.Values.{Json}
use tea_desktop.Timeline.Reducer.{create_turn}
use tea_desktop.Timeline.Answer.{answer, reduce_turn-answer}
use tea_desktop.Acp.Updates.{content_text, text_content}
use tea_desktop.Acp.Projector.{trimmed_or}
use tea_desktop.Acp.Projector.Reading.{said}
use tea_desktop.Acp.Replay.Turns.{
  Transcript, by, by-append, person, lines_of, transcript, AreKept, IsQuiet, IsCurrent,
  reduce_turn-IsCurrent, Completes, complete_current-Completes, current_turn-ok,
}
use tea_desktop.Acp.Replay.{
  Collector, ReplayPhase, user, require_text_content, add_text, start_turn, starts_new_message,
  accept_user_chunk, has_turns, new_turn, say, put_current, current_turn, next_event,
  replay_turn_id, complete_current_turn,
}
use tea_desktop.Acp.Replay.Outputs.{phase_cases, turns_cases, add_text-ok, IsReplaying, Advances}

-- A turn begins.
new_turn-IsCurrent :
    (c : Collector) (id : Nullish Text)
    → IsCurrent (c.sequence + 1) (length c.turns + 1) (new_turn c id)
      × (lines_of (new_turn c id) ≡ [])
      × (answer (new_turn c id).blocks ≡ [])
unfolding create_turn
new_turn-IsCurrent c id =
    let number = length c.turns + 1 in
    let t =
      create_turn (replay_turn_id number)
        (trimmed_or id (codes "acp-replay-prompt-" ++ show number)) [] [] c.sequence in
    let (k, said) = reduce_turn-IsCurrent c number t run_started tt (refl, (tt, tt), omega arith) in
    (k, said, (reduce_turn-answer t (next_event c run_started) (tt, tt) (omega arith)).0)

-- The turns before a new one are over.
pub record Starts (c d : Collector) : Type 0 where
  pub kept : AreKept d.sequence d.turns
  pub quiet : IsQuiet user d.turns
  pub told : transcript d.turns ≡ transcript c.turns
  pub numbered : length d.turns ≡ length c.turns + 1
  pub limited : length c.turns < c.limits.max_turns
  pub limits : d.limits ≡ c.limits
  pub text_bytes : d.text_bytes ≡ c.text_bytes
  pub updates : d.updates ≡ c.updates
  pub failure : d.failure ≡ c.failure

-- Ending the newest turn, if there is one.
pub close_newest :
    (c next : Collector)
    → AreKept c.sequence c.turns
    → (if has_turns c.turns then complete_current_turn c else ok c) ≡ ok next
    → Completes c next
close_newest c next k h = elim (turns_cases c.turns) [
  | inr e ↦ complete_current-Completes c next k (ground arith)
  | inl e ↦
      let same : c ≡ next = ground arith in
      rw (← same) (record {
        ended = rw e tt;
        told = refl;
        numbered = refl;
        same_limits = refl;
        same_text = refl;
        same_updates = refl;
        same_failure = refl;
      })
]

pub start_turn-Starts :
    (c d : Collector) (id : Nullish Text)
    → AreKept c.sequence c.turns
    → start_turn c id ≡ ok d
    → Starts c d
unfolding start_turn
start_turn-Starts c d id k h =
    let (room, h₁) = throw_if-ok (leb c.limits.max_turns (length c.turns)) _ _ h in
    let (next, h₂, h₃) =
      >>=-ok (if has_turns c.turns then complete_current_turn c else ok c) _ h₁ in
    let x = close_newest c next k h₂ in
    let (k, said, quiet) = new_turn-IsCurrent next id in
    let e : record next {
      turns = new_turn next id ∷ next.turns;
      sequence = next.sequence + 1;
      current_user_message_id = id;
      phase = user;
    }
        ≡ d =
      ground arith in
    rw (← e) (record {
      kept = (k, x.ended);
      quiet = quiet;
      told = rw said (append-nil (transcript next.turns) ∙ x.told);
      numbered = omega (arith, x.numbered);
      limited = ground arith;
      limits = x.same_limits;
      text_bytes = x.same_text;
      updates = x.same_updates;
      failure = x.same_failure;
    })

pub require_text-content :
    (content : Json) (text : Text)
    → require_text_content content ≡ ok text
    → content_text content ≡ text
unfolding require_text_content content_text
require_text-content content text h = elim (Option-cases (text_content content)) [
  | inl e ↦ absurd (ground arith)
  | inr (t, e) ↦ ground arith
]

-- The user goes on with the question of the newest turn.
say-Advances :
    (b d : Collector) (n : ℕ) (text : Text) (current : ConversationTurn)
    → AreKept b.sequence b.turns
    → IsQuiet user b.turns
    → current_turn b.turns ≡ ok current
    → d ≡ record b { text_bytes = n; turns = put_current (say text current) b.turns; phase = user }
    → Advances b d (by person text)
say-Advances b d n text current k q h e =
    let (rest, was) = current_turn-ok b.turns current h in
    let kept = subst (AreKept b.sequence) was k in
    let quiet = subst (IsQuiet user) was q in
    rw e (
      rw was (record {
        replaying = record { kept = kept; quiet = quiet };
        told =
            rw
              (
                quiet,
                append-nil (by person current.user.text),
                append-nil (by person (current.user.text ++ text)),
                by-append person current.user.text text,
              )
              (sym (append_assoc (transcript rest) _ _));
      }))

-- A chunk that does not start a message comes while the user speaks.
same_message-user :
    (c : Collector) (id : Nullish Text) → starts_new_message c id ≡ false → c.phase ≡ user
same_message-user c id h = elim (phase_cases c.phase) [
  | inl e ↦ e
  | inr (inl e) ↦ absurd (ground arith)
  | inr (inr e) ↦ absurd (ground arith)
]

-- Where the user's text goes.
started-Advances :
    (c started : Collector) (id : Nullish Text)
    → IsReplaying c
    → (if starts_new_message c id then start_turn c id else ok c) ≡ ok started
    → AreKept started.sequence started.turns
      × IsQuiet user started.turns
      × (transcript started.turns ≡ transcript c.turns)
started-Advances c started id r h = elim (Bool-cases (starts_new_message c id)) [
  | inr e ↦
      let same : c ≡ started = ground arith in
      rw (← same) (
        r.kept,
        subst (λ (p : ReplayPhase). IsQuiet p c.turns) (same_message-user c id e) r.quiet,
        refl,
      )
  | inl e ↦
      let s = start_turn-Starts c started id r.kept (ground arith) in (s.kept, s.quiet, s.told)
]

pub accept_user-Advances :
    (c d : Collector) (content : Json) (id : Nullish Text)
    → IsReplaying c
    → accept_user_chunk c content id ≡ ok d
    → Advances c d (by person (content_text content))
unfolding accept_user_chunk
accept_user-Advances c d content id r h =
    let (text, h₁, h₂) = >>=-ok (require_text_content content) _ h in
    let (started, h₃, h₄) =
      >>=-ok (if starts_new_message c id then start_turn c id else ok c) _ h₂ in
    let (current, h₅, h₆) = >>=-ok (current_turn started.turns) _ h₄ in
    let (counted, h₇, h₈) = >>=-ok (add_text started text) _ h₆ in
    let (n, e) = add_text-ok started counted text h₇ in
    let (k, q, t) = started-Advances c started id r h₃ in
    let f : record counted { turns = put_current (say text current) counted.turns; phase = user }
        ≡ d =
      ground arith in
    let a = say-Advances started d n text current k q h₅ (
      sym f
      ∙ ap
          (λ (b : Collector). record b {
            turns = put_current (say text current) b.turns;
            phase = user;
          })
          e) in
    rw (require_text-content content text h₁) (record {
      replaying = a.replaying;
      told = a.told ∙ ap (λ (l : Transcript). l ++ by person text) t;
    })

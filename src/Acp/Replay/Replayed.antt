-- ===== src/Acp/Replay/Replayed.antt =====
-- replay.ts: a whole replay, from its first notification to the turns that it gives.
use tea_desktop.Base.{
  ℕ, ◌+◌, ◌≤◌, ◌≡◌, refl, sym, ap, ◌∙◌, subst, not, List, [], ◌∷◌, ◌++◌, length, append_assoc,
  append-nil, arith, All, Bool-cases, inl, inr, none, some, Result, ok, err, >>=-ok, throw_if-ok,
  Result-cases, Option-cases, ◌⊎◌,
}
use mathlib.Core.List.{reverse}
use tea_desktop.Base.Text.{Text}
use tea_desktop.Conversation.{ConversationTurn}
use tea_desktop.Acp.Updates.{ToolPatch, AcpSessionUpdateNotification, v1, v2}
use tea_desktop.Acp.Replay.{
  Collector, AcpReplayLimits, ReplayError, accept, accept_once, accept_all, new_collector, replay,
  finish, finish_turns, complete_current_turn, has_turns, any_open_tool,
}
use tea_desktop.Acp.Replay.Spoken.{heard, NamesOthers}
use tea_desktop.Acp.Replay.Turns.{Transcript, transcript, complete_current-Completes}
use tea_desktop.Acp.Replay.Transcript.{accept_once-Advances, accept_once-Passes, accept_once_v2}
use tea_desktop.Acp.Replay.Outputs.{IsReplaying}
use tea_desktop.Acp.Replay.Limits.{accept_update-Counts}
use tea_desktop.Acp.Replay.Ordering.{all_heard, all_bytes, spoken, AreFinished, reverse-Ordered}

module _ (fingerprint : ToolPatch → Text) (size : AcpSessionUpdateNotification → ℕ) where
  accept_failed :
      (c : Collector) (f : ReplayError) (input : AcpSessionUpdateNotification)
      → c.failure ≡ some f
      → accept fingerprint size c input ≡ (c, err f)
  unfolding accept
  accept_failed c f input h = ground arith

  -- A failure is final.
  failed_accepts :
      (c : Collector) (f : ReplayError) (inputs : List AcpSessionUpdateNotification)
      → c.failure ≡ some f
      → accept_all fingerprint size c inputs ≡ c
  unfolding accept_all
  failed_accepts c f [] h = refl
  failed_accepts c f (input ∷ inputs) h =
      rw (accept_failed c f input h) (failed_accepts c f inputs h)

  -- What a run of accepted notifications did.
  pub record Runs (c d : Collector) (inputs : List AcpSessionUpdateNotification) : Type 0 where
    pub replaying : IsReplaying d
    pub told : transcript d.turns ≡ transcript c.turns ++ all_heard inputs
    pub same_limits : d.limits ≡ c.limits
    pub updates : d.updates ≡ c.updates + length inputs
    pub bytes : d.text_bytes ≡ c.text_bytes + all_bytes inputs
    pub within_updates : c.updates ≤ c.limits.max_updates → d.updates ≤ c.limits.max_updates
    pub within_text :
        c.text_bytes ≤ c.limits.max_text_bytes → d.text_bytes ≤ c.limits.max_text_bytes
    pub within_turns : length c.turns ≤ c.limits.max_turns → length d.turns ≤ c.limits.max_turns
    pub small : All (λ input. size input ≤ c.limits.max_update_bytes) inputs

  abbrev Accepted : Collector → Collector → AcpSessionUpdateNotification → Type 0
  Accepted c d input = Runs c d (input ∷ []) × (d.failure ≡ c.failure)

  accept_once-Runs :
      (c d : Collector) (input : AcpSessionUpdateNotification)
      → NamesOthers input
      → IsReplaying c
      → accept_once fingerprint size c input ≡ ok d
      → Accepted c d input
  accept_once-Runs c d (v2 session update) others r h =
      absurd (accept_once_v2 fingerprint size c d session update h)
  accept_once-Runs c d (v1 session update) others r h =
      let a = accept_once-Advances fingerprint size c d (v1 session update) others r h in
      let p = accept_once-Passes fingerprint size c d session update h in
      let n =
        accept_update-Counts fingerprint size (record c { updates = c.updates + 1 }) d session
          update others r.kept p.taken in
      (
        record {
          replaying = a.replaying;
          told = a.told ∙ ap (λ (t : Transcript). transcript c.turns ++ t) (sym (append-nil _));
          same_limits = n.same_limits;
          updates = n.same_updates;
          bytes = omega (arith, n.counted);
          within_updates = λ b. omega (arith, p.counted, n.same_updates);
          within_text = n.within;
          within_turns = n.room;
          small = (p.small, tt);
        },
        n.same_failure,
      )

  Runs-none : (c : Collector) → IsReplaying c → Runs c c []
  Runs-none c r = record {
    replaying = r;
    told = sym (append-nil (transcript c.turns));
    same_limits = refl;
    updates = omega arith;
    bytes = omega arith;
    within_updates = λ b. b;
    within_text = λ b. b;
    within_turns = λ b. b;
    small = tt;
  }

  Runs-next :
      (b c d : Collector) (input : AcpSessionUpdateNotification)
      → (inputs : List AcpSessionUpdateNotification) → Runs b c (input ∷ [])
      → Runs c d inputs
      → Runs b d (input ∷ inputs)
  Runs-next b c d input inputs x y =
      let limits = x.same_limits in
      let y' =
        subst
          (λ (l : AcpReplayLimits).
            (c.updates ≤ l.max_updates → d.updates ≤ l.max_updates)
            × (c.text_bytes ≤ l.max_text_bytes → d.text_bytes ≤ l.max_text_bytes)
            × (length c.turns ≤ l.max_turns → length d.turns ≤ l.max_turns)
            × All (λ (i : AcpSessionUpdateNotification). size i ≤ l.max_update_bytes) inputs)
          limits (y.within_updates, y.within_text, y.within_turns, y.small) in
      record {
        replaying = y.replaying;
        told =
            y.told
            ∙ ap (λ (t : Transcript). t ++ all_heard inputs)
                (x.told
                  ∙ ap (λ (t : Transcript). transcript b.turns ++ t) (append-nil (heard input)))
            ∙ append_assoc (transcript b.turns) _ _;
        same_limits = y.same_limits ∙ limits;
        updates = omega (arith, x.updates, y.updates);
        bytes = omega (arith, x.bytes, y.bytes);
        within_updates = λ h. y'.0 (x.within_updates h);
        within_text = λ h. y'.1 (x.within_text h);
        within_turns = λ h. y'.2 (x.within_turns h);
        small = (x.small.0, y'.3);
      }

  -- A notification either is accepted or leaves a failure.
  accept_cases :
      (c : Collector) (input : AcpSessionUpdateNotification)
      → c.failure ≡ none
      → ((d : Collector) × (accept_once fingerprint size c input ≡ ok d)
          × (accept fingerprint size c input ≡ (d, ok tt)))
        ⊎ ((f : ReplayError) × (accept fingerprint size c input
              ≡ (record c { failure = some f }, err f)))
  unfolding accept
  accept_cases c input h = elim (Result-cases (accept_once fingerprint size c input)) [
    | inl (d, e) ↦ inl (d, e, ground arith)
    | inr (f, e) ↦ inr (f, ground arith)
  ]

  -- As long as no failure is kept, every notification was accepted.
  accept_all-Runs :
      (c : Collector) (inputs : List AcpSessionUpdateNotification)
      → All NamesOthers inputs
      → IsReplaying c
      → c.failure ≡ none
      → (accept_all fingerprint size c inputs).failure ≡ none
      → Runs c (accept_all fingerprint size c inputs) inputs
  unfolding accept_all
  accept_all-Runs c [] others r h g = Runs-none c r
  accept_all-Runs c (input ∷ inputs) others r h g = elim (accept_cases c input h) [
    | inr (f, e) ↦
        let stays = failed_accepts (record c { failure = some f }) f inputs refl in
        let g' =
          subst
            (λ (x : Collector × Result ReplayError (Unit {0})).
              (accept_all fingerprint size x.0 inputs).failure ≡ none)
            e g in
        absurd (ground (arith, stays, g'))
    | inl (d, once, e) ↦
        let (a, kept) = accept_once-Runs c d input others.0 r once in
        let g' =
          subst
            (λ (x : Collector × Result ReplayError (Unit {0})).
              (accept_all fingerprint size x.0 inputs).failure ≡ none)
            e g in
        rw e (
          Runs-next c d (accept_all fingerprint size d inputs) input inputs a
            (accept_all-Runs d inputs others.1 a.replaying (kept ∙ h) g'))
  ]

finish_failed : (c : Collector) (f : ReplayError) → c.failure ≡ some f → (finish c).1 ≡ err f
unfolding finish
finish_failed c f h = ground arith

-- What `finish` has found when it gives turns.
record Finishes (c : Collector) (turns : List ConversationTurn) : Type 0 where
  failure : c.failure ≡ none
  last : Collector
  completed : complete_current_turn c ≡ ok last
  ordered : turns ≡ reverse last.turns

finish-Finishes :
    (c : Collector) (turns : List ConversationTurn) (last : ℕ)
    → (finish c).1 ≡ ok (turns, last)
    → Finishes c turns
unfolding finish finish_turns
finish-Finishes c turns last h = elim (Option-cases c.failure) [
  | inr (f, e) ↦ absurd (ground arith)
  | inl e ↦ elim (Bool-cases c.completed) [
    | inl x ↦ absurd (ground arith)
    | inr x ↦
        let g : finish_turns c ≡ ok (turns, last) = ground arith in
        let (_, h₁) = throw_if-ok (not (has_turns c.turns)) _ _ g in
        let (d, h₂, h₃) = >>=-ok (complete_current_turn c) _ h₁ in
        let (_, h₄) = throw_if-ok (any_open_tool d.turns) _ _ h₃ in
        record { failure = e; last = d; completed = h₂; ordered = ground arith }
  ]
]

-- The turns tell the notifications' texts.
pub record IsFaithful (inputs : List AcpSessionUpdateNotification) (turns : List ConversationTurn)
    : Type 0 where
  pub words : spoken turns ≡ all_heard inputs
  pub finished : AreFinished 0 turns

pub record KeepsLimits (limits : AcpReplayLimits) (size : AcpSessionUpdateNotification → ℕ)
    (inputs : List AcpSessionUpdateNotification) (turns : List ConversationTurn) : Type 0 where
  pub updates : length inputs ≤ limits.max_updates
  pub sizes : All (λ input. size input ≤ limits.max_update_bytes) inputs
  pub bytes : all_bytes inputs ≤ limits.max_text_bytes
  pub number : length turns ≤ limits.max_turns

module _ (fingerprint : ToolPatch → Text) (size : AcpSessionUpdateNotification → ℕ)
    (conversation session : Text) (limits : AcpReplayLimits)
    (inputs : List AcpSessionUpdateNotification) (turns : List ConversationTurn) (last : ℕ) where
  abbrev Start : Collector
  Start = new_collector conversation session limits

  replay_outcome :
      All NamesOthers inputs
      → replay fingerprint size Start inputs ≡ ok (turns, last)
      → IsFaithful inputs turns × KeepsLimits limits size inputs turns
  unfolding replay
  replay_outcome others h =
      let d = accept_all fingerprint size Start inputs in
      let f = finish-Finishes d turns last h in
      let r =
        accept_all-Runs fingerprint size Start inputs others (record { kept = tt; quiet = refl })
          refl f.failure in
      let x = complete_current-Completes d f.last r.replaying.kept f.completed in
      let o = reverse-Ordered f.last.turns x.ended in
      rw f.ordered (
        record { words = o.words ∙ x.told ∙ r.told; finished = o.finished },
        record {
          updates = let b = r.within_updates (omega arith) in omega (arith, b, r.updates);
          sizes = r.small;
          bytes = let b = r.within_text (omega arith) in omega (arith, b, r.bytes);
          number = let b = r.within_turns (omega arith) in omega (arith, b, o.number, x.numbered);
        },
      )

  -- A replay that gives turns tells what the notifications say: the user's and the agent's texts, code
  -- unit by code unit, in the order and with the speaker they arrived with. Its turns are numbered from
  -- 1, each has a question that is not blank and is completed, with no block that streams, no open tool
  -- call and no waiting approval, and with block ids of its own that are all distinct; provided that no
  -- tool call id of the agent starts with the name of a replayed turn and a dash.
  pub replay-IsFaithful :
      All NamesOthers inputs
      → replay fingerprint size Start inputs ≡ ok (turns, last)
      → IsFaithful inputs turns
  replay-IsFaithful others h = (replay_outcome others h).0

  -- A replay that gives turns kept its limits: the number of notifications, the size of each, the bytes
  -- of the texts of all chunks, and the number of turns; under the same condition on tool call ids.
  pub replay-KeepsLimits :
      All NamesOthers inputs
      → replay fingerprint size Start inputs ≡ ok (turns, last)
      → KeepsLimits limits size inputs turns
  replay-KeepsLimits others h = (replay_outcome others h).1

module _ (fingerprint : ToolPatch → Text) (size : AcpSessionUpdateNotification → ℕ) (c : Collector)
    (input : AcpSessionUpdateNotification) (f : ReplayError) where
  accept_keeps_failure :
      (accept fingerprint size c input).1 ≡ err f
      → (accept fingerprint size c input).0.failure ≡ some f
  accept_keeps_failure h = elim (Option-cases c.failure) [
    | inr (g, e) ↦ ground (arith, accept_failed fingerprint size c g input e)
    | inl e ↦ elim (accept_cases fingerprint size c input e) [
      | inl (d, once, done) ↦ absurd (ground (arith, done))
      | inr (g, done) ↦ ground (arith, done)
    ]
  ]

  -- Once a notification was refused, the error is what every later notification and the end of the
  -- replay get, whatever arrives in between.
  pub accept_failure_stays :
      (between : List AcpSessionUpdateNotification) (later : AcpSessionUpdateNotification)
      → (accept fingerprint size c input).1 ≡ err f
      → ((accept fingerprint size
            (accept_all fingerprint size (accept fingerprint size c input).0 between)
            later).1
          ≡ err f)
        × (replay fingerprint size (accept fingerprint size c input).0 between ≡ err f)
  unfolding replay
  accept_failure_stays between later h =
      let failed = accept_keeps_failure h in
      let d = (accept fingerprint size c input).0 in
      let stays = failed_accepts fingerprint size d f between failed in
      (
        ap (λ (x : Collector). (accept fingerprint size x later).1) stays
            ∙ ap (λ (x : Collector × Result ReplayError (Unit {0})). x.1)
                (accept_failed fingerprint size d f later failed),
        ap (λ (x : Collector). (finish x).1) stays ∙ finish_failed d f failed,
      )

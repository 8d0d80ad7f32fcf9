-- ===== src/Acp/Replay/Ordering.antt =====
-- replay.ts: the turns of a replay in the order of the conversation.
use tea_desktop.Base.{
  ℕ, ◌+◌, ◌≡◌, refl, sym, ap, ◌∙◌, subst, List, [], ◌∷◌, ◌++◌, length, append_assoc, append-nil,
  arith,
}
use mathlib.Core.List.{reverse, reverse-cons}
use tea_desktop.Conversation.{ConversationTurn}
use tea_desktop.Acp.Updates.{AcpSessionUpdateNotification, v1, v2}
use tea_desktop.Acp.Replay.Spoken.{heard, text_size}
use tea_desktop.Acp.Replay.Turns.{Transcript, lines_of, transcript, AreEnded, IsEnded}

-- What all notifications say, and how much text that is.
abbrev pub all_heard : List AcpSessionUpdateNotification → Transcript
all_heard [] = []
all_heard (input ∷ inputs) = heard input ++ all_heard inputs

abbrev pub input_bytes : AcpSessionUpdateNotification → ℕ
input_bytes (v1 session update) = text_size update
input_bytes (v2 session update) = 0

abbrev pub all_bytes : List AcpSessionUpdateNotification → ℕ
all_bytes [] = 0
all_bytes (input ∷ inputs) = input_bytes input + all_bytes inputs

-- Of turns in the order of the conversation.
abbrev pub spoken : List ConversationTurn → Transcript
spoken [] = []
spoken (turn ∷ turns) = lines_of turn ++ spoken turns

-- The turns after the first `n`, each asked, over and named after its place.
abbrev pub AreFinished : ℕ → List ConversationTurn → Type 0
AreFinished n [] = Unit
AreFinished n (turn ∷ turns) = IsEnded (n + 1) turn × AreFinished (n + 1) turns

spoken-snoc :
    (turns : List ConversationTurn) (turn : ConversationTurn)
    → spoken (turns ++ (turn ∷ [])) ≡ spoken turns ++ lines_of turn
spoken-snoc [] turn = append-nil (lines_of turn)
spoken-snoc (t ∷ turns) turn =
    rw (spoken-snoc turns turn) (sym (append_assoc (lines_of t) (spoken turns) (lines_of turn)))

length-snoc :
    (turns : List ConversationTurn) (turn : ConversationTurn)
    → length (turns ++ (turn ∷ [])) ≡ length turns + 1
length-snoc [] turn = refl
length-snoc (t ∷ turns) turn = omega (arith, length-snoc turns turn)

finished_snoc :
    (n : ℕ) (turns : List ConversationTurn) (turn : ConversationTurn)
    → AreFinished n turns
    → IsEnded (n + length turns + 1) turn
    → AreFinished n (turns ++ (turn ∷ []))
finished_snoc n [] turn f e = (subst (λ k. IsEnded k turn) (omega arith) e, tt)
finished_snoc n (t ∷ turns) turn f e =
    (f.0, finished_snoc (n + 1) turns turn f.1 (subst (λ k. IsEnded k turn) (omega arith) e))

-- The turns, which stand newest first, in the order of the conversation.
pub record Ordered (turns ordered : List ConversationTurn) : Type 0 where
  pub words : spoken ordered ≡ transcript turns
  pub number : length ordered ≡ length turns
  pub finished : AreFinished 0 ordered

pub reverse-Ordered :
    (turns : List ConversationTurn) → AreEnded turns → Ordered turns (reverse turns)
reverse-Ordered [] e = record { words = refl; number = refl; finished = tt }
reverse-Ordered (turn ∷ turns) e =
    let o = reverse-Ordered turns e.1 in
    rw (reverse-cons turn turns) (record {
      words =
          spoken-snoc (reverse turns) turn ∙ ap (λ (t : Transcript). t ++ lines_of turn) o.words;
      number = length-snoc (reverse turns) turn ∙ omega (arith, o.number);
      finished =
          finished_snoc 0 (reverse turns) turn o.finished
            (subst (λ k. IsEnded k turn) (omega (arith, o.number)) e.0);
    })

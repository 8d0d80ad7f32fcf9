-- ===== src/Timeline/Identity.antt =====
-- Block ids: those that the reducer makes name the turn, the kind and the event's sequence, so no
-- two blocks of a turn share an id, as long as the agent's tool call ids keep out of that namespace.
use tea_desktop.Base.{
  ℕ, ◌≤◌, ◌<◌, ◌≡◌, ◌≢◌, refl, sym, ap, ◌∙◌, ◌++◌, List, [], ◌∷◌, map, arith, All, All-append,
  Bool-cases, inl, inr,
}
use tea_desktop.Base.Text.{Text, codes, text_eq, text_eq_iff, show-injective, append-cancel_left}
use tea_desktop.Conversation.{
  ConversationTurn, ConversationTurnBlock, assistant_text, agent_thought, tool_call, failure_tip,
  block_id, TerminalStatus,
}
use tea_desktop.Timeline.Blocks.{is_open, replace_block, close_streaming_text, close_turn_blocks}
use tea_desktop.Timeline.Reducer.{own_id}

-- An id outside of the reducer's own namespace `${turn.id}-…`.
abbrev pub IsForeign : Text → Text → Type 0
IsForeign turn_id id = (rest : Text) → id ≢ turn_id ++ (codes "-" ++ rest)

-- A block of the turn whose events up to `last` were seen.
abbrev pub IsOwn : Text → ℕ → ConversationTurnBlock → Type 0
IsOwn turn_id last (assistant_text b) =
    (b.id ≡ own_id turn_id (codes "assistant") b.sequence) × (b.sequence ≤ last)
IsOwn turn_id last (agent_thought b) =
    (b.id ≡ own_id turn_id (codes "thought") b.sequence) × (b.sequence ≤ last)
IsOwn turn_id last (failure_tip b) =
    (b.id ≡ own_id turn_id (codes "failure") b.sequence) × (b.sequence ≤ last)
IsOwn turn_id last (tool_call b) = IsForeign turn_id b.id

abbrev pub ids : List ConversationTurnBlock → List Text
ids = map block_id

abbrev pub Distinct : List Text → Type 0
Distinct [] = Unit
Distinct (x ∷ xs) = All (λ y. x ≢ y) xs × Distinct xs

-- The blocks of a turn carry ids of their own, all distinct, and no sequence beyond the last one.
abbrev pub AreWellFormed : Text → ℕ → List ConversationTurnBlock → Type 0
AreWellFormed turn_id last bs = All (IsOwn turn_id last) bs × Distinct (ids bs)

abbrev pub IsWellFormed : ConversationTurn → Type 0
IsWellFormed t = AreWellFormed t.id t.last_event_sequence t.blocks

pub Distinct-snoc :
    (xs : List Text) (y : Text) → Distinct xs → All (λ x. x ≢ y) xs → Distinct (xs ++ (y ∷ []))
Distinct-snoc [] y d h = (tt, tt)
Distinct-snoc (x ∷ xs) y d h = (All-append _ xs (y ∷ []) d.0 (h.0, tt), Distinct-snoc xs y d.1 h.1)

-- Replacing blocks by ones of the same id, and closing them, keeps the ids.
pub ids-replace :
    (bs : List ConversationTurnBlock) (id : Text) (r : ConversationTurnBlock)
    → block_id r ≡ id
    → ids (replace_block bs id r) ≡ ids bs
unfolding replace_block
ids-replace [] id r h = refl
ids-replace (b ∷ bs) id r h = ground (arith, ids-replace bs id r h, text_eq_iff (block_id b) id)

pub ids-close_streaming : (bs : List ConversationTurnBlock) → ids (close_streaming_text bs) ≡ ids bs
unfolding close_streaming_text
ids-close_streaming [] = refl
ids-close_streaming (assistant_text b ∷ bs) = ground (arith, ids-close_streaming bs)
ids-close_streaming (agent_thought b ∷ bs) = ground (arith, ids-close_streaming bs)
ids-close_streaming (tool_call b ∷ bs) = ground (arith, ids-close_streaming bs)
ids-close_streaming (failure_tip b ∷ bs) = ground (arith, ids-close_streaming bs)

pub ids-close_turn :
    (bs : List ConversationTurnBlock) (s : TerminalStatus) → ids (close_turn_blocks bs s) ≡ ids bs
unfolding close_turn_blocks close_streaming_text
ids-close_turn [] s = refl
ids-close_turn (assistant_text b ∷ bs) s = ground (arith, ids-close_turn bs s)
ids-close_turn (agent_thought b ∷ bs) s = ground (arith, ids-close_turn bs s)
ids-close_turn (tool_call b ∷ bs) s = ground (arith, ids-close_turn bs s)
ids-close_turn (failure_tip b ∷ bs) s = ground (arith, ids-close_turn bs s)

module _ (turn_id : Text) (last : ℕ) where
  abbrev pub Owns : List ConversationTurnBlock → Type 0
  Owns = All (IsOwn turn_id last)

  pub Owns-replace :
      (bs : List ConversationTurnBlock) (id : Text) (r : ConversationTurnBlock)
      → IsOwn turn_id last r
      → Owns bs
      → Owns (replace_block bs id r)
  unfolding replace_block
  Owns-replace [] id r o h = tt
  Owns-replace (b ∷ bs) id r o h = elim (Bool-cases (text_eq (block_id b) id)) [
    | inl e ↦ rw e (o, Owns-replace bs id r o h.1)
    | inr e ↦ rw e (h.0, Owns-replace bs id r o h.1)
  ]

  pub Owns-close_streaming :
      (bs : List ConversationTurnBlock) → Owns bs → Owns (close_streaming_text bs)
  unfolding close_streaming_text
  Owns-close_streaming [] h = tt
  Owns-close_streaming (assistant_text b ∷ bs) h = elim (Bool-cases b.streaming) [
    | inl e ↦ rw e (h.0, Owns-close_streaming bs h.1)
    | inr e ↦ rw e (h.0, Owns-close_streaming bs h.1)
  ]
  Owns-close_streaming (agent_thought b ∷ bs) h = elim (Bool-cases b.streaming) [
    | inl e ↦ rw e (h.0, Owns-close_streaming bs h.1)
    | inr e ↦ rw e (h.0, Owns-close_streaming bs h.1)
  ]
  Owns-close_streaming (tool_call b ∷ bs) h = (h.0, Owns-close_streaming bs h.1)
  Owns-close_streaming (failure_tip b ∷ bs) h = (h.0, Owns-close_streaming bs h.1)

  pub Owns-close_turn :
      (bs : List ConversationTurnBlock) (s : TerminalStatus)
      → Owns bs
      → Owns (close_turn_blocks bs s)
  unfolding close_turn_blocks close_streaming_text
  Owns-close_turn [] s h = tt
  Owns-close_turn (assistant_text b ∷ bs) s h = elim (Bool-cases b.streaming) [
    | inl e ↦ rw e (h.0, Owns-close_turn bs s h.1)
    | inr e ↦ rw e (h.0, Owns-close_turn bs s h.1)
  ]
  Owns-close_turn (agent_thought b ∷ bs) s h = elim (Bool-cases b.streaming) [
    | inl e ↦ rw e (h.0, Owns-close_turn bs s h.1)
    | inr e ↦ rw e (h.0, Owns-close_turn bs s h.1)
  ]
  Owns-close_turn (tool_call b ∷ bs) s h = elim (Bool-cases (is_open b.status)) [
    | inl e ↦ rw e (h.0, Owns-close_turn bs s h.1)
    | inr e ↦ rw e (h.0, Owns-close_turn bs s h.1)
  ]
  Owns-close_turn (failure_tip b ∷ bs) s h = (h.0, Owns-close_turn bs s h.1)

-- Own ids of one kind differ by their sequences.
own_id-injective :
    (turn_id kind : Text) (m n : ℕ) → own_id turn_id kind m ≡ own_id turn_id kind n → m ≡ n
own_id-injective turn_id kind m n e = show-injective m n (
    append-cancel_left (codes "-") _ _ (
      append-cancel_left kind _ _
        (append-cancel_left (codes "-") _ _ (append-cancel_left turn_id _ _ e))))

abbrev pub first : Text → ℕ
first [] = 0
first (c ∷ s) = c

-- Own ids of two kinds differ by the kinds' first letters.
pub own_id_kinds :
    (turn_id s t : Text)
    → turn_id ++ (codes "-" ++ s) ≡ turn_id ++ (codes "-" ++ t)
    → first s ≢ first t
    → ⊥
own_id_kinds turn_id s t e h =
    h (ap first (append-cancel_left (codes "-") s t (append-cancel_left turn_id _ _ e)))

-- The id that a new block gets differs from every id there is.
pub assistant-ne :
    (turn_id : Text) (last next : ℕ) (b : ConversationTurnBlock)
    → last < next
    → IsOwn turn_id last b
    → block_id b ≢ own_id turn_id (codes "assistant") next
assistant-ne turn_id last next (assistant_text b) lt o e =
    absurd
      (omega (arith, own_id-injective turn_id (codes "assistant") b.sequence next (sym o.0 ∙ e)))
assistant-ne turn_id last next (agent_thought b) lt o e =
    own_id_kinds turn_id _ _ (sym o.0 ∙ e) (omega arith)
assistant-ne turn_id last next (failure_tip b) lt o e =
    own_id_kinds turn_id _ _ (sym o.0 ∙ e) (omega arith)
assistant-ne turn_id last next (tool_call b) lt o e = o _ e

pub thought-ne :
    (turn_id : Text) (last next : ℕ) (b : ConversationTurnBlock)
    → last < next
    → IsOwn turn_id last b
    → block_id b ≢ own_id turn_id (codes "thought") next
thought-ne turn_id last next (assistant_text b) lt o e =
    own_id_kinds turn_id _ _ (sym o.0 ∙ e) (omega arith)
thought-ne turn_id last next (agent_thought b) lt o e =
    absurd (omega (arith, own_id-injective turn_id (codes "thought") b.sequence next (sym o.0 ∙ e)))
thought-ne turn_id last next (failure_tip b) lt o e =
    own_id_kinds turn_id _ _ (sym o.0 ∙ e) (omega arith)
thought-ne turn_id last next (tool_call b) lt o e = o _ e

pub failure-ne :
    (turn_id : Text) (last next : ℕ) (b : ConversationTurnBlock)
    → last < next
    → IsOwn turn_id last b
    → block_id b ≢ own_id turn_id (codes "failure") next
failure-ne turn_id last next (assistant_text b) lt o e =
    own_id_kinds turn_id _ _ (sym o.0 ∙ e) (omega arith)
failure-ne turn_id last next (agent_thought b) lt o e =
    own_id_kinds turn_id _ _ (sym o.0 ∙ e) (omega arith)
failure-ne turn_id last next (failure_tip b) lt o e =
    absurd (omega (arith, own_id-injective turn_id (codes "failure") b.sequence next (sym o.0 ∙ e)))
failure-ne turn_id last next (tool_call b) lt o e = o _ e

pub IsOwn-mono :
    (turn_id : Text) (m n : ℕ) (b : ConversationTurnBlock)
    → m ≤ n
    → IsOwn turn_id m b
    → IsOwn turn_id n b
IsOwn-mono turn_id m n (assistant_text b) h o = (o.0, omega arith)
IsOwn-mono turn_id m n (agent_thought b) h o = (o.0, omega arith)
IsOwn-mono turn_id m n (failure_tip b) h o = (o.0, omega arith)
IsOwn-mono turn_id m n (tool_call b) h o = o

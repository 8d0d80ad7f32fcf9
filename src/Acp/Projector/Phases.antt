-- ===== src/Acp/Projector/Phases.antt =====
-- projector.ts: the order of a tool call's events, and what its status adds to them.
use tea_desktop.Base.{
  ◌≡◌, refl, sym, ap, ◌∙◌, subst, Bool, true, false, List, [], ◌∷◌, ◌++◌, Option, none, some,
  if◌then◌else◌, arith, Bool-cases, Option-cases, inl, inr,
}
use tea_desktop.Base.Map
use tea_desktop.Base.Text.{Text, codes, text_eq, text_eq_iff}
use tea_desktop.Conversation.{
  Nullish, undefined, null, given, ConversationEventKind, message_delta, thought_delta,
  tool_requested, tool_progress, tool_completed,
}
use tea_desktop.Acp.Updates.{ToolPatch}
use tea_desktop.Acp.Projector.{
  Projector, ToolProjection, status_events, terminal_status, is_some_status, is_in_progress,
}

pub data Phase : Type 0 where
  unseen running ended : Phase

-- The event is not one of a tool call.
abbrev pub IsSilent : ConversationEventKind → Type 0
IsSilent (message_delta text terminal) = Unit
IsSilent (thought_delta text id replace) = Unit
IsSilent _ = ◌≡◌ {A = Bool} true false

abbrev pub Phases : Type 0
Phases = Text → Phase

abbrev pub enter : Text → Phase → Phases → Phases
enter id phase φ k = if text_eq id k then phase else φ k

-- What an event needs: a tool call is requested once, before its other events, and it has none after
-- it ended.
abbrev pub Allows : Phases → ConversationEventKind → Type 0
Allows φ (tool_requested id name arguments) = φ id ≡ unseen
Allows φ (tool_progress id message completed total) = φ id ≡ running
Allows φ (tool_completed id status message) = φ id ≡ running
Allows φ _ = Unit

abbrev pub advance : Phases → ConversationEventKind → Phases
advance φ (tool_requested id name arguments) = enter id running φ
advance φ (tool_completed id status message) = enter id ended φ
advance φ _ = φ

abbrev pub IsOrderly : Phases → List ConversationEventKind → Type 0
IsOrderly φ [] = Unit
IsOrderly φ (e ∷ es) = Allows φ e × IsOrderly (advance φ e) es

abbrev pub advance_all : Phases → List ConversationEventKind → Phases
advance_all φ [] = φ
advance_all φ (e ∷ es) = advance_all (advance φ e) es

abbrev pub phase_of : Option ToolProjection → Phase
phase_of none = unseen
phase_of (some t) = if t.terminal then ended else running

abbrev pub phases_of : Projector → Phases
phases_of p k = phase_of (Map.get k p.tools)

pub IsOrderly-append :
    (φ : Phases) (es fs : List ConversationEventKind)
    → IsOrderly φ es
    → IsOrderly (advance_all φ es) fs
    → IsOrderly φ (es ++ fs)
IsOrderly-append φ [] fs h k = k
IsOrderly-append φ (e ∷ es) fs h k = (h.0, IsOrderly-append (advance φ e) es fs h.1 k)

advance_all-append :
    (φ : Phases) (es fs : List ConversationEventKind)
    → advance_all φ (es ++ fs) ≡ advance_all (advance_all φ es) fs
advance_all-append φ [] fs = refl
advance_all-append φ (e ∷ es) fs = advance_all-append (advance φ e) es fs

-- A status that is in progress is not one that ends.
progress-running :
    (status : Nullish Text) → is_in_progress status ≡ true → terminal_status status ≡ none
unfolding terminal_status text_eq
progress-running undefined h = refl
progress-running null h = refl
progress-running (given s) h =
    subst (λ (t : Text). terminal_status (given t) ≡ none)
      (sym ((text_eq_iff s (codes "in_progress")).0 h)) refl

enter_same :
    (id : Text) (phase : Phase) (φ : Phases) (k : Text) → φ id ≡ phase → φ k ≡ enter id phase φ k
enter_same id phase φ k h = elim (Bool-cases (text_eq id k)) [
  | inl e ↦ rw e (ap φ (sym ((text_eq_iff id k).0 e)) ∙ h)
  | inr e ↦ rw e refl
]

pub status_events-IsOrderly :
    (id name : Text) (status : Nullish Text) (update : ToolPatch) (φ : Phases)
    → φ id ≡ running
    → IsOrderly φ (status_events id name status update)
unfolding status_events
status_events-IsOrderly id name status update φ h = elim (Bool-cases (is_in_progress status)) [
  | inl e ↦ rw e (h, tt)
  | inr e ↦
      rw e (elim (Option-cases (terminal_status status)) [
        | inl f ↦ rw f tt
        | inr (t, f) ↦ rw f (h, tt)
      ])
]

pub status_events-phase :
    (id name : Text) (status : Nullish Text) (update : ToolPatch) (φ : Phases) (k : Text)
    → φ id ≡ running
    → advance_all φ (status_events id name status update) k
      ≡ enter id (if is_some_status (terminal_status status) then ended else running) φ k
unfolding status_events
status_events-phase id name status update φ k h = elim (Bool-cases (is_in_progress status)) [
  | inl e ↦ rw e (rw (progress-running status e) (enter_same id running φ k h))
  | inr e ↦ rw e (elim (Option-cases (terminal_status status)) [
    | inl f ↦ rw f (enter_same id running φ k h)
    | inr (t, f) ↦ rw f refl
  ])
]

-- The events fit the phases in which the projector holds its tool calls, and lead to those in which it
-- holds them after.
pub record Follows (p q : Projector) (events : List ConversationEventKind) : Type 0 where
  pub orderly : IsOrderly (phases_of p) events
  pub reached : (k : Text) → phases_of q k ≡ advance_all (phases_of p) events k

pub set_phase :
    (id k : Text) (t : ToolProjection) (p : Projector)
    → phase_of (Map.get k (Map.set id t p.tools)) ≡ enter id (phase_of (some t)) (phases_of p) k
set_phase id k t p = ground (arith, Map.get-set id k t p.tools)

pub enter_twice :
    (id : Text) (a b : Phase) (φ : Phases) (k : Text) → enter id a (enter id b φ) k ≡ enter id a φ k
enter_twice id a b φ k = ground arith

-- ===== src/ToolBroker/Steps.antt =====
-- Each operation of a broker keeps it well-formed.
use tea_desktop.Base.{
  ℕ, ◌≡◌, refl, sym, ap, ◌∙◌, subst, Bool, true, false, List, [], ◌∷◌, Result, ok, err, arith, All,
  All-imp, Bool-cases, Option-cases, Result-cases, inl, inr,
}
use tea_desktop.Base.Text.{Text, text_eq, text_eq_iff}
use tea_desktop.ToolBroker.Definitions.{
  BrokerError, HostToolFailureCode, HostToolResult, HostToolDefinition, Platform, unavailable,
  cancelled, execution_failed, compile_definitions,
}
use tea_desktop.ToolBroker.Broker.{
  ToolScope, PendingToolCall, Broker, cancel_pending, guard, configure_conversation,
  resolve_pending, resolve, cancel_conversation, remove_conversation, recover, main_handled,
}
use tea_desktop.Base.Map
use tea_desktop.Base.Map.{IsMap}
use tea_desktop.ToolBroker.Invariant.{
  IsValid, others, IsCurrent, settle-IsValid, settle_failure-IsValid, cancel_pending-IsValid,
  cancel_pending-pending, cancel_pending-Unchanged,
}

pub All-others :
    (P : Text × PendingToolCall → Type 0) (id : Text) (m : List (Text × PendingToolCall))
    → All P m
    → All (λ e. (text_eq e.1.conversation_id id ≡ false) × P e) (others id m)
All-others P id [] h = tt
All-others P id ((k, p) ∷ m) h = elim (Bool-cases (text_eq p.conversation_id id)) [
  | inl e ↦ rw e (All-others P id m h.1)
  | inr e ↦ rw e ((e, h.0), All-others P id m h.1)
]

-- A change of one conversation's scope leaves the calls of the others current.
rescoped-IsValid :
    (b : Broker) (id : Text) (code : HostToolFailureCode) (scopes : List (Text × ToolScope)) (n : ℕ)
    → ((j : Text) → text_eq j id ≡ false → Map.get j scopes ≡ Map.get j b.scopes)
    → IsValid b
    → IsValid (record (cancel_pending b id code) { scopes = scopes; next_revision = n })
unfolding IsValid
rescoped-IsValid b id code scopes n same i =
    let c = cancel_pending-IsValid b id code i in
    record {
      is_map = c.is_map;
      unsettled = c.unsettled;
      current = subst (All (IsCurrent scopes)) (sym (cancel_pending-pending b id code i.is_map)) (
          All-imp
            (λ (e : Text × PendingToolCall).
              (text_eq e.1.conversation_id id ≡ false) × IsCurrent b.scopes e)
            (IsCurrent scopes) (λ e h. (h.1.0, same e.1.conversation_id h.0 ∙ h.1.1, h.1.2))
            (others id b.pending) (All-others (IsCurrent b.scopes) id b.pending i.current));
      history = c.history;
      bounded = c.bounded;
    }

set-same :
    (id : Text) (s : ToolScope) (m : List (Text × ToolScope)) (j : Text)
    → text_eq j id ≡ false
    → Map.get j (Map.set id s m) ≡ Map.get j m
set-same id s m j e = ground (arith, Map.get-set id j s m, text_eq_iff id j, text_eq_iff j id)

delete-same :
    (id : Text) (m : List (Text × ToolScope)) (j : Text)
    → text_eq j id ≡ false
    → Map.get j (Map.delete id m) ≡ Map.get j m
delete-same id m j e = ground (arith, Map.get-delete id j m, text_eq_iff id j, text_eq_iff j id)

-- A method that fails with a guard leaves the broker as it is.
pub guard-keeps :
    {A : Type 0} (P : Broker → Type 0) (b : Broker) (test : Bool) (e : BrokerError)
    → (next : Broker × Result BrokerError A) → P b
    → (test ≡ false → P next.0)
    → P (guard b test e next).0
unfolding guard
guard-keeps P b true e next h k = h
guard-keeps P b false e next h k = k refl

pub configure-IsValid :
    (platform : Platform) (b : Broker) (id : Text) (definitions : List HostToolDefinition)
    → IsValid b
    → IsValid (configure_conversation platform b id definitions).0
unfolding configure_conversation
configure-IsValid platform b id definitions i = guard-keeps IsValid b _ _ _ i (λ running.
    guard-keeps IsValid b _ _ _ i (λ named. guard-keeps IsValid b _ _ _ i (λ few.
      elim (Result-cases (compile_definitions platform b.limits [] definitions)) [
        | inr (x, h) ↦ rw h i
        | inl (compiled, h) ↦ rw h (
            rescoped-IsValid b id unavailable _ _
              (λ j other.
                set-same id _ _ j other
                ∙ ap (Map.get j) (cancel_pending-Unchanged b id unavailable).scopes)
              i)
      ])))

pub cancel-IsValid : (b : Broker) (id : Text) → IsValid b → IsValid (cancel_conversation b id).0
unfolding cancel_conversation
cancel-IsValid b id i = guard-keeps IsValid b _ _ _ i (λ running.
    guard-keeps IsValid b _ _ _ i
      (λ named. guard-keeps IsValid b _ _ _ i (λ known. cancel_pending-IsValid b id cancelled i)))

pub remove-IsValid : (b : Broker) (id : Text) → IsValid b → IsValid (remove_conversation b id).0
unfolding remove_conversation
remove-IsValid b id i = guard-keeps IsValid b _ _ _ i (λ running.
    guard-keeps IsValid b _ _ _ i (λ named. guard-keeps IsValid b _ _ _ i (λ known.
      rescoped-IsValid b id unavailable _ _
        (λ j other.
          delete-same id _ j other
          ∙ ap (Map.get j) (cancel_pending-Unchanged b id unavailable).scopes)
        i)))

pub resolve-IsValid :
    (platform : Platform) (b : Broker) (result : HostToolResult)
    → IsValid b
    → IsValid (resolve platform b result).0
unfolding resolve resolve_pending
resolve-IsValid platform b result i = guard-keeps IsValid b _ _ _ i (λ running.
    guard-keeps IsValid b _ _ _ i (λ named. guard-keeps IsValid b _ _ _ i (λ known.
      elim (Option-cases (Map.get result.call_id b.pending)) [
        | inl e ↦ rw e i
        | inr (p, e) ↦ rw e (elim (Bool-cases (text_eq p.conversation_id result.conversation_id)) [
          | inl f ↦ rw f (settle-IsValid b result.call_id _ i)
          | inr f ↦ rw f i
        ])
      ])))

recover-IsValid :
    (id : Text) (r : Broker × Result BrokerError (Unit {0})) → IsValid r.0 → IsValid (recover id r)
recover-IsValid id (b, ok _) i = i
recover-IsValid id (b, err _) i = settle_failure-IsValid b id execution_failed i

pub handled-IsValid :
    (platform : Platform) (b : Broker) (id : Text) (result : HostToolResult)
    → IsValid b
    → IsValid (main_handled platform b id result)
unfolding main_handled
handled-IsValid platform b id result i = elim (Bool-cases (Map.has id b.pending)) [
  | inr e ↦ rw e i
  | inl e ↦
      rw e (recover-IsValid id (resolve platform b result) (resolve-IsValid platform b result i))
]

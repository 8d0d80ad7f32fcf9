-- ===== src/ToolBroker/Invariant.antt =====
-- What holds of a broker between two operations.
use tea_desktop.Base.{
  append_assoc, ℕ, ◌≤◌, ◌≡◌, refl, sym, ap, ◌∙◌, subst, true, false, not, List, [], ◌∷◌, ◌++◌, none,
  some, length, ltb, filter, arith, All, Bool-cases, Option-cases, inl, inr,
}
use tea_desktop.Base.Map
use tea_desktop.Base.Map.{IsMap}
use tea_desktop.Base.Text.{Text, text_eq, text_eq_iff, text_eq_refl}
use tea_desktop.ToolBroker.Definitions.{HostToolFailureCode, HostToolResult}
use tea_desktop.ToolBroker.Broker.{
  ToolScope, PendingToolCall, Broker, settled_call_history, failed, evict, do_effects, settle_found,
  settle, abort_of, settle_failure, cancel_one, cancel_each, cancel_pending,
}

abbrev pub Owners : Type 0
Owners = List (Text × Text)

-- The scope that a pending call was made in is still the one that is configured.
abbrev pub IsCurrent : List (Text × ToolScope) → Text × PendingToolCall → Type 0
IsCurrent scopes e =
    (s : ToolScope) × (Map.get e.1.conversation_id scopes ≡ some s) × (s.revision ≡ e.1.revision)

abbrev pub IsUnsettled : Owners → Text × PendingToolCall → Type 0
IsUnsettled owners e = Map.get e.0 owners ≡ none

pub record AreValid (room : ℕ) (scopes : List (Text × ToolScope))
    (pending : List (Text × PendingToolCall)) (owners : Owners) : Type 0 where
  pub is_map : IsMap pending
  pub unsettled : All (IsUnsettled owners) pending
  pub current : All (IsCurrent scopes) pending
  pub history : length owners ≤ settled_call_history
  pub bounded : length pending ≤ room

unfoldable pub IsValid : Broker → Type 0
IsValid b = AreValid b.limits.max_pending_calls b.scopes b.pending b.settled_owners

length-evict : (m : Owners) → length (evict m) ≤ settled_call_history
unfolding evict
length-evict [] = omega arith
length-evict (e ∷ m) = ground (arith, length-evict m)

get-evict-none : (k : Text) (m : Owners) → Map.get k m ≡ none → Map.get k (evict m) ≡ none
unfolding evict Map.get
get-evict-none k [] h = refl
get-evict-none k (e ∷ m) h = ground (arith, get-evict-none k m)

-- A new owner stands last, and the last one is never evicted.
pub get-evict-set_new :
    (k v : Text) (m : Owners) → Map.get k m ≡ none → Map.get k (evict (Map.set k v m)) ≡ some v
unfolding evict Map.get Map.set
get-evict-set_new k v [] h = ground (arith, text_eq_refl k)
get-evict-set_new k v ((j, w) ∷ m) h = elim (Bool-cases (text_eq j k)) [
  | inl e ↦ absurd (ground arith)
  | inr e ↦ rw e (elim (Bool-cases (ltb settled_call_history (length ((j, w) ∷ Map.set k v m)))) [
    | inl over ↦ rw over (get-evict-set_new k v m (ground arith))
    | inr over ↦ rw over (rw e (Map.get-set_self k v m))
  ])
]

-- The keys that a deletion leaves are others.
delete-others :
    (k : Text) (m : List (Text × PendingToolCall))
    → All (λ (e : Text × PendingToolCall). text_eq k e.0 ≡ false) (Map.delete k m)
unfolding Map.delete
delete-others k [] = tt
delete-others k ((j, w) ∷ m) = elim (Bool-cases (text_eq j k)) [
  | inl e ↦ rw e (delete-others k m)
  | inr e ↦ rw e (ground (arith, text_eq_iff j k, text_eq_iff k j), delete-others k m)
]

All-both :
    (P Q R : Text × PendingToolCall → Type 0)
    → ((e : Text × PendingToolCall) → P e → Q e → R e)
    → (m : List (Text × PendingToolCall)) → All P m
    → All Q m
    → All R m
All-both P Q R f [] p q = tt
All-both P Q R f (e ∷ m) p q = (f e p.0 q.0, All-both P Q R f m p.1 q.1)

-- A call that is remembered as settled is no longer pending.
IsUnsettled-evict :
    (k v : Text) (owners : Owners) (m : List (Text × PendingToolCall))
    → All (IsUnsettled owners) m
    → All (IsUnsettled (evict (Map.set k v owners))) (Map.delete k m)
IsUnsettled-evict k v owners m u =
    All-both (λ e. text_eq k e.0 ≡ false) (IsUnsettled owners)
      (IsUnsettled (evict (Map.set k v owners)))
      (λ e other old.
        get-evict-none e.0 (Map.set k v owners) (rw (Map.get-set k e.0 v owners) (rw other old)))
      (Map.delete k m) (delete-others k m) (Map.All-delete (IsUnsettled owners) k m u)

pub settled-AreValid :
    (room : ℕ) (scopes : List (Text × ToolScope)) (pending : List (Text × PendingToolCall))
    (owners : Owners) (k v : Text)
    → AreValid room scopes pending owners
    → AreValid room scopes (Map.delete k pending) (evict (Map.set k v owners))
settled-AreValid room scopes pending owners k v i = record {
  is_map = Map.delete-IsMap k pending i.is_map;
  unsettled = IsUnsettled-evict k v owners pending i.unsettled;
  current = Map.All-delete (IsCurrent scopes) k pending i.current;
  history = length-evict (Map.set k v owners);
  bounded = omega (arith, i.bounded, Map.length-delete-le k pending);
}

pub settle-IsValid :
    (b : Broker) (k : Text) (r : HostToolResult) → IsValid b → IsValid (settle b k r)
unfolding settle settle_found IsValid
settle-IsValid b k r i = elim (Option-cases (Map.get k b.pending)) [
  | inl e ↦ rw (e, settle) i
  | inr (p, e) ↦ rw (e, settle) (settled-AreValid _ _ _ _ k p.conversation_id i)
]

pub settle_failure-IsValid :
    (b : Broker) (k : Text) (code : HostToolFailureCode)
    → IsValid b
    → IsValid (settle_failure b k code)
unfolding settle_failure IsValid
settle_failure-IsValid b k code i = elim (Option-cases (Map.get k b.pending)) [
  | inl e ↦ rw (e, settle_failure) i
  | inr (p, e) ↦
      rw (e, settle_failure)
        (settle-IsValid (do_effects b (abort_of k p)) k (failed p.conversation_id k code) i)
]

-- The scopes, limits and flags that settling leaves alone, and the pending calls it leaves.
pub record Unchanged (b c : Broker) : Type 0 where
  pub limits : c.limits ≡ b.limits
  pub scopes : c.scopes ≡ b.scopes
  pub revision : c.next_revision ≡ b.next_revision
  pub down : c.is_shut_down ≡ b.is_shut_down

pub Unchanged-trans : {a b c : Broker} → Unchanged a b → Unchanged b c → Unchanged a c
Unchanged-trans f g = record {
  limits = g.limits ∙ f.limits;
  scopes = g.scopes ∙ f.scopes;
  revision = g.revision ∙ f.revision;
  down = g.down ∙ f.down;
}

pub settle_failure-pending :
    (b : Broker) (k : Text) (code : HostToolFailureCode)
    → (settle_failure b k code).pending ≡ Map.delete k b.pending
unfolding settle_failure settle settle_found
settle_failure-pending b k code = ground (arith, Map.delete_absent k b.pending)

pub settle_failure-Unchanged :
    (b : Broker) (k : Text) (code : HostToolFailureCode) → Unchanged b (settle_failure b k code)
unfolding settle_failure settle settle_found
settle_failure-Unchanged b k code = ground arith

cancel_one-Unchanged :
    (b : Broker) (id : Text) (code : HostToolFailureCode) (k : Text) (p : PendingToolCall)
    → Unchanged b (cancel_one b id code k p)
unfolding cancel_one
cancel_one-Unchanged b id code k p = elim (Bool-cases (text_eq p.conversation_id id)) [
  | inl e ↦ rw e (settle_failure-Unchanged b k code)
  | inr e ↦ rw e (record { limits = refl; scopes = refl; revision = refl; down = refl })
]

cancel_one-IsValid :
    (b : Broker) (id : Text) (code : HostToolFailureCode) (k : Text) (p : PendingToolCall)
    → IsValid b
    → IsValid (cancel_one b id code k p)
unfolding cancel_one
cancel_one-IsValid b id code k p i = elim (Bool-cases (text_eq p.conversation_id id)) [
  | inl e ↦ rw e (settle_failure-IsValid b k code i)
  | inr e ↦ rw e i
]

cancel_each-Unchanged :
    (b : Broker) (id : Text) (code : HostToolFailureCode) (m : List (Text × PendingToolCall))
    → Unchanged b (cancel_each b id code m)
unfolding cancel_each
cancel_each-Unchanged b id code [] = record {
  limits = refl;
  scopes = refl;
  revision = refl;
  down = refl;
}
cancel_each-Unchanged b id code ((k, p) ∷ m) =
    Unchanged-trans (cancel_one-Unchanged b id code k p)
      (cancel_each-Unchanged (cancel_one b id code k p) id code m)

cancel_each-IsValid :
    (b : Broker) (id : Text) (code : HostToolFailureCode) (m : List (Text × PendingToolCall))
    → IsValid b
    → IsValid (cancel_each b id code m)
unfolding cancel_each
cancel_each-IsValid b id code [] i = i
cancel_each-IsValid b id code ((k, p) ∷ m) i =
    cancel_each-IsValid (cancel_one b id code k p) id code m (cancel_one-IsValid b id code k p i)

-- The calls of other conversations.
abbrev pub others : Text → List (Text × PendingToolCall) → List (Text × PendingToolCall)
others id m = filter (λ e. not (text_eq e.1.conversation_id id)) m

cancel_one-pending_same :
    (b : Broker) (id : Text) (code : HostToolFailureCode) (k : Text) (p : PendingToolCall)
    → text_eq p.conversation_id id ≡ true
    → (cancel_one b id code k p).pending ≡ Map.delete k b.pending
unfolding cancel_one
cancel_one-pending_same b id code k p e = rw e (settle_failure-pending b k code)

cancel_one-pending_other :
    (b : Broker) (id : Text) (code : HostToolFailureCode) (k : Text) (p : PendingToolCall)
    → text_eq p.conversation_id id ≡ false
    → (cancel_one b id code k p).pending ≡ b.pending
unfolding cancel_one
cancel_one-pending_other b id code k p e = rw e refl

cancel_each-pending :
    (b : Broker) (id : Text) (code : HostToolFailureCode) (done m : List (Text × PendingToolCall))
    → b.pending ≡ done ++ m
    → IsMap (done ++ m)
    → (cancel_each b id code m).pending ≡ done ++ others id m
unfolding cancel_each
cancel_each-pending b id code done [] h u = h
cancel_each-pending b id code done ((k, p) ∷ m) h u =
    elim (Bool-cases (text_eq p.conversation_id id)) [
      | inl e ↦ rw e (
          cancel_each-pending (cancel_one b id code k p) id code done m
            (cancel_one-pending_same b id code k p e
              ∙ (ap (Map.delete k) h ∙ Map.delete-middle k p done m u))
            (Map.IsMap-drop k p done m u))
      | inr e ↦ rw e (
          cancel_each-pending (cancel_one b id code k p) id code (done ++ ((k, p) ∷ [])) m
            (cancel_one-pending_other b id code k p e
              ∙ (h ∙ sym (append_assoc done ((k, p) ∷ []) m)))
            (subst IsMap (sym (append_assoc done ((k, p) ∷ []) m)) u)
          ∙ append_assoc done ((k, p) ∷ []) (others id m))
    ]

-- `cancelPending` takes out the calls of its conversation, and no other.
pub cancel_pending-pending :
    (b : Broker) (id : Text) (code : HostToolFailureCode)
    → IsMap b.pending
    → (cancel_pending b id code).pending ≡ others id b.pending
unfolding cancel_pending
cancel_pending-pending b id code u = cancel_each-pending b id code [] b.pending refl u

pub cancel_pending-Unchanged :
    (b : Broker) (id : Text) (code : HostToolFailureCode) → Unchanged b (cancel_pending b id code)
unfolding cancel_pending
cancel_pending-Unchanged b id code = cancel_each-Unchanged b id code b.pending

pub cancel_pending-IsValid :
    (b : Broker) (id : Text) (code : HostToolFailureCode)
    → IsValid b
    → IsValid (cancel_pending b id code)
unfolding cancel_pending
cancel_pending-IsValid b id code i = cancel_each-IsValid b id code b.pending i

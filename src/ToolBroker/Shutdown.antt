-- ===== src/ToolBroker/Shutdown.antt =====
-- toolBroker.ts: `shutdown`, and what all operations keep.
use tea_desktop.Base.{
  ◌≤◌, ◌≡◌, refl, sym, ap, ◌∙◌, subst, Bool, true, false, List, [], ◌∷◌, length, Result, ok, arith,
  All, All-imp, Bool-cases, inl, inr, >>=-ok,
}
use tea_desktop.Base.Text.{Text, text_eq, text_eq_iff}
use tea_desktop.ToolBroker.Definitions.{
  BrokerError, HostToolFailureCode, HostToolResult, Platform, Limits, cancelled, execution_failed,
  timeout,
}
use tea_desktop.ToolBroker.Broker.{
  ToolScope, PendingToolCall, Broker, settled_call_history, settle_failure, cancel_pending, guard,
  configure_conversation, resolve, cancel_conversation, remove_conversation, cancel_scopes,
  shutdown, main_handled, call, Operation, configure, calls, resolves, handled, cancels, removes,
  shuts_down, times_out, aborts, rejects, step, run, create, BrokerOptions, new_broker,
  positive_integer,
}
use tea_desktop.ToolBroker.Steps.{
  All-others, configure-IsValid, cancel-IsValid, remove-IsValid, resolve-IsValid, handled-IsValid,
}
use tea_desktop.ToolBroker.Calls.{call-IsValid}
use tea_desktop.Base.Map
use tea_desktop.Base.Map.{IsMap}
use tea_desktop.ToolBroker.Invariant.{
  Unchanged-trans, IsValid, others, IsCurrent, IsUnsettled, settle_failure-IsValid,
  cancel_pending-IsValid, cancel_pending-pending, cancel_pending-Unchanged, Unchanged,
}

-- The conversations of the pending calls.
Known : List (Text × ToolScope) → Text × PendingToolCall → Type 0
Known scopes e = Map.has e.1.conversation_id scopes ≡ true

none-Known : (m : List (Text × PendingToolCall)) → All (Known []) m → m ≡ []
unfolding Known Map.get
none-Known [] h = refl
none-Known (e ∷ m) h = absurd (ground arith)

Known-rest :
    (id : Text) (s : ToolScope) (scopes : List (Text × ToolScope)) (e : Text × PendingToolCall)
    → (text_eq e.1.conversation_id id ≡ false) × Known ((id, s) ∷ scopes) e
    → Known scopes e
unfolding Known Map.get
Known-rest id s scopes e h =
    ground (arith, text_eq_iff e.1.conversation_id id, text_eq_iff id e.1.conversation_id)

cancel_scopes-pending :
    (b : Broker) (scopes : List (Text × ToolScope))
    → IsValid b
    → All (Known scopes) b.pending
    → (cancel_scopes b scopes).pending ≡ []
unfolding cancel_scopes IsValid
cancel_scopes-pending b [] i h = none-Known b.pending h
cancel_scopes-pending b ((id, s) ∷ scopes) i h =
    cancel_scopes-pending (cancel_pending b id cancelled) scopes
      (cancel_pending-IsValid b id cancelled i)
      (subst (All (Known scopes)) (sym (cancel_pending-pending b id cancelled i.is_map)) (
        All-imp
          (λ (e : Text × PendingToolCall).
            (text_eq e.1.conversation_id id ≡ false) × Known ((id, s) ∷ scopes) e)
          (Known scopes) (Known-rest id s scopes) (others id b.pending)
          (All-others (Known ((id, s) ∷ scopes)) id b.pending h)))

cancel_scopes-Unchanged :
    (b : Broker) (scopes : List (Text × ToolScope)) → Unchanged b (cancel_scopes b scopes)
unfolding cancel_scopes
cancel_scopes-Unchanged b [] = record { limits = refl; scopes = refl; revision = refl; down = refl }
cancel_scopes-Unchanged b ((id, s) ∷ scopes) =
    Unchanged-trans (cancel_pending-Unchanged b id cancelled)
      (cancel_scopes-Unchanged (cancel_pending b id cancelled) scopes)

-- The state of a broker that has been shut down.
pub record IsDown (b : Broker) : Type 0 where
  pub down : b.is_shut_down ≡ true
  pub scopes : b.scopes ≡ []
  pub pending : b.pending ≡ []
  pub owners : b.settled_owners ≡ []

IsDown-IsValid : (b : Broker) → IsDown b → IsValid b
unfolding IsValid
IsDown-IsValid b d = record {
  is_map = subst IsMap (sym d.pending) tt;
  unsettled = subst (All (IsUnsettled b.settled_owners)) (sym d.pending) tt;
  current = subst (All (IsCurrent b.scopes)) (sym d.pending) tt;
  history = subst (λ m. length m ≤ settled_call_history) (sym d.owners) (omega arith);
  bounded = subst (λ m. length m ≤ b.limits.max_pending_calls) (sym d.pending) (omega arith);
}

Known-pending :
    (scopes : List (Text × ToolScope)) (e : Text × PendingToolCall)
    → IsCurrent scopes e
    → Known scopes e
unfolding Known
Known-pending scopes e h = rw h.1 refl

-- Shutting down a valid broker that runs leaves no call pending and no conversation configured.
pub shutdown-IsDown : (b : Broker) → b.is_shut_down ≡ false → IsValid b → IsDown (shutdown b)
unfolding shutdown IsValid
shutdown-IsDown b running i = rw running (record {
  down = (cancel_scopes-Unchanged (record b { is_shut_down = true }) b.scopes).down;
  scopes = refl;
  pending =
      cancel_scopes-pending (record b { is_shut_down = true }) b.scopes i
        (All-imp (IsCurrent b.scopes) (Known b.scopes) (Known-pending b.scopes) b.pending
          i.current);
  owners = refl;
})

shutdown-IsValid : (b : Broker) → IsValid b → IsValid (shutdown b)
unfolding shutdown IsValid
shutdown-IsValid b i = elim (Bool-cases b.is_shut_down) [
  | inl e ↦ rw e i
  | inr e ↦ IsDown-IsValid (shutdown b) (shutdown-IsDown b e i)
]

step-IsValid :
    (platform : Platform) (b : Broker) (o : Operation) → IsValid b → IsValid (step platform b o)
unfolding step
step-IsValid platform b (configure id definitions) i = configure-IsValid platform b id definitions i
step-IsValid platform b (calls id revision name arguments signal generated launch) i =
    call-IsValid platform b id revision name arguments signal generated launch i
step-IsValid platform b (resolves result) i = resolve-IsValid platform b result i
step-IsValid platform b (handled id result) i = handled-IsValid platform b id result i
step-IsValid platform b (cancels id) i = cancel-IsValid b id i
step-IsValid platform b (removes id) i = remove-IsValid b id i
step-IsValid platform b shuts_down i = shutdown-IsValid b i
step-IsValid platform b (times_out id) i = settle_failure-IsValid b id timeout i
step-IsValid platform b (aborts id) i = settle_failure-IsValid b id cancelled i
step-IsValid platform b (rejects id) i = settle_failure-IsValid b id execution_failed i

run-IsValid_from :
    (platform : Platform) (b : Broker) (os : List Operation)
    → IsValid b
    → IsValid (run platform b os)
unfolding run
run-IsValid_from platform b [] i = i
run-IsValid_from platform b (o ∷ os) i =
    run-IsValid_from platform (step platform b o) os (step-IsValid platform b o i)

new_broker-IsValid : (limits : Limits) → IsValid (new_broker limits)
unfolding IsValid
new_broker-IsValid limits = record {
  is_map = tt;
  unsettled = tt;
  current = tt;
  history = omega arith;
  bounded = omega arith;
}

create-new :
    (options : BrokerOptions) (b : Broker)
    → create options ≡ ok b
    → (limits : Limits) × (new_broker limits ≡ b)
unfolding create
create-new options b h =
    let (t, _, h₁) = >>=-ok (positive_integer options.call_timeout_ms 60000) _ h in
    let (c, _, h₂) = >>=-ok (positive_integer options.max_pending_calls 4) _ h₁ in
    let (s, _, h₃) = >>=-ok (positive_integer options.max_json_bytes 262144) _ h₂ in
    let (d, _, h₄) = >>=-ok (positive_integer options.max_json_depth 16) _ h₃ in
    let (n, _, h₅) = >>=-ok (positive_integer options.max_tool_definitions 128) _ h₄ in
    (
      record {
        max_pending_calls = c;
        max_json_bytes = s;
        max_json_depth = d;
        max_tool_definitions = n;
        call_timeout_ms = t;
      },
      ground arith,
    )

-- Whatever operations a new broker goes through, no two pending calls share an id, a pending call is
-- not among the settled ones, its conversation's scope is still the one it was made in, at most
-- `max_pending_calls` are pending, and at most 256 settled calls are remembered.
pub run-IsValid :
    (platform : Platform) (options : BrokerOptions) (b : Broker) (os : List Operation)
    → create options ≡ ok b
    → IsValid (run platform b os)
run-IsValid platform options b os h =
    let (limits, e) = create-new options b h in
    run-IsValid_from platform b os (subst IsValid e (new_broker-IsValid limits))

guarded :
    {A : Type 0} (b : Broker) (test : Bool) (e : BrokerError)
    → (next : Broker × Result BrokerError A) → test ≡ true
    → (guard b test e next).0 ≡ b
unfolding guard
guarded b test e next h = rw h refl

failure_absent :
    (b : Broker) (id : Text) (code : HostToolFailureCode) → IsDown b → settle_failure b id code ≡ b
unfolding settle_failure Map.get
failure_absent b id code d = rw d.pending refl

handled_down :
    (platform : Platform) (b : Broker) (id : Text) (result : HostToolResult)
    → IsDown b
    → main_handled platform b id result ≡ b
unfolding main_handled Map.get
handled_down platform b id result d = rw d.pending refl

shutdown_again : (b : Broker) → b.is_shut_down ≡ true → shutdown b ≡ b
unfolding shutdown
shutdown_again b h = rw h refl

-- A broker that has been shut down stays the same, whatever is asked of it.
step-IsDown : (platform : Platform) (b : Broker) (o : Operation) → IsDown b → step platform b o ≡ b
unfolding step guard configure_conversation call resolve cancel_conversation remove_conversation
step-IsDown platform b (configure id definitions) d = guarded b _ _ _ d.down
step-IsDown platform b (calls id revision name arguments signal generated launch) d =
    guarded b _ _ _ d.down
step-IsDown platform b (resolves result) d = guarded b _ _ _ d.down
step-IsDown platform b (handled id result) d = handled_down platform b id result d
step-IsDown platform b (cancels id) d = guarded b _ _ _ d.down
step-IsDown platform b (removes id) d = guarded b _ _ _ d.down
step-IsDown platform b shuts_down d = shutdown_again b d.down
step-IsDown platform b (times_out id) d = failure_absent b id timeout d
step-IsDown platform b (aborts id) d = failure_absent b id cancelled d
step-IsDown platform b (rejects id) d = failure_absent b id execution_failed d

run-IsDown :
    (platform : Platform) (b : Broker) (os : List Operation) → IsDown b → run platform b os ≡ b
unfolding run
run-IsDown platform b [] d = refl
run-IsDown platform b (o ∷ os) d =
    ap (λ c. run platform c os) (step-IsDown platform b o d) ∙ run-IsDown platform b os d

-- After `shutdown` of a valid broker no call is pending, and no operation has any effect.
pub run-shutdown :
    (platform : Platform) (b : Broker) (os : List Operation)
    → b.is_shut_down ≡ false
    → IsValid b
    → ((shutdown b).pending ≡ []) × (run platform (shutdown b) os ≡ shutdown b)
run-shutdown platform b os running i =
    let d = shutdown-IsDown b running i in (d.pending, run-IsDown platform (shutdown b) os d)

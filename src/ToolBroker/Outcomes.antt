-- ===== src/ToolBroker/Outcomes.antt =====
-- toolBroker.ts: what `configureConversation` and `resolve` come to.
use tea_desktop.Base.{
  ℕ, ◌+◌, ◌<◌, ◌≡◌, refl, sym, ap, ◌∙◌, subst, Bool, true, false, List, [], Option, none, some,
  if◌then◌else◌, Result, ok, err, arith, Bool-cases, Option-cases, Result-cases, inl, inr,
}
use tea_desktop.Base.Text.{Text, text_eq, text_eq_iff, is_empty, trim}
use tea_desktop.Base.Map
use tea_desktop.Conversation.Values.{Json}
use tea_desktop.ToolBroker.Definitions.{
  BrokerError, HostToolResult, HostToolDefinition, Platform, unavailable, compile_definitions,
  validate_result, already_resolved, another_conversation,
}
use tea_desktop.ToolBroker.Broker.{
  immediate, ToolScope, PendingToolCall, Broker, failed, remember_settled, settle_found, settle,
  cancel_pending, guard, configure_conversation, resolve_pending, resolve, call, call_tool,
  immediate_failure, Launch, is_identifier, tool_in, open_scope,
}
use tea_desktop.ToolBroker.Invariant.{
  IsValid, IsUnsettled, others, cancel_pending-pending, cancel_pending-Unchanged, get-evict-set_new,
}

-- A method that went through got past its guard.
guard-ok :
    {A : Type 0} (b : Broker) (test : Bool) (e : BrokerError)
    → (next : Broker × Result BrokerError A) (c : Broker) (v : A) → guard b test e next ≡ (c, ok v)
    → (test ≡ false) × (next ≡ (c, ok v))
unfolding guard
guard-ok b true e next c v h = absurd (ground arith)
guard-ok b false e next c v h = (refl, h)

-- What a successful `configureConversation` made of the broker.
pub record IsConfigured (b c : Broker) (id : Text) : Type 0 where
  -- the conversation's pending calls are gone, the others stay
  pub pending : c.pending ≡ others id b.pending
  pub revision : c.next_revision ≡ b.next_revision + 1
  pub running : c.is_shut_down ≡ false
  -- the conversation has a scope of the new revision
  pub scope : (s : ToolScope) × (Map.get id c.scopes ≡ some s) × (s.revision ≡ b.next_revision)
  pub other_scopes : (j : Text) → text_eq id j ≡ false → Map.get j c.scopes ≡ Map.get j b.scopes

configured_lem :
    (b : Broker) (id : Text) (compiled : List (Text × HostToolDefinition))
    → b.is_shut_down ≡ false
    → IsValid b
    → IsConfigured b
        (record (cancel_pending b id unavailable) {
          scopes =
              Map.set id
                (record {
                  revision = (cancel_pending b id unavailable).next_revision;
                  definitions = compiled;
                })
                (cancel_pending b id unavailable).scopes;
          next_revision = (cancel_pending b id unavailable).next_revision + 1;
        })
        id
unfolding IsValid
configured_lem b id compiled running i =
    let u = cancel_pending-Unchanged b id unavailable in
    record {
      pending = cancel_pending-pending b id unavailable i.is_map;
      revision = ap (λ n. n + 1) u.revision;
      running = u.down ∙ running;
      scope = (_, Map.get-set_self id _ _, u.revision);
      other_scopes = λ j other.
          rw
            (Map.get-set id j
              (record {
                revision = (cancel_pending b id unavailable).next_revision;
                definitions = compiled;
              })
              (cancel_pending b id unavailable).scopes)
            (rw other (ap (Map.get j) u.scopes));
    }

-- A `configureConversation` that does not throw ends the conversation's pending calls and no others,
-- gives the conversation a scope of a new revision, and leaves the other scopes alone.
pub configure-IsConfigured :
    (platform : Platform) (b c : Broker) (id : Text) (definitions : List HostToolDefinition)
    → IsValid b
    → configure_conversation platform b id definitions ≡ (c, ok tt)
    → IsConfigured b c id
unfolding configure_conversation
configure-IsConfigured platform b c id definitions i h =
    let h₁ = guard-ok b _ _ _ c tt h in
    let h₂ = guard-ok b _ _ _ c tt h₁.1 in
    let h₃ = guard-ok b _ _ _ c tt h₂.1 in
    elim (Result-cases (compile_definitions platform b.limits [] definitions)) [
      | inr (e, g) ↦ absurd (ground arith)
      | inl (compiled, g) ↦
          subst (λ x. IsConfigured b x id) (ap (λ x. x.0) (rw g at h₃.1))
            (configured_lem b id compiled h₁.0 i)
    ]

pub call-open :
    (platform : Platform) (b : Broker) (id : Text) (revision : ℕ) (name : Text) (arguments : Json)
    → (signal : Option Bool) (generated : Text) (launch : Launch) → b.is_shut_down ≡ false
    → is_empty (trim generated) ≡ false
    → Map.get (trim generated) b.pending ≡ none
    → Map.get (trim generated) b.settled_owners ≡ none
    → call platform b id revision name arguments signal generated launch
      ≡ call_tool platform b id revision name arguments signal
          (trim generated)
          launch
          (tool_in (Map.get id b.scopes) revision name)
unfolding call guard
call-open platform b id revision name arguments signal generated launch running named new old =
    rw (running, named, new, old) refl

other_revision :
    (s : ToolScope) (revision : ℕ) (name : Text) (n : ℕ)
    → s.revision ≡ n
    → revision < n
    → tool_in (some s) revision name ≡ none
other_revision s revision name n e older = ground arith

-- Once a conversation was configured again, a call from a scope that was opened before, whose
-- revision is an earlier one, is told at once that the tool is unavailable; no tool is reached.
pub replaced_scope_unavailable :
    (platform : Platform) (b c : Broker) (id : Text) (definitions : List HostToolDefinition)
    → (revision : ℕ) (name : Text) (arguments : Json) (signal : Option Bool) (generated : Text)
    → (launch : Launch) → IsValid b
    → configure_conversation platform b id definitions ≡ (c, ok tt)
    → revision < b.next_revision
    → is_empty (trim generated) ≡ false
    → Map.get (trim generated) c.pending ≡ none
    → Map.get (trim generated) c.settled_owners ≡ none
    → call platform c id revision name arguments signal generated launch ≡ (
      remember_settled c (trim generated) id,
      ok (immediate (failed id (trim generated) unavailable)),
    )
unfolding call_tool immediate_failure
replaced_scope_unavailable platform b c id definitions revision name arguments signal generated
      launch i h older named new old =
    let k = configure-IsConfigured platform b c id definitions i h in
    call-open platform c id revision name arguments signal generated launch k.running named new old
    ∙ (rw (k.scope.1)
        (rw (other_revision k.scope.0 revision name b.next_revision k.scope.2 older) refl))

-- What an accepted result found and left.
record IsResolved (platform : Platform) (b c : Broker) (result : HostToolResult) : Type 0 where
  running : b.is_shut_down ≡ false
  named : is_identifier result.call_id ≡ true
  call :
      (p : PendingToolCall) × (Map.get result.call_id b.pending ≡ some p)
      × (p.conversation_id ≡ result.conversation_id)
      × (settle_found b result.call_id (validate_result platform b.limits result p.tool) p ≡ c)

settle-found :
    (b : Broker) (id : Text) (v : HostToolResult) (p : PendingToolCall)
    → Map.get id b.pending ≡ some p
    → settle b id v ≡ settle_found b id v p
unfolding settle
settle-found b id v p e = rw (e, settle) refl

resolve-IsResolved :
    (platform : Platform) (b c : Broker) (result : HostToolResult)
    → resolve platform b result ≡ (c, ok tt)
    → IsResolved platform b c result
unfolding resolve resolve_pending
resolve-IsResolved platform b c result h =
    let h₁ = guard-ok b _ _ _ c tt h in
    let h₂ = guard-ok b _ _ _ c tt h₁.1 in
    let h₃ = guard-ok b _ _ _ c tt h₂.1 in
    elim (Option-cases (Map.get result.call_id b.pending)) [
      | inl e ↦ absurd (ground arith)
      | inr (p, e) ↦ elim (Bool-cases (text_eq p.conversation_id result.conversation_id)) [
        | inr f ↦ absurd (ground arith)
        | inl f ↦ record {
          running = h₁.0;
          named = ground arith;
          call = (
            p,
            e,
            (text_eq_iff p.conversation_id result.conversation_id).0 f,
            sym (settle-found b result.call_id _ p e) ∙ ap (λ x. x.0) (rw (e, f) at h₃.1),
          );
        }
      ]
    ]

-- The call of the first result is not pending, and the second result is refused.
abbrev pub Refuses : Platform → HostToolResult → HostToolResult → Broker → Type 0
Refuses platform result again c =
    (Map.get result.call_id c.pending ≡ none)
    × (resolve platform c again ≡ (
      c,
      err (
          if text_eq result.conversation_id again.conversation_id
          then already_resolved
          else another_conversation),
    ))

settled-Refuses :
    (platform : Platform) (b : Broker) (result again : HostToolResult) (p : PendingToolCall)
    → (v : HostToolResult) → IsValid b
    → Map.get result.call_id b.pending ≡ some p
    → p.conversation_id ≡ result.conversation_id
    → b.is_shut_down ≡ false
    → is_identifier result.call_id ≡ true
    → again.call_id ≡ result.call_id
    → is_identifier again.conversation_id ≡ true
    → Refuses platform result again (settle_found b result.call_id v p)
unfolding resolve resolve_pending settle_found remember_settled guard IsValid
settled-Refuses platform b result again p v i found owner running named same id =
    let gone = Map.get-delete_self result.call_id b.pending in
    let kept =
      get-evict-set_new result.call_id p.conversation_id b.settled_owners
        (Map.All-get (IsUnsettled b.settled_owners) result.call_id p b.pending found i.unsettled) in
    (gone, rw (running, id, same) (rw named (rw gone (rw (kept, owner) refl))))

-- After a result was accepted the call is not pending, and a further result for it is refused: as
-- already resolved if it is of the same conversation, else as another conversation's.
pub resolve-resolve :
    (platform : Platform) (b c : Broker) (result again : HostToolResult)
    → IsValid b
    → resolve platform b result ≡ (c, ok tt)
    → again.call_id ≡ result.call_id
    → is_identifier again.conversation_id ≡ true
    → Refuses platform result again c
resolve-resolve platform b c result again i h same named =
    let r = resolve-IsResolved platform b c result h in
    subst (Refuses platform result again) r.call.3 (
      settled-Refuses platform b result again r.call.0 _ i r.call.1 r.call.2 r.running r.named same
        named)

-- The scope that `openScope` gives after a successful `configureConversation` has the new revision.
pub opened-revision :
    (platform : Platform) (b c : Broker) (id : Text) (definitions tools : List HostToolDefinition)
    → (revision : ℕ) → IsValid b
    → configure_conversation platform b id definitions ≡ (c, ok tt)
    → open_scope c id ≡ ok (revision, tools)
    → revision ≡ b.next_revision
unfolding open_scope
opened-revision platform b c id definitions tools revision i h o =
    let k = configure-IsConfigured platform b c id definitions i h in
    let (s, found, new) = k.scope in ground arith

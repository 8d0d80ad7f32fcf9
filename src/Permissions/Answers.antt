-- ===== src/Permissions/Answers.antt =====
-- A request that is accepted can be answered by every decision it shows.
use tea_desktop.Base.{
  Bool, false, ◌≡◌, refl, subst, ◌⊎◌, inl, inr, List, none, some, ok, arith, Result-cases,
}
use tea_desktop.Base.Map
use tea_desktop.Base.Text.{Text, is_empty, text_eq_refl}
use tea_desktop.Base.TextSet
use tea_desktop.Conversation.{ApprovalDecision, cancel, ConversationEventKind, approval_requested}
use tea_desktop.Permissions.Presentation.{
  PermissionOption, AcpPermissionRequest, AcpPermissionResponse, cancelled, selected,
  PermissionPresentation, option_for, permission_presentation, project_permission_request,
}
use tea_desktop.Permissions.Coordinator.{
  Coordinator, PendingPermission, permission_request_key, register, request, selected_permission,
  response_to, resolve_entry, resolve,
}
use tea_desktop.Permissions.Offers.{
  Offers, In, options_of, permission_presentation-IsPresentation, shown_decision,
}

-- The entry that an accepted request leaves under its approval id.
abbrev pub entry_for : Text → AcpPermissionRequest → PermissionPresentation → PendingPermission
entry_for conversation_id input p = record {
  conversation_id = conversation_id;
  request_key = permission_request_key input;
  option_ids = p.option_ids;
}

abbrev pub registered :
    Coordinator → Text → AcpPermissionRequest → Text → PermissionPresentation → Coordinator
registered c conversation_id input approval_id p = record c {
  request_ids = TextSet.add (permission_request_key input) c.request_ids;
  pending = Map.set approval_id (entry_for conversation_id input p) c.pending;
}

module _ (is_absolute : Text → Bool) (c : Coordinator) (conversation_id : Text)
    (input : AcpPermissionRequest) (approval_id : Text) where
  -- What is known of a request that was accepted.
  abbrev pub Accepted : Coordinator → ConversationEventKind → PermissionPresentation → Type 0
  Accepted c' event p =
      (permission_presentation is_absolute input ≡ ok p)
      × (TextSet.contains (permission_request_key input) c.request_ids ≡ false)
      × (Map.get approval_id c.pending ≡ none)
      × (c' ≡ registered c conversation_id input approval_id p)
      × (event
          ≡ approval_requested approval_id p.tool_call_id p.capabilities p.resources p.decisions)

  pub request-Accepted :
      (c' : Coordinator) (event : ConversationEventKind)
      → request is_absolute c conversation_id input approval_id ≡ (c', ok event)
      → (p : PermissionPresentation) × Accepted c' event p
  unfolding request register project_permission_request
  request-Accepted c' event h = elim (Result-cases (permission_presentation is_absolute input)) [
    | inl (p, e) ↦ (p, (e, ground arith, ground arith, ground arith, ground arith))
    | inr (x, e) ↦ ground arith
  ]

-- A response answers a decision by the agent's own option, and `cancel` by none.
pub data Answers (os : List PermissionOption) (d : ApprovalDecision)
    : AcpPermissionResponse → Type 0 where
  by_cancel : d ≡ cancel → Answers os d cancelled
  by_option : (id : Text) → Offers os d id → Answers os d (selected id)

-- The promise of an entry resolves by every decision that was shown.
resolve_entry_shown :
    (c : Coordinator) (conversation_id approval_id : Text) (input : AcpPermissionRequest)
    (p : PermissionPresentation) (os : List PermissionOption) (d : ApprovalDecision)
    → (d ≡ cancel)
      ⊎ ((id : Text) × (option_for d p.option_ids ≡ some id)
          × Offers os d id
          × (is_empty id ≡ false))
    → (response : AcpPermissionResponse) × ((resolve_entry c conversation_id approval_id d
          (entry_for conversation_id input p)).1
        ≡ ok response)
      × Answers os d response
unfolding resolve_entry response_to selected_permission
resolve_entry_shown c conv id input p os cancel shown =
    (cancelled, rw (text_eq_refl conv), by_cancel refl)
resolve_entry_shown c conv id input p os d (inl e) = cc
resolve_entry_shown c conv id input p os d (inr (o, found, offer, full)) =
    (selected o, rw (text_eq_refl conv, found, full), by_option o offer)

-- After an accepted request, each decision that its event shows resolves the approval, for the
-- same conversation: `cancel` by the outcome `cancelled`, any other by an option that the agent
-- gave for that decision.
pub shown_decisions_resolve :
    (is_absolute : Text → Bool) (c : Coordinator) (conversation_id : Text)
    (input : AcpPermissionRequest) (approval_id tool_call_id : Text)
    (capabilities resources : List Text) (decisions : List ApprovalDecision) (c' : Coordinator)
    (d : ApprovalDecision)
    → request is_absolute c conversation_id input approval_id
      ≡ (c', ok (approval_requested approval_id tool_call_id capabilities resources decisions))
    → In d decisions
    → (response : AcpPermissionResponse) × ((resolve c' conversation_id approval_id d).1
        ≡ ok response)
      × Answers (options_of input) d response
unfolding resolve
shown_decisions_resolve abs c conv input id tool caps res decisions c' d h shown =
    let (p, (e, _, _, new, event)) = request-Accepted abs c conv input id c' _ h in
    let all : decisions ≡ p.decisions = cc in
    rw (new, resolve, Map.get-set_self id (entry_for conv input p) c.pending)
      (resolve_entry_shown _ conv id input p (options_of input) d (
        shown_decision (options_of input) p d (permission_presentation-IsPresentation abs input p e)
          (subst (In d) all shown)))

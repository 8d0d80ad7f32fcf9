-- ===== src/Timeline/ApprovalLaws.antt =====
-- The life of an approval in a turn: found, resolving, failed or completed.
use tea_desktop.Base.{
  ap, ◌⊎◌, Bool-cases, ◌≡◌, ◌≢◌, refl, Option-cases, inl, inr, List, [], ◌∷◌, Option, none, some,
  arith, map,
}
use tea_desktop.Base.Text.{text_eq, Text, text_eq_iff}
use tea_desktop.Conversation.{
  ApprovalDecision, cancel, ApprovalRequestStatus, ApprovalRequest, ConversationTurn,
  ConversationTurnBlock, assistant_text, agent_thought, tool_call, failure_tip, TerminalStatus,
}
use tea_desktop.Timeline.Blocks.{close_turn_blocks, close_streaming_text}
use tea_desktop.Timeline.Approvals.{
  find_in, find_approval, update_block, set_approval_resolving, set_approval_failed, complete_block,
  complete_approval,
}

module _ (update : ApprovalRequest → ApprovalRequest)
    (keeps : (a : ApprovalRequest) → (update a).id ≡ a.id) where
  find_in-update :
      (bs : List ConversationTurnBlock) (id : Text) (a : ApprovalRequest)
      → find_in bs id ≡ some a
      → find_in (map (update_block id update) bs) id ≡ some (update a)
  unfolding find_in
  find_in-update [] id a h = cc
  find_in-update (tool_call b ∷ bs) id a h = elim (Option-cases b.approval) [
    | inl e ↦ ground (arith, find_in-update bs id a)
    | inr (x, e) ↦ ground (arith, find_in-update bs id a, keeps x)
  ]
  find_in-update (assistant_text b ∷ bs) id a h = find_in-update bs id a h
  find_in-update (agent_thought b ∷ bs) id a h = find_in-update bs id a h
  find_in-update (failure_tip b ∷ bs) id a h = find_in-update bs id a h

  find_in-update_ne :
      (bs : List ConversationTurnBlock) (id j : Text)
      → id ≢ j
      → find_in (map (update_block id update) bs) j ≡ find_in bs j
  unfolding find_in
  find_in-update_ne [] id j h = refl
  find_in-update_ne (tool_call b ∷ bs) id j h = elim (Option-cases b.approval) [
    | inl e ↦ ground (arith, find_in-update_ne bs id j h)
    | inr (x, e) ↦
        ground
          (arith, find_in-update_ne bs id j h, keeps x, text_eq_iff x.id id, text_eq_iff x.id j)
  ]
  find_in-update_ne (assistant_text b ∷ bs) id j h = find_in-update_ne bs id j h
  find_in-update_ne (agent_thought b ∷ bs) id j h = find_in-update_ne bs id j h
  find_in-update_ne (failure_tip b ∷ bs) id j h = find_in-update_ne bs id j h

find_in_complete :
    (bs : List ConversationTurnBlock) (id : Text) (d : ApprovalDecision)
    → find_in (map (complete_block id d) bs) id ≡ none
unfolding find_in
find_in_complete [] id d = refl
find_in_complete (tool_call b ∷ bs) id d = elim (Option-cases b.approval) [
  | inl e ↦ ground (arith, find_in_complete bs id d)
  | inr (x, e) ↦ ground (arith, find_in_complete bs id d)
]
find_in_complete (assistant_text b ∷ bs) id d = find_in_complete bs id d
find_in_complete (agent_thought b ∷ bs) id d = find_in_complete bs id d
find_in_complete (failure_tip b ∷ bs) id d = find_in_complete bs id d

find_in_complete_ne :
    (bs : List ConversationTurnBlock) (id j : Text) (d : ApprovalDecision)
    → id ≢ j
    → find_in (map (complete_block id d) bs) j ≡ find_in bs j
unfolding find_in
find_in_complete_ne [] id j d h = refl
find_in_complete_ne (tool_call b ∷ bs) id j d h = elim (Option-cases b.approval) [
  | inl e ↦ ground (arith, find_in_complete_ne bs id j d h)
  | inr (x, e) ↦
      ground (arith, find_in_complete_ne bs id j d h, text_eq_iff x.id id, text_eq_iff x.id j)
]
find_in_complete_ne (assistant_text b ∷ bs) id j d h = find_in_complete_ne bs id j d h
find_in_complete_ne (agent_thought b ∷ bs) id j d h = find_in_complete_ne bs id j d h
find_in_complete_ne (failure_tip b ∷ bs) id j d h = find_in_complete_ne bs id j d h

find_in-close :
    (bs : List ConversationTurnBlock) (s : TerminalStatus) (j : Text)
    → find_in (close_turn_blocks bs s) j ≡ none
unfolding find_in close_turn_blocks close_streaming_text
find_in-close [] s j = refl
find_in-close (tool_call b ∷ bs) s j = ground (arith, find_in-close bs s j)
find_in-close (assistant_text b ∷ bs) s j = ground (arith, find_in-close bs s j)
find_in-close (agent_thought b ∷ bs) s j = ground (arith, find_in-close bs s j)
find_in-close (failure_tip b ∷ bs) s j = find_in-close bs s j

-- The block of a tool call that waits for the approval.
abbrev pub HasApproval : Text → ConversationTurnBlock → Type 0
HasApproval id (tool_call b) = (a : ApprovalRequest) × (b.approval ≡ some a) × (a.id ≡ id)
HasApproval id _ = ⊥

abbrev pub without_approval : ConversationTurnBlock → ConversationTurnBlock
without_approval (tool_call b) = tool_call (record b { approval = none })
without_approval b = b

-- The same blocks, but for the approval itself in those that wait for it.
abbrev pub AgreeBut : Text → List ConversationTurnBlock → List ConversationTurnBlock → Type 0
AgreeBut id [] [] = Unit
AgreeBut id (b ∷ bs) (c ∷ cs) =
    ((b ≡ c) ⊎ (HasApproval id b × (without_approval b ≡ without_approval c))) × AgreeBut id bs cs
AgreeBut id _ _ = ⊥

-- The same turn, but for the approval.
abbrev pub SameBut : Text → ConversationTurn → ConversationTurn → Type 0
SameBut id t u = AgreeBut id t.blocks u.blocks × (record u { blocks = t.blocks } ≡ t)

update-AgreeBut :
    (update : ApprovalRequest → ApprovalRequest) (id : Text) (bs : List ConversationTurnBlock)
    → AgreeBut id bs (map (update_block id update) bs)
update-AgreeBut update id [] = tt
update-AgreeBut update id (tool_call b ∷ bs) = elim (Option-cases b.approval) [
  | inl e ↦
      let same : tool_call b ≡ update_block id update (tool_call b) = simp e in
      (inl same, update-AgreeBut update id bs)
  | inr (x, e) ↦ elim (Bool-cases (text_eq x.id id)) [
    | inl f ↦
        let next : tool_call (record b { approval = some (update x) })
            ≡ update_block id update (tool_call b) =
          simp (e, f) in
        (
          inr ((x, e, (text_eq_iff x.id id).0 f), ap without_approval next),
          update-AgreeBut update id bs,
        )
    | inr f ↦
        let same : tool_call b ≡ update_block id update (tool_call b) = simp (e, f) in
        (inl same, update-AgreeBut update id bs)
  ]
]
update-AgreeBut update id (assistant_text b ∷ bs) = (inl refl, update-AgreeBut update id bs)
update-AgreeBut update id (agent_thought b ∷ bs) = (inl refl, update-AgreeBut update id bs)
update-AgreeBut update id (failure_tip b ∷ bs) = (inl refl, update-AgreeBut update id bs)

-- An approval that a turn holds is marked as resolving with the decision, its earlier error
-- cleared, and as failed with the error; approvals of other ids stay as they were. Nothing else of
-- the turn changes: its other fields, the order of its blocks, the blocks that do not wait for that
-- approval, and of those that do all but the approval.
pub approval_updates :
    (t : ConversationTurn) (id j error : Text) (d : ApprovalDecision) (a : ApprovalRequest)
    → find_approval t id ≡ some a
    → id ≢ j
    → (find_approval (set_approval_resolving t id d) id
        ≡ some (record a {
          status = ApprovalRequestStatus.resolving;
          decision = some d;
          error = none;
        }))
      × (find_approval (set_approval_failed t id error) id
          ≡ some (record a { status = ApprovalRequestStatus.failed; error = some error }))
      × (find_approval (set_approval_resolving t id d) j ≡ find_approval t j)
      × (find_approval (set_approval_failed t id error) j ≡ find_approval t j)
      × SameBut id t (set_approval_resolving t id d)
      × SameBut id t (set_approval_failed t id error)
unfolding find_approval set_approval_resolving set_approval_failed
approval_updates t id j error d a h n = (
  find_in-update _ (λ x. refl) t.blocks id a h,
  find_in-update _ (λ x. refl) t.blocks id a h,
  find_in-update_ne _ (λ x. refl) t.blocks id j n,
  find_in-update_ne _ (λ x. refl) t.blocks id j n,
  (update-AgreeBut _ id t.blocks, refl),
  (update-AgreeBut _ id t.blocks, refl),
)

-- What `decision` leaves of the other approvals.
abbrev pub left_by : ApprovalDecision → Option ApprovalRequest → Option ApprovalRequest
left_by cancel other = none
left_by _ other = other

-- A completed approval is gone whatever the decision was. Other approvals stay, but for `cancel`,
-- which leaves none.
pub complete_approval_removes :
    (t : ConversationTurn) (id j : Text) (d : ApprovalDecision)
    → id ≢ j
    → (find_approval (complete_approval t id d) id ≡ none)
      × (find_approval (complete_approval t id d) j ≡ left_by d (find_approval t j))
unfolding find_approval complete_approval
complete_approval_removes t id j cancel n =
    (find_in-close _ TerminalStatus.cancelled id, find_in-close _ TerminalStatus.cancelled j)
complete_approval_removes t id j d n =
    (find_in_complete t.blocks id d, find_in_complete_ne t.blocks id j d n)

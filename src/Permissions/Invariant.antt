-- ===== src/Permissions/Invariant.antt =====
-- The two collections of the coordinator stay in step: `requestIds` holds the request keys of the
-- pending permissions, in their order and each once.
use tea_desktop.Base.{
  Bool, true, false, ◌≡◌, refl, sym, ap, ◌∙◌, subst, ◌⊎◌, inl, inr, List, [], ◌∷◌, ◌++◌, none, some,
  Result, ok, err, arith, Bool-cases, Option-cases, Result-cases, map,
}
use tea_desktop.Base.Map
use tea_desktop.Base.Map.{IsMap}
use tea_desktop.Base.Text.{Text, is_empty, trim, text_eq, text_eq_refl, text_eq_iff}
use tea_desktop.Base.TextSet
use tea_desktop.Base.TextSet.{Unique}
use tea_desktop.Conversation.{ApprovalDecision, ConversationEventKind, approval_requested}
use tea_desktop.Permissions.Presentation.{
  approval_id_taken, already_pending, PermissionError, unknown_approval, AcpPermissionRequest,
  AcpPermissionResponse, cancelled, PermissionPresentation, permission_presentation,
  project_permission_request,
}
use tea_desktop.Permissions.Coordinator.{
  Coordinator, PendingPermission, permission_request_key, register, request, response_to,
  resolve_entry, resolve, cancel_from, cancel_all,
}
use tea_desktop.Permissions.Answers.{entry_for, registered}

abbrev pub keys : List (Text × PendingPermission) → List Text
keys = map (λ e. e.1.request_key)

pub record IsConsistent (c : Coordinator) : Type 0 where
  pub same : c.request_ids ≡ keys c.pending
  pub unique : Unique (keys c.pending)
  pub is_map : IsMap c.pending

keys-set_new :
    (id : Text) (v : PendingPermission) (m : List (Text × PendingPermission))
    → Map.get id m ≡ none
    → keys (Map.set id v m) ≡ keys m ++ (v.request_key ∷ [])
unfolding Map.get Map.set
keys-set_new id v [] h = refl
keys-set_new id v ((j, w) ∷ m) h = ground (arith, keys-set_new id v m)

contains-keys :
    (id : Text) (v : PendingPermission) (m : List (Text × PendingPermission))
    → Map.get id m ≡ some v
    → TextSet.contains v.request_key (keys m) ≡ true
unfolding Map.get TextSet.contains
contains-keys id v [] h = cc
contains-keys id v ((j, w) ∷ m) h = ground (arith, contains-keys id v m, text_eq_refl v.request_key)

keys-delete :
    (id : Text) (v : PendingPermission) (m : List (Text × PendingPermission))
    → IsMap m
    → Unique (keys m)
    → Map.get id m ≡ some v
    → keys (Map.delete id m) ≡ TextSet.remove v.request_key (keys m)
unfolding Map.get Map.delete TextSet.remove
keys-delete id v [] i u h = cc
keys-delete id v ((j, w) ∷ m) i u h = ground (
  arith,
  keys-delete id v m i.1 u.1,
  Map.delete_absent id m,
  text_eq_iff j id,
  contains-keys id v m,
  text_eq_iff w.request_key v.request_key,
  TextSet.remove_absent v.request_key (keys m),
  text_eq_refl v.request_key,
)

registered-IsConsistent :
    (c : Coordinator) (conversation_id : Text) (input : AcpPermissionRequest) (approval_id : Text)
    (p : PermissionPresentation)
    → IsConsistent c
    → TextSet.contains (permission_request_key input) c.request_ids ≡ false
    → Map.get approval_id c.pending ≡ none
    → IsConsistent (registered c conversation_id input approval_id p)
registered-IsConsistent c conv input id p v fresh new =
    let entry = entry_for conv input p in
    let key = permission_request_key input in
    let unused : TextSet.contains key (keys c.pending) ≡ false = rw v.same at fresh in
    record {
      same =
          rw (TextSet.add_new key c.request_ids fresh, keys-set_new id entry c.pending new)
            (ap (λ (l : List Text). l ++ (key ∷ [])) v.same);
      unique =
          subst Unique (sym (keys-set_new id entry c.pending new))
            (TextSet.Unique-snoc (keys c.pending) key v.unique unused);
      is_map = Map.set-IsMap id entry c.pending v.is_map;
    }

removed-IsConsistent :
    (c : Coordinator) (id : Text) (entry : PendingPermission)
    → IsConsistent c
    → Map.get id c.pending ≡ some entry
    → IsConsistent (record c {
      pending = Map.delete id c.pending;
      request_ids = TextSet.remove entry.request_key c.request_ids;
    })
removed-IsConsistent c id entry v h =
    let e = keys-delete id entry c.pending v.is_map v.unique h in
    record {
      same = ap (TextSet.remove entry.request_key) v.same ∙ sym e;
      unique = subst Unique (sym e) (TextSet.Unique-remove entry.request_key _ v.unique);
      is_map = Map.delete-IsMap id c.pending v.is_map;
    }

-- A method's outcome for a request: refused, with the coordinator as it was, or registered under a
-- fresh key and a fresh id.
abbrev pub Outcome :
    Coordinator
    → Text
    → AcpPermissionRequest
    → Text
    → Coordinator × Result PermissionError ConversationEventKind
    → Type 0
Outcome c conv input id r =
    ((r.0 ≡ c) × (x : PermissionError) × (r.1 ≡ err x))
    ⊎ ((p : PermissionPresentation) × (TextSet.contains (permission_request_key input) c.request_ids
          ≡ false)
        × (Map.get id c.pending ≡ none)
        × (r.0 ≡ registered c conv input id p)
        × (r.1 ≡ ok (approval_requested id p.tool_call_id p.capabilities p.resources p.decisions)))

register_cases :
    (is_absolute : Text → Bool) (c : Coordinator) (conv : Text) (input : AcpPermissionRequest)
    (id : Text) (p : PermissionPresentation)
    → permission_presentation is_absolute input ≡ ok p
    → Outcome c conv input id (register is_absolute c conv input id p)
unfolding register project_permission_request
register_cases abs c conv input id p e =
    elim (Bool-cases (TextSet.contains (permission_request_key input) c.request_ids)) [
      | inl busy ↦ rw (busy, register) (inl (refl, already_pending, refl))
      | inr free ↦ elim (Bool-cases (is_empty (trim id))) [
        | inl blank ↦ rw (free, blank, register) (inl (refl, approval_id_taken, refl))
        | inr full ↦ elim (Option-cases (Map.get id c.pending)) [
          | inr (v, old) ↦ rw (free, full, old, register) (inl (refl, approval_id_taken, refl))
          | inl new ↦ inr (p, free, new, ground arith, ground arith)
        ]
      ]
    ]

request_cases :
    (is_absolute : Text → Bool) (c : Coordinator) (conv : Text) (input : AcpPermissionRequest)
    (id : Text)
    → Outcome c conv input id (request is_absolute c conv input id)
unfolding request
request_cases abs c conv input id = elim (Result-cases (permission_presentation abs input)) [
  | inr (x, e) ↦ rw (e, request) (inl (refl, x, refl))
  | inl (p, e) ↦ rw (e, request) (register_cases abs c conv input id p e)
]

resolve_entry_cases :
    (c : Coordinator) (conv id : Text) (d : ApprovalDecision) (entry : PendingPermission)
    → Map.get id c.pending ≡ some entry
    → IsConsistent c
    → IsConsistent (resolve_entry c conv id d entry).0
unfolding resolve_entry
resolve_entry_cases c conv id d entry h v = elim (Bool-cases (text_eq entry.conversation_id conv)) [
  | inr other ↦ rw other v
  | inl own ↦ elim (Result-cases (response_to entry.option_ids d)) [
    | inr (x, e) ↦ rw (own, e) v
    | inl (r, e) ↦ rw (own, e) (removed-IsConsistent c id entry v h)
  ]
]

-- `cancelAll` over the entries of a consistent coordinator empties it.
cancel_from_all :
    (c : Coordinator) (m : List (Text × PendingPermission))
    → c.pending ≡ m
    → c.request_ids ≡ keys m
    → IsMap m
    → Unique (keys m)
    → cancel_from c m ≡ (record { pending = []; request_ids = [] }, map (λ e. (e.0, cancelled)) m)
unfolding cancel_from
cancel_from_all c [] e k i u = ground arith
cancel_from_all c ((id, entry) ∷ m) e k i u =
    let next : Coordinator = record c {
      pending = Map.delete id c.pending;
      request_ids = TextSet.remove entry.request_key c.request_ids;
    } in
    let left : Map.delete id c.pending ≡ m =
      ap (Map.delete id) e ∙ Map.delete-cons_self id entry m ∙ Map.delete_absent id m i.0 in
    let ids : TextSet.remove entry.request_key c.request_ids ≡ keys m =
      ap (TextSet.remove entry.request_key) k
      ∙ TextSet.remove-cons_self entry.request_key (keys m)
      ∙ TextSet.remove_absent entry.request_key (keys m) u.0 in
    let rest = cancel_from_all next m left ids i.1 u.1 in ground (arith, rest)

-- The coordinator's two collections stay in step under every method: a request, accepted or not,
-- an answer, accepted or not, and the cancellation of all.
pub methods-IsConsistent :
    (is_absolute : Text → Bool) (c : Coordinator) (conversation_id : Text)
    (input : AcpPermissionRequest) (approval_id : Text) (d : ApprovalDecision)
    → IsConsistent c
    → IsConsistent (request is_absolute c conversation_id input approval_id).0
      × IsConsistent (resolve c conversation_id approval_id d).0
      × IsConsistent (cancel_all c).0
unfolding resolve cancel_all
methods-IsConsistent abs c conv input id d v = (
  elim (request_cases abs c conv input id) [
    | inl (same, _, _) ↦ subst IsConsistent (sym same) v
    | inr (p, fresh, new, e, _) ↦
        subst IsConsistent (sym e) (registered-IsConsistent c conv input id p v fresh new)
  ],
  elim (Option-cases (Map.get id c.pending)) [
    | inl e ↦ rw (e, resolve) v
    | inr (entry, e) ↦ rw (e, resolve) (resolve_entry_cases c conv id d entry e v)
  ],
  rw (cancel_from_all c c.pending refl v.same v.is_map v.unique)
      (record { same = refl; unique = tt; is_map = tt }),
)

-- A request that is refused changes nothing: not a key and not a pending permission is left behind,
-- whichever check it failed at.
pub refused_request_unchanged :
    (is_absolute : Text → Bool) (c : Coordinator) (conversation_id : Text)
    (input : AcpPermissionRequest) (approval_id : Text) (x : PermissionError)
    → (request is_absolute c conversation_id input approval_id).1 ≡ err x
    → (request is_absolute c conversation_id input approval_id).0 ≡ c
refused_request_unchanged abs c conv input id x h = elim (request_cases abs c conv input id) [
  | inl (same, _, _) ↦ same
  | inr (p, _, _, _, event) ↦ cc
]

-- `cancelAll` resolves each pending permission once, as cancelled, in the order of their requests,
-- and leaves none; the request ids are free again.
pub cancel_all_lem :
    (c : Coordinator)
    → IsConsistent c
    → cancel_all c
      ≡ (record { pending = []; request_ids = [] }, map (λ e. (e.0, cancelled)) c.pending)
unfolding cancel_all
cancel_all_lem c v = cancel_from_all c c.pending refl v.same v.is_map v.unique

-- The coordinator without an entry.
abbrev pub without : Coordinator → Text → PendingPermission → Coordinator
without c id entry = record c {
  pending = Map.delete id c.pending;
  request_ids = TextSet.remove entry.request_key c.request_ids;
}

resolve_accepted :
    (c : Coordinator) (conv id : Text) (d : ApprovalDecision) (entry : PendingPermission)
    (r : AcpPermissionResponse)
    → Map.get id c.pending ≡ some entry
    → (resolve c conv id d).1 ≡ ok r
    → (resolve c conv id d).0 ≡ without c id entry
unfolding resolve resolve_entry
resolve_accepted c conv id d entry r h k = ground arith

resolve_unknown :
    (c : Coordinator) (conv id : Text) (d : ApprovalDecision)
    → Map.get id c.pending ≡ none
    → resolve c conv id d ≡ (c, err unknown_approval)
unfolding resolve
resolve_unknown c conv id d h = rw (h, resolve)

-- An approval is answered once: after an answer is accepted, the same approval id is unknown,
-- to every conversation and decision, and the key of its request is free for a new one.
pub resolve_once :
    (c : Coordinator) (conversation_id other approval_id : Text) (d e : ApprovalDecision)
    (entry : PendingPermission) (response : AcpPermissionResponse)
    → Map.get approval_id c.pending ≡ some entry
    → (resolve c conversation_id approval_id d).1 ≡ ok response
    → let c' = (resolve c conversation_id approval_id d).0 in
      (resolve c' other approval_id e ≡ (c', err unknown_approval))
      × (TextSet.contains entry.request_key c'.request_ids ≡ false)
resolve_once c conv other id d e entry r h k =
    let c' = (resolve c conv id d).0 in
    let q : c' ≡ without c id entry = resolve_accepted c conv id d entry r h k in
    (
      resolve_unknown c' other id e
          (ap (λ (x : Coordinator). Map.get id x.pending) q ∙ Map.get-delete_self id c.pending),
      ap (λ (x : Coordinator). TextSet.contains entry.request_key x.request_ids) q
          ∙ TextSet.contains-remove_self entry.request_key c.request_ids,
    )

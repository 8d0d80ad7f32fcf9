-- ===== src/Permissions/Examples.antt =====
-- One permission request on concrete input, and the theorems applied to it.
use tea_desktop.Base.{◌==◌, Bool, false, ◌≡◌, refl, inl, inr, [], ◌∷◌, none, some, ok, err}
use Prim.Native.String.{String}
use tea_desktop.Base.Map
use tea_desktop.Base.Text.{Text, codes, text_eq, trim}
use tea_desktop.Base.TextSet
use tea_desktop.Conversation.{allow_once, deny, cancel, approval_requested}
use tea_desktop.Permissions.Presentation.{
  PermissionOption, JsonRpcId, AcpPermissionRequest, v1, AcpPermissionResponse, cancelled, selected,
  relative_path, require_text, first_text, permission_decision, option_for, normalize_from,
  normalize_options, require_absolute_path, require_absolute_paths, v1_presentation,
  permission_presentation, project_permission_request, unknown_approval,
}
use tea_desktop.Permissions.Coordinator.{
  Coordinator, empty, permission_request_key, register, request, selected_permission, response_to,
  resolve_entry, resolve, cancel_all, PendingPermission,
}
use tea_desktop.Permissions.Offers.{options_of}
use tea_desktop.Permissions.Answers.{Answers, shown_decisions_resolve}
use tea_desktop.Permissions.Invariant.{
  IsConsistent, methods-IsConsistent, refused_request_unchanged, cancel_all_lem, resolve_once,
}

-- Paths that start with a slash.
abbrev from_root : Text → Bool
from_root [] = false
from_root (c ∷ s) = c == 47

abbrev option : String → String → String → PermissionOption
option id name kind = record {
  option_id = some (codes id);
  name = some (codes name);
  kind = some (codes kind);
}

abbrev asking_in : String → AcpPermissionRequest
asking_in path = v1 (JsonRpcId.string (codes "7")) (record {
  tool_call = record {
    tool_call_id = some (codes "call");
    title = none;
    name = some (codes "shell");
    kind = none;
    locations = codes path ∷ [];
  };
  options = option "y" "Yes" "allow_once" ∷ option "n" "No" "reject_once" ∷ [];
})

abbrev entry : PendingPermission
entry = record {
  conversation_id = codes "c";
  request_key = codes "1:string:7";
  option_ids = (allow_once, codes "y") ∷ (deny, codes "n") ∷ [];
}

abbrev waiting : Coordinator
waiting = record { pending = (codes "a", entry) ∷ []; request_ids = codes "1:string:7" ∷ [] }

asked : request from_root empty (codes "c") (asking_in "/x") (codes "a") ≡ (
  waiting,
  ok (
      approval_requested
        (codes "a")
        (codes "call")
        (codes "shell" ∷ [])
        (codes "/x" ∷ [])
        (allow_once ∷ deny ∷ cancel ∷ [])),
)
unfolding request register permission_request_key project_permission_request permission_presentation
    v1_presentation require_text first_text permission_decision option_for normalize_from
    normalize_options require_absolute_path require_absolute_paths trim text_eq Map.get Map.set
    TextSet.contains TextSet.add
asked = refl

shown_decisions_resolve_example :
    (response : AcpPermissionResponse) × ((resolve waiting (codes "c") (codes "a") deny).1
      ≡ ok response)
    × Answers (options_of (asking_in "/x")) deny response
shown_decisions_resolve_example =
    shown_decisions_resolve from_root empty (codes "c") (asking_in "/x") (codes "a") (codes "call")
      (codes "shell" ∷ []) (codes "/x" ∷ []) (allow_once ∷ deny ∷ cancel ∷ []) waiting deny asked
      (inr (inl refl))

refused : (request from_root waiting (codes "c") (asking_in "x") (codes "b")).1 ≡ err relative_path
unfolding request register permission_request_key project_permission_request permission_presentation
    v1_presentation require_text first_text permission_decision option_for normalize_from
    normalize_options require_absolute_path require_absolute_paths trim text_eq Map.get Map.set
    TextSet.contains TextSet.add
refused = refl

refused_request_unchanged_example :
    (request from_root waiting (codes "c") (asking_in "x") (codes "b")).0 ≡ waiting
refused_request_unchanged_example =
    refused_request_unchanged from_root waiting (codes "c") (asking_in "x") (codes "b")
      relative_path refused

waiting-IsConsistent : IsConsistent waiting
unfolding Map.get TextSet.contains
waiting-IsConsistent = record { same = refl; unique = (refl, tt); is_map = (refl, tt) }

methods-IsConsistent_example :
    IsConsistent (request from_root waiting (codes "c") (asking_in "/x") (codes "b")).0
methods-IsConsistent_example =
    (methods-IsConsistent from_root waiting (codes "c") (asking_in "/x") (codes "b") cancel
      waiting-IsConsistent).0

cancel_all_lem_example : cancel_all waiting ≡ (empty, (codes "a", cancelled) ∷ [])
cancel_all_lem_example = cancel_all_lem waiting waiting-IsConsistent

answered : (resolve waiting (codes "c") (codes "a") deny).1 ≡ ok (selected (codes "n"))
unfolding resolve resolve_entry response_to selected_permission option_for text_eq Map.get
answered = refl

entry_found : Map.get (codes "a") waiting.pending ≡ some entry
unfolding Map.get text_eq
entry_found = refl

resolve_once_example :
    let c' = (resolve waiting (codes "c") (codes "a") deny).0 in
    resolve c' (codes "d") (codes "a") cancel ≡ (c', err unknown_approval)
resolve_once_example =
    (resolve_once waiting (codes "c") (codes "d") (codes "a") deny cancel entry
      (selected (codes "n")) entry_found answered).0

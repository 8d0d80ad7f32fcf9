-- ===== src/AgentDrawer/Store.antt =====
-- src/features/collaboration/agentDrawerStore.ts and agentDrawerContracts.ts: the drawer's state for
-- each channel binding. A function that the store returns takes the store and gives the new one.
use tea_desktop.Base.{
  ℕ, ◌+◌, ◌-◌, Bool, true, false, not, ◌&&◌, ◌||◌, List, [], ◌∷◌, ◌++◌, Option, none, some,
  if◌then◌else◌, length, ltb, any, drop, filter, get_or,
}
use tea_desktop.Base.Map
use tea_desktop.Conversation.{PermissionMode, default_mode}
use tea_desktop.Base.Text.{Text, codes, text_eq, is_empty}

-- src/types/channelCollaboration.ts
pub record MessageRef : Type 0 where
  pub channel_ref : Text
  pub message_client_id : Text
  pub message_server_id : Option Text

pub record ChannelBinding : Type 0 where
  pub transport_id : Text
  pub account_ref : Text
  pub channel_ref : Text

pub data ChannelSourceState : Type 0 where
  source_active source_modified source_revoked source_deleted : ChannelSourceState

pub record ChannelSourceInput : Type 0 where
  pub message_ref : MessageRef
  pub sender_name : Text
  pub sent_at : ℕ
  pub sent_by_current_user : Bool
  pub text : Text
  pub captured_at : ℕ
  pub state : ChannelSourceState

pub data AgentDrawerPhase : Type 0 where
  index preparing creating active : AgentDrawerPhase

pub data AgentSessionListMode : Type 0 where
  recent all : AgentSessionListMode

-- src/features/conversation/contracts.ts
pub record ComposerAttachment : Type 0 where
  pub id : Text
  pub name : Text
  pub size : ℕ

pub record AgentDrawerDraft : Type 0 where
  pub runtime_id : Option Text
  pub model : Text
  pub permission_mode : PermissionMode
  pub role_id : Option Text
  pub text : Text
  pub attachments : List ComposerAttachment
  pub sources : List ChannelSourceInput
  pub creation_idempotency_key : Text
  pub conversation_id : Option Text

pub record AgentDrawerChannelState : Type 0 where
  pub binding : ChannelBinding
  pub phase : AgentDrawerPhase
  pub list_mode : AgentSessionListMode
  pub query : Text
  pub scroll_offset : ℕ
  pub selected_conversation_id : Option Text
  pub draft : AgentDrawerDraft

-- The fields that `updateDraft` is given; those that are `null`able are options of their own.
pub record DraftPatch : Type 0 where
  pub runtime_id : Option (Option Text)
  pub model : Option Text
  pub permission_mode : Option PermissionMode
  pub role_id : Option (Option Text)
  pub text : Option Text
  pub attachments : Option (List ComposerAttachment)

-- `drawn` counts the calls of `crypto.randomUUID`.
pub record AgentDrawerStore : Type 0 where
  pub states : List (Text × AgentDrawerChannelState)
  pub active_key : Option Text
  pub drawn : ℕ

abbrev pub new_store : AgentDrawerStore
new_store = record { states = []; active_key = none; drawn = 0 }

-- A scroll offset: zero or more, or less than zero.
pub data ℤ : Type 0 where
  pos negsuc : ℕ → ℤ

abbrev pub is_preparing : AgentDrawerPhase → Bool
is_preparing preparing = true
is_preparing _ = false

abbrev pub is_creating : AgentDrawerPhase → Bool
is_creating creating = true
is_creating _ = false

-- A text that is neither `null` nor empty.
abbrev pub is_truthy : Option Text → Bool
is_truthy none = false
is_truthy (some t) = not (is_empty t)

abbrev pub server_id_agrees : Option Text → Option Text → Bool
server_id_agrees none right = true
server_id_agrees (some l) none = true
server_id_agrees (some l) (some r) = text_eq l r

-- `sameSource` of channelPrompt.ts
unfoldable pub same_source : ChannelSourceInput → ChannelSourceInput → Bool
same_source left right =
    text_eq left.message_ref.channel_ref right.message_ref.channel_ref
    && text_eq left.message_ref.message_client_id right.message_ref.message_client_id
    && server_id_agrees left.message_ref.message_server_id right.message_ref.message_server_id

abbrev pub max_sources : ℕ
max_sources = 20

-- `sources.splice(0, sources.length - 20)` where there are more than 20
unfoldable pub keep_last : List ChannelSourceInput → List ChannelSourceInput
keep_last sources =
    if ltb max_sources (length sources)
    then drop (length sources - max_sources) sources
    else sources

unfoldable pub staged : ChannelSourceInput → List ChannelSourceInput → List ChannelSourceInput
unfolding keep_last
staged source sources =
    keep_last (
      if any (λ value. same_source value source) sources then sources else sources ++ (source ∷ []))

abbrev pub prepared : Option Text → AgentDrawerChannelState → AgentDrawerChannelState
prepared runtime_id state = record state {
  phase = preparing;
  selected_conversation_id = none;
  draft =
      if is_truthy runtime_id then record state.draft { runtime_id = runtime_id } else state.draft;
}

abbrev pub set_phase : AgentDrawerPhase → AgentDrawerChannelState → AgentDrawerChannelState
set_phase phase state = record state { phase = phase }

abbrev pub selected : Text → AgentDrawerChannelState → AgentDrawerChannelState
selected conversation_id state = record state {
  phase = active;
  selected_conversation_id = some conversation_id;
  draft = record state.draft { conversation_id = some conversation_id };
}

abbrev pub awaits : AgentDrawerChannelState → Text → Bool
awaits state key = is_creating state.phase && text_eq state.draft.creation_idempotency_key key

abbrev pub to_index : AgentDrawerChannelState → AgentDrawerChannelState
to_index state = record state { phase = index; selected_conversation_id = none }

-- `Math.max(0, offset)`
abbrev pub at_least_zero : ℤ → ℕ
at_least_zero (pos n) = n
at_least_zero (negsuc n) = 0

abbrev pub patched : DraftPatch → AgentDrawerDraft → AgentDrawerDraft
patched patch draft = record draft {
  runtime_id = get_or patch.runtime_id draft.runtime_id;
  model = get_or patch.model draft.model;
  permission_mode = get_or patch.permission_mode draft.permission_mode;
  role_id = get_or patch.role_id draft.role_id;
  text = get_or patch.text draft.text;
  attachments = get_or patch.attachments draft.attachments;
}

abbrev pub on_draft :
    (AgentDrawerDraft → AgentDrawerDraft) → AgentDrawerChannelState → AgentDrawerChannelState
on_draft change state = record state { draft = change state.draft }

abbrev pub without : Text → List ChannelSourceInput → List ChannelSourceInput
without message_client_id sources =
    filter (λ source. not (text_eq source.message_ref.message_client_id message_client_id)) sources

-- The calls of the store's functions.
pub data Action : Type 0 where
  activates : Option ChannelBinding → Action
  prepares : ChannelBinding → Option Text → Action
  begins : ChannelBinding → Action
  completes : ChannelBinding → Text → Text → Action
  fails : ChannelBinding → Text → Action
  selects : ChannelBinding → Text → Action
  goes_back : ChannelBinding → Action
  lists : ChannelBinding → AgentSessionListMode → Action
  queries : ChannelBinding → Text → Action
  scrolls : ChannelBinding → ℤ → Action
  updates : ChannelBinding → DraftPatch → Action
  stages : ChannelBinding → ChannelSourceInput → Action
  unstages : ChannelBinding → Text → Action
  consumes cancels clears : ChannelBinding → Action
  disposes : Action

-- `serialize` is `JSON.stringify` on a list of three texts, `uuid` the results of `randomUUID`.
module _ (serialize : Text → Text → Text → Text) (uuid : ℕ → Text) where
  abbrev pub serialize_channel_binding : ChannelBinding → Text
  serialize_channel_binding b = serialize b.transport_id b.account_ref b.channel_ref

  abbrev pub create_draft : Option Text → ℕ → AgentDrawerDraft
  create_draft runtime_id n = record {
    runtime_id = runtime_id;
    model = codes "default";
    permission_mode = default_mode;
    role_id = none;
    text = [];
    attachments = [];
    sources = [];
    creation_idempotency_key = uuid n;
    conversation_id = none;
  }

  abbrev pub new_state : ChannelBinding → ℕ → AgentDrawerChannelState
  new_state binding n = record {
    binding = binding;
    phase = index;
    list_mode = recent;
    query = [];
    scroll_offset = 0;
    selected_conversation_id = none;
    draft = create_draft none n;
  }

  unfoldable pub ensure_state :
      AgentDrawerStore → ChannelBinding → AgentDrawerStore × AgentDrawerChannelState
  ensure_state s binding =
      let key = serialize_channel_binding binding in
      let state = new_state binding s.drawn in
      elim (Map.get key s.states) [
        | some found ↦ (s, found)
        | none ↦ (record s { states = Map.set key state s.states; drawn = s.drawn + 1 }, state)
      ]

  -- Assignments to the fields of the state that `ensureState` gives.
  unfoldable pub assign :
      (AgentDrawerChannelState → AgentDrawerChannelState)
      → AgentDrawerStore
      → ChannelBinding
      → AgentDrawerStore
  assign change s binding =
      let ensured = ensure_state s binding in
      record ensured.0 {
        states = Map.set (serialize_channel_binding binding) (change ensured.1) ensured.0.states;
      }

  unfoldable pub activate_binding : AgentDrawerStore → Option ChannelBinding → AgentDrawerStore
  activate_binding s none = record s { active_key = none }
  activate_binding s (some binding) =
      (ensure_state (record s { active_key = some (serialize_channel_binding binding) }) binding).0

  unfoldable pub prepare : AgentDrawerStore → ChannelBinding → Option Text → AgentDrawerStore
  prepare s binding runtime_id = assign (prepared runtime_id) s binding

  unfoldable pub begin_creation : AgentDrawerStore → ChannelBinding → AgentDrawerStore × Option Text
  begin_creation s binding =
      let ensured = ensure_state s binding in
      if not (is_preparing ensured.1.phase) || not (is_truthy ensured.1.draft.runtime_id)
      then (ensured.0, none)
      else (assign (set_phase creating) s binding, some ensured.1.draft.creation_idempotency_key)

  unfoldable pub complete_creation :
      AgentDrawerStore → ChannelBinding → Text → Text → AgentDrawerStore × Bool
  complete_creation s binding key conversation_id =
      let ensured = ensure_state s binding in
      if not (awaits ensured.1 key)
      then (ensured.0, false)
      else (assign (selected conversation_id) s binding, true)

  unfoldable pub creation_failed : AgentDrawerStore → ChannelBinding → Text → AgentDrawerStore
  creation_failed s binding key =
      assign (λ state. if awaits state key then set_phase preparing state else state) s binding

  unfoldable pub select_conversation : AgentDrawerStore → ChannelBinding → Text → AgentDrawerStore
  select_conversation s binding conversation_id = assign (selected conversation_id) s binding

  unfoldable pub back : AgentDrawerStore → ChannelBinding → AgentDrawerStore
  back s binding = assign to_index s binding

  unfoldable pub set_list_mode :
      AgentDrawerStore → ChannelBinding → AgentSessionListMode → AgentDrawerStore
  set_list_mode s binding mode = assign (λ state. record state { list_mode = mode }) s binding

  unfoldable pub set_query : AgentDrawerStore → ChannelBinding → Text → AgentDrawerStore
  set_query s binding query = assign (λ state. record state { query = query }) s binding

  unfoldable pub set_scroll_offset : AgentDrawerStore → ChannelBinding → ℤ → AgentDrawerStore
  set_scroll_offset s binding offset =
      assign (λ state. record state { scroll_offset = at_least_zero offset }) s binding

  unfoldable pub update_draft : AgentDrawerStore → ChannelBinding → DraftPatch → AgentDrawerStore
  update_draft s binding patch = assign (on_draft (patched patch)) s binding

  unfoldable pub stage_source :
      AgentDrawerStore → ChannelBinding → ChannelSourceInput → AgentDrawerStore
  stage_source s binding source =
      assign (on_draft (λ draft. record draft { sources = staged source draft.sources })) s binding

  unfoldable pub remove_source : AgentDrawerStore → ChannelBinding → Text → AgentDrawerStore
  remove_source s binding message_client_id =
      assign
        (on_draft (λ draft. record draft { sources = without message_client_id draft.sources })) s
        binding

  unfoldable pub consume_accepted_input : AgentDrawerStore → ChannelBinding → AgentDrawerStore
  consume_accepted_input s binding =
      assign (on_draft (λ draft. record draft { text = []; attachments = []; sources = [] })) s
        binding

  unfoldable pub cancel_draft : AgentDrawerStore → ChannelBinding → AgentDrawerStore
  cancel_draft s binding =
      let ensured = ensure_state s binding in
      let n = ensured.0.drawn in
      let cleared =
        assign (λ state. record (to_index state) { draft = create_draft state.draft.runtime_id n })
          s binding in
      record cleared { drawn = n + 1 }

  unfoldable pub clear_binding : AgentDrawerStore → ChannelBinding → AgentDrawerStore
  clear_binding s binding =
      let key = serialize_channel_binding binding in
      record s {
        states = Map.delete key s.states;
        active_key = elim s.active_key [
          | none ↦ none
          | some k ↦ if text_eq k key then none else some k
        ];
      }

  abbrev pub dispose : AgentDrawerStore → AgentDrawerStore
  dispose s = record s { states = []; active_key = none }

  unfoldable pub step : AgentDrawerStore → Action → AgentDrawerStore
  step s (activates binding) = activate_binding s binding
  step s (prepares b runtime_id) = prepare s b runtime_id
  step s (begins b) = (begin_creation s b).0
  step s (completes b key id) = (complete_creation s b key id).0
  step s (fails b key) = creation_failed s b key
  step s (selects b id) = select_conversation s b id
  step s (goes_back b) = back s b
  step s (lists b mode) = set_list_mode s b mode
  step s (queries b query) = set_query s b query
  step s (scrolls b offset) = set_scroll_offset s b offset
  step s (updates b patch) = update_draft s b patch
  step s (stages b source) = stage_source s b source
  step s (unstages b id) = remove_source s b id
  step s (consumes b) = consume_accepted_input s b
  step s (cancels b) = cancel_draft s b
  step s (clears b) = clear_binding s b
  step s disposes = dispose s

  unfoldable pub run : AgentDrawerStore → List Action → AgentDrawerStore
  run s [] = s
  run s (a ∷ actions) = run (step s a) actions

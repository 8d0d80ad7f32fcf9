-- ===== src/AgentDrawer/Phases.antt =====
-- agentDrawerStore.ts: the phase of a channel's drawer and the conversation that it shows.
use tea_desktop.Base.{
  ℕ, ◌-◌, ◌≤◌, ◌≡◌, refl, sym, ap, ◌∙◌, true, false, not, ◌||◌, List, [], ◌∷◌, ◌++◌, Option, none,
  some, if◌then◌else◌, length, any, arith, All, Bool-cases, Option-cases, inl, inr, length-drop,
  length-filter-le,
}
use tea_desktop.Base.Map
use tea_desktop.Base.Text.{Text, text_eq}
use tea_desktop.AgentDrawer.Store.{
  AgentDrawerPhase, index, preparing, creating, active, AgentDrawerStore, AgentDrawerChannelState,
  AgentDrawerDraft, ChannelBinding, ChannelSourceInput, DraftPatch, AgentSessionListMode, ℤ, Action,
  activates, prepares, begins, completes, fails, selects, goes_back, lists, queries, scrolls,
  updates, stages, unstages, consumes, cancels, clears, disposes, keep_last, staged, max_sources,
  same_source,
}
use tea_desktop.AgentDrawer.Store as Store

-- The drawer shows a conversation exactly in the phase `active`; it is then the draft's as well.
abbrev pub Shows : AgentDrawerPhase → Option Text → Option Text → Type 0
Shows active selected conversation = (id : Text) × (selected ≡ some id) × (conversation ≡ some id)
Shows index selected conversation = selected ≡ none
Shows preparing selected conversation = selected ≡ none
Shows creating selected conversation = selected ≡ none

abbrev pub IsCoherent : AgentDrawerChannelState → Type 0
IsCoherent state =
    Shows state.phase state.selected_conversation_id state.draft.conversation_id
    × (length state.draft.sources ≤ max_sources)

shown_preparing :
    (phase : AgentDrawerPhase) (selected conversation : Option Text)
    → Store.is_preparing phase ≡ true
    → Shows phase selected conversation
    → selected ≡ none
shown_preparing index selected conversation e h = h
shown_preparing preparing selected conversation e h = h
shown_preparing creating selected conversation e h = h
shown_preparing active selected conversation e h = absurd (ground arith)

shown_creating :
    (phase : AgentDrawerPhase) (selected conversation : Option Text)
    → Store.is_creating phase ≡ true
    → Shows phase selected conversation
    → selected ≡ none
shown_creating index selected conversation e h = h
shown_creating preparing selected conversation e h = h
shown_creating creating selected conversation e h = h
shown_creating active selected conversation e h = absurd (ground arith)

-- An assignment that keeps a state coherent and leaves its binding.
abbrev pub KeepsAt :
    (AgentDrawerChannelState → AgentDrawerChannelState) → AgentDrawerChannelState → Type 0
KeepsAt change state =
    IsCoherent state → IsCoherent (change state) × ((change state).binding ≡ state.binding)

length-keep_last : (sources : List ChannelSourceInput) → length (keep_last sources) ≤ max_sources
unfolding keep_last
length-keep_last sources = ground (arith, length-drop (length sources - max_sources) sources)

pub length-staged :
    (source : ChannelSourceInput) (sources : List ChannelSourceInput)
    → length (staged source sources) ≤ max_sources
unfolding staged
length-staged source sources =
    length-keep_last (
      if any (λ value. same_source value source) sources then sources else sources ++ (source ∷ []))

length-without :
    (id : Text) (sources : List ChannelSourceInput)
    → length sources ≤ max_sources
    → length (Store.without id sources) ≤ max_sources
length-without id sources h = omega (
  arith,
  h,
  length-filter-le (λ (x : ChannelSourceInput). not (text_eq x.message_ref.message_client_id id))
      sources,
)

creating-KeepsAt :
    (state : AgentDrawerChannelState)
    → (not (Store.is_preparing state.phase) || not (Store.is_truthy state.draft.runtime_id)) ≡ false
    → KeepsAt (Store.set_phase creating) state
creating-KeepsAt state e c = ((shown_preparing state.phase _ _ (ground arith) c.0, c.1), refl)

selected-KeepsAt : (id : Text) (state : AgentDrawerChannelState) → KeepsAt (Store.selected id) state
selected-KeepsAt id state c = (((id, refl, refl), c.1), refl)

prepared-KeepsAt :
    (r : Option Text) (state : AgentDrawerChannelState) → KeepsAt (Store.prepared r) state
prepared-KeepsAt r state c = elim (Bool-cases (Store.is_truthy r)) [
  | inl e ↦ rw e ((refl, c.1), refl)
  | inr e ↦ rw e ((refl, c.1), refl)
]

failed-KeepsAt :
    (k : Text) (state : AgentDrawerChannelState)
    → KeepsAt (λ x. if Store.awaits x k then Store.set_phase preparing x else x) state
failed-KeepsAt k state c = elim (Bool-cases (Store.awaits state k)) [
  | inl e ↦ rw e ((shown_creating state.phase _ _ (ground arith) c.0, c.1), refl)
  | inr e ↦ rw e (c, refl)
]

module _ (serialize : Text → Text → Text → Text) (uuid : ℕ → Text) where
  abbrev pub key : ChannelBinding → Text
  key binding = Store.serialize_channel_binding serialize uuid binding

  -- A state is kept under the key of its own binding, and is coherent.
  abbrev pub IsKept : Text × AgentDrawerChannelState → Type 0
  IsKept e = (e.0 ≡ key e.1.binding) × IsCoherent e.1

  abbrev pub AreKept : AgentDrawerStore → Type 0
  AreKept s = All IsKept s.states

  ensure-AreKept :
      (s : AgentDrawerStore) (b : ChannelBinding)
      → AreKept s
      → AreKept (Store.ensure_state serialize uuid s b).0
        × IsKept (key b, (Store.ensure_state serialize uuid s b).1)
  unfolding Store.ensure_state
  ensure-AreKept s b i = elim (Option-cases (Map.get (key b) s.states)) [
    | inl e ↦
        rw (e, Store.ensure_state)
          (
            Map.All-set IsKept (key b) _ s.states i (refl, (refl, omega arith)),
            (refl, (refl, omega arith)),
          )
    | inr (state, e) ↦ rw (e, Store.ensure_state) (i, Map.All-get IsKept (key b) state s.states e i)
  ]

  assign-AreKept :
      (change : AgentDrawerChannelState → AgentDrawerChannelState)
      → (s : AgentDrawerStore) (b : ChannelBinding)
      → KeepsAt change (Store.ensure_state serialize uuid s b).1
      → AreKept s
      → AreKept (Store.assign serialize uuid change s b)
  unfolding Store.assign
  assign-AreKept change s b keeps i =
      let (kept, (own, coherent)) = ensure-AreKept s b i in
      let (next, same) = keeps coherent in
      Map.All-set IsKept (key b) (change (Store.ensure_state serialize uuid s b).1)
        (Store.ensure_state serialize uuid s b).0.states kept (own ∙ ap key (sym same), next)

  begin-AreKept :
      (s : AgentDrawerStore) (b : ChannelBinding)
      → AreKept s
      → AreKept (Store.begin_creation serialize uuid s b).0
  unfolding Store.begin_creation
  begin-AreKept s b i =
      let state = (Store.ensure_state serialize uuid s b).1 in
      elim (Bool-cases
        (not (Store.is_preparing state.phase) || not (Store.is_truthy state.draft.runtime_id))) [
          | inl e ↦ rw e ((ensure-AreKept s b i).0)
          | inr e ↦
              rw e (assign-AreKept (Store.set_phase creating) s b (creating-KeepsAt state e) i)
        ]

  complete-AreKept :
      (s : AgentDrawerStore) (b : ChannelBinding) (k id : Text)
      → AreKept s
      → AreKept (Store.complete_creation serialize uuid s b k id).0
  unfolding Store.complete_creation
  complete-AreKept s b k id i =
      let state = (Store.ensure_state serialize uuid s b).1 in
      elim (Bool-cases (not (Store.awaits state k))) [
        | inl e ↦ rw e ((ensure-AreKept s b i).0)
        | inr e ↦ rw e (assign-AreKept (Store.selected id) s b (selected-KeepsAt id state) i)
      ]

  activate-AreKept :
      (s : AgentDrawerStore) (b : Option ChannelBinding)
      → AreKept s
      → AreKept (Store.activate_binding serialize uuid s b)
  unfolding Store.activate_binding
  activate-AreKept s none i = i
  activate-AreKept s (some b) i = (ensure-AreKept (record s { active_key = some (key b) }) b i).0

  step-AreKept :
      (s : AgentDrawerStore) (a : Action) → AreKept s → AreKept (Store.step serialize uuid s a)
  unfolding Store.step Store.prepare Store.creation_failed Store.select_conversation Store.back
      Store.set_list_mode Store.set_query Store.set_scroll_offset Store.update_draft
      Store.stage_source Store.remove_source Store.consume_accepted_input Store.cancel_draft
      Store.clear_binding
  step-AreKept s (activates b) i = activate-AreKept s b i
  step-AreKept s (prepares b r) i =
      assign-AreKept (Store.prepared r) s b
        (prepared-KeepsAt r (Store.ensure_state serialize uuid s b).1) i
  step-AreKept s (begins b) i = begin-AreKept s b i
  step-AreKept s (completes b k id) i = complete-AreKept s b k id i
  step-AreKept s (fails b k) i = assign-AreKept _ s b (failed-KeepsAt k _) i
  step-AreKept s (selects b id) i =
      assign-AreKept (Store.selected id) s b
        (selected-KeepsAt id (Store.ensure_state serialize uuid s b).1) i
  step-AreKept s (goes_back b) i = assign-AreKept Store.to_index s b (λ c. ((refl, c.1), refl)) i
  step-AreKept s (lists b mode) i = assign-AreKept _ s b (λ c. (c, refl)) i
  step-AreKept s (queries b query) i = assign-AreKept _ s b (λ c. (c, refl)) i
  step-AreKept s (scrolls b offset) i = assign-AreKept _ s b (λ c. (c, refl)) i
  step-AreKept s (updates b patch) i = assign-AreKept _ s b (λ c. (c, refl)) i
  step-AreKept s (stages b source) i =
      assign-AreKept _ s b (λ c. ((c.0, length-staged source _), refl)) i
  step-AreKept s (unstages b id) i =
      assign-AreKept _ s b (λ c. ((c.0, length-without id _ c.1), refl)) i
  step-AreKept s (consumes b) i = assign-AreKept _ s b (λ c. ((c.0, omega arith), refl)) i
  step-AreKept s (cancels b) i = assign-AreKept _ s b (λ c. ((refl, omega arith), refl)) i
  step-AreKept s (clears b) i = Map.All-delete IsKept (key b) s.states i
  step-AreKept s disposes i = tt

  -- Whatever is done to a store in which this holds, as it does of an empty one: each state is kept under the key of its own
  -- binding, shows a conversation exactly when its phase is `active`, the one that its draft names,
  -- and has at most 20 sources staged.
  pub run-AreKept :
      (s : AgentDrawerStore) (actions : List Action)
      → AreKept s
      → AreKept (Store.run serialize uuid s actions)
  unfolding Store.run
  run-AreKept s [] i = i
  run-AreKept s (a ∷ actions) i =
      run-AreKept (Store.step serialize uuid s a) actions (step-AreKept s a i)

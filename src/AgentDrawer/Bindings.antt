-- ===== src/AgentDrawer/Bindings.antt =====
-- agentDrawerStore.ts: an action on one channel's drawer and the drawers of the others.
use tea_desktop.Base.{
  ℕ, ◌≡◌, refl, ◌∙◌, Bool, true, false, not, ◌||◌, none, some, arith, Bool-cases, Option-cases, inl,
  inr,
}
use tea_desktop.Base.Map
use tea_desktop.Base.Text.{Text, text_eq}
use tea_desktop.AgentDrawer.Store.{
  AgentDrawerPhase, index, preparing, creating, active, AgentDrawerStore, AgentDrawerChannelState,
  AgentDrawerDraft, ChannelBinding, ChannelSourceInput, DraftPatch, AgentSessionListMode, ℤ, Action,
  activates, prepares, begins, completes, fails, selects, goes_back, lists, queries, scrolls,
  updates, stages, unstages, consumes, cancels, clears, disposes, keep_last, staged, max_sources,
  same_source,
}
use tea_desktop.AgentDrawer.Store as Store

module _ (serialize : Text → Text → Text → Text) (uuid : ℕ → Text) where
  abbrev key : ChannelBinding → Text
  key binding = Store.serialize_channel_binding serialize uuid binding

  -- The binding's key is another one.
  abbrev pub Spares : Text → ChannelBinding → Type 0
  Spares j b = text_eq (Store.serialize_channel_binding serialize uuid b) j ≡ false

  -- The action is one on another channel's drawer.
  abbrev pub IsElsewhere : Text → Action → Type 0
  IsElsewhere j (activates none) = Unit
  IsElsewhere j (activates (some b)) = Spares j b
  IsElsewhere j (prepares b r) = Spares j b
  IsElsewhere j (begins b) = Spares j b
  IsElsewhere j (completes b k id) = Spares j b
  IsElsewhere j (fails b k) = Spares j b
  IsElsewhere j (selects b id) = Spares j b
  IsElsewhere j (goes_back b) = Spares j b
  IsElsewhere j (lists b mode) = Spares j b
  IsElsewhere j (queries b query) = Spares j b
  IsElsewhere j (scrolls b offset) = Spares j b
  IsElsewhere j (updates b patch) = Spares j b
  IsElsewhere j (stages b source) = Spares j b
  IsElsewhere j (unstages b id) = Spares j b
  IsElsewhere j (consumes b) = Spares j b
  IsElsewhere j (cancels b) = Spares j b
  IsElsewhere j (clears b) = Spares j b
  IsElsewhere j disposes = ◌≡◌ {A = Bool} true false

  abbrev Same : Text → AgentDrawerStore → AgentDrawerStore → Type 0
  Same j s t = Map.get j t.states ≡ Map.get j s.states

  ensure-Same :
      (j : Text) (s : AgentDrawerStore) (b : ChannelBinding)
      → Spares j b
      → Same j s (Store.ensure_state serialize uuid s b).0
  unfolding Store.ensure_state
  ensure-Same j s b h =
      let k = Store.serialize_channel_binding serialize uuid b in
      elim (Option-cases (Map.get k s.states)) [
        | inl e ↦ rw (e, Store.ensure_state) (Map.get-set k j _ s.states ∙ rw h refl)
        | inr (state, e) ↦ rw (e, Store.ensure_state) refl
      ]

  assign-Same :
      (change : AgentDrawerChannelState → AgentDrawerChannelState) (j : Text)
      → (s : AgentDrawerStore) (b : ChannelBinding) → Spares j b
      → Same j s (Store.assign serialize uuid change s b)
  unfolding Store.assign
  assign-Same change j s b h =
      let k = Store.serialize_channel_binding serialize uuid b in
      let ensured = Store.ensure_state serialize uuid s b in
      Map.get-set k j (change ensured.1) ensured.0.states ∙ rw h (ensure-Same j s b h)

  begin-Same :
      (j : Text) (s : AgentDrawerStore) (b : ChannelBinding)
      → Spares j b
      → Same j s (Store.begin_creation serialize uuid s b).0
  unfolding Store.begin_creation
  begin-Same j s b h =
      let state = (Store.ensure_state serialize uuid s b).1 in
      elim (Bool-cases
        (not (Store.is_preparing state.phase) || not (Store.is_truthy state.draft.runtime_id))) [
          | inl e ↦ rw e (ensure-Same j s b h)
          | inr e ↦ rw e (assign-Same (Store.set_phase creating) j s b h)
        ]

  complete-Same :
      (j : Text) (s : AgentDrawerStore) (b : ChannelBinding) (k id : Text)
      → Spares j b
      → Same j s (Store.complete_creation serialize uuid s b k id).0
  unfolding Store.complete_creation
  complete-Same j s b k id h =
      elim (Bool-cases (not (Store.awaits (Store.ensure_state serialize uuid s b).1 k))) [
        | inl e ↦ rw e (ensure-Same j s b h)
        | inr e ↦ rw e (assign-Same (Store.selected id) j s b h)
      ]

  activate-Same :
      (j : Text) (s : AgentDrawerStore) (b : ChannelBinding)
      → Spares j b
      → Same j s (Store.activate_binding serialize uuid s (some b))
  unfolding Store.activate_binding
  activate-Same j s b h = ensure-Same j (record s { active_key = some (key b) }) b h

  -- An action on one channel's drawer leaves the state kept under any other key as it was.
  pub step-elsewhere :
      (j : Text) (s : AgentDrawerStore) (a : Action)
      → IsElsewhere j a
      → Map.get j (Store.step serialize uuid s a).states ≡ Map.get j s.states
  unfolding Store.step Store.prepare Store.creation_failed Store.select_conversation Store.back
      Store.set_list_mode Store.set_query Store.set_scroll_offset Store.update_draft
      Store.stage_source Store.remove_source Store.consume_accepted_input Store.cancel_draft
      Store.clear_binding Store.activate_binding
  step-elsewhere j s (activates none) h = refl
  step-elsewhere j s (activates (some b)) h = activate-Same j s b h
  step-elsewhere j s (prepares b r) h = assign-Same _ j s b h
  step-elsewhere j s (begins b) h = begin-Same j s b h
  step-elsewhere j s (completes b k id) h = complete-Same j s b k id h
  step-elsewhere j s (fails b k) h = assign-Same _ j s b h
  step-elsewhere j s (selects b id) h = assign-Same _ j s b h
  step-elsewhere j s (goes_back b) h = assign-Same _ j s b h
  step-elsewhere j s (lists b mode) h = assign-Same _ j s b h
  step-elsewhere j s (queries b query) h = assign-Same _ j s b h
  step-elsewhere j s (scrolls b offset) h = assign-Same _ j s b h
  step-elsewhere j s (updates b patch) h = assign-Same _ j s b h
  step-elsewhere j s (stages b source) h = assign-Same _ j s b h
  step-elsewhere j s (unstages b id) h = assign-Same _ j s b h
  step-elsewhere j s (consumes b) h = assign-Same _ j s b h
  step-elsewhere j s (cancels b) h = assign-Same _ j s b h
  step-elsewhere j s (clears b) h =
      Map.get-delete (Store.serialize_channel_binding serialize uuid b) j s.states ∙ rw h refl
  step-elsewhere j s disposes h = absurd (ground arith)

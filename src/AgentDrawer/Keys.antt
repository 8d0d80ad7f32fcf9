-- ===== src/AgentDrawer/Keys.antt =====
-- agentDrawerStore.ts: the creation keys of a channel's drafts, drawn one after another.
use tea_desktop.Base.{
  ℕ, ◌+◌, ◌≤◌, ◌<◌, ◌≡◌, refl, sym, ap, ◌∙◌, subst, not, ◌||◌, List, [], ◌∷◌, Option, none, some,
  if◌then◌else◌, arith, Bool-cases, Option-cases, inl, inr,
}
use tea_desktop.Base.Map
use tea_desktop.Base.Text.{Text, text_eq, text_eq_iff}
use tea_desktop.AgentDrawer.Store.{
  AgentDrawerPhase, preparing, creating, AgentDrawerStore, AgentDrawerChannelState,
  AgentDrawerDraft, ChannelBinding, Action, activates, prepares, begins, completes, fails, selects,
  goes_back, lists, queries, scrolls, updates, stages, unstages, consumes, cancels, clears,
  disposes, new_store,
}
use tea_desktop.AgentDrawer.Store as Store

module _ (serialize : Text → Text → Text → Text) (uuid : ℕ → Text) where
  abbrev pub key : ChannelBinding → Text
  key binding = Store.serialize_channel_binding serialize uuid binding

  -- A state's creation key is one of the ids drawn from `low` on and before `top`.
  abbrev pub DrawnIn : ℕ → ℕ → Option AgentDrawerChannelState → Type 0
  DrawnIn low top none = Unit
  DrawnIn low top (some state) =
      (n : ℕ) × (state.draft.creation_idempotency_key ≡ uuid n) × (low ≤ n) × (n < top)

  -- The state kept under the key `j` has a creation key that was drawn from `low` on, and `base` ids
  -- or more were drawn.
  abbrev pub IsFresh : Text → ℕ → ℕ → AgentDrawerStore → Type 0
  IsFresh j low base s = (low ≤ base) × (base ≤ s.drawn) × DrawnIn low s.drawn (Map.get j s.states)

  DrawnIn-later :
      (low n m : ℕ) (state : Option AgentDrawerChannelState)
      → n ≤ m
      → DrawnIn low n state
      → DrawnIn low m state
  DrawnIn-later low n m none le h = tt
  DrawnIn-later low n m (some state) le (i, own, above, below) = (i, own, above, omega arith)

  pub ensure-drawn :
      (s : AgentDrawerStore) (b : ChannelBinding)
      → s.drawn ≤ (Store.ensure_state serialize uuid s b).0.drawn
  unfolding Store.ensure_state
  ensure-drawn s b = elim (Option-cases (Map.get (key b) s.states)) [
    | inl e ↦ rw (e, Store.ensure_state) (omega arith)
    | inr (state, e) ↦ rw (e, Store.ensure_state) (omega arith)
  ]

  ensured :
      (s : AgentDrawerStore) (b : ChannelBinding)
      → Map.get (key b) (Store.ensure_state serialize uuid s b).0.states
        ≡ some (Store.ensure_state serialize uuid s b).1
  unfolding Store.ensure_state
  ensured s b = elim (Option-cases (Map.get (key b) s.states)) [
    | inl e ↦ rw (e, Store.ensure_state) (Map.get-set_self (key b) _ s.states)
    | inr (state, e) ↦ rw (e, Store.ensure_state) e
  ]

  -- A state that is put under a key, with the ids drawn so far.
  set-IsFresh :
      (j k : Text) (low base top : ℕ) (state : AgentDrawerChannelState) (s : AgentDrawerStore)
      → IsFresh j low base s
      → s.drawn ≤ top
      → (j ≡ k → DrawnIn low top (some state))
      → IsFresh j low base (record s { states = Map.set k state s.states; drawn = top })
  set-IsFresh j k low base top state s (le, grown, h) later own = (
    le,
    omega arith,
    subst (DrawnIn low top) (sym (Map.get-set k j state s.states))
        (elim (Bool-cases (text_eq k j)) [
          | inl e ↦ rw e (own (sym ((text_eq_iff k j).0 e)))
          | inr e ↦ rw e (DrawnIn-later low s.drawn top (Map.get j s.states) later h)
        ]),
  )

  ensure-IsFresh :
      (j : Text) (low base : ℕ) (s : AgentDrawerStore) (b : ChannelBinding)
      → IsFresh j low base s
      → IsFresh j low base (Store.ensure_state serialize uuid s b).0
  unfolding Store.ensure_state
  ensure-IsFresh j low base s b h = elim (Option-cases (Map.get (key b) s.states)) [
    | inl e ↦
        rw (e, Store.ensure_state)
          (set-IsFresh j (key b) low base (s.drawn + 1) _ s h (omega arith)
            (λ same. (s.drawn, refl, omega (arith, h.0, h.1), omega arith)))
    | inr (state, e) ↦ rw (e, Store.ensure_state) h
  ]

  -- The state of a binding whose key is `j`.
  pub ensured-DrawnIn :
      (j : Text) (low base : ℕ) (s : AgentDrawerStore) (b : ChannelBinding)
      → IsFresh j low base s
      → j ≡ key b
      → DrawnIn low
          (Store.ensure_state serialize uuid s b).0.drawn
          (some (Store.ensure_state serialize uuid s b).1)
  ensured-DrawnIn j low base s b h same =
      let next = Store.ensure_state serialize uuid s b in
      subst (DrawnIn low next.0.drawn) (ap (λ k. Map.get k next.0.states) same ∙ ensured s b)
        ((ensure-IsFresh j low base s b h).2)

  assign-IsFresh :
      (change : AgentDrawerChannelState → AgentDrawerChannelState)
      → ((x : AgentDrawerChannelState)
          → (change x).draft.creation_idempotency_key ≡ x.draft.creation_idempotency_key)
      → (j : Text) (low base : ℕ) (s : AgentDrawerStore) (b : ChannelBinding) → IsFresh j low base s
      → IsFresh j low base (Store.assign serialize uuid change s b)
  unfolding Store.assign
  assign-IsFresh change keeps j low base s b h =
      let next = Store.ensure_state serialize uuid s b in
      set-IsFresh j (key b) low base next.0.drawn (change next.1) next.0
        (ensure-IsFresh j low base s b h) (omega arith)
        (λ same.
          let (n, own, above, below) = ensured-DrawnIn j low base s b h same in
          (n, keeps next.1 ∙ own, above, below))

  pub begin-IsFresh :
      (j : Text) (low base : ℕ) (s : AgentDrawerStore) (b : ChannelBinding)
      → IsFresh j low base s
      → IsFresh j low base (Store.begin_creation serialize uuid s b).0
  unfolding Store.begin_creation
  begin-IsFresh j low base s b h =
      let state = (Store.ensure_state serialize uuid s b).1 in
      elim (Bool-cases
        (not (Store.is_preparing state.phase) || not (Store.is_truthy state.draft.runtime_id))) [
          | inl e ↦ rw e (ensure-IsFresh j low base s b h)
          | inr e ↦ rw e (assign-IsFresh (Store.set_phase creating) (λ x. refl) j low base s b h)
        ]

  complete-IsFresh :
      (j : Text) (low base : ℕ) (s : AgentDrawerStore) (b : ChannelBinding) (k id : Text)
      → IsFresh j low base s
      → IsFresh j low base (Store.complete_creation serialize uuid s b k id).0
  unfolding Store.complete_creation
  complete-IsFresh j low base s b k id h =
      elim (Bool-cases (not (Store.awaits (Store.ensure_state serialize uuid s b).1 k))) [
        | inl e ↦ rw e (ensure-IsFresh j low base s b h)
        | inr e ↦ rw e (assign-IsFresh (Store.selected id) (λ x. refl) j low base s b h)
      ]

  failed_key :
      (k : Text) (x : AgentDrawerChannelState)
      → (if Store.awaits x k then Store.set_phase preparing x else x).draft.creation_idempotency_key
        ≡ x.draft.creation_idempotency_key
  failed_key k x = elim (Bool-cases (Store.awaits x k)) [ inl e ↦ rw e refl | inr e ↦ rw e refl ]

  prepared_key :
      (r : Option Text) (x : AgentDrawerChannelState)
      → (Store.prepared r x).draft.creation_idempotency_key ≡ x.draft.creation_idempotency_key
  prepared_key r x = elim (Bool-cases (Store.is_truthy r)) [ inl e ↦ rw e refl | inr e ↦ rw e refl ]

  cancel-IsFresh :
      (j : Text) (low base : ℕ) (s : AgentDrawerStore) (b : ChannelBinding)
      → IsFresh j low base s
      → IsFresh j low base (Store.cancel_draft serialize uuid s b)
  unfolding Store.cancel_draft Store.assign
  cancel-IsFresh j low base s b h =
      let next = Store.ensure_state serialize uuid s b in
      let fresh = ensure-IsFresh j low base s b h in
      set-IsFresh j (key b) low base (next.0.drawn + 1) _ next.0 fresh (omega arith)
        (λ same. (next.0.drawn, refl, omega (arith, fresh.0, fresh.1), omega arith))

  clear-IsFresh :
      (j : Text) (low base : ℕ) (s : AgentDrawerStore) (b : ChannelBinding)
      → IsFresh j low base s
      → IsFresh j low base (Store.clear_binding serialize uuid s b)
  unfolding Store.clear_binding
  clear-IsFresh j low base s b (le, grown, h) = (
    le,
    grown,
    subst (DrawnIn low s.drawn) (sym (Map.get-delete (key b) j s.states))
        (elim (Bool-cases (text_eq (key b) j)) [ inl e ↦ rw e tt | inr e ↦ rw e h ]),
  )

  activate-IsFresh :
      (j : Text) (low base : ℕ) (s : AgentDrawerStore) (b : Option ChannelBinding)
      → IsFresh j low base s
      → IsFresh j low base (Store.activate_binding serialize uuid s b)
  unfolding Store.activate_binding
  activate-IsFresh j low base s none h = h
  activate-IsFresh j low base s (some b) h =
      ensure-IsFresh j low base (record s { active_key = some (key b) }) b h

  step-IsFresh :
      (j : Text) (low base : ℕ) (s : AgentDrawerStore) (a : Action)
      → IsFresh j low base s
      → IsFresh j low base (Store.step serialize uuid s a)
  unfolding Store.step Store.prepare Store.creation_failed Store.select_conversation Store.back
      Store.set_list_mode Store.set_query Store.set_scroll_offset Store.update_draft
      Store.stage_source Store.remove_source Store.consume_accepted_input Map.get
  step-IsFresh j low base s (activates b) h = activate-IsFresh j low base s b h
  step-IsFresh j low base s (prepares b r) h =
      assign-IsFresh (Store.prepared r) (prepared_key r) j low base s b h
  step-IsFresh j low base s (begins b) h = begin-IsFresh j low base s b h
  step-IsFresh j low base s (completes b k id) h = complete-IsFresh j low base s b k id h
  step-IsFresh j low base s (fails b k) h = assign-IsFresh _ (failed_key k) j low base s b h
  step-IsFresh j low base s (selects b id) h = assign-IsFresh _ (λ x. refl) j low base s b h
  step-IsFresh j low base s (goes_back b) h = assign-IsFresh _ (λ x. refl) j low base s b h
  step-IsFresh j low base s (lists b mode) h = assign-IsFresh _ (λ x. refl) j low base s b h
  step-IsFresh j low base s (queries b query) h = assign-IsFresh _ (λ x. refl) j low base s b h
  step-IsFresh j low base s (scrolls b offset) h = assign-IsFresh _ (λ x. refl) j low base s b h
  step-IsFresh j low base s (updates b patch) h = assign-IsFresh _ (λ x. refl) j low base s b h
  step-IsFresh j low base s (stages b source) h = assign-IsFresh _ (λ x. refl) j low base s b h
  step-IsFresh j low base s (unstages b id) h = assign-IsFresh _ (λ x. refl) j low base s b h
  step-IsFresh j low base s (consumes b) h = assign-IsFresh _ (λ x. refl) j low base s b h
  step-IsFresh j low base s (cancels b) h = cancel-IsFresh j low base s b h
  step-IsFresh j low base s (clears b) h = clear-IsFresh j low base s b h
  step-IsFresh j low base s disposes (le, grown, h) = (le, grown, tt)

  pub run-IsFresh :
      (j : Text) (low base : ℕ) (s : AgentDrawerStore) (actions : List Action)
      → IsFresh j low base s
      → IsFresh j low base (Store.run serialize uuid s actions)
  unfolding Store.run
  run-IsFresh j low base s [] h = h
  run-IsFresh j low base s (a ∷ actions) h =
      run-IsFresh j low base (Store.step serialize uuid s a) actions (step-IsFresh j low base s a h)

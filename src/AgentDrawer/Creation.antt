-- ===== src/AgentDrawer/Creation.antt =====
-- agentDrawerStore.ts: the creation of a conversation from a draft, and the sources staged for it.
use tea_desktop.Base.{
  ℕ, suc, ◌-◌, ◌≤◌, ◌≡◌, refl, ap, ◌∙◌, subst, Bool, true, not, ◌||◌, List, [], ◌∷◌, ◌++◌, Option,
  none, some, if◌then◌else◌, length, ltb, any, drop, arith, Bool-cases, inl, inr, length-append,
}
use Prim.Native.Nat.{zero}
use tea_desktop.Base.Map
use tea_desktop.Base.Text.{Text, text_eq, text_eq_refl}
use tea_desktop.AgentDrawer.Store.{
  AgentDrawerPhase, index, preparing, creating, active, AgentDrawerStore, AgentDrawerChannelState,
  AgentDrawerDraft, ChannelBinding, ChannelSourceInput, DraftPatch, AgentSessionListMode, ℤ, Action,
  activates, prepares, begins, completes, fails, selects, goes_back, lists, queries, scrolls,
  updates, stages, unstages, consumes, cancels, clears, disposes, keep_last, staged, max_sources,
  same_source,
}
use tea_desktop.AgentDrawer.Store as Store
use tea_desktop.AgentDrawer.Phases.{length-staged}

module _ (serialize : Text → Text → Text → Text) (uuid : ℕ → Text) where
  abbrev key : ChannelBinding → Text
  key binding = Store.serialize_channel_binding serialize uuid binding

  ensure-found :
      (s : AgentDrawerStore) (b : ChannelBinding) (state : AgentDrawerChannelState)
      → Map.get (key b) s.states ≡ some state
      → Store.ensure_state serialize uuid s b ≡ (s, state)
  unfolding Store.ensure_state
  ensure-found s b state e = rw (e, Store.ensure_state) refl

  assigned :
      (change : AgentDrawerChannelState → AgentDrawerChannelState)
      → (s : AgentDrawerStore) (b : ChannelBinding)
      → Map.get (key b) (Store.assign serialize uuid change s b).states
        ≡ some (change (Store.ensure_state serialize uuid s b).1)
  unfolding Store.assign
  assigned change s b =
      Map.get-set_self (key b) (change (Store.ensure_state serialize uuid s b).1)
        (Store.ensure_state serialize uuid s b).0.states

  -- What the drawer of the binding holds.
  abbrev pub Holds : AgentDrawerStore → ChannelBinding → AgentDrawerChannelState → Type 0
  Holds s b state = Map.get (Store.serialize_channel_binding serialize uuid b) s.states ≡ some state

  complete_creation_lem :
      (s : AgentDrawerStore) (b : ChannelBinding) (state : AgentDrawerChannelState) (k id : Text)
      → Holds s b state
      → ((Store.complete_creation serialize uuid s b k id).1 ≡ Store.awaits state k)
        × Holds
            (Store.complete_creation serialize uuid s b k id).0
            b
            (if Store.awaits state k then Store.selected id state else state)
  unfolding Store.complete_creation
  complete_creation_lem s b state k id h =
      let e = ensure-found s b state h in
      elim (Bool-cases (Store.awaits state k)) [
        | inl w ↦
            rw (e, w)
              (refl, assigned (Store.selected id) s b ∙ ap (λ x. some (Store.selected id x.1)) e)
        | inr w ↦ rw (e, w) (refl, h)
      ]

  begin_creation_lem :
      (s c : AgentDrawerStore) (b : ChannelBinding) (k : Text)
      → Store.begin_creation serialize uuid s b ≡ (c, some k)
      → (state : AgentDrawerChannelState) × Holds c b state
        × (state.phase ≡ creating)
        × (state.draft.creation_idempotency_key ≡ k)
  unfolding Store.begin_creation
  begin_creation_lem s c b k h =
      let state = (Store.ensure_state serialize uuid s b).1 in
      elim (Bool-cases
        (not (Store.is_preparing state.phase) || not (Store.is_truthy state.draft.runtime_id))) [
          | inl e ↦ absurd (ground arith)
          | inr e ↦ (
            Store.set_phase creating state,
            subst (λ x. Holds x b (Store.set_phase creating state)) (ap (λ x. x.0) (rw e at h))
                (assigned (Store.set_phase creating) s b),
            refl,
            ground arith,
          )
        ]

  -- After `beginCreation` handed out a key, `completeCreation` succeeds with that key and with no
  -- other. When it succeeds the drawer is `active` and shows the new conversation, and when it does
  -- not, it goes on waiting.
  pub begin_creation-complete_creation :
      (s c : AgentDrawerStore) (b : ChannelBinding) (k other id : Text)
      → Store.begin_creation serialize uuid s b ≡ (c, some k)
      → (state : AgentDrawerChannelState) × (state.phase ≡ creating)
        × ((Store.complete_creation serialize uuid c b other id).1 ≡ text_eq k other)
        × Holds
            (Store.complete_creation serialize uuid c b other id).0
            b
            (if text_eq k other then Store.selected id state else state)
  begin_creation-complete_creation s c b k other id h =
      let (state, held, phase, own) = begin_creation_lem s c b k h in
      let w : Store.awaits state other ≡ text_eq k other = rw (phase, own) refl in
      let (answer, next) = complete_creation_lem c b state other id held in
      (
        state,
        phase,
        answer ∙ w,
        subst
            (λ t.
              Holds (Store.complete_creation serialize uuid c b other id).0 b
                (if t then Store.selected id state else state))
            w next,
      )

agrees_refl : (id : Option Text) → Store.server_id_agrees id id ≡ true
agrees_refl none = refl
agrees_refl (some t) = text_eq_refl t

same_source_refl : (x : ChannelSourceInput) → same_source x x ≡ true
unfolding same_source
same_source_refl x =
    rw
      (
        text_eq_refl x.message_ref.channel_ref,
        text_eq_refl x.message_ref.message_client_id,
        agrees_refl x.message_ref.message_server_id,
      )
      refl

any-last :
    (p : ChannelSourceInput → Bool) (n : ℕ) (xs : List ChannelSourceInput) (x : ChannelSourceInput)
    → n ≤ length xs
    → p x ≡ true
    → any p (drop n (xs ++ (x ∷ []))) ≡ true
any-last p zero [] x le h = rw h refl
any-last p zero (y ∷ xs) x le h = ground (arith, any-last p 0 xs x)
any-last p (suc n) [] x le h = absurd (omega (arith, le))
any-last p (suc n) (y ∷ xs) x le h = any-last p n xs x (omega (arith, le)) h

staged_present :
    (source : ChannelSourceInput) (sources : List ChannelSourceInput)
    → any (λ value. same_source value source) sources ≡ true
    → length sources ≤ max_sources
    → staged source sources ≡ sources
unfolding staged keep_last
staged_present source sources e h = rw (e, staged) (ground arith)

any-keep_last :
    (p : ChannelSourceInput → Bool) (xs : List ChannelSourceInput) (x : ChannelSourceInput)
    → p x ≡ true
    → any p (keep_last (xs ++ (x ∷ []))) ≡ true
unfolding keep_last
any-keep_last p xs x h = elim (Bool-cases (ltb max_sources (length (xs ++ (x ∷ []))))) [
  | inl e ↦ rw e (
      any-last p (length (xs ++ (x ∷ [])) - max_sources) xs x
        (omega (arith, length-append xs (x ∷ []))) h)
  | inr e ↦ rw e (any-last p 0 xs x (omega arith) h)
]

any-staged :
    (source : ChannelSourceInput) (sources : List ChannelSourceInput)
    → length sources ≤ max_sources
    → any (λ value. same_source value source) (staged source sources) ≡ true
unfolding staged
any-staged source sources h = elim (Bool-cases (any (λ value. same_source value source) sources)) [
  | inl e ↦ ap (any (λ value. same_source value source)) (staged_present source sources e h) ∙ e
  | inr e ↦
      rw (e, staged)
        (any-keep_last (λ value. same_source value source) sources source (same_source_refl source))
]

-- Staging a source again changes nothing, and at most 20 sources are staged; when there are that
-- many, a new source still gets in.
pub staged-staged :
    (source : ChannelSourceInput) (sources : List ChannelSourceInput)
    → length sources ≤ max_sources
    → (staged source (staged source sources) ≡ staged source sources)
      × (length (staged source sources) ≤ max_sources)
      × (any (λ value. same_source value source) (staged source sources) ≡ true)
staged-staged source sources h =
    let inside = any-staged source sources h in
    let short = length-staged source sources in
    (staged_present source (staged source sources) inside short, short, inside)

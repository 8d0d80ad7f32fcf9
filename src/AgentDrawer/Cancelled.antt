-- ===== src/AgentDrawer/Cancelled.antt =====
-- agentDrawerStore.ts: the creation keys that a cancelled draft leaves behind.
use tea_desktop.Base.{
  ℕ, ◌<◌, ◌≡◌, refl, sym, ap, ◌∙◌, subst, true, false, not, ◌||◌, List, some, arith, Bool-cases,
  inl, inr,
}
use tea_desktop.Base.Map
use tea_desktop.Base.Text.{Text, text_eq, text_eq_iff}
use tea_desktop.AgentDrawer.Store.{
  AgentDrawerStore, AgentDrawerChannelState, AgentDrawerDraft, ChannelBinding, Action, new_store,
}
use tea_desktop.AgentDrawer.Store as Store
use tea_desktop.AgentDrawer.Keys.{
  key, IsFresh, ensured-DrawnIn, run-IsFresh, begin-IsFresh, ensure-drawn,
}

module _ (serialize : Text → Text → Text → Text) (uuid : ℕ → Text) where
  -- The new draft's key is drawn after all others.
  cancelled-IsFresh :
      (s : AgentDrawerStore) (b : ChannelBinding)
      → IsFresh serialize uuid
          (key serialize uuid b)
          s.drawn
          s.drawn
          (Store.cancel_draft serialize uuid s b)
  unfolding Store.cancel_draft Store.assign
  cancelled-IsFresh s b =
      let next = Store.ensure_state serialize uuid s b in
      let later = ensure-drawn serialize uuid s b in
      (
        omega arith,
        omega (arith, later),
        rw (Map.get-set_self (key serialize uuid b) _ _) (next.0.drawn, refl, later, omega arith),
      )

  -- A key that was drawn before all the keys that the binding may have completes nothing.
  old_key_refused :
      ((n m : ℕ) → uuid n ≡ uuid m → n ≡ m)
      → (s : AgentDrawerStore) (b : ChannelBinding) (m low base : ℕ) (id : Text)
      → IsFresh serialize uuid (key serialize uuid b) low base s
      → m < low
      → Store.complete_creation serialize uuid s b (uuid m) id
        ≡ ((Store.ensure_state serialize uuid s b).0, false)
  unfolding Store.complete_creation
  old_key_refused distinct s b m low base id h older =
      let state = (Store.ensure_state serialize uuid s b).1 in
      let (n, own, above, below) =
        ensured-DrawnIn serialize uuid (key serialize uuid b) low base s b h refl in
      elim (Bool-cases (text_eq state.draft.creation_idempotency_key (uuid m))) [
        | inl e ↦
            let same : n ≡ m = distinct n m (sym own ∙ (text_eq_iff _ (uuid m)).0 e) in
            absurd (omega (arith, same, above, older))
        | inr e ↦
            let refused : not (Store.awaits state (uuid m)) ≡ true = ground arith in rw refused refl
      ]

  -- The key that `beginCreation` hands out was drawn before.
  begin_creation-drawn :
      (s c : AgentDrawerStore) (b : ChannelBinding) (k : Text)
      → IsFresh serialize uuid (key serialize uuid b) 0 0 s
      → Store.begin_creation serialize uuid s b ≡ (c, some k)
      → (m : ℕ) × (k ≡ uuid m) × (m < c.drawn)
  unfolding Store.begin_creation Store.assign
  begin_creation-drawn s c b k h e =
      let next = Store.ensure_state serialize uuid s b in
      let (n, own, above, below) =
        ensured-DrawnIn serialize uuid (key serialize uuid b) 0 0 s b h refl in
      elim (Bool-cases
        (not (Store.is_preparing next.1.phase) || not (Store.is_truthy next.1.draft.runtime_id))) [
          | inl f ↦ absurd (ground arith)
          | inr f ↦ (
            n,
            ground arith,
            subst (λ (x : AgentDrawerStore). n < x.drawn) (ap (λ x. x.0) (rw f at e)) below,
          )
        ]

  -- Let the ids that are drawn be distinct. Once a channel's draft was cancelled, no creation key
  -- that was handed out for the channel before completes a creation, whatever was done from the
  -- empty store to the key, from the key to the cancelling, and after it: the completion is refused,
  -- and changes nothing but to make the channel's state where it has none.
  pub cancelled_key_refused :
      ((n m : ℕ) → uuid n ≡ uuid m → n ≡ m)
      → (before between after : List Action) (b : ChannelBinding) (c : AgentDrawerStore)
      → (k id : Text)
      → Store.begin_creation serialize uuid (Store.run serialize uuid new_store before) b
        ≡ (c, some k)
      → Store.complete_creation serialize uuid
          (Store.run serialize uuid
            (Store.cancel_draft serialize uuid (Store.run serialize uuid c between) b)
            after)
          b
          k
          id
        ≡ (
          (Store.ensure_state serialize uuid
              (Store.run serialize uuid
                (Store.cancel_draft serialize uuid (Store.run serialize uuid c between) b)
                after)
              b).0,
          false,
        )
  unfolding Map.get
  cancelled_key_refused distinct before between after b c k id e =
      let start =
        run-IsFresh serialize uuid (key serialize uuid b) 0 0 new_store before
          (omega arith, omega arith, tt) in
      let (m, drawn, below) =
        begin_creation-drawn (Store.run serialize uuid new_store before) c b k start e in
      let begun = subst (IsFresh serialize uuid (key serialize uuid b) 0 0) (ap (λ x. x.0) e) (
        begin-IsFresh serialize uuid (key serialize uuid b) 0 0
          (Store.run serialize uuid new_store before) b start) in
      let s = Store.run serialize uuid c between in
      let later =
        run-IsFresh serialize uuid (key serialize uuid b) 0 c.drawn c between
          (omega arith, omega arith, begun.2) in
      let fresh =
        run-IsFresh serialize uuid (key serialize uuid b) s.drawn s.drawn
          (Store.cancel_draft serialize uuid s b) after (cancelled-IsFresh s b) in
      rw drawn
        (old_key_refused distinct _ b m s.drawn s.drawn id fresh (omega (arith, below, later.1)))

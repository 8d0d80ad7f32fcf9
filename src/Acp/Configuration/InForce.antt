-- ===== src/Acp/Configuration/InForce.antt =====
-- sessionConfiguration.ts: the model and the mode in force after `apply`.
use tea_desktop.Base.{
  ℕ, ◌≡◌, ◌≢◌, refl, sym, ap, ◌∙◌, subst, true, false, List, [], ◌∷◌, Option, none, some, Result,
  ok, arith, Bool-cases, Option-cases, inl, inr,
}
use tea_desktop.Base.Map
use tea_desktop.Base.Text.{Text, codes, text_eq, text_eq_iff}
use tea_desktop.Conversation.{PermissionMode}
use tea_desktop.Conversation.Values.{Json}
use tea_desktop.Acp.Options.{ConfigurationError, ModeState}
use tea_desktop.Acp.Configuration.{
  AcpSessionConfigurationDefinition, SelectOptionState, Configuration, Pending, model_requested,
  with_mode, with_value, set_value, current_mode_id, set_current_mode, request_mode, apply_mode,
  requested_model, apply, answered, continue_apply,
}
use tea_desktop.Acp.Configuration.Offers.{
  current_in, IsKeyed, AreKeyed, set_value_hit, set_value_miss, get-set_value, get-set_value_self,
  write_option_now, IsOffered, require_offered, OffersMode, OffersModel, HasModel, settle,
  request_same, request_session, request_option, HoldsIn, current_session, current_option,
  available_session, available_option,
}

module _ (definition : AcpSessionConfigurationDefinition) (wire_version : ℕ) where
  module _ (distinct : definition.mode_config_id ≢ definition.model_config_id)
      (rest : List (Option Json)) where
    session_mode-Holds :
        (c : Configuration) (modes : ModeState) (mode_id : Text)
        → c.modes ≡ some modes
        → wire_version ≡ 1
        → HoldsIn definition wire_version c mode_id (
            settle definition wire_version c
              (request_mode definition wire_version c modes.current_mode_id mode_id)
              (none ∷ rest))
    unfolding settle continue_apply set_current_mode
    session_mode-Holds c modes mode_id e one =
        elim (Bool-cases (text_eq modes.current_mode_id mode_id)) [
          | inl f ↦
              let same = (text_eq_iff modes.current_mode_id mode_id).0 f in
              rw (request_same definition wire_version c modes.current_mode_id mode_id same)
                (record {
                  ended = refl;
                  mode = current_session definition wire_version c modes e ∙ ap ok same;
                  model = refl;
                })
          | inr f ↦
              let d = set_current_mode definition wire_version c mode_id in
              rw (request_session definition wire_version c modes mode_id e one f) (record {
                ended = refl;
                mode =
                    current_session definition wire_version d
                      (record modes { current_mode_id = mode_id }) (ap (with_mode mode_id) e);
                model = ap current_in (
                    get-set_value definition.mode_config_id definition.model_config_id mode_id
                      c.options distinct);
              })
        ]

    option_mode-Holds :
        (c : Configuration) (mode_id : Text)
        → (o : IsOffered c definition.mode_config_id (codes "mode") mode_id) → c.modes ≡ none
        → o.option.id ≡ definition.mode_config_id
        → HoldsIn definition wire_version c mode_id (
            settle definition wire_version c
              (request_mode definition wire_version c o.option.current_value mode_id)
              (none ∷ rest))
    unfolding settle continue_apply answered
    option_mode-Holds c mode_id o e keyed =
        elim (Bool-cases (text_eq o.option.current_value mode_id)) [
          | inl f ↦
              let same = (text_eq_iff o.option.current_value mode_id).0 f in
              rw (request_same definition wire_version c o.option.current_value mode_id same)
                (record {
                  ended = refl;
                  mode = current_option definition wire_version c mode_id o e ∙ ap ok same;
                  model = refl;
                })
          | inr f ↦
              let d = record c {
                options = set_value definition.mode_config_id mode_id c.options;
              } in
              let now : IsOffered d definition.mode_config_id (codes "mode") mode_id = record {
                option = with_value mode_id o.option;
                found =
                    get-set_value_self definition.mode_config_id mode_id c.options o.option o.found;
                fits = o.fits;
                has = o.has;
              } in
              rw
                (
                  request_option definition wire_version c mode_id o e f,
                  write_option_now c o.option.id mode_id,
                  keyed,
                )
                (record {
                  ended = refl;
                  mode = current_option definition wire_version d mode_id now e;
                  model = ap current_in (
                      get-set_value definition.mode_config_id definition.model_config_id mode_id
                        c.options distinct);
                })
        ]

    apply_mode-Holds :
        (c : Configuration) (mode : PermissionMode)
        → AreKeyed c.options
        → OffersMode definition wire_version c (definition.permission_mode_ids mode) c.modes
        → HoldsIn definition wire_version c (definition.permission_mode_ids mode) (
            settle definition wire_version c
              (apply_mode definition wire_version c mode)
              (none ∷ rest))
    unfolding apply_mode
    apply_mode-Holds c mode keyed offers = elim (Option-cases c.modes) [
      | inr (modes, e) ↦
          let has =
            subst (OffersMode definition wire_version c (definition.permission_mode_ids mode)) e
              offers in
          rw
            (
              available_session definition wire_version c modes e,
              current_session definition wire_version c modes e,
              has.1,
            )
            (session_mode-Holds c modes (definition.permission_mode_ids mode) e has.0)
      | inl e ↦
          let o =
            subst (OffersMode definition wire_version c (definition.permission_mode_ids mode)) e
              offers in
          let own =
            Map.All-get IsKeyed definition.mode_config_id o.option c.options o.found keyed in
          rw
            (
              available_option definition wire_version c (definition.permission_mode_ids mode) o e,
              current_option definition wire_version c (definition.permission_mode_ids mode) o e,
              o.has,
            )
            (option_mode-Holds c (definition.permission_mode_ids mode) o e own)
    ]

  -- What was asked for is in force.
  pub record IsInForce (c : Configuration) (model : Option Text) (mode_id : Text) : Type 0 where
    pub mode_set : current_mode_id definition wire_version c ≡ ok mode_id
    pub model_set : HasModel definition wire_version c model

  abbrev pub EndsInForce :
      Option Text → Text → Configuration × Result ConfigurationError (Option Pending) → Type 0
  EndsInForce model mode_id out = (out.1 ≡ ok none) × IsInForce out.0 model mode_id

  -- The model does not stand in the way of the mode.
  set_model-OffersMode :
      (c : Configuration) (id value mode_id : Text)
      → id ≢ definition.mode_config_id
      → OffersMode definition wire_version c mode_id c.modes
      → OffersMode definition wire_version
          (record c { options = set_value id value c.options })
          mode_id
          c.modes
  set_model-OffersMode c id value mode_id ne offers = elim (Option-cases c.modes) [
    | inr (modes, e) ↦ rw e (subst (OffersMode definition wire_version c mode_id) e offers)
    | inl e ↦
        let o = subst (OffersMode definition wire_version c mode_id) e offers in
        rw e (record {
          option = o.option;
          found = get-set_value id definition.mode_config_id value c.options ne ∙ o.found;
          fits = o.fits;
          has = o.has;
        })
  ]

  set_value-AreKeyed :
      (id value : Text) (options : List (Text × SelectOptionState))
      → AreKeyed options
      → AreKeyed (set_value id value options)
  set_value-AreKeyed id value options keyed = elim (Option-cases (Map.get id options)) [
    | inl e ↦ rw (set_value_miss id value options e) keyed
    | inr (o, e) ↦ rw (set_value_hit id value options o e) (
        Map.All-set IsKeyed id (with_value value o) options keyed
          (Map.All-get IsKeyed id o options e keyed))
  ]

  pub apply_default :
      (c : Configuration) (model : Text) (mode : PermissionMode)
      → requested_model definition wire_version model ≡ none
      → apply definition wire_version c model mode ≡ apply_mode definition wire_version c mode
  unfolding apply
  apply_default c model mode e = ground arith

  apply_held :
      (c : Configuration) (model m : Text) (mode : PermissionMode)
      → requested_model definition wire_version model ≡ some m
      → (o : IsOffered c definition.model_config_id (codes "model") m)
      → text_eq o.option.current_value m ≡ true
      → apply definition wire_version c model mode ≡ apply_mode definition wire_version c mode
  unfolding apply
  apply_held c model m mode e o f =
      ground (arith, require_offered c definition.model_config_id (codes "model") m o, o.has)

  apply_asks :
      (c : Configuration) (model m : Text) (mode : PermissionMode)
      → requested_model definition wire_version model ≡ some m
      → (o : IsOffered c definition.model_config_id (codes "model") m)
      → text_eq o.option.current_value m ≡ false
      → apply definition wire_version c model mode
        ≡ ok (
            some
              (model_requested (record { id = o.option.id; replacements = c.replacements }) m mode))
  unfolding apply
  apply_asks c model m mode e o f =
      ground (arith, require_offered c definition.model_config_id (codes "model") m o, o.has)

  settle_model :
      (c : Configuration) (id m : Text) (mode : PermissionMode) (rest : List (Option Json))
      → settle definition wire_version c
          (ok (some (model_requested (record { id = id; replacements = c.replacements }) m mode)))
          (none ∷ rest)
        ≡ settle definition wire_version
            (record c { options = set_value id m c.options })
            (apply_mode definition wire_version
              (record c { options = set_value id m c.options })
              mode)
            rest
  unfolding settle continue_apply answered
  settle_model c id m mode rest =
      ap
        (λ (d : Configuration).
          settle definition wire_version d (apply_mode definition wire_version d mode) rest)
        (write_option_now c id m)

  module _ (distinct : definition.mode_config_id ≢ definition.model_config_id) (c : Configuration)
      (mode : PermissionMode) (keyed : AreKeyed c.options)
      (offers : OffersMode definition wire_version c
        (definition.permission_mode_ids mode)
        c.modes) where
    -- The model's request, with the model at hand.
    model_stage :
        (model m : Text)
        → requested_model definition wire_version model ≡ some m
        → IsOffered c definition.model_config_id (codes "model") m
        → EndsInForce (some m) (definition.permission_mode_ids mode) (
            settle definition wire_version c
              (apply definition wire_version c model mode)
              (none ∷ none ∷ []))
    model_stage model m e o = elim (Bool-cases (text_eq o.option.current_value m)) [
      | inl f ↦
          let h = apply_mode-Holds distinct (none ∷ []) c mode keyed offers in
          rw (apply_held c model m mode e o f) (
            h.ended,
            record {
              mode_set = h.mode;
              model_set =
                  h.model
                  ∙ ap current_in o.found
                  ∙ ap some ((text_eq_iff o.option.current_value m).0 f);
            },
          )
      | inr f ↦
          let own =
            Map.All-get IsKeyed definition.model_config_id o.option c.options o.found keyed in
          let d = record c { options = set_value definition.model_config_id m c.options } in
          let h =
            apply_mode-Holds distinct [] d mode
              (set_value-AreKeyed definition.model_config_id m c.options keyed)
              (set_model-OffersMode c definition.model_config_id m
                (definition.permission_mode_ids mode) (λ p. distinct (sym p)) offers) in
          rw (apply_asks c model m mode e o f, settle_model c o.option.id m mode (none ∷ []), own)
            (
              h.ended,
              record {
                mode_set = h.mode;
                model_set =
                    h.model
                    ∙ ap current_in (
                        get-set_value_self definition.model_config_id m c.options o.option o.found);
              },
            )
    ]

    -- When the agent offers the model and the mode that are asked for, the mode in a way that its
    -- protocol version has, two answers are enough: if they bring no new options and nothing comes in
    -- between, `apply` ends without an error, and that model and that mode are in force. The two have
    -- different options, and each option stands under its own id.
    pub apply-EndsInForce :
        (model : Text)
        → OffersModel definition wire_version c (requested_model definition wire_version model)
        → EndsInForce
            (requested_model definition wire_version model)
            (definition.permission_mode_ids mode)
            (settle definition wire_version c
              (apply definition wire_version c model mode)
              (none ∷ none ∷ []))
    apply-EndsInForce model o =
        elim (Option-cases (requested_model definition wire_version model)) [
          | inl e ↦
              let h = apply_mode-Holds distinct (none ∷ []) c mode keyed offers in
              rw (apply_default c model mode e)
                (h.ended, record { mode_set = h.mode; model_set = rw e tt })
          | inr (m, e) ↦
              let r = model_stage model m e (subst (OffersModel definition wire_version c) e o) in
              (r.0, record { mode_set = r.1.mode_set; model_set = rw e r.1.model_set })
        ]

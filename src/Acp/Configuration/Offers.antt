-- ===== src/Acp/Configuration/Offers.antt =====
-- sessionConfiguration.ts: the models and modes that can be asked for, and the requests for them.
use tea_desktop.Base.{
  ℕ, ◌≡◌, ◌≢◌, refl, ap, ◌∙◌, Bool, true, false, List, ◌∷◌, Option, none, some, if◌then◌else◌,
  Result, ok, arith, All, Option-cases, inl, inr,
}
use tea_desktop.Base.Map
use tea_desktop.Base.Text.{Text, codes, text_eq, text_eq_refl, text_ne}
use tea_desktop.Base.TextSet
use tea_desktop.Conversation.Values.{Json}
use tea_desktop.Acp.Options.{ConfigurationError, ModeState}
use tea_desktop.Acp.Configuration.{
  AcpSessionConfigurationDefinition, SelectOptionState, Configuration, Pending, mode_requested,
  mode_option_requested, with_value, set_value, write_option, other_category, require_select_option,
  available_mode_ids, current_mode_id, request_mode, continue_apply,
}

abbrev pub current_in : Option SelectOptionState → Option Text
current_in none = none
current_in (some option) = some option.current_value

abbrev pub value_of : Text → Configuration → Option Text
value_of id c = current_in (Map.get id c.options)

-- An option stands under its own id.
abbrev pub IsKeyed : Text × SelectOptionState → Type 0
IsKeyed (k, option) = option.id ≡ k

abbrev pub AreKeyed : List (Text × SelectOptionState) → Type 0
AreKeyed = All IsKeyed

pub set_value_hit :
    (id value : Text) (options : List (Text × SelectOptionState)) (o : SelectOptionState)
    → Map.get id options ≡ some o
    → set_value id value options ≡ Map.set id (with_value value o) options
unfolding set_value
set_value_hit id value options o e = ground arith

pub set_value_miss :
    (id value : Text) (options : List (Text × SelectOptionState))
    → Map.get id options ≡ none
    → set_value id value options ≡ options
unfolding set_value
set_value_miss id value options e = ground arith

pub get-set_value :
    (id k value : Text) (options : List (Text × SelectOptionState))
    → id ≢ k
    → Map.get k (set_value id value options) ≡ Map.get k options
get-set_value id k value options ne = elim (Option-cases (Map.get id options)) [
  | inl e ↦ ap (Map.get k) (set_value_miss id value options e)
  | inr (o, e) ↦
      ap (Map.get k) (set_value_hit id value options o e)
      ∙ Map.get-set id k (with_value value o) options
      ∙ ap (λ (b : Bool). if b then some (with_value value o) else Map.get k options)
          (text_ne id k ne)
]

pub get-set_value_self :
    (id value : Text) (options : List (Text × SelectOptionState)) (o : SelectOptionState)
    → Map.get id options ≡ some o
    → Map.get id (set_value id value options) ≡ some (with_value value o)
get-set_value_self id value options o e =
    ap (Map.get id) (set_value_hit id value options o e)
    ∙ Map.get-set_self id (with_value value o) options

pub write_option_now :
    (c : Configuration) (id value : Text)
    → write_option c (record { id = id; replacements = c.replacements }) value
      ≡ record c { options = set_value id value c.options }
unfolding write_option
write_option_now c id value = ground arith

-- An option that can be used for a purpose and has a value.
pub record IsOffered (c : Configuration) (id category value : Text) : Type 0 where
  pub option : SelectOptionState
  pub found : Map.get id c.options ≡ some option
  pub fits : other_category option.category category ≡ false
  pub has : TextSet.contains value option.values ≡ true

pub require_offered :
    (c : Configuration) (id category value : Text) (o : IsOffered c id category value)
    → require_select_option c id category ≡ ok o.option
unfolding require_select_option
require_offered c id category value o = rw (o.found, o.fits) refl

module _ (definition : AcpSessionConfigurationDefinition) (wire_version : ℕ) where
  -- The mode is one of the session's modes, which version 1 alone has, or else of its mode option.
  abbrev pub OffersMode : Configuration → Text → Option ModeState → Type 0
  OffersMode c mode_id (some modes) =
      (wire_version ≡ 1) × (TextSet.contains mode_id modes.available_mode_ids ≡ true)
  OffersMode c mode_id none = IsOffered c definition.mode_config_id (codes "mode") mode_id

  abbrev pub OffersModel : Configuration → Option Text → Type 0
  OffersModel c none = Unit
  OffersModel c (some model) = IsOffered c definition.model_config_id (codes "model") model

  abbrev pub HasModel : Configuration → Option Text → Type 0
  HasModel c none = Unit
  HasModel c (some model) = value_of definition.model_config_id c ≡ some model

  -- The requests of an `apply` are answered in their order, and nothing comes in between.
  unfoldable pub settle :
      Configuration
      → Result ConfigurationError (Option Pending)
      → List (Option Json)
      → Configuration × Result ConfigurationError (Option Pending)
  settle c (ok (some pending)) (answer ∷ answers) =
      let next = continue_apply definition wire_version c pending answer in
      settle next.0 next.1 answers
  settle c r answers = (c, r)

  settle_done :
      (c : Configuration) (rest : List (Option Json)) → settle c (ok none) rest ≡ (c, ok none)
  unfolding settle
  settle_done c rest = refl

  pub request_same :
      (c : Configuration) (current mode_id : Text)
      → current ≡ mode_id
      → request_mode definition wire_version c current mode_id ≡ ok none
  unfolding request_mode
  request_same c current mode_id e = rw (e, text_eq_refl mode_id) refl

  pub request_session :
      (c : Configuration) (modes : ModeState) (mode_id : Text)
      → c.modes ≡ some modes
      → wire_version ≡ 1
      → text_eq modes.current_mode_id mode_id ≡ false
      → request_mode definition wire_version c modes.current_mode_id mode_id
        ≡ ok (some (mode_requested mode_id))
  unfolding request_mode
  request_session c modes mode_id e one f = ground arith

  pub request_option :
      (c : Configuration) (mode_id : Text)
      → (o : IsOffered c definition.mode_config_id (codes "mode") mode_id) → c.modes ≡ none
      → text_eq o.option.current_value mode_id ≡ false
      → request_mode definition wire_version c o.option.current_value mode_id
        ≡ ok (
            some (
              mode_option_requested
                (record { id = o.option.id; replacements = c.replacements })
                mode_id))
  unfolding request_mode
  request_option c mode_id o e f =
      ground (arith, require_offered c definition.mode_config_id (codes "mode") mode_id o)

  -- The mode is in force, and the model is what it was.
  pub record ModeHolds (c d : Configuration) (r : Result ConfigurationError (Option Pending))
      (mode_id : Text) : Type 0 where
    pub ended : r ≡ ok none
    pub mode : current_mode_id definition wire_version d ≡ ok mode_id
    pub model : value_of definition.model_config_id d ≡ value_of definition.model_config_id c

  abbrev pub HoldsIn :
      Configuration → Text → Configuration × Result ConfigurationError (Option Pending) → Type 0
  HoldsIn c mode_id out = ModeHolds c out.0 out.1 mode_id

  pub current_session :
      (c : Configuration) (modes : ModeState)
      → c.modes ≡ some modes
      → current_mode_id definition wire_version c ≡ ok modes.current_mode_id
  unfolding current_mode_id
  current_session c modes e = ground arith

  pub current_option :
      (c : Configuration) (mode_id : Text)
      → (o : IsOffered c definition.mode_config_id (codes "mode") mode_id) → c.modes ≡ none
      → current_mode_id definition wire_version c ≡ ok o.option.current_value
  unfolding current_mode_id
  current_option c mode_id o e =
      ground (arith, require_offered c definition.mode_config_id (codes "mode") mode_id o)

  pub available_session :
      (c : Configuration) (modes : ModeState)
      → c.modes ≡ some modes
      → available_mode_ids definition wire_version c ≡ ok modes.available_mode_ids
  unfolding available_mode_ids
  available_session c modes e = ground arith

  pub available_option :
      (c : Configuration) (mode_id : Text)
      → (o : IsOffered c definition.mode_config_id (codes "mode") mode_id) → c.modes ≡ none
      → available_mode_ids definition wire_version c ≡ ok o.option.values
  unfolding available_mode_ids
  available_option c mode_id o e =
      ground (arith, require_offered c definition.mode_config_id (codes "mode") mode_id o)

-- ===== src/Acp/Configuration/Kept.antt =====
-- sessionConfiguration.ts: what the writes and replacements of options keep.
use tea_desktop.Base.{
  ltb, ℕ, ◌+◌, ◌≡◌, refl, sym, ◌∙◌, subst, true, List, [], ◌∷◌, Option, none, some, ◌==◌, ok, ◌>>=◌,
  >>=-ok, throw_if-ok, arith, Bool-cases, Option-cases, inl, inr,
}
use tea_desktop.Base.Map
use tea_desktop.Base.Text.{Text, codes}
use tea_desktop.Base.TextSet
use tea_desktop.Conversation.Values.{Json}
use tea_desktop.Acp.Options.{max_config_options, invalid_options, ModeState, or_throw, array_of}
use tea_desktop.Acp.Configuration.{
  items_length, AcpSessionConfigurationDefinition, SelectOptionState, Configuration, OptionRef,
  Pending, model_requested, mode_requested, mode_option_requested, with_mode, set_value,
  write_option, is_some_mode, require_select_option, parse_options, replace_config_options,
  available_mode_ids, set_current_mode, answered,
}
use tea_desktop.Acp.Configuration.Allowed.{
  require_found, IsAllowed, AreFit, ModeIsKnown, ModesAreFit, MayWrite, MayFollow, IsAdvertised,
  set_value-AreFit, set_value-values, parse_options-AreFit,
}

module _ (definition : AcpSessionConfigurationDefinition) (wire_version : ℕ) where
  -- The options were replaced, and no write that waits is to one of the new ones.
  record Replaces (c next : Configuration) : Type 0 where
    fits : AreFit definition wire_version c.modes next.options
    later : next.replacements ≡ c.replacements + 1
    same_modes : next.modes ≡ c.modes

  replace_options-Replaces :
      (c next : Configuration) (value : Option Json)
      → replace_config_options definition wire_version c value ≡ ok next
      → Replaces c next
  unfolding replace_config_options
  replace_options-Replaces c next value h =
      let (items, h₁, h₂) = >>=-ok (or_throw (array_of value) invalid_options) _ h in
      let (few, h₃) = throw_if-ok (ltb max_config_options (items_length items)) _ _ h₂ in
      let (out, h₄, h₅) = >>=-ok (parse_options definition wire_version [] items) _ h₃ in
      let e : record c { options = out; replacements = c.replacements + 1 } ≡ next = ground arith in
      rw (← e) (record {
        fits = parse_options-AreFit definition wire_version c.modes [] out items tt h₄;
        later = refl;
        same_modes = refl;
      })

  -- A configuration whose modes may have another current one and whose options may have other values.
  abbrev MayWriteLater : Configuration → Configuration → Type 0
  MayWriteLater c d =
      (ref : OptionRef) (value : Text)
      → MayWrite definition wire_version c ref value
      → MayWrite definition wire_version d ref value

  set_value-MayWrite :
      (c : Configuration) (id written : Text) (modes : Option ModeState)
      → is_some_mode definition wire_version modes ≡ is_some_mode definition wire_version c.modes
      → MayWriteLater c (record c { options = set_value id written c.options; modes = modes })
  set_value-MayWrite c id written modes same ref value (before, may) = (
    before,
    λ option now found.
        let (old, e, v) =
          set_value-values definition wire_version id ref.id written c.options option found in
        elim (may old now e) [
          | inl has ↦ inl (subst (λ (vs : List Text). TextSet.contains value vs ≡ true) v has)
          | inr (k, some_mode) ↦ inr (k, same ∙ some_mode)
        ],
  )

  replaced-MayWrite : (c d : Configuration) → Replaces c d → MayWriteLater c d
  replaced-MayWrite c d r ref value (before, may) =
      (omega (arith, r.later), λ option now found. absurd (omega (arith, r.later, now)))

  -- What a step keeps of what waits.
  pub record IsKept (c d : Configuration) : Type 0 where
    pub advertised : IsAdvertised definition wire_version d
    pub writes :
        (ref : OptionRef) (value : Text)
        → MayWrite definition wire_version c ref value
        → MayWrite definition wire_version d ref value
    pub known :
        (mode_id : Text)
        → ModeIsKnown definition wire_version c.modes mode_id
        → ModeIsKnown definition wire_version d.modes mode_id
    pub moded :
        is_some_mode definition wire_version d.modes ≡ is_some_mode definition wire_version c.modes

  pub same-IsKept : (c : Configuration) → IsAdvertised definition wire_version c → IsKept c c
  same-IsKept c a = record {
    advertised = a;
    writes = λ ref value m. m;
    known = λ mode_id k. k;
    moded = refl;
  }

  pub replace-IsKept :
      (c next : Configuration) (value : Option Json)
      → IsAdvertised definition wire_version c
      → replace_config_options definition wire_version c value ≡ ok next
      → IsKept c next
  replace-IsKept c next value a h =
      let r = replace_options-Replaces c next value h in
      record {
        advertised = record { modes = rw r.same_modes a.modes; options = rw r.same_modes r.fits };
        writes = replaced-MayWrite c next r;
        known = λ mode_id k. rw r.same_modes k;
        moded = rw r.same_modes refl;
      }

  write-IsKept :
      (c : Configuration) (ref : OptionRef) (value : Text)
      → IsAdvertised definition wire_version c
      → MayWrite definition wire_version c ref value
      → IsKept c (write_option c ref value)
  unfolding write_option
  write-IsKept c ref value a (before, may) =
      elim (Bool-cases (ref.replacements == c.replacements)) [
        | inr e ↦ rw e (same-IsKept c a)
        | inl e ↦ rw e (record {
          advertised = record {
            modes = a.modes;
            options =
                set_value-AreFit definition wire_version c.modes ref.id value c.options a.options
                  (λ option found. may option (ground arith) found);
          };
          writes = set_value-MayWrite c ref.id value c.modes refl;
          known = λ mode_id k. k;
          moded = refl;
        })
      ]

  pub answered-IsKept :
      (c next : Configuration) (ref : OptionRef) (value : Text) (options : Option Json)
      → IsAdvertised definition wire_version c
      → MayWrite definition wire_version c ref value
      → answered definition wire_version c ref value options ≡ ok next
      → IsKept c next
  unfolding answered
  answered-IsKept c next ref value none a m h =
      let e : write_option c ref value ≡ next = ground arith in
      rw (← e) (write-IsKept c ref value a m)
  answered-IsKept c next ref value (some options) a m h = replace-IsKept c next (some options) a h

  same_moded :
      (mode_id : Text) (modes : Option ModeState)
      → is_some_mode definition wire_version (with_mode mode_id modes)
        ≡ is_some_mode definition wire_version modes
  same_moded mode_id none = refl
  same_moded mode_id (some modes) = refl

  with_mode-ModesAreFit :
      (mode_id : Text) (modes : Option ModeState)
      → ModeIsKnown definition wire_version modes mode_id
      → ModesAreFit definition wire_version (with_mode mode_id modes)
  with_mode-ModesAreFit mode_id none k = tt
  with_mode-ModesAreFit mode_id (some modes) k = k

  with_mode-ModeIsKnown :
      (mode_id other : Text) (modes : Option ModeState)
      → ModeIsKnown definition wire_version modes other
      → ModeIsKnown definition wire_version (with_mode mode_id modes) other
  with_mode-ModeIsKnown mode_id other none k = tt
  with_mode-ModeIsKnown mode_id other (some modes) k = k

  with_mode-AreFit :
      (mode_id : Text) (modes : Option ModeState) (options : List (Text × SelectOptionState))
      → AreFit definition wire_version modes options
      → AreFit definition wire_version (with_mode mode_id modes) options
  with_mode-AreFit mode_id modes [] fit = tt
  with_mode-AreFit mode_id modes ((k, option) ∷ options) fit = (
    (
      fit.0.0,
      elim fit.0.1 [
        | inl has ↦ inl has
        | inr (own, some_mode) ↦ inr (own, same_moded mode_id modes ∙ some_mode)
      ],
    ),
    with_mode-AreFit mode_id modes options fit.1,
  )

  -- A mode is set that is known, and among the values of its option if there are no modes.
  pub set_mode-IsKept :
      (c : Configuration) (mode_id : Text)
      → IsAdvertised definition wire_version c
      → ModeIsKnown definition wire_version c.modes mode_id
      → ((option : SelectOptionState)
          → Map.get definition.mode_config_id c.options ≡ some option
          → IsAllowed definition wire_version c.modes definition.mode_config_id mode_id
              option.values)
      → IsKept c (set_current_mode definition wire_version c mode_id)
  unfolding set_current_mode
  set_mode-IsKept c mode_id a known allowed = record {
    advertised = record {
      modes = with_mode-ModesAreFit mode_id c.modes known;
      options = with_mode-AreFit mode_id c.modes _ (
          set_value-AreFit definition wire_version c.modes definition.mode_config_id mode_id
            c.options a.options allowed);
    };
    writes =
        set_value-MayWrite c definition.mode_config_id mode_id (with_mode mode_id c.modes)
          (same_moded mode_id c.modes);
    known = λ id k. with_mode-ModeIsKnown mode_id id c.modes k;
    moded = same_moded mode_id c.modes;
  }

  -- What waits may still follow.
  pub kept-MayFollow :
      (c d : Configuration) (waiting : Option Pending)
      → IsKept c d
      → MayFollow definition wire_version c waiting
      → MayFollow definition wire_version d waiting
  kept-MayFollow c d none k m = tt
  kept-MayFollow c d (some (model_requested ref value mode)) k m = k.writes ref value m
  kept-MayFollow c d (some (mode_requested mode_id)) k m = (k.moded ∙ m.0, k.known mode_id m.1)
  kept-MayFollow c d (some (mode_option_requested ref mode_id)) k m = k.writes ref mode_id m

  -- An available mode is known, and an option's value if there are no modes.
  pub available-Allowed :
      (c : Configuration) (ids : List Text) (mode_id : Text)
      → available_mode_ids definition wire_version c ≡ ok ids
      → TextSet.contains mode_id ids ≡ true
      → ModeIsKnown definition wire_version c.modes mode_id
        × ((option : SelectOptionState)
            → Map.get definition.mode_config_id c.options ≡ some option
            → IsAllowed definition wire_version c.modes definition.mode_config_id mode_id
                option.values)
  unfolding available_mode_ids
  available-Allowed c ids mode_id h has = elim (Option-cases c.modes) [
    | inr (modes, e) ↦
        let same : modes.available_mode_ids ≡ ids = ground arith in
        (
          rw e (subst (λ (l : List Text). TextSet.contains mode_id l ≡ true) (sym same) has),
          λ option found. inr (refl, rw e refl),
        )
    | inl e ↦ (
      rw e tt,
      λ option found.
          let g : (require_select_option c definition.mode_config_id (codes "mode") >>= λ o.
          ok o.values)
              ≡ ok ids =
            ground arith in
          let (o, h₁, h₂) =
            >>=-ok (require_select_option c definition.mode_config_id (codes "mode")) _ g in
          let got = require_found c definition.mode_config_id (codes "mode") o h₁ in
          let same : option.values ≡ ids = ground (arith, got, h₂) in
          inl (subst (λ (l : List Text). TextSet.contains mode_id l ≡ true) (sym same) has),
    )
  ]

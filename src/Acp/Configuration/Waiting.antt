-- ===== src/Acp/Configuration/Waiting.antt =====
-- sessionConfiguration.ts: what a request of `apply` waits for.
use tea_desktop.Base.{
  &&-eq-true, ℕ, ◌≡◌, subst, true, not, ◌&&◌, List, Option, none, some, if◌then◌else◌, ◌==◌, Result,
  ok, err, ◌>>=◌, ◌>>◌, >>=-ok, throw_if, throw_if-ok, arith, Bool-cases, Option-cases,
  Result-cases, inl, inr,
}
use tea_desktop.Base.Map
use tea_desktop.Base.Text.{Text, codes, text_eq}
use tea_desktop.Base.TextSet
use tea_desktop.Conversation.{PermissionMode}
use tea_desktop.Acp.Options.{model_not_advertised, ConfigurationError}
use tea_desktop.Acp.Configuration.{
  AcpSessionConfigurationDefinition, SelectOptionState, Configuration, Pending, model_requested,
  mode_requested, mode_option_requested, is_some_mode, require_select_option, available_mode_ids,
  current_mode_id, request_mode, apply_mode, requested_model, apply,
}
use tea_desktop.Acp.Configuration.InForce.{apply_default}
use tea_desktop.Acp.Configuration.Allowed.{
  require_found, IsAllowed, IsFit, ModeIsKnown, MayFollow, IsAdvertised,
}
use tea_desktop.Acp.Configuration.Kept.{available-Allowed}

module _ (definition : AcpSessionConfigurationDefinition) (wire_version : ℕ) where
  -- What a request for the mode waits for.
  request_mode-MayFollow :
      (c : Configuration) (current mode_id : Text) (pending : Pending)
      → IsAdvertised definition wire_version c
      → ModeIsKnown definition wire_version c.modes mode_id
      → ((option : SelectOptionState)
          → Map.get definition.mode_config_id c.options ≡ some option
          → IsAllowed definition wire_version c.modes definition.mode_config_id mode_id
              option.values)
      → request_mode definition wire_version c current mode_id ≡ ok (some pending)
      → MayFollow definition wire_version c (some pending)
  unfolding request_mode
  request_mode-MayFollow c current mode_id pending a known allowed h =
      elim (Bool-cases (text_eq current mode_id)) [
        | inl e ↦ absurd (ground arith)
        | inr e ↦
            elim (Bool-cases (wire_version == 1 && is_some_mode definition wire_version c.modes)) [
              | inl f ↦
                  let same : mode_requested mode_id ≡ pending = ground arith in
                  rw (← same) ((&&-eq-true (wire_version == 1) _ f).1, known)
              | inr f ↦
                  let g : (require_select_option c definition.mode_config_id (codes "mode")
                        >>= λ mode. ok (
                            some (
                              mode_option_requested
                                (record { id = mode.id; replacements = c.replacements }) mode_id)))
                      ≡ ok (some pending) =
                    ground arith in
                  let (o, h₁, h₂) =
                    >>=-ok (require_select_option c definition.mode_config_id (codes "mode")) _ g in
                  let got = require_found c definition.mode_config_id (codes "mode") o h₁ in
                  let own =
                    (Map.All-get (IsFit definition wire_version c.modes) definition.mode_config_id o
                      c.options got a.options).0 in
                  let same : mode_option_requested
                        (record { id = o.id; replacements = c.replacements }) mode_id
                      ≡ pending =
                    ground arith in
                  rw (← same, own) (omega arith, λ option now found. allowed option found)
            ]
      ]

  abbrev MayFollowIn : Configuration → Result ConfigurationError (Option Pending) → Type 0
  MayFollowIn c (err e) = Unit
  MayFollowIn c (ok waiting) = MayFollow definition wire_version c waiting

  pub apply_mode-MayFollow :
      (c : Configuration) (mode : PermissionMode)
      → IsAdvertised definition wire_version c
      → MayFollowIn c (apply_mode definition wire_version c mode)
  unfolding apply_mode
  apply_mode-MayFollow c mode a = elim (Result-cases (apply_mode definition wire_version c mode)) [
    | inr (e, h) ↦ rw h tt
    | inl (none, h) ↦ rw h tt
    | inl (some pending, h) ↦
        let id = definition.permission_mode_ids mode in
        let (ids, h₁, h₂) = >>=-ok (available_mode_ids definition wire_version c) _ h in
        let (listed, h₃) = throw_if-ok (not (TextSet.contains id ids)) _ _ h₂ in
        let (current, h₄, h₅) = >>=-ok (current_mode_id definition wire_version c) _ h₃ in
        let (known, allowed) =
          available-Allowed definition wire_version c ids id h₁ (ground arith) in
        rw h (request_mode-MayFollow c current id pending a known allowed h₅)
  ]

  -- A model that is asked for is one of the option's values.
  model-MayFollow :
      (c : Configuration) (model m : Text) (mode : PermissionMode) (waiting : Option Pending)
      → requested_model definition wire_version model ≡ some m
      → IsAdvertised definition wire_version c
      → apply definition wire_version c model mode ≡ ok waiting
      → MayFollow definition wire_version c waiting
  unfolding apply
  model-MayFollow c model m mode waiting e a h =
      let g : (require_select_option c definition.model_config_id (codes "model") >>= λ option.
      throw_if (not (TextSet.contains m option.values)) model_not_advertised
      >> (if text_eq option.current_value m
          then apply_mode definition wire_version c mode
          else ok (
              some (
                model_requested (record { id = option.id; replacements = c.replacements }) m
                  mode))))
          ≡ ok waiting =
        ground arith in
      let (o, h₁, h₂) =
        >>=-ok (require_select_option c definition.model_config_id (codes "model")) _ g in
      let (listed, h₃) = throw_if-ok (not (TextSet.contains m o.values)) _ _ h₂ in
      let got = require_found c definition.model_config_id (codes "model") o h₁ in
      let own =
        (Map.All-get (IsFit definition wire_version c.modes) definition.model_config_id o c.options
          got a.options).0 in
      elim (Bool-cases (text_eq o.current_value m)) [
        | inl f ↦
            let same : apply_mode definition wire_version c mode ≡ ok waiting = ground arith in
            subst (MayFollowIn c) same (apply_mode-MayFollow c mode a)
        | inr f ↦
            let same : some
                  (model_requested (record { id = o.id; replacements = c.replacements }) m mode)
                ≡ waiting =
              ground arith in
            rw (← same, own)
              (
                omega arith,
                λ option now found.
                    let both : o.values ≡ option.values = ground (arith, got, found) in
                    inl (
                      subst (λ (vs : List Text). TextSet.contains m vs ≡ true) both (ground arith)),
              )
      ]

  pub apply-MayFollow :
      (c : Configuration) (model : Text) (mode : PermissionMode)
      → IsAdvertised definition wire_version c
      → MayFollowIn c (apply definition wire_version c model mode)
  apply-MayFollow c model mode a =
      elim (Option-cases (requested_model definition wire_version model)) [
        | inl e ↦
            rw (apply_default definition wire_version c model mode e)
              (apply_mode-MayFollow c mode a)
        | inr (m, e) ↦ elim (Result-cases (apply definition wire_version c model mode)) [
          | inr (x, h) ↦ rw h tt
          | inl (waiting, h) ↦ rw h (model-MayFollow c model m mode waiting e a h)
        ]
      ]

  abbrev pub waiting_of : Result ConfigurationError (Option Pending) → Option Pending
  waiting_of (err e) = none
  waiting_of (ok waiting) = waiting

  pub waiting-MayFollow :
      (c : Configuration) (r : Result ConfigurationError (Option Pending))
      → MayFollowIn c r
      → MayFollow definition wire_version c (waiting_of r)
  waiting-MayFollow c (err e) f = tt
  waiting-MayFollow c (ok waiting) f = f

-- ===== src/Acp/Configuration/Advertised.antt =====
-- sessionConfiguration.ts: what is current and what was advertised, over all calls of a session.
use tea_desktop.Base.{
  ℕ, ◌≡◌, refl, sym, subst, ◌⊎◌, not, List, [], ◌∷◌, Option, none, some, Result, ok, err, >>=-ok,
  throw_if-ok, arith, Bool-cases, Option-cases, Result-cases, inl, inr,
}
use tea_desktop.Base.Text.{Text, codes, text_eq}
use tea_desktop.Base.TextSet
use tea_desktop.Conversation.{PermissionMode, read_only}
use tea_desktop.Conversation.Values.{Json, Fields}
use tea_desktop.Acp.Updates.{get_field, as_text}
use tea_desktop.Acp.Options.{
  invalid_modes, ConfigurationError, ModeState, or_throw, record_of, array_of, given_value,
  require_identifier, parse_modes, parse_mode_ids,
}
use tea_desktop.Acp.Configuration.{
  AcpSessionConfigurationDefinition, Configuration, OptionRef, Pending, model_requested,
  mode_requested, mode_option_requested, new_configuration, replace_config_options, replaced,
  accept_options, accept_session_response, accept_mode_update, accept_session_update,
  available_mode_ids, set_current_mode, apply_mode, apply, answered, continue_apply,
}
use tea_desktop.Acp.Configuration.Allowed.{ModesAreFit, MayFollow, IsAdvertised}
use tea_desktop.Acp.Configuration.Kept.{
  IsKept, same-IsKept, replace-IsKept, answered-IsKept, set_mode-IsKept, kept-MayFollow,
  available-Allowed,
}
use tea_desktop.Acp.Configuration.Waiting.{
  apply_mode-MayFollow, apply-MayFollow, waiting_of, waiting-MayFollow,
}

-- What may happen to a session's configuration: an update of the agent, a call of `apply` while none
-- waits, and the answer to the request that waits, or its rejection.
pub data Call : Type 0 where
  updated : Json → Call
  applied : Text → PermissionMode → Call
  acknowledged : Option Json → Call
  rejected : Call

-- With the request that waits.
abbrev pub State : Type 0
State = Configuration × Option Pending

module _ (definition : AcpSessionConfigurationDefinition) (wire_version : ℕ) where
  abbrev pub next_apply : Configuration → Option Pending → Text → PermissionMode → Option Pending
  next_apply c none model mode =
      waiting_of definition wire_version (apply definition wire_version c model mode)
  next_apply c (some pending) model mode = some pending

  abbrev pub next_answer : Configuration → Option Pending → Option Json → State
  next_answer c none options = (c, none)
  next_answer c (some pending) options =
      let next = continue_apply definition wire_version c pending options in
      (next.0, waiting_of definition wire_version next.1)

  abbrev pub step : State → Call → State
  step (c, waiting) (updated update) =
      ((accept_session_update definition wire_version c update).0, waiting)
  step (c, waiting) (applied model mode) = (c, next_apply c waiting model mode)
  step (c, waiting) (acknowledged options) = next_answer c waiting options
  step (c, waiting) rejected = (c, none)

  unfoldable pub run : State → List Call → State
  run s [] = s
  run s (call ∷ calls) = run (step s call) calls

  abbrev pub IsSound : State → Type 0
  IsSound (c, waiting) =
      IsAdvertised definition wire_version c × MayFollow definition wire_version c waiting

  replaced-IsKept :
      (c : Configuration) (r : Result ConfigurationError Configuration)
      → IsAdvertised definition wire_version c
      → ((next : Configuration) → r ≡ ok next → IsKept definition wire_version c next)
      → IsKept definition wire_version c (replaced definition wire_version c r).0
  replaced-IsKept c (err e) a k = same-IsKept definition wire_version c a
  replaced-IsKept c (ok next) a k = k next refl

  mode_update-IsKept :
      (c next : Configuration) (fields : Fields)
      → IsAdvertised definition wire_version c
      → accept_mode_update definition wire_version c fields ≡ ok next
      → IsKept definition wire_version c next
  unfolding accept_mode_update
  mode_update-IsKept c next fields a h =
      let (id, h₁, h₂) =
        >>=-ok (require_identifier (get_field (codes "currentModeId") fields)) _ h in
      let (ids, h₃, h₄) = >>=-ok (available_mode_ids definition wire_version c) _ h₂ in
      let (listed, h₅) = throw_if-ok (not (TextSet.contains id ids)) _ _ h₄ in
      let (known, allowed) = available-Allowed definition wire_version c ids id h₃ (ground arith) in
      let same : set_current_mode definition wire_version c id ≡ next = ground arith in
      rw (← same) (set_mode-IsKept definition wire_version c id a known allowed)

  update_cases :
      (c : Configuration) (update : Json)
      → ((accept_session_update definition wire_version c update).0 ≡ c)
        ⊎ ((fields : Fields) × (((accept_session_update definition wire_version c update).0
                ≡ (replaced definition wire_version c
                    (accept_mode_update definition wire_version c fields)).0)
              ⊎ ((accept_session_update definition wire_version c update).0
                  ≡ (replaced definition wire_version c (
                      replace_config_options definition wire_version c
                        (get_field (codes "configOptions") fields))).0)))
  unfolding accept_session_update
  update_cases c update = elim (Option-cases (record_of (some update))) [
    | inl e ↦ inl (ground arith)
    | inr (fields, e) ↦ elim (Option-cases (as_text (get_field (codes "sessionUpdate") fields))) [
      | inl f ↦ inl (ground arith)
      | inr (kind, f) ↦ elim (Bool-cases (text_eq kind (codes "current_mode_update"))) [
        | inl g ↦ inr (fields, inl (ground arith))
        | inr g ↦ elim (Bool-cases (text_eq kind (codes "config_option_update"))) [
          | inl i ↦ inr (fields, inr (ground arith))
          | inr i ↦ inl (ground arith)
        ]
      ]
    ]
  ]

  update-IsKept :
      (c : Configuration) (update : Json)
      → IsAdvertised definition wire_version c
      → IsKept definition wire_version c (accept_session_update definition wire_version c update).0
  update-IsKept c update a = elim (update_cases c update) [
    | inl e ↦
        subst (IsKept definition wire_version c) (sym e) (same-IsKept definition wire_version c a)
    | inr (fields, inl e) ↦
        subst (IsKept definition wire_version c) (sym e)
          (replaced-IsKept c _ a (λ next h. mode_update-IsKept c next fields a h))
    | inr (fields, inr e) ↦ subst (IsKept definition wire_version c) (sym e) (
        replaced-IsKept c _ a (λ next h.
          replace-IsKept definition wire_version c next (get_field (codes "configOptions") fields) a
            h))
  ]

  module _ (c : Configuration) (ref : OptionRef) (value : Text) (options : Option Json) where
    answer_refused :
        (mode : PermissionMode) (e : ConfigurationError)
        → answered definition wire_version c ref value options ≡ err e
        → (next_answer c (some (model_requested ref value mode)) options ≡ (c, none))
          × (next_answer c (some (mode_option_requested ref value)) options ≡ (c, none))
    unfolding continue_apply
    answer_refused mode e h = (ground arith, ground arith)

    answer_taken :
        (mode : PermissionMode) (next : Configuration)
        → answered definition wire_version c ref value options ≡ ok next
        → (next_answer c (some (model_requested ref value mode)) options ≡ (
          next,
          waiting_of definition wire_version (apply_mode definition wire_version next mode),
        ))
          × (next_answer c (some (mode_option_requested ref value)) options ≡ (next, none))
    unfolding continue_apply
    answer_taken mode next h = (ground arith, ground arith)

  answer-IsSound :
      (c : Configuration) (pending : Pending) (options : Option Json)
      → IsAdvertised definition wire_version c
      → MayFollow definition wire_version c (some pending)
      → IsSound (next_answer c (some pending) options)
  unfolding continue_apply
  answer-IsSound c (model_requested ref value mode) options a m =
      elim (Result-cases (answered definition wire_version c ref value options)) [
        | inr (e, h) ↦ subst IsSound (sym (answer_refused c ref value options mode e h).0) (a, tt)
        | inl (next, h) ↦
            let k = answered-IsKept definition wire_version c next ref value options a m h in
            let f = apply_mode-MayFollow definition wire_version next mode k.advertised in
            subst IsSound (sym (answer_taken c ref value options mode next h).0) (
              k.advertised,
              waiting-MayFollow definition wire_version next
                  (apply_mode definition wire_version next mode) f,
            )
      ]
  answer-IsSound c (mode_requested mode_id) options a m = (
    (set_mode-IsKept definition wire_version c mode_id a m.1
        (λ option found. inr (refl, m.0))).advertised,
    tt,
  )
  answer-IsSound c (mode_option_requested ref mode_id) options a m =
      elim (Result-cases (answered definition wire_version c ref mode_id options)) [
        | inr (e, h) ↦
            subst IsSound (sym (answer_refused c ref mode_id options read_only e h).1) (a, tt)
        | inl (next, h) ↦
            subst IsSound (sym (answer_taken c ref mode_id options read_only next h).1) (
              (answered-IsKept definition wire_version c next ref mode_id options a m h).advertised,
              tt,
            )
      ]

  step-IsSound : (s : State) (call : Call) → IsSound s → IsSound (step s call)
  step-IsSound (c, waiting) (updated update) (a, m) =
      let k = update-IsKept c update a in
      (
        k.advertised,
        kept-MayFollow definition wire_version c
            (accept_session_update definition wire_version c update).0 waiting k m,
      )
  step-IsSound (c, none) (applied model mode) (a, m) = (
    a,
    waiting-MayFollow definition wire_version c (apply definition wire_version c model mode)
        (apply-MayFollow definition wire_version c model mode a),
  )
  step-IsSound (c, some pending) (applied model mode) (a, m) = (a, m)
  step-IsSound (c, none) (acknowledged options) (a, m) = (a, m)
  step-IsSound (c, some pending) (acknowledged options) (a, m) =
      answer-IsSound c pending options a m
  step-IsSound (c, waiting) rejected (a, m) = (a, tt)

  run-IsSound : (s : State) (calls : List Call) → IsSound s → IsSound (run s calls)
  unfolding run
  run-IsSound s [] h = h
  run-IsSound s (call ∷ calls) h = run-IsSound (step s call) calls (step-IsSound s call h)

  options_cases :
      (c : Configuration) (fields : Fields)
      → ((accept_options definition wire_version c fields).0 ≡ c)
        ⊎ ((value : Json) × ((accept_options definition wire_version c fields).0
              ≡ (replaced definition wire_version c
                  (replace_config_options definition wire_version c (some value))).0))
  unfolding accept_options
  options_cases c fields =
      elim (Option-cases (given_value (get_field (codes "configOptions") fields))) [
        | inl e ↦ inl (ground arith)
        | inr (value, e) ↦ inr (value, ground arith)
      ]

  accept_options-IsAdvertised :
      (c : Configuration) (fields : Fields)
      → IsAdvertised definition wire_version c
      → IsAdvertised definition wire_version (accept_options definition wire_version c fields).0
  accept_options-IsAdvertised c fields a = elim (options_cases c fields) [
    | inl e ↦ subst (IsAdvertised definition wire_version) (sym e) a
    | inr (value, e) ↦
        subst (IsAdvertised definition wire_version) (sym e)
          (replaced-IsKept c _ a
            (λ next h. replace-IsKept definition wire_version c next (some value) a h)).advertised
  ]

  parse_modes-ModesAreFit :
      (value : Json) (modes : ModeState)
      → parse_modes value ≡ ok modes
      → ModesAreFit definition wire_version (some modes)
  unfolding parse_modes
  parse_modes-ModesAreFit value modes h =
      let (fields, h₁, h₂) = >>=-ok (or_throw (record_of (some value)) invalid_modes) _ h in
      let (items, h₃, h₄) =
        >>=-ok (or_throw (array_of (get_field (codes "availableModes") fields)) invalid_modes) _
          h₂ in
      let (current, h₅, h₆) =
        >>=-ok (require_identifier (get_field (codes "currentModeId") fields)) _ h₄ in
      let (ids, h₇, h₈) = >>=-ok (parse_mode_ids [] items) _ h₆ in
      let (listed, h₉) = throw_if-ok (not (TextSet.contains current ids)) _ _ h₈ in
      let same : record { current_mode_id = current; available_mode_ids = ids } ≡ modes =
        ground arith in
      rw (← same) (ground arith)

  -- The session's response, from which a session starts.
  abbrev pub begun : Json → Configuration
  begun response = (accept_session_response definition wire_version new_configuration response).0

  begun_cases :
      (response : Json)
      → (begun response ≡ new_configuration)
        ⊎ ((fields : Fields) × (modes : Option ModeState) × (ModesAreFit definition wire_version
                modes
              × (begun response
                  ≡ (accept_options definition wire_version
                      (record new_configuration { modes = modes })
                      fields).0)))
  unfolding accept_session_response
  begun_cases response = elim (Option-cases (record_of (some response))) [
    | inl e ↦ inl (ground arith)
    | inr (fields, e) ↦ elim (Option-cases (given_value (get_field (codes "modes") fields))) [
      | inl f ↦ inr (fields, none, (tt, ground arith))
      | inr (value, f) ↦ elim (Result-cases (parse_modes value)) [
        | inr (x, g) ↦ inl (ground arith)
        | inl (modes, g) ↦
            inr (fields, some modes, (parse_modes-ModesAreFit value modes g, ground arith))
      ]
    ]
  ]

  begun-IsAdvertised : (response : Json) → IsAdvertised definition wire_version (begun response)
  begun-IsAdvertised response = elim (begun_cases response) [
    | inl e ↦
        subst (IsAdvertised definition wire_version) (sym e) (record { modes = tt; options = tt })
    | inr (fields, modes, (fit, e)) ↦ subst (IsAdvertised definition wire_version) (sym e) (
        accept_options-IsAdvertised (record new_configuration { modes = modes }) fields
          (record { modes = fit; options = tt }))
  ]

  -- Whatever the agent answers to the opening of a session, and whatever updates, calls of `apply`,
  -- answers and rejections follow in whatever order: the session's current mode is an available one,
  -- each option stands under its own id, and the current value of each is one of its values; only the
  -- mode's option may have another value, and only where the session has modes.
  pub run-IsAdvertised :
      (response : Json) (calls : List Call)
      → IsAdvertised definition wire_version (run (begun response, none) calls).0
  run-IsAdvertised response calls =
      (run-IsSound (begun response, none) calls (begun-IsAdvertised response, tt)).0

-- ===== src/Permissions/Offers.antt =====
-- What a request offers: the decisions shown and the agent's options behind them.
use tea_desktop.Base.{
  ◌↔◌, append_assoc, throw_if, Bool, true, false, ◌≡◌, refl, ap, subst, ◌⊎◌, inl, inr, List, [],
  ◌∷◌, ◌++◌, Option, none, some, map, map-append, ok, arith, All, All-append, is_some, Bool-cases,
  Option-cases, >>=-ok,
}
use tea_desktop.Base.Text.{Text, is_empty}
use tea_desktop.Base.TextSet
use tea_desktop.Conversation.{ApprovalDecision, cancel}
use tea_desktop.Permissions.Presentation.{
  require_absolute_paths, v2, subject_parts, first_text, v1, RequestV2, RequestV1, v2_presentation,
  v1_presentation, permission_presentation, PermissionPresentation, AcpPermissionRequest,
  ambiguous_options, duplicate_option, PermissionOption, Options, require_text, permission_decision,
  option_for, same_decision, normalize_from, normalize_options,
}

-- Some option of the list stands for the decision, under this (trimmed) id.
abbrev pub Offers : List PermissionOption → ApprovalDecision → Text → Type 0
Offers [] d id = ⊥
Offers (o ∷ os) d id =
    ((require_text o.option_id ≡ ok id) × (permission_decision o.kind ≡ some d)) ⊎ Offers os d id

abbrev pub In : ApprovalDecision → List ApprovalDecision → Type 0
In d [] = ⊥
In d (x ∷ xs) = (d ≡ x) ⊎ In d xs

abbrev pub decided : List (ApprovalDecision × Text) → List ApprovalDecision
decided = map (λ e. e.0)

-- What `normalizeOptions` promises of its result, for the options `os`.
abbrev pub Sound : List PermissionOption → List (ApprovalDecision × Text) → Type 0
Sound os = All (λ (e : ApprovalDecision × Text).
    Offers os e.0 e.1 × (is_empty e.1 ≡ false) × (same_decision e.0 cancel ≡ false))

pub require_text-not_empty :
    (v : Option Text) {s : Text} → require_text v ≡ ok s → is_empty s ≡ false
unfolding require_text
require_text-not_empty none h = cc
require_text-not_empty (some v) h = ground arith

permission_decision-not_cancel :
    (k : Option Text) (d : ApprovalDecision)
    → permission_decision k ≡ some d
    → same_decision d cancel ≡ false
unfolding permission_decision
permission_decision-not_cancel none d h = cc
permission_decision-not_cancel (some k) d h = ground arith

Offers-append_left :
    (os ps : List PermissionOption) (d : ApprovalDecision) (id : Text)
    → Offers os d id
    → Offers (os ++ ps) d id
Offers-append_left (o ∷ os) ps d id (inl h) = inl h
Offers-append_left (o ∷ os) ps d id (inr h) = inr (Offers-append_left os ps d id h)
Offers-append_left [] ps d id h = absurd h

Offers-append_right :
    (os ps : List PermissionOption) (d : ApprovalDecision) (id : Text)
    → Offers ps d id
    → Offers (os ++ ps) d id
Offers-append_right [] ps d id h = h
Offers-append_right (o ∷ os) ps d id h = inr (Offers-append_right os ps d id h)

Sound-append_left :
    (os ps : List PermissionOption) (m : List (ApprovalDecision × Text))
    → Sound os m
    → Sound (os ++ ps) m
Sound-append_left os ps [] h = tt
Sound-append_left os ps (e ∷ m) h =
    ((Offers-append_left os ps e.0 e.1 h.0.0, h.0.1, h.0.2), Sound-append_left os ps m h.1)

-- The options `os` after those of `seen_options`, which the loop has turned into `ids`.
normalize_from-Sound :
    (seen : List Text) (ids : List (ApprovalDecision × Text)) (decisions : List ApprovalDecision)
    (seen_options os : List PermissionOption) (r : Options)
    → decisions ≡ decided ids
    → Sound seen_options ids
    → normalize_from seen ids decisions os ≡ ok r
    → (r.1 ≡ decided r.0 ++ (cancel ∷ [])) × Sound (seen_options ++ os) r.0
unfolding normalize_from
normalize_from-Sound seen ids decisions before [] r e s h =
    let p : ◌≡◌ {A = Options} (ids, decisions ++ (cancel ∷ [])) r = cc in
    subst (λ (x : Options). (x.1 ≡ decided x.0 ++ (cancel ∷ [])) × Sound (before ++ []) x.0) p
      (ap (λ (l : List ApprovalDecision). l ++ (cancel ∷ [])) e, Sound-append_left before [] ids s)
normalize_from-Sound seen ids decisions before (o ∷ os) r e s h =
    let (id, has_id, h₁) = >>=-ok (require_text o.option_id) _ h in
    let (name, has_name, h₂) = >>=-ok (require_text o.name) _ h₁ in
    let (kind, has_kind, h₃) = >>=-ok (require_text o.kind) _ h₂ in
    let (_, fresh, h₄) = >>=-ok (throw_if (TextSet.contains id seen) duplicate_option) _ h₃ in
    let regroup : (before ++ (o ∷ [])) ++ os ≡ before ++ (o ∷ os) =
      append_assoc before (o ∷ []) os in
    elim (Option-cases (permission_decision o.kind)) [
      | inl skip ↦
          subst (λ l. (r.1 ≡ decided r.0 ++ (cancel ∷ [])) × Sound l r.0) regroup
            (normalize_from-Sound (TextSet.add id seen) ids decisions (before ++ (o ∷ [])) os r e
              (Sound-append_left before (o ∷ []) ids s) (rw skip at h₄))
      | inr (d, used) ↦
          let (_, single, h₅) =
            >>=-ok (throw_if (is_some (option_for d ids)) ambiguous_options) _ (rw used at h₄) in
          subst (λ l. (r.1 ≡ decided r.0 ++ (cancel ∷ [])) × Sound l r.0) regroup
            (normalize_from-Sound (TextSet.add id seen) (ids ++ ((d, id) ∷ []))
              (decisions ++ (d ∷ [])) (before ++ (o ∷ [])) os r
              (rw (e, map-append (λ (x : ApprovalDecision × Text). x.0) ids ((d, id) ∷ [])))
              (All-append _ ids _ (Sound-append_left before (o ∷ []) ids s) (
                (
                  Offers-append_right before (o ∷ []) d id (inl (has_id, used)),
                  require_text-not_empty o.option_id has_id,
                  permission_decision-not_cancel o.kind d used,
                ),
                tt,
              ))
              h₅)
    ]

pub normalize_options-Sound :
    (os : List PermissionOption) (r : Options)
    → normalize_options os ≡ ok r
    → (r.1 ≡ decided r.0 ++ (cancel ∷ [])) × Sound os r.0
unfolding normalize_options
normalize_options-Sound [] r h = cc
normalize_options-Sound (o ∷ os) r h = normalize_from-Sound [] [] [] [] (o ∷ os) r refl tt h

abbrev pub options_of : AcpPermissionRequest → List PermissionOption
options_of (v1 id request) = request.options
options_of (v2 id request) = request.options

-- What is shown of a request: the agent's decisions and then `cancel`.
abbrev pub IsPresentation : List PermissionOption → PermissionPresentation → Type 0
IsPresentation os p = (p.decisions ≡ decided p.option_ids ++ (cancel ∷ [])) × Sound os p.option_ids

v1_presentation-IsPresentation :
    (is_absolute : Text → Bool) (request : RequestV1) (p : PermissionPresentation)
    → v1_presentation is_absolute request ≡ ok p
    → IsPresentation request.options p
unfolding v1_presentation
v1_presentation-IsPresentation is_absolute request p h =
    let (id, _, h₁) = >>=-ok (require_text request.tool_call.tool_call_id) _ h in
    let (title, _, h₂) = >>=-ok (require_text _) _ h₁ in
    let (options, e, h₃) = >>=-ok (normalize_options request.options) _ h₂ in
    let (capability, _, h₄) = >>=-ok (first_text _) _ h₃ in
    let (resources, _, h₅) = >>=-ok (require_absolute_paths is_absolute _) _ h₄ in
    let s = normalize_options-Sound request.options options e in
    let ids : options.0 ≡ p.option_ids = cc in
    let decisions : options.1 ≡ p.decisions = cc in (rw (← decisions, ← ids) s.0, rw (← ids) s.1)

v2_presentation-IsPresentation :
    (is_absolute : Text → Bool) (request : RequestV2) (p : PermissionPresentation)
    → v2_presentation is_absolute request ≡ ok p
    → IsPresentation request.options p
unfolding v2_presentation
v2_presentation-IsPresentation is_absolute request p h =
    let (title, _, h₁) = >>=-ok (require_text request.title) _ h in
    let (parts, _, h₂) = >>=-ok (subject_parts is_absolute title request.subject) _ h₁ in
    let (options, e, h₃) = >>=-ok (normalize_options request.options) _ h₂ in
    let s = normalize_options-Sound request.options options e in
    let ids : options.0 ≡ p.option_ids = cc in
    let decisions : options.1 ≡ p.decisions = cc in (rw (← decisions, ← ids) s.0, rw (← ids) s.1)

pub permission_presentation-IsPresentation :
    (is_absolute : Text → Bool) (input : AcpPermissionRequest) (p : PermissionPresentation)
    → permission_presentation is_absolute input ≡ ok p
    → IsPresentation (options_of input) p
unfolding permission_presentation
permission_presentation-IsPresentation is_absolute (v1 id request) p h =
    v1_presentation-IsPresentation is_absolute request p h
permission_presentation-IsPresentation is_absolute (v2 id request) p h =
    v2_presentation-IsPresentation is_absolute request p h

same_decision_iff : (d e : ApprovalDecision) → (same_decision d e ≡ true) ↔ (d ≡ e)
same_decision_iff d e = ground arith

-- A decision of the map is found, with an option that stands for it.
pub option_for-Sound :
    (os : List PermissionOption) (m : List (ApprovalDecision × Text)) (d : ApprovalDecision)
    → Sound os m
    → In d (decided m)
    → (id : Text) × (option_for d m ≡ some id) × Offers os d id × (is_empty id ≡ false)
unfolding option_for
option_for-Sound os [] d s h = absurd h
option_for-Sound os ((e, id) ∷ m) d s h = elim (Bool-cases (same_decision e d)) [
  | inl hit ↦
      rw hit (id, refl, subst (λ x. Offers os x id) ((same_decision_iff e d).0 hit) s.0.0, s.0.1)
  | inr miss ↦ elim h [
    | inl here ↦ absurd (ground (arith, same_decision_iff e d))
    | inr later ↦ rw miss (option_for-Sound os m d s.1 later)
  ]
]

In-append :
    (d : ApprovalDecision) (xs ys : List ApprovalDecision) → In d (xs ++ ys) → In d xs ⊎ In d ys
In-append d [] ys h = inr h
In-append d (x ∷ xs) ys (inl h) = inl (inl h)
In-append d (x ∷ xs) ys (inr h) = elim (In-append d xs ys h) [ inl l ↦ inl (inr l) | inr r ↦ inr r ]

-- Every decision shown is `cancel` or stands for one of the agent's options.
pub shown_decision :
    (os : List PermissionOption) (p : PermissionPresentation) (d : ApprovalDecision)
    → IsPresentation os p
    → In d p.decisions
    → (d ≡ cancel)
      ⊎ ((id : Text) × (option_for d p.option_ids ≡ some id)
          × Offers os d id
          × (is_empty id ≡ false))
shown_decision os p d s h =
    elim (In-append d (decided p.option_ids) (cancel ∷ []) (subst (In d) s.0 h)) [
      | inl l ↦ inr (option_for-Sound os p.option_ids d s.1 l)
      | inr (inl r) ↦ inl r
      | inr (inr r) ↦ absurd r
    ]

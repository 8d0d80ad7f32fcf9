-- ===== src/ToolBroker/Compiled.antt =====
-- toolBroker.ts: what `configureConversation` takes for the tools of a scope.
use tea_desktop.Base.Map.{IsMap}
use tea_desktop.Base.{
  ◌≡◌, sym, ap, ◌∙◌, subst, true, false, not, ◌&&◌, List, [], ◌∷◌, ◌++◌, ok, arith, All, ◌>>◌,
  throw_if, >>=-ok, &&-eq-true, append-nil, append_assoc, throw_if-ok,
}
use tea_desktop.Base.Text.{Text}
use tea_desktop.Base.Map
use tea_desktop.Conversation.Values.{Json}
use tea_desktop.ToolBroker.Definitions.{
  describes_object, HostToolDefinition, Platform, Limits, compile_definitions, validate_definition,
  metadata_ok, schema_ok, invalid_configuration,
}
use tea_desktop.Base.Map.{IsMap}
use tea_desktop.ToolBroker.Definitions.{describes_object}
use tea_desktop.ToolBroker.Results.{IsBounded, is_valid→valid}

-- A definition that `configureConversation` accepts.
abbrev pub IsAcceptable : Platform → Limits → HostToolDefinition → Type 0
IsAcceptable platform limits d =
    (metadata_ok platform d ≡ true)
    × (describes_object d.input_schema ≡ true)
    × IsBounded limits d.input_schema
    × (describes_object d.output_schema ≡ true)
    × IsBounded limits d.output_schema
    × (platform.compiles d.input_schema ≡ true)
    × (platform.compiles d.output_schema ≡ true)

schema_ok→ :
    (limits : Limits) (schema : Json)
    → schema_ok limits schema ≡ true
    → (describes_object schema ≡ true) × IsBounded limits schema
unfolding schema_ok
schema_ok→ limits schema h =
    let (o, v) = &&-eq-true (describes_object schema) _ h in (o, is_valid→valid limits schema v)

abbrev pub named_pairs : List HostToolDefinition → List (Text × HostToolDefinition)
named_pairs [] = []
named_pairs (d ∷ ds) = (d.name, d) ∷ named_pairs ds

validated :
    (platform : Platform) (limits : Limits) (d d₁ : HostToolDefinition)
    → validate_definition platform limits d ≡ ok d₁
    → (d₁ ≡ d)
      × (metadata_ok platform d ≡ true)
      × (schema_ok limits d.input_schema ≡ true)
      × (schema_ok limits d.output_schema ≡ true)
unfolding validate_definition
validated platform limits d d₁ h = (ground arith, ground arith, ground arith, ground arith)

acceptable :
    (platform : Platform) (limits : Limits) (d : HostToolDefinition)
    → metadata_ok platform d ≡ true
    → schema_ok limits d.input_schema ≡ true
    → schema_ok limits d.output_schema ≡ true
    → not (platform.compiles d.input_schema && platform.compiles d.output_schema) ≡ false
    → IsAcceptable platform limits d
acceptable platform limits d m i o c =
    let (i₁, i₂) = schema_ok→ limits d.input_schema i in
    let (o₁, o₂) = schema_ok→ limits d.output_schema o in
    let (c₁, c₂) =
      &&-eq-true (platform.compiles d.input_schema) (platform.compiles d.output_schema)
        (ground arith) in
    (m, i₁, i₂, o₁, o₂, c₁, c₂)

compiled_from :
    (platform : Platform) (limits : Limits) (done : List (Text × HostToolDefinition))
    → (definitions : List HostToolDefinition) (compiled : List (Text × HostToolDefinition))
    → IsMap done
    → compile_definitions platform limits done definitions ≡ ok compiled
    → (compiled ≡ done ++ named_pairs definitions)
      × IsMap compiled
      × All (IsAcceptable platform limits) definitions
unfolding compile_definitions
compiled_from platform limits done [] compiled u h =
    let e : done ≡ compiled = ground arith in (sym e ∙ sym (append-nil done), subst IsMap e u, tt)
compiled_from platform limits done (d ∷ definitions) compiled u h =
    let (d₁, v, h₁) = >>=-ok (validate_definition platform limits d) _ h in
    let (same, m, i, o) = validated platform limits d d₁ v in
    let rest = compile_definitions platform limits (Map.set d₁.name d₁ done) definitions in
    let bad = not (platform.compiles d₁.input_schema && platform.compiles d₁.output_schema) in
    let (new, h₂) =
      throw_if-ok (Map.has d₁.name done) invalid_configuration
        (throw_if bad invalid_configuration >> rest) h₁ in
    let (c, h₃) = throw_if-ok bad invalid_configuration rest h₂ in
    let (all, keys, others) =
      compiled_from platform limits (Map.set d₁.name d₁ done) definitions compiled
        (Map.set-IsMap d₁.name d₁ done u) h₃ in
    (
      all
          ∙ ap (λ x. x ++ named_pairs definitions) (Map.set_absent d₁.name d₁ done (ground arith))
          ∙ append_assoc done ((d₁.name, d₁) ∷ []) (named_pairs definitions)
          ∙ ap (λ (x : HostToolDefinition). done ++ ((x.name, x) ∷ named_pairs definitions)) same,
      keys,
      (
        acceptable platform limits d m i o (
            subst
              (λ (x : HostToolDefinition).
                not (platform.compiles x.input_schema && platform.compiles x.output_schema) ≡ false)
              same c),
        others,
      ),
    )

-- When all definitions are accepted, the tools of the scope are the definitions in their order, each
-- under its own name, and no name stands twice. Each has well-formed metadata, and an input and an
-- output schema that describe an object, are plain JSON within the limits, and compile.
pub compile_definitions_lem :
    (platform : Platform) (limits : Limits)
    → (definitions : List HostToolDefinition) (compiled : List (Text × HostToolDefinition))
    → compile_definitions platform limits [] definitions ≡ ok compiled
    → (compiled ≡ named_pairs definitions)
      × IsMap compiled
      × All (IsAcceptable platform limits) definitions
compile_definitions_lem platform limits definitions compiled h =
    compiled_from platform limits [] definitions compiled tt h

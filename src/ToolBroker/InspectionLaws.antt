-- ===== src/ToolBroker/InspectionLaws.antt =====
-- `inspectJson` against an independent description: the size of the JSON text and the depth.
use tea_desktop.Base.{
  ℕ, ◌+◌, ◌≤◌, ◌≡◌, refl, ◌↔◌, Bool, true, false, ◌&&◌, [], ◌∷◌, if◌then◌else◌, ltb, arith, length,
  ap, ◌∙◌, &&-eq-true, Bool-cases, inl, inr,
}
use Prim.Native.Nat.{max}
use tea_desktop.Base.Text.{Text}
use tea_desktop.Conversation.Values.{
  Json, null, boolean, number, string, array, object, other, Items, nil, cons, Fields, end, field,
}
use tea_desktop.ToolBroker.Inspection.{
  byte_length, quoted_length, JsonInspection, valid, invalid, depth_exceeded, size_exceeded,
  and_then, charge, comma, visit_key, visit_string, escaped_length, unit_bytes, escaped_bytes,
  is_high, is_low, visit, visit_items, visit_fields, inspect_json,
}

-- The bytes of `JSON.stringify(value)`, the depth of a value, and whether all of it is JSON.
mutual
  pub json_length : Json → ℕ
  json_length null = 4
  json_length (boolean b) = if b then 4 else 5
  json_length (number n) = length n.printed
  json_length (string s) = quoted_length s
  json_length (array items) = 2 + items_length items true
  json_length (object fields) = 2 + fields_length fields true
  json_length other = 0

  pub items_length : Items → Bool → ℕ
  items_length nil first = 0
  items_length (cons item items) first =
      (if first then 0 else 1) + json_length item + items_length items false

  pub fields_length : Fields → Bool → ℕ
  fields_length end first = 0
  fields_length (field key item fields) first =
      (if first then 0 else 1)
      + (quoted_length key + 1)
      + json_length item
      + fields_length fields false

mutual
  pub json_depth : Json → ℕ
  json_depth (array items) = 1 + items_depth items
  json_depth (object fields) = 1 + fields_depth fields
  json_depth null = 1
  json_depth (boolean b) = 1
  json_depth (number n) = 1
  json_depth (string s) = 1
  json_depth other = 1

  pub items_depth : Items → ℕ
  items_depth nil = 0
  items_depth (cons item items) = max (json_depth item) (items_depth items)

  pub fields_depth : Fields → ℕ
  fields_depth end = 0
  fields_depth (field key item fields) = max (json_depth item) (fields_depth fields)

mutual
  pub is_plain : Json → Bool
  is_plain null = true
  is_plain (boolean b) = true
  is_plain (number n) = n.finite
  is_plain (string s) = true
  is_plain (array items) = are_plain items
  is_plain (object fields) = fields_plain fields
  is_plain other = false

  pub are_plain : Items → Bool
  are_plain nil = true
  are_plain (cons item items) = is_plain item && are_plain items

  pub fields_plain : Fields → Bool
  fields_plain end = true
  fields_plain (field key item fields) = is_plain item && fields_plain fields

unit_bytes-le : (c : ℕ) → unit_bytes c ≤ escaped_bytes c
unit_bytes-le c = ground arith

-- A text is never shorter in quotes.
byte_length-escaped : (s : Text) → byte_length s ≤ escaped_length s
unfolding byte_length escaped_length
byte_length-escaped [] = omega arith
byte_length-escaped (c ∷ []) = unit_bytes-le c
byte_length-escaped (c ∷ d ∷ s) = elim (Bool-cases (is_high c && is_low d)) [
  | inl e ↦ rw e (omega (arith, byte_length-escaped s))
  | inr e ↦ rw e (omega (arith, byte_length-escaped (d ∷ s), unit_bytes-le c))
]

byte_length-quoted : (s : Text) → byte_length s + 2 ≤ quoted_length s
unfolding quoted_length
byte_length-quoted s = omega (arith, byte_length-escaped s)

and_then_valid :
    (r : JsonInspection × ℕ) (rest : ℕ → JsonInspection × ℕ) (m : ℕ)
    → and_then r rest ≡ (valid, m)
    → (n : ℕ) × (r ≡ (valid, n)) × (rest n ≡ (valid, m))
unfolding and_then
and_then_valid (valid, n) rest m h = (n, refl, h)
and_then_valid (invalid, n) rest m h = cc
and_then_valid (depth_exceeded, n) rest m h = cc
and_then_valid (size_exceeded, n) rest m h = cc

charge_valid :
    (limit bytes amount n : ℕ)
    → charge limit bytes amount ≡ (valid, n)
    → (n ≡ bytes + amount) × (n ≤ limit)
charge_valid limit bytes amount n h = ground arith

comma_valid :
    (limit depth : ℕ) (first : Bool) (bytes n : ℕ)
    → comma limit depth first bytes ≡ (valid, n)
    → bytes ≤ limit
    → (n ≡ bytes + (if first then 0 else 1)) × (n ≤ limit)
comma_valid limit depth first bytes n h b = ground arith

key_valid :
    (limit depth : ℕ) (key : Text) (bytes n : ℕ)
    → visit_key limit depth key bytes ≡ (valid, n)
    → (n ≡ bytes + (quoted_length key + 1)) × (n ≤ limit)
unfolding visit_key
key_valid limit depth key bytes n h = ground arith

string_valid :
    (limit depth : ℕ) (s : Text) (bytes n : ℕ)
    → visit_string limit depth s bytes ≡ (valid, n)
    → (n ≡ bytes + quoted_length s) × (n ≤ limit)
unfolding visit_string
string_valid limit depth s bytes n h = ground arith

charge_complete :
    (limit bytes amount : ℕ)
    → bytes + amount ≤ limit
    → charge limit bytes amount ≡ (valid, bytes + amount)
charge_complete limit bytes amount h = ground arith

comma_complete :
    (limit depth : ℕ) (first : Bool) (bytes : ℕ)
    → bytes + (if first then 0 else 1) ≤ limit
    → comma limit depth first bytes ≡ (valid, bytes + (if first then 0 else 1))
comma_complete limit depth first bytes h = ground arith

key_complete :
    (limit depth : ℕ) (key : Text) (bytes : ℕ)
    → bytes + (quoted_length key + 1) ≤ limit
    → visit_key limit depth key bytes ≡ (valid, bytes + (quoted_length key + 1))
unfolding visit_key
key_complete limit depth key bytes h = ground (arith, byte_length-quoted key)

string_complete :
    (limit depth : ℕ) (s : Text) (bytes : ℕ)
    → bytes + quoted_length s ≤ limit
    → visit_string limit depth s bytes ≡ (valid, bytes + quoted_length s)
unfolding visit_string
string_complete limit depth s bytes h = ground (arith, byte_length-quoted s)

ltb-false : (a b : ℕ) → b ≤ a → ltb a b ≡ false
ltb-false a b h = ground arith

module _ (max_bytes max_depth : ℕ) where
  mutual
    unfolding visit visit_items visit_fields json_length items_length fields_length json_depth
        items_depth fields_depth is_plain are_plain fields_plain

    visit_sound :
        (v : Json) (depth bytes bytes' : ℕ)
        → visit max_bytes max_depth v depth bytes ≡ (valid, bytes')
        → (bytes' ≡ bytes + json_length v)
          × (bytes' ≤ max_bytes)
          × (is_plain v ≡ true)
          × (depth + json_depth v ≤ max_depth + 1)
    visit_sound null depth bytes bytes' h = ground arith
    visit_sound (boolean b) depth bytes bytes' h = ground arith
    visit_sound (number n) depth bytes bytes' h = ground arith
    visit_sound (string s) depth bytes bytes' h = ground arith
    visit_sound other depth bytes bytes' h = ground arith
    visit_sound (array items) depth bytes bytes' h = elim (Bool-cases (ltb max_depth depth)) [
      | inl deep ↦ cc (rw deep at h)
      | inr fits ↦
          let (n, c, h₁) = and_then_valid (charge max_bytes bytes 2) _ bytes' (rw fits at h) in
          let two = charge_valid max_bytes bytes 2 n c in
          let rest = items_sound items depth true n bytes' h₁ two.1 (ground arith) in
          ground (arith, two, rest)
    ]
    visit_sound (object fields) depth bytes bytes' h = elim (Bool-cases (ltb max_depth depth)) [
      | inl deep ↦ cc (rw deep at h)
      | inr fits ↦
          let (n, c, h₁) = and_then_valid (charge max_bytes bytes 2) _ bytes' (rw fits at h) in
          let two = charge_valid max_bytes bytes 2 n c in
          let rest = fields_sound fields depth true n bytes' h₁ two.1 (ground arith) in
          ground (arith, two, rest)
    ]

    items_sound :
        (xs : Items) (depth : ℕ) (first : Bool) (bytes bytes' : ℕ)
        → visit_items max_bytes max_depth xs depth first bytes ≡ (valid, bytes')
        → bytes ≤ max_bytes
        → depth ≤ max_depth
        → (bytes' ≡ bytes + items_length xs first)
          × (bytes' ≤ max_bytes)
          × (are_plain xs ≡ true)
          × (depth + items_depth xs ≤ max_depth)
    items_sound nil depth first bytes bytes' h b d = ground arith
    items_sound (cons item items) depth first bytes bytes' h b d =
        let (n, c, h₁) = and_then_valid (comma max_bytes max_depth first bytes) _ bytes' h in
        let (m, v, h₂) =
          and_then_valid (visit max_bytes max_depth item (depth + 1) n) _ bytes' h₁ in
        let one = visit_sound item (depth + 1) n m v in
        let rest = items_sound items depth false m bytes' h₂ one.1 d in
        ground (arith, comma_valid max_bytes max_depth first bytes n c b, one, rest)

    fields_sound :
        (xs : Fields) (depth : ℕ) (first : Bool) (bytes bytes' : ℕ)
        → visit_fields max_bytes max_depth xs depth first bytes ≡ (valid, bytes')
        → bytes ≤ max_bytes
        → depth ≤ max_depth
        → (bytes' ≡ bytes + fields_length xs first)
          × (bytes' ≤ max_bytes)
          × (fields_plain xs ≡ true)
          × (depth + fields_depth xs ≤ max_depth)
    fields_sound end depth first bytes bytes' h b d = ground arith
    fields_sound (field key item fields) depth first bytes bytes' h b d =
        let (n, c, h₁) = and_then_valid (comma max_bytes max_depth first bytes) _ bytes' h in
        let (k, s, h₂) = and_then_valid (visit_key max_bytes max_depth key n) _ bytes' h₁ in
        let (m, v, h₃) =
          and_then_valid (visit max_bytes max_depth item (depth + 1) k) _ bytes' h₂ in
        let one = visit_sound item (depth + 1) k m v in
        let rest = fields_sound fields depth false m bytes' h₃ one.1 d in
        ground (
          arith,
          comma_valid max_bytes max_depth first bytes n c b,
          key_valid max_bytes max_depth key n k s,
          one,
          rest,
        )

and_then_step :
    (r : JsonInspection × ℕ) (rest : ℕ → JsonInspection × ℕ) (n m : ℕ)
    → r ≡ (valid, n)
    → rest n ≡ (valid, m)
    → and_then r rest ≡ (valid, m)
unfolding and_then
and_then_step r rest n m e h = rw e h

module _ (max_bytes max_depth : ℕ) where
  mutual
    unfolding visit visit_items visit_fields json_length items_length fields_length json_depth
        items_depth fields_depth is_plain are_plain fields_plain

    visit_complete :
        (v : Json) (depth bytes : ℕ)
        → is_plain v ≡ true
        → depth + json_depth v ≤ max_depth + 1
        → bytes + json_length v ≤ max_bytes
        → visit max_bytes max_depth v depth bytes ≡ (valid, bytes + json_length v)
    visit_complete null depth bytes p d b = ground arith
    visit_complete (boolean x) depth bytes p d b = ground arith
    visit_complete (number n) depth bytes p d b = ground arith
    visit_complete (string s) depth bytes p d b =
        ground (arith, string_complete max_bytes max_depth s bytes)
    visit_complete other depth bytes p d b = cc
    visit_complete (array items) depth bytes p d b = rw (ltb-false max_depth depth (omega arith)) (
        and_then_step (charge max_bytes bytes 2) _ (bytes + 2) _
          (charge_complete max_bytes bytes 2 (omega arith))
          (items_complete items depth true (bytes + 2) p (omega arith) (omega arith)
            ∙ ap (λ (n : ℕ). (valid, n)) (omega arith)))
    visit_complete (object fields) depth bytes p d b =
        rw (ltb-false max_depth depth (omega arith)) (
          and_then_step (charge max_bytes bytes 2) _ (bytes + 2) _
            (charge_complete max_bytes bytes 2 (omega arith))
            (fields_complete fields depth true (bytes + 2) p (omega arith) (omega arith)
              ∙ ap (λ (n : ℕ). (valid, n)) (omega arith)))

    items_complete :
        (xs : Items) (depth : ℕ) (first : Bool) (bytes : ℕ)
        → are_plain xs ≡ true
        → depth + items_depth xs ≤ max_depth
        → bytes + items_length xs first ≤ max_bytes
        → visit_items max_bytes max_depth xs depth first bytes
          ≡ (valid, bytes + items_length xs first)
    items_complete nil depth first bytes p d b = ap (λ (n : ℕ). (valid, n)) (omega arith)
    items_complete (cons item items) depth first bytes p d b =
        let c : ℕ = if first then 0 else 1 in
        let l = json_length item in
        let (p₁, p₂) = &&-eq-true (is_plain item) (are_plain items) p in
        and_then_step (comma max_bytes max_depth first bytes) _ (bytes + c) _
          (comma_complete max_bytes max_depth first bytes (omega arith))
          (and_then_step (visit max_bytes max_depth item (depth + 1) (bytes + c)) _ (bytes + c + l)
            _ (visit_complete item (depth + 1) (bytes + c) p₁ (omega arith) (omega arith))
            (items_complete items depth false (bytes + c + l) p₂ (omega arith) (omega arith)
              ∙ ap (λ (n : ℕ). (valid, n)) (omega arith)))

    fields_complete :
        (xs : Fields) (depth : ℕ) (first : Bool) (bytes : ℕ)
        → fields_plain xs ≡ true
        → depth + fields_depth xs ≤ max_depth
        → bytes + fields_length xs first ≤ max_bytes
        → visit_fields max_bytes max_depth xs depth first bytes
          ≡ (valid, bytes + fields_length xs first)
    fields_complete end depth first bytes p d b = ap (λ (n : ℕ). (valid, n)) (omega arith)
    fields_complete (field key item fields) depth first bytes p d b =
        let c : ℕ = if first then 0 else 1 in
        let q = quoted_length key + 1 in
        let l = json_length item in
        let (p₁, p₂) = &&-eq-true (is_plain item) (fields_plain fields) p in
        and_then_step (comma max_bytes max_depth first bytes) _ (bytes + c) _
          (comma_complete max_bytes max_depth first bytes (omega arith))
          (and_then_step (visit_key max_bytes max_depth key (bytes + c)) _ (bytes + c + q) _
            (key_complete max_bytes max_depth key (bytes + c) (omega arith))
            (and_then_step (visit max_bytes max_depth item (depth + 1) (bytes + c + q)) _
              (bytes + c + q + l) _
              (visit_complete item (depth + 1) (bytes + c + q) p₁ (omega arith) (omega arith))
              (fields_complete fields depth false (bytes + c + q + l) p₂ (omega arith) (omega arith)
                ∙ ap (λ (n : ℕ). (valid, n)) (omega arith))))

-- `inspectJson` says `valid` of exactly those values all of which is JSON, whose nesting is at most
-- the depth limit and whose text `JSON.stringify(value)` takes at most the limit of bytes in UTF-8.
pub inspect_json_iff :
    (max_bytes max_depth : ℕ) (v : Json)
    → (inspect_json max_bytes max_depth v ≡ valid)
      ↔ ((is_plain v ≡ true) × (json_depth v ≤ max_depth) × (json_length v ≤ max_bytes))
unfolding inspect_json
inspect_json_iff max_bytes max_depth v = (
  λ h.
      let r = visit max_bytes max_depth v 1 0 in
      let s = visit_sound max_bytes max_depth v 1 0 r.1 (ap (λ (x : JsonInspection). (x, r.1)) h) in
      (s.2, omega arith, omega arith),
  λ h.
      ap (λ (x : JsonInspection × ℕ). x.0)
        (visit_complete max_bytes max_depth v 1 0 h.0 (omega arith) (omega arith)),
)

-- ===== src/ToolBroker/Inspection.antt =====
-- toolBroker.ts: `inspectJson`, which bounds the depth of a value and the size of its JSON text.
use tea_desktop.Base.{
  ℕ, ◌+◌, Bool, true, false, ◌&&◌, ◌||◌, [], ◌∷◌, if◌then◌else◌, leb, ltb, ◌==◌, length,
}
use tea_desktop.Base.Text.{Text}
use tea_desktop.Conversation.Values.{
  Json, null, boolean, number, string, array, object, other, Items, nil, cons, Fields, end, field,
}

abbrev pub is_high : ℕ → Bool
is_high c = leb 0xd800 c && leb c 0xdbff

abbrev pub is_low : ℕ → Bool
is_low c = leb 0xdc00 c && leb c 0xdfff

-- Bytes of one code unit outside of a surrogate pair. A lone surrogate is written as U+FFFD.
abbrev pub unit_bytes : ℕ → ℕ
unit_bytes c = if ltb c 0x80 then 1 else (if ltb c 0x800 then 2 else 3)

-- `Buffer.byteLength(text, 'utf8')`
unfoldable pub byte_length : Text → ℕ
byte_length [] = 0
byte_length (c ∷ []) = unit_bytes c
byte_length (c ∷ d ∷ s) =
    let pair = 4 + byte_length s in
    let single = unit_bytes c + byte_length (d ∷ s) in
    if is_high c && is_low d then pair else single

-- `\b \t \n \f \r \" \\` take two characters; other controls and lone surrogates `\u` and four.
abbrev pub is_short_escape : ℕ → Bool
is_short_escape c = c == 8 || c == 9 || c == 10 || c == 12 || c == 13 || c == 34 || c == 92

abbrev pub escaped_bytes : ℕ → ℕ
escaped_bytes c =
    if is_short_escape c then 2 else (if ltb c 32 || is_high c || is_low c then 6 else unit_bytes c)

unfoldable pub escaped_length : Text → ℕ
escaped_length [] = 0
escaped_length (c ∷ []) = escaped_bytes c
escaped_length (c ∷ d ∷ s) =
    let pair = 4 + escaped_length s in
    let single = escaped_bytes c + escaped_length (d ∷ s) in
    if is_high c && is_low d then pair else single

-- `Buffer.byteLength(JSON.stringify(text), 'utf8')`
unfoldable pub quoted_length : Text → ℕ
unfolding escaped_length
quoted_length s = 2 + escaped_length s

pub data JsonInspection : Type 0 where
  valid invalid depth_exceeded size_exceeded : JsonInspection

-- `addBytes` on the running count, and the verdict that follows it.
abbrev pub charge : ℕ → ℕ → ℕ → JsonInspection × ℕ
charge max_bytes bytes amount =
    (if leb (bytes + amount) max_bytes then valid else size_exceeded, bytes + amount)

-- Goes on with the rest if the verdict so far is `valid`.
unfoldable pub and_then : JsonInspection × ℕ → (ℕ → JsonInspection × ℕ) → JsonInspection × ℕ
and_then r rest = elim r.0 [ valid ↦ rest r.1 | _ ↦ r ]

module _ (max_bytes max_depth : ℕ) where
  unfoldable pub visit_string : Text → ℕ → JsonInspection × ℕ
  visit_string s bytes =
      if ltb max_bytes (byte_length s)
      then (size_exceeded, bytes)
      else charge max_bytes bytes (quoted_length s)

  -- The comma before every entry but the first.
  abbrev pub comma : Bool → ℕ → JsonInspection × ℕ
  comma first bytes = if first then (valid, bytes) else charge max_bytes bytes 1

  -- The key of an object's entry with its colon.
  unfoldable pub visit_key : Text → ℕ → JsonInspection × ℕ
  visit_key key bytes =
      if ltb max_bytes (byte_length key)
      then (size_exceeded, bytes)
      else charge max_bytes bytes (quoted_length key + 1)

  unfoldable mutual
    unfolding visit_string visit_key

    pub visit_items : Items → ℕ → Bool → ℕ → JsonInspection × ℕ
    visit_items nil depth first bytes = (valid, bytes)
    visit_items (cons item items) depth first bytes =
        and_then (comma first bytes)
          (λ n. and_then (visit item (depth + 1) n) (λ m. visit_items items depth false m))

    pub visit_fields : Fields → ℕ → Bool → ℕ → JsonInspection × ℕ
    visit_fields end depth first bytes = (valid, bytes)
    visit_fields (field key item fields) depth first bytes = and_then (comma first bytes) (λ n.
        and_then (visit_key key n)
          (λ k. and_then (visit item (depth + 1) k) (λ m. visit_fields fields depth false m)))

    pub visit : Json → ℕ → ℕ → JsonInspection × ℕ
    visit null depth bytes =
        if ltb max_depth depth then (depth_exceeded, bytes) else charge max_bytes bytes 4
    visit (boolean b) depth bytes =
        if ltb max_depth depth
        then (depth_exceeded, bytes)
        else charge max_bytes bytes (if b then 4 else 5)
    visit (number n) depth bytes =
        if ltb max_depth depth
        then (depth_exceeded, bytes)
        else (if n.finite then charge max_bytes bytes (length n.printed) else (invalid, bytes))
    visit (string s) depth bytes =
        if ltb max_depth depth then (depth_exceeded, bytes) else visit_string s bytes
    visit other depth bytes =
        if ltb max_depth depth then (depth_exceeded, bytes) else (invalid, bytes)
    visit (array items) depth bytes =
        if ltb max_depth depth
        then (depth_exceeded, bytes)
        else and_then (charge max_bytes bytes 2) (λ n. visit_items items depth true n)
    visit (object fields) depth bytes =
        if ltb max_depth depth
        then (depth_exceeded, bytes)
        else and_then (charge max_bytes bytes 2) (λ n. visit_fields fields depth true n)

  unfoldable pub inspect_json : Json → JsonInspection
  inspect_json value = (visit value 1 0).0

-- ===== src/Acp/Projector/Reading.antt =====
-- projector.ts: what an agent has said, and what a reader of the events makes of it.
use tea_desktop.Base.{
  ◌≡◌, refl, sym, ap, ◌∙◌, true, false, List, [], ◌∷◌, ◌++◌, Option, none, some, if◌then◌else◌,
  arith, Bool-cases, inl, inr, append-nil,
}
use tea_desktop.Base.Map
use tea_desktop.Base.Text.{Text, text_eq, text_eq_iff, is_empty}
use tea_desktop.Conversation.{given, ConversationEventKind, message_delta, thought_delta}
use tea_desktop.Acp.Updates.{
  V2Update, content_text, agent_message_chunk, agent_message, agent_thought_chunk, agent_thought,
}
use tea_desktop.Acp.Projector.{Projector, content_of, full_text}

-- What the agent's updates say that the content under an id is: a chunk adds to it, and a full message
-- or thought, unless its content is left out, takes its place.
abbrev pub Contents : Type 0
Contents = Text → Text

abbrev pub put : Text → Text → Contents → Contents
put id text held k = if text_eq id k then text else held k

abbrev pub put_full : Text → Option Text → Contents → Contents
put_full id none held = held
put_full id (some text) held = put id text held

abbrev pub message_contents : V2Update → Contents → Contents
message_contents (agent_message_chunk id content) held =
    put id (held id ++ content_text content) held
message_contents (agent_message id content) held = put_full id (full_text content) held
message_contents _ held = held

abbrev pub thought_contents : V2Update → Contents → Contents
thought_contents (agent_thought_chunk id content) held =
    put id (held id ++ content_text content) held
thought_contents (agent_thought id content) held = put_full id (full_text content) held
thought_contents _ held = held

-- What a reader of the events makes of them. A thought's delta names the thought; a message's belongs
-- to the message of its update.
abbrev pub read_thoughts : List ConversationEventKind → Contents → Contents
read_thoughts [] held = held
read_thoughts (thought_delta text (given id) replace ∷ events) held =
    read_thoughts events (put id (if replace then text else held id ++ text) held)
read_thoughts (event ∷ events) held = read_thoughts events held

abbrev pub said : List ConversationEventKind → Text
said [] = []
said (message_delta text terminal ∷ events) = text ++ said events
said (event ∷ events) = said events

abbrev pub read_messages : V2Update → List ConversationEventKind → Contents → Contents
read_messages (agent_message_chunk id content) events held = put id (held id ++ said events) held
read_messages (agent_message id content) events held = put id (held id ++ said events) held
read_messages update events held = held

is_empty→ : (t : Text) → is_empty t ≡ true → t ≡ []
is_empty→ [] h = refl
is_empty→ (c ∷ t) h = cc

pub content_of-set :
    (id k text : Text) (held : List (Text × Text))
    → content_of k (Map.set id text held) ≡ put id text (λ j. content_of j held) k
content_of-set id k text held = ground (arith, Map.get-set id k text held)

-- A write of what is there already changes nothing.
pub put_same : (id k text : Text) (held : Contents) → held id ≡ text → put id text held k ≡ held k
put_same id k text held h = elim (Bool-cases (text_eq id k)) [
  | inl e ↦ rw e (sym h ∙ ap held ((text_eq_iff id k).0 e))
  | inr e ↦ rw e refl
]

-- The projector's contents are the agent's, and a reader of the events has them as well.
pub record Agree (update : V2Update) (p q : Projector) (events : List ConversationEventKind)
    : Type 0 where
  pub messages :
      (k : Text)
      → content_of k q.v2_agent_messages
        ≡ message_contents update (λ j. content_of j p.v2_agent_messages) k
  pub thoughts :
      (k : Text)
      → content_of k q.v2_agent_thoughts
        ≡ thought_contents update (λ j. content_of j p.v2_agent_thoughts) k
  pub messages_read :
      (k : Text)
      → content_of k q.v2_agent_messages
        ≡ read_messages update events (λ j. content_of j p.v2_agent_messages) k
  pub thoughts_read :
      (k : Text)
      → content_of k q.v2_agent_thoughts
        ≡ read_thoughts events (λ j. content_of j p.v2_agent_thoughts) k

module _ (id k : Text) (held : List (Text × Text)) where
  abbrev Held : Contents
  Held j = content_of j held

  -- Nothing was added.
  pub keep_empty :
      (t : Text) → is_empty t ≡ true → content_of k held ≡ put id (content_of id held ++ t) Held k
  keep_empty t e = sym (
      put_same id k (content_of id held ++ t) Held (
        sym (append-nil (content_of id held))
        ∙ ap (λ (u : Text). content_of id held ++ u) (sym (is_empty→ t e))))

  -- A write of a text that a reader has in two parts.
  pub set_parts :
      (next t : Text)
      → content_of id held ++ t ≡ next
      → content_of k (Map.set id next held) ≡ put id (content_of id held ++ t) Held k
  set_parts next t e = content_of-set id k next held ∙ ap (λ (u : Text). put id u Held k) (sym e)

  -- A thought's delta, or none if it is empty.
  pub set_thought :
      (next t : Text)
      → content_of id held ++ t ≡ next
      → content_of k (Map.set id next held)
        ≡ read_thoughts (if is_empty t then [] else thought_delta t (given id) false ∷ []) Held k
  set_thought next t e = elim (Bool-cases (is_empty t)) [
    | inl n ↦ rw n (set_parts next t e ∙ sym (keep_empty t n))
    | inr n ↦ rw n (set_parts next t e)
  ]

pub said_delta : (t : Text) → said (if is_empty t then [] else message_delta t false ∷ []) ≡ t
said_delta [] = refl
said_delta (c ∷ t) = append-nil (c ∷ t)

-- A message's delta tells a reader nothing of thoughts.
pub silent :
    (t : Text) (held : Contents) (k : Text)
    → read_thoughts (if is_empty t then [] else message_delta t false ∷ []) held k ≡ held k
silent t held k = ground arith

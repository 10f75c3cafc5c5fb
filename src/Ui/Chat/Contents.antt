-- ===== src/Ui/Chat/Contents.antt =====
-- What the chunks of a stream make of the contents of a message, by `handleStreamChunk` of
-- frontend/astiango-hub-ui/src/components/core/ai/useAssistantConsole.ts.
use mathlib.Core.List.{foldl}
use astiango_hub.Common.{
  ◌≡◌, ◌≢◌, refl, sym, ap, ◌∙◌, ◌⊎◌, inl, inr, Bool, true, false, Bool-cases, Option, none, some,
  Option-cases, List, [], ◌∷◌, ◌++◌, append-nil, append_assoc, All, Text, or_empty, eq_text,
  find_index, find, modify_at, if◌then◌else◌,
}
use astiango_hub.Common.Texts.Laws.{eq_text_iff, eq_text_refl}
use astiango_hub.Ui.Chat.{ChunkType, ChatbotStreamMessage, ChatMessageContent, ChatMessage}
use astiango_hub.Ui.Chat.Chunks.{
  contents_of, has_content_key, shown_text, append_text, text_content, action_content,
  update_content, new_contents, add_content, add_usage, update_message,
}

-- The first element that a test accepts is changed, or others are added at the end.
module _ {A : Type 0} (p : A → Bool) (f : A → A) (new : List A) where
  abbrev pub upsert : List A → List A
  upsert [] = new
  upsert (x ∷ xs) = let rest = upsert xs in if p x then f x ∷ xs else x ∷ rest

  upsert-found :
      (xs : List A)
      → upsert xs ≡ (elim (find_index p xs) [ some i ↦ modify_at i f xs | none ↦ xs ++ new ])
  unfolding find_index modify_at
  upsert-found [] = refl
  upsert-found (x ∷ xs) = elim (Bool-cases (p x)) [
    | inl here ↦ rw here refl
    | inr other ↦ elim (Option-cases (find_index p xs)) [
      | inl missing ↦ rw (other, upsert-found xs, missing) refl
      | inr (j, at) ↦ rw (other, upsert-found xs, at) refl
    ]
  ]

abbrev pub own_key : ChatbotStreamMessage → Text
own_key chunk = or_empty chunk.key

abbrev pub upserted : ChatbotStreamMessage → List ChatMessageContent → List ChatMessageContent
upserted chunk =
    upsert (has_content_key (own_key chunk)) (update_content chunk.chunk_type chunk)
      (new_contents chunk.chunk_type chunk)

add_content-upsert :
    (chunk : ChatbotStreamMessage) (cs : List ChatMessageContent)
    → add_content chunk cs ≡ upserted chunk cs
unfolding add_content
add_content-upsert chunk cs =
    elim (Option-cases (find_index (has_content_key (own_key chunk)) cs)) [
      | inl missing ↦ rw (upsert-found _ _ _ cs, missing) refl
      | inr (i, at) ↦ rw (upsert-found _ _ _ cs, at) refl
    ]

-- The text that the contents have under a key.
abbrev pub text_in : Option ChatMessageContent → Text
text_in none = []
text_in (some c) = shown_text c.body.content

abbrev pub shown : Text → List ChatMessageContent → Text
shown k cs = text_in (find (has_content_key k) cs)

has_key_ne :
    (k j : Text) (c : ChatMessageContent)
    → j ≢ k
    → c.body.key ≡ some j
    → has_content_key k c ≡ false
has_key_ne k j c ne e = elim (Bool-cases (eq_text j k)) [
  | inl same ↦ absurd (ne ((eq_text_iff j k).0 same))
  | inr differs ↦ rw e differs
]

pub has_key_own :
    (k : Text) (c : ChatMessageContent) → c.body.key ≡ some k → has_content_key k c ≡ true
has_key_own k c e = rw e (eq_text_refl k)

pub key_of_has :
    (k : Text) (c : ChatMessageContent) → has_content_key k c ≡ true → c.body.key ≡ some k
key_of_has k c h = elim (Option-cases c.body.key) [
  | inl missing ↦ absurd (cc (rw missing at h))
  | inr (j, e) ↦ e ∙ ap some ((eq_text_iff j k).0 (rw e at h))
]

-- A text is added to the content that has its key, or begins it.
shown-own :
    (k : Text) (chunk : ChatbotStreamMessage) (cs : List ChatMessageContent)
    → chunk.key ≡ some k
    → shown k
        (upsert (has_content_key k) (append_text chunk) (new_contents ChunkType.text chunk) cs)
      ≡ shown k cs ++ or_empty chunk.content
unfolding find new_contents
shown-own k chunk [] e = rw (has_key_own k (text_content chunk) e) refl
shown-own k chunk (c ∷ cs) e = elim (Bool-cases (has_content_key k c)) [
  | inl here ↦ rw (here, has_key_own k (append_text chunk c) (key_of_has k c here)) refl
  | inr other ↦ rw other (rw other (shown-own k chunk cs e))
]

find-missing :
    (k : Text) (cs : List ChatMessageContent)
    → All (λ c. has_content_key k c ≡ false) cs
    → find (has_content_key k) cs ≡ none
unfolding find
find-missing k [] h = refl
find-missing k (c ∷ cs) (here, h) = rw here (find-missing k cs h)

-- A change under another key leaves the text under a key.
shown-other :
    (k j : Text) (f : ChatMessageContent → ChatMessageContent) (new cs : List ChatMessageContent)
    → j ≢ k
    → ((c : ChatMessageContent) → c.body.key ≡ some j → (f c).body.key ≡ some j)
    → All (λ c. has_content_key k c ≡ false) new
    → shown k (upsert (has_content_key j) f new cs) ≡ shown k cs
unfolding find
shown-other k j f new [] ne keeps fresh = rw (find-missing k new fresh) refl
shown-other k j f new (c ∷ cs) ne keeps fresh = elim (Bool-cases (has_content_key j c)) [
  | inl here ↦
      let e = key_of_has j c here in
      rw (here, has_key_ne k j (f c) ne (keeps c e), has_key_ne k j c ne e) refl
  | inr other ↦ elim (Bool-cases (has_content_key k c)) [
    | inl mine ↦ rw (other, mine) refl
    | inr also ↦ rw (other, also) (shown-other k j f new cs ne keeps fresh)
  ]
]

-- The texts that the chunks with a key carry, one after the other.
abbrev pub said : Text → List ChatbotStreamMessage → Text
said k [] = []
said k (chunk ∷ chunks) =
    (if eq_text (own_key chunk) k then or_empty chunk.content else []) ++ said k chunks

-- A chunk of text with the key, or a chunk of another key.
abbrev pub IsTextUnder : Text → ChatbotStreamMessage → Type 0
IsTextUnder k chunk =
    ((chunk.key ≡ some k) × (chunk.chunk_type ≡ ChunkType.text)) ⊎ (own_key chunk ≢ k)

pub update-key :
    (t : ChunkType) (chunk : ChatbotStreamMessage) (c : ChatMessageContent)
    → c.body.key ≡ some (own_key chunk)
    → (update_content t chunk c).body.key ≡ some (own_key chunk)
unfolding update_content
update-key ChunkType.text chunk c e = e
update-key ChunkType.action chunk c e = elim (Option-cases chunk.key) [
  | inl missing ↦ rw missing (e ∙ ap (λ o. some (or_empty o)) missing)
  | inr (j, present) ↦ rw present refl
]
update-key ChunkType.other chunk c e = e

has_key_absent :
    (k : Text) (c : ChatMessageContent) → or_empty c.body.key ≢ k → has_content_key k c ≡ false
has_key_absent k c ne = elim (Option-cases c.body.key) [
  | inl missing ↦ rw missing refl
  | inr (j, e) ↦ has_key_ne k j c (λ same. ne (ap or_empty e ∙ same)) e
]

new-All-absent :
    (k : Text) (t : ChunkType) (chunk : ChatbotStreamMessage)
    → own_key chunk ≢ k
    → All (λ c. has_content_key k c ≡ false) (new_contents t chunk)
unfolding new_contents
new-All-absent k ChunkType.text chunk ne = (has_key_absent k (text_content chunk) ne, tt)
new-All-absent k ChunkType.action chunk ne = (has_key_absent k (action_content chunk) ne, tt)
new-All-absent k ChunkType.other chunk ne = tt

pub contents_of-update_message :
    (chunk : ChatbotStreamMessage) (m : ChatMessage)
    → contents_of (update_message chunk m) ≡ upserted chunk (contents_of m)
unfolding update_message add_usage
contents_of-update_message chunk m =
    add_content-upsert chunk _
    ∙ ap (upserted chunk)
        (elim (Option-cases chunk.usage) [ inl missing ↦ rw missing refl | inr (u, e) ↦ rw e refl ])

said-own :
    (k : Text) (chunk : ChatbotStreamMessage)
    → chunk.key ≡ some k
    → or_empty chunk.content ≡ said k (chunk ∷ [])
said-own k chunk e =
    let own : eq_text (own_key chunk) k ≡ true =
      ap (λ o. eq_text (or_empty o) k) e ∙ eq_text_refl k in
    rw own (sym (append-nil (or_empty chunk.content)))

shown-add_content :
    (k : Text) (chunk : ChatbotStreamMessage) (cs : List ChatMessageContent)
    → IsTextUnder k chunk
    → shown k (upserted chunk cs) ≡ shown k cs ++ said k (chunk ∷ [])
unfolding update_content
shown-add_content k chunk cs (inl (e, is_text)) =
    let at = λ (o : Option Text) (t : ChunkType).
      shown k (
        upsert (has_content_key (or_empty o)) (update_content t chunk) (new_contents t chunk) cs) in
    ap (λ o. at o chunk.chunk_type) e
    ∙ ap (at (some k)) is_text
    ∙ shown-own k chunk cs e
    ∙ ap (λ w. shown k cs ++ w) (said-own k chunk e)
shown-add_content k chunk cs (inr ne) = elim (Bool-cases (eq_text (own_key chunk) k)) [
  | inl same ↦ absurd (ne ((eq_text_iff (own_key chunk) k).0 same))
  | inr differs ↦
      rw (differs, append-nil (shown k cs))
        (shown-other k (own_key chunk) (update_content chunk.chunk_type chunk) _ cs ne
          (update-key chunk.chunk_type chunk) (new-All-absent k chunk.chunk_type chunk ne))
]

-- What is shown under a key after a sequence of chunks is what was shown before them, followed by the
-- texts that the chunks with the key carry, in their order, if these are chunks of text.
pub update_message-said :
    (k : Text) (chunks : List ChatbotStreamMessage) (m : ChatMessage)
    → All (IsTextUnder k) chunks
    → shown k (contents_of (foldl (λ m chunk. update_message chunk m) m chunks))
      ≡ shown k (contents_of m) ++ said k chunks
update_message-said k [] m h = sym (append-nil _)
update_message-said k (chunk ∷ chunks) m (here, h) =
    update_message-said k chunks (update_message chunk m) h
    ∙ ap (λ w. w ++ said k chunks)
        (ap (shown k) (contents_of-update_message chunk m)
          ∙ shown-add_content k chunk (contents_of m) here)
    ∙ append_assoc (shown k (contents_of m)) (said k (chunk ∷ [])) (said k chunks)
    ∙ ap (λ w. shown k (contents_of m) ++ w) (append_assoc _ [] (said k chunks))

-- ===== src/Ui/Chat/Keys.antt =====
-- No two contents of a message have the same key: an invariant of `handleStreamChunk` of
-- frontend/astiango-hub-ui/src/components/core/ai/useAssistantConsole.ts.
use astiango_hub.Common.{
  ◌≡◌, ◌≢◌, sym, ap, ◌∙◌, inl, inr, true, false, Bool-cases, some, List, [], ◌∷◌, All, All-mono,
  Text, or_empty,
}
use mathlib.Core.Path.{subst}
use astiango_hub.Ui.Chat.{ChunkType, ChatbotStreamMessage, ChatMessageContent, ChatMessage}
use astiango_hub.Ui.Chat.Chunks.{
  contents_of, has_content_key, update_content, new_contents, update_message,
}
use astiango_hub.Ui.Chat.Contents.{
  own_key, upserted, key_of_has, has_key_own, update-key, contents_of-update_message,
}

-- Two contents that do not have the same key.
abbrev pub IsApart : ChatMessageContent → ChatMessageContent → Type 0
IsApart c d = (k : Text) → c.body.key ≡ some k → d.body.key ≢ some k

abbrev pub HasOwnKeys : List ChatMessageContent → Type 0
HasOwnKeys [] = Unit
HasOwnKeys (c ∷ cs) = All (IsApart c) cs × HasOwnKeys cs

module _ (chunk : ChatbotStreamMessage) where
  updated : ChatMessageContent → ChatMessageContent
  updated = update_content chunk.chunk_type chunk

  updated-key :
      (c : ChatMessageContent)
      → has_content_key (own_key chunk) c ≡ true
      → (updated c).body.key ≡ c.body.key
  unfolding updated
  updated-key c h =
      let e = key_of_has (own_key chunk) c h in update-key chunk.chunk_type chunk c e ∙ sym e

  -- What a chunk adds is apart from a content that lacks its key.
  new-All-IsApart :
      (t : ChunkType) (c : ChatMessageContent)
      → has_content_key (own_key chunk) c ≡ false
      → All (IsApart c) (new_contents t chunk)
  unfolding new_contents
  new-All-IsApart t c h = add t
    where
      apart : (k : Text) → c.body.key ≡ some k → chunk.key ≢ some k
      apart k e f =
          let lacks : has_content_key k c ≡ false =
            subst (λ j. has_content_key j c ≡ false) (ap or_empty f) h in
          cc (has_key_own k c e)

      add : (t : ChunkType) → All (IsApart c) (new_contents t chunk)
      add ChunkType.text = (apart, tt)
      add ChunkType.action = (apart, tt)
      add ChunkType.other = tt

  new-HasOwnKeys : (t : ChunkType) → HasOwnKeys (new_contents t chunk)
  unfolding new_contents
  new-HasOwnKeys ChunkType.text = (tt, tt)
  new-HasOwnKeys ChunkType.action = (tt, tt)
  new-HasOwnKeys ChunkType.other = tt

  upserted-All-IsApart :
      (c : ChatMessageContent) (cs : List ChatMessageContent)
      → has_content_key (own_key chunk) c ≡ false
      → All (IsApart c) cs
      → All (IsApart c) (upserted chunk cs)
  unfolding updated
  upserted-All-IsApart c [] h a = new-All-IsApart chunk.chunk_type c h
  upserted-All-IsApart c (d ∷ cs) h (here, a) =
      elim (Bool-cases (has_content_key (own_key chunk) d)) [
        | inl mine ↦ rw mine ((λ k e f. here k e (sym (updated-key d mine) ∙ f)), a)
        | inr other ↦ rw other (here, upserted-All-IsApart c cs h a)
      ]

  upserted-HasOwnKeys :
      (cs : List ChatMessageContent) → HasOwnKeys cs → HasOwnKeys (upserted chunk cs)
  unfolding updated
  upserted-HasOwnKeys [] h = new-HasOwnKeys chunk.chunk_type
  upserted-HasOwnKeys (c ∷ cs) (a, h) = elim (Bool-cases (has_content_key (own_key chunk) c)) [
    | inl mine ↦ rw mine (All-mono cs (λ d apart k e. apart k (sym (updated-key c mine) ∙ e)) a, h)
    | inr other ↦ rw other (upserted-All-IsApart c cs other a, upserted-HasOwnKeys cs h)
  ]

-- No two contents of a message have the same key after a chunk, if this held before it.
pub update_message-HasOwnKeys :
    (chunk : ChatbotStreamMessage) (m : ChatMessage)
    → HasOwnKeys (contents_of m)
    → HasOwnKeys (contents_of (update_message chunk m))
update_message-HasOwnKeys chunk m h =
    subst HasOwnKeys (sym (contents_of-update_message chunk m))
      (upserted-HasOwnKeys chunk (contents_of m) h)

-- ===== src/Ui/LlmStream/Tests.antt =====
-- The stream of frontend/astiango-hub-ui/src/services/llm/index.ts at concrete texts.
use mathlib.Core.List.{flatten}
use astiango_hub.Common.{
  ◌≡◌, refl, arith, Option, none, some, List, [], ◌∷◌, ◌++◌, map, codes, Text, newline, split, drop,
}
use astiango_hub.Ui.Menu.{starts_with}
use astiango_hub.Ui.Chat.Stream.{piece, done}
use astiango_hub.Ui.LlmStream.{
  index_of, take_messages, on_chunk, on_complete, process_stream, callbacks,
  send_streaming_chat_request, streaming,
}
use astiango_hub.Ui.LlmStream.Messages.{messages_of, take_messages_lem}
use astiango_hub.Ui.LlmStream.Laws.{process_stream-pieces}

abbrev parse : Text → Option Text
parse t = some t

abbrev reply : List Text
reply =
    (codes "data: A" ++ newline ∷ [])
    ∷ (newline ∷ codes "data: B")
    ∷ (newline ∷ newline ∷ codes "dat")
    ∷ []

two_chunks :
    send_streaming_chat_request parse (λ headers. streaming (map piece reply ++ done ∷ [])) none
    ≡ on_chunk (codes "A") ∷ on_chunk (codes "B") ∷ on_complete ∷ []
unfolding send_streaming_chat_request starts_with split drop
two_chunks = refl

take_messages_lem_example :
    (take_messages 5 (codes "ab" ++ newline ∷ newline ∷ []) ≡ some (codes "ab" ∷ [], []))
    × (index_of [] ≡ none)
unfolding starts_with messages_of index_of
take_messages_lem_example = take_messages_lem 5 (codes "ab" ++ newline ∷ newline ∷ []) (omega arith)

process_stream-pieces_example :
    process_stream parse (map piece reply ++ done ∷ []) []
    ≡ on_chunk (codes "A") ∷ on_chunk (codes "B") ∷ on_complete ∷ []
unfolding starts_with split drop index_of callbacks process_stream flatten messages_of
process_stream-pieces_example = process_stream-pieces parse reply (done ∷ []) [] refl

-- ===== src/Ui/Chat/Errors.antt =====
-- An event of the kind `error` in the stream that `processStreamData` of
-- frontend/astiango-hub-ui/src/components/core/ai/useAssistantConsole.ts reads: a line
-- `event: error` and a line with the message.
use astiango_hub.Common.{
  ℕ, ◌≡◌, refl, split, pop, false, true, Option, none, some, List, [], ◌∷◌, ◌++◌, All, Text,
  newline, find,
}
use astiango_hub.Ui.Menu.{starts_with}
use astiango_hub.Ui.Chat.{ChatbotStreamMessage, Console}
use astiango_hub.Ui.Chat.Stream.{
  Progress, going, finished, rejected, error, and_then, StreamEvent, piece, received, data_prefix,
  error_prefix, event_data, process_data, process_line, process_lines, process_piece, process_read,
  process_stream_data,
}

-- The lines that a piece completes, after the text that was left before it, and the text that is left.
abbrev pub Completes : Text → Text → List Text → Text → Type 0
Completes buffer t lines rest = pop (split newline (buffer ++ t)) ≡ (lines, rest)

-- A line with a message.
abbrev pub IsDataLine : Text → Type 0
IsDataLine line = starts_with line data_prefix ≡ true

-- A line with neither a message nor the name of an error.
abbrev pub IsOther : Text → Type 0
IsOther line = (starts_with line data_prefix ≡ false) × (starts_with line error_prefix ≡ false)

find-others :
    (earlier later : List Text) (line : Text)
    → All IsOther earlier
    → IsDataLine line
    → find (λ l. starts_with l data_prefix) (earlier ++ error_prefix ∷ line ∷ later) ≡ some line
unfolding find starts_with
find-others [] later line h has_data = rw has_data refl
find-others (l ∷ earlier) later line ((no_data, _), h) has_data =
    rw no_data (find-others earlier later line h has_data)

find-no_data :
    (earlier : List Text)
    → All IsOther earlier
    → find (λ l. starts_with l data_prefix) (earlier ++ error_prefix ∷ []) ≡ none
unfolding find starts_with
find-no_data [] h = refl
find-no_data (l ∷ earlier) ((no_data, _), h) = rw no_data (find-no_data earlier h)

module _ (parse : Text → Option ChatbotStreamMessage) (extract : Text → Text) (i : ℕ) where
  process_lines-others :
      (lines earlier more : List Text) (s : Console)
      → All IsOther earlier
      → process_lines parse extract i lines (earlier ++ more) s
        ≡ process_lines parse extract i lines more s
  unfolding process_lines process_line
  process_lines-others lines [] more s h = refl
  process_lines-others lines (l ∷ earlier) more s ((no_data, no_error), h) =
      rw (no_data, no_error) (process_lines-others lines earlier more s h)

  module _ (events : List StreamEvent) (buffer : Text) (earlier later : List Text) (line : Text)
      (s : Console) (others : All IsOther earlier) (message : IsDataLine line) where
    -- An error whose two lines come in one piece is thrown, with its message.
    error_in_one_piece :
        (t rest : Text)
        → Completes buffer t (earlier ++ error_prefix ∷ line ∷ later) rest
        → process_stream_data parse extract i (received (piece t) ∷ events) buffer s
          ≡ rejected (error (extract (event_data line))) s
    unfolding process_stream_data process_read process_piece process_lines process_line starts_with
    error_in_one_piece t rest completes =
        rw
          (
            completes,
            process_lines-others (earlier ++ error_prefix ∷ line ∷ later) earlier
                (error_prefix ∷ line ∷ later) s others,
            find-others earlier later line others message,
          )
          refl

    -- What is left of the second piece once its lines are read, and what comes after it.
    and_then-rest :
        (q : Progress Console) (rest : Text)
        → and_then {B = Text × Console}
            (and_then {B = Text × Console} q (λ s'. going (rest, s')))
            (λ next. process_stream_data parse extract i events next.0 next.1)
          ≡ and_then q (λ s'. process_stream_data parse extract i events rest s')
    and_then-rest (going s') rest = refl
    and_then-rest (finished s') rest = refl
    and_then-rest (rejected e s') rest = refl

    and_then-line :
        (p : Progress Console) (read : Console → Progress Console) (rest : Text)
        → and_then {B = Text × Console}
            (and_then {B = Text × Console} (and_then p read) (λ s'. going (rest, s')))
            (λ next. process_stream_data parse extract i events next.0 next.1)
          ≡ and_then p (λ s'.
            and_then (read s') (λ s''. process_stream_data parse extract i events rest s''))
    and_then-line (going s') read rest = and_then-rest (read s') rest
    and_then-line (finished s') read rest = refl
    and_then-line (rejected e s') read rest = refl

    -- If the line with the message comes in the next piece, nothing is thrown for the error.
    error_in_two_pieces :
        (t u between rest : Text)
        → Completes buffer t (earlier ++ error_prefix ∷ []) between
        → Completes between u (line ∷ later) rest
        → process_stream_data parse extract i
            (received (piece t) ∷ received (piece u) ∷ events)
            buffer
            s
          ≡ and_then (process_data parse extract i (event_data line) s) (λ s'.
            and_then
              (process_lines parse extract i (line ∷ later) later s')
              (λ s''. process_stream_data parse extract i events rest s''))
    unfolding process_stream_data process_read process_piece process_lines process_line starts_with
    error_in_two_pieces t u between rest first next =
        rw
          (
            first,
            process_lines-others (earlier ++ error_prefix ∷ []) earlier (error_prefix ∷ []) s
                others,
            find-no_data earlier others,
            next,
            message,
          )
          (and_then-line (process_data parse extract i (event_data line) s)
            (process_lines parse extract i (line ∷ later) later) rest)

    -- A line `event: error` and a line with a message, in which no line before them is a message or the
    -- name of an error. If one piece completes the two, the message is thrown, and nothing after it is
    -- read. If a piece completes the first as its last line, and the next piece the second as its first
    -- line, nothing is thrown for the error: the message is read as a chunk of the answer, and if that
    -- does not end the stream, the lines after it and the later events are read next.
    pub error_event_lem :
        (whole t u left between rest : Text)
        → Completes buffer whole (earlier ++ error_prefix ∷ line ∷ later) left
        → Completes buffer t (earlier ++ error_prefix ∷ []) between
        → Completes between u (line ∷ later) rest
        → (process_stream_data parse extract i (received (piece whole) ∷ events) buffer s
            ≡ rejected (error (extract (event_data line))) s)
          × (process_stream_data parse extract i
                (received (piece t) ∷ received (piece u) ∷ events)
                buffer
                s
              ≡ and_then (process_data parse extract i (event_data line) s) (λ s'.
                and_then
                  (process_lines parse extract i (line ∷ later) later s')
                  (λ s''. process_stream_data parse extract i events rest s'')))
    error_event_lem whole t u left between rest one first next =
        (error_in_one_piece whole left one, error_in_two_pieces t u between rest first next)

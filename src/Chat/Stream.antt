-- ===== src/Chat/Stream.antt =====
-- chat.go: `handleStreamingResponse`, the events of a streamed answer.
use high_performance_llm_gat.Prelude.{
  ℕ, zero, suc, ◌≤◌, ◌<◌, ◌≡◌, refl, ap, ◌∙◌, List, [], ◌∷◌, ◌++◌, map, arith, length, take, drop,
  take-append-drop, length-drop, length-take-le, All,
}
use high_performance_llm_gat.Prelude.Text.{utf8}
use high_performance_llm_gat.Prelude.Utf8.{to_valid_utf8, IsAscii, to_valid_utf8-IsAscii}
use high_performance_llm_gat.Chat.{Choice, ChatCompletionResponse}

-- A server-sent event: a message with the bytes of the content that its JSON tells, or the end.
pub data Event : Type 0 where
  message : List ℕ → Event
  done : Event

-- The loop over the content, on fuel: one round for each chunk.
unfoldable pub chunks_from : ℕ → List ℕ → List (List ℕ)
chunks_from zero content = []
chunks_from (suc fuel) [] = []
chunks_from (suc fuel) (b ∷ content) =
    take 20 (b ∷ content) ∷ chunks_from fuel (drop 20 (b ∷ content))

-- A chunk holds a byte at least, so there are no more rounds than bytes.
unfoldable pub chunks : List ℕ → List (List ℕ)
unfolding chunks_from
chunks content = chunks_from (length content) content

-- `SSEvent` of a chunk, whose JSON has a replacement for every byte that is no UTF-8.
unfoldable pub written : List ℕ → Event
unfolding to_valid_utf8
written chunk = message (to_valid_utf8 chunk)

unfoldable pub stream_choices : List Choice → List Event
unfolding chunks written
stream_choices [] = done ∷ []
stream_choices (c ∷ cs) = map written (chunks (utf8 c.message.content)) ++ done ∷ []

-- The events for a response that is not nil.
unfoldable pub streaming_events : ChatCompletionResponse → List Event
unfolding stream_choices
streaming_events resp = stream_choices resp.choices

-- The bytes that a client puts together from the events.
unfoldable pub received : List Event → List ℕ
received [] = []
received (message bytes ∷ es) = bytes ++ received es
received (done ∷ es) = received es

abbrev pub content_of : List Choice → List ℕ
content_of [] = []
content_of (c ∷ cs) = utf8 c.message.content

-- A message carries between 1 and 20 bytes.
abbrev pub IsSmall : Event → Type 0
IsSmall (message bytes) = (0 < length bytes) × (length bytes ≤ 20)
IsSmall done = Unit

-- The one `done` is the last event.
abbrev pub EndsDone : List Event → Type 0
EndsDone [] = ⊥
EndsDone (message bytes ∷ es) = EndsDone es
EndsDone (done ∷ es) = es ≡ []

take-IsAscii : (n : ℕ) (bytes : List ℕ) → IsAscii bytes → IsAscii (take n bytes)
take-IsAscii zero bytes h = tt
take-IsAscii (suc n) [] h = tt
take-IsAscii (suc n) (b ∷ bytes) h = (h.0, take-IsAscii n bytes h.1)

drop-IsAscii : (n : ℕ) (bytes : List ℕ) → IsAscii bytes → IsAscii (drop n bytes)
drop-IsAscii zero bytes h = h
drop-IsAscii (suc n) [] h = tt
drop-IsAscii (suc n) (b ∷ bytes) h = drop-IsAscii n bytes h.1

written-IsAscii : (chunk : List ℕ) → IsAscii chunk → written chunk ≡ message chunk
unfolding written
written-IsAscii chunk h = ap message (to_valid_utf8-IsAscii chunk h)

-- Chunks of ASCII are written as they are.
written-chunks_from :
    (fuel : ℕ) (content : List ℕ)
    → IsAscii content
    → map written (chunks_from fuel content) ≡ map message (chunks_from fuel content)
unfolding chunks_from
written-chunks_from zero content h = refl
written-chunks_from (suc fuel) [] h = refl
written-chunks_from (suc fuel) (b ∷ content) h =
    ap (λ e. e ∷ map written (chunks_from fuel (drop 20 (b ∷ content))))
      (written-IsAscii (take 20 (b ∷ content)) (take-IsAscii 20 (b ∷ content) h))
    ∙ ap (λ es. message (take 20 (b ∷ content)) ∷ es)
        (written-chunks_from fuel (drop 20 (b ∷ content)) (drop-IsAscii 20 (b ∷ content) h))

received-chunks_from :
    (fuel : ℕ) (content : List ℕ)
    → length content ≤ fuel
    → received (map message (chunks_from fuel content) ++ done ∷ []) ≡ content
unfolding received chunks_from
received-chunks_from zero [] h = refl
received-chunks_from zero (b ∷ content) h = absurd (omega arith)
received-chunks_from (suc fuel) [] h = refl
received-chunks_from (suc fuel) (b ∷ content) h =
    ap (λ (l : List ℕ). take 20 (b ∷ content) ++ l)
      (received-chunks_from fuel (drop 20 (b ∷ content))
        (omega (arith, length-drop 20 (b ∷ content))))
    ∙ take-append-drop 20 (b ∷ content)

chunks_from-IsSmall :
    (fuel : ℕ) (content : List ℕ)
    → All IsSmall (map message (chunks_from fuel content) ++ done ∷ [])
unfolding chunks_from
chunks_from-IsSmall zero content = (tt, tt)
chunks_from-IsSmall (suc fuel) [] = (tt, tt)
chunks_from-IsSmall (suc fuel) (b ∷ content) = (
  (omega arith, length-take-le 20 (b ∷ content)),
  chunks_from-IsSmall fuel (drop 20 (b ∷ content)),
)

EndsDone-messages : (cs : List (List ℕ)) → EndsDone (map message cs ++ done ∷ [])
EndsDone-messages [] = refl
EndsDone-messages (c ∷ cs) = EndsDone-messages cs

-- If the content of the first choice is ASCII, a streamed answer carries the whole of it, byte for
-- byte and in order, in messages of 1 to 20 bytes, and ends with the one `done` event. Where a chunk
-- ends within a character of more bytes, its bytes are replaced.
pub streaming_events_complete :
    (resp : ChatCompletionResponse)
    → IsAscii (content_of resp.choices)
    → (received (streaming_events resp) ≡ content_of resp.choices)
      × All IsSmall (streaming_events resp)
      × EndsDone (streaming_events resp)
unfolding streaming_events
streaming_events_complete resp = go resp.choices
  where
    go :
        (cs : List Choice)
        → IsAscii (content_of cs)
        → (received (stream_choices cs) ≡ content_of cs)
          × All IsSmall (stream_choices cs)
          × EndsDone (stream_choices cs)
    go [] h = (unfold received in refl, (tt, tt), refl)
    go (c ∷ cs) h =
        let bytes = utf8 c.message.content in
        rw (written-chunks_from (length bytes) bytes h) (
          received-chunks_from (length bytes) bytes (omega arith),
          chunks_from-IsSmall (length bytes) bytes,
          EndsDone-messages (chunks bytes),
        )

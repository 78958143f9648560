-- ===== src/ChatStream.antt =====
-- `OpenAIToAnthropicStream` of api/app/services/protocols/chat.py, which turns the events of an OpenAI
-- chat stream into those of Anthropic messages. A text is the list of its code points, a
-- chunk the text that `decode` gave for its bytes, and `objects` reads the data lines of an event
-- (`splitlines`, `strip`, `json.loads`), of which the fields that the converter looks at are kept;
-- values of other types than the format has, on which the source raises, are not read.
pub mod Split
pub mod Chunks
pub mod Laws
mod Examples
use llmxy.Prelude.{
  ℕ, Option, none, some, List, [], ◌∷◌, ◌++◌, Bool, true, false, ◌==◌, ◌&&◌, if◌then◌else◌, String,
  str_eq, or_else, is_some,
}

abbrev pub Text : Type 0
Text = List ℕ

-- One parsed object: `usage` with its two counts, where a missing or zero count is none, the finish
-- reason and the content, where an empty text is none.
pub record Chunk : Type 0 where
  pub prompt_tokens : Option ℕ
  pub completion_tokens : Option ℕ
  pub finish_reason : Option String
  pub content : Option Text

pub data StopReason : Type 0 where
  end_turn max_tokens tool_use stop_sequence : StopReason

unfoldable pub stop_reason_of : String → StopReason
stop_reason_of reason =
    if str_eq reason "length"
    then max_tokens
    else if str_eq reason "tool_calls"
    then tool_use
    else if str_eq reason "content_filter"
    then stop_sequence
    else end_turn

-- The events of the answer; the constant parts of their data are left out.
pub data Event : Type 0 where
  message_start : ℕ → Event
  content_block_start content_block_stop message_stop : Event
  content_block_delta : Text → Event
  message_delta : StopReason → ℕ → Event

pub record Stream : Type 0 where
  pub buffer : Text
  pub started : Bool
  pub content_started : Bool
  pub prompt_tokens : ℕ
  pub completion_tokens : ℕ
  pub stop_reason : StopReason

unfoldable pub new_stream : Stream
new_stream = record {
  buffer = [];
  started = false;
  content_started = false;
  prompt_tokens = 0;
  completion_tokens = 0;
  stop_reason = end_turn;
}

-- `_ensure_started`
unfoldable pub start_events : Stream → List Event
start_events s =
    (if s.started then [] else message_start s.prompt_tokens ∷ [])
    ++ (if s.content_started then [] else content_block_start ∷ [])

abbrev pub mark_started : Stream → Stream
mark_started s = record s { started = true; content_started = true }

-- The counts and the finish reason of an object.
unfoldable pub note_usage : Chunk → Stream → Stream
note_usage c s = record s {
  prompt_tokens = or_else c.prompt_tokens s.prompt_tokens;
  completion_tokens = or_else c.completion_tokens s.completion_tokens;
}

unfoldable pub note_finish : Option String → Stream → Stream
note_finish none s = s
note_finish (some reason) s = record s { stop_reason = stop_reason_of reason }

unfoldable pub emit : Option Text → Stream → List Event × Stream
unfolding start_events
emit none s = ([], s)
emit (some content) s = (start_events s ++ content_block_delta content ∷ [], mark_started s)

unfoldable pub take_chunk : Chunk → Stream → List Event × Stream
unfolding note_usage note_finish emit
take_chunk c s = emit c.content (note_finish c.finish_reason (note_usage c s))

unfoldable pub take_chunks : List Chunk → Stream → List Event × Stream
unfolding take_chunk
take_chunks [] s = ([], s)
take_chunks (c ∷ cs) s =
    let (events, s') = take_chunk c s in
    let (more, s'') = take_chunks cs s' in (events ++ more, s'')

-- `split("\n\n")`: the parts, and what stands after the last separator. `part` is the part read so
-- far, its last code point first.
unfoldable pub turned : Text → Text → Text
turned [] acc = acc
turned (c ∷ cs) acc = turned cs (c ∷ acc)

abbrev pub ends_part : ℕ → Text → Bool
ends_part c [] = false
ends_part c (d ∷ ds) = (c == 10) && (d == 10)

abbrev pub without_last : Text → Text
without_last [] = []
without_last (d ∷ ds) = ds

unfoldable pub split : Text → Text → List Text × Text
unfolding turned
split part [] = ([], part)
split part (c ∷ cs) = elim (ends_part c part) [
  | true ↦ let (parts, rest) = split [] cs in (turned (without_last part) [] ∷ parts, rest)
  | false ↦ split (c ∷ part) cs
]

module _ (objects : Text → List Chunk) where
  unfoldable pub take_parts : List Text → Stream → List Event × Stream
  unfolding take_chunks
  take_parts [] s = ([], s)
  take_parts (p ∷ ps) s =
      let (events, s') = take_chunks (objects p) s in
      let (more, s'') = take_parts ps s' in (events ++ more, s'')

  unfoldable pub feed : Text → Stream → List Event × Stream
  unfolding split take_parts
  feed text s =
      let (parts, rest) = split [] (s.buffer ++ text) in
      take_parts parts (record s { buffer = turned rest [] })

  unfoldable pub feed_all : List Text → Stream → List Event × Stream
  unfolding feed
  feed_all [] s = ([], s)
  feed_all (t ∷ ts) s =
      let (events, s') = feed t s in let (more, s'') = feed_all ts s' in (events ++ more, s'')

unfoldable pub finish : Stream → List Event
unfolding start_events
finish s =
    start_events s
    ++ content_block_stop ∷ message_delta s.stop_reason s.completion_tokens ∷ message_stop ∷ []

-- `openai_sse_to_anthropic_sse`
unfoldable pub convert : (Text → List Chunk) → List Text → List Event
unfolding feed_all finish new_stream
convert objects texts = let (events, s) = feed_all objects texts new_stream in events ++ finish s

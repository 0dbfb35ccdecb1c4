-- ===== src/Core/Loop/Stream.antt =====
-- src/langharness_core/plugins/loop/agent_loop.py: the events that `astream` makes of the chunks of
-- the graph, and what it reads off a message. Texts are lists of code points, and `str` of any
-- other content, an argument. The graph itself is not modelled: its chunks are the input.
use langharness.Prelude.{
  ℕ, String, Bool, true, false, not, ◌&&◌, ◌||◌, List, [], ◌∷◌, ◌++◌, map, Option, none, some, ◌==◌,
  string_eq, option_eq, if◌then◌else◌, filter, contains, is_nonempty, nat_beq,
}
use langharness.Prelude.Dict.{Dict, lookup, insert}
use langharness.Prelude.Int.{ℤ, pos, negsuc, ◌+ℤ◌}
use langharness.Prelude.Json.{Json}
use langharness.Prelude.Text.{starts_with}

abbrev pub Text : Type 0
Text = List ℕ

pub record Usage : Type 0 where
  pub input_tokens : ℤ
  pub output_tokens : ℤ
  pub total_tokens : ℤ

-- A block of a content list: not a dict, or its `type`, `str` of its `text` and its `id`.
pub data Block : Type 0 where
  bare_block : Text → Block
  dict_block : (block_type : Option String) (text : Text) (block_id : Option String) → Block

-- `other_content` is neither a text nor a list, with its truth and its `str`.
pub data Content : Type 0 where
  text_content : Text → Content
  block_content : List Block → Content
  other_content : Bool → Text → Content

pub record ToolCall : Type 0 where
  pub call_name : String
  pub call_id : Option String
  pub args : Json

-- A message: whether it is a `ToolMessage`, its `name` and `tool_call_id` then, its calls and
-- whether it has chunks of calls. A missing or empty usage is `none`.
pub record Message : Type 0 where
  pub is_tool : Bool
  pub tool_name : String
  pub tool_call_id : String
  pub ident : Option String
  pub content : Content
  pub tool_calls : List ToolCall
  pub has_call_chunks : Bool
  pub usage_metadata : Option Usage
  pub token_usage : Option Usage

abbrev pub is_zero : ℤ → Bool
is_zero (pos n) = nat_beq n 0
is_zero (negsuc n) = false

abbrev pub nonzero_usage : Option Usage → Option Usage
nonzero_usage none = none
nonzero_usage (some u) =
    if is_zero (u.input_tokens +ℤ u.output_tokens +ℤ u.total_tokens) then none else some u

abbrev pub usage_or : Option Usage → Option Usage → Option Usage
usage_or none other = other
usage_or (some u) other = some u

-- `_extract_usage`
unfoldable pub extract_usage : Message → Option Usage
extract_usage m = nonzero_usage (usage_or m.usage_metadata m.token_usage)

abbrev pub is_text_block : Option String → Bool
is_text_block t = (t == some "text") || (t == some "output_text")

abbrev pub block_text : Block → Text
block_text (bare_block text) = []
block_text (dict_block t text block_id) = if is_text_block t then text else []

abbrev pub join : List Text → Text
join [] = []
join (t ∷ ts) = t ++ join ts

-- `_extract_content`
unfoldable pub extract_content : Content → Text
extract_content (text_content t) = t
extract_content (block_content blocks) = join (map block_text blocks)
extract_content (other_content truthy text) = if truthy then text else []

-- A `tool_use` block of a call that never completed.
abbrev pub is_orphan : List (Option String) → Block → Bool
is_orphan completed (bare_block text) = false
is_orphan completed (dict_block t text block_id) =
    (t == some "tool_use") && not (contains block_id completed)

abbrev pub completed_ids : Message → List (Option String)
completed_ids m = map (λ c. c.call_id) m.tool_calls

abbrev pub strip_content : List (Option String) → Content → Content
strip_content completed (block_content blocks) =
    block_content (filter (λ b. not (is_orphan completed b)) blocks)
strip_content completed content = content

-- `_strip_orphan_tool_use`
unfoldable pub strip_orphan_tool_use : Message → Message
strip_orphan_tool_use m = record m { content = strip_content (completed_ids m) m.content }

-- A value of an updates chunk: no dict, or a dict with its interrupts and its messages.
pub data NodeUpdate : Type 0 where
  no_update : NodeUpdate
  update : (interrupts : List Json) (messages : List Message) → NodeUpdate

-- A chunk of the stream: a message, or an update with its interrupts and the values of its dict.
pub data Chunk : Type 0 where
  message_chunk : Message → Chunk
  update_chunk : (interrupts : List Json) (nodes : List NodeUpdate) → Chunk

pub data StreamEvent : Type 0 where
  assistant : Text → StreamEvent
  approval_required : Json → StreamEvent
  tool_output : (name tool_call_id : String) (output : Text) → StreamEvent
  tool_call : (name : String) (tool_call_id : Option String) (args : Json) → StreamEvent
  usage : Usage → StreamEvent

-- `previous_content` and `usage_totals`.
pub record StreamState : Type 0 where
  pub previous_content : Dict String Text
  pub usage_totals : Usage

abbrev pub new_stream : StreamState
new_stream = record {
  previous_content = [];
  usage_totals = record { input_tokens = pos 0; output_tokens = pos 0; total_tokens = pos 0 };
}

abbrev pub add_usage : Usage → Usage → Usage
add_usage u v = record {
  input_tokens = u.input_tokens +ℤ v.input_tokens;
  output_tokens = u.output_tokens +ℤ v.output_tokens;
  total_tokens = u.total_tokens +ℤ v.total_tokens;
}

abbrev pub add_some : Usage → Option Usage → Usage
add_some u none = u
add_some u (some v) = add_usage u v

-- The rest of a text after a prefix of this length.
abbrev pub drop : List ℕ → Text → Text
drop [] t = t
drop (p ∷ ps) [] = []
drop (p ∷ ps) (c ∷ t) = drop ps t

-- What a chunk adds to the text so far.
abbrev pub delta_of : Text → Text → Text
delta_of previous content = if starts_with previous content then drop previous content else content

abbrev pub text_or_empty : Option Text → Text
text_or_empty none = []
text_or_empty (some t) = t

-- `str(message.id or "default")`
abbrev pub id_or_default : Option String → String
id_or_default none = "default"
id_or_default (some k) = if k == "" then "default" else k

abbrev pub previous_of : String → Dict String Text → Text
previous_of message_id previous = text_or_empty (lookup message_id previous)

abbrev pub message_id : Message → String
message_id m = id_or_default m.ident

-- Neither the output of a tool nor a call of one.
abbrev pub is_spoken : Message → Bool
is_spoken m = not (m.is_tool || is_nonempty m.tool_calls || m.has_call_chunks)

abbrev pub say : Text → List StreamEvent
say [] = []
say (c ∷ t) = assistant (c ∷ t) ∷ []

-- The content of a spoken message.
abbrev pub speak : String → Text → StreamState → List StreamEvent × StreamState
speak k content s =
    let previous = previous_of k s.previous_content in
    let delta = delta_of previous content in
    (say delta, record s { previous_content = insert k (previous ++ delta) s.previous_content })

abbrev pub on_counted : Bool → Message → StreamState → List StreamEvent × StreamState
on_counted true m s = speak (message_id m) (extract_content m.content) s
on_counted false m s = ([], s)

abbrev pub on_message : Message → StreamState → List StreamEvent × StreamState
on_message m s =
    on_counted (is_spoken m) m
      (record s { usage_totals = add_some s.usage_totals (extract_usage m) })

module _ (show : Content → Text) where
  abbrev pub output_event : Message → List StreamEvent
  output_event m =
      if m.is_tool
      then tool_output (if m.tool_name == "" then "tool" else m.tool_name) m.tool_call_id
          (show m.content)
        ∷ []
      else []

  abbrev pub call_event : ToolCall → StreamEvent
  call_event c = tool_call c.call_name c.call_id c.args

  abbrev pub message_events : List Message → List StreamEvent
  message_events [] = []
  message_events (m ∷ ms) =
      output_event (strip_orphan_tool_use m) ++ map call_event m.tool_calls ++ message_events ms

  abbrev pub node_events : List NodeUpdate → List StreamEvent
  node_events [] = []
  node_events (no_update ∷ ns) = node_events ns
  node_events (update interrupts messages ∷ ns) =
      map approval_required interrupts ++ message_events messages ++ node_events ns

  abbrev pub on_chunk : Chunk → StreamState → List StreamEvent × StreamState
  on_chunk (message_chunk m) s = on_message m s
  on_chunk (update_chunk interrupts nodes) s =
      (map approval_required interrupts ++ node_events nodes, s)

  -- The events of the chunks, and the state they leave.
  abbrev pub on_chunks : List Chunk → StreamState → List StreamEvent × StreamState
  on_chunks [] s = ([], s)
  on_chunks (c ∷ cs) s =
      let (here, s') = on_chunk c s in let (later, s'') = on_chunks cs s' in (here ++ later, s'')

  abbrev pub usage_event : Usage → List StreamEvent
  usage_event u = if is_zero u.total_tokens then [] else usage u ∷ []

  -- `astream` once there is a graph.
  unfoldable pub astream : List Chunk → List StreamEvent
  unfolding extract_usage extract_content strip_orphan_tool_use
  astream chunks =
      let (events, s) = on_chunks chunks new_stream in events ++ usage_event s.usage_totals

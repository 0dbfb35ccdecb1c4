-- ===== src/Core/Loop/Deltas.antt =====
-- The text that a client hears from `astream` of
-- src/langharness_core/plugins/loop/agent_loop.py: cumulative chunks and deltas.
use mathlib.Core.Path.{subst, sym, ap, ◌∙◌}
use mathlib.Core.List.{append-nil, append_assoc}
use langharness.Prelude.{
  String, Bool, true, false, List, [], ◌∷◌, ◌++◌, map, string_eq, if◌then◌else◌, ◌≡◌, refl, ◌⊎◌,
  inl, inr, arith, nat_beq_iff,
}
use langharness.Prelude.Dict.{lookup-insert_self}
use langharness.Prelude.Json.{Json}
use langharness.Prelude.Text.{starts_with}
use langharness.Core.Loop.Stream.{
  Text, Content, Message, Chunk, message_chunk, update_chunk, NodeUpdate, no_update, update,
  StreamEvent, assistant, approval_required, StreamState, extract_content, extract_usage, is_spoken,
  message_id, previous_of, delta_of, drop, say, speak, on_counted, on_chunks, node_events,
  message_events, output_event, call_event, ToolCall, usage_event, Usage, astream, new_stream,
  strip_orphan_tool_use, join, add_some,
}

-- The texts of the assistant's events, one after the other.
abbrev pub heard : List StreamEvent → Text
heard [] = []
heard (assistant t ∷ es) = t ++ heard es
heard (e ∷ es) = heard es

heard-append : (es fs : List StreamEvent) → heard (es ++ fs) ≡ heard es ++ heard fs
heard-append [] fs = refl
heard-append (assistant t ∷ es) fs =
    ap (λ r. t ++ r) (heard-append es fs) ∙ sym (append_assoc t (heard es) (heard fs))
heard-append (approval_required j ∷ es) fs = heard-append es fs
heard-append (StreamEvent.tool_output n i o ∷ es) fs = heard-append es fs
heard-append (StreamEvent.tool_call n i a ∷ es) fs = heard-append es fs
heard-append (StreamEvent.usage u ∷ es) fs = heard-append es fs

heard-say : (t : Text) → heard (say t) ≡ t
heard-say [] = refl
heard-say (c ∷ t) = append-nil (c ∷ t)

heard-approval_required : (js : List Json) → heard (map approval_required js) ≡ []
heard-approval_required [] = refl
heard-approval_required (j ∷ js) = heard-approval_required js

heard-call_event :
    (show : Content → Text) (cs : List ToolCall) → heard (map (call_event show) cs) ≡ []
heard-call_event show [] = refl
heard-call_event show (c ∷ cs) = heard-call_event show cs

heard-usage_event : (show : Content → Text) (u : Usage) → heard (usage_event show u) ≡ []
heard-usage_event show u = ground arith

-- The contents of the spoken chunks.
abbrev pub contents : List Chunk → List Text
contents [] = []
contents (message_chunk m ∷ cs) =
    if is_spoken m then extract_content m.content ∷ contents cs else contents cs
contents (update_chunk interrupts nodes ∷ cs) = contents cs

-- All spoken chunks belong to one message.
abbrev pub IsReply : String → List Chunk → Type 0
IsReply k [] = Unit
IsReply k (message_chunk m ∷ cs) = (is_spoken m ≡ true → message_id m ≡ k) × IsReply k cs
IsReply k (update_chunk interrupts nodes ∷ cs) = IsReply k cs

-- What is heard of chunks after the text so far.
abbrev pub accumulate : Text → List Text → Text
accumulate p [] = []
accumulate p (c ∷ cs) = let d = delta_of p c in d ++ accumulate (p ++ d) cs

module _ (show : Content → Text) where
  heard-output_event : (m : Message) → heard (output_event show m) ≡ []
  heard-output_event m = ground arith

  heard-message_events : (ms : List Message) → heard (message_events show ms) ≡ []
  heard-message_events [] = refl
  heard-message_events (m ∷ ms) =
      rw
        (
          heard-append
              (output_event show (strip_orphan_tool_use m) ++ map (call_event show) m.tool_calls)
              (message_events show ms),
          heard-append (output_event show (strip_orphan_tool_use m))
              (map (call_event show) m.tool_calls),
          heard-output_event (strip_orphan_tool_use m),
          heard-call_event show m.tool_calls,
        )
        (heard-message_events ms)

  heard-node_events : (ns : List NodeUpdate) → heard (node_events show ns) ≡ []
  heard-node_events [] = refl
  heard-node_events (no_update ∷ ns) = heard-node_events ns
  heard-node_events (update js ms ∷ ns) =
      rw
        (
          heard-append (map approval_required js ++ message_events show ms) (node_events show ns),
          heard-append (map approval_required js) (message_events show ms),
          heard-approval_required js,
          heard-message_events ms,
        )
        (heard-node_events ns)

  previous_of-speak :
      (k : String) (content : Text) (s : StreamState)
      → previous_of k (speak k content s).1.previous_content
        ≡ previous_of k s.previous_content ++ delta_of (previous_of k s.previous_content) content
  previous_of-speak k content s =
      rw
        (lookup-insert_self k
          (previous_of k s.previous_content ++ delta_of (previous_of k s.previous_content) content)
          s.previous_content)
        refl

  heard-speak :
      (k : String) (content : Text) (s : StreamState) (cs : List Chunk)
      → heard (on_chunks show cs (speak k content s).1).0
        ≡ accumulate (previous_of k (speak k content s).1.previous_content) (contents cs)
      → heard ((speak k content s).0 ++ (on_chunks show cs (speak k content s).1).0)
        ≡ accumulate (previous_of k s.previous_content) (content ∷ contents cs)
  heard-speak k content s cs later =
      let previous = previous_of k s.previous_content in
      let delta = delta_of previous content in
      heard-append (say delta) (on_chunks show cs (speak k content s).1).0
      ∙ ap (λ t. t ++ heard (on_chunks show cs (speak k content s).1).0) (heard-say delta)
      ∙ ap (λ t. delta ++ t)
          (later ∙ ap (λ p. accumulate p (contents cs)) (previous_of-speak k content s))

  heard-on_counted :
      (k : String) (b : Bool) (m : Message) (cs : List Chunk) (s : StreamState)
      → (b ≡ true → message_id m ≡ k)
      → ((t : StreamState)
          → heard (on_chunks show cs t).0
            ≡ accumulate (previous_of k t.previous_content) (contents cs))
      → heard ((on_counted b m s).0 ++ (on_chunks show cs (on_counted b m s).1).0)
        ≡ accumulate
            (previous_of k s.previous_content)
            (if b then extract_content m.content ∷ contents cs else contents cs)
  heard-on_counted k true m cs s own later =
      subst
        (λ j.
          heard (
            (speak j (extract_content m.content) s).0
            ++ (on_chunks show cs (speak j (extract_content m.content) s).1).0)
          ≡ accumulate (previous_of k s.previous_content) (extract_content m.content ∷ contents cs))
        (sym (own refl))
        (heard-speak k (extract_content m.content) s cs
          (later (speak k (extract_content m.content) s).1))
  heard-on_counted k false m cs s own later = later s

  heard-on_chunks :
      (k : String) (cs : List Chunk) (s : StreamState)
      → IsReply k cs
      → heard (on_chunks show cs s).0 ≡ accumulate (previous_of k s.previous_content) (contents cs)
  heard-on_chunks k [] s reply = refl
  heard-on_chunks k (update_chunk js ns ∷ cs) s reply =
      heard-append (map approval_required js ++ node_events show ns) (on_chunks show cs s).0
      ∙ ap (λ t. t ++ heard (on_chunks show cs s).0)
          (heard-append (map approval_required js) (node_events show ns)
            ∙ ap (λ t. t ++ heard (node_events show ns)) (heard-approval_required js)
            ∙ heard-node_events ns)
      ∙ heard-on_chunks k cs s reply
  heard-on_chunks k (message_chunk m ∷ cs) s reply =
      heard-on_counted k (is_spoken m) m cs
        (record s { usage_totals = add_some s.usage_totals (extract_usage m) }) reply.0
        (λ t. heard-on_chunks k cs t reply.1)

  -- What is heard of a stream whose spoken chunks belong to one message is what its contents add.
  pub heard-astream :
      (k : String) (cs : List Chunk)
      → IsReply k cs
      → heard (astream show cs) ≡ accumulate [] (contents cs)
  unfolding astream
  heard-astream k cs reply =
      let s = (on_chunks show cs new_stream).1 in
      heard-append (on_chunks show cs new_stream).0 (usage_event show s.usage_totals)
      ∙ ap (λ t. heard (on_chunks show cs new_stream).0 ++ t)
          (heard-usage_event show s.usage_totals)
      ∙ append-nil (heard (on_chunks show cs new_stream).0)
      ∙ heard-on_chunks k cs new_stream reply

starts_with-append : (p t : Text) → starts_with p (p ++ t) ≡ true
starts_with-append [] t = refl
starts_with-append (c ∷ p) t = ground (arith, starts_with-append p t, nat_beq_iff c c)

drop-append : (p t : Text) → drop p (p ++ t) ≡ t
drop-append [] t = refl
drop-append (c ∷ p) t = drop-append p t

-- A content that begins with the text so far adds the rest.
delta_of-append : (p t : Text) → delta_of p (p ++ t) ≡ t
delta_of-append p t = rw (starts_with-append p t) (drop-append p t)

-- Each content is the one before it with more at the end.
abbrev pub IsCumulative : Text → List Text → Type 0
IsCumulative p [] = Unit
IsCumulative p (c ∷ cs) = ((d : Text) × (c ≡ p ++ d)) × IsCumulative c cs

abbrev pub last : Text → List Text → Text
last p [] = p
last p (c ∷ cs) = last c cs

accumulate-IsCumulative :
    (p : Text) (cs : List Text) → IsCumulative p cs → p ++ accumulate p cs ≡ last p cs
accumulate-IsCumulative p [] h = append-nil p
accumulate-IsCumulative p (c ∷ cs) ((d, extended), later) =
    let delta : delta_of p c ≡ d =
      subst (λ x. delta_of p x ≡ d) (sym extended) (delta_of-append p d) in
    sym (append_assoc p (delta_of p c) (accumulate (p ++ delta_of p c) cs))
    ∙ ap (λ q. q ++ accumulate q cs) (ap (λ x. p ++ x) delta ∙ sym extended)
    ∙ accumulate-IsCumulative c cs later

-- No content begins with the text before it, once there is some.
abbrev pub IsFresh : Text → List Text → Type 0
IsFresh p [] = Unit
IsFresh p (c ∷ cs) = ((starts_with p c ≡ false) ⊎ (p ≡ [])) × IsFresh (p ++ c) cs

delta_of-fresh : (p c : Text) → (starts_with p c ≡ false) ⊎ (p ≡ []) → delta_of p c ≡ c
delta_of-fresh p c (inl other) = rw other refl
delta_of-fresh p c (inr none_yet) = rw none_yet refl

accumulate-IsFresh : (p : Text) (cs : List Text) → IsFresh p cs → accumulate p cs ≡ join cs
accumulate-IsFresh p [] h = refl
accumulate-IsFresh p (c ∷ cs) (new, later) =
    ap (λ x. x ++ accumulate (p ++ x) cs) (delta_of-fresh p c new)
    ∙ ap (λ t. c ++ t) (accumulate-IsFresh (p ++ c) cs later)

module _ (show : Content → Text) where
  -- Where the contents of a reply are cumulative, the client hears the last one.
  pub astream-cumulative :
      (k : String) (cs : List Chunk)
      → IsReply k cs
      → IsCumulative [] (contents cs)
      → heard (astream show cs) ≡ last [] (contents cs)
  astream-cumulative k cs reply cumulative =
      heard-astream show k cs reply ∙ accumulate-IsCumulative [] (contents cs) cumulative

  -- Where no content of a reply begins with all the text before it, the client hears all of them.
  pub astream-deltas :
      (k : String) (cs : List Chunk)
      → IsReply k cs
      → IsFresh [] (contents cs)
      → heard (astream show cs) ≡ join (contents cs)
  astream-deltas k cs reply fresh =
      heard-astream show k cs reply ∙ accumulate-IsFresh [] (contents cs) fresh

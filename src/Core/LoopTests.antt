-- ===== src/Core/LoopTests.antt =====
-- The theorems on src/langharness_core/plugins/loop/agent_loop.py at short streams.
use langharness.Prelude.{
  inl, inr, false, List, [], ◌∷◌, none, some, ◌≡◌, refl, string_eq, option_eq, nat_eq,
}
use langharness.Prelude.Int.{◌+ℤ◌}
use langharness.Core.Loop.Stream.{
  Text, Content, text_content, Chunk, message_chunk, update_chunk, assistant, astream,
  extract_content, extract_usage,
}
use langharness.Core.Loop.Deltas.{heard, astream-cumulative, astream-deltas}

abbrev show : Content → Text
show content = []

abbrev chunk : Text → Chunk
chunk t = message_chunk (record {
  is_tool = false;
  tool_name = "";
  tool_call_id = "";
  ident = some "m";
  content = text_content t;
  tool_calls = [];
  has_call_chunks = false;
  usage_metadata = none;
  token_usage = none;
})

abbrev cumulative : List Chunk
cumulative = chunk (b'h' ∷ []) ∷ chunk (b'h' ∷ b'i' ∷ []) ∷ []

abbrev deltas : List Chunk
deltas = chunk (b'h' ∷ b'i' ∷ []) ∷ update_chunk [] [] ∷ chunk (b'!' ∷ []) ∷ []

-- A second delta that is equal to the first one.
abbrev laughs : List Chunk
laughs = chunk (b'h' ∷ b'a' ∷ []) ∷ chunk (b'h' ∷ b'a' ∷ []) ∷ []

astream_tests :
    (astream show cumulative ≡ assistant (b'h' ∷ []) ∷ assistant (b'i' ∷ []) ∷ [])
    × (astream show laughs ≡ assistant (b'h' ∷ b'a' ∷ []) ∷ [])
unfolding astream extract_content extract_usage ◌+ℤ◌
astream_tests = (refl, refl)

astream-cumulative_example : heard (astream show cumulative) ≡ b'h' ∷ b'i' ∷ []
unfolding extract_content
astream-cumulative_example =
    astream-cumulative show "m" cumulative ((λ _. refl), ((λ _. refl), tt))
      ((b'h' ∷ [], refl), ((b'i' ∷ [], refl), tt))

astream-deltas_example : heard (astream show deltas) ≡ b'h' ∷ b'i' ∷ b'!' ∷ []
unfolding extract_content
astream-deltas_example =
    astream-deltas show "m" deltas ((λ _. refl), ((λ _. refl), tt)) (inr refl, (inl refl, tt))

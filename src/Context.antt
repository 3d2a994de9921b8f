-- ===== src/Context.antt =====
-- The conversation that is sent to the model: packages/core/src/context-manager.ts. The estimate of
-- a message's tokens is a parameter. Texts are lists of UTF-16 code units.
pub mod Orphans
pub mod Boundary
pub mod Batches
pub mod Tests
use uma_agent.JsMap.{get, put}
use uma_agent.Base.{
  or_else, ◌==◌, ℕ, zero, suc, ◌+◌, ◌≤◌, String, Bool, true, false, not, ◌&&◌, ◌||◌, List, [], ◌∷◌,
  ◌++◌, Option, none, some, map, leb, ltb, if◌then◌else◌, eqs, any, all, select, length, take, drop,
  is_some_b, min,
}

abbrev pub Text : Type 0
Text = List ℕ

-- A block of content: a text, a tool call with its id, or an image and the like.
pub data Block : Type 0 where
  text : Text → Block
  tool_call : String → Block
  other : ℕ → Block

pub record ToolResult : Type 0 where
  pub tool_call_id : String
  pub tool_name : Text
  pub is_error : Bool
  pub content : List Block
  pub timestamp : ℕ

pub data AgentMessage : Type 0 where
  assistant : List Block → AgentMessage
  user : List Block → ℕ → AgentMessage
  tool_result : ToolResult → AgentMessage
  custom : ℕ → AgentMessage

pub record StoredAgentMessage : Type 0 where
  pub sequence : ℕ
  pub message : AgentMessage

unfoldable pub block_calls : List Block → List String
block_calls [] = []
block_calls (tool_call id ∷ bs) = id ∷ block_calls bs
block_calls (text t ∷ bs) = block_calls bs
block_calls (other n ∷ bs) = block_calls bs

unfoldable pub tool_call_ids : AgentMessage → List String
unfolding block_calls
tool_call_ids (assistant bs) = block_calls bs
tool_call_ids (user bs t) = []
tool_call_ids (tool_result r) = []
tool_call_ids (custom n) = []

-- A `Set` of ids.
abbrev pub has_id : String → List String → Bool
has_id id ids = any (λ j. eqs j id) ids

abbrev pub without : String → List String → List String
without id ids = select (λ j. not (eqs j id)) ids

-- The next message, and the calls that are open behind it.
unfoldable pub resolve :
    (Text → Bool → Text) → List String → AgentMessage → AgentMessage × List String
unfolding tool_call_ids
resolve label calls (assistant bs) = (assistant bs, tool_call_ids (assistant bs))
resolve label calls (user bs t) = (user bs t, [])
resolve label calls (tool_result r) =
    if has_id r.tool_call_id calls
    then (tool_result r, without r.tool_call_id calls)
    else (user (text (label r.tool_name r.is_error) ∷ r.content) r.timestamp, calls)
resolve label calls (custom n) = (custom n, calls)

-- `preserveOrphanToolResults`, from a set of open calls; `label` is the sentence that tells the
-- model that what follows is data.
unfoldable pub preserve_orphans :
    (Text → Bool → Text) → List String → List StoredAgentMessage → List StoredAgentMessage
preserve_orphans label calls [] = []
preserve_orphans label calls (e ∷ es) =
    let r = resolve label calls e.message in
    record e { message = r.0 } ∷ preserve_orphans label r.1 es

abbrev pub note_result : ℕ → AgentMessage → List (String × ℕ) → List (String × ℕ)
note_result i (tool_result r) m =
    if is_some_b (get r.tool_call_id m) then m else put r.tool_call_id i m
note_result i (assistant bs) m = m
note_result i (user bs t) m = m
note_result i (custom n) m = m

-- `resultPositions`: the first index of each call's result.
unfoldable pub result_positions :
    ℕ → List StoredAgentMessage → List (String × ℕ) → List (String × ℕ)
result_positions i [] m = m
result_positions i (e ∷ es) m = result_positions (suc i) es (note_result i e.message m)

-- The boundary `b` after a call of the message at `i` whose result stands at `p`.
abbrev pub pushed : Option ℕ → ℕ → ℕ → ℕ
pushed none i b = b
pushed (some p) i b = if ltb i p && leb b p then p + 1 else b

-- The boundary after the calls of the message at `i`.
unfoldable pub extend : List (String × ℕ) → ℕ → ℕ → List String → ℕ
extend m i b [] = b
extend m i b (id ∷ ids) = extend m i (pushed (get id m) i b) ids

unfoldable pub grow : List (String × ℕ) → ℕ → ℕ → List StoredAgentMessage → ℕ
grow m i b [] = b
grow m i b (e ∷ es) =
    let more = grow m (suc i) (extend m i b (tool_call_ids e.message)) es in
    if ltb i b then more else b

unfoldable pub safe_compaction_boundary : List StoredAgentMessage → ℕ → ℕ
unfolding grow
safe_compaction_boundary entries desired = grow (result_positions 0 entries []) 0 desired entries

abbrev pub is_empty {ℓ} : {A : Type ℓ} → List A → Bool
is_empty [] = true
is_empty (x ∷ xs) = false

-- The calls that are open behind an entry of the unit; a turn of the assistant or of the user ends
-- the unit.
abbrev pub after_entry : List String → AgentMessage → Option (List String)
after_entry calls (assistant bs) = none
after_entry calls (user bs t) = none
after_entry calls (tool_result r) = some (without r.tool_call_id calls)
after_entry calls (custom n) = some calls

-- How many entries behind a message with the given open calls belong to its unit.
unfoldable pub unit_run : List String → List StoredAgentMessage → ℕ
unit_run calls [] = 0
unit_run calls (e ∷ es) =
    let all_answered = is_empty calls in
    let after = after_entry calls e.message in
    let rest = unit_run (or_else after []) es in
    if all_answered then 0 else elim after [ none ↦ 0 | some left ↦ suc rest ]

-- `compactionUnitEnd`, as the number of entries of the first unit.
unfoldable pub unit_length : List StoredAgentMessage → ℕ
unit_length [] = 0
unit_length (e ∷ es) = suc (unit_run (tool_call_ids e.message) es)

module _ (tokens : AgentMessage → ℕ) where
  unfoldable pub total_tokens : List StoredAgentMessage → ℕ
  total_tokens [] = 0
  total_tokens (e ∷ es) = tokens e.message + total_tokens es

  -- The loop of `compactionBatches`, on fuel: the batch that is being filled, its tokens, and the
  -- entries that are left.
  unfoldable pub fill_batches :
      ℕ
      → ℕ
      → List StoredAgentMessage
      → ℕ
      → List StoredAgentMessage
      → Option (List (List StoredAgentMessage))
  fill_batches fuel most batch size [] = some (if is_empty batch then [] else batch ∷ [])
  fill_batches zero most batch size (e ∷ es) = none
  fill_batches (suc fuel) most batch size (e ∷ es) =
      let n = unit_length (e ∷ es) in
      let unit = take n (e ∷ es) in
      let cost = total_tokens unit in
      let fresh = fill_batches fuel most unit (min cost most) (drop n (e ∷ es)) in
      let joined =
        fill_batches fuel most (batch ++ unit) (size + min cost most) (drop n (e ∷ es)) in
      if not (is_empty batch) && ltb most (size + cost)
      then elim fresh [ none ↦ none | some bs ↦ some (batch ∷ bs) ]
      else joined

  unfoldable pub compaction_batches :
      List StoredAgentMessage → ℕ → Option (List (List StoredAgentMessage))
  unfolding fill_batches
  compaction_batches entries most = fill_batches (length entries) most [] 0 entries

-- `text.includes(part)`.
unfoldable pub starts_with : Text → Text → Bool
starts_with t [] = true
starts_with [] (c ∷ cs) = false
starts_with (d ∷ t) (c ∷ cs) = d == c && starts_with t cs

unfoldable pub includes : Text → Text → Bool
unfolding starts_with
includes [] part = is_empty part
includes (c ∷ t) part = starts_with (c ∷ t) part || includes t part

abbrev pub is_text : Block → Bool
is_text (text t) = true
is_text (tool_call id) = false
is_text (other n) = false

-- The texts of the blocks, joined by line feeds.
unfoldable pub joined_text : List Block → Text
joined_text [] = []
joined_text (text t ∷ bs) =
    let rest = joined_text bs in if any is_text bs then t ++ 10 ∷ rest else t
joined_text (tool_call id ∷ bs) = joined_text bs
joined_text (other n ∷ bs) = joined_text bs

-- "%PDF-"
abbrev pub pdf_mark : Text
pdf_mark = 37 ∷ 80 ∷ 68 ∷ 70 ∷ 45 ∷ []

unfoldable pub is_short_text : List Block → Bool
is_short_text content =
    let t = joined_text content in
    leb (length t) 2000 && all is_text content && not (includes t pdf_mark)

-- `fallbackContext`; `omitted` is the sentence that stands for the data of a tool.
unfoldable pub abbreviate : (Text → Text) → AgentMessage → AgentMessage
abbreviate omitted (tool_result r) =
    if is_short_text r.content
    then tool_result r
    else tool_result (record r { content = text (omitted r.tool_name) ∷ [] })
abbreviate omitted (assistant bs) = assistant bs
abbreviate omitted (user bs t) = user bs t
abbreviate omitted (custom n) = custom n

abbrev pub abbreviate_entry : (Text → Text) → StoredAgentMessage → StoredAgentMessage
abbreviate_entry omitted e = record e { message = abbreviate omitted e.message }

unfoldable pub fallback_context : (Text → Text) → List StoredAgentMessage → List StoredAgentMessage
unfolding abbreviate
fallback_context omitted = map (abbreviate_entry omitted)

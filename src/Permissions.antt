-- ===== src/Permissions.antt =====
-- What the tools of an agent may do: packages/core/src/permissions.ts. The texts of the reasons are
-- named by the case they stand for.
pub mod Policy
pub mod Tests
use Prim.Native.String.{[] as empty_text, ◌∷◌ as text_cons}
use Prim.Native.Char.{code}
use uma_agent.Base.{
  String, Bool, true, false, not, ◌&&◌, ◌||◌, ◌==◌, List, [], ◌∷◌, if◌then◌else◌, eqs, any,
}

pub data ToolClass : Type 0 where
  read write shell http_get attachment_read memory_write schedule image_generate channel_control
        channel_send mcp :
      ToolClass

-- The mode of a session; `other_mode` is any but the two that execute tools.
pub data InteractionMode : Type 0 where
  agent plan : InteractionMode
  other_mode : String → InteractionMode

pub data Reason : Type 0 where
  mode_executes_nothing unknown_tool shell_policy workspace_policy image_policy channel_operation
        mcp_automatic allowed_by_session :
      Reason

pub record PermissionDecision : Type 0 where
  pub allowed : Bool
  pub requires_approval : Bool
  pub reason : Reason

abbrev pub read_tools : List String
read_tools =
    "read" ∷ "list" ∷ "search" ∷ "memory_search" ∷ "knowledge_search" ∷ "skill_read" ∷ "web_search"
    ∷ "history_search" ∷ "history_read" ∷ "smath_list" ∷ "smath_read" ∷ "xianyu_status"
    ∷ "xianyu_conversations" ∷ "xianyu_history" ∷ "xianyu_item" ∷ []

abbrev pub write_tools : List String
write_tools =
    "write" ∷ "edit" ∷ "attachment_create_from_workspace" ∷ "attachment_copy" ∷ "smath_create"
    ∷ "smath_update" ∷ "smath_delete" ∷ "smath_calculate" ∷ "xianyu_chat" ∷ "xianyu_publish" ∷ []

abbrev pub among : List String → String → Bool
among names name = any (λ n. eqs n name) names

unfoldable pub classify : String → ToolClass
classify name =
    if among read_tools name
    then read
    else if among write_tools name
    then write
    else if eqs name "shell"
    then shell
    else if eqs name "http_get"
    then http_get
    else if eqs name "attachment_read"
    then attachment_read
    else if eqs name "memory_write"
    then memory_write
    else if eqs name "schedule_manage"
    then schedule
    else if eqs name "image_generate"
    then image_generate
    else if eqs name "xianyu_send"
    then channel_send
    else if eqs name "xianyu_auto_reply" || eqs name "xianyu_service"
    then channel_control
    else mcp

-- `name.startsWith(part)`.
unfoldable pub starts_with : String → String → Bool
starts_with name empty_text = true
starts_with empty_text (text_cons c part) = false
starts_with (text_cons d name) (text_cons c part) = code d == code c && starts_with name part

abbrev pub executes_tools : InteractionMode → Bool
executes_tools agent = true
executes_tools plan = true
executes_tools (other_mode m) = false

abbrev pub decision : Bool → Bool → Reason → PermissionDecision
decision allowed requires_approval reason = record {
  allowed = allowed;
  requires_approval = requires_approval;
  reason = reason;
}

-- The decision on a tool of the class, in a mode that executes tools.
abbrev pub decide_class : ToolClass → String → PermissionDecision
decide_class mcp name =
    if starts_with name "mcp_"
    then decision true false mcp_automatic
    else decision false false unknown_tool
decide_class shell name = decision true true shell_policy
decide_class write name = decision true true workspace_policy
decide_class image_generate name = decision true false image_policy
decide_class channel_control name = decision true false channel_operation
decide_class channel_send name = decision true false channel_operation
decide_class read name = decision true false allowed_by_session
decide_class http_get name = decision true false allowed_by_session
decide_class attachment_read name = decision true false allowed_by_session
decide_class memory_write name = decision true false allowed_by_session
decide_class schedule name = decision true false allowed_by_session

unfoldable pub decide : InteractionMode → String → PermissionDecision
unfolding classify
decide mode name =
    if not (executes_tools mode)
    then decision false false mode_executes_nothing
    else decide_class (classify name) name

-- ===== src/Permissions/Policy.antt =====
-- What the policy lets through.
use uma_agent.Base.{
  String, ◌≡◌, refl, sym, subst, ap, ◌∙◌, Bool, true, false, not, ◌&&◌, ◌||◌, List, [], ◌∷◌,
  if◌then◌else◌, eqs, eqs_sound, same, any, arith, Bool-cases, inl, inr,
}
use uma_agent.Permissions.{
  ToolClass, read, write, shell, http_get, attachment_read, memory_write, schedule, image_generate,
  channel_control, channel_send, mcp, InteractionMode, executes_tools, read_tools, write_tools,
  among, classify, starts_with, decide_class, decide, decision, mcp_automatic, unknown_tool,
  mode_executes_nothing,
}

-- The names of the tools that are neither read nor write tools.
abbrev pub other_tools : List String
other_tools =
    "shell" ∷ "http_get" ∷ "attachment_read" ∷ "memory_write" ∷ "schedule_manage" ∷ "image_generate"
    ∷ "xianyu_send" ∷ "xianyu_auto_reply" ∷ "xianyu_service" ∷ []

-- A tool of the server, or one of an MCP server.
abbrev pub is_known : String → Bool
is_known name =
    among read_tools name
    || (among write_tools name || (any (λ n. eqs name n) other_tools || starts_with name "mcp_"))

-- The class by the answers to the tests of `classify`, in their order.
abbrev chosen :
    Bool → Bool → Bool → Bool → Bool → Bool → Bool → Bool → Bool → Bool → Bool → ToolClass
chosen r w s h a m c i x y z =
    if r
    then read
    else if w
    then write
    else if s
    then shell
    else if h
    then http_get
    else if a
    then attachment_read
    else if m
    then memory_write
    else if c
    then schedule
    else if i
    then image_generate
    else if x
    then channel_send
    else if y || z
    then channel_control
    else mcp

mcp-allowed :
    (t : Bool)
    → (if t then decision true false mcp_automatic else decision false false unknown_tool).allowed
      ≡ t
mcp-allowed true = refl
mcp-allowed false = refl

mcp-approval :
    (t : Bool)
    → (if t
        then decision true false mcp_automatic
        else decision false false unknown_tool).requires_approval
      ≡ false
mcp-approval true = refl
mcp-approval false = refl

chosen-allowed :
    (name : String) (r w s h a m c i x y z : Bool)
    → (decide_class (chosen r w s h a m c i x y z) name).allowed
      ≡ r
        || (w
            || ((s || (h || (a || (m || (c || (i || (x || (y || (z || false)))))))))
                || starts_with name "mcp_"))
chosen-allowed name true w s h a m c i x y z = refl
chosen-allowed name false true s h a m c i x y z = refl
chosen-allowed name false false true h a m c i x y z = refl
chosen-allowed name false false false true a m c i x y z = refl
chosen-allowed name false false false false true m c i x y z = refl
chosen-allowed name false false false false false true c i x y z = refl
chosen-allowed name false false false false false false true i x y z = refl
chosen-allowed name false false false false false false false true x y z = refl
chosen-allowed name false false false false false false false false true y z = refl
chosen-allowed name false false false false false false false false false true z = refl
chosen-allowed name false false false false false false false false false false true = refl
chosen-allowed name false false false false false false false false false false false =
    mcp-allowed (starts_with name "mcp_")

chosen-approval :
    (name : String) (r w s h a m c i x y z : Bool)
    → (decide_class (chosen r w s h a m c i x y z) name).requires_approval ≡ not r && (w || s)
chosen-approval name true w s h a m c i x y z = refl
chosen-approval name false true s h a m c i x y z = refl
chosen-approval name false false true h a m c i x y z = refl
chosen-approval name false false false true a m c i x y z = refl
chosen-approval name false false false false true m c i x y z = refl
chosen-approval name false false false false false true c i x y z = refl
chosen-approval name false false false false false false true i x y z = refl
chosen-approval name false false false false false false false true x y z = refl
chosen-approval name false false false false false false false false true y z = refl
chosen-approval name false false false false false false false false false true z = refl
chosen-approval name false false false false false false false false false false true = refl
chosen-approval name false false false false false false false false false false false =
    mcp-approval (starts_with name "mcp_")

-- The same with the tests in the order of the source.
decide_by_tests :
    (mode : InteractionMode) (name : String)
    → ((decide mode name).allowed ≡ executes_tools mode && is_known name)
      × ((decide mode name).requires_approval
          ≡ executes_tools mode
            && (not (among read_tools name) && (among write_tools name || eqs name "shell")))
unfolding decide classify
decide_by_tests mode name = either (executes_tools mode)
  where
    class : ToolClass
    class =
        chosen (among read_tools name) (among write_tools name) (eqs name "shell")
          (eqs name "http_get") (eqs name "attachment_read") (eqs name "memory_write")
          (eqs name "schedule_manage") (eqs name "image_generate") (eqs name "xianyu_send")
          (eqs name "xianyu_auto_reply") (eqs name "xianyu_service")

    either :
        (t : Bool)
        → ((if not t
              then decision false false mode_executes_nothing
              else decide_class class name).allowed
            ≡ t && is_known name)
          × ((if not t
                then decision false false mode_executes_nothing
                else decide_class class name).requires_approval
              ≡ t && (not (among read_tools name) && (among write_tools name || eqs name "shell")))
    either false = (refl, refl)
    either true = (
      chosen-allowed name (among read_tools name) (among write_tools name) (eqs name "shell")
          (eqs name "http_get") (eqs name "attachment_read") (eqs name "memory_write")
          (eqs name "schedule_manage") (eqs name "image_generate") (eqs name "xianyu_send")
          (eqs name "xianyu_auto_reply") (eqs name "xianyu_service"),
      chosen-approval name (among read_tools name) (among write_tools name) (eqs name "shell")
          (eqs name "http_get") (eqs name "attachment_read") (eqs name "memory_write")
          (eqs name "schedule_manage") (eqs name "image_generate") (eqs name "xianyu_send")
          (eqs name "xianyu_auto_reply") (eqs name "xianyu_service"),
    )

-- A name of a list none of whose names is among the reading tools is not among them.
apart :
    (names : List String) (name : String)
    → any (among read_tools) names ≡ false
    → any (λ n. eqs n name) names ≡ true
    → among read_tools name ≡ false
apart [] name a h = cc h
apart (n ∷ names) name a h = elim (Bool-cases (eqs n name)) [
  | inl e ↦
      subst (λ m. among read_tools m ≡ false) (eqs_sound n name e)
        (left (among read_tools n) (any (among read_tools) names) a)
  | inr e ↦
      apart names name (right (among read_tools n) (any (among read_tools) names) a)
        (other (eqs n name) (any (λ n. eqs n name) names) e h)
]
  where
    left : (x y : Bool) → (x || y) ≡ false → x ≡ false
    left x y p = ground arith

    right : (x y : Bool) → (x || y) ≡ false → y ≡ false
    right x y p = ground arith

    other : (x y : Bool) → x ≡ false → (x || y) ≡ true → y ≡ true
    other x y p q = ground arith

-- No tool that needs an approval is among the reading tools.
tools_that_change :
    (name : String)
    → (among write_tools name || eqs name "shell") ≡ true
    → among read_tools name ≡ false
unfolding same
tools_that_change name h = elim (Bool-cases (among write_tools name)) [
  | inl w ↦ apart write_tools name refl w
  | inr w ↦
      subst (λ m. among read_tools m ≡ false)
        (sym (eqs_sound name "shell" (other (among write_tools name) (eqs name "shell") w h))) refl
]
  where
    other : (x y : Bool) → x ≡ false → (x || y) ≡ true → y ≡ true
    other x y p q = ground arith

writes_not_read : (r w : Bool) → (w ≡ true → r ≡ false) → (not r && w) ≡ w
writes_not_read r true h = ground (arith, h refl)
writes_not_read true false h = refl
writes_not_read false false h = refl

-- A tool is allowed exactly if the mode executes tools and the tool is one of the server's or has the
-- prefix of MCP tools: every other name is denied. An approval is required exactly where, besides, the
-- tool is the shell or one of the tools that write.
pub decide_lem :
    (mode : InteractionMode) (name : String)
    → ((decide mode name).allowed ≡ executes_tools mode && is_known name)
      × ((decide mode name).requires_approval
          ≡ executes_tools mode && (among write_tools name || eqs name "shell"))
unfolding decide classify
decide_lem mode name = (
  (decide_by_tests mode name).0,
  (decide_by_tests mode name).1
      ∙ ap (λ t. executes_tools mode && t)
          (writes_not_read (among read_tools name) (among write_tools name || eqs name "shell")
            (λ w. tools_that_change name w)),
)

-- ===== src/Permissions/Tests.antt =====
-- The policy at concrete inputs.
use uma_agent.Base.{◌≡◌, ◌&&◌, ◌||◌, eqs}
use uma_agent.Permissions.{plan, executes_tools, write_tools, among, decide}
use uma_agent.Permissions.Policy.{is_known, decide_lem}

decide_lem_example :
    ((decide plan "edit").allowed ≡ executes_tools plan && is_known "edit")
    × ((decide plan "edit").requires_approval
        ≡ executes_tools plan && (among write_tools "edit" || eqs "edit" "shell"))
decide_lem_example = decide_lem plan "edit"

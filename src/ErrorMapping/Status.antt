-- ===== src/ErrorMapping/Status.antt =====
-- Codes and statuses that belong together.
use uma_agent.Base.{ℕ, String, Text, ◌≡◌, Bool, not, ◌&&◌, ◌||◌, if◌then◌else◌, arith}
use uma_agent.ErrorMapping.{
  Matches, Code, schema_mismatch, database_error, not_found, conflict, xianyu_admin_required,
  forbidden, provider_contract_error, cancelled, provider_error, validation_failed, internal_error,
  code_of, status_of, matches, mapped, map_server_error,
}

-- The status that goes with a code.
abbrev pub code_status : Code → ℕ
code_status schema_mismatch = 503
code_status database_error = 500
code_status not_found = 404
code_status conflict = 409
code_status xianyu_admin_required = 403
code_status forbidden = 403
code_status provider_contract_error = 502
code_status cancelled = 409
code_status provider_error = 502
code_status validation_failed = 400
code_status internal_error = 500

-- A text of a refused access or of a broken contract that also speaks of a cancellation, and of
-- nothing that is tested before.
abbrev pub is_mixed : Matches → Bool
is_mixed m =
    not m.schema_mismatch
    && (not m.database_failure
        && (not m.not_found
            && (not m.conflict
                && (m.cancelled
                    && (m.xianyu_admin_required || (m.forbidden || m.provider_contract))))))

-- The code of such a text without the cancellation.
abbrev pub refused_code : Matches → Code
refused_code m =
    if m.xianyu_admin_required
    then xianyu_admin_required
    else if m.forbidden
    then forbidden
    else provider_contract_error

mapped_status :
    (m : Matches) (redacted : String)
    → (mapped m redacted).status
      ≡ (if is_mixed m then 409 else code_status (mapped m redacted).code)
unfolding mapped code_of status_of
mapped_status m redacted = ground arith

mapped_code :
    (m : Matches) (redacted : String)
    → (mapped m redacted).code ≡ (if is_mixed m then refused_code m else (mapped m redacted).code)
unfolding mapped code_of
mapped_code m redacted = ground arith

-- The status of an error is the one that goes with its code, but for the mixed texts: an error of
-- refused access, or of a provider's contract, whose text also speaks of a cancellation has the code
-- of the refusal, or else of the contract, and gets the status 409 of a conflict.
pub status_lem :
    (t : Text) (redacted : String)
    → ((map_server_error t redacted).status
        ≡ (if is_mixed (matches t) then 409 else code_status (map_server_error t redacted).code))
      × ((map_server_error t redacted).code ≡ (
          if is_mixed (matches t)
          then refused_code (matches t)
          else (map_server_error t redacted).code))
unfolding map_server_error
status_lem t redacted = (mapped_status (matches t) redacted, mapped_code (matches t) redacted)

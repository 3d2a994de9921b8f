-- ===== src/ErrorMapping.antt =====
-- The codes and statuses of the server's errors: apps/server/src/error-mapping.ts. The regular
-- expressions are alternatives of words that are looked for whatever the case of their letters; the
-- redacted text is an argument.
pub mod Status
pub mod Tests
use Prim.Native.String.{[] as empty_text, ◌∷◌ as text_cons}
use Prim.Native.Char.{code as code_point}
use uma_agent.Base.{
  ℕ, ◌+◌, ◌==◌, String, Bool, true, false, not, ◌&&◌, ◌||◌, List, [], ◌∷◌, if◌then◌else◌, any, leb,
  Text,
}

-- A letter in lower case; of other characters no expression speaks.
abbrev pub folded : ℕ → ℕ
folded c = if leb 65 c && leb c 90 then c + 32 else c

-- Whether the text starts with the word, in any case of its letters.
unfoldable pub starts_with : Text → String → Bool
starts_with t empty_text = true
starts_with [] (text_cons c word) = false
starts_with (d ∷ t) (text_cons c word) = folded d == folded (code_point c) && starts_with t word

unfoldable pub includes : Text → String → Bool
unfolding starts_with
includes [] word = starts_with [] word
includes (c ∷ t) word = starts_with (c ∷ t) word || includes t word

-- An expression of alternatives.
unfoldable pub mentions : Text → List String → Bool
unfolding includes
mentions t words = any (includes t) words

-- The answers of the expressions; `mentions_provider` is that of the expression in `provider`.
pub record Matches : Type 0 where
  pub schema_mismatch : Bool
  pub database_failure : Bool
  pub not_found : Bool
  pub conflict : Bool
  pub provider_contract : Bool
  pub mentions_provider : Bool
  pub cancelled : Bool
  pub xianyu_admin_required : Bool
  pub forbidden : Bool
  pub validation : Bool

pub data Code : Type 0 where
  schema_mismatch database_error not_found conflict xianyu_admin_required forbidden
        provider_contract_error cancelled provider_error validation_failed internal_error :
      Code

pub record ServerError : Type 0 where
  pub code : Code
  pub status : ℕ
  pub message : String
  pub retryable : Bool

unfoldable pub matches : Text → Matches
unfolding mentions
matches t = record {
  schema_mismatch = mentions t ("schema_mismatch" ∷ "unsupported database schema" ∷ []);
  database_failure =
      mentions t
        ("SQLITE_" ∷ "constraint failed" ∷ "database is locked" ∷ "database disk image" ∷ []);
  not_found = mentions t ("not found" ∷ []);
  conflict = mentions t (
      "already" ∷ "not pending" ∷ "not cancellable" ∷ "active run" ∷ "only interrupted"
      ∷ "requiring confirmation" ∷ "queue revision conflict" ∷ "queue changed"
      ∷ "did not stop in time" ∷ []);
  provider_contract = mentions t ("provider contract" ∷ []);
  mentions_provider =
      mentions t ("provider" ∷ "preflight" ∷ "classification" ∷ "verification" ∷ "model" ∷ []);
  cancelled = mentions t ("cancel" ∷ []);
  xianyu_admin_required = mentions t ("xianyu administrator access required" ∷ []);
  forbidden = mentions t ("administrator access" ∷ "required permission" ∷ "forbidden" ∷ []);
  validation = mentions t (
      "invalid" ∷ "required" ∷ "must " ∷ "unsupported" ∷ "outside" ∷ "escapes" ∷ "exceeds"
      ∷ "unavailable" ∷ "does not support" ∷ "belongs to another session"
      ∷ "active conversation path" ∷ []);
}

abbrev pub is_provider : Matches → Bool
is_provider m = not m.provider_contract && m.mentions_provider

unfoldable pub code_of : Matches → Code
code_of m =
    if m.schema_mismatch
    then schema_mismatch
    else if m.database_failure
    then database_error
    else if m.not_found
    then not_found
    else if m.conflict
    then conflict
    else if m.xianyu_admin_required
    then xianyu_admin_required
    else if m.forbidden
    then forbidden
    else if m.provider_contract
    then provider_contract_error
    else if m.cancelled
    then cancelled
    else if is_provider m
    then provider_error
    else if m.validation
    then validation_failed
    else internal_error

unfoldable pub status_of : Matches → ℕ
status_of m =
    if m.schema_mismatch
    then 503
    else if m.not_found
    then 404
    else if m.conflict || m.cancelled
    then 409
    else if m.xianyu_admin_required || m.forbidden
    then 403
    else if m.provider_contract || is_provider m
    then 502
    else if m.validation
    then 400
    else 500

abbrev pub is_internal : Code → Bool
is_internal internal_error = true
is_internal _ = false

-- The error with the answers of the expressions and the redacted text.
unfoldable pub mapped : Matches → String → ServerError
unfolding code_of status_of
mapped m redacted = record {
  code = code_of m;
  status = if m.database_failure && not m.schema_mismatch then 500 else status_of m;
  message =
      if m.schema_mismatch
      then "Server state does not match this release; restore a backup created by this release or use the matching older release."
      else if m.database_failure
      then "The server could not persist this operation. Retry after checking server state."
      else redacted;
  retryable = is_provider m || (m.database_failure || is_internal (code_of m));
}

-- `mapServerError` of an error with the text; `redacted` is the text without secrets.
unfoldable pub map_server_error : Text → String → ServerError
unfolding matches mapped
map_server_error t redacted = mapped (matches t) redacted

-- ===== src/ToolLoop.antt =====
-- `ToolLoopGuard` of packages/core/src/tool-loop-guard.ts: the record of a run's tool calls, and
-- the decision on each new call. The hash of a call's arguments and of a result is a parameter,
-- since it is SHA-256; the text of a decision's message follows from the other fields.
pub mod Windows
pub mod Invariant
pub mod Repeats
pub mod Tests
use Prim.Native.String.{◌++◌ as text_append}
use uma_agent.Base.{
  ℕ, zero, suc, ◌-◌, String, Bool, true, false, not, ◌&&◌, List, [], ◌∷◌, ◌++◌, Option, none, some,
  map, ite, same, eqs, any, select, length, last_n, drop, leb, ltb, ◌==◌, if◌then◌else◌,
}

pub data Level : Type 0 where
  warning critical : Level

pub data Pattern : Type 0 where
  repeat no_progress ping_pong : Pattern

pub record ToolLoopDecision : Type 0 where
  pub level : Level
  pub pattern_ : Pattern
  pub count : ℕ
  pub signature : String

pub record ToolRecord : Type 0 where
  pub idempotency_key : String
  pub signature : String
  pub result : Option String

-- Oldest first.
pub record ToolLoopGuard : Type 0 where
  pub records : List ToolRecord
  pub keys : List String

-- What the guard reads of a `RunAction`.
pub record RunAction (V : Type 0) : Type 0 where
  pub idempotency_key : String
  pub tool_name : String
  pub input : V
  pub result : Option V

abbrev pub empty_guard : ToolLoopGuard
empty_guard = record { records = []; keys = [] }

abbrev pub has_key : String → List String → Bool
has_key k ks = any (λ j. eqs j k) ks

abbrev pub has_signature : String → ToolRecord → Bool
has_signature sig r = eqs r.signature sig

abbrev pub is_completed : Option String → Bool
is_completed none = false
is_completed (some t) = not (eqs t "")

-- `item === xs[index % 2]` for every item: the first two elements in turn.
unfoldable pub in_turn : String → String → List String → Bool
in_turn a b [] = true
in_turn a b (x ∷ xs) = eqs x a && in_turn b a xs

unfoldable pub alternates : List String → Bool
unfolding in_turn
alternates [] = false
alternates (a ∷ []) = false
alternates (a ∷ b ∷ xs) = in_turn a b (a ∷ b ∷ xs) && not (eqs a b)

-- The last `n` signatures alternate between two values.
unfoldable pub ping_pongs : ℕ → List String → Bool
ping_pongs n sigs = leb n (length sigs) && alternates (last_n n sigs)

-- `new Set(results).size === 1` for three results.
abbrev pub all_same : List (Option String) → Bool
all_same (some a ∷ some b ∷ some c ∷ []) = eqs a b && eqs b c
all_same _ = false

unfoldable pub stalls : String → List ToolRecord → Bool
stalls sig rs =
    all_same (
      map (λ r. r.result)
        (last_n 3 (select (λ r. has_signature sig r && is_completed r.result) rs)))

unfoldable pub repeat_count : String → List ToolRecord → ℕ
repeat_count sig rs = length (select (has_signature sig) rs)

abbrev pub signatures : List ToolRecord → List String
signatures = map (λ r. r.signature)

-- The tests of `check`, on the records with the new call as the last.
unfoldable pub judge : String → List ToolRecord → Option ToolLoopDecision
judge sig rs =
    let n = repeat_count sig rs in
    let recent = last_n 10 (signatures rs) in
    if leb 6 n
    then some (record { level = critical; pattern_ = repeat; count = n; signature = sig })
    else if stalls sig rs
    then some (record { level = warning; pattern_ = no_progress; count = 3; signature = sig })
    else if ping_pongs 10 recent
    then some (record { level = critical; pattern_ = ping_pong; count = 5; signature = sig })
    else if ping_pongs 6 recent
    then some (record { level = warning; pattern_ = ping_pong; count = 3; signature = sig })
    else if n == 3
    then some (record { level = warning; pattern_ = repeat; count = n; signature = sig })
    else none

-- `if (this.records.length > 64) this.records.shift();`
unfoldable pub trim : List ToolRecord → List ToolRecord
trim rs = if ltb 64 (length rs) then drop 1 rs else rs

-- `findLast` by key, and the result written to the record that it finds: the flag says that a
-- later record has been written.
abbrev pub mark : String → String → ToolRecord → List ToolRecord × Bool → List ToolRecord × Bool
mark key text r (rs, true) = (r ∷ rs, true)
mark key text r (rs, false) =
    ite (same r.idempotency_key key) (record r { result = some text } ∷ rs, true) (r ∷ rs, false)

unfoldable pub write_last : String → String → List ToolRecord → List ToolRecord × Bool
write_last key text [] = ([], false)
write_last key text (r ∷ rs) = mark key text r (write_last key text rs)

module _ {V : Type 0} (digest : V → String) where
  abbrev pub signature_of : String → V → String
  signature_of tool args = text_append tool (text_append ":" (digest args))

  unfoldable pub check :
      String → V → String → ToolLoopGuard → ToolLoopGuard × Option ToolLoopDecision
  check tool args key g =
      if has_key key g.keys
      then (g, none)
      else (let sig = signature_of tool args in
          let new : ToolRecord = record { idempotency_key = key; signature = sig; result = none } in
          let rs = trim (g.records ++ new ∷ []) in
          (record { records = rs; keys = g.keys ++ key ∷ [] }, judge sig rs))

  unfoldable pub record_result : String → V → ToolLoopGuard → ToolLoopGuard
  record_result key result g = record g { records = (write_last key (digest result) g.records).0 }

  abbrev pub digest_of : Option V → Option String
  digest_of none = none
  digest_of (some v) = some (digest v)

  unfoldable pub restore : RunAction V → ToolLoopGuard → ToolLoopGuard
  restore a g = if has_key a.idempotency_key g.keys then g else record {
    records =
        g.records
        ++ record {
          idempotency_key = a.idempotency_key;
          signature = signature_of a.tool_name a.input;
          result = digest_of a.result;
        }
          ∷ [];
    keys = g.keys ++ a.idempotency_key ∷ [];
  }

  unfoldable pub restore_all : List (RunAction V) → ToolLoopGuard → ToolLoopGuard
  restore_all [] g = g
  restore_all (a ∷ as') g = restore_all as' (restore a g)

  -- The constructor.
  unfoldable pub new_guard : List (RunAction V) → ToolLoopGuard
  unfolding restore_all
  new_guard actions = restore_all actions empty_guard

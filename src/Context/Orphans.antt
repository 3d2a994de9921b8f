-- ===== src/Context/Orphans.antt =====
-- What `preserve_orphans` makes of a conversation.
use uma_agent.Base.{
  ℕ, String, ◌≡◌, ◌≢◌, refl, sym, subst, ap, ◌∙◌, Bool, ◌||◌, true, false, List, [], ◌∷◌, eqs,
  eqs_sound, arith, Bool-cases, inl, inr, ◌⊎◌,
}
use uma_agent.Context.{
  Text, text, tool_call, ToolResult, AgentMessage, assistant, user, tool_result, custom,
  StoredAgentMessage, tool_call_ids, has_id, without, resolve, preserve_orphans,
}

-- Behind these messages, the latest first, a call with the id is waiting for its result: the turn
-- made it, and neither the user nor a result of the call has come since.
abbrev pub Waiting : String → List AgentMessage → Type 0
Waiting id [] = ⊥
Waiting id (assistant bs ∷ ms) = has_id id (tool_call_ids (assistant bs)) ≡ true
Waiting id (user bs t ∷ ms) = ⊥
Waiting id (tool_result r ∷ ms) = (r.tool_call_id ≢ id) × Waiting id ms
Waiting id (custom n ∷ ms) = Waiting id ms

abbrev pub Fits : AgentMessage → List AgentMessage → Type 0
Fits (tool_result r) before = Waiting r.tool_call_id before
Fits (assistant bs) before = Unit {0}
Fits (user bs t) before = Unit {0}
Fits (custom n) before = Unit {0}

-- Every tool result of the second list answers a call that is waiting at its place in the first.
abbrev pub Answers : List AgentMessage → List StoredAgentMessage → List StoredAgentMessage → Type 0
Answers before [] [] = Unit {0}
Answers before (e ∷ es) (r ∷ rs) = Fits r.message before × Answers (e.message ∷ before) es rs
Answers before _ _ = ⊥

-- What becomes of a message behind the messages `before`: it stays, but for a tool result that no
-- call is waiting for, whose contents go to a user's message.
abbrev pub Preserved :
    (Text → Bool → Text) → List AgentMessage → AgentMessage → AgentMessage → Type 0
Preserved label before (tool_result r) m =
    (Waiting r.tool_call_id before × (m ≡ tool_result r))
    ⊎ (¬ Waiting r.tool_call_id before
        × (m ≡ user (text (label r.tool_name r.is_error) ∷ r.content) r.timestamp))
Preserved label before (assistant bs) m = m ≡ assistant bs
Preserved label before (user bs t) m = m ≡ user bs t
Preserved label before (custom n) m = m ≡ custom n

-- So for every message of a list, each in its place with its sequence number.
abbrev pub AllPreserved :
    (Text → Bool → Text)
    → List AgentMessage
    → List StoredAgentMessage
    → List StoredAgentMessage
    → Type 0
AllPreserved label before [] [] = Unit {0}
AllPreserved label before (e ∷ es) (r ∷ rs) =
    (r.sequence ≡ e.sequence)
    × Preserved label before e.message r.message
    × AllPreserved label (e.message ∷ before) es rs
AllPreserved label before _ _ = ⊥

-- The set of the open calls holds exactly the calls that wait.
abbrev Covers : List String → List AgentMessage → Type 0
Covers calls before =
    (id : String)
    → (has_id id calls ≡ true → Waiting id before) × (Waiting id before → has_id id calls ≡ true)

Preserved-Fits :
    (label : Text → Bool → Text) (before : List AgentMessage) (e m : AgentMessage)
    → Preserved label before e m
    → Fits m before
Preserved-Fits label before (tool_result r) m (inl (w, p)) = subst (λ m. Fits m before) (sym p) w
Preserved-Fits label before (tool_result r) m (inr (n, p)) = subst (λ m. Fits m before) (sym p) tt
Preserved-Fits label before (assistant bs) m p = subst (λ m. Fits m before) (sym p) tt
Preserved-Fits label before (user bs t) m p = subst (λ m. Fits m before) (sym p) tt
Preserved-Fits label before (custom n) m p = subst (λ m. Fits m before) (sym p) tt

AllPreserved-Answers :
    (label : Text → Bool → Text) (before : List AgentMessage) (es rs : List StoredAgentMessage)
    → AllPreserved label before es rs
    → Answers before es rs
AllPreserved-Answers label before [] [] h = tt
AllPreserved-Answers label before [] (r ∷ rs) h = h
AllPreserved-Answers label before (e ∷ es) [] h = h
AllPreserved-Answers label before (e ∷ es) (r ∷ rs) h = (
  Preserved-Fits label before e.message r.message h.1,
  AllPreserved-Answers label (e.message ∷ before) es rs h.2,
)

has_id-without :
    (id k : String) (ids : List String)
    → has_id id (without k ids) ≡ true
    → (has_id id ids ≡ true) × (k ≢ id)
has_id-without id k [] h = cc
has_id-without id k (j ∷ ids) h = elim (Bool-cases (eqs j k)) [
  | inl gone ↦
      let ih = has_id-without id k ids (ground (arith, h, gone)) in (ground (arith, ih.0), ih.1)
  | inr stays ↦ elim (Bool-cases (eqs j id)) [
    | inl hit ↦ (ground arith, λ e. ground arith)
    | inr miss ↦
        let ih = has_id-without id k ids (ground (arith, h, stays, miss)) in
        (ground (arith, ih.0), ih.1)
  ]
]

has_id-kept :
    (id k : String) (ids : List String)
    → k ≢ id
    → has_id id ids ≡ true
    → has_id id (without k ids) ≡ true
has_id-kept id k [] d h = h
has_id-kept id k (j ∷ ids) d h = elim (Bool-cases (eqs j id)) [
  | inl hit ↦
      let stays : eqs j k ≡ false = elim (Bool-cases (eqs j k)) [
        | inl both ↦ absurd (d (sym (eqs_sound j k both) ∙ eqs_sound j id hit))
        | inr apart ↦ apart
      ] in
      rw stays (first (eqs j id) (has_id id (without k ids)) hit)
  | inr miss ↦
      let ih = has_id-kept id k ids d (rest (eqs j id) (has_id id ids) miss h) in
      elim (Bool-cases (eqs j k)) [
        | inl gone ↦ rw gone ih
        | inr stays ↦ rw stays (second (eqs j id) (has_id id (without k ids)) ih)
      ]
]
  where
    first : (x y : Bool) → x ≡ true → (x || y) ≡ true
    first x y p = ground arith

    second : (x y : Bool) → y ≡ true → (x || y) ≡ true
    second x y p = ground arith

    rest : (x y : Bool) → x ≡ false → (x || y) ≡ true → y ≡ true
    rest x y p q = ground arith

none_waits :
    (id k : String) (calls : List String) → has_id k calls ≡ false → has_id id calls ≡ true → k ≢ id
none_waits id k calls n h e = cc (n, h, ap (λ i. has_id i calls) e)

resolve-Preserved :
    (label : Text → Bool → Text) (calls : List String) (m : AgentMessage)
    (before : List AgentMessage)
    → Covers calls before
    → Preserved label before m (resolve label calls m).0
      × Covers (resolve label calls m).1 (m ∷ before)
unfolding resolve
resolve-Preserved label calls (assistant bs) before c = (refl, λ id. (λ h. h, λ h. h))
resolve-Preserved label calls (user bs t) before c = (refl, λ id. (λ h. cc h, λ h. absurd h))
resolve-Preserved label calls (custom n) before c = (refl, c)
resolve-Preserved label calls (tool_result r) before c =
    elim (Bool-cases (has_id r.tool_call_id calls)) [
      | inl waits ↦ rw waits (
        inl ((c r.tool_call_id).0 waits, refl),
        λ id. (
          λ h. let w = has_id-without id r.tool_call_id calls h in (w.1, (c id).0 w.0),
          λ w. has_id-kept id r.tool_call_id calls w.0 ((c id).1 w.1),
        ),
      )
      | inr gone ↦ rw gone (
        inr (λ w. cc (gone, (c r.tool_call_id).1 w), refl),
        λ id. (λ h. (none_waits id r.tool_call_id calls gone h, (c id).0 h), λ w. (c id).1 w.1),
      )
    ]

preserve_orphans-AllPreserved :
    (label : Text → Bool → Text) (calls : List String) (es : List StoredAgentMessage)
    (before : List AgentMessage)
    → Covers calls before
    → AllPreserved label before es (preserve_orphans label calls es)
unfolding preserve_orphans
preserve_orphans-AllPreserved label calls [] before c = tt
preserve_orphans-AllPreserved label calls (e ∷ es) before c =
    let r = resolve label calls e.message in
    let f = resolve-Preserved label calls e.message before c in
    (refl, f.0, preserve_orphans-AllPreserved label r.1 es (e.message ∷ before) f.1)

-- In what is sent to the model a tool result stays exactly if a call of the conversation is waiting
-- for it at its place, and otherwise becomes a user's message that holds the sentence and all the
-- result's blocks. Every other message stays as it is. The order, the number and the sequence numbers
-- of the messages stay. So every tool result that is sent answers a call that waits.
pub no_bare_results :
    (label : Text → Bool → Text) (es : List StoredAgentMessage)
    → AllPreserved label [] es (preserve_orphans label [] es)
      × Answers [] es (preserve_orphans label [] es)
no_bare_results label es =
    let kept = preserve_orphans-AllPreserved label [] es [] (λ id. (λ h. cc h, λ h. absurd h)) in
    (kept, AllPreserved-Answers label [] es (preserve_orphans label [] es) kept)

-- A result whose call is gone and that stands between a call and the call's result becomes a user's
-- message between the two: the result stays a tool result, and no longer follows its call.
pub orphan_splits_exchange :
    (label : Text → Bool → Text) (a : String) (orphan answer : ToolResult) (i j k : ℕ)
    → orphan.tool_call_id ≢ a
    → answer.tool_call_id ≡ a
    → preserve_orphans label [] (
        record { sequence = i; message = assistant (tool_call a ∷ []) }
        ∷ record { sequence = j; message = tool_result orphan }
        ∷ record { sequence = k; message = tool_result answer }
        ∷ [])
      ≡ record { sequence = i; message = assistant (tool_call a ∷ []) }
        ∷ record {
          sequence = j;
          message =
              user
                (text (label orphan.tool_name orphan.is_error) ∷ orphan.content)
                orphan.timestamp;
        }
        ∷ record { sequence = k; message = tool_result answer }
        ∷ []
unfolding preserve_orphans resolve
orphan_splits_exchange label a orphan answer i j k d e = ground arith

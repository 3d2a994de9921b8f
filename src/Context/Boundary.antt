-- ===== src/Context/Boundary.antt =====
-- Where a conversation may be cut.
use uma_agent.Base.{
  ℕ, suc, ◌+◌, ◌≤◌, ◌<◌, String, ◌≡◌, refl, sym, subst, fun_ext, ◌∙◌, Bool, true, false,
  if◌then◌else◌, eqs, eqs_sound, texts_differ, Option-cases, List, [], ◌∷◌, Option, none, some, ltb,
  length, arith, Bool-cases, inl, inr, is_some_b,
}
use uma_agent.JsMap.{get, put, get-put, get-put_self, get-put_ne}
use uma_agent.Context.{
  AgentMessage, assistant, user, tool_result, custom, StoredAgentMessage, tool_call_ids,
  note_result, result_positions, pushed, extend, grow, safe_compaction_boundary,
}

pushed-le : (o : Option ℕ) (i b : ℕ) → b ≤ pushed o i b
pushed-le none i b = omega arith
pushed-le (some p) i b = ground arith

pushed-after : (i b p : ℕ) → i < p → p < pushed (some p) i b
pushed-after i b p h = ground arith

pushed-bound :
    (n : ℕ) (o : Option ℕ) (i b : ℕ) → ((p : ℕ) → o ≡ some p → p < n) → b ≤ n → pushed o i b ≤ n
pushed-bound n none i b k h = h
pushed-bound n (some p) i b k h = ground (arith, k p refl)

-- Whether the message is a result of the call.
abbrev pub is_result : String → AgentMessage → Bool
is_result id (tool_result r) = eqs r.tool_call_id id
is_result id (assistant bs) = false
is_result id (user bs t) = false
is_result id (custom n) = false

-- Where the first result of the call stands in the conversation, from `i` on.
unfoldable pub first_result : ℕ → List StoredAgentMessage → String → Option ℕ
first_result i [] id = none
first_result i (e ∷ es) id =
    let later = first_result (suc i) es id in if is_result id e.message then some i else later

module _ (at : String → Option ℕ) where
  -- The result of each of the calls, if it comes after the message at `i`, lies before `f`.
  abbrev pub CallsClosed : ℕ → ℕ → List String → Type 0
  CallsClosed f i [] = Unit {0}
  CallsClosed f i (id ∷ ids) = ((p : ℕ) → at id ≡ some p → i < p → p < f) × CallsClosed f i ids

  -- So for every message before `f`.
  abbrev pub IsClosed : ℕ → ℕ → List StoredAgentMessage → Type 0
  IsClosed f i [] = Unit {0}
  IsClosed f i (e ∷ es) =
      (i < f → CallsClosed f i (tool_call_ids e.message)) × IsClosed f (suc i) es

module _ (m : List (String × ℕ)) where
  abbrev place : String → Option ℕ
  place id = get id m

  extend-le : (i b : ℕ) (ids : List String) → b ≤ extend m i b ids
  unfolding extend
  extend-le i b [] = omega arith
  extend-le i b (id ∷ ids) =
      omega (arith, pushed-le (get id m) i b, extend-le i (pushed (get id m) i b) ids)

  CallsClosed-mono :
      (f g i : ℕ) (ids : List String)
      → f ≤ g
      → CallsClosed place f i ids
      → CallsClosed place g i ids
  CallsClosed-mono f g i [] h c = tt
  CallsClosed-mono f g i (id ∷ ids) h c =
      (λ p e l. omega (arith, c.0 p e l), CallsClosed-mono f g i ids h c.1)

  extend-CallsClosed : (i b : ℕ) (ids : List String) → CallsClosed place (extend m i b ids) i ids
  unfolding extend
  extend-CallsClosed i b [] = tt
  extend-CallsClosed i b (id ∷ ids) =
      let b' = pushed (get id m) i b in
      (
        λ p e l. omega (
          arith,
          extend-le i b' ids,
          pushed-after i b p l,
          subst (λ o. pushed (some p) i b ≡ pushed o i b) (sym e) refl,
        ),
        extend-CallsClosed i b' ids,
      )

  grow-le : (i b : ℕ) (es : List StoredAgentMessage) → b ≤ grow m i b es
  unfolding grow
  grow-le i b [] = omega arith
  grow-le i b (e ∷ es) =
      let b' = extend m i b (tool_call_ids e.message) in
      ground (arith, extend-le i b (tool_call_ids e.message), grow-le (suc i) b' es)

  IsClosed-beyond : (f i : ℕ) (es : List StoredAgentMessage) → f ≤ i → IsClosed place f i es
  IsClosed-beyond f i [] h = tt
  IsClosed-beyond f i (e ∷ es) h =
      (λ l. absurd (omega arith), IsClosed-beyond f (suc i) es (omega arith))

  grow_on :
      (i b : ℕ) (e : StoredAgentMessage) (es : List StoredAgentMessage)
      → ltb i b ≡ true
      → grow m i b (e ∷ es) ≡ grow m (suc i) (extend m i b (tool_call_ids e.message)) es
  unfolding grow
  grow_on i b e es h = rw h refl

  grow_stop :
      (i b : ℕ) (e : StoredAgentMessage) (es : List StoredAgentMessage)
      → ltb i b ≡ false
      → grow m i b (e ∷ es) ≡ b
  unfolding grow
  grow_stop i b e es h = rw h refl

  grow-IsClosed : (i b : ℕ) (es : List StoredAgentMessage) → IsClosed place (grow m i b es) i es
  unfolding grow
  grow-IsClosed i b [] = tt
  grow-IsClosed i b (e ∷ es) =
      let ids = tool_call_ids e.message in
      let b' = extend m i b ids in
      let ih = grow-IsClosed (suc i) b' es in
      let closed =
        CallsClosed-mono b' (grow m (suc i) b' es) i ids (grow-le (suc i) b' es)
          (extend-CallsClosed i b ids) in
      elim (Bool-cases (ltb i b)) [
        | inl more ↦
            subst (λ f. IsClosed place f i (e ∷ es)) (sym (grow_on i b e es more)) (λ _. closed, ih)
        | inr stop ↦
            subst (λ f. IsClosed place f i (e ∷ es)) (sym (grow_stop i b e es stop))
              (IsClosed-beyond b i (e ∷ es) (ground arith))
      ]

  pushed-least :
      (i b g : ℕ) (o : Option ℕ) → b ≤ g → ((p : ℕ) → o ≡ some p → i < p → p < g) → pushed o i b ≤ g
  pushed-least i b g none l c = l
  pushed-least i b g (some p) l c = ground (arith, c p refl)

  extend-least :
      (i b g : ℕ) (ids : List String) → b ≤ g → CallsClosed place g i ids → extend m i b ids ≤ g
  unfolding extend
  extend-least i b g [] l c = l
  extend-least i b g (id ∷ ids) l c =
      extend-least i (pushed (get id m) i b) g ids (pushed-least i b g (get id m) l c.0) c.1

  grow-least :
      (i b g : ℕ) (es : List StoredAgentMessage) → b ≤ g → IsClosed place g i es → grow m i b es ≤ g
  unfolding grow
  grow-least i b g [] l c = l
  grow-least i b g (e ∷ es) l c =
      let b' = extend m i b (tool_call_ids e.message) in
      elim (Bool-cases (ltb i b)) [
        | inl more ↦
            subst (λ x. x ≤ g) (sym (grow_on i b e es more))
              (grow-least (suc i) b' g es
                (extend-least i b g (tool_call_ids e.message) l (c.0 (ground arith))) c.1)
        | inr stop ↦ subst (λ x. x ≤ g) (sym (grow_stop i b e es stop)) l
      ]

  -- Every position in the map lies before `n`.
  abbrev pub IsBelow : ℕ → Type 0
  IsBelow n = (id : String) (p : ℕ) → get id m ≡ some p → p < n

  extend-bound : (n i b : ℕ) (ids : List String) → IsBelow n → b ≤ n → extend m i b ids ≤ n
  unfolding extend
  extend-bound n i b [] k h = h
  extend-bound n i b (id ∷ ids) k h =
      extend-bound n i (pushed (get id m) i b) ids k (pushed-bound n (get id m) i b (k id) h)

  grow-bound : (n i b : ℕ) (es : List StoredAgentMessage) → IsBelow n → b ≤ n → grow m i b es ≤ n
  unfolding grow
  grow-bound n i b [] k h = h
  grow-bound n i b (e ∷ es) k h =
      let b' = extend m i b (tool_call_ids e.message) in
      ground
        (arith, grow-bound n (suc i) b' es k (extend-bound n i b (tool_call_ids e.message) k h))

note_result-IsBelow :
    (n i : ℕ) (x : AgentMessage) (m : List (String × ℕ))
    → i < n
    → IsBelow m n
    → IsBelow (note_result i x m) n
note_result-IsBelow n i (tool_result r) m h k = λ id p.
    elim (Bool-cases (is_some_b (get r.tool_call_id m))) [
      | inl old ↦ rw old (k id p)
      | inr new ↦ rw new (λ e. ground (arith, get-put r.tool_call_id id i m, k id p, e))
    ]
note_result-IsBelow n i (assistant bs) m h k = k
note_result-IsBelow n i (user bs t) m h k = k
note_result-IsBelow n i (custom c) m h k = k

result_positions-IsBelow :
    (n i : ℕ) (es : List StoredAgentMessage) (m : List (String × ℕ))
    → i + length es ≤ n
    → IsBelow m n
    → IsBelow (result_positions i es m) n
unfolding result_positions
result_positions-IsBelow n i [] m h k = k
result_positions-IsBelow n i (e ∷ es) m h k =
    result_positions-IsBelow n (suc i) es (note_result i e.message m) (omega arith)
      (note_result-IsBelow n i e.message m (omega arith) k)

-- What a message adds to the map.
noted :
    (id : String) (i : ℕ) (x : AgentMessage) (m : List (String × ℕ)) (later : Option ℕ)
    → (if is_some_b (get id (note_result i x m)) then get id (note_result i x m) else later)
      ≡ (if is_some_b (get id m) then get id m else (if is_result id x then some i else later))
noted id i (tool_result r) m later = elim (Bool-cases (is_some_b (get r.tool_call_id m))) [
  | inl old ↦ elim (Bool-cases (eqs r.tool_call_id id)) [
    | inl e ↦
        let there : is_some_b (get id m) ≡ true =
          subst (λ k. is_some_b (get k m) ≡ true) (eqs_sound r.tool_call_id id e) old in
        rw old (rw there refl)
    | inr d ↦ rw old (rw d refl)
  ]
  | inr new ↦ elim (Bool-cases (eqs r.tool_call_id id)) [
    | inl e ↦
        let gone : is_some_b (get id m) ≡ false =
          subst (λ k. is_some_b (get k m) ≡ false) (eqs_sound r.tool_call_id id e) new in
        let hit : get id (put r.tool_call_id i m) ≡ some i =
          subst (λ k. get k (put r.tool_call_id i m) ≡ some i) (eqs_sound r.tool_call_id id e)
            (get-put_self r.tool_call_id i m) in
        rw new (rw hit (rw e (rw gone refl)))
    | inr d ↦
        rw new
          (rw (get-put_ne r.tool_call_id id i m (texts_differ r.tool_call_id id d)) (rw d refl))
  ]
]
noted id i (assistant bs) m later = refl
noted id i (user bs t) m later = refl
noted id i (custom c) m later = refl

-- The map of the code holds the first results, behind what it held before.
result_positions-first :
    (id : String) (i : ℕ) (es : List StoredAgentMessage) (m : List (String × ℕ))
    → get id (result_positions i es m)
      ≡ (if is_some_b (get id m) then get id m else first_result i es id)
unfolding result_positions first_result
result_positions-first id i [] m = elim (Option-cases (get id m)) [
  | inl e ↦ rw e refl
  | inr (p, e) ↦ rw e refl
]
result_positions-first id i (e ∷ es) m =
    result_positions-first id (suc i) es (note_result i e.message m)
    ∙ noted id i e.message m (first_result (suc i) es id)

-- The boundary that is chosen is the least one from the desired one on that keeps the exchanges: it is
-- at least the desired one and stays within the conversation; for every call that is made before it,
-- the first result of the call in the conversation, if it comes after the call, lies before it too;
-- and it is no later than any other boundary `g` for which this holds.
pub boundary_keeps_exchanges :
    (es : List StoredAgentMessage) (desired g : ℕ)
    → desired ≤ length es
    → desired ≤ g
    → IsClosed (first_result 0 es) g 0 es
    → (desired ≤ safe_compaction_boundary es desired)
      × (safe_compaction_boundary es desired ≤ length es)
      × IsClosed (first_result 0 es) (safe_compaction_boundary es desired) 0 es
      × (safe_compaction_boundary es desired ≤ g)
unfolding safe_compaction_boundary get
boundary_keeps_exchanges es desired g h l c =
    let m = result_positions 0 es [] in
    let same_places : place m ≡ first_result 0 es =
      fun_ext (λ id. result_positions-first id 0 es []) in
    (
      grow-le m 0 desired es,
      grow-bound m (length es) 0 desired es
          (result_positions-IsBelow (length es) 0 es [] (omega arith) (λ id p e. cc e)) h,
      subst (λ at. IsClosed at (grow m 0 desired es) 0 es) same_places
          (grow-IsClosed m 0 desired es),
      grow-least m 0 desired g es l (subst (λ at. IsClosed at g 0 es) (sym same_places) c),
    )

-- ===== src/Context/Batches.antt =====
-- The batches that a compaction summarises one after the other.
use uma_agent.Base.{
  ℕ, zero, suc, ◌+◌, ◌≤◌, ◌≡◌, refl, ap, subst, ◌∙◌, false, not, ◌&&◌, List, [], ◌∷◌, ◌++◌, Option,
  none, some, ltb, length, take, drop, All, arith, Bool-cases, inl, inr, min, append_assoc,
  length-drop, take-append-drop,
}
use uma_agent.Context.{
  AgentMessage, StoredAgentMessage, unit_length, is_empty, total_tokens, fill_batches,
  compaction_batches,
}

-- The entries of the batches, in order.
unfoldable pub flatten : List (List StoredAgentMessage) → List StoredAgentMessage
flatten [] = []
flatten (b ∷ bs) = b ++ flatten bs

abbrev pub NonEmpty : List StoredAgentMessage → Type 0
NonEmpty b = is_empty b ≡ false

-- The loop ended with batches that hold these entries.
abbrev pub Splits : List StoredAgentMessage → Option (List (List StoredAgentMessage)) → Type 0
Splits es none = ⊥
Splits es (some bs) = (flatten bs ≡ es) × All NonEmpty bs

unit_length-positive :
    (e : StoredAgentMessage) (es : List StoredAgentMessage) → 1 ≤ unit_length (e ∷ es)
unfolding unit_length
unit_length-positive e es = omega arith

append-NonEmpty :
    (xs : List StoredAgentMessage) (y : StoredAgentMessage) (ys : List StoredAgentMessage)
    → NonEmpty (xs ++ y ∷ ys)
append-NonEmpty [] y ys = refl
append-NonEmpty (x ∷ xs) y ys = refl

take-NonEmpty :
    (n : ℕ) (y : StoredAgentMessage) (ys : List StoredAgentMessage)
    → 1 ≤ n
    → NonEmpty (take n (y ∷ ys))
take-NonEmpty zero y ys h = absurd (omega arith)
take-NonEmpty (suc n) y ys h = refl

Splits-cons :
    (batch es : List StoredAgentMessage) (o : Option (List (List StoredAgentMessage)))
    → NonEmpty batch
    → Splits es o
    → Splits (batch ++ es) (elim o [ none ↦ none | some bs ↦ some (batch ∷ bs) ])
unfolding flatten
Splits-cons batch es none n h = absurd h
Splits-cons batch es (some bs) n h = (ap (◌++◌ batch) h.0, (n, h.1))

module _ (tokens : AgentMessage → ℕ) (most : ℕ) where
  fill_batches-Splits :
      (fuel : ℕ) (batch : List StoredAgentMessage) (size : ℕ) (es : List StoredAgentMessage)
      → length es ≤ fuel
      → Splits (batch ++ es) (fill_batches tokens fuel most batch size es)
  unfolding fill_batches flatten
  fill_batches-Splits fuel [] size [] h = (refl, tt)
  fill_batches-Splits fuel (b ∷ bs) size [] h = (refl, (refl, tt))
  fill_batches-Splits zero batch size (e ∷ es) h = absurd (omega arith)
  fill_batches-Splits (suc fuel) batch size (e ∷ es) h =
      let n = unit_length (e ∷ es) in
      let unit = take n (e ∷ es) in
      let cost = total_tokens tokens unit in
      let left = drop n (e ∷ es) in
      let fits : length left ≤ fuel =
        omega (arith, length-drop n (e ∷ es), unit_length-positive e es) in
      let fresh = fill_batches-Splits fuel unit (min cost most) left fits in
      let joined = fill_batches-Splits fuel (batch ++ unit) (size + min cost most) left fits in
      let whole = take-append-drop n (e ∷ es) in
      elim (Bool-cases (not (is_empty batch) && ltb most (size + cost))) [
        | inl full ↦ rw full (
            subst
              (λ l.
                Splits (batch ++ l)
                  (elim (fill_batches tokens fuel most unit (min cost most) left) [
                    | none ↦ none
                    | some bs ↦ some (batch ∷ bs)
                  ]))
              whole (Splits-cons batch (unit ++ left) _ (ground arith) fresh))
        | inr room ↦ rw room (
            subst
              (λ l.
                Splits l
                  (fill_batches tokens fuel most (batch ++ unit) (size + min cost most) left))
              (append_assoc batch unit left ∙ ap (◌++◌ batch) whole) joined)
      ]

  -- The loop that makes the batches ends; the batches hold the entries in their order, none is lost
  -- and none is doubled, and no batch is empty, whatever the limit and the estimate of the tokens.
  pub batches_split : (es : List StoredAgentMessage) → Splits es (compaction_batches tokens es most)
  unfolding compaction_batches
  batches_split es = fill_batches-Splits (length es) [] 0 es (omega arith)

-- ===== src/SqlWriter/Batches.antt =====
-- A batch, whose operations are counted while its action runs, against the same operations as one
-- group: packages/telemetry/src/sql-writer.ts.
use uma_agent.Base.{
  ℕ, suc, ◌+◌, ◌≤◌, ◌≡◌, ◌∙◌, ap, refl, subst, Bool, true, false, ◌||◌, none, some, List, [], ◌∷◌,
  ◌++◌, append-nil, append_assoc, length, ltb, arith, Bool-cases, inl, inr,
}
use uma_agent.SqlWriter.{
  Writer, Operation, batch, enqueue_group, enqueue_in, enqueue, act, capacity, clear_group,
  dispatch, failed, resolve_waiters, close_by,
}

-- No batch is open.
pub record IsClosed (w : Writer) : Type 0 where
  pub no_group : w.group ≡ none
  pub no_count : w.group_count ≡ 0
  pub no_reject : w.group_rejected ≡ false

abbrev building : List Operation → ℕ → Bool → Writer → Writer
building group n rejected w = record w {
  group = some group;
  group_count = n;
  group_rejected = rejected;
}

act_rejected :
    (operations : List Operation) (n : ℕ) (w : Writer)
    → act operations (building [] n true w) ≡ building [] (n + length operations) true w
unfolding act enqueue enqueue_in enqueue_group
act_rejected [] n w = ground arith
act_rejected (x ∷ rest) n w = ground (arith, act_rejected rest (suc n) w)

act_fits :
    (operations group : List Operation) (n : ℕ) (w : Writer)
    → w.dead ≡ false
    → n + length operations + w.queued_count + w.in_flight ≤ capacity
    → act operations (building group n false w)
      ≡ building (group ++ operations) (n + length operations) false w
unfolding act enqueue enqueue_in enqueue_group
act_fits [] group n w alive h = ground (arith, append-nil group)
act_fits (x ∷ rest) group n w alive h =
    ground
      (arith, act_fits rest (group ++ (x ∷ [])) (suc n) w alive, append_assoc group (x ∷ []) rest)

act_overflows :
    (x : Operation) (rest group : List Operation) (n : ℕ) (w : Writer)
    → (w.dead || ltb capacity (n + length (x ∷ rest) + w.queued_count + w.in_flight)) ≡ true
    → act (x ∷ rest) (building group n false w) ≡ building [] (n + length (x ∷ rest)) true w
unfolding act enqueue enqueue_in enqueue_group
act_overflows x [] group n w h = ground arith
act_overflows x (y ∷ rest) group n w h =
    ground
      (arith, act_rejected (y ∷ rest) (suc n) w, act_overflows y rest (group ++ (x ∷ [])) (suc n) w)

clear-enqueue_group :
    (posts : Bool) (operations group : List Operation) (n : ℕ) (r : Bool) (w : Writer)
    → clear_group (enqueue_group posts operations (building group n r w))
      ≡ enqueue_group posts operations (clear_group w)
unfolding enqueue_group dispatch failed resolve_waiters
clear-enqueue_group posts operations group n r w = ground arith

clear-closed : (w : Writer) → IsClosed w → clear_group w ≡ w
clear-closed w h = ground arith

abbrev close : Bool → Writer → Writer
unfolding close_by enqueue_group
close posts w = clear_group (close_by w.group posts w)

close_rejected :
    (posts : Bool) (operations : List Operation) (w : Writer)
    → (w.dead || ltb capacity (length operations + w.queued_count + w.in_flight)) ≡ true
    → close posts (building [] (0 + length operations) true w)
      ≡ enqueue_group posts operations (clear_group w)
unfolding close close_by enqueue_group
close_rejected posts operations w h = ground arith

batch_by :
    (posts : Bool) (operations : List Operation) (w : Writer)
    → batch posts false operations (clear_group w) ≡ enqueue_group posts operations (clear_group w)
unfolding batch act close close_by enqueue_group
batch_by posts [] w = clear-enqueue_group posts [] [] 0 false w
batch_by posts (x ∷ rest) w =
    elim (Bool-cases (w.dead || ltb capacity (length (x ∷ rest) + w.queued_count + w.in_flight))) [
      | inl over ↦
          ap (close posts) (act_overflows x rest [] 0 w (ground arith))
          ∙ close_rejected posts (x ∷ rest) w over
      | inr fits ↦
          ap (close posts) (act_fits (x ∷ rest) [] 0 w (ground arith) (ground arith))
          ∙ clear-enqueue_group posts (x ∷ rest) (x ∷ rest) (0 + length (x ∷ rest)) false w
    ]

-- A batch whose action does not throw leaves the writer as if its operations were enqueued as one
-- group: that its operations are counted and refused while the action runs makes no difference, so
-- they are queued all together or all counted as failures. This holds where no batch is open.
pub batch-enqueue_group :
    (posts : Bool) (operations : List Operation) (w : Writer)
    → IsClosed w
    → batch posts false operations w ≡ enqueue_group posts operations w
batch-enqueue_group posts operations w h =
    subst (λ v. batch posts false operations v ≡ enqueue_group posts operations v)
      (clear-closed w h) (batch_by posts operations w)

acted_by :
    (operations : List Operation) (w : Writer)
    → clear_group (act operations (building [] 0 false w)) ≡ clear_group w
unfolding act
acted_by [] w = refl
acted_by (x ∷ rest) w =
    elim (Bool-cases (w.dead || ltb capacity (length (x ∷ rest) + w.queued_count + w.in_flight))) [
      | inl over ↦ ap clear_group (act_overflows x rest [] 0 w (ground arith))
      | inr fits ↦ ap clear_group (act_fits (x ∷ rest) [] 0 w (ground arith) (ground arith))
    ]

-- A batch whose action throws leaves the writer as it is.
pub batch_thrown :
    (posts : Bool) (operations : List Operation) (w : Writer)
    → IsClosed w
    → batch posts true operations w ≡ w
unfolding batch act
batch_thrown posts operations w h =
    subst (λ v. batch posts true operations v ≡ v) (clear-closed w h) (acted_by operations w)

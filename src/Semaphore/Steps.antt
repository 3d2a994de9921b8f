-- ===== src/Semaphore/Steps.antt =====
-- The semaphore under every interleaving of its callers.
use uma_agent.Base.{
  ℕ, ◌+◌, ◌≤◌, ◌<◌, ◌≡◌, ◌≢◌, List, [], ◌∷◌, length, length-append, arith, refl, ap, ◌-◌,
}
use uma_agent.Semaphore.{Semaphore, create, acquire, run_on, release, wake, count}

-- One step of some task. A slot is released by a holder, so only where one is held.
pub data Step : Semaphore → Semaphore → Type 0 where
  acquires : (s : Semaphore) (caller : ℕ) → Step s (acquire caller s)
  runs_on : (s : Semaphore) → Step s (run_on s.woken s)
  releases : (s : Semaphore) → 0 < count s → Step s (release s)

pub data Reach (s : Semaphore) : Semaphore → Type 0 where
  here : Reach s s
  next : {t u : Semaphore} → Reach s t → Step t u → Reach s u

-- A step that no new caller makes between the wake-up of a waiter and the waiter's second part.
pub data Orderly : Semaphore → Semaphore → Type 0 where
  acquires : (s : Semaphore) (caller : ℕ) → s.woken ≡ [] → Orderly s (acquire caller s)
  runs_on : (s : Semaphore) → Orderly s (run_on s.woken s)
  releases : (s : Semaphore) → 0 < count s → Orderly s (release s)

pub data OrderlyReach (s : Semaphore) : Semaphore → Type 0 where
  here : OrderlyReach s s
  next : {t u : Semaphore} → OrderlyReach s t → Orderly t u → OrderlyReach s u

-- Slots held and promised are within the limit, and nobody waits while one is free.
pub record IsFair (s : Semaphore) : Type 0 where
  pub within : s.active + length s.woken ≤ s.limit
  pub busy : s.waiting ≢ [] → s.active + length s.woken ≡ s.limit

-- Nobody waits while a slot is neither held nor promised.
abbrev pub IsServed : Semaphore → Type 0
IsServed s = s.waiting ≢ [] → s.limit ≤ s.active + length s.woken

acquire-IsServed : (caller : ℕ) (s : Semaphore) → IsServed s → IsServed (acquire caller s)
unfolding acquire
acquire-IsServed caller s h = ground arith

run_on-IsServed : (ws : List ℕ) (s : Semaphore) → s.woken ≡ ws → IsServed s → IsServed (run_on ws s)
unfolding run_on
run_on-IsServed [] s e h = h
run_on-IsServed (w ∷ ws) s e h = λ q. omega (arith, ap length e, h q)

release-IsServed :
    (ws : List ℕ) (s : Semaphore)
    → s.waiting ≡ ws
    → 0 < s.active
    → IsServed s
    → IsServed (wake ws (record s { active = s.active - 1 }))
unfolding wake
release-IsServed [] s e p h = λ q. absurd (q e)
release-IsServed (w ∷ ws) s e p h =
    λ q. omega (arith, length-append s.woken (w ∷ []), h (λ z. cc (z, e)))

Step-IsServed : {s t : Semaphore} → Step s t → IsServed s → IsServed t
unfolding release count
Step-IsServed (acquires s caller) h = acquire-IsServed caller s h
Step-IsServed (runs_on s) h = run_on-IsServed s.woken s refl h
Step-IsServed (releases s p) h = release-IsServed s.waiting s refl p h

Reach-IsServed : {s t : Semaphore} → IsServed s → Reach s t → IsServed t
Reach-IsServed h here = h
Reach-IsServed h (next r st) = Step-IsServed st (Reach-IsServed h r)

-- From a new semaphore, in every interleaving, while somebody waits the slots held and promised
-- are at least as many as the limit: no wake-up is lost.
pub no_lost_wakeup :
    (limit : ℕ) {s : Semaphore}
    → Reach (create limit) s
    → s.waiting ≢ []
    → s.limit ≤ s.active + length s.woken
unfolding create
no_lost_wakeup limit r = Reach-IsServed {s = create limit} (λ q. absurd (q refl)) r

acquire-IsFair : (caller : ℕ) (s : Semaphore) → s.woken ≡ [] → IsFair s → IsFair (acquire caller s)
unfolding acquire
acquire-IsFair caller s e h = record {
  within = ground (arith, ap length e, h.within);
  busy = ground (arith, ap length e, h.within, h.busy);
}

run_on-IsFair : (ws : List ℕ) (s : Semaphore) → s.woken ≡ ws → IsFair s → IsFair (run_on ws s)
unfolding run_on
run_on-IsFair [] s e h = h
run_on-IsFair (w ∷ ws) s e h = record {
  within = omega (arith, ap length e, h.within);
  busy = λ q. omega (arith, ap length e, h.busy q);
}

wake-IsFair :
    (ws : List ℕ) (s : Semaphore)
    → s.waiting ≡ ws
    → 0 < s.active
    → IsFair s
    → IsFair (wake ws (record s { active = s.active - 1 }))
unfolding wake
wake-IsFair [] s e p h = record { within = omega (arith, h.within); busy = λ q. absurd (q e) }
wake-IsFair (w ∷ ws) s e p h = record {
  within = omega (arith, length-append s.woken (w ∷ []), h.busy (λ z. cc (z, e)));
  busy = λ q. omega (arith, length-append s.woken (w ∷ []), h.busy (λ z. cc (z, e)));
}

Orderly-IsFair : {s t : Semaphore} → Orderly s t → IsFair s → IsFair t
unfolding release count
Orderly-IsFair (acquires s caller e) h = acquire-IsFair caller s e h
Orderly-IsFair (runs_on s) h = run_on-IsFair s.woken s refl h
Orderly-IsFair (releases s p) h = wake-IsFair s.waiting s refl p h

OrderlyReach-IsFair : {s t : Semaphore} → IsFair s → OrderlyReach s t → IsFair t
OrderlyReach-IsFair h here = h
OrderlyReach-IsFair h (next r st) = Orderly-IsFair st (OrderlyReach-IsFair h r)

-- From a new semaphore, if no caller enters between the wake-up of a waiter and the waiter's own
-- next step, the slots held and promised never pass the limit, and while somebody waits they are
-- as many as the limit.
pub orderly-IsFair : (limit : ℕ) {s : Semaphore} → OrderlyReach (create limit) s → IsFair s
unfolding create
orderly-IsFair limit r =
    OrderlyReach-IsFair (record { within = omega arith; busy = λ q. absurd (q refl) }) r

-- From a full semaphore with a waiter: if a slot is released and a new caller enters before the
-- woken waiter runs on, then one slot more than the limit is held once it has run on.
pub overshoot :
    (s : Semaphore) (first caller : ℕ) (rest : List ℕ)
    → 0 < s.limit
    → s.active ≡ s.limit
    → s.woken ≡ []
    → s.waiting ≡ first ∷ rest
    → let t = acquire caller (release s) in count (run_on t.woken t) ≡ s.limit + 1
unfolding acquire release wake run_on count
overshoot s first caller rest p a k w = ground arith

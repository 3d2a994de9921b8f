-- ===== src/ToolLoop/Windows.antt =====
-- What the ping-pong decisions of `judge` say of the last calls.
use uma_agent.Base.{
  ◌↔◌, ℕ, zero, suc, ◌-◌, ◌≤◌, ◌<◌, String, ◌≡◌, ◌≢◌, refl, ap, sym, ◌∙◌, drop, subst, true, false,
  List, [], ◌∷◌, some, arith, length, length-drop, last_n,
}
use uma_agent.ToolLoop.{
  ToolRecord, critical, ping_pong, in_turn, alternates, ping_pongs, stalls, repeat_count,
  signatures, judge,
}

-- `n` items, `a` and `b` in turn.
abbrev pub turns : ℕ → String → String → List String
turns zero a b = []
turns (suc n) a b = a ∷ turns n b a

in_turn_sound :
    (a b : String) (xs : List String) → in_turn a b xs ≡ true → xs ≡ turns (length xs) a b
unfolding in_turn
in_turn_sound a b [] h = refl
in_turn_sound a b (x ∷ xs) h = ground (arith, in_turn_sound b a xs)

in_turn-turns : (n : ℕ) (a b : String) → in_turn a b (turns n a b) ≡ true
unfolding in_turn
in_turn-turns zero a b = refl
in_turn-turns (suc n) a b = ground (arith, in_turn-turns n b a)

alternates_sound :
    (xs : List String)
    → alternates xs ≡ true
    → (a : String) × (b : String) × (a ≢ b) × (xs ≡ turns (length xs) a b)
unfolding alternates
alternates_sound [] h = cc
alternates_sound (a ∷ []) h = cc
alternates_sound (a ∷ b ∷ xs) h =
    (a, b, ground arith, in_turn_sound a b (a ∷ b ∷ xs) (ground arith))

alternates-turns : (n : ℕ) (a b : String) → a ≢ b → 2 ≤ n → alternates (turns n a b) ≡ true
unfolding alternates
alternates-turns zero a b d h = absurd (omega arith)
alternates-turns (suc zero) a b d h = absurd (omega arith)
alternates-turns (suc (suc n)) a b d h = ground (arith, in_turn-turns (suc (suc n)) a b)

ping_pongs_sound :
    (n : ℕ) (xs : List String)
    → ping_pongs n xs ≡ true
    → (a : String) × (b : String) × (a ≢ b) × (last_n n xs ≡ turns n a b)
unfolding ping_pongs
ping_pongs_sound n xs h =
    let (a, b, d, e) = alternates_sound (last_n n xs) (ground arith) in
    let l : n ≤ length xs = ground arith in
    let k : length (last_n n xs) ≡ n = omega (arith, length-drop (length xs - n) xs) in
    (a, b, d, subst (λ (m : ℕ). last_n n xs ≡ turns m a b) k e)

ping_pongs-turns :
    (n : ℕ) (xs : List String) (a b : String)
    → a ≢ b
    → 2 ≤ n
    → n ≤ length xs
    → last_n n xs ≡ turns n a b
    → ping_pongs n xs ≡ true
unfolding ping_pongs
ping_pongs-turns n xs a b d h l e = rw e (ground (arith, alternates-turns n a b))

judge-ping_pongs :
    (sig : String) (rs : List ToolRecord) (n : ℕ) (s : String)
    → judge sig rs
      ≡ some (record { level = critical; pattern_ = ping_pong; count = n; signature = s })
    → ping_pongs 10 (last_n 10 (signatures rs)) ≡ true
unfolding judge
judge-ping_pongs sig rs n s h = ground arith

last_n-last_n : (n : ℕ) (xs : List String) → last_n n (last_n n xs) ≡ last_n n xs
last_n-last_n n xs =
    let none_over : length (last_n n xs) - n ≡ 0 = omega (arith, length-drop (length xs - n) xs) in
    ap (λ (k : ℕ). drop k (last_n n xs)) none_over

-- A critical ping-pong decision says that the last ten signatures of the window are two distinct
-- ones in turn.
pub ping_pong_sound :
    (sig : String) (rs : List ToolRecord) (n : ℕ) (s : String)
    → judge sig rs
      ≡ some (record { level = critical; pattern_ = ping_pong; count = n; signature = s })
    → (a : String) × (b : String) × (a ≢ b) × (last_n 10 (signatures rs) ≡ turns 10 a b)
ping_pong_sound sig rs n s h =
    let (a, b, d, e) =
      ping_pongs_sound 10 (last_n 10 (signatures rs)) (judge-ping_pongs sig rs n s h) in
    (a, b, d, sym (last_n-last_n 10 (signatures rs)) ∙ e)

-- If the call has fewer than six repeats, its results do not stall and the last ten signatures are
-- two distinct ones in turn, the decision is the critical ping-pong.
pub ping_pong_complete :
    (sig : String) (rs : List ToolRecord) (a b : String)
    → repeat_count sig rs < 6
    → stalls sig rs ≡ false
    → a ≢ b
    → last_n 10 (signatures rs) ≡ turns 10 a b
    → judge sig rs
      ≡ some (record { level = critical; pattern_ = ping_pong; count = 5; signature = sig })
unfolding judge
ping_pong_complete sig rs a b few moving d e =
    let p : ping_pongs 10 (last_n 10 (signatures rs)) ≡ true =
      ping_pongs-turns 10 (last_n 10 (signatures rs)) a b d (omega arith)
        (omega (arith, ap length e)) (rw e refl) in
    ground (arith, p)

-- If the call has fewer than six repeats and its results do not stall, the decision is the critical
-- ping-pong if and only if the last ten signatures are two distinct ones in turn.
pub ping_pong_iff :
    (sig : String) (rs : List ToolRecord)
    → repeat_count sig rs < 6
    → stalls sig rs ≡ false
    → (judge sig rs
        ≡ some (record { level = critical; pattern_ = ping_pong; count = 5; signature = sig }))
      ↔ ((a : String) × (b : String) × (a ≢ b) × (last_n 10 (signatures rs) ≡ turns 10 a b))
ping_pong_iff sig rs few moving =
    (ping_pong_sound sig rs 5 sig, λ h. ping_pong_complete sig rs h.0 h.1 few moving h.2 h.3)

-- ===== src/Auth/Tokens.antt =====
-- The texts of personal tokens: apps/server/src/auth.ts.
use uma_agent.Base.{
  ℕ, suc, ◌≤◌, ◌≡◌, refl, sym, subst, ap, ap₂, ◌∙◌, ◌↔◌, zero, Bool, true, ◌&&◌, ◌||◌, ◌==◌, Option,
  none, some, List, [], ◌∷◌, ◌++◌, if◌then◌else◌, length, leb, take, drop, all, take-append-drop,
  Text, same_text, same_text_sound, arith,
}

-- "uma_pat_"
abbrev pub prefix : Text
prefix = 117 ∷ 109 ∷ 97 ∷ 95 ∷ 112 ∷ 97 ∷ 116 ∷ 95 ∷ []

abbrev is_digit : ℕ → Bool
is_digit c = leb 48 c && leb c 57

-- `[0-9a-f-]`
abbrev pub is_id_unit : ℕ → Bool
is_id_unit c = is_digit c || (leb 97 c && leb c 102) || (c == 45)

-- `[A-Za-z0-9_-]`
abbrev pub is_secret_unit : ℕ → Bool
is_secret_unit c =
    is_digit c || (leb 97 c && leb c 122) || (leb 65 c && leb c 90) || (c == 95) || (c == 45)

-- The expression behind the prefix: 36 units of an id, an underscore and the secret.
abbrev after_id : Text → Text → Option (Text × Text)
after_id id [] = none
after_id id (c ∷ secret) =
    if c == 95 && leb 32 (length secret) && all is_secret_unit secret
    then some (id, secret)
    else none

abbrev read_id : Text → Text → Option (Text × Text)
read_id id rest = if length id == 36 && all is_id_unit id then after_id id rest else none

abbrev after_prefix : Text → Option (Text × Text)
after_prefix rest = read_id (take 36 rest) (drop 36 rest)

abbrev read_prefix : Text → Text → Option (Text × Text)
read_prefix start rest = if same_text start prefix then after_prefix rest else none

unfoldable pub parse_personal_token : Text → Option (Text × Text)
parse_personal_token value = read_prefix (take 8 value) (drop 8 value)

-- The text of `issueToken`.
unfoldable pub token_text : Text → Text → Text
token_text id secret = prefix ++ (id ++ (95 ∷ secret))

pub record IsId (id : Text) : Type 0 where
  pub size : length id ≡ 36
  pub units : all is_id_unit id ≡ true

pub record IsSecret (secret : Text) : Type 0 where
  pub size : 32 ≤ length secret
  pub units : all is_secret_unit secret ≡ true

take_append : {A : Type 0} (xs ys : List A) (n : ℕ) → length xs ≡ n → take n (xs ++ ys) ≡ xs
take_append [] ys zero h = refl
take_append [] ys (suc n) h = ground arith
take_append (x ∷ xs) ys zero h = ground arith
take_append (x ∷ xs) ys (suc n) h = ap (◌∷◌ x) (take_append xs ys n (omega (arith, h)))

drop_append : {A : Type 0} (xs ys : List A) (n : ℕ) → length xs ≡ n → drop n (xs ++ ys) ≡ ys
drop_append [] ys zero h = refl
drop_append [] ys (suc n) h = ground arith
drop_append (x ∷ xs) ys zero h = ground arith
drop_append (x ∷ xs) ys (suc n) h = drop_append xs ys n (omega (arith, h))

read_id_lem :
    (id secret : Text) → IsId id → IsSecret secret → read_id id (95 ∷ secret) ≡ some (id, secret)
read_id_lem id secret hi hs = ground arith

after_prefix_lem :
    (id secret : Text)
    → IsId id
    → IsSecret secret
    → after_prefix (id ++ (95 ∷ secret)) ≡ some (id, secret)
after_prefix_lem id secret hi hs =
    ap₂ read_id (take_append id (95 ∷ secret) 36 hi.size) (drop_append id (95 ∷ secret) 36 hi.size)
    ∙ read_id_lem id secret hi hs

pub parse-token_text :
    (id secret : Text)
    → IsId id
    → IsSecret secret
    → parse_personal_token (token_text id secret) ≡ some (id, secret)
unfolding parse_personal_token token_text same_text
parse-token_text id secret hi hs = after_prefix_lem id secret hi hs

after_id_sound :
    (id rest : Text) (found secret : Text)
    → after_id id rest ≡ some (found, secret)
    → (found ≡ id) × (rest ≡ 95 ∷ secret) × IsSecret secret
after_id_sound id [] found secret h = ground arith
after_id_sound id (c ∷ rest) found secret h = ground arith

read_id_sound :
    (head rest id secret : Text)
    → read_id head rest ≡ some (id, secret)
    → (head ++ rest ≡ id ++ (95 ∷ secret)) × IsId id × IsSecret secret
read_id_sound head rest id secret h = ground (arith, after_id_sound head rest id secret)

after_prefix_sound :
    (rest id secret : Text)
    → after_prefix rest ≡ some (id, secret)
    → (rest ≡ id ++ (95 ∷ secret)) × IsId id × IsSecret secret
after_prefix_sound rest id secret h =
    let found = read_id_sound (take 36 rest) (drop 36 rest) id secret h in
    (sym (take-append-drop 36 rest) ∙ found.0, found.1, found.2)

pick_sound :
    (t : Bool) (o : Option (Text × Text)) (found : Text × Text)
    → (if t then o else none) ≡ some found
    → (t ≡ true) × (o ≡ some found)
pick_sound t o found h = ground arith

read_prefix_sound :
    (start rest id secret : Text)
    → read_prefix start rest ≡ some (id, secret)
    → (start ≡ prefix) × (after_prefix rest ≡ some (id, secret))
read_prefix_sound start rest id secret h =
    let found = pick_sound (same_text start prefix) (after_prefix rest) (id, secret) h in
    (same_text_sound start prefix found.0, found.1)

parse_sound :
    (value id secret : Text)
    → parse_personal_token value ≡ some (id, secret)
    → (value ≡ token_text id secret) × IsId id × IsSecret secret
unfolding parse_personal_token token_text
parse_sound value id secret h =
    let found = read_prefix_sound (take 8 value) (drop 8 value) id secret h in
    let inner = after_prefix_sound (drop 8 value) id secret found.1 in
    (sym (take-append-drop 8 value) ∙ ap₂ (◌++◌) found.0 inner.0, inner.1, inner.2)

-- Reading a token is the inverse of writing one: a text is read as an id and a secret if and only if
-- it is the text that is issued for them, the id has 36 digits, letters a to f or dashes, and the
-- secret has at least 32 letters, digits, underscores or dashes.
pub parse_iff :
    (value id secret : Text)
    → (parse_personal_token value ≡ some (id, secret))
      ↔ ((value ≡ token_text id secret) × IsId id × IsSecret secret)
parse_iff value id secret = (
  parse_sound value id secret,
  λ h.
      subst (λ t. parse_personal_token t ≡ some (id, secret)) (sym h.0)
        (parse-token_text id secret h.1 h.2),
)

-- ===== src/Snapshot/Prefix.antt =====
-- The text of a message that is streamed.
use uma_agent.Base.{
  ℕ, ◌-◌, ◌≤◌, ◌≡◌, refl, ap, ap₂, sym, subst, ◌∙◌, true, ◌&&◌, List, [], ◌∷◌, ◌++◌, leb,
  if◌then◌else◌, length, drop, arith, Bool-cases, inl, inr, append-nil, length-append, length-drop,
  max, ◌+◌,
}
use uma_agent.Snapshot.{Text, MessageDelta, TranscriptItem, is_streaming, stream_item, extended}

abbrev pub IsPrefix : Text → Text → Type 0
IsPrefix xs whole = (rest : Text) × (xs ++ rest ≡ whole)

-- The delta is a piece of the text, at its offset.
abbrev pub IsPiece : MessageDelta → Text → Type 0
IsPiece d whole =
    (before : Text) × (after : Text) × (length before ≡ d.offset)
    × (before ++ d.append ++ after ≡ whole)

abbrev pub AllPieces : List MessageDelta → Text → Type 0
AllPieces [] whole = Unit {0}
AllPieces (d ∷ ds) whole = IsPiece d whole × AllPieces ds whole

tail_eq : (a b : ℕ) (xs ys : Text) → a ∷ xs ≡ b ∷ ys → xs ≡ ys
tail_eq a b xs ys e = cc e

head_eq : (a b : ℕ) (xs ys : Text) → a ∷ xs ≡ b ∷ ys → a ≡ b
head_eq a b xs ys e = cc e

-- A text and a piece, both from the start of the whole.
overlap :
    (xs piece whole rest after : Text)
    → xs ++ rest ≡ whole
    → piece ++ after ≡ whole
    → IsPrefix (xs ++ drop (length xs) piece) whole
overlap [] piece whole rest after e f = (after, f)
overlap (x ∷ xs) [] whole rest after e f = (rest, ap (λ l. l ++ rest) (append-nil (x ∷ xs)) ∙ e)
overlap (x ∷ xs) (p ∷ piece) whole rest after e f =
    let same_tail = tail_eq p x (piece ++ after) (xs ++ rest) (f ∙ sym e) in
    let ih = overlap xs piece (xs ++ rest) rest after refl same_tail in (ih.0, ap (◌∷◌ x) ih.1 ∙ e)

meets :
    (before xs piece whole rest after : Text)
    → length before ≤ length xs
    → xs ++ rest ≡ whole
    → before ++ piece ++ after ≡ whole
    → IsPrefix (xs ++ drop (length xs - length before) piece) whole
meets [] xs piece whole rest after h e f =
    let all : length xs ≡ length xs - 0 = omega arith in
    subst (λ n. IsPrefix (xs ++ drop n piece) whole) all (overlap xs piece whole rest after e f)
meets (b ∷ before) [] piece whole rest after h e f = absurd (omega arith)
meets (b ∷ before) (x ∷ xs) piece whole rest after h e f =
    let same_tail = tail_eq b x (before ++ piece ++ after) (xs ++ rest) (f ∙ sym e) in
    let ih = meets before xs piece (xs ++ rest) rest after (omega arith) refl same_tail in
    let one_less : length xs - length before ≡ length (x ∷ xs) - length (b ∷ before) =
      omega arith in
    subst (λ n. IsPrefix (x ∷ (xs ++ drop n piece)) whole) one_less (ih.0, ap (◌∷◌ x) ih.1 ∙ e)

extended-IsPrefix :
    (item : TranscriptItem) (suffix : Text) (at : ℕ) (whole : Text)
    → IsPrefix (item.content ++ suffix) whole
    → IsPrefix (extended item suffix at).content whole
extended-IsPrefix item [] at whole p =
    (p.0, ap (λ l. l ++ p.0) (sym (append-nil item.content)) ∙ p.1)
extended-IsPrefix item (c ∷ suffix) at whole p = p

stream_item-IsPrefix :
    (d : MessageDelta) (item : TranscriptItem) (whole : Text)
    → IsPiece d whole
    → IsPrefix item.content whole
    → IsPrefix (stream_item d item).content whole
unfolding stream_item
stream_item-IsPrefix d item whole (before, after, off, f) (rest, e) =
    let suffix = drop (length item.content - d.offset) d.append in
    elim (Bool-cases (is_streaming item.status && leb d.offset (length item.content))) [
      | inl fits ↦ rw fits (
          extended-IsPrefix item suffix d.updated_at whole (
            subst (λ n. IsPrefix (item.content ++ drop (length item.content - n) d.append) whole)
              off (meets before item.content d.append whole rest after (ground (arith, off)) e f)))
      | inr skips ↦ rw skips (rest, e)
    ]

extended-length :
    (item : TranscriptItem) (suffix : Text) (at : ℕ)
    → length (extended item suffix at).content ≡ length item.content + length suffix
extended-length item [] at = omega arith
extended-length item (c ∷ suffix) at = length-append item.content (c ∷ suffix)

stream_item-status :
    (d : MessageDelta) (item : TranscriptItem) → (stream_item d item).status ≡ item.status
unfolding stream_item
stream_item-status d item =
    elim (Bool-cases (is_streaming item.status && leb d.offset (length item.content))) [
      | inl fits ↦
          rw fits
            (extended-status item (drop (length item.content - d.offset) d.append) d.updated_at)
      | inr skips ↦ rw skips refl
    ]
  where
    extended-status :
        (item : TranscriptItem) (suffix : Text) (at : ℕ)
        → (extended item suffix at).status ≡ item.status
    extended-status item [] at = refl
    extended-status item (c ∷ suffix) at = refl

-- A delta that reaches a streaming message without a gap takes its text to the delta's end, and one
-- with a gap, or for a message that is over, changes nothing of its length.
pub stream_item-length :
    (d : MessageDelta) (item : TranscriptItem)
    → length (stream_item d item).content ≡ (
        if is_streaming item.status && leb d.offset (length item.content)
        then max (length item.content) (d.offset + length d.append)
        else length item.content)
unfolding stream_item
stream_item-length d item =
    let suffix = drop (length item.content - d.offset) d.append in
    elim (Bool-cases (is_streaming item.status && leb d.offset (length item.content))) [
      | inl fits ↦ rw fits (
          ground (
            arith,
            fits,
            extended-length item suffix d.updated_at,
            length-drop (length item.content - d.offset) d.append,
          ))
      | inr skips ↦ rw skips refl
    ]

unfoldable pub stream_all : List MessageDelta → TranscriptItem → TranscriptItem
stream_all [] item = item
stream_all (d ∷ ds) item = stream_all ds (stream_item d item)

-- If the deltas are pieces of one text, in any order, with repetitions and with gaps, and the message
-- holds a prefix of the text, then it holds a prefix of the text after them, and one at least as
-- long as before.
pub stream_all-IsPrefix :
    (ds : List MessageDelta) (item : TranscriptItem) (whole : Text)
    → AllPieces ds whole
    → IsPrefix item.content whole
    → IsPrefix (stream_all ds item).content whole
      × (length item.content ≤ length (stream_all ds item).content)
unfolding stream_all
stream_all-IsPrefix [] item whole ps p = (p, omega arith)
stream_all-IsPrefix (d ∷ ds) item whole ps p =
    let one = stream_item-IsPrefix d item whole ps.0 p in
    let ih = stream_all-IsPrefix ds (stream_item d item) whole ps.1 one in
    (ih.0, ground (arith, ih.1, stream_item-length d item))

-- The deltas follow one another from `n` to the end of the text.
abbrev pub Chained : ℕ → List MessageDelta → Text → Type 0
Chained n [] whole = length whole ≤ n
Chained n (d ∷ ds) whole = (d.offset ≤ n) × Chained (max n (d.offset + length d.append)) ds whole

prefix-full : (xs whole : Text) → IsPrefix xs whole → length whole ≤ length xs → xs ≡ whole
prefix-full [] [] p h = refl
prefix-full [] (w ∷ whole) p h = absurd (omega arith)
prefix-full (x ∷ xs) [] (rest, e) h = cc e
prefix-full (x ∷ xs) (w ∷ whole) (rest, e) h =
    ap₂ ◌∷◌ (head_eq x w (xs ++ rest) whole e)
      (prefix-full xs whole (rest, tail_eq x w (xs ++ rest) whole e) (omega arith))

-- If the deltas are pieces of one text, a streaming message holds a prefix of the text, and the
-- deltas leave no gap from there to the text's end, then the message holds the whole text after them,
-- also where pieces overlap or come twice.
pub stream_all_complete :
    (ds : List MessageDelta) (item : TranscriptItem) (whole : Text)
    → AllPieces ds whole
    → IsPrefix item.content whole
    → is_streaming item.status ≡ true
    → Chained (length item.content) ds whole
    → (stream_all ds item).content ≡ whole
unfolding stream_all
stream_all_complete [] item whole ps p live c = prefix-full item.content whole p c
stream_all_complete (d ∷ ds) item whole ps p live c =
    let longer : length (stream_item d item).content
        ≡ max (length item.content) (d.offset + length d.append) =
      ground (arith, stream_item-length d item, live, c.0) in
    stream_all_complete ds (stream_item d item) whole ps.1
      (stream_item-IsPrefix d item whole ps.0 p)
      (ap is_streaming (stream_item-status d item) ∙ live)
      (subst (λ n. Chained n ds whole) (sym longer) c.1)

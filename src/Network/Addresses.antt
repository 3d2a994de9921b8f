-- ===== src/Network/Addresses.antt =====
-- `isPrivateAddress` of apps/browser-worker/src/network.ts on the texts of addresses.
use uma_agent.Base.{
  ℕ, ◌<◌, ◌≡◌, refl, ap, ap₂, ◌∙◌, Bool, true, false, ◌&&◌, ◌||◌, ◌==◌, [], ◌∷◌, ◌++◌,
  if◌then◌else◌, all, map, drop, Text, split, same_text, arith,
}
use uma_agent.Network.{
  lower, is_digit, number, mapped_start, starts, is_dotted, is_local_six, of_parts,
  is_private_plain, is_private_lower, is_private_address,
}
use uma_agent.Network.Ranges.{value, is_reserved, is_private_four-is_reserved}

abbrev pub is_plain : ℕ → Bool
is_plain c = is_digit c || c == 46

-- The text is that of the address `a.b.c.d`.
pub record IsFour (t : Text) (a b c d : ℕ) : Type 0 where
  pub plain : all is_plain t ≡ true
  pub dotted : is_dotted t ≡ true
  pub parts : map (number 0) (split 46 t) ≡ a ∷ b ∷ c ∷ d ∷ []
  pub first_below : a < 256
  pub second_below : b < 256
  pub third_below : c < 256
  pub fourth_below : d < 256

lower_plain : (t : Text) → all is_plain t ≡ true → map lower t ≡ t
lower_plain [] h = refl
lower_plain (x ∷ t) h = ap₂ (◌∷◌) (ground arith) (lower_plain t (ground arith))

not_six : (t : Text) → all is_plain t ≡ true → is_local_six t ≡ false
unfolding is_local_six same_text
not_six [] h = refl
not_six (x ∷ t) h = ground arith

not_mapped : (t : Text) → all is_plain t ≡ true → starts mapped_start t ≡ false
not_mapped [] h = refl
not_mapped (x ∷ t) h = ground arith

module _ (is_ip : Text → ℕ) where
  plain_lem :
      (t : Text) (a b c d : ℕ)
      → IsFour t a b c d
      → is_ip t ≡ 4
      → is_private_plain is_ip t ≡ is_reserved (value a b c d)
  unfolding is_private_plain
  plain_lem t a b c d h e =
      ap₂ (λ x y. x || (y && of_parts (map (number 0) (split 46 t)))) (not_six t h.plain)
        (ap (λ n. n == 4) e)
      ∙ ap of_parts h.parts
      ∙ is_private_four-is_reserved a b c d h.first_below h.second_below h.third_below
          h.fourth_below

  lower_lem :
      (t : Text) (a b c d : ℕ)
      → IsFour t a b c d
      → is_ip t ≡ 4
      → is_private_lower is_ip t ≡ is_reserved (value a b c d)
  unfolding is_private_lower
  lower_lem t a b c d h e =
      ap
        (λ s.
          if s && is_dotted (drop 7 t)
          then is_private_plain is_ip (drop 7 t)
          else is_private_plain is_ip t)
        (not_mapped t h.plain)
      ∙ plain_lem t a b c d h e

  mapped_lem :
      (t : Text) (a b c d : ℕ)
      → IsFour t a b c d
      → is_ip t ≡ 4
      → is_private_lower is_ip (mapped_start ++ t) ≡ is_reserved (value a b c d)
  unfolding is_private_lower
  mapped_lem t a b c d h e =
      ap (λ s. if s then is_private_plain is_ip t else is_private_plain is_ip (mapped_start ++ t))
        h.dotted
      ∙ plain_lem t a b c d h e

  -- The text of an address of version 4, also when it is mapped to version 6 behind `::ffff:`, is
  -- private if and only if the 32-bit number of the address lies in one of the blocks of reserved
  -- addresses, where `isIP` knows the text as version 4.
  pub private_iff_reserved :
      (t : Text) (a b c d : ℕ)
      → IsFour t a b c d
      → is_ip t ≡ 4
      → (is_private_address is_ip t ≡ is_reserved (value a b c d))
        × (is_private_address is_ip (mapped_start ++ t) ≡ is_reserved (value a b c d))
  unfolding is_private_address
  private_iff_reserved t a b c d h e = (
    ap (is_private_lower is_ip) (lower_plain t h.plain) ∙ lower_lem t a b c d h e,
    ap (λ s. is_private_lower is_ip (mapped_start ++ s)) (lower_plain t h.plain)
        ∙ mapped_lem t a b c d h e,
  )

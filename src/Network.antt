-- ===== src/Network.antt =====
-- The addresses that a browser may not reach: `isPrivateAddress`, `assertPublicUrl` and
-- `resolvePublicAddress` of apps/browser-worker/src/network.ts. A text is its code units; of
-- `toLowerCase` the ASCII letters are modelled, the only ones that the tests ask for. `is_ip` of
-- node:net and the lookup of names are parameters.
pub mod Addresses
pub mod Ranges
pub mod Tests
use uma_agent.Base.{
  ℕ, ◌+◌, ◌-◌, ◌*◌, ◌≤◌, Bool, true, false, not, ◌&&◌, ◌||◌, ◌==◌, Option, none, some, List, [],
  ◌∷◌, if◌then◌else◌, leb, ltb, any, all, map, length, drop, take, Text, same_text, split, Result,
  ok, err,
}

abbrev pub lower : ℕ → ℕ
lower c = if leb 65 c && leb c 90 then c + 32 else c

-- `value.startsWith(start)`.
abbrev pub starts : Text → Text → Bool
starts [] value = true
starts (c ∷ start) [] = false
starts (c ∷ start) (d ∷ value) = d == c && starts start value

abbrev pub is_digit : ℕ → Bool
is_digit c = leb 48 c && leb c 57

-- The decimal number of a text of digits.
abbrev pub number : ℕ → Text → ℕ
number n [] = n
number n (c ∷ t) = number (10 * n + (c - 48)) t

-- "::ffff:"
abbrev pub mapped_start : Text
mapped_start = 58 ∷ 58 ∷ 102 ∷ 102 ∷ 102 ∷ 102 ∷ 58 ∷ []

abbrev pub is_filled_digits : Text → Bool
is_filled_digits [] = false
is_filled_digits (c ∷ t) = all is_digit (c ∷ t)

-- `\d+\.\d+\.\d+\.\d+`
unfoldable pub is_dotted : Text → Bool
unfolding split
is_dotted t = length (split 46 t) == 4 && all is_filled_digits (split 46 t)

-- The tests on the text of an address of version 6: "::", "::1", "fc", "fd", "fe8" to "feb" and "ff".
unfoldable pub is_local_six : Text → Bool
unfolding same_text
is_local_six t =
    same_text t (58 ∷ 58 ∷ [])
    || same_text t (58 ∷ 58 ∷ 49 ∷ [])
    || starts (102 ∷ 99 ∷ []) t
    || starts (102 ∷ 100 ∷ []) t
    || starts (102 ∷ 101 ∷ 56 ∷ []) t
    || starts (102 ∷ 101 ∷ 57 ∷ []) t
    || starts (102 ∷ 101 ∷ 97 ∷ []) t
    || starts (102 ∷ 101 ∷ 98 ∷ []) t
    || starts (102 ∷ 102 ∷ []) t

-- The tests on the first three numbers of an address of version 4.
unfoldable pub is_private_four : ℕ → ℕ → ℕ → Bool
is_private_four a b c =
    a == 0
    || (a == 10)
    || (a == 127)
    || (a == 100 && leb 64 b && leb b 127)
    || (a == 169 && b == 254)
    || (a == 172 && leb 16 b && leb b 31)
    || (a == 192 && b == 168)
    || (a == 198 && (b == 18 || b == 19))
    || (a == 192 && b == 0 && (c == 0 || c == 2))
    || (a == 198 && b == 51 && c == 100)
    || (a == 203 && b == 0 && c == 113)
    || leb 224 a

-- `const [a = 0, b = 0, c = 0]`
unfoldable pub of_parts : List ℕ → Bool
unfolding is_private_four
of_parts [] = is_private_four 0 0 0
of_parts (a ∷ []) = is_private_four a 0 0
of_parts (a ∷ b ∷ []) = is_private_four a b 0
of_parts (a ∷ b ∷ c ∷ rest) = is_private_four a b c

module _ (is_ip : Text → ℕ) where
  -- `isPrivateAddress` of a text that is in lower case and not a mapped address.
  unfoldable pub is_private_plain : Text → Bool
  unfolding is_local_six of_parts split
  is_private_plain t = is_local_six t || (is_ip t == 4 && of_parts (map (number 0) (split 46 t)))

  unfoldable pub is_private_lower : Text → Bool
  unfolding is_private_plain is_dotted
  is_private_lower t =
      if starts mapped_start t && is_dotted (drop 7 t)
      then is_private_plain (drop 7 t)
      else is_private_plain t

  unfoldable pub is_private_address : Text → Bool
  unfolding is_private_lower
  is_private_address address = is_private_lower (map lower address)

  abbrev pub first : List Text → Text
  first [] = []
  first (a ∷ rest) = a

  abbrev pub none_found : List Text → Bool
  none_found [] = true
  none_found (a ∷ rest) = false

  -- `resolvePublicAddress` on what the lookup of the name returned.
  unfoldable pub resolve_public_address : List Text → Result Text
  unfolding is_private_address
  resolve_public_address addresses =
      if none_found addresses || any is_private_address addresses
      then err "Private or unresolved browser targets are blocked"
      else ok (first addresses)

  -- `assertPublicUrl` of a URL with the protocol, on what the lookup of its host returned.
  unfoldable pub assert_public_url : Text → List Text → Result Text
  unfolding is_private_address same_text
  assert_public_url protocol addresses =
      if not (same_text protocol (104 ∷ 116 ∷ 116 ∷ 112 ∷ 58 ∷ []))
        && not (same_text protocol (104 ∷ 116 ∷ 116 ∷ 112 ∷ 115 ∷ 58 ∷ []))
      then err "Browser navigation only supports HTTP(S)"
      else if none_found addresses || any is_private_address addresses
      then err "Private or unresolved browser targets are blocked"
      else ok protocol

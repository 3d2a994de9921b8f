-- ===== src/ErrorMapping/Tests.antt =====
-- Errors at concrete inputs.
use uma_agent.Base.{◌≡◌, refl, true, [], ◌∷◌, if◌then◌else◌, Text}
use uma_agent.ErrorMapping.{
  matches, mentions, includes, starts_with, mapped, map_server_error, forbidden, code_of, status_of,
}
use uma_agent.ErrorMapping.Status.{code_status, is_mixed, refused_code, status_lem}

-- "Forbidden: cancel"
abbrev refused_cancel : Text
refused_cancel =
    70 ∷ 111 ∷ 114 ∷ 98 ∷ 105 ∷ 100 ∷ 100 ∷ 101 ∷ 110 ∷ 58 ∷ 32 ∷ 99 ∷ 97 ∷ 110 ∷ 99 ∷ 101 ∷ 108
    ∷ []

status_lem_example :
    ((map_server_error refused_cancel "refused").status ≡ (
      if is_mixed (matches refused_cancel)
      then 409
      else code_status (map_server_error refused_cancel "refused").code))
    × ((map_server_error refused_cancel "refused").code ≡ (
        if is_mixed (matches refused_cancel)
        then refused_code (matches refused_cancel)
        else (map_server_error refused_cancel "refused").code))
status_lem_example = status_lem refused_cancel "refused"

-- The text is mixed: the code says forbidden, the status conflict.
refused_mixed : is_mixed (matches refused_cancel) ≡ true
unfolding matches mentions includes starts_with
refused_mixed = refl

refused_error :
    ((map_server_error refused_cancel "refused").code ≡ forbidden)
    × ((map_server_error refused_cancel "refused").status ≡ 409)
unfolding map_server_error mapped code_of status_of matches mentions includes starts_with
refused_error = (refl, refl)

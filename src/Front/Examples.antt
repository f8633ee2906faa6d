-- ===== src/Front/Examples.antt =====
-- Runs of the guards of the front end.
use fullstack_starter.Prelude.{refl, false, String, ◌≡◌, true, Option, some, List, [], ◌∷◌}
use fullstack_starter.Async.{Result, ok}
use fullstack_starter.Dto.{Permission, read_some_entity}
use fullstack_starter.Gateway.SafeReturn.{
  has_control_chars, starts_with_slash, starts_protocol_relative, safe_return_to,
}
use fullstack_starter.Front.SafeRedirect.{
  has_backslash, is_same_origin_path, sanitize_redirect, sanitize_redirect-safe,
}

abbrev reader : String → Result (Option (List Permission))
reader token = ok (some (read_some_entity ∷ []))

redirect_example :
    (starts_with_slash "/users" ≡ true)
    × (starts_protocol_relative "/users" ≡ false)
    × (has_control_chars "/users" ≡ false → safe_return_to (some "/users") ≡ "/users")
unfolding sanitize_redirect is_same_origin_path has_backslash starts_with_slash
redirect_example = sanitize_redirect-safe "/users" refl refl

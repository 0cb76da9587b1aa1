-- ===== src/Factory/Laws.antt =====
-- What a registration changes for the commands that are looked up after it.
use Prim.Native.String.{String}
use text.Mathlib.Text.{◌==◌}
use msg_courier.Prelude.{◌≡◌, refl, List, Option, none, some, if◌then◌else◌}
use msg_courier.Factory.{put, command_name, lookup, get_command_handler, register_command_handler}

module _ {ℓ} {Handler : Type ℓ} where
  -- What a lookup finds after a registration.
  pub found : Option Handler → String → Handler → List (String × Handler) → String → Option Handler
  found (some old) command h map other = get_command_handler other map
  found none command h map other =
      if command == command_name other then some h else get_command_handler other map

  lookup-put :
      (o : Option Handler) (command other : String) (h : Handler) (map : List (String × Handler))
      → lookup (command_name other) (put o command h map) ≡ found o command h map other
  unfolding put lookup found get_command_handler
  lookup-put none command other h map = refl
  lookup-put (some old) command other h map = refl

  -- A text for which a handler is found is not registered again. Any other is found by all the
  -- commands that begin with it and a dot, and by itself if it has no dot; all other commands are
  -- answered as before.
  pub get-register :
      (command other : String) (h : Handler) (map : List (String × Handler))
      → get_command_handler other (register_command_handler command h map)
        ≡ found (get_command_handler command map) command h map other
  unfolding get_command_handler register_command_handler
  get-register command other h map =
      lookup-put (get_command_handler command map) command other h map

-- ===== src/Factory.antt =====
-- commandhandlerfactory.h and commandhandlerfactory.cpp: cCommandHandlerFactory, the map from the
-- names of commands to their handlers. A command such as MC.ERROR is looked up by what stands before
-- its first dot. `Handler` is the type of the handlers, whatever they are; the log is not modelled.
pub mod Laws
use Prim.Native.String.{String, find, slice, len}
use text.Mathlib.Text.{◌==◌}
use msg_courier.Prelude.{
  ℕ, Bool, true, false, List, [], ◌∷◌, Option, none, some, leb, if◌then◌else◌,
}

-- sName.substr(0, idx); find answers with more than the length where there is no dot.
unfoldable pub command_name : String → String
command_name s = if leb (find s ".") (len s) then slice s 0 (find s ".") else s

module _ {ℓ} {Handler : Type ℓ} where
  -- m_CommandMap.find
  unfoldable pub lookup : String → List (String × Handler) → Option Handler
  lookup name [] = none
  lookup name ((key, h) ∷ map) = if key == name then some h else lookup name map

  unfoldable pub get_command_handler : String → List (String × Handler) → Option Handler
  get_command_handler command map = lookup (command_name command) map

  put : Option Handler → String → Handler → List (String × Handler) → List (String × Handler)
  put (some old) command h map = map
  put none command h map = (command, h) ∷ map

  -- The handler goes in under the whole text, unless one is found for it.
  pub register_command_handler :
      String → Handler → List (String × Handler) → List (String × Handler)
  unfolding put
  register_command_handler command h map = put (get_command_handler command map) command h map

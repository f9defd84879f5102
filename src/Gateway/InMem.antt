-- ===== src/Gateway/InMem.antt =====
-- gateway/internal/persistence/inmem.go: the routes by their names.
use beamlit_controller.Base.{
  Option, none, some, Text, Text_Eq, Dict, lookup, insert, delete, Act, failure, pure, raise, gets,
  modify, ◌>>=◌, ◌>>◌,
}
use beamlit_controller.Gateway.Types.{Route}

-- A route that was loaded, or ErrRouteNotFound.
abbrev pub found : {S : Type 0} → Option Route → Act S Route
found none = raise (failure "route not found")
found (some route) = pure route

unfoldable pub register_route : Route → Act (Dict Text Route) Route
register_route route = do modify (insert route.name route); pure route

unfoldable pub get_route : Text → Act (Dict Text Route) Route
get_route name = do route ← gets (lookup name); found route

unfoldable pub update_route : Route → Act (Dict Text Route) Route
update_route route = do modify (insert route.name route); pure route

unfoldable pub delete_route : Text → Act (Dict Text Route) Route
delete_route name = do
  loaded ← gets (lookup name)
  route ← found loaded
  modify (delete name)
  pure route

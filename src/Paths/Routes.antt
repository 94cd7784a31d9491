-- ===== src/Paths/Routes.antt =====
-- src/internal_routes.rs: the internal route of a path.
use konnector.Prelude.{ℕ, Option, List, Text, position}
use konnector.Configs.Types.{InternalRouteConfig}
use konnector.Paths.Prefix.{opens}

unfoldable pub find_route : Text → List InternalRouteConfig → Option ℕ
unfolding opens
find_route path routes = position (λ r. opens path r.prefix) routes

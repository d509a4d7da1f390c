-- ===== src/Connection/Codes.antt =====
-- The byte in which core/src/receive.rs shares the route.
use dropwire.Prelude.{◌≡◌, refl}
use dropwire.Progress.{Route, direct, relayed, unknown}
use dropwire.Connection.{route_u8, u8_route}

-- The byte gives the route back.
pub u8_route-route_u8 : (r : Route) → u8_route (route_u8 r) ≡ r
unfolding u8_route route_u8
u8_route-route_u8 direct = refl
u8_route-route_u8 relayed = refl
u8_route-route_u8 unknown = refl

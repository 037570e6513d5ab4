-- ===== src/Routing/Router/Hosts.antt =====
-- Router.cpp: where the requests for a variable go once its host is set.
use pdesmas_cloud.Base.{◌==◌, if◌then◌else◌, ◌≡◌, ◌≢◌, refl, arith}
use pdesmas_cloud.Base.NatMap.{find-assign}
use pdesmas_cloud.State.SsvId.{SsvId}
use pdesmas_cloud.Types.Direction.{Direction, here, up, left, right, direction_size}
use pdesmas_cloud.Routing.RouteTable.{
  get_direction_from_ssv_id, get_rank_from_direction, set_ssv_id_host,
}
use pdesmas_cloud.Routing.Router.{Router, next_towards, next_to_ssv, set_ssv_id_direction}

pub next_to_ssv-set_ssv_id_direction :
    (ssv other : SsvId) (d : Direction) (r : Router)
    → d ≢ direction_size
    → next_to_ssv other (set_ssv_id_direction ssv d r)
      ≡ (if ssv == other then next_towards d r else next_to_ssv other r)
unfolding next_to_ssv set_ssv_id_direction get_direction_from_ssv_id set_ssv_id_host next_towards
    get_rank_from_direction
next_to_ssv-set_ssv_id_direction ssv other here r known =
    ground (arith, find-assign ssv other here r.route_table.ssv_id_to_direction_map)
next_to_ssv-set_ssv_id_direction ssv other up r known =
    ground (arith, find-assign ssv other up r.route_table.ssv_id_to_direction_map)
next_to_ssv-set_ssv_id_direction ssv other left r known =
    ground (arith, find-assign ssv other left r.route_table.ssv_id_to_direction_map)
next_to_ssv-set_ssv_id_direction ssv other right r known =
    ground (arith, find-assign ssv other right r.route_table.ssv_id_to_direction_map)
next_to_ssv-set_ssv_id_direction ssv other direction_size r known = absurd (known refl)

-- ===== src/Routing/Router/Tests.antt =====
-- Router.cpp at the CLP of rank 1 in a tree of seven: a read for a variable further down is passed
-- to the child on its side, and one for a variable of its own stays.
use pdesmas_cloud.Base.{ℕ, ◌≡◌, refl, some, [], ◌∷◌, true, false}
use pdesmas_cloud.Base.NatMap.{find}
use pdesmas_cloud.Messages.SharedStateMessage.{SingleReadMessage}
use pdesmas_cloud.Routing.RouteTable.{get_direction_from_ssv_id, get_rank_from_direction}
use pdesmas_cloud.Routing.Router.{Router, next_towards, next_to_ssv, route_single_read}
use pdesmas_cloud.Types.Direction.{here, up, left, right, white, port}

abbrev router : Router
router = record {
  lp_rank = 1;
  route_table = record {
    rank_to_direction_map = (0, up) ∷ (3, left) ∷ (4, right) ∷ [];
    direction_to_rank_map = (1, 0) ∷ (2, 3) ∷ (3, 4) ∷ [];
    ssv_id_to_direction_map = (10, here) ∷ (20, right) ∷ [];
  };
}

abbrev a_read : ℕ → ℕ → SingleReadMessage
a_read ssv destination = record {
  base = record {
    simulation = record {
      origin = 7;
      destination = destination;
      timestamp = 5;
      mattern_colour = white;
    };
    number_of_hops = 2;
    identifier = 8;
    original_agent = record { identifier = 70; rank = 7 };
  };
  ssv_id = ssv;
}

passed_down : route_single_read (a_read 20 1) router ≡ some (false, a_read 20 4)
unfolding route_single_read next_to_ssv next_towards get_direction_from_ssv_id
    get_rank_from_direction find port
passed_down = refl

kept : route_single_read (a_read 10 1) router ≡ some (true, a_read 10 1)
unfolding route_single_read next_to_ssv next_towards get_direction_from_ssv_id find
kept = refl

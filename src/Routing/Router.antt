-- ===== src/Routing/Router.antt =====
-- routing/Router.{h,cpp}: whether a message is for this CLP, and the neighbour that it goes to if it
-- is not. A `Route` returns its verdict and the message with the destination that it sets; `none` is
-- `exit(1)`.
pub mod Hosts
mod Tests
use pdesmas_cloud.Base.{ℕ, Option, none, some, Bool, true, false, ◌==◌, if◌then◌else◌, ◌>>=◌}
use pdesmas_cloud.Base.NatMap.{NatMap, find}
use pdesmas_cloud.Messages.SharedStateMessage.{SimulationMessage, SingleReadMessage, WriteMessage}
use pdesmas_cloud.Messages.LpMessage.{
  RollbackMessage, SingleReadResponseMessage, WriteResponseMessage, SingleReadAntiMessage,
  WriteAntiMessage, StateMigrationMessage,
}
use pdesmas_cloud.State.SsvId.{SsvId}
use pdesmas_cloud.Types.Direction.{Direction, here, up, left, right, direction_size}
use pdesmas_cloud.Routing.RouteTable.{
  RouteTable, get_direction_from_ssv_id, get_direction_from_rank, get_rank_from_direction,
  set_ssv_id_host,
}

pub record Router : Type 0 where
  pub lp_rank : ℕ
  pub route_table : RouteTable

abbrev pub to : ℕ → SimulationMessage → SimulationMessage
to destination m = record m { destination = destination }

-- The rank of the neighbour that a direction leads to; `none` inside is `HERE`.
unfoldable pub next_towards : Direction → Router → Option (Option ℕ)
next_towards here r = some none
next_towards d r = elim (get_rank_from_direction d r.route_table) [
  | none ↦ none
  | some rank ↦ some (some rank)
]

unfoldable pub next_to_rank : ℕ → Router → Option (Option ℕ)
next_to_rank rank r = do d ← get_direction_from_rank rank r.route_table; next_towards d r

-- A variable that is not known has the direction `DIRECTION_SIZE`, and the message is fatal.
unfoldable pub next_to_ssv : SsvId → Router → Option (Option ℕ)
next_to_ssv ssv r = elim (get_direction_from_ssv_id ssv r.route_table) [
  | direction_size ↦ none
  | here ↦ next_towards here r
  | up ↦ next_towards up r
  | left ↦ next_towards left r
  | right ↦ next_towards right r
]

-- The verdict and the message, given how the message takes a destination.
abbrev pub verdict {ℓ} : {M : Type ℓ} → (ℕ → M → M) → M → Option ℕ → Bool × M
verdict set m none = (true, m)
verdict set m (some rank) = (false, set rank m)

unfoldable pub route_rollback : RollbackMessage → Router → Option (Bool × RollbackMessage)
route_rollback m r = do
  next ← next_to_rank m.original_agent.rank r
  some (verdict (λ n m. record m { simulation = to n m.simulation }) m next)

unfoldable pub route_single_read : SingleReadMessage → Router → Option (Bool × SingleReadMessage)
route_single_read m r = do
  next ← next_to_ssv m.ssv_id r
  some (
      verdict (λ n m. record m { base = record m.base { simulation = to n m.base.simulation } }) m
        next)

unfoldable pub route_write : WriteMessage → Router → Option (Bool × WriteMessage)
route_write m r = do
  next ← next_to_ssv m.ssv_id r
  some (
      verdict (λ n m. record m { base = record m.base { simulation = to n m.base.simulation } }) m
        next)

unfoldable pub route_single_read_anti :
    SingleReadAntiMessage → Router → Option (Bool × SingleReadAntiMessage)
route_single_read_anti m r = do
  next ← next_to_ssv m.ssv_id r
  some (
      verdict (λ n m. record m { base = record m.base { simulation = to n m.base.simulation } }) m
        next)

unfoldable pub route_write_anti : WriteAntiMessage → Router → Option (Bool × WriteAntiMessage)
route_write_anti m r = do
  next ← next_to_ssv m.ssv_id r
  some (
      verdict (λ n m. record m { base = record m.base { simulation = to n m.base.simulation } }) m
        next)

unfoldable pub route_single_read_response :
    SingleReadResponseMessage → Router → Option (Bool × SingleReadResponseMessage)
route_single_read_response m r = do
  next ← next_to_rank m.base.original_agent.rank r
  some (
      verdict (λ n m. record m { base = record m.base { simulation = to n m.base.simulation } }) m
        next)

unfoldable pub route_write_response :
    WriteResponseMessage → Router → Option (Bool × WriteResponseMessage)
route_write_response m r = do
  next ← next_to_rank m.base.original_agent.rank r
  some (
      verdict (λ n m. record m { base = record m.base { simulation = to n m.base.simulation } }) m
        next)

unfoldable pub route_state_migration : StateMigrationMessage → Router → Bool
route_state_migration m r = m.destination == r.lp_rank

unfoldable pub get_lp_rank_by_direction : Direction → Router → Option ℕ
get_lp_rank_by_direction d r = get_rank_from_direction d r.route_table

unfoldable pub get_direction_by_lp_rank : ℕ → Router → Option Direction
get_direction_by_lp_rank rank r = get_direction_from_rank rank r.route_table

unfoldable pub set_ssv_id_direction : SsvId → Direction → Router → Router
set_ssv_id_direction ssv d r = record r { route_table = set_ssv_id_host ssv d r.route_table }

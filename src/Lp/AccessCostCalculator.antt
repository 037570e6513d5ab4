-- ===== src/Lp/AccessCostCalculator.antt =====
-- lp/AccessCostCalculator.{h,cpp}: how often and from how far the variables of a CLP are used
-- through each of its ports, and which of them should move where. The two thresholds and the leaf
-- test that the constructor finds with floating-point logarithms are arguments of it here.
pub mod Migration
mod Tests
use pdesmas_cloud.Base.{
  ℕ, ◌+◌, ◌-◌, ◌*◌, ◌%◌, ◌^◌, List, [], ◌∷◌, ◌++◌, Option, none, some, Bool, true, false, ltb, leb,
  ◌==◌, ◌&&◌, ◌||◌, not, if◌then◌else◌, length, ulong_max,
}
use pdesmas_cloud.Base.NatMap.{NatMap, find, assign, insert, erase}
use pdesmas_cloud.State.SsvId.{SsvId}
use pdesmas_cloud.Types.Direction.{Direction, up, left, right, port, neighbours, same_direction}

-- `map<Direction, unsigned long>` under the direction's number.
abbrev pub CounterMap : Type 0
CounterMap = NatMap ℕ

pub record AccessCostCalculator : Type 0 where
  pub is_parent_clp : Bool
  pub port_threshold : ℕ
  pub lp_threshold : ℕ
  pub clp_load : ℕ
  pub ssv_list : List SsvId
  pub ssv_port_access_map : NatMap CounterMap
  pub ssv_port_hop_map : NatMap CounterMap

-- 64-bit unsigned arithmetic.
abbrev pub add : ℕ → ℕ → ℕ
add a b = (a + b) % 2 ^ 64

abbrev pub sub : ℕ → ℕ → ℕ
sub a b = (a + (2 ^ 64 - b)) % 2 ^ 64

abbrev pub mul : ℕ → ℕ → ℕ
mul a b = a * b % 2 ^ 64

-- `fLPThreshold` for a list of variables.
unfoldable pub threshold_of : List SsvId → ℕ → ℕ
threshold_of ssvs port_threshold = mul (length ssvs) port_threshold

unfoldable pub new_access_cost_calculator : Bool → ℕ → AccessCostCalculator
new_access_cost_calculator is_parent threshold = record {
  is_parent_clp = is_parent;
  port_threshold = threshold;
  lp_threshold = threshold_of [] threshold;
  clp_load = 0;
  ssv_list = [];
  ssv_port_access_map = [];
  ssv_port_hop_map = [];
}

unfoldable pub has_ssv : SsvId → List SsvId → Bool
has_ssv ssv [] = false
has_ssv ssv (s ∷ ss) = s == ssv || has_ssv ssv ss

unfoldable pub contains_variable : SsvId → AccessCostCalculator → Bool
contains_variable ssv c = has_ssv ssv c.ssv_list

-- The counters that `InitialiseCounters` starts with.
abbrev pub initial_counter_map : CounterMap
initial_counter_map = (1, 0) ∷ (2, 0) ∷ (3, 0) ∷ []

unfoldable pub initialise_counters : SsvId → AccessCostCalculator → AccessCostCalculator
initialise_counters ssv c =
    let listed = if contains_variable ssv c then c else record c {
      ssv_list = c.ssv_list ++ ssv ∷ [];
      lp_threshold = threshold_of (c.ssv_list ++ ssv ∷ []) c.port_threshold;
    } in
    record listed {
      ssv_port_access_map = assign ssv initial_counter_map c.ssv_port_access_map;
      ssv_port_hop_map = assign ssv initial_counter_map c.ssv_port_hop_map;
    }

-- The counter of a direction in the map of a variable, 0 where either is missing.
unfoldable pub count_in : ℕ → SsvId → NatMap CounterMap → ℕ
count_in p ssv m = elim (find ssv m) [
  | none ↦ 0
  | some counters ↦ elim (find p counters) [ none ↦ 0 | some n ↦ n ]
]

-- The two `find`s of `UpdateAccessCount` and `UpdateHopCount`.
unfoldable pub increase_in : ℕ → ℕ → SsvId → NatMap CounterMap → NatMap CounterMap
increase_in p n ssv m = elim (find ssv m) [
  | none ↦ m
  | some counters ↦ elim (find p counters) [
    | some old ↦ assign ssv (assign p (add old n) counters) m
    | none ↦ assign ssv (assign p n counters) m
  ]
]

unfoldable pub update_access_count :
    Direction → ℕ → SsvId → AccessCostCalculator → AccessCostCalculator × ℕ
update_access_count d n ssv c =
    if contains_variable ssv c
    then (
      record c { ssv_port_access_map = increase_in (port d) n ssv c.ssv_port_access_map },
      count_in (port d) ssv c.ssv_port_access_map,
    )
    else (c, 0)

unfoldable pub update_hop_count :
    Direction → ℕ → SsvId → AccessCostCalculator → AccessCostCalculator × ℕ
update_hop_count d n ssv c =
    if contains_variable ssv c
    then (
      record c { ssv_port_hop_map = increase_in (port d) n ssv c.ssv_port_hop_map },
      count_in (port d) ssv c.ssv_port_hop_map,
    )
    else (c, 0)

-- `erase` of the iterator that `find` gives; `none` is the erasing of `end()`.
unfoldable pub remove_ssv_access_record : SsvId → AccessCostCalculator → Option AccessCostCalculator
remove_ssv_access_record ssv c =
    if contains_variable ssv c
    then elim (find ssv c.ssv_port_access_map) [
      | none ↦ none
      | some _ ↦ some (record c { ssv_port_access_map = erase ssv c.ssv_port_access_map })
    ]
    else some c

unfoldable pub remove_ssv_hop_record : SsvId → AccessCostCalculator → Option AccessCostCalculator
remove_ssv_hop_record ssv c =
    if contains_variable ssv c
    then elim (find ssv c.ssv_port_hop_map) [
      | none ↦ none
      | some _ ↦ some (record c { ssv_port_hop_map = erase ssv c.ssv_port_hop_map })
    ]
    else some c

-- The first occurrence goes.
unfoldable pub erase_ssv : SsvId → List SsvId → List SsvId
erase_ssv ssv [] = []
erase_ssv ssv (s ∷ ss) = let rest = erase_ssv ssv ss in if s == ssv then ss else s ∷ rest

unfoldable pub remove_ssv_from_list : SsvId → AccessCostCalculator → AccessCostCalculator
remove_ssv_from_list ssv c = record c {
  ssv_list = erase_ssv ssv c.ssv_list;
  lp_threshold = threshold_of (erase_ssv ssv c.ssv_list) c.port_threshold;
}

unfoldable pub update_load : ℕ → ℕ → ℕ → ℕ → AccessCostCalculator → AccessCostCalculator
update_load old_hops old_access new_hops new_access c = record c {
  clp_load = add c.clp_load (mul (sub new_hops old_hops) (sub new_access old_access));
}

unfoldable pub check_clp_load : AccessCostCalculator → AccessCostCalculator × Bool
check_clp_load c = (record c { clp_load = 0 }, not (leb c.clp_load c.lp_threshold))

unfoldable pub get_access_count : Direction → SsvId → AccessCostCalculator → ℕ
get_access_count d ssv c = count_in (port d) ssv c.ssv_port_access_map

unfoldable pub get_hop_count : Direction → SsvId → AccessCostCalculator → ℕ
get_hop_count d ssv c = count_in (port d) ssv c.ssv_port_hop_map

-- The sums of the first inner loop of `GetMigrationMap`.
unfoldable pub access_cost : SsvId → AccessCostCalculator → ℕ
access_cost ssv c =
    add (add (get_access_count up ssv c) (get_access_count left ssv c))
      (get_access_count right ssv c)

unfoldable pub port_access_cost : SsvId → AccessCostCalculator → ℕ
port_access_cost ssv c =
    add
      (add (mul (get_access_count up ssv c) (get_hop_count up ssv c))
        (mul (get_access_count left ssv c) (get_hop_count left ssv c)))
      (mul (get_access_count right ssv c) (get_hop_count right ssv c))

-- The three tests that send a variable in a direction.
unfoldable pub migrates : SsvId → AccessCostCalculator → Direction → Bool
migrates ssv c d =
    ltb c.port_threshold (port_access_cost ssv c)
    && ltb (mul 2 (sub (access_cost ssv c) (get_access_count d ssv c))) (get_access_count d ssv c)
    && (not c.is_parent_clp || same_direction d up)

-- The variables that go in each direction, under its number.
abbrev pub MigrationMap : Type 0
MigrationMap = NatMap (List SsvId)

unfoldable pub add_migration : Direction → SsvId → MigrationMap → MigrationMap
add_migration d ssv m = elim (find (port d) m) [
  | some ssvs ↦ assign (port d) (ssvs ++ ssv ∷ []) m
  | none ↦ assign (port d) (ssv ∷ []) m
]

-- The second inner loop.
unfoldable pub migrate_ssv :
    AccessCostCalculator → SsvId → List Direction → MigrationMap → MigrationMap
migrate_ssv c ssv [] m = m
migrate_ssv c ssv (d ∷ ds) m =
    migrate_ssv c ssv ds (if migrates ssv c d then add_migration d ssv m else m)

-- The outer loop.
unfoldable pub migrate_all : AccessCostCalculator → List SsvId → MigrationMap → MigrationMap
migrate_all c [] m = m
migrate_all c (ssv ∷ ssvs) m = migrate_all c ssvs (migrate_ssv c ssv neighbours m)

unfoldable pub get_migration_map : AccessCostCalculator → AccessCostCalculator × MigrationMap
get_migration_map c = (record c { clp_load = 0 }, migrate_all c c.ssv_list [])

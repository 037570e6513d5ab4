-- ===== src/Lp/AccessCostCalculator/Migration.antt =====
-- Which variables AccessCostCalculator.cpp sends where.
use pdesmas_cloud.Base.{
  ◌+◌, ◌*◌, ◌^◌, ◌<◌, ◌≡◌, inl, inr, refl, List, [], ◌∷◌, ◌++◌, none, some, Bool, true, false, ltb,
  ◌==◌, ◌&&◌, ◌||◌, arith, Option-cases, Bool-cases,
}
use pdesmas_cloud.Base.NatMap.{find, find-assign}
use pdesmas_cloud.State.SsvId.{SsvId}
use pdesmas_cloud.Types.Direction.{
  Direction, here, up, left, right, direction_size, port, neighbours, same_direction,
}
use pdesmas_cloud.Lp.AccessCostCalculator.{
  AccessCostCalculator, access_cost, migrates, get_access_count, has_ssv, MigrationMap,
  add_migration, migrate_ssv, migrate_all, get_migration_map,
}

-- The variable is among those that go in the direction.
unfoldable pub is_sent : Direction → SsvId → MigrationMap → Bool
is_sent d ssv m = elim (find (port d) m) [ none ↦ false | some ssvs ↦ has_ssv ssv ssvs ]

has_ssv-append :
    (s t : SsvId) (ss : List SsvId) → has_ssv s (ss ++ t ∷ []) ≡ (has_ssv s ss || t == s)
unfolding has_ssv
has_ssv-append s t [] = ground arith
has_ssv-append s t (u ∷ ss) = ground (arith, has_ssv-append s t ss)

is_sent-add_migration :
    (d d' : Direction) (s t : SsvId) (m : MigrationMap)
    → is_sent d s (add_migration d' t m) ≡ (is_sent d s m || (same_direction d' d && t == s))
unfolding is_sent add_migration same_direction has_ssv
is_sent-add_migration d d' s t m = elim (Option-cases (find (port d') m)) [
  | inl n ↦ ground (arith, find-assign (port d') (port d) (t ∷ []) m)
  | inr (ssvs, e) ↦
      ground (arith, find-assign (port d') (port d) (ssvs ++ t ∷ []) m, has_ssv-append s t ssvs)
]

-- Some direction of the list is `d`, and the variable migrates that way.
unfoldable pub goes : AccessCostCalculator → SsvId → Direction → List Direction → Bool
goes c ssv d [] = false
goes c ssv d (e ∷ es) = same_direction e d && migrates ssv c e || goes c ssv d es

is_sent-migrate_ssv :
    (c : AccessCostCalculator) (d : Direction) (s t : SsvId) (ds : List Direction)
    (m : MigrationMap)
    → is_sent d s (migrate_ssv c t ds m) ≡ (is_sent d s m || (t == s && goes c t d ds))
unfolding migrate_ssv goes
is_sent-migrate_ssv c d s t [] m = ground arith
is_sent-migrate_ssv c d s t (e ∷ es) m = elim (Bool-cases (migrates t c e)) [
  | inl y ↦
      rw
        (
          y,
          migrate_ssv,
          is_sent-migrate_ssv c d s t es (add_migration e t m),
          is_sent-add_migration d e s t m,
        )
        (ground arith)
  | inr n ↦ rw (n, migrate_ssv, is_sent-migrate_ssv c d s t es m) (ground arith)
]

is_sent-migrate_all :
    (c : AccessCostCalculator) (d : Direction) (s : SsvId) (ssvs : List SsvId) (m : MigrationMap)
    → is_sent d s (migrate_all c ssvs m)
      ≡ (is_sent d s m || (has_ssv s ssvs && goes c s d neighbours))
unfolding migrate_all has_ssv
is_sent-migrate_all c d s [] m = ground arith
is_sent-migrate_all c d s (t ∷ ssvs) m =
    rw
      (
        is_sent-migrate_all c d s ssvs (migrate_ssv c t neighbours m),
        is_sent-migrate_ssv c d s t neighbours m,
      )
      (ground arith)

goes-neighbours :
    (c : AccessCostCalculator) (s : SsvId) (d : Direction)
    → goes c s d neighbours ≡ (ltb 0 (port d) && ltb (port d) 4 && migrates s c d)
unfolding goes same_direction port
goes-neighbours c s here = refl
goes-neighbours c s up = ground arith
goes-neighbours c s left = ground arith
goes-neighbours c s right = ground arith
goes-neighbours c s direction_size = refl

-- The accesses of a variable through the three ports stay under 2^63.
abbrev pub IsCounted : AccessCostCalculator → SsvId → Type 0
IsCounted c s =
    get_access_count up s c + get_access_count left s c + get_access_count right s c < 2 ^ 63

-- The map that `GetMigrationMap` gives sends a variable in a direction just when it is on the list
-- of the CLP, the direction is one of the three ports of a neighbour, and the three tests hold.
pub get_migration_map-is_sent :
    (c : AccessCostCalculator) (s : SsvId) (d : Direction)
    → is_sent d s (get_migration_map c).1
      ≡ (has_ssv s c.ssv_list && (ltb 0 (port d) && ltb (port d) 4 && migrates s c d))
unfolding get_migration_map is_sent find
get_migration_map-is_sent c s d =
    rw (is_sent-migrate_all c d s c.ssv_list [], goes-neighbours c s d)

migrates-majority :
    (c : AccessCostCalculator) (s : SsvId) (d : Direction)
    → IsCounted c s
    → ltb 0 (port d) && ltb (port d) 4 && migrates s c d ≡ true
    → 2 * (get_access_count up s c + get_access_count left s c + get_access_count right s c)
      < 3 * get_access_count d s c
unfolding migrates access_cost port
migrates-majority c s here bound e = ground arith
migrates-majority c s up bound e = ground arith
migrates-majority c s left bound e = ground arith
migrates-majority c s right bound e = ground arith
migrates-majority c s direction_size bound e = ground arith

-- Two of three counts cannot both be more than two thirds of their sum.
thirds :
    (c : AccessCostCalculator) (s : SsvId) (d d' : Direction)
    → ltb 0 (port d) && ltb (port d) 4 ≡ true
    → ltb 0 (port d') && ltb (port d') 4 ≡ true
    → 2 * (get_access_count up s c + get_access_count left s c + get_access_count right s c)
      < 3 * get_access_count d s c
    → 2 * (get_access_count up s c + get_access_count left s c + get_access_count right s c)
      < 3 * get_access_count d' s c
    → port d ≡ port d'
unfolding port
thirds c s here d' p p' h h' = cc
thirds c s direction_size d' p p' h h' = cc
thirds c s up up p p' h h' = refl
thirds c s left left p p' h h' = refl
thirds c s right right p p' h h' = refl
thirds c s d here p p' h h' = cc
thirds c s d direction_size p p' h h' = cc
thirds c s up left p p' h h' = omega arith
thirds c s up right p p' h h' = omega arith
thirds c s left up p p' h h' = omega arith
thirds c s left right p p' h h' = omega arith
thirds c s right up p p' h h' = omega arith
thirds c s right left p p' h h' = omega arith

-- Where the accesses of a variable through the three ports stay under 2^63 in sum,
-- `GetMigrationMap` sends it in one direction at most.
pub get_migration_map_unique :
    (c : AccessCostCalculator) (s : SsvId) (d d' : Direction)
    → IsCounted c s
    → is_sent d s (get_migration_map c).1 ≡ true
    → is_sent d' s (get_migration_map c).1 ≡ true
    → port d ≡ port d'
get_migration_map_unique c s d d' bound e e' =
    let h : 2 * (get_access_count up s c + get_access_count left s c + get_access_count right s c)
        < 3 * get_access_count d s c =
      migrates-majority c s d bound (ground (arith, get_migration_map-is_sent c s d)) in
    let h' : 2 * (get_access_count up s c + get_access_count left s c + get_access_count right s c)
        < 3 * get_access_count d' s c =
      migrates-majority c s d' bound (ground (arith, get_migration_map-is_sent c s d')) in
    thirds c s d d' (ground (arith, get_migration_map-is_sent c s d))
      (ground (arith, get_migration_map-is_sent c s d')) h h'

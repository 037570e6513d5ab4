-- ===== src/Types/Direction.antt =====
-- types/Direction.h and types/MatternColour.h: the ports of a CLP in the tree, and the colours and
-- cuts of the GVT rounds.
use pdesmas_cloud.Base.{ℕ, Bool, List, [], ◌∷◌, ◌==◌}

pub data Direction : Type 0 where
  here up left right direction_size : Direction

-- The number that the enumeration gives a direction; casts go both ways.
unfoldable pub port : Direction → ℕ
port here = 0
port up = 1
port left = 2
port right = 3
port direction_size = 4

unfoldable pub same_direction : Direction → Direction → Bool
same_direction a b = port a == port b

-- `for (direction = 1; direction < DIRECTION_SIZE; ++direction)`, and the same from 0.
abbrev pub neighbours : List Direction
neighbours = up ∷ left ∷ right ∷ []

abbrev pub ports : List Direction
ports = here ∷ neighbours

pub data MatternColour : Type 0 where
  white red : MatternColour

pub data MatternCut : Type 0 where
  first second : MatternCut

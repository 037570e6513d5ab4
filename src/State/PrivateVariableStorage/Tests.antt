-- ===== src/State/PrivateVariableStorage/Tests.antt =====
-- A run of PrivateVariableStorage.cpp, and the theorem on it.
use pdesmas_cloud.Base.{ℕ, ◌≡◌, refl, List, [], ◌∷◌, none, some, arith}
use pdesmas_cloud.Base.NatMap.{find}
use pdesmas_cloud.State.WritePeriod.{WritePeriod, new_write_period}
use pdesmas_cloud.State.PrivateVariableStorage.{Storage, read_variable}
use pdesmas_cloud.State.PrivateVariableStorage.Writes.{read_variable-AreForward}

abbrev periods : List (WritePeriod ℕ)
periods = new_write_period (some 3) 0 (record { identifier = 0; rank = 0 }) ∷ []

abbrev storage : Storage ℕ
storage = (5, periods) ∷ []

has_5 : find 5 storage ≡ some periods
unfolding find
has_5 = refl

read_variable-AreForward_example : read_variable {V = ℕ} 5 0 storage ≡ none
read_variable-AreForward_example =
    read_variable-AreForward 5 0 storage periods has_5 (omega arith, tt)

has_no_6 : find 6 storage ≡ none
unfolding find
has_no_6 = refl

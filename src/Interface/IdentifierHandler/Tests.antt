-- ===== src/Interface/IdentifierHandler/Tests.antt =====
-- A run of IdentifierHandler.cpp, and the theorem on it.
use pdesmas_cloud.Base.{◌≢◌, arith}
use pdesmas_cloud.Interface.IdentifierHandler.{
  new_identifier_handler, after_calls, get_last_id, get_last_id-after_calls,
}

get_last_id-after_calls_example :
    get_last_id (after_calls 3 (new_identifier_handler 5 4 2))
    ≢ get_last_id (after_calls 2 (new_identifier_handler 4 4 2))
get_last_id-after_calls_example =
    get_last_id-after_calls 4 2 5 4 3 2 (omega arith) (omega arith) (omega arith) (omega arith)
      (omega arith) (λ e. omega (arith, e))

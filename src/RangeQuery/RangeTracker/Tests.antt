-- ===== src/RangeQuery/RangeTracker/Tests.antt =====
-- A run of RangeTracker.cpp: a query that is known waits for three ports.
use pdesmas_cloud.Base.{◌≡◌, refl, [], ◌∷◌, some}
use pdesmas_cloud.Base.NatMap.{find}
use pdesmas_cloud.Types.Direction.{up, here, left, right}
use pdesmas_cloud.RangeQuery.RangeTracker.{
  get_outstanding_ports, RangeTracker, RqPortScanStatus, not_scanned, avoid_scan,
}

abbrev waiting : RqPortScanStatus
waiting = record {
  origin_port = up;
  number_of_hops = 1;
  port_scan_status_map =
      (0, not_scanned) ∷ (1, avoid_scan) ∷ (2, not_scanned) ∷ (3, not_scanned) ∷ [];
  ssv_value_map = [];
}

abbrev tracker : RangeTracker
tracker = (5, waiting) ∷ []

known : find 5 tracker ≡ some waiting
unfolding find
known = refl

three_left : get_outstanding_ports 5 tracker ≡ here ∷ left ∷ right ∷ []
unfolding get_outstanding_ports find pdesmas_cloud.RangeQuery.RangeTracker.outstanding_of
    pdesmas_cloud.RangeQuery.RangeTracker.get_scan_status pdesmas_cloud.Types.Direction.port
three_left = refl

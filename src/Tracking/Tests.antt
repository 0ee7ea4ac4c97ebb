-- ===== src/Tracking/Tests.antt =====
-- The page of an order that a rider has claimed, and the theorems applied to it.
use locoomo_api.Base.{◌+◌, ◌*◌, ◌<◌, ◌≤◌, ◌⊎◌, ◌≡◌, true, false, none, some}
use locoomo_api.Orders.{OrderStatus, is_legal}
use locoomo_api.Orders.Code.{codes}
use locoomo_api.Orders.Reach.{is_return}
use locoomo_api.Orders.Tests.{claimed_order, claimed-Row, second_claimed-Reachable}
use locoomo_api.Tracking.{
  PublicStatus, StationNames, TimelineEntry, shown, at_origin_station, to_public_status,
  is_return_public, is_final_public, status_on_page,
}
use locoomo_api.Tracking.Agrees.{page-found}

abbrev stations : StationNames
stations = record { origin = codes "Ikeja"; destination = codes "Yaba" }

abbrev dropped_off : TimelineEntry
dropped_off = record { status = shown at_origin_station; label = codes "Dropped off at Ikeja" }

page-found_example :
    (p : PublicStatus) × (to_public_status claimed_order.status ≡ some p)
    × (((status_on_page 5000 claimed_order.status 400 ≡ some p)
          × ((is_final_public p ≡ false) ⊎ (5000 ≤ 400 + 30 * 86400000)))
        ⊎ ((status_on_page 5000 claimed_order.status 400 ≡ none)
            × (is_final_public p ≡ true)
            × (400 + 30 * 86400000 < 5000)))
    × (is_return_public p ≡ is_return claimed_order.status)
    × (is_final_public p ≡ true → (b : OrderStatus) → is_legal claimed_order.status b ≡ false)
page-found_example = page-found second_claimed-Reachable claimed_order claimed-Row 5000 400

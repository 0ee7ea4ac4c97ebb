-- ===== src/Tracking/Agrees.antt =====
-- The public page against the orders.
use locoomo_api.Base.{
  ℕ, ◌+◌, ◌*◌, ◌<◌, ◌≤◌, ◌⊎◌, ltb, Bool-cases, refl, ◌≡◌, ◌≢◌, true, false, none, some, inl, inr,
  Option-cases, arith, Row,
}
use locoomo_api.Orders.{OrderStatus, OrderEventType, Order, OrdersTables, is_legal}
use locoomo_api.Orders.Trail.{status_after}
use locoomo_api.Orders.Reach.{is_unset, is_return}
use locoomo_api.Orders.Known.{status-known}
use locoomo_api.Orders.Run.{Reachable}
use locoomo_api.Tracking.{
  PublicStatus, TimelineEntry, StationNames, shown, to_public_status, timeline_entry_for,
  is_return_public, is_final_public, status_on_page, is_expired,
}

-- An entry of the timeline shows the public status of the status that its event leads to; only the
-- placing has a status of its own.
pub timeline-status :
    (type : OrderEventType) (names : StationNames) (entry : TimelineEntry) (public : PublicStatus)
    → timeline_entry_for type names ≡ some entry
    → entry.status ≡ shown public
    → to_public_status (status_after type) ≡ some public
unfolding timeline_entry_for to_public_status
timeline-status type names entry public e h = ground arith

hidden-IsUnset : (s : OrderStatus) → is_unset s ≡ false → to_public_status s ≢ none
unfolding to_public_status
hidden-IsUnset s h e = ground arith

return-shown :
    (s : OrderStatus) (p : PublicStatus)
    → to_public_status s ≡ some p
    → is_return_public p ≡ is_return s
unfolding to_public_status is_return_public
return-shown s p e = ground arith

final-shown :
    (s b : OrderStatus) (p : PublicStatus)
    → to_public_status s ≡ some p
    → is_final_public p ≡ true
    → is_legal s b ≡ false
unfolding to_public_status is_final_public is_legal
final-shown s b p e h = ground arith

-- Whether the page shows an order of this status.
page-cases :
    (now updated_at : ℕ) (s : OrderStatus) (p : PublicStatus)
    → to_public_status s ≡ some p
    → ((status_on_page now s updated_at ≡ some p)
        × ((is_final_public p ≡ false) ⊎ (now ≤ updated_at + 30 * 86400000)))
      ⊎ ((status_on_page now s updated_at ≡ none)
          × (is_final_public p ≡ true)
          × (updated_at + 30 * 86400000 < now))
unfolding status_on_page is_expired
page-cases now updated_at s p e = elim (Bool-cases (is_final_public p)) [
  | inr n ↦ inl (rw (e, n) refl, inl n)
  | inl y ↦ elim (Bool-cases (ltb (updated_at + 30 * 86400000) now)) [
    | inl late ↦ inr (rw (e, y, late) refl, y, ground (arith, late))
    | inr early ↦ inl (rw (e, y, early) refl, inr (ground (arith, early)))
  ]
]

-- The page of every order that the service can get to, if its reader may see it, is found and shows
-- the public status of the order, but for one that is final and was last updated more than thirty
-- days ago: that page is not found. The page shows a return just when the parcel is on its way back
-- or has got there, and what it shows as final is final: no transition leads on from there.
pub page-found :
    {s : OrdersTables}
    → Reachable s
    → (o : Order) → Row o s.orders
    → (now updated_at : ℕ)
    → (p : PublicStatus) × (to_public_status o.status ≡ some p)
      × (((status_on_page now o.status updated_at ≡ some p)
            × ((is_final_public p ≡ false) ⊎ (now ≤ updated_at + 30 * 86400000)))
          ⊎ ((status_on_page now o.status updated_at ≡ none)
              × (is_final_public p ≡ true)
              × (updated_at + 30 * 86400000 < now)))
      × (is_return_public p ≡ is_return o.status)
      × (is_final_public p ≡ true → (b : OrderStatus) → is_legal o.status b ≡ false)
page-found reach o r now updated_at = elim (Option-cases (to_public_status o.status)) [
  | inl e ↦ absurd (hidden-IsUnset o.status (status-known reach o r) e)
  | inr (p, e) ↦ (
    p,
    e,
    page-cases now updated_at o.status p e,
    return-shown o.status p e,
    λ h b. final-shown o.status b p e h,
  )
]

-- ===== src/Orders/Reach.antt =====
-- The graph of ORDER_TRANSITIONS: where an order can still get.
use locoomo_api.Base.{ap, ◌≡◌, refl, Bool, true, false, arith, ◌⊎◌, inl, inr, ◌≢◌}
use locoomo_api.Orders.{
  OrderStatus, is_legal, same_status, awaiting_drop_off, in_transit, completed, return_completed,
  cancelled, disputed,
}

-- A path of legal transitions.
pub data Leads : OrderStatus → OrderStatus → Type 0 where
  stay : {a : OrderStatus} → Leads a a
  go : {a c : OrderStatus} (b : OrderStatus) → is_legal a b ≡ true → Leads b c → Leads a c

-- The parcel is on its way back to its sender, or has got there.
abbrev pub is_return : OrderStatus → Bool
is_return OrderStatus.return_initiated = true
is_return OrderStatus.return_in_transit = true
is_return OrderStatus.returned_to_origin = true
is_return OrderStatus.ready_for_sender_collection = true
is_return return_completed = true
is_return _ = false

-- The two statuses that nothing in the service sets.
abbrev pub is_unset : OrderStatus → Bool
is_unset cancelled = true
is_unset disputed = true
is_unset _ = false

return_step : (a b : OrderStatus) → is_legal a b ≡ true → is_return a ≡ true → is_return b ≡ true
unfolding is_legal same_status
return_step OrderStatus.return_initiated b h k = ground arith
return_step a b h k = ground arith

pub unset_step : (a b : OrderStatus) → is_legal a b ≡ true → is_unset b ≡ false
unfolding is_legal same_status
unset_step awaiting_drop_off b h = ground arith
unset_step a b h = ground arith

return_stays : {a b : OrderStatus} → Leads a b → is_return a ≡ true → is_return b ≡ true
return_stays stay k = k
return_stays (go {a} b h l) k = return_stays l (return_step a b h k)

unset_never : {a b : OrderStatus} → Leads a b → is_unset a ≡ false → is_unset b ≡ false
unset_never stay k = k
unset_never (go {a} b h l) k = unset_never l (unset_step a b h)

-- Once a return has begun the order never completes as a delivery, and is never back on a way
-- to its receiver.
pub return-never_completed :
    {a b : OrderStatus}
    → is_return a ≡ true
    → Leads a b
    → (is_return b ≡ true) × (b ≢ completed) × (b ≢ in_transit)
return-never_completed k l =
    let h = return_stays l k in (h, λ e. cc (ap is_return e, h), λ e. cc (ap is_return e, h))

to_sender : Leads OrderStatus.ready_for_sender_collection return_completed
unfolding is_legal same_status
to_sender = go return_completed refl stay

at_origin : Leads OrderStatus.returned_to_origin return_completed
unfolding is_legal same_status
at_origin = go OrderStatus.ready_for_sender_collection refl to_sender

on_way_back : Leads OrderStatus.return_in_transit return_completed
unfolding is_legal same_status
on_way_back = go OrderStatus.returned_to_origin refl at_origin

sent_back : Leads OrderStatus.return_initiated return_completed
unfolding is_legal same_status
sent_back = go OrderStatus.return_in_transit refl on_way_back

to_receiver : Leads OrderStatus.ready_for_collection completed
unfolding is_legal same_status
to_receiver = go completed refl stay

at_destination : Leads OrderStatus.arrived_at_destination completed
unfolding is_legal same_status
at_destination = go OrderStatus.ready_for_collection refl to_receiver

on_way : Leads in_transit completed
unfolding is_legal same_status
on_way = go OrderStatus.arrived_at_destination refl at_destination

claimed : Leads OrderStatus.rider_assigned completed
unfolding is_legal same_status
claimed = go in_transit refl on_way

received : Leads OrderStatus.parcel_received_at_origin completed
unfolding is_legal same_status
received = go OrderStatus.rider_assigned refl claimed

-- From every status but the two unset ones there is a way to an end.
can_end : (a : OrderStatus) → is_unset a ≡ false → Leads a completed ⊎ Leads a return_completed
unfolding is_legal same_status
can_end awaiting_drop_off h = inl (go OrderStatus.parcel_received_at_origin refl received)
can_end OrderStatus.parcel_received_at_origin h = inl received
can_end OrderStatus.rider_assigned h = inl claimed
can_end in_transit h = inl on_way
can_end OrderStatus.arrived_at_destination h = inl at_destination
can_end OrderStatus.ready_for_collection h = inl to_receiver
can_end completed h = inl stay
can_end OrderStatus.return_initiated h = inr sent_back
can_end OrderStatus.return_in_transit h = inr on_way_back
can_end OrderStatus.returned_to_origin h = inr at_origin
can_end OrderStatus.ready_for_sender_collection h = inr to_sender
can_end return_completed h = inr stay
can_end cancelled h = cc
can_end disputed h = cc

-- No dead end: whatever status a placed order gets to, it is neither cancelled nor disputed, and
-- legal transitions lead on to its collection by the receiver or by the sender.
pub placed-can_end :
    {a : OrderStatus}
    → Leads awaiting_drop_off a
    → (is_unset a ≡ false) × (Leads a completed ⊎ Leads a return_completed)
placed-can_end {a} l = let h = unset_never l refl in (h, can_end a h)

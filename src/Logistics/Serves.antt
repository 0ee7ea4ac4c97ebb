-- ===== src/Logistics/Serves.antt =====
-- When a courier serves a leg, and that src/modules/logistics/domain/routing.ts finds the first that does.
use locoomo_api.Base.{
  ℕ, ◌≡◌, Bool, true, false, Option, none, some, List, [], ◌∷◌, arith, ltb, ◌==◌, any, Row,
  find-sort, ◌⊎◌, or_else, inl, inr, here, there, Bool-cases, ==_iff, sym, refl, ◌<◌,
}
use locoomo_api.Logistics.Routing.{
  ProviderRoutingConfig, RoutingContext, attempts_at, open_to, offers, in_priority_order, at_least,
  at_most, qualifies, choose_provider,
}

any-includes : (id : ℕ) (xs : List ℕ) → any (λ y. y == id) xs ≡ true → Row id xs
any-includes id [] h = cc
any-includes id (x ∷ xs) h = elim (Bool-cases (x == id)) [
  | inl t ↦ here (sym ((==_iff x id).0 t))
  | inr n ↦ there (any-includes id xs (ground (arith, h, n)))
]

includes-any : (id : ℕ) (xs : List ℕ) → Row id xs → any (λ y. y == id) xs ≡ true
includes-any id [] r = elim r [ ]
includes-any id (x ∷ xs) (here e) = rw ((==_iff x id).1 (sym e)) refl
includes-any id (x ∷ xs) (there r) = rw (includes-any id xs r) (ground arith)

module _ {Km : Type 0} (km_leb : Km → Km → Bool) (locale_leb : ℕ → ℕ → Bool) where
  -- What it takes to serve a leg.
  pub record Serves (is_registered : ℕ → Bool) (context : RoutingContext Km)
      (config : ProviderRoutingConfig Km) : Type 0 where
    pub is_enabled : config.enabled ≡ true
    pub has_adapter : is_registered config.key ≡ true
    pub has_attempts :
        or_else (attempts_at context.attempts_by_provider config.key) 0 < config.max_attempts
    pub from_here :
        ((config.pilot_node_ids ≡ none) ⊎ (config.pilot_node_ids ≡ some []))
        ⊎ ((ids : List ℕ) × (config.pilot_node_ids ≡ some ids) × Row context.origin_node_id ids)
    pub with_vehicle :
        (context.vehicle_class ≡ none)
        ⊎ ((v : ℕ) × (context.vehicle_class ≡ some v) × Row v config.vehicle_classes)
    pub far_enough :
        (config.min_distance_km ≡ none)
        ⊎ ((low : Km) × (config.min_distance_km ≡ some low)
            × (km_leb low context.distance_km ≡ true))
    pub near_enough :
        (config.max_distance_km ≡ none)
        ⊎ ((high : Km) × (config.max_distance_km ≡ some high)
            × (km_leb context.distance_km high ≡ true))

  open_to-cases :
      (o : Option (List ℕ)) (id : ℕ)
      → open_to o id ≡ true
      → ((o ≡ none) ⊎ (o ≡ some [])) ⊎ ((ids : List ℕ) × (o ≡ some ids) × Row id ids)
  open_to-cases none id h = inl (inl refl)
  open_to-cases (some []) id h = inl (inr refl)
  open_to-cases (some (x ∷ xs)) id h = inr (x ∷ xs, refl, any-includes id (x ∷ xs) h)

  open_to-all :
      (o : Option (List ℕ)) (id : ℕ)
      → ((o ≡ none) ⊎ (o ≡ some [])) ⊎ ((ids : List ℕ) × (o ≡ some ids) × Row id ids)
      → open_to o id ≡ true
  open_to-all o id (inl (inl e)) = rw e refl
  open_to-all o id (inl (inr e)) = rw e refl
  open_to-all o id (inr ([], e, r)) = rw e refl
  open_to-all o id (inr (x ∷ xs, e, r)) = rw e (includes-any id (x ∷ xs) r)

  offers-cases :
      (o : Option ℕ) (offered : List ℕ)
      → offers o offered ≡ true
      → (o ≡ none) ⊎ ((v : ℕ) × (o ≡ some v) × Row v offered)
  offers-cases none offered h = inl refl
  offers-cases (some v) offered h = inr (v, refl, any-includes v offered h)

  offers-all :
      (o : Option ℕ) (offered : List ℕ)
      → (o ≡ none) ⊎ ((v : ℕ) × (o ≡ some v) × Row v offered)
      → offers o offered ≡ true
  offers-all o offered (inl e) = rw e refl
  offers-all o offered (inr (v, e, r)) = rw e (includes-any v offered r)

  -- A bound that is not given is none.
  bound-cases :
      (o : Option Km) (d : Km)
      → (at_least km_leb locale_leb o d ≡ true
          → (o ≡ none) ⊎ ((low : Km) × (o ≡ some low) × (km_leb low d ≡ true)))
        × (at_most km_leb locale_leb o d ≡ true
            → (o ≡ none) ⊎ ((high : Km) × (o ≡ some high) × (km_leb d high ≡ true)))
  bound-cases none d = (λ h. inl refl, λ h. inl refl)
  bound-cases (some b) d = (λ h. inr (b, refl, h), λ h. inr (b, refl, h))

  at_least-all :
      (o : Option Km) (d : Km)
      → (o ≡ none) ⊎ ((low : Km) × (o ≡ some low) × (km_leb low d ≡ true))
      → at_least km_leb locale_leb o d ≡ true
  at_least-all o d (inl e) = rw e refl
  at_least-all o d (inr (b, e, h)) = rw e h

  at_most-all :
      (o : Option Km) (d : Km)
      → (o ≡ none) ⊎ ((high : Km) × (o ≡ some high) × (km_leb d high ≡ true))
      → at_most km_leb locale_leb o d ≡ true
  at_most-all o d (inl e) = rw e refl
  at_most-all o d (inr (b, e, h)) = rw e h

  module _ (is_registered : ℕ → Bool) (context : RoutingContext Km)
      (config : ProviderRoutingConfig Km) where
    qualifies-Serves :
        qualifies km_leb locale_leb is_registered context config ≡ true
        → Serves is_registered context config
    unfolding qualifies
    qualifies-Serves h = record {
      is_enabled = ground (arith, h);
      has_adapter = ground (arith, h);
      has_attempts = ground (arith, h);
      from_here = open_to-cases config.pilot_node_ids context.origin_node_id (ground (arith, h));
      with_vehicle = offers-cases context.vehicle_class config.vehicle_classes (ground (arith, h));
      far_enough = (bound-cases config.min_distance_km context.distance_km).0 (ground (arith, h));
      near_enough = (bound-cases config.max_distance_km context.distance_km).1 (ground (arith, h));
    }

    Serves-qualifies :
        Serves is_registered context config
        → qualifies km_leb locale_leb is_registered context config ≡ true
    unfolding qualifies
    Serves-qualifies v =
        let left : ltb (or_else (attempts_at context.attempts_by_provider config.key) 0)
              config.max_attempts
            ≡ true =
          ground (arith, v.has_attempts) in
        rw
          (
            v.is_enabled,
            v.has_adapter,
            left,
            open_to-all config.pilot_node_ids context.origin_node_id v.from_here,
            offers-all context.vehicle_class config.vehicle_classes v.with_vehicle,
            at_least-all config.min_distance_km context.distance_km v.far_enough,
            at_most-all config.max_distance_km context.distance_km v.near_enough,
          )
          refl

  module _ (locale_total : (a b : ℕ) → locale_leb a b ≡ false → locale_leb b a ≡ true)
      (locale_trans : (a b c : ℕ)
        → locale_leb a b ≡ true
        → locale_leb b c ≡ true
        → locale_leb a c ≡ true) where
    priority_total :
        (a b : ProviderRoutingConfig Km)
        → in_priority_order km_leb locale_leb a b ≡ false
        → in_priority_order km_leb locale_leb b a ≡ true
    priority_total a b h = grind (arith, locale_total a.key b.key)

    priority_trans :
        (a b c : ProviderRoutingConfig Km)
        → in_priority_order km_leb locale_leb a b ≡ true
        → in_priority_order km_leb locale_leb b c ≡ true
        → in_priority_order km_leb locale_leb a c ≡ true
    priority_trans a b c h k = grind (arith, locale_trans a.key b.key c.key)

    -- The provider chosen serves the leg, and every other that serves it comes after it, by its
    -- priority number and, where that is the same, by the order of the keys; a leg stays without a
    -- courier only if no provider serves it. To serve it is to be enabled and registered, to have
    -- attempts left, to be open to the Node, and to carry the vehicle class and the distance. The order
    -- of the keys is taken to be total and transitive.
    pub choose_provider-first :
        (configs : List (ProviderRoutingConfig Km)) (is_registered : ℕ → Bool)
        (context : RoutingContext Km)
        → ((choose_provider km_leb locale_leb configs is_registered context ≡ none)
            × ((q : ProviderRoutingConfig Km) → Row q configs → ¬ Serves is_registered context q))
          ⊎ ((c : ProviderRoutingConfig Km) × (choose_provider km_leb locale_leb configs
                  is_registered context
                ≡ some c)
              × Row c configs
              × Serves is_registered context c
              × ((q : ProviderRoutingConfig Km)
                  → Row q configs
                  → Serves is_registered context q
                  → (q ≡ c)
                    ⊎ ((c.priority < q.priority)
                        ⊎ ((c.priority ≡ q.priority) × (locale_leb c.key q.key ≡ true)))))
    unfolding choose_provider
    choose_provider-first configs is_registered context =
        elim (find-sort (in_priority_order km_leb locale_leb) priority_total priority_trans
          (qualifies km_leb locale_leb is_registered context) configs) [
            | inl (nobody, h) ↦ inl (
              nobody,
              λ q r serves.
                  let yes = Serves-qualifies is_registered context q serves in cc (h q r, yes),
            )
            | inr (c, chosen, r, h, first) ↦ inr (
              c,
              chosen,
              r,
              qualifies-Serves is_registered context c h,
              λ q w serves. elim (first q w (Serves-qualifies is_registered context q serves)) [
                | inl same ↦ inl same
                | inr before ↦ inr (in_order c q before)
              ],
            )
          ]
      where
        in_order :
            (c q : ProviderRoutingConfig Km)
            → in_priority_order km_leb locale_leb c q ≡ true
            → (c.priority < q.priority)
              ⊎ ((c.priority ≡ q.priority) × (locale_leb c.key q.key ≡ true))
        in_order c q h = elim (Bool-cases (ltb c.priority q.priority)) [
          | inl t ↦ inl (ground (arith, t))
          | inr n ↦ inr (ground (arith, h, n), ground (arith, h, n))
        ]

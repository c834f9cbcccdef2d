-- ===== src/Mesh/Graph/Route/Shortest.antt =====
-- `route` finds a walk of the fewest hops, or there is none.
use hart_link.Common.{
  ℕ, zero, suc, ◌+◌, ◌≤◌, ◌≡◌, refl, arith, ap, sym, ◌∙◌, inl, inr, ◌⊎◌, Bool, true, false, ◌&&◌,
  ◌||◌, Bool-cases, List, [], ◌∷◌, length, retain, leb, ◌==◌,
}
use hart_link.Common.Maps.{nat_key, is_some, lookup, contains}
use hart_link.Mesh.Schedule.{DeviceId}
use hart_link.Mesh.Graph.{MeshGraph, in_unit, adjacent}
use hart_link.Mesh.Graph.Views.{IsGraph}
use hart_link.Mesh.Graph.Route.{
  Search, Scan, found, scanned, scan, usable, is_active, neighbors, reconstruct_route, search,
  start, route,
}
use hart_link.Mesh.Graph.Route.Walks.{
  Walk, stay, step, IsShortest, Trail, origin, walk_back_lem, unseen, unseen_others,
}
use hart_link.Mesh.Graph.Route.Frontier.{Knows, IsCurrent, scan-Looked}

contains-retain :
    (z : ℕ) (p : ℕ → Bool) (l : List ℕ) → contains z (retain p l) ≡ (contains z l && p z)
unfolding contains
contains-retain z p [] = refl
contains-retain z p (y ∷ l) = ground (arith, contains-retain z p l)

contains-nil : (z : ℕ) → contains z [] ≡ false
unfolding contains
contains-nil z = refl

contains-cons : (z y : ℕ) (l : List ℕ) → contains z (y ∷ l) ≡ ((y == z) || contains z l)
unfolding contains
contains-cons z y l = refl

List-cases : (l : List ℕ) → (l ≡ []) ⊎ ((x : ℕ) × (rest : List ℕ) × (l ≡ x ∷ rest))
List-cases [] = inl refl
List-cases (x ∷ rest) = inr (x, rest, refl)

Scan-cases :
    (o : Scan)
    → ((p : List (DeviceId × DeviceId)) × (o ≡ found p)) ⊎ ((t : Search) × (o ≡ scanned t))
Scan-cases (found p) = inl (p, refl)
Scan-cases (scanned t) = inr (t, refl)

module _ (g : MeshGraph) (minimum : ℕ) (v : IsGraph g) where
  -- The neighbors that the search goes through are the nodes at usable links.
  neighbors-usable : (a b : DeviceId) → contains b (neighbors g minimum a) ≡ usable g minimum a b
  unfolding neighbors usable
  neighbors-usable a b = ground (
    arith,
    contains-retain b (usable g minimum a) (adjacent a g.adjacency),
    v.neighbors_linked a b,
  )

  module _ (source destination : DeviceId) where
    popped-IsCurrent :
        (s : Search) (depth : DeviceId → ℕ) (before current : DeviceId) (rest : List DeviceId)
        → s.pending ≡ current ∷ rest
        → Knows g minimum source destination s depth before []
        → IsCurrent g minimum source destination (record s { pending = rest }) depth current
    popped-IsCurrent s depth before current rest e k =
        let queue = λ (z : DeviceId). ap (contains z) e ∙ contains-cons z current rest in
        let (first, _) = rw e at k.ascending in
        record {
          seen = k.queued current (ground (arith, queue current));
          near = first;
          limit = λ z h. k.behind z current h (ground (arith, queue current));
        }

    popped-Knows :
        (s : Search) (depth : DeviceId → ℕ) (before current : DeviceId) (rest : List DeviceId)
        → s.pending ≡ current ∷ rest
        → Knows g minimum source destination s depth before []
        → Knows g minimum source destination
            (record s { pending = rest })
            depth
            current
            (neighbors g minimum current)
    popped-Knows s depth before current rest e k =
        let queue = λ (z : DeviceId). ap (contains z) e ∙ contains-cons z current rest in
        let (_, later) = rw e at k.ascending in
        record {
          at_source = k.at_source;
          source_depth = k.source_depth;
          ahead = k.ahead;
          trails = k.trails;
          short = k.short;
          keyed = k.keyed;
          queued = λ z h. k.queued z (ground (arith, h, queue z));
          ascending = later;
          behind = λ z u h q. k.behind z u h (ground (arith, q, queue u));
          closed = λ z w h u.
              ground (arith, u, k.closed z w h u, queue z, contains-nil w, neighbors-usable z w);
        }

    -- A walk to a node that is not seen yet, or is seen late, is longer than the trail to the head of the queue.
    far :
        (s : Search) (depth : DeviceId → ℕ) (before current : DeviceId) (rest : List DeviceId)
        → s.pending ≡ current ∷ rest
        → Knows g minimum source destination s depth before []
        → (w : DeviceId) (n : ℕ) → Walk g minimum source w n
        → ((contains w s.visited && leb (depth w) n) || leb (suc (depth current)) n) ≡ true
    far s depth before current rest e k w n stay = ground (arith, k.at_source, k.source_depth)
    far s depth before current rest e k w n (step {v = u} {n = m} walk link) =
        let queue = ap (contains u) e ∙ contains-cons u current rest in
        ground (
          arith,
          far s depth before current rest e k u m walk,
          k.closed u w,
          link,
          queue,
          contains-nil w,
          (rw e at k.ascending).0 u,
        )

    exhausted :
        (s : Search) (depth : DeviceId → ℕ) (before : DeviceId)
        → s.pending ≡ []
        → Knows g minimum source destination s depth before []
        → (w : DeviceId) (n : ℕ) → Walk g minimum source w n
        → contains w s.visited ≡ true
    exhausted s depth before e k w n stay = k.at_source
    exhausted s depth before e k w n (step {v = u} {n = m} walk link) = ground (
      arith,
      contains-nil u,
      contains-nil w,
      ap (contains u) e,
      k.closed u w (exhausted s depth before e k u m walk) link,
    )

    unreachable :
        (s : Search) (depth : DeviceId → ℕ) (before : DeviceId)
        → s.pending ≡ []
        → Knows g minimum source destination s depth before []
        → (n : ℕ) → ¬ Walk g minimum source destination n
    unreachable s depth before e k n walk =
        ground (arith, k.ahead, exhausted s depth before e k destination n walk)

    stopped :
        (fuel : ℕ) (s : Search)
        → s.pending ≡ []
        → ((n : ℕ) → ¬ Walk g minimum source destination n)
        → IsShortest g minimum source destination (search fuel g source destination minimum s)
    unfolding search
    stopped zero s e h = h
    stopped (suc fuel) s e h = rw (search, e) h

    recovered :
        (previous : List (DeviceId × DeviceId)) (d : ℕ)
        → Trail g minimum source previous destination (suc d)
        → suc d ≤ length previous
        → ((n : ℕ) → Walk g minimum source destination n → suc d ≤ n)
        → IsShortest g minimum source destination (reconstruct_route source destination previous)
    unfolding reconstruct_route
    recovered previous d trail fits least =
        let (rest, back_at, leads, long) =
          walk_back_lem g minimum source previous destination destination (suc d) (length previous)
            [] trail fits refl in
        rw back_at (rest, refl, leads, λ n walk. omega (arith, long, least n walk))

    search-IsShortest :
        (fuel : ℕ) (s : Search) (depth : DeviceId → ℕ) (before : DeviceId)
        → Knows g minimum source destination s depth before []
        → length s.pending + unseen g.nodes s.visited ≤ fuel
        → IsShortest g minimum source destination (search fuel g source destination minimum s)
    unfolding search
    search-IsShortest zero s depth before k fits = elim (List-cases s.pending) [
      | inl e ↦ stopped zero s e (unreachable s depth before e k)
      | inr (current, rest, e) ↦ absurd (omega (arith, ap length e))
    ]
    search-IsShortest (suc fuel) s depth before k fits = elim (List-cases s.pending) [
      | inl e ↦ stopped (suc fuel) s e (unreachable s depth before e k)
      | inr (current, rest, e) ↦
          let near = neighbors g minimum current in
          let good =
            scan-Looked g minimum source destination near (record s { pending = rest }) depth
              current fuel (popped-Knows s depth before current rest e k)
              (popped-IsCurrent s depth before current rest e k)
              (λ w h. sym (neighbors-usable current w) ∙ h) (omega (arith, ap length e)) in
          elim (Scan-cases (scan destination current near (record s { pending = rest }))) [
            | inl (previous, q) ↦
                let (trail, fits) = rw q at good in
                rw (search, e, q)
                  (recovered previous (depth current) trail fits (λ n walk.
                    ground
                      (arith, k.ahead, far s depth before current rest e k destination n walk)))
            | inr (t, q) ↦
                let (depth', current', k', fits') = rw q at good in
                rw (search, e, q) (search-IsShortest fuel t depth' current' k' fits')
          ]
    ]

  start-Knows :
      (source destination : DeviceId)
      → (source == destination) ≡ false
      → Knows g minimum source destination (start source) (λ v. 0) source []
  unfolding contains lookup
  start-Knows source destination apart = record {
    at_source = ground arith;
    source_depth = refl;
    ahead = ground (arith, apart);
    trails = λ v e. let same : v ≡ source = ground (arith, e) in rw same origin;
    short = λ v e. omega arith;
    keyed = λ v e. absurd (cc);
    queued = λ v e. e;
    ascending = ((λ v e. absurd (cc)), tt);
    behind = λ v u e q. omega arith;
    closed = λ v w e u. ground (arith, e);
  }

  -- In a graph whose maps agree, with a threshold from 0.0 to 1.0 and both ends active: a route that is found
  -- leads from the source to the destination over links of at least that reliability to active nodes, and no
  -- such walk has fewer hops; and if none is found, there is no such walk.
  pub route-IsShortest :
      (source destination : DeviceId)
      → in_unit minimum ≡ true
      → is_active (lookup source g.nodes) ≡ true
      → is_active (lookup destination g.nodes) ≡ true
      → IsShortest g minimum source destination (route g source destination minimum)
  unfolding route
  route-IsShortest source destination unit a b = elim (Bool-cases (source == destination)) [
    | inl same ↦
        rw (route, unit, a, b, same) ([], refl, ground (arith, same), λ n walk. omega arith)
    | inr apart ↦
        rw (route, unit, a, b, apart)
          (search-IsShortest source destination (length g.nodes) (start source) (λ v. 0) source
            (start-Knows source destination apart)
            (let there : is_some (lookup source g.nodes) ≡ true = ground (arith, a) in
              omega (arith, unseen_others g.nodes source there)))
  ]

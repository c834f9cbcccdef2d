-- ===== src/Mesh/Graph/Route/Walks.antt =====
-- Walks over usable links, the trails that the search keeps in `previous`, and the way back along them.
use hart_link.Common.{
  ℕ, zero, suc, ◌+◌, ◌≤◌, ◌<◌, ◌≡◌, refl, arith, ap, inl, inr, true, false, not, Bool-cases, Option,
  none, some, List, [], ◌∷◌, length, retain, ◌==◌,
}
use hart_link.Common.Maps.{
  nat_key, is_some, lookup, put, contains, set_insert, lookup-put, contains-set_insert,
}
use hart_link.Mesh.Schedule.{DeviceId}
use hart_link.Mesh.Graph.{NodeState, MeshGraph}
use hart_link.Mesh.Graph.Route.{usable, walk_back}

-- The walks of a number of hops from a node, each over a usable link to an active node.
pub data Walk (g : MeshGraph) (minimum : ℕ) (source : DeviceId) : DeviceId → ℕ → Type 0 where
  stay : Walk g minimum source source 0
  step :
      {v w : DeviceId} {n : ℕ}
      → Walk g minimum source v n
      → usable g minimum v w ≡ true
      → Walk g minimum source w (suc n)

-- The nodes lead from the first to the last over usable links.
abbrev pub Leads : MeshGraph → (minimum : ℕ) → DeviceId → List DeviceId → DeviceId → Type 0
Leads g minimum v [] destination = v ≡ destination
Leads g minimum v (w ∷ hops) destination =
    (usable g minimum v w ≡ true) × Leads g minimum w hops destination

-- What a route is to be: its hops lead from the source to the destination, and no walk has fewer.
abbrev pub IsShortest :
    MeshGraph → (minimum : ℕ) → (source destination : DeviceId) → Option (List DeviceId) → Type 0
IsShortest g minimum source destination none = (n : ℕ) → ¬ Walk g minimum source destination n
IsShortest g minimum source destination (some hops) =
    (rest : List DeviceId) × (hops ≡ source ∷ rest)
    × Leads g minimum source rest destination
    × ((n : ℕ) → Walk g minimum source destination n → length rest ≤ n)

-- The walk that `previous` keeps for a node.
pub data Trail (g : MeshGraph) (minimum : ℕ) (source : DeviceId)
    (previous : List (DeviceId × DeviceId)) : DeviceId → ℕ → Type 0 where
  origin : Trail g minimum source previous source 0
  back :
      {v w : DeviceId} {n : ℕ}
      → Trail g minimum source previous v n
      → usable g minimum v w ≡ true
      → lookup w previous ≡ some v
      → (w == source) ≡ false
      → Trail g minimum source previous w (suc n)

lookup-put_kept :
    (previous : List (DeviceId × DeviceId)) (w c v u : DeviceId)
    → lookup v previous ≡ some u
    → lookup w previous ≡ none
    → lookup v (put w c previous) ≡ some u
unfolding nat_key
lookup-put_kept previous w c v u here fresh = ground (arith, lookup-put v w c previous, here, fresh)

module _ (g : MeshGraph) (minimum : ℕ) (source : DeviceId) where
  -- A new entry breaks no trail.
  pub Trail-put :
      (previous : List (DeviceId × DeviceId)) (w c v : DeviceId) (n : ℕ)
      → lookup w previous ≡ none
      → Trail g minimum source previous v n
      → Trail g minimum source (put w c previous) v n
  Trail-put previous w c v n fresh origin = origin
  Trail-put previous w c v n fresh (back {v = u} t e here other) =
      back (Trail-put previous w c u _ fresh t) e (lookup-put_kept previous w c v u here fresh)
        other

  -- The way back along a trail ends at the source, with the hops of the trail in front.
  pub walk_back_lem :
      (previous : List (DeviceId × DeviceId)) (destination v : DeviceId) (n fuel : ℕ)
      (hops : List DeviceId)
      → Trail g minimum source previous v n
      → n ≤ fuel
      → Leads g minimum v hops destination
      → (rest : List DeviceId) × (walk_back fuel source v previous (v ∷ hops)
          ≡ some (source ∷ rest))
        × Leads g minimum source rest destination
        × (length rest ≡ n + length hops)
  unfolding walk_back
  walk_back_lem previous destination v n zero hops origin fits l =
      (hops, ground arith, l, omega arith)
  walk_back_lem previous destination v n (suc fuel) hops origin fits l =
      (hops, ground arith, l, omega arith)
  walk_back_lem previous destination v n zero hops (back t e here other) fits l =
      absurd (omega arith)
  walk_back_lem previous destination v n (suc fuel) hops (back {v = u} t e here other) fits l =
      let (rest, found, leads, long) =
        walk_back_lem previous destination u _ fuel (v ∷ hops) t (omega arith) (e, l) in
      (rest, rw (walk_back, other, here) found, leads, omega (arith, long))

-- The nodes of the graph that the search has not seen.
abbrev pub unseen : List (DeviceId × NodeState) → List DeviceId → ℕ
unseen nodes visited = length (retain (λ e. not (contains e.0 visited)) nodes)

pub unseen-le :
    (nodes : List (DeviceId × NodeState)) (w : DeviceId) (visited : List DeviceId)
    → unseen nodes (set_insert w visited) ≤ unseen nodes visited
unseen-le [] w visited = omega arith
unseen-le (e ∷ nodes) w visited =
    ground (arith, unseen-le nodes w visited, contains-set_insert e.0 w visited)

-- A node of the graph that is seen for the first time is one less to see.
pub unseen-set_insert :
    (nodes : List (DeviceId × NodeState)) (w : DeviceId) (visited : List DeviceId)
    → is_some (lookup w nodes) ≡ true
    → contains w visited ≡ false
    → unseen nodes (set_insert w visited) < unseen nodes visited
unfolding lookup nat_key
unseen-set_insert [] w visited h new = absurd (cc)
unseen-set_insert (e ∷ nodes) w visited h new = elim (Bool-cases (w == e.0)) [
  | inl here ↦
      ground (arith, here, new, unseen-le nodes w visited, contains-set_insert e.0 w visited)
  | inr other ↦
      ground (arith, h, other, unseen-set_insert nodes w visited, contains-set_insert e.0 w visited)
]

unseen-nil : (nodes : List (DeviceId × NodeState)) → unseen nodes [] ≡ length nodes
unfolding contains
unseen-nil [] = refl
unseen-nil (e ∷ nodes) = ap suc (unseen-nil nodes)

-- At the start, the other nodes are fewer than all.
pub unseen_others :
    (nodes : List (DeviceId × NodeState)) (source : DeviceId)
    → is_some (lookup source nodes) ≡ true
    → unseen nodes (source ∷ []) < length nodes
unfolding set_insert contains
unseen_others nodes source h =
    omega (arith, unseen-set_insert nodes source [] h refl, unseen-nil nodes)

-- ===== src/Mesh/Graph/Route/Frontier.antt =====
-- What the breadth-first search knows between two steps, with the depth at which it saw each node.
use hart_link.Common.{
  ℕ, suc, ◌+◌, ◌≤◌, ◌≡◌, arith, subst, inl, inr, true, false, ◌&&◌, ◌||◌, Bool-cases, none, List,
  [], ◌∷◌, ◌++◌, length, length-append, leb, ◌==◌, ==_self, if◌then◌else◌,
}
use hart_link.Common.Maps.{
  nat_key, is_some, lookup, contains, lookup-put, length-put_new, contains-set_insert,
}
use hart_link.Mesh.Schedule.{DeviceId}
use hart_link.Mesh.Graph.{MeshGraph}
use hart_link.Mesh.Graph.Route.{Search, Scan, found, scanned, visit, scan, usable}
use hart_link.Mesh.Graph.Route.Walks.{Trail, back, Trail-put, unseen, unseen-set_insert}

-- The depths of a queue ascend.
abbrev pub Ascending : (DeviceId → ℕ) → List DeviceId → Type 0
Ascending depth [] = Unit
Ascending depth (u ∷ rest) =
    ((v : DeviceId) → contains v rest ≡ true → depth u ≤ depth v) × Ascending depth rest

contains-append :
    (z w : DeviceId) (l : List DeviceId) → contains z (l ++ w ∷ []) ≡ (contains z l || (z == w))
unfolding contains
contains-append z w [] = ground arith
contains-append z w (y ∷ l) = ground (arith, contains-append z w l)

contains-cons :
    (z y : DeviceId) (l : List DeviceId) → contains z (y ∷ l) ≡ ((z == y) || contains z l)
unfolding contains
contains-cons z y l = ground arith

Ascending-same :
    (depth depth' : DeviceId → ℕ) (l : List DeviceId)
    → ((v : DeviceId) → contains v l ≡ true → depth' v ≡ depth v)
    → Ascending depth l
    → Ascending depth' l
Ascending-same depth depth' [] h a = tt
Ascending-same depth depth' (u ∷ rest) h (a, later) = (
  λ v e. ground (arith, a v e, h v, h u, contains-cons v u rest, contains-cons u u rest),
  Ascending-same depth depth' rest (λ v e. h v (ground (arith, e, contains-cons v u rest))) later,
)

Ascending-append :
    (depth : DeviceId → ℕ) (l : List DeviceId) (w : DeviceId)
    → ((v : DeviceId) → contains v l ≡ true → depth v ≤ depth w)
    → Ascending depth l
    → Ascending depth (l ++ w ∷ [])
unfolding contains
Ascending-append depth [] w h a = (λ v e. absurd (cc), tt)
Ascending-append depth (u ∷ rest) w h (a, later) = (
  λ v e. ground (arith, e, a v, h u, contains-append v w rest),
  Ascending-append depth rest w (λ v e. h v (ground (arith, e))) later,
)

module _ (g : MeshGraph) (minimum : ℕ) (source destination : DeviceId) where
  -- The search while it goes through `todo`, neighbors of `current`: `[]` between two rounds.
  pub record Knows (s : Search) (depth : DeviceId → ℕ) (current : DeviceId) (todo : List DeviceId)
      : Type 0 where
    pub at_source : contains source s.visited ≡ true
    pub source_depth : depth source ≡ 0
    pub ahead : contains destination s.visited ≡ false
    pub trails :
        (v : DeviceId) → contains v s.visited ≡ true → Trail g minimum source s.previous v (depth v)
    pub short : (v : DeviceId) → contains v s.visited ≡ true → depth v ≤ length s.previous
    pub keyed : (v : DeviceId) → is_some (lookup v s.previous) ≡ true → contains v s.visited ≡ true
    pub queued : (v : DeviceId) → contains v s.pending ≡ true → contains v s.visited ≡ true
    pub ascending : Ascending depth s.pending
    pub behind :
        (v u : DeviceId)
        → contains v s.visited ≡ true
        → contains u s.pending ≡ true
        → depth v ≤ suc (depth u)
    pub closed :
        (v w : DeviceId)
        → contains v s.visited ≡ true
        → usable g minimum v w ≡ true
        → (contains v s.pending
            || (((v == current) && contains w todo)
                || (contains w s.visited && leb (depth w) (suc (depth v)))))
          ≡ true

  -- The node that is looked at is seen, no node of the queue is less deep, and no seen node is deeper by two.
  pub record IsCurrent (s : Search) (depth : DeviceId → ℕ) (current : DeviceId) : Type 0 where
    pub seen : contains current s.visited ≡ true
    pub near : (v : DeviceId) → contains v s.pending ≡ true → depth current ≤ depth v
    pub limit : (v : DeviceId) → contains v s.visited ≡ true → depth v ≤ suc (depth current)

  skip-Knows :
      (s : Search) (depth : DeviceId → ℕ) (current w : DeviceId) (todo : List DeviceId)
      → Knows s depth current (w ∷ todo)
      → IsCurrent s depth current
      → contains w s.visited ≡ true
      → Knows s depth current todo
  skip-Knows s depth current w todo k c old = record {
    at_source = k.at_source;
    source_depth = k.source_depth;
    ahead = k.ahead;
    trails = k.trails;
    short = k.short;
    keyed = k.keyed;
    queued = k.queued;
    ascending = k.ascending;
    behind = k.behind;
    closed =
        λ v x e u. ground (arith, old, k.closed v x e u, contains-cons x w todo, c.limit w old);
  }

  -- The depths once a new neighbor of `current` is seen.
  abbrev deepen : (DeviceId → ℕ) → (current neighbor : DeviceId) → DeviceId → ℕ
  deepen depth current neighbor v = if v == neighbor then suc (depth current) else depth v

  module _ (s : Search) (depth : DeviceId → ℕ) (current w : DeviceId) (todo : List DeviceId)
      (k : Knows s depth current (w ∷ todo)) (c : IsCurrent s depth current)
      (new : contains w s.visited ≡ false) (link : usable g minimum current w ≡ true) where
    fresh : lookup w s.previous ≡ none
    fresh = ground (arith, k.keyed w, new)

    visit-Trail : Trail g minimum source (visit current w s).previous w (suc (depth current))
    unfolding visit nat_key
    visit-Trail =
        back
          (Trail-put g minimum source s.previous w current current (depth current) fresh
            (k.trails current c.seen))
          link (ground (arith, lookup-put w w current s.previous))
          (ground (arith, new, k.at_source))

    visit-Trail_all :
        (v : DeviceId)
        → contains v (visit current w s).visited ≡ true
        → Trail g minimum source (visit current w s).previous v (deepen depth current w v)
    unfolding visit
    visit-Trail_all v e = elim (Bool-cases (v == w)) [
      | inl here ↦ let same : v ≡ w = ground (arith, here) in rw (same, ==_self w) visit-Trail
      | inr other ↦
          let old : contains v s.visited ≡ true =
            ground (arith, e, other, contains-set_insert v w s.visited) in
          rw other
            (Trail-put g minimum source s.previous w current v (depth v) fresh (k.trails v old))
    ]

    visit_long : suc (depth current) ≤ length (visit current w s).previous
    unfolding visit
    visit_long = ground (arith, length-put_new w current s.previous fresh, k.short current c.seen)

    visit_short :
        (v : DeviceId)
        → contains v (visit current w s).visited ≡ true
        → deepen depth current w v ≤ length (visit current w s).previous
    unfolding visit
    visit_short v e = ground (
      arith,
      e,
      contains-set_insert v w s.visited,
      length-put_new w current s.previous fresh,
      k.short v,
      k.short current c.seen,
    )

    visit-Knows :
        (w == destination) ≡ false
        → Knows
            (record (visit current w s) { pending = s.pending ++ w ∷ [] })
            (deepen depth current w)
            current
            todo
    unfolding visit nat_key
    visit-Knows other = record {
      at_source = ground (arith, k.at_source, contains-set_insert source w s.visited);
      source_depth = ground (arith, k.source_depth, k.at_source, new);
      ahead = ground (arith, k.ahead, other, contains-set_insert destination w s.visited);
      trails = visit-Trail_all;
      short = visit_short;
      keyed = λ v e. ground (
        arith,
        e,
        k.keyed v,
        lookup-put v w current s.previous,
        contains-set_insert v w s.visited,
      );
      queued = λ v e.
          ground (
            arith,
            e,
            k.queued v,
            contains-append v w s.pending,
            contains-set_insert v w s.visited,
          );
      ascending =
          Ascending-append (deepen depth current w) s.pending w
            (λ v e. ground (arith, e, new, k.queued v, c.limit v))
            (Ascending-same depth (deepen depth current w) s.pending
              (λ v e. ground (arith, e, new, k.queued v)) k.ascending);
      behind = λ v u e q. ground (
        arith,
        e,
        q,
        new,
        k.queued u,
        k.behind v u,
        c.near u,
        c.limit v,
        contains-append u w s.pending,
        contains-set_insert v w s.visited,
      );
      closed = λ v x e u. ground (
        arith,
        e,
        u,
        new,
        k.closed v x,
        c.limit v,
        c.seen,
        contains-append v w s.pending,
        contains-cons x w todo,
        contains-set_insert v w s.visited,
        contains-set_insert x w s.visited,
      );
    }

    visit-IsCurrent :
        IsCurrent
          (record (visit current w s) { pending = s.pending ++ w ∷ [] })
          (deepen depth current w)
          current
    unfolding visit
    visit-IsCurrent = record {
      seen = ground (arith, c.seen, contains-set_insert current w s.visited);
      near = λ v e.
          ground (arith, e, new, c.seen, c.near v, k.queued v, contains-append v w s.pending);
      limit = λ v e. ground (arith, e, new, c.seen, c.limit v, contains-set_insert v w s.visited);
    }

    visit_room :
        length (s.pending ++ w ∷ []) + unseen g.nodes (visit current w s).visited
        ≤ length s.pending + unseen g.nodes s.visited
    unfolding visit usable
    visit_room =
        let there : is_some (lookup w g.nodes) ≡ true = ground (arith, link) in
        omega
          (arith, length-append s.pending (w ∷ []), unseen-set_insert g.nodes w s.visited there new)

  -- What the loop over the neighbors comes to: the trail of the destination, one hop longer than that of
  -- `current`, or a search that goes on, with no more left to look at.
  abbrev pub Looked : (room : ℕ) → (depth : ℕ) → Scan → Type 0
  Looked room d (found previous) =
      Trail g minimum source previous destination (suc d) × (suc d ≤ length previous)
  Looked room d (scanned t) =
      (depth : DeviceId → ℕ) × (current : DeviceId) × Knows t depth current []
      × (length t.pending + unseen g.nodes t.visited ≤ room)

  pub scan-Looked :
      (todo : List DeviceId) (s : Search) (depth : DeviceId → ℕ) (current room : ℕ)
      → Knows s depth current todo
      → IsCurrent s depth current
      → ((w : DeviceId) → contains w todo ≡ true → usable g minimum current w ≡ true)
      → length s.pending + unseen g.nodes s.visited ≤ room
      → Looked room (depth current) (scan destination current todo s)
  unfolding scan
  scan-Looked [] s depth current room k c links fits = (depth, current, k, fits)
  scan-Looked (w ∷ todo) s depth current room k c links fits =
      let link = links w (ground (arith, contains-cons w w todo)) in
      let others = λ (x : DeviceId) (e : contains x todo ≡ true).
        links x (ground (arith, e, contains-cons x w todo)) in
      elim (Bool-cases (contains w s.visited)) [
        | inl old ↦
            rw (scan, old)
              (scan-Looked todo s depth current room (skip-Knows s depth current w todo k c old) c
                others fits)
        | inr new ↦ elim (Bool-cases (w == destination)) [
          | inl here ↦
              let same : w ≡ destination = ground (arith, here) in
              let trail = visit-Trail s depth current w todo k c new link in
              rw (scan, new, here)
                (
                  subst
                      (λ x.
                        Trail g minimum source (visit current w s).previous x (suc (depth current)))
                      same trail,
                  visit_long s depth current w todo k c new link,
                )
          | inr other ↦
              let same : deepen depth current w current ≡ depth current =
                ground (arith, c.seen, new) in
              let later =
                scan-Looked todo (record (visit current w s) { pending = s.pending ++ w ∷ [] })
                  (deepen depth current w) current room
                  (visit-Knows s depth current w todo k c new link other)
                  (visit-IsCurrent s depth current w todo k c new link) others
                  (omega (arith, visit_room s depth current w todo k c new link)) in
              rw (scan, new, other)
                (subst
                  (λ d. Looked room d (
                    scan destination current todo
                      (record (visit current w s) { pending = s.pending ++ w ∷ [] })))
                  same later)
        ]
      ]

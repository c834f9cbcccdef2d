-- ===== src/Mesh/Manager/Rules.antt =====
-- What holds of every way through a join request holds of the request.
use hart_link.Common.{
  ℕ, ◌≡◌, arith, inl, inr, Bool, true, false, ◌&&◌, Bool-cases, Option-cases, some, List, ◌==◌,
  Result, ok,
}
use hart_link.Common.Maps.{nat_key, is_some, lookup, contains}
use hart_link.Mesh.Graph.{NodeState, get_node}
use hart_link.Mesh.Manager.{
  JoinRequest, JoinDecision, not_allowed, wrong_network, authentication_failed, MeshManagerError,
  MeshManager, rejoin, admit, apply_join, join_authenticated,
}

module _ (m : MeshManager) (request : JoinRequest)
    (P : Result MeshManagerError JoinDecision × MeshManager → Type 0) where
  pub apply_join_rule :
      (request.network == m.network) ≡ true
      → contains request.device m.allowlist ≡ true
      → is_some (lookup request.device m.join_keys) ≡ true
      → ((node : NodeState)
          → lookup request.device m.graph.nodes ≡ some node
          → node.active ≡ true
          → P (rejoin m request node))
      → P (admit m request)
      → P (apply_join m request)
  unfolding apply_join get_node rejoin
  apply_join_rule home listed keyed again first =
      elim (Option-cases (lookup request.device m.graph.nodes)) [
        | inl absent ↦ rw (apply_join, home, listed, keyed, absent) first
        | inr (node, e) ↦ elim (Bool-cases node.active) [
          | inl running ↦ rw (apply_join, home, listed, keyed, e, running) (again node e running)
          | inr idle ↦ rw (apply_join, home, listed, keyed, e, idle) first
        ]
      ]

  pub join_authenticated_rule :
      (authenticate : JoinRequest → List ℕ → Bool)
      → ((request.network == m.network) ≡ false → P (ok wrong_network, m))
      → ((request.network == m.network) ≡ true
          → (contains request.device m.allowlist && is_some (lookup request.device m.join_keys))
            ≡ false
          → P (ok not_allowed, m))
      → ((key : List ℕ)
          → lookup request.device m.join_keys ≡ some key
          → authenticate request key ≡ false
          → P (ok authentication_failed, m))
      → ((key : List ℕ)
          → lookup request.device m.join_keys ≡ some key
          → authenticate request key ≡ true
          → (request.network == m.network) ≡ true
          → contains request.device m.allowlist ≡ true
          → P (apply_join m request))
      → P (join_authenticated authenticate m request)
  unfolding join_authenticated
  join_authenticated_rule authenticate away stranger forged passed =
      elim (Bool-cases (request.network == m.network)) [
        | inr n ↦ rw (join_authenticated, n) (away n)
        | inl home ↦ elim (Option-cases (lookup request.device m.join_keys)) [
          | inl keyless ↦
              rw (join_authenticated, home, keyless) (stranger home (ground (arith, keyless)))
          | inr (key, k) ↦ elim (Bool-cases (contains request.device m.allowlist)) [
            | inr unlisted ↦
                rw (join_authenticated, home, k, unlisted)
                  (stranger home (ground (arith, unlisted)))
            | inl listed ↦ elim (Bool-cases (authenticate request key)) [
              | inr bad ↦ rw (join_authenticated, home, k, listed, bad) (forged key k bad)
              | inl good ↦
                  rw (join_authenticated, home, k, listed, good) (passed key k good home listed)
            ]
          ]
        ]
      ]

-- ===== src/Ngac/Invariant/Nodes.antt =====
-- The invariant under changes of the nodes.
use xolo_api.Base.{
  String, ◌≡◌, refl, ◌∙◌, Bool, true, false, not, ◌&&◌, ◌||◌, [], ◌∷◌, ◌++◌, some, elem, ◌==◌,
  arith, eq_iff, Option-cases, Bool-cases, inl, inr, and_left, and_right,
}
use xolo_api.Platform.Collections.{
  delete_first, replace_first, delete_all, All-map, All-filter, find_first-append,
  find_first-delete_first, find_first-replace_first, find_first-replace_self,
}
use xolo_api.World.{Database}
use xolo_api.Ngac.Types.{Node, Assignment, Association}
use xolo_api.Ngac.Repository.{is_node, assignment_touches, association_touches}
use xolo_api.Ngac.Invariant.Edges.{IsAcyclic-edges-filter}
use xolo_api.Ngac.Invariant.{
  node_at, both, may_assign, may_associate, IsPlaced, IsJoined, IsWellFormed,
}

-- the node at this place, if any, keeps its type
abbrev pub Persists : Database → Database → String → String → Type 0
Persists db db' account_id node_id =
    (n : Node)
    → node_at db account_id node_id ≡ some n
    → (m : Node) × (node_at db' account_id node_id ≡ some m) × (m.node_type ≡ n.node_type)

module _ (db db' : Database) where
  both_persist :
      (p : Node → Node → Bool) (account_id u v : String)
      → ((a b c d : Node) → c.node_type ≡ a.node_type → d.node_type ≡ b.node_type → p a b ≡ p c d)
      → Persists db db' account_id u
      → Persists db db' account_id v
      → both p (node_at db account_id u) (node_at db account_id v) ≡ true
      → both p (node_at db' account_id u) (node_at db' account_id v) ≡ true
  both_persist p account_id u v by_type pu pv h = elim (Option-cases (node_at db account_id u)) [
    | inl absent ↦ absurd (cc (rw absent at h))
    | inr (n, en) ↦ elim (Option-cases (node_at db account_id v)) [
      | inl absent ↦ absurd (cc (rw (en, absent) at h))
      | inr (m, em) ↦
          let (n', en', tn) = pu n en in
          let (m', em', tm) = pv m em in rw (en', em') (rw (en, em, by_type n m n' m' tn tm) at h)
    ]
  ]

  pub IsPlaced-persist :
      (a : Assignment)
      → Persists db db' a.account_id a.from_id
      → Persists db db' a.account_id a.to_id
      → IsPlaced db a
      → IsPlaced db' a
  IsPlaced-persist a =
      both_persist may_assign a.account_id a.from_id a.to_id λ n m n' m' tn tm. rw (tn, tm)

  pub IsJoined-persist :
      (s : Association)
      → Persists db db' s.account_id s.user_attribute_id
      → Persists db db' s.account_id s.object_attribute_id
      → IsJoined db s
      → IsJoined db' s
  IsJoined-persist s =
      both_persist may_associate s.account_id s.user_attribute_id s.object_attribute_id
        λ n m n' m' tn tm. rw (tn, tm)

  -- If every node keeps its place and type, the graph stays well formed.
  pub IsWellFormed-persist :
      db'.assignments ≡ db.assignments
      → db'.associations ≡ db.associations
      → ((account_id node_id : String) → Persists db db' account_id node_id)
      → IsWellFormed db
      → IsWellFormed db'
  IsWellFormed-persist ea es keeps h = record {
    placed = rw ea (
        All-map (IsPlaced db) (IsPlaced db') db.assignments
          (λ a. IsPlaced-persist a (keeps _ _) (keeps _ _)) h.placed);
    joined = rw es (
        All-map (IsJoined db) (IsJoined db') db.associations
          (λ s. IsJoined-persist s (keeps _ _) (keeps _ _)) h.joined);
    acyclic = λ account_id. rw ea (h.acyclic account_id);
  }

abbrev pub with_node : Node → Database → Database
with_node node db = record db { nodes = db.nodes ++ node ∷ [] }

pub IsWellFormed-with_node :
    (node : Node) (db : Database) → IsWellFormed db → IsWellFormed (with_node node db)
IsWellFormed-with_node node db =
    IsWellFormed-persist db (with_node node db) refl refl λ account_id node_id n e.
      (n, find_first-append (is_node account_id node_id) n db.nodes (node ∷ []) e, refl)

abbrev pub replace_node : Node → Database → Database
replace_node node db = record db {
  nodes = replace_first (is_node node.account_id node.node_id) node db.nodes;
}

-- two places are one, or no node is at both
apart_places :
    (a i b j : String)
    → (a == b && i == j) ≡ false
    → (n : Node) → is_node a i n ≡ true
    → is_node b j n ≡ false
apart_places a i b j differ n here = ground (
  arith,
  eq_iff n.account_id a,
  eq_iff n.account_id b,
  eq_iff n.node_id i,
  eq_iff n.node_id j,
  eq_iff a b,
  eq_iff i j,
)

pub IsWellFormed-replace_node :
    (old node : Node) (db : Database)
    → node_at db node.account_id node.node_id ≡ some old
    → node.node_type ≡ old.node_type
    → IsWellFormed db
    → IsWellFormed (replace_node node db)
IsWellFormed-replace_node old node db there same_kind =
    IsWellFormed-persist db (replace_node node db) refl refl λ account_id node_id n e.
      elim (Bool-cases (account_id == node.account_id && node_id == node.node_id)) [
        | inl same ↦
            let ea =
              (eq_iff account_id node.account_id).0 (and_left _ (node_id == node.node_id) same) in
            let ei =
              (eq_iff node_id node.node_id).0 (and_right (account_id == node.account_id) _ same) in
            (
              node,
              rw (ea, ei)
                  (find_first-replace_self (is_node node.account_id node.node_id) old node db.nodes
                    there
                    (ground (
                      arith,
                      eq_iff node.account_id node.account_id,
                      eq_iff node.node_id node.node_id,
                    ))),
              cc (ea, ei, e, there, same_kind),
            )
        | inr other ↦ (
          n,
          find_first-replace_first (is_node account_id node_id)
                (is_node node.account_id node.node_id)
                (apart_places account_id node_id node.account_id node.node_id other) node db.nodes
                (ground (
                  arith,
                  other,
                  eq_iff node.account_id account_id,
                  eq_iff account_id node.account_id,
                  eq_iff node.node_id node_id,
                  eq_iff node_id node.node_id,
                ))
              ∙ e,
          refl,
        )
      ]

-- A node goes, and with it every edge of its account that touches it.
abbrev pub without_node : String → String → Database → Database
without_node account_id node_id db = record db {
  nodes = delete_first (is_node account_id node_id) db.nodes;
  assignments = delete_all (assignment_touches account_id (node_id ∷ [])) db.assignments;
  associations = delete_all (association_touches account_id (node_id ∷ [])) db.associations;
}

module _ (account_id node_id : String) (db : Database) where
  Persists-elsewhere :
      (b j : String)
      → (b == account_id && node_id == j) ≡ false
      → Persists db (without_node account_id node_id db) b j
  Persists-elsewhere b j other n e = (
    n,
    find_first-delete_first (is_node b j) (is_node account_id node_id)
          (apart_places b j account_id node_id
            (ground (arith, other, eq_iff node_id j, eq_iff j node_id)))
          db.nodes
        ∙ e,
    refl,
  )

  kept_apart :
      (b u v : String)
      → not (b == account_id && (elem u (node_id ∷ []) || elem v (node_id ∷ []))) ≡ true
      → ((b == account_id && node_id == u) ≡ false) × ((b == account_id && node_id == v) ≡ false)
  kept_apart b u v h = ground arith

  pub IsWellFormed-without_node :
      IsWellFormed db → IsWellFormed (without_node account_id node_id db)
  IsWellFormed-without_node h = record {
    placed =
        All-filter (IsPlaced db) (IsPlaced db') _ db.assignments
          (λ a keep p.
            let (ku, kv) = kept_apart a.account_id a.from_id a.to_id keep in
            IsPlaced-persist db db' a (Persists-elsewhere _ _ ku) (Persists-elsewhere _ _ kv) p)
          h.placed;
    joined =
        All-filter (IsJoined db) (IsJoined db') _ db.associations
          (λ s keep p.
            let (ku, kv) = kept_apart s.account_id s.user_attribute_id s.object_attribute_id keep in
            IsJoined-persist db db' s (Persists-elsewhere _ _ ku) (Persists-elsewhere _ _ kv) p)
          h.joined;
    acyclic = λ b.
        IsAcyclic-edges-filter (λ a. not (assignment_touches account_id (node_id ∷ []) a))
          db.assignments b (h.acyclic b);
  }
    where
      db' : Database
      db' = without_node account_id node_id db

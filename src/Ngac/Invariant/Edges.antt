-- ===== src/Ngac/Invariant/Edges.antt =====
-- The invariant under changes of the edges.
use xolo_api.Base.{
  String, ◌≡◌, Bool, true, false, List, [], ◌∷◌, ◌++◌, filter, arith, eq_iff, Bool-cases, inl, inr,
}
use xolo_api.Platform.Collections.{
  delete_first, replace_first, All-append, All-delete_first, All-replace_first,
}
use xolo_api.World.{Database}
use xolo_api.Traversal.Reach.{Reach, IsAcyclic, IsAcyclic-mono, with_edge, IsAcyclic-with_edge}
use xolo_api.Ngac.Types.{Assignment, Association}
use xolo_api.Ngac.Invariant.{IsPlaced, IsJoined, of_account, edges, IsWellFormed}

edges-filter :
    (p : Assignment → Bool) (assignments : List Assignment) (account_id u v : String)
    → edges (filter p assignments) account_id u v ≡ true
    → edges assignments account_id u v ≡ true
edges-filter p [] account_id u v h = h
edges-filter p (a ∷ rest) account_id u v h = ground (arith, edges-filter p rest account_id u v)

pub IsAcyclic-edges-filter :
    (p : Assignment → Bool) (assignments : List Assignment) (account_id : String)
    → IsAcyclic (edges assignments account_id)
    → IsAcyclic (edges (filter p assignments) account_id)
IsAcyclic-edges-filter p assignments account_id =
    IsAcyclic-mono _ _ (edges-filter p assignments account_id)

edges-delete_first :
    (p : Assignment → Bool) (assignments : List Assignment) (account_id u v : String)
    → edges (delete_first p assignments) account_id u v ≡ true
    → edges assignments account_id u v ≡ true
edges-delete_first p [] account_id u v h = h
edges-delete_first p (a ∷ rest) account_id u v h =
    ground (arith, edges-delete_first p rest account_id u v)

-- an edge of the extended list is old, or the new one
edges-append :
    (assignments : List Assignment) (a : Assignment) (account_id u v : String)
    → edges (assignments ++ a ∷ []) account_id u v ≡ true
    → with_edge (edges assignments account_id) a.from_id a.to_id u v ≡ true
edges-append [] a account_id u v h = ground arith
edges-append (b ∷ rest) a account_id u v h = ground (arith, edges-append rest a account_id u v)

-- an assignment of another account adds no edge
edges-append_other :
    (assignments : List Assignment) (a : Assignment) (account_id u v : String)
    → of_account account_id a ≡ false
    → edges (assignments ++ a ∷ []) account_id u v ≡ true
    → edges assignments account_id u v ≡ true
edges-append_other [] a account_id u v other h = ground arith
edges-append_other (b ∷ rest) a account_id u v other h =
    ground (arith, edges-append_other rest a account_id u v)

abbrev pub with_assignment : Assignment → Database → Database
with_assignment a db = record db { assignments = db.assignments ++ a ∷ [] }

-- A placed assignment whose source cannot be reached from its target keeps the graph well formed.
pub IsWellFormed-with_assignment :
    (a : Assignment) (db : Database)
    → IsPlaced db a
    → ¬ Reach (edges db.assignments a.account_id) (a.to_id ∷ []) a.from_id
    → IsWellFormed db
    → IsWellFormed (with_assignment a db)
IsWellFormed-with_assignment a db placed apart h = record {
  placed = All-append (IsPlaced db) db.assignments (a ∷ []) h.placed (placed, tt);
  joined = h.joined;
  acyclic = λ account_id. elim (Bool-cases (of_account account_id a)) [
    | inl mine ↦
        let same = (eq_iff a.account_id account_id).0 mine in
        IsAcyclic-mono _ _ (edges-append db.assignments a account_id) (
          IsAcyclic-with_edge (edges db.assignments account_id) a.from_id a.to_id
            (h.acyclic account_id) (rw same at apart))
    | inr other ↦
        IsAcyclic-mono _ _ (λ u v. edges-append_other db.assignments a account_id u v other)
          (h.acyclic account_id)
  ];
}

abbrev pub without_assignment : (Assignment → Bool) → Database → Database
without_assignment p db = record db { assignments = delete_first p db.assignments }

pub IsWellFormed-without_assignment :
    (p : Assignment → Bool) (db : Database)
    → IsWellFormed db
    → IsWellFormed (without_assignment p db)
IsWellFormed-without_assignment p db h = record {
  placed = All-delete_first (IsPlaced db) p db.assignments h.placed;
  joined = h.joined;
  acyclic = λ account_id.
      IsAcyclic-mono _ _ (edges-delete_first p db.assignments account_id) (h.acyclic account_id);
}

abbrev pub with_association : Association → Database → Database
with_association s db = record db { associations = db.associations ++ s ∷ [] }

pub IsWellFormed-with_association :
    (s : Association) (db : Database)
    → IsJoined db s
    → IsWellFormed db
    → IsWellFormed (with_association s db)
IsWellFormed-with_association s db joined h = record {
  placed = h.placed;
  joined = All-append (IsJoined db) db.associations (s ∷ []) h.joined (joined, tt);
  acyclic = h.acyclic;
}

abbrev pub without_association : (Association → Bool) → Database → Database
without_association p db = record db { associations = delete_first p db.associations }

pub IsWellFormed-without_association :
    (p : Association → Bool) (db : Database)
    → IsWellFormed db
    → IsWellFormed (without_association p db)
IsWellFormed-without_association p db h = record {
  placed = h.placed;
  joined = All-delete_first (IsJoined db) p db.associations h.joined;
  acyclic = h.acyclic;
}

abbrev pub replace_association : (Association → Bool) → Association → Database → Database
replace_association p s db = record db { associations = replace_first p s db.associations }

pub IsWellFormed-replace_association :
    (p : Association → Bool) (s : Association) (db : Database)
    → IsJoined db s
    → IsWellFormed db
    → IsWellFormed (replace_association p s db)
IsWellFormed-replace_association p s db joined h = record {
  placed = h.placed;
  joined = All-replace_first (IsJoined db) p s db.associations (λ _ _ _. joined) h.joined;
  acyclic = h.acyclic;
}

-- ===== src/Rbac/Hierarchy/Walks.antt =====
-- The two loops over the hierarchy, held against the generic walk.
use xolo_api.Base.{
  String, ℕ, zero, suc, ◌+◌, ◌≡◌, refl, ap, sym, ◌∙◌, ◌↔◌, inl, inr, Bool, true, false, not, ◌||◌,
  List, [], ◌∷◌, ◌++◌, map, filter, any, any-elim, any-intro, elem, length, elem-append,
  elem-filter, none, some, ◌==◌, Dict, lookup, arith, eq_iff, Bool-cases, Option-cases,
}
use native.Mathlib.Nat.{le_refl}
use xolo_api.Traversal.Graph.{targets}
use xolo_api.Traversal.Loop.{walk, pending}
use xolo_api.Traversal.Reach.{Reach}
use xolo_api.Traversal.Correct.{
  edge, push_all, push_new, push_all-IsPush, push_new-IsPush, walk_decides,
}
use xolo_api.Rbac.Types.{Role}
use xolo_api.Rbac.Hierarchy.{
  parents, join, resolve, resolve_effective_permissions, seek, would_create_cycle,
}

append-nil : {A : Type 0} (xs : List A) → xs ++ [] ≡ xs
append-nil [] = refl
append-nil (x ∷ xs) = ap (λ t. x ∷ t) (append-nil xs)

-- `role.parent_role_ids` of the role, or nothing
targets-none : (d : Dict Role) (k : String) → lookup k d ≡ none → targets (parents d) k ≡ []
targets-none [] k h = refl
targets-none ((j, r) ∷ d) k h = ground (arith, targets-none d k)

targets-some :
    (d : Dict Role) (k : String) (r : Role)
    → lookup k d ≡ some r
    → targets (parents d) k ≡ r.parent_role_ids
targets-some [] k r h = absurd (cc h)
targets-some ((j, s) ∷ d) k r h = ground (arith, targets-some d k r)

module _ (push : List String → String → List String) where
  -- what was visited stays visited
  walk_keeps :
      (n : ℕ) (visited queue w : List String) (v : String)
      → walk push n visited queue ≡ some w
      → elem v visited ≡ true
      → elem v w ≡ true
  unfolding walk
  walk_keeps zero visited [] w v e m = ground arith
  walk_keeps zero visited (cur ∷ queue) w v e m = absurd (cc e)
  walk_keeps (suc n) visited [] w v e m = ground arith
  walk_keeps (suc n) visited (cur ∷ queue) w v e m = elim (Bool-cases (elem cur visited)) [
    | inl seen ↦ walk_keeps n visited queue w v (rw (seen, walk) at e) m
    | inr new ↦
        walk_keeps n (cur ∷ visited) (queue ++ push (cur ∷ visited) cur) w v (rw (new, walk) at e)
          (ground (arith, m))
  ]

  -- so is what was queued
  walk_takes :
      (n : ℕ) (visited : List String) (cur : String) (queue w : List String)
      → walk push n visited (cur ∷ queue) ≡ some w
      → elem cur w ≡ true
  unfolding walk
  walk_takes zero visited cur queue w e = absurd (cc e)
  walk_takes (suc n) visited cur queue w e = elim (Bool-cases (elem cur visited)) [
    | inl seen ↦ walk_keeps n visited queue w cur (rw (seen, walk) at e) seen
    | inr new ↦
        walk_keeps n (cur ∷ visited) (queue ++ push (cur ∷ visited) cur) w cur (rw (new, walk) at e)
          (ground (arith, eq_iff cur cur))
  ]

-- The search answers whether the walk visits the role.
seek-walk :
    (d : Dict Role) (role_id : String) (n : ℕ) (visited queue w : List String)
    → elem role_id visited ≡ false
    → walk (push_all (parents d)) n visited queue ≡ some w
    → seek d role_id n visited queue ≡ some (elem role_id w)
unfolding walk seek
seek-walk d role_id zero visited [] w h e = ground arith
seek-walk d role_id zero visited (cur ∷ queue) w h e = absurd (cc e)
seek-walk d role_id (suc n) visited [] w h e = ground arith
seek-walk d role_id (suc n) visited (cur ∷ queue) w h e = elim (Bool-cases (cur == role_id)) [
  | inl found ↦
      rw (seek, found)
        (ap some (
          sym (
            rw ((eq_iff cur role_id).0 found) at
              (walk_takes (push_all (parents d)) (suc n) visited cur queue w e))))
  | inr other ↦ elim (Bool-cases (elem cur visited)) [
    | inl seen ↦
        rw (seek, other, seen) (seek-walk d role_id n visited queue w h (rw (seen, walk) at e))
    | inr new ↦ elim (Option-cases (lookup cur d)) [
      | inl nowhere ↦
          rw (seek, other, new, nowhere)
            (seek-walk d role_id n (cur ∷ visited) queue w (ground (arith, other, h))
              (rw (new, walk, targets-none d cur nowhere, append-nil queue) at e))
      | inr (role, found) ↦
          rw (seek, other, new, found)
            (seek-walk d role_id n (cur ∷ visited) (queue ++ role.parent_role_ids) w
              (ground (arith, other, h)) (rw (new, walk, targets-some d cur role found) at e))
    ]
  ]
]

-- `would_create_cycle` answers true exactly when a chain of parents leads from the new parent to
-- the role, whatever the hierarchy holds: also roles that do not exist, and cycles.
pub would_create_cycle_iff :
    (role_id new_parent_id : String) (all_roles : Dict Role)
    → (would_create_cycle role_id new_parent_id all_roles ≡ true)
      ↔ Reach (edge (parents all_roles)) (new_parent_id ∷ []) role_id
unfolding would_create_cycle
would_create_cycle_iff role_id new_parent_id all_roles =
    let d = parents all_roles in
    let fuel = length (new_parent_id ∷ []) + pending [] d in
    let (w, ends, decides) =
      walk_decides d (new_parent_id ∷ []) (push_all d) (push_all-IsPush d) fuel (le_refl _) in
    rw (would_create_cycle, seek-walk all_roles role_id fuel [] (new_parent_id ∷ []) w refl ends)
      (decides role_id)

-- the permissions of one role, and of several
abbrev pub permissions_of : Dict Role → String → List String
permissions_of d k = elim (lookup k d) [ none ↦ [] | some role ↦ role.permissions ]

abbrev pub carried : Dict Role → String → List String → Bool
carried d p names = any (λ k. elem p (permissions_of d k)) names

permissions_none : (d : Dict Role) (k : String) → lookup k d ≡ none → permissions_of d k ≡ []
permissions_none d k h = rw (permissions_of, h) refl

permissions_some :
    (d : Dict Role) (k : String) (role : Role)
    → lookup k d ≡ some role
    → permissions_of d k ≡ role.permissions
permissions_some d k role h = rw (permissions_of, h) refl

elem-join : (p : String) (xs ys : List String) → elem p (join xs ys) ≡ (elem p xs || elem p ys)
elem-join p xs ys = ground (
  arith,
  elem-append p (filter (λ q. not (elem q ys)) xs) ys,
  elem-filter p (λ q. not (elem q ys)) xs,
)

-- The loop collects what the visited roles carry.
resolve-walk :
    (d : Dict Role) (n : ℕ) (visited result queue w : List String)
    → ((p : String) → elem p result ≡ carried d p visited)
    → walk (push_new (parents d)) n visited queue ≡ some w
    → (r : List String) × (resolve d n visited result queue ≡ some r)
      × ((p : String) → elem p r ≡ carried d p w)
unfolding walk resolve
resolve-walk d zero visited result [] w h e =
    (result, refl, λ p. h p ∙ ap (carried d p) (ground (arith, e)))
resolve-walk d zero visited result (cur ∷ queue) w h e = absurd (cc e)
resolve-walk d (suc n) visited result [] w h e =
    (result, refl, λ p. h p ∙ ap (carried d p) (ground (arith, e)))
resolve-walk d (suc n) visited result (cur ∷ queue) w h e = elim (Bool-cases (elem cur visited)) [
  | inl seen ↦
      let (r, ends, is) = resolve-walk d n visited result queue w h (rw (seen, walk) at e) in
      (r, rw (resolve, seen) ends, is)
  | inr new ↦ elim (Option-cases (lookup cur d)) [
    | inl nowhere ↦
        let (r, ends, is) =
          resolve-walk d n (cur ∷ visited) result queue w
            (λ p. h p ∙ rw (permissions_none d cur nowhere) refl)
            (rw (new, walk, targets-none d cur nowhere, append-nil queue) at e) in
        (r, rw (resolve, new, nowhere) ends, is)
    | inr (role, found) ↦
        let (r, ends, is) =
          resolve-walk d n (cur ∷ visited) (join result role.permissions)
            (queue ++ filter (λ pid. not (elem pid (cur ∷ visited))) role.parent_role_ids) w
            (λ p.
              elem-join p result role.permissions
              ∙ rw (permissions_some d cur role found, h p) (ground arith))
            (rw (new, walk, targets-some d cur role found) at e) in
        (r, rw (resolve, new, found) ends, is)
  ]
]

-- A permission is effective exactly when one of the roles, or a role that a chain of parents leads
-- to from one of them, carries it, whatever cycles the hierarchy has.
pub resolve_effective_permissions_iff :
    (roles : List Role) (all_roles : Dict Role) (p : String)
    → (elem p (resolve_effective_permissions roles all_roles) ≡ true) ↔ (
        (k : String) × Reach (edge (parents all_roles)) (map (λ r. r.role_id) roles) k
        × (elem p (permissions_of all_roles k) ≡ true))
unfolding resolve_effective_permissions
resolve_effective_permissions_iff roles all_roles p =
    let d = parents all_roles in
    let queue = map (λ r. r.role_id) roles in
    let fuel = length queue + pending [] d in
    let (w, ends, decides) =
      walk_decides d queue (push_new d) (push_new-IsPush d) fuel (le_refl _) in
    let (r, stops, is) = resolve-walk all_roles fuel [] [] queue w (λ q. refl) ends in
    rw (resolve_effective_permissions, stops)
      (
        (λ m.
            let (k, visited, carries) =
              any-elim (λ k. elem p (permissions_of all_roles k)) w (sym (is p) ∙ m) in
            (k, (decides k).0 visited, carries)),
        (λ (k, reached, carries).
            is p
            ∙ any-intro (λ k. elem p (permissions_of all_roles k)) k w ((decides k).1 reached)
                carries),
      )

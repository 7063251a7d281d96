-- ===== src/Traversal/Correct.antt =====
-- The visited set of a loop is the set of names that its first queue leads to.
use xolo_api.Base.{
  String, ℕ, zero, suc, ◌+◌, ◌≤◌, ◌≡◌, refl, ◌↔◌, inl, inr, Bool, true, not, ◌||◌, List, [], ◌∷◌,
  ◌++◌, some, elem, filter, length, length-filter, elem-filter, elem-append, ◌==◌, arith, eq_iff,
  Bool-cases,
}
use xolo_api.Traversal.Graph.{Adjacency, targets}
use xolo_api.Traversal.Reach.{Reach, here, step}
use xolo_api.Traversal.Loop.{walk, pending, walk_total}

-- `v in d.get(u, ())`
abbrev pub edge : Adjacency → String → String → Bool
edge d u v = elem v (targets d u)

-- What a loop body may queue after it has visited a name: only its targets, and all of those that
-- have not been visited.
pub record IsPush (d : Adjacency) (push : List String → String → List String) : Type 0 where
  pub few : (visited : List String) (k : String) → length (push visited k) ≤ length (targets d k)
  pub only :
      (visited : List String) (k v : String) → elem v (push visited k) ≡ true → edge d k v ≡ true
  pub rest :
      (visited : List String) (k v : String)
      → edge d k v ≡ true
      → (elem v visited || elem v (push visited k)) ≡ true

-- a body that queues every target
abbrev pub push_all : Adjacency → List String → String → List String
push_all d visited k = targets d k

-- a body that queues the targets that are not in the visited set
abbrev pub push_new : Adjacency → List String → String → List String
push_new d visited k = filter (λ v. not (elem v visited)) (targets d k)

pub push_all-IsPush : (d : Adjacency) → IsPush d (push_all d)
push_all-IsPush d = record {
  few = λ visited k. omega arith;
  only = λ visited k v h. h;
  rest = λ visited k v h. ground arith;
}

pub push_new-IsPush : (d : Adjacency) → IsPush d (push_new d)
push_new-IsPush d = record {
  few = λ visited k. length-filter _ (targets d k);
  only = λ visited k v h. ground (arith, elem-filter v (λ x. not (elem x visited)) (targets d k));
  rest = λ visited k v h. ground (arith, elem-filter v (λ x. not (elem x visited)) (targets d k));
}

module _ (d : Adjacency) (roots : List String) where
  record Inv (visited queue : List String) : Type 0 where
    sound : (v : String) → (elem v visited || elem v queue) ≡ true → Reach (edge d) roots v
    source : (v : String) → elem v roots ≡ true → (elem v visited || elem v queue) ≡ true
    closed :
        (u v : String)
        → elem u visited ≡ true
        → edge d u v ≡ true
        → (elem v visited || elem v queue) ≡ true

  Inv-start : Inv [] roots
  Inv-start = record { sound = λ v h. here h; source = λ v h. h; closed = λ u v h s. cc }

  -- a name that was visited before is dropped
  Inv-skip :
      (cur : String) (visited queue : List String)
      → elem cur visited ≡ true
      → Inv visited (cur ∷ queue)
      → Inv visited queue
  Inv-skip cur visited queue seen h = record {
    sound = λ v m. h.sound v (ground arith);
    source = λ v m. ground (arith, h.source v m, eq_iff cur v);
    closed = λ u v m s. ground (arith, h.closed u v m s, eq_iff cur v);
  }

  module _ (push : List String → String → List String) (law : IsPush d push) where
    queued_sound :
        (cur : String) (visited queue : List String) (v : String)
        → Inv visited (cur ∷ queue)
        → elem v (push (cur ∷ visited) cur) ≡ true
        → Reach (edge d) roots v
    queued_sound cur visited queue v h m =
        step (h.sound cur (ground (arith, eq_refl_at cur))) (law.only (cur ∷ visited) cur v m)
      where
        eq_refl_at : (s : String) → (s == s) ≡ true
        eq_refl_at s = (eq_iff s s).1 refl

    Inv-visit :
        (cur : String) (visited queue : List String)
        → Inv visited (cur ∷ queue)
        → Inv (cur ∷ visited) (queue ++ push (cur ∷ visited) cur)
    Inv-visit cur visited queue h = record {
      sound = λ v m. elim (Bool-cases (elem v (push (cur ∷ visited) cur))) [
        | inl new ↦ queued_sound cur visited queue v h new
        | inr old ↦ h.sound v (ground (arith, elem-append v queue (push (cur ∷ visited) cur)))
      ];
      source = λ v m. ground (arith, h.source v m, elem-append v queue (push (cur ∷ visited) cur));
      closed = λ u v m s. elim (Bool-cases (cur == u)) [
        | inl same ↦
            let moved : edge d cur v ≡ true = rw ((eq_iff cur u).0 same) s in
            ground (
              arith,
              law.rest (cur ∷ visited) cur v moved,
              elem-append v queue (push (cur ∷ visited) cur),
            )
        | inr other ↦ ground (arith, h.closed u v, elem-append v queue (push (cur ∷ visited) cur))
      ];
    }

    -- The invariant holds at the end, where the queue is empty.
    walk_rule :
        (n : ℕ) (visited queue w : List String)
        → Inv visited queue
        → walk push n visited queue ≡ some w
        → Inv w []
    unfolding walk
    walk_rule zero visited [] w h e = ground arith
    walk_rule zero visited (cur ∷ queue) w h e = cc
    walk_rule (suc n) visited [] w h e = ground arith
    walk_rule (suc n) visited (cur ∷ queue) w h e = elim (Bool-cases (elem cur visited)) [
      | inl seen ↦
          walk_rule n visited queue w (Inv-skip cur visited queue seen h) (rw (seen, walk) at e)
      | inr new ↦
          walk_rule n (cur ∷ visited) (queue ++ push (cur ∷ visited) cur) w
            (Inv-visit cur visited queue h) (rw (new, walk) at e)
    ]

    complete :
        (w : List String) → Inv w [] → {v : String} → Reach (edge d) roots v → elem v w ≡ true
    complete w h (here {v} m) = ground (arith, h.source v m)
    complete w h (step {u} {v} r s) = ground (arith, h.closed u v (complete w h r) s)

    -- From any fuel that covers the first queue and the edges of the dict, the loop ends with
    -- exactly the names that the queue leads to.
    pub walk_decides :
        (n : ℕ)
        → length roots + pending [] d ≤ n
        → (w : List String) × (walk push n [] roots ≡ some w)
          × ((v : String) → (elem v w ≡ true) ↔ Reach (edge d) roots v)
    walk_decides n enough =
        let (w, e) = walk_total d push law.few n [] roots enough in
        let inv = walk_rule n [] roots w Inv-start e in
        (w, e, λ v. (λ m. inv.sound v (ground arith), complete w inv))

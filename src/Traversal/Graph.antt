-- ===== src/Traversal/Graph.antt =====
-- A dict from a name to the names that it points at.
use xolo_api.Base.{String, List, [], ◌∷◌, ◌==◌, if◌then◌else◌}

-- in insertion order
abbrev pub Adjacency : Type 0
Adjacency = List (String × List String)

-- `d.get(k, ())`
abbrev pub targets : Adjacency → String → List String
targets [] k = []
targets ((j, ts) ∷ d) k = if j == k then ts else targets d k

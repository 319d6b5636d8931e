-- ===== src/Graph/Store/Walk.antt =====
-- The loop of `walk` of `Store` in offwork/graph/store.py, and reachability over its edges.
use offwork.Base.{
  ℕ, zero, suc, ◌+◌, ◌≤◌, ◌<◌, String, ◌≡◌, refl, ◌↔◌, inl, inr, Bool, true, false, ◌||◌, List, [],
  ◌∷◌, ◌++◌, reverse, arith, ◌==◌, contains, string_eq, contains-append, length, length-append,
  length-reverse, Bool-cases, if◌then◌else◌, ap, ==_refl, subst,
}
use offwork.Base.Dict.{Dict, lookup}
use offwork.Graph.Store.{Store, get_deps, walk_loop, edge_count, walk, or_empty}
use mathlib.Core.List.{reverse-append}

abbrev pub Edge : Store → String → String → Type 0
Edge s u v = contains (get_deps s u) v ≡ true

-- What a hash depends on, over any number of edges.
pub data Reach (s : Store) (root : String) : String → Type 0 where
  here : Reach s root root
  step : {u v : String} → Reach s root u → Edge s u v → Reach s root v

contains-reverse : (xs : List String) (a : String) → contains (reverse xs) a ≡ contains xs a
contains-reverse [] a = refl
contains-reverse (x ∷ xs) a =
    let split = ap (λ (l : List String). contains l a) (reverse-append (x ∷ []) xs) in
    ground (arith, split, contains-append (reverse xs) (x ∷ []) a, contains-reverse xs a)

-- The edges that the loop has still to push.
unfoldable pub unvisited_edges : List String → Dict String (List String) → ℕ
unvisited_edges visited [] = 0
unvisited_edges visited ((k, ds) ∷ d) =
    (if contains visited k then 0 else length ds) + unvisited_edges visited d

unvisited_edges-nil : (d : Dict String (List String)) → unvisited_edges [] d ≡ edge_count d
unfolding unvisited_edges edge_count
unvisited_edges-nil [] = refl
unvisited_edges-nil ((k, ds) ∷ d) = ap (λ (n : ℕ). length ds + n) (unvisited_edges-nil d)

unvisited_edges_mono :
    (visited : List String) (h : String) (d : Dict String (List String))
    → unvisited_edges (visited ++ h ∷ []) d ≤ unvisited_edges visited d
unfolding unvisited_edges
unvisited_edges_mono visited h [] = omega arith
unvisited_edges_mono visited h ((k, ds) ∷ d) =
    ground (arith, contains-append visited (h ∷ []) k, unvisited_edges_mono visited h d)

unvisited_edges-visit :
    (visited : List String) (h : String) (d : Dict String (List String))
    → contains visited h ≡ false
    → length (or_empty (lookup h d)) + unvisited_edges (visited ++ h ∷ []) d
      ≤ unvisited_edges visited d
unfolding unvisited_edges lookup
unvisited_edges-visit visited h [] new = omega arith
unvisited_edges-visit visited h ((k, ds) ∷ d) new = ground (
  arith,
  contains-append visited (h ∷ []) k,
  unvisited_edges_mono visited h d,
  unvisited_edges-visit visited h d,
)

-- A hash that the loop has met: visited, or waiting on the stack.
abbrev met : List String → List String → String → Bool
met visited stack v = contains visited v || contains stack v

record Inv (s : Store) (root : String) (visited stack : List String) : Type 0 where
  source : met visited stack root ≡ true
  sound : (v : String) → met visited stack v ≡ true → Reach s root v
  closed : (u v : String) → contains visited u ≡ true → Edge s u v → met visited stack v ≡ true

module _ (s : Store) (root : String) where
  Inv-skip :
      (visited stack : List String) (h : String)
      → contains visited h ≡ true
      → Inv s root visited (h ∷ stack)
      → Inv s root visited stack
  Inv-skip visited stack h seen i = record {
    source = ground (arith, i.source);
    sound = λ v m. i.sound v (ground arith);
    closed = λ u v m edge. ground (arith, i.closed u v m edge);
  }

  Inv-visit :
      (visited stack : List String) (h : String)
      → Inv s root visited (h ∷ stack)
      → Inv s root (visited ++ h ∷ []) (reverse (get_deps s h) ++ stack)
  Inv-visit visited stack h i = record {
    source = ground (arith, i.source, visited_of root, stack_of root);
    sound = λ v m. elim (Bool-cases (contains (get_deps s h) v)) [
      | inl edge ↦ step (i.sound h (ground (arith, ==_refl h))) edge
      | inr other ↦ i.sound v (ground (arith, visited_of v, stack_of v))
    ];
    closed = λ u v m edge. elim (Bool-cases (u == h)) [
      | inl same ↦ ground (arith, visited_of v, stack_of v)
      | inr other ↦ ground (arith, visited_of u, visited_of v, stack_of v, i.closed u v)
    ];
  }
    where
      visited_of :
          (v : String)
          → contains (visited ++ h ∷ []) v ≡ (contains visited v || contains (h ∷ []) v)
      visited_of v = contains-append visited (h ∷ []) v

      stack_of :
          (v : String)
          → contains (reverse (get_deps s h) ++ stack) v
            ≡ (contains (get_deps s h) v || contains stack v)
      stack_of v = ground (
        arith,
        contains-append (reverse (get_deps s h)) stack v,
        contains-reverse (get_deps s h) v,
      )

  -- With enough fuel the loop ends with an empty stack, and its invariant holds.
  walk_loop-Inv :
      (fuel : ℕ) (visited stack : List String)
      → length stack + unvisited_edges visited s.deps < fuel
      → Inv s root visited stack
      → Inv s root (walk_loop s fuel visited stack) []
  unfolding walk_loop
  walk_loop-Inv zero visited stack enough i = absurd (omega arith)
  walk_loop-Inv (suc fuel) visited [] enough i = i
  walk_loop-Inv (suc fuel) visited (h ∷ stack) enough i = elim (Bool-cases (contains visited h)) [
    | inl seen ↦
        rw (seen, walk_loop)
          (walk_loop-Inv fuel visited stack (omega arith) (Inv-skip visited stack h seen i))
    | inr new ↦
        rw (new, walk_loop, new)
          (walk_loop-Inv fuel (visited ++ h ∷ []) (reverse (get_deps s h) ++ stack)
            (unfold get_deps in
              omega (
                arith,
                unvisited_edges-visit visited h s.deps new,
                length-append (reverse (get_deps s h)) stack,
                length-reverse (get_deps s h),
              ))
            (Inv-visit visited stack h i))
  ]

  Inv-start : Inv s root [] (root ∷ [])
  Inv-start = record {
    source = ground (arith, ==_refl root);
    sound = λ v m. elim (Bool-cases (v == root)) [
      | inl same ↦ subst (Reach s root) (ground arith) here
      | inr other ↦ absurd (ground arith)
    ];
    closed = λ u v m edge. cc;
  }

  walk-Inv : Inv s root (walk s root) []
  unfolding walk
  walk-Inv =
      walk_loop-Inv (suc (suc (edge_count s.deps))) [] (root ∷ [])
        (omega (arith, unvisited_edges-nil s.deps)) Inv-start

  Reach→walk : (v : String) → Reach s root v → contains (walk s root) v ≡ true
  Reach→walk v here = ground (arith, walk-Inv.source)
  Reach→walk v (step {u} p edge) = ground (arith, walk-Inv.closed u v (Reach→walk u p) edge)

-- `walk` returns a hash exactly when some chain of dependency edges leads to it from the root,
-- whether or not the edges form cycles.
pub walk-iff-Reach :
    (s : Store) (root v : String) → (contains (walk s root) v ≡ true) ↔ Reach s root v
walk-iff-Reach s root v = (λ m. (walk-Inv s root).sound v (ground arith), Reach→walk s root v)

-- ===== src/Trace/Ordering.antt =====
-- The `sorted` of trace/graph_of.py: the edges of a trace are in order, and are those that were made.
use ancalagon.Base.{
  ℕ, ◌+◌, Bool, true, false, List, [], ◌∷◌, ◌++◌, select, length, ◌≡◌, refl, ◌∙◌, Bool-cases, inl,
  inr, arith,
}
use ancalagon.Trace.Nodes.{Edge}
use ancalagon.Trace.Graph.{is_before, insert_edge, in_order}

module _ {A : Type 0} where
  abbrev pub count : (A → Bool) → List A → ℕ
  count test xs = length (select test xs)

  pub count-append :
      (test : A → Bool) (xs ys : List A) → count test (xs ++ ys) ≡ count test xs + count test ys
  count-append test [] ys = omega arith
  count-append test (x ∷ xs) ys = ground (arith, count-append test xs ys)

-- The first of these, if there is one, is not before the edge.
abbrev pub Leads : Edge → List Edge → Type 0
Leads e [] = Unit
Leads e (f ∷ edges) = is_before f e ≡ false

-- No edge is before the one that it follows.
abbrev pub IsInOrder : List Edge → Type 0
IsInOrder [] = Unit
IsInOrder (e ∷ edges) = Leads e edges × IsInOrder edges

is_before-asym : (e f : Edge) → is_before f e ≡ true → is_before e f ≡ false
unfolding is_before
is_before-asym e f h = ground arith

insert_edge-Leads :
    (e f : Edge) (edges : List Edge)
    → is_before e f ≡ false
    → Leads f edges
    → Leads f (insert_edge e edges)
unfolding insert_edge
insert_edge-Leads e f [] h leads = h
insert_edge-Leads e f (g ∷ edges) h leads = elim (Bool-cases (is_before g e)) [
  | inl before ↦ rw before leads
  | inr after ↦ rw after h
]

insert_edge-IsInOrder :
    (e : Edge) (edges : List Edge) → IsInOrder edges → IsInOrder (insert_edge e edges)
unfolding insert_edge
insert_edge-IsInOrder e [] h = (tt, tt)
insert_edge-IsInOrder e (f ∷ edges) h = elim (Bool-cases (is_before f e)) [
  | inl before ↦ rw before (
    insert_edge-Leads e f edges (is_before-asym e f before) h.0,
    insert_edge-IsInOrder e edges h.1,
  )
  | inr after ↦ rw after (after, h)
]

pub in_order-IsInOrder : (edges : List Edge) → IsInOrder (in_order edges)
unfolding in_order
in_order-IsInOrder [] = tt
in_order-IsInOrder (e ∷ edges) = insert_edge-IsInOrder e (in_order edges) (in_order-IsInOrder edges)

count-insert_edge :
    (test : Edge → Bool) (e : Edge) (edges : List Edge)
    → count test (insert_edge e edges) ≡ count test (e ∷ edges)
unfolding insert_edge
count-insert_edge test e [] = refl
count-insert_edge test e (f ∷ edges) = elim (Bool-cases (is_before f e)) [
  | inl before ↦ rw before (ground (arith, count-insert_edge test e edges))
  | inr after ↦ rw after refl
]

pub count-in_order :
    (test : Edge → Bool) (edges : List Edge) → count test (in_order edges) ≡ count test edges
unfolding in_order
count-in_order test [] = refl
count-in_order test (e ∷ edges) =
    count-insert_edge test e (in_order edges) ∙ ground (arith, count-in_order test edges)

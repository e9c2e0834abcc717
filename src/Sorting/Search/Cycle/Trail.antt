-- ===== src/Sorting/Search/Cycle/Trail.antt =====
-- src/sorting/search.rs: the trail of vertices that the search for a cycle keeps, and the stack.
use libloot.Prelude.{
  ℕ, suc, ◌≡◌, refl, sym, ap, ◌∙◌, inl, inr, Bool, true, false, String, str_eq, str_eq_iff, List,
  [], ◌∷◌, ◌++◌, map, Memᴰ, mem_cons, mem_concat, not_mem_nil, Option, none, some, init, position,
  if◌then◌else◌,
}
use libloot.External.Petgraph.{EdgeRef}
use libloot.Sorting.Vertex.{Vertex}

init-concat : {A : Type 0} (xs : List A) (x : A) → init (xs ++ x ∷ []) ≡ xs
init-concat [] x = refl
init-concat (y ∷ []) x = refl
init-concat (y ∷ z ∷ zs) x = ap (λ l. y ∷ l) (init-concat (z ∷ zs) x)

pub map-init : {A B : Type 0} (f : A → B) (xs : List A) → map f (init xs) ≡ init (map f xs)
map-init f [] = refl
map-init f (x ∷ []) = refl
map-init f (x ∷ y ∷ ys) = ap (λ l. f x ∷ l) (map-init f (y ∷ ys))

pub map-concat :
    {A B : Type 0} (f : A → B) (xs : List A) (x : A) → map f (xs ++ x ∷ []) ≡ map f xs ++ f x ∷ []
map-concat f [] x = refl
map-concat f (y ∷ ys) x = ap (λ l. f y ∷ l) (map-concat f ys x)

-- A name that is in the list has a position.
pub position_of_mem :
    (trail : List Vertex) (n : String)
    → Memᴰ n (map (λ (v : Vertex). v.name) trail)
    → ¬ (position (λ (v : Vertex). str_eq v.name n) trail ≡ none)
position_of_mem [] n m h = not_mem_nil m
position_of_mem (v ∷ trail) n m h =
    go (str_eq v.name n) (position (λ (w : Vertex). str_eq w.name n) trail) refl refl h
      (position_of_mem trail n)
  where
    go :
        (b : Bool) (o : Option ℕ)
        → str_eq v.name n ≡ b
        → position (λ (w : Vertex). str_eq w.name n) trail ≡ o
        → (if b then some 0 else elim o as (λ x. Option ℕ) [ none ↦ none | some i ↦ some (suc i) ])
          ≡ none
        → (Memᴰ n (map (λ (w : Vertex). w.name) trail)
            → ¬ (position (λ (w : Vertex). str_eq w.name n) trail ≡ none))
        → ⊥
    go true o e f k rec = cc
    go false (some i) e f k rec = cc
    go false none e f k rec = elim ((mem_cons n v.name (map (λ (w : Vertex). w.name) trail)).0 m) [
      | inl same ↦ cc ((str_eq_iff v.name n).1 (sym same))
      | inr m' ↦ rec m' f
    ]

-- The names of the nodes of a stack, from the bottom.
abbrev pub names_below : (ℕ → String) → List (ℕ × List EdgeRef) → List String
names_below name_of [] = []
names_below name_of ((m, es) ∷ below) = names_below name_of below ++ name_of m ∷ []

-- The names in the trail are those of the nodes under the top of the stack.
abbrev pub TrailFits : (ℕ → String) → List (ℕ × List EdgeRef) → List Vertex → Type 0
TrailFits name_of [] trail = map (λ (v : Vertex). v.name) trail ≡ []
TrailFits name_of (top ∷ below) trail =
    map (λ (v : Vertex). v.name) trail ≡ names_below name_of below

pub TrailFits-push :
    (name_of : ℕ → String) (n : ℕ) (es es' : List EdgeRef) (below : List (ℕ × List EdgeRef))
    (top : ℕ × List EdgeRef) (trail : List Vertex) (v : Vertex)
    → v.name ≡ name_of n
    → TrailFits name_of ((n, es) ∷ below) trail
    → TrailFits name_of (top ∷ (n, es') ∷ below) (trail ++ v ∷ [])
TrailFits-push name_of n es es' below top trail v e h =
    map-concat (λ (w : Vertex). w.name) trail v
    ∙ ap (λ l. l ++ v.name ∷ []) h
    ∙ ap (λ x. names_below name_of below ++ x ∷ []) e

pub TrailFits-pop :
    (name_of : ℕ → String) (top : ℕ × List EdgeRef) (below : List (ℕ × List EdgeRef))
    (trail : List Vertex)
    → TrailFits name_of (top ∷ below) trail
    → TrailFits name_of below (init trail)
TrailFits-pop name_of top [] trail h = map-init (λ (w : Vertex). w.name) trail ∙ ap init h
TrailFits-pop name_of top ((m, es) ∷ below) trail h =
    map-init (λ (w : Vertex). w.name) trail
    ∙ ap init h
    ∙ init-concat (names_below name_of below) (name_of m)

pub mem-names_below :
    (name_of : ℕ → String) (stack : List (ℕ × List EdgeRef)) (x : ℕ)
    → Memᴰ x (map (λ (p : ℕ × List EdgeRef). p.0) stack)
    → Memᴰ (name_of x) (names_below name_of stack)
mem-names_below name_of [] x m = absurd (not_mem_nil m)
mem-names_below name_of ((n, es) ∷ below) x m =
    elim ((mem_cons x n (map (λ (p : ℕ × List EdgeRef). p.0) below)).0 m) [
      | inl e ↦
          (mem_concat (name_of x) (name_of n) (names_below name_of below)).1 (inr (ap name_of e))
      | inr m' ↦
          (mem_concat (name_of x) (name_of n) (names_below name_of below)).1
            (inl (mem-names_below name_of below x m'))
    ]

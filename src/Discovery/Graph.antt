-- ===== src/Discovery/Graph.antt =====
-- cyber/service_discovery/container/graph.cc: nodes as vertices, channels as edges from each writer
-- to each reader. A `Vertice` is its `value_`. Each public function holds the graph's lock.
pub mod Traverse
pub mod Directions
use cyber_rt_standalone_r.Prelude.{
  ℕ, zero, suc, ◌+◌, ◌≡◌, List, [], ◌∷◌, ◌++◌, Bool, true, false, ◌&&◌, ◌||◌, not, Option, some,
  none, if◌then◌else◌, length,
}
use mathlib.Core.Option
use cyber_rt_standalone_r.Discovery.Keys.{
  Key, key_eq, mem, find, assign, erase, find_or, values, has,
}

abbrev pub is_dummy : Key → Bool
is_dummy [] = true
is_dummy (x ∷ xs) = false

pub record Edge : Type 0 where
  pub src : Key
  pub dst : Key
  pub value : Key

pub is_valid : Edge → Bool
is_valid e = not (is_dummy e.value) && not (is_dummy e.src && is_dummy e.dst)

-- `value_ + "_" + dst_.GetKey()`.
pub get_key : Edge → Key
get_key e = e.value ++ (b'_' ∷ e.dst)

-- A set of vertices: each under a key, which is its own value, or that of an edge to it.
abbrev pub VerticeSet : Type 0
VerticeSet = List (Key × Key)

pub record RelatedVertices : Type 0 where
  pub src : VerticeSet
  pub dst : VerticeSet

pub record Graph : Type 0 where
  pub edges : List (Key × RelatedVertices)
  pub list : List (Key × VerticeSet)

abbrev pub empty : Graph
empty = record { edges = []; list = [] }

abbrev pub no_vertices : RelatedVertices
no_vertices = record { src = []; dst = [] }

-- `if (list_.find(k) == list_.end()) list_[k] = VerticeSet()`.
abbrev pub ensure : Key → List (Key × VerticeSet) → List (Key × VerticeSet)
ensure k l = if has k l then l else assign k [] l

pub insert_complete_edge : Edge → List (Key × VerticeSet) → List (Key × VerticeSet)
unfolding get_key
insert_complete_edge e l =
    let l' = ensure e.dst (ensure e.src l) in
    assign e.src (assign (get_key e) e.dst (find_or e.src [] l')) l'

pub delete_complete_edge : Edge → List (Key × VerticeSet) → List (Key × VerticeSet)
unfolding get_key
delete_complete_edge e l = assign e.src (erase (get_key e) (find_or e.src [] l)) l

-- The loops over the vertices at the other end of a channel.
pub for_dst :
    (Edge → List (Key × VerticeSet) → List (Key × VerticeSet))
    → Edge
    → List Key
    → List (Key × VerticeSet)
    → List (Key × VerticeSet)
for_dst f e [] l = l
for_dst f e (d ∷ ds) l = for_dst f e ds (f (record e { dst = d }) l)

pub for_src :
    (Edge → List (Key × VerticeSet) → List (Key × VerticeSet))
    → Edge
    → List Key
    → List (Key × VerticeSet)
    → List (Key × VerticeSet)
for_src f e [] l = l
for_src f e (s ∷ ss) l = for_src f e ss (f (record e { src = s }) l)

abbrev pub related : Graph → Key → RelatedVertices
related g v = find_or v no_vertices g.edges

pub insert_outgoing_edge : Edge → Graph → Graph
unfolding insert_complete_edge for_dst
insert_outgoing_edge e g =
    let r = related g e.value in
    if has e.src r.src then g else record {
      edges = assign e.value (record r { src = assign e.src e.src r.src }) g.edges;
      list = for_dst insert_complete_edge e (values r.dst) g.list;
    }

pub insert_incoming_edge : Edge → Graph → Graph
unfolding insert_complete_edge for_src
insert_incoming_edge e g =
    let r = related g e.value in
    if has e.dst r.dst then g else record {
      edges = assign e.value (record r { dst = assign e.dst e.dst r.dst }) g.edges;
      list = for_src insert_complete_edge e (values r.src) g.list;
    }

pub delete_outgoing_edge : Edge → Graph → Graph
unfolding delete_complete_edge for_dst
delete_outgoing_edge e g =
    let r = related g e.value in
    if has e.src r.src
    then record {
      edges = assign e.value (record r { src = erase e.src r.src }) g.edges;
      list = for_dst delete_complete_edge e (values r.dst) g.list;
    }
    else g

pub delete_incoming_edge : Edge → Graph → Graph
unfolding delete_complete_edge for_src
delete_incoming_edge e g =
    let r = related g e.value in
    if has e.dst r.dst
    then record {
      edges = assign e.value (record r { dst = erase e.dst r.dst }) g.edges;
      list = for_src delete_complete_edge e (values r.src) g.list;
    }
    else g

abbrev pub unless : Bool → (Graph → Graph) → Graph → Graph
unless true f g = g
unless false f g = f g

-- `Insert`; `edges_[e_v] = RelatedVertices()` where the channel is new.
unfoldable pub insert : Graph → Edge → Graph
unfolding insert_outgoing_edge insert_incoming_edge is_valid
insert g e =
    if is_valid e
    then unless (is_dummy e.dst) (insert_incoming_edge e) (
        unless (is_dummy e.src) (insert_outgoing_edge e) (
          if has e.value g.edges
          then g
          else record g { edges = assign e.value no_vertices g.edges }))
    else g

unfoldable pub delete : Graph → Edge → Graph
unfolding delete_outgoing_edge delete_incoming_edge is_valid
delete g e =
    if is_valid e && has e.value g.edges
    then unless (is_dummy e.dst) (delete_incoming_edge e)
        (unless (is_dummy e.src) (delete_outgoing_edge e) g)
    else g

-- `list_[k]` as the vertices that it leads to.
abbrev pub targets : List (Key × VerticeSet) → Key → List Key
targets l k = values (find_or k [] l)

-- The loop of `LevelTraverse`; `visited` lists the keys marked true. `none`: the fuel ran out.
pub traverse : ℕ → List (Key × VerticeSet) → Key → List Key → List Key → Option (List Key)
traverse zero l end visited queue = none
traverse (suc fuel) l end visited [] = some visited
traverse (suc fuel) l end visited (curr ∷ queue) =
    let skip = traverse fuel l end visited queue in
    let expand = traverse fuel l end (curr ∷ visited) (queue ++ targets l curr) in
    if mem curr visited then skip else if key_eq curr end then some (curr ∷ visited) else expand

-- The rounds of the loop: one for the start, one for each edge, and the last test.
abbrev pub num_of_edge : List (Key × VerticeSet) → ℕ
num_of_edge [] = 0
num_of_edge ((k, vs) ∷ l) = length vs + num_of_edge l

pub level_traverse : List (Key × VerticeSet) → Key → Key → Option Bool
unfolding traverse
level_traverse l start end =
    Option.map (mem end) (traverse (num_of_edge l + 2) l end [] (start ∷ []))

pub data FlowDirection : Type 0 where
  unreachable upstream downstream : FlowDirection

abbrev pub direction : Option Bool → Option Bool → Option FlowDirection
direction none o = none
direction (some true) o = some upstream
direction (some false) none = none
direction (some false) (some true) = some downstream
direction (some false) (some false) = some unreachable

-- `GetDirectionOf`; `none` would be a traversal that does not end.
unfoldable pub get_direction_of : Graph → Key → Key → Option FlowDirection
unfolding level_traverse
get_direction_of g lhs rhs =
    if is_dummy lhs || is_dummy rhs || not (has lhs g.list) || not (has rhs g.list)
    then some unreachable
    else direction (level_traverse g.list lhs rhs) (level_traverse g.list rhs lhs)

-- ===== src/KeepEngine/Dot.antt =====
-- bin/keepEngine/src/decisiongraph.rs: `write_dot_to_str` and `write_dot_to_file`, which write a graph
-- for graphviz. The uuid crate is a parameter: the texts of its identifiers, by number.
use lapas.Prelude.{
  ℕ, suc, ◌+◌, ◌≡◌, arith, Option, none, some, [], ◌∷◌, ◌++◌, Outcome, Done, ok, err, panic,
}
use lapas.Prelude.Text.{Str, codes}
use lapas.KeepEngine.Actions.{FileAction, delete, keep, Actions}
use lapas.KeepEngine.Nodes.{Node, multi_segment, single_segment, Nodes, nil, cons, pattern}
use lapas.KeepEngine.Graph.{DecisionGraph}

-- `{:?}`.
abbrev debug : FileAction → Str
debug delete = codes "Delete"
debug keep = codes "Keep"

unfoldable pub action_str : Option Actions → Str
action_str none = []
action_str (some actions) =
    codes "base: " ++ (debug actions.base ++ (codes ", user: " ++ debug actions.user))

unfoldable pub node_lines : Str → Str → Option Actions → Str → Str
unfolding action_str
node_lines id pattern actions parent_id =
    b'"'
    ∷ (id
        ++ (codes "\" [label=\"<f0> "
            ++ (pattern
                ++ (codes "| <f1> "
                    ++ (action_str actions
                        ++ (codes "\", shape=\"record\"];"
                            ++ (10
                                ∷ b'"'
                                ∷ (parent_id
                                    ++ (codes "\" -> \""
                                        ++ (id ++ (codes "\";" ++ (10 ∷ []))))))))))))

-- The text that is added to the output, and how many identifiers were taken so far.
pub record Written : Type 0 where
  pub text : Str
  pub taken : ℕ

abbrev mutual
  -- How many nodes a node and those below it are.
  size : {R : Type 0} → Node R → ℕ
  size (multi_segment actions children) = suc (size_all children)
  size (single_segment pattern regex actions children) = suc (size_all children)

  size_all : {R : Type 0} → Nodes R → ℕ
  size_all nil = 0
  size_all (cons node rest) = size node + size_all rest

module _ {R : Type 0} (new_v4 : ℕ → Str) where
  unfoldable mutual
    unfolding node_lines

    pub write_dot_to_str : Node R → Str → ℕ → Written
    write_dot_to_str (multi_segment actions children) parent_id n =
        let below = write_dot_all children (new_v4 n) (n + 1) in
        record below { text = node_lines (new_v4 n) (codes "**") actions parent_id ++ below.text }
    write_dot_to_str (single_segment pattern regex actions children) parent_id n =
        let below = write_dot_all children (new_v4 n) (n + 1) in
        record below { text = node_lines (new_v4 n) pattern actions parent_id ++ below.text }

    -- The loop over the children.
    pub write_dot_all : Nodes R → Str → ℕ → Written
    write_dot_all nil parent_id n = record { text = []; taken = n }
    write_dot_all (cons node rest) parent_id n =
        let first = write_dot_to_str node parent_id n in
        let others = write_dot_all rest parent_id first.taken in
        record others { text = first.text ++ others.text }

  mutual
    unfolding write_dot_to_str write_dot_all

    -- Every node has an identifier of its own.
    taken-write_dot_to_str :
        (node : Node R) (parent_id : Str) (n : ℕ)
        → (write_dot_to_str node parent_id n).taken ≡ n + size node
    taken-write_dot_to_str (multi_segment actions children) parent_id n =
        omega (arith, taken-write_dot_all children (new_v4 n) (n + 1))
    taken-write_dot_to_str (single_segment pattern regex actions children) parent_id n =
        omega (arith, taken-write_dot_all children (new_v4 n) (n + 1))

    taken-write_dot_all :
        (nodes : Nodes R) (parent_id : Str) (n : ℕ)
        → (write_dot_all nodes parent_id n).taken ≡ n + size_all nodes
    taken-write_dot_all nil parent_id n = omega arith
    taken-write_dot_all (cons node rest) parent_id n =
        let first = write_dot_to_str node parent_id n in
        omega (
          arith,
          taken-write_dot_to_str node parent_id n,
          taken-write_dot_all rest parent_id first.taken,
        )

  unfoldable pub output : DecisionGraph R → Str
  unfolding write_dot_all
  output graph =
      codes "digraph patterns {"
      ++ (10 ∷ codes "node [shape=box];"
          ++ (10 ∷ codes "graph [ rankdir=\"LR\" ];"
              ++ (10 ∷ codes "\"root\" [shape=\"diamond\"];"
                  ++ (10 ∷ (write_dot_all graph.roots (codes "root") 0).text ++ codes "}"))))

  -- The file at the path, by how `create` and `write_all` end, and what a write that fails leaves.
  unfoldable pub write_dot_to_file :
      Outcome (Unit {0})
      → Outcome (Unit {0})
      → Str
      → DecisionGraph R
      → Option Str
      → Done (Option Str) (Unit {0})
  unfolding output
  write_dot_to_file (ok u) written partial_write graph file = record {
    after = elim written [ ok v ↦ some (output graph) | _ ↦ some partial_write ];
    result = written;
  }
  write_dot_to_file (err e) written partial_write graph file = record {
    after = file;
    result = err e;
  }
  write_dot_to_file panic written partial_write graph file = record { after = file; result = panic }

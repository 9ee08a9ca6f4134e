-- ===== src/KeepEngine/Tests.antt =====
-- The unit tests of bin/keepEngine/src/decisiongraph.rs.
pub mod Globs
mod Graphs
mod Walks
use lapas.Prelude.{Outcome, ok, ◌>>=◌, ◌≡◌, refl, Bool, true, false, List, [], ◌∷◌, unwrap}
use lapas.Prelude.Text.{Str, codes}
use lapas.Prelude.Text.Utf8.{is_utf8}
use lapas.KeepEngine.Actions.{delete, keep, FileAction, ActionResult}
use lapas.KeepEngine.Nodes.{segment_regex}
use lapas.KeepEngine.Graph.{
  DecisionGraph, add_lines, is_rule_line, add_rule_from_str, parse_rule, add_rule, traverse_add,
  new_graph, decide_path, node_from_segment_pattern,
}
use lapas.KeepEngine.Tests.Globs.{globs, Token}

-- `add_rule_from_str(…).unwrap()` for each of these rules.
add_rules : DecisionGraph (List Token) → List Str → Outcome (DecisionGraph (List Token))
unfolding is_utf8 add_rule_from_str parse_rule add_rule traverse_add globs node_from_segment_pattern
    segment_regex
add_rules g [] = ok g
add_rules g (rule ∷ rules) = unwrap (add_rule_from_str globs g rule) >>= (λ h. add_rules h rules)

graph_of : List Str → Outcome (DecisionGraph (List Token))
unfolding add_rules new_graph globs
graph_of rules = new_graph globs >>= (λ g. add_rules g rules)

decide : Outcome (DecisionGraph (List Token)) → Str → Outcome ActionResult
unfolding decide_path globs
decide g path = g >>= (λ h. decide_path globs h path)

abbrev result : Bool → FileAction → FileAction → Outcome ActionResult
result d b u = ok (record { actions = record { base = b; user = u }; descend = d })

abbrev typical : List Str
typical =
    codes "base:delete user:keep **"
    ∷ codes "base:keep user:keep .config/xfce4/xfconf/xfce-perchannel-xml"
    ∷ codes "base:keep user:keep .config/xfce4/panel"
    ∷ codes "base:keep user:delete .local/share/applications"
    ∷ codes "base:keep user:delete .lapas"
    ∷ codes "base:keep user:delete .bashrc"
    ∷ codes "base:keep user:delete .bash_profile"
    ∷ codes "base:keep user:delete .wineManager"
    ∷ codes "base:delete user:keep .wineManager/bottles/*/prefix/user.reg"
    ∷ codes "base:delete user:keep .wineManager/bottles/*/prefix/userdef.reg"
    ∷ codes "base:delete user:keep .wineManager/userdata"
    ∷ codes "base:keep user:delete .keep"
    ∷ []

construct_typical_lapas_graph : Outcome (DecisionGraph (List Token))
unfolding graph_of
construct_typical_lapas_graph = graph_of typical

correct_typical_lapas :
    (decide construct_typical_lapas_graph (codes ".wineManager") ≡ result true keep delete)
    × (decide construct_typical_lapas_graph (codes ".wineManager/helpers")
        ≡ result false keep delete)
    × (decide construct_typical_lapas_graph (codes ".wineManager/userdata")
        ≡ result false delete keep)
    × (decide construct_typical_lapas_graph (codes ".wineManager/bottles")
        ≡ result true keep delete)
    × (decide construct_typical_lapas_graph (codes ".wineManager/bottles/game0")
        ≡ result true keep delete)
    × (decide construct_typical_lapas_graph (codes ".wineManager/bottles/game0/prefix")
        ≡ result true keep delete)
    × (decide construct_typical_lapas_graph (codes ".wineManager/bottles/game0/prefix/drive_c")
        ≡ result false keep delete)
    × (decide construct_typical_lapas_graph (codes ".wineManager/bottles/game0/prefix/user.reg")
        ≡ result false delete keep)
    × (decide construct_typical_lapas_graph (codes ".wineManager/bottles/game0/prefix/userdef.reg")
        ≡ result false delete keep)
    × (decide construct_typical_lapas_graph (codes ".local") ≡ result true delete keep)
    × (decide construct_typical_lapas_graph (codes ".local/share") ≡ result true delete keep)
    × (decide construct_typical_lapas_graph (codes ".local/share/applications")
        ≡ result false keep delete)
unfolding decide construct_typical_lapas_graph
correct_typical_lapas = (refl, refl, refl, refl, refl, refl, refl, refl, refl, refl, refl, refl)

abbrev ordering : List Str
ordering =
    codes "base:delete user:keep .config"
    ∷ codes "base:keep user:delete *"
    ∷ codes "base:delete user:keep .config/xfce4"
    ∷ []

correct_absolute_rule_ordering :
    (decide (graph_of ordering) (codes ".config") ≡ result true keep delete)
    × (decide (graph_of ordering) (codes ".config/test.xml") ≡ result false keep delete)
    × (decide (graph_of ordering) (codes ".config/xfce4") ≡ result false delete keep)
    × (decide (graph_of ordering) (codes ".config/xfce4/test.xml") ≡ result false delete keep)
unfolding decide graph_of
correct_absolute_rule_ordering = (refl, refl, refl, refl)

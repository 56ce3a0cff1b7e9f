-- ===== src/Core/Selector.antt =====
-- Several cores behind one interface: core/selector.go, and `NewCore` of core/core.go. The cores are
-- those of one interface, told apart by the names under which the selector holds them; the order of
-- the table of cores stands for the order in which Go walks the map.
pub mod Routes
use ljfxznode.Common.{
  ℕ, ◌&&◌, ◌⊎◌, inl, inr, Bool, true, false, not, none, some, Option, List, [], ◌∷◌, ◌++◌, String,
  ◌==◌, text_key, if◌then◌else◌, Map, lookup, insert, delete,
}
use ljfxznode.Panel.{UserInfo, UserTraffic, NodeInfo}
use ljfxznode.Core.{Core}

-- A core: its protocols, its type and its state.
pub record Member (core : Core) : Type 0 where
  pub protocols : List String
  pub type_name : String
  pub state : core.State

-- `nodes` holds the name of a node's core.
pub record Selector (core : Core) : Type 0 where
  pub cores : Map String (Member core)
  pub nodes : Map String String

-- The parts of `conf.CoreConfig` and `conf.Options` that name a core.
pub record CoreConfig : Type 0 where
  pub type_name : String
  pub name : String

pub record CoreChoice : Type 0 where
  pub core : String
  pub core_name : String

unfoldable pub is_supported : String → List String → Bool
is_supported protocol [] = false
is_supported protocol (p ∷ ps) = if protocol == p then true else is_supported protocol ps

-- Whether a core serves a node that names no core.
unfoldable pub serves : {core : Core} → CoreChoice → NodeInfo → Member core → Bool
unfolding is_supported
serves opt n c =
    if opt.core == "" then is_supported n.node_type c.protocols else opt.core == c.type_name

module _ {core : Core} where
  -- The last core in the order of the walk that serves the node.
  unfoldable pub last_serving :
      CoreChoice → NodeInfo → Option String → Map String (Member core) → Option String
  unfolding serves
  last_serving opt n found [] = found
  last_serving opt n found ((name, c) ∷ cs) =
      last_serving opt n (if serves opt n c then some name else found) cs

  -- The name of the core that `AddNode` selects.
  unfoldable pub select_core : CoreChoice → NodeInfo → Selector core → Option String
  unfolding last_serving
  select_core opt n s =
      if not (opt.core_name == "")
      then elim (lookup opt.core_name s.cores) [ none ↦ none | some _ ↦ some opt.core_name ]
      else last_serving opt n none s.cores

  -- A core's new state.
  unfoldable pub set_state : String → Member core → core.State → Selector core → Selector core
  set_state name c state s = record s { cores = insert name (record c { state = state }) s.cores }

  -- The core of a name, with the name.
  unfoldable pub member : Option String → Selector core → Option (String × Member core)
  member none s = none
  member (some name) s = elim (lookup name s.cores) [ none ↦ none | some c ↦ some (name, c) ]

  unfoldable pub core_of : String → Selector core → Option (String × Member core)
  unfolding member
  core_of tag s = member (lookup tag s.nodes) s

  -- `unmarshal_ok` is whether the rest of the options can be read.
  unfoldable pub add_node :
      Bool → CoreChoice → String → NodeInfo → Selector core → Selector core × CoreChoice × Bool
  unfolding select_core member set_state
  add_node unmarshal_ok opt tag n s = elim (member (select_core opt n s) s) [
    | none ↦ (s, opt, false)
    | some (name, c) ↦
        let opt' = if opt.core == "" then record opt { core = c.type_name } else opt in
        let (state, ok) = core.add_node tag n c.state in
        let s' = set_state name c state s in
        if opt.core == "" && not unmarshal_ok
        then (s, opt', false)
        else (if not ok
            then (s', opt', false)
            else (record s' { nodes = insert tag name s'.nodes }, opt', true))
  ]

  unfoldable pub del_node : String → Selector core → Selector core × Bool
  unfolding core_of set_state
  del_node tag s = elim (core_of tag s) [
    | none ↦ (s, false)
    | some (name, c) ↦
        let (state, ok) = core.del_node tag c.state in
        let s' = set_state name c state s in
        if not ok then (s', false) else (record s' { nodes = delete tag s'.nodes }, true)
  ]

  unfoldable pub add_users :
      String → List UserInfo → NodeInfo → Selector core → Selector core × Option ℕ
  unfolding core_of set_state
  add_users tag us n s = elim (core_of tag s) [
    | none ↦ (s, none)
    | some (name, c) ↦
        let (state, added) = core.add_users tag us n c.state in (set_state name c state s, added)
  ]

  unfoldable pub get_user_traffic_slice :
      String → Bool → Selector core → Selector core × Option (List UserTraffic)
  unfolding core_of set_state
  get_user_traffic_slice tag reset s = elim (core_of tag s) [
    | none ↦ (s, none)
    | some (name, c) ↦
        let (state, slice) = core.get_user_traffic_slice tag reset c.state in
        (set_state name c state s, slice)
  ]

  unfoldable pub del_users :
      List UserInfo → String → NodeInfo → Selector core → Selector core × Bool
  unfolding core_of set_state
  del_users us tag n s = elim (core_of tag s) [
    | none ↦ (s, false)
    | some (name, c) ↦
        let (state, ok) = core.del_users us tag n c.state in (set_state name c state s, ok)
  ]

  unfoldable pub protocols_of : Map String (Member core) → List String
  protocols_of [] = []
  protocols_of ((name, c) ∷ cs) = c.protocols ++ protocols_of cs

  -- `make` gives the registered constructor of a type, and what it makes of a configuration; `lower`
  -- is `strings.ToLower`.
  unfoldable pub add_cores :
      (String → String)
      → (String → Option (CoreConfig → Option (Member core)))
      → List CoreConfig
      → Map String (Member core)
      → Option (Map String (Member core))
  add_cores lower make [] cs = some cs
  add_cores lower make (t ∷ ts) cs = elim (make (lower t.type_name)) [
    | none ↦ none
    | some f ↦ elim (f t) [
      | none ↦ none
      | some c ↦
          add_cores lower make ts (insert (if t.name == "" then t.type_name else t.name) c cs)
    ]
  ]

  unfoldable pub new_selector :
      (String → String)
      → (String → Option (CoreConfig → Option (Member core)))
      → List CoreConfig
      → Option (Selector core)
  unfolding add_cores
  new_selector lower make ts = elim (add_cores lower make ts []) [
    | none ↦ none
    | some cs ↦ some (record { cores = cs; nodes = [] })
  ]

  -- `inl` is one core, `inr` a selector; `none` is an error. One core is found by its type as written.
  unfoldable pub new_core :
      (String → String)
      → (String → Option (CoreConfig → Option (Member core)))
      → List CoreConfig
      → Option (Member core ⊎ Selector core)
  unfolding new_selector
  new_core lower make [] = none
  new_core lower make (t ∷ []) = elim (make t.type_name) [
    | none ↦ none
    | some f ↦ elim (f t) [ none ↦ none | some c ↦ some (inl c) ]
  ]
  new_core lower make (t ∷ u ∷ ts) = elim (new_selector lower make (t ∷ u ∷ ts)) [
    | none ↦ none
    | some s ↦ some (inr s)
  ]

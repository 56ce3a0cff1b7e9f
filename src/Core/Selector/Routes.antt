-- ===== src/Core/Selector/Routes.antt =====
-- Each node's calls go to the core that serves it, and to no other.
use ljfxznode.Common.{
  none_some, some_injective, false_true, ◌≡◌, ◌∙◌, refl, sym, ap, inl, inr, ◌⊎◌, Bool, true, false,
  not, ◌&&◌, Option, none, some, List, [], ◌∷◌, String, arith, Bool-cases, Option-cases,
  if◌then◌else◌, Map, lookup, insert, delete, lookup-delete, lookup-insert, text_key, ◌==◌, IsMap,
}
use ljfxznode.Panel.{UserInfo, NodeInfo}
use ljfxznode.Core.{Core}
use ljfxznode.Core.Selector.{
  Member, Selector, CoreChoice, serves, last_serving, select_core, set_state, member, core_of,
  add_node, del_node, add_users, del_users, get_user_traffic_slice,
}

stored :
    (tag name : String) (nodes : Map String String) → lookup tag (insert tag name nodes) ≡ some name
stored tag name nodes = lookup-insert tag tag name nodes ∙ ground (arith, text_key.same_iff tag tag)

module _ {core : Core} where
  -- A core that may serve the node: it has the name that the options give, or else it serves the
  -- node.
  pub record IsRoute (opt : CoreChoice) (n : NodeInfo) (s : Selector core) (name : String)
      : Type 0 where
    pub chosen : Member core
    pub listed : lookup name s.cores ≡ some chosen
    pub named_or_serves : (name ≡ opt.core_name) ⊎ (serves opt n chosen ≡ true)

  here_listed :
      (k name : String) (c : Member core) (cs : Map String (Member core))
      → some k ≡ some name
      → lookup name ((k, c) ∷ cs) ≡ some c
  unfolding lookup
  here_listed k name c cs e = ground (arith, text_key.same_iff k name)

  same_name :
      (k name : String) (cs : Map String (Member core)) → k ≡ name → lookup k cs ≡ lookup name cs
  same_name k name cs e = ap (λ z. lookup z cs) e

  still_listed :
      (k name : String) (c d : Member core) (cs : Map String (Member core))
      → lookup k cs ≡ none
      → lookup name cs ≡ some d
      → lookup name ((k, c) ∷ cs) ≡ some d
  unfolding lookup
  still_listed k name c d cs new e = ground (arith, text_key.same_iff k name, same_name k name cs)

  by_name :
      (opt : CoreChoice) (n : NodeInfo) (s : Selector core) (name : String)
      → (elim (lookup opt.core_name s.cores) [ none ↦ none | some _ ↦ some opt.core_name ])
        ≡ some name
      → IsRoute opt n s name
  by_name opt n s name e = elim (Option-cases (lookup opt.core_name s.cores)) [
    | inl f ↦ none_some (rw f at e)
    | inr (c, f) ↦
        let q : opt.core_name ≡ name = some_injective (rw f at e) in
        record {
          chosen = c;
          listed = sym (same_name opt.core_name name s.cores q) ∙ f;
          named_or_serves = inl (sym q);
        }
  ]

  last_serving-listed :
      (opt : CoreChoice) (n : NodeInfo) (found : Option String) (cs : Map String (Member core))
      (name : String)
      → IsMap cs
      → last_serving opt n found cs ≡ some name
      → (found ≡ some name)
        ⊎ ((c : Member core) × (lookup name cs ≡ some c) × (serves opt n c ≡ true))
  unfolding last_serving lookup
  last_serving-listed opt n found [] name h e = inl e
  last_serving-listed opt n found ((k, c) ∷ cs) name h e =
      elim (last_serving-listed opt n (if serves opt n c then some k else found) cs name h.1 e) [
        | inl here ↦ elim (Bool-cases (serves opt n c)) [
          | inl served ↦ inr (c, here_listed k name c cs (rw served at here), served)
          | inr not_served ↦ inl (rw not_served at here)
        ]
        | inr (d, later, served) ↦ inr (d, still_listed k name c d cs h.0 later, served)
      ]

  select_core-IsRoute :
      (opt : CoreChoice) (n : NodeInfo) (s : Selector core) (name : String)
      → IsMap s.cores
      → select_core opt n s ≡ some name
      → IsRoute opt n s name
  unfolding select_core
  select_core-IsRoute opt n s name h e = elim (Bool-cases (not (opt.core_name == ""))) [
    | inl named ↦ by_name opt n s name (rw (named, select_core) at e)
    | inr unnamed ↦
        elim (last_serving-listed opt n none s.cores name h (rw (unnamed, select_core) at e)) [
          | inl e ↦ cc
          | inr (c, listed, served) ↦ record {
            chosen = c;
            listed = listed;
            named_or_serves = inr served;
          }
        ]
  ]

  member-name :
      (found : Option String) (s : Selector core) (name : String) (c : Member core)
      → member found s ≡ some (name, c)
      → found ≡ some name
  unfolding member
  member-name none s name c e = cc
  member-name (some k) s name c e = elim (Option-cases (lookup k s.cores)) [
    | inl f ↦ cc
    | inr (d, f) ↦ ap (λ z. elim z [ none ↦ none | some r ↦ some r.0 ]) (rw (f, member) at e)
  ]

  nodes-del_node :
      (tag : String) (s : Selector core)
      → (del_node tag s).1 ≡ true
      → (del_node tag s).0.nodes ≡ delete tag s.nodes
  unfolding del_node set_state
  nodes-del_node tag s ok = ground arith

  del_node-core_of :
      (tag : String) (s : Selector core)
      → (del_node tag s).1 ≡ true
      → core_of tag (del_node tag s).0 ≡ none
  unfolding core_of member
  del_node-core_of tag s ok =
      ap (λ found. member found (del_node tag s).0) {y = none}
        (rw (nodes-del_node tag s ok)
          (lookup-delete tag tag s.nodes ∙ ground (arith, text_key.same_iff tag tag)))

  -- After `AddNode` succeeds, the node belongs to a core that its options name or that serves it,
  -- whatever the order of the walk.
  pub add_node-IsRoute :
      (unmarshal_ok : Bool) (opt : CoreChoice) (tag : String) (n : NodeInfo) (s : Selector core)
      → IsMap s.cores
      → (add_node unmarshal_ok opt tag n s).2 ≡ true
      → (name : String) × (lookup tag (add_node unmarshal_ok opt tag n s).0.nodes ≡ some name)
        × IsRoute opt n s name
  unfolding add_node
  add_node-IsRoute unmarshal_ok opt tag n s h ok =
      elim (Option-cases (member (select_core opt n s) s)) [
        | inl e ↦ false_true (rw (e, add_node) at ok)
        | inr ((name, c), e) ↦ elim (Bool-cases (opt.core == "" && not unmarshal_ok)) [
          | inl f ↦ false_true (rw (e, f, add_node) at ok)
          | inr f ↦ elim (Bool-cases (core.add_node tag n c.state).1) [
            | inl g ↦ (
              name,
              rw (e, f, g, add_node) (stored tag name s.nodes),
              select_core-IsRoute opt n s name h (member-name (select_core opt n s) s name c e),
            )
            | inr g ↦ false_true (rw (e, f, g, add_node) at ok)
          ]
        ]
      ]

  -- Once `DelNode` has succeeded, the selector refuses the node's calls and they change nothing.
  pub del_node-forgets :
      (tag : String) (us : List UserInfo) (n : NodeInfo) (reset : Bool) (s : Selector core)
      → (del_node tag s).1 ≡ true
      → let s' = (del_node tag s).0 in
        (add_users tag us n s' ≡ (s', none))
        × (del_users us tag n s' ≡ (s', false))
        × (get_user_traffic_slice tag reset s' ≡ (s', none))
        × (del_node tag s' ≡ (s', false))
  unfolding add_users del_users get_user_traffic_slice del_node
  del_node-forgets tag us n reset s ok =
      let s' = (del_node tag s).0 in
      let gone = del_node-core_of tag s ok in
      (
        rw (gone, add_users) refl,
        rw (gone, del_users) refl,
        rw (gone, get_user_traffic_slice) refl,
        rw (gone, del_node) refl,
      )

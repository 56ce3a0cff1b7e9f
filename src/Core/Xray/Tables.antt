-- ===== src/Core/Xray/Tables.antt =====
-- The entries of users in the core's tables.
use ljfxznode.Common.{
  false_true, insert, ℕ, ◌≡◌, ◌∙◌, refl, ap, inl, inr, Bool, true, false, ◌||◌, none, some, List,
  [], ◌∷◌, String, arith, Bool-cases, if◌then◌else◌, Map, lookup, lookup-delete, lookup-insert,
  text_key, ◌==◌,
}
use ljfxznode.Panel.{UserInfo, NodeInfo, user_tag}
use ljfxznode.Node.Users.Table.{last_user, same_tag}
use ljfxznode.Core.Links.{LinkManager}
use ljfxznode.Core.Xray.{
  Proxy, Xray, forget_user, del_each, del_users, store_uids, add_users, drop_links, is_of_tag,
  del_node,
}

-- Whether a name is that of one of the users.
abbrev pub is_named : String → String → List UserInfo → Bool
is_named tag email [] = false
is_named tag email (u ∷ us) = user_tag tag u.uuid == email || is_named tag email us

stored_uid :
    (tag q : String) (us : List UserInfo) (m : Map String ℕ)
    → lookup (user_tag tag q) (store_uids tag us m)
      ≡ (elim (last_user q us) [ none ↦ lookup (user_tag tag q) m | some u ↦ some u.id ])
unfolding store_uids last_user
stored_uid tag q [] m = refl
stored_uid tag q (u ∷ us) m =
    stored_uid tag q us (insert (user_tag tag u.uuid) u.id m)
    ∙ ground
        (arith, lookup-insert (user_tag tag u.uuid) (user_tag tag q) u.id m, same_tag tag u.uuid q)

both_ok :
    {A : Type 0} (b : Bool) (r : A × Bool) (s : A)
    → (if◌then◌else◌ {A = A × Bool} b r (s, false)).1 ≡ true
    → (b ≡ true) × (r.1 ≡ true)
both_ok true r s h = (refl, h)
both_ok false r s h = cc

same_tag_test : (tag a b : String) → a ≡ b → is_of_tag tag a ≡ is_of_tag tag b
same_tag_test tag a b h = ap (is_of_tag tag) h

lookup-drop_links :
    (tag email : String) (links : Map String LinkManager)
    → lookup email (drop_links tag links).0
      ≡ (if is_of_tag tag email then none else lookup email links)
unfolding drop_links lookup
lookup-drop_links tag email [] = ground arith
lookup-drop_links tag email ((name, m) ∷ rest) = ground (
  arith,
  lookup-drop_links tag email rest,
  same_tag_test tag name email,
  text_key.same_iff name email,
)

module _ {p : Proxy} where
  uids-add_users :
      (tag : String) (us : List UserInfo) (n : NodeInfo) (x : Xray p)
      → (add_users tag us n x).0.uid_map ≡ store_uids tag us x.uid_map
  unfolding add_users
  uids-add_users tag us n x = ground arith

  -- After `AddUsers` the table of ids gives each user of the call its id, the last one of a uuid
  -- that stands twice, and the other users of the node keep theirs: whether the call succeeds or
  -- fails.
  pub lookup-add_users :
      (tag q : String) (us : List UserInfo) (n : NodeInfo) (x : Xray p)
      → lookup (user_tag tag q) (add_users tag us n x).0.uid_map
        ≡ (elim (last_user q us) [ none ↦ lookup (user_tag tag q) x.uid_map | some u ↦ some u.id ])
  lookup-add_users tag q us n x = rw (uids-add_users tag us n x) (stored_uid tag q us x.uid_map)

  uids-del_each :
      (tag email : String) (us : List UserInfo) (x : Xray p)
      → (del_each tag us x).1 ≡ true
      → (lookup email (del_each tag us x).0.uid_map
          ≡ (if is_named tag email us then none else lookup email x.uid_map))
        × (lookup email (del_each tag us x).0.link_managers
            ≡ (if is_named tag email us then none else lookup email x.link_managers))
  unfolding del_each forget_user
  uids-del_each tag email [] x ok = (refl, refl)
  uids-del_each tag email (u ∷ us) x ok =
      let name = user_tag tag u.uuid in
      let x' = record x { proxy = (p.remove_user tag name x.proxy).0 } in
      let (removed, ok') = both_ok (p.remove_user tag name x.proxy).1 _ _ ok in
      let (uids, links) = uids-del_each tag email us (forget_user tag name x') ok' in
      rw (removed, del_each)
        (
          uids ∙ ground (arith, lookup-delete name email x.uid_map),
          links ∙ ground (arith, lookup-delete name email x.link_managers),
        )

  -- A successful `DelUsers` takes the users of the call, and no others, out of the table of ids and
  -- out of the table of connections.
  pub lookup-del_users :
      (tag email : String) (us : List UserInfo) (x : Xray p)
      → (del_users us tag x).1 ≡ true
      → (lookup email (del_users us tag x).0.uid_map
          ≡ (if is_named tag email us then none else lookup email x.uid_map))
        × (lookup email (del_users us tag x).0.link_managers
            ≡ (if is_named tag email us then none else lookup email x.link_managers))
  unfolding del_users
  lookup-del_users tag email us x ok = elim (Bool-cases (p.manages_users tag x.proxy)) [
    | inl e ↦ rw (e, del_users) (uids-del_each tag email us x (rw e at ok))
    | inr e ↦ false_true (rw e at ok)
  ]
    where
      refused : {A : Type 0} → false ≡ true → A
      refused h = cc

  -- When `DelNode` succeeds no connection of the tag is left in the table, and those of other
  -- tags are as before.
  pub lookup-del_node :
      (tag email : String) (x : Xray p)
      → (del_node tag x).1 ≡ true
      → lookup email (del_node tag x).0.link_managers
        ≡ (if is_of_tag tag email then none else lookup email x.link_managers)
  unfolding del_node
  lookup-del_node tag email x ok = ground (arith, lookup-drop_links tag email x.link_managers)

-- ===== src/Node/Users/Sync.antt =====
-- The limiter follows the panel's user list.
use ljfxznode.Common.{
  ◌≡◌, ◌⊎◌, ◌∙◌, refl, ap, inl, inr, Bool, true, false, none, some, Option, List, [], String, arith,
  if◌then◌else◌, text_key, lookup, Option-cases,
}
use ljfxznode.Panel.{UserInfo, user_tag, LimitConfig, AliveMap}
use ljfxznode.Limiter.State.{Externals, Limiter, UserLimitInfo}
use ljfxznode.Limiter.Users.{
  new_user_limit, update_user, add_users, delete_users, modify_users, new_limiter,
}
use ljfxznode.Node.Users.{old_map, limits_differ, compare_new, values, compare_user_list}
use ljfxznode.Node.Users.Table.{
  last_user, has_uuid, change, new_user_limit_lem, lookup-store_users, lookup-delete_users,
  lookup-modify_users,
}
use ljfxznode.Node.Users.Compare.{
  in_old_map, old_map-UnderUuid, left-UnderUuid, has_uuid-values, compare_new-IsNew,
  compare_new-IsGone, compare_new-IsKept,
}

-- The entry of a user, if there is one.
unfoldable pub entry_of : Option UserInfo → Option UserLimitInfo
entry_of none = none
entry_of (some u) = some (new_user_limit u)

-- Every user of the list has its entry in the table, and no other user of the node has one.
unfoldable pub Agrees : {x : Externals} → String → List UserInfo → Limiter x → Type 0
Agrees tag users l =
    (q : String) → lookup (user_tag tag q) l.user_limit_info ≡ entry_of (last_user q users)

-- A user keeps its id: the lists agree on the id of each uuid that both have.
unfoldable pub SameIds : List UserInfo → List UserInfo → Type 0
SameIds old new =
    (q : String) (o u : UserInfo)
    → last_user q old ≡ some o
    → last_user q new ≡ some u
    → o.id ≡ u.id

-- An entry after the three loops of an update.
after_deleted : Bool → Option UserLimitInfo → Option UserLimitInfo
after_deleted gone t = if gone then none else t

after_modified : Option UserInfo → Option UserLimitInfo → Option UserLimitInfo
after_modified modified none = none
after_modified modified (some info) = some (change info modified)

after_added : Option UserInfo → Option UserLimitInfo → Option UserLimitInfo
after_added none t = t
after_added (some u) t = some (new_user_limit u)

entry_after : Option UserInfo → Bool → Option UserInfo → Option UserLimitInfo → Option UserLimitInfo
unfolding after_deleted after_modified after_added
entry_after added gone modified t =
    after_added added (after_modified modified (after_deleted gone t))

entry_new :
    (added : Option UserInfo) → entry_after added false none (entry_of none) ≡ entry_of added
unfolding entry_after entry_of
entry_new added = ground arith

entry_gone : (t : Option UserLimitInfo) → entry_after none true none t ≡ entry_of none
unfolding entry_after entry_of
entry_gone t = refl

entry_kept :
    (o w : UserInfo) (added modified : Option UserInfo)
    → o.id ≡ w.id
    → (added ≡ some w)
      ⊎ ((added ≡ none) × (modified ≡ some w))
      ⊎ ((added ≡ none) × (modified ≡ none) × (limits_differ o w ≡ false))
    → entry_after added false modified (entry_of (some o)) ≡ entry_of (some w)
unfolding entry_after entry_of limits_differ
entry_kept o w added modified ids how = ground (arith, new_user_limit_lem o, new_user_limit_lem w)

module _ {x : Externals} (tag : String) (l : Limiter x) where
  added_entry :
      (q : String) (added : List UserInfo) (k : Limiter x)
      → lookup (user_tag tag q) (add_users tag added k).user_limit_info
        ≡ after_added (last_user q added) (lookup (user_tag tag q) k.user_limit_info)
  unfolding add_users after_added
  added_entry q added k = lookup-store_users tag q added k.user_limit_info ∙ ground arith

  modified_entry :
      (q : String) (modified : List UserInfo) (k : Limiter x)
      → lookup (user_tag tag q) (modify_users tag modified k).user_limit_info
        ≡ after_modified (last_user q modified) (lookup (user_tag tag q) k.user_limit_info)
  unfolding after_modified
  modified_entry q modified k = lookup-modify_users tag q modified k ∙ ground arith

  lookup-update_user :
      (q : String) (added deleted modified : List UserInfo)
      → lookup (user_tag tag q) (update_user tag added deleted modified l).user_limit_info
        ≡ entry_after
            (last_user q added)
            (has_uuid q deleted)
            (last_user q modified)
            (lookup (user_tag tag q) l.user_limit_info)
  unfolding update_user entry_after
  lookup-update_user q added deleted modified =
      let l' = delete_users tag deleted l in
      rw (added_entry q added (modify_users tag modified l'), modified_entry q modified l')
        (ap (λ t. after_added (last_user q added) (after_modified (last_user q modified) t))
          (lookup-delete_users tag q deleted l))

  -- The changes between two lists of the panel take the limiter's user table from the first to the
  -- second, whatever is added, removed or modified, if no user changes its id.
  pub update_user-Agrees :
      (old new : List UserInfo)
      → SameIds old new
      → Agrees tag old l
      → let (deleted, added, modified) = compare_user_list old new in
        Agrees tag new (update_user tag added deleted modified l)
  unfolding Agrees SameIds compare_user_list
  update_user-Agrees old new ids agrees q =
      let m = old_map old [] in
      let c = compare_new m new in
      let under = left-UnderUuid m new (old_map-UnderUuid old [] tt) in
      lookup-update_user q c.added (values c.left) c.modified
      ∙ rw (has_uuid-values q c.left under, agrees q)
          (elim (Option-cases (last_user q old)) [
            | inl fresh ↦
                let n = compare_new-IsNew q m new (in_old_map q old fresh) in
                rw (fresh, n.added, n.left, n.modified) (entry_new (last_user q new))
            | inr (o, was) ↦ elim (Option-cases (last_user q new)) [
              | inl gone ↦
                  let g = compare_new-IsGone q o m new (in_old_map q old was) gone in
                  rw (was, g.added, g.left, g.modified, gone) (entry_gone _)
              | inr (w, stays) ↦
                  let k = compare_new-IsKept q o m new w (in_old_map q old was) stays in
                  let e : k.user ≡ w = ground (arith, k.present) in
                  rw (was, k.left, stays)
                    (entry_kept o w (last_user q c.added) (last_user q c.modified)
                      (ids q o w was stays) (rw e at k.how))
            ]
          ])

  -- The table that a new limiter starts with is that of its list.
  pub new_limiter-Agrees :
      (config : LimitConfig) (users : List UserInfo) (alive : AliveMap)
      → Agrees tag users (new_limiter x tag config users alive)
  unfolding Agrees new_limiter entry_of lookup
  new_limiter-Agrees config users alive q = lookup-store_users tag q users [] ∙ ground arith

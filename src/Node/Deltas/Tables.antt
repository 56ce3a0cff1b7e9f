-- ===== src/Node/Deltas/Tables.antt =====
-- What the deltas do to the limiter's table and to the user list.
use ljfxznode.Common.{
  false_true, ◌≡◌, ◌∙◌, refl, ap, inl, inr, ℕ, Bool, true, Option, none, some, List, [], ◌∷◌, ◌++◌,
  String, Option-cases, arith, if◌then◌else◌, contains, lookup, text_key, nat_key,
}
use ljfxznode.Panel.{UserInfo, user_tag}
use ljfxznode.Core.{Core}
use ljfxznode.Limiter.State.{Externals, Limiter, UserLimitInfo}
use ljfxznode.Limiter.Users.{
  new_user_limit, update_user, delete_users, modify_users, add_users, store_users,
}
use ljfxznode.Limiter.Users.Valid.{update_user-LimiterValid}
use ljfxznode.Node.Controller.{Controller}
use ljfxznode.Node.Users.Table.{last_user, has_uuid, lookup-store_users, lookup-delete_users}
use ljfxznode.Node.Users.Sync.{Agrees, entry_of}
use ljfxznode.Node.Users.{compare_user_list}
use ljfxznode.Node.Monitor.{
  is_some, sync_changes, sync_users, delete_from_core, add_to_core, apply_changes,
}
use ljfxznode.Node.Monitor.Tables.{Synced}
use ljfxznode.Node.Deltas.{
  wanted, ids_of, fresh_users, remove_users, remove_users_by_ids, add_fresh, add_users_by_ws,
}

-- The ids of all the users are among those given.
abbrev pub AllListed : List ℕ → List UserInfo → Type 0
AllListed existing [] = Unit
AllListed existing (u ∷ us) = (contains u.id existing ≡ true) × AllListed existing us

joined :
    (t : Option UserLimitInfo) (o n : Option UserInfo)
    → t ≡ entry_of o
    → (elim n [ none ↦ t | some u ↦ some (new_user_limit u) ])
      ≡ entry_of (elim n [ none ↦ o | some u ↦ some u ])
unfolding entry_of
joined t o none h = h
joined t o (some u) h = refl

last_user-append :
    (q : String) (us fresh : List UserInfo)
    → last_user q (us ++ fresh)
      ≡ (elim (last_user q fresh) [ none ↦ last_user q us | some u ↦ some u ])
unfolding last_user
last_user-append q [] fresh = ground arith
last_user-append q (u ∷ us) fresh = ground (arith, last_user-append q us fresh)

fresh_users-AllListed :
    (existing : List ℕ) (users : List UserInfo)
    → AllListed existing users
    → fresh_users existing users ≡ []
unfolding fresh_users
fresh_users-AllListed existing [] h = refl
fresh_users-AllListed existing (u ∷ us) h =
    rw (h.0, fresh_users-AllListed existing us h.1) (ground arith)

module _ {x : Externals} where
  append-Agrees :
      (tag : String) (users fresh : List UserInfo) (l : Limiter x)
      → Agrees tag users l
      → Agrees tag (users ++ fresh) (update_user tag fresh [] [] l)
  unfolding Agrees update_user delete_users modify_users add_users
  append-Agrees tag users fresh l a q =
      lookup-store_users tag q fresh l.user_limit_info
      ∙ rw (last_user-append q users fresh) (joined _ (last_user q users) (last_user q fresh) (a q))

  update_user-removed :
      (tag : String) (q : String) (gone : List UserInfo) (l : Limiter x)
      → lookup (user_tag tag q) (update_user tag [] gone [] l).user_limit_info
        ≡ (if has_uuid q gone then none else lookup (user_tag tag q) l.user_limit_info)
  unfolding update_user modify_users add_users store_users
  update_user-removed tag q gone l = lookup-delete_users tag q gone l

module _ {x : Externals} {core : Core} where
  -- Whether the core takes the users that a delta adds.
  abbrev pub takes : List UserInfo → Controller x core → Bool
  takes users c =
      is_some (core.add_users c.tag (fresh_users (ids_of c.user_list) users) c.info c.server).1

  -- Whether the core lets go of the users that a delta removes.
  abbrev pub lets_go : List ℕ → Controller x core → Bool
  lets_go ids c = (core.del_users (wanted ids c.user_list) c.tag c.info c.server).1

  add_fresh-Synced :
      (fresh : List UserInfo) (c : Controller x core)
      → is_some (core.add_users c.tag fresh c.info c.server).1 ≡ true
      → Synced c
      → Synced (add_fresh fresh c)
  unfolding add_fresh
  add_fresh-Synced [] c taken y = y
  add_fresh-Synced (u ∷ us) c taken y =
      elim (Option-cases (core.add_users c.tag (u ∷ us) c.info c.server).1) [
        | inl e ↦ false_true (rw e at taken)
        | inr (k, e) ↦
            rw (e, add_fresh)
              (record {
                agrees = append-Agrees c.tag c.user_list (u ∷ us) c.limiter y.agrees;
                valid = update_user-LimiterValid c.tag (u ∷ us) [] [] c.limiter y.valid;
              })
      ]

  -- When the core takes the added users, a limiter in order whose table is the one of the user list
  -- stays so.
  pub add_users_by_ws-Synced :
      (users : List UserInfo) (c : Controller x core)
      → takes users c ≡ true
      → Synced c
      → Synced (add_users_by_ws users c)
  unfolding add_users_by_ws
  add_users_by_ws-Synced users c taken y =
      add_fresh-Synced (fresh_users (ids_of c.user_list) users) c taken y

  remove_users-table :
      (q : String) (gone : List UserInfo) (c : Controller x core)
      → (core.del_users gone c.tag c.info c.server).1 ≡ true
      → lookup (user_tag c.tag q) (remove_users gone c).limiter.user_limit_info
        ≡ (if has_uuid q gone then none else lookup (user_tag c.tag q) c.limiter.user_limit_info)
  unfolding remove_users
  remove_users-table q [] c ok = refl
  remove_users-table q (u ∷ us) c ok = rw ok (update_user-removed c.tag q (u ∷ us) c.limiter)

  -- When the core lets the users go, the users of the list with one of the ids lose their entries in
  -- the limiter, and every other user of the node keeps its entry.
  pub remove_users_by_ids-table :
      (ids : List ℕ) (q : String) (c : Controller x core)
      → lets_go ids c ≡ true
      → lookup (user_tag c.tag q) (remove_users_by_ids ids c).limiter.user_limit_info ≡ (
          if has_uuid q (wanted ids c.user_list)
          then none
          else lookup (user_tag c.tag q) c.limiter.user_limit_info)
  unfolding remove_users_by_ids
  remove_users_by_ids-table ids q c ok = remove_users-table q (wanted ids c.user_list) c ok

  remove_users-list :
      (gone : List UserInfo) (c : Controller x core)
      → ((remove_users gone c).user_list ≡ c.user_list) × ((remove_users gone c).tag ≡ c.tag)
  unfolding remove_users
  remove_users-list [] c = (refl, refl)
  remove_users-list (u ∷ us) c = ground arith

  add_listed :
      (users : List UserInfo) (c : Controller x core)
      → AllListed (ids_of c.user_list) users
      → add_users_by_ws users c ≡ c
  unfolding add_users_by_ws add_fresh
  add_listed users c h = rw (fresh_users-AllListed (ids_of c.user_list) users h) refl

  no_changes :
      (new : List UserInfo) (c : Controller x core)
      → sync_changes ([], [], []) new c ≡ record c { user_list = new }
  unfolding sync_changes delete_from_core add_to_core apply_changes
  no_changes new c = refl

  pub remove_users_by_ids-list :
      (ids : List ℕ) (c : Controller x core)
      → ((remove_users_by_ids ids c).user_list ≡ c.user_list)
        × ((remove_users_by_ids ids c).tag ≡ c.tag)
  unfolding remove_users_by_ids
  remove_users_by_ids-list ids c = remove_users-list (wanted ids c.user_list) c

  unchanged_list :
      (new : List UserInfo) (c : Controller x core)
      → compare_user_list c.user_list new ≡ ([], [], [])
      → sync_users new c ≡ record c { user_list = new }
  unfolding sync_users
  unchanged_list new c h = ap (λ d. sync_changes d new c) h ∙ no_changes new c

  -- A user that a delta removed and a later delta brings back stays out: the second delta skips
  -- it, since the list still has it, and a round of polling whose list has no changes against the
  -- controller's does not bring it back either.
  pub restored_user_lem :
      (ids : List ℕ) (users new : List UserInfo) (q : String) (c : Controller x core)
      → lets_go ids c ≡ true
      → has_uuid q (wanted ids c.user_list) ≡ true
      → AllListed (ids_of c.user_list) users
      → compare_user_list c.user_list new ≡ ([], [], [])
      → lookup
          (user_tag c.tag q)
          (sync_users new
            (add_users_by_ws users (remove_users_by_ids ids c))).limiter.user_limit_info
        ≡ none
  restored_user_lem ids users new q c ok gone listed same =
      let d = remove_users_by_ids ids c in
      let (list, tag) = remove_users_by_ids-list ids c in
      ap (λ k. lookup (user_tag c.tag q) (sync_users new k).limiter.user_limit_info)
        (add_listed users d (rw list listed))
      ∙ (ap (λ k. lookup (user_tag c.tag q) k.limiter.user_limit_info)
            (unchanged_list new d (rw list same))
          ∙ (remove_users_by_ids-table ids q c ok ∙ rw gone refl))

-- ===== src/Node/Deltas/Stall.antt =====
-- What a removal by a delta does to the next round of polling.
use ljfxznode.Common.{ℕ, ◌≡◌, ◌∙◌, refl, sym, ap, true, false, List, ◌∷◌}
use mathlib.Core.Path.{subst}
use ljfxznode.Panel.{UserInfo}
use ljfxznode.Core.{Core, RefusesAbsent}
use ljfxznode.Limiter.State.{Externals}
use ljfxznode.Node.Controller.{Controller}
use ljfxznode.Node.Users.{compare_user_list}
use ljfxznode.Node.Monitor.{sync_changes, sync_users, delete_from_core}
use ljfxznode.Node.Deltas.{wanted, remove_users, remove_users_by_ids}
use ljfxznode.Node.Deltas.Tables.{lets_go, remove_users_by_ids-list}

module _ {x : Externals} {core : Core} where
  -- The tables of the second state are those of the first.
  pub record IsStalled (d e : Controller x core) : Type 0 where
    pub list : e.user_list ≡ d.user_list
    pub limiter : e.limiter ≡ d.limiter

  refused_changes :
      (u : UserInfo) (us added modified new : List UserInfo) (d : Controller x core)
      → (core.del_users (u ∷ us) d.tag d.info d.server).1 ≡ false
      → IsStalled d (sync_changes (u ∷ us, added, modified) new d)
  unfolding sync_changes delete_from_core
  refused_changes u us added modified new d no_del =
      rw (no_del, sync_changes) (record { list = refl; limiter = refl })

module _ {x : Externals} {core : Core} (refuses : RefusesAbsent core) where
  removed_twice :
      (u : UserInfo) (us : List UserInfo) (c : Controller x core)
      → (core.del_users (u ∷ us) c.tag c.info c.server).1 ≡ true
      → let d = remove_users (u ∷ us) c in (core.del_users (u ∷ us) d.tag d.info d.server).1 ≡ false
  unfolding remove_users
  removed_twice u us c ok = rw (ok, remove_users) (refuses.twice u us c.tag c.info c.server ok)

  removed_by_ids_twice :
      (ids : List ℕ) (u : UserInfo) (us : List UserInfo) (c : Controller x core)
      → wanted ids c.user_list ≡ u ∷ us
      → lets_go ids c ≡ true
      → let d = remove_users_by_ids ids c in
        (core.del_users (u ∷ us) d.tag d.info d.server).1 ≡ false
  unfolding remove_users_by_ids
  removed_by_ids_twice ids u us c found ok =
      subst
        (λ w.
          (core.del_users (u ∷ us) (remove_users w c).tag (remove_users w c).info
            (remove_users w c).server).1
          ≡ false)
        (sym found) (removed_twice u us c (rw (found, lets_go) at ok))

  compared :
      (new : List UserInfo) (d : Controller x core)
      → sync_users new d ≡ sync_changes (compare_user_list d.user_list new) new d
  unfolding sync_users
  compared new d = refl

  -- After a delta has removed users, a round of polling on an unchanged node, whose list lacks just
  -- these users, fails at the core, if the core refuses to remove users it does not have: the
  -- controller keeps its list, and the limiter gets neither the users that the list adds nor the
  -- limits that it changes.
  pub stalled_round_lem :
      (ids : List ℕ) (u : UserInfo) (us new added modified : List UserInfo) (c : Controller x core)
      → wanted ids c.user_list ≡ u ∷ us
      → lets_go ids c ≡ true
      → compare_user_list c.user_list new ≡ (u ∷ us, added, modified)
      → IsStalled (remove_users_by_ids ids c) (sync_users new (remove_users_by_ids ids c))
  stalled_round_lem ids u us new added modified c found ok changes =
      let d = remove_users_by_ids ids c in
      let (list, tag) = remove_users_by_ids-list ids c in
      let same : compare_user_list d.user_list new ≡ (u ∷ us, added, modified) = rw list changes in
      let e : sync_users new d ≡ sync_changes (u ∷ us, added, modified) new d =
        compared new d ∙ ap (λ z. sync_changes z new d) same in
      subst (IsStalled d) (sym e)
        (refused_changes u us added modified new d (removed_by_ids_twice ids u us c found ok))

-- ===== src/Node/Deltas.antt =====
-- The user deltas that the panel pushes over the WebSocket: `removeUsersByIDs` and `addUsersByWS` of
-- node/controller.go.
pub mod Tables
pub mod Stall
mod Tests
use ljfxznode.Common.{
  ℕ, Bool, true, false, not, ◌&&◌, none, some, Option, List, [], ◌∷◌, ◌++◌, String, ◌==◌, text_key,
  nat_key, contains, if◌then◌else◌,
}
use ljfxznode.Panel.{UserInfo}
use ljfxznode.Core.{Core}
use ljfxznode.Limiter.State.{Externals}
use ljfxznode.Limiter.Users.{update_user}
use ljfxznode.Node.Controller.{Controller}

-- The users of the list whose id is wanted.
unfoldable pub wanted : List ℕ → List UserInfo → List UserInfo
wanted ids [] = []
wanted ids (u ∷ us) = let rest = wanted ids us in if contains u.id ids then u ∷ rest else rest

unfoldable pub ids_of : List UserInfo → List ℕ
ids_of [] = []
ids_of (u ∷ us) = u.id ∷ ids_of us

-- The users with a uuid whose id the list does not have.
unfoldable pub fresh_users : List ℕ → List UserInfo → List UserInfo
fresh_users existing [] = []
fresh_users existing (u ∷ us) =
    let rest = fresh_users existing us in
    if u.uuid == "" then rest else (if contains u.id existing then rest else u ∷ rest)

module _ {x : Externals} {core : Core} where
  -- The users go from the core and the limiter; the list is left as it is.
  unfoldable pub remove_users : List UserInfo → Controller x core → Controller x core
  remove_users [] c = c
  remove_users (u ∷ us) c =
      let (s, ok) = core.del_users (u ∷ us) c.tag c.info c.server in
      let c' = record c { server = s } in
      if not ok then c' else record c' { limiter = update_user c'.tag [] (u ∷ us) [] c'.limiter }

  unfoldable pub remove_users_by_ids : List ℕ → Controller x core → Controller x core
  unfolding wanted remove_users
  remove_users_by_ids ids c = remove_users (wanted ids c.user_list) c

  -- The list grows before the core is asked.
  unfoldable pub add_fresh : List UserInfo → Controller x core → Controller x core
  add_fresh [] c = c
  add_fresh (u ∷ us) c =
      let merged = record c { user_list = c.user_list ++ (u ∷ us) } in
      let (s, added) = core.add_users merged.tag (u ∷ us) merged.info merged.server in
      let c' = record merged { server = s } in
      elim added [
        | none ↦ c'
        | some _ ↦ record c' { limiter = update_user c'.tag (u ∷ us) [] [] c'.limiter }
      ]

  unfoldable pub add_users_by_ws : List UserInfo → Controller x core → Controller x core
  unfolding fresh_users ids_of add_fresh
  add_users_by_ws users c = add_fresh (fresh_users (ids_of c.user_list) users) c

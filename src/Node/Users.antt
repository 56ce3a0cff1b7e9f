-- ===== src/Node/Users.antt =====
-- `compareUserList` of node/user.go: the changes from one user list of the panel to the next.
pub mod Table
pub mod Compare
pub mod Sync
use ljfxznode.Common.{
  Bool, not, ◌||◌, none, some, List, [], ◌∷◌, String, beq_ℤ, if◌then◌else◌, text_key, Map, lookup,
  insert, delete,
}
use ljfxznode.Panel.{UserInfo}

-- `oldMap`: of users with one uuid the last one stays.
unfoldable pub old_map : List UserInfo → Map String UserInfo → Map String UserInfo
old_map [] m = m
old_map (u ∷ us) m = old_map us (insert u.uuid u m)

unfoldable pub limits_differ : UserInfo → UserInfo → Bool
limits_differ o u =
    not (beq_ℤ o.speed_limit u.speed_limit) || not (beq_ℤ o.device_limit u.device_limit)

pub record Changes : Type 0 where
  pub left : Map String UserInfo
  pub added : List UserInfo
  pub modified : List UserInfo

-- The loop over `new`: what is left of `oldMap`, the users added and those modified.
unfoldable pub compare_new : Map String UserInfo → List UserInfo → Changes
unfolding limits_differ
compare_new m [] = record { left = m; added = []; modified = [] }
compare_new m (u ∷ us) = elim (lookup u.uuid m) [
  | none ↦
      let rest = compare_new m us in
      record { left = rest.left; added = u ∷ rest.added; modified = rest.modified }
  | some o ↦
      let rest = compare_new (delete u.uuid m) us in
      record {
        left = rest.left;
        added = rest.added;
        modified = if limits_differ o u then u ∷ rest.modified else rest.modified;
      }
]

-- The loop over what is left of `oldMap`, in any order.
unfoldable pub values : Map String UserInfo → List UserInfo
values [] = []
values ((_, o) ∷ m) = o ∷ values m

unfoldable pub compare_user_list :
    List UserInfo → List UserInfo → List UserInfo × List UserInfo × List UserInfo
unfolding old_map compare_new values
compare_user_list old new =
    let c = compare_new (old_map old []) new in (values c.left, c.added, c.modified)

-- ===== src/Node/Users/Table.antt =====
-- The limiter's user table, user by user.
use ljfxznode.Common.{
  ◌≡◌, ◌∙◌, refl, sym, ap, inl, inr, Bool, true, false, ◌||◌, none, some, Option, List, [], ◌∷◌,
  String, arith, if◌then◌else◌, ◌==◌, text_key, Map, lookup, insert, lookup-insert, lookup-delete,
  Option-cases, Bool-cases,
}
use ljfxznode.Panel.{UserInfo, user_tag, user_tag-injective}
use ljfxznode.Limiter.State.{Externals, Limiter, UserLimitInfo}
use ljfxznode.Limiter.Users.{
  new_user_limit, store_users, delete_user, modify_user, delete_users, modify_users,
}

-- The last user of a list with a uuid.
unfoldable pub last_user : String → List UserInfo → Option UserInfo
last_user q [] = none
last_user q (u ∷ us) = elim (last_user q us) [
  | some w ↦ some w
  | none ↦ if u.uuid == q then some u else none
]

abbrev pub has_uuid : String → List UserInfo → Bool
has_uuid q [] = false
has_uuid q (u ∷ us) = u.uuid == q || has_uuid q us

pub new_user_limit_lem :
    (u : UserInfo)
    → new_user_limit u
      ≡ record { uid = u.id; speed_limit = u.speed_limit; device_limit = u.device_limit }
unfolding new_user_limit
new_user_limit_lem u = ground arith

pub same_tag : (tag a b : String) → (user_tag tag a == user_tag tag b) ≡ (a == b)
same_tag tag a b = elim (Bool-cases (a == b)) [
  | inl e ↦
      e-true
        ((text_key.same_iff (user_tag tag a) (user_tag tag b)).1
          (ap (user_tag tag) ((text_key.same_iff a b).0 e)))
        e
  | inr e ↦ ground (
    arith,
    text_key.same_iff (user_tag tag a) (user_tag tag b),
    text_key.same_iff a b,
    user_tag-injective tag a b,
  )
]
  where
    e-true :
        (user_tag tag a == user_tag tag b) ≡ true
        → (a == b) ≡ true
        → (user_tag tag a == user_tag tag b) ≡ (a == b)
    e-true p q = p ∙ sym q

-- The limits of a user after a change.
abbrev pub change : UserLimitInfo → Option UserInfo → UserLimitInfo
change info none = info
change info (some u) = record info { speed_limit = u.speed_limit; device_limit = u.device_limit }

same_entry :
    (tag a q : String) (table : Map String UserLimitInfo)
    → a ≡ q
    → lookup (user_tag tag a) table ≡ lookup (user_tag tag q) table
same_entry tag a q table h = ap (λ z. lookup (user_tag tag z) table) h

module _ (tag : String) where
  pub lookup-store_users :
      (q : String) (us : List UserInfo) (table : Map String UserLimitInfo)
      → lookup (user_tag tag q) (store_users tag us table) ≡ (elim (last_user q us) [
        | none ↦ lookup (user_tag tag q) table
        | some u ↦ some (new_user_limit u)
      ])
  unfolding store_users last_user
  lookup-store_users q [] table = refl
  lookup-store_users q (u ∷ us) table =
      lookup-store_users q us (insert (user_tag tag u.uuid) (new_user_limit u) table)
      ∙ ground (
        arith,
        lookup-insert (user_tag tag u.uuid) (user_tag tag q) (new_user_limit u) table,
        same_tag tag u.uuid q,
      )

  module _ {x : Externals} where
    lookup-delete_user :
        (q : String) (u : UserInfo) (l : Limiter x)
        → lookup (user_tag tag q) (delete_user tag u l).user_limit_info
          ≡ (if u.uuid == q then none else lookup (user_tag tag q) l.user_limit_info)
    unfolding delete_user
    lookup-delete_user q u l =
        lookup-delete (user_tag tag u.uuid) (user_tag tag q) l.user_limit_info
        ∙ rw (same_tag tag u.uuid q)

    pub lookup-delete_users :
        (q : String) (us : List UserInfo) (l : Limiter x)
        → lookup (user_tag tag q) (delete_users tag us l).user_limit_info
          ≡ (if has_uuid q us then none else lookup (user_tag tag q) l.user_limit_info)
    unfolding delete_users
    lookup-delete_users q [] l = refl
    lookup-delete_users q (u ∷ us) l =
        lookup-delete_users q us (delete_user tag u l) ∙ ground (arith, lookup-delete_user q u l)

    lookup-modify_user :
        (q : String) (u : UserInfo) (l : Limiter x)
        → lookup (user_tag tag q) (modify_user tag u l).user_limit_info
          ≡ (elim (lookup (user_tag tag q) l.user_limit_info) [
            | none ↦ none
            | some info ↦ some (change info (if u.uuid == q then some u else none))
          ])
    unfolding modify_user
    lookup-modify_user q u l =
        elim (Option-cases (lookup (user_tag tag u.uuid) l.user_limit_info)) [
          | inl gone ↦
              ground (arith, text_key.same_iff u.uuid q, same_entry tag u.uuid q l.user_limit_info)
          | inr (info, found) ↦ ground (
            arith,
            text_key.same_iff u.uuid q,
            same_tag tag u.uuid q,
            same_entry tag u.uuid q l.user_limit_info,
            lookup-insert (user_tag tag u.uuid) (user_tag tag q) (change info (some u))
                l.user_limit_info,
          )
        ]

    pub lookup-modify_users :
        (q : String) (us : List UserInfo) (l : Limiter x)
        → lookup (user_tag tag q) (modify_users tag us l).user_limit_info
          ≡ (elim (lookup (user_tag tag q) l.user_limit_info) [
            | none ↦ none
            | some info ↦ some (change info (last_user q us))
          ])
    unfolding modify_users last_user
    lookup-modify_users q [] l = ground arith
    lookup-modify_users q (u ∷ us) l =
        lookup-modify_users q us (modify_user tag u l) ∙ ground (arith, lookup-modify_user q u l)

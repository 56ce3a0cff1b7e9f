-- ===== src/Node/Users/Compare.antt =====
-- What `compareUserList` finds for each uuid: a new user, one that is gone, or one that stays.
use ljfxznode.Common.{
  ◌≡◌, ◌⊎◌, ◌∙◌, refl, sym, ap, inl, inr, Bool, true, false, none, some, Option, List, [], ◌∷◌,
  String, arith, if◌then◌else◌, ◌==◌, text_key, Map, lookup, insert, delete, lookup-insert,
  lookup-delete, Option-cases, Bool-cases, AllEntries, AllEntries-insert, AllEntries-delete,
}
use ljfxznode.Panel.{UserInfo}
use ljfxznode.Limiter.Users.{}
use ljfxznode.Node.Users.{old_map, limits_differ, Changes, compare_new, values}
use ljfxznode.Node.Users.Table.{last_user, has_uuid}

lookup-old_map :
    (q : String) (us : List UserInfo) (m : Map String UserInfo)
    → lookup q (old_map us m) ≡ (elim (last_user q us) [ none ↦ lookup q m | some u ↦ some u ])
unfolding old_map last_user
lookup-old_map q [] m = refl
lookup-old_map q (u ∷ us) m =
    lookup-old_map q us (insert u.uuid u m) ∙ ground (arith, lookup-insert u.uuid q u m)

abbrev pub UnderUuid : String → UserInfo → Type 0
UnderUuid k u = u.uuid ≡ k

pub in_old_map :
    (q : String) (us : List UserInfo) {o : Option UserInfo}
    → last_user q us ≡ o
    → lookup q (old_map us []) ≡ o
unfolding lookup
in_old_map q us h = lookup-old_map q us [] ∙ ground arith

pub old_map-UnderUuid :
    (us : List UserInfo) (m : Map String UserInfo)
    → AllEntries UnderUuid m
    → AllEntries UnderUuid (old_map us m)
unfolding old_map
old_map-UnderUuid [] m h = h
old_map-UnderUuid (u ∷ us) m h =
    old_map-UnderUuid us (insert u.uuid u m) (AllEntries-insert UnderUuid u.uuid u m refl h)

pub left-UnderUuid :
    (m : Map String UserInfo) (us : List UserInfo)
    → AllEntries UnderUuid m
    → AllEntries UnderUuid (compare_new m us).left
unfolding compare_new
left-UnderUuid m [] h = h
left-UnderUuid m (u ∷ us) h = elim (Option-cases (lookup u.uuid m)) [
  | inl new ↦ rw (new, compare_new) (left-UnderUuid m us h)
  | inr (o, old) ↦
      rw (old, compare_new)
        (left-UnderUuid (delete u.uuid m) us (AllEntries-delete UnderUuid u.uuid m h))
]

pub has_uuid-values :
    (q : String) (m : Map String UserInfo)
    → AllEntries UnderUuid m
    → has_uuid q (values m) ≡ (elim (lookup q m) [ none ↦ false | some _ ↦ true ])
unfolding values lookup
has_uuid-values q [] h = refl
has_uuid-values q ((k, u) ∷ m) h = rw h.0 (ground (arith, has_uuid-values q m h.1))

-- A user that is not in the old list.
pub record IsNew (q : String) (us : List UserInfo) (c : Changes) : Type 0 where
  pub left : lookup q c.left ≡ none
  pub added : last_user q c.added ≡ last_user q us
  pub modified : last_user q c.modified ≡ none

-- One that is in the old list and not in the new one.
pub record IsGone (q : String) (o : UserInfo) (us : List UserInfo) (c : Changes) : Type 0 where
  pub absent : last_user q us ≡ none
  pub left : lookup q c.left ≡ some o
  pub added : last_user q c.added ≡ none
  pub modified : last_user q c.modified ≡ none

-- One that is in both: it is added again, modified, or has the old limits.
pub record IsKept (q : String) (o : UserInfo) (us : List UserInfo) (c : Changes) : Type 0 where
  pub user : UserInfo
  pub present : last_user q us ≡ some user
  pub left : lookup q c.left ≡ none
  pub how :
      (last_user q c.added ≡ some user)
      ⊎ ((last_user q c.added ≡ none) × (last_user q c.modified ≡ some user))
      ⊎ ((last_user q c.added ≡ none)
          × (last_user q c.modified ≡ none)
          × (limits_differ o user ≡ false))

same_place : (a q : String) (m : Map String UserInfo) → a ≡ q → lookup a m ≡ lookup q m
same_place a q m h = ap (λ z. lookup z m) h

pub compare_new-IsNew :
    (q : String) (m : Map String UserInfo) (us : List UserInfo)
    → lookup q m ≡ none
    → IsNew q us (compare_new m us)
unfolding compare_new last_user
compare_new-IsNew q m [] h = record { left = h; added = refl; modified = refl }
compare_new-IsNew q m (u ∷ us) h = elim (Option-cases (lookup u.uuid m)) [
  | inl e ↦ rw (e, compare_new) (ground (arith, compare_new-IsNew q m us))
  | inr (o, e) ↦
      rw (e, compare_new)
        (ground (
          arith,
          compare_new-IsNew q (delete u.uuid m) us,
          lookup-delete u.uuid q m,
          text_key.same_iff u.uuid q,
          same_place u.uuid q m,
        ))
]

last_user-none :
    (q : String) (u : UserInfo) (us : List UserInfo)
    → last_user q (u ∷ us) ≡ none
    → (last_user q us ≡ none) × ((u.uuid == q) ≡ false)
unfolding last_user
last_user-none q u us h = ground arith

pub compare_new-IsGone :
    (q : String) (o : UserInfo) (m : Map String UserInfo) (us : List UserInfo)
    → lookup q m ≡ some o
    → last_user q us ≡ none
    → IsGone q o us (compare_new m us)
unfolding compare_new last_user
compare_new-IsGone q o m [] h a = record { absent = refl; left = h; added = refl; modified = refl }
compare_new-IsGone q o m (u ∷ us) h a =
    let (a', other) = last_user-none q u us a in
    elim (Option-cases (lookup u.uuid m)) [
      | inl e ↦ rw (e, compare_new) (ground (arith, compare_new-IsGone q o m us h a', a))
      | inr (o', e) ↦
          rw (e, compare_new)
            (ground
              (arith, compare_new-IsGone q o (delete u.uuid m) us, lookup-delete u.uuid q m, a))
    ]

here-IsKept :
    (q : String) (o : UserInfo) (m : Map String UserInfo) (u : UserInfo) (us : List UserInfo)
    → lookup q m ≡ some o
    → u.uuid ≡ q
    → IsKept q o (u ∷ us) (compare_new m (u ∷ us))
unfolding compare_new last_user
here-IsKept q o m u us h e =
    let n =
      compare_new-IsNew q (delete u.uuid m) us
        (ground (arith, lookup-delete u.uuid q m, text_key.same_iff u.uuid q)) in
    rw (same_place u.uuid q m e ∙ h, compare_new)
      (elim (Option-cases (last_user q us)) [
        | inl no_other ↦ record {
          user = u;
          present = ground (arith, text_key.same_iff u.uuid q);
          left = n.left;
          how = ground (arith, text_key.same_iff u.uuid q, n.added, n.modified);
        }
        | inr (w, another) ↦ record {
          user = w;
          present = ground (arith, text_key.same_iff u.uuid q);
          left = n.left;
          how = inl (n.added ∙ another);
        }
      ])

-- A user with another uuid in front changes nothing.
skip_user :
    (q : String) (u : UserInfo) (us : List UserInfo)
    → (u.uuid == q) ≡ false
    → last_user q (u ∷ us) ≡ last_user q us
unfolding last_user
skip_user q u us h = ground arith

skip_modified :
    (q : String) (u : UserInfo) (us : List UserInfo) (b : Bool)
    → (u.uuid == q) ≡ false
    → last_user q (if b then u ∷ us else us) ≡ last_user q us
skip_modified q u us true h = skip_user q u us h
skip_modified q u us false h = refl

there-IsKept :
    (q : String) (o u : UserInfo) (us : List UserInfo) (c c' : Changes)
    → (u.uuid == q) ≡ false
    → IsKept q o us c
    → c'.left ≡ c.left
    → last_user q c'.added ≡ last_user q c.added
    → last_user q c'.modified ≡ last_user q c.modified
    → IsKept q o (u ∷ us) c'
there-IsKept q o u us c c' h k l a m = record {
  user = k.user;
  present = skip_user q u us h ∙ k.present;
  left = rw l k.left;
  how = rw (a, m) k.how;
}

pub compare_new-IsKept :
    (q : String) (o : UserInfo) (m : Map String UserInfo) (us : List UserInfo) (w : UserInfo)
    → lookup q m ≡ some o
    → last_user q us ≡ some w
    → IsKept q o us (compare_new m us)
unfolding compare_new last_user
compare_new-IsKept q o m [] w h p = absurd (cc)
compare_new-IsKept q o m (u ∷ us) w h p = elim (Bool-cases (u.uuid == q)) [
  | inl here ↦ here-IsKept q o m u us h ((text_key.same_iff u.uuid q).0 here)
  | inr there ↦
      let p' = sym (skip_user q u us there) ∙ p in
      elim (Option-cases (lookup u.uuid m)) [
        | inl e ↦
            rw (e, compare_new)
              (there-IsKept q o u us (compare_new m us) _ there (compare_new-IsKept q o m us w h p')
                refl (skip_user q u (compare_new m us).added there) refl)
        | inr (o', e) ↦
            let m' = delete u.uuid m in
            rw (e, compare_new)
              (there-IsKept q o u us (compare_new m' us) _ there
                (compare_new-IsKept q o m' us w (ground (arith, lookup-delete u.uuid q m)) p') refl
                refl (skip_modified q u (compare_new m' us).modified (limits_differ o' u) there))
      ]
]

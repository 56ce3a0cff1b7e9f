-- ===== src/Core/Xray/Refusal.antt =====
-- Xray does not remove a user twice, if its user managers refuse users that they do not have.
use ljfxznode.Common.{
  ℕ, ◌≡◌, refl, sym, ap, ◌∙◌, inl, inr, Bool, true, false, List, [], ◌∷◌, String, Bool-cases,
  false_true,
}
use mathlib.Core.Path.{subst}
use ljfxznode.Panel.{UserInfo, user_tag}
use ljfxznode.Core.{RefusesAbsent}
use ljfxznode.Core.Xray.{Proxy, Xray, forget_user, del_each, del_users, xray_core}

-- The users of the managers, and what a removal does to them.
pub record UserLaws (p : Proxy) : Type 0 where
  pub has : String → String → p.State → Bool
  pub refuses :
      (tag email : String) (s : p.State)
      → has tag email s ≡ false
      → (p.remove_user tag email s).1 ≡ false
  pub removes :
      (tag email : String) (s : p.State)
      → (p.remove_user tag email s).1 ≡ true
      → has tag email (p.remove_user tag email s).0 ≡ false
  pub stays_away :
      (tag email other : String) (s : p.State)
      → has tag email s ≡ false
      → has tag email (p.remove_user tag other s).0 ≡ false

module _ {p : Proxy} (laws : UserLaws p) where
  away-del_each :
      (tag email : String) (us : List UserInfo) (x : Xray p)
      → laws.has tag email x.proxy ≡ false
      → laws.has tag email (del_each tag us x).0.proxy ≡ false
  unfolding del_each forget_user
  away-del_each tag email [] x h = h
  away-del_each tag email (u ∷ us) x h =
      let name = user_tag tag u.uuid in
      let (s, ok) = p.remove_user tag name x.proxy in
      let gone = laws.stays_away tag email name x.proxy h in
      elim (Bool-cases ok) [
        | inl e ↦
            rw (e, del_each)
              (away-del_each tag email us (forget_user tag name (record x { proxy = s })) gone)
        | inr e ↦ rw (e, del_each) gone
      ]

  refused-del_each :
      (tag : String) (u : UserInfo) (us : List UserInfo) (x : Xray p)
      → laws.has tag (user_tag tag u.uuid) x.proxy ≡ false
      → (del_each tag (u ∷ us) x).1 ≡ false
  unfolding del_each
  refused-del_each tag u us x h =
      rw (laws.refuses tag (user_tag tag u.uuid) x.proxy h, del_each) refl

  twice-del_each :
      (tag : String) (u : UserInfo) (us : List UserInfo) (x : Xray p)
      → (del_each tag (u ∷ us) x).1 ≡ true
      → (del_each tag (u ∷ us) (del_each tag (u ∷ us) x).0).1 ≡ false
  unfolding del_each forget_user
  twice-del_each tag u us x ok =
      let name = user_tag tag u.uuid in
      let (s, done) = p.remove_user tag name x.proxy in
      elim (Bool-cases done) [
        | inl e ↦ refused-del_each tag u us _ (
            rw (e, del_each)
              (away-del_each tag name us (forget_user tag name (record x { proxy = s }))
                (laws.removes tag name x.proxy e)))
        | inr e ↦ false_true (rw (e, del_each) at ok)
      ]

  refused-del_users :
      (tag : String) (us : List UserInfo) (x : Xray p)
      → (del_each tag us x).1 ≡ false
      → (del_users us tag x).1 ≡ false
  unfolding del_users
  refused-del_users tag us x h = elim (Bool-cases (p.manages_users tag x.proxy)) [
    | inl e ↦ rw (e, del_users) h
    | inr e ↦ rw (e, del_users) refl
  ]

  managed :
      (tag : String) (us : List UserInfo) (x : Xray p)
      → p.manages_users tag x.proxy ≡ true
      → del_users us tag x ≡ del_each tag us x
  unfolding del_users
  managed tag us x e = rw (e, del_users) refl

  unmanaged :
      (tag : String) (us : List UserInfo) (x : Xray p)
      → p.manages_users tag x.proxy ≡ false
      → del_users us tag x ≡ (x, false)
  unfolding del_users
  unmanaged tag us x e = rw (e, del_users) refl

  twice-del_users :
      (tag : String) (u : UserInfo) (us : List UserInfo) (x : Xray p)
      → (del_users (u ∷ us) tag x).1 ≡ true
      → (del_users (u ∷ us) tag (del_users (u ∷ us) tag x).0).1 ≡ false
  twice-del_users tag u us x ok = elim (Bool-cases (p.manages_users tag x.proxy)) [
    | inl e ↦
        let q = managed tag (u ∷ us) x e in
        subst (λ y. (del_users (u ∷ us) tag y.0).1 ≡ false) (sym q)
          (refused-del_users tag (u ∷ us) (del_each tag (u ∷ us) x).0
            (twice-del_each tag u us x (ap (λ y. y.1) (sym q) ∙ ok)))
    | inr e ↦ false_true (ap (λ y. y.1) (sym (unmanaged tag (u ∷ us) x e)) ∙ ok)
  ]

  -- If the user managers refuse users that they do not have, a removal leaves a user away and no
  -- removal brings one back, then the core made of Xray refuses users that it has just removed.
  pub xray_core-RefusesAbsent : (kilobytes : ℕ) → RefusesAbsent (xray_core p kilobytes)
  unfolding xray_core
  xray_core-RefusesAbsent kilobytes = record {
    twice = λ u us tag n x ok. twice-del_users tag u us x ok;
  }

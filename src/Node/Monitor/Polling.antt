-- ===== src/Node/Monitor/Polling.antt =====
-- Rounds of `nodeInfoMonitor` of node/task.go, with the `GetUserList` of api/panel/user.go that they call.
use ljfxznode.Common.{
  ◌≡◌, ◌∙◌, refl, sym, ap, inl, inr, Bool, false, ◌&&◌, Option, none, some, List, [], ◌∷◌, String,
  Bool-cases, ◌>>=◌, nat_key,
}
use ljfxznode.Panel.{UserInfo, AliveMap}
use ljfxznode.Panel.Config.Caching.{Response}
use ljfxznode.Panel.UserList.{user_list_of, get_user_list}
use ljfxznode.Core.{Core}
use ljfxznode.Limiter.State.{Externals}
use ljfxznode.Node.Controller.{Controller}
use ljfxznode.Node.Users.{compare_user_list}
use ljfxznode.Node.Monitor.{
  Reply, failed, unchanged, changed, Replies, answer, new_alive, apply_alive, delete_from_core,
  add_to_core, sync_changes, sync_users, sync_new_users, monitor_round, node_info_monitor,
}

abbrev pub reply_of : {A : Type 0} → Option (Option A) → Reply A
reply_of none = failed
reply_of (some none) = unchanged
reply_of (some (some v)) = changed v

-- Rounds in which the panel reports no change of the node.
abbrev pub AllUnchanged : List Replies → Type 0
AllUnchanged [] = Unit
AllUnchanged (r ∷ rs) = (r.node ≡ unchanged) × AllUnchanged rs

not_modified :
    (q : Response) (etag : String)
    → q.status_code ≡ 304
    → get_user_list (some q) etag ≡ (etag, some none)
unfolding get_user_list
not_modified q etag e = rw e refl

listed_users :
    (b : Response) (etag : String) (new : List UserInfo)
    → b.status_code ≡ 200
    → b.failed ≡ false
    → (b.body >>= user_list_of) ≡ some (some new)
    → get_user_list (some b) etag ≡ (b.etag, some (some new))
unfolding get_user_list
listed_users b etag new full good decoded = rw (full, good, decoded) refl

module _ {x : Externals} {core : Core} where
  -- A round on the client's ETag and the controller. `panel` is the answer to a request with an ETag; the
  -- user list is asked for when the node's answer is no error.
  unfoldable pub poll :
      (String → Option Response) → Replies → String × Controller x core → String × Controller x core
  unfolding get_user_list node_info_monitor
  poll panel r (etag, c) = elim (answer r.node) [
    | none ↦ (etag, c)
    | some n ↦
        (let (etag', users) = get_user_list (panel etag) etag in
          (etag', node_info_monitor (record r { users = reply_of users }) c))
  ]

  unfoldable pub polls :
      (String → Option Response)
      → List Replies
      → String × Controller x core
      → String × Controller x core
  unfolding poll
  polls panel [] s = s
  polls panel (r ∷ rs) s = polls panel rs (poll panel r s)

  -- Whether the core takes the deletions and the additions of a round.
  unfoldable pub takes_changes :
      List UserInfo × List UserInfo × List UserInfo → Controller x core → Bool
  unfolding delete_from_core add_to_core
  takes_changes (deleted, added, modified) c =
      let (s, gone) = delete_from_core deleted c in
      gone && (add_to_core added (record c { server = s })).1

  pub refused_list :
      (d : List UserInfo × List UserInfo × List UserInfo) (new : List UserInfo)
      (c : Controller x core)
      → takes_changes d c ≡ false
      → (sync_changes d new c).user_list ≡ c.user_list
  unfolding sync_changes takes_changes
  refused_list (deleted, added, modified) new c =
      let c' = record c { server = (delete_from_core deleted c).0 } in
      elim (Bool-cases (delete_from_core deleted c).1)
        as (λ _.
          takes_changes (deleted, added, modified) c ≡ false
          → (sync_changes (deleted, added, modified) new c).user_list ≡ c.user_list) [
            | inl e ↦ λ h.
                let put : (add_to_core added c').1 ≡ false =
                  sym (ap (λ b. b && (add_to_core added c').1) e) ∙ h in
                rw (e, put) refl
            | inr e ↦ λ h. rw e refl
          ]

  pub takes_changes-apply_alive :
      (d : List UserInfo × List UserInfo × List UserInfo) (alive : Option AliveMap)
      (c : Controller x core)
      → takes_changes d (apply_alive alive c) ≡ takes_changes d c
  unfolding takes_changes apply_alive delete_from_core add_to_core
  takes_changes-apply_alive (deleted, added, modified) none c = refl
  takes_changes-apply_alive ([], [], modified) (some m) c = refl
  takes_changes-apply_alive ([], u ∷ us, modified) (some m) c = refl
  takes_changes-apply_alive (v ∷ vs, [], modified) (some m) c = refl
  takes_changes-apply_alive (v ∷ vs, u ∷ us, modified) (some m) c = refl

  pub apply_alive-list :
      (alive : Option AliveMap) (c : Controller x core)
      → (apply_alive alive c).user_list ≡ c.user_list
  unfolding apply_alive
  apply_alive-list none c = refl
  apply_alive-list (some m) c = refl

  -- A round without a change of the node.
  poll_unchanged :
      (panel : String → Option Response) (r : Replies) (etag tag : String)
      (us : Option (List UserInfo)) (c : Controller x core)
      → r.node ≡ unchanged
      → get_user_list (panel etag) etag ≡ (tag, some us)
      → poll panel r (etag, c) ≡ (tag, sync_new_users us (apply_alive (new_alive r) c))
  unfolding poll node_info_monitor monitor_round new_alive
  poll_unchanged panel r etag tag none c e f = rw (e, f) refl
  poll_unchanged panel r etag tag (some us) c e f = rw (e, f) refl

  polls-cached :
      (panel : String → Option Response) (rs : List Replies) (tag : String) (q : Response)
      (c : Controller x core)
      → AllUnchanged rs
      → panel tag ≡ some q
      → q.status_code ≡ 304
      → (polls panel rs (tag, c)).1.user_list ≡ c.user_list
  unfolding polls sync_new_users
  polls-cached panel [] tag q c h e f = refl
  polls-cached panel (r ∷ rs) tag q c (n, h) e f =
      let cached : get_user_list (panel tag) tag ≡ (tag, some none) = rw e (not_modified q tag f) in
      ap (λ s. (polls panel rs s).1.user_list) (poll_unchanged panel r tag tag none c n cached)
      ∙ (polls-cached panel rs tag q (apply_alive (new_alive r) c) h e f
          ∙ apply_alive-list (new_alive r) c)

  -- A user list that the core refuses is not tried again. The panel answers 200 with a list that is
  -- decoded; the node has not changed; the core refuses the deletions or the additions that the list asks
  -- for. Then, in that round and in any later ones in which the node does not change and the panel answers
  -- 304 to the list's ETag, the controller stays at the list it had before.
  pub polls-refused :
      (panel : String → Option Response) (r : Replies) (rs : List Replies) (etag : String)
      (b q : Response) (new : List UserInfo) (c : Controller x core)
      → AllUnchanged (r ∷ rs)
      → panel etag ≡ some b
      → b.status_code ≡ 200
      → b.failed ≡ false
      → (b.body >>= user_list_of) ≡ some (some new)
      → takes_changes (compare_user_list c.user_list new) c ≡ false
      → panel b.etag ≡ some q
      → q.status_code ≡ 304
      → (polls panel (r ∷ rs) (etag, c)).1.user_list ≡ c.user_list
  unfolding polls sync_new_users sync_users
  polls-refused panel r rs etag b q new c (n, h) e full good decoded refused f cached =
      let alive = new_alive r in
      let d = apply_alive alive c in
      let listed : get_user_list (panel etag) etag ≡ (b.etag, some (some new)) =
        rw e (listed_users b etag new full good decoded) in
      let same : d.user_list ≡ c.user_list = apply_alive-list alive c in
      let changes : takes_changes (compare_user_list d.user_list new) d ≡ false =
        takes_changes-apply_alive (compare_user_list d.user_list new) alive c
        ∙ (ap (λ us. takes_changes (compare_user_list us new) c) same ∙ refused) in
      ap (λ s. (polls panel rs s).1.user_list)
        (poll_unchanged panel r etag b.etag (some new) c n listed)
      ∙ (polls-cached panel rs b.etag q (sync_users new d) h f cached
          ∙ (refused_list (compare_user_list d.user_list new) new d changes ∙ same))

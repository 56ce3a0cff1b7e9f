-- ===== src/Node/Report/Devices.antt =====
-- The device report: it is current after a round, or it is due in the next.
use ljfxznode.Common.{
  ℕ, ◌≡◌, ◌≢◌, refl, sym, ◌⊎◌, inl, inr, Bool, true, false, not, ◌&&◌, ◌||◌, Option, none, some,
  List, [], ◌∷◌, String, arith, Bool-cases, ◌==◌, text_key, if◌then◌else◌, Map,
}
use ljfxznode.Core.{Core}
use ljfxznode.Limiter.State.{Externals, Limiter}
use ljfxznode.Limiter.Cooldown.{devices_dirty, reset_devices_dirty, purge_expired_cooldowns}
use ljfxznode.Limiter.Devices.{local_device_snapshot}
use ljfxznode.Node.Controller.{Controller}
use ljfxznode.Node.Report.{devices_hash, sorted_devices, report_snapshot, report_devices}

-- The hash that stands for a report: "" for an empty one.
abbrev pub report_hash : (String → String) → Map ℕ (List String) → String
report_hash digest [] = ""
report_hash digest (e ∷ m) = devices_hash digest (e ∷ m)

module _ {x : Externals} {core : Core} where
  -- The snapshot was sent, its hash is remembered, and the mark is cleared.
  pub record IsReported (digest : String → String) (m : Map ℕ (List String))
      (c' : Controller x core) (out : Option (Map ℕ (List String))) : Type 0 where
    pub sent : out ≡ some (sorted_devices m)
    pub hash : c'.last_report_devices_hash ≡ report_hash digest m
    pub clean : c'.limiter.device_dirty ≡ false

  -- The snapshot has the hash of the last report, nothing was sent, and the mark is cleared.
  pub record IsCurrent (digest : String → String) (m : Map ℕ (List String)) (hash : String)
      (c' : Controller x core) (out : Option (Map ℕ (List String))) : Type 0 where
    pub known : hash ≡ report_hash digest m
    pub kept : c'.last_report_devices_hash ≡ hash
    pub unsent : out ≡ none
    pub clean : c'.limiter.device_dirty ≡ false

  -- The next round looks at the devices again.
  abbrev pub is_due : Controller x core → Bool
  is_due c = c.limiter.device_dirty || c.last_report_devices_hash == ""

  -- A report that was not sent.
  pub record IsPending (hash : String) (c' : Controller x core) (out : Option (Map ℕ (List String)))
      : Type 0 where
    pub due : is_due c' ≡ true
    pub kept : c'.last_report_devices_hash ≡ hash
    pub unsent : out ≡ none

  -- What a round comes to, where `sent` says whether the queue takes a report.
  abbrev pub Outcome :
      (String → String)
      → Map ℕ (List String)
      → Bool
      → String
      → Controller x core × Option (Map ℕ (List String))
      → Type 0
  Outcome digest m sent hash (c', out) =
      (IsReported digest m c' out × (sent ≡ true))
      ⊎ (IsCurrent digest m hash c' out
          ⊎ (IsPending hash c' out × (hash ≢ report_hash digest m) × (sent ≡ false)))

goes_on : (a b : Bool) → (a || b) ≡ true → (not a && not b) ≡ false
goes_on true b h = refl
goes_on false true h = refl
goes_on false false h = cc

purge_marks :
    {x : Externals} (l : Limiter x) (now : ℕ)
    → (purge_expired_cooldowns l now).1 ≡ true
    → (purge_expired_cooldowns l now).0.device_dirty ≡ true
unfolding purge_expired_cooldowns
purge_marks l now h = ground arith

-- A purge that removes something sets the mark.
devices_dirty_marks :
    {x : Externals} (l : Limiter x) (now : ℕ) (b : Bool)
    → ((devices_dirty l now).1 || b) ≡ true
    → ((devices_dirty l now).0.device_dirty || b) ≡ true
unfolding devices_dirty
devices_dirty_marks l now b h = marked _ _ b (purge_marks l now) h
  where
    marked : (d r b : Bool) → (r ≡ true → d ≡ true) → ((d || r) || b) ≡ true → (d || b) ≡ true
    marked true r b f h = refl
    marked false true b f h = let p = f refl in cc
    marked false false b f h = h

other_text : (a b : String) → (a == b) ≡ false → a ≢ b
other_text a b h e = absurd (cc ((text_key.same_iff a b).1 e))

module _ {x : Externals} {core : Core} (digest : String → String) where
  queued :
      (sent : Bool) (m : Map ℕ (List String)) (c d : Controller x core)
      → d.last_report_devices_hash ≡ report_hash digest m
      → d.limiter.device_dirty ≡ false
      → is_due c ≡ true
      → c.last_report_devices_hash ≢ report_hash digest m
      → Outcome digest m sent c.last_report_devices_hash (
          if◌then◌else◌ {A = Controller x core × Option (Map ℕ (List String))} sent
            (d, some (sorted_devices m))
            (c, none))
  queued true m c d hash clean due new =
      inl (record { sent = refl; hash = hash; clean = clean }, refl)
  queued false m c d hash clean due new =
      inr (inr (record { due = due; kept = refl; unsent = refl }, new, refl))

  snapshot-outcome :
      (m : Map ℕ (List String)) (sent : Bool) (c : Controller x core)
      → is_due c ≡ true
      → Outcome digest m sent c.last_report_devices_hash (report_snapshot digest m sent c)
  unfolding report_snapshot reset_devices_dirty sorted_devices
  snapshot-outcome [] sent c due = elim (Bool-cases (c.last_report_devices_hash == "")) [
    | inl e ↦
        rw (e, report_snapshot)
          (inr (
            inl (record {
              known = (text_key.same_iff c.last_report_devices_hash "").0 e;
              kept = refl;
              unsent = refl;
              clean = refl;
            })))
    | inr e ↦ rw (e, report_snapshot) (queued sent [] _ _ refl refl due (other_text _ _ e))
  ]
  snapshot-outcome (entry ∷ m) sent c due =
      let hash = devices_hash digest (entry ∷ m) in
      elim (Bool-cases (hash == c.last_report_devices_hash)) [
        | inl e ↦
            rw (e, report_snapshot)
              (inr (
                inl (record {
                  known = sym ((text_key.same_iff hash c.last_report_devices_hash).0 e);
                  kept = refl;
                  unsent = refl;
                  clean = refl;
                })))
        | inr e ↦
            rw (e, report_snapshot)
              (queued sent (entry ∷ m) _ _ refl refl due
                (λ h. other_text hash c.last_report_devices_hash e (sym h)))
      ]

  -- A round in which the WebSocket is up, and in which the mark is set after the purge or nothing was
  -- reported before, comes to one of three: the snapshot of the devices, each user's addresses in order,
  -- is sent and taken by the queue, its hash is remembered, the empty one for no devices, and the mark is
  -- cleared; or the snapshot has the remembered hash, nothing is sent, and the mark is cleared; or it has
  -- another hash, but the queue refuses the report, nothing is sent, the hash is as before, and the next
  -- round is bound to try again.
  pub report_devices-outcome :
      (now later : ℕ) (sent : Bool) (c : Controller x core)
      → ((devices_dirty c.limiter now).1 || c.last_report_devices_hash == "") ≡ true
      → Outcome digest
          (local_device_snapshot (devices_dirty c.limiter now).0 later)
          sent
          c.last_report_devices_hash
          (report_devices digest now later true sent c)
  unfolding report_devices
  report_devices-outcome now later sent c due =
      let d = record c { limiter = (devices_dirty c.limiter now).0 } in
      let dirty = (devices_dirty c.limiter now).1 in
      rw (goes_on dirty (c.last_report_devices_hash == "") due, report_devices)
        (snapshot-outcome (local_device_snapshot d.limiter later) sent d
          (devices_dirty_marks c.limiter now (c.last_report_devices_hash == "") due))

-- ===== src/Core/Xray/Reading.antt =====
-- The traffic that the core hands out, against what the counters held.
use ljfxznode.Common.{
  ℕ, ◌+◌, ◌≡◌, refl, true, false, ◌&&◌, List, [], ◌∷◌, String, ℤ, pos, pos_part, ◌+ℤ◌, ltb_ℤ,
  nat_beq, arith, nat_beq_iff, if◌then◌else◌, Map, get, text_key,
}
use ljfxznode.Panel.{UserTraffic}
use ljfxznode.Core.Xray.{TrafficStorage, Counters, read_counters}

-- The two ways of the bytes.
pub data Way : Type 0 where
  upload download : Way

abbrev pub stored : Way → TrafficStorage → ℕ
stored upload t = t.up
stored download t = t.down

abbrev pub reported : Way → UserTraffic → ℕ
reported upload t = pos_part t.upload
reported download t = pos_part t.download

-- The bytes that are handed out for a user id.
abbrev pub handed_out : Way → ℕ → List UserTraffic → ℕ
handed_out way uid [] = 0
handed_out way uid (t ∷ ts) =
    (if nat_beq t.uid uid then reported way t else 0) + handed_out way uid ts

module _ (uids : Map String ℕ) where
  -- The bytes in the counters of the emails with a user id.
  abbrev pub held : Way → ℕ → Counters → ℕ
  held way uid [] = 0
  held way uid ((email, t) ∷ cs) =
      (if nat_beq (get email 0 uids) uid then stored way t else 0) + held way uid cs

  -- The bytes that arrive for them while the counters are read.
  abbrev pub arriving : Way → ℕ → (String → TrafficStorage) → Counters → ℕ
  arriving way uid meanwhile [] = 0
  arriving way uid meanwhile ((email, t) ∷ cs) =
      (if nat_beq (get email 0 uids) uid then stored way (meanwhile email) else 0)
      + arriving way uid meanwhile cs

  -- Those of them that arrive at a counter above the threshold, which is reset.
  abbrev pub too_late : Way → ℕ → ℤ → (String → TrafficStorage) → Counters → ℕ
  too_late way uid min meanwhile [] = 0
  too_late way uid min meanwhile ((email, t) ∷ cs) =
      (if nat_beq (get email 0 uids) uid && ltb_ℤ min (pos t.up +ℤ pos t.down)
        then stored way (meanwhile email)
        else 0)
      + too_late way uid min meanwhile cs

  read_known :
      (way : Way) (uid : ℕ) (min : ℤ) (meanwhile : String → TrafficStorage) (cs : Counters)
      → nat_beq uid 0 ≡ false
      → let (left, slice) = read_counters true min uids meanwhile cs in
        handed_out way uid slice + held way uid left + too_late way uid min meanwhile cs
        ≡ held way uid cs + arriving way uid meanwhile cs
  unfolding read_counters
  read_known way uid min meanwhile [] h = refl
  read_known upload uid min meanwhile ((email, t) ∷ cs) h =
      ground (arith, read_known upload uid min meanwhile cs h, nat_beq_iff (get email 0 uids) uid)
  read_known download uid min meanwhile ((email, t) ∷ cs) h =
      ground (arith, read_known download uid min meanwhile cs h, nat_beq_iff (get email 0 uids) uid)

  read_unknown :
      (way : Way) (min : ℤ) (meanwhile : String → TrafficStorage) (cs : Counters)
      → handed_out way 0 (read_counters true min uids meanwhile cs).1 ≡ 0
  unfolding read_counters
  read_unknown way min meanwhile [] = refl
  read_unknown way min meanwhile ((email, t) ∷ cs) =
      ground (arith, read_unknown way min meanwhile cs)

-- A read that resets, for each user id but 0 and for uploads and downloads alike: what is handed out for
-- the id, what its counters hold afterwards, and the bytes that arrive, during the read, at those of its
-- counters that are above the threshold make up what its counters held and what arrived. So these last
-- bytes are lost, and no others. Nothing is handed out for the id 0, which stands for an unknown user.
pub read_counters-reset :
    (way : Way) (uid : ℕ) (min : ℤ) (uids : Map String ℕ) (meanwhile : String → TrafficStorage)
    (cs : Counters)
    → nat_beq uid 0 ≡ false
    → let (left, slice) = read_counters true min uids meanwhile cs in
      (handed_out way uid slice + held uids way uid left + too_late uids way uid min meanwhile cs
        ≡ held uids way uid cs + arriving uids way uid meanwhile cs)
      × (handed_out way 0 slice ≡ 0)
read_counters-reset way uid min uids meanwhile cs h =
    (read_known uids way uid min meanwhile cs h, read_unknown uids way min meanwhile cs)

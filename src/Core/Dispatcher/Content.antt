-- ===== src/Core/Dispatcher/Content.antt =====
-- `sniffer` of core/xray/app/dispatcher/default.go: the attempts on the bytes that the client sends.
-- Times are in nanoseconds.
pub mod Ends
pub mod Stream
pub mod Finds
mod Tests
use ljfxznode.Common.{
  ℕ, ◌+◌, ◌*◌, ◌^◌, Bool, true, false, ◌||◌, Option, none, some, List, [], ◌∷◌, leb, ℤ, pos, ◌-ℤ◌,
  leb_ℤ, if◌then◌else◌,
}
use ljfxznode.Core.Dispatcher.Sniffing.{SniffResult}
use ljfxznode.Core.Dispatcher.Sniffers.{
  Verdict, found, no_clue, need_more, unknown, ProtocolSniffer, sniff, sniff_metadata,
  composite_result,
}
use ljfxznode.Core.Dispatcher.CachedReader.{CachedReader, cache_ahead}

-- What a round of the loop meets: whether the context is done, and how long `Cache` takes.
pub record Round : Type 0 where
  pub cancelled : Bool
  pub elapsed : ℕ

-- The variables of the loop.
pub record Attempt : Type 0 where
  pub reader : CachedReader
  pub sniffers : List ProtocolSniffer
  pub deadline : ℤ
  pub attempts : ℕ

-- The loop goes on, or returns a result or an error.
pub data Outcome : Type 0 where
  going_on : Outcome
  returns : SniffResult → Outcome
  fails : Outcome

abbrev pub cache_deadline : ℤ
cache_deadline = pos 200000000

-- The end of a round: `totalAttempt >= 2 || cacheDeadline <= 0`
unfoldable pub next_round : Attempt → Attempt × Outcome
next_round t = if leb 2 t.attempts || leb_ℤ t.deadline (pos 0) then (t, fails) else (t, going_on)

-- What follows the sniffers' verdict on a payload.
unfoldable pub after_verdict : Verdict → Attempt → Attempt × Outcome
unfolding next_round
after_verdict (found r) t = (t, returns r)
after_verdict no_clue t = next_round (record t { attempts = t.attempts + 1 })
after_verdict need_more t = next_round t
after_verdict unknown t = (t, fails)

unfoldable pub sniff_round : Bool → List ℕ → Attempt → Attempt × Outcome
unfolding sniff after_verdict
sniff_round network [] t = next_round (record t { attempts = t.attempts + 1 })
sniff_round network (b ∷ bs) t =
    let (sis, verdict) = sniff network (b ∷ bs) t.sniffers in
    after_verdict verdict (record t { sniffers = sis })

-- A round, with a buffer of that capacity.
unfoldable pub attempt_once : ℕ → Bool → Round → Attempt → Attempt × Outcome
unfolding cache_ahead sniff_round
attempt_once capacity network round t =
    if round.cancelled
    then (t, fails)
    else (let (reader, cached) = cache_ahead capacity t.reader in
        let t' = record t { reader = reader; deadline = t.deadline -ℤ pos round.elapsed } in
        elim cached [
          | none ↦ (record t { reader = reader }, fails)
          | some payload ↦ sniff_round network payload t'
        ])

abbrev pub is_over : Outcome → Bool
is_over going_on = false
is_over (returns r) = true
is_over fails = true

-- The loop, as long as there are rounds.
unfoldable pub sniff_content : ℕ → Bool → List Round → Attempt → Attempt × Outcome
unfolding attempt_once
sniff_content capacity network [] t = (t, going_on)
sniff_content capacity network (round ∷ rounds) t =
    let (t', outcome) = attempt_once capacity network round t in
    let later = sniff_content capacity network rounds t' in
    if is_over outcome then (t', outcome) else later

abbrev pub first_attempt : List ProtocolSniffer → CachedReader → Attempt
first_attempt sis r = record { reader = r; sniffers = sis; deadline = cache_deadline; attempts = 0 }

-- What is returned of the two results; the loop that still goes on returns nothing.
unfoldable pub combine : Verdict → Outcome → Option (Option SniffResult)
combine verdict going_on = none
combine (found m) (returns c) = some (some (composite_result m c))
combine (found m) fails = some (some m)
combine no_clue (returns c) = some (some c)
combine no_clue fails = some none
combine need_more (returns c) = some (some c)
combine need_more fails = some none
combine unknown (returns c) = some (some c)
combine unknown fails = some none

abbrev pub found_by : Verdict → Option SniffResult
found_by (found m) = some m
found_by no_clue = none
found_by need_more = none
found_by unknown = none

-- The whole of `sniffer`: the reader afterwards, and the result or an error.
unfoldable pub sniffer :
    ℕ
    → Bool
    → Bool
    → List ProtocolSniffer
    → List Round
    → CachedReader
    → CachedReader × Option (Option SniffResult)
unfolding sniff_metadata sniff_content combine
sniffer capacity metadata_only network sis rounds r =
    let (sis', verdict) = sniff_metadata sis in
    let (t, outcome) = sniff_content capacity network rounds (first_attempt sis' r) in
    if metadata_only then (r, some (found_by verdict)) else (t.reader, combine verdict outcome)

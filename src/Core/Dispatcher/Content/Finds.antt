-- ===== src/Core/Dispatcher/Content/Finds.antt =====
-- What a result of the loop of `sniffer` says.
use mathlib.Core.Path.{subst}
use ljfxznode.Common.{
  ℕ, ◌+◌, ◌≡◌, refl, ◌⊎◌, Bool, false, Option, none, some, List, [], ◌∷◌, ◌++◌, ℤ, pos, ◌-ℤ◌, leb,
  leb_ℤ, ◌||◌, Bool-cases, inl, inr,
}
use ljfxznode.Core.Dispatcher.Sniffing.{SniffResult}
use ljfxznode.Core.Dispatcher.Sniffers.{
  Verdict, found, no_clue, need_more, unknown, ProtocolSniffer, is_skipped, Walk, result, pending,
  keep_pending, judge, conclude, walk_payload, sniff,
}
use ljfxznode.Core.Dispatcher.CachedReader.{
  CachedReader, cache_ahead, cache_ahead-Keeps, all_bytes, stream, IsPrefix, cache_ahead-IsPrefix,
  IsClean,
}
use ljfxznode.Core.Dispatcher.Content.{
  Round, Attempt, Outcome, going_on, returns, fails, next_round, after_verdict, sniff_round,
  attempt_once, is_over, sniff_content, first_attempt,
}
use ljfxznode.Core.Dispatcher.Content.Stream.{attempt_once-Keeps}

module _ (network : Bool) where
  -- A sniffer of the list, one for the network's payloads, finds the result in the payload.
  abbrev pub FoundBy : SniffResult → List ℕ → List ProtocolSniffer → Type 0
  FoundBy c payload [] = ⊥
  FoundBy c payload (si ∷ sis) =
      ((is_skipped network si ≡ false) × (si.sniff_payload payload ≡ found c))
      ⊎ FoundBy c payload sis

  abbrev Narrows : List ProtocolSniffer → List ProtocolSniffer → Type 0
  Narrows sis left = (c : SniffResult) (q : List ℕ) → FoundBy c q left → FoundBy c q sis

  abbrev Sound : List ℕ → List ProtocolSniffer → Walk → Type 0
  Sound p sis (result c) = FoundBy c p sis
  Sound p sis (pending left) = Narrows sis left

  Sound-pass :
      (p : List ℕ) (si : ProtocolSniffer) (sis : List ProtocolSniffer) (w : Walk)
      → Sound p sis w
      → Sound p (si ∷ sis) w
  Sound-pass p si sis (result c) h = inr h
  Sound-pass p si sis (pending left) h = λ c q f. inr (h c q f)

  Sound-keep_pending :
      (p : List ℕ) (si : ProtocolSniffer) (sis : List ProtocolSniffer) (w : Walk)
      → Sound p sis w
      → Sound p (si ∷ sis) (keep_pending si w)
  Sound-keep_pending p si sis (result c) h = inr h
  Sound-keep_pending p si sis (pending left) h =
      λ c q f. elim f [ inl e ↦ inl e | inr g ↦ inr (h c q g) ]

  Sound-judge :
      (p : List ℕ) (si : ProtocolSniffer) (sis : List ProtocolSniffer) (w : Walk) (v : Verdict)
      → is_skipped network si ≡ false
      → si.sniff_payload p ≡ v
      → Sound p sis w
      → Sound p (si ∷ sis) (judge si v w)
  unfolding judge
  Sound-judge p si sis w (found r) s e h = inl (s, e)
  Sound-judge p si sis w no_clue s e h = Sound-keep_pending p si sis w h
  Sound-judge p si sis w need_more s e h = Sound-pass p si sis w h
  Sound-judge p si sis w unknown s e h = Sound-pass p si sis w h

  walk_payload-Sound :
      (p : List ℕ) (sis : List ProtocolSniffer) → Sound p sis (walk_payload network p sis)
  unfolding walk_payload
  walk_payload-Sound p [] = λ c q f. f
  walk_payload-Sound p (si ∷ sis) =
      let h = walk_payload-Sound p sis in
      let w = walk_payload network p sis in
      elim (Bool-cases (is_skipped network si))
        as (λ _. Sound p (si ∷ sis) (walk_payload network p (si ∷ sis))) [
          | inl e ↦ rw e (Sound-pass p si sis w h)
          | inr e ↦ rw e (Sound-judge p si sis w (si.sniff_payload p) e refl h)
        ]

  abbrev Says : List ℕ → List ProtocolSniffer → Verdict → Type 0
  Says p sis (found c) = FoundBy c p sis
  Says p sis no_clue = Unit
  Says p sis need_more = Unit
  Says p sis unknown = Unit

  conclude-Says :
      (p : List ℕ) (sis : List ProtocolSniffer) (w : Walk)
      → Sound p sis w
      → Narrows sis (conclude sis w).0 × Says p sis (conclude sis w).1
  unfolding conclude
  conclude-Says p sis (result c) h = (λ d q f. f, h)
  conclude-Says p sis (pending []) h = (λ d q f. f, tt)
  conclude-Says p sis (pending (si ∷ left)) h = (h, tt)

  -- A result that a sniffer found in a beginning of the stream.
  abbrev Origin : List ProtocolSniffer → List ℕ → Outcome → Type 0
  Origin sis s going_on = Unit
  Origin sis s (returns c) = (p : List ℕ) × (IsPrefix p s × FoundBy c p sis)
  Origin sis s fails = Unit

  abbrev Sure : List ProtocolSniffer → List ℕ → Attempt × Outcome → Type 0
  Sure sis s (t, outcome) = Narrows sis t.sniffers × Origin sis s outcome

  Origin-trans :
      (sis left : List ProtocolSniffer) (s : List ℕ) (outcome : Outcome)
      → Narrows sis left
      → Origin left s outcome
      → Origin sis s outcome
  Origin-trans sis left s going_on h o = tt
  Origin-trans sis left s (returns c) h (p, (before, f)) = (p, (before, h c p f))
  Origin-trans sis left s fails h o = tt

  next_round-Sure :
      (sis : List ProtocolSniffer) (s : List ℕ) (t : Attempt)
      → Narrows sis t.sniffers
      → Sure sis s (next_round t)
  unfolding next_round
  next_round-Sure sis s t h =
      elim (Bool-cases (leb 2 t.attempts || leb_ℤ t.deadline (pos 0)))
        as (λ _. Sure sis s (next_round t)) [ inl e ↦ rw e (h, tt) | inr e ↦ rw e (h, tt) ]

  after_verdict-Sure :
      (sis : List ProtocolSniffer) (p s : List ℕ) (v : Verdict) (t : Attempt)
      → IsPrefix p s
      → Narrows sis t.sniffers
      → Says p sis v
      → Sure sis s (after_verdict v t)
  unfolding after_verdict
  after_verdict-Sure sis p s (found c) t before h f = (h, (p, (before, f)))
  after_verdict-Sure sis p s no_clue t before h f =
      next_round-Sure sis s (record t { attempts = t.attempts + 1 }) h
  after_verdict-Sure sis p s need_more t before h f = next_round-Sure sis s t h
  after_verdict-Sure sis p s unknown t before h f = (h, tt)

  sniff_round-Sure :
      (p s : List ℕ) (t : Attempt) → IsPrefix p s → Sure t.sniffers s (sniff_round network p t)
  unfolding sniff_round sniff
  sniff_round-Sure [] s t before =
      next_round-Sure t.sniffers s (record t { attempts = t.attempts + 1 }) (λ d q f. f)
  sniff_round-Sure (b ∷ bs) s t before =
      let w = walk_payload network (b ∷ bs) t.sniffers in
      let (h, f) = conclude-Says (b ∷ bs) t.sniffers w (walk_payload-Sound (b ∷ bs) t.sniffers) in
      after_verdict-Sure t.sniffers (b ∷ bs) s (conclude t.sniffers w).1
        (record t { sniffers = (conclude t.sniffers w).0 }) before h f

  cached_Sure :
      (s : List ℕ) (t : Attempt) (r : CachedReader) (deadline : ℤ) (cached : Option (List ℕ))
      → ((p : List ℕ) → cached ≡ some p → IsPrefix p s)
      → Sure t.sniffers s (elim cached as (λ _. Attempt × Outcome) [
        | none ↦ (record t { reader = r }, fails)
        | some payload ↦ sniff_round network payload (record t { reader = r; deadline = deadline })
      ])
  cached_Sure s t r deadline none before = (λ d q f. f, tt)
  cached_Sure s t r deadline (some p) before =
      sniff_round-Sure p s (record t { reader = r; deadline = deadline }) (before p refl)

  attempt_once-Sure :
      (capacity : ℕ) (round : Round) (t : Attempt)
      → IsClean t.reader.source
      → Sure t.sniffers (stream t.reader) (attempt_once capacity network round t)
  unfolding attempt_once
  attempt_once-Sure capacity round t clean =
      elim (Bool-cases round.cancelled)
        as (λ _. Sure t.sniffers (stream t.reader) (attempt_once capacity network round t)) [
          | inl e ↦ rw e (λ d q f. f, tt)
          | inr e ↦ rw e (
              cached_Sure (stream t.reader) t (cache_ahead capacity t.reader).0
                (t.deadline -ℤ pos round.elapsed) (cache_ahead capacity t.reader).1
                (λ p g.
                  subst (IsPrefix p) (cache_ahead-Keeps capacity t.reader clean).same_stream
                    (cache_ahead-IsPrefix capacity t.reader p g)))
        ]

  sniff_content-Sure :
      (capacity : ℕ) (rounds : List Round) (t : Attempt)
      → IsClean t.reader.source
      → Sure t.sniffers (stream t.reader) (sniff_content capacity network rounds t)
  unfolding sniff_content
  sniff_content-Sure capacity [] t clean = (λ d q f. f, tt)
  sniff_content-Sure capacity (round ∷ rounds) t clean =
      let k = attempt_once-Keeps capacity network round t clean in
      let (h, o) = attempt_once-Sure capacity round t clean in
      let t' = (attempt_once capacity network round t).0 in
      let (h', o') = sniff_content-Sure capacity rounds t' k.clean in
      let (u, outcome) = sniff_content capacity network rounds t' in
      elim (Bool-cases (is_over (attempt_once capacity network round t).1))
        as (λ _.
          Sure t.sniffers (stream t.reader) (sniff_content capacity network (round ∷ rounds) t)) [
            | inl e ↦ rw e (h, o)
            | inr e ↦ rw e (
              λ d q f. h d q (h' d q f),
              Origin-trans t.sniffers t'.sniffers (stream t.reader) outcome h
                  (subst (λ s. Origin t'.sniffers s outcome) k.same_stream o'),
            )
          ]

-- A result that the loop of `sniffer` returns was found by one of its sniffers, one that is for the
-- connection's network and not for metadata, in a beginning of the bytes that the client sends. Condition:
-- an error of the underlying reader comes without bytes.
pub sniff_content-FoundBy :
    (capacity : ℕ) (network : Bool) (sis : List ProtocolSniffer) (rounds : List Round)
    (r : CachedReader) (c : SniffResult)
    → IsClean r.source
    → (sniff_content capacity network rounds (first_attempt sis r)).1 ≡ returns c
    → (p : List ℕ) × (IsPrefix p (r.cache ++ all_bytes r.source) × FoundBy network c p sis)
sniff_content-FoundBy capacity network sis rounds r c clean e =
    subst (Origin network sis (stream r)) e
      (sniff_content-Sure network capacity rounds (first_attempt sis r) clean).1

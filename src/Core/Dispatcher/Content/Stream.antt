-- ===== src/Core/Dispatcher/Content/Stream.antt =====
-- Sniffing and the bytes that the client sends.
use ljfxznode.Common.{
  ℕ, ◌+◌, ◌≤◌, ◌<◌, ◌≡◌, refl, ap, ◌∙◌, Bool, true, false, ◌||◌, Option, none, some, List, [], ◌∷◌,
  ◌++◌, length, leb, ℤ, pos, ◌-ℤ◌, leb_ℤ, if◌then◌else◌, Bool-cases, inl, inr, arith,
}
use ljfxznode.Core.Dispatcher.Sniffers.{
  Verdict, found, no_clue, need_more, unknown, ProtocolSniffer, sniff, sniff_metadata,
}
use ljfxznode.Core.Dispatcher.CachedReader.{
  CachedReader, cache_ahead, all_bytes, IsClean, read_all, read_all-stream, Keeps, Keeps-trans,
  Keeps-self, cache_ahead-Keeps,
}
use ljfxznode.Core.Dispatcher.Content.{
  Round, Attempt, Outcome, going_on, fails, next_round, after_verdict, sniff_round, attempt_once,
  is_over, sniff_content, first_attempt, sniffer,
}

if_first :
    {A B : Type 0} (b : Bool) (a : A) (x y : B) → (if◌then◌else◌ {A = A × B} b (a, x) (a, y)).0 ≡ a
if_first true a x y = refl
if_first false a x y = refl

next_round-reader : (t : Attempt) → (next_round t).0.reader ≡ t.reader
unfolding next_round
next_round-reader t =
    ap Attempt.reader (if_first (leb 2 t.attempts || leb_ℤ t.deadline (pos 0)) t fails going_on)

after_verdict-reader : (v : Verdict) (t : Attempt) → (after_verdict v t).0.reader ≡ t.reader
unfolding after_verdict
after_verdict-reader (found r) t = refl
after_verdict-reader no_clue t = next_round-reader (record t { attempts = t.attempts + 1 })
after_verdict-reader need_more t = next_round-reader t
after_verdict-reader unknown t = refl

sniff_round-reader :
    (network : Bool) (payload : List ℕ) (t : Attempt)
    → (sniff_round network payload t).0.reader ≡ t.reader
unfolding sniff_round
sniff_round-reader network [] t = next_round-reader (record t { attempts = t.attempts + 1 })
sniff_round-reader network (b ∷ bs) t =
    after_verdict-reader (sniff network (b ∷ bs) t.sniffers).1
      (record t { sniffers = (sniff network (b ∷ bs) t.sniffers).0 })

cached_reader :
    (network : Bool) (t : Attempt) (r : CachedReader) (deadline : ℤ) (cached : Option (List ℕ))
    → (elim cached as (λ _. Attempt × Outcome) [
      | none ↦ (record t { reader = r }, fails)
      | some payload ↦ sniff_round network payload (record t { reader = r; deadline = deadline })
    ]).0.reader
      ≡ r
cached_reader network t r deadline none = refl
cached_reader network t r deadline (some payload) =
    sniff_round-reader network payload (record t { reader = r; deadline = deadline })

pub attempt_once-Keeps :
    (capacity : ℕ) (network : Bool) (round : Round) (t : Attempt)
    → IsClean t.reader.source
    → Keeps t.reader (attempt_once capacity network round t).0.reader
unfolding attempt_once
attempt_once-Keeps capacity network round t h =
    elim (Bool-cases round.cancelled)
      as (λ _. Keeps t.reader (attempt_once capacity network round t).0.reader) [
        | inl e ↦ rw e (Keeps-self t.reader h)
        | inr e ↦
            rw
              (
                e,
                cached_reader network t (cache_ahead capacity t.reader).0
                    (t.deadline -ℤ pos round.elapsed) (cache_ahead capacity t.reader).1,
              )
              (cache_ahead-Keeps capacity t.reader h)
      ]

sniff_content-Keeps :
    (capacity : ℕ) (network : Bool) (rounds : List Round) (t : Attempt)
    → IsClean t.reader.source
    → Keeps t.reader (sniff_content capacity network rounds t).0.reader
unfolding sniff_content
sniff_content-Keeps capacity network [] t h = Keeps-self t.reader h
sniff_content-Keeps capacity network (round ∷ rounds) t h =
    let k = attempt_once-Keeps capacity network round t h in
    let later =
      sniff_content-Keeps capacity network rounds (attempt_once capacity network round t).0
        k.clean in
    elim (Bool-cases (is_over (attempt_once capacity network round t).1))
      as (λ _. Keeps t.reader (sniff_content capacity network (round ∷ rounds) t).0.reader) [
        | inl e ↦ rw e k
        | inr e ↦ rw e (Keeps-trans k later)
      ]

sniffer-Keeps :
    (capacity : ℕ) (metadata_only network : Bool) (sis : List ProtocolSniffer) (rounds : List Round)
    (r : CachedReader)
    → IsClean r.source
    → Keeps r (sniffer capacity metadata_only network sis rounds r).0
unfolding sniffer
sniffer-Keeps capacity true network sis rounds r h = Keeps-self r h
sniffer-Keeps capacity false network sis rounds r h =
    sniff_content-Keeps capacity network rounds (first_attempt (sniff_metadata sis).0 r) h

-- Sniffing loses none of the client's bytes, adds none and keeps their order, whatever the sniffers say
-- and wherever the loop ends: the reads that come after it, at least one more than the answers that the
-- client's side has left to give, give what was cached before it and all bytes of those answers.
-- Condition: an error of the underlying reader comes without bytes.
pub sniffer-read_all :
    (capacity : ℕ) (metadata_only network : Bool) (sis : List ProtocolSniffer) (rounds : List Round)
    (r : CachedReader) (n : ℕ)
    → IsClean r.source
    → length r.source < n
    → read_all n (sniffer capacity metadata_only network sis rounds r).0
      ≡ r.cache ++ all_bytes r.source
sniffer-read_all capacity metadata_only network sis rounds r n h more =
    let k = sniffer-Keeps capacity metadata_only network sis rounds r h in
    let fewer : length (sniffer capacity metadata_only network sis rounds r).0.source
        ≤ length r.source =
      k.fewer in
    read_all-stream n (sniffer capacity metadata_only network sis rounds r).0 (omega arith)
    ∙ k.same_stream

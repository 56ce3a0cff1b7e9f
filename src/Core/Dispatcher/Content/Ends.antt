-- ===== src/Core/Dispatcher/Content/Ends.antt =====
-- The loop of `sniffer` ends.
use ljfxznode.Common.{
  ℕ, ◌+◌, ◌≡◌, refl, sym, ap, ◌∙◌, ◌⊎◌, Bool, true, false, Option, none, some, List, [], ◌∷◌, leb,
  ℤ, pos, ◌-ℤ◌, leb_ℤ, Bool-cases, false_true, inl, inr,
}
use ljfxznode.Core.Dispatcher.Sniffers.{
  Verdict, found, no_clue, need_more, unknown, ProtocolSniffer, Walk, result, pending, conclude,
  walk_payload, sniff,
}
use ljfxznode.Core.Dispatcher.CachedReader.{CachedReader, cache_ahead}
use ljfxznode.Core.Dispatcher.Content.{
  Round, Attempt, Outcome, fails, next_round, after_verdict, sniff_round, attempt_once, is_over,
  sniff_content, first_attempt,
}

-- A round that ended the loop, or the second it leaves to come.
abbrev Counts : ℕ → Attempt × Outcome → Type 0
Counts n (t, outcome) =
    (is_over outcome ≡ true)
    ⊎ ((is_over outcome ≡ false) × (t.attempts ≡ n + 1) × (leb 2 (n + 1) ≡ false))

next_round-Counts : (n : ℕ) (t : Attempt) → t.attempts ≡ n + 1 → Counts n (next_round t)
unfolding next_round
next_round-Counts n t e = elim (Bool-cases (leb 2 t.attempts)) as (λ _. Counts n (next_round t)) [
  | inl f ↦ rw f (inl refl)
  | inr f ↦ elim (Bool-cases (leb_ℤ t.deadline (pos 0))) as (λ _. Counts n (next_round t)) [
    | inl g ↦ rw (f, g) (inl refl)
    | inr g ↦ rw (f, g) (inr (refl, e, ap (leb 2) (sym e) ∙ f))
  ]
]

abbrev asks_more : Verdict → Bool
asks_more (found r) = false
asks_more no_clue = false
asks_more need_more = true
asks_more unknown = false

conclude-asks_more : (sis : List ProtocolSniffer) (w : Walk) → asks_more (conclude sis w).1 ≡ false
unfolding conclude
conclude-asks_more sis (result r) = refl
conclude-asks_more sis (pending []) = refl
conclude-asks_more sis (pending (si ∷ left)) = refl

after_verdict-Counts :
    (v : Verdict) (t : Attempt) → asks_more v ≡ false → Counts t.attempts (after_verdict v t)
unfolding after_verdict
after_verdict-Counts (found r) t e = inl refl
after_verdict-Counts no_clue t e =
    next_round-Counts t.attempts (record t { attempts = t.attempts + 1 }) refl
after_verdict-Counts need_more t e = false_true (sym e)
after_verdict-Counts unknown t e = inl refl

sniff_round-Counts :
    (network : Bool) (payload : List ℕ) (t : Attempt)
    → Counts t.attempts (sniff_round network payload t)
unfolding sniff_round sniff
sniff_round-Counts network [] t =
    next_round-Counts t.attempts (record t { attempts = t.attempts + 1 }) refl
sniff_round-Counts network (b ∷ bs) t =
    let w = walk_payload network (b ∷ bs) t.sniffers in
    after_verdict-Counts (conclude t.sniffers w).1
      (record t { sniffers = (conclude t.sniffers w).0 }) (conclude-asks_more t.sniffers w)

cached_Counts :
    (network : Bool) (t : Attempt) (r : CachedReader) (deadline : ℤ) (cached : Option (List ℕ))
    → Counts t.attempts (elim cached as (λ _. Attempt × Outcome) [
      | none ↦ (record t { reader = r }, fails)
      | some payload ↦ sniff_round network payload (record t { reader = r; deadline = deadline })
    ])
cached_Counts network t r deadline none = inl refl
cached_Counts network t r deadline (some payload) =
    sniff_round-Counts network payload (record t { reader = r; deadline = deadline })

attempt_once-Counts :
    (capacity : ℕ) (network : Bool) (round : Round) (t : Attempt)
    → Counts t.attempts (attempt_once capacity network round t)
unfolding attempt_once
attempt_once-Counts capacity network round t =
    elim (Bool-cases round.cancelled)
      as (λ _. Counts t.attempts (attempt_once capacity network round t)) [
        | inl e ↦ rw e (inl refl)
        | inr e ↦ rw e (
            cached_Counts network t (cache_ahead capacity t.reader).0
              (t.deadline -ℤ pos round.elapsed) (cache_ahead capacity t.reader).1)
      ]

-- The second round is the last.
last_round :
    (capacity : ℕ) (network : Bool) (round : Round) (rounds : List Round) (t : Attempt)
    → t.attempts ≡ 1
    → (sniff_content capacity network (round ∷ rounds) t
        ≡ sniff_content capacity network (round ∷ []) t)
      × (is_over (sniff_content capacity network (round ∷ rounds) t).1 ≡ true)
unfolding sniff_content
last_round capacity network round rounds t e = elim (attempt_once-Counts capacity network round t) [
  | inl over ↦ rw over (refl, over)
  | inr (on, more, left) ↦ false_true (sym left ∙ ap (λ n. leb 2 (n + 1)) e)
]

-- The loop of `sniffer` ends in its second round at the latest: it returns a result or an error, and
-- does not look at the rounds after that, since no walk over the sniffers says that it needs more data.
pub sniff_content-two_rounds :
    (capacity : ℕ) (network : Bool) (sis : List ProtocolSniffer) (r : CachedReader)
    (first second : Round) (rounds : List Round)
    → (sniff_content capacity network (first ∷ second ∷ rounds) (first_attempt sis r)
        ≡ sniff_content capacity network (first ∷ second ∷ []) (first_attempt sis r))
      × (is_over (sniff_content capacity network (first ∷ second ∷ rounds) (first_attempt sis r)).1
          ≡ true)
unfolding sniff_content
sniff_content-two_rounds capacity network sis r first second rounds =
    let t = first_attempt sis r in
    elim (attempt_once-Counts capacity network first t) [
      | inl over ↦ rw over (refl, over)
      | inr (on, more, left) ↦
          rw on (
            last_round capacity network second rounds (attempt_once capacity network first t).0
              more)
    ]

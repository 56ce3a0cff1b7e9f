-- ===== src/Panel/Socket/Backoff.antt =====
-- `Run` of api/panel/ws.go: how long the client waits before it connects again. Times are nanoseconds.
use native.Mathlib.Nat.{mod-lt}
use ljfxznode.Common.{
  ℕ, ◌+◌, ◌*◌, ◌/◌, ◌%◌, ◌≤◌, ◌<◌, ◌≡◌, ◌⊎◌, refl, inl, inr, List, [], ◌∷◌, ltb, arith,
  if◌then◌else◌, Bool-cases,
}
use ljfxznode.Limiter.State.{second}

abbrev pub max_backoff : ℕ
max_backoff = 60 * second

-- An attempt: how long it lasted, and the random number drawn after it.
pub record Attempt : Type 0 where
  pub elapsed : ℕ
  pub random : ℕ

-- A connection of more than two minutes starts the backoff anew.
unfoldable pub reset_backoff : ℕ → ℕ → ℕ
reset_backoff elapsed backoff = if ltb (120 * second) elapsed then second else backoff

-- `backoff + jitter`, where `rand.Int63n(n)` is below `n`.
unfoldable pub wait_time : ℕ → ℕ → ℕ
wait_time random backoff = backoff + random % (backoff / 5)

unfoldable pub next_backoff : ℕ → ℕ
next_backoff backoff = if ltb backoff max_backoff then backoff * 2 else backoff

-- The waits of `Run` after a sequence of attempts.
unfoldable pub waits_from : ℕ → List Attempt → List ℕ
unfolding reset_backoff wait_time next_backoff
waits_from backoff [] = []
waits_from backoff (a ∷ rest) =
    let b = reset_backoff a.elapsed backoff in
    wait_time a.random b ∷ waits_from (next_backoff b) rest

abbrev pub run_waits : List Attempt → List ℕ
run_waits attempts = waits_from second attempts

-- The values that the backoff takes.
abbrev IsBackoff : ℕ → Type 0
IsBackoff b =
    (b ≡ second)
    ⊎ (b ≡ 2 * second)
    ⊎ (b ≡ 4 * second)
    ⊎ (b ≡ 8 * second)
    ⊎ (b ≡ 16 * second)
    ⊎ (b ≡ 32 * second)
    ⊎ (b ≡ 64 * second)

reset_backoff-IsBackoff : (elapsed b : ℕ) → IsBackoff b → IsBackoff (reset_backoff elapsed b)
unfolding reset_backoff
reset_backoff-IsBackoff elapsed b h = elim (Bool-cases (ltb (120 * second) elapsed)) [
  | inl long ↦ rw long (inl refl)
  | inr short ↦ rw short h
]

next_backoff-IsBackoff : (b : ℕ) → IsBackoff b → IsBackoff (next_backoff b)
unfolding next_backoff
next_backoff-IsBackoff b h = ground arith

-- At least a second, and less than 76.8 seconds.
abbrev pub InBounds : ℕ → Type 0
InBounds w = (second ≤ w) × (w * 5 < 384 * second)

IsBackoff-bounds : (b : ℕ) → IsBackoff b → (second ≤ b) × (b ≤ 64 * second)
IsBackoff-bounds b h = ground arith

wait_time-InBounds : (random b : ℕ) → IsBackoff b → InBounds (wait_time random b)
unfolding wait_time
wait_time-InBounds random b h =
    let (low, high) = IsBackoff-bounds b h in
    let small = mod-lt random {m = b / 5} (omega arith) in (omega arith, omega arith)

abbrev pub AllInBounds : List ℕ → Type 0
AllInBounds [] = Unit
AllInBounds (w ∷ rest) = InBounds w × AllInBounds rest

waits_from-AllInBounds :
    (b : ℕ) (attempts : List Attempt) → IsBackoff b → AllInBounds (waits_from b attempts)
unfolding waits_from
waits_from-AllInBounds b [] h = tt
waits_from-AllInBounds b (a ∷ rest) h =
    let h' = reset_backoff-IsBackoff a.elapsed b h in
    (
      wait_time-InBounds a.random (reset_backoff a.elapsed b) h',
      waits_from-AllInBounds (next_backoff (reset_backoff a.elapsed b)) rest
          (next_backoff-IsBackoff (reset_backoff a.elapsed b) h'),
    )

abbrev pub AllQuick : List Attempt → Type 0
AllQuick [] = Unit
AllQuick (a ∷ rest) = (a.elapsed ≤ 120 * second) × AllQuick rest

-- The attempts that end the doubling.
abbrev pub LastWait : List ℕ → Type 0
LastWait (a ∷ b ∷ c ∷ d ∷ e ∷ f ∷ w ∷ []) = 64 * second ≤ w
LastWait _ = ⊥

quick_wait : (b elapsed : ℕ) → elapsed ≤ 120 * second → reset_backoff elapsed b ≡ b
unfolding reset_backoff
quick_wait b elapsed h = ground arith

-- Every wait is of a second at least and of less than 76.8 seconds; after six attempts of at most two
-- minutes each the seventh such attempt is followed by a wait above `maxBackoff`.
pub run_waits-bounds :
    (attempts : List Attempt)
    → AllInBounds (run_waits attempts)
      × ((a b c d e f g : Attempt)
          → AllQuick (a ∷ b ∷ c ∷ d ∷ e ∷ f ∷ g ∷ [])
          → LastWait (run_waits (a ∷ b ∷ c ∷ d ∷ e ∷ f ∷ g ∷ [])))
unfolding waits_from next_backoff wait_time
run_waits-bounds attempts = (
  waits_from-AllInBounds second attempts (inl refl),
  λ a b c d e f g quick.
      rw
        (
          quick_wait second a.elapsed quick.0,
          quick_wait (2 * second) b.elapsed quick.1.0,
          quick_wait (4 * second) c.elapsed quick.1.1.0,
          quick_wait (8 * second) d.elapsed quick.1.1.1.0,
          quick_wait (16 * second) e.elapsed quick.1.1.1.1.0,
          quick_wait (32 * second) f.elapsed quick.1.1.1.1.1.0,
          quick_wait (64 * second) g.elapsed quick.1.1.1.1.1.1.0,
        )
        (omega arith),
)

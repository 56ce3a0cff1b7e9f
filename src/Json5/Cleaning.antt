-- ===== src/Json5/Cleaning.antt =====
-- The loops of common/json5/json5.go end, and blank bytes at most.
use ljfxznode.Common.{
  ℕ, zero, suc, ◌+◌, ◌-◌, ◌<◌, ◌≡◌, refl, Bool, true, false, Option, some, List, arith, length,
  nat_key, ◌==◌, ◌&&◌, ◌||◌, not, if◌then◌else◌, Bool-cases, inl, inr,
}
use ljfxznode.Json5.{
  Scan, within, here, advance, wipe, line_comment, block_comment, consume_block, consume_comment,
  skip_string, after_comma, prep_step, prep_loop, prep, is_nl, is_ws,
}
use ljfxznode.Json5.Blanks.{
  Blanked, Cleans, Cleans-trans, advance-Cleans, wipe-Cleans, Ends, Ends-here, Ends-at, Ends-from,
  Ends->>=, left, left-Cleans,
}

-- On a test, each branch ends.
Ends-if :
    {s : Scan} (b : Bool) (o o' : Option Scan)
    → (b ≡ true → Ends s o)
    → (b ≡ false → Ends s o')
    → Ends s (if b then o else o')
Ends-if true o o' p q = p refl
Ends-if false o o' p q = q refl

-- A byte is blanked and the loop goes on.
step_over : (s : Scan) → Cleans s (advance (wipe s.at s))
step_over s =
    Cleans-trans s (wipe s.at s) (advance (wipe s.at s)) (wipe-Cleans s.at s)
      (advance-Cleans (wipe s.at s))

-- A round within the bytes leaves fewer.
left-advance : (s : Scan) → within s ≡ true → left (advance s) < left s
left-advance s h = ground arith

left-step_over : (s : Scan) → within s ≡ true → left (advance (wipe s.at s)) < left s
left-step_over s h = omega (arith, (step_over s).same_length, left-advance s h)

and_left : (a b : Bool) → (a && b) ≡ true → a ≡ true
and_left true b h = refl
and_left false b h = h

line_comment-Ends : (fuel : ℕ) (s : Scan) → left s < fuel → Ends s (line_comment fuel s)
unfolding line_comment
line_comment-Ends zero s h = absurd (omega arith)
line_comment-Ends (suc fuel) s h =
    Ends-if (within s && not (is_nl (here s))) _ _
      (λ go. Ends-from (step_over s) (
        line_comment-Ends fuel (advance (wipe s.at s))
          (omega (arith, left-step_over s (and_left (within s) _ go)))))
      (λ stop. Ends-here s)

block_comment-Ends : (fuel : ℕ) (s : Scan) → left s < fuel → Ends s (block_comment fuel s)
unfolding block_comment
block_comment-Ends zero s h = absurd (omega arith)
block_comment-Ends (suc fuel) s h = elim (Bool-cases (within s)) [
  | inr out ↦ rw out (Ends-here s)
  | inl go ↦
      let s' = advance (wipe s.at s) in
      let less : left s' < left s = left-step_over s go in
      let skip = advance-Cleans s' in
      rw go (
        Ends-if (not (here s == b'*')) _ _
          (λ _. Ends-from (step_over s) (block_comment-Ends fuel s' (omega arith)))
          (λ _.
            Ends-if (within s' && here s' == b'/') _ _
              (λ _. Ends-at (Cleans-trans s s' _ (step_over s) (wipe-Cleans (s.at + 1) s')))
              (λ _.
                Ends-from (Cleans-trans s s' _ (step_over s) skip)
                  (block_comment-Ends fuel (advance s') (omega (arith, left-Cleans skip))))))
]

consume_block-Ends : (fuel : ℕ) (s : Scan) → left s < fuel → Ends s (consume_block fuel s)
unfolding consume_block
consume_block-Ends fuel s h =
    let before = wipe-Cleans (s.at - 1) s in
    let opened =
      Cleans-trans s (wipe (s.at - 1) s) (wipe s.at (wipe (s.at - 1) s)) before
        (wipe-Cleans s.at (wipe (s.at - 1) s)) in
    Ends-if (within s && here s == b'*') _ _
      (λ _. Ends-from opened (block_comment-Ends fuel _ (omega (arith, left-Cleans opened))))
      (λ _. Ends-here s)

consume_comment-Ends : (fuel : ℕ) (s : Scan) → left s < fuel → Ends s (consume_comment fuel s)
unfolding consume_comment
consume_comment-Ends fuel s h =
    let before = wipe-Cleans (s.at - 1) s in
    Ends-if (within s && here s == b'/') _ _
      (λ _.
        Ends->>= (line_comment fuel (wipe (s.at - 1) s)) (consume_block fuel)
          (Ends-from before
            (line_comment-Ends fuel (wipe (s.at - 1) s) (omega (arith, left-Cleans before))))
          (λ t c. consume_block-Ends fuel t (omega (arith, left-Cleans c))))
      (λ _. consume_block-Ends fuel s h)

skip_string-Ends : (fuel : ℕ) (s : Scan) → left s < fuel → Ends s (skip_string fuel s)
unfolding skip_string
skip_string-Ends zero s h = absurd (omega arith)
skip_string-Ends (suc fuel) s h = elim (Bool-cases (within s)) [
  | inr out ↦ rw out (Ends-here s)
  | inl go ↦
      let less : left (advance s) < left s = left-advance s go in
      rw go (
        Ends-if (here s == b'"') _ _ (λ _. Ends-at (advance-Cleans s))
          (λ _. elim (Bool-cases (here s == b'\\')) [
            | inl esc ↦ rw esc (
                Ends-from
                  (Cleans-trans s (advance s) _ (advance-Cleans s) (advance-Cleans (advance s)))
                  (skip_string-Ends fuel (advance (advance s))
                    (omega (arith, left-Cleans (advance-Cleans (advance s))))))
            | inr plain ↦
                rw plain
                  (Ends-from (advance-Cleans s) (skip_string-Ends fuel (advance s) (omega arith)))
          ]))
]

after_comma-Ends :
    (fuel comma : ℕ) (s : Scan)
    → left (advance s) < fuel
    → Ends (advance s) (after_comma fuel comma s)
unfolding after_comma
after_comma-Ends zero comma s h = absurd (omega arith)
after_comma-Ends (suc fuel) comma s h = elim (Bool-cases (within (advance s))) [
  | inr out ↦ rw out (Ends-here (advance s))
  | inl go ↦
      let s' = advance s in
      let less : left (advance s') < left s' = left-advance s' go in
      rw go (
        Ends-if (here s' == b'}' || here s' == b']') _ _ (λ _. Ends-at (wipe-Cleans comma s'))
          (λ _.
            Ends-if (here s' == b'/') _ _
              (λ _. Ends-from (advance-Cleans s') (
                Ends->>= (consume_comment fuel (advance s')) (after_comma fuel comma)
                  (consume_comment-Ends fuel (advance s') (omega arith))
                  (λ t c. Ends-from (advance-Cleans t) (
                    after_comma-Ends fuel comma t
                      (omega (arith, left-Cleans c, left-Cleans (advance-Cleans t)))))))
              (λ _.
                Ends-if (not (is_ws (here s'))) _ _ (λ _. Ends-here s')
                  (λ _.
                    Ends-from (advance-Cleans s') (after_comma-Ends fuel comma s' (omega arith))))))
]

-- A round of `prep` moves on.
prep_step-Ends :
    (fuel : ℕ) (s : Scan) → left (advance s) < fuel → Ends (advance s) (prep_step fuel s)
unfolding prep_step
prep_step-Ends fuel s h =
    Ends-if (here s == b'"') _ _ (λ _. skip_string-Ends fuel (advance s) h)
      (λ _.
        Ends-if (here s == b'/') _ _ (λ _. consume_comment-Ends fuel (advance s) h)
          (λ _.
            Ends-if (here s == b',') _ _ (λ _. after_comma-Ends fuel s.at s h)
              (λ _. Ends-here (advance s))))

prep_loop-Ends : (fuel : ℕ) (s : Scan) → left s < fuel → Ends s (prep_loop fuel s)
unfolding prep_loop
prep_loop-Ends zero s h = absurd (omega arith)
prep_loop-Ends (suc fuel) s h = elim (Bool-cases (within s)) [
  | inr out ↦ rw out (Ends-here s)
  | inl go ↦
      let less : left (advance s) < left s = left-advance s go in
      rw go (
        Ends-from (advance-Cleans s) (
          Ends->>= (prep_step fuel s) (prep_loop fuel) (prep_step-Ends fuel s (omega arith))
            (λ t c. prep_loop-Ends fuel t (omega (arith, left-Cleans c)))))
]

-- With fuel above the length of the text, `prep` ends: its result has the text's length, and holds at
-- each place the text's byte or a blank.
pub prep-Blanked :
    (fuel : ℕ) (text : List ℕ)
    → length text < fuel
    → (cleaned : List ℕ) × (prep fuel text ≡ some cleaned)
      × (length cleaned ≡ length text)
      × Blanked text cleaned
unfolding prep
prep-Blanked fuel text h =
    let start : Scan = record { bytes = text; at = 0 } in
    let e = prep_loop-Ends fuel start (omega arith) in
    (e.result.bytes, rw e.ends, e.cleans.same_length, e.cleans.blanks)

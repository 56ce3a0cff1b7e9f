-- ===== src/Json5/Blanks.antt =====
-- What the loops of common/json5/json5.go do to the bytes: some become blanks, the others stay.
use ljfxznode.Common.{
  ℕ, zero, suc, ◌-◌, ◌≤◌, ◌≡◌, refl, ◌⊎◌, inl, inr, Option, some, List, [], ◌∷◌, arith, length, set,
  ◌>>=◌, >>=-some,
}
use ljfxznode.Json5.{Scan, blank, advance, wipe}

-- The second text is the first with some bytes blanked.
abbrev pub Blanked : List ℕ → List ℕ → Type 0
Blanked [] [] = Unit
Blanked [] (y ∷ ys) = ⊥
Blanked (x ∷ xs) [] = ⊥
Blanked (x ∷ xs) (y ∷ ys) = ((y ≡ x) ⊎ (y ≡ blank)) × Blanked xs ys

pub Blanked-refl : (xs : List ℕ) → Blanked xs xs
Blanked-refl [] = tt
Blanked-refl (x ∷ xs) = (inl refl, Blanked-refl xs)

either_blank : {x y z : ℕ} → (y ≡ x) ⊎ (y ≡ blank) → (z ≡ y) ⊎ (z ≡ blank) → (z ≡ x) ⊎ (z ≡ blank)
either_blank p (inr q) = inr q
either_blank (inl p) (inl q) = inl (cc)
either_blank (inr p) (inl q) = inr (cc)

pub Blanked-trans : (xs ys zs : List ℕ) → Blanked xs ys → Blanked ys zs → Blanked xs zs
Blanked-trans [] [] [] p q = tt
Blanked-trans [] [] (z ∷ zs) p q = absurd q
Blanked-trans [] (y ∷ ys) zs p q = absurd p
Blanked-trans (x ∷ xs) [] zs p q = absurd p
Blanked-trans (x ∷ xs) (y ∷ ys) [] p q = absurd q
Blanked-trans (x ∷ xs) (y ∷ ys) (z ∷ zs) p q =
    (either_blank p.0 q.0, Blanked-trans xs ys zs p.1 q.1)

pub set-Blanked : (xs : List ℕ) (i : ℕ) → Blanked xs (set xs i blank)
set-Blanked [] i = tt
set-Blanked (x ∷ xs) zero = (inr refl, Blanked-refl xs)
set-Blanked (x ∷ xs) (suc i) = (inl refl, set-Blanked xs i)

pub length-set : (xs : List ℕ) (i c : ℕ) → length (set xs i c) ≡ length xs
length-set [] i c = refl
length-set (x ∷ xs) zero c = refl
length-set (x ∷ xs) (suc i) c = omega (arith, length-set xs i c)

-- A loop goes on from where it stands.
pub record Cleans (s t : Scan) : Type 0 where
  pub later : s.at ≤ t.at
  pub same_length : length t.bytes ≡ length s.bytes
  pub blanks : Blanked s.bytes t.bytes

-- How many bytes are left.
abbrev pub left : Scan → ℕ
left s = length s.bytes - s.at

pub left-Cleans : {s t : Scan} → Cleans s t → left t ≤ left s
left-Cleans c = omega arith

pub Cleans-refl : (s : Scan) → Cleans s s
Cleans-refl s = record { later = omega arith; same_length = refl; blanks = Blanked-refl s.bytes }

pub Cleans-trans : (s t u : Scan) → Cleans s t → Cleans t u → Cleans s u
Cleans-trans s t u c d = record {
  later = omega arith;
  same_length = omega arith;
  blanks = Blanked-trans s.bytes t.bytes u.bytes c.blanks d.blanks;
}

pub advance-Cleans : (s : Scan) → Cleans s (advance s)
advance-Cleans s = record { later = omega arith; same_length = refl; blanks = Blanked-refl s.bytes }

pub wipe-Cleans : (i : ℕ) (s : Scan) → Cleans s (wipe i s)
wipe-Cleans i s = record {
  later = omega arith;
  same_length = length-set s.bytes i blank;
  blanks = set-Blanked s.bytes i;
}

-- The loop ends within its fuel.
pub record Ends (s : Scan) (o : Option Scan) : Type 0 where
  pub result : Scan
  pub ends : o ≡ some result
  pub cleans : Cleans s result

pub Ends-here : (s : Scan) → Ends s (some s)
Ends-here s = record { result = s; ends = refl; cleans = Cleans-refl s }

pub Ends-at : {s t : Scan} → Cleans s t → Ends s (some t)
Ends-at {s} {t} c = record { result = t; ends = refl; cleans = c }

pub Ends-from : {s t : Scan} {o : Option Scan} → Cleans s t → Ends t o → Ends s o
Ends-from {s} {t} c e = record {
  result = e.result;
  ends = e.ends;
  cleans = Cleans-trans s t e.result c e.cleans;
}

pub Ends->>= :
    {s : Scan} (o : Option Scan) (f : Scan → Option Scan)
    → Ends s o
    → ((t : Scan) → Cleans s t → Ends t (f t))
    → Ends s (o >>= f)
Ends->>= {s} o f e next =
    let r = next e.result e.cleans in
    record {
      result = r.result;
      ends = >>=-some o f e.ends r.ends;
      cleans = Cleans-trans s e.result r.result e.cleans r.cleans;
    }

-- ===== src/Core/Dispatcher/CachedReader.antt =====
-- `cachedReader` of core/xray/app/dispatcher/default.go: a reader that keeps what was read ahead for
-- the sniffer.
use mathlib.Core.List.{append_assoc}
use mathlib.Core.Path.{subst}
use ljfxznode.Common.{
  ℕ, zero, suc, ◌≤◌, ◌≡◌, refl, sym, ap, ◌∙◌, Bool, true, false, Option, none, some, List, [], ◌∷◌,
  ◌++◌, length, if◌then◌else◌, Bool-cases, none_some, some_injective, inl, inr, arith,
}

-- What a read of the underlying reader gives.
pub record Answer : Type 0 where
  pub bytes : List ℕ
  pub failed : Bool

-- The reader is the answers that it will give, after which it fails; `is_pipe` is whether it is a
-- `pipe.Reader`.
pub record CachedReader : Type 0 where
  pub source : List Answer
  pub is_pipe : Bool
  pub cache : List ℕ

abbrev pub at_end : Answer
at_end = record { bytes = []; failed = true }

abbrev pub read_source : List Answer → List Answer × Answer
read_source [] = ([], at_end)
read_source (a ∷ source) = (source, a)

abbrev pub take : ℕ → List ℕ → List ℕ
take zero bs = []
take (suc n) [] = []
take (suc n) (b ∷ bs) = b ∷ take n bs

-- `Cache` into a buffer of that capacity; the buffer's new content, or `none` for an error.
unfoldable pub cache_ahead : ℕ → CachedReader → CachedReader × Option (List ℕ)
cache_ahead capacity r =
    let (source, a) = read_source r.source in
    let cache = r.cache ++ a.bytes in
    if a.failed
    then (record r { source = source }, none)
    else (record r { source = source; cache = cache }, some (take capacity cache))

-- `ReadMultiBuffer` and `ReadMultiBufferTimeout`
unfoldable pub read_multi_buffer : CachedReader → CachedReader × Answer
read_multi_buffer r = elim r.cache [
  | [] ↦ (let (source, a) = read_source r.source in (record r { source = source }, a))
  | b ∷ bs ↦ (record r { cache = [] }, record { bytes = b ∷ bs; failed = false })
]

unfoldable pub interrupt : CachedReader → CachedReader
interrupt r = record r { source = if r.is_pipe then [] else r.source; cache = [] }

unfoldable pub all_bytes : List Answer → List ℕ
all_bytes [] = []
all_bytes (a ∷ source) = a.bytes ++ all_bytes source

-- What is still to be read.
abbrev pub stream : CachedReader → List ℕ
stream r = r.cache ++ all_bytes r.source

-- An error comes without bytes.
abbrev pub IsClean : List Answer → Type 0
IsClean [] = Unit
IsClean (a ∷ source) = (a.failed ≡ true → a.bytes ≡ []) × IsClean source

-- The bytes of a number of reads, errors passed over.
unfoldable pub read_all : ℕ → CachedReader → List ℕ
unfolding read_multi_buffer
read_all zero r = []
read_all (suc n) r = let (r', a) = read_multi_buffer r in a.bytes ++ read_all n r'

-- Nothing of the stream is lost, and no read is added.
pub record Keeps (r s : CachedReader) : Type 0 where
  pub same_stream : stream s ≡ stream r
  pub clean : IsClean s.source
  pub fewer : length s.source ≤ length r.source

read_all-source :
    (n : ℕ) (source : List Answer) (b : Bool)
    → length source ≤ n
    → read_all n (record { source = source; is_pipe = b; cache = [] }) ≡ all_bytes source
unfolding read_all read_multi_buffer all_bytes
read_all-source zero [] b h = refl
read_all-source zero (a ∷ source) b h = absurd (omega arith)
read_all-source (suc n) [] b h = read_all-source n [] b (omega arith)
read_all-source (suc n) (a ∷ source) b h =
    ap (λ bs. a.bytes ++ bs) (read_all-source n source b (omega arith))

read_all-cache :
    (n : ℕ) (source : List Answer) (b : Bool) (cache : List ℕ)
    → suc (length source) ≤ n
    → read_all n (record { source = source; is_pipe = b; cache = cache })
      ≡ cache ++ all_bytes source
unfolding read_all read_multi_buffer
read_all-cache zero source b cache h = absurd (omega arith)
read_all-cache (suc n) source b [] h = read_all-source (suc n) source b (omega arith)
read_all-cache (suc n) source b (c ∷ cs) h =
    ap (λ ds. (c ∷ cs) ++ ds) (read_all-source n source b (omega arith))

pub read_all-stream :
    (n : ℕ) (r : CachedReader) → suc (length r.source) ≤ n → read_all n r ≡ stream r
unfolding read_all
read_all-stream n r h = read_all-cache n r.source r.is_pipe r.cache h

pub Keeps-trans : {r s t : CachedReader} → Keeps r s → Keeps s t → Keeps r t
Keeps-trans {r} {s} {t} p q =
    let h : length t.source ≤ length s.source = q.fewer in
    let k : length s.source ≤ length r.source = p.fewer in
    record { same_stream = q.same_stream ∙ p.same_stream; clean = q.clean; fewer = omega arith }

cache_ahead-Keeps_fields :
    (capacity : ℕ) (source : List Answer) (b : Bool) (cache : List ℕ)
    → IsClean source
    → let r : CachedReader = record { source = source; is_pipe = b; cache = cache } in
      Keeps r (cache_ahead capacity r).0
unfolding cache_ahead all_bytes
cache_ahead-Keeps_fields capacity [] b cache h = record {
  same_stream = refl;
  clean = tt;
  fewer = omega arith;
}
cache_ahead-Keeps_fields capacity (a ∷ source) b cache h =
    elim (Bool-cases a.failed)
      as (λ _.
        let r : CachedReader = record { source = a ∷ source; is_pipe = b; cache = cache } in
        Keeps r (cache_ahead capacity r).0) [
          | inl e ↦ rw e (record {
            same_stream = ap (λ cs. cache ++ (cs ++ all_bytes source)) (sym (h.0 e));
            clean = h.1;
            fewer = omega arith;
          })
          | inr e ↦ rw e (record {
            same_stream = append_assoc cache a.bytes (all_bytes source);
            clean = h.1;
            fewer = omega arith;
          })
        ]

pub cache_ahead-Keeps :
    (capacity : ℕ) (r : CachedReader) → IsClean r.source → Keeps r (cache_ahead capacity r).0
cache_ahead-Keeps capacity r h = cache_ahead-Keeps_fields capacity r.source r.is_pipe r.cache h

pub Keeps-self : (r : CachedReader) → IsClean r.source → Keeps r r
Keeps-self r h = record { same_stream = refl; clean = h; fewer = omega arith }

-- The beginning of some bytes.
abbrev pub IsPrefix : List ℕ → List ℕ → Type 0
IsPrefix bs all = (rest : List ℕ) × (bs ++ rest ≡ all)

take-IsPrefix : (n : ℕ) (bs : List ℕ) → IsPrefix (take n bs) bs
take-IsPrefix zero bs = (bs, refl)
take-IsPrefix (suc n) [] = ([], refl)
take-IsPrefix (suc n) (b ∷ bs) = let (rest, e) = take-IsPrefix n bs in (rest, ap (λ cs. b ∷ cs) e)

IsPrefix-append : (bs cs ds : List ℕ) → IsPrefix bs cs → IsPrefix bs (cs ++ ds)
IsPrefix-append bs cs ds (rest, e) =
    (rest ++ ds, sym (append_assoc bs rest ds) ∙ ap (λ es. es ++ ds) e)

cache_ahead-IsPrefix_fields :
    (capacity : ℕ) (source : List Answer) (b : Bool) (cache payload : List ℕ)
    → let r : CachedReader = record { source = source; is_pipe = b; cache = cache } in
      (cache_ahead capacity r).1 ≡ some payload
      → IsPrefix payload (stream (cache_ahead capacity r).0)
unfolding cache_ahead
cache_ahead-IsPrefix_fields capacity [] b cache payload = λ e. none_some e
cache_ahead-IsPrefix_fields capacity (a ∷ source) b cache payload =
    elim (Bool-cases a.failed)
      as (λ _.
        let r : CachedReader = record { source = a ∷ source; is_pipe = b; cache = cache } in
        (cache_ahead capacity r).1 ≡ some payload
        → IsPrefix payload (stream (cache_ahead capacity r).0)) [
          | inl f ↦ rw f (λ e. none_some e)
          | inr f ↦ rw f (λ e.
              subst (λ p. IsPrefix p ((cache ++ a.bytes) ++ all_bytes source)) (some_injective e)
                (IsPrefix-append (take capacity (cache ++ a.bytes)) (cache ++ a.bytes)
                  (all_bytes source) (take-IsPrefix capacity (cache ++ a.bytes))))
        ]

pub cache_ahead-IsPrefix :
    (capacity : ℕ) (r : CachedReader) (payload : List ℕ)
    → (cache_ahead capacity r).1 ≡ some payload
    → IsPrefix payload (stream (cache_ahead capacity r).0)
cache_ahead-IsPrefix capacity r = cache_ahead-IsPrefix_fields capacity r.source r.is_pipe r.cache

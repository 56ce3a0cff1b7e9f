-- ===== src/Panel/Socket/Channels.antt =====
-- What the events of a channel of api/panel/ws.go say of it, and what an offer and a write change.
use mathlib.Core.List.{append_assoc}
use ljfxznode.Common.{
  ℕ, ◌+◌, ◌≤◌, ◌<◌, ◌≡◌, ◌∙◌, ap, sym, ◌⊎◌, inl, inr, Bool, true, false, Option, none, some, List,
  [], ◌∷◌, ◌++◌, ltb, length, length-append, arith, Bool-cases, if◌then◌else◌, nat_key, text_key,
  ◌==◌,
}
use ljfxznode.Panel.Socket.{Message}
use ljfxznode.Panel.Socket.Queue.{
  Phase, opened, serving, closing, Event, offered, refused, took, queue_size, put,
}

-- The messages whose offer to a channel was answered with true, those taken out of it and those
-- written, in this order, from the events alone.
unfoldable pub accepted : ℕ → List Event → List Message
accepted ch [] = []
accepted ch (offered k msg true ∷ es) =
    let rest = accepted ch es in if k == ch then rest ++ msg ∷ [] else rest
accepted ch (offered k msg false ∷ es) = accepted ch es
accepted ch (refused msg ∷ es) = accepted ch es
accepted ch (took k msg written ∷ es) = accepted ch es

unfoldable pub taken : ℕ → List Event → List Message
taken ch [] = []
taken ch (offered k msg answer ∷ es) = taken ch es
taken ch (refused msg ∷ es) = taken ch es
taken ch (took k msg written ∷ es) =
    let rest = taken ch es in if k == ch then rest ++ msg ∷ [] else rest

unfoldable pub written : ℕ → List Event → List Message
written ch [] = []
written ch (offered k msg answer ∷ es) = written ch es
written ch (refused msg ∷ es) = written ch es
written ch (took k msg true ∷ es) =
    let rest = written ch es in if k == ch then rest ++ msg ∷ [] else rest
written ch (took k msg false ∷ es) = written ch es

-- Every offer was answered with true if fewer than 16 messages waited, and with false otherwise.
unfoldable pub Answered : List Event → Type 0
unfolding accepted taken
Answered [] = Unit
Answered (offered ch msg answer ∷ es) =
    (answer ≡ ltb (length (accepted ch es)) (length (taken ch es) + 16)) × Answered es
Answered (refused msg ∷ es) = Answered es
Answered (took ch msg written ∷ es) = Answered es

-- Of the messages taken out all were written, or all but the last.
pub data IsWritten (l w : List Message) : Type 0 where
  all_written : l ≡ w → IsWritten l w
  all_but_last : (msg : Message) → l ≡ w ++ msg ∷ [] → IsWritten l w

pub record InOrder (chans : ℕ → List Message) (es : List Event) : Type 0 where
  pub in_order : (ch : ℕ) → accepted ch es ≡ taken ch es ++ chans ch
  pub bounded : (ch : ℕ) → length (chans ch) ≤ queue_size
  pub answered : Answered es

unfoldable pub live_on : Phase → Option ℕ
live_on (opened ch) = some ch
live_on (serving ch) = some ch
live_on p = none

-- A connection that has not failed wrote all it took.
pub record AllOnTime (phase : Phase) (made : ℕ) (es : List Event) : Type 0 where
  pub writes_out : (ch : ℕ) → IsWritten (taken ch es) (written ch es)
  pub live : (ch : ℕ) → live_on phase ≡ some ch → (taken ch es ≡ written ch es) × (ch < made)
  pub fresh : (ch : ℕ) → made ≤ ch → taken ch es ≡ written ch es

same_channel : (ch k : ℕ) → (((ch == k) ≡ true) × (ch ≡ k)) ⊎ ((ch == k) ≡ false)
same_channel ch k = elim (Bool-cases (ch == k)) [
  | inl e ↦ inl (e, (nat_key.same_iff ch k).0 e)
  | inr e ↦ inr e
]

pub offered-InOrder :
    (ch : ℕ) (msg : Message) (chans : ℕ → List Message) (es : List Event)
    → ltb (length (chans ch)) queue_size ≡ true
    → InOrder chans es
    → InOrder (put ch (chans ch ++ msg ∷ []) chans) (offered ch msg true ∷ es)
unfolding accepted taken Answered
offered-InOrder ch msg chans es room v = record {
  in_order = λ k. elim (same_channel ch k) [
    | inr e ↦ rw e (v.in_order k)
    | inl (e, s) ↦ rw e (
        ap (λ l. l ++ msg ∷ []) (v.in_order k)
        ∙ append_assoc (taken k es) (chans k) (msg ∷ [])
        ∙ ap (λ j. taken k es ++ (chans j ++ msg ∷ [])) (sym s))
  ];
  bounded = λ k. elim (same_channel ch k) [
    | inr e ↦ rw e (v.bounded k)
    | inl (e, s) ↦ rw e (ground (arith, length-append (chans ch) (msg ∷ [])))
  ];
  answered = (
    ground (arith, ap length (v.in_order ch), length-append (taken ch es) (chans ch)),
    v.answered,
  );
}

pub full-InOrder :
    (ch : ℕ) (msg : Message) (chans : ℕ → List Message) (es : List Event)
    → ltb (length (chans ch)) queue_size ≡ false
    → InOrder chans es
    → InOrder chans (offered ch msg false ∷ es)
unfolding accepted taken Answered
full-InOrder ch msg chans es full v = record {
  in_order = v.in_order;
  bounded = v.bounded;
  answered = (
    ground (arith, ap length (v.in_order ch), length-append (taken ch es) (chans ch)),
    v.answered,
  );
}

pub took-InOrder :
    (ch : ℕ) (msg : Message) (rest : List Message) (b : Bool) (chans : ℕ → List Message)
    (es : List Event)
    → chans ch ≡ msg ∷ rest
    → InOrder chans es
    → InOrder (put ch rest chans) (took ch msg b ∷ es)
unfolding accepted taken Answered
took-InOrder ch msg rest b chans es e v = record {
  in_order = λ k. elim (same_channel ch k) [
    | inr e' ↦ rw e' (v.in_order k)
    | inl (e', s) ↦ rw e' (
        v.in_order k
        ∙ ap (λ l. taken k es ++ l) (ap chans (sym s) ∙ e)
        ∙ sym (append_assoc (taken k es) (msg ∷ []) rest))
  ];
  bounded = λ k. elim (same_channel ch k) [
    | inr e' ↦ rw e' (v.bounded k)
    | inl (e', s) ↦ rw e' (ground (arith, ap length e, v.bounded ch))
  ];
  answered = v.answered;
}

pub written-AllOnTime :
    (ch : ℕ) (msg : Message) (p : Phase) (made : ℕ) (es : List Event)
    → live_on p ≡ some ch
    → AllOnTime p made es
    → AllOnTime p made (took ch msg true ∷ es)
unfolding taken written
written-AllOnTime ch msg p made es on v = record {
  writes_out = λ k. elim (same_channel ch k) [
    | inr e ↦ rw e (v.writes_out k)
    | inl (e, s) ↦ rw e (all_written (ap (λ l. l ++ msg ∷ []) (v.live k (on ∙ ap some s)).0))
  ];
  live = λ k e. elim (same_channel ch k) [
    | inr e' ↦ rw e' (v.live k e)
    | inl (e', s) ↦ rw e' (ap (λ l. l ++ msg ∷ []) (v.live k e).0, (v.live k e).1)
  ];
  fresh = λ k h. elim (same_channel ch k) [
    | inr e ↦ rw e (v.fresh k h)
    | inl (e, s) ↦ rw e (ap (λ l. l ++ msg ∷ []) (v.fresh k h))
  ];
}

pub lost-AllOnTime :
    (ch : ℕ) (msg : Message) (p : Phase) (made : ℕ) (es : List Event)
    → live_on p ≡ some ch
    → AllOnTime p made es
    → AllOnTime closing made (took ch msg false ∷ es)
unfolding taken written live_on
lost-AllOnTime ch msg p made es on v = record {
  writes_out = λ k. elim (same_channel ch k) [
    | inr e ↦ rw e (v.writes_out k)
    | inl (e, s) ↦ rw e (all_but_last msg (ap (λ l. l ++ msg ∷ []) (v.live k (on ∙ ap some s)).0))
  ];
  live = λ k e. absurd (cc);
  fresh = λ k h. elim (same_channel ch k) [
    | inr e ↦ rw e (v.fresh k h)
    | inl (e, s) ↦ absurd (omega (arith, (v.live ch on).1, s))
  ];
}

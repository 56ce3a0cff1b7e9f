-- ===== src/Json5.antt =====
-- common/json5/json5.go: the comments and the trailing commas of a configuration file are blanked
-- before it is read as JSON. A text is a list of bytes; the loops of `prep` write into it in place.
-- Each loop takes fuel, and `none` means that the fuel ran out.
pub mod Blanks
pub mod Cleaning
mod Tests
use ljfxznode.Common.{
  ℕ, zero, suc, ◌+◌, ◌-◌, Bool, true, false, not, ◌&&◌, ◌||◌, Option, none, some, List, [], ◌∷◌,
  nat_key, ◌==◌, ◌>>=◌, ltb, length, set, get_elem?, or_zero, if◌then◌else◌,
}

-- The bytes and the index of a loop.
pub record Scan : Type 0 where
  pub bytes : List ℕ
  pub at : ℕ

abbrev pub blank : ℕ
blank = b' '

unfoldable pub is_nl : ℕ → Bool
is_nl c = c == b'\n' || c == b'\r'

unfoldable pub is_ws : ℕ → Bool
unfolding is_nl
is_ws c = c == b' ' || c == b'\t' || is_nl c

-- `i < len(s)`
abbrev pub within : Scan → Bool
within s = ltb s.at (length s.bytes)

-- `s[i]`, read where the index is within the bytes.
abbrev pub here : Scan → ℕ
here s = or_zero (get_elem? s.bytes s.at) 0

abbrev pub advance : Scan → Scan
advance s = record s { at = s.at + 1 }

-- `s[i] = ' '`
abbrev pub wipe : ℕ → Scan → Scan
wipe i s = record s { bytes = set s.bytes i blank }

-- The loop of a `//` comment.
unfoldable pub line_comment : ℕ → Scan → Option Scan
unfolding is_nl
line_comment zero s = none
line_comment (suc fuel) s =
    let rest = line_comment fuel (advance (wipe s.at s)) in
    if within s && not (is_nl (here s)) then rest else some s

-- The loop of a `/*` comment. A byte after a `*` that does not end the comment is passed over.
unfoldable pub block_comment : ℕ → Scan → Option Scan
block_comment zero s = none
block_comment (suc fuel) s =
    let s' = wipe s.at s in
    let rest = block_comment fuel (advance s') in
    let after_star = block_comment fuel (advance (advance s')) in
    if not (within s)
    then some s
    else (if not (here s == b'*')
        then rest
        else (if within (advance s') && here (advance s') == b'/'
            then some (wipe (s.at + 1) (advance s'))
            else after_star))

-- The second `if` of `consumeComment`.
unfoldable pub consume_block : ℕ → Scan → Option Scan
unfolding block_comment
consume_block fuel s =
    if within s && here s == b'*'
    then block_comment fuel (wipe s.at (wipe (s.at - 1) s))
    else some s

-- `consumeComment`, at the byte after a slash.
unfoldable pub consume_comment : ℕ → Scan → Option Scan
unfolding line_comment consume_block
consume_comment fuel s =
    if within s && here s == b'/'
    then (line_comment fuel (wipe (s.at - 1) s) >>= consume_block fuel)
    else consume_block fuel s

-- The loop of a string literal, after its opening quote.
unfoldable pub skip_string : ℕ → Scan → Option Scan
skip_string zero s = none
skip_string (suc fuel) s =
    let rest = skip_string fuel (advance (if here s == b'\\' then advance s else s)) in
    if not (within s) then some s else (if here s == b'"' then some (advance s) else rest)

-- The loop after a comma, which stands at `comma`.
unfoldable pub after_comma : ℕ → ℕ → Scan → Option Scan
unfolding consume_comment is_ws
after_comma zero comma s = none
after_comma (suc fuel) comma s =
    let s' = advance s in
    let rest = after_comma fuel comma s' in
    let after_comment = consume_comment fuel (advance s') >>= after_comma fuel comma in
    if not (within s')
    then some s'
    else (if here s' == b'}' || here s' == b']'
        then some (wipe comma s')
        else (if here s' == b'/'
            then after_comment
            else (if not (is_ws (here s')) then some s' else rest)))

-- One round of the loop of `prep`.
unfoldable pub prep_step : ℕ → Scan → Option Scan
unfolding skip_string consume_comment after_comma
prep_step fuel s =
    if here s == b'"'
    then skip_string fuel (advance s)
    else (if here s == b'/'
        then consume_comment fuel (advance s)
        else (if here s == b',' then after_comma fuel s.at s else some (advance s)))

unfoldable pub prep_loop : ℕ → Scan → Option Scan
unfolding prep_step
prep_loop zero s = none
prep_loop (suc fuel) s =
    let rest = prep_step fuel s >>= prep_loop fuel in if within s then rest else some s

-- `prep` on what the reader holds.
unfoldable pub prep : ℕ → List ℕ → Option (List ℕ)
unfolding prep_loop
prep fuel text = do s ← prep_loop fuel (record { bytes = text; at = 0 }); some s.bytes

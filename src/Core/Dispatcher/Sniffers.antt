-- ===== src/Core/Dispatcher/Sniffers.antt =====
-- core/xray/app/dispatcher/sniffer.go: the list of protocol sniffers and its two walks. The sniffers
-- themselves are Xray's.
use ljfxznode.Common.{ℕ, Bool, true, false, not, ◌||◌, none, some, List, [], ◌∷◌, if◌then◌else◌}
use ljfxznode.Core.Dispatcher.Sniffing.{SniffResult}

-- A result and no error, `ErrNoClue`, `ErrProtoNeedMoreData`, or any other error; a nil result without
-- an error counts as one too.
pub data Verdict : Type 0 where
  found : SniffResult → Verdict
  no_clue : Verdict
  need_more : Verdict
  unknown : Verdict

-- `tcp` is whether `network` is TCP; the others are for UDP.
pub record ProtocolSniffer : Type 0 where
  pub metadata : Bool
  pub tcp : Bool
  pub sniff_payload : List ℕ → Verdict

abbrev pub same_network : Bool → Bool → Bool
same_network true b = b
same_network false b = not b

-- The sniffers that a walk over a payload passes by.
abbrev pub is_skipped : Bool → ProtocolSniffer → Bool
is_skipped network si = si.metadata || not (same_network si.tcp network)

-- What a walk knows so far: the pending sniffers, in order, or the result of one.
pub data Walk : Type 0 where
  result : SniffResult → Walk
  pending : List ProtocolSniffer → Walk

abbrev pub keep_pending : ProtocolSniffer → Walk → Walk
keep_pending si (result r) = result r
keep_pending si (pending sis) = pending (si ∷ sis)

-- A sniffer's verdict, and the walk over the sniffers after it.
unfoldable pub judge : ProtocolSniffer → Verdict → Walk → Walk
judge si (found r) w = result r
judge si no_clue w = keep_pending si w
judge si need_more w = w
judge si unknown w = w

-- The end of both walks: the sniffer's new list and what is returned.
unfoldable pub conclude : List ProtocolSniffer → Walk → List ProtocolSniffer × Verdict
conclude sis (result r) = (sis, found r)
conclude sis (pending []) = (sis, unknown)
conclude sis (pending (si ∷ left)) = (si ∷ left, no_clue)

unfoldable pub walk_payload : Bool → List ℕ → List ProtocolSniffer → Walk
unfolding judge
walk_payload network payload [] = pending []
walk_payload network payload (si ∷ sis) =
    let w = walk_payload network payload sis in
    if is_skipped network si then w else judge si (si.sniff_payload payload) w

unfoldable pub sniff : Bool → List ℕ → List ProtocolSniffer → List ProtocolSniffer × Verdict
unfolding walk_payload conclude
sniff network payload sis = conclude sis (walk_payload network payload sis)

unfoldable pub walk_metadata : List ProtocolSniffer → Walk
unfolding judge
walk_metadata [] = pending []
walk_metadata (si ∷ sis) =
    let w = walk_metadata sis in
    if not si.metadata then keep_pending si w else judge si (si.sniff_payload []) w

unfoldable pub sniff_metadata : List ProtocolSniffer → List ProtocolSniffer × Verdict
unfolding walk_metadata conclude
sniff_metadata sis = conclude sis (walk_metadata sis)

unfoldable pub composite_result : SniffResult → SniffResult → SniffResult
composite_result meta content = record {
  protocol = content.protocol;
  domain = meta.domain;
  for_domain = some meta.protocol;
  is_subset_of = none;
}

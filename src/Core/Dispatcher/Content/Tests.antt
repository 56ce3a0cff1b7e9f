-- ===== src/Core/Dispatcher/Content/Tests.antt =====
-- The sniffing of a client that sends `GE` in two parts.
use ljfxznode.Common.{ℕ, ◌≡◌, refl, true, false, none, List, [], ◌∷◌, false_true, ◌-ℤ◌, arith}
use ljfxznode.Core.Dispatcher.Sniffing.{SniffResult}
use ljfxznode.Core.Dispatcher.Sniffers.{Verdict, found, no_clue, unknown, ProtocolSniffer, sniff}
use ljfxznode.Core.Dispatcher.CachedReader.{
  CachedReader, cache_ahead, all_bytes, read_all, IsPrefix,
}
use ljfxznode.Core.Dispatcher.Content.{
  Round, returns, is_over, sniff_content, first_attempt, sniffer,
}
use ljfxznode.Core.Dispatcher.Content.Stream.{sniffer-read_all}
use ljfxznode.Core.Dispatcher.Content.Ends.{sniff_content-two_rounds}
use ljfxznode.Core.Dispatcher.Content.Finds.{FoundBy, sniff_content-FoundBy}

abbrev http_result : SniffResult
http_result = record {
  protocol = "http1";
  domain = "example.org";
  for_domain = none;
  is_subset_of = none;
}

abbrev judge_http : List ℕ → Verdict
judge_http [] = no_clue
judge_http (b ∷ []) = no_clue
judge_http (b ∷ c ∷ bs) = found http_result

abbrev judge_none : List ℕ → Verdict
judge_none bs = unknown

abbrev two_sniffers : List ProtocolSniffer
two_sniffers =
    record { metadata = false; tcp = true; sniff_payload = judge_none }
    ∷ record { metadata = false; tcp = true; sniff_payload = judge_http }
    ∷ []

abbrev client : CachedReader
client = record {
  source =
      record { bytes = 71 ∷ []; failed = false } ∷ record { bytes = 69 ∷ []; failed = false } ∷ [];
  is_pipe = true;
  cache = [];
}

abbrev short_round : Round
short_round = record { cancelled = false; elapsed = 1000 }

abbrev two_rounds : List Round
two_rounds = short_round ∷ short_round ∷ []

sniffer-read_all_example :
    read_all 3 (sniffer 32768 false true two_sniffers two_rounds client).0 ≡ 71 ∷ 69 ∷ []
unfolding all_bytes
sniffer-read_all_example =
    sniffer-read_all 32768 false true two_sniffers two_rounds client 3
      (λ e. false_true e, (λ e. false_true e, tt)) (omega arith)

sniff_content-two_rounds_example :
    let t = first_attempt two_sniffers client in
    (sniff_content 32768 true (short_round ∷ two_rounds) t ≡ sniff_content 32768 true two_rounds t)
    × (is_over (sniff_content 32768 true (short_round ∷ two_rounds) t).1 ≡ true)
sniff_content-two_rounds_example =
    sniff_content-two_rounds 32768 true two_sniffers client short_round short_round
      (short_round ∷ [])

http_found :
    (sniff_content 32768 true two_rounds (first_attempt two_sniffers client)).1
    ≡ returns http_result
unfolding sniff_content sniff cache_ahead ◌-ℤ◌
http_found = refl

sniff_content-FoundBy_example :
    (p : List ℕ) × (IsPrefix p (71 ∷ 69 ∷ []) × FoundBy true http_result p two_sniffers)
unfolding all_bytes
sniff_content-FoundBy_example =
    sniff_content-FoundBy 32768 true two_sniffers two_rounds client http_result
      (λ e. false_true e, (λ e. false_true e, tt)) http_found

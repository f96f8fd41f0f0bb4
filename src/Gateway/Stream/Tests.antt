-- ===== src/Gateway/Stream/Tests.antt =====
-- Runs of the two loops over the lines of a stream.
use aqua_rust.Common.{ℕ, String, true, false, Option, some, List, [], ◌∷◌, ◌≡◌, refl, str_contains}
use aqua_rust.Common.Texts.{trim_end, strip_prefix}
use aqua_rust.Gateway.Stream.{Input, eof, idle_timeout, comment, line, stream_proxy, tick}
use aqua_rust.Gateway.Stream.Endings.{stream_never_completes}
use aqua_rust.Gateway.Stream.Passed.{
  data_before_stop, has_done, pass_lines, passing_start, stream_passes, up_to_done,
}

abbrev parse : String → Option ℕ
parse s = some 1

abbrev whole : List Input
whole = line 1 "data: {}\n" ∷ (tick 2 ∷ (line 3 "data: [DONE]\n" ∷ (eof ∷ [])))

abbrev lines : List Input
lines = line 1 "data: {}\n" ∷ (line 2 "\n" ∷ (line 3 "data: [DONE]\n" ∷ (line 4 "data: x\n" ∷ [])))

completed : (pass_lines parse passing_start lines).out ≡ "{}" ∷ ("[DONE]" ∷ [])
unfolding pass_lines strip_prefix trim_end str_contains
completed = refl

idle :
    (stream_proxy 0 true (tick 1 ∷ (tick 50000000000 ∷ []))).out
    ≡ comment "ping" ∷ (idle_timeout ∷ [])
unfolding stream_proxy
idle = refl

stream_never_completes_example : (stream_proxy 0 false whole).completed ≡ false
stream_never_completes_example =
    stream_never_completes 0 false whole
      (("data: {}", refl), (tt, (("data: [DONE]", refl), (tt, tt))))

stream_passes_example :
    ((pass_lines parse passing_start lines).out ≡ up_to_done (data_before_stop lines))
    × ((pass_lines parse passing_start lines).completed ≡ has_done (data_before_stop lines))
stream_passes_example = stream_passes parse lines

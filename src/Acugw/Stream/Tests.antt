-- ===== src/Acugw/Stream/Tests.antt =====
-- Runs of the stream's parser. Bytes are decoded as ASCII, and the parser of JSON knows two events.
use aqua_rust.Common.{◌-◌, String, Option, some, List, [], ◌∷◌, map, ok, ◌≡◌, refl, string_discrete}
use aqua_rust.Common.Json.{Value, string, obj}
use aqua_rust.Common.Texts.{codes}
use aqua_rust.Acugw.Stream.{DsEvent, fragment, response, sanitize_content, apply_patch}
use aqua_rust.Acugw.Stream.Lines.{Bytes, parse}
use aqua_rust.Acugw.Stream.Chunks.{parse_chunks_alike}
use Prim.Native.String.{char_at}

abbrev ascii : String
ascii =
    " !..............0123456789:......ABCDEFGHIJKLMNOPQRSTUVWXYZ......abcdefghijklmnopqrstuvwxyz"

decode : Bytes → String
decode [] = ""
decode (c ∷ s) = String.◌∷◌ (char_at ascii (c - 32)) (decode s)

from_json : String → Option Value
from_json s = some (obj (("v", string " the end ") ∷ []))

abbrev text : Bytes
text = codes "data: X\n\ndata: Y\n\n"

abbrev two_pieces : List DsEvent
two_pieces = fragment response "the end" ∷ (fragment response "the end" ∷ [])

two_events : (parse decode from_json (ok text ∷ [])).1 ≡ two_pieces
unfolding parse decode from_json string_discrete apply_patch
two_events = refl

-- Removing one pattern can leave another.
leak : sanitize_content "<|Sys<!--tem|>" ≡ "<|System|>"
unfolding sanitize_content
leak = refl

-- Pieces with blanks around them.
blanks : sanitize_content " world" ≡ "world"
unfolding sanitize_content
blanks = refl

parse_chunks_alike_example :
    parse decode from_json (map ok (text ∷ []))
    ≡ parse decode from_json (map ok (codes "data: X\n\nda" ∷ (codes "ta: Y\n\n" ∷ [])))
parse_chunks_alike_example =
    parse_chunks_alike decode from_json (text ∷ [])
      (codes "data: X\n\nda" ∷ (codes "ta: Y\n\n" ∷ [])) refl

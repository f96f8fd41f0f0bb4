-- ===== src/Platform/Username/Tests.antt =====
-- The test for user names at concrete names.
use aqua_rust.Common.{ℕ, ◌≡◌, refl, true, List, [], ◌∷◌}
use aqua_rust.Platform.Username.{is_random_username, scan, scan_char}

abbrev mixed : List ℕ
mixed = b'a' ∷ b'b' ∷ b'1' ∷ b'c' ∷ b'2' ∷ []

mixed_is_random : is_random_username mixed ≡ true
unfolding is_random_username scan scan_char
mixed_is_random = refl

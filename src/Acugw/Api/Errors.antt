-- ===== src/Acugw/Api/Errors.antt =====
-- acugw/src/api.rs: what an upstream's error says, and what it does to the account.
use aqua_rust.Common.{
  ℕ, String, Bool, true, false, Option, none, some, List, [], ◌∷◌, ◌||◌, if◌then◌else◌, leb, ◌&&◌,
  str_contains, to_lowercase,
}
use aqua_rust.Common.Texts.{codes, drop_chars, starts_with}
use aqua_rust.Acugw.Pool.{Account, invalidate_token, mark_error, mark_muted, mark_transient}
use aqua_rust.Gateway.Signing.{parse_unsigned}

-- The text behind the first `mute_until=`.
unfoldable pub behind_mute : String → Option String
unfolding drop_chars
behind_mute String.[] = none
behind_mute (String.◌∷◌ c s) = elim (starts_with (String.◌∷◌ c s) "mute_until=") [
  | true ↦ some (drop_chars 11 (String.◌∷◌ c s))
  | false ↦ behind_mute s
]

-- The digits in front of the first other character.
unfoldable pub leading_digits : List ℕ → List ℕ
leading_digits [] = []
leading_digits (c ∷ s) = if leb 48 c && leb c 57 then c ∷ leading_digits s else []

unfoldable pub extract_mute_until : String → Option ℕ
unfolding behind_mute leading_digits
extract_mute_until e = elim (behind_mute e) [
  | none ↦ none
  | some rest ↦ parse_unsigned 9223372036854775807 (leading_digits (codes rest))
]

pub data UpErrKind : Type 0 where
  muted : Option ℕ → UpErrKind
  token_invalid transient general : UpErrKind

-- One of the words stands in the text.
unfoldable pub says : List String → String → Bool
unfolding str_contains
says [] s = false
says (w ∷ ws) s = str_contains s w || says ws s

unfoldable pub classify_up_err : String → UpErrKind
unfolding says to_lowercase extract_mute_until
classify_up_err e =
    let s = to_lowercase e in
    if str_contains s "muted"
    then muted (extract_mute_until e)
    else if says ("waf" ∷ "blocked" ∷ "challenge" ∷ "captcha" ∷ []) s
    then transient
    else if says
        ("401" ∷ "403" ∷ "40001" ∷ "40002" ∷ "40003" ∷ "unauthorized" ∷ "not login" ∷ "invalid jwt"
          ∷ "token" ∷ "expired" ∷ [])
        s
    then token_invalid
    else if says ("429" ∷ "rate" ∷ "limit" ∷ "overload" ∷ []) s
    then transient
    else general

-- The times and the random generator at an error.
pub record ErrEnv : Type 0 where
  pub now : ℕ
  pub unix : ℕ
  pub draw : ℕ → ℕ

abbrev pub handle_kind : ErrEnv → UpErrKind → Account → Account
handle_kind env (muted until) a = mark_muted env.now env.unix env.draw until a
handle_kind env token_invalid a = invalidate_token a
handle_kind env transient a = mark_transient env.now env.draw 240 a
handle_kind env general a = mark_error env.now env.draw a

unfoldable pub handle_up_err : ErrEnv → Account → String → Account
unfolding classify_up_err
handle_up_err env a e = handle_kind env (classify_up_err e) a

-- ===== src/Acugw/Api/Tests.antt =====
-- Runs of the answers to chats.
use aqua_rust.Common.{String, true, none, some, List, [], ◌∷◌, Result, ok, err, ◌≡◌, refl, ltb}
use aqua_rust.Acugw.Pool.{Account, new}
use aqua_rust.Acugw.Stream.{DsEvent, fragment, finished, ready, response, think}
use aqua_rust.Acugw.Api.{
  StreamEnv, aggregate_response, create_session, delete_session, stream_response,
}
use aqua_rust.Gateway.Signing.{parse_digits, parse_unsigned}
use aqua_rust.Acugw.Api.Errors.{classify_up_err, extract_mute_until, muted, token_invalid}
use aqua_rust.Acugw.Api.Chat.{Attempt, chat_completions}
use aqua_rust.Acugw.Api.Agree.{pieces, stream_matches_whole}
use aqua_rust.Acugw.Api.Sessions.{created, deleted, sessions_deleted}

abbrev account : Account
account = new 0 (record { name = "a"; email = "a@b"; password = "p"; enabled = true })

abbrev open_env : StreamEnv
open_env = record {
  now = 0;
  unix = 0;
  draw = λ n. 0;
  has_room = λ n. true;
  auto_delete = true;
  session_id = "s1";
}

abbrev events : List DsEvent
events = ready "q" "m" ∷ (fragment think "hm" ∷ (fragment response "yes" ∷ (finished none ∷ [])))

stream_matches_whole_example :
    pieces (stream_response open_env account events).out ≡ (aggregate_response events).content
stream_matches_whole_example = stream_matches_whole open_env (λ n. refl) account events

abbrev narrow_env : StreamEnv
narrow_env = record open_env { has_room = λ n. ltb n 3 }

muted_until : extract_mute_until "user is muted [mute_until=1800]" ≡ some 1800
unfolding extract_mute_until parse_unsigned parse_digits
muted_until = refl

muted_kind : classify_up_err "User is Muted [mute_until=1800]" ≡ muted (some 1800)
unfolding classify_up_err parse_unsigned parse_digits
muted_kind = refl

-- The word `token` comes before the status 429.
rate_limit_of_tokens : classify_up_err "429: too many tokens" ≡ token_invalid
unfolding classify_up_err
rate_limit_of_tokens = refl

abbrev tries : Result String String → Result String (List DsEvent) → Attempt
tries pow chat = record {
  acquired = ok account;
  started = 0;
  backoff = λ n. n;
  login_answer = ok "t";
  login_text = λ e. "login";
  session = ok "s1";
  pow = pow;
  chat = chat;
  env = record { now = 0; unix = 0; draw = λ n. 0 };
  now_millis = 0;
  has_room = λ n. true;
}

abbrev attempts : List Attempt
attempts = tries (err "pow") (ok events) ∷ (tries (ok "h") (ok events) ∷ [])

two_sessions :
    (chat_completions true true attempts).calls
    ≡ create_session "s1"
      ∷ (delete_session "s1" ∷ (create_session "s1" ∷ (delete_session "s1" ∷ [])))
unfolding chat_completions new
two_sessions = refl

sessions_deleted_example :
    created (chat_completions true true attempts).calls
    ≡ deleted (chat_completions true true attempts).calls
sessions_deleted_example = sessions_deleted true attempts

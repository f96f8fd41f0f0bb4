-- ===== src/Lib.antt =====
-- A verification library for aqua-rust, an OpenAI-compatible gateway in front of a pool of upstream
-- keys, with a user platform and a small account-pool gateway beside it.
--
-- The program's parts. A request reaches src/gateway/handler/public.rs, which checks its size, its
-- depth, its model, its client and its line, asks the model's breaker (src/gateway/circuit.rs), takes an upstream key from the
-- scheduler (src/gateway/scheduler.rs), sends the request, and records the outcome in both. Requests
-- of other protocols are translated on the way, and their answers back (src/gateway/translator.rs).
-- acugw takes an account from its pool (acugw/src/pool.rs) for each attempt of a chat, reads the
-- upstream's stream of patches (acugw/src/sse.rs) and answers whole or by a stream (acugw/src/api.rs).
--
-- Files and what they model.
-- - Common and its children: shared lists, maps, tests and results. `Map` is an association list for
--   HashMap and DashMap; `secs` gives Instant and Duration in nanoseconds.
-- - Gateway/Circuit: src/gateway/circuit.rs. `admit`, `succeed` and `fail` are the bodies of
--   can_request, record_success and record_failure on one breaker; the three functions of those names
--   act on the map. Gateway/Circuit/Safety: validate_request_safety and max_json_depth; its Grammar
--   writes JSON texts by RFC 8259, against which the scan is held.
-- - Gateway/Cache: src/gateway/cache.rs.
-- - Gateway/Floats: the interface of f64 that the scheduler uses. The laws that a theorem assumes are
--   a record of their own; whole thousandths give a model of them.
-- - Gateway/Scheduler: src/gateway/scheduler.rs; Select is select_key and the selections of fixed keys,
--   Record is record_response. Select/Slots and Record/Slots show that these leave the slots alone.
-- - Gateway/Admission: what chat_completions_handler of src/gateway/handler/public.rs checks before it
--   selects a key. Admission/Surroundings has the `Site`, with the catalogue, the tables of
--   src/constants.rs, the parts of src/appstate.rs and the answers of the database, and `Limits`, what
--   the limiter says. `admit` composes the stages in the order of the code. Lines, Open, Waits and
--   Asked are its properties.
-- - Gateway/Headers: the address and the key of a request's headers, from the same file.
-- - Gateway/Retry: the rules of retrying in src/gateway/handler/public.rs, and what a turn meets.
-- - Gateway/Dispatch: the loop of chat_completions in src/gateway/handler/public.rs, with the ends of
--   stream_response and non_stream_response. A `turn` is one pass of the loop; what the pass meets is
--   an `Attempt`, and the attempts are a list, of which `max_attempts` are used. Slots, Tried, Lines
--   and Bounds are its properties; `dispatch_uses` in Tried lists the keys that requests are begun
--   with. Texts of errors are kept only where the code reads them.
-- - Gateway/Stream: stream_proxy of src/gateway/sse.rs over the list of what its select! meets, and
--   Stream/Passed the loop of stream_response in src/gateway/handler/public.rs over the same. A line
--   has its line feed, as read_until leaves it, and is decoded. A list that ends is a loop that waits.
-- - Gateway/Validator: src/gateway/validator.rs, the edit distance; Validator/Correct the correction
--   of a model's name, on lists of characters' numbers, with the catalogue as an argument;
--   Validator/Keys the cleaning of an API key, on native texts.
-- - Gateway/Signing: src/gateway/signing.rs, verify_token, and in Signing/Issue generate_token. Texts are
--   lists of bytes; the HMAC in hexadecimal, base64 and UTF-8 are arguments. A number is printed with
--   as many turns as it says, which are enough, since each divides it by ten.
-- - Security/AdminToken: src/security/admin_token.rs; a `Codec` holds its HMAC, base64 and JSON.
-- - Gateway/PromptCache: src/gateway/prompt_cache.rs, get, put and len over any type of values, and in
--   PromptCache/Key build_key, with the printing of JSON and the hash as arguments; Key/Shared says of
--   the printing what JSON says of arrays.
-- - Gateway/ModelHealth: src/gateway/model_health.rs; refresh takes the counts of the request log as rows.
-- - Common/Json: the values of serde_json as the code builds and reads them; an object is the list of
--   its fields, read by name only. Common/Texts: the functions of str and String. Printing and
--   parsing JSON are arguments wherever they are used.
-- - Gateway/Translator: src/gateway/translator.rs, with a child for each protocol; Anthropic/Answer has
--   the answers back, Anthropic/Settings the fields that are copied, Entries what holds of the two
--   entries translate_request and translate_response. An error is the text of the source. `obj` is
--   json! of an object, `forward` the copying of one field.
-- - Platform/Guard: the registration guard of src/platform/guard.rs. Times are seconds, not below 0.
--   Platform/Username: is_random_username of the same file.
-- - Acugw/Pool: acugw/src/pool.rs. Pool has the operations on an account, Pool/Acquire the choice of
--   `acquire`, Pool/Session the steps of an account and its guards. The random generator, the backoff
--   and the answer to a login are arguments: humanize.rs and ds.rs are not in the repository. An
--   operation on an `Arc<Account>` is a function on the account, and a step of the list of accounts
--   where the place matters.
--
-- - Acugw/Stream: acugw/src/sse.rs. Stream has the patches, Stream/Lines the bytes, lines and events;
--   `parse` gives the events that are sent and whether the task panics, for a receiver that stays.
--   Bytes are numbers, and the lossy decoding of UTF-8 is an argument.
-- - Acugw/Api: acugw/src/api.rs. Api has aggregate_response and stream_response, Api/Errors the classes
--   of the upstream's errors, Api/Chat the attempts of chat_completions; an `Attempt` is what the pool
--   and the upstream (ds.rs) say to one of them. The joined content of an answer is kept as the list
--   of its pieces.
--
-- How the code is read. An operation takes the clock's reading as an argument, one reading for each
-- call; a mutable object is a record that the operation returns anew; u32 and u64 counters wrap, usize
-- counters of one request's bytes do not. The database rows, the decryption of a key and the answers
-- of the upstream are arguments. DashMap shards and their locks are not modelled: each operation is
-- one step. No loop needs fuel: all are recursions on lists; the rounds of
-- `acquire`, which waits for other tasks, are a list too.
--
-- Not modelled: HTTP servers, the other handlers, SQL, e-mail, the primitives of cryptography, web pages, configuration.
mod Common
pub mod Gateway
pub mod Acugw
pub mod Platform
pub mod Security

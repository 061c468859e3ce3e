-- ===== src/FakeVllm.antt =====
-- cmd/fake-vllm/main.go: the test backend, its flags, its answer to a completion request, and the
-- stream that it writes. `json.Marshal` of a chunk is an argument. A request is given by what the
-- decoder finds in its body, and the context and the writes by whether they let each step happen.
pub mod Payload
pub mod Lines
pub mod Sent
pub mod Metered
mod Tests
use vire.Base.{
  ℕ, ◌+◌, Bool, true, false, not, ◌&&◌, ◌||◌, Option, none, some, List, [], ◌∷◌, ◌++◌, map, ltb,
  nat_eq, if◌then◌else◌, ℤ, pos, negsuc, is_nonneg, String, ◌==◌, codes, trim,
}
use vire.Gateway.Usage.{TokenUsage, done_mark}

-- The fields of `config` that are checked or read by the handler.
pub record Config : Type 0 where
  pub model : String
  pub startup_delay : ℤ
  pub response_delay : ℤ
  pub chunk_delay : ℤ
  pub error_status : ℤ

pub data FlagError : Type 0 where
  positional_arguments empty_model negative_delay bad_error_status : FlagError

-- `status != 0 && (status < 400 || status > 599)`
abbrev pub is_bad_status : ℤ → Bool
is_bad_status (pos n) = not (nat_eq n 0) && (ltb n 400 || ltb 599 n)
is_bad_status (negsuc n) = true

-- The checks of `parseConfig` on the parsed flags, with the number of other arguments.
unfoldable pub check_config : ℕ → Config → Option FlagError
check_config n_arg cfg =
    if not (nat_eq n_arg 0)
    then some positional_arguments
    else if trim cfg.model == ""
    then some empty_model
    else if not (is_nonneg cfg.startup_delay)
        || not (is_nonneg cfg.response_delay)
        || not (is_nonneg cfg.chunk_delay)
    then some negative_delay
    else if is_bad_status cfg.error_status
    then some bad_error_status
    else none

-- What the decoder finds in a body: `fields` has the model if it is a text (empty for null), whether
-- the messages can be decoded, and the JSON text of `stream`, empty if it is missing.
pub data Body : Type 0 where
  too_large malformed : Body
  fields : (model : Option String) (messages_ok : Bool) (stream : String) → Body

-- `completion` as a chunk of a stream.
pub record Chunk : Type 0 where
  pub model : String
  pub role : String
  pub content : String
  pub stopped : Bool
  pub usage : Option TokenUsage

abbrev pub tokens : TokenUsage
tokens = record { prompt_tokens = some (pos 0); completion_tokens = some (pos 5) }

abbrev pub part : String → String → Chunk
part model content = record {
  model = model;
  role = "";
  content = content;
  stopped = false;
  usage = none;
}

-- The chunks before the last one, and the last one.
abbrev pub parts : String → List Chunk
parts model =
    record { model = model; role = "assistant"; content = ""; stopped = false; usage = none }
    ∷ map (part model) ("Hello" ∷ " from" ∷ " fake" ∷ " vLLM" ∷ "." ∷ [])

abbrev pub last_chunk : String → Chunk
last_chunk model = record {
  model = model;
  role = "";
  content = "";
  stopped = true;
  usage = some tokens;
}

-- `writeEvent`
abbrev pub event : List ℕ → List ℕ
event payload = codes "data: " ++ payload ++ 10 ∷ 10 ∷ []

-- The events from number `k` on: `ok k` tells whether the wait for event `k`, the check of the
-- context and the write with its flush succeed. An event that fails leaves no byte, and after it
-- nothing is written.
unfoldable pub write_events : (ℕ → Bool) → ℕ → List (List ℕ) → List ℕ
write_events ok k [] = []
write_events ok k (payload ∷ payloads) =
    let rest = write_events ok (k + 1) payloads in if ok k then event payload ++ rest else []

-- The data of the events: the chunks, then the end mark.
abbrev pub payloads_of : (Chunk → List ℕ) → List Chunk → List (List ℕ)
payloads_of marshal chunks = map marshal chunks ++ done_mark ∷ []

-- The body of a streamed completion.
unfoldable pub stream_body : (Chunk → List ℕ) → String → (ℕ → Bool) → List ℕ
stream_body marshal model ok =
    write_events ok 0 (payloads_of marshal (parts model ++ last_chunk model ∷ []))

-- A reply: nothing to a client that is gone, the health, an error, the completion, or a stream.
pub data Reply : Type 0 where
  no_reply healthy completed : Reply
  error_is : ℤ → Reply
  streamed : List ℕ → Reply

-- The value of `stream`, if it is one.
abbrev pub stream_flag : String → Option Bool
stream_flag text =
    if text == "" || text == "false" then some false else if text == "true" then some true else none

abbrev pub answer : (Chunk → List ℕ) → Config → (ℕ → Bool) → Bool → Reply
answer marshal cfg ok true = streamed (stream_body marshal cfg.model ok)
answer marshal cfg ok false = completed

abbrev pub is_zero : ℤ → Bool
is_zero (pos n) = nat_eq n 0
is_zero (negsuc n) = false

-- From the switch on `stream` on; `alive` tells whether the context is still open.
abbrev pub serve : (Chunk → List ℕ) → Config → Bool → (ℕ → Bool) → Option Bool → Reply
serve marshal cfg alive ok none = error_is (pos 400)
serve marshal cfg alive ok (some stream) =
    if not alive
    then no_reply
    else if not (is_zero cfg.error_status)
    then error_is cfg.error_status
    else answer marshal cfg ok stream

abbrev pub health : Bool → Reply
health ready = if not ready then error_is (pos 503) else healthy

-- The handler of a completion: `ready` and `waited` tell whether the delays of the start and of the
-- response are over.
unfoldable pub complete : (Chunk → List ℕ) → Config → Bool → Bool → Bool → (ℕ → Bool) → Body → Reply
complete marshal cfg ready waited alive ok body =
    if not ready then error_is (pos 503) else elim body [
      | too_large ↦ error_is (pos 413)
      | malformed ↦ error_is (pos 400)
      | fields model messages_ok stream ↦ elim model [
        | none ↦ error_is (pos 400)
        | some name ↦
            if not messages_ok
            then error_is (pos 400)
            else if not waited
            then no_reply
            else if name == "" || not (name == cfg.model)
            then error_is (pos 400)
            else serve marshal cfg alive ok (stream_flag stream)
      ]
    ]

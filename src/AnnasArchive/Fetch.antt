-- ===== src/AnnasArchive/Fetch.antt =====
-- `_fetch_fast_download` and `_read_bounded_json` of
-- providers/annas_archive/src/pullbox_provider_annas_archive/service.py. What the httpx client
-- answers is an argument, and a JSON decoder whose `none` is a ValueError. A run returns beside its
-- result how many responses it has closed.
use pullbox_direct_providers.Prelude.{
  ℕ, ◌*◌, Option, none, some, List, [], ◌∷◌, ◌++◌, ltb, if◌then◌else◌, length, String,
}
use pullbox_direct_providers.Prelude.Json.{Json, obj, Fields}
use pullbox_direct_providers.Prelude.Result.{Result, ok, raised}
use pullbox_direct_providers.Contract.Failures.{Failure, protocol_error}

-- An exception of the client: an httpx.HTTPError, or another.
pub data WireError : Type 0 where
  http_error : WireError
  failed : Failure → WireError

-- What `client.send` gives: an exception, or a status with the chunks of the body.
pub data WireReply : Type 0 where
  refused : WireError → WireReply
  answered : ℕ → List (Result WireError (List ℕ)) → WireReply

abbrev pub max_json_bytes : ℕ
max_json_bytes = 256 * 1024

abbrev pub unavailable : String → Failure
unavailable code =
    protocol_error (record { status_code = 503; code = code; retry_after_seconds = none })

abbrev pub grown : List ℕ → Result WireError (List ℕ) → Result WireError (List ℕ)
grown body (raised e) = raised e
grown body (ok chunk) =
    if ltb max_json_bytes (length (body ++ chunk))
    then raised (failed (unavailable "source_malformed_response"))
    else ok (body ++ chunk)

abbrev pub continued :
    Result WireError (List ℕ) → (List ℕ → Result WireError (List ℕ)) → Result WireError (List ℕ)
continued (ok body) next = next body
continued (raised e) next = raised e

-- `_read_bounded_json`, with the body read so far
unfoldable pub read_bounded_json :
    List (Result WireError (List ℕ)) → List ℕ → Result WireError (List ℕ)
read_bounded_json [] body = ok body
read_bounded_json (chunk ∷ chunks) body =
    continued (grown body chunk) (λ longer. read_bounded_json chunks longer)

abbrev pub failure_of : WireError → Failure
failure_of http_error = unavailable "source_unavailable"
failure_of (failed e) = e

abbrev pub object_of : ℕ → Option Json → Result Failure (ℕ × Fields)
object_of status (some (obj fields)) = ok (status, fields)
object_of status _ = raised (unavailable "source_malformed_response")

abbrev pub decoded_body :
    (List ℕ → Option Json) → ℕ → Result WireError (List ℕ) → Result Failure (ℕ × Fields)
decoded_body decode status (ok body) = object_of status (decode body)
decoded_body decode status (raised e) = raised (failure_of e)

-- `_fetch_fast_download`
unfoldable pub fetch_fast_download :
    (List ℕ → Option Json) → WireReply → Result Failure (ℕ × Fields) × ℕ
unfolding read_bounded_json
fetch_fast_download decode (refused e) = (raised (failure_of e), 0)
fetch_fast_download decode (answered status chunks) =
    (decoded_body decode status (read_bounded_json chunks []), 1)

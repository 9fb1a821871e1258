-- ===== src/Rpc/Errors.antt =====
-- The classification of errors in parseon-rpc/src/provider.rs, by the words of the endpoint's message.
use parseon.Common.{
  ℕ, ◌+◌, Bool, true, false, ◌&&◌, ◌||◌, String, Option, List, [], ◌∷◌, map, any, leb, eqb,
  if◌then◌else◌, is_some_and,
}
use parseon.Common.Int.{ℤ}
use parseon.Common.Text.{codes}

-- An error response of the endpoint: its code, its message and whether alloy finds it worth a retry.
pub record ErrorResponse : Type 0 where
  pub code : ℤ
  pub message : String
  pub retryable : Bool

-- `rpc_error_response` is what it reads of an error: nothing if it is no response of the endpoint.
pub record RpcError : Type 0 where
  pub response : Option ErrorResponse
  pub text : String

-- `to_ascii_lowercase`
abbrev pub lowercase : List ℕ → List ℕ
lowercase cs = map (λ c. if leb b'A' c && leb c b'Z' then c + 32 else c) cs

abbrev pub is_prefix : List ℕ → List ℕ → Bool
is_prefix [] cs = true
is_prefix (p ∷ ps) [] = false
is_prefix (p ∷ ps) (c ∷ cs) = eqb p c && is_prefix ps cs

-- `str::contains`
abbrev pub contains : List ℕ → List ℕ → Bool
contains needle [] = is_prefix needle []
contains needle (c ∷ cs) = is_prefix needle (c ∷ cs) || contains needle cs

abbrev pub mentions : List ℕ → String → Bool
mentions message needle = contains (codes needle) message

abbrev pub mentions_any : List ℕ → List String → Bool
mentions_any message needles = any (mentions message) needles

-- Whether a message says that a range of logs is too large.
unfoldable pub says_too_large : List ℕ → Bool
says_too_large message =
    (mentions message "block"
      && mentions message "range"
      && mentions_any message ("limit" ∷ "limited" ∷ "exceed" ∷ "too wide" ∷ "too large" ∷ []))
    || (mentions message "query returned more than" && mentions message "result")
    || mentions message "log response size exceeded"
    || (mentions message "too many" && (mentions message "logs" || mentions message "results"))

-- Whether a message says that the endpoint is asked too often.
unfoldable pub says_too_often : List ℕ → Bool
says_too_often message =
    mentions_any message
      ("rate limit" ∷ "rate exceeded" ∷ "too many requests" ∷ "request limit" ∷ "credits" ∷ [])

-- `log_range_limited`
unfoldable pub log_range_limited : RpcError → Bool
unfolding says_too_large says_too_often
log_range_limited error = is_some_and error.response (λ response.
    let message = lowercase (codes response.message) in
    if response.retryable && says_too_often message then false else says_too_large message)

-- ===== src/Gateway/Bearer.antt =====
-- `authenticate` of gateway/accounts.go. A header's value is a text, so it is valid UTF-8. The
-- argument of type `Option` is `Authenticate` of the account store, if there is a store.
pub mod Scheme
mod Tests
use vire.Base.{
  ℕ, ◌+◌, ◌≡◌, Bool, true, false, ◌&&◌, Option, none, some, List, [], ◌∷◌, map, ltb, leb,
  if◌then◌else◌, String, codes, bytes_eq, is_space,
}
use vire.Accounts.Tables.{Error, Result, ok, err, invalid_key}
use vire.Accounts.Keys.{KeyIdentity}
use vire.Accounts.Sessions.{utf8_length}

-- A word before other words, if it is not empty.
abbrev pub push : List ℕ → List (List ℕ) → List (List ℕ)
push [] words = words
push (c ∷ cs) words = (c ∷ cs) ∷ words

-- The characters before the first space, and the words after it.
pub split_words : List ℕ → List ℕ × List (List ℕ)
split_words [] = ([], [])
split_words (c ∷ cs) =
    let rest = split_words cs in
    if is_space c then ([], push rest.0 rest.1) else (c ∷ rest.0, rest.1)

-- `strings.Fields`
unfoldable pub fields : List ℕ → List (List ℕ)
unfolding split_words
fields s = push (split_words s).0 (split_words s).1

abbrev pub lower_case : ℕ → ℕ
lower_case c = if leb 65 c && leb c 90 then c + 32 else c

-- `strings.EqualFold(s, "Bearer")`: no letter of `Bearer` folds to a character that is not ASCII.
abbrev pub is_bearer : List ℕ → Bool
is_bearer s = bytes_eq (map lower_case s) (codes "bearer")

abbrev pub token_in : List (List ℕ) → Option (List ℕ)
token_in (scheme ∷ token ∷ []) = if is_bearer scheme then some token else none
token_in _ = none

-- The checks on the values of the header `Authorization`.
unfoldable pub bearer : List String → Option (List ℕ)
bearer (value ∷ []) =
    if ltb 256 (utf8_length (codes value)) then none else token_in (fields (codes value))
bearer _ = none

-- An identity, or a reply with status 401 or 503.
pub data Reply : Type 0 where
  identified : KeyIdentity → Reply
  unauthorized unavailable : Reply

abbrev pub reply : Result KeyIdentity → Reply
reply (ok identity) = identified identity
reply (err invalid_key) = unauthorized
reply (err _) = unavailable

abbrev pub answer : (List ℕ → Result KeyIdentity) → Option (List ℕ) → Reply
answer store none = unauthorized
answer store (some token) = reply (store token)

-- `Server.authenticate`
unfoldable pub authenticate_request : Option (List ℕ → Result KeyIdentity) → List String → Reply
authenticate_request none values = identified (record { account_id = ""; key_id = "" })
authenticate_request (some store) values = answer store (bearer values)

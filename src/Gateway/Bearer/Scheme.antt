-- ===== src/Gateway/Bearer/Scheme.antt =====
-- The scheme `Bearer` of gateway/accounts.go.
use vire.Base.{
  ℕ, ◌≡◌, ◌≤◌, refl, ap, ◌∙◌, Bool, true, false, ◌&&◌, not, some, List, [], ◌∷◌, ◌++◌, String,
  codes, is_space, arith, le→ltb_false,
}
use vire.Accounts.Tables.{Result}
use vire.Accounts.Keys.{KeyIdentity, is_nil}
use vire.Accounts.Sessions.{utf8_length}
use vire.Gateway.Bearer.{
  push, split_words, fields, token_in, bearer, reply, answer, authenticate_request,
}

-- No character is a space.
unfoldable pub one_word : List ℕ → Bool
one_word [] = true
one_word (c ∷ cs) = not (is_space c) && one_word cs

split_words-one_word :
    (cs : List ℕ) → one_word cs ≡ true → ((split_words cs).0 ≡ cs) × ((split_words cs).1 ≡ [])
unfolding split_words one_word
split_words-one_word [] h = (refl, refl)
split_words-one_word (c ∷ cs) h =
    let letter : is_space c ≡ false = ground arith in
    let (word, none') = split_words-one_word cs (ground arith) in
    rw letter (ap (λ w. c ∷ w) word, none')

push_one : (token : List ℕ) → is_nil token ≡ false → push token [] ≡ token ∷ []
push_one [] h = cc
push_one (c ∷ cs) h = refl

-- The two fields of a header with a token.
fields-bearer :
    (token : List ℕ)
    → one_word token ≡ true
    → is_nil token ≡ false
    → fields (codes "Bearer " ++ token) ≡ codes "Bearer" ∷ token ∷ []
unfolding fields split_words
fields-bearer token word nonempty =
    let (front, others) = split_words-one_word token word in
    rw (front, others, push_one token nonempty) refl

-- With an account store and one Authorization header that is Bearer, a space and a token that is
-- not empty and has no spaces, and has at most 256 bytes in all, authenticate answers what the
-- store says of exactly that token.
pub authenticate_request-bearer :
    (store : List ℕ → Result KeyIdentity) (value : String) (token : List ℕ)
    → codes value ≡ codes "Bearer " ++ token
    → utf8_length (codes value) ≤ 256
    → one_word token ≡ true
    → is_nil token ≡ false
    → authenticate_request (some store) (value ∷ []) ≡ reply (store token)
unfolding authenticate_request bearer
authenticate_request-bearer store value token written short word nonempty =
    rw (le→ltb_false 256 (utf8_length (codes value)) short) (
      ap (λ cs. answer store (token_in (fields cs))) written
      ∙ ap (λ ws. answer store (token_in ws)) (fields-bearer token word nonempty))

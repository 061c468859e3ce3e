-- ===== src/Gateway/Bearer/Tests.antt =====
-- Runs of `authenticate` of gateway/accounts.go, and its theorem at one.
use vire.Base.{ℕ, ◌≡◌, refl, true, some, List, [], ◌∷◌, arith, codes, bytes_eq, if◌then◌else◌}
use vire.Accounts.Tables.{Result, ok, err, invalid_key}
use vire.Accounts.Keys.{KeyIdentity}
use vire.Gateway.Bearer.{
  split_words, fields, bearer, identified, unauthorized, reply, authenticate_request,
}
use vire.Gateway.Bearer.Scheme.{one_word, authenticate_request-bearer}

abbrev store : List ℕ → Result KeyIdentity
store token =
    if bytes_eq token (codes "vire_k_s")
    then ok (record { account_id = "a"; key_id = "k" })
    else err invalid_key

spaced :
    authenticate_request (some store) (" bEARER   vire_k_s " ∷ [])
    ≡ identified (record { account_id = "a"; key_id = "k" })
unfolding authenticate_request bearer fields split_words
spaced = refl

two_values : authenticate_request (some store) ("Bearer vire_k_s" ∷ "x" ∷ []) ≡ unauthorized
unfolding authenticate_request bearer
two_values = refl

word : one_word (codes "vire_k_s") ≡ true
unfolding one_word
word = refl

authenticate_request-bearer_example :
    authenticate_request (some store) ("Bearer vire_k_s" ∷ []) ≡ reply (store (codes "vire_k_s"))
authenticate_request-bearer_example =
    authenticate_request-bearer store "Bearer vire_k_s" (codes "vire_k_s") refl (omega arith) word
      refl

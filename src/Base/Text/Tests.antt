-- ===== src/Base/Text/Tests.antt =====
-- base/string.cc: short strings, and the theorems at them.
use sails.Prelude.{ℕ, ◌≡◌, refl, some, none, List, [], ◌∷◌, arith}
use sails.Prelude.Counts.{count}
use sails.Base.Text.{encode_loop, url_encode, decode_loop, url_decode}
use sails.Base.Text.Url.{url_decode-encode}

-- "a/b"
abbrev slashed : List ℕ
slashed = 97 ∷ 47 ∷ 98 ∷ []

-- "a%2Fb"
abbrev escaped : List ℕ
escaped = 97 ∷ 37 ∷ 50 ∷ 70 ∷ 98 ∷ []

slashed-encode : url_encode slashed 16 ≡ some (some escaped)
unfolding url_encode encode_loop
slashed-encode = refl

-- "a b", and "a+b"
spaced-encode : url_encode (97 ∷ 32 ∷ 98 ∷ []) 16 ≡ some (some (97 ∷ 43 ∷ 98 ∷ []))
unfolding url_encode encode_loop
spaced-encode = refl

-- A byte from 128 on.
negative-encode : url_encode (200 ∷ []) 16 ≡ none
unfolding url_encode encode_loop
negative-encode = refl

full-encode : url_encode slashed 5 ≡ some none
unfolding url_encode encode_loop
full-encode = refl

-- Digits in lower case: "%2f".
lower-decode : url_decode (37 ∷ 50 ∷ 102 ∷ []) 16 ≡ some (64 ∷ [])
unfolding url_decode decode_loop
lower-decode = refl

cut-decode : url_decode (37 ∷ []) 16 ≡ none
unfolding url_decode decode_loop
cut-decode = refl

url_decode-encode_example : url_decode escaped 16 ≡ some slashed
unfolding count
url_decode-encode_example =
    url_decode-encode slashed escaped 16 16 refl refl (omega arith) slashed-encode (omega arith)
      (omega arith)

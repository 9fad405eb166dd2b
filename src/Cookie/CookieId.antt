-- ===== src/Cookie/CookieId.antt =====
-- web/js/server/cookie/utils.js and constants.js: which cookie ids are valid. An id is its list of
-- code points. `isUrlSafeBase64` and `encode` are of the package url-safe-base64: parameters.
use sigopt_server.Base.{
  ℕ, ◌≤◌, ◌≡◌, ◌≢◌, ◌⊎◌, refl, ap, suc, Bool, true, false, ◌&&◌, ◌||◌, List, [], ◌∷◌, map, length,
  all, leb, ◌==◌, arith, if◌then◌else◌, All,
}

abbrev base64_encoded_session_id_length : ℕ
base64_encoded_session_id_length = 88

-- A character of the class in `S3_SAFE_REGEX`. `!-_` in it is the range from `!` to `_`, and the
-- flags `iu` add the small letters' case variants outside ASCII.
pub is_s3_safe_char : ℕ → Bool
is_s3_safe_char c =
    (leb b'!' c && leb c b'_') || ((leb b'a' c && leb c b'z') || (c == 0x17f || c == 0x212a))

pub is_s3_safe : List ℕ → Bool
is_s3_safe [] = false
is_s3_safe (c ∷ id) = all is_s3_safe_char (c ∷ id)

-- `BASE64_REPLACEMENTS`.
pub replace_base64 : ℕ → ℕ
replace_base64 c = if c == b'=' then b'.' else c

pub new_random_cookie_id : List ℕ → List ℕ
new_random_cookie_id unsafe_new_id = map replace_base64 unsafe_new_id

pub is_valid_cookie_id : (List ℕ → Bool) → List ℕ → Bool
is_valid_cookie_id is_url_safe_base64 [] = false
is_valid_cookie_id is_url_safe_base64 (c ∷ id) =
    is_url_safe_base64 (c ∷ id)
    && (is_s3_safe (c ∷ id) && length (c ∷ id) == base64_encoded_session_id_length)

-- What the encoder's output is made of: letters, digits, `-`, `_`, and `=` or `.` for padding.
abbrev pub IsEncoded : ℕ → Type 0
IsEncoded c =
    ((b'0' ≤ c) × (c ≤ b'9'))
    ⊎ ((b'A' ≤ c) × (c ≤ b'Z'))
    ⊎ ((b'a' ≤ c) × (c ≤ b'z'))
    ⊎ (c ≡ b'-')
    ⊎ (c ≡ b'_')
    ⊎ (c ≡ b'=')
    ⊎ (c ≡ b'.')

replaced_safe :
    (id : List ℕ) → All IsEncoded id → all is_s3_safe_char (map replace_base64 id) ≡ true
unfolding is_s3_safe_char replace_base64
replaced_safe [] h = refl
replaced_safe (c ∷ id) (h, hs) = ground (arith, replaced_safe id hs)

length-map : (id : List ℕ) → length (map replace_base64 id) ≡ length id
length-map [] = refl
length-map (c ∷ id) = ap suc (length-map id)

no_equals : (id : List ℕ) → All (λ c. c ≢ b'=') (map replace_base64 id)
unfolding replace_base64
no_equals [] = tt
no_equals (c ∷ id) = (ground arith, no_equals id)

-- A new id made from 88 encoded characters is valid, if the package takes it for url-safe, and
-- holds no `=`.
new_random_cookie_id-valid :
    (is_url_safe_base64 : List ℕ → Bool) (unsafe_new_id : List ℕ)
    → All IsEncoded unsafe_new_id
    → length unsafe_new_id ≡ 88
    → is_url_safe_base64 (new_random_cookie_id unsafe_new_id) ≡ true
    → (is_valid_cookie_id is_url_safe_base64 (new_random_cookie_id unsafe_new_id) ≡ true)
      × All (λ c. c ≢ b'=') (new_random_cookie_id unsafe_new_id)
unfolding new_random_cookie_id is_valid_cookie_id is_s3_safe
new_random_cookie_id-valid u [] h l s = absurd (omega arith)
new_random_cookie_id-valid u (c ∷ id) h l s =
    (ground (arith, replaced_safe (c ∷ id) h, length-map (c ∷ id)), no_equals (c ∷ id))

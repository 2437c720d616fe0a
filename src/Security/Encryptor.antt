-- ===== src/Security/Encryptor.antt =====
-- message/security/es-message-encryptor.ts: each code point becomes eight characters, the first of a
-- digest, and two maps remember which. `sha256` is the digest that the library `crypto` gives in
-- base64; the rest of a message's way to the search index is not modelled.
pub mod Laws
pub mod RoundTrip
pub mod Reload
use Prim.Native.Nat.{◌/◌, ◌%◌}
use thunderchat_server.Base.{
  ℕ, zero, suc, ◌+◌, Bool, true, false, not, Option, none, some, List, [], ◌∷◌, ◌++◌, ◌==◌,
  if◌then◌else◌, is_some, length, nat_eq, list_eq,
}
use thunderchat_server.Base.JsMap.{Map, get, has, set}
use thunderchat_server.Base.Action.{
  system_error, Result, ok, err, Action, pure, throw, gets, modify, throw_if, ◌>>=◌, ◌>>◌,
}
use thunderchat_server.Security.Utf16.{
  Text, code_points, points_at, from_code_point, from_code_points, take, drop, decimal,
}

pub record Encryptor : Type 0 where
  pub char_map : Map ℕ Text
  pub reverse_map : Map Text ℕ

abbrev pub new_encryptor : Encryptor
new_encryptor = record { char_map = []; reverse_map = [] }

abbrev pub encrypted_message_length : ℕ
encrypted_message_length = 8

abbrev pub remember : ℕ → Text → Encryptor → Encryptor
remember c code e = record e {
  char_map = set e.char_map c code;
  reverse_map = set e.reverse_map code c;
}

-- The keys of `charMap`, in the order in which they were set.
abbrev pub mapped_code_points : Map ℕ Text → List ℕ
mapped_code_points [] = []
mapped_code_points ((c, _) ∷ m) = c ∷ mapped_code_points m

unfoldable pub get_mappings : Encryptor → Text
get_mappings e = from_code_points (mapped_code_points e.char_map)

-- `if (!codePoint)`: no entry, or the code point 0.
abbrev decoded : Option ℕ → Action Encryptor Text
decoded none = throw system_error
decoded (some zero) = throw system_error
decoded (some (suc c)) = pure (from_code_point (suc c))

-- One turn of the loop for each chunk.
abbrev pub decrypt_chunks : ℕ → Text → Action Encryptor Text
decrypt_chunks zero encoded = pure []
decrypt_chunks (suc n) encoded = do
  found ← gets (λ e. get e.reverse_map (take encrypted_message_length encoded))
  first ← decoded found
  rest ← decrypt_chunks n (drop encrypted_message_length encoded)
  pure (first ++ rest)

unfoldable pub decrypt : Text → Action Encryptor Text
decrypt encoded = do
  throw_if (not (length encoded % encrypted_message_length == 0)) system_error
  decrypt_chunks (length encoded / encrypted_message_length) encoded

module _ (sha256 : Text → Text) (secret_key : Text) where
  unfoldable pub encoding_of : ℕ → Text
  encoding_of c = take encrypted_message_length (sha256 (secret_key ++ decimal c))

  abbrev pub encrypt_new : ℕ → Action Encryptor Text
  unfolding encoding_of
  encrypt_new c = do
    taken ← gets (λ e. has e.reverse_map (encoding_of c))
    throw_if taken system_error
    modify (remember c (encoding_of c))
    pure (encoding_of c)

  unfoldable pub encrypt_char : ℕ → Action Encryptor Text
  unfolding encoding_of
  encrypt_char c e = elim (get e.char_map c) [ none ↦ encrypt_new c e | some code ↦ (ok code, e) ]

  -- The loop over the code points of a text, up to the first that is 0 or collides.
  unfoldable pub encrypt_all : List ℕ → Action Encryptor Text
  unfolding encrypt_char
  encrypt_all [] = pure []
  encrypt_all (c ∷ cs) = do
    throw_if (c == 0) system_error
    first ← encrypt_char c
    rest ← encrypt_all cs
    pure (first ++ rest)

  unfoldable pub encrypt : Text → Action Encryptor Text
  unfolding encrypt_all
  encrypt input = encrypt_all (code_points input)

  -- The loop of `initMapping` goes on by one unit always: it reads the second unit of a pair again.
  unfoldable pub init_mapping : Text → Action Encryptor (Unit {0})
  unfolding encrypt_all
  init_mapping mappings = do encrypt_all (points_at mappings); pure tt

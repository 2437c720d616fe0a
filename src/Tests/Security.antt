-- ===== src/Tests/Security.antt =====
-- A text with a pair of surrogates, encrypted and decrypted, and the mappings that are saved.
use thunderchat_server.Base.{
  ℕ, ◌≤◌, ◌≡◌, refl, List, [], ◌∷◌, ◌++◌, length, length-append, arith, All, map, true,
}
use thunderchat_server.Base.Action.{ok}
use thunderchat_server.Security.Utf16.{Text, code_points, points_at}
use thunderchat_server.Security.Encryptor.{
  Encryptor, new_encryptor, mapped_code_points, encrypt, decrypt, init_mapping, get_mappings,
}
use thunderchat_server.Security.Encryptor.Laws.{new_encryptor-IsConsistent}
use thunderchat_server.Security.Encryptor.RoundTrip.{encrypt-decrypt}
use thunderchat_server.Security.Encryptor.Reload.{IsReachable, init_mapping-get_mappings}

-- A digest of eight units or more that tells short texts apart.
abbrev padding : Text
padding = 65 ∷ 65 ∷ 65 ∷ 65 ∷ 65 ∷ 65 ∷ 65 ∷ 65 ∷ []

abbrev padded : Text → Text
padded t = t ++ padding

padded_long : (t : Text) → 8 ≤ length (padded t)
padded_long t = omega (arith, length-append t padding)

-- "hi", and U+1F600 in two units.
abbrev hi : Text
hi = 104 ∷ 105 ∷ []

abbrev smile : Text
smile = 0xd83d ∷ 0xde00 ∷ []

abbrev code_of_smile : Text
code_of_smile = 49 ∷ 50 ∷ 56 ∷ 53 ∷ 49 ∷ 50 ∷ 65 ∷ 65 ∷ []

abbrev code_of_hi : Text
code_of_hi =
    (49 ∷ 48 ∷ 52 ∷ 65 ∷ 65 ∷ 65 ∷ 65 ∷ 65 ∷ []) ++ (49 ∷ 48 ∷ 53 ∷ 65 ∷ 65 ∷ 65 ∷ 65 ∷ 65 ∷ [])

abbrev after : Text → Encryptor
after us = (encrypt padded [] us new_encryptor).1

smile_code : encrypt padded [] smile new_encryptor ≡ (ok code_of_smile, after smile)
unfolding encrypt code_points thunderchat_server.Base.JsMap.get thunderchat_server.Base.JsMap.has
smile_code = refl

encrypt-decrypt_example :
    decrypt code_of_smile (encrypt padded [] hi (after smile)).1
    ≡ (ok smile, (encrypt padded [] hi (after smile)).1)
unfolding encrypt code_points thunderchat_server.Base.JsMap.get thunderchat_server.Base.JsMap.has
    thunderchat_server.Base.JsMap.set
encrypt-decrypt_example =
    encrypt-decrypt padded [] padded_long smile hi code_of_smile new_encryptor (after smile)
      (encrypt padded [] hi (after smile)).1 (ok code_of_hi) (ground arith, (ground arith, tt))
      new_encryptor-IsConsistent smile_code refl

init_mapping-get_mappings_example :
    init_mapping padded [] (get_mappings (after hi)) new_encryptor ≡ (ok tt, after hi)
unfolding encrypt code_points thunderchat_server.Base.JsMap.get thunderchat_server.Base.JsMap.has
    thunderchat_server.Base.JsMap.set
init_mapping-get_mappings_example =
    init_mapping-get_mappings padded [] (after hi)
      (IsReachable.encrypted hi new_encryptor (after hi) (ok code_of_hi) IsReachable.start refl)
      (refl, (refl, tt))

-- The second unit of a pair is read again, and gets an entry of its own.
reloaded_smile :
    mapped_code_points
      (init_mapping padded [] (get_mappings (after smile)) new_encryptor).1.char_map
    ≡ 0x1f600 ∷ 0xde00 ∷ []
unfolding init_mapping get_mappings points_at thunderchat_server.Security.Utf16.from_code_points
    encrypt code_points thunderchat_server.Base.JsMap.get thunderchat_server.Base.JsMap.has
    thunderchat_server.Base.JsMap.set
reloaded_smile = refl

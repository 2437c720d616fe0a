-- ===== src/Security/Encryptor/RoundTrip.antt =====
-- Texts come back: what an encryptor has encrypted, it decrypts from then on.
use thunderchat_server.Base.{◌≤◌, ◌≡◌, ◌∙◌, refl, length}
use thunderchat_server.Base.Action.{Result, ok}
use thunderchat_server.Security.Utf16.{Text, IsText, code_points, from_code_points-code_points}
use thunderchat_server.Security.Encryptor.{Encryptor, decrypt, encrypt}
use thunderchat_server.Security.Encryptor.Laws.{
  IsConsistent, encrypt_all_lem, decrypt-Decodes, Decodes-Extends,
}

module _ (sha256 : Text → Text) (secret_key : Text)
    (long : (t : Text) → 8 ≤ length (sha256 t)) where
  -- A text that has been encrypted can be decrypted by the encryptor, also after the encryptor has
  -- encrypted another text, with any result.
  pub encrypt-decrypt :
      (us vs out : Text) (e e1 e2 : Encryptor) (r : Result Text)
      → IsText us
      → IsConsistent e
      → encrypt sha256 secret_key us e ≡ (ok out, e1)
      → encrypt sha256 secret_key vs e1 ≡ (r, e2)
      → decrypt out e2 ≡ (ok us, e2)
  unfolding encrypt
  encrypt-decrypt us vs out e e1 e2 r text v h later =
      let (v1, x1, f1) =
        encrypt_all_lem sha256 secret_key long (code_points us) e e1 (ok out) v h in
      let (v2, x2, f2) = encrypt_all_lem sha256 secret_key long (code_points vs) e1 e2 r v1 later in
      decrypt-Decodes (Decodes-Extends x2 (f1 out refl))
      ∙ rw (from_code_points-code_points us text) refl

-- ===== src/Security/Encryptor/Reload.antt =====
-- The mappings that an encryptor saves, and the encryptor that starts from them.
use thunderchat_server.Base.{
  ℕ, ◌≡◌, refl, true, false, ◌&&◌, none, List, [], ◌∷◌, ◌++◌, arith, ◌==◌, nat_eq, list_eq,
  Option-cases, Bool-cases, inl, inr, All, ltb,
}
use thunderchat_server.Base.JsMap.{Map, get, has, set}
use thunderchat_server.Base.Action.{Result, Result-cases, ok}
use thunderchat_server.Security.Utf16.{Text, is_scalar, points_at-from_code_points, code_points}
use thunderchat_server.Security.Encryptor.{
  Encryptor, new_encryptor, encoding_of, encrypt_char, encrypt_all, encrypt, remember,
  mapped_code_points, get_mappings, init_mapping,
}
use thunderchat_server.Security.Encryptor.Laws.{encrypt_char_result, encrypt_all_result}

mapped_code_points-set :
    (m : Map ℕ Text) (c : ℕ) (code : Text)
    → get m c ≡ none
    → mapped_code_points (set m c code) ≡ mapped_code_points m ++ (c ∷ [])
unfolding get set
mapped_code_points-set [] c code h = refl
mapped_code_points-set ((k, x) ∷ m) c code h = ground (arith, mapped_code_points-set m c code)

module _ (sha256 : Text → Text) (secret_key : Text) where
  -- The encryptors that can come about.
  pub data IsReachable : Encryptor → Type 0 where
    start : IsReachable new_encryptor
    encrypted :
        (us : Text)
        → (e e' : Encryptor) → (r : Result Text) → IsReachable e
        → encrypt sha256 secret_key us e ≡ (r, e')
        → IsReachable e'

  -- Code points that an encryptor takes without an exception.
  abbrev Runs : List ℕ → Encryptor → Encryptor → Type 0
  Runs cs e e' = (out : Text) × (encrypt_all sha256 secret_key cs e ≡ (ok out, e'))

  abbrev Takes : ℕ → Encryptor → Encryptor → Type 0
  Takes c e e' =
      ((c == 0) ≡ false) × (code : Text) × (encrypt_char sha256 secret_key c e ≡ (ok code, e'))

  Runs-cons :
      (c : ℕ) (cs : List ℕ) (e e1 e2 : Encryptor)
      → Takes c e e1
      → Runs cs e1 e2
      → Runs (c ∷ cs) e e2
  unfolding encrypt_all
  Runs-cons c cs e e1 e2 (real, code, h) (out, k) = (code ++ out, ground arith)

  Runs-uncons :
      (c : ℕ) (cs : List ℕ) (e e2 : Encryptor)
      → Runs (c ∷ cs) e e2
      → (e1 : Encryptor) × Takes c e e1 × Runs cs e1 e2
  unfolding encrypt_all
  Runs-uncons c cs e e2 (out, h) = elim (Bool-cases (c == 0)) [
    | inl null ↦ absurd (ground arith)
    | inr real ↦
        let (r1, e1, made1) = encrypt_char_result sha256 secret_key c e in
        let (r2, e3, made2) = encrypt_all_result sha256 secret_key cs e1 in
        elim (Result-cases r1) [
          | inr (x, failed) ↦ absurd (ground arith)
          | inl (code, made) ↦ elim (Result-cases r2) [
            | inr (x, failed) ↦ absurd (ground arith)
            | inl (others, went) ↦ (e1, (real, code, ground arith), (others, ground arith))
          ]
        ]
  ]

  Runs-append :
      (cs ds : List ℕ) (e e1 e2 : Encryptor) → Runs cs e e1 → Runs ds e1 e2 → Runs (cs ++ ds) e e2
  unfolding encrypt_all
  Runs-append [] ds e e1 e2 (out, h) k = ground arith
  Runs-append (c ∷ cs) ds e e1 e2 h k =
      let (e3, first, rest) = Runs-uncons c cs e e1 h in
      Runs-cons c (cs ++ ds) e e3 e2 first (Runs-append cs ds e3 e1 e2 rest k)

  -- An encryptor comes about by encrypting the keys of its map in their order.
  abbrev IsReplay : Encryptor → Type 0
  IsReplay e = Runs (mapped_code_points e.char_map) new_encryptor e

  encrypt_char-IsReplay :
      (c : ℕ) (e e' : Encryptor) (r : Result Text)
      → (c == 0) ≡ false
      → encrypt_char sha256 secret_key c e ≡ (r, e')
      → IsReplay e
      → IsReplay e'
  unfolding encrypt_char encrypt_all
  encrypt_char-IsReplay c e e' r real h v =
      let code = encoding_of sha256 secret_key c in
      elim (Option-cases (get e.char_map c)) [
        | inr (old, there) ↦ let same : e' ≡ e = ground arith in rw same v
        | inl fresh ↦ elim (Bool-cases (has e.reverse_map code)) [
          | inl taken ↦ let same : e' ≡ e = ground arith in rw same v
          | inr free ↦
              let now : e' ≡ remember c code e = ground arith in
              let made : encrypt_char sha256 secret_key c e ≡ (ok code, remember c code e) =
                ground arith in
              let one =
                Runs-cons c [] e (remember c code e) (remember c code e) (real, code, made)
                  ([], refl) in
              rw (now, mapped_code_points-set e.char_map c code fresh)
                (Runs-append (mapped_code_points e.char_map) (c ∷ []) new_encryptor e
                  (remember c code e) v one)
        ]
      ]

  encrypt_all-IsReplay :
      (cs : List ℕ) (e e' : Encryptor) (r : Result Text)
      → encrypt_all sha256 secret_key cs e ≡ (r, e')
      → IsReplay e
      → IsReplay e'
  unfolding encrypt_all
  encrypt_all-IsReplay [] e e' r h v = let same : e' ≡ e = ground arith in rw same v
  encrypt_all-IsReplay (c ∷ cs) e e' r h v = elim (Bool-cases (c == 0)) [
    | inl null ↦ let same : e' ≡ e = ground arith in rw same v
    | inr real ↦
        let (r1, e1, made1) = encrypt_char_result sha256 secret_key c e in
        let v1 = encrypt_char-IsReplay c e e1 r1 real made1 v in
        let (r2, e2, made2) = encrypt_all_result sha256 secret_key cs e1 in
        elim (Result-cases r1) [
          | inr (x, failed) ↦ let same : e' ≡ e1 = ground arith in rw same v1
          | inl (code, made) ↦
              let same : e' ≡ e2 = elim (Result-cases r2) [
                | inr (x, failed) ↦ ground arith
                | inl (others, went) ↦ ground arith
              ] in
              rw same (encrypt_all-IsReplay cs e1 e2 r2 made2 v1)
        ]
  ]

  IsReachable-IsReplay : (e : Encryptor) → IsReachable e → IsReplay e
  unfolding encrypt encrypt_all
  IsReachable-IsReplay e start = ([], refl)
  IsReachable-IsReplay e (encrypted us e0 e1 r before h) =
      encrypt_all-IsReplay (code_points us) e0 e1 r h (IsReachable-IsReplay e0 before)

  -- An encryptor that starts from the saved mappings of another one, whose characters have code
  -- points below 0x10000 and are no surrogates, is the same encryptor.
  pub init_mapping-get_mappings :
      (e : Encryptor)
      → IsReachable e
      → All (λ c. (is_scalar c && ltb c 0x10000) ≡ true) (mapped_code_points e.char_map)
      → init_mapping sha256 secret_key (get_mappings e) new_encryptor ≡ (ok tt, e)
  unfolding init_mapping get_mappings
  init_mapping-get_mappings e reached small =
      let (out, replayed) = IsReachable-IsReplay e reached in
      rw (points_at-from_code_points (mapped_code_points e.char_map) small) (ground arith)

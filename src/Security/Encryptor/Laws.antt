-- ===== src/Security/Encryptor/Laws.antt =====
-- The two maps of an encryptor stay consistent, and what it has encrypted stays decodable.
use Prim.Native.Nat.{◌*◌, ◌/◌, ◌%◌}
use thunderchat_server.Base.{
  ℕ, zero, suc, ◌≤◌, ◌≡◌, refl, false, none, some, List, [], ◌∷◌, ◌++◌, arith, ◌==◌, length,
  length-append, nat_eq, list_eq, nat_beq_iff, Option-cases, Bool-cases, inl, inr, lists_equal_iff,
}
use thunderchat_server.Base.JsMap.{Map, get, has, get-set, get-set_self}
use thunderchat_server.Base.Action.{Result, Result-cases, ok, err, system_error}
use thunderchat_server.Security.Utf16.{
  Text, from_code_points, take, drop, take-append, drop-append, length-take, decimal,
}
use thunderchat_server.Security.Encryptor.{
  Encryptor, new_encryptor, decrypt_chunks, decrypt, encoding_of, encrypt_char, encrypt_all,
  remember,
}

-- Each code of the first map leads back in the second, and has eight characters.
pub record IsConsistent (e : Encryptor) : Type 0 where
  pub decodes :
      (c : ℕ) (code : Text) → get e.char_map c ≡ some code → get e.reverse_map code ≡ some c
  pub eight : (c : ℕ) (code : Text) → get e.char_map c ≡ some code → length code ≡ 8

pub new_encryptor-IsConsistent : IsConsistent new_encryptor
unfolding get
new_encryptor-IsConsistent = record {
  decodes = λ c code h. absurd (ground arith);
  eight = λ c code h. absurd (ground arith);
}

-- What is decoded once is decoded for ever.
abbrev pub Extends : Encryptor → Encryptor → Type 0
Extends e e' =
    (code : Text) (c : ℕ) → get e.reverse_map code ≡ some c → get e'.reverse_map code ≡ some c

-- A text that is the codes of code points.
pub data Decodes (e : Encryptor) : List ℕ → Text → Type 0 where
  nil : Decodes e [] []
  next :
      (c : ℕ)
      → (code : Text) → (cs : List ℕ) → (out : Text) → get e.reverse_map code ≡ some c
      → length code ≡ 8
      → (c == 0) ≡ false
      → Decodes e cs out
      → Decodes e (c ∷ cs) (code ++ out)

pub Decodes-Extends :
    {e e' : Encryptor} {cs : List ℕ} {out : Text}
    → Extends e e'
    → Decodes e cs out
    → Decodes e' cs out
Decodes-Extends x nil = nil
Decodes-Extends x (next c code cs out d l z rest) =
    next c code cs out (x code c d) l z (Decodes-Extends x rest)

length-Decodes :
    {e : Encryptor} {cs : List ℕ} {out : Text} → Decodes e cs out → length out ≡ length cs * 8
length-Decodes nil = refl
length-Decodes (next c code cs out d l z rest) =
    omega (arith, length-append code out, length-Decodes rest)

decrypt_chunks-Decodes :
    {e : Encryptor} {cs : List ℕ} {out : Text}
    → Decodes e cs out
    → decrypt_chunks (length cs) out e ≡ (ok (from_code_points cs), e)
unfolding from_code_points
decrypt_chunks-Decodes nil = refl
decrypt_chunks-Decodes (next zero code cs out d l z rest) = absurd (ground arith)
decrypt_chunks-Decodes {e} (next (suc c) code cs out d l z rest) =
    let first : take 8 (code ++ out) ≡ code = rw (← l) (take-append code out) in
    let others : drop 8 (code ++ out) ≡ out = rw (← l) (drop-append code out) in
    rw (first, d, others) (ground (arith, decrypt_chunks-Decodes rest))

pub decrypt-Decodes :
    {e : Encryptor} {cs : List ℕ} {out : Text}
    → Decodes e cs out
    → decrypt out e ≡ (ok (from_code_points cs), e)
unfolding decrypt
decrypt-Decodes {cs = cs} {out = out} d =
    let whole = length-Decodes d in
    let parts : length out / 8 ≡ length cs = omega arith in
    let even : length out % 8 ≡ 0 = omega arith in rw (parts, even) (decrypt_chunks-Decodes d)

free_get : (m : Map Text ℕ) (k : Text) → has m k ≡ false → get m k ≡ none
unfolding has
free_get m k h = ground arith

remember-Extends :
    (c : ℕ) (code : Text) (e : Encryptor)
    → get e.reverse_map code ≡ none
    → Extends e (remember c code e)
remember-Extends c code e free k x d =
    ground (arith, get-set e.reverse_map code k c, lists_equal_iff code k)

remember-IsConsistent :
    (c : ℕ) (code : Text) (e : Encryptor)
    → IsConsistent e
    → get e.reverse_map code ≡ none
    → length code ≡ 8
    → IsConsistent (remember c code e)
remember-IsConsistent c code e v free l = record {
  decodes = λ k x g. elim (Bool-cases (c == k)) [
    | inl same ↦
        ground
          (arith, get-set e.char_map c k code, get-set_self e.reverse_map code c, nat_beq_iff c k)
    | inr other ↦
        let old : get e.char_map k ≡ some x = ground (arith, get-set e.char_map c k code) in
        remember-Extends c code e free x k (v.decodes k x old)
  ];
  eight = λ k x g. elim (Bool-cases (c == k)) [
    | inl same ↦ ground (arith, get-set e.char_map c k code)
    | inr other ↦ v.eight k x (ground (arith, get-set e.char_map c k code))
  ];
}

ok_injective : {a b : Text} → ok a ≡ ok b → a ≡ b
ok_injective h = ground arith

module _ (sha256 : Text → Text) (secret_key : Text) where
  pub encrypt_char_result :
      (c : ℕ) (e : Encryptor)
      → (r : Result Text) × (e' : Encryptor) × (encrypt_char sha256 secret_key c e ≡ (r, e'))
  encrypt_char_result c e = (_, _, refl)

  pub encrypt_all_result :
      (cs : List ℕ) (e : Encryptor)
      → (r : Result Text) × (e' : Encryptor) × (encrypt_all sha256 secret_key cs e ≡ (r, e'))
  encrypt_all_result cs e = (_, _, refl)

module _ (sha256 : Text → Text) (secret_key : Text)
    (long : (t : Text) → 8 ≤ length (sha256 t)) where
  length-encoding_of : (c : ℕ) → length (encoding_of sha256 secret_key c) ≡ 8
  unfolding encoding_of
  length-encoding_of c = length-take 8 (sha256 (secret_key ++ decimal c)) (long _)

  -- What becomes of an encryptor that encrypts one code point.
  encrypt_char_lem :
      (c : ℕ) (e e' : Encryptor) (r : Result Text)
      → IsConsistent e
      → encrypt_char sha256 secret_key c e ≡ (r, e')
      → IsConsistent e'
        × Extends e e'
        × ((code : Text) → r ≡ ok code → (get e'.reverse_map code ≡ some c) × (length code ≡ 8))
  unfolding encrypt_char
  encrypt_char_lem c e e' r v h =
      let code = encoding_of sha256 secret_key c in
      elim (Option-cases (get e.char_map c)) [
        | inr (old, there) ↦
            let same : e' ≡ e = ground arith in
            let answer : r ≡ ok old = ground arith in
            rw (same, answer)
              (
                v,
                λ k x d. d,
                λ out o. rw (← ok_injective o) (v.decodes c old there, v.eight c old there),
              )
        | inl fresh ↦ elim (Bool-cases (has e.reverse_map code)) [
          | inl taken ↦
              let same : e' ≡ e = ground arith in
              let answer : r ≡ err system_error = ground arith in
              rw (same, answer) (v, λ k x d. d, λ out o. absurd (ground arith))
          | inr free ↦
              let now : e' ≡ remember c code e = ground arith in
              let answer : r ≡ ok code = ground arith in
              rw (now, answer)
                (
                  remember-IsConsistent c code e v (free_get e.reverse_map code free)
                      (length-encoding_of c),
                  remember-Extends c code e (free_get e.reverse_map code free),
                  λ out o.
                      rw (← ok_injective o)
                        (get-set_self e.reverse_map code c, length-encoding_of c),
                )
        ]
      ]

  pub encrypt_all_lem :
      (cs : List ℕ) (e e' : Encryptor) (r : Result Text)
      → IsConsistent e
      → encrypt_all sha256 secret_key cs e ≡ (r, e')
      → IsConsistent e' × Extends e e' × ((out : Text) → r ≡ ok out → Decodes e' cs out)
  unfolding encrypt_all
  encrypt_all_lem [] e e' r v h =
      let same : e' ≡ e = ground arith in
      let answer : r ≡ ok [] = ground arith in
      rw (same, answer) (v, λ k x d. d, λ out o. rw (← ok_injective o) nil)
  encrypt_all_lem (c ∷ cs) e e' r v h = elim (Bool-cases (c == 0)) [
    | inl null ↦
        let same : e' ≡ e = ground arith in
        let answer : r ≡ err system_error = ground arith in
        rw (same, answer) (v, λ k x d. d, λ out o. absurd (ground arith))
    | inr real ↦
        let (r1, e1, made1) = encrypt_char_result sha256 secret_key c e in
        let (v1, x1, f1) = encrypt_char_lem c e e1 r1 v made1 in
        elim (Result-cases r1) [
          | inr (x, failed) ↦
              let same : e' ≡ e1 = ground arith in
              let answer : r ≡ err x = ground arith in
              rw (same, answer) (v1, x1, λ out o. absurd (ground arith))
          | inl (code, made) ↦
              let (r2, e2, made2) = encrypt_all_result sha256 secret_key cs e1 in
              let (v2, x2, f2) = encrypt_all_lem cs e1 e2 r2 v1 made2 in
              let same : e' ≡ e2 = ground arith in
              elim (Result-cases r2) [
                | inr (x, failed) ↦
                    let answer : r ≡ err x = ground arith in
                    rw (same, answer)
                      (v2, λ k y d. x2 k y (x1 k y d), λ out o. absurd (ground arith))
                | inl (others, went) ↦
                    let answer : r ≡ ok (code ++ others) = ground arith in
                    let here = f1 code made in
                    rw (same, answer)
                      (
                        v2,
                        λ k y d. x2 k y (x1 k y d),
                        λ out o.
                            rw (← ok_injective o) (
                              next c code cs others (x2 code c here.0) here.1 real
                                (f2 others went)),
                      )
              ]
        ]
  ]
